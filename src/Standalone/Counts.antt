-- ===== src/Standalone/Counts.antt =====
-- The table of counts per address: what counting a child, and dropping it, leaves.
use cos_ftp_v.Base.{
  ℕ, zero, suc, ◌+◌, ◌-◌, ◌%◌, ◌<◌, ◌≡◌, refl, sym, ap, ◌∙◌, inl, inr, false, Option, none, some,
  arith, uint_mod, ◌==◌, if◌then◌else◌, Bool-cases, Returns, Ends-bind, Ends-mono,
}
use cos_ftp_v.Hash.{KeyOps, Hash, hash_add_entry, hash_free_entry, hash_assign}
use cos_ftp_v.Hash.Finds.{
  IsValid, find, Updated, hash_add_entry-Updated, hash_free_entry-Updated, hash_assign-Updated,
  hash_lookup_entry-find,
}
use cos_ftp_v.Standalone.{count_child, discount_child, handle_ip_count, drop_ip_count}

-- An address with no child has no entry.
abbrev pub entry : ℕ → Option ℕ
entry zero = none
entry (suc n) = some (suc n)

module _ {Ip : Type 0} (ip_ops : KeyOps Ip) where
  -- The table holds the number of children of every address.
  pub record Counted (t : Hash Ip ℕ) (f : Ip → ℕ) : Type 0 where
    pub valid : IsValid ip_ops t
    pub counts : (q : Ip) → find ip_ops t q ≡ entry (f q)

  abbrev pub more : Ip → (Ip → ℕ) → Ip → ℕ
  more ip f q = if ip_ops.same_key q ip then suc (f q) else f q

  abbrev pub fewer : Ip → (Ip → ℕ) → Ip → ℕ
  fewer ip f q = if ip_ops.same_key q ip then f q - 1 else f q

  Updated-Counted :
      (t t1 : Hash Ip ℕ) (f g : Ip → ℕ) (ip : Ip) (r : Option ℕ)
      → Counted t f
      → Updated ip_ops t ip r t1
      → r ≡ entry (g ip)
      → ((q : Ip) → ip_ops.same_key q ip ≡ false → g q ≡ f q)
      → Counted t1 g
  Updated-Counted t t1 f g ip r c u e other = record {
    valid = u.still;
    counts = λ q. u.finds q ∙ elim (Bool-cases (ip_ops.same_key q ip)) [
      | inl same ↦ rw same (e ∙ ap (λ k. entry (g k)) (sym ((ip_ops.same_key_iff q ip).0 same)))
      | inr not_same ↦ rw not_same (c.counts q ∙ ap entry (sym (other q not_same)))
    ];
  }

  pub at_ip : (f : Ip → ℕ) (ip : Ip) → more ip f ip ≡ suc (f ip)
  at_ip f ip = rw ((ip_ops.same_key_iff ip ip).1 refl) refl

  at_fewer : (f : Ip → ℕ) (ip : Ip) → fewer ip f ip ≡ f ip - 1
  at_fewer f ip = rw ((ip_ops.same_key_iff ip ip).1 refl) refl

  here : (ip : Ip) (a r : Option ℕ) → (if ip_ops.same_key ip ip then r else a) ≡ r
  here ip a r = rw ((ip_ops.same_key_iff ip ip).1 refl) refl

  Updated-twice :
      (t t1 t2 : Hash Ip ℕ) (ip : Ip) (r1 r2 : Option ℕ)
      → Updated ip_ops t ip r1 t1
      → Updated ip_ops t1 ip r2 t2
      → Updated ip_ops t ip r2 t2
  Updated-twice t t1 t2 ip r1 r2 u v = record {
    still = v.still;
    finds = λ q. v.finds q ∙ elim (Bool-cases (ip_ops.same_key q ip)) [
      | inl same ↦ rw same refl
      | inr other ↦ rw other (u.finds q ∙ rw other refl)
    ];
  }

  pub handle_ip_count-Counted :
      (t : Hash Ip ℕ) (f : Ip → ℕ) (ip : Ip)
      → Counted t f
      → f ip + 1 < uint_mod
      → Returns (λ r. Counted r.0 (more ip f) × (r.1 ≡ f ip + 1)) (handle_ip_count ip_ops t ip)
  unfolding handle_ip_count count_child
  handle_ip_count-Counted t f ip c h =
      rw (hash_lookup_entry-find ip_ops t ip c.valid) (rw (c.counts ip) (go (f ip) refl))
    where
      go :
          (n : ℕ)
          → f ip ≡ n
          → Returns
              (λ r. Counted r.0 (more ip f) × (r.1 ≡ f ip + 1))
              (count_child ip_ops t ip (entry n))
      go zero e =
          Ends-bind ⊥ (Updated ip_ops t ip (some 1)) _ (hash_add_entry ip_ops t ip 1) _
            (hash_add_entry-Updated ip_ops t ip 1 c.valid (c.counts ip ∙ ap entry e))
            (λ t1 u. (
              Updated-Counted t t1 f (more ip f) ip (some 1) c u
                  (sym (ap entry (at_ip f ip ∙ ap suc e))) (λ q n. rw n refl),
              omega arith,
            ))
      go (suc n) e =
          let next : (suc n + 1) % uint_mod ≡ suc (suc n) = omega arith in
          rw next (
            Ends-bind ⊥ (Updated ip_ops t ip (some (suc (suc n)))) _
              (hash_assign ip_ops t ip (suc (suc n))) _
              (hash_assign-Updated ip_ops t ip (suc (suc n)) (suc n) c.valid
                (c.counts ip ∙ ap entry e))
              (λ t1 u. (
                Updated-Counted t t1 f (more ip f) ip (some (suc (suc n))) c u
                    (sym (ap entry (at_ip f ip ∙ ap suc e))) (λ q n. rw n refl),
                omega arith,
              )))

  pub drop_ip_count-Counted :
      (t : Hash Ip ℕ) (f : Ip → ℕ) (ip : Ip)
      → Counted t f
      → 0 < f ip
      → Returns (λ t1. Counted t1 (fewer ip f)) (drop_ip_count ip_ops t ip)
  unfolding drop_ip_count discount_child
  drop_ip_count-Counted t f ip c h =
      rw (hash_lookup_entry-find ip_ops t ip c.valid) (rw (c.counts ip) (go (f ip) refl))
    where
      go :
          (n : ℕ)
          → f ip ≡ n
          → Returns (λ t1. Counted t1 (fewer ip f)) (discount_child ip_ops t ip (entry n))
      go zero e = absurd (omega arith)
      go (suc zero) e =
          Ends-bind ⊥ (Updated ip_ops t ip (some 0)) _ (hash_assign ip_ops t ip 0) _
            (hash_assign-Updated ip_ops t ip 0 1 c.valid (c.counts ip ∙ ap entry e))
            (λ t1 u.
              Ends-mono ⊥ ⊥ (Updated ip_ops t1 ip none) _ (hash_free_entry ip_ops t1 ip)
                (λ impossible. impossible)
                (λ t2 v.
                  Updated-Counted t t2 f (fewer ip f) ip none c
                    (Updated-twice t t1 t2 ip _ none u v)
                    (sym (ap entry (at_fewer f ip ∙ ap (λ k. k - 1) e))) (λ q n. rw n refl))
                (hash_free_entry-Updated ip_ops t1 ip 0 u.still (u.finds ip ∙ here ip _ _)))
      go (suc (suc n)) e =
          let left : f ip - 1 ≡ suc n = omega arith in
          let back : suc (suc n) - 1 ≡ suc n = omega arith in
          let some_left : (suc (suc n) == 0) ≡ false = ground arith in
          let still_some : (suc n == 0) ≡ false = ground arith in
          rw (some_left, back, still_some)
            (Ends-bind ⊥ (Updated ip_ops t ip (some (suc n))) _ (hash_assign ip_ops t ip (suc n)) _
              (hash_assign-Updated ip_ops t ip (suc n) (suc (suc n)) c.valid
                (c.counts ip ∙ ap entry e))
              (λ t1 u.
                Updated-Counted t t1 f (fewer ip f) ip (some (suc n)) c u
                  (sym (ap entry (at_fewer f ip ∙ left))) (λ q n. rw n refl)))

  pub Counted-same :
      (t : Hash Ip ℕ) (f g : Ip → ℕ) → Counted t f → ((q : Ip) → f q ≡ g q) → Counted t g
  Counted-same t f g c e = record { valid = c.valid; counts = λ q. c.counts q ∙ ap entry (e q) }
