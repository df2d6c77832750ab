-- ===== src/Standalone/Accounts.antt =====
-- The accounts of the listener, against the children that live.
use cos_ftp_v.Base.{
  ℕ, suc, ◌+◌, ◌-◌, ◌%◌, ◌≤◌, ◌<◌, ◌≡◌, refl, sym, ap, ◌∙◌, inl, inr, Bool, true, false, none, some,
  List, [], ◌∷◌, arith, uint_mod, ◌==◌, if◌then◌else◌, Bool-cases, length, Returns, Ends-bind,
}
use cos_ftp_v.Hash.{KeyOps, Chain, Hash, find_in, unlink, hash_add_entry, hash_free_entry}
use cos_ftp_v.Hash.Chains.{find_in-unlink, unlink-Distinct, Distinct}
use cos_ftp_v.Hash.Finds.{
  IsValid, find, Updated, hash_alloc-IsValid, hash_add_entry-Updated, hash_free_entry-Updated,
  hash_lookup_entry-find,
}
use cos_ftp_v.Standalone.{
  pid_ops, Fork, parent, failed, child, reap_from, handle_ip_count, drop_ip_count, Listener,
  initial, reap_one, handle_sigchld, after_fork, accepted,
}
use cos_ftp_v.Standalone.Counts.{
  Counted, more, fewer, at_ip, handle_ip_count-Counted, drop_ip_count-Counted, Counted-same,
}

module _ {Ip : Type 0} (ip_ops : KeyOps Ip) where
  -- How many of the children are of the address.
  abbrev pub children_at : Chain ℕ Ip → Ip → ℕ
  children_at [] q = 0
  children_at (c ∷ live) q =
      if ip_ops.same_key q c.1 then suc (children_at live q) else children_at live q

  -- The listener's variables are the accounts of the children that live.
  pub record Accounts (live : Chain ℕ Ip) (s : Listener Ip) : Type 0 where
    pub no_twice : Distinct pid_ops live
    pub few : length live < uint_mod
    pub total : s.s_children ≡ length live
    pub per_ip : Counted ip_ops s.s_p_ip_count_hash (children_at live)
    pub pids_valid : IsValid pid_ops s.s_p_pid_ip_hash
    pub pids : (pid : ℕ) → find pid_ops s.s_p_pid_ip_hash pid ≡ find_in pid_ops pid live

  children_at_le : (live : Chain ℕ Ip) (q : Ip) → children_at live q ≤ length live
  children_at_le [] q = omega arith
  children_at_le (c ∷ live) q = ground (arith, children_at_le live q)

  children_at_pos :
      (live : Chain ℕ Ip) (pid : ℕ) (ip q : Ip)
      → find_in pid_ops pid live ≡ some ip
      → ip_ops.same_key q ip ≡ true
      → 0 < children_at live q
  unfolding find_in
  children_at_pos [] pid ip q h e = absurd cc
  children_at_pos (c ∷ live) pid ip q h e = elim (Bool-cases (ip_ops.same_key q c.1)) [
    | inl same ↦ rw same (omega arith)
    | inr other ↦ elim (Bool-cases (pid == c.0)) [
      | inl here ↦ let i : c.1 ≡ ip = ground (arith, h) in absurd (no_both _ (rw i at other) e)
      | inr later ↦ rw other (children_at_pos live pid ip q (ground (arith, h)) e)
    ]
  ]
    where
      no_both : (b : Bool) → b ≡ false → b ≡ true → ⊥
      no_both b f t = cc

  length-unlink :
      (live : Chain ℕ Ip) (pid : ℕ) (ip : Ip)
      → find_in pid_ops pid live ≡ some ip
      → length (unlink pid_ops pid live) + 1 ≡ length live
  unfolding find_in unlink
  length-unlink [] pid ip h = absurd cc
  length-unlink (c ∷ live) pid ip h = ground (arith, length-unlink live pid ip)

  children_at-unlink :
      (live : Chain ℕ Ip) (pid : ℕ) (ip q : Ip)
      → find_in pid_ops pid live ≡ some ip
      → fewer ip_ops ip (children_at live) q ≡ children_at (unlink pid_ops pid live) q
  unfolding find_in unlink
  children_at-unlink [] pid ip q h = absurd cc
  children_at-unlink (c ∷ live) pid ip q h = elim (Bool-cases (pid == c.0)) [
    | inl here ↦ let i : c.1 ≡ ip = ground (arith, h) in rw (here, i) (ground arith)
    | inr later ↦
        let found : find_in pid_ops pid live ≡ some ip = ground (arith, h) in
        rw later (
          rw (← children_at-unlink live pid ip q found)
            (ground (arith, children_at_pos live pid ip q found)))
  ]

  -- Reaping a child that lives returns, and the accounts are those of the other children.
  pub reap_one-Accounts :
      (live : Chain ℕ Ip) (s : Listener Ip) (pid : ℕ) (ip : Ip)
      → Accounts live s
      → find_in pid_ops pid live ≡ some ip
      → Returns (Accounts (unlink pid_ops pid live)) (reap_one ip_ops s pid)
  unfolding reap_one reap_from
  reap_one-Accounts live s pid ip a h =
      rw (hash_lookup_entry-find pid_ops s.s_p_pid_ip_hash pid a.pids_valid) (
        rw (a.pids pid ∙ h, reap_from)
          (Ends-bind ⊥ (λ t. Counted ip_ops t (fewer ip_ops ip (children_at live))) _
            (drop_ip_count ip_ops s.s_p_ip_count_hash ip) _
            (drop_ip_count-Counted ip_ops s.s_p_ip_count_hash (children_at live) ip a.per_ip
              (children_at_pos live pid ip ip h ((ip_ops.same_key_iff ip ip).1 refl)))
            (λ counts c.
              Ends-bind ⊥ (Updated pid_ops s.s_p_pid_ip_hash pid none) _
                (hash_free_entry pid_ops s.s_p_pid_ip_hash pid) _
                (hash_free_entry-Updated pid_ops s.s_p_pid_ip_hash pid ip a.pids_valid
                  (a.pids pid ∙ h))
                (λ pids u. left counts pids c u))))
    where
      left :
          (counts : Hash Ip ℕ) (pids : Hash ℕ Ip)
          → Counted ip_ops counts (fewer ip_ops ip (children_at live))
          → Updated pid_ops s.s_p_pid_ip_hash pid none pids
          → Accounts (unlink pid_ops pid live) (record {
            s_children = (s.s_children + uint_mod - 1) % uint_mod;
            s_p_ip_count_hash = counts;
            s_p_pid_ip_hash = pids;
          })
      left counts pids c u = record {
        no_twice = unlink-Distinct pid_ops pid live a.no_twice;
        few = omega (arith, length-unlink live pid ip h, a.few);
        total = omega (arith, length-unlink live pid ip h, a.few, a.total);
        per_ip = Counted-same ip_ops counts _ _ c (λ q. children_at-unlink live pid ip q h);
        pids_valid = u.still;
        pids = λ q.
            u.finds q
            ∙ ap (λ o. if q == pid then none else o) (a.pids q)
            ∙ sym (find_in-unlink pid_ops pid q live a.no_twice);
      }

  -- Every process reaped is a child that lived until then.
  abbrev pub Living : Chain ℕ Ip → List ℕ → Type 0
  Living live [] = Unit
  Living live (pid ∷ pids) =
      ((ip : Ip) × (find_in pid_ops pid live ≡ some ip)) × Living (unlink pid_ops pid live) pids

  abbrev pub survivors : Chain ℕ Ip → List ℕ → Chain ℕ Ip
  survivors live [] = live
  survivors live (pid ∷ pids) = survivors (unlink pid_ops pid live) pids

  -- From variables that are the accounts of the live children, where every process reaped is a
  -- child that lived until then, the handler for dead children returns and leaves the accounts
  -- of the survivors.
  pub handle_sigchld-Accounts :
      (live : Chain ℕ Ip) (s : Listener Ip) (pids : List ℕ)
      → Accounts live s
      → Living live pids
      → Returns (Accounts (survivors live pids)) (handle_sigchld ip_ops s pids)
  unfolding handle_sigchld
  handle_sigchld-Accounts live s [] a h = a
  handle_sigchld-Accounts live s (pid ∷ pids) a h =
      Ends-bind ⊥ (Accounts (unlink pid_ops pid live)) _ (reap_one ip_ops s pid) _
        (reap_one-Accounts live s pid h.0.0 a h.0.1)
        (λ s1 b. handle_sigchld-Accounts (unlink pid_ops pid live) s1 pids b h.1)

  -- A child that is new has a process number of its own.
  abbrev pub Fresh : Chain ℕ Ip → Fork → Type 0
  Fresh live (parent pid) = find_in pid_ops pid live ≡ none
  Fresh live failed = Unit
  Fresh live child = Unit

  -- What an accept leaves in the listener; in the child its copy no longer matters.
  abbrev pub After : Chain ℕ Ip → Ip → Fork → Listener Ip → Type 0
  After live ip (parent pid) s = Accounts ((pid, ip) ∷ live) s
  After live ip failed s = Accounts live s
  After live ip child s = Unit

  after_fork-After :
      (live : Chain ℕ Ip) (s : Listener Ip) (counts : Hash Ip ℕ) (ip : Ip) (new_child : Fork)
      → Accounts live s
      → length live + 1 < uint_mod
      → Fresh live new_child
      → Counted ip_ops counts (more ip_ops ip (children_at live))
      → Returns (After live ip new_child) (
          after_fork ip_ops
            (record s { s_children = (s.s_children + 1) % uint_mod; s_p_ip_count_hash = counts })
            ip
            new_child)
  unfolding after_fork find_in
  after_fork-After live s counts ip (parent pid) a h fresh c =
      Ends-bind ⊥ (Updated pid_ops s.s_p_pid_ip_hash pid (some ip)) _
        (hash_add_entry pid_ops s.s_p_pid_ip_hash pid ip) _
        (hash_add_entry-Updated pid_ops s.s_p_pid_ip_hash pid ip a.pids_valid (a.pids pid ∙ fresh))
        (λ pids u. record {
          no_twice = (fresh, a.no_twice);
          few = omega (arith, h);
          total = omega (arith, a.total, h);
          per_ip = c;
          pids_valid = u.still;
          pids = λ q. u.finds q ∙ ap (λ o. if q == pid then some ip else o) (a.pids q);
        })
  after_fork-After live s counts ip failed a h fresh c =
      Ends-bind ⊥ (λ t. Counted ip_ops t (fewer ip_ops ip (more ip_ops ip (children_at live)))) _
        (drop_ip_count ip_ops counts ip) _
        (drop_ip_count-Counted ip_ops counts (more ip_ops ip (children_at live)) ip c
          (omega (arith, at_ip ip_ops (children_at live) ip)))
        (λ counts1 d. record {
          no_twice = a.no_twice;
          few = a.few;
          total = omega (arith, a.total, h);
          per_ip = Counted-same ip_ops counts1 _ _ d (λ q. ground arith);
          pids_valid = a.pids_valid;
          pids = a.pids;
        })
  after_fork-After live s counts ip child a h fresh c = tt

  -- From variables that are the accounts of the live children, with fewer than 2^32 - 1 of them and
  -- a new process number, an accept returns: the parent has the accounts with the new child, or as
  -- they were if there is none, and the child's limits are checked against one more than the live
  -- children, in all and of its address.
  pub accepted-After :
      (live : Chain ℕ Ip) (s : Listener Ip) (ip : Ip) (new_child : Fork)
      → Accounts live s
      → length live + 1 < uint_mod
      → Fresh live new_child
      → Returns
          (λ r.
            After live ip new_child r.0
            × (r.1.num_children ≡ length live + 1)
            × (r.1.num_this_ip ≡ children_at live ip + 1))
          (accepted ip_ops s ip new_child)
  unfolding accepted
  accepted-After live s ip new_child a h fresh =
      Ends-bind ⊥
        (λ r.
          Counted ip_ops r.0 (more ip_ops ip (children_at live)) × (r.1 ≡ children_at live ip + 1))
        _ (handle_ip_count ip_ops s.s_p_ip_count_hash ip) _
        (handle_ip_count-Counted ip_ops s.s_p_ip_count_hash (children_at live) ip a.per_ip
          (omega (arith, children_at_le live ip)))
        (λ r c.
          Ends-bind ⊥ (After live ip new_child) _
            (after_fork ip_ops
              (record s { s_children = (s.s_children + 1) % uint_mod; s_p_ip_count_hash = r.0 }) ip
              new_child)
            _ (after_fork-After live s r.0 ip new_child a h fresh c.0)
            (λ s1 after. (after, omega (arith, a.total, h), c.1)))

  -- The listener starts with the accounts of no child.
  pub initial-Accounts : Accounts [] initial
  unfolding initial find_in
  initial-Accounts = record {
    no_twice = tt;
    few = omega arith;
    total = refl;
    per_ip = record {
      valid = (hash_alloc-IsValid ip_ops 256 (omega arith)).0;
      counts = (hash_alloc-IsValid ip_ops 256 (omega arith)).1;
    };
    pids_valid = (hash_alloc-IsValid pid_ops 256 (omega arith)).0;
    pids = (hash_alloc-IsValid pid_ops 256 (omega arith)).1;
  }
