-- ===== src/Hash/Chains.antt =====
-- A chain of src/hash.c: what is found on it after each change.
use cos_ftp_v.Base.{
  ◌≡◌, refl, sym, ap, ◌∙◌, subst, inl, inr, Bool, true, false, Option, none, some, [], ◌∷◌, arith,
  if◌then◌else◌, Bool-cases,
}
use cos_ftp_v.Hash.{KeyOps, Chain, find_in, unlink, assign_in}

pub bool_clash : (b : Bool) → b ≡ true → b ≡ false → ⊥
bool_clash b t f = cc

module _ {K : Type 0} (ops : KeyOps K) where
  same_refl : (k : K) → ops.same_key k k ≡ true
  same_refl k = (ops.same_key_iff k k).1 refl

  pub same_eq : (a b : K) → ops.same_key a b ≡ true → a ≡ b
  same_eq a b h = (ops.same_key_iff a b).0 h

module _ {K V : Type 0} (ops : KeyOps K) where
  -- No key stands twice on a chain.
  abbrev pub Distinct : Chain K V → Type 0
  Distinct [] = Unit
  Distinct (node ∷ chain) = (find_in ops node.0 chain ≡ none) × Distinct chain

  -- What the chain holds once the entry of `k` is `r`.
  unfoldable pub Holding : K → Option V → Chain K V → Chain K V → Type 0
  Holding k r before after =
      (q : K) → find_in ops q after ≡ (if ops.same_key q k then r else find_in ops q before)

  find_in-other :
      (k q : K) (v : V) (chain : Chain K V)
      → ops.same_key q k ≡ false
      → find_in ops q ((k, v) ∷ chain) ≡ find_in ops q chain
  unfolding find_in
  find_in-other k q v chain h = rw h refl

  pub unlink-Holding :
      (k : K) (chain : Chain K V) → Distinct chain → Holding k none chain (unlink ops k chain)
  unfolding find_in unlink Holding
  unlink-Holding k [] d q = ground arith
  unlink-Holding k (node ∷ chain) d q = elim (Bool-cases (ops.same_key k node.0)) [
    | inl t ↦
        let e : k ≡ node.0 = same_eq ops k node.0 t in
        let s : ops.same_key q node.0 ≡ ops.same_key q k = ap (ops.same_key q) (sym e) in
        elim (Bool-cases (ops.same_key q k)) [
          | inl u ↦
              let g : find_in ops q chain ≡ none =
                subst (λ x. find_in ops x chain ≡ none) (sym (same_eq ops q k u ∙ e)) d.0 in
              rw (t, u, g) refl
          | inr n ↦ rw (t, s, n) refl
        ]
    | inr f ↦
        let ih = unlink-Holding k chain d.1 q in
        elim (Bool-cases (ops.same_key q k)) [
          | inl u ↦
              let g : ops.same_key q node.0 ≡ false =
                ap (λ x. ops.same_key x node.0) (same_eq ops q k u) ∙ f in
              rw (f, g, u, ih, u) refl
          | inr n ↦ rw (f, n, ih, n) refl
        ]
  ]

  pub assign_in-Holding :
      (k : K) (v old : V) (chain : Chain K V)
      → find_in ops k chain ≡ some old
      → Holding k (some v) chain (assign_in ops k v chain)
  unfolding find_in assign_in Holding
  assign_in-Holding k v old [] h q = ground arith
  assign_in-Holding k v old (node ∷ chain) h q = elim (Bool-cases (ops.same_key k node.0)) [
    | inl t ↦
        let e : k ≡ node.0 = same_eq ops k node.0 t in
        let s : ops.same_key q node.0 ≡ ops.same_key q k = ap (ops.same_key q) (sym e) in
        elim (Bool-cases (ops.same_key q k)) [
          | inl u ↦ rw (t, s, u) refl
          | inr n ↦ rw (t, s, n) refl
        ]
    | inr f ↦
        let r : find_in ops k chain ≡ some old = ground (arith) in
        let ih = assign_in-Holding k v old chain r q in
        elim (Bool-cases (ops.same_key q k)) [
          | inl u ↦
              let g : ops.same_key q node.0 ≡ false =
                ap (λ x. ops.same_key x node.0) (same_eq ops q k u) ∙ f in
              rw (f, g, u, ih, u) refl
          | inr n ↦ rw (f, n, ih, n) refl
        ]
  ]

  -- A chain that lost the node of `k` has the other nodes.
  pub find_in-unlink :
      (k q : K) (chain : Chain K V)
      → Distinct chain
      → find_in ops q (unlink ops k chain)
        ≡ (if ops.same_key q k then none else find_in ops q chain)
  unfolding Holding
  find_in-unlink k q chain d = unlink-Holding k chain d q

  unlink_head :
      (k : K) (node : K × V) (chain : Chain K V)
      → ops.same_key k node.0 ≡ true
      → unlink ops k (node ∷ chain) ≡ chain
  unfolding unlink
  unlink_head k node chain t = rw t refl

  unlink_tail :
      (k : K) (node : K × V) (chain : Chain K V)
      → ops.same_key k node.0 ≡ false
      → unlink ops k (node ∷ chain) ≡ node ∷ unlink ops k chain
  unfolding unlink
  unlink_tail k node chain f = rw f refl

  gone :
      (k q : K) (chain : Chain K V)
      → find_in ops q chain ≡ none
      → (if ops.same_key q k then none else find_in ops q chain) ≡ none
  gone k q chain h = ground (arith, h)

  pub unlink-Distinct : (k : K) (chain : Chain K V) → Distinct chain → Distinct (unlink ops k chain)
  unfolding Holding unlink
  unlink-Distinct k [] d = tt
  unlink-Distinct k (node ∷ chain) d = elim (Bool-cases (ops.same_key k node.0)) [
    | inl t ↦ subst Distinct (sym (unlink_head k node chain t)) d.1
    | inr f ↦
        subst Distinct (sym (unlink_tail k node chain f)) (
          (unlink-Holding k chain d.1 node.0) ∙ gone k node.0 chain d.0,
          unlink-Distinct k chain d.1,
        )
  ]

  pub cons-Holding : (k : K) (v : V) (chain : Chain K V) → Holding k (some v) chain ((k, v) ∷ chain)
  unfolding Holding find_in
  cons-Holding k v chain q = refl

  assign_head :
      (k : K) (v : V) (node : K × V) (chain : Chain K V)
      → ops.same_key k node.0 ≡ true
      → assign_in ops k v (node ∷ chain) ≡ (node.0, v) ∷ chain
  unfolding assign_in
  assign_head k v node chain t = rw t refl

  assign_tail :
      (k : K) (v : V) (node : K × V) (chain : Chain K V)
      → ops.same_key k node.0 ≡ false
      → assign_in ops k v (node ∷ chain) ≡ node ∷ assign_in ops k v chain
  unfolding assign_in
  assign_tail k v node chain f = rw f refl

  assign_in-none :
      (k q : K) (v : V) (chain : Chain K V)
      → find_in ops q chain ≡ none
      → find_in ops q (assign_in ops k v chain) ≡ none
  unfolding find_in assign_in
  assign_in-none k q v [] h = refl
  assign_in-none k q v (node ∷ chain) h = elim (Bool-cases (ops.same_key k node.0)) [
    | inl t ↦ elim (Bool-cases (ops.same_key q node.0)) [
      | inl u ↦ absurd (ground (arith, h, u))
      | inr n ↦ rw (t, n) (ground (arith, h))
    ]
    | inr f ↦ let ih = assign_in-none k q v chain in rw f (ground (arith, ih, h))
  ]

  pub assign_in-Distinct :
      (k : K) (v : V) (chain : Chain K V) → Distinct chain → Distinct (assign_in ops k v chain)
  unfolding assign_in
  assign_in-Distinct k v [] d = tt
  assign_in-Distinct k v (node ∷ chain) d = elim (Bool-cases (ops.same_key k node.0)) [
    | inl t ↦ subst Distinct (sym (assign_head k v node chain t)) d
    | inr f ↦
        subst Distinct (sym (assign_tail k v node chain f))
          (assign_in-none k node.0 v chain d.0, assign_in-Distinct k v chain d.1)
  ]
