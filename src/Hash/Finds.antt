-- ===== src/Hash/Finds.antt =====
-- The table is a finite map: what a lookup finds after each operation.
use cos_ftp_v.Base.{
  ℕ, zero, suc, ◌<◌, ◌≡◌, refl, sym, ap, ◌∙◌, subst, inl, inr, Bool, true, false, Option, none,
  some, List, [], ◌∷◌, arith, ◌==◌, if◌then◌else◌, lt→leb, ==_iff, Bool-cases, length, get_elem?,
  set, replicate, length-replicate, length-set, All, Outcome, ok, bug, fault, Returns,
}
use cos_ftp_v.Hash.{
  KeyOps, Chain, Hash, hash_alloc, find_in, unlink, assign_in, chain_or_fault, hash_get_bucket,
  put_bucket, hash_lookup_entry, hash_add_entry, hash_free_entry, hash_assign,
}
use cos_ftp_v.Hash.Chains.{
  bool_clash, same_eq, Distinct, Holding, unlink-Holding, assign_in-Holding, cons-Holding,
  assign_in-Distinct, unlink-Distinct,
}

module _ {K V : Type 0} (ops : KeyOps K) where
  pub record IsValid (t : Hash K V) : Type 0 where
    pub some_buckets : 0 < t.buckets
    pub sized : length t.p_nodes ≡ t.buckets
    pub distinct : All (Distinct ops) t.p_nodes

  abbrev pub chain_at : List (Chain K V) → ℕ → Chain K V
  chain_at [] i = []
  chain_at (chain ∷ chains) zero = chain
  chain_at (chain ∷ chains) (suc i) = chain_at chains i

  -- The map that the table stands for.
  unfoldable pub find : Hash K V → K → Option V
  find t k = find_in ops k (chain_at t.p_nodes (ops.hash_func t.buckets k))

  get_elem?-chain_at :
      (chains : List (Chain K V)) (i : ℕ)
      → i < length chains
      → get_elem? chains i ≡ some (chain_at chains i)
  get_elem?-chain_at [] i h = absurd (omega arith)
  get_elem?-chain_at (chain ∷ chains) zero h = refl
  get_elem?-chain_at (chain ∷ chains) (suc i) h = get_elem?-chain_at chains i (omega arith)

  chain_at-set :
      (chains : List (Chain K V)) (i j : ℕ) (chain : Chain K V)
      → i < length chains
      → chain_at (set chains i chain) j ≡ (if i == j then chain else chain_at chains j)
  chain_at-set [] i j chain h = absurd (omega arith)
  chain_at-set (c ∷ chains) zero zero chain h = refl
  chain_at-set (c ∷ chains) zero (suc j) chain h = ground arith
  chain_at-set (c ∷ chains) (suc i) zero chain h = ground arith
  chain_at-set (c ∷ chains) (suc i) (suc j) chain h =
      chain_at-set chains i j chain (omega arith) ∙ ground arith

  All-set :
      (chains : List (Chain K V)) (i : ℕ) (chain : Chain K V)
      → All (Distinct ops) chains
      → Distinct ops chain
      → All (Distinct ops) (set chains i chain)
  All-set [] i chain h d = tt
  All-set (c ∷ chains) zero chain h d = (d, h.1)
  All-set (c ∷ chains) (suc i) chain h d = (h.0, All-set chains i chain h.1 d)

  All-chain_at :
      (chains : List (Chain K V)) (i : ℕ)
      → All (Distinct ops) chains
      → Distinct ops (chain_at chains i)
  All-chain_at [] i h = tt
  All-chain_at (c ∷ chains) zero h = h.0
  All-chain_at (c ∷ chains) (suc i) h = All-chain_at chains i h.1

  bucket_lem :
      (t : Hash K V) (k : K)
      → IsValid t
      → hash_get_bucket ops t k ≡ ok (chain_at t.p_nodes (ops.hash_func t.buckets k))
  unfolding hash_get_bucket chain_or_fault
  bucket_lem t k v =
      let inside : ops.hash_func t.buckets k < t.buckets =
        ops.hash_func_lt t.buckets k v.some_buckets in
      rw (lt→leb t.buckets (ops.hash_func t.buckets k) inside) (
        rw (get_elem?-chain_at t.p_nodes (ops.hash_func t.buckets k) (omega (arith, v.sized))) refl)

  -- A lookup never stops, and gives what the map holds.
  pub hash_lookup_entry-find :
      (t : Hash K V) (k : K) → IsValid t → hash_lookup_entry ops t k ≡ ok (find t k)
  unfolding hash_lookup_entry find
  hash_lookup_entry-find t k v = rw (bucket_lem t k v) refl

  ap-if :
      (b : Bool) (f : Chain K V → Option V) (x y : Chain K V)
      → f (if b then x else y) ≡ (if b then f x else f y)
  ap-if true f x y = refl
  ap-if false f x y = refl

  find-put_bucket :
      (t : Hash K V) (k q : K) (chain : Chain K V)
      → IsValid t
      → find (put_bucket ops t k chain) q ≡ (
          if ops.hash_func t.buckets k == ops.hash_func t.buckets q
          then find_in ops q chain
          else find t q)
  unfolding find put_bucket
  find-put_bucket t k q chain v =
      let inside : ops.hash_func t.buckets k < length t.p_nodes =
        subst (λ n. ops.hash_func t.buckets k < n) (sym v.sized)
          (ops.hash_func_lt t.buckets k v.some_buckets) in
      rw
        (chain_at-set t.p_nodes (ops.hash_func t.buckets k) (ops.hash_func t.buckets q) chain
          inside)
        (ap-if (ops.hash_func t.buckets k == ops.hash_func t.buckets q) (find_in ops q) chain
          (chain_at t.p_nodes (ops.hash_func t.buckets q)))

  put_bucket-IsValid :
      (t : Hash K V) (k : K) (chain : Chain K V)
      → IsValid t
      → Distinct ops chain
      → IsValid (put_bucket ops t k chain)
  unfolding put_bucket
  put_bucket-IsValid t k chain v d = record {
    some_buckets = v.some_buckets;
    sized = length-set t.p_nodes (ops.hash_func t.buckets k) chain ∙ v.sized;
    distinct = All-set t.p_nodes (ops.hash_func t.buckets k) chain v.distinct d;
  }

  All-replicate :
      (n : ℕ) (chain : Chain K V) → Distinct ops chain → All (Distinct ops) (replicate n chain)
  All-replicate zero chain d = tt
  All-replicate (suc n) chain d = (d, All-replicate n chain d)

  chain_at-empty : (n i : ℕ) → chain_at (replicate n []) i ≡ []
  chain_at-empty zero i = refl
  chain_at-empty (suc n) zero = refl
  chain_at-empty (suc n) (suc i) = chain_at-empty n i

  put_bucket-changes :
      (t : Hash K V) (k q : K) (r : Option V) (chain : Chain K V)
      → IsValid t
      → Holding ops k r (chain_at t.p_nodes (ops.hash_func t.buckets k)) chain
      → find (put_bucket ops t k chain) q ≡ (if ops.same_key q k then r else find t q)
  unfolding Holding find
  put_bucket-changes t k q r chain v h =
      find-put_bucket t k q chain v
      ∙ elim (Bool-cases (ops.hash_func t.buckets k == ops.hash_func t.buckets q)) [
        | inl e ↦ rw (e, sym ((==_iff _ _).0 e)) (h q)
        | inr n ↦ elim (Bool-cases (ops.same_key q k)) [
          | inl u ↦ absurd (
              bool_clash _ ((==_iff _ _).1 (ap (ops.hash_func t.buckets) (sym (same_eq ops q k u))))
                n)
          | inr f ↦ rw (n, f) refl
        ]
      ]

  find_chain :
      (t : Hash K V) (k : K)
      → find t k ≡ find_in ops k (chain_at t.p_nodes (ops.hash_func t.buckets k))
  unfolding find
  find_chain t k = refl

  -- What an operation that sets the entry of `k` to `r` leaves.
  pub record Updated (t : Hash K V) (k : K) (r : Option V) (t1 : Hash K V) : Type 0 where
    pub still : IsValid t1
    pub finds : (q : K) → find t1 q ≡ (if ops.same_key q k then r else find t q)

  add_eq :
      (t : Hash K V) (k : K) (v : V)
      → IsValid t
      → find t k ≡ none
      → hash_add_entry ops t k v
        ≡ ok (put_bucket ops t k ((k, v) ∷ chain_at t.p_nodes (ops.hash_func t.buckets k)))
  unfolding hash_add_entry
  add_eq t k v i h = rw (hash_lookup_entry-find t k i, h, bucket_lem t k i) refl

  free_eq :
      (t : Hash K V) (k : K) (old : V)
      → IsValid t
      → find t k ≡ some old
      → hash_free_entry ops t k
        ≡ ok (put_bucket ops t k (unlink ops k (chain_at t.p_nodes (ops.hash_func t.buckets k))))
  unfolding hash_free_entry
  free_eq t k old i h = rw (bucket_lem t k i) (
      ap
        (λ o. elim o as (λ _. Outcome (Hash K V)) [
          | none ↦ bug
          | some _ ↦
              ok
                (put_bucket ops t k (unlink ops k (chain_at t.p_nodes (ops.hash_func t.buckets k))))
        ])
        (sym (find_chain t k) ∙ h))

  assign_eq :
      (t : Hash K V) (k : K) (v old : V)
      → IsValid t
      → find t k ≡ some old
      → hash_assign ops t k v
        ≡ ok (
            put_bucket ops t k (assign_in ops k v (chain_at t.p_nodes (ops.hash_func t.buckets k))))
  unfolding hash_assign
  assign_eq t k v old i h = rw (bucket_lem t k i) (
      ap
        (λ o. elim o as (λ _. Outcome (Hash K V)) [
          | none ↦ fault
          | some _ ↦ ok (
              put_bucket ops t k
                (assign_in ops k v (chain_at t.p_nodes (ops.hash_func t.buckets k))))
        ])
        (sym (find_chain t k) ∙ h))

  put_bucket-Updated :
      (t : Hash K V) (k : K) (r : Option V) (chain : Chain K V)
      → IsValid t
      → Distinct ops chain
      → Holding ops k r (chain_at t.p_nodes (ops.hash_func t.buckets k)) chain
      → Updated t k r (put_bucket ops t k chain)
  put_bucket-Updated t k r chain i d h = record {
    still = put_bucket-IsValid t k chain i d;
    finds = λ q. put_bucket-changes t k q r chain i h;
  }

  here_Distinct :
      (t : Hash K V) (k : K)
      → IsValid t
      → Distinct ops (chain_at t.p_nodes (ops.hash_func t.buckets k))
  here_Distinct t k i = All-chain_at t.p_nodes (ops.hash_func t.buckets k) i.distinct

  -- In a valid table, adding a key that its map lacks returns a valid table, whose map has the
  -- new entry and is otherwise the same.
  pub hash_add_entry-Updated :
      (t : Hash K V) (k : K) (v : V)
      → IsValid t
      → find t k ≡ none
      → Returns (Updated t k (some v)) (hash_add_entry ops t k v)
  hash_add_entry-Updated t k v i h =
      subst (Returns (Updated t k (some v))) (sym (add_eq t k v i h)) (
        put_bucket-Updated t k (some v) _ i (sym (find_chain t k) ∙ h, here_Distinct t k i)
          (cons-Holding ops k v _))

  -- In a valid table, freeing a key that its map holds returns a valid table, whose map lacks
  -- the key and is otherwise the same.
  pub hash_free_entry-Updated :
      (t : Hash K V) (k : K) (old : V)
      → IsValid t
      → find t k ≡ some old
      → Returns (Updated t k none) (hash_free_entry ops t k)
  hash_free_entry-Updated t k old i h =
      subst (Returns (Updated t k none)) (sym (free_eq t k old i h)) (
        put_bucket-Updated t k none _ i (unlink-Distinct ops k _ (here_Distinct t k i))
          (unlink-Holding ops k _ (here_Distinct t k i)))

  -- A write through a found pointer returns a valid table, whose map has the new value at the key
  -- and is otherwise the same.
  pub hash_assign-Updated :
      (t : Hash K V) (k : K) (v old : V)
      → IsValid t
      → find t k ≡ some old
      → Returns (Updated t k (some v)) (hash_assign ops t k v)
  hash_assign-Updated t k v old i h =
      subst (Returns (Updated t k (some v))) (sym (assign_eq t k v old i h)) (
        put_bucket-Updated t k (some v) _ i (assign_in-Distinct ops k v _ (here_Distinct t k i))
          (assign_in-Holding ops k v old _ (sym (find_chain t k) ∙ h)))

  -- A new table with at least one bucket is valid, and its map is empty.
  pub hash_alloc-IsValid :
      (buckets : ℕ)
      → 0 < buckets
      → IsValid (hash_alloc buckets) × ((q : K) → find (hash_alloc buckets) q ≡ none)
  unfolding hash_alloc find find_in
  hash_alloc-IsValid buckets h = (
    record {
      some_buckets = h;
      sized = length-replicate buckets [];
      distinct = All-replicate buckets [] tt;
    },
    λ q. ap (find_in ops q) (chain_at-empty buckets (ops.hash_func buckets q)),
  )
