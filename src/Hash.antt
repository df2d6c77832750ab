-- ===== src/Hash.antt =====
-- src/hash.c: a table of chains. A bucket is the list of its nodes from `p_nodes[i]` along `p_next`;
-- the `p_prev` pointers link the same nodes in the same order.
pub mod Chains
pub mod Finds
use cos_ftp_v.Base.{
  ℕ, zero, suc, ◌+◌, ◌-◌, ◌*◌, ◌/◌, ◌%◌, ◌^◌, ◌≤◌, ◌<◌, min, max, ◌≡◌, refl, sym, ap, ◌∙◌, subst,
  ◌≢◌, ◌↔◌, ◌⊎◌, inl, inr, Bool, true, false, not, ◌&&◌, ◌||◌, Option, none, some, List, [], ◌∷◌,
  ◌++◌, map, append-nil, append_assoc, arith, Bytes, codes, uint_mod, ltb, leb, ◌==◌, if◌then◌else◌,
  ltb→lt, lt→ltb, le→ltb, lt→leb, leb→le, le→leb, ==_iff, ==_refl, Bool-cases, Option-cases, tests,
  length, get_elem?, set, take, drop, replicate, length-append, length-take, length-drop,
  length-replicate, length-set, take-append-drop, take-length_append, drop-length_append,
  take-length, take-all, drop_split, drop_add, any_of, All, All-append, All-left, All-right, all_of,
  Outcome, ok, bug, die, exit, fault, ◌>>=◌, >>=-eq-ok, Ends, Returns, Ends-bind, Ends-mono,
  Returns-ok,
}

-- The caller's `hashfunc_t`, and `memcmp` on `key_size` bytes, which is equality.
pub record KeyOps (K : Type 0) : Type 0 where
  pub hash_func : ℕ → K → ℕ
  pub same_key : K → K → Bool
  pub hash_func_lt : (n : ℕ) (k : K) → 0 < n → hash_func n k < n
  pub same_key_iff : (a b : K) → (same_key a b ≡ true) ↔ (a ≡ b)

abbrev pub Chain : Type 0 → Type 0 → Type 0
Chain K V = List (K × V)

pub record Hash (K V : Type 0) : Type 0 where
  pub buckets : ℕ
  pub p_nodes : List (Chain K V)

unfoldable pub hash_alloc : {K V : Type 0} → ℕ → Hash K V
hash_alloc buckets = record { buckets = buckets; p_nodes = replicate buckets [] }

module _ {K V : Type 0} (ops : KeyOps K) where
  -- The `while` loop of `hash_get_node_by_key`.
  unfoldable pub find_in : K → Chain K V → Option V
  find_in k [] = none
  find_in k (node ∷ chain) = if ops.same_key k node.0 then some node.1 else find_in k chain

  -- The node that the loop stops at leaves its chain.
  unfoldable pub unlink : K → Chain K V → Chain K V
  unlink k [] = []
  unlink k (node ∷ chain) = if ops.same_key k node.0 then chain else node ∷ unlink k chain

  -- A write through the pointer that a lookup returned.
  unfoldable pub assign_in : K → V → Chain K V → Chain K V
  assign_in k v [] = []
  assign_in k v (node ∷ chain) =
      if ops.same_key k node.0 then (node.0, v) ∷ chain else node ∷ assign_in k v chain

  chain_or_fault : Option (Chain K V) → Outcome (Chain K V)
  chain_or_fault none = fault
  chain_or_fault (some chain) = ok chain

  unfoldable pub hash_get_bucket : Hash K V → K → Outcome (Chain K V)
  unfolding chain_or_fault
  hash_get_bucket t k =
      let bucket = ops.hash_func t.buckets k in
      if leb t.buckets bucket then bug else chain_or_fault (get_elem? t.p_nodes bucket)

  -- `*p_bucket = …`, or a change of a node on the chain.
  unfoldable pub put_bucket : Hash K V → K → Chain K V → Hash K V
  put_bucket t k chain = record t { p_nodes = set t.p_nodes (ops.hash_func t.buckets k) chain }

  unfoldable pub hash_lookup_entry : Hash K V → K → Outcome (Option V)
  hash_lookup_entry t k = hash_get_bucket t k >>= (λ chain. ok (find_in k chain))

  unfoldable pub hash_add_entry : Hash K V → K → V → Outcome (Hash K V)
  hash_add_entry t k v = hash_lookup_entry t k >>= (λ o. elim o [
    | none ↦ hash_get_bucket t k >>= (λ chain. ok (put_bucket t k ((k, v) ∷ chain)))
    | some _ ↦ bug
  ])

  unfoldable pub hash_free_entry : Hash K V → K → Outcome (Hash K V)
  hash_free_entry t k = hash_get_bucket t k >>= (λ chain. elim (find_in k chain) [
    | none ↦ bug
    | some _ ↦ ok (put_bucket t k (unlink k chain))
  ])

  unfoldable pub hash_assign : Hash K V → K → V → Outcome (Hash K V)
  hash_assign t k v = hash_get_bucket t k >>= (λ chain. elim (find_in k chain) [
    | none ↦ fault
    | some _ ↦ ok (put_bucket t k (assign_in k v chain))
  ])
