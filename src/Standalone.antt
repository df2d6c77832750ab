-- ===== src/Standalone.antt =====
-- src/standalone.c: the listener's accounts of its children, per process and per address.
pub mod Counts
pub mod Accounts
use cos_ftp_v.Base.{
  ℕ, zero, suc, ◌+◌, ◌-◌, ◌*◌, ◌/◌, ◌%◌, ◌^◌, ◌≤◌, ◌<◌, min, max, ◌≡◌, refl, sym, ap, ◌∙◌, subst,
  ◌≢◌, ◌↔◌, ◌⊎◌, inl, inr, Bool, true, false, not, ◌&&◌, ◌||◌, Option, none, some, List, [], ◌∷◌,
  ◌++◌, map, append-nil, append_assoc, arith, Bytes, codes, uint_mod, ltb, leb, ◌==◌, if◌then◌else◌,
  ltb→lt, lt→ltb, le→ltb, lt→leb, leb→le, le→leb, ==_iff, ==_refl, Bool-cases, Option-cases, tests,
  length, get_elem?, set, take, drop, replicate, length-append, length-take, length-drop,
  length-replicate, length-set, take-append-drop, take-length_append, drop-length_append,
  take-length, take-all, drop_split, drop_add, any_of, All, All-append, All-left, All-right, all_of,
  Outcome, ok, bug, die, exit, fault, ◌>>=◌, >>=-eq-ok, Ends, Returns, Ends-bind, Ends-mono,
  Returns-ok,
}
use cos_ftp_v.Hash.{
  KeyOps, Chain, Hash, hash_alloc, find_in, unlink, hash_lookup_entry, hash_add_entry,
  hash_free_entry, hash_assign,
}
use native.Mathlib.Nat.{mod-lt}

mod_lt : (n k : ℕ) → 0 < n → k % n < n
mod_lt n k h = mod-lt k {m = n} h

unfoldable pub hash_pid : ℕ → ℕ → ℕ
hash_pid buckets pid = pid % buckets

pub hash_pid_lt : (n k : ℕ) → 0 < n → hash_pid n k < n
unfolding hash_pid
hash_pid_lt n k h = mod_lt n k h

-- Process numbers as keys.
abbrev pub pid_ops : KeyOps ℕ
pid_ops = record {
  hash_func = hash_pid;
  same_key = ◌==◌;
  hash_func_lt = hash_pid_lt;
  same_key_iff = ==_iff;
}

-- What `fork` returns: to the parent the child's process number or an error, to the child 0.
pub data Fork : Type 0 where
  parent : ℕ → Fork
  failed child : Fork

-- `struct vsf_client_launch`
pub record ClientLaunch : Type 0 where
  pub num_children : ℕ
  pub num_this_ip : ℕ

-- An address is a key: `ip_ops` is `hash_ip` with the comparison of `s_ipaddr_size` bytes.
module _ {Ip : Type 0} (ip_ops : KeyOps Ip) where
  -- `p_count`, as it was found, decides.
  count_child : Hash Ip ℕ → Ip → Option ℕ → Outcome (Hash Ip ℕ × ℕ)
  count_child t ip none = hash_add_entry ip_ops t ip 1 >>= (λ t1. ok (t1, 1))
  count_child t ip (some count) =
      hash_assign ip_ops t ip ((count + 1) % uint_mod) >>= (λ t1. ok (t1, (count + 1) % uint_mod))

  unfoldable pub handle_ip_count : Hash Ip ℕ → Ip → Outcome (Hash Ip ℕ × ℕ)
  unfolding count_child
  handle_ip_count t ip = hash_lookup_entry ip_ops t ip >>= count_child t ip

  discount_child : Hash Ip ℕ → Ip → Option ℕ → Outcome (Hash Ip ℕ)
  discount_child t ip none = bug
  discount_child t ip (some count) =
      if count == 0
      then bug
      else (hash_assign ip_ops t ip (count - 1)
          >>= (λ t1. if count - 1 == 0 then hash_free_entry ip_ops t1 ip else ok t1))

  unfoldable pub drop_ip_count : Hash Ip ℕ → Ip → Outcome (Hash Ip ℕ)
  unfolding discount_child
  drop_ip_count t ip = hash_lookup_entry ip_ops t ip >>= discount_child t ip

-- The static variables.
pub record Listener (Ip : Type 0) : Type 0 where
  pub s_children : ℕ
  pub s_p_ip_count_hash : Hash Ip ℕ
  pub s_p_pid_ip_hash : Hash ℕ Ip

unfoldable pub initial : {Ip : Type 0} → Listener Ip
initial = record {
  s_children = 0;
  s_p_ip_count_hash = hash_alloc 256;
  s_p_pid_ip_hash = hash_alloc 256;
}

module _ {Ip : Type 0} (ip_ops : KeyOps Ip) where
  -- One round of the loop of `handle_sigchld`. A process that the table lacks gives
  -- `drop_ip_count` a null pointer.
  reap_from : Listener Ip → ℕ → Option Ip → Outcome (Listener Ip)
  reap_from s pid none = fault
  reap_from s pid (some ip) = drop_ip_count ip_ops s.s_p_ip_count_hash ip >>= (λ counts.
      hash_free_entry pid_ops s.s_p_pid_ip_hash pid >>= (λ pids. ok (record {
        s_children = (s.s_children + uint_mod - 1) % uint_mod;
        s_p_ip_count_hash = counts;
        s_p_pid_ip_hash = pids;
      })))

  unfoldable pub reap_one : Listener Ip → ℕ → Outcome (Listener Ip)
  unfolding reap_from
  reap_one s pid = hash_lookup_entry pid_ops s.s_p_pid_ip_hash pid >>= reap_from s pid

  -- The process numbers are those that `vsf_sysutil_wait_reap_one` returns before it returns 0.
  unfoldable pub handle_sigchld : Listener Ip → List ℕ → Outcome (Listener Ip)
  handle_sigchld s [] = ok s
  handle_sigchld s (pid ∷ pids) = reap_one s pid >>= (λ s1. handle_sigchld s1 pids)

  after_fork : Listener Ip → Ip → Fork → Outcome (Listener Ip)
  after_fork s ip (parent pid) =
      hash_add_entry pid_ops s.s_p_pid_ip_hash pid ip
      >>= (λ pids. ok (record s { s_p_pid_ip_hash = pids }))
  after_fork s ip failed = drop_ip_count ip_ops s.s_p_ip_count_hash ip >>= (λ counts. ok (record s {
    s_children = (s.s_children + uint_mod - 1) % uint_mod;
    s_p_ip_count_hash = counts;
  }))
  after_fork s ip child = ok s

  -- The loop of `vsf_standalone_main` behind an accept that did not fail, and `child_info`.
  unfoldable pub accepted : Listener Ip → Ip → Fork → Outcome (Listener Ip × ClientLaunch)
  unfolding after_fork
  accepted s ip new_child =
      let children = (s.s_children + 1) % uint_mod in
      handle_ip_count ip_ops s.s_p_ip_count_hash ip >>= (λ r.
        after_fork (record s { s_children = children; s_p_ip_count_hash = r.0 }) ip new_child
        >>= (λ s'. ok (s', record { num_children = children; num_this_ip = r.1 })))
