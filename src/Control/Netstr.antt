-- ===== src/Control/Netstr.antt =====
-- src/netstr.c: `str_netfd_alloc`, which reads one line without taking a byte that is behind it.
pub mod Reads
use cos_ftp_v.Base.{
  ℕ, zero, suc, ◌+◌, ◌-◌, ◌*◌, ◌/◌, ◌%◌, ◌^◌, ◌≤◌, ◌<◌, min, max, ◌≡◌, refl, sym, ap, ◌∙◌, subst,
  ◌≢◌, ◌↔◌, ◌⊎◌, inl, inr, Bool, true, false, not, ◌&&◌, ◌||◌, Option, none, some, List, [], ◌∷◌,
  ◌++◌, map, append-nil, append_assoc, arith, Bytes, codes, uint_mod, ltb, leb, ◌==◌, if◌then◌else◌,
  ltb→lt, lt→ltb, le→ltb, lt→leb, leb→le, le→leb, ==_iff, ==_refl, Bool-cases, Option-cases, tests,
  length, get_elem?, set, take, drop, replicate, length-append, length-take, length-drop,
  length-replicate, length-set, take-append-drop, take-length_append, drop-length_append,
  take-length, take-all, drop_split, drop_add, any_of, All, All-append, All-left, All-right, all_of,
  Outcome, ok, bug, die, exit, fault, ◌>>=◌, >>=-eq-ok, Ends, Returns, Ends-bind, Ends-mono,
  Returns-ok,
}
use cos_ftp_v.Str.Split.Parts.{before}

-- What the peer has sent and the kernel holds: the bytes of each arrival. No arrival left is the end
-- of the connection. A peek sees the next arrival at most, and takes nothing.
abbrev pub Socket : Type 0
Socket = List Bytes

peek : ℕ → Socket → Bytes
peek left [] = []
peek left (chunk ∷ later) = take left chunk

-- `vsf_sysutil_read_loop` of bytes that were just peeked.
take_read : ℕ → Socket → Socket
take_read n [] = []
take_read n (chunk ∷ later) = if leb (length chunk) n then later else drop n chunk ∷ later

-- The `for` loop: how many bytes there are up to the terminator, and with it.
abbrev pub up_to_term : ℕ → Bytes → Option ℕ
up_to_term term [] = none
up_to_term term (c ∷ s) =
    if c == term then some 1 else elim (up_to_term term s) [ none ↦ none | some i ↦ some (suc i) ]

-- -1, 0, or a positive result with the line in `p_str`; `died` is a call of `die`.
pub data Got : Type 0 where
  too_long closed died out_of_fuel : Got
  line : Bytes → Got

-- Whether the callbacks return an error: `p_peekfunc`, and `p_readfunc` when it is asked for bytes
-- that were peeked.
module _ (peek_fails read_fails : Socket → Bool) where
  -- `readbuf` holds what has been consumed; `left` is what remains of its `maxlen` bytes. A peek
  -- gives no more than it was asked for, and a read gives the bytes peeked.
  pub netfd_loop : ℕ → ℕ → Bytes → ℕ → Socket → Got × Socket
  netfd_loop zero term readbuf left sock = (out_of_fuel, sock)
  netfd_loop (suc fuel) term readbuf left sock =
      let seen = peek left sock in
      let rest =
        netfd_loop fuel term (readbuf ++ seen) (left - length seen)
          (take_read (length seen) sock) in
      if left == 0
      then (too_long, sock)
      else if peek_fails sock
      then (died, sock)
      else if length seen == 0
      then (closed, sock)
      else elim (up_to_term term seen) [
        | none ↦ if read_fails sock then (died, sock) else rest
        | some i ↦
            if read_fails sock
            then (died, sock)
            else (line (before term (readbuf ++ take i seen)), take_read i sock)
      ]

  unfoldable pub str_netfd_alloc : ℕ → ℕ → Socket → Got × Socket
  unfolding netfd_loop peek take_read
  str_netfd_alloc term maxlen sock = netfd_loop (maxlen + 1) term [] maxlen sock
