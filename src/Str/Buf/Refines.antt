-- ===== src/Str/Buf/Refines.antt =====
-- The text that the buffers of src/str.c hold.
use cos_ftp_v.Base.{
  ℕ, ◌+◌, ◌-◌, ◌%◌, ◌≤◌, ◌<◌, ◌≡◌, refl, sym, ap, ◌∙◌, inl, inr, false, not, ◌||◌, [], ◌∷◌, ◌++◌,
  append_assoc, arith, Bytes, uint_mod, ltb, leb, ◌==◌, if◌then◌else◌, Bool-cases, tests, length,
  take, drop, length-append, length-take, length-drop, take-append-drop, Outcome, bug, Ends,
  Returns, Ends-bind, Ends-mono,
}
use cos_ftp_v.Str.Buf.{
  Mystr, int_max, Allocator, through, alloc_room, realloc_room, put_memchunk,
  private_str_alloc_memchunk, private_str_append_memchunk, getbuf_of, str_getbuf, str_trunc,
  str_empty,
}
use cos_ftp_v.Str.Buf.Room.{
  Represents, null, held, Holds, IsSized, NoRoom, HasRoom, Room, put_memchunk_lem, alloc_room_lem,
  realloc_room_lem, poke_at,
}

-- A call that stops for lack of room, or leaves the text `s` in the string.
abbrev pub Leaves : Allocator → ℕ → Bytes → Outcome Mystr → Type 0
Leaves malloc n s = Ends (NoRoom malloc n) (λ q. Holds q s)

-- Writing into the room made cannot stop.
put_after :
    (F : Type 0) (q : Mystr) (s src tail : Bytes) (off : ℕ)
    → Room q s tail
    → off ≡ length s
    → length src + 1 ≤ length tail
    → Ends F (λ t. Holds t (s ++ src)) (put_memchunk off src q)
put_after F q s src tail off room e h =
    Ends-mono ⊥ F (λ t. Holds t (s ++ src)) (λ t. Holds t (s ++ src)) _
      (λ impossible. absurd impossible) (λ t k. k) (put_memchunk_lem q s src tail off room e h)

Represents-len : (p : Mystr) (s : Bytes) → Represents p s → p.len ≡ length s
Represents-len p s (null b l a e) = rw e l
Represents-len p s (held t) = t.len_is

Represents-small : (p : Mystr) (s : Bytes) → Represents p s → length s < int_max
Represents-small p s (null b l a e) = rw e (omega arith)
Represents-small p s (held t) = omega arith

-- The block of a string, split at a position in its text.
split_at : (n : ℕ) (s rest : Bytes) → s ++ 0 ∷ rest ≡ take n s ++ (drop n s ++ 0 ∷ rest)
split_at n s rest =
    ap (λ k. k ++ 0 ∷ rest) (sym (take-append-drop n s))
    ∙ append_assoc (take n s) (drop n s) (0 ∷ rest)

-- `str_trunc` of a string with a block, to a length within its text, returns and leaves that much
-- of the text.
trunc-Holds :
    (p : Mystr) (s : Bytes) (n : ℕ)
    → Holds p s
    → n ≤ length s
    → Returns (λ q. Holds q (take n s)) (str_trunc p n)
unfolding str_trunc through
trunc-Holds p s n t h =
    let inside : leb p.alloc_bytes n ≡ false = ground arith in
    let behind = drop n s ++ 0 ∷ t.rest in
    let long : length behind ≡ length s - n + 1 + length t.rest =
      omega (arith, length-append (drop n s) (0 ∷ t.rest), length-drop n s) in
    let kept : length (take n s) ≡ n = omega (arith, length-take n s) in
    rw inside (
      rw (t.buffer, through)
        (rw (split_at n s t.rest) (
          rw (poke_at (take n s) (0 ∷ []) behind n (sym kept) (omega arith)) (record {
            rest = drop 1 behind;
            buffer = refl;
            len_is = sym kept;
            size = omega (arith, length-drop 1 behind);
            small = t.small;
          }))))

module _ (malloc : Allocator) (sized : IsSized malloc) where
  -- With an allocator whose blocks have the size asked for, and a source of fewer than 2^32 bytes,
  -- `private_str_alloc_memchunk` makes the string hold the source. It stops only where the block it
  -- needs is too large or is refused, and no access leaves the block.
  pub alloc_memchunk-Represents :
      (p : Mystr) (s src : Bytes)
      → Represents p s
      → length src < uint_mod
      → Ends
          (NoRoom malloc (length src + 1))
          (λ q. Holds q src)
          (private_str_alloc_memchunk malloc p src)
  unfolding private_str_alloc_memchunk
  alloc_memchunk-Represents p s src r h =
      elim (Bool-cases (ltb ((length src + 1) % uint_mod) (length src))) [
        | inl wraps ↦ rw wraps (inl (omega tests))
        | inr fits ↦ rw fits (
            rw (no_wrap fits) (
              Ends-bind (NoRoom malloc (length src + 1)) (HasRoom [] (length src + 1))
                (λ q. Holds q src) (alloc_room malloc p (length src + 1)) (put_memchunk 0 src)
                (alloc_room_lem malloc sized p s (length src + 1) r (omega arith))
                (λ q room. put_after _ q [] src room.0 0 room.1 refl room.2)))
      ]
    where
      no_wrap :
          ltb ((length src + 1) % uint_mod) (length src) ≡ false
          → (length src + 1) % uint_mod ≡ length src + 1
      no_wrap f = ground arith

  -- With an allocator whose blocks have the size asked for, and a source of fewer than 2^32 bytes,
  -- `private_str_append_memchunk` makes the string hold its text with the source behind it. It stops
  -- only where the block it needs is too large or is refused, and no access leaves the block.
  pub append_memchunk-Represents :
      (p : Mystr) (s src : Bytes)
      → Represents p s
      → length src < uint_mod
      → Leaves malloc
          (length src + length s + 1)
          (s ++ src)
          (private_str_append_memchunk malloc p src)
  unfolding private_str_append_memchunk
  append_memchunk-Represents p s src r h =
      simp (Represents-len p s r)
        (elim (Bool-cases (ltb ((length src + length s) % uint_mod) (length src))) [
          | inl wraps ↦ rw wraps (inl (omega (tests, Represents-small p s r)))
          | inr fits ↦ rw fits (
              rw (no_wrap fits)
                (elim (Bool-cases
                  (ltb ((length src + length s + 1) % uint_mod) (length src + length s))) [
                    | inl wraps ↦ rw wraps (inl (omega (tests, Represents-small p s r)))
                    | inr fits' ↦ rw fits' (
                        rw (no_wrap' fits fits') (
                          Ends-bind (NoRoom malloc (length src + length s + 1))
                            (HasRoom s (length src + length s + 1 - length s))
                            (λ q. Holds q (s ++ src))
                            (realloc_room malloc p (length src + length s + 1))
                            (put_memchunk (length s) src)
                            (realloc_room_lem malloc sized p s (length src + length s + 1) r
                              (omega arith))
                            (λ q room.
                              put_after _ q s src room.0 (length s) room.1 refl
                                (omega (arith, room.2)))))
                  ]))
        ])
    where
      no_wrap :
          ltb ((length src + length s) % uint_mod) (length src) ≡ false
          → (length src + length s) % uint_mod ≡ length src + length s
      no_wrap f = ground (arith, Represents-small p s r)

      no_wrap' :
          ltb ((length src + length s) % uint_mod) (length src) ≡ false
          → ltb ((length src + length s + 1) % uint_mod) (length src + length s) ≡ false
          → (length src + length s + 1) % uint_mod ≡ length src + length s + 1
      no_wrap' f g = ground (arith, Represents-small p s r)

  -- `str_getbuf` keeps the text, and gives a null string a block.
  pub getbuf-Holds :
      (p : Mystr) (s : Bytes)
      → Represents p s
      → Ends (NoRoom malloc 1) (λ q. Holds q s) (str_getbuf malloc p)
  unfolding str_getbuf getbuf_of
  getbuf-Holds p s (null b l a e) =
      rw (b, getbuf_of)
        (rw e (fresh (alloc_memchunk-Represents p [] [] (null b l a refl) (omega arith))))
    where
      fresh :
          Leaves malloc 1 [] (private_str_alloc_memchunk malloc p [])
          → Leaves malloc 1 [] (
              if not (p.len == 0) || not (p.alloc_bytes == 0)
              then bug
              else private_str_alloc_memchunk malloc p [])
      fresh h = ground arith
  getbuf-Holds p s (held t) = rw (t.buffer, getbuf_of) t

  -- With an allocator whose blocks have the size asked for, `str_empty` leaves the empty text, also of
  -- a null string. It stops only where the block of one byte is refused.
  empty-Holds : (p : Mystr) (s : Bytes) → Represents p s → Leaves malloc 1 [] (str_empty malloc p)
  unfolding str_empty
  empty-Holds p s r =
      Ends-bind (NoRoom malloc 1) (λ q. Holds q s) (λ q. Holds q []) (str_getbuf malloc p) _
        (getbuf-Holds p s r)
        (λ q t.
          Ends-mono ⊥ (NoRoom malloc 1) (λ u. Holds u []) (λ u. Holds u []) _
            (λ impossible. absurd impossible) (λ u k. k) (trunc-Holds q s 0 t (omega arith)))
