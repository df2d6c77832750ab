-- ===== src/Str/Buf/Room.antt =====
-- Making room in the buffers of src/str.c, and writing into the room made.
use cos_ftp_v.Base.{
  ℕ, ◌+◌, ◌-◌, ◌≤◌, ◌<◌, ◌≡◌, refl, ◌⊎◌, inl, inr, true, false, ◌||◌, Option, none, some, [], ◌∷◌,
  ◌++◌, append_assoc, arith, Bytes, ltb, ◌==◌, le→leb, Bool-cases, tests, length, take, drop,
  length-append, length-take, length-drop, take-length_append, take-all, drop_split, ok, Ends,
  Returns, Ends-bind,
}
use cos_ftp_v.Str.Buf.{
  Mystr, int_max, Allocator, poke, vsf_sysutil_memcpy, through, vsf_sysutil_malloc,
  vsf_sysutil_realloc, kept, or_die, alloc_room, realloc_room, put_memchunk,
}

-- The block of the string starts with the bytes of `s` and a zero byte.
pub record Holds (p : Mystr) (s : Bytes) : Type 0 where
  pub rest : Bytes
  pub buffer : p.p_buf ≡ some (s ++ 0 ∷ rest)
  pub len_is : p.len ≡ length s
  pub size : p.alloc_bytes ≡ length s + 1 + length rest
  pub small : p.alloc_bytes ≤ int_max

-- The string is null and empty, or holds `s`.
pub data Represents (p : Mystr) (s : Bytes) : Type 0 where
  null : p.p_buf ≡ none → p.len ≡ 0 → p.alloc_bytes ≡ 0 → s ≡ [] → Represents p s
  held : Holds p s → Represents p s

-- A block that is returned has the size that was asked for.
abbrev pub IsSized : Allocator → Type 0
IsSized malloc = (n : ℕ) (block : Bytes) → malloc n ≡ some block → length block ≡ n

-- The string has `tail` behind `s` in its block.
pub record Room (p : Mystr) (s tail : Bytes) : Type 0 where
  pub buffer : p.p_buf ≡ some (s ++ tail)
  pub size : p.alloc_bytes ≡ length s + length tail
  pub small : p.alloc_bytes ≤ int_max

pub poke_at :
    (a new b : Bytes) (off : ℕ)
    → off ≡ length a
    → length new ≤ length b
    → poke off new (a ++ b) ≡ ok (a ++ (new ++ drop (length new) b))
unfolding poke
poke_at a new b off e h = rw e (
    rw (le→leb (length a + length new) (length (a ++ b)) (omega (arith, length-append a b)))
      (rw (take-length_append a b, drop_split a b (length a + length new) (length new) refl)))

memcpy_at :
    (a new b : Bytes) (off : ℕ)
    → off ≡ length a
    → length new ≤ length b
    → length new ≤ int_max
    → vsf_sysutil_memcpy off new (a ++ b) ≡ ok (a ++ (new ++ drop (length new) b))
unfolding vsf_sysutil_memcpy
memcpy_at a [] b off e h k = refl
memcpy_at a (x ∷ new) b off e h k = ground (arith, poke_at a (x ∷ new) b off)

-- What `put_memchunk` leaves behind the text.
abbrev tail_after : Bytes → Bytes → Bytes
tail_after src tail = drop 1 (drop (length src) tail)

length-tail_after :
    (src tail : Bytes)
    → length src + 1 ≤ length tail
    → length (tail_after src tail) ≡ length tail - (length src + 1)
length-tail_after src tail h =
    omega (arith, length-drop 1 (drop (length src) tail), length-drop (length src) tail)

-- The copy and the final zero, where there is room.
pub put_memchunk_lem :
    (p : Mystr) (s src tail : Bytes) (off : ℕ)
    → Room p s tail
    → off ≡ length s
    → length src + 1 ≤ length tail
    → Returns (λ q. Holds q (s ++ src)) (put_memchunk off src p)
unfolding put_memchunk through
put_memchunk_lem p s src tail off room e h =
    rw (room.buffer, through)
      (rw (memcpy_at s src tail off e (omega arith) (omega (arith, room.small, room.size))) (
        rw (← append_assoc s src (drop (length src) tail)) (
          rw
            (poke_at (s ++ src) (0 ∷ []) (drop (length src) tail) (off + length src)
              (omega (arith, length-append s src)) (omega (arith, length-drop (length src) tail)))
            record {
              rest = tail_after src tail;
              buffer = refl;
              len_is = omega (arith, length-append s src);
              size = omega (arith, length-append s src, length-tail_after src tail h);
              small = room.small;
            })))

-- When making room for `n` bytes may fail.
abbrev pub NoRoom : Allocator → ℕ → Type 0
NoRoom malloc n = (int_max < n) ⊎ (malloc n ≡ none)

abbrev pub HasRoom : Bytes → ℕ → Mystr → Type 0
HasRoom s n q = (tail : Bytes) × Room q s tail × (n ≤ length tail)

-- What a block of `n` bytes from the allocator is like.
abbrev IsBlock : ℕ → Bytes → Type 0
IsBlock n b = (length b ≡ n) × (n ≤ int_max)

length-kept : (o : Option Bytes) (n : ℕ) (b : Bytes) → length b ≡ n → length (kept o n b) ≡ n
unfolding kept
length-kept none n b e = e
length-kept (some old) n b e = omega (
  arith,
  length-append (take n old) (drop (length old) b),
  length-take n old,
  length-drop (length old) b,
)

module _ (malloc : Allocator) (sized : IsSized malloc) where
  or_die_lem :
      (n : ℕ) (o : Option Bytes)
      → malloc n ≡ o
      → Ends (NoRoom malloc n) (λ b. length b ≡ n) (or_die o)
  unfolding or_die
  or_die_lem n none e = inr e
  or_die_lem n (some block) e = sized n block e

  malloc_lem : (n : ℕ) → 0 < n → Ends (NoRoom malloc n) (IsBlock n) (vsf_sysutil_malloc malloc n)
  unfolding vsf_sysutil_malloc
  malloc_lem n h = ground (arith, or_die_lem n (malloc n) refl)

  -- The string has room already.
  room_at :
      (p : Mystr) (s : Bytes) (n : ℕ)
      → Represents p s
      → 0 < n
      → ltb p.alloc_bytes n ≡ false
      → HasRoom [] n p
  room_at p s n (null b l a e) h f = absurd (ground arith)
  room_at p s n (held t) h f = (
    s ++ 0 ∷ t.rest,
    record {
      buffer = t.buffer;
      size = omega (arith, length-append s (0 ∷ t.rest));
      small = t.small;
    },
    ground (arith, length-append s (0 ∷ t.rest)),
  )

  pub alloc_room_lem :
      (p : Mystr) (s : Bytes) (n : ℕ)
      → Represents p s
      → 0 < n
      → Ends (NoRoom malloc n) (HasRoom [] n) (alloc_room malloc p n)
  unfolding alloc_room
  alloc_room_lem p s n r h = elim (Bool-cases (ltb p.alloc_bytes n)) [
    | inl grow ↦ rw grow (
        Ends-bind (NoRoom malloc n) (IsBlock n) (HasRoom [] n) (vsf_sysutil_malloc malloc n) _
          (malloc_lem n h)
          (λ block e.
            (block, record { buffer = refl; size = omega arith; small = e.1 }, omega arith)))
    | inr fits ↦ rw fits (room_at p s n r h fits)
  ]

  -- `realloc` keeps the text, and `n` bytes behind its start.
  kept_lem :
      (p : Mystr) (s : Bytes) (n : ℕ) (block : Bytes)
      → Represents p s
      → length s < n
      → ltb p.alloc_bytes n ≡ true
      → IsBlock n block
      → HasRoom s (n - length s) (record p { p_buf = some (kept p.p_buf n block); alloc_bytes = n })
  unfolding kept
  kept_lem p s n block (null b l a e) h grow k =
      rw (b, kept)
        (rw e (block, record { buffer = refl; size = omega arith; small = k.1 }, omega arith))
  kept_lem p s n block (held t) h grow k =
      rw (t.buffer, kept)
        (rw (take-all n (s ++ 0 ∷ t.rest) (omega (tests, length-append s (0 ∷ t.rest)))) (
          rw (append_assoc s (0 ∷ t.rest) (drop (length (s ++ 0 ∷ t.rest)) block)) (
            0 ∷ t.rest ++ drop (length (s ++ 0 ∷ t.rest)) block,
            record { buffer = refl; size = omega (tests, tail_size); small = k.1 },
            omega (tests, tail_size),
          )))
    where
      tail_size : length (0 ∷ t.rest ++ drop (length (s ++ 0 ∷ t.rest)) block) ≡ n - length s
      tail_size = omega (
        tests,
        length-append (0 ∷ t.rest) (drop (length (s ++ 0 ∷ t.rest)) block),
        length-drop (length (s ++ 0 ∷ t.rest)) block,
        length-append s (0 ∷ t.rest),
      )

  realloc_lem :
      (o : Option Bytes) (n : ℕ)
      → 0 < n
      → Ends
          (NoRoom malloc n)
          (λ b. (block : Bytes) × (b ≡ kept o n block) × IsBlock n block)
          (vsf_sysutil_realloc malloc o n)
  unfolding vsf_sysutil_realloc
  realloc_lem o n h = elim (Bool-cases (n == 0 || ltb int_max n)) [
    | inl big ↦ rw big (inl (ground arith))
    | inr fine ↦ rw fine (
        Ends-bind (NoRoom malloc n) (λ b. length b ≡ n) _ (or_die (malloc n)) _
          (or_die_lem n (malloc n) refl) (λ block e. (block, refl, (e, ground arith))))
  ]

  pub realloc_room_lem :
      (p : Mystr) (s : Bytes) (n : ℕ)
      → Represents p s
      → length s < n
      → Ends (NoRoom malloc n) (HasRoom s (n - length s)) (realloc_room malloc p n)
  unfolding realloc_room
  realloc_room_lem p s n r h = elim (Bool-cases (ltb p.alloc_bytes n)) [
    | inl grow ↦ rw grow (
        Ends-bind (NoRoom malloc n)
          (λ b. (block : Bytes) × (b ≡ kept p.p_buf n block) × IsBlock n block)
          (HasRoom s (n - length s)) (vsf_sysutil_realloc malloc p.p_buf n) _
          (realloc_lem p.p_buf n (omega arith)) (λ b k. rw k.1 (kept_lem p s n k.0 r h grow k.2)))
    | inr fits ↦ rw fits (still_room p s n r h fits)
  ]
    where
      still_room :
          (p : Mystr) (s : Bytes) (n : ℕ)
          → Represents p s
          → length s < n
          → ltb p.alloc_bytes n ≡ false
          → HasRoom s (n - length s) p
      still_room p s n (null b l a e) h f = absurd (ground arith)
      still_room p s n (held t) h f = (
        0 ∷ t.rest,
        record { buffer = t.buffer; size = omega arith; small = t.small },
        ground arith,
      )
