-- ===== src/Str/Compare.antt =====
-- src/str.c: comparison of strings, by `memcmp` on the shorter length and then by length.
use cos_ftp_v.Base.{
  ℕ, zero, suc, ◌+◌, ◌-◌, ◌%◌, ◌<◌, min, ◌≡◌, refl, ◌↔◌, Bool, true, false, [], ◌∷◌, arith, Bytes,
  uint_mod, ltb, ◌==◌, if◌then◌else◌, length,
}
use Prim.Native.Nat.{compare, Ordering}

-- The sign of the result of `memcmp` on the first `n` bytes.
unfoldable pub vsf_sysutil_memcmp : Bytes → Bytes → ℕ → Ordering
vsf_sysutil_memcmp (x ∷ a) (y ∷ b) (suc n) =
    let rest = vsf_sysutil_memcmp a b n in
    elim (compare x y) [
      | Ordering.eq ↦ rest
      | Ordering.lt ↦ Ordering.lt
      | Ordering.gt ↦ Ordering.gt
    ]
vsf_sysutil_memcmp _ _ _ = Ordering.eq

-- The sign of an `unsigned int` read as an `int`.
abbrev int_sign : ℕ → Ordering
int_sign n = if n == 0 then Ordering.eq else if ltb n 2147483648 then Ordering.gt else Ordering.lt

unfoldable pub str_strcmp : Bytes → Bytes → Ordering
unfolding vsf_sysutil_memcmp
str_strcmp a b =
    let minlen = if ltb (length b) (length a) then length b else length a in
    let by_length =
      if length a == length b
      then Ordering.eq
      else int_sign ((length a + uint_mod - length b) % uint_mod) in
    elim (vsf_sysutil_memcmp a b minlen) [
      | Ordering.eq ↦ by_length
      | Ordering.lt ↦ Ordering.lt
      | Ordering.gt ↦ Ordering.gt
    ]

abbrev is_eq : Ordering → Bool
is_eq o = elim o [ Ordering.eq ↦ true | _ ↦ false ]

unfoldable pub str_equal : Bytes → Bytes → Bool
unfolding str_strcmp
str_equal a b = is_eq (str_strcmp a b)

-- Byte by byte, a proper prefix first.
unfoldable pub lex : Bytes → Bytes → Ordering
lex [] [] = Ordering.eq
lex [] (y ∷ b) = Ordering.lt
lex (x ∷ a) [] = Ordering.gt
lex (x ∷ a) (y ∷ b) =
    let rest = lex a b in
    elim (compare x y) [
      | Ordering.eq ↦ rest
      | Ordering.lt ↦ Ordering.lt
      | Ordering.gt ↦ Ordering.gt
    ]

-- `memcmp` on the shorter length, then the length, is `lex`.
by_length : ℕ → ℕ → Ordering
by_length m n = if m == n then Ordering.eq else if ltb m n then Ordering.lt else Ordering.gt

lex-memcmp :
    (a b : Bytes) (n : ℕ)
    → n ≡ min (length a) (length b)
    → lex a b ≡ elim (vsf_sysutil_memcmp a b n) as (λ _. Ordering) [
      | Ordering.eq ↦ by_length (length a) (length b)
      | Ordering.lt ↦ Ordering.lt
      | Ordering.gt ↦ Ordering.gt
    ]
unfolding vsf_sysutil_memcmp lex by_length
lex-memcmp [] [] n e = ground arith
lex-memcmp [] (y ∷ b) n e = ground arith
lex-memcmp (x ∷ a) [] n e = ground arith
lex-memcmp (x ∷ a) (y ∷ b) zero e = absurd (omega arith)
lex-memcmp (x ∷ a) (y ∷ b) (suc n) e = ground (arith, lex-memcmp a b n)

-- `str_strcmp` is the byte order with a proper prefix first, for lengths below 2^31.
pub str_strcmp-lex :
    (a b : Bytes) → length a < 2147483648 → length b < 2147483648 → str_strcmp a b ≡ lex a b
unfolding str_strcmp by_length
str_strcmp-lex a b h k =
    ground (arith, lex-memcmp a b (if ltb (length b) (length a) then length b else length a))

lex-eq : (a b : Bytes) → lex a b ≡ Ordering.eq → a ≡ b
unfolding lex
lex-eq [] [] e = refl
lex-eq [] (y ∷ b) e = cc
lex-eq (x ∷ a) [] e = cc
lex-eq (x ∷ a) (y ∷ b) e = ground (arith, lex-eq a b)

lex_refl : (a : Bytes) → lex a a ≡ Ordering.eq
unfolding lex
lex_refl [] = refl
lex_refl (x ∷ a) = ground (arith, lex_refl a)

-- `str_equal` answers true exactly on equal strings, for lengths below 2^31.
str_equal_iff :
    (a b : Bytes) → length a < 2147483648 → length b < 2147483648 → (str_equal a b ≡ true) ↔ (a ≡ b)
unfolding str_equal
str_equal_iff a b h k = (
  λ e. lex-eq a b (ground (arith, str_strcmp-lex a b h k)),
  λ e. rw e (ground (arith, str_strcmp-lex b b k k, lex_refl b)),
)

pub flip : Ordering → Ordering
flip Ordering.lt = Ordering.gt
flip Ordering.eq = Ordering.eq
flip Ordering.gt = Ordering.lt

pub lex-flip : (a b : Bytes) → lex b a ≡ flip (lex a b)
unfolding lex flip
lex-flip [] [] = refl
lex-flip [] (y ∷ b) = refl
lex-flip (x ∷ a) [] = refl
lex-flip (x ∷ a) (y ∷ b) = ground (arith, lex-flip a b)

pub lex_trans :
    (a b c : Bytes) → lex a b ≡ Ordering.lt → lex b c ≡ Ordering.lt → lex a c ≡ Ordering.lt
unfolding lex
lex_trans [] [] c h k = cc
lex_trans [] (y ∷ b) [] h k = cc
lex_trans [] (y ∷ b) (z ∷ c) h k = refl
lex_trans (x ∷ a) [] c h k = cc
lex_trans (x ∷ a) (y ∷ b) [] h k = cc
lex_trans (x ∷ a) (y ∷ b) (z ∷ c) h k = ground (arith, lex_trans a b c, lex-eq a b, lex-eq b c)
