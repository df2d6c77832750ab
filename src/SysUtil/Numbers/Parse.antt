-- ===== src/SysUtil/Numbers/Parse.antt =====
-- The parsers of sizes and of octal numbers, and their round trips with the printers.
use cos_ftp_v.Base.{
  ℕ, ◌+◌, ◌-◌, ◌*◌, ◌%◌, ◌^◌, ◌≤◌, ◌<◌, ◌≡◌, refl, sym, ap, ◌∙◌, inl, inr, Bool, false, not, ◌||◌,
  [], ◌∷◌, arith, Bytes, uint_mod, ltb, ◌==◌, if◌then◌else◌, le→ltb, ==_iff, Bool-cases, length,
  All,
}
use cos_ftp_v.Str.Chars.{vsf_sysutil_isdigit}
use cos_ftp_v.SysUtil.Numbers.{
  digits_onto, vsf_sysutil_filesize_t_to_str, vsf_sysutil_uint_to_octal, rev_onto, filesize_loop,
  vsf_sysutil_a_to_filesize_t, octal_loop, vsf_sysutil_octal_to_uint,
}
use cos_ftp_v.SysUtil.Numbers.Print.{
  value, IsDigit, value-digits_onto, length-digits_onto, digits_onto-IsDigit,
}

-- The number of digits that are read last to first.
abbrev from_last : Bytes → ℕ
from_last [] = 0
from_last (c ∷ r) = from_last r * 10 + (c - b'0')

from_last-rev_onto : (s r : Bytes) → from_last (rev_onto s r) ≡ value 10 (from_last r) s
unfolding rev_onto
from_last-rev_onto [] r = refl
from_last-rev_onto (c ∷ s) r = from_last-rev_onto s (c ∷ r)

IsDigit-rev_onto :
    (s r : Bytes) → All (IsDigit 10) s → All (IsDigit 10) r → All (IsDigit 10) (rev_onto s r)
unfolding rev_onto
IsDigit-rev_onto [] r h k = k
IsDigit-rev_onto (c ∷ s) r h k = IsDigit-rev_onto s (c ∷ r) h.1 (h.0, k)

filesize_loop-from_last :
    (r : Bytes) (result mult : ℕ)
    → All (IsDigit 10) r
    → filesize_loop r result mult ≡ result + mult * from_last r
unfolding filesize_loop
filesize_loop-from_last [] result mult h = omega arith
filesize_loop-from_last (c ∷ r) result mult h =
    let digit : (ltb c b'0' || ltb b'9' c) ≡ false = ground arith in
    rw digit (filesize_loop-from_last r (result + (c - b'0') * mult) (mult * 10) h.1 ∙ grind arith)

-- A text of at most fifteen decimal digits is read as the number that the digits stand for.
pub a_to_filesize_t-value :
    (s : Bytes) → All (IsDigit 10) s → length s ≤ 15 → vsf_sysutil_a_to_filesize_t s ≡ value 10 0 s
unfolding vsf_sysutil_a_to_filesize_t
a_to_filesize_t-value s h k = rw (le→ltb 15 (length s) k) (
    filesize_loop-from_last (rev_onto s []) 0 1 (IsDigit-rev_onto s [] h tt)
    ∙ omega (arith, from_last-rev_onto s []))

-- A size below 10^15 that is printed is read back.
pub a_to_filesize_t-filesize_t_to_str :
    (n : ℕ) → n < 10 ^ 15 → vsf_sysutil_a_to_filesize_t (vsf_sysutil_filesize_t_to_str n) ≡ n
unfolding vsf_sysutil_filesize_t_to_str
a_to_filesize_t-filesize_t_to_str n h =
    a_to_filesize_t-value (digits_onto 10 22 n []) (digits_onto-IsDigit 10 (omega arith) 22 n [] tt)
      (omega (arith, length-digits_onto 10 (omega arith) 22 14 n [] h))
    ∙ value-digits_onto 10 (omega arith) 22 n [] (omega arith)

value-grows : (s : Bytes) (acc : ℕ) → acc ≤ value 8 acc s
value-grows [] acc = omega arith
value-grows (c ∷ s) acc = omega (arith, value-grows s (acc * 8 + (c - b'0')))

octal_loop-value :
    (s : Bytes) (seen : Bool) (result : ℕ)
    → All (IsDigit 8) s
    → (seen ≡ false → result ≡ 0)
    → value 8 result s < uint_mod
    → octal_loop seen result s ≡ value 8 result s
unfolding octal_loop
octal_loop-value [] seen result h z k = refl
octal_loop-value (c ∷ s) seen result h z k =
    let digit : (not (vsf_sysutil_isdigit c) || ltb b'7' c) ≡ false =
      unfold vsf_sysutil_isdigit in ground arith in
    rw digit (
      octal_loop-value s (seen || not (c == b'0')) _ h.1 (λ e. ground arith) (rw (next seen z) k)
      ∙ ap (λ r. value 8 r s) (next seen z))
  where
    fits : result * 8 + (c - b'0') < uint_mod
    fits = omega (arith, value-grows s (result * 8 + (c - b'0')))

    next :
        (seen : Bool)
        → (seen ≡ false → result ≡ 0)
        → (if seen || not (c == b'0')
            then ((result * 8) % uint_mod + (c - b'0')) % uint_mod
            else result)
          ≡ result * 8 + (c - b'0')
    next seen z = ground (arith, fits)

-- An `unsigned int` that is printed in octal, as modes are, is read back.
pub octal_to_uint-uint_to_octal :
    (n : ℕ) → n < uint_mod → vsf_sysutil_octal_to_uint (vsf_sysutil_uint_to_octal n) ≡ n
unfolding vsf_sysutil_octal_to_uint vsf_sysutil_uint_to_octal vsf_sysutil_isdigit
octal_to_uint-uint_to_octal n h = elim (Bool-cases (n == 0)) [
  | inl zero' ↦ rw zero' (sym ((==_iff n 0).0 zero'))
  | inr pos ↦ rw pos (
      octal_loop-value (b'0' ∷ digits_onto 8 22 n []) false 0
        ((omega arith, omega arith), digits_onto-IsDigit 8 (omega arith) 22 n [] tt) (λ e. refl)
        (rw back h)
      ∙ back)
]
  where
    back : value 8 0 (b'0' ∷ digits_onto 8 22 n []) ≡ n
    back = value-digits_onto 8 (omega arith) 22 n [] (omega arith)
