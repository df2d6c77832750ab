-- ===== src/SysUtil/Numbers.antt =====
-- src/sysutil.c: numbers as text. `snprintf` writes digits with no leading zero, so 22 digits are
-- enough for 64 bits in base 8.
pub mod Print
pub mod Parse
use cos_ftp_v.Base.{
  ℕ, zero, suc, ◌+◌, ◌-◌, ◌*◌, ◌/◌, ◌%◌, ◌^◌, ◌≤◌, ◌<◌, min, max, ◌≡◌, refl, sym, ap, ◌∙◌, subst,
  ◌≢◌, ◌↔◌, ◌⊎◌, inl, inr, Bool, true, false, not, ◌&&◌, ◌||◌, Option, none, some, List, [], ◌∷◌,
  ◌++◌, map, append-nil, append_assoc, arith, Bytes, codes, uint_mod, ltb, leb, ◌==◌, if◌then◌else◌,
  ltb→lt, lt→ltb, le→ltb, lt→leb, leb→le, le→leb, ==_iff, ==_refl, Bool-cases, Option-cases, tests,
  length, get_elem?, set, take, drop, replicate, length-append, length-take, length-drop,
  length-replicate, length-set, take-append-drop, take-length_append, drop-length_append,
  take-length, take-all, drop_split, drop_add, any_of, All, All-append, All-left, All-right, all_of,
  Outcome, ok, bug, die, exit, fault, ◌>>=◌, >>=-eq-ok, Ends, Returns, Ends-bind, Ends-mono,
  Returns-ok,
}
use cos_ftp_v.Str.Chars.{vsf_sysutil_isdigit}

-- The digits of `n` in front of `acc`.
pub digits_onto : ℕ → ℕ → ℕ → Bytes → Bytes
digits_onto base zero n acc = acc
digits_onto base (suc f) n acc =
    let acc' = (b'0' + n % base) ∷ acc in
    let more = digits_onto base f (n / base) acc' in if n / base == 0 then acc' else more

unfoldable pub vsf_sysutil_ulong_to_str : ℕ → Bytes
unfolding digits_onto
vsf_sysutil_ulong_to_str n = digits_onto 10 22 n []

-- A size is not negative here.
unfoldable pub vsf_sysutil_filesize_t_to_str : ℕ → Bytes
unfolding digits_onto
vsf_sysutil_filesize_t_to_str n = digits_onto 10 22 n []

unfoldable pub vsf_sysutil_uint_to_octal : ℕ → Bytes
unfolding digits_onto
vsf_sysutil_uint_to_octal n = if n == 0 then b'0' ∷ [] else b'0' ∷ digits_onto 8 22 n []

-- The loop reads from the last character to the first.
pub rev_onto : Bytes → Bytes → Bytes
rev_onto [] r = r
rev_onto (c ∷ s) r = rev_onto s (c ∷ r)

pub filesize_loop : Bytes → ℕ → ℕ → ℕ
filesize_loop [] result mult = result
filesize_loop (the_char ∷ s) result mult =
    if ltb the_char b'0' || ltb b'9' the_char
    then 0
    else filesize_loop s (result + (the_char - b'0') * mult) (mult * 10)

-- On a C string.
unfoldable pub vsf_sysutil_a_to_filesize_t : Bytes → ℕ
unfolding rev_onto filesize_loop
vsf_sysutil_a_to_filesize_t s = if ltb 15 (length s) then 0 else filesize_loop (rev_onto s []) 0 1

-- `result <<= 3; result += digit` on 32 bits, once a digit other than zero has been seen.
pub octal_loop : Bool → ℕ → Bytes → ℕ
octal_loop seen result [] = result
octal_loop seen result (digit ∷ s) =
    let seen' = seen || not (digit == b'0') in
    let result' = if seen' then ((result * 8) % uint_mod + (digit - b'0')) % uint_mod else result in
    let more = octal_loop seen' result' s in
    if not (vsf_sysutil_isdigit digit) || ltb b'7' digit then result else more

unfoldable pub vsf_sysutil_octal_to_uint : Bytes → ℕ
unfolding octal_loop
vsf_sysutil_octal_to_uint s = octal_loop false 0 s
