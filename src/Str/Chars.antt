-- ===== src/Str/Chars.antt =====
-- The character tests of src/sysutil.c, over <ctype.h> in the C locale: the server never calls
-- setlocale. A `char` is its unsigned value.
use cos_ftp_v.Base.{
  ℕ, ◌-◌, ◌≤◌, ◌≡◌, Bool, true, false, ◌&&◌, ◌||◌, arith, leb, ◌==◌, if◌then◌else◌,
}

within : ℕ → ℕ → ℕ → Bool
within lo hi c = leb lo c && leb c hi

unfoldable pub vsf_sysutil_toupper : ℕ → ℕ
unfolding within
vsf_sysutil_toupper c = if within b'a' b'z' c then c - 32 else c

unfoldable pub vsf_sysutil_isspace : ℕ → Bool
unfolding within
vsf_sysutil_isspace c = c == b' ' || within 9 13 c

-- `isprint` of the C library, behind the tests that the server puts in front.
unfoldable pub vsf_sysutil_isprint : ℕ → Bool
unfolding within
vsf_sysutil_isprint c =
    if leb c 31
    then false
    else if c == 177
    then false
    else if leb 128 c && leb c 159
    then false
    else within 32 126 c

unfoldable pub vsf_sysutil_isdigit : ℕ → Bool
unfolding within
vsf_sysutil_isdigit c = within b'0' b'9' c

unfoldable pub vsf_sysutil_isalnum : ℕ → Bool
unfolding within
vsf_sysutil_isalnum c = within b'0' b'9' c || within b'a' b'z' c || within b'A' b'Z' c

-- What passes `vsf_sysutil_isprint` is the printable ASCII.
pub isprint_bounds : (c : ℕ) → vsf_sysutil_isprint c ≡ true → (32 ≤ c) × (c ≤ 126)
unfolding vsf_sysutil_isprint
isprint_bounds c h = ground arith

pub toupper_idem : (c : ℕ) → vsf_sysutil_toupper (vsf_sysutil_toupper c) ≡ vsf_sysutil_toupper c
unfolding vsf_sysutil_toupper
toupper_idem c = ground arith
