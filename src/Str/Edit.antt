-- ===== src/Str/Edit.antt =====
-- src/str.c: the functions that change the bytes of a string in place, and the tests on all bytes.
pub mod Replace
pub mod Shrinks
use cos_ftp_v.Base.{
  ℕ, zero, suc, ◌+◌, ◌-◌, ◌*◌, ◌/◌, ◌%◌, ◌^◌, ◌≤◌, ◌<◌, min, max, ◌≡◌, refl, sym, ap, ◌∙◌, subst,
  ◌≢◌, ◌↔◌, ◌⊎◌, inl, inr, Bool, true, false, not, ◌&&◌, ◌||◌, Option, none, some, List, [], ◌∷◌,
  ◌++◌, map, append-nil, append_assoc, arith, Bytes, codes, uint_mod, ltb, leb, ◌==◌, if◌then◌else◌,
  ltb→lt, lt→ltb, le→ltb, lt→leb, leb→le, le→leb, ==_iff, ==_refl, Bool-cases, Option-cases, tests,
  length, get_elem?, set, take, drop, replicate, length-append, length-take, length-drop,
  length-replicate, length-set, take-append-drop, take-length_append, drop-length_append,
  take-length, take-all, drop_split, drop_add, any_of, All, All-append, All-left, All-right, all_of,
  Outcome, ok, bug, die, exit, fault, ◌>>=◌, >>=-eq-ok, Ends, Returns, Ends-bind, Ends-mono,
  Returns-ok,
}
use cos_ftp_v.Str.Chars.{
  vsf_sysutil_toupper, vsf_sysutil_isspace, vsf_sysutil_isprint, vsf_sysutil_isalnum,
}
use cos_ftp_v.Str.Split.{Split, str_split_text}

unfoldable pub str_upper : Bytes → Bytes
str_upper s = map vsf_sysutil_toupper s

unfoldable pub str_replace_char : Bytes → ℕ → ℕ → Bytes
str_replace_char s from to = map (λ c. if c == from then to else c) s

unfoldable pub str_replace_unprintable : Bytes → ℕ → Bytes
str_replace_unprintable s new_char =
    map (λ c. if not (vsf_sysutil_isprint c) then new_char else c) s

unfoldable pub str_rpad : Bytes → ℕ → Bytes
str_rpad s min_width =
    if leb min_width (length s) then s else s ++ replicate (min_width - length s) b' '

unfoldable pub str_lpad : Bytes → ℕ → Bytes
str_lpad s min_width =
    if leb min_width (length s) then s else replicate (min_width - length s) b' ' ++ s

unfoldable pub str_all_space : Bytes → Bool
str_all_space s = all_of vsf_sysutil_isspace s

unfoldable pub str_contains_space : Bytes → Bool
str_contains_space s = not (all_of (λ c. not (vsf_sysutil_isspace c)) s)

unfoldable pub str_contains_unprintable : Bytes → Bool
str_contains_unprintable s = not (all_of vsf_sysutil_isprint s)

unfoldable pub str_all_normal_char : Bytes → Bool
str_all_normal_char s = all_of (λ c. vsf_sysutil_isalnum c || c == b'-' || c == b'_' || c == b'.') s

unfoldable pub is_empty : Bytes → Bool
is_empty [] = true
is_empty (x ∷ s) = false

-- The `do` loop with `p_str` in `out` and the string left to search in `lhs`; `none` is a lack of
-- fuel.
pub replace_loop : ℕ → Bytes → Bytes → Bytes → Bytes → Outcome (Option Bytes)
replace_loop zero lhs from to out = ok none
replace_loop (suc fuel) lhs from to out = str_split_text lhs from >>= (λ p.
    let out' = if ltb (length p.0) (length lhs) then (out ++ p.0) ++ to else out ++ p.0 in
    let rest = replace_loop fuel p.1 from to out' in if is_empty p.1 then ok (some out') else rest)

unfoldable pub str_replace_text : Bytes → Bytes → Bytes → Outcome (Option Bytes)
unfolding replace_loop is_empty
str_replace_text s from to = replace_loop (length s + 1) s from to []
