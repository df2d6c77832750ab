-- ===== src/Str/Split.antt =====
-- src/str.c: the functions that take a string apart, each with its `bug` guard.
pub mod Parts
use cos_ftp_v.Base.{
  ℕ, zero, suc, ◌+◌, ◌-◌, ◌*◌, ◌/◌, ◌%◌, ◌^◌, ◌≤◌, ◌<◌, min, max, ◌≡◌, refl, sym, ap, ◌∙◌, subst,
  ◌≢◌, ◌↔◌, ◌⊎◌, inl, inr, Bool, true, false, not, ◌&&◌, ◌||◌, Option, none, some, List, [], ◌∷◌,
  ◌++◌, map, append-nil, append_assoc, arith, Bytes, codes, uint_mod, ltb, leb, ◌==◌, if◌then◌else◌,
  ltb→lt, lt→ltb, le→ltb, lt→leb, leb→le, le→leb, ==_iff, ==_refl, Bool-cases, Option-cases, tests,
  length, get_elem?, set, take, drop, replicate, length-append, length-take, length-drop,
  length-replicate, length-set, take-append-drop, take-length_append, drop-length_append,
  take-length, take-all, drop_split, drop_add, any_of, All, All-append, All-left, All-right, all_of,
  Outcome, ok, bug, die, exit, fault, ◌>>=◌, >>=-eq-ok, Ends, Returns, Ends-bind, Ends-mono,
  Returns-ok,
}
use cos_ftp_v.Str.Locate.{c_str, str_locate_text, str_locate_text_reverse}

-- The text left in `p_src`, and `p_rhs`.
abbrev pub Split : Type 0
Split = Bytes × Bytes

split_found : Bytes → Bytes → Option ℕ → Outcome Split
split_found s t none = ok (s, [])
split_found s t (some indexx) =
    if ltb (length s) (indexx + length t)
    then bug
    else ok (take indexx s, drop (indexx + length t) s)

unfoldable pub str_split_text_common : Bytes → Bytes → Bool → Outcome Split
unfolding split_found
str_split_text_common s t is_reverse =
    split_found s t (if is_reverse then str_locate_text_reverse s t else str_locate_text s t)

unfoldable pub str_split_text : Bytes → Bytes → Outcome Split
unfolding str_split_text_common
str_split_text s t = str_split_text_common s t false

unfoldable pub str_split_text_reverse : Bytes → Bytes → Outcome Split
unfolding str_split_text_common
str_split_text_reverse s t = str_split_text_common s t true

-- `ministr` ends at `c` where that is the zero byte.
unfoldable pub str_split_char : Bytes → ℕ → Outcome Split
unfolding str_split_text c_str
str_split_char s c = str_split_text s (c_str (c ∷ []))

unfoldable pub str_split_char_reverse : Bytes → ℕ → Outcome Split
unfolding str_split_text_reverse c_str
str_split_char_reverse s c = str_split_text_reverse s (c_str (c ∷ []))

unfoldable pub str_left : Bytes → ℕ → Outcome Bytes
str_left s chars = if ltb (length s) chars then bug else ok (take chars s)

unfoldable pub str_right : Bytes → ℕ → Outcome Bytes
str_right s chars = if ltb (length s) chars then bug else ok (drop (length s - chars) s)

unfoldable pub str_mid_to_end : Bytes → ℕ → Outcome Bytes
str_mid_to_end s indexx = if ltb (length s) indexx then bug else ok (drop indexx s)

byte_or_bug : Option ℕ → Outcome ℕ
byte_or_bug none = bug
byte_or_bug (some c) = ok c

unfoldable pub str_get_char_at : Bytes → ℕ → Outcome ℕ
unfolding byte_or_bug
str_get_char_at s indexx = byte_or_bug (get_elem? s indexx)
