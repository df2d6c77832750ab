-- ===== src/Str/Locate.antt =====
-- src/str.c: the searches. `none` is a result with `found` 0; a text has no zero byte, so its
-- `strlen` is its length.
pub mod First
pub mod Last
use cos_ftp_v.Base.{
  ℕ, zero, suc, ◌+◌, ◌-◌, ◌*◌, ◌/◌, ◌%◌, ◌^◌, ◌≤◌, ◌<◌, min, max, ◌≡◌, refl, sym, ap, ◌∙◌, subst,
  ◌≢◌, ◌↔◌, ◌⊎◌, inl, inr, Bool, true, false, not, ◌&&◌, ◌||◌, Option, none, some, List, [], ◌∷◌,
  ◌++◌, map, append-nil, append_assoc, arith, Bytes, codes, uint_mod, ltb, leb, ◌==◌, if◌then◌else◌,
  ltb→lt, lt→ltb, le→ltb, lt→leb, leb→le, le→leb, ==_iff, ==_refl, Bool-cases, Option-cases, tests,
  length, get_elem?, set, take, drop, replicate, length-append, length-take, length-drop,
  length-replicate, length-set, take-append-drop, take-length_append, drop-length_append,
  take-length, take-all, drop_split, drop_add, any_of, All, All-append, All-left, All-right, all_of,
  Outcome, ok, bug, die, exit, fault, ◌>>=◌, >>=-eq-ok, Ends, Returns, Ends-bind, Ends-mono,
  Returns-ok,
}

-- What `strlen` and the functions that take a C string see of a buffer.
unfoldable pub c_str : Bytes → Bytes
c_str [] = []
c_str (c ∷ s) = if c == 0 then [] else c ∷ c_str s

-- `memcmp(p_buf, p_text, text_len) == 0` on a buffer that is at least as long.
unfoldable pub starts_with : Bytes → Bytes → Bool
starts_with [] s = true
starts_with (x ∷ t) [] = false
starts_with (x ∷ t) (y ∷ s) = y == x && starts_with t s

tail_of : Bytes → Bytes
tail_of [] = []
tail_of (x ∷ s) = s

-- The loop for `i` over the `rounds` that are left; the buffer is the one behind `p_buf + i`.
pub locate_loop : ℕ → ℕ → Bytes → Bytes → Option ℕ
unfolding tail_of
locate_loop zero i s t = none
locate_loop (suc rounds) i s t =
    let later = locate_loop rounds (i + 1) (tail_of s) t in
    if starts_with t s then some i else later

unfoldable pub str_locate_text : Bytes → Bytes → Option ℕ
unfolding locate_loop starts_with
str_locate_text s t =
    if length t == 0 || ltb (length s) (length t)
    then none
    else locate_loop (length s - length t + 1) 0 s t

-- The loop from `i` down to 0.
pub locate_down : ℕ → Bytes → Bytes → Option ℕ
locate_down zero s t = if starts_with t s then some 0 else none
locate_down (suc i) s t =
    let earlier = locate_down i s t in
    if starts_with t (drop (suc i) s) then some (suc i) else earlier

unfoldable pub str_locate_text_reverse : Bytes → Bytes → Option ℕ
unfolding locate_down starts_with
str_locate_text_reverse s t =
    if length t == 0 || ltb (length s) (length t)
    then none
    else locate_down (length s - length t) s t

unfoldable pub str_locate_char : Bytes → ℕ → Option ℕ
unfolding str_locate_text c_str
str_locate_char s c = str_locate_text s (c_str (c ∷ []))

unfoldable pub str_locate_str : Bytes → Bytes → Option ℕ
unfolding str_locate_text c_str
str_locate_str s look = str_locate_text s (c_str look)

unfoldable pub str_locate_str_reverse : Bytes → Bytes → Option ℕ
unfolding str_locate_text_reverse c_str
str_locate_str_reverse s look = str_locate_text_reverse s (c_str look)

pub contains_byte : Bytes → ℕ → Bool
contains_byte [] c = false
contains_byte (x ∷ cs) c = x == c || contains_byte cs c

-- `index` and `char_found`.
unfoldable pub locate_chars_from : ℕ → Bytes → Bytes → Option (ℕ × ℕ)
unfolding contains_byte
locate_chars_from i [] chars = none
locate_chars_from i (c ∷ s) chars =
    if contains_byte chars c then some (i, c) else locate_chars_from (i + 1) s chars

unfoldable pub str_locate_chars : Bytes → Bytes → Option (ℕ × ℕ)
unfolding locate_chars_from
str_locate_chars s chars = locate_chars_from 0 s chars
