-- ===== src/Str/Lines.antt =====
-- src/str.c: `str_getline` with its position, and the loop of `str_contains_line` over it.
pub mod Each
use cos_ftp_v.Base.{
  ℕ, zero, suc, ◌+◌, ◌-◌, ◌*◌, ◌/◌, ◌%◌, ◌^◌, ◌≤◌, ◌<◌, min, max, ◌≡◌, refl, sym, ap, ◌∙◌, subst,
  ◌≢◌, ◌↔◌, ◌⊎◌, inl, inr, Bool, true, false, not, ◌&&◌, ◌||◌, Option, none, some, List, [], ◌∷◌,
  ◌++◌, map, append-nil, append_assoc, arith, Bytes, codes, uint_mod, ltb, leb, ◌==◌, if◌then◌else◌,
  ltb→lt, lt→ltb, le→ltb, lt→leb, leb→le, le→leb, ==_iff, ==_refl, Bool-cases, Option-cases, tests,
  length, get_elem?, set, take, drop, replicate, length-append, length-take, length-drop,
  length-replicate, length-set, take-append-drop, take-length_append, drop-length_append,
  take-length, take-all, drop_split, drop_add, any_of, All, All-append, All-left, All-right, all_of,
  Outcome, ok, bug, die, exit, fault, ◌>>=◌, >>=-eq-ok, Ends, Returns, Ends-bind, Ends-mono,
  Returns-ok,
}
use cos_ftp_v.Str.Compare.{str_equal}

-- The first `while`, over the buffer behind `curr_pos`.
pub line_end : ℕ → Bytes → ℕ
line_end curr [] = curr
line_end curr (c ∷ s) = if c == b'\n' then curr else line_end (curr + 1) s

-- `curr_pos < buf_len && p_buf[curr_pos] == '\n'`, over the buffer behind `curr_pos`.
pub on_newline : Bytes → Bool
on_newline [] = false
on_newline (c ∷ s) = c == b'\n'

-- The line and the new position, or `none` for a result of 0.
unfoldable pub str_getline : Bytes → ℕ → Outcome (Option (Bytes × ℕ))
unfolding line_end on_newline
str_getline s start_pos =
    let buf = drop start_pos s in
    let curr_pos = line_end start_pos buf in
    let out_len = curr_pos - start_pos in
    let next_pos = if on_newline (drop curr_pos s) then curr_pos + 1 else curr_pos in
    if ltb (length s) start_pos
    then bug
    else if start_pos == length s
    then ok none
    else ok (some (take out_len buf, next_pos))

-- The `while` loop; `none` is a lack of fuel.
pub contains_line_loop : ℕ → Bytes → Bytes → ℕ → Outcome (Option Bool)
contains_line_loop zero s line pos = ok none
contains_line_loop (suc fuel) s line pos = str_getline s pos >>= (λ o. elim o [
  | none ↦ ok (some false)
  | some (curr, pos') ↦
      let rest = contains_line_loop fuel s line pos' in
      if str_equal curr line then ok (some true) else rest
])

unfoldable pub str_contains_line : Bytes → Bytes → Outcome (Option Bool)
unfolding contains_line_loop
str_contains_line s line = contains_line_loop (length s + 1) s line 0
