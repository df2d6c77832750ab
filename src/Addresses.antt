-- ===== src/Addresses.antt =====
-- src/ipaddrparse.c: addresses in text.
pub mod Bounds
pub mod Items
use cos_ftp_v.Base.{
  ℕ, zero, suc, ◌+◌, ◌-◌, ◌*◌, ◌/◌, ◌%◌, ◌^◌, ◌≤◌, ◌<◌, min, max, ◌≡◌, refl, sym, ap, ◌∙◌, subst,
  ◌≢◌, ◌↔◌, ◌⊎◌, inl, inr, Bool, true, false, not, ◌&&◌, ◌||◌, Option, none, some, List, [], ◌∷◌,
  ◌++◌, map, append-nil, append_assoc, arith, Bytes, codes, uint_mod, ltb, leb, ◌==◌, if◌then◌else◌,
  ltb→lt, lt→ltb, le→ltb, lt→leb, leb→le, le→leb, ==_iff, ==_refl, Bool-cases, Option-cases,
  if_elim, tests, length, get_elem?, set, take, drop, replicate, length-append, length-take,
  length-drop, length-replicate, length-set, take-append-drop, take-length_append,
  drop-length_append, take-length, take-all, drop_split, drop_add, any_of, All, All-append,
  All-left, All-right, all_of, Outcome, ok, bug, die, exit, fault, ◌>>=◌, >>=-eq-ok, Ends, Returns,
  Ends-bind, Ends-mono, Returns-ok,
}
use cos_ftp_v.Str.Chars.{vsf_sysutil_toupper}
use cos_ftp_v.Str.Edit.{is_empty}
use cos_ftp_v.Str.Locate.{str_locate_char}
use cos_ftp_v.Str.Split.{str_split_text, str_split_char}

-- A null pointer or 0, or the bytes; `out_of_fuel` is a lack of fuel.
pub data Parsed : Type 0 where
  no_address out_of_fuel : Parsed
  parsed : Bytes → Parsed

abbrev pub cons_item : ℕ → Option Bytes → Outcome (Option Bytes)
cons_item n none = ok none
cons_item n (some s) = ok (some (n ∷ s))

-- `atoi` is that of the C library; a negative number is above 255 as an `unsigned int`.
module _ (atoi : Bytes → ℕ) where
  -- The `for` loop, with the items that are left.
  pub uchar_loop : ℕ → Bytes → ℕ → Outcome (Option Bytes)
  uchar_loop zero s sep = ok (some [])
  uchar_loop (suc left) s sep = str_split_char s sep >>= (λ p.
      let rest = uchar_loop left p.1 sep in
      if (ltb 0 left && is_empty p.1) || (left == 0 && not (is_empty p.1))
      then ok none
      else if ltb 255 (atoi p.0)
      then ok none
      else rest >>= cons_item (atoi p.0))

  unfoldable pub vsf_sysutil_parse_uchar_string_sep : Bytes → ℕ → ℕ → Outcome (Option Bytes)
  unfolding uchar_loop
  vsf_sysutil_parse_uchar_string_sep s sep items = uchar_loop items s sep

  unfoldable pub vsf_sysutil_parse_ipv4 : Bytes → Outcome (Option Bytes)
  vsf_sysutil_parse_ipv4 s = vsf_sysutil_parse_uchar_string_sep s b'.' 4

abbrev pub hex_digit : ℕ → Option ℕ
hex_digit ch =
    if leb b'0' ch && leb ch b'9'
    then some (ch - b'0')
    else if leb b'A' ch && leb ch b'F'
    then some (ch - b'A' + 10)
    else none

-- The `for` loop with its `val`.
pub hex_loop : ℕ → Bytes → Option ℕ
hex_loop val [] = some val
hex_loop val (c ∷ s) = elim (hex_digit (vsf_sysutil_toupper c)) [
  | none ↦ none
  | some d ↦ let rest = hex_loop (val * 16 + d) s in if ltb 65535 (val * 16 + d) then none else rest
]

-- A parse puts bytes behind those that are there, or refuses.
unfoldable pub ipv6_parse_hex : Bytes → Bytes → Option Bytes
unfolding hex_loop
ipv6_parse_hex out s = elim (hex_loop 0 s) [
  | none ↦ none
  | some val ↦ some (out ++ val / 256 % 256 ∷ val % 256 ∷ [])
]

pub record Quad : Type 0 where
  pub val : ℕ
  pub final_val : ℕ
  pub seen_char : Bool
  pub dots : ℕ

-- One round of the `for` loop.
unfoldable pub quad_step : ℕ → Quad → Option Quad
quad_step ch q =
    if ch == b'.'
    then (if not q.seen_char || q.dots == 3
        then none
        else some (record {
          val = 0;
          final_val = (q.final_val * 256 + q.val) % uint_mod;
          seen_char = false;
          dots = q.dots + 1;
        }))
    else if leb b'0' ch && leb ch b'9'
    then (if ltb 255 (q.val * 10 + (ch - b'0'))
        then none
        else some (record q { val = q.val * 10 + (ch - b'0'); seen_char = true }))
    else none

pub quad_loop : Quad → Bytes → Option Quad
quad_loop q [] = some q
quad_loop q (c ∷ s) = elim (quad_step c q) [ none ↦ none | some q1 ↦ quad_loop q1 s ]

abbrev pub quad_bytes : ℕ → Bytes
quad_bytes n = n / 16777216 % 256 ∷ n / 65536 % 256 ∷ n / 256 % 256 ∷ n % 256 ∷ []

abbrev pub quad_end : Bytes → Option Quad → Option Bytes
quad_end out none = none
quad_end out (some q) =
    if not (q.dots == 3) || not q.seen_char
    then none
    else some (out ++ quad_bytes ((q.final_val * 256 + q.val) % uint_mod))

unfoldable pub ipv4_parse_dotquad : Bytes → Bytes → Option Bytes
unfolding quad_loop
ipv4_parse_dotquad out s =
    quad_end out (quad_loop (record { val = 0; final_val = 0; seen_char = false; dots = 0 }) s)

abbrev pub is_found : Option ℕ → Bool
is_found none = false
is_found (some i) = true

unfoldable pub ipv6_parse_field : Bytes → Bytes → Option Bytes
ipv6_parse_field out s =
    if is_found (str_locate_char s b'.') then ipv4_parse_dotquad out s else ipv6_parse_hex out s

abbrev pub field_then : (Bytes → Outcome Parsed) → Option Bytes → Outcome Parsed
field_then next none = ok no_address
field_then next (some out) = next out

-- The `while` loop.
pub main_loop : ℕ → Bytes → Bytes → Outcome Parsed
main_loop zero out s = ok out_of_fuel
main_loop (suc fuel) out s =
    if is_empty s
    then ok (parsed out)
    else str_split_char s b':' >>= (λ p.
      if is_empty p.0
      then ok no_address
      else field_then (λ out1. main_loop fuel out1 p.1) (ipv6_parse_field out p.0))

unfoldable pub ipv6_parse_main : Bytes → Outcome Parsed
unfolding main_loop
ipv6_parse_main s = main_loop (length s + 1) [] s

-- The two sides of "::" put together.
abbrev pub join : Parsed → Parsed → Parsed
join out_of_fuel rhs = out_of_fuel
join no_address rhs = no_address
join (parsed lhs) out_of_fuel = out_of_fuel
join (parsed lhs) no_address = no_address
join (parsed lhs) (parsed rhs) =
    if ltb 16 (length lhs + length rhs)
    then no_address
    else if ltb 0 (length rhs)
    then parsed ((lhs ++ replicate (16 - (length lhs + length rhs)) 0) ++ rhs)
    else parsed lhs

unfoldable pub vsf_sysutil_parse_ipv6 : Bytes → Outcome Parsed
vsf_sysutil_parse_ipv6 s =
    str_split_text s (codes "::")
    >>= (λ p. ipv6_parse_main p.0 >>= (λ lhs. ipv6_parse_main p.1 >>= (λ rhs. ok (join lhs rhs))))
