-- ===== src/Listing.antt =====
-- src/ls.c: `vsf_filename_passes_filter`, which matches a name against a pattern.
pub mod Pieces
pub mod Total
use cos_ftp_v.Base.{
  ℕ, zero, suc, ◌+◌, ◌-◌, Bool, true, false, not, ◌&&◌, ◌||◌, Option, none, some, [], ◌++◌, Bytes,
  codes, ltb, leb, ◌==◌, if◌then◌else◌, length, Outcome, ok, fault, ◌>>=◌,
}
use cos_ftp_v.Str.Locate.{str_locate_chars, str_locate_char, str_locate_str}
use cos_ftp_v.Str.Split.{str_left, str_right, str_mid_to_end, str_get_char_at, str_split_char}
use cos_ftp_v.Str.Edit.{is_empty}

abbrev pub matchiters_max : ℕ
matchiters_max = 1000

-- The text in front of the next token, what is behind the token, and the token or 0.
pub record Piece : Type 0 where
  pub match_needed : Bytes
  pub filter_remain : Bytes
  pub last_token : ℕ

pub piece_at : Bytes → Option (ℕ × ℕ) → Outcome Piece
piece_at filter none = ok (record { match_needed = filter; filter_remain = []; last_token = 0 })
piece_at filter (some located) = do
  needed ← str_left filter located.0
  behind ← str_mid_to_end filter (located.0 + 1)
  ok (record { match_needed = needed; filter_remain = behind; last_token = located.1 })

-- The name behind the text needed, or `none` where the match fails. The place must be 0 if the text
-- has to stand at the current position.
pub chop : Bytes → Bytes → Bool → Option ℕ → Outcome (Option Bytes)
chop name needed must none = ok none
chop name needed must (some indexx) =
    if must && ltb 0 indexx
    then ok none
    else (str_mid_to_end name (indexx + length needed) >>= (λ rest. ok (some rest)))

pub need : Bytes → Bytes → Bool → Outcome (Option Bytes)
unfolding chop
need name needed must =
    if is_empty needed then ok (some name) else chop name needed must (str_locate_str name needed)

-- The result with the value of `*iters`.
abbrev pub Verdict : Type 0
Verdict = Bool × ℕ

-- The rounds that follow: on a name, a filter, `*iters`, `last_token` and
-- `must_match_at_current_pos`.
abbrev Rest : Type 0
Rest = Bytes → Bytes → ℕ → ℕ → Bool → Outcome Verdict

-- One byte of the name is passed over.
skip_one : Rest → Bytes → Bytes → ℕ → ℕ → Outcome Verdict
skip_one rest name filter iters token =
    str_right name (length name - 1) >>= (λ name1. rest name1 filter iters token true)

-- The `while` loop over the alternatives of a brace; `others` is `temp_str`. `fault` is a lack of
-- fuel.
pub try_each : ℕ → (Bytes → ℕ → Outcome Verdict) → Bytes → Bytes → Bytes → ℕ → Outcome Verdict
try_each zero passes alternative others behind iters = fault
try_each (suc fuel) passes alternative others behind iters =
    if is_empty alternative
    then ok (false, iters)
    else (passes (alternative ++ behind) iters >>= (λ r.
        if r.0
        then ok r
        else (str_split_char others b',' >>= (λ p. try_each fuel passes p.0 p.1 behind r.1))))

pub open_brace : Rest → Bytes → Bytes → ℕ → Option ℕ → Outcome Verdict
unfolding try_each skip_one
open_brace rest name filter iters (some _) = do
  p ← str_split_char filter b'}'
  q ← str_split_char p.0 b','
  try_each (length p.0 + 1) (λ f i. rest name f i 0 true) q.0 q.1 p.1 iters
open_brace rest name filter iters none =
    if is_empty name
    then ok (false, iters)
    else (str_get_char_at name 0 >>= (λ c.
        if not (c == b'{') then ok (false, iters) else skip_one rest name filter iters b'{'))

pub after_token : Rest → Bytes → Bytes → ℕ → ℕ → Outcome Verdict
unfolding skip_one open_brace
after_token rest name filter iters token =
    if token == b'?'
    then if is_empty name then ok (false, iters) else skip_one rest name filter iters token
    else if token == b'{'
    then open_brace rest name filter iters (str_locate_char filter b'}')
    else rest name filter iters token false

-- The part of a round behind the match of the text needed.
go_on_with : Rest → Piece → ℕ → Option Bytes → Outcome Verdict
unfolding after_token
go_on_with rest piece iters none = ok (false, iters)
go_on_with rest piece iters (some name) =
    after_token rest name piece.filter_remain iters piece.last_token

-- Behind the `while` loop.
pub verdict : Bytes → ℕ → ℕ → Bool
verdict name last_token iters =
    if ltb 0 (length name) && not (last_token == b'*') then false else not (iters == matchiters_max)

-- The `while` loop; `fault` is a lack of fuel.
pub filter_loop : ℕ → Bytes → Bytes → ℕ → ℕ → Bool → Outcome Verdict
unfolding piece_at need go_on_with verdict
filter_loop zero name filter iters last_token must = fault
filter_loop (suc fuel) name filter iters last_token must =
    if is_empty filter || leb matchiters_max iters
    then ok (verdict name last_token iters, iters)
    else (piece_at filter (str_locate_chars filter (codes "*?{")) >>= (λ piece.
        need name piece.match_needed must
        >>= (λ o. go_on_with (filter_loop fuel) piece (iters + 1) o)))

unfoldable pub vsf_filename_passes_filter : Bytes → Bytes → ℕ → Outcome Verdict
unfolding filter_loop
vsf_filename_passes_filter name filter iters =
    filter_loop (matchiters_max + 1 - iters) name filter iters 0 true
