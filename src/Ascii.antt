-- ===== src/Ascii.antt =====
-- src/ascii.c: line ends in ASCII transfers, a block at a time. The buffers are lists; `prev_cr` and
-- `last_was_cr` carry a carriage return over to the next block.
pub mod Download
pub mod Upload
use cos_ftp_v.Base.{
  ℕ, zero, suc, ◌+◌, ◌-◌, ◌*◌, ◌/◌, ◌%◌, ◌^◌, ◌≤◌, ◌<◌, min, max, ◌≡◌, refl, sym, ap, ◌∙◌, subst,
  ◌≢◌, ◌↔◌, ◌⊎◌, inl, inr, Bool, true, false, not, ◌&&◌, ◌||◌, Option, none, some, List, [], ◌∷◌,
  ◌++◌, map, append-nil, append_assoc, arith, Bytes, codes, uint_mod, ltb, leb, ◌==◌, if◌then◌else◌,
  ltb→lt, lt→ltb, le→ltb, lt→leb, leb→le, le→leb, ==_iff, ==_refl, Bool-cases, Option-cases, tests,
  length, get_elem?, set, take, drop, replicate, length-append, length-take, length-drop,
  length-replicate, length-set, take-append-drop, take-length_append, drop-length_append,
  take-length, take-all, drop_split, drop_add, any_of, All, All-append, All-left, All-right, all_of,
  Outcome, ok, bug, die, exit, fault, ◌>>=◌, >>=-eq-ok, Ends, Returns, Ends-bind, Ends-mono,
  Returns-ok,
}

abbrev pub cr : ℕ
cr = 13

abbrev pub lf : ℕ
lf = 10

-- `stored` is the length of `out`.
pub record AsciiRet : Type 0 where
  pub out : Bytes
  pub last_was_cr : Bool

-- The loop of `vsf_ascii_bin_to_ascii`; `last_char` is 0 before the first byte.
pub bin_loop : ℕ → Bytes → Bytes
bin_loop last_char [] = []
bin_loop last_char (c ∷ s) =
    if c == lf && not (last_char == cr) then cr ∷ c ∷ bin_loop c s else c ∷ bin_loop c s

-- `ret.last_was_cr` as the loop leaves it.
pub bin_last : Bool → Bytes → Bool
bin_last was [] = was
bin_last was (c ∷ s) = bin_last (c == cr) s

unfoldable pub vsf_ascii_bin_to_ascii : Bytes → Bool → AsciiRet
unfolding bin_loop bin_last
vsf_ascii_bin_to_ascii s prev_cr = record {
  out = bin_loop (if prev_cr then cr else 0) s;
  last_was_cr = bin_last prev_cr s;
}

-- The loop of `vsf_ascii_ascii_to_bin`, over the bytes behind `indexx`.
pub ascii_loop : Bytes → Bytes
ascii_loop [] = []
ascii_loop (c ∷ []) = if not (c == cr) then c ∷ [] else []
ascii_loop (c ∷ d ∷ s) =
    let kept = c ∷ ascii_loop (d ∷ s) in
    if not (c == cr) then kept else if not (d == lf) then kept else ascii_loop (d ∷ s)

pub ascii_last : Bytes → Bool
ascii_last [] = false
ascii_last (c ∷ []) = c == cr
ascii_last (c ∷ d ∷ s) = ascii_last (d ∷ s)

-- `!in_len || p_out[0] != '\n'`
unfoldable pub not_at_lf : Bytes → Bool
not_at_lf [] = true
not_at_lf (c ∷ s) = not (c == lf)

unfoldable pub vsf_ascii_ascii_to_bin : Bytes → Bool → AsciiRet
unfolding ascii_loop ascii_last not_at_lf
vsf_ascii_ascii_to_bin s prev_cr = record {
  out = (if prev_cr && not_at_lf s then cr ∷ [] else []) ++ ascii_loop s;
  last_was_cr = ascii_last s;
}
