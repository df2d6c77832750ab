-- ===== src/Control/Reply.antt =====
-- src/ftpcmdio.c: the functions that write a reply.
pub mod OneLine
use cos_ftp_v.Base.{
  ℕ, zero, suc, ◌+◌, ◌-◌, ◌*◌, ◌/◌, ◌%◌, ◌^◌, ◌≤◌, ◌<◌, min, max, ◌≡◌, refl, sym, ap, ◌∙◌, subst,
  ◌≢◌, ◌↔◌, ◌⊎◌, inl, inr, Bool, true, false, not, ◌&&◌, ◌||◌, Option, none, some, List, [], ◌∷◌,
  ◌++◌, map, append-nil, append_assoc, arith, Bytes, codes, uint_mod, ltb, leb, ◌==◌, if◌then◌else◌,
  ltb→lt, lt→ltb, le→ltb, lt→leb, leb→le, le→leb, ==_iff, ==_refl, Bool-cases, Option-cases, tests,
  length, get_elem?, set, take, drop, replicate, length-append, length-take, length-drop,
  length-replicate, length-set, take-append-drop, take-length_append, drop-length_append,
  take-length, take-all, drop_split, drop_add, any_of, All, All-append, All-left, All-right, all_of,
  Outcome, ok, bug, die, exit, fault, ◌>>=◌, >>=-eq-ok, Ends, Returns, Ends-bind, Ends-mono,
  Returns-ok,
}
use cos_ftp_v.SysUtil.Numbers.{vsf_sysutil_ulong_to_str}
use cos_ftp_v.Str.Edit.{str_replace_text, str_replace_char}

-- What a call does to the outside: lines for the log, and bytes for the client.
pub data Event : Type 0 where
  log_output : Bytes → Event
  send : Bytes → Event

-- The result of a loop on fuel.
finished : Option Bytes → Outcome Bytes
finished none = fault
finished (some s) = ok s

-- `s_write_buf_str` as it goes to the log.
abbrev logged : ℕ → ℕ → Bytes → Bytes
logged status sep s = (vsf_sysutil_ulong_to_str status ++ sep ∷ []) ++ s

-- `s_write_buf_str` as it goes to the client.
pub wire : ℕ → ℕ → Bytes → Outcome Bytes
unfolding finished
wire status sep s = do
  escaped ← str_replace_text s (255 ∷ []) (255 ∷ 255 ∷ [])
  mangled ← finished escaped
  ok (
      (vsf_sysutil_ulong_to_str status ++ sep ∷ [])
      ++ str_replace_char mangled b'\n' 0
      ++ 13 ∷ 10 ∷ [])

-- `log_protocol` is `tunable_log_ftp_protocol`. `sent` is whether `ftp_write_str` returns 0.
module _ (log_protocol : Bool) (sent : Bytes → Bool) where
  pub ftp_write_str_common : ℕ → ℕ → Bytes → Outcome (List Event)
  ftp_write_str_common status sep s = wire status sep s >>= (λ bytes.
      if sent bytes
      then ok
          ((if log_protocol then log_output (logged status sep s) ∷ [] else []) ++ send bytes ∷ [])
      else die)

  -- The text is a C string.
  unfoldable pub vsf_cmdio_write : ℕ → Bytes → Outcome (List Event)
  unfolding ftp_write_str_common wire
  vsf_cmdio_write status text = ftp_write_str_common status b' ' text

  unfoldable pub vsf_cmdio_write_hyphen : ℕ → Bytes → Outcome (List Event)
  unfolding ftp_write_str_common wire
  vsf_cmdio_write_hyphen status text = ftp_write_str_common status b'-' text

  unfoldable pub vsf_cmdio_write_str : ℕ → Bytes → Outcome (List Event)
  unfolding ftp_write_str_common wire
  vsf_cmdio_write_str status s = ftp_write_str_common status b' ' s

  unfoldable pub vsf_cmdio_write_str_hyphen : ℕ → Bytes → Outcome (List Event)
  unfolding ftp_write_str_common wire
  vsf_cmdio_write_str_hyphen status s = ftp_write_str_common status b'-' s

  unfoldable pub vsf_cmdio_write_raw : Bytes → Outcome (List Event)
  vsf_cmdio_write_raw text =
      if sent text
      then ok ((if log_protocol then log_output text ∷ [] else []) ++ send text ∷ [])
      else die
