-- ===== src/Control/Command.antt =====
-- src/ftpcmdio.c: `control_getline` and `vsf_cmdio_get_cmd_and_arg`, from the line that was read to
-- the command, its argument and the line for the log.
pub mod Clean
use cos_ftp_v.Base.{
  ℕ, zero, suc, ◌+◌, ◌-◌, ◌*◌, ◌/◌, ◌%◌, ◌^◌, ◌≤◌, ◌<◌, min, max, ◌≡◌, refl, sym, ap, ◌∙◌, subst,
  ◌≢◌, ◌↔◌, ◌⊎◌, inl, inr, Bool, true, false, not, ◌&&◌, ◌||◌, Option, none, some, List, [], ◌∷◌,
  ◌++◌, map, append-nil, append_assoc, arith, Bytes, codes, uint_mod, ltb, leb, ◌==◌, if◌then◌else◌,
  ltb→lt, lt→ltb, le→ltb, lt→leb, leb→le, le→leb, ==_iff, ==_refl, Bool-cases, Option-cases, tests,
  length, get_elem?, set, take, drop, replicate, length-append, length-take, length-drop,
  length-replicate, length-set, take-append-drop, take-length_append, drop-length_append,
  take-length, take-all, drop_split, drop_add, any_of, All, All-append, All-left, All-right, all_of,
  Outcome, ok, bug, die, exit, fault, ◌>>=◌, >>=-eq-ok, Ends, Returns, Ends-bind, Ends-mono,
  Returns-ok,
}
use cos_ftp_v.Str.Edit.{str_upper, str_replace_char, is_empty}
use cos_ftp_v.Str.Compare.{str_equal}
use cos_ftp_v.Str.Split.{str_split_char}
use cos_ftp_v.Control.Netstr.{Got, too_long, closed, died, out_of_fuel, line}

is_cr_at : Option ℕ → Bool
is_cr_at none = false
is_cr_at (some c) = c == 13

-- The loop that strips carriage returns off the end, for `len` down.
pub strip_cr : ℕ → Bytes → Bytes
unfolding is_cr_at
strip_cr zero s = s
strip_cr (suc n) s =
    let shorter = strip_cr n (take n s) in if is_cr_at (get_elem? s n) then shorter else s

-- What is done with a line that `ftp_getline` read.
pub clean_line : Bytes → Bytes
unfolding strip_cr
clean_line s = let s' = str_replace_char s 0 b'\n' in strip_cr (length s') s'

-- `vsf_cmdio_write_exit` with BADCMD on a line that is too long; 0 is the end of the connection.
unfoldable pub control_getline : Got → Outcome (Option Bytes)
unfolding clean_line
control_getline too_long = exit 1
control_getline closed = ok none
control_getline died = die
control_getline out_of_fuel = fault
control_getline (line s) = ok (some (clean_line s))

is_space : Bytes → Bool
is_space [] = false
is_space (c ∷ []) = c == b' '
is_space (c ∷ d ∷ s) = false

-- `p_cmd_str` and `p_arg_str`.
pub split_command : Bytes → Outcome (Bytes × Bytes)
unfolding is_space
split_command s =
    let parts : Outcome (Bytes × Bytes) =
      if is_space s then ok (s, []) else str_split_char s b' ' in
    parts >>= (λ p. ok (str_upper p.0, p.1))

-- `s_log_str`: a password is not logged.
pub log_text : Bytes → Bytes → Bytes
log_text cmd arg =
    if str_equal cmd (codes "PASS")
    then codes "PASS <password>"
    else if is_empty arg
    then cmd
    else (cmd ++ b' ' ∷ []) ++ arg

pub record Command : Type 0 where
  pub cmd : Bytes
  pub arg : Bytes
  pub logged : Option Bytes

-- The `idle_timeout` flag is set by the alarm while the read blocks.
unfoldable pub vsf_cmdio_get_cmd_and_arg : Bool → Bool → Got → Outcome Command
unfolding control_getline split_command log_text
vsf_cmdio_get_cmd_and_arg log_protocol idle_timeout got = control_getline got >>= (λ o.
    if idle_timeout then exit 1 else elim o [
      | none ↦ exit 1
      | some s ↦ split_command s >>= (λ p. ok (record {
        cmd = p.0;
        arg = p.1;
        logged = if log_protocol then some (log_text p.0 p.1) else none;
      }))
    ])
