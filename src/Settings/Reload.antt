-- ===== src/Settings/Reload.antt =====
-- The reload of the settings by the listener: src/tunables.c, and `handle_sighup` of
-- src/standalone.c.
pub mod Forgets
use cos_ftp_v.Base.{
  ℕ, zero, suc, ◌+◌, ◌-◌, ◌*◌, ◌/◌, ◌%◌, ◌^◌, ◌≤◌, ◌<◌, min, max, ◌≡◌, refl, sym, ap, ◌∙◌, subst,
  ◌≢◌, ◌↔◌, ◌⊎◌, inl, inr, Bool, true, false, not, ◌&&◌, ◌||◌, Option, none, some, List, [], ◌∷◌,
  ◌++◌, map, append-nil, append_assoc, arith, Bytes, codes, uint_mod, ltb, leb, ◌==◌, if◌then◌else◌,
  ltb→lt, lt→ltb, le→ltb, lt→leb, leb→le, le→leb, ==_iff, ==_refl, Bool-cases, Option-cases,
  if_elim, tests, length, get_elem?, set, take, drop, replicate, length-append, length-take,
  length-drop, length-replicate, length-set, take-append-drop, take-length_append,
  drop-length_append, take-length, take-all, drop_split, drop_add, any_of, All, All-append,
  All-left, All-right, all_of, Outcome, ok, bug, die, exit, fault, ◌>>=◌, >>=-eq-ok, Ends, Returns,
  Ends-bind, Ends-mono, Returns-ok,
}
use cos_ftp_v.Str.Compare.{str_equal}
use cos_ftp_v.Str.Edit.{is_empty, str_upper}
use cos_ftp_v.Str.Lines.Each.{lines}
use cos_ftp_v.Str.Locate.{c_str}
use cos_ftp_v.Str.Split.Parts.{before, after, str_split_char-before-after}
use cos_ftp_v.Settings.Tables.{parseconf_bool_array, parseconf_uint_array, parseconf_str_array}
use cos_ftp_v.Settings.Defaults.{bool_defaults, uint_defaults, str_defaults}
use cos_ftp_v.Settings.{
  Config, put, is_in, skip_space, bool_value, put_bool, is_comment, uint_value, load_value,
  vsf_parseconf_load_setting, load_line, load_content, vsf_parseconf_load_file,
}
use cos_ftp_v.Settings.Lenient.{load_lines, load_loop-lines}

-- One assignment after the other.
abbrev pub set_all {ℓ} : {A : Type ℓ} → List (Bytes × A) → (Bytes → A) → Bytes → A
set_all [] vars = vars
set_all ((name, a) ∷ l) vars = set_all l (put name a vars)

unfoldable pub tunables_load_defaults : Config → Config
tunables_load_defaults c = record {
  strs = set_all str_defaults c.strs;
  bools = set_all bool_defaults c.bools;
  uints = set_all uint_defaults c.uints;
}

unfoldable pub handle_sighup :
    (Bytes → ℕ)
    → (Bytes → Option Bytes)
    → (Bytes → Bool)
    → Option Bytes × Config
    → Outcome (Option Bytes × Option Config)
handle_sighup atoi fileread owned (saved, c) =
    vsf_parseconf_load_file atoi fileread owned none false (saved, tunables_load_defaults c)
