-- ===== src/Settings.antt =====
-- src/parseconf.c: how a file of settings is loaded.
pub mod Tables
pub mod Lenient
pub mod Strict
pub mod Defaults
pub mod Reload
use cos_ftp_v.Base.{
  ℕ, zero, suc, ◌+◌, ◌-◌, ◌*◌, ◌/◌, ◌%◌, ◌^◌, ◌≤◌, ◌<◌, min, max, ◌≡◌, refl, sym, ap, ◌∙◌, subst,
  ◌≢◌, ◌↔◌, ◌⊎◌, inl, inr, Bool, true, false, not, ◌&&◌, ◌||◌, Option, none, some, List, [], ◌∷◌,
  ◌++◌, map, append-nil, append_assoc, arith, Bytes, codes, uint_mod, ltb, leb, ◌==◌, if◌then◌else◌,
  ltb→lt, lt→ltb, le→ltb, lt→leb, leb→le, le→leb, ==_iff, ==_refl, Bool-cases, Option-cases,
  if_elim, tests, length, get_elem?, set, take, drop, replicate, length-append, length-take,
  length-drop, length-replicate, length-set, take-append-drop, take-length_append,
  drop-length_append, take-length, take-all, drop_split, drop_add, any_of, All, All-append,
  All-left, All-right, all_of, Outcome, ok, bug, die, exit, fault, ◌>>=◌, >>=-eq-ok, Ends, Returns,
  Ends-bind, Ends-mono, Returns-ok,
}
use cos_ftp_v.Settings.Tables.{parseconf_bool_array, parseconf_uint_array, parseconf_str_array}
use cos_ftp_v.Str.Chars.{vsf_sysutil_isspace}
use cos_ftp_v.Str.Compare.{str_equal}
use cos_ftp_v.Str.Edit.{is_empty, str_upper, str_all_space}
use cos_ftp_v.Str.Lines.{str_getline}
use cos_ftp_v.Str.Locate.{c_str}
use cos_ftp_v.Str.Split.{str_split_char}
use cos_ftp_v.SysUtil.Numbers.{vsf_sysutil_octal_to_uint}

-- The variables, by the name of their setting; a null text is `none`.
pub record Config : Type 0 where
  pub strs : Bytes → Option Bytes
  pub bools : Bytes → Bool
  pub uints : Bytes → ℕ

abbrev pub put {ℓ} : {A : Type ℓ} → Bytes → A → (Bytes → A) → Bytes → A
put name a vars n = if str_equal n name then a else vars n

-- The search of a table.
unfoldable pub is_in : List Bytes → Bytes → Bool
is_in names name = any_of (λ n. str_equal name n) names

unfoldable pub skip_space : Bytes → Bytes
skip_space [] = []
skip_space (c ∷ s) = if vsf_sysutil_isspace c then skip_space s else c ∷ s

-- The value of a setting that is on or off, in upper case; `none` is a bad one.
unfoldable pub bool_value : Bytes → Option Bool
bool_value v =
    if str_equal v (codes "YES") || str_equal v (codes "TRUE") || str_equal v (codes "1")
    then some true
    else if str_equal v (codes "NO") || str_equal v (codes "FALSE") || str_equal v (codes "0")
    then some false
    else none

abbrev pub first_is : ℕ → Bytes → Bool
first_is c [] = false
first_is c (d ∷ s) = d == c

-- An error: fatal, or the setting is ignored.
abbrev pub err : Bool → Config → Outcome Config
err errs_fatal c = if errs_fatal then die else ok c

abbrev pub put_bool : Bool → Bytes → Option Bool → Config → Outcome Config
put_bool errs_fatal name none c = err errs_fatal c
put_bool errs_fatal name (some b) c = ok (record c { bools = put name b c.bools })

-- A line that is skipped.
unfoldable pub is_comment : Bytes → Bool
is_comment s = is_empty s || first_is b'#' s || str_all_space s

-- `atoi` is that of the C library, as an `unsigned int`.
module _ (atoi : Bytes → ℕ) where
  unfoldable pub uint_value : Bytes → ℕ
  uint_value v = if first_is b'0' v then vsf_sysutil_octal_to_uint (c_str v) else atoi (c_str v)

  unfoldable pub load_value : Bool → Config → Bytes × Bytes → Outcome Config
  load_value errs_fatal c (name, value) =
      if is_in parseconf_str_array name
      then ok (record c {
        strs = put name (if is_empty value then none else some (c_str value)) c.strs;
      })
      else if is_empty value
      then err errs_fatal c
      else if is_in parseconf_bool_array name
      then put_bool errs_fatal name (bool_value (str_upper value)) c
      else if is_in parseconf_uint_array name
      then ok (record c { uints = put name (uint_value value) c.uints })
      else err errs_fatal c

  unfoldable pub vsf_parseconf_load_setting : Bool → Bytes → Config → Outcome Config
  vsf_parseconf_load_setting errs_fatal setting c =
      str_split_char (skip_space (c_str setting)) b'=' >>= load_value errs_fatal c

  abbrev pub load_line : Bool → Bytes → Config → Outcome Config
  load_line errs_fatal s c =
      if is_comment s then ok c else vsf_parseconf_load_setting errs_fatal s c

  abbrev pub on_line :
      Bool
      → Config
      → (ℕ → Config → Outcome (Option Config))
      → Option (Bytes × ℕ)
      → Outcome (Option Config)
  on_line errs_fatal c next none = ok (some c)
  on_line errs_fatal c next (some (s, pos)) = load_line errs_fatal s c >>= next pos

  -- The `while` loop; `none` is a lack of fuel.
  pub load_loop : ℕ → Bytes → Bool → ℕ → Config → Outcome (Option Config)
  load_loop zero s errs_fatal pos c = ok none
  load_loop (suc fuel) s errs_fatal pos c =
      str_getline s pos >>= on_line errs_fatal c (λ pos' c1. load_loop fuel s errs_fatal pos' c1)

  -- Behind the read of a file, with whether `stat` says that it is a regular one of this user.
  load_content :
      Bool → Bool → Bytes → Config → Option Bytes → Outcome (Option Bytes × Option Config)
  unfolding load_loop
  load_content errs_fatal owned f c none = if errs_fatal then die else ok (some f, some c)
  load_content errs_fatal owned f c (some content) =
      if owned
      then load_loop (length content + 1) content errs_fatal 0 c >>= (λ o. ok (some f, o))
      else die

  -- `fileread` is `str_fileread`. With the name of the file that is kept for a later load.
  unfoldable pub vsf_parseconf_load_file :
      (Bytes → Option Bytes)
      → (Bytes → Bool)
      → Option Bytes
      → Bool
      → Option Bytes × Config
      → Outcome (Option Bytes × Option Config)
  unfolding load_content
  vsf_parseconf_load_file fileread owned none errs_fatal (none, c) = bug
  vsf_parseconf_load_file fileread owned none errs_fatal (some f, c) =
      load_content errs_fatal (owned f) f c (fileread f)
  vsf_parseconf_load_file fileread owned (some f) errs_fatal (saved, c) =
      load_content errs_fatal (owned f) f c (fileread f)
