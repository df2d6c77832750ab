-- ===== src/Process/Privops.antt =====
-- src/privops.c: the check of a name and a password in the privileged parent.
use cos_ftp_v.Base.{
  ℕ, Bool, true, false, not, ◌&&◌, ◌||◌, Option, none, some, List, [], ◌∷◌, ◌++◌, Bytes, codes, ltb,
  ◌==◌, if◌then◌else◌, length, Outcome, ok, die, ◌>>=◌,
}
use cos_ftp_v.Str.Chars.{vsf_sysutil_isalnum}
use cos_ftp_v.Str.Edit.{is_empty, str_contains_space, str_contains_unprintable, str_replace_char}
use cos_ftp_v.Str.Lines.{str_contains_line}
use cos_ftp_v.Session.Prelogin.{is_anon, located}
use cos_ftp_v.Users.{cos_handle_login}

-- The fields of `struct vsf_session` that a login in the parent uses; `proctitle_prefix` is what
-- `vsf_sysutil_set_proctitle_prefix` was given last.
pub record Parent : Type 0 where
  pub user_str : Bytes
  pub anon_pass_str : Bytes
  pub remote_ip_str : Bytes
  pub banned_email_str : Bytes
  pub email_passwords_str : Bytes
  pub permissions : ℕ
  pub control_use_ssl : Bool
  pub data_use_ssl : Bool
  pub ssl_slave_active : Bool
  pub is_anonymous : Bool
  pub is_guest : Bool
  pub proctitle_prefix : Bytes

-- The settings of a login; a null text is `none`.
pub record LoginTunables : Type 0 where
  pub tunable_anonymous_enable : Bool
  pub tunable_local_enable : Bool
  pub tunable_ssl_enable : Bool
  pub tunable_setproctitle_enable : Bool
  pub tunable_chroot_local_user : Bool
  pub tunable_chroot_list_enable : Bool
  pub tunable_guest_enable : Bool
  pub tunable_virtual_use_local_privs : Bool
  pub tunable_allow_writeable_chroot : Bool
  pub tunable_login_users : Option Bytes
  pub tunable_ftp_username : Option Bytes
  pub tunable_guest_username : Option Bytes
  pub tunable_user_config_dir : Option Bytes
  pub tunable_user_sub_token : Option Bytes
  pub tunable_local_root : Option Bytes
  pub tunable_delay_failed_login : ℕ
  pub tunable_delay_successful_login : ℕ

pub data EvsfPrivopLoginResult : Type 0 where
  login_null login_fail login_anon login_real : EvsfPrivopLoginResult

-- A line of the log, of a login that succeeded or did not, and a sleep of so many seconds.
pub data Aside : Type 0 where
  do_log : Bool → Aside
  pause : ℕ → Aside

abbrev pub or_empty : Option Bytes → Bytes
or_empty none = []
or_empty (some s) = s

-- The answer of `cos_handle_login`, which always gives one.
abbrev pub answered : Option (Bool × ℕ) → Bool × ℕ
answered none = (false, 0)
answered (some r) = r

-- Some line of the list is `s`.
abbrev pub lists : Bytes → Bytes → Bool
lists l s = located (str_contains_line l s)

-- The first character of a name.
unfoldable pub starts_well : Bytes → Bool
starts_well [] = false
starts_well (c ∷ s) = vsf_sysutil_isalnum c || c == b'_' || c == b'.'

module _ (t : LoginTunables) where
  unfoldable pub setup_username_globals : Parent → Bytes → Parent
  setup_username_globals p s =
      let named = record p { user_str = s } in
      if t.tunable_setproctitle_enable
      then record named { proctitle_prefix = p.remote_ip_str ++ b'/' ∷ s }
      else named

  -- The identity that the log shows.
  unfoldable pub anon_identity : Bytes → Bytes
  anon_identity pass =
      let shown = if is_empty pass then codes "?" else pass in
      str_replace_char (str_replace_char shown b' ' b'_') b'\n' b'?'

  -- `Global_WRITE | Global_READ` is 3.
  unfoldable pub handle_anonymous_login : Parent → Bytes → EvsfPrivopLoginResult × Parent
  handle_anonymous_login p pass =
      if not (is_empty p.banned_email_str) && lists p.banned_email_str pass
      then (login_fail, p)
      else if not (is_empty p.email_passwords_str)
          && (not (lists p.email_passwords_str pass) || is_empty pass)
      then (login_fail, p)
      else (
        login_anon,
        record (setup_username_globals (record p { anon_pass_str = anon_identity pass })
            (or_empty t.tunable_ftp_username)) {
              permissions = 3;
              banned_email_str = [];
              email_passwords_str = [];
            },
      )

  -- `*permission` stays as it was where the name and the password are not listed.
  unfoldable pub handle_local_login : Parent → Bytes → Bytes → EvsfPrivopLoginResult × Parent
  handle_local_login p user pass =
      let r = answered (cos_handle_login t.tunable_login_users user pass p.permissions) in
      let q = record p { permissions = r.1 } in
      if r.0 then (login_real, setup_username_globals q user) else (login_fail, q)

  unfoldable pub handle_login : Parent → Bytes → Bytes → Outcome (EvsfPrivopLoginResult × Parent)
  handle_login p user pass =
      if length user == 0 || ltb 128 (length user)
      then ok (login_fail, p)
      else if not (starts_well user)
      then ok (login_fail, p)
      else if str_contains_space user || str_contains_unprintable user
      then ok (login_fail, p)
      else if ltb 128 (length pass)
      then ok (login_fail, p)
      else if t.tunable_anonymous_enable && is_anon user
      then ok (handle_anonymous_login p pass)
      else if not t.tunable_local_enable
      then die
      else ok (handle_local_login p user pass)

  abbrev pub delayed : ℕ → List Aside
  delayed n = if n == 0 then [] else pause n ∷ []

  abbrev pub noted : EvsfPrivopLoginResult → List Aside
  noted login_null = do_log true ∷ delayed t.tunable_delay_successful_login
  noted login_fail = do_log false ∷ delayed t.tunable_delay_failed_login
  noted login_anon = do_log true ∷ delayed t.tunable_delay_successful_login
  noted login_real = do_log true ∷ delayed t.tunable_delay_successful_login

  unfoldable pub vsf_privop_do_login :
      Parent → Bytes → Outcome ((EvsfPrivopLoginResult × Parent) × List Aside)
  unfolding handle_login
  vsf_privop_do_login p pass = handle_login p p.user_str pass >>= (λ r. ok (r, noted r.0))
