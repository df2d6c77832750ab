-- ===== src/Process/Login.antt =====
-- src/twoprocess.c: how the child asks its parent to log a user in, and what the parent sets up.
pub mod Carried
pub mod Vetted
use cos_ftp_v.Base.{
  ℕ, zero, suc, ◌+◌, ◌-◌, ◌*◌, ◌/◌, ◌%◌, ◌^◌, ◌≤◌, ◌<◌, min, max, ◌≡◌, refl, sym, ap, ◌∙◌, subst,
  ◌≢◌, ◌↔◌, ◌⊎◌, inl, inr, Bool, true, false, not, ◌&&◌, ◌||◌, Option, none, some, List, [], ◌∷◌,
  ◌++◌, map, append-nil, append_assoc, arith, Bytes, codes, uint_mod, ltb, leb, ◌==◌, if◌then◌else◌,
  ltb→lt, lt→ltb, le→ltb, lt→leb, leb→le, le→leb, ==_iff, ==_refl, Bool-cases, Option-cases,
  if_elim, tests, length, get_elem?, set, take, drop, replicate, length-append, length-take,
  length-drop, length-replicate, length-set, take-append-drop, take-length_append,
  drop-length_append, take-length, take-all, drop_split, drop_add, any_of, All, All-append,
  All-left, All-right, all_of, Outcome, ok, bug, die, exit, fault, ◌>>=◌, >>=-eq-ok, Ends, Returns,
  Ends-bind, Ends-mono, Returns-ok,
}
use cos_ftp_v.Str.Edit.{is_empty, str_replace_text}
use cos_ftp_v.Str.Locate.{c_str, str_locate_char}
use cos_ftp_v.Process.Privsock.{
  SocketPair, priv_sock_init, priv_sock_close, priv_sock_set_parent_context,
  priv_sock_set_child_context, Sock, Wire, priv_sock_send_cmd, priv_sock_send_str,
  priv_sock_send_int, priv_sock_send_result, priv_sock_get_result, priv_sock_get_cmd,
  priv_sock_get_str, priv_sock_get_int,
}
use cos_ftp_v.Process.Privops.{
  Parent, LoginTunables, EvsfPrivopLoginResult, login_null, login_fail, login_anon, login_real,
  Aside, or_empty, lists, vsf_privop_do_login,
}

-- A request as the parent reads it.
pub record LoginReq : Type 0 where
  pub user_str : Bytes
  pub password_str : Bytes
  pub control_use_ssl : ℕ
  pub data_use_ssl : ℕ

abbrev pub login_req : Bytes → Bytes → ℕ → ℕ → LoginReq
login_req user password control data_ = record {
  user_str = user;
  password_str = password;
  control_use_ssl = control;
  data_use_ssl = data_;
}

abbrev pub of_bool : Bool → ℕ
of_bool true = 1
of_bool false = 0

-- The first part of `vsf_two_process_login`.
unfoldable pub send_login_req : LoginReq → Sock → Outcome Sock
send_login_req req k = priv_sock_send_cmd 1 k >>= (λ k1.
    priv_sock_send_str req.user_str k1 >>= (λ k2. priv_sock_send_str req.password_str k2 >>= (λ k3.
      priv_sock_send_int req.control_use_ssl k3
      >>= (λ k4. priv_sock_send_int req.data_use_ssl k4))))

-- The child returns to its loop, or stays to serve TLS.
pub data ChildNext : Type 0 where
  returned ssl_slave : ChildNext

-- Its second part, on the answer that arrives. PRIV_SOCK_RESULT_OK is 1, PRIV_SOCK_RESULT_BAD is 2.
unfoldable pub login_answer : Bool → Sock → Outcome (ChildNext × Sock)
login_answer control_use_ssl k = priv_sock_get_result k >>= (λ r.
    if r.0 == 1
    then (if not control_use_ssl then exit 0 else ok (ssl_slave, r.1))
    else if r.0 == 2
    then ok (returned, r.1)
    else die)

abbrev pub got_data : Bytes → Bytes → ℕ → ℕ × Sock → Outcome (LoginReq × Sock)
got_data user password control (data_, k) = ok (login_req user password control data_, k)

abbrev pub got_control : Bytes → Bytes → ℕ × Sock → Outcome (LoginReq × Sock)
got_control user password (control, k) = priv_sock_get_int k >>= got_data user password control

abbrev pub got_password : Bytes → Bytes × Sock → Outcome (LoginReq × Sock)
got_password user (password, k) = priv_sock_get_int k >>= got_control user password

abbrev pub got_user : Bytes × Sock → Outcome (LoginReq × Sock)
got_user (user, k) = priv_sock_get_str k >>= got_password user

abbrev pub got_cmd : ℕ × Sock → Outcome (LoginReq × Sock)
got_cmd (cmd, k) = if not (cmd == 1) then die else priv_sock_get_str k >>= got_user

-- What `process_login_req` reads, one value after the other.
unfoldable pub get_login_req : Sock → Outcome (LoginReq × Sock)
get_login_req k = priv_sock_get_cmd k >>= got_cmd

-- The parent waits for the next request, or has answered OK and goes on to `common_do_login` with
-- these values of `do_chroot` and `anon`.
pub data Decision : Type 0 where
  refused : Parent → Decision
  admitted : Parent → Bool → Bool → Decision

module _ (t : LoginTunables) where
  -- What the parent takes over from a request.
  unfoldable pub with_req : LoginReq → Parent → Parent
  with_req req p = record p {
    user_str = req.user_str;
    control_use_ssl = t.tunable_ssl_enable && not (req.control_use_ssl == 0);
    data_use_ssl = t.tunable_ssl_enable && not (req.data_use_ssl == 0);
  }

  -- The list is `none` where its file is not set or cannot be read.
  unfoldable pub do_chroot_of : Option Bytes → Bytes → Outcome Bool
  do_chroot_of chroot_list user =
      if t.tunable_chroot_list_enable
      then elim chroot_list [
        | none ↦ die
        | some l ↦
            ok (
              if lists l user then not t.tunable_chroot_local_user else t.tunable_chroot_local_user)
      ]
      else ok t.tunable_chroot_local_user

  -- The `switch`.
  unfoldable pub on_result :
      Option Bytes → EvsfPrivopLoginResult × Parent → Sock → Outcome (Decision × Sock)
  on_result chroot_list (login_null, p) k = bug
  on_result chroot_list (login_fail, p) k = priv_sock_send_result 2 k >>= (λ k1. ok (refused p, k1))
  on_result chroot_list (login_anon, p) k = priv_sock_send_result 1 k >>= (λ k1.
      ok (admitted (record p { user_str = or_empty t.tunable_ftp_username }) true true, k1))
  on_result chroot_list (login_real, p) k =
      do_chroot_of chroot_list p.user_str
      >>= (λ do_chroot. priv_sock_send_result 1 k >>= (λ k1. ok (admitted p do_chroot false, k1)))

  unfoldable pub process_login_req : Option Bytes → Sock → Parent → Outcome (Decision × Sock)
  process_login_req chroot_list k p = get_login_req k >>= (λ r.
      vsf_privop_do_login t (with_req r.0 p) r.0.password_str
      >>= (λ d. on_result chroot_list d.0 r.1))

  -- `none` is a lack of fuel.
  unfoldable pub on_sub_token : Bytes → Bytes → Outcome (Option Bytes)
  on_sub_token s user = elim t.tunable_user_sub_token [
    | none ↦ ok (some s)
    | some token ↦ str_replace_text s token (c_str user)
  ]

  -- The directory of the user, and the root of the jail.
  unfoldable pub calculate_chdir_dir : Bool → Bytes → Bytes → Outcome (Option Bytes × Option Bytes)
  calculate_chdir_dir anon_login orig_user user_root =
      on_sub_token user_root orig_user >>= (λ userdir. elim t.tunable_local_root [
        | none ↦ ok (userdir, some [])
        | some local_root ↦
            if anon_login
            then ok (userdir, some [])
            else on_sub_token local_root orig_user >>= (λ chroot. ok (userdir, chroot))
      ])

-- `str_get_char_at` of the last position.
is_slash : Option ℕ → Bool
is_slash none = false
is_slash (some c) = c == b'/'

-- Of src/ls.c.
unfoldable pub get_user_root_dir : Bytes → Bytes → Bytes → Bytes
unfolding is_slash
get_user_root_dir user_home_dir cos_appid cos_bucket =
    let root = if is_empty user_home_dir then codes "./" else user_home_dir in
    let closed = if is_slash (get_elem? root (length root - 1)) then root else root ++ b'/' ∷ [] in
    (closed ++ cos_appid) ++ b'/' ∷ cos_bucket

-- What `stat` says of a file.
pub data Stat : Type 0 where
  there missing failed : Stat

-- `stat` is the system's, and `load` is `vsf_parseconf_load_file`, which changes the settings.
unfoldable pub handle_per_user_config :
    (Bytes → Stat)
    → (Bytes → LoginTunables → Outcome LoginTunables)
    → LoginTunables
    → Bytes
    → Outcome LoginTunables
handle_per_user_config stat load t user = elim t.tunable_user_config_dir [
  | none ↦ ok t
  | some dir ↦
      let filename = dir ++ b'/' ∷ user in
      elim (str_locate_char user b'/') [
        | some i ↦ ok t
        | none ↦ elim (stat filename) [ there ↦ load filename t | missing ↦ ok t | failed ↦ die ]
      ]
]

-- The child that serves the user: what it gives to `vsf_secutil_change_credentials`, and its state.
pub record Serving : Type 0 where
  pub as_user : Bytes
  pub secutil_option : ℕ
  pub dirs : Option Bytes × Option Bytes
  pub is_anonymous : Bool
  pub is_guest : Bool

-- VSF_SECUTIL_OPTION_CHROOT is 1, _USE_GROUPS 2, _CHANGE_EUID 4, _NO_PROCS 16, and
-- _ALLOW_WRITEABLE_ROOT 32.
unfoldable pub child_of : LoginTunables → Bytes → Bool → Bool → Bytes → Outcome Serving
child_of t user do_chroot was_anon user_root =
    let guest = t.tunable_guest_enable && not was_anon in
    let confined = guest && not t.tunable_virtual_use_local_privs in
    let anon = was_anon || confined in
    calculate_chdir_dir t was_anon user user_root >>= (λ dirs. ok (record {
      as_user = if guest then or_empty t.tunable_guest_username else user;
      secutil_option =
          (18 + of_bool (do_chroot || confined))
          + 4 * of_bool (not anon)
          + 32 * of_bool (not was_anon && t.tunable_allow_writeable_chroot);
      dirs = dirs;
      is_anonymous = anon;
      is_guest = guest;
    }))

-- Behind the answer to the child that asked. `one` and `two` are the descriptors of the new pair.
-- The parent goes on with its own state and end, the child with what it serves and its end.
unfoldable pub common_do_login :
    (Bytes → Stat)
    → (Bytes → LoginTunables → Outcome LoginTunables)
    → LoginTunables
    → Bytes
    → ℕ × ℕ
    → SocketPair
    → Parent
    → Bool
    → Bool
    → Outcome ((Parent × SocketPair) × (Serving × SocketPair))
common_do_login stat load t user_root (one, two) pair p do_chroot anon =
    handle_per_user_config stat load t p.user_str >>= (λ u.
      priv_sock_init one two (priv_sock_close pair).1 >>= (λ fresh.
        child_of u p.user_str do_chroot anon user_root >>= (λ serving.
          priv_sock_set_child_context fresh >>= (λ child_end.
            priv_sock_set_parent_context fresh >>= (λ parent_end. ok (
              (
                record p {
                  ssl_slave_active = p.control_use_ssl || p.ssl_slave_active;
                  is_anonymous = anon;
                },
                parent_end.1,
              ),
              (serving, child_end.1),
            ))))))
