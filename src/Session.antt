-- ===== src/Session.antt =====
-- What src/session.h and src/tunables.c hold for a session before its login, and what the handlers
-- of its commands do to the outside.
pub mod Greeting
pub mod Prelogin
pub mod Guesses
pub mod Admitted
use cos_ftp_v.Base.{
  ℕ, zero, suc, ◌+◌, ◌-◌, ◌*◌, ◌/◌, ◌%◌, ◌^◌, ◌≤◌, ◌<◌, min, max, ◌≡◌, refl, sym, ap, ◌∙◌, subst,
  ◌≢◌, ◌↔◌, ◌⊎◌, inl, inr, Bool, true, false, not, ◌&&◌, ◌||◌, Option, none, some, List, [], ◌∷◌,
  ◌++◌, map, append-nil, append_assoc, arith, Bytes, codes, uint_mod, ltb, leb, ◌==◌, if◌then◌else◌,
  ltb→lt, lt→ltb, le→ltb, lt→leb, leb→le, le→leb, ==_iff, ==_refl, Bool-cases, Option-cases, tests,
  length, get_elem?, set, take, drop, replicate, length-append, length-take, length-drop,
  length-replicate, length-set, take-append-drop, take-length_append, drop-length_append,
  take-length, take-all, drop_split, drop_add, any_of, All, All-append, All-left, All-right, all_of,
  Outcome, ok, bug, die, exit, fault, ◌>>=◌, >>=-eq-ok, Ends, Returns, Ends-bind, Ends-mono,
  Returns-ok,
}

-- The fields of `struct vsf_session` that are read or written before a login.
pub record Session : Type 0 where
  pub user_str : Bytes
  pub is_http : Bool
  pub http_get_arg : Bytes
  pub userlist_str : Bytes
  pub banner_str : Bytes
  pub tcp_wrapper_ok : Bool
  pub num_clients : ℕ
  pub num_this_ip : ℕ
  pub control_use_ssl : Bool
  pub data_use_ssl : Bool
  pub login_fails : ℕ

-- The settings that are read before a login; a null text is `none`.
pub record Tunables : Type 0 where
  pub tunable_ftp_enable : Bool
  pub tunable_http_enable : Bool
  pub tunable_ssl_enable : Bool
  pub tunable_implicit_ssl : Bool
  pub tunable_local_enable : Bool
  pub tunable_allow_anon_ssl : Bool
  pub tunable_force_anon_logins_ssl : Bool
  pub tunable_force_local_logins_ssl : Bool
  pub tunable_userlist_enable : Bool
  pub tunable_userlist_deny : Bool
  pub tunable_no_anon_password : Bool
  pub tunable_port_enable : Bool
  pub tunable_pasv_enable : Bool
  pub tunable_sslv2 : Bool
  pub tunable_sslv3 : Bool
  pub tunable_tlsv1 : Bool
  pub tunable_ftpd_banner : Option Bytes
  pub tunable_max_clients : ℕ
  pub tunable_max_per_ip : ℕ
  pub tunable_max_login_fails : ℕ
  pub tunable_delay_failed_login : ℕ

-- What a handler does: replies, of one line, of a line that others follow, or of raw bytes; lines
-- of the log; a try to log in with a name and a password; a sleep of so many seconds.
pub data Doing : Type 0 where
  reply reply_hyphen : ℕ → Bytes → Doing
  reply_raw log_connection : Bytes → Doing
  try_login : Bytes → Bytes → Doing
  sleep : ℕ → Doing

-- The session goes on, or its process exits, or stays only to serve a login that succeeded.
pub data Fate : Type 0 where
  going : Session → Fate
  gone : ℕ → Fate
  logged_in : Fate

abbrev pub Turn : Type 0
Turn = List Doing × Fate

-- First `did`, and then the turn.
abbrev pub also : List Doing → Turn → Turn
also did turn = (did ++ turn.0, turn.1)

-- One turn and then, if the session goes on, another.
abbrev pub then_go : Turn → (Session → Turn) → Turn
then_go (did, going s) next = also did (next s)
then_go (did, gone n) next = (did, gone n)
then_go (did, logged_in) next = (did, logged_in)

-- `vsf_cmdio_write_exit`
abbrev pub write_exit : ℕ → Bytes → ℕ → Turn
write_exit status text exit_val = (reply status text ∷ [], gone exit_val)
