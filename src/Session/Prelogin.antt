-- ===== src/Session/Prelogin.antt =====
-- src/prelogin.c: the commands of a session before its login.
use cos_ftp_v.Base.{
  ◌+◌, ◌%◌, Bool, true, false, not, ◌&&◌, ◌||◌, Option, some, List, [], ◌∷◌, ◌++◌, Bytes, codes,
  uint_mod, leb, ◌==◌, if◌then◌else◌, Outcome, ok, ◌>>=◌,
}
use cos_ftp_v.Str.Compare.{str_equal}
use cos_ftp_v.Str.Edit.{str_upper, is_empty}
use cos_ftp_v.Str.Lines.{str_contains_line}
use cos_ftp_v.Session.{
  Session, Tunables, Doing, reply, try_login, sleep, Fate, going, gone, logged_in, Turn, also,
  then_go, write_exit,
}
use cos_ftp_v.Session.Greeting.{
  check_limits, ssl_control_handshake, handle_auth, handle_pbsz, handle_prot, handle_opts,
  handle_feat, emit_greeting,
}

-- The answer of `str_contains_line`, which always gives one.
unfoldable pub located : Outcome (Option Bool) → Bool
located (ok (some b)) = b
located _ = false

unfoldable pub check_login_delay : Tunables → List Doing
check_login_delay t =
    if t.tunable_delay_failed_login == 0 then [] else sleep t.tunable_delay_failed_login ∷ []

unfoldable pub check_login_fails : Tunables → Session → Fate
check_login_fails t s =
    let login_fails = (s.login_fails + 1) % uint_mod in
    if leb t.tunable_max_login_fails login_fails
    then gone 1
    else going (record s { login_fails = login_fails })

-- `str_empty(&p_sess->user_str)`, if the process is still there.
unfoldable pub then_empty_user : Fate → Fate
then_empty_user (going s) = going (record s { user_str = [] })
then_empty_user (gone n) = gone n
then_empty_user logged_in = logged_in

-- The name that asks for an anonymous login.
unfoldable pub is_anon : Bytes → Bool
is_anon user =
    str_equal (str_upper user) (codes "FTP") || str_equal (str_upper user) (codes "ANONYMOUS")

-- `located && deny || !located && !deny`
unfoldable pub denied : Tunables → Bool → Bool
denied t found = (found && t.tunable_userlist_deny) || (not found && not t.tunable_userlist_deny)

-- `logs_in` is whether the login of a name and a password succeeds: `vsf_one_process_login` and
-- `vsf_two_process_login` do not return then.
module _ (t : Tunables) (logs_in : Bytes → Bytes → Bool) (handshake : Bool) where
  unfoldable pub handle_pass_command : Session → Bytes → Turn
  handle_pass_command s pass =
      if is_empty s.user_str
      then (reply 503 (codes "Login with USER first.") ∷ [], going s)
      else if logs_in s.user_str pass
      then (try_login s.user_str pass ∷ [], logged_in)
      else (
        try_login s.user_str pass ∷ reply 530 (codes "Login incorrect.") ∷ [],
        then_empty_user (check_login_fails t s),
      )

  -- Behind the checks of the user list.
  unfoldable pub ask_password : Session → Turn
  ask_password s =
      if is_anon s.user_str && t.tunable_no_anon_password
      then handle_pass_command s (codes "<no password>")
      else (reply 331 (codes "Please specify the password.") ∷ [], going s)

  unfoldable pub check_userlist : Session → Turn
  check_userlist s =
      if t.tunable_userlist_enable
        && denied t (located (str_contains_line s.userlist_str s.user_str))
      then (
        check_login_delay t ++ reply 530 (codes "Permission denied.") ∷ [],
        then_empty_user (check_login_fails t s),
      )
      else ask_password s

  unfoldable pub handle_user_command : Session → Bytes → Turn
  handle_user_command s user =
      let anon = is_anon user in
      let s1 = record s { user_str = user } in
      if not t.tunable_local_enable && not anon
      then (
        reply 530 (codes "This FTP server is anonymous only.") ∷ [],
        going (record s { user_str = [] }),
      )
      else if anon
          && s.control_use_ssl
          && not t.tunable_allow_anon_ssl
          && not t.tunable_force_anon_logins_ssl
      then (
        reply 530 (codes "Anonymous sessions may not use encryption.") ∷ [],
        going (record s { user_str = [] }),
      )
      else if t.tunable_ssl_enable
          && not anon
          && not s.control_use_ssl
          && t.tunable_force_local_logins_ssl
      then write_exit 530 (codes "Non-anonymous sessions must use encryption.") 1
      else if t.tunable_ssl_enable
          && anon
          && not s.control_use_ssl
          && t.tunable_force_anon_logins_ssl
      then write_exit 530 (codes "Anonymous sessions must use encryption.") 1
      else check_userlist s1

  unfoldable pub handle_get : Session → Bytes → Turn
  handle_get s arg =
      handle_pass_command (record s { is_http = true; http_get_arg = arg; user_str = codes "FTP" })
        (codes "<http>")

  unfoldable pub ftp_command : Session → Bytes → Bytes → Turn
  ftp_command s cmd arg =
      if str_equal cmd (codes "USER")
      then handle_user_command s arg
      else if str_equal cmd (codes "PASS")
      then handle_pass_command s arg
      else if str_equal cmd (codes "QUIT")
      then write_exit 221 (codes "Goodbye.") 0
      else if str_equal cmd (codes "FEAT")
      then (handle_feat t, going s)
      else if str_equal cmd (codes "OPTS")
      then (handle_opts arg, going s)
      else if t.tunable_ssl_enable && str_equal cmd (codes "AUTH") && not s.control_use_ssl
      then handle_auth handshake s arg
      else if t.tunable_ssl_enable && str_equal cmd (codes "PBSZ")
      then handle_pbsz s
      else if t.tunable_ssl_enable && str_equal cmd (codes "PROT")
      then handle_prot s arg
      else if is_empty cmd && is_empty arg
      then ([], going s)
      else (reply 530 (codes "Please login with USER and PASS.") ∷ [], going s)

  -- A verb of HTTP, after which the process exits.
  http_command : Session → Bytes → Bytes → Turn
  http_command s cmd arg =
      then_go
        (if str_equal cmd (codes "GET")
          then handle_get s arg
          else (reply 530 (codes "Bad HTTP verb.") ∷ [], going s))
        (λ _. ([], gone 0))

  -- One round of the loop, on a command that was read.
  unfoldable pub one_command : Session → Bytes × Bytes → Turn
  unfolding ftp_command http_command
  one_command s (cmd, arg) =
      if t.tunable_ftp_enable
      then ftp_command s cmd arg
      else if t.tunable_http_enable
      then http_command s cmd arg
      else ([], going s)

  -- The loop, as far as these commands take it.
  unfoldable pub parse_username_password : Session → List (Bytes × Bytes) → Turn
  unfolding one_command
  parse_username_password s [] = ([], going s)
  parse_username_password s (command ∷ commands) =
      then_go (one_command s command) (λ s1. parse_username_password s1 commands)

  -- The greeting and the loop, if the session goes on.
  greet : List (Bytes × Bytes) → Turn → Outcome Turn
  greet commands (did, going s1) =
      if t.tunable_ftp_enable
      then (emit_greeting t s1
          >>= (λ r. ok (also did (also r.0 (parse_username_password r.1 commands)))))
      else ok (also did (parse_username_password s1 commands))
  greet commands (did, gone n) = ok (did, gone n)
  greet commands (did, logged_in) = ok (did, logged_in)

  -- The commands are those that the client sends from then on.
  unfoldable pub init_connection : Session → List (Bytes × Bytes) → Outcome Turn
  unfolding greet
  init_connection s commands = greet commands (
      then_go (check_limits t s) (λ s1.
        if t.tunable_ssl_enable && t.tunable_implicit_ssl
        then ssl_control_handshake handshake s1
        else ([], going s1)))
