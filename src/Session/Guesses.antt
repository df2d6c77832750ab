-- ===== src/Session/Guesses.antt =====
-- How many passwords a connection may try.
use cos_ftp_v.Base.{
  ℕ, suc, ◌+◌, ◌-◌, ◌≤◌, ◌<◌, max, ◌≡◌, refl, ◌⊎◌, Bool, List, [], ◌∷◌, ◌++◌, arith, Bytes, codes,
  uint_mod,
}
use cos_ftp_v.Session.{
  Session, Tunables, Doing, reply, reply_hyphen, reply_raw, log_connection, try_login, sleep, going,
  gone, logged_in, Turn, then_go,
}
use cos_ftp_v.Session.Greeting.{
  ssl_control_handshake, handle_auth, handle_pbsz, handle_prot, handle_opts, handle_feat,
}
use cos_ftp_v.Session.Prelogin.{
  check_login_delay, check_login_fails, then_empty_user, ask_password, check_userlist,
  handle_pass_command, handle_user_command, handle_get, one_command, parse_username_password,
}

-- The logins that were tried.
abbrev pub attempts : List Doing → ℕ
attempts [] = 0
attempts (try_login user pass ∷ did) = suc (attempts did)
attempts (reply n text ∷ did) = attempts did
attempts (reply_hyphen n text ∷ did) = attempts did
attempts (reply_raw text ∷ did) = attempts did
attempts (log_connection text ∷ did) = attempts did
attempts (sleep n ∷ did) = attempts did

attempts-append : (a b : List Doing) → attempts (a ++ b) ≡ attempts a + attempts b
attempts-append [] b = omega arith
attempts-append (try_login user pass ∷ a) b = omega (arith, attempts-append a b)
attempts-append (reply n text ∷ a) b = attempts-append a b
attempts-append (reply_hyphen n text ∷ a) b = attempts-append a b
attempts-append (reply_raw text ∷ a) b = attempts-append a b
attempts-append (log_connection text ∷ a) b = attempts-append a b
attempts-append (sleep n ∷ a) b = attempts-append a b

-- The failures counted are fewer than the limit.
abbrev Few : ℕ → Session → Type 0
Few limit s = (s.login_fails ≡ 0) ⊎ (s.login_fails < limit)

-- A turn that goes on has tried no login and counted no failure, or tried one login at most and
-- counted a failure; one that ends has tried one login at most.
abbrev Fair : ℕ → Session → Turn → Type 0
Fair limit s (did, going s1) =
    ((attempts did ≡ 0) × (s1.login_fails ≡ s.login_fails))
    ⊎ ((attempts did ≤ 1) × (s1.login_fails ≡ s.login_fails + 1) × (s1.login_fails < limit))
Fair limit s (did, gone n) = attempts did ≤ 1
Fair limit s (did, logged_in) = attempts did ≤ 1

module _ (t : Tunables) (logs_in : Bytes → Bytes → Bool) (handshake : Bool)
    (small : t.tunable_max_login_fails < uint_mod) where
  abbrev limit : ℕ
  limit = t.tunable_max_login_fails

  delay_quiet : attempts (check_login_delay t) ≡ 0
  unfolding check_login_delay
  delay_quiet = ground arith

  failed-Fair :
      (s s0 : Session) (did : List Doing)
      → s.login_fails ≡ s0.login_fails
      → Few limit s0
      → attempts did ≤ 1
      → Fair limit s0 (did, then_empty_user (check_login_fails t s))
  unfolding check_login_fails then_empty_user
  failed-Fair s s0 did e f h = ground arith

  pass-Fair :
      (s s0 : Session) (pass : Bytes)
      → s.login_fails ≡ s0.login_fails
      → Few limit s0
      → Fair limit s0 (handle_pass_command t logs_in handshake s pass)
  unfolding handle_pass_command
  pass-Fair s s0 pass e f = ground (
    arith,
    failed-Fair s s0 (try_login s.user_str pass ∷ reply 530 (codes "Login incorrect.") ∷ []) e f
        (omega arith),
  )

  user-Fair :
      (s : Session) (user : Bytes)
      → Few limit s
      → Fair limit s (handle_user_command t logs_in handshake s user)
  unfolding handle_user_command check_userlist ask_password
  user-Fair s user f = ground (
    arith,
    failed-Fair (record s { user_str = user }) s
        (check_login_delay t ++ reply 530 (codes "Permission denied.") ∷ []) refl f delay,
    pass-Fair (record s { user_str = user }) s (codes "<no password>") refl f,
  )
    where
      delay : attempts (check_login_delay t ++ reply 530 (codes "Permission denied.") ∷ []) ≤ 1
      delay = omega (
        arith,
        delay_quiet,
        attempts-append (check_login_delay t) (reply 530 (codes "Permission denied.") ∷ []),
      )

  auth-Fair : (s : Session) (arg : Bytes) → Fair limit s (handle_auth handshake s arg)
  unfolding handle_auth ssl_control_handshake
  auth-Fair s arg = ground arith

  prot-Fair : (s : Session) (arg : Bytes) → Fair limit s (handle_prot s arg)
  unfolding handle_prot
  prot-Fair s arg = ground arith

  pbsz-Fair : (s : Session) → Fair limit s (handle_pbsz s)
  unfolding handle_pbsz
  pbsz-Fair s = ground arith

  opts_quiet : (arg : Bytes) → attempts (handle_opts arg) ≡ 0
  unfolding handle_opts
  opts_quiet arg = ground arith

  feat_quiet : attempts (handle_feat t) ≡ 0
  unfolding handle_feat
  feat_quiet = ground arith

  get-Fair :
      (s : Session) (arg : Bytes)
      → Few limit s
      → Fair limit s (handle_get t logs_in handshake s arg)
  unfolding handle_get
  get-Fair s arg f = pass-Fair _ s _ refl f

  leaves-Fair :
      (s : Session) (turn : Turn)
      → Fair limit s turn
      → Fair limit s (then_go turn (λ _. ([], gone 0)))
  leaves-Fair s (did, going s1) f = omega (arith, attempts-append did [])
  leaves-Fair s (did, gone n) f = f
  leaves-Fair s (did, logged_in) f = f

  one_command-Fair :
      (s : Session) (command : Bytes × Bytes)
      → Few limit s
      → Fair limit s (one_command t logs_in handshake s command)
  unfolding one_command
  one_command-Fair s (cmd, arg) f = ground (
    arith,
    user-Fair s arg f,
    pass-Fair s s arg refl f,
    feat_quiet,
    opts_quiet arg,
    auth-Fair s arg,
    pbsz-Fair s,
    prot-Fair s arg,
    leaves-Fair s (handle_get t logs_in handshake s arg) (get-Fair s arg f),
  )

  -- With a limit that fits its type, and no failure counted or fewer than the limit, the tries to
  -- log in that any commands bring about are at most as many as the failures that are left, or one.
  pub parse_username_password-attempts :
      (s : Session) (commands : List (Bytes × Bytes))
      → Few limit s
      → attempts (parse_username_password t logs_in handshake s commands).0
        ≤ max 1 (limit - s.login_fails)
  unfolding parse_username_password
  parse_username_password-attempts s [] f = omega arith
  parse_username_password-attempts s (command ∷ commands) f =
      rest (one_command t logs_in handshake s command) (one_command-Fair s command f)
        (λ s1 g. parse_username_password-attempts s1 commands g)
    where
      still_few : (s1 : Session) (did : List Doing) → Fair limit s (did, going s1) → Few limit s1
      still_few s1 did h = ground arith

      rest :
          (turn : Turn)
          → Fair limit s turn
          → ((s1 : Session)
              → Few limit s1
              → attempts (parse_username_password t logs_in handshake s1 commands).0
                ≤ max 1 (limit - s1.login_fails))
          → attempts
              (then_go turn (λ s1. parse_username_password t logs_in handshake s1 commands)).0
            ≤ max 1 (limit - s.login_fails)
      rest (did, going s1) h next = omega (
        arith,
        next s1 (still_few s1 did h),
        attempts-append did (parse_username_password t logs_in handshake s1 commands).0,
      )
      rest (did, gone n) h next = omega arith
      rest (did, logged_in) h next = omega arith
