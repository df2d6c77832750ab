-- ===== src/Session/Admitted.antt =====
-- Which names a login is tried with.
use cos_ftp_v.Base.{
  ℕ, ◌≡◌, subst, inl, inr, Bool, true, false, not, ◌&&◌, ◌||◌, List, [], ◌∷◌, ◌++◌, arith, Bytes,
  codes, if◌then◌else◌, Bool-cases,
}
use cos_ftp_v.Str.Edit.{is_empty}
use cos_ftp_v.Str.Lines.{str_contains_line}
use cos_ftp_v.Session.{
  Session, Tunables, Doing, reply, reply_hyphen, reply_raw, log_connection, try_login, sleep, going,
  gone, logged_in, Turn, then_go, write_exit,
}
use cos_ftp_v.Session.Greeting.{
  ssl_control_handshake, handle_auth, handle_pbsz, handle_prot, handle_opts, handle_feat,
}
use cos_ftp_v.Session.Prelogin.{
  located, check_login_delay, check_login_fails, then_empty_user, is_anon, denied, ask_password,
  check_userlist, handle_pass_command, handle_user_command, ftp_command, one_command,
  parse_username_password,
}

module _ (t : Tunables) (userlist_str : Bytes) where
  -- The settings and the user list let this name try to log in.
  pub record IsAdmitted (user : Bytes) : Type 0 where
    pub local_allowed : (t.tunable_local_enable || is_anon user) ≡ true
    pub listed :
        t.tunable_userlist_enable ≡ true
        → located (str_contains_line userlist_str user) ≡ not t.tunable_userlist_deny

  -- Every login that is tried has a name that is admitted, and not empty.
  abbrev pub AdmitsAll : List Doing → Type 0
  AdmitsAll [] = Unit
  AdmitsAll (try_login user pass ∷ did) = (is_empty user ≡ false) × IsAdmitted user × AdmitsAll did
  AdmitsAll (reply n text ∷ did) = AdmitsAll did
  AdmitsAll (reply_hyphen n text ∷ did) = AdmitsAll did
  AdmitsAll (reply_raw text ∷ did) = AdmitsAll did
  AdmitsAll (log_connection text ∷ did) = AdmitsAll did
  AdmitsAll (sleep n ∷ did) = AdmitsAll did

  AdmitsAll-append : (a b : List Doing) → AdmitsAll a → AdmitsAll b → AdmitsAll (a ++ b)
  AdmitsAll-append [] b h k = k
  AdmitsAll-append (try_login user pass ∷ a) b h k = (h.0, h.1, AdmitsAll-append a b h.2 k)
  AdmitsAll-append (reply n text ∷ a) b h k = AdmitsAll-append a b h k
  AdmitsAll-append (reply_hyphen n text ∷ a) b h k = AdmitsAll-append a b h k
  AdmitsAll-append (reply_raw text ∷ a) b h k = AdmitsAll-append a b h k
  AdmitsAll-append (log_connection text ∷ a) b h k = AdmitsAll-append a b h k
  AdmitsAll-append (sleep n ∷ a) b h k = AdmitsAll-append a b h k

  -- The name that a session holds, if any, is admitted.
  abbrev pub Holding : Session → Type 0
  Holding s =
      (s.userlist_str ≡ userlist_str) × (is_empty s.user_str ≡ false → IsAdmitted s.user_str)

  abbrev Keeps : Turn → Type 0
  Keeps (did, going s1) = AdmitsAll did × Holding s1
  Keeps (did, gone n) = AdmitsAll did
  Keeps (did, logged_in) = AdmitsAll did

module _ (t : Tunables) (logs_in : Bytes → Bytes → Bool) (handshake : Bool)
    (userlist_str : Bytes) where
  failed-Keeps :
      (s : Session) (did : List Doing)
      → s.userlist_str ≡ userlist_str
      → AdmitsAll t userlist_str did
      → Keeps t userlist_str (did, then_empty_user (check_login_fails t s))
  unfolding check_login_fails then_empty_user is_empty
  failed-Keeps s did e h = ground arith

  pass-Keeps :
      (s : Session) (pass : Bytes)
      → Holding t userlist_str s
      → Keeps t userlist_str (handle_pass_command t logs_in handshake s pass)
  unfolding handle_pass_command
  pass-Keeps s pass h = elim (Bool-cases (is_empty s.user_str)) [
    | inl none_yet ↦ rw none_yet (tt, h)
    | inr named ↦
        let one : (is_empty s.user_str ≡ false) × IsAdmitted t userlist_str s.user_str =
          (named, h.1 named) in
        rw named (elim (Bool-cases (logs_in s.user_str pass)) [
          | inl in_ ↦ rw in_ (one.0, one.1, tt)
          | inr out ↦ rw out (
              failed-Keeps s (try_login s.user_str pass ∷ reply 530 (codes "Login incorrect.") ∷ [])
                h.0 (one.0, one.1, tt))
        ])
  ]

  delay_admits :
      AdmitsAll t userlist_str (check_login_delay t ++ reply 530 (codes "Permission denied.") ∷ [])
  unfolding check_login_delay
  delay_admits = ground arith

  let_in : (found : Bool) → denied t found ≡ false → found ≡ not t.tunable_userlist_deny
  unfolding denied
  let_in true h = ground arith
  let_in false h = ground arith

  ask-Keeps :
      (s : Session)
      → Holding t userlist_str s
      → Keeps t userlist_str (ask_password t logs_in handshake s)
  unfolding ask_password
  ask-Keeps s h = elim (Bool-cases (is_anon s.user_str && t.tunable_no_anon_password)) [
    | inl at_once ↦ rw at_once (pass-Keeps s (codes "<no password>") h)
    | inr asked ↦ rw asked (tt, h)
  ]

  userlist-Keeps :
      (s : Session)
      → s.userlist_str ≡ userlist_str
      → (t.tunable_local_enable || is_anon s.user_str) ≡ true
      → Keeps t userlist_str (check_userlist t logs_in handshake s)
  unfolding check_userlist
  userlist-Keeps s e local =
      elim (Bool-cases (
        t.tunable_userlist_enable
        && denied t (located (str_contains_line s.userlist_str s.user_str)))) [
          | inl refused ↦ rw refused (
              failed-Keeps s (check_login_delay t ++ reply 530 (codes "Permission denied.") ∷ []) e
                delay_admits)
          | inr fine ↦ rw fine (
              ask-Keeps s (
                e,
                λ _. record {
                  local_allowed = local;
                  listed = λ on.
                      subst
                        (λ l.
                          located (str_contains_line l s.user_str) ≡ not t.tunable_userlist_deny)
                        e
                        (let_in (located (str_contains_line s.userlist_str s.user_str))
                          (ground arith));
                },
              ))
        ]

  empty-Keeps :
      (s : Session) (n : ℕ) (text : Bytes)
      → s.userlist_str ≡ userlist_str
      → Keeps t userlist_str (reply n text ∷ [], going (record s { user_str = [] }))
  unfolding is_empty
  empty-Keeps s n text e = (tt, (e, λ named. absurd cc))

  local_or_anon :
      (user : Bytes)
      → (not t.tunable_local_enable && not (is_anon user)) ≡ false
      → (t.tunable_local_enable || is_anon user) ≡ true
  local_or_anon user h = ground arith

  user-Keeps :
      (s : Session) (user : Bytes)
      → Holding t userlist_str s
      → Keeps t userlist_str (handle_user_command t logs_in handshake s user)
  unfolding handle_user_command
  user-Keeps s user h = elim (Bool-cases (not t.tunable_local_enable && not (is_anon user))) [
    | inl only_anon ↦
        rw only_anon (empty-Keeps s 530 (codes "This FTP server is anonymous only.") h.0)
    | inr some_user ↦ rw some_user (
        ground (
          arith,
          empty-Keeps s 530 (codes "Anonymous sessions may not use encryption.") h.0,
          userlist-Keeps (record s { user_str = user }) h.0 (local_or_anon user some_user),
        ))
  ]

  auth-Keeps :
      (s : Session) (arg : Bytes)
      → Holding t userlist_str s
      → Keeps t userlist_str (handle_auth handshake s arg)
  unfolding handle_auth ssl_control_handshake
  auth-Keeps s arg h = ground arith

  prot-Keeps :
      (s : Session) (arg : Bytes)
      → Holding t userlist_str s
      → Keeps t userlist_str (handle_prot s arg)
  unfolding handle_prot
  prot-Keeps s arg h = ground arith

  pbsz-Keeps : (s : Session) → Holding t userlist_str s → Keeps t userlist_str (handle_pbsz s)
  unfolding handle_pbsz
  pbsz-Keeps s h = ground arith

  opts_admits : (arg : Bytes) → AdmitsAll t userlist_str (handle_opts arg)
  unfolding handle_opts
  opts_admits arg = ground arith

  feat_admits : AdmitsAll t userlist_str (handle_feat t)
  unfolding handle_feat
  feat_admits = ground arith

  -- `Keeps`, closed.
  Keeping : Turn → Type 0
  Keeping turn = Keeps t userlist_str turn

  keeping : (turn : Turn) → Keeps t userlist_str turn → Keeping turn
  unfolding Keeping
  keeping turn k = k

  unkeeping : (turn : Turn) → Keeping turn → Keeps t userlist_str turn
  unfolding Keeping
  unkeeping turn k = k

  ends-Keeping :
      (s : Session) (cmd arg : Bytes)
      → Holding t userlist_str s
      → Keeping (
          if is_empty cmd && is_empty arg
          then ([], going s)
          else (reply 530 (codes "Please login with USER and PASS.") ∷ [], going s))
  unfolding Keeping
  ends-Keeping s cmd arg h = ground arith

  ftp_command-Keeping :
      (s : Session) (cmd arg : Bytes)
      → Holding t userlist_str s
      → Keeping (ftp_command t logs_in handshake s cmd arg)
  unfolding ftp_command
  ftp_command-Keeping s cmd arg h = ground (
    arith,
    keeping (handle_user_command t logs_in handshake s arg) (user-Keeps s arg h),
    keeping (handle_pass_command t logs_in handshake s arg) (pass-Keeps s arg h),
    keeping (write_exit 221 (codes "Goodbye.") 0) tt,
    keeping (handle_feat t, going s) (feat_admits, h),
    keeping (handle_opts arg, going s) (opts_admits arg, h),
    keeping (handle_auth handshake s arg) (auth-Keeps s arg h),
    keeping (handle_pbsz s) (pbsz-Keeps s h),
    keeping (handle_prot s arg) (prot-Keeps s arg h),
    ends-Keeping s cmd arg h,
  )

  one_command-Keeping :
      (s : Session) (command : Bytes × Bytes)
      → t.tunable_ftp_enable ≡ true
      → Holding t userlist_str s
      → Keeping (one_command t logs_in handshake s command)
  unfolding one_command
  one_command-Keeping s (cmd, arg) ftp h = elim (Bool-cases t.tunable_ftp_enable) [
    | inl on ↦ ground (arith, ftp_command-Keeping s cmd arg h)
    | inr off ↦ absurd cc
  ]

  -- With FTP enabled, in a session that holds no name or an admitted one, whatever the commands are,
  -- each login that is tried has a name that is not empty, that is anonymous if local logins are
  -- disabled, and that the user list lets in if it is enabled.
  pub parse_username_password-AdmitsAll :
      (s : Session) (commands : List (Bytes × Bytes))
      → t.tunable_ftp_enable ≡ true
      → Holding t userlist_str s
      → AdmitsAll t userlist_str (parse_username_password t logs_in handshake s commands).0
  unfolding parse_username_password
  parse_username_password-AdmitsAll s [] ftp h = tt
  parse_username_password-AdmitsAll s (command ∷ commands) ftp h =
      rest (one_command t logs_in handshake s command)
        (unkeeping _ (one_command-Keeping s command ftp h))
        (λ s1 g. parse_username_password-AdmitsAll s1 commands ftp g)
    where
      rest :
          (turn : Turn)
          → Keeps t userlist_str turn
          → ((s1 : Session)
              → Holding t userlist_str s1
              → AdmitsAll t userlist_str
                  (parse_username_password t logs_in handshake s1 commands).0)
          → AdmitsAll t userlist_str
              (then_go turn (λ s1. parse_username_password t logs_in handshake s1 commands)).0
      rest (did, going s1) k next = AdmitsAll-append t userlist_str did _ k.0 (next s1 k.1)
      rest (did, gone n) k next = k
      rest (did, logged_in) k next = k
