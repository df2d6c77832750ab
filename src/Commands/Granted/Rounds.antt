-- ===== src/Commands/Granted/Rounds.antt =====
-- What whole sessions do, and how they are between two commands.
use cos_ftp_v.Base.{
  ◌≡◌, refl, sym, subst, inl, inr, Bool, true, false, not, ◌&&◌, ◌||◌, none, List, [], ◌∷◌, arith,
  Bytes, codes, Option-cases, if_elim, any_of, All,
}
use cos_ftp_v.Access.{vsf_access_check_file}
use cos_ftp_v.Session.Greeting.{handle_feat, handle_opts, handle_pbsz, handle_prot}
use cos_ftp_v.Commands.{Client, CommandTunables, Host, vsf_log_do_log}
use cos_ftp_v.Commands.Data.{has_port, CLibrary}
use cos_ftp_v.Commands.Replies.{as_session}
use cos_ftp_v.Str.Compare.{str_equal}
use cos_ftp_v.Commands.Convert.{cos_conv_gbk_2_utf, conv-All}
use cos_ftp_v.Commands.Round.{
  Branch, quit, pwd, cwd, cdup, pasv, epsv, retr, noop, syst, help, list, type_, port, stor, mkd,
  rmd, dele, rest, nlst, size, abor, eprt, stru, mode, allo, feat, opts, stat, stat_file, pbsz,
  prot, user, pass, forbidden, empty_line, http_verb, unknown, unimplemented, branch_of, perform,
  after_command, one_round, command_loop, begin_session, process_post_login,
}
use cos_ftp_v.Commands.Round.Allowed.{is_allowed, is_denied, cmd_ok-is_allowed}
use cos_ftp_v.Commands.Runs.{Sound, Sound-any, Runs, Runs-also, Runs-bind}
use cos_ftp_v.Commands.Granted.{Granted, Trusts, Idle, Between}
use cos_ftp_v.Commands.Granted.Ports.{handle_pasv-Does, handle_port-Does, handle_eprt-Does}
use cos_ftp_v.Commands.Granted.Files.{
  Does, handle_rest-Does, handle_type-Does, handle_pwd-Does, handle_cwd-Does, handle_cdup-Does,
  handle_mkd-Does, handle_rmd-Does, handle_dele-Does, handle_size-Does,
}
use cos_ftp_v.Commands.Granted.Downloads.{handle_retr-Does, handle_dir_common-Does}
use cos_ftp_v.Commands.Granted.Uploads.{handle_upload_common-Does}
use cos_ftp_v.Commands.Granted.Branches.{Needs, branch-Needs}
use cos_ftp_v.Commands.Granted.Answers.{
  All-said, handle_turn-Does, user-Does, stru-Does, mode-Does, help-Does, stat-Does, pass-Does,
}

-- Whether a STOR is among the commands.
abbrev pub any_stor : List (Host × Bytes × Bytes) → Bool
any_stor commands = any_of (λ (h, cmd, arg). str_equal cmd (codes "STOR")) commands

or_left : (a b : Bool) → a ≡ true → (a || b) ≡ true
or_left a b e = ground (arith, e)

or_right : (a b : Bool) → b ≡ true → (a || b) ≡ true
or_right a b e = ground (arith, e)

module _ (t : CommandTunables) (s0 : Client) (stores : Bool) (B : Type 0) where
  log_ended :
      (b : Bool) (s : Client)
      → Idle t s0 s
      → Runs (Granted t s0 stores) B (Between t s0) (vsf_log_do_log b s)
  unfolding vsf_log_do_log
  log_ended b s k = elim (Option-cases s.log_type) [
    | inl e ↦ rw e (tt, (k.0, k.1, refl))
    | inr (l, e) ↦ rw e ((tt, tt), (k.0, k.1, refl))
  ]

  after_command-Between :
      (s : Client) → Idle t s0 s → Runs (Granted t s0 stores) B (Between t s0) (after_command s)
  unfolding after_command
  after_command-Between s k =
      Runs-bind (Granted t s0 stores) B (Between t s0) (Between t s0) (vsf_log_do_log false s) _
        (log_ended false s k)
        (λ s1 k1.
          if_elim (Runs (Granted t s0 stores) B (Between t s0)) s1.data_timeout _ _
            (λ e. ((tt, tt), tt)) (λ e. (tt, k1)))

  module _
      (check : (name : Bytes)
        → Sound B (λ b. Unit) (vsf_access_check_file t.tunable_deny_file name))
      (rooted : s0.user_root ≡ [] → B) where
    perform-Does :
        (c : CLibrary) (h : Host) (s : Client) (arg : Bytes) (b : Branch)
        → Needs t s0 stores b
        → Between t s0 s
        → Does t s0 stores B (perform c t h s arg b)
    unfolding perform
    perform-Does c h s arg quit may k = ((tt, tt), tt)
    perform-Does c h s arg pwd may k = handle_pwd-Does t s0 stores B s rooted (k.0, k.1)
    perform-Does c h s arg cwd may k = handle_cwd-Does t s0 stores B check h s arg (k.0, k.1)
    perform-Does c h s arg cdup may k = handle_cdup-Does t s0 stores B check h s (k.0, k.1)
    perform-Does c h s arg pasv may k = handle_pasv-Does t s0 stores B c h s arg false (k.0, k.1)
    perform-Does c h s arg epsv may k = handle_pasv-Does t s0 stores B c h s arg true (k.0, k.1)
    perform-Does c h s arg retr may k = handle_retr-Does t s0 stores B check h s arg k
    perform-Does c h s arg noop may k = ((tt, tt), (k.0, k.1))
    perform-Does c h s arg syst may k = ((tt, tt), (k.0, k.1))
    perform-Does c h s arg help may k = help-Does t s0 stores B s (k.0, k.1)
    perform-Does c h s arg list may k =
        handle_dir_common-Does t s0 stores B check h s arg true false (k.0, k.1)
    perform-Does c h s arg type_ may k = handle_type-Does t s0 stores B s arg (k.0, k.1)
    perform-Does c h s arg port may k = handle_port-Does t s0 stores B c s arg (k.0, k.1)
    perform-Does c h s arg stor may k =
        handle_upload_common-Does t s0 stores B may.0 may.1 check h s arg k
    perform-Does c h s arg mkd may k = handle_mkd-Does t s0 stores B check h s arg may k
    perform-Does c h s arg rmd may k = handle_rmd-Does t s0 stores B check h s arg may k
    perform-Does c h s arg dele may k = handle_dele-Does t s0 stores B check h s arg may k
    perform-Does c h s arg rest may k = handle_rest-Does t s0 stores B s arg (k.0, k.1)
    perform-Does c h s arg nlst may k =
        handle_dir_common-Does t s0 stores B check h s arg false false (k.0, k.1)
    perform-Does c h s arg size may k = handle_size-Does t s0 stores B check h s arg (k.0, k.1)
    perform-Does c h s arg abor may k = ((tt, tt), (k.0, k.1))
    perform-Does c h s arg eprt may k = handle_eprt-Does t s0 stores B c s arg (k.0, k.1)
    perform-Does c h s arg stru may k = stru-Does t s0 stores B s arg (k.0, k.1)
    perform-Does c h s arg mode may k = mode-Does t s0 stores B s arg (k.0, k.1)
    perform-Does c h s arg allo may k = ((tt, tt), (k.0, k.1))
    perform-Does c h s arg feat may k =
        (All-said t s0 stores B (handle_feat t.feature_tunables), (k.0, k.1))
    perform-Does c h s arg opts may k = (All-said t s0 stores B (handle_opts arg), (k.0, k.1))
    perform-Does c h s arg stat may k = stat-Does t s0 stores B s (k.0, k.1)
    perform-Does c h s arg stat_file may k =
        handle_dir_common-Does t s0 stores B check h s arg true true (k.0, k.1)
    perform-Does c h s arg pbsz may k =
        handle_turn-Does t s0 stores B s (handle_pbsz (as_session s)) (k.0, k.1)
    perform-Does c h s arg prot may k =
        handle_turn-Does t s0 stores B s (handle_prot (as_session s) arg) (k.0, k.1)
    perform-Does c h s arg user may k = user-Does t s0 stores B s arg (k.0, k.1)
    perform-Does c h s arg pass may k = pass-Does t s0 stores B s (k.0, k.1)
    perform-Does c h s arg forbidden may k = ((tt, tt), (k.0, k.1))
    perform-Does c h s arg empty_line may k = (tt, (k.0, k.1))
    perform-Does c h s arg http_verb may k = ((tt, tt), tt)
    perform-Does c h s arg unknown may k = ((tt, tt), (k.0, k.1))
    perform-Does c h s arg (unimplemented name) may k = ((tt, tt), (k.0, k.1))

    one_round-Between :
        (c : CLibrary) (h : Host) (s : Client) (cmd raw_arg : Bytes)
        → Between t s0 s
        → (str_equal cmd (codes "STOR") ≡ true → stores ≡ true)
        → Runs (Granted t s0 stores) B (Between t s0) (one_round c t h s (cmd, raw_arg))
    unfolding one_round
    one_round-Between c h s cmd raw_arg k is_stor =
        let (lines, arg) = cos_conv_gbk_2_utf c raw_arg in
        Runs-also (Granted t s0 stores) B (Between t s0) lines _
          (conv-All (Granted t s0 stores) c raw_arg (λ text. tt))
          (rw (cmd_ok-is_allowed t cmd) (
            Runs-bind (Granted t s0 stores) B (Idle t s0) (Between t s0) _ after_command
              (if_elim (Does t s0 stores B)
                (not (
                  is_allowed t.tunable_cmds_allowed cmd
                  && not (is_denied t.tunable_cmds_denied cmd)))
                _ _ (λ e. ((tt, tt), (k.0, k.1)))
                (λ e.
                  perform-Does c h s arg (branch_of t s cmd arg)
                    (branch-Needs t s0 stores s cmd arg k.0 is_stor) k))
              after_command-Between))

    loop-Between :
        (c : CLibrary) (s : Client) (commands : List (Host × Bytes × Bytes))
        → Between t s0 s
        → (any_stor commands ≡ true → stores ≡ true)
        → Runs (Granted t s0 stores) B (Between t s0) (command_loop c t s commands)
    unfolding command_loop
    loop-Between c s [] k is_stor = (tt, k)
    loop-Between c s ((h, cmd, arg) ∷ commands) k is_stor =
        Runs-bind (Granted t s0 stores) B (Between t s0) (Between t s0)
          (one_round c t h s (cmd, arg)) _
          (one_round-Between c h s cmd arg k (λ e. is_stor (or_left _ _ e)))
          (λ s1 k1. loop-Between c s1 commands k1 (λ e. is_stor (or_right _ _ e)))

    login-Between :
        (c : CLibrary) (s : Client) (commands : List (Host × Bytes × Bytes))
        → Between t s0 s
        → (any_stor commands ≡ true → stores ≡ true)
        → Runs (Granted t s0 stores) B (Between t s0) (process_post_login c t s commands)
    unfolding process_post_login begin_session
    login-Between c s commands k is_stor =
        Runs-bind (Granted t s0 stores) B (Between t s0) (Between t s0) (begin_session t s)
          (λ s1. command_loop c t s1 commands) ((tt, (tt, (tt, tt))), k)
          (λ s1 k1. loop-Between c s1 commands k1 is_stor)

-- A session as it is when its login is done, as to its data connections and its log.
abbrev pub IsFresh : Client → Type 0
IsFresh s = (s.port_sockaddr ≡ none) × (s.data_open ≡ false) × (s.log_type ≡ none)

fresh-Between : (t : CommandTunables) (s : Client) → IsFresh s → Between t s s
fresh-Between t s k = (
  (
    refl,
    refl,
    refl,
    (refl, refl),
    subst (λ o. (has_port o && s.pasv_listening) ≡ false) (sym k.0) refl,
    subst (Trusts t s) (sym k.0) tt,
  ),
  k.1,
  k.2,
)

-- A session that begins with no address of PORT, no data connection and no entry of the log does,
-- whatever commands come and whatever the outside answers, only what it is granted. It makes a
-- directory, save for the local ones that CWD makes, only with the permission and the setting to
-- write and, where it is anonymous, the setting for making directories. It removes a directory only
-- with the permission and the setting to write and, where it is anonymous, the setting for other
-- writes. It removes an object of the storage only so too, or, where a STOR is among its commands,
-- with the permission and the setting to write and, where it is anonymous, the setting for uploads.
-- It uploads, and creates, changes and removes local files, only with these last three. It connects
-- only to the address of its client, at a port that is not reserved, or where the settings allow any.
-- Its data connections are encrypted where the settings demand that.
pub process_post_login-Granted :
    (c : CLibrary) (t : CommandTunables) (s : Client) (commands : List (Host × Bytes × Bytes))
    → IsFresh s
    → All (Granted t s (any_stor commands)) (process_post_login c t s commands).0
process_post_login-Granted c t s commands fresh =
    (login-Between t s (any_stor commands) Unit
      (λ name. Sound-any (vsf_access_check_file t.tunable_deny_file name)) (λ e. tt) c s commands
      (fresh-Between t s fresh) (λ e. e)).0
