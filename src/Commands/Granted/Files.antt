-- ===== src/Commands/Granted/Files.antt =====
-- The commands on directories and names keep a session in order.
use cos_ftp_v.Base.{
  ℕ, ◌≡◌, sym, ◌∙◌, inl, inr, Bool, true, false, not, ◌||◌, Option, none, some, [], ◌∷◌, Bytes,
  codes, if◌then◌else◌, Option-cases, if_elim,
}
use cos_ftp_v.Access.{vsf_access_check_file}
use cos_ftp_v.Str.Compare.{str_equal}
use cos_ftp_v.Str.Edit.{is_empty, str_upper}
use cos_ftp_v.Commands.{
  LogType, log_mkdir, log_rmdir, log_delete, Client, CommandTunables, Host, Retval, ret_0, ret_1,
  ret_exists, ret_other, cos_mkdir, cos_rmdir, cos_unlink, str_mkdir, str_rmdir, Run, ◌>>>◌, also,
  quiet, vsf_log_start_entry, vsf_log_do_log,
}
use cos_ftp_v.Commands.Paths.{
  prepend_session_path_to_filename, session_check, str_session_getcwd, resolve_tilde,
}
use cos_ftp_v.Commands.Files.{
  quoted, handle_pwd, change_dir, cwd_reply, cwd_to, handle_cwd, handle_cdup, logged_check,
  mkdir_answer, handle_mkd, rmdir_answer, isempty_answer, handle_rmd, unlink_answer, handle_dele,
  handle_rest, size_answer, handle_size, handle_type,
}
use cos_ftp_v.Commands.Runs.{Sound, Runs, Runs-also, Runs-bind, quietly}
use cos_ftp_v.Commands.Granted.{Granted, MayMake, MayRemove, Idle, Between}
use cos_ftp_v.Commands.Granted.Names.{
  quoted-Sound, getcwd-Sound, resolve_tilde-Sound, session_check-Sound,
}

module _ (t : CommandTunables) (s0 : Client) (stores : Bool) (B : Type 0) where
  -- What a run that ends idle does.
  abbrev pub Does : Run Client → Type 0
  Does run = Runs (Granted t s0 stores) B (Idle t s0) run

  pub log_do_log-Does : (b : Bool) (s : Client) → Idle t s0 s → Does (vsf_log_do_log b s)
  unfolding vsf_log_do_log
  log_do_log-Does b s k = elim (Option-cases s.log_type) [
    | inl e ↦ rw e (tt, k)
    | inr (l, e) ↦ rw e ((tt, tt), k)
  ]

  pub log_start-Does :
      (what : LogType) (s : Client) → Between t s0 s → Does (vsf_log_start_entry what s)
  unfolding vsf_log_start_entry
  log_start-Does what s k = rw k.2 (tt, (k.0, k.1))

  -- A log entry that is started where there is none.
  pub log_start-next :
      (what : LogType) (s : Client) (next : Client → Run Client)
      → s.log_type ≡ none
      → Does (next (record s { log_type = some what; transfer_size = 0; log_str = [] }))
      → Does (vsf_log_start_entry what s >>> next)
  unfolding vsf_log_start_entry
  log_start-next what s next e k = rw e k

  pub handle_rest-Does : (s : Client) (arg : Bytes) → Idle t s0 s → Does (handle_rest s arg)
  unfolding handle_rest
  handle_rest-Does s arg k = ((tt, tt), k)

  pub handle_type-Does : (s : Client) (arg : Bytes) → Idle t s0 s → Does (handle_type s arg)
  unfolding handle_type
  handle_type-Does s arg k =
      let upper = str_upper arg in
      if_elim Does
        (str_equal upper (codes "I")
          || (str_equal upper (codes "L8") || str_equal upper (codes "L 8")))
        _ _ (λ e. ((tt, tt), k))
        (λ e.
          if_elim Does (str_equal upper (codes "A") || str_equal upper (codes "A N")) _ _
            (λ e. ((tt, tt), k)) (λ e. ((tt, tt), k)))

  pub handle_pwd-Does : (s : Client) → (s0.user_root ≡ [] → B) → Idle t s0 s → Does (handle_pwd s)
  unfolding handle_pwd
  handle_pwd-Does s rooted k =
      quietly (Granted t s0 stores) B (λ q. Unit) (Idle t s0) (str_session_getcwd s) _
        (getcwd-Sound B s (λ e. rooted (sym k.0.3.0 ∙ e)))
        (λ cwd u.
          quietly (Granted t s0 stores) B (λ q. Unit) (Idle t s0)
            (quoted (if is_empty cwd then b'/' ∷ [] else cwd)) _
            (quoted-Sound B (if is_empty cwd then b'/' ∷ [] else cwd)) (λ text u. ((tt, tt), k)))

  mkdir_answer-Does :
      (r : Retval) (name : Bytes) (s : Client)
      → MayMake t s0
      → Idle t s0 s
      → Does (mkdir_answer r name s)
  unfolding mkdir_answer
  mkdir_answer-Does ret_0 name s may k =
      Runs-also (Granted t s0 stores) B (Idle t s0)
        (str_mkdir (prepend_session_path_to_filename s name) ∷ []) _ (may, tt)
        (Runs-bind (Granted t s0 stores) B (Idle t s0) (Idle t s0) (vsf_log_do_log true s) _
          (log_do_log-Does true s k)
          (λ s1 k1.
            quietly (Granted t s0 stores) B (λ q. Unit) (Idle t s0) (quoted name) _
              (quoted-Sound B name) (λ text u. ((tt, tt), k1))))
  mkdir_answer-Does ret_exists name s may k = ((may, (tt, tt)), k)
  mkdir_answer-Does ret_1 name s may k = ((tt, tt), k)
  mkdir_answer-Does ret_other name s may k = ((tt, tt), k)

  rmdir_answer-Does :
      (r : Retval) (name : Bytes) (s : Client)
      → MayRemove t s0
      → Idle t s0 s
      → Does (rmdir_answer r name s)
  unfolding rmdir_answer
  rmdir_answer-Does ret_0 name s may k =
      Runs-also (Granted t s0 stores) B (Idle t s0)
        (str_rmdir (prepend_session_path_to_filename s name) ∷ []) _ (may, tt)
        (Runs-bind (Granted t s0 stores) B (Idle t s0) (Idle t s0) (vsf_log_do_log true s) _
          (log_do_log-Does true s k) (λ s1 k1. ((tt, tt), k1)))
  rmdir_answer-Does ret_exists name s may k = ((tt, tt), k)
  rmdir_answer-Does ret_1 name s may k = ((tt, tt), k)
  rmdir_answer-Does ret_other name s may k = ((tt, tt), k)

  isempty_answer-Does :
      (h : Host) (r : Retval) (name : Bytes) (s : Client)
      → MayRemove t s0
      → Idle t s0 s
      → Does (isempty_answer h r name s)
  unfolding isempty_answer
  isempty_answer-Does h ret_0 name s may k =
      Runs-also (Granted t s0 stores) B (Idle t s0) (cos_rmdir name ∷ []) _ (may, tt)
        (rmdir_answer-Does h.rmdir_ret name s may k)
  isempty_answer-Does h ret_exists name s may k = ((tt, tt), k)
  isempty_answer-Does h ret_1 name s may k = ((tt, tt), k)
  isempty_answer-Does h ret_other name s may k = ((tt, tt), k)

  unlink_answer-Does : (r : Retval) (s : Client) → Idle t s0 s → Does (unlink_answer r s)
  unfolding unlink_answer
  unlink_answer-Does ret_0 s k =
      Runs-bind (Granted t s0 stores) B (Idle t s0) (Idle t s0) (vsf_log_do_log true s) _
        (log_do_log-Does true s k) (λ s1 k1. ((tt, tt), k1))
  unlink_answer-Does ret_exists s k = ((tt, tt), k)
  unlink_answer-Does ret_1 s k = ((tt, tt), k)
  unlink_answer-Does ret_other s k = ((tt, tt), k)

  cwd_reply-Does : (r : Bool × Client) → Idle t s0 r.1 → Does (cwd_reply r)
  cwd_reply-Does (true, s) k = ((tt, (tt, tt)), k)
  cwd_reply-Does (false, s) k = ((tt, tt), k)

  -- A change of the directory changes nothing else.
  change_dir-Idle :
      (h : Host) (s : Client) (path : Bytes)
      → Idle t s0 s
      → Runs (Granted t s0 stores) B (λ r. Idle t s0 r.1) (change_dir h s path)
  unfolding change_dir
  change_dir-Idle h s path k =
      if_elim (Runs (Granted t s0 stores) B (λ r. Idle t s0 r.1)) h.chdir_works _ _
        (λ e. ((tt, tt), k))
        (λ e.
          if_elim (Runs (Granted t s0 stores) B (λ r. Idle t s0 r.1)) (not h.mkdirs_works) _ _
            (λ e. ((tt, (tt, tt)), k))
            (λ e.
              if_elim (Runs (Granted t s0 stores) B (λ r. Idle t s0 r.1)) h.chdir_works_then _ _
                (λ e. ((tt, (tt, (tt, tt))), k)) (λ e. ((tt, (tt, (tt, tt))), k))))

  module _
      (check : (name : Bytes)
        → Sound B (λ b. Unit) (vsf_access_check_file t.tunable_deny_file name)) where
    -- A check of a name, and what follows where it passes or does not.
    pub checked-Does :
        (s : Client) (name : Bytes) (other next : Run Client)
        → Does other
        → Does next
        → Does (quiet (session_check t s name) >>> (λ allowed. if not allowed then other else next))
    checked-Does s name other next k l =
        quietly (Granted t s0 stores) B (λ b. Unit) (Idle t s0) (session_check t s name) _
          (session_check-Sound B t check s name)
          (λ allowed u. if_elim Does (not allowed) other next (λ e. k) (λ e. l))

    pub resolved-Does :
        (h : Host) (s : Client) (arg : Bytes) (next : Bytes → Run Client)
        → ((name : Bytes) → Does (next name))
        → Does (quiet (resolve_tilde t h s arg) >>> next)
    resolved-Does h s arg next k =
        quietly (Granted t s0 stores) B (λ p. Unit) (Idle t s0) (resolve_tilde t h s arg) next
          (resolve_tilde-Sound B t h s arg) (λ name u. k name)

    logged_check-Does :
        (s : Client) (what : LogType) (name : Bytes) (next : Client → Run Client)
        → Between t s0 s
        → ((s1 : Client) → Idle t s0 s1 → Does (next s1))
        → Does (logged_check t s what name next)
    logged_check-Does s what name next k l =
        Runs-bind (Granted t s0 stores) B (Idle t s0) (Idle t s0) (vsf_log_start_entry what s) _
          (log_start-Does what s k)
          (λ s1 k1.
            let s2 = record s1 { log_str = prepend_session_path_to_filename s1 name } in
            checked-Does s2 name _ _ ((tt, tt), k1) (l s2 k1))

    pub handle_cwd-Does :
        (h : Host) (s : Client) (arg : Bytes) → Idle t s0 s → Does (handle_cwd t h s arg)
    unfolding handle_cwd cwd_to
    handle_cwd-Does h s arg k = resolved-Does h s arg _ (λ name.
        checked-Does s name _ _ ((tt, tt), k)
          (Runs-bind (Granted t s0 stores) B (λ r. Idle t s0 r.1) (Idle t s0) _ cwd_reply
            (if_elim (Runs (Granted t s0 stores) B (λ r. Idle t s0 r.1)) h.isdir _ _
              (λ e. change_dir-Idle h s (prepend_session_path_to_filename s name) k) (λ e. (tt, k)))
            cwd_reply-Does))

    pub handle_cdup-Does : (h : Host) (s : Client) → Idle t s0 s → Does (handle_cdup t h s)
    unfolding handle_cdup
    handle_cdup-Does h s k = handle_cwd-Does h s (codes "..") k

    pub handle_mkd-Does :
        (h : Host) (s : Client) (arg : Bytes)
        → MayMake t s0
        → Between t s0 s
        → Does (handle_mkd t h s arg)
    unfolding handle_mkd
    handle_mkd-Does h s arg may k = resolved-Does h s arg _ (λ name.
        logged_check-Does s log_mkdir name
          (λ s1. also (cos_mkdir name ∷ []) (mkdir_answer h.mkdir_ret name s1)) k
          (λ s1 k1.
            Runs-also (Granted t s0 stores) B (Idle t s0) (cos_mkdir name ∷ []) _ (may, tt)
              (mkdir_answer-Does h.mkdir_ret name s1 may k1)))

    pub handle_rmd-Does :
        (h : Host) (s : Client) (arg : Bytes)
        → MayRemove t s0
        → Between t s0 s
        → Does (handle_rmd t h s arg)
    unfolding handle_rmd
    handle_rmd-Does h s arg may k = resolved-Does h s arg _ (λ name.
        logged_check-Does s log_rmdir name (isempty_answer h h.dir_isempty_ret name) k
          (λ s1 k1. isempty_answer-Does h h.dir_isempty_ret name s1 may k1))

    pub handle_dele-Does :
        (h : Host) (s : Client) (arg : Bytes)
        → MayRemove t s0
        → Between t s0 s
        → Does (handle_dele t h s arg)
    unfolding handle_dele
    handle_dele-Does h s arg may k = resolved-Does h s arg _ (λ name.
        logged_check-Does s log_delete name
          (λ s1. also (cos_unlink name ∷ []) (unlink_answer h.unlink_ret s1)) k
          (λ s1 k1.
            Runs-also (Granted t s0 stores) B (Idle t s0) (cos_unlink name ∷ []) _ (inl may, tt)
              (unlink_answer-Does h.unlink_ret s1 k1)))

    pub handle_size-Does :
        (h : Host) (s : Client) (arg : Bytes) → Idle t s0 s → Does (handle_size t h s arg)
    unfolding handle_size
    handle_size-Does h s arg k =
        resolved-Does h s arg _
          (λ name. checked-Does s name _ _ ((tt, tt), k) (answered h.file_size))
      where
        answered : (o : Option ℕ) → Does (size_answer o s)
        answered none = ((tt, tt), k)
        answered (some size) = ((tt, tt), k)
