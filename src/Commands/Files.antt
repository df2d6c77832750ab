-- ===== src/Commands/Files.antt =====
-- The commands of src/postlogin.c on directories and names.
use cos_ftp_v.Base.{
  ℕ, Bool, true, false, not, ◌||◌, Option, none, some, [], ◌∷◌, ◌++◌, Bytes, codes, if◌then◌else◌,
  Outcome, ok, ◌>>=◌,
}
use cos_ftp_v.Str.Edit.{is_empty, str_replace_text}
use cos_ftp_v.SysUtil.Numbers.{vsf_sysutil_filesize_t_to_str, vsf_sysutil_a_to_filesize_t}
use cos_ftp_v.Str.Edit.{str_upper}
use cos_ftp_v.Str.Compare.{str_equal}
use cos_ftp_v.Commands.{
  LogType, log_mkdir, log_rmdir, log_delete, Client, CommandTunables, Host, Retval, ret_0, ret_1,
  ret_exists, ret_other, dir_message, cos_mkdir, cos_rmdir, cos_unlink, str_mkdir, str_mkdirs,
  str_rmdir, str_chdir, Run, also, ◌>>>◌, quiet, done, does, write, answer, vsf_log_start_entry,
  vsf_log_do_log,
}
use cos_ftp_v.Commands.Paths.{
  text_or_fault, prepend_session_path_to_filename, session_check, str_session_getcwd, resolve_tilde,
}

-- Quotes in a path are doubled.
abbrev pub quoted : Bytes → Outcome Bytes
quoted path = str_replace_text path (codes "\"") (codes "\"\"") >>= text_or_fault

unfoldable pub handle_pwd : Client → Run Client
handle_pwd s = quiet (str_session_getcwd s) >>> (λ cwd.
    quiet (quoted (if is_empty cwd then b'/' ∷ [] else cwd))
    >>> (λ text. answer 257 ((b'"' ∷ text) ++ codes "\" is the current directory") s))

abbrev pub not_permitted : Client → Run Client
not_permitted s = answer 550 (codes "Permission denied.") s

-- Whether the change of directory went well, and the session.
unfoldable pub change_dir : Host → Client → Bytes → Run (Bool × Client)
change_dir h s disk_path =
    if h.chdir_works
    then (str_chdir disk_path ∷ [], ok (true, record s { cwd = h.dir_after }))
    else if not h.mkdirs_works
    then (str_chdir disk_path ∷ str_mkdirs disk_path ∷ [], ok (false, s))
    else if h.chdir_works_then
    then (
      str_chdir disk_path ∷ str_mkdirs disk_path ∷ str_chdir disk_path ∷ [],
      ok (true, record s { cwd = h.dir_after }),
    )
    else (str_chdir disk_path ∷ str_mkdirs disk_path ∷ str_chdir disk_path ∷ [], ok (false, s))

abbrev pub cwd_reply : Bool × Client → Run Client
cwd_reply (true, s) =
    does (dir_message 250 ∷ write 250 (codes "Directory successfully changed.") ∷ []) s
cwd_reply (false, s) = answer 550 (codes "Failed to change directory.") s

-- With the name that is checked.
unfoldable pub cwd_to : CommandTunables → Host → Client → Bytes → Run Client
unfolding change_dir
cwd_to t h s name = quiet (session_check t s name) >>> (λ allowed.
    if not allowed
    then not_permitted s
    else (if h.isdir
        then change_dir h s (prepend_session_path_to_filename s name)
        else done (false, s))
      >>> cwd_reply)

unfoldable pub handle_cwd : CommandTunables → Host → Client → Bytes → Run Client
unfolding cwd_to
handle_cwd t h s arg = quiet (resolve_tilde t h s arg) >>> cwd_to t h s

unfoldable pub handle_cdup : CommandTunables → Host → Client → Run Client
unfolding handle_cwd
handle_cdup t h s = handle_cwd t h s (codes "..")

-- What MKD, RMD and DELE begin with: the entry of the log, and the check of the name, which `next`
-- gets where it is allowed.
abbrev pub logged_check :
    CommandTunables → Client → LogType → Bytes → (Client → Run Client) → Run Client
logged_check t s what name next = vsf_log_start_entry what s >>> (λ s1.
    let s2 = record s1 { log_str = prepend_session_path_to_filename s1 name } in
    quiet (session_check t s2 name)
    >>> (λ allowed. if not allowed then not_permitted s2 else next s2))

unfoldable pub mkdir_answer : Retval → Bytes → Client → Run Client
unfolding vsf_log_do_log
mkdir_answer ret_0 name s = also (str_mkdir (prepend_session_path_to_filename s name) ∷ []) (
    vsf_log_do_log true s >>> (λ s1.
      quiet (quoted name) >>> (λ text. answer 257 ((b'"' ∷ text) ++ codes "\" created") s1)))
mkdir_answer ret_exists name s =
    also (str_mkdir (prepend_session_path_to_filename s name) ∷ [])
      (answer 550 (codes "Directory already exists") s)
mkdir_answer ret_1 name s = answer 550 (codes "Create directory operation failed.") s
mkdir_answer ret_other name s = answer 550 (codes "Create directory operation failed.") s

unfoldable pub handle_mkd : CommandTunables → Host → Client → Bytes → Run Client
unfolding mkdir_answer
handle_mkd t h s arg = quiet (resolve_tilde t h s arg) >>> (λ name.
    logged_check t s log_mkdir name
      (λ s1. also (cos_mkdir name ∷ []) (mkdir_answer h.mkdir_ret name s1)))

abbrev rmdir_failed : Client → Run Client
rmdir_failed s = answer 550 (codes "Remove directory operation failed.") s

unfoldable pub rmdir_answer : Retval → Bytes → Client → Run Client
unfolding vsf_log_do_log
rmdir_answer ret_0 name s =
    also (str_rmdir (prepend_session_path_to_filename s name) ∷ [])
      (vsf_log_do_log true s >>> answer 250 (codes "Remove directory operation successful."))
rmdir_answer ret_1 name s = answer 550 (codes "Remove directory operation failed (not exist).") s
rmdir_answer ret_exists name s = rmdir_failed s
rmdir_answer ret_other name s = rmdir_failed s

-- On what `cos_dir_isempty` returns.
unfoldable pub isempty_answer : Host → Retval → Bytes → Client → Run Client
unfolding rmdir_answer
isempty_answer h ret_0 name s = also (cos_rmdir name ∷ []) (rmdir_answer h.rmdir_ret name s)
isempty_answer h ret_1 name s =
    answer 550 (codes "Remove directory operation failed (not empty).") s
isempty_answer h ret_exists name s = rmdir_failed s
isempty_answer h ret_other name s = rmdir_failed s

unfoldable pub handle_rmd : CommandTunables → Host → Client → Bytes → Run Client
unfolding isempty_answer
handle_rmd t h s arg =
    quiet (resolve_tilde t h s arg)
    >>> (λ name. logged_check t s log_rmdir name (isempty_answer h h.dir_isempty_ret name))

unfoldable pub unlink_answer : Retval → Client → Run Client
unfolding vsf_log_do_log
unlink_answer ret_0 s = vsf_log_do_log true s >>> answer 250 (codes "Delete operation successful.")
unlink_answer ret_1 s = answer 550 (codes "Delete operation failed (not exist).") s
unlink_answer ret_exists s = answer 550 (codes "Delete operation failed.") s
unlink_answer ret_other s = answer 550 (codes "Delete operation failed.") s

unfoldable pub handle_dele : CommandTunables → Host → Client → Bytes → Run Client
unfolding unlink_answer
handle_dele t h s arg = quiet (resolve_tilde t h s arg) >>> (λ name.
    logged_check t s log_delete name
      (λ s1. also (cos_unlink name ∷ []) (unlink_answer h.unlink_ret s1)))

-- The position is not negative here, since `vsf_sysutil_a_to_filesize_t` gives no negative number.
unfoldable pub handle_rest : Client → Bytes → Run Client
handle_rest s arg =
    let val = vsf_sysutil_a_to_filesize_t arg in
    answer 350
      ((codes "Restart position accepted (" ++ vsf_sysutil_filesize_t_to_str val) ++ codes ").")
      (record s { restart_pos = val })

abbrev pub size_answer : Option ℕ → Client → Run Client
size_answer none s = answer 550 (codes "Could not get file size.") s
size_answer (some size) s = answer 213 (vsf_sysutil_filesize_t_to_str size) s

unfoldable pub handle_size : CommandTunables → Host → Client → Bytes → Run Client
handle_size t h s arg = quiet (resolve_tilde t h s arg) >>> (λ name.
    quiet (session_check t s name)
    >>> (λ allowed. if not allowed then not_permitted s else size_answer h.file_size s))

unfoldable pub handle_type : Client → Bytes → Run Client
handle_type s arg =
    let upper = str_upper arg in
    if str_equal upper (codes "I")
      || (str_equal upper (codes "L8") || str_equal upper (codes "L 8"))
    then answer 200 (codes "Switching to Binary mode.") (record s { is_ascii = false })
    else if str_equal upper (codes "A") || str_equal upper (codes "A N")
    then answer 200 (codes "Switching to ASCII mode.") (record s { is_ascii = true })
    else answer 500 (codes "Unrecognised TYPE command.") s
