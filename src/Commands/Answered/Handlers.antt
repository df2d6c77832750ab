-- ===== src/Commands/Answered/Handlers.antt =====
-- The replies of the handlers that move no data.
use cos_ftp_v.Base.{
  ℕ, refl, inl, Bool, true, false, not, ◌&&◌, ◌||◌, Option, none, some, [], ◌∷◌, ◌++◌, Bytes, codes,
  ltb, ◌==◌, if◌then◌else◌, if_elim, take, ok,
}
use cos_ftp_v.Str.Compare.{str_equal}
use cos_ftp_v.Str.Edit.{is_empty, str_upper}
use cos_ftp_v.Str.Split.{str_split_char}
use cos_ftp_v.Addresses.{vsf_sysutil_parse_uchar_string_sep}
use cos_ftp_v.Commands.{
  SockAddr, LogType, log_mkdir, log_rmdir, log_delete, Client, CommandTunables, Host, Retval, ret_0,
  ret_1, ret_exists, ret_other, listen, cos_mkdir, cos_rmdir, cos_unlink, str_mkdir, str_rmdir, Run,
  also, answer, ◌>>>◌, quiet, done, vsf_log_start_entry, vsf_log_do_log,
}
use cos_ftp_v.Commands.Data.{
  epsv_reply, pasv_reply, v4_text, vsf_sysutil_inet_ntop, vsf_sysutil_sockaddr_ipv6_v4,
  port_cleanup, pasv_cleanup, CLibrary, start_listening, handle_pasv, pasv_sockaddr, port_of,
  take_port, port_with, handle_port, vsf_sysutil_sockaddr_addr_equal, vsf_sysutil_is_port_reserved,
  vsf_sysutil_sockaddr_clone, vsf_sysutil_sockaddr_set_ipv4addr, vsf_sysutil_sockaddr_set_ipv6addr,
}
use cos_ftp_v.Commands.Data.Eprt.{eprt_address, eprt_port, eprt_protocol, handle_eprt}
use cos_ftp_v.Commands.Paths.{
  session_check, str_session_getcwd, resolve_tilde, prepend_session_path_to_filename,
}
use cos_ftp_v.Commands.Files.{
  quoted, not_permitted, handle_pwd, change_dir, cwd_reply, cwd_to, handle_cwd, handle_cdup,
  logged_check, mkdir_answer, handle_mkd, rmdir_answer, isempty_answer, handle_rmd, unlink_answer,
  handle_dele, size_answer, handle_size, handle_type,
}
use cos_ftp_v.Commands.Answered.{TimedOut, Answers, Replies-also, followed, quiet-followed}

-- PORT, EPRT and PASV.
take_port-Answers :
    (t : CommandTunables) (s : Client) (a : SockAddr) (the_port : ℕ) (illegal accepted : Bytes)
    → Answers (take_port t s a the_port illegal accepted)
unfolding take_port
take_port-Answers t s a the_port illegal accepted =
    if_elim Answers
      (not t.tunable_port_promiscuous
        && (not (vsf_sysutil_sockaddr_addr_equal s.remote_addr (record a { port = the_port }))
            || vsf_sysutil_is_port_reserved the_port))
      _ _ (λ e. inl refl) (λ e. inl refl)

port_with-Answers :
    (t : CommandTunables) (s : Client) (vals : Option Bytes) → Answers (port_with t s vals)
unfolding port_with
port_with-Answers t s none = inl refl
port_with-Answers t s (some vals) =
    take_port-Answers t s
      (vsf_sysutil_sockaddr_set_ipv4addr (vsf_sysutil_sockaddr_clone s.local_addr) (take 4 vals))
      (port_of vals) (codes "Illegal PORT command.")
      (codes "PORT command successful. Consider using PASV.")

pub handle_port-Answers :
    (c : CLibrary) (t : CommandTunables) (s : Client) (arg : Bytes)
    → Answers (handle_port c t s arg)
unfolding handle_port
handle_port-Answers c t s arg =
    quiet-followed TimedOut (vsf_sysutil_parse_uchar_string_sep c.atoi arg b',' 6) _
      (port_with-Answers t (port_cleanup (pasv_cleanup s)))

eprt_port-Answers :
    (c : CLibrary) (t : CommandTunables) (s : Client) (proto : ℕ) (part2 : Bytes) (o : Option Bytes)
    → Answers (eprt_port c t s proto part2 o)
unfolding eprt_port
eprt_port-Answers c t s proto part2 none = inl refl
eprt_port-Answers c t s proto part2 (some raw) =
    quiet-followed TimedOut (str_split_char part2 b'|') _ (λ p.
      if_elim Answers (not (is_empty p.1) || is_empty p.0) _ _ (λ e. inl refl)
        (λ e.
          if_elim Answers (ltb 65535 (c.atoi p.0)) _ _ (λ e. inl refl)
            (λ e.
              quiet-followed TimedOut
                (if proto == 2
                  then vsf_sysutil_sockaddr_set_ipv6addr (vsf_sysutil_sockaddr_clone s.local_addr)
                      raw
                  else ok (
                      vsf_sysutil_sockaddr_set_ipv4addr (vsf_sysutil_sockaddr_clone s.local_addr)
                        raw))
                _
                (λ a.
                  take_port-Answers t s a (c.atoi p.0) (codes "Illegal EPRT command.")
                    (codes "EPRT command successful. Consider using EPSV.")))))

eprt_protocol-Answers :
    (c : CLibrary) (t : CommandTunables) (s : Client) (rest : Bytes)
    → Answers (eprt_protocol c t s rest)
unfolding eprt_protocol
eprt_protocol-Answers c t s rest = quiet-followed TimedOut (str_split_char rest b'|') _ (λ p.
    if_elim Answers
      (ltb (c.atoi p.0) 1 || ltb 2 (c.atoi p.0) || (not s.local_addr.is_ipv6 && c.atoi p.0 == 2)) _
      _ (λ e. inl refl)
      (λ e. quiet-followed TimedOut (str_split_char p.1 b'|') _ (λ q.
        quiet-followed TimedOut (eprt_address c (c.atoi p.0) q.0) _
          (eprt_port-Answers c t s (c.atoi p.0) q.1))))

pub handle_eprt-Answers :
    (c : CLibrary) (t : CommandTunables) (s : Client) (arg : Bytes)
    → Answers (handle_eprt c t s arg)
unfolding handle_eprt
handle_eprt-Answers c t s arg = quiet-followed TimedOut (str_split_char arg b'|') _ (λ p.
    if_elim Answers (not (is_empty p.0)) _ _ (λ e. inl refl)
      (λ e. eprt_protocol-Answers c t (pasv_cleanup (port_cleanup s)) p.1))

start_listening-Answers :
    (c : CLibrary) (t : CommandTunables) (h : Host) (s : Client) (is_epsv : Bool)
    → Answers (start_listening c t h s is_epsv)
unfolding start_listening
start_listening-Answers c t h s is_epsv =
    let s1 = record s { port_sockaddr = none; pasv_listening = true } in
    Replies-also TimedOut (listen ∷ [])
      (if is_epsv
        then answer 229 (epsv_reply h.listen_port) s1
        else quiet (pasv_sockaddr c t s1) >>> (λ a.
          answer 227
            (pasv_reply
              (if s.local_addr.is_ipv6
                then v4_text c (vsf_sysutil_sockaddr_ipv6_v4 a)
                else vsf_sysutil_inet_ntop c a)
              h.listen_port)
            s1))
      (if_elim Answers is_epsv _ _ (λ e. inl refl)
        (λ e. quiet-followed TimedOut (pasv_sockaddr c t s1) _ (λ a. inl refl)))

pub handle_pasv-Answers :
    (c : CLibrary) (t : CommandTunables) (h : Host) (s : Client) (arg : Bytes) (is_epsv : Bool)
    → Answers (handle_pasv c t h s arg is_epsv)
unfolding handle_pasv
handle_pasv-Answers c t h s arg is_epsv =
    let upper = str_upper arg in
    let argval = c.atoi upper in
    if_elim Answers (is_epsv && not (is_empty arg)) _ _
      (λ e.
        if_elim Answers (str_equal upper (codes "ALL")) _ _ (λ e. inl refl)
          (λ e.
            if_elim Answers
              (ltb argval 1 || ltb 2 argval || (not s.local_addr.is_ipv6 && argval == 2)) _ _
              (λ e. inl refl) (λ e. start_listening-Answers c t h s is_epsv)))
      (λ e. start_listening-Answers c t h s is_epsv)

-- The commands on names.
pub handle_pwd-Answers : (s : Client) → Answers (handle_pwd s)
unfolding handle_pwd
handle_pwd-Answers s = quiet-followed TimedOut (str_session_getcwd s) _ (λ cwd.
    quiet-followed TimedOut (quoted (if is_empty cwd then b'/' ∷ [] else cwd)) _ (λ text. inl refl))

pub handle_type-Answers : (s : Client) (arg : Bytes) → Answers (handle_type s arg)
unfolding handle_type
handle_type-Answers s arg =
    let upper = str_upper arg in
    if_elim Answers
      (str_equal upper (codes "I")
        || (str_equal upper (codes "L8") || str_equal upper (codes "L 8")))
      _ _ (λ e. inl refl)
      (λ e.
        if_elim Answers (str_equal upper (codes "A") || str_equal upper (codes "A N")) _ _
          (λ e. inl refl) (λ e. inl refl))

checked-Answers :
    (t : CommandTunables) (s : Client) (name : Bytes) (other next : Run Client)
    → Answers other
    → Answers next
    → Answers (quiet (session_check t s name) >>> (λ allowed. if not allowed then other else next))
checked-Answers t s name other next k l =
    quiet-followed TimedOut (session_check t s name) _
      (λ b. if_elim Answers (not b) other next (λ e. k) (λ e. l))

logged_check-Answers :
    (t : CommandTunables) (s : Client) (what : LogType) (name : Bytes) (next : Client → Run Client)
    → ((s1 : Client) → Answers (next s1))
    → Answers (logged_check t s what name next)
logged_check-Answers t s what name next l = followed TimedOut (vsf_log_start_entry what s) _ (λ s1.
    let s2 = record s1 { log_str = prepend_session_path_to_filename s1 name } in
    checked-Answers t s2 name (not_permitted s2) (next s2) (inl refl) (l s2))

cwd_reply-Answers : (r : Bool × Client) → Answers (cwd_reply r)
cwd_reply-Answers (true, s) = inl refl
cwd_reply-Answers (false, s) = inl refl

pub handle_cwd-Answers :
    (t : CommandTunables) (h : Host) (s : Client) (arg : Bytes) → Answers (handle_cwd t h s arg)
unfolding handle_cwd cwd_to
handle_cwd-Answers t h s arg = quiet-followed TimedOut (resolve_tilde t h s arg) _ (λ name.
    quiet-followed TimedOut (session_check t s name) _ (λ b.
      if_elim Answers (not b) _ _ (λ e. inl refl)
        (λ e.
          followed TimedOut
            (if h.isdir
              then change_dir h s (prepend_session_path_to_filename s name)
              else done (false, s))
            cwd_reply cwd_reply-Answers)))

pub handle_cdup-Answers :
    (t : CommandTunables) (h : Host) (s : Client) → Answers (handle_cdup t h s)
unfolding handle_cdup
handle_cdup-Answers t h s = handle_cwd-Answers t h s (codes "..")

mkdir_answer-Answers : (r : Retval) (name : Bytes) (s : Client) → Answers (mkdir_answer r name s)
unfolding mkdir_answer
mkdir_answer-Answers ret_0 name s =
    Replies-also TimedOut (str_mkdir (prepend_session_path_to_filename s name) ∷ [])
      (vsf_log_do_log true s >>> (λ s1.
        quiet (quoted name) >>> (λ text. answer 257 ((b'"' ∷ text) ++ codes "\" created") s1)))
      (followed TimedOut (vsf_log_do_log true s) _
        (λ s1. quiet-followed TimedOut (quoted name) _ (λ text. inl refl)))
mkdir_answer-Answers ret_1 name s = inl refl
mkdir_answer-Answers ret_exists name s = inl refl
mkdir_answer-Answers ret_other name s = inl refl

pub handle_mkd-Answers :
    (t : CommandTunables) (h : Host) (s : Client) (arg : Bytes) → Answers (handle_mkd t h s arg)
unfolding handle_mkd
handle_mkd-Answers t h s arg = quiet-followed TimedOut (resolve_tilde t h s arg) _ (λ name.
    logged_check-Answers t s log_mkdir name
      (λ s1. also (cos_mkdir name ∷ []) (mkdir_answer h.mkdir_ret name s1))
      (λ s1.
        Replies-also TimedOut (cos_mkdir name ∷ []) (mkdir_answer h.mkdir_ret name s1)
          (mkdir_answer-Answers h.mkdir_ret name s1)))

rmdir_answer-Answers : (r : Retval) (name : Bytes) (s : Client) → Answers (rmdir_answer r name s)
unfolding rmdir_answer
rmdir_answer-Answers ret_0 name s =
    Replies-also TimedOut (str_rmdir (prepend_session_path_to_filename s name) ∷ [])
      (vsf_log_do_log true s >>> answer 250 (codes "Remove directory operation successful."))
      (followed TimedOut (vsf_log_do_log true s)
        (answer 250 (codes "Remove directory operation successful.")) (λ s1. inl refl))
rmdir_answer-Answers ret_1 name s = inl refl
rmdir_answer-Answers ret_exists name s = inl refl
rmdir_answer-Answers ret_other name s = inl refl

isempty_answer-Answers :
    (h : Host) (r : Retval) (name : Bytes) (s : Client) → Answers (isempty_answer h r name s)
unfolding isempty_answer
isempty_answer-Answers h ret_0 name s =
    Replies-also TimedOut (cos_rmdir name ∷ []) (rmdir_answer h.rmdir_ret name s)
      (rmdir_answer-Answers h.rmdir_ret name s)
isempty_answer-Answers h ret_1 name s = inl refl
isempty_answer-Answers h ret_exists name s = inl refl
isempty_answer-Answers h ret_other name s = inl refl

pub handle_rmd-Answers :
    (t : CommandTunables) (h : Host) (s : Client) (arg : Bytes) → Answers (handle_rmd t h s arg)
unfolding handle_rmd
handle_rmd-Answers t h s arg = quiet-followed TimedOut (resolve_tilde t h s arg) _ (λ name.
    logged_check-Answers t s log_rmdir name (isempty_answer h h.dir_isempty_ret name)
      (isempty_answer-Answers h h.dir_isempty_ret name))

unlink_answer-Answers : (r : Retval) (s : Client) → Answers (unlink_answer r s)
unfolding unlink_answer
unlink_answer-Answers ret_0 s =
    followed TimedOut (vsf_log_do_log true s) (answer 250 (codes "Delete operation successful."))
      (λ s1. inl refl)
unlink_answer-Answers ret_1 s = inl refl
unlink_answer-Answers ret_exists s = inl refl
unlink_answer-Answers ret_other s = inl refl

pub handle_dele-Answers :
    (t : CommandTunables) (h : Host) (s : Client) (arg : Bytes) → Answers (handle_dele t h s arg)
unfolding handle_dele
handle_dele-Answers t h s arg = quiet-followed TimedOut (resolve_tilde t h s arg) _ (λ name.
    logged_check-Answers t s log_delete name
      (λ s1. also (cos_unlink name ∷ []) (unlink_answer h.unlink_ret s1))
      (λ s1.
        Replies-also TimedOut (cos_unlink name ∷ []) (unlink_answer h.unlink_ret s1)
          (unlink_answer-Answers h.unlink_ret s1)))

pub handle_size-Answers :
    (t : CommandTunables) (h : Host) (s : Client) (arg : Bytes) → Answers (handle_size t h s arg)
unfolding handle_size
handle_size-Answers t h s arg =
    quiet-followed TimedOut (resolve_tilde t h s arg) _ (λ name.
      checked-Answers t s name _ (size_answer h.file_size s) (inl refl) (sized h.file_size))
  where
    sized : (o : Option ℕ) → Answers (size_answer o s)
    sized none = inl refl
    sized (some size) = inl refl
