-- ===== src/Commands/Downloads.antt =====
-- The commands of src/postlogin.c that move data: downloads, uploads and listings.
use cos_ftp_v.Base.{
  ℕ, Bool, true, false, not, ◌&&◌, Option, none, some, [], ◌∷◌, ◌++◌, Bytes, codes, ◌==◌,
  if◌then◌else◌, Outcome, ok, ◌>>=◌,
}
use cos_ftp_v.Str.Edit.{is_empty}
use cos_ftp_v.Str.Locate.{str_locate_char}
use cos_ftp_v.Str.Split.{str_split_char, str_split_char_reverse, str_mid_to_end}
use cos_ftp_v.Session.{reply_hyphen}
use cos_ftp_v.SysUtil.Numbers.{vsf_sysutil_filesize_t_to_str}
use cos_ftp_v.Commands.{
  log_download, Client, CommandTunables, Host, Transfer, transferred_all, local_failed,
  network_failed, too_large, said, send_file, send_dir, Run, also, ◌>>>◌, quiet, done, write,
  answer, vsf_log_start_entry, vsf_log_do_log,
}
use cos_ftp_v.Commands.Paths.{prepend_session_path_to_filename, session_check, resolve_tilde}
use cos_ftp_v.Commands.Data.{port_cleanup, pasv_cleanup}
use cos_ftp_v.Commands.Files.{not_permitted}
use cos_ftp_v.Commands.Transfers.{
  data_transfer_checks_ok, vsf_ftpdataio_dispose_transfer_fd, get_remote_transfer_fd, check_abor,
  interrupted,
}

-- A transfer that went well while the end of its connection did not is a failure of the network.
abbrev pub after_dispose : Transfer → Bool → Transfer
after_dispose transferred_all false = network_failed
after_dispose r disposed = r

-- `port_cleanup` and then `pasv_cleanup`.
abbrev pub cleaned : Client → Run Client
cleaned s = done (pasv_cleanup (port_cleanup s))

unfoldable pub unless_timeout : Bytes → Client → Run Client
unless_timeout text s = if not s.data_timeout then answer 426 text s else done s

-- The reply at the end of a download.
unfoldable pub retr_reply : Transfer → Client → Run Client
unfolding unless_timeout
retr_reply local_failed s = answer 451 (codes "Failure reading local file.") s
retr_reply network_failed s = unless_timeout (codes "Failure writing network stream.") s
retr_reply transferred_all s = answer 226 (codes "Transfer complete.") s
retr_reply too_large s = answer 226 (codes "Transfer complete.") s

unfoldable pub log_success : Transfer → Client → Run Client
unfolding vsf_log_do_log
log_success transferred_all s = vsf_log_do_log true s
log_success r s = done s

-- From the transfer itself to the reply.
unfoldable pub retr_transfer : Host → Bool → ℕ → ℕ → Client → Run Client
unfolding retr_reply log_success vsf_ftpdataio_dispose_transfer_fd check_abor
retr_transfer h is_ascii offset size s = also (send_file is_ascii offset size ∷ []) (
    vsf_ftpdataio_dispose_transfer_fd h (interrupted h s) >>> (λ d.
      let r = after_dispose h.transfer d.0 in
      log_success r (record d.1 { transfer_size = h.transferred })
      >>> (λ s1. retr_reply r s1 >>> (λ s2. check_abor s2 >>> cleaned))))

abbrev mode_text : Bool → Bytes
mode_text true = codes "ASCII"
mode_text false = codes "BINARY"

unfoldable pub mark_str : Bool → Bytes → ℕ → Bytes
mark_str is_ascii name size =
    ((codes "Opening " ++ mode_text is_ascii) ++ codes " mode data connection for ")
    ++ ((name ++ codes " (") ++ (vsf_sysutil_filesize_t_to_str size ++ codes " bytes)."))

-- On what `cos_stat_file` gives.
unfoldable pub retr_file : CommandTunables → Host → Bytes → ℕ → Client → Option ℕ → Run Client
unfolding retr_transfer mark_str
retr_file t h name offset s none = answer 550 (codes "Failed to open file.") s
retr_file t h name offset s (some size) =
    let is_ascii = t.tunable_ascii_download_enable && s.is_ascii in
    get_remote_transfer_fd t h s (mark_str is_ascii name size)
    >>> (λ r. if not r.0 then cleaned r.1 else retr_transfer h is_ascii offset size r.1)

unfoldable pub retr_named : CommandTunables → Host → ℕ → Client → Bytes → Run Client
unfolding retr_file
retr_named t h offset s name = vsf_log_start_entry log_download s >>> (λ s1.
    let s2 = record s1 { log_str = prepend_session_path_to_filename s1 name } in
    quiet (session_check t s2 name) >>> (λ allowed.
      if not allowed then not_permitted s2 else retr_file t h name offset s2 h.file_size))

-- `handle_retr` of a control connection; that of HTTP is left out.
unfoldable pub handle_retr : CommandTunables → Host → Client → Bytes → Run Client
unfolding retr_named
handle_retr t h s arg =
    let offset = s.restart_pos in
    data_transfer_checks_ok t (record s { restart_pos = 0 }) >>> (λ r.
      if not r.0
      then done r.1
      else if s.is_ascii && not (offset == 0)
      then answer 550 (codes "No support for resume of ASCII transfer.") r.1
      else quiet (resolve_tilde t h r.1 arg) >>> retr_named t h offset r.1)

-- The options, and the filter that is left.
unfoldable pub dir_options : Bytes → Outcome (Bytes × Bytes)
dir_options [] = ok ([], [])
dir_options (c ∷ arg) =
    if c == b'-'
    then str_mid_to_end (c ∷ arg) 1 >>= (λ o. str_split_char o b' ')
    else ok ([], c ∷ arg)

-- A filter with a path is split at its last slash.
unfoldable pub split_dir : Bytes → Option ℕ → Outcome (Bytes × Bytes)
split_dir filter none = ok (codes ".", filter)
split_dir filter (some i) =
    str_split_char_reverse filter b'/' >>= (λ p. ok (if is_empty p.0 then b'/' ∷ [] else p.0, p.1))

-- Whether the listing is allowed, and the directory with the filter.
unfoldable pub dir_target :
    CommandTunables → Host → Client → Bool → Bytes → Outcome (Bool × Bytes × Bytes)
unfolding split_dir
dir_target t h s stat_cmd filter =
    if is_empty filter
    then ok (true, codes ".", [])
    else resolve_tilde t h s filter >>= (λ name. session_check t s name >>= (λ allowed.
      if not allowed
      then ok (false, [], [])
      else if not stat_cmd && h.isdir
      then ok (true, name, [])
      else split_dir name (str_locate_char name b'/') >>= (λ p. ok (true, p.0, p.1))))

-- The end of a listing on a data connection.
unfoldable pub dir_transfer : Host → Bytes → Bytes × Bytes → Bool → Client → Run Client
unfolding unless_timeout vsf_ftpdataio_dispose_transfer_fd check_abor
dir_transfer h options target full_details s =
    also (send_dir false target.0 options target.1 full_details ∷ []) (
      vsf_ftpdataio_dispose_transfer_fd h (interrupted h s) >>> (λ d.
        (if not (h.dir_sent && d.0)
          then unless_timeout (codes "Failure writing network stream.") d.1
          else answer 226 (codes "Directory send OK.") d.1)
        >>> (λ s1. check_abor s1 >>> cleaned)))

unfoldable pub dir_listing :
    CommandTunables → Host → Client → Bool → Bool → Bytes → Bool × Bytes × Bytes → Run Client
unfolding dir_transfer check_abor
dir_listing t h s full_details stat_cmd options (allowed, dir, filter) =
    if not allowed
    then not_permitted s
    else if stat_cmd
    then also
        (said (reply_hyphen 213 (codes "Status follows:"))
          ∷ send_dir true dir (options ++ b'a' ∷ []) filter full_details
          ∷ write 213 (codes "End of status")
          ∷ [])
        (check_abor s)
    else get_remote_transfer_fd t h s (codes "Here comes the directory listing.") >>> (λ r.
      if not r.0 then cleaned r.1 else dir_transfer h options (dir, filter) full_details r.1)

-- The part of `handle_dir_common` behind its first check.
unfoldable pub dir_common : CommandTunables → Host → Bytes → Bool → Bool → Client → Run Client
unfolding dir_options dir_target dir_listing
dir_common t h arg full_details stat_cmd s =
    quiet (dir_options arg)
    >>> (λ o. quiet (dir_target t h s stat_cmd o.1) >>> dir_listing t h s full_details stat_cmd o.0)

unfoldable pub handle_dir_common :
    CommandTunables → Host → Client → Bytes → Bool → Bool → Run Client
unfolding dir_common
handle_dir_common t h s arg full_details stat_cmd =
    if stat_cmd
    then dir_common t h arg full_details stat_cmd s
    else data_transfer_checks_ok t s
      >>> (λ r. if not r.0 then done r.1 else dir_common t h arg full_details stat_cmd r.1)
