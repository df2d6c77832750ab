-- ===== src/Commands/Uploads.antt =====
-- `handle_upload_common` of src/postlogin.c, as STOR calls it: neither appending nor unique.
use cos_ftp_v.Base.{
  ℕ, ◌/◌, Bool, true, false, not, ◌&&◌, Option, none, some, [], ◌∷◌, ◌++◌, Bytes, codes, ltb, ◌==◌,
  if◌then◌else◌, take, ok,
}
use cos_ftp_v.SysUtil.Numbers.{vsf_sysutil_ulong_to_str}
use cos_ftp_v.Commands.{
  log_upload, Client, CommandTunables, Host, Transfer, transferred_all, local_failed,
  network_failed, too_large, log_line, cos_unlink, cos_upload_file, str_create,
  str_create_exclusive, str_unlink, chown_upload, truncate_file, seek_file, receive_file, Run, also,
  ◌>>>◌, quiet, done, write, answer, vsf_log_start_entry, vsf_log_do_log,
}
use cos_ftp_v.Commands.Paths.{prepend_session_path_to_filename, session_check, resolve_tilde}
use cos_ftp_v.Commands.Data.{port_cleanup, pasv_cleanup}
use cos_ftp_v.Commands.Files.{not_permitted}
use cos_ftp_v.Commands.Transfers.{
  data_transfer_checks_ok, vsf_ftpdataio_dispose_transfer_fd, get_remote_transfer_fd, check_abor,
  interrupted,
}
use cos_ftp_v.Commands.Downloads.{after_dispose, unless_timeout}

-- The label `port_pasv_cleanup_out`: whether the upload succeeded and whether `pasv_cleanup` was
-- called already come with the session.
unfoldable pub upload_out : CommandTunables → Bytes → Bool → Bool × Client → Run Client
unfolding port_cleanup pasv_cleanup
upload_out t local_name pasv_cleaned (success, s) = (
  if t.tunable_delete_failed_uploads && not success then str_unlink local_name ∷ [] else [],
  ok (if pasv_cleaned then port_cleanup s else pasv_cleanup (port_cleanup s)),
)

-- The file has arrived: it goes to the storage.
unfoldable pub upload_arrived : Host → Bytes → Bytes → Client → Run (Bool × Client)
unfolding vsf_log_do_log port_cleanup
upload_arrived h local_name name s =
    also
      (log_line (local_name ++ codes "  Receive success.") ∷ cos_upload_file local_name name ∷ [])
      (if not h.uploaded
        then (write 451 (codes "Failure transfer file to cos.") ∷ [], ok (false, port_cleanup s))
        else vsf_log_do_log true (port_cleanup s) >>> (λ s1.
          (write 226 (codes "Transfer complete.") ∷ str_unlink local_name ∷ [], ok (true, s1))))

abbrev failing : Run Client → Run (Bool × Client)
failing run = run >>> (λ s. done (false, s))

-- On the end of the transfer. Its text has 63 bytes at most, which `err_msg` has room for.
unfoldable pub upload_answer :
    CommandTunables → Host → Bytes → Bytes → Transfer → Client → Run (Bool × Client)
unfolding upload_arrived unless_timeout
upload_answer t h local_name name local_failed s =
    failing (answer 451 (codes "Failure writing to local file.") s)
upload_answer t h local_name name network_failed s =
    failing (unless_timeout (codes "Failure reading network stream.") s)
upload_answer t h local_name name too_large s = (
  write 451 (
        take 63 (
          (codes "The max allow file size is: "
            ++ vsf_sysutil_ulong_to_str (t.tunable_max_upload_file_size / 1024))
          ++ codes " MB"))
      ∷ str_unlink local_name
      ∷ [],
  ok (false, s),
)
upload_answer t h local_name name transferred_all s = upload_arrived h local_name name s

-- From the transfer itself to the end.
unfoldable pub upload_transfer : CommandTunables → Host → Bytes → Bytes → ℕ → Client → Run Client
unfolding upload_answer upload_out vsf_ftpdataio_dispose_transfer_fd check_abor pasv_cleanup
upload_transfer t h local_name name have_recv_len s =
    also (receive_file (t.tunable_ascii_upload_enable && s.is_ascii) have_recv_len ∷ []) (
      vsf_ftpdataio_dispose_transfer_fd h (interrupted h (pasv_cleanup s)) >>> (λ d.
        upload_answer t h local_name name (after_dispose h.transfer d.0)
          (record d.1 { transfer_size = h.transferred })
        >>> (λ r. check_abor r.1 >>> (λ s1. upload_out t local_name true (r.0, s1)))))

unfoldable pub upload_connect : CommandTunables → Host → Bytes → Bytes → ℕ → Client → Run Client
unfolding upload_transfer upload_out
upload_connect t h local_name name have_recv_len s =
    get_remote_transfer_fd t h s (codes "Ok to send data.") >>> (λ r.
      if not r.0
      then upload_out t local_name false (false, r.1)
      else upload_transfer t h local_name name have_recv_len r.1)

-- From the truncation on, with the file's length before it.
unfoldable pub upload_seek :
    CommandTunables → Host → Bytes → Bytes → ℕ → Bool → ℕ → Client → Run Client
unfolding upload_connect upload_out
upload_seek t h local_name name offset do_truncate file_len s =
    also (if do_truncate then truncate_file ∷ seek_file 0 ∷ [] else []) (
      if offset == 0
      then upload_connect t h local_name name 0 s
      else if ltb file_len offset
      then also
          (write 451 (codes "Offset is out of bounds. Try again") ∷ cos_unlink local_name ∷ [])
          (upload_out t local_name false (false, s))
      else also (seek_file offset ∷ []) (upload_connect t h local_name name offset s))

-- On what the creation gives: the length of the file.
unfoldable pub upload_created :
    CommandTunables → Host → Bytes → Bytes → ℕ → Bool → Client → Option ℕ → Run Client
unfolding upload_seek upload_out
upload_created t h local_name name offset do_truncate s none =
    answer 553 (codes "Could not create file.") s
upload_created t h local_name name offset do_truncate s (some file_len) =
    also (if s.is_anonymous && t.tunable_chown_uploads then chown_upload ∷ [] else []) (
      if t.tunable_lock_upload_files && not h.locks
      then also (write 450 (codes "File is locked, Try later.") ∷ [])
          (upload_out t local_name false (true, s))
      else upload_seek t h local_name name offset do_truncate file_len s)

-- Who may not write otherwise creates only files that are not there.
abbrev pub is_exclusive : CommandTunables → Client → Bool
is_exclusive t s = s.is_anonymous && not t.tunable_anon_other_write_enable

unfoldable pub upload_named : CommandTunables → Host → ℕ → Client → Bytes → Run Client
unfolding upload_created
upload_named t h offset s name =
    let local_name = prepend_session_path_to_filename s name in
    vsf_log_start_entry log_upload s >>> (λ s1.
      let s2 = record s1 { log_str = local_name } in
      quiet (session_check t s2 local_name) >>> (λ allowed.
        if not allowed
        then not_permitted s2
        else if is_exclusive t s2
        then also (str_create_exclusive local_name ∷ [])
            (upload_created t h local_name name offset false s2 h.created)
        else also (str_create local_name ∷ [])
            (upload_created t h local_name name offset (offset == 0) s2 h.created)))

unfoldable pub handle_upload_common : CommandTunables → Host → Client → Bytes → Run Client
unfolding upload_named
handle_upload_common t h s arg =
    let offset = s.restart_pos in
    data_transfer_checks_ok t (record s { restart_pos = 0 }) >>> (λ r.
      if not r.0
      then done r.1
      else quiet (resolve_tilde t h r.1 arg) >>> upload_named t h offset r.1)
