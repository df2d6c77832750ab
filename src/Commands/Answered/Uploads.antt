-- ===== src/Commands/Answered/Uploads.antt =====
-- The replies of uploads.
use cos_ftp_v.Base.{
  ℕ, refl, inl, inr, Bool, true, false, not, ◌&&◌, Option, none, some, [], ◌∷◌, ◌++◌, Bytes, codes,
  ltb, ◌==◌, if◌then◌else◌, if_elim, ok,
}
use cos_ftp_v.Commands.{
  Client, CommandTunables, Host, Transfer, transferred_all, local_failed, network_failed, too_large,
  log_upload, log_line, cos_unlink, cos_upload_file, str_create, str_create_exclusive, str_unlink,
  chown_upload, truncate_file, seek_file, receive_file, also, ◌>>>◌, quiet, done, write,
  vsf_log_start_entry, vsf_log_do_log,
}
use cos_ftp_v.Commands.Paths.{prepend_session_path_to_filename, session_check, resolve_tilde}
use cos_ftp_v.Commands.Data.{port_cleanup, pasv_cleanup}
use cos_ftp_v.Commands.Transfers.{
  data_transfer_checks_ok, vsf_ftpdataio_dispose_transfer_fd, get_remote_transfer_fd, check_abor,
  interrupted,
}
use cos_ftp_v.Commands.Downloads.{after_dispose, unless_timeout}
use cos_ftp_v.Commands.Uploads.{
  upload_out, upload_arrived, upload_answer, upload_transfer, upload_connect, upload_seek,
  upload_created, is_exclusive, upload_named, handle_upload_common,
}
use cos_ftp_v.Commands.Answered.{
  TimedOut, Replies, Answers, also-replied, Replies-also, Replies-bind, followed, quiet-followed,
}
use cos_ftp_v.Commands.Answered.Transfers.{checks-Tells, remote_fd-Tells, check_abor-Answers}
use cos_ftp_v.Commands.Answered.Downloads.{unless_timeout-Answers, stopped-Answers}

upload_out-Answers :
    (t : CommandTunables) (local_name : Bytes) (b : Bool) (r : Bool × Client)
    → TimedOut r.1
    → Answers (upload_out t local_name b r)
unfolding upload_out port_cleanup pasv_cleanup
upload_out-Answers t local_name true (success, s) e = inr e
upload_out-Answers t local_name false (success, s) e = inr e

upload_arrived-Answers :
    (h : Host) (local_name name : Bytes) (s : Client)
    → Replies (λ r. TimedOut r.1) (upload_arrived h local_name name s)
unfolding upload_arrived
upload_arrived-Answers h local_name name s =
    Replies-also (λ r. TimedOut r.1)
      (log_line (local_name ++ codes "  Receive success.") ∷ cos_upload_file local_name name ∷ [])
      (if not h.uploaded
        then (write 451 (codes "Failure transfer file to cos.") ∷ [], ok (false, port_cleanup s))
        else vsf_log_do_log true (port_cleanup s) >>> (λ s1.
          (write 226 (codes "Transfer complete.") ∷ str_unlink local_name ∷ [], ok (true, s1))))
      (if_elim (Replies (λ r. TimedOut r.1)) (not h.uploaded) _ _ (λ e. inl refl)
        (λ e.
          followed (λ r. TimedOut r.1) (vsf_log_do_log true (port_cleanup s)) _ (λ s1. inl refl)))

upload_answer-Answers :
    (t : CommandTunables) (h : Host) (local_name name : Bytes) (r : Transfer) (s : Client)
    → Replies (λ r. TimedOut r.1) (upload_answer t h local_name name r s)
unfolding upload_answer
upload_answer-Answers t h local_name name local_failed s = inl refl
upload_answer-Answers t h local_name name network_failed s =
    Replies-bind TimedOut (λ r. TimedOut r.1)
      (unless_timeout (codes "Failure reading network stream.") s) (λ s1. done (false, s1))
      (unless_timeout-Answers (codes "Failure reading network stream.") s) (λ s1 e. inr e)
upload_answer-Answers t h local_name name too_large s = inl refl
upload_answer-Answers t h local_name name transferred_all s =
    upload_arrived-Answers h local_name name s

upload_transfer-Answers :
    (t : CommandTunables) (h : Host) (local_name name : Bytes) (have_recv_len : ℕ) (s : Client)
    → Answers (upload_transfer t h local_name name have_recv_len s)
unfolding upload_transfer
upload_transfer-Answers t h local_name name have_recv_len s =
    Replies-also TimedOut
      (receive_file (t.tunable_ascii_upload_enable && s.is_ascii) have_recv_len ∷ [])
      (vsf_ftpdataio_dispose_transfer_fd h (interrupted h (pasv_cleanup s)) >>> (λ d.
        upload_answer t h local_name name (after_dispose h.transfer d.0)
          (record d.1 { transfer_size = h.transferred })
        >>> (λ r. check_abor r.1 >>> (λ s1. upload_out t local_name true (r.0, s1)))))
      (followed TimedOut (vsf_ftpdataio_dispose_transfer_fd h (interrupted h (pasv_cleanup s))) _
        (λ d.
          Replies-bind (λ r. TimedOut r.1) TimedOut
            (upload_answer t h local_name name (after_dispose h.transfer d.0)
              (record d.1 { transfer_size = h.transferred }))
            _
            (upload_answer-Answers t h local_name name (after_dispose h.transfer d.0)
              (record d.1 { transfer_size = h.transferred }))
            (λ r e.
              Replies-bind TimedOut TimedOut (check_abor r.1) _ (check_abor-Answers r.1 e)
                (λ s1 f. upload_out-Answers t local_name true (r.0, s1) f))))

upload_connect-Answers :
    (t : CommandTunables) (h : Host) (local_name name : Bytes) (have_recv_len : ℕ) (s : Client)
    → Answers (upload_connect t h local_name name have_recv_len s)
unfolding upload_connect
upload_connect-Answers t h local_name name have_recv_len s =
    stopped-Answers (get_remote_transfer_fd t h s (codes "Ok to send data."))
      (λ s1. upload_out t local_name false (false, s1))
      (upload_transfer t h local_name name have_recv_len)
      (remote_fd-Tells t h s (codes "Ok to send data."))
      (λ s1 e. upload_out-Answers t local_name false (false, s1) e)
      (upload_transfer-Answers t h local_name name have_recv_len)

upload_seek-Answers :
    (t : CommandTunables) (h : Host) (local_name name : Bytes) (offset : ℕ) (do_truncate : Bool)
    (file_len : ℕ) (s : Client)
    → Answers (upload_seek t h local_name name offset do_truncate file_len s)
unfolding upload_seek
upload_seek-Answers t h local_name name offset do_truncate file_len s =
    Replies-also TimedOut (if do_truncate then truncate_file ∷ seek_file 0 ∷ [] else [])
      (if offset == 0
        then upload_connect t h local_name name 0 s
        else if ltb file_len offset
        then also
            (write 451 (codes "Offset is out of bounds. Try again") ∷ cos_unlink local_name ∷ [])
            (upload_out t local_name false (false, s))
        else also (seek_file offset ∷ []) (upload_connect t h local_name name offset s))
      (if_elim Answers (offset == 0) _ _ (λ e. upload_connect-Answers t h local_name name 0 s)
        (λ e.
          if_elim Answers (ltb file_len offset) _ _
            (λ f.
              also-replied TimedOut
                (write 451 (codes "Offset is out of bounds. Try again")
                  ∷ cos_unlink local_name
                  ∷ [])
                (upload_out t local_name false (false, s)) refl)
            (λ f.
              Replies-also TimedOut (seek_file offset ∷ [])
                (upload_connect t h local_name name offset s)
                (upload_connect-Answers t h local_name name offset s))))

upload_created-Answers :
    (t : CommandTunables) (h : Host) (local_name name : Bytes) (offset : ℕ) (do_truncate : Bool)
    (s : Client) (o : Option ℕ)
    → Answers (upload_created t h local_name name offset do_truncate s o)
unfolding upload_created
upload_created-Answers t h local_name name offset do_truncate s none = inl refl
upload_created-Answers t h local_name name offset do_truncate s (some file_len) =
    Replies-also TimedOut
      (if s.is_anonymous && t.tunable_chown_uploads then chown_upload ∷ [] else [])
      (if t.tunable_lock_upload_files && not h.locks
        then also (write 450 (codes "File is locked, Try later.") ∷ [])
            (upload_out t local_name false (true, s))
        else upload_seek t h local_name name offset do_truncate file_len s)
      (if_elim Answers (t.tunable_lock_upload_files && not h.locks) _ _
        (λ e.
          also-replied TimedOut (write 450 (codes "File is locked, Try later.") ∷ [])
            (upload_out t local_name false (true, s)) refl)
        (λ e. upload_seek-Answers t h local_name name offset do_truncate file_len s))

upload_named-Answers :
    (t : CommandTunables) (h : Host) (offset : ℕ) (s : Client) (name : Bytes)
    → Answers (upload_named t h offset s name)
unfolding upload_named
upload_named-Answers t h offset s name =
    let local_name = prepend_session_path_to_filename s name in
    followed TimedOut (vsf_log_start_entry log_upload s) _ (λ s1.
      let s2 = record s1 { log_str = local_name } in
      quiet-followed TimedOut (session_check t s2 local_name) _ (λ allowed.
        if_elim Answers (not allowed) _ _ (λ e. inl refl)
          (λ e.
            if_elim Answers (is_exclusive t s2) _ _
              (λ f.
                Replies-also TimedOut (str_create_exclusive local_name ∷ [])
                  (upload_created t h local_name name offset false s2 h.created)
                  (upload_created-Answers t h local_name name offset false s2 h.created))
              (λ f.
                Replies-also TimedOut (str_create local_name ∷ [])
                  (upload_created t h local_name name offset (offset == 0) s2 h.created)
                  (upload_created-Answers t h local_name name offset (offset == 0) s2 h.created)))))

pub handle_upload_common-Answers :
    (t : CommandTunables) (h : Host) (s : Client) (arg : Bytes)
    → Answers (handle_upload_common t h s arg)
unfolding handle_upload_common
handle_upload_common-Answers t h s arg =
    let offset = s.restart_pos in
    stopped-Answers (data_transfer_checks_ok t (record s { restart_pos = 0 })) done
      (λ s1. quiet (resolve_tilde t h s1 arg) >>> upload_named t h offset s1)
      (checks-Tells t (record s { restart_pos = 0 })) (λ s1 e. inr e)
      (λ s1.
        quiet-followed TimedOut (resolve_tilde t h s1 arg) (upload_named t h offset s1)
          (upload_named-Answers t h offset s1))
