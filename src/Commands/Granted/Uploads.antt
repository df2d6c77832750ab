-- ===== src/Commands/Granted/Uploads.antt =====
-- Uploads keep a session in order.
use cos_ftp_v.Base.{
  ℕ, ◌≡◌, refl, inr, Bool, true, false, not, ◌&&◌, Option, none, some, List, [], ◌∷◌, ◌++◌, Bytes,
  codes, ltb, ◌==◌, if◌then◌else◌, if_elim, All,
}
use cos_ftp_v.Access.{vsf_access_check_file}
use cos_ftp_v.Commands.{
  log_upload, SockAddr, Client, CommandTunables, Host, Transfer, transferred_all, local_failed,
  network_failed, too_large, Act, log_line, cos_unlink, cos_upload_file, str_create,
  str_create_exclusive, str_unlink, chown_upload, truncate_file, seek_file, receive_file, Run,
  ◌>>>◌, also, quiet, write, vsf_log_do_log,
}
use cos_ftp_v.Commands.Data.{has_port, port_cleanup, pasv_cleanup}
use cos_ftp_v.Commands.Paths.{prepend_session_path_to_filename, session_check}
use cos_ftp_v.Commands.Files.{not_permitted}
use cos_ftp_v.Commands.Transfers.{
  data_transfer_checks_ok, vsf_ftpdataio_dispose_transfer_fd, get_remote_transfer_fd, check_abor,
  interrupted,
}
use cos_ftp_v.Commands.Downloads.{after_dispose, unless_timeout}
use cos_ftp_v.Commands.Uploads.{
  upload_out, upload_arrived, upload_answer, upload_transfer, upload_connect, upload_seek,
  upload_created, is_exclusive, upload_named, handle_upload_common,
}
use cos_ftp_v.Commands.Runs.{Sound, Runs, Runs-also, Runs-bind}
use cos_ftp_v.Commands.Granted.{Granted, MayUpload, Idle, Between}
use cos_ftp_v.Commands.Granted.Ports.{cleaned-Idle}
use cos_ftp_v.Commands.Granted.Files.{
  Does, log_do_log-Does, log_start-next, checked-Does, resolved-Does,
}
use cos_ftp_v.Commands.Granted.Downloads.{unless_timeout-Does}
use cos_ftp_v.Commands.Granted.Transfers.{
  if_not-fst, Ready, checks-Ready, Opened, Open, dispose-Idle, remote_fd-Opened, check_abor-Idle,
}

module _ (t : CommandTunables) (s0 : Client) (stores : Bool) (B : Type 0) (may : MayUpload t s0)
    (is_stor : stores ≡ true) where
  port_cleaned : (s : Client) → Idle t s0 s → Idle t s0 (port_cleanup s)
  unfolding port_cleanup
  port_cleaned s k = ((k.0.0, k.0.1, k.0.2, k.0.3, refl, tt), k.1)

  both_cleaned : (s : Client) → Idle t s0 s → Idle t s0 (pasv_cleanup (port_cleanup s))
  unfolding port_cleanup pasv_cleanup
  both_cleaned s k = cleaned-Idle t s0 stores B s k

  -- Acts that only an upload has.
  when-Granted :
      (b : Bool) (did : List Act)
      → All (Granted t s0 stores) did
      → All (Granted t s0 stores) (if b then did else [])
  when-Granted true did h = h
  when-Granted false did h = tt

  upload_out-Does :
      (local_name : Bytes) (pasv_cleaned : Bool) (r : Bool × Client)
      → Idle t s0 r.1
      → Does t s0 stores B (upload_out t local_name pasv_cleaned r)
  unfolding upload_out
  upload_out-Does local_name pasv_cleaned (success, s) k = (
    when-Granted (t.tunable_delete_failed_uploads && not success) (str_unlink local_name ∷ [])
        (may, tt),
    if_elim (Idle t s0) pasv_cleaned (port_cleanup s) (pasv_cleanup (port_cleanup s))
        (λ e. port_cleaned s k) (λ e. both_cleaned s k),
  )

  -- A run with a flag beside the session.
  abbrev Flagged : Run (Bool × Client) → Type 0
  Flagged run = Runs (Granted t s0 stores) B (λ r. Idle t s0 r.1) run

  upload_arrived-Flagged :
      (h : Host) (local_name name : Bytes) (s : Client)
      → Idle t s0 s
      → Flagged (upload_arrived h local_name name s)
  unfolding upload_arrived
  upload_arrived-Flagged h local_name name s k =
      Runs-also (Granted t s0 stores) B (λ r. Idle t s0 r.1)
        (log_line (local_name ++ codes "  Receive success.") ∷ cos_upload_file local_name name ∷ [])
        _ (tt, (may, tt))
        (if_elim Flagged (not h.uploaded) _ _ (λ e. ((tt, tt), port_cleaned s k))
          (λ e.
            Runs-bind (Granted t s0 stores) B (Idle t s0) (λ r. Idle t s0 r.1)
              (vsf_log_do_log true (port_cleanup s)) _
              (log_do_log-Does t s0 stores B true (port_cleanup s) (port_cleaned s k))
              (λ s1 k1. ((tt, (may, tt)), k1))))

  upload_answer-Flagged :
      (h : Host) (local_name name : Bytes) (r : Transfer) (s : Client)
      → Idle t s0 s
      → Flagged (upload_answer t h local_name name r s)
  unfolding upload_answer
  upload_answer-Flagged h local_name name local_failed s k = ((tt, tt), k)
  upload_answer-Flagged h local_name name network_failed s k =
      Runs-bind (Granted t s0 stores) B (Idle t s0) (λ r. Idle t s0 r.1)
        (unless_timeout (codes "Failure reading network stream.") s) _
        (unless_timeout-Does t s0 stores B (codes "Failure reading network stream.") s k)
        (λ s1 k1. (tt, k1))
  upload_answer-Flagged h local_name name too_large s k = ((tt, (may, tt)), k)
  upload_answer-Flagged h local_name name transferred_all s k =
      upload_arrived-Flagged h local_name name s k

  pasv_cleaned-Open : (s : Client) → Open t s0 stores B s → Open t s0 stores B (pasv_cleanup s)
  unfolding pasv_cleanup
  pasv_cleaned-Open s k = ((k.0.0, k.0.1, k.0.2, k.0.3, off s.port_sockaddr, k.0.5), k.1)
    where
      off : (o : Option SockAddr) → (has_port o && false) ≡ false
      off none = refl
      off (some a) = refl

  upload_transfer-Does :
      (h : Host) (local_name name : Bytes) (len : ℕ) (s : Client)
      → Open t s0 stores B s
      → Does t s0 stores B (upload_transfer t h local_name name len s)
  unfolding upload_transfer
  upload_transfer-Does h local_name name len s k =
      let s1 = interrupted h (pasv_cleanup s) in
      Runs-also (Granted t s0 stores) B (Idle t s0)
        (receive_file (t.tunable_ascii_upload_enable && s.is_ascii) len ∷ []) _ (may, tt)
        (Runs-bind (Granted t s0 stores) B (λ d. Idle t s0 d.1) (Idle t s0)
          (vsf_ftpdataio_dispose_transfer_fd h s1) _
          (dispose-Idle t s0 stores B h s1 (pasv_cleaned-Open s k))
          (λ d k1.
            let r = after_dispose h.transfer d.0 in
            let s2 = record d.1 { transfer_size = h.transferred } in
            Runs-bind (Granted t s0 stores) B (λ r. Idle t s0 r.1) (Idle t s0)
              (upload_answer t h local_name name r s2) _
              (upload_answer-Flagged h local_name name r s2 k1)
              (λ q k2.
                Runs-bind (Granted t s0 stores) B (Idle t s0) (Idle t s0) (check_abor q.1) _
                  (check_abor-Idle t s0 stores B q.1 k2)
                  (λ s3 k3. upload_out-Does local_name true (q.0, s3) k3))))

  -- What follows the question for a connection.
  abbrev Goes : Bytes → (Client → Run Client) → Bool × Client → Run Client
  Goes local_name next (b, s) = if not b then upload_out t local_name false (false, s) else next s

  goes-Does :
      (local_name : Bytes) (next : Client → Run Client)
      → ((s : Client) → Open t s0 stores B s → Does t s0 stores B (next s))
      → (r : Bool × Client) → Opened t s0 stores B r
      → Does t s0 stores B (Goes local_name next r)
  goes-Does local_name next f (false, s) k = upload_out-Does local_name false (false, s) k
  goes-Does local_name next f (true, s) k = f s k

  upload_connect-Does :
      (h : Host) (local_name name : Bytes) (len : ℕ) (s : Client)
      → Idle t s0 s
      → Ready t s0 stores B s
      → Does t s0 stores B (upload_connect t h local_name name len s)
  unfolding upload_connect
  upload_connect-Does h local_name name len s k ready =
      Runs-bind (Granted t s0 stores) B (Opened t s0 stores B) (Idle t s0)
        (get_remote_transfer_fd t h s (codes "Ok to send data.")) _
        (remote_fd-Opened t s0 stores B h s (codes "Ok to send data.") k ready)
        (goes-Does local_name (upload_transfer t h local_name name len)
          (upload_transfer-Does h local_name name len))

  upload_seek-Does :
      (h : Host) (local_name name : Bytes) (offset : ℕ) (do_truncate : Bool) (len : ℕ) (s : Client)
      → Idle t s0 s
      → Ready t s0 stores B s
      → Does t s0 stores B (upload_seek t h local_name name offset do_truncate len s)
  unfolding upload_seek
  upload_seek-Does h local_name name offset do_truncate len s k ready =
      Runs-also (Granted t s0 stores) B (Idle t s0)
        (if do_truncate then truncate_file ∷ seek_file 0 ∷ [] else []) _
        (when-Granted do_truncate (truncate_file ∷ seek_file 0 ∷ []) (may, (may, tt)))
        (if_elim (Does t s0 stores B) (offset == 0) _ _
          (λ e. upload_connect-Does h local_name name 0 s k ready)
          (λ e.
            if_elim (Does t s0 stores B) (ltb len offset) _ _
              (λ e.
                Runs-also (Granted t s0 stores) B (Idle t s0)
                  (write 451 (codes "Offset is out of bounds. Try again")
                    ∷ cos_unlink local_name
                    ∷ [])
                  (upload_out t local_name false (false, s)) (tt, (inr (may, is_stor), tt))
                  (upload_out-Does local_name false (false, s) k))
              (λ e.
                Runs-also (Granted t s0 stores) B (Idle t s0) (seek_file offset ∷ []) _ (may, tt)
                  (upload_connect-Does h local_name name offset s k ready))))

  upload_created-Does :
      (h : Host) (local_name name : Bytes) (offset : ℕ) (do_truncate : Bool) (s : Client)
      (o : Option ℕ)
      → Idle t s0 s
      → Ready t s0 stores B s
      → Does t s0 stores B (upload_created t h local_name name offset do_truncate s o)
  unfolding upload_created
  upload_created-Does h local_name name offset do_truncate s none k ready = ((tt, tt), k)
  upload_created-Does h local_name name offset do_truncate s (some len) k ready =
      Runs-also (Granted t s0 stores) B (Idle t s0)
        (if s.is_anonymous && t.tunable_chown_uploads then chown_upload ∷ [] else []) _
        (when-Granted (s.is_anonymous && t.tunable_chown_uploads) (chown_upload ∷ []) (may, tt))
        (if_elim (Does t s0 stores B) (t.tunable_lock_upload_files && not h.locks) _ _
          (λ e.
            Runs-also (Granted t s0 stores) B (Idle t s0)
              (write 450 (codes "File is locked, Try later.") ∷ [])
              (upload_out t local_name false (true, s)) (tt, tt)
              (upload_out-Does local_name false (true, s) k))
          (λ e. upload_seek-Does h local_name name offset do_truncate len s k ready))

  module _
      (check : (name : Bytes)
        → Sound B (λ b. Unit) (vsf_access_check_file t.tunable_deny_file name)) where
    upload_named-Does :
        (h : Host) (offset : ℕ) (s : Client) (name : Bytes)
        → Between t s0 s
        → Ready t s0 stores B s
        → Does t s0 stores B (upload_named t h offset s name)
    unfolding upload_named
    upload_named-Does h offset s name k ready =
        let local_name = prepend_session_path_to_filename s name in
        let makes = (λ (s2 : Client).
          if is_exclusive t s2
          then also (str_create_exclusive local_name ∷ [])
              (upload_created t h local_name name offset false s2 h.created)
          else also (str_create local_name ∷ [])
              (upload_created t h local_name name offset (offset == 0) s2 h.created)) in
        log_start-next t s0 stores B log_upload s
          (λ s1.
            let s2 = record s1 { log_str = local_name } in
            quiet (session_check t s2 local_name)
            >>> (λ allowed. if not allowed then not_permitted s2 else makes s2))
          k.2
          (let s2 = record s {
            log_type = some log_upload;
            transfer_size = 0;
            log_str = local_name;
          } in
            checked-Does t s0 stores B check s2 local_name (not_permitted s2) (makes s2)
              ((tt, tt), (k.0, k.1))
              (if_elim (Does t s0 stores B) (is_exclusive t s2) _ _
                (λ e.
                  Runs-also (Granted t s0 stores) B (Idle t s0)
                    (str_create_exclusive local_name ∷ []) _ (may, tt)
                    (upload_created-Does h local_name name offset false s2 h.created (k.0, k.1)
                      ready))
                (λ e.
                  Runs-also (Granted t s0 stores) B (Idle t s0) (str_create local_name ∷ []) _
                    (may, tt)
                    (upload_created-Does h local_name name offset (offset == 0) s2 h.created
                      (k.0, k.1) ready))))

    pub handle_upload_common-Does :
        (h : Host) (s : Client) (arg : Bytes)
        → Between t s0 s
        → Does t s0 stores B (handle_upload_common t h s arg)
    unfolding handle_upload_common
    handle_upload_common-Does h s arg k =
        let s1 = record s { restart_pos = 0 } in
        Runs-bind (Granted t s0 stores) B
          (λ r. Between t s0 r.1 × (r.0 ≡ true → Ready t s0 stores B r.1)) (Idle t s0)
          (data_transfer_checks_ok t s1) _ (checks-Ready t s0 stores B (Between t s0) s1 k k.0)
          (λ r k1.
            if_not-fst (Does t s0 stores B) r.0 _ _ (λ e. (tt, (k1.0.0, k1.0.1)))
              (λ e.
                resolved-Does t s0 stores B check h r.1 arg (upload_named t h s.restart_pos r.1)
                  (λ name. upload_named-Does h s.restart_pos r.1 name k1.0 (k1.1 e))))
