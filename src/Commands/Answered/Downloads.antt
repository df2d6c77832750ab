-- ===== src/Commands/Answered/Downloads.antt =====
-- The replies of downloads and listings.
use cos_ftp_v.Base.{
  ℕ, ◌≡◌, refl, ◌⊎◌, inl, inr, Bool, true, false, not, ◌&&◌, Option, none, some, [], ◌∷◌, ◌++◌,
  Bytes, codes, ◌==◌, if◌then◌else◌, Bool-cases, if_elim,
}
use cos_ftp_v.Commands.{
  Client, CommandTunables, Host, Transfer, transferred_all, local_failed, network_failed, too_large,
  send_file, send_dir, said, write, Run, ◌>>>◌, quiet, done, answer, vsf_log_start_entry,
  log_download,
}
use cos_ftp_v.Session.{reply_hyphen}
use cos_ftp_v.Commands.Paths.{prepend_session_path_to_filename, session_check, resolve_tilde}
use cos_ftp_v.Commands.Data.{port_cleanup, pasv_cleanup}
use cos_ftp_v.Commands.Files.{not_permitted}
use cos_ftp_v.Commands.Transfers.{
  data_transfer_checks_ok, vsf_ftpdataio_dispose_transfer_fd, get_remote_transfer_fd, check_abor,
  interrupted,
}
use cos_ftp_v.Commands.Downloads.{
  after_dispose, cleaned, unless_timeout, retr_reply, log_success, retr_transfer, mark_str,
  retr_file, retr_named, handle_retr, dir_options, dir_target, dir_transfer, dir_listing,
  dir_common, handle_dir_common,
}
use cos_ftp_v.Commands.Answered.{
  TimedOut, Answers, Tells, also-replied, Replies-also, Replies-bind, followed, quiet-followed,
}
use cos_ftp_v.Commands.Answered.Transfers.{checks-Tells, remote_fd-Tells, check_abor-Answers}

pub unless_timeout-Answers : (text : Bytes) (s : Client) → Answers (unless_timeout text s)
unfolding unless_timeout
unless_timeout-Answers text s = elim (Bool-cases s.data_timeout) [
  | inl e ↦ rw e (inr refl)
  | inr e ↦ rw e (inl refl)
]

cleaned-Answers : (s : Client) → TimedOut s → Answers (cleaned s)
unfolding port_cleanup pasv_cleanup
cleaned-Answers s e = inr e

-- What follows the reply keeps it, or ends a session that has timed out.
closing-Answers :
    (run : Run Client) → Answers run → Answers (run >>> (λ s. check_abor s >>> cleaned))
closing-Answers run k = Replies-bind TimedOut TimedOut run _ k (λ s l.
    Replies-bind TimedOut TimedOut (check_abor s) cleaned (check_abor-Answers s l) cleaned-Answers)

retr_reply-Answers : (r : Transfer) (s : Client) → Answers (retr_reply r s)
unfolding retr_reply
retr_reply-Answers local_failed s = inl refl
retr_reply-Answers network_failed s =
    unless_timeout-Answers (codes "Failure writing network stream.") s
retr_reply-Answers transferred_all s = inl refl
retr_reply-Answers too_large s = inl refl

retr_transfer-Answers :
    (h : Host) (is_ascii : Bool) (offset size : ℕ) (s : Client)
    → Answers (retr_transfer h is_ascii offset size s)
unfolding retr_transfer
retr_transfer-Answers h is_ascii offset size s =
    Replies-also TimedOut (send_file is_ascii offset size ∷ [])
      (vsf_ftpdataio_dispose_transfer_fd h (interrupted h s) >>> (λ d.
        let r = after_dispose h.transfer d.0 in
        log_success r (record d.1 { transfer_size = h.transferred })
        >>> (λ s1. retr_reply r s1 >>> (λ s2. check_abor s2 >>> cleaned))))
      (followed TimedOut (vsf_ftpdataio_dispose_transfer_fd h (interrupted h s)) _ (λ d.
        let r = after_dispose h.transfer d.0 in
        followed TimedOut (log_success r (record d.1 { transfer_size = h.transferred })) _
          (λ s1. closing-Answers (retr_reply r s1) (retr_reply-Answers r s1))))

-- After a first part that tells why it stops.
pub stopped-Answers :
    (run : Run (Bool × Client)) (stop next : Client → Run Client)
    → Tells run
    → ((s : Client) → TimedOut s → Answers (stop s))
    → ((s : Client) → Answers (next s))
    → Answers (run >>> (λ r. if not r.0 then stop r.1 else next r.1))
stopped-Answers run stop next k l m =
    Replies-bind (λ r. (r.0 ≡ true) ⊎ TimedOut r.1) TimedOut run _ k at_flag
  where
    at_flag :
        (r : Bool × Client)
        → (r.0 ≡ true) ⊎ TimedOut r.1
        → Answers (if not r.0 then stop r.1 else next r.1)
    at_flag (true, s) n = m s
    at_flag (false, s) (inl e) = absurd cc
    at_flag (false, s) (inr e) = l s e

retr_file-Answers :
    (t : CommandTunables) (h : Host) (name : Bytes) (offset : ℕ) (s : Client) (o : Option ℕ)
    → Answers (retr_file t h name offset s o)
unfolding retr_file
retr_file-Answers t h name offset s none = inl refl
retr_file-Answers t h name offset s (some size) =
    let is_ascii = t.tunable_ascii_download_enable && s.is_ascii in
    stopped-Answers (get_remote_transfer_fd t h s (mark_str is_ascii name size)) cleaned
      (retr_transfer h is_ascii offset size) (remote_fd-Tells t h s (mark_str is_ascii name size))
      cleaned-Answers (retr_transfer-Answers h is_ascii offset size)

retr_named-Answers :
    (t : CommandTunables) (h : Host) (offset : ℕ) (s : Client) (name : Bytes)
    → Answers (retr_named t h offset s name)
unfolding retr_named
retr_named-Answers t h offset s name =
    followed TimedOut (vsf_log_start_entry log_download s) _ (λ s1.
      let s2 = record s1 { log_str = prepend_session_path_to_filename s1 name } in
      quiet-followed TimedOut (session_check t s2 name) _ (λ allowed.
        if_elim Answers (not allowed) (not_permitted s2) (retr_file t h name offset s2 h.file_size)
          (λ e. inl refl) (λ e. retr_file-Answers t h name offset s2 h.file_size)))

pub handle_retr-Answers :
    (t : CommandTunables) (h : Host) (s : Client) (arg : Bytes) → Answers (handle_retr t h s arg)
unfolding handle_retr
handle_retr-Answers t h s arg =
    let offset = s.restart_pos in
    stopped-Answers (data_transfer_checks_ok t (record s { restart_pos = 0 })) done
      (λ s1.
        if s.is_ascii && not (offset == 0)
        then answer 550 (codes "No support for resume of ASCII transfer.") s1
        else quiet (resolve_tilde t h s1 arg) >>> retr_named t h offset s1)
      (checks-Tells t (record s { restart_pos = 0 })) (λ s1 e. inr e)
      (λ s1.
        if_elim Answers (s.is_ascii && not (offset == 0)) _ _ (λ e. inl refl)
          (λ e.
            quiet-followed TimedOut (resolve_tilde t h s1 arg) (retr_named t h offset s1)
              (retr_named-Answers t h offset s1)))

dir_transfer-Answers :
    (h : Host) (options : Bytes) (target : Bytes × Bytes) (full_details : Bool) (s : Client)
    → Answers (dir_transfer h options target full_details s)
unfolding dir_transfer
dir_transfer-Answers h options target full_details s =
    Replies-also TimedOut (send_dir false target.0 options target.1 full_details ∷ [])
      (vsf_ftpdataio_dispose_transfer_fd h (interrupted h s) >>> (λ d.
        (if not (h.dir_sent && d.0)
          then unless_timeout (codes "Failure writing network stream.") d.1
          else answer 226 (codes "Directory send OK.") d.1)
        >>> (λ s1. check_abor s1 >>> cleaned)))
      (followed TimedOut (vsf_ftpdataio_dispose_transfer_fd h (interrupted h s)) _ (λ d.
        closing-Answers _ (
          if_elim Answers (not (h.dir_sent && d.0))
            (unless_timeout (codes "Failure writing network stream.") d.1)
            (answer 226 (codes "Directory send OK.") d.1)
            (λ e. unless_timeout-Answers (codes "Failure writing network stream.") d.1)
            (λ e. inl refl))))

dir_listing-Answers :
    (t : CommandTunables) (h : Host) (s : Client) (full_details stat_cmd : Bool) (options : Bytes)
    (target : Bool × Bytes × Bytes)
    → Answers (dir_listing t h s full_details stat_cmd options target)
unfolding dir_listing
dir_listing-Answers t h s full_details stat_cmd options (allowed, dir, filter) =
    if_elim Answers (not allowed) _ _ (λ e. inl refl)
      (λ e.
        if_elim Answers stat_cmd _ _
          (λ f.
            also-replied TimedOut
              (said (reply_hyphen 213 (codes "Status follows:"))
                ∷ send_dir true dir (options ++ b'a' ∷ []) filter full_details
                ∷ write 213 (codes "End of status")
                ∷ [])
              (check_abor s) refl)
          (λ f.
            stopped-Answers
              (get_remote_transfer_fd t h s (codes "Here comes the directory listing.")) cleaned
              (dir_transfer h options (dir, filter) full_details)
              (remote_fd-Tells t h s (codes "Here comes the directory listing.")) cleaned-Answers
              (dir_transfer-Answers h options (dir, filter) full_details)))

dir_common-Answers :
    (t : CommandTunables) (h : Host) (arg : Bytes) (full_details stat_cmd : Bool) (s : Client)
    → Answers (dir_common t h arg full_details stat_cmd s)
unfolding dir_common
dir_common-Answers t h arg full_details stat_cmd s =
    quiet-followed TimedOut (dir_options arg) _ (λ o.
      quiet-followed TimedOut (dir_target t h s stat_cmd o.1) _
        (dir_listing-Answers t h s full_details stat_cmd o.0))

pub handle_dir_common-Answers :
    (t : CommandTunables) (h : Host) (s : Client) (arg : Bytes) (full_details stat_cmd : Bool)
    → Answers (handle_dir_common t h s arg full_details stat_cmd)
unfolding handle_dir_common
handle_dir_common-Answers t h s arg full_details stat_cmd =
    if_elim Answers stat_cmd _ _ (λ e. dir_common-Answers t h arg full_details stat_cmd s)
      (λ e.
        stopped-Answers (data_transfer_checks_ok t s) done
          (dir_common t h arg full_details stat_cmd) (checks-Tells t s) (λ s1 e. inr e)
          (dir_common-Answers t h arg full_details stat_cmd))
