-- ===== src/Commands/Granted/Downloads.antt =====
-- Downloads and listings keep a session in order.
use cos_ftp_v.Base.{
  ℕ, ◌≡◌, Bool, true, false, not, ◌&&◌, Option, none, some, [], ◌∷◌, ◌++◌, arith, Bytes, codes,
  ◌==◌, if◌then◌else◌, le→ltb, if_elim, length, Ends-mono,
}
use cos_ftp_v.Access.{vsf_access_check_file}
use cos_ftp_v.Str.Edit.{is_empty}
use cos_ftp_v.Str.Locate.{c_str, str_locate_char}
use cos_ftp_v.Str.Split.{str_mid_to_end, str_split_char_reverse, str_split_text_reverse}
use cos_ftp_v.Str.Split.Parts.{AroundLast, str_split_text_reverse-AroundLast}
use cos_ftp_v.Commands.{
  log_download, Client, CommandTunables, Host, Transfer, transferred_all, local_failed,
  network_failed, too_large, send_file, send_dir, said, write, Run, ◌>>>◌, quiet,
}
use cos_ftp_v.Session.{reply_hyphen}
use cos_ftp_v.Commands.Files.{not_permitted}
use cos_ftp_v.Commands.Data.{port_cleanup, pasv_cleanup}
use cos_ftp_v.Commands.Paths.{prepend_session_path_to_filename, resolve_tilde, session_check}
use cos_ftp_v.Commands.Transfers.{
  data_transfer_checks_ok, vsf_ftpdataio_dispose_transfer_fd, get_remote_transfer_fd, check_abor,
  interrupted,
}
use cos_ftp_v.Commands.Downloads.{
  after_dispose, cleaned, unless_timeout, retr_reply, log_success, retr_transfer, mark_str,
  retr_file, retr_named, handle_retr, dir_options, split_dir, dir_target, dir_transfer, dir_listing,
  dir_common, handle_dir_common,
}
use cos_ftp_v.Commands.Runs.{Sound, Sound-bind, Returns→Sound, Runs-also, Runs-bind, quietly}
use cos_ftp_v.Commands.Granted.{Granted, Idle, Between}
use cos_ftp_v.Commands.Granted.Names.{split-Sound, resolve_tilde-Sound, session_check-Sound}
use cos_ftp_v.Commands.Granted.Ports.{cleaned-Idle}
use cos_ftp_v.Commands.Granted.Files.{
  Does, log_do_log-Does, log_start-next, checked-Does, resolved-Does,
}
use cos_ftp_v.Commands.Granted.Transfers.{
  if_not-fst, Ready, checks-Ready, Opened, Open, dispose-Idle, remote_fd-Opened, check_abor-Idle,
}

module _ (t : CommandTunables) (s0 : Client) (stores : Bool) (B : Type 0) where
  cleaned-Does : (s : Client) → Idle t s0 s → Does t s0 stores B (cleaned s)
  unfolding port_cleanup pasv_cleanup
  cleaned-Does s k = (tt, cleaned-Idle t s0 stores B s k)

  pub unless_timeout-Does :
      (text : Bytes) (s : Client) → Idle t s0 s → Does t s0 stores B (unless_timeout text s)
  unfolding unless_timeout
  unless_timeout-Does text s k =
      if_elim (Does t s0 stores B) (not s.data_timeout) _ _ (λ e. ((tt, tt), k)) (λ e. (tt, k))

  retr_reply-Does : (r : Transfer) (s : Client) → Idle t s0 s → Does t s0 stores B (retr_reply r s)
  unfolding retr_reply
  retr_reply-Does transferred_all s k = ((tt, tt), k)
  retr_reply-Does local_failed s k = ((tt, tt), k)
  retr_reply-Does network_failed s k =
      unless_timeout-Does (codes "Failure writing network stream.") s k
  retr_reply-Does too_large s k = ((tt, tt), k)

  log_success-Does :
      (r : Transfer) (s : Client) → Idle t s0 s → Does t s0 stores B (log_success r s)
  unfolding log_success
  log_success-Does transferred_all s k = log_do_log-Does t s0 stores B true s k
  log_success-Does local_failed s k = (tt, k)
  log_success-Does network_failed s k = (tt, k)
  log_success-Does too_large s k = (tt, k)

  -- The end of every transfer.
  abor_cleaned : (s : Client) → Idle t s0 s → Does t s0 stores B (check_abor s >>> cleaned)
  abor_cleaned s k =
      Runs-bind (Granted t s0 stores) B (Idle t s0) (Idle t s0) (check_abor s) cleaned
        (check_abor-Idle t s0 stores B s k) cleaned-Does

  retr_transfer-Does :
      (h : Host) (ascii : Bool) (offset size : ℕ) (s : Client)
      → Open t s0 stores B s
      → Does t s0 stores B (retr_transfer h ascii offset size s)
  unfolding retr_transfer
  retr_transfer-Does h ascii offset size s k =
      Runs-also (Granted t s0 stores) B (Idle t s0) (send_file ascii offset size ∷ []) _ (tt, tt)
        (Runs-bind (Granted t s0 stores) B (λ d. Idle t s0 d.1) (Idle t s0)
          (vsf_ftpdataio_dispose_transfer_fd h (interrupted h s)) _
          (dispose-Idle t s0 stores B h (interrupted h s) k)
          (λ d k1.
            let r = after_dispose h.transfer d.0 in
            let s1 = record d.1 { transfer_size = h.transferred } in
            Runs-bind (Granted t s0 stores) B (Idle t s0) (Idle t s0) (log_success r s1) _
              (log_success-Does r s1 k1)
              (λ s2 k2.
                Runs-bind (Granted t s0 stores) B (Idle t s0) (Idle t s0) (retr_reply r s2) _
                  (retr_reply-Does r s2 k2) (λ s3 k3. abor_cleaned s3 k3))))

  -- What follows the question for a connection.
  abbrev Goes : (Client → Run Client) → Bool × Client → Run Client
  Goes next (b, s) = if not b then cleaned s else next s

  goes-Does :
      (next : Client → Run Client)
      → ((s : Client) → Open t s0 stores B s → Does t s0 stores B (next s))
      → (r : Bool × Client) → Opened t s0 stores B r
      → Does t s0 stores B (Goes next r)
  goes-Does next f (false, s) k = cleaned-Does s k
  goes-Does next f (true, s) k = f s k

  retr_file-Does :
      (h : Host) (name : Bytes) (offset : ℕ) (s : Client) (o : Option ℕ)
      → Idle t s0 s
      → Ready t s0 stores B s
      → Does t s0 stores B (retr_file t h name offset s o)
  unfolding retr_file
  retr_file-Does h name offset s none k ready = ((tt, tt), k)
  retr_file-Does h name offset s (some size) k ready =
      let ascii = t.tunable_ascii_download_enable && s.is_ascii in
      Runs-bind (Granted t s0 stores) B (Opened t s0 stores B) (Idle t s0)
        (get_remote_transfer_fd t h s (mark_str ascii name size)) _
        (remote_fd-Opened t s0 stores B h s (mark_str ascii name size) k ready)
        (goes-Does (retr_transfer h ascii offset size) (retr_transfer-Does h ascii offset size))

  dir_transfer-Does :
      (h : Host) (options : Bytes) (target : Bytes × Bytes) (full : Bool) (s : Client)
      → Open t s0 stores B s
      → Does t s0 stores B (dir_transfer h options target full s)
  unfolding dir_transfer
  dir_transfer-Does h options target full s k =
      Runs-also (Granted t s0 stores) B (Idle t s0)
        (send_dir false target.0 options target.1 full ∷ []) _ (tt, tt)
        (Runs-bind (Granted t s0 stores) B (λ d. Idle t s0 d.1) (Idle t s0)
          (vsf_ftpdataio_dispose_transfer_fd h (interrupted h s)) _
          (dispose-Idle t s0 stores B h (interrupted h s) k)
          (λ d k1.
            Runs-bind (Granted t s0 stores) B (Idle t s0) (Idle t s0) _ _
              (if_elim (Does t s0 stores B) (not (h.dir_sent && d.0)) _ _
                (λ e. unless_timeout-Does (codes "Failure writing network stream.") d.1 k1)
                (λ e. ((tt, tt), k1)))
              (λ s1 k2. abor_cleaned s1 k2)))

  -- The parts of an argument are sound.
  dir_options-Sound : (arg : Bytes) → Sound B (λ o. Unit) (dir_options arg)
  unfolding dir_options str_mid_to_end
  dir_options-Sound [] = tt
  dir_options-Sound (c ∷ arg) =
      if_elim (Sound B (λ o. Unit)) (c == b'-') _ _
        (λ e.
          rw (le→ltb (length (c ∷ arg)) 1 (omega arith)) (split-Sound B arg b' ' (λ e. absurd cc)))
        (λ e. tt)

  reverse-Sound : (s : Bytes) → Sound B (λ p. Unit) (str_split_char_reverse s b'/')
  unfolding str_split_char_reverse c_str
  reverse-Sound s =
      Returns→Sound B (λ p. Unit) (str_split_text_reverse s (b'/' ∷ []))
        (Ends-mono ⊥ ⊥ (AroundLast s (b'/' ∷ [])) (λ p. Unit) (str_split_text_reverse s (b'/' ∷ []))
          (λ i. i) (λ p k. tt) (str_split_text_reverse-AroundLast s (b'/' ∷ []) (λ e. absurd cc)))

  split_dir-Sound : (filter : Bytes) (o : Option ℕ) → Sound B (λ p. Unit) (split_dir filter o)
  unfolding split_dir
  split_dir-Sound filter none = tt
  split_dir-Sound filter (some i) =
      Sound-bind B (λ p. Unit) (λ p. Unit) (str_split_char_reverse filter b'/') _
        (reverse-Sound filter) (λ p u. tt)

  module _
      (check : (name : Bytes)
        → Sound B (λ b. Unit) (vsf_access_check_file t.tunable_deny_file name)) where
    retr_named-Does :
        (h : Host) (offset : ℕ) (s : Client) (name : Bytes)
        → Between t s0 s
        → Ready t s0 stores B s
        → Does t s0 stores B (retr_named t h offset s name)
    unfolding retr_named
    retr_named-Does h offset s name k ready =
        log_start-next t s0 stores B log_download s
          (λ s1.
            let s2 = record s1 { log_str = prepend_session_path_to_filename s1 name } in
            quiet (session_check t s2 name) >>> (λ allowed.
              if not allowed then not_permitted s2 else retr_file t h name offset s2 h.file_size))
          k.2
          (let s0' = record s { log_type = some log_download; transfer_size = 0; log_str = [] } in
            let s1 = record s0' { log_str = prepend_session_path_to_filename s0' name } in
            checked-Does t s0 stores B check s1 name (not_permitted s1)
              (retr_file t h name offset s1 h.file_size) ((tt, tt), (k.0, k.1))
              (retr_file-Does h name offset s1 h.file_size (k.0, k.1) ready))

    pub handle_retr-Does :
        (h : Host) (s : Client) (arg : Bytes)
        → Between t s0 s
        → Does t s0 stores B (handle_retr t h s arg)
    unfolding handle_retr
    handle_retr-Does h s arg k =
        let s1 = record s { restart_pos = 0 } in
        Runs-bind (Granted t s0 stores) B
          (λ r. Between t s0 r.1 × (r.0 ≡ true → Ready t s0 stores B r.1)) (Idle t s0)
          (data_transfer_checks_ok t s1) _ (checks-Ready t s0 stores B (Between t s0) s1 k k.0)
          (λ r k1.
            if_not-fst (Does t s0 stores B) r.0 _ _ (λ e. (tt, (k1.0.0, k1.0.1)))
              (λ e.
                if_elim (Does t s0 stores B) (s.is_ascii && not (s.restart_pos == 0)) _ _
                  (λ e. ((tt, tt), (k1.0.0, k1.0.1)))
                  (λ f.
                    resolved-Does t s0 stores B check h r.1 arg (retr_named t h s.restart_pos r.1)
                      (λ name. retr_named-Does h s.restart_pos r.1 name k1.0 (k1.1 e)))))

    dir_target-Sound :
        (h : Host) (s : Client) (stat_cmd : Bool) (filter : Bytes)
        → Sound B (λ d. Unit) (dir_target t h s stat_cmd filter)
    unfolding dir_target
    dir_target-Sound h s stat_cmd filter =
        if_elim (Sound B (λ d. Unit)) (is_empty filter) _ _ (λ e. tt)
          (λ e.
            Sound-bind B (λ p. Unit) (λ d. Unit) (resolve_tilde t h s filter) _
              (resolve_tilde-Sound B t h s filter)
              (λ name u.
                Sound-bind B (λ b. Unit) (λ d. Unit) (session_check t s name) _
                  (session_check-Sound B t check s name)
                  (λ allowed u.
                    if_elim (Sound B (λ d. Unit)) (not allowed) _ _ (λ e. tt)
                      (λ e.
                        if_elim (Sound B (λ d. Unit)) (not stat_cmd && h.isdir) _ _ (λ e. tt)
                          (λ e.
                            Sound-bind B (λ p. Unit) (λ d. Unit)
                              (split_dir name (str_locate_char name b'/')) _
                              (split_dir-Sound name (str_locate_char name b'/')) (λ p u. tt))))))

    dir_listing-Does :
        (h : Host) (s : Client) (full stat_cmd : Bool) (options : Bytes)
        (target : Bool × Bytes × Bytes)
        → Idle t s0 s
        → (stat_cmd ≡ false → Ready t s0 stores B s)
        → Does t s0 stores B (dir_listing t h s full stat_cmd options target)
    unfolding dir_listing
    dir_listing-Does h s full stat_cmd options (allowed, dir, filter) k ready =
        if_elim (Does t s0 stores B) (not allowed) _ _ (λ e. ((tt, tt), k))
          (λ e.
            if_elim (Does t s0 stores B) stat_cmd _ _
              (λ e.
                Runs-also (Granted t s0 stores) B (Idle t s0)
                  (said (reply_hyphen 213 (codes "Status follows:"))
                    ∷ send_dir true dir (options ++ b'a' ∷ []) filter full
                    ∷ write 213 (codes "End of status")
                    ∷ [])
                  (check_abor s) (tt, (tt, (tt, tt))) (check_abor-Idle t s0 stores B s k))
              (λ on.
                Runs-bind (Granted t s0 stores) B (Opened t s0 stores B) (Idle t s0)
                  (get_remote_transfer_fd t h s (codes "Here comes the directory listing.")) _
                  (remote_fd-Opened t s0 stores B h s (codes "Here comes the directory listing.") k
                    (ready on))
                  (goes-Does (dir_transfer h options (dir, filter) full)
                    (dir_transfer-Does h options (dir, filter) full))))

    dir_common-Does :
        (h : Host) (arg : Bytes) (full stat_cmd : Bool) (s : Client)
        → Idle t s0 s
        → (stat_cmd ≡ false → Ready t s0 stores B s)
        → Does t s0 stores B (dir_common t h arg full stat_cmd s)
    unfolding dir_common
    dir_common-Does h arg full stat_cmd s k ready =
        quietly (Granted t s0 stores) B (λ o. Unit) (Idle t s0) (dir_options arg) _
          (dir_options-Sound arg)
          (λ o u.
            quietly (Granted t s0 stores) B (λ d. Unit) (Idle t s0) (dir_target t h s stat_cmd o.1)
              _ (dir_target-Sound h s stat_cmd o.1)
              (λ target u. dir_listing-Does h s full stat_cmd o.0 target k ready))

    pub handle_dir_common-Does :
        (h : Host) (s : Client) (arg : Bytes) (full stat_cmd : Bool)
        → Idle t s0 s
        → Does t s0 stores B (handle_dir_common t h s arg full stat_cmd)
    unfolding handle_dir_common
    handle_dir_common-Does h s arg full stat_cmd k =
        if_elim (Does t s0 stores B) stat_cmd _ _
          (λ e. dir_common-Does h arg full stat_cmd s k (λ off. absurd cc))
          (λ off.
            Runs-bind (Granted t s0 stores) B
              (λ r. Idle t s0 r.1 × (r.0 ≡ true → Ready t s0 stores B r.1)) (Idle t s0)
              (data_transfer_checks_ok t s) _ (checks-Ready t s0 stores B (Idle t s0) s k k.0)
              (λ r k1.
                if_not-fst (Does t s0 stores B) r.0 _ _ (λ e. (tt, k1.0))
                  (λ e. dir_common-Does h arg full stat_cmd r.1 k1.0 (λ off. k1.1 e))))
