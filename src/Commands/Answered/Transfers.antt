-- ===== src/Commands/Answered/Transfers.antt =====
-- The replies at the start and the end of a transfer.
use cos_ftp_v.Base.{
  ◌≡◌, refl, ◌⊎◌, inl, inr, Bool, true, false, not, ◌&&◌, ◌||◌, Option, none, some, [], ◌∷◌, Bytes,
  codes, if◌then◌else◌, if_elim, ok,
}
use cos_ftp_v.Commands.{
  SockAddr, Client, CommandTunables, Host, ListenFd, no_fd, bad_ip, got_fd, accept_data, connect_to,
  ◌>>>◌, done, write,
}
use cos_ftp_v.Commands.Data.{none_active, pasv_active}
use cos_ftp_v.Commands.Transfers.{
  data_transfer_checks_ok, init_data_sock_params, pasv_fd_of, vsf_ftpdataio_get_pasv_fd, port_fd_at,
  vsf_ftpdataio_get_port_fd, vsf_ftpdataio_post_mark_connect, vsf_ftpdataio_dispose_transfer_fd,
  with_fd, get_remote_transfer_fd, check_abor,
}
use cos_ftp_v.Commands.Answered.{
  TimedOut, Replies, Answers, Tells, also-replied, Replies-also, Replies-bind, quiet-followed,
}

pub checks-Tells : (t : CommandTunables) (s : Client) → Tells (data_transfer_checks_ok t s)
unfolding data_transfer_checks_ok
checks-Tells t s = quiet-followed _ (none_active s) _ (λ none_is.
    if_elim Tells none_is _ _ (λ e. inl refl)
      (λ e.
        if_elim Tells
          (t.tunable_ssl_enable
            && (not s.data_use_ssl
                && ((t.tunable_force_local_data_ssl && not s.is_anonymous)
                    || (t.tunable_force_anon_data_ssl && s.is_anonymous))))
          _ _ (λ e. inl refl) (λ e. inr (inl refl))))

init-Tells : (s : Client) → Tells (init_data_sock_params s)
unfolding init_data_sock_params
init-Tells s = if_elim Tells s.data_open _ _ (λ e. tt) (λ e. inr (inl refl))

pasv_fd-Tells : (fd : ListenFd) (s : Client) → Tells (pasv_fd_of fd s)
unfolding pasv_fd_of
pasv_fd-Tells no_fd s = inl refl
pasv_fd-Tells bad_ip s = inl refl
pasv_fd-Tells got_fd s = init-Tells s

port_fd-Tells : (h : Host) (s : Client) (o : Option SockAddr) → Tells (port_fd_at h s o)
unfolding port_fd_at
port_fd-Tells h s none = tt
port_fd-Tells h s (some a) =
    Replies-also (λ r. (r.0 ≡ true) ⊎ TimedOut r.1) (connect_to a ∷ [])
      (if not h.port_connects
        then (write 425 (codes "Failed to establish connection.") ∷ [], ok (false, s))
        else init_data_sock_params s)
      (if_elim Tells (not h.port_connects) _ _ (λ e. inl refl) (λ e. init-Tells s))

with_fd-Tells :
    (t : CommandTunables) (h : Host) (status_msg : Bytes) (r : Bool × Client)
    → (r.0 ≡ true) ⊎ TimedOut r.1
    → Tells (with_fd t h status_msg r)
unfolding with_fd
with_fd-Tells t h status_msg (false, s) k = inr k
with_fd-Tells t h status_msg (true, s) k =
    also-replied (λ r. (r.0 ≡ true) ⊎ TimedOut r.1) (write 150 status_msg ∷ [])
      (vsf_ftpdataio_post_mark_connect t h s >>> (λ r.
        if not r.0
        then vsf_ftpdataio_dispose_transfer_fd h r.1 >>> (λ d. done (false, d.1))
        else done (true, r.1)))
      refl

-- Where there is no connection, a reply says so.
pub remote_fd-Tells :
    (t : CommandTunables) (h : Host) (s : Client) (status_msg : Bytes)
    → Tells (get_remote_transfer_fd t h s status_msg)
unfolding get_remote_transfer_fd vsf_ftpdataio_get_pasv_fd vsf_ftpdataio_get_port_fd
remote_fd-Tells t h s status_msg =
    let s1 = record s { abor_received = false } in
    quiet-followed _ (none_active s) _ (λ none_is.
      if_elim Tells none_is _ _ (λ e. tt)
        (λ e. quiet-followed _ (pasv_active s1) _ (λ pasv.
          Replies-bind (λ r. (r.0 ≡ true) ⊎ TimedOut r.1) (λ r. (r.0 ≡ true) ⊎ TimedOut r.1) _
            (with_fd t h status_msg)
            (if_elim Tells pasv _ _
              (λ e.
                Replies-also (λ r. (r.0 ≡ true) ⊎ TimedOut r.1) (accept_data ∷ [])
                  (pasv_fd_of h.pasv_fd s1) (pasv_fd-Tells h.pasv_fd s1))
              (λ e. port_fd-Tells h s1 s.port_sockaddr))
            (with_fd-Tells t h status_msg))))

-- A connection that ends leaves a session that has timed out so.
pub dispose-TimedOut :
    (h : Host) (s : Client)
    → Replies (λ d. s.data_timeout ≡ d.1.data_timeout) (vsf_ftpdataio_dispose_transfer_fd h s)
unfolding vsf_ftpdataio_dispose_transfer_fd
dispose-TimedOut h s =
    if_elim (Replies (λ d. s.data_timeout ≡ d.1.data_timeout)) (not s.data_open) _ _ (λ e. tt)
      (λ e. inr refl)

pub check_abor-Answers : (s : Client) → TimedOut s → Answers (check_abor s)
unfolding check_abor
check_abor-Answers s k = if_elim Answers s.abor_received _ _ (λ e. inl refl) (λ e. inr k)
