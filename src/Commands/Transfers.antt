-- ===== src/Commands/Transfers.antt =====
-- The start and the end of a transfer: src/postlogin.c and src/ftpdataio.c.
use cos_ftp_v.Base.{
  Bool, true, false, not, ◌&&◌, ◌||◌, Option, none, some, [], ◌∷◌, Bytes, codes, if◌then◌else◌, ok,
  bug, exit, fault,
}
use cos_ftp_v.Commands.{
  SockAddr, Client, CommandTunables, Host, ListenFd, no_fd, bad_ip, got_fd, accept_data, connect_to,
  secure_data, Run, also, ◌>>>◌, quiet, done, write, answer,
}
use cos_ftp_v.Commands.Data.{none_active, pasv_active}

-- Whether a transfer may start, and the session.
unfoldable pub data_transfer_checks_ok : CommandTunables → Client → Run (Bool × Client)
data_transfer_checks_ok t s = quiet (none_active s) >>> (λ none_is.
    if none_is
    then (write 425 (codes "Use PORT or PASV first.") ∷ [], ok (false, s))
    else if t.tunable_ssl_enable
        && (not s.data_use_ssl
            && ((t.tunable_force_local_data_ssl && not s.is_anonymous)
                || (t.tunable_force_anon_data_ssl && s.is_anonymous)))
    then (write 522 (codes "Data connections must be encrypted.") ∷ [], ok (false, s))
    else done (true, s))

unfoldable pub init_data_sock_params : Client → Run (Bool × Client)
init_data_sock_params s =
    if s.data_open then quiet bug else done (true, record s { data_open = true })

unfoldable pub pasv_fd_of : ListenFd → Client → Run (Bool × Client)
unfolding init_data_sock_params
pasv_fd_of no_fd s = (write 425 (codes "Failed to establish connection.") ∷ [], ok (false, s))
pasv_fd_of bad_ip s = (write 425 (codes "Security: Bad IP connecting.") ∷ [], ok (false, s))
pasv_fd_of got_fd s = init_data_sock_params s

unfoldable pub vsf_ftpdataio_get_pasv_fd : Host → Client → Run (Bool × Client)
unfolding pasv_fd_of
vsf_ftpdataio_get_pasv_fd h s = also (accept_data ∷ []) (pasv_fd_of h.pasv_fd s)

-- The parent or the child connects to the address of the PORT command.
unfoldable pub port_fd_at : Host → Client → Option SockAddr → Run (Bool × Client)
unfolding init_data_sock_params
port_fd_at h s none = quiet fault
port_fd_at h s (some a) = also (connect_to a ∷ []) (
    if not h.port_connects
    then (write 425 (codes "Failed to establish connection.") ∷ [], ok (false, s))
    else init_data_sock_params s)

unfoldable pub vsf_ftpdataio_get_port_fd : Host → Client → Run (Bool × Client)
unfolding port_fd_at
vsf_ftpdataio_get_port_fd h s = port_fd_at h s s.port_sockaddr

-- Whether the connection is ready.
unfoldable pub vsf_ftpdataio_post_mark_connect :
    CommandTunables → Host → Client → Run (Bool × Client)
vsf_ftpdataio_post_mark_connect t h s =
    if not s.data_use_ssl
    then (secure_data false ∷ [], ok (true, s))
    else also (secure_data true ∷ []) (
        if h.handshake
        then done (true, s)
        else if t.tunable_require_ssl_reuse
        then (write 522 (codes "SSL connection failed: session reuse required") ∷ [], exit 1)
        else (write 522 (codes "SSL connection failed") ∷ [], ok (false, s)))

-- Whether it returns 1, and the session.
unfoldable pub vsf_ftpdataio_dispose_transfer_fd : Host → Client → Run (Bool × Client)
vsf_ftpdataio_dispose_transfer_fd h s =
    if not s.data_open
    then quiet bug
    else done
        (h.closes && (not s.abor_received && not s.data_timeout), record s { data_open = false })

-- The part of `get_remote_transfer_fd` behind the descriptor.
unfoldable pub with_fd : CommandTunables → Host → Bytes → Bool × Client → Run (Bool × Client)
unfolding vsf_ftpdataio_post_mark_connect vsf_ftpdataio_dispose_transfer_fd
with_fd t h status_msg (false, s) = done (false, s)
with_fd t h status_msg (true, s) = also (write 150 status_msg ∷ []) (
    vsf_ftpdataio_post_mark_connect t h s >>> (λ r.
      if not r.0
      then vsf_ftpdataio_dispose_transfer_fd h r.1 >>> (λ d. done (false, d.1))
      else done (true, r.1)))

-- Whether there is a connection, and the session.
unfoldable pub get_remote_transfer_fd :
    CommandTunables → Host → Client → Bytes → Run (Bool × Client)
unfolding with_fd vsf_ftpdataio_get_pasv_fd vsf_ftpdataio_get_port_fd
get_remote_transfer_fd t h s status_msg = quiet (none_active s) >>> (λ none_is.
    let s1 = record s { abor_received = false } in
    if none_is
    then quiet bug
    else quiet (pasv_active s1) >>> (λ pasv.
      (if pasv then vsf_ftpdataio_get_pasv_fd h s1 else vsf_ftpdataio_get_port_fd h s1)
      >>> with_fd t h status_msg))

unfoldable pub check_abor : Client → Run Client
check_abor s =
    if s.abor_received
    then answer 226 (codes "ABOR successful.") (record s { abor_received = false })
    else done s

-- What arrives while a transfer runs: the alarm, and an ABOR, of `handle_sigurg`.
abbrev pub interrupted : Host → Client → Client
interrupted h s = record s {
  data_timeout = s.data_timeout || h.times_out;
  abor_received = s.abor_received || h.aborts;
}
