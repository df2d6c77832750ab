-- ===== src/Commands/Granted/Transfers.antt =====
-- The start and the end of a transfer keep a session in order.
use cos_ftp_v.Base.{
  ◌≡◌, refl, Bool, true, false, not, ◌&&◌, ◌||◌, Option, none, some, [], ◌∷◌, arith, Bytes,
  if◌then◌else◌, if_elim,
}
use cos_ftp_v.Commands.{
  SockAddr, Client, CommandTunables, Host, ListenFd, no_fd, bad_ip, got_fd, Run, write, accept_data,
  connect_to, secure_data,
}
use cos_ftp_v.Commands.Data.{has_port}
use cos_ftp_v.Commands.Data.Active.{pasv_active-eq, none_active-eq}
use cos_ftp_v.Commands.Transfers.{
  data_transfer_checks_ok, init_data_sock_params, pasv_fd_of, vsf_ftpdataio_get_pasv_fd, port_fd_at,
  vsf_ftpdataio_get_port_fd, vsf_ftpdataio_post_mark_connect, vsf_ftpdataio_dispose_transfer_fd,
  with_fd, get_remote_transfer_fd, check_abor,
}
use cos_ftp_v.Commands.Runs.{Runs, Runs-also, Runs-bind}
use cos_ftp_v.Commands.Granted.{Granted, is_forced, Trusts, Kept, Idle}

-- Two questions in one.
pub if_not-fst :
    {A : Type 0} (P : A → Type 0) (b : Bool) (x y : A)
    → (b ≡ false → P x)
    → (b ≡ true → P y)
    → P (if not b then x else y)
if_not-fst P true x y h k = k refl
if_not-fst P false x y h k = h refl

module _ (t : CommandTunables) (s0 : Client) (stores : Bool) (B : Type 0) where
  -- PORT or PASV is active, and the connection is to be encrypted if it has to be.
  abbrev pub Ready : Client → Type 0
  Ready s =
      ((has_port s.port_sockaddr || s.pasv_listening) ≡ true)
      × ((s.data_use_ssl || not (is_forced t s0)) ≡ true)

  ready_ssl :
      (s : Client)
      → s.is_anonymous ≡ s0.is_anonymous
      → (t.tunable_ssl_enable
          && (not s.data_use_ssl
              && ((t.tunable_force_local_data_ssl && not s.is_anonymous)
                  || (t.tunable_force_anon_data_ssl && s.is_anonymous))))
        ≡ false
      → (s.data_use_ssl || not (is_forced t s0)) ≡ true
  ready_ssl s e = rw e (ground arith)

  not_none : (a b : Bool) → not (a || b) ≡ false → (a || b) ≡ true
  not_none a b h = ground arith

  -- The checks leave the session as it is, and where they pass it is ready.
  pub checks-Ready :
      (Q : Client → Type 0) (s : Client)
      → Q s
      → Kept t s0 s
      → Runs
          (Granted t s0 stores)
          B
          (λ r. Q r.1 × (r.0 ≡ true → Ready r.1))
          (data_transfer_checks_ok t s)
  unfolding data_transfer_checks_ok
  checks-Ready Q s q k = rw (none_active-eq s k.4) (
      if_elim (Runs (Granted t s0 stores) B (λ r. Q r.1 × (r.0 ≡ true → Ready r.1)))
        (not (has_port s.port_sockaddr || s.pasv_listening)) _ _
        (λ e. ((tt, tt), (q, λ impossible. absurd cc)))
        (λ active.
          if_elim (Runs (Granted t s0 stores) B (λ r. Q r.1 × (r.0 ≡ true → Ready r.1)))
            (t.tunable_ssl_enable
              && (not s.data_use_ssl
                  && ((t.tunable_force_local_data_ssl && not s.is_anonymous)
                      || (t.tunable_force_anon_data_ssl && s.is_anonymous))))
            _ _ (λ e. ((tt, tt), (q, λ impossible. absurd cc)))
            (λ fine. (
              tt,
              (
                q,
                λ yes. (
                  not_none (has_port s.port_sockaddr) s.pasv_listening active,
                  ready_ssl s k.0 fine,
                ),
              ),
            ))))

  -- There is a data connection just where the call says so.
  abbrev pub Opened : Bool × Client → Type 0
  Opened r = Kept t s0 r.1 × (r.1.data_open ≡ r.0)

  -- And it is encrypted if it has to be.
  abbrev Secured : Bool × Client → Type 0
  Secured r = Opened r × ((r.1.data_use_ssl || not (is_forced t s0)) ≡ true)

  abbrev Connects : Run (Bool × Client) → Type 0
  Connects run = Runs (Granted t s0 stores) B Secured run

  init-Connects :
      (s : Client)
      → Idle t s0 s
      → (s.data_use_ssl || not (is_forced t s0)) ≡ true
      → Connects (init_data_sock_params s)
  unfolding init_data_sock_params
  init-Connects s h ssl =
      if_elim Connects s.data_open _ _ (λ open_. absurd (clash open_))
        (λ e. (tt, ((h.0, refl), ssl)))
    where
      clash : s.data_open ≡ true → ⊥
      clash open_ = let e = h.1 in cc

  pasv_fd-Connects :
      (fd : ListenFd) (s : Client)
      → Idle t s0 s
      → (s.data_use_ssl || not (is_forced t s0)) ≡ true
      → Connects (pasv_fd_of fd s)
  unfolding pasv_fd_of
  pasv_fd-Connects no_fd s h ssl = ((tt, tt), (h, ssl))
  pasv_fd-Connects bad_ip s h ssl = ((tt, tt), (h, ssl))
  pasv_fd-Connects got_fd s h ssl = init-Connects s h ssl

  port_fd-Connects :
      (h : Host) (s : Client) (o : Option SockAddr)
      → Idle t s0 s
      → (s.data_use_ssl || not (is_forced t s0)) ≡ true
      → Trusts t s0 o
      → has_port o ≡ true
      → Connects (port_fd_at h s o)
  unfolding port_fd_at
  port_fd-Connects h s none k ssl trusted set_ = absurd cc
  port_fd-Connects h s (some a) k ssl trusted set_ =
      Runs-also (Granted t s0 stores) B Secured (connect_to a ∷ []) _ (trusted, tt)
        (if_elim Connects (not h.port_connects) _ _ (λ e. ((tt, tt), (k, ssl)))
          (λ e. init-Connects s k ssl))

  plain : (b : Bool) → (b || not (is_forced t s0)) ≡ true → b ≡ false → not (is_forced t s0) ≡ true
  plain true h e = absurd cc
  plain false h e = h

  -- A session with a data connection.
  abbrev pub Open : Client → Type 0
  Open s = Kept t s0 s × (s.data_open ≡ true)

  mark_connect-Open :
      (h : Host) (s : Client)
      → Open s
      → (s.data_use_ssl || not (is_forced t s0)) ≡ true
      → Runs (Granted t s0 stores) B (λ q. Open q.1) (vsf_ftpdataio_post_mark_connect t h s)
  unfolding vsf_ftpdataio_post_mark_connect
  mark_connect-Open h s k ssl =
      if_not-fst (Runs (Granted t s0 stores) B (λ q. Open q.1)) s.data_use_ssl _ _
        (λ e. ((plain s.data_use_ssl ssl e, tt), k))
        (λ e.
          Runs-also (Granted t s0 stores) B (λ q. Open q.1) (secure_data true ∷ []) _ (refl, tt)
            (if_elim (Runs (Granted t s0 stores) B (λ q. Open q.1)) h.handshake _ _ (λ e. (tt, k))
              (λ e.
                if_elim (Runs (Granted t s0 stores) B (λ q. Open q.1)) t.tunable_require_ssl_reuse _
                  _ (λ e. ((tt, tt), tt)) (λ e. ((tt, tt), k)))))

  -- The end of a data connection.
  pub dispose-Idle :
      (h : Host) (s : Client)
      → Open s
      → Runs (Granted t s0 stores) B (λ d. Idle t s0 d.1) (vsf_ftpdataio_dispose_transfer_fd h s)
  unfolding vsf_ftpdataio_dispose_transfer_fd
  dispose-Idle h s k =
      if_not-fst (Runs (Granted t s0 stores) B (λ d. Idle t s0 d.1)) s.data_open _ _
        (λ e. absurd (clash e)) (λ e. (tt, (k.0, refl)))
    where
      clash : s.data_open ≡ false → ⊥
      clash e = let o = k.1 in cc

  -- A connection that is made ready, or is closed again.
  with_fd-Opened :
      (h : Host) (status_msg : Bytes) (r : Bool × Client)
      → Secured r
      → Runs (Granted t s0 stores) B Opened (with_fd t h status_msg r)
  unfolding with_fd
  with_fd-Opened h status_msg (false, s) k = (tt, k.0)
  with_fd-Opened h status_msg (true, s) k =
      Runs-also (Granted t s0 stores) B Opened (write 150 status_msg ∷ []) _ (tt, tt)
        (Runs-bind (Granted t s0 stores) B (λ q. Open q.1) Opened
          (vsf_ftpdataio_post_mark_connect t h s) _ (mark_connect-Open h s k.0 k.1)
          (λ q c.
            if_not-fst (Runs (Granted t s0 stores) B Opened) q.0 _ _
              (λ e.
                Runs-bind (Granted t s0 stores) B (λ d. Idle t s0 d.1) Opened
                  (vsf_ftpdataio_dispose_transfer_fd h q.1) _ (dispose-Idle h q.1 c)
                  (λ d idle. (tt, idle)))
              (λ e. (tt, c))))

  only_port : (a b : Bool) → (a || b) ≡ true → b ≡ false → a ≡ true
  only_port a b h e = ground arith

  -- What `get_remote_transfer_fd` says of the connection is so.
  pub remote_fd-Opened :
      (h : Host) (s : Client) (status_msg : Bytes)
      → Idle t s0 s
      → Ready s
      → Runs (Granted t s0 stores) B Opened (get_remote_transfer_fd t h s status_msg)
  unfolding get_remote_transfer_fd vsf_ftpdataio_get_pasv_fd vsf_ftpdataio_get_port_fd
  remote_fd-Opened h s status_msg k ready =
      let s1 = record s { abor_received = false } in
      rw (none_active-eq s k.0.4) (
        if_not-fst (Runs (Granted t s0 stores) B Opened)
          (has_port s.port_sockaddr || s.pasv_listening) _ _ (λ e. absurd (clash e))
          (λ e. rw (pasv_active-eq s1 k.0.4) (
            Runs-bind (Granted t s0 stores) B Secured Opened _ (with_fd t h status_msg)
              (if_elim Connects s.pasv_listening _ _
                (λ on.
                  Runs-also (Granted t s0 stores) B Secured (accept_data ∷ []) _ (tt, tt)
                    (pasv_fd-Connects h.pasv_fd s1 k ready.1))
                (λ off.
                  port_fd-Connects h s1 s.port_sockaddr k ready.1 k.0.5
                    (only_port (has_port s.port_sockaddr) s.pasv_listening ready.0 off)))
              (with_fd-Opened h status_msg))))
    where
      clash : (has_port s.port_sockaddr || s.pasv_listening) ≡ false → ⊥
      clash e = let o = ready.0 in cc

  pub check_abor-Idle :
      (s : Client) → Idle t s0 s → Runs (Granted t s0 stores) B (Idle t s0) (check_abor s)
  unfolding check_abor
  check_abor-Idle s k =
      if_elim (Runs (Granted t s0 stores) B (Idle t s0)) s.abor_received _ _ (λ e. ((tt, tt), k))
        (λ e. (tt, k))
