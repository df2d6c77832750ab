-- ===== src/Process/Broker.antt =====
-- src/postprivparent.c: the requests that the parent serves after a login.
pub mod Balanced
use cos_ftp_v.Base.{
  ℕ, zero, suc, ◌+◌, ◌-◌, ◌*◌, ◌/◌, ◌%◌, ◌^◌, ◌≤◌, ◌<◌, min, max, ◌≡◌, refl, sym, ap, ◌∙◌, subst,
  ◌≢◌, ◌↔◌, ◌⊎◌, inl, inr, Bool, true, false, not, ◌&&◌, ◌||◌, Option, none, some, List, [], ◌∷◌,
  ◌++◌, map, append-nil, append_assoc, arith, Bytes, codes, uint_mod, ltb, leb, ◌==◌, if◌then◌else◌,
  ltb→lt, lt→ltb, le→ltb, lt→leb, leb→le, le→leb, ==_iff, ==_refl, Bool-cases, Option-cases,
  if_elim, tests, length, get_elem?, set, take, drop, replicate, length-append, length-take,
  length-drop, length-replicate, length-set, take-append-drop, take-length_append,
  drop-length_append, take-length, take-all, drop_split, drop_add, any_of, All, All-append,
  All-left, All-right, all_of, Outcome, ok, bug, die, exit, fault, ◌>>=◌, >>=-eq-ok, Ends, Returns,
  Ends-bind, Ends-mono, Returns-ok,
}
use cos_ftp_v.Process.Privsock.{
  Sock, priv_sock_send_cmd, priv_sock_send_result, priv_sock_send_int, priv_sock_send_fd,
  priv_sock_get_result, priv_sock_get_cmd, priv_sock_get_int, priv_sock_recv_fd,
}
use cos_ftp_v.Process.Pasv.{
  Broker, PortTunables, Errno, close_fd, open_fd, PasvRound, AcceptResult, accepted_fd,
  not_accepted, wrong_peer, vsf_privop_get_ftp_port_sock, vsf_privop_pasv_cleanup,
  vsf_privop_pasv_active, vsf_privop_pasv_listen, vsf_privop_accept_pasv, vsf_privop_do_file_chown,
}

-- What the system gives while one request is served.
pub record World : Type 0 where
  pub sock : ℕ
  pub bind : ℕ → ℕ → Errno
  pub connects : Bool
  pub rounds : ℕ → PasvRound
  pub accept : Option (ℕ × Bool)
  pub uid : ℕ
  pub regfile : Bool

module _ (t : PortTunables) (w : World) where
  cmd_process_chown : Sock → Broker → Outcome (Sock × Broker)
  cmd_process_chown k b = priv_sock_recv_fd k >>= (λ r.
      vsf_privop_do_file_chown r.0 w.uid w.regfile (open_fd r.0 b)
      >>= (λ b1. priv_sock_send_result 1 r.1 >>= (λ k1. ok (k1, close_fd r.0 b1))))

  -- `the_fd` is sent on and then closed.
  hand_over : ℕ → Sock → Broker → Outcome (Sock × Broker)
  hand_over the_fd k b =
      priv_sock_send_result 1 k
      >>= (λ k1. priv_sock_send_fd the_fd k1 >>= (λ k2. ok (k2, close_fd the_fd b)))

  sock_answer : Sock → Option ℕ × Broker → Outcome (Sock × Broker)
  unfolding hand_over
  sock_answer k (none, b) = priv_sock_send_result 2 k >>= (λ k1. ok (k1, b))
  sock_answer k (some sock_fd, b) = hand_over sock_fd k b

  cmd_process_get_data_sock : Sock → Broker → Outcome (Sock × Broker)
  unfolding sock_answer
  cmd_process_get_data_sock k b = priv_sock_get_int k >>= (λ r.
      vsf_privop_get_ftp_port_sock t w.sock w.bind w.connects b (r.0 % 65536)
      >>= (λ s. sock_answer r.1 s))

  cmd_process_pasv_cleanup : Sock → Broker → Outcome (Sock × Broker)
  cmd_process_pasv_cleanup k b =
      priv_sock_send_result 1 k >>= (λ k1. ok (k1, vsf_privop_pasv_cleanup b))

  cmd_process_pasv_active : Sock → Broker → Outcome (Sock × Broker)
  cmd_process_pasv_active k b =
      priv_sock_send_int (vsf_privop_pasv_active b) k >>= (λ k1. ok (k1, b))

  cmd_process_pasv_listen : Sock → Broker → Outcome (Sock × Broker)
  cmd_process_pasv_listen k b =
      vsf_privop_pasv_listen t w.rounds b
      >>= (λ p. priv_sock_send_int p.0 k >>= (λ k1. ok (k1, p.1)))

  -- -1 and -2 as bits of `unsigned int`.
  refuse : ℕ → Sock → Broker → Outcome (Sock × Broker)
  refuse n k b =
      priv_sock_send_result 2 k
      >>= (λ k1. priv_sock_send_int (uint_mod - n) k1 >>= (λ k2. ok (k2, b)))

  accept_answer : Sock → AcceptResult × Broker → Outcome (Sock × Broker)
  unfolding refuse hand_over
  accept_answer k (not_accepted, b) = refuse 1 k b
  accept_answer k (wrong_peer, b) = refuse 2 k b
  accept_answer k (accepted_fd fd, b) = hand_over fd k b

  cmd_process_pasv_accept : Sock → Broker → Outcome (Sock × Broker)
  unfolding accept_answer
  cmd_process_pasv_accept k b = vsf_privop_accept_pasv t w.accept b >>= (λ r. accept_answer k r)

  -- PRIV_SOCK_CHOWN is 2, PRIV_SOCK_GET_DATA_SOCK 3, and the four of PASV are 10 to 13.
  dispatch : ℕ → Sock → Broker → Outcome (Sock × Broker)
  unfolding cmd_process_chown cmd_process_get_data_sock cmd_process_pasv_cleanup
      cmd_process_pasv_active cmd_process_pasv_listen cmd_process_pasv_accept
  dispatch cmd k b =
      if t.tunable_chown_uploads && cmd == 2
      then cmd_process_chown k b
      else if cmd == 3
      then cmd_process_get_data_sock k b
      else if cmd == 10
      then cmd_process_pasv_cleanup k b
      else if cmd == 11
      then cmd_process_pasv_active k b
      else if cmd == 12
      then cmd_process_pasv_listen k b
      else if cmd == 13
      then cmd_process_pasv_accept k b
      else die

  unfoldable pub process_post_login_req : Sock → Broker → Outcome (Sock × Broker)
  unfolding dispatch
  process_post_login_req k b = priv_sock_get_cmd k >>= (λ c. dispatch c.0 c.1 b)

-- The loop of `vsf_priv_parent_postlogin`, as far as these requests take it.
unfoldable pub vsf_priv_parent_postlogin :
    PortTunables → List World → Sock → Broker → Outcome (Sock × Broker)
unfolding process_post_login_req
vsf_priv_parent_postlogin t [] k b = ok (k, b)
vsf_priv_parent_postlogin t (w ∷ worlds) k b =
    process_post_login_req t w k b >>= (λ r. vsf_priv_parent_postlogin t worlds r.0 r.1)
