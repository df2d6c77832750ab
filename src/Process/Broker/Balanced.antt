-- ===== src/Process/Broker/Balanced.antt =====
-- Which descriptors the parent keeps open.
use cos_ftp_v.Base.{
  ℕ, ◌-◌, ◌%◌, ◌≡◌, refl, sym, ap, ◌∙◌, Bool, Option, none, some, List, [], ◌∷◌, ◌++◌, arith,
  uint_mod, ==_refl, All, Outcome, ◌>>=◌, Ends, Ends-bind,
}
use cos_ftp_v.Process.Privsock.{
  Sock, opt_list, priv_sock_send_result, priv_sock_send_int, priv_sock_send_fd, priv_sock_get_cmd,
  priv_sock_get_int, priv_sock_recv_fd,
}
use cos_ftp_v.Process.Privsock.Alive.{
  Alive, send_result-Alive, send_int-Alive, send_fd-Alive, get_cmd-Alive, get_int-Alive,
  recv_fd-Alive,
}
use cos_ftp_v.Process.Pasv.{
  Broker, PortTunables, Errno, close_fd, open_fd, AcceptResult, accepted_fd, not_accepted,
  wrong_peer, vsf_privop_get_ftp_port_sock, vsf_privop_pasv_cleanup, vsf_privop_pasv_active,
  vsf_privop_pasv_listen, vsf_privop_accept_pasv, vsf_privop_do_file_chown,
}
use cos_ftp_v.Process.Pasv.Ports.{IsListening, AreBytes, pasv_listen-IsListening}
use cos_ftp_v.Process.Broker.{
  World, cmd_process_chown, hand_over, sock_answer, cmd_process_get_data_sock,
  cmd_process_pasv_cleanup, cmd_process_pasv_active, cmd_process_pasv_listen, refuse, accept_answer,
  cmd_process_pasv_accept, dispatch, process_post_login_req, vsf_priv_parent_postlogin,
}

-- Of the descriptors that the parent has opened, those in `extra` and the listening one are open.
abbrev Holds : List ℕ → Broker → Type 0
Holds extra b = b.opened ≡ extra ++ opt_list b.pasv_listen_fd

-- Of the descriptors that the parent has opened, the listening one alone is open, if there is one.
abbrev pub Balanced : Broker → Type 0
Balanced b = Holds [] b

-- What a handler ends with.
abbrev Keeps : Outcome (Sock × Broker) → Type 0
Keeps o = Ends Unit (λ r. Balanced r.1) o

after :
    {A : Type 0} (o : Outcome A) (next : A → Outcome (Sock × Broker))
    → Alive o
    → ((a : A) → Keeps (next a))
    → Keeps (o >>= next)
after o next h k = Ends-bind Unit (λ a. Unit) (λ r. Balanced r.1) o next h (λ a u. k a)

closed : (fd : ℕ) (b : Broker) → Holds (fd ∷ []) b → Balanced (close_fd fd b)
closed fd b h = rw h (rw (==_refl fd) refl)

chown_holds :
    (fd uid : ℕ) (regfile : Bool) (b : Broker)
    → Ends Unit
        (λ b1. (b1.opened ≡ b.opened) × (b1.pasv_listen_fd ≡ b.pasv_listen_fd))
        (vsf_privop_do_file_chown fd uid regfile b)
unfolding vsf_privop_do_file_chown
chown_holds fd uid regfile b = ground arith

-- What a request for a socket leaves open.
abbrev SockHolds : Option ℕ × Broker → Type 0
SockHolds (none, b) = Balanced b
SockHolds (some s, b) = Holds (s ∷ []) b

port_sock-SockHolds :
    (t : PortTunables) (s : ℕ) (bind : ℕ → ℕ → Errno) (connects : Bool) (b : Broker) (port : ℕ)
    → Balanced b
    → Ends Unit SockHolds (vsf_privop_get_ftp_port_sock t s bind connects b port)
unfolding vsf_privop_get_ftp_port_sock
port_sock-SockHolds t s bind connects b port h = ground (arith, h, ==_refl s)

-- And a request to accept.
abbrev AcceptHolds : AcceptResult × Broker → Type 0
AcceptHolds (not_accepted, b) = Balanced b
AcceptHolds (wrong_peer, b) = Balanced b
AcceptHolds (accepted_fd fd, b) = Holds (fd ∷ []) b

accept-AcceptHolds :
    (t : PortTunables) (accept : Option (ℕ × Bool)) (b : Broker)
    → Balanced b
    → Ends Unit AcceptHolds (vsf_privop_accept_pasv t accept b)
unfolding vsf_privop_accept_pasv
accept-AcceptHolds t accept b h = ground (arith, h)

cleanup-Balanced : (b : Broker) → Balanced b → Balanced (vsf_privop_pasv_cleanup b)
unfolding vsf_privop_pasv_cleanup
cleanup-Balanced b h = ground (arith, h)

module _ (t : PortTunables) (w : World) (random : (i : ℕ) → AreBytes (w.rounds i).random) where
  hand_over-Keeps :
      (fd : ℕ) (k : Sock) (b : Broker) → Holds (fd ∷ []) b → Keeps (hand_over t w fd k b)
  unfolding hand_over
  hand_over-Keeps fd k b h =
      after (priv_sock_send_result 1 k) _ (send_result-Alive 1 k)
        (λ k1. after (priv_sock_send_fd fd k1) _ (send_fd-Alive fd k1) (λ k2. closed fd b h))

  chown-Keeps : (k : Sock) (b : Broker) → Balanced b → Keeps (cmd_process_chown t w k b)
  unfolding cmd_process_chown
  chown-Keeps k b h = after (priv_sock_recv_fd k) _ (recv_fd-Alive k) (λ r.
      Ends-bind Unit (λ b1. (b1.opened ≡ r.0 ∷ b.opened) × (b1.pasv_listen_fd ≡ b.pasv_listen_fd))
        (λ r. Balanced r.1) (vsf_privop_do_file_chown r.0 w.uid w.regfile (open_fd r.0 b)) _
        (chown_holds r.0 w.uid w.regfile (open_fd r.0 b))
        (λ b1 same.
          after (priv_sock_send_result 1 r.1) _ (send_result-Alive 1 r.1)
            (λ k1. closed r.0 b1 (same.0 ∙ ap (λ l. r.0 ∷ l) (h ∙ ap opt_list (sym same.1))))))

  sock_answer-Keeps : (k : Sock) (s : Option ℕ × Broker) → SockHolds s → Keeps (sock_answer t w k s)
  unfolding sock_answer
  sock_answer-Keeps k (none, b) h =
      after (priv_sock_send_result 2 k) _ (send_result-Alive 2 k) (λ k1. h)
  sock_answer-Keeps k (some fd, b) h = hand_over-Keeps fd k b h

  get_data_sock-Keeps :
      (k : Sock) (b : Broker) → Balanced b → Keeps (cmd_process_get_data_sock t w k b)
  unfolding cmd_process_get_data_sock
  get_data_sock-Keeps k b h = after (priv_sock_get_int k) _ (get_int-Alive k) (λ r.
      Ends-bind Unit SockHolds (λ r. Balanced r.1)
        (vsf_privop_get_ftp_port_sock t w.sock w.bind w.connects b (r.0 % 65536)) _
        (port_sock-SockHolds t w.sock w.bind w.connects b (r.0 % 65536) h)
        (λ s. sock_answer-Keeps r.1 s))

  cleanup-Keeps : (k : Sock) (b : Broker) → Balanced b → Keeps (cmd_process_pasv_cleanup t w k b)
  unfolding cmd_process_pasv_cleanup
  cleanup-Keeps k b h =
      after (priv_sock_send_result 1 k) _ (send_result-Alive 1 k) (λ k1. cleanup-Balanced b h)

  active-Keeps : (k : Sock) (b : Broker) → Balanced b → Keeps (cmd_process_pasv_active t w k b)
  unfolding cmd_process_pasv_active
  active-Keeps k b h =
      after (priv_sock_send_int (vsf_privop_pasv_active b) k) _
        (send_int-Alive (vsf_privop_pasv_active b) k) (λ k1. h)

  listens :
      (b : Broker) (p : ℕ × Broker) → Balanced b → IsListening t w.rounds b p.0 p.1 → Balanced p.1
  listens b p h l = let (i, bound, listened, e) = l.bound in rw (e, h, l.was_idle) refl

  listen-Keeps : (k : Sock) (b : Broker) → Balanced b → Keeps (cmd_process_pasv_listen t w k b)
  unfolding cmd_process_pasv_listen
  listen-Keeps k b h =
      Ends-bind Unit (λ p. IsListening t w.rounds b p.0 p.1) (λ r. Balanced r.1)
        (vsf_privop_pasv_listen t w.rounds b) _ (pasv_listen-IsListening t w.rounds b random)
        (λ p l. after (priv_sock_send_int p.0 k) _ (send_int-Alive p.0 k) (λ k1. listens b p h l))

  refuse-Keeps : (n : ℕ) (k : Sock) (b : Broker) → Balanced b → Keeps (refuse t w n k b)
  unfolding refuse
  refuse-Keeps n k b h = after (priv_sock_send_result 2 k) _ (send_result-Alive 2 k) (λ k1.
      after (priv_sock_send_int (uint_mod - n) k1) _ (send_int-Alive (uint_mod - n) k1) (λ k2. h))

  accept_answer-Keeps :
      (k : Sock) (r : AcceptResult × Broker) → AcceptHolds r → Keeps (accept_answer t w k r)
  unfolding accept_answer
  accept_answer-Keeps k (not_accepted, b) h = refuse-Keeps 1 k b h
  accept_answer-Keeps k (wrong_peer, b) h = refuse-Keeps 2 k b h
  accept_answer-Keeps k (accepted_fd fd, b) h = hand_over-Keeps fd k b h

  accept-Keeps : (k : Sock) (b : Broker) → Balanced b → Keeps (cmd_process_pasv_accept t w k b)
  unfolding cmd_process_pasv_accept
  accept-Keeps k b h =
      Ends-bind Unit AcceptHolds (λ r. Balanced r.1) (vsf_privop_accept_pasv t w.accept b) _
        (accept-AcceptHolds t w.accept b h) (λ r. accept_answer-Keeps k r)

  dispatch-Keeps : (cmd : ℕ) (k : Sock) (b : Broker) → Balanced b → Keeps (dispatch t w cmd k b)
  unfolding dispatch
  dispatch-Keeps cmd k b h = ground (
    arith,
    chown-Keeps k b h,
    get_data_sock-Keeps k b h,
    cleanup-Keeps k b h,
    active-Keeps k b h,
    listen-Keeps k b h,
    accept-Keeps k b h,
  )

  process_post_login_req-Keeps :
      (k : Sock) (b : Broker) → Balanced b → Keeps (process_post_login_req t w k b)
  unfolding process_post_login_req
  process_post_login_req-Keeps k b h =
      after (priv_sock_get_cmd k) _ (get_cmd-Alive k) (λ c. dispatch-Keeps c.0 c.1 b h)

-- With bytes as random values, after any requests that the parent serves, whatever arrives and
-- whatever the system answers, it has stopped by `die` or `bug`, or of the descriptors that it has
-- opened the listening one alone is open, if there is one, where this was so before.
pub priv_parent_postlogin-Balanced :
    (t : PortTunables) (worlds : List World) (k : Sock) (b : Broker)
    → All (λ w. (i : ℕ) → AreBytes (w.rounds i).random) worlds
    → Balanced b
    → Ends Unit (λ r. Balanced r.1) (vsf_priv_parent_postlogin t worlds k b)
unfolding vsf_priv_parent_postlogin
priv_parent_postlogin-Balanced t [] k b random h = h
priv_parent_postlogin-Balanced t (w ∷ worlds) k b random h =
    Ends-bind Unit (λ r. Balanced r.1) (λ r. Balanced r.1) (process_post_login_req t w k b) _
      (process_post_login_req-Keeps t w random.0 k b h)
      (λ r g. priv_parent_postlogin-Balanced t worlds r.0 r.1 random.1 g)
