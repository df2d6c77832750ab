-- ===== src/Process/Asks/Listens.antt =====
-- The child asks its parent to listen, and learns the port.
use cos_ftp_v.Base.{
  ℕ, ◌%◌, ◌<◌, ◌≡◌, refl, ap, ◌∙◌, Bool, true, false, ◌&&◌, [], ◌∷◌, arith, ok, ◌>>=◌, Ends,
  Returns, Ends-bind,
}
use cos_ftp_v.Process.Privsock.{Sock, octet, octets, int_bytes, priv_sock_send_int}
use cos_ftp_v.Process.Privsock.Carries.{send_cmd-Sends, send_int-Sends, get_cmd-Gets, get_int-Gets}
use cos_ftp_v.Process.Pasv.{Broker, PortTunables, vsf_privop_pasv_listen}
use cos_ftp_v.Process.Pasv.Ports.{IsListening, AreBytes, pasv_listen-IsListening}
use cos_ftp_v.Process.Broker.{World, process_post_login_req}
use cos_ftp_v.Process.Asks.{listen_req, listen_answer}

listen_answer-Gets :
    (port : ℕ) (k : Sock)
    → port < 65536
    → listen_answer (record k { arriving = octets (int_bytes port) })
      ≡ ok (port, record k { arriving = [] })
unfolding listen_answer
listen_answer-Gets port k h =
    ap (λ o. o >>= (λ r. ok (r.0 % 65536, r.1))) (get_int-Gets port (omega arith) k [])
    ∙ ap (λ n. ok (n, record k { arriving = [] })) (omega arith)

-- What the child makes of what the parent sent.
abbrev pub Told : PortTunables → World → Broker → Sock → Sock × Broker → Type 0
Told t w b asked (k, b1) =
    (port : ℕ) × IsListening t w.rounds b port b1
    × (listen_answer (record asked { arriving = k.sent })
        ≡ ok (port, record asked { arriving = [] }))

told :
    (t : PortTunables) (w : World) (b : Broker) (asked parent : Sock)
    → ((i : ℕ) → AreBytes (w.rounds i).random)
    → parent.writable ≡ true
    → parent.sent ≡ []
    → Ends Unit (Told t w b asked) (
        vsf_privop_pasv_listen t w.rounds b
        >>= (λ p. priv_sock_send_int p.0 parent >>= (λ k1. ok (k1, p.1))))
told t w b asked parent random up none_yet =
    Ends-bind Unit (λ p. IsListening t w.rounds b p.0 p.1) (Told t w b asked)
      (vsf_privop_pasv_listen t w.rounds b) _ (pasv_listen-IsListening t w.rounds b random)
      (λ p l.
        rw (send_int-Sends p.0 parent up, none_yet)
          (p.0, l, listen_answer-Gets p.0 asked l.is_port))

and_false : (b : Bool) → (b && false) ≡ false
and_false true = refl
and_false false = refl

served :
    (t : PortTunables) (w : World) (b : Broker) (asked parent : Sock)
    → ((i : ℕ) → AreBytes (w.rounds i).random)
    → parent.writable ≡ true
    → parent.sent ≡ []
    → Ends Unit
        (Told t w b asked)
        (process_post_login_req t w (record parent { arriving = octet 12 ∷ [] }) b)
unfolding process_post_login_req
served t w b asked parent random up none_yet =
    rw (get_cmd-Gets 12 parent [], and_false t.tunable_chown_uploads)
      (told t w b asked (record parent { arriving = [] }) random up none_yet)

-- Over sockets that take writes and hold nothing yet, with bytes as random values: the child asks
-- its parent to listen, and the parent dies, or it listens on a port that is as the settings ask,
-- and from what it sent the child gets that port.
pub listen_carried :
    (t : PortTunables) (w : World) (b : Broker) (child parent : Sock)
    → ((i : ℕ) → AreBytes (w.rounds i).random)
    → child.writable ≡ true
    → child.sent ≡ []
    → parent.writable ≡ true
    → parent.sent ≡ []
    → Returns
        (λ asked.
          Ends Unit
            (Told t w b asked)
            (process_post_login_req t w (record parent { arriving = asked.sent }) b))
        (listen_req child)
unfolding listen_req
listen_carried t w b child parent random child_up child_new up none_yet =
    rw (send_cmd-Sends 12 child child_up, child_new)
      (served t w b (record child { sent = octet 12 ∷ [] }) parent random up none_yet)
