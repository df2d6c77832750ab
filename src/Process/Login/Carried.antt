-- ===== src/Process/Login/Carried.antt =====
-- The parent reads the request that the child sent.
use cos_ftp_v.Base.{
  ℕ, ◌≤◌, ◌<◌, ◌≡◌, ap, true, [], ◌∷◌, ◌++◌, Bytes, uint_mod, length, ok, ◌>>=◌, Returns,
}
use cos_ftp_v.Process.Privsock.{
  Sock, Wire, octet, octets, int_bytes, privsock_maxstr, priv_sock_send_cmd, priv_sock_send_str,
  priv_sock_send_int, priv_sock_get_cmd, priv_sock_get_str, priv_sock_get_int,
}
use cos_ftp_v.Process.Privsock.Carries.{
  Sends, Gets, Sends-then, Gets-then, str_wire, send_cmd-Sends, send_str-Sends, send_int-Sends,
  get_cmd-Gets, get_str-Gets, get_int-Gets,
}
use cos_ftp_v.Process.Login.{
  LoginReq, got_data, got_control, got_password, got_user, got_cmd, login_req, send_login_req,
  get_login_req,
}

-- The strings are no longer than the parent takes, and the numbers are of their type.
pub record IsSendable (req : LoginReq) : Type 0 where
  pub short_user : length req.user_str ≤ privsock_maxstr
  pub short_password : length req.password_str ≤ privsock_maxstr
  pub control_int : req.control_use_ssl < uint_mod
  pub data_int : req.data_use_ssl < uint_mod

abbrev pub req_wire : LoginReq → Wire
req_wire req =
    octet 1 ∷ []
    ++ (str_wire req.user_str
        ++ (str_wire req.password_str
            ++ (octets (int_bytes req.control_use_ssl) ++ octets (int_bytes req.data_use_ssl))))

send_login_req-Sends : (req : LoginReq) → IsSendable req → Sends (send_login_req req) (req_wire req)
unfolding send_login_req
send_login_req-Sends req h =
    Sends-then (priv_sock_send_cmd 1) _ (octet 1 ∷ []) _ (send_cmd-Sends 1) (
      Sends-then (priv_sock_send_str req.user_str) _ (str_wire req.user_str) _
        (send_str-Sends req.user_str h.short_user)
        (Sends-then (priv_sock_send_str req.password_str) _ (str_wire req.password_str) _
          (send_str-Sends req.password_str h.short_password)
          (Sends-then (priv_sock_send_int req.control_use_ssl) (priv_sock_send_int req.data_use_ssl)
            (octets (int_bytes req.control_use_ssl)) (octets (int_bytes req.data_use_ssl))
            (send_int-Sends req.control_use_ssl) (send_int-Sends req.data_use_ssl))))

data_Gets :
    (user password : Bytes) (control data_ : ℕ)
    → data_ < uint_mod
    → Gets
        (λ k. got_control user password (control, k))
        (octets (int_bytes data_))
        (login_req user password control data_)
data_Gets user password control data_ h k rest =
    ap (λ o. o >>= got_data user password control) (get_int-Gets data_ h k rest)

get_login_req-Gets : (req : LoginReq) → IsSendable req → Gets get_login_req (req_wire req) req
unfolding get_login_req
get_login_req-Gets req h =
    let ints = octets (int_bytes req.control_use_ssl) ++ octets (int_bytes req.data_use_ssl) in
    Gets-then priv_sock_get_cmd got_cmd (octet 1 ∷ [])
      (str_wire req.user_str ++ (str_wire req.password_str ++ ints)) 1 req (get_cmd-Gets 1)
      (Gets-then priv_sock_get_str got_user (str_wire req.user_str)
        (str_wire req.password_str ++ ints) req.user_str req
        (get_str-Gets req.user_str h.short_user)
        (Gets-then priv_sock_get_str (got_password req.user_str) (str_wire req.password_str) ints
          req.password_str req (get_str-Gets req.password_str h.short_password)
          (Gets-then priv_sock_get_int (got_control req.user_str req.password_str)
            (octets (int_bytes req.control_use_ssl)) (octets (int_bytes req.data_use_ssl))
            req.control_use_ssl req (get_int-Gets req.control_use_ssl h.control_int)
            (data_Gets req.user_str req.password_str req.control_use_ssl req.data_use_ssl
              h.data_int))))

-- A request with strings of no more than 131072 bytes is sent where writes are taken, and from
-- what was sent, whatever follows it, the parent gets the same request and takes no more.
pub login_req_carried :
    (req : LoginReq) (child parent : Sock) (rest : Wire)
    → IsSendable req
    → child.writable ≡ true
    → child.sent ≡ []
    → Returns
        (λ k.
          get_login_req (record parent { arriving = k.sent ++ rest })
          ≡ ok (req, record parent { arriving = rest }))
        (send_login_req req child)
login_req_carried req child parent rest h up none_yet =
    rw (send_login_req-Sends req h child up, none_yet) (get_login_req-Gets req h parent rest)
