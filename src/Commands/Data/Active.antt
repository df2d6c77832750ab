-- ===== src/Commands/Data/Active.antt =====
-- Whether PORT or PASV is active.
use cos_ftp_v.Base.{◌≡◌, false, not, ◌&&◌, ◌||◌, arith, ok}
use cos_ftp_v.Commands.{Client}
use cos_ftp_v.Commands.Data.{
  has_port, port_active_within, pasv_active_within, port_active, pasv_active, none_active,
}

-- With one of them active at most, the questions have the answers that the session holds.
pub pasv_active-eq :
    (s : Client)
    → (has_port s.port_sockaddr && s.pasv_listening) ≡ false
    → pasv_active s ≡ ok s.pasv_listening
unfolding pasv_active pasv_active_within port_active_within
pasv_active-eq s one = ground (arith, one)

pub none_active-eq :
    (s : Client)
    → (has_port s.port_sockaddr && s.pasv_listening) ≡ false
    → none_active s ≡ ok (not (has_port s.port_sockaddr || s.pasv_listening))
unfolding none_active port_active pasv_active pasv_active_within port_active_within
none_active-eq s one = ground (arith, one)
