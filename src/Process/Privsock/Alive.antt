-- ===== src/Process/Privsock/Alive.antt =====
-- A message is sent or read, or the process stops by `die` or `bug`.
use cos_ftp_v.Base.{
  ℕ, Option, none, some, [], ◌∷◌, arith, Bytes, if_elim, Outcome, ok, ◌>>=◌, Ends, Ends-bind,
}
use cos_ftp_v.Process.Privsock.{
  octet, passed, Wire, Sock, int_bytes, int_of, read_loop, taken, read_all, write_all,
  priv_sock_send_result, priv_sock_send_int, priv_sock_send_fd, one_byte, priv_sock_get_cmd,
  priv_sock_get_int, priv_sock_recv_fd,
}

-- Whatever value the call gives.
abbrev pub Alive : {A : Type 0} → Outcome A → Type 0
Alive o = Ends Unit (λ a. Unit) o

read_all-Alive : (n : ℕ) (k : Sock) → Alive (read_all n k)
unfolding read_all
read_all-Alive n k = by_bytes (read_loop n k.arriving)
  where
    by_bytes : (o : Option (Bytes × Wire)) → Alive (taken k o)
    by_bytes none = tt
    by_bytes (some (s, w)) = tt

write_all-Alive : (s : Bytes) (k : Sock) → Alive (write_all s k)
unfolding write_all
write_all-Alive s k = if_elim Alive k.writable _ _ (λ e. tt) (λ e. tt)

pub send_result-Alive : (n : ℕ) (k : Sock) → Alive (priv_sock_send_result n k)
unfolding priv_sock_send_result
send_result-Alive n k = write_all-Alive (n ∷ []) k

pub send_int-Alive : (n : ℕ) (k : Sock) → Alive (priv_sock_send_int n k)
unfolding priv_sock_send_int
send_int-Alive n k = write_all-Alive (int_bytes n) k

pub send_fd-Alive : (fd : ℕ) (k : Sock) → Alive (priv_sock_send_fd fd k)
unfolding priv_sock_send_fd
send_fd-Alive fd k = ground arith

pub get_cmd-Alive : (k : Sock) → Alive (priv_sock_get_cmd k)
unfolding priv_sock_get_cmd read_all read_loop one_byte
get_cmd-Alive k = by_wire k.arriving
  where
    by_wire : (w : Wire) → Alive (taken k (read_loop 1 w) >>= one_byte)
    by_wire [] = tt
    by_wire (octet c ∷ w) = tt
    by_wire (passed fd ∷ w) = tt

pub get_int-Alive : (k : Sock) → Alive (priv_sock_get_int k)
unfolding priv_sock_get_int
get_int-Alive k =
    Ends-bind Unit (λ r. Unit) (λ r. Unit) (read_all 4 k) (λ r. ok (int_of r.0, r.1))
      (read_all-Alive 4 k) (λ r u. tt)

pub recv_fd-Alive : (k : Sock) → Alive (priv_sock_recv_fd k)
unfolding priv_sock_recv_fd
recv_fd-Alive k = ground arith
