-- ===== src/Process/Asks.antt =====
-- src/twoprocess.c: what the child asks of its parent after a login, and what it makes of the answer.
pub mod Listens
use cos_ftp_v.Base.{
  ℕ, zero, suc, ◌+◌, ◌-◌, ◌*◌, ◌/◌, ◌%◌, ◌^◌, ◌≤◌, ◌<◌, min, max, ◌≡◌, refl, sym, ap, ◌∙◌, subst,
  ◌≢◌, ◌↔◌, ◌⊎◌, inl, inr, Bool, true, false, not, ◌&&◌, ◌||◌, Option, none, some, List, [], ◌∷◌,
  ◌++◌, map, append-nil, append_assoc, arith, Bytes, codes, uint_mod, ltb, leb, ◌==◌, if◌then◌else◌,
  ltb→lt, lt→ltb, le→ltb, lt→leb, leb→le, le→leb, ==_iff, ==_refl, Bool-cases, Option-cases,
  if_elim, tests, length, get_elem?, set, take, drop, replicate, length-append, length-take,
  length-drop, length-replicate, length-set, take-append-drop, take-length_append,
  drop-length_append, take-length, take-all, drop_split, drop_add, any_of, All, All-append,
  All-left, All-right, all_of, Outcome, ok, bug, die, exit, fault, ◌>>=◌, >>=-eq-ok, Ends, Returns,
  Ends-bind, Ends-mono, Returns-ok,
}
use cos_ftp_v.Process.Privsock.{
  Sock, priv_sock_send_cmd, priv_sock_send_int, priv_sock_send_fd, priv_sock_get_result,
  priv_sock_get_int, priv_sock_recv_fd,
}

-- The result is 1, or the process dies.
need_ok : Sock → Outcome Sock
need_ok k = priv_sock_get_result k >>= (λ r. if r.0 == 1 then ok r.1 else die)

unfoldable pub get_priv_data_sock_req : ℕ → Sock → Outcome Sock
get_priv_data_sock_req port k = priv_sock_send_cmd 3 k >>= priv_sock_send_int port

-- `none` is -1.
unfoldable pub get_priv_data_sock_answer : Sock → Outcome (Option ℕ × Sock)
get_priv_data_sock_answer k = priv_sock_get_result k >>= (λ r.
    if r.0 == 2
    then ok (none, r.1)
    else if not (r.0 == 1)
    then die
    else priv_sock_recv_fd r.1 >>= (λ f. ok (some f.0, f.1)))

unfoldable pub pasv_cleanup_req : Sock → Outcome Sock
pasv_cleanup_req k = priv_sock_send_cmd 10 k

unfoldable pub pasv_cleanup_answer : Sock → Outcome Sock
unfolding need_ok
pasv_cleanup_answer k = need_ok k

unfoldable pub pasv_active_req : Sock → Outcome Sock
pasv_active_req k = priv_sock_send_cmd 11 k

unfoldable pub pasv_active_answer : Sock → Outcome (ℕ × Sock)
pasv_active_answer k = priv_sock_get_int k

unfoldable pub listen_req : Sock → Outcome Sock
listen_req k = priv_sock_send_cmd 12 k

-- The port, as an `unsigned short`.
unfoldable pub listen_answer : Sock → Outcome (ℕ × Sock)
listen_answer k = priv_sock_get_int k >>= (λ r. ok (r.0 % 65536, r.1))

unfoldable pub get_pasv_fd_req : Sock → Outcome Sock
get_pasv_fd_req k = priv_sock_send_cmd 13 k

-- A descriptor, or the bits of a negative `int`.
pub data PasvFd : Type 0 where
  pasv_fd pasv_error : ℕ → PasvFd

unfoldable pub get_pasv_fd_answer : Sock → Outcome (PasvFd × Sock)
get_pasv_fd_answer k = priv_sock_get_result k >>= (λ r.
    if r.0 == 2
    then priv_sock_get_int r.1 >>= (λ n. ok (pasv_error n.0, n.1))
    else if not (r.0 == 1)
    then die
    else priv_sock_recv_fd r.1 >>= (λ f. ok (pasv_fd f.0, f.1)))

unfoldable pub chown_upload_req : ℕ → Sock → Outcome Sock
chown_upload_req fd k = priv_sock_send_cmd 2 k >>= priv_sock_send_fd fd

unfoldable pub chown_upload_answer : Sock → Outcome Sock
unfolding need_ok
chown_upload_answer k = need_ok k
