-- ===== src/Process/Privsock.antt =====
-- src/privsock.c: the messages between the child and its parent over a socket pair.
pub mod Carries
pub mod Alive
use cos_ftp_v.Base.{
  ℕ, zero, suc, ◌+◌, ◌-◌, ◌*◌, ◌/◌, ◌%◌, ◌^◌, ◌≤◌, ◌<◌, min, max, ◌≡◌, refl, sym, ap, ◌∙◌, subst,
  ◌≢◌, ◌↔◌, ◌⊎◌, inl, inr, Bool, true, false, not, ◌&&◌, ◌||◌, Option, none, some, List, [], ◌∷◌,
  ◌++◌, map, append-nil, append_assoc, arith, Bytes, codes, uint_mod, ltb, leb, ◌==◌, if◌then◌else◌,
  ltb→lt, lt→ltb, le→ltb, lt→leb, leb→le, le→leb, ==_iff, ==_refl, Bool-cases, Option-cases,
  if_elim, tests, length, get_elem?, set, take, drop, replicate, length-append, length-take,
  length-drop, length-replicate, length-set, take-append-drop, take-length_append,
  drop-length_append, take-length, take-all, drop_split, drop_add, any_of, All, All-append,
  All-left, All-right, all_of, Outcome, ok, bug, die, exit, fault, ◌>>=◌, >>=-eq-ok, Ends, Returns,
  Ends-bind, Ends-mono, Returns-ok,
}
use cos_ftp_v.Str.Edit.{is_empty}

-- What is under way on a socket: bytes, and descriptors that are passed along.
pub data Item : Type 0 where
  octet : ℕ → Item
  passed : ℕ → Item

abbrev pub Wire : Type 0
Wire = List Item

abbrev pub octets : Bytes → Wire
octets s = map octet s

-- One end of the pair: what comes in, what was written, and whether the system takes writes.
pub record Sock : Type 0 where
  pub arriving : Wire
  pub sent : Wire
  pub writable : Bool

-- An `int` as it lies in memory, for a negative one the bits of `unsigned int`.
abbrev pub int_bytes : ℕ → Bytes
int_bytes n = n % 256 ∷ n / 256 % 256 ∷ n / 65536 % 256 ∷ n / 16777216 % 256 ∷ []

pub int_of : Bytes → ℕ
int_of (a ∷ b ∷ c ∷ d ∷ s) = a + 256 * b + 65536 * c + 16777216 * d
int_of s = 0

-- `VSFTP_PRIVSOCK_MAXSTR`
abbrev pub privsock_maxstr : ℕ
privsock_maxstr = 65536 * 2

abbrev pub more : ℕ → Option (Bytes × Wire) → Option (Bytes × Wire)
more c none = none
more c (some (s, w)) = some (c ∷ s, w)

-- `vsf_sysutil_read_loop` of `n` bytes; `none` is fewer.
pub read_loop : ℕ → Wire → Option (Bytes × Wire)
read_loop zero w = some ([], w)
read_loop (suc n) [] = none
read_loop (suc n) (passed fd ∷ w) = none
read_loop (suc n) (octet c ∷ w) = more c (read_loop n w)

abbrev pub taken : Sock → Option (Bytes × Wire) → Outcome (Bytes × Sock)
taken k none = die
taken k (some (s, w)) = ok (s, record k { arriving = w })

-- A read of exactly `n` bytes, or `die`.
pub read_all : ℕ → Sock → Outcome (Bytes × Sock)
unfolding read_loop
read_all n k = taken k (read_loop n k.arriving)

-- A write of all the bytes, or `die`.
unfoldable pub write_all : Bytes → Sock → Outcome Sock
write_all s k = if k.writable then ok (record k { sent = k.sent ++ octets s }) else die

-- `str_netfd_write`, whose result is not looked at.
pub str_netfd_write : Bytes → Sock → Sock
str_netfd_write s k = if k.writable then record k { sent = k.sent ++ octets s } else k

unfoldable pub priv_sock_send_cmd : ℕ → Sock → Outcome Sock
unfolding write_all
priv_sock_send_cmd cmd k = write_all (cmd ∷ []) k

unfoldable pub priv_sock_send_result : ℕ → Sock → Outcome Sock
unfolding write_all
priv_sock_send_result res k = write_all (res ∷ []) k

unfoldable pub priv_sock_send_int : ℕ → Sock → Outcome Sock
unfolding write_all
priv_sock_send_int the_int k = write_all (int_bytes the_int) k

unfoldable pub priv_sock_send_str : Bytes → Sock → Outcome Sock
unfolding str_netfd_write
priv_sock_send_str s k =
    priv_sock_send_int (length s % uint_mod) k
    >>= (λ k1. if is_empty s then ok k1 else ok (str_netfd_write s k1))

unfoldable pub priv_sock_send_buf : Bytes → Sock → Outcome Sock
priv_sock_send_buf s k =
    priv_sock_send_int (length s % uint_mod) k
    >>= (λ k1. if is_empty s then ok k1 else write_all s k1)

unfoldable pub priv_sock_send_fd : ℕ → Sock → Outcome Sock
priv_sock_send_fd fd k =
    if k.writable then ok (record k { sent = k.sent ++ passed fd ∷ [] }) else die

-- The byte that a read of one gives.
pub one_byte : Bytes × Sock → Outcome (ℕ × Sock)
one_byte (c ∷ s, k) = ok (c, k)
one_byte ([], k) = fault

unfoldable pub priv_sock_get_result : Sock → Outcome (ℕ × Sock)
unfolding read_all one_byte
priv_sock_get_result k = read_all 1 k >>= one_byte

unfoldable pub priv_sock_get_cmd : Sock → Outcome (ℕ × Sock)
unfolding read_all one_byte
priv_sock_get_cmd k = read_all 1 k >>= one_byte

unfoldable pub priv_sock_get_int : Sock → Outcome (ℕ × Sock)
unfolding read_all int_of
priv_sock_get_int k = read_all 4 k >>= (λ r. ok (int_of r.0, r.1))

unfoldable pub priv_sock_get_str : Sock → Outcome (Bytes × Sock)
unfolding read_all
priv_sock_get_str k = priv_sock_get_int k >>= (λ r.
    if ltb privsock_maxstr r.0 then die else if ltb 0 r.0 then read_all r.0 r.1 else ok ([], r.1))

-- `len` is the size of the buffer.
unfoldable pub priv_sock_recv_buf : ℕ → Sock → Outcome (Bytes × Sock)
priv_sock_recv_buf len k =
    priv_sock_get_int k
    >>= (λ r. if ltb len r.0 then bug else if ltb 0 r.0 then read_all r.0 r.1 else ok ([], r.1))

-- `vsf_sysutil_recv_fd` dies where no descriptor comes.
unfoldable pub priv_sock_recv_fd : Sock → Outcome (ℕ × Sock)
priv_sock_recv_fd k = elim k.arriving [
  | [] ↦ die
  | octet c ∷ w ↦ die
  | passed fd ∷ w ↦ ok (fd, record k { arriving = w })
]

-- The descriptors of a session; -1 is `none`.
pub record SocketPair : Type 0 where
  pub parent_fd : Option ℕ
  pub child_fd : Option ℕ

abbrev pub is_some : Option ℕ → Bool
is_some none = false
is_some (some fd) = true

-- The two descriptors are those that the system gives.
unfoldable pub priv_sock_init : ℕ → ℕ → SocketPair → Outcome SocketPair
priv_sock_init one two p =
    if is_some p.parent_fd || is_some p.child_fd
    then bug
    else ok (record { parent_fd = some one; child_fd = some two })

abbrev pub opt_list : Option ℕ → List ℕ
opt_list none = []
opt_list (some fd) = fd ∷ []

-- With the descriptors that are closed.
unfoldable pub priv_sock_close : SocketPair → List ℕ × SocketPair
priv_sock_close p =
    (opt_list p.parent_fd ++ opt_list p.child_fd, record { parent_fd = none; child_fd = none })

unfoldable pub priv_sock_set_parent_context : SocketPair → Outcome (List ℕ × SocketPair)
priv_sock_set_parent_context p =
    if is_some p.child_fd then ok (opt_list p.child_fd, record p { child_fd = none }) else bug

unfoldable pub priv_sock_set_child_context : SocketPair → Outcome (List ℕ × SocketPair)
priv_sock_set_child_context p =
    if is_some p.parent_fd then ok (opt_list p.parent_fd, record p { parent_fd = none }) else bug
