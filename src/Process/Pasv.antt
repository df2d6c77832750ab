-- ===== src/Process/Pasv.antt =====
-- src/privops.c: the sockets and the change of owner that the parent does for the child.
pub mod Ports
use cos_ftp_v.Base.{
  ℕ, zero, suc, ◌+◌, ◌-◌, ◌*◌, ◌/◌, ◌%◌, ◌^◌, ◌≤◌, ◌<◌, min, max, ◌≡◌, refl, sym, ap, ◌∙◌, subst,
  ◌≢◌, ◌↔◌, ◌⊎◌, inl, inr, Bool, true, false, not, ◌&&◌, ◌||◌, Option, none, some, List, [], ◌∷◌,
  ◌++◌, map, append-nil, append_assoc, arith, Bytes, codes, uint_mod, ltb, leb, ◌==◌, if◌then◌else◌,
  ltb→lt, lt→ltb, le→ltb, lt→leb, leb→le, le→leb, ==_iff, ==_refl, Bool-cases, Option-cases,
  if_elim, tests, length, get_elem?, set, take, drop, replicate, length-append, length-take,
  length-drop, length-replicate, length-set, take-append-drop, take-length_append,
  drop-length_append, take-length, take-all, drop_split, drop_add, any_of, All, All-append,
  All-left, All-right, all_of, Outcome, ok, bug, die, exit, fault, ◌>>=◌, >>=-eq-ok, Ends, Returns,
  Ends-bind, Ends-mono, Returns-ok,
}

-- The parent after a login: its listening socket, the descriptors that it has opened and not
-- closed, and the files whose owner it has changed, with the owner. -1 is `none`.
pub record Broker : Type 0 where
  pub pasv_listen_fd : Option ℕ
  pub opened : List ℕ
  pub chowned : List (ℕ × ℕ)
  pub anon_ftp_uid : Option ℕ
  pub guest_user_uid : Option ℕ
  pub anon_upload_chown_uid : Option ℕ

pub record PortTunables : Type 0 where
  pub tunable_connect_from_port_20 : Bool
  pub tunable_pasv_promiscuous : Bool
  pub tunable_chown_uploads : Bool
  pub tunable_ftp_data_port : ℕ
  pub tunable_pasv_min_port : ℕ
  pub tunable_pasv_max_port : ℕ

-- What the system says to a call: no error, or one of these.
pub data Errno : Type 0 where
  no_error addr_in_use acces other_error : Errno

-- `vsf_sysutil_close`
abbrev pub without : ℕ → List ℕ → List ℕ
without fd [] = []
without fd (g ∷ l) = if g == fd then l else g ∷ without fd l

abbrev pub close_fd : ℕ → Broker → Broker
close_fd fd b = record b { opened = without fd b.opened }

abbrev pub open_fd : ℕ → Broker → Broker
open_fd fd b = record b { opened = fd ∷ b.opened }

abbrev pub is_active : Option ℕ → Bool
is_active none = false
is_active (some fd) = true

-- The `for` loop, with `bind` by the number of the round and the port.
bind_again : Errno → ℕ → Outcome ℕ
bind_again no_error port = ok port
bind_again addr_in_use port = die
bind_again acces port = die
bind_again other_error port = die

bind_twice : (ℕ → ℕ → Errno) → ℕ → Outcome ℕ
unfolding bind_again
bind_twice bind port = elim (bind 0 port) [
  | no_error ↦ ok port
  | addr_in_use ↦ bind_again (bind 1 port) port
  | acces ↦ die
  | other_error ↦ die
]

-- `s` is the new socket. The result is it, or `none` for -1.
unfoldable pub vsf_privop_get_ftp_port_sock :
    PortTunables → ℕ → (ℕ → ℕ → Errno) → Bool → Broker → ℕ → Outcome (Option ℕ × Broker)
unfolding bind_twice
vsf_privop_get_ftp_port_sock t s bind connects b remote_port =
    let b1 = open_fd s b in
    if is_active b.pasv_listen_fd
    then die
    else if ltb remote_port 1024
    then die
    else bind_twice bind
        (if t.tunable_connect_from_port_20 then t.tunable_ftp_data_port % 65536 else 0)
      >>= (λ u. ok (if connects then (some s, b1) else (none, close_fd s b1)))

unfoldable pub vsf_privop_pasv_cleanup : Broker → Broker
vsf_privop_pasv_cleanup b = elim b.pasv_listen_fd [
  | none ↦ b
  | some fd ↦ record (close_fd fd b) { pasv_listen_fd = none }
]

unfoldable pub vsf_privop_pasv_active : Broker → ℕ
vsf_privop_pasv_active b = if is_active b.pasv_listen_fd then 1 else 0

-- IPPORT_RESERVED is 1024.
unfoldable pub min_port_of : PortTunables → ℕ
min_port_of t =
    if ltb 1024 t.tunable_pasv_min_port && leb t.tunable_pasv_min_port 65535
    then t.tunable_pasv_min_port
    else 1024

unfoldable pub max_port_of : PortTunables → ℕ
max_port_of t =
    if leb (min_port_of t) t.tunable_pasv_max_port && ltb t.tunable_pasv_max_port 65535
    then t.tunable_pasv_max_port
    else 65535

-- Two random bytes, scaled to the range: the arithmetic on `double` is exact on such numbers.
unfoldable pub scaled_port : PortTunables → ℕ × ℕ → ℕ
scaled_port t (high, low) =
    min_port_of t + (high * 256 + low) * (max_port_of t - min_port_of t + 1) / 65536

-- What the system gives in a round: a socket, random bytes, and the results of `bind` on a port and
-- of `listen`.
pub record PasvRound : Type 0 where
  pub sock : ℕ
  pub random : ℕ × ℕ
  pub bind : ℕ → Errno
  pub listen : Errno

-- The error of the two calls: that of `bind`, and without it that of `listen`.
abbrev pub bind_listen : Errno → Errno → Errno
bind_listen no_error listen = listen
bind_listen addr_in_use listen = addr_in_use
bind_listen acces listen = acces
bind_listen other_error listen = other_error

-- The end of a round: it has found a port, or closes the socket and goes on, or dies.
abbrev pub settled : Errno → Outcome (ℕ × Broker) → Outcome (ℕ × Broker) → Outcome (ℕ × Broker)
settled no_error found again = found
settled addr_in_use found again = again
settled acces found again = again
settled other_error found again = die

-- The `while` loop, with the rounds that `bind_retries` leaves.
pub pasv_loop : PortTunables → ℕ → (ℕ → PasvRound) → Broker → Outcome (ℕ × Broker)
pasv_loop t zero rounds b = die
pasv_loop t (suc bind_retries) rounds b =
    let r = rounds bind_retries in
    let the_port = scaled_port t r.random in
    let b1 = record (open_fd r.sock b) { pasv_listen_fd = some r.sock } in
    settled (bind_listen (r.bind the_port) r.listen) (ok (the_port, b1))
      (pasv_loop t bind_retries rounds (record (close_fd r.sock b1) { pasv_listen_fd = none }))

unfoldable pub vsf_privop_pasv_listen :
    PortTunables → (ℕ → PasvRound) → Broker → Outcome (ℕ × Broker)
unfolding pasv_loop
vsf_privop_pasv_listen t rounds b =
    if is_active b.pasv_listen_fd then die else pasv_loop t 9 rounds b

-- A descriptor, or -1 or -2.
pub data AcceptResult : Type 0 where
  accepted_fd : ℕ → AcceptResult
  not_accepted wrong_peer : AcceptResult

-- What `accept` gives: a descriptor, and whether it is of the peer of the control connection.
unfoldable pub vsf_privop_accept_pasv :
    PortTunables → Option (ℕ × Bool) → Broker → Outcome (AcceptResult × Broker)
vsf_privop_accept_pasv t accept b = if not (is_active b.pasv_listen_fd) then die else elim accept [
  | none ↦ ok (not_accepted, b)
  | some (remote_fd, same_addr) ↦
      if not t.tunable_pasv_promiscuous && not same_addr
      then ok (wrong_peer, close_fd remote_fd (open_fd remote_fd b))
      else ok (accepted_fd remote_fd, open_fd remote_fd b)
]

abbrev pub is_uid : Option ℕ → ℕ → Bool
is_uid none uid = false
is_uid (some u) uid = u == uid

-- `uid` and `regfile` are what `fstat` says of the file.
unfoldable pub vsf_privop_do_file_chown : ℕ → ℕ → Bool → Broker → Outcome Broker
vsf_privop_do_file_chown fd uid regfile b =
    if is_uid b.anon_upload_chown_uid uid then ok b else elim b.anon_upload_chown_uid [
      | none ↦ die
      | some owner ↦
          if not regfile || (not (is_uid b.anon_ftp_uid uid) && not (is_uid b.guest_user_uid uid))
          then die
          else ok (record b { chowned = (fd, owner) ∷ b.chowned })
    ]
