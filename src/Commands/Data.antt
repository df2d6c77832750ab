-- ===== src/Commands/Data.antt =====
-- The data connection of src/postlogin.c: PORT and PASV with their extended forms, the addresses of
-- src/sysutil.c, and the start and the end of a connection, of src/ftpdataio.c.
pub mod Eprt
pub mod Active
use cos_ftp_v.Base.{
  ℕ, zero, suc, ◌+◌, ◌-◌, ◌*◌, ◌/◌, ◌%◌, ◌^◌, ◌≤◌, ◌<◌, min, max, ◌≡◌, refl, sym, ap, ◌∙◌, subst,
  ◌≢◌, ◌↔◌, ◌⊎◌, inl, inr, Bool, true, false, not, ◌&&◌, ◌||◌, Option, none, some, List, [], ◌∷◌,
  ◌++◌, map, append-nil, append_assoc, arith, Bytes, codes, uint_mod, ltb, leb, ◌==◌, if◌then◌else◌,
  ltb→lt, lt→ltb, le→ltb, lt→leb, leb→le, le→leb, ==_iff, ==_refl, Bool-cases, Option-cases,
  if_elim, tests, length, get_elem?, set, take, drop, replicate, length-append, length-take,
  length-drop, length-replicate, length-set, take-append-drop, take-length_append,
  drop-length_append, take-length, take-all, drop_split, drop_add, any_of, All, All-append,
  All-left, All-right, all_of, Outcome, ok, bug, die, exit, fault, ◌>>=◌, >>=-eq-ok, Ends, Returns,
  Ends-bind, Ends-mono, Returns-ok,
}
use cos_ftp_v.Str.Compare.{str_equal}
use cos_ftp_v.Str.Edit.{is_empty, str_upper, str_replace_char}
use cos_ftp_v.Str.Split.{str_split_char}
use cos_ftp_v.SysUtil.Numbers.{vsf_sysutil_ulong_to_str}
use cos_ftp_v.Addresses.{
  Parsed, no_address, out_of_fuel, parsed, vsf_sysutil_parse_uchar_string_sep,
  vsf_sysutil_parse_ipv4, vsf_sysutil_parse_ipv6,
}
use cos_ftp_v.Commands.{
  SockAddr, Client, CommandTunables, Host, ListenFd, no_fd, bad_ip, got_fd, Act, said, listen,
  accept_data, connect_to, secure_data, Run, also, ◌>>>◌, quiet, done, does, write, answer,
  vsf_cmdio_write_exit,
}

-- The first 12 bytes of an IPv6 address that maps an IPv4 address.
abbrev pub mapped_pattern : Bytes
mapped_pattern = replicate 10 0 ++ 255 ∷ 255 ∷ []

unfoldable pub vsf_sysutil_sockaddr_ipv6_v4 : SockAddr → Option Bytes
vsf_sysutil_sockaddr_ipv6_v4 a =
    if a.is_ipv6 && str_equal (take 12 a.addr) mapped_pattern then some (drop 12 a.addr) else none

abbrev is_address : Option Bytes → Bytes → Bool
is_address none addr = false
is_address (some v4) addr = str_equal v4 addr

unfoldable pub vsf_sysutil_sockaddr_addr_equal : SockAddr → SockAddr → Bool
unfolding vsf_sysutil_sockaddr_ipv6_v4
vsf_sysutil_sockaddr_addr_equal p1 p2 =
    if not p1.is_ipv6 && p2.is_ipv6
    then is_address (vsf_sysutil_sockaddr_ipv6_v4 p2) p1.addr
    else if p1.is_ipv6 && not p2.is_ipv6
    then is_address (vsf_sysutil_sockaddr_ipv6_v4 p1) p2.addr
    else str_equal p1.addr p2.addr

-- Of a family that is IPv4 or IPv6; the port of a clone is zero.
unfoldable pub vsf_sysutil_sockaddr_clone : SockAddr → SockAddr
vsf_sysutil_sockaddr_clone src = record src { port = 0 }

unfoldable pub vsf_sysutil_sockaddr_set_ipv4addr : SockAddr → Bytes → SockAddr
vsf_sysutil_sockaddr_set_ipv4addr a raw = record a {
  addr = if a.is_ipv6 then mapped_pattern ++ raw else raw;
}

unfoldable pub vsf_sysutil_sockaddr_set_ipv6addr : SockAddr → Bytes → Outcome SockAddr
vsf_sysutil_sockaddr_set_ipv6addr a raw = if a.is_ipv6 then ok (record a { addr = raw }) else bug

unfoldable pub vsf_sysutil_is_port_reserved : ℕ → Bool
vsf_sysutil_is_port_reserved the_port = ltb the_port 1024

abbrev pub has_port : Option SockAddr → Bool
has_port none = false
has_port (some a) = true

-- Each asks the other; `fault` is a lack of fuel.
mutual
  pub port_active_within : ℕ → Client → Outcome Bool
  port_active_within zero s = fault
  port_active_within (suc fuel) s = elim (has_port s.port_sockaddr) [
    | false ↦ ok false
    | true ↦ pasv_active_within fuel s >>= (λ other. if other then bug else ok true)
  ]

  pub pasv_active_within : ℕ → Client → Outcome Bool
  pasv_active_within zero s = fault
  pasv_active_within (suc fuel) s = elim s.pasv_listening [
    | false ↦ ok false
    | true ↦ port_active_within fuel s >>= (λ other. if other then bug else ok true)
  ]

-- Two calls are enough unless both are active, which no fuel is enough for.
unfoldable pub port_active : Client → Outcome Bool
unfolding port_active_within
port_active s = port_active_within 2 s

unfoldable pub pasv_active : Client → Outcome Bool
unfolding pasv_active_within
pasv_active s = pasv_active_within 2 s

-- `!pasv_active(p_sess) && !port_active(p_sess)`
unfoldable pub none_active : Client → Outcome Bool
unfolding pasv_active port_active
none_active s =
    pasv_active s >>= (λ pasv. if pasv then ok false else port_active s >>= (λ port. ok (not port)))

unfoldable pub port_cleanup : Client → Client
port_cleanup s = record s { port_sockaddr = none }

unfoldable pub pasv_cleanup : Client → Client
pasv_cleanup s = record s { pasv_listening = false }

abbrev both_cleanup : Client → Client
both_cleanup s = record s { port_sockaddr = none; pasv_listening = false }

-- `atoi`, `inet_ntop` and `inet_aton` are those of the C library: a negative number is the
-- `unsigned int` that it wraps to, and `inet_aton` gives four bytes or nothing. `iconv` is that from
-- GBK to UTF-8, on the bytes left and the room: whether it fails, the bytes it has used, and what it
-- writes.
pub record CLibrary : Type 0 where
  pub atoi : Bytes → ℕ
  pub inet_ntop : Bool → Bytes → Bytes
  pub inet_aton : Bytes → Option Bytes
  pub iconv : Bytes → ℕ → Bool × ℕ × Bytes

unfoldable pub vsf_sysutil_inet_ntop : CLibrary → SockAddr → Bytes
vsf_sysutil_inet_ntop c a = c.inet_ntop a.is_ipv6 a.addr

abbrev pub v4_text : CLibrary → Option Bytes → Bytes
v4_text c none = codes "0,0,0,0"
v4_text c (some raw) = c.inet_ntop false raw

unfoldable pub epsv_reply : ℕ → Bytes
epsv_reply the_port =
    (codes "Entering Extended Passive Mode (|||" ++ vsf_sysutil_ulong_to_str the_port) ++ codes "|)"

-- The text of the reply to PASV, from the text of the address.
unfoldable pub pasv_reply : Bytes → ℕ → Bytes
pasv_reply address the_port =
    str_replace_char (codes "Entering Passive Mode (" ++ address) b'.' b','
    ++ (b',' ∷ vsf_sysutil_ulong_to_str (the_port / 256))
    ++ (b',' ∷ vsf_sysutil_ulong_to_str (the_port % 256))
    ++ codes ")."

abbrev pub aton_or_die : Option Bytes → Outcome SockAddr
aton_or_die none = die
aton_or_die (some raw) = ok (record { is_ipv6 = false; addr = raw; port = 0 })

-- The address that is reported.
unfoldable pub pasv_sockaddr : CLibrary → CommandTunables → Client → Outcome SockAddr
unfolding vsf_sysutil_sockaddr_clone
pasv_sockaddr c t s = elim t.tunable_pasv_address [
  | none ↦ ok (vsf_sysutil_sockaddr_clone s.local_addr)
  | some text ↦ aton_or_die (c.inet_aton text)
]

-- The part of `handle_pasv` behind the argument of EPSV.
unfoldable pub start_listening : CLibrary → CommandTunables → Host → Client → Bool → Run Client
unfolding pasv_sockaddr vsf_sysutil_inet_ntop vsf_sysutil_sockaddr_ipv6_v4
start_listening c t h s is_epsv =
    let s1 = record s { port_sockaddr = none; pasv_listening = true } in
    also (listen ∷ []) (
      if is_epsv
      then answer 229 (epsv_reply h.listen_port) s1
      else quiet (pasv_sockaddr c t s1) >>> (λ a.
        answer 227
          (pasv_reply
            (if s.local_addr.is_ipv6
              then v4_text c (vsf_sysutil_sockaddr_ipv6_v4 a)
              else vsf_sysutil_inet_ntop c a)
            h.listen_port)
          s1))

-- The port is an `unsigned short`, and `arg` the argument of the command.
unfoldable pub handle_pasv : CLibrary → CommandTunables → Host → Client → Bytes → Bool → Run Client
unfolding start_listening
handle_pasv c t h s arg is_epsv =
    let upper = str_upper arg in
    let argval = c.atoi upper in
    if is_epsv && not (is_empty arg)
    then (if str_equal upper (codes "ALL")
        then answer 200 (codes "EPSV ALL ok.") (record s { epsv_all = true })
        else if ltb argval 1 || ltb 2 argval || (not s.local_addr.is_ipv6 && argval == 2)
        then answer 522 (codes "Bad network protocol.") s
        else start_listening c t h s is_epsv)
    else start_listening c t h s is_epsv

-- The end that PORT and EPRT share: `a` is the address without its port, and the replies differ.
unfoldable pub take_port : CommandTunables → Client → SockAddr → ℕ → Bytes → Bytes → Run Client
unfolding vsf_sysutil_is_port_reserved
take_port t s a the_port illegal accepted =
    let a1 = record a { port = the_port } in
    if not t.tunable_port_promiscuous
      && (not (vsf_sysutil_sockaddr_addr_equal s.remote_addr a1)
          || vsf_sysutil_is_port_reserved the_port)
    then answer 500 illegal (record s { port_sockaddr = none })
    else answer 200 accepted (record s { port_sockaddr = some a1 })

-- `vals[4] << 8 | vals[5]`, on the six bytes that were parsed.
abbrev pub port_of : Bytes → ℕ
port_of vals = elim (drop 4 vals) [ (hi ∷ lo ∷ rest) ↦ hi * 256 + lo | _ ↦ 0 ]

unfoldable pub port_with : CommandTunables → Client → Option Bytes → Run Client
unfolding take_port vsf_sysutil_sockaddr_clone vsf_sysutil_sockaddr_set_ipv4addr
port_with t s none = answer 500 (codes "Illegal PORT command.") s
port_with t s (some vals) =
    take_port t s
      (vsf_sysutil_sockaddr_set_ipv4addr (vsf_sysutil_sockaddr_clone s.local_addr) (take 4 vals))
      (port_of vals) (codes "Illegal PORT command.")
      (codes "PORT command successful. Consider using PASV.")

unfoldable pub handle_port : CLibrary → CommandTunables → Client → Bytes → Run Client
unfolding port_with port_cleanup pasv_cleanup
handle_port c t s arg =
    quiet (vsf_sysutil_parse_uchar_string_sep c.atoi arg b',' 6)
    >>> port_with t (port_cleanup (pasv_cleanup s))
