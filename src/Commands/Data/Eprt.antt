-- ===== src/Commands/Data/Eprt.antt =====
-- `handle_eprt` of src/postlogin.c.
use cos_ftp_v.Base.{
  ℕ, not, ◌&&◌, ◌||◌, Option, none, some, Bytes, codes, ltb, ◌==◌, if◌then◌else◌, Outcome, ok,
  fault, ◌>>=◌,
}
use cos_ftp_v.Str.Edit.{is_empty}
use cos_ftp_v.Str.Split.{str_split_char}
use cos_ftp_v.Addresses.{
  Parsed, no_address, out_of_fuel, parsed, vsf_sysutil_parse_ipv4, vsf_sysutil_parse_ipv6,
}
use cos_ftp_v.Commands.{Client, CommandTunables, Run, ◌>>>◌, quiet, answer}
use cos_ftp_v.Commands.Data.{
  CLibrary, vsf_sysutil_sockaddr_clone, vsf_sysutil_sockaddr_set_ipv4addr,
  vsf_sysutil_sockaddr_set_ipv6addr, port_cleanup, pasv_cleanup, take_port,
}

abbrev pub of_parsed : Parsed → Outcome (Option Bytes)
of_parsed no_address = ok none
of_parsed out_of_fuel = fault
of_parsed (parsed raw) = ok (some raw)

abbrev bad_eprt : Client → Run Client
bad_eprt s = answer 500 (codes "Bad EPRT command.") s

unfoldable pub eprt_address : CLibrary → ℕ → Bytes → Outcome (Option Bytes)
eprt_address c proto part =
    if proto == 2
    then str_split_char part b'%' >>= (λ p. vsf_sysutil_parse_ipv6 p.0 >>= of_parsed)
    else vsf_sysutil_parse_ipv4 c.atoi part

-- The port and its checks, in the text behind the address.
unfoldable pub eprt_port :
    CLibrary → CommandTunables → Client → ℕ → Bytes → Option Bytes → Run Client
unfolding take_port vsf_sysutil_sockaddr_clone vsf_sysutil_sockaddr_set_ipv4addr
    vsf_sysutil_sockaddr_set_ipv6addr
eprt_port c t s proto part2 none = bad_eprt s
eprt_port c t s proto part2 (some raw) = quiet (str_split_char part2 b'|') >>> (λ p.
    let port = c.atoi p.0 in
    let local = vsf_sysutil_sockaddr_clone s.local_addr in
    if not (is_empty p.1) || is_empty p.0
    then bad_eprt s
    else if ltb 65535 port
    then bad_eprt s
    else quiet (
        if proto == 2
        then vsf_sysutil_sockaddr_set_ipv6addr local raw
        else ok (vsf_sysutil_sockaddr_set_ipv4addr local raw))
      >>> (λ a.
          take_port t s a port (codes "Illegal EPRT command.")
            (codes "EPRT command successful. Consider using EPSV.")))

-- The protocol and the address, in the text behind the first bar.
unfoldable pub eprt_protocol : CLibrary → CommandTunables → Client → Bytes → Run Client
unfolding eprt_address eprt_port
eprt_protocol c t s rest = quiet (str_split_char rest b'|') >>> (λ p.
    let proto = c.atoi p.0 in
    if ltb proto 1 || ltb 2 proto || (not s.local_addr.is_ipv6 && proto == 2)
    then answer 500 (codes "Bad EPRT protocol.") s
    else quiet (str_split_char p.1 b'|')
      >>> (λ q. quiet (eprt_address c proto q.0) >>> eprt_port c t s proto q.1))

unfoldable pub handle_eprt : CLibrary → CommandTunables → Client → Bytes → Run Client
unfolding eprt_protocol port_cleanup pasv_cleanup
handle_eprt c t s arg =
    let s1 = pasv_cleanup (port_cleanup s) in
    quiet (str_split_char arg b'|')
    >>> (λ p. if not (is_empty p.0) then bad_eprt s1 else eprt_protocol c t s1 p.1)
