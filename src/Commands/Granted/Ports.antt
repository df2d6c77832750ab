-- ===== src/Commands/Granted/Ports.antt =====
-- PORT, EPRT and PASV keep a session in order.
use cos_ftp_v.Base.{
  ℕ, ◌≡◌, refl, ◌≢◌, inl, inr, Bool, true, false, not, ◌&&◌, ◌||◌, Option, none, some, [], ◌∷◌,
  arith, Bytes, codes, ltb, ◌==◌, if◌then◌else◌, Option-cases, if_elim, take, ok, Ends-mono,
}
use cos_ftp_v.Addresses.Items.{
  HasItems, parse_uchar_string_sep-HasItems, HasFuel, parse_ipv6-HasFuel,
}
use cos_ftp_v.Addresses.{
  Parsed, vsf_sysutil_parse_ipv6, vsf_sysutil_parse_ipv4, no_address, out_of_fuel, parsed,
  vsf_sysutil_parse_uchar_string_sep,
}
use cos_ftp_v.Commands.{SockAddr, Client, CommandTunables, Host, Run, listen}
use cos_ftp_v.Commands.Data.{
  CLibrary, pasv_sockaddr, aton_or_die, start_listening, handle_pasv, take_port, port_with,
  handle_port, vsf_sysutil_sockaddr_addr_equal, vsf_sysutil_is_port_reserved, port_of,
  vsf_sysutil_sockaddr_clone, vsf_sysutil_sockaddr_set_ipv4addr, vsf_sysutil_sockaddr_set_ipv6addr,
}
use cos_ftp_v.Commands.Data.Eprt.{of_parsed, eprt_address, eprt_port, eprt_protocol, handle_eprt}
use cos_ftp_v.Str.Split.{str_split_char}
use cos_ftp_v.Str.Split.Parts.{str_split_char-before-after}
use cos_ftp_v.Str.Edit.{is_empty, str_upper}
use cos_ftp_v.Str.Compare.{str_equal}
use cos_ftp_v.Commands.Runs.{Sound, Returns→Sound, Sound-bind, Runs, Runs-also, quietly}
use cos_ftp_v.Commands.Granted.{Granted, is_trusted, Idle}

module _ (t : CommandTunables) (s0 : Client) (stores : Bool) (B : Type 0) where
  -- What a run that ends idle does.
  abbrev Does : Run Client → Type 0
  Does run = Runs (Granted t s0 stores) B (Idle t s0) run

  same_peer :
      (s : Client) (a : SockAddr)
      → s.remote_addr ≡ s0.remote_addr
      → (not t.tunable_port_promiscuous
          && (not (vsf_sysutil_sockaddr_addr_equal s.remote_addr a)
              || vsf_sysutil_is_port_reserved a.port))
        ≡ false
      → is_trusted t s0 a ≡ true
  same_peer s a e = rw e (ground arith)

  pub take_port-Does :
      (s : Client) (a : SockAddr) (the_port : ℕ) (illegal accepted : Bytes)
      → Idle t s0 s
      → s.pasv_listening ≡ false
      → Does (take_port t s a the_port illegal accepted)
  unfolding take_port
  take_port-Does s a the_port illegal accepted h off =
      if_elim Does
        (not t.tunable_port_promiscuous
          && (not (vsf_sysutil_sockaddr_addr_equal s.remote_addr (record a { port = the_port }))
              || vsf_sysutil_is_port_reserved the_port))
        _ _ (λ no. ((tt, tt), ((h.0.0, h.0.1, h.0.2, h.0.3, refl, tt), h.1)))
        (λ yes. (
          (tt, tt),
          (
            (h.0.0, h.0.1, h.0.2, h.0.3, off, same_peer s (record a { port = the_port }) h.0.2 yes),
            h.1,
          ),
        ))

  -- After both cleanups.
  pub cleaned-Idle :
      (s : Client)
      → Idle t s0 s
      → Idle t s0 (record s { port_sockaddr = none; pasv_listening = false })
  cleaned-Idle s h = ((h.0.0, h.0.1, h.0.2, h.0.3, refl, tt), h.1)

  port_with-Does :
      (s : Client) (vals : Option Bytes)
      → Idle t s0 s
      → s.pasv_listening ≡ false
      → Does (port_with t s vals)
  unfolding port_with
  port_with-Does s none h off = ((tt, tt), h)
  port_with-Does s (some vals) h off =
      take_port-Does s
        (vsf_sysutil_sockaddr_set_ipv4addr (vsf_sysutil_sockaddr_clone s.local_addr) (take 4 vals))
        (port_of vals) (codes "Illegal PORT command.")
        (codes "PORT command successful. Consider using PASV.") h off

  pub handle_port-Does :
      (c : CLibrary) (s : Client) (arg : Bytes) → Idle t s0 s → Does (handle_port c t s arg)
  unfolding handle_port
  handle_port-Does c s arg h =
      quietly (Granted t s0 stores) B (λ v. Unit) (Idle t s0)
        (vsf_sysutil_parse_uchar_string_sep c.atoi arg b',' 6) _
        (Returns→Sound B (λ v. Unit) (vsf_sysutil_parse_uchar_string_sep c.atoi arg b',' 6)
          (Ends-mono ⊥ ⊥ (HasItems 6) (λ v. Unit)
            (vsf_sysutil_parse_uchar_string_sep c.atoi arg b',' 6) (λ i. i) (λ v k. tt)
            (parse_uchar_string_sep-HasItems c.atoi arg b',' 6 (λ e. absurd cc))))
        (λ vals u.
          port_with-Does (record s { port_sockaddr = none; pasv_listening = false }) vals
            (cleaned-Idle s h) refl)

  -- A split at a byte is sound.
  pub split-Sound : (s : Bytes) (c : ℕ) → c ≢ 0 → Sound B (λ p. Unit) (str_split_char s c)
  split-Sound s c ne = rw (str_split_char-before-after s c ne) tt

  of_parsed-Sound : (r : Parsed) → HasFuel r → Sound B (λ o. Unit) (of_parsed r)
  of_parsed-Sound no_address h = tt
  of_parsed-Sound out_of_fuel h = absurd h
  of_parsed-Sound (parsed raw) h = tt

  eprt_address-Sound :
      (c : CLibrary) (proto : ℕ) (part : Bytes) → Sound B (λ o. Unit) (eprt_address c proto part)
  unfolding eprt_address vsf_sysutil_parse_ipv4
  eprt_address-Sound c proto part =
      if_elim (Sound B (λ o. Unit)) (proto == 2) _ _
        (λ e.
          Sound-bind B (λ p. Unit) (λ o. Unit) (str_split_char part b'%') _
            (split-Sound part b'%' (λ e. absurd cc))
            (λ p u.
              Sound-bind B HasFuel (λ o. Unit) (vsf_sysutil_parse_ipv6 p.0) of_parsed
                (Returns→Sound B HasFuel (vsf_sysutil_parse_ipv6 p.0) (parse_ipv6-HasFuel p.0))
                of_parsed-Sound))
        (λ e.
          Returns→Sound B (λ v. Unit) (vsf_sysutil_parse_uchar_string_sep c.atoi part b'.' 4)
            (Ends-mono ⊥ ⊥ (HasItems 4) (λ v. Unit)
              (vsf_sysutil_parse_uchar_string_sep c.atoi part b'.' 4) (λ i. i) (λ v k. tt)
              (parse_uchar_string_sep-HasItems c.atoi part b'.' 4 (λ e. absurd cc))))

  -- The protocol fits the address of the server.
  abbrev Fits : Client → ℕ → Type 0
  Fits s proto = (not s.local_addr.is_ipv6 && proto == 2) ≡ false

  set_addr-Sound :
      (s : Client) (proto : ℕ) (raw : Bytes)
      → Fits s proto
      → Sound B
          (λ a. Unit)
          (if proto == 2
            then vsf_sysutil_sockaddr_set_ipv6addr (vsf_sysutil_sockaddr_clone s.local_addr) raw
            else ok
                (vsf_sysutil_sockaddr_set_ipv4addr (vsf_sysutil_sockaddr_clone s.local_addr) raw))
  unfolding vsf_sysutil_sockaddr_set_ipv6addr vsf_sysutil_sockaddr_clone
  set_addr-Sound s proto raw fits = ground (arith, fits)

  eprt_port-Does :
      (c : CLibrary) (s : Client) (proto : ℕ) (part2 : Bytes) (o : Option Bytes)
      → Fits s proto
      → Idle t s0 s
      → s.pasv_listening ≡ false
      → Does (eprt_port c t s proto part2 o)
  unfolding eprt_port
  eprt_port-Does c s proto part2 none fits h off = ((tt, tt), h)
  eprt_port-Does c s proto part2 (some raw) fits h off =
      quietly (Granted t s0 stores) B (λ p. Unit) (Idle t s0) (str_split_char part2 b'|') _
        (split-Sound part2 b'|' (λ e. absurd cc))
        (λ p u.
          if_elim Does (not (is_empty p.1) || is_empty p.0) _ _ (λ e. ((tt, tt), h))
            (λ e.
              if_elim Does (ltb 65535 (c.atoi p.0)) _ _ (λ e. ((tt, tt), h))
                (λ e.
                  quietly (Granted t s0 stores) B (λ a. Unit) (Idle t s0) _ _
                    (set_addr-Sound s proto raw fits)
                    (λ a u.
                      take_port-Does s a (c.atoi p.0) (codes "Illegal EPRT command.")
                        (codes "EPRT command successful. Consider using EPSV.") h off))))

  protocol-Fits :
      (s : Client) (proto : ℕ)
      → (ltb proto 1 || ltb 2 proto || (not s.local_addr.is_ipv6 && proto == 2)) ≡ false
      → Fits s proto
  protocol-Fits s proto e = ground arith

  eprt_protocol-Does :
      (c : CLibrary) (s : Client) (rest : Bytes)
      → Idle t s0 s
      → s.pasv_listening ≡ false
      → Does (eprt_protocol c t s rest)
  unfolding eprt_protocol
  eprt_protocol-Does c s rest h off =
      quietly (Granted t s0 stores) B (λ p. Unit) (Idle t s0) (str_split_char rest b'|') _
        (split-Sound rest b'|' (λ e. absurd cc))
        (λ p u.
          if_elim Does
            (ltb (c.atoi p.0) 1
              || ltb 2 (c.atoi p.0)
              || (not s.local_addr.is_ipv6 && c.atoi p.0 == 2))
            _ _ (λ e. ((tt, tt), h))
            (λ e.
              quietly (Granted t s0 stores) B (λ q. Unit) (Idle t s0) (str_split_char p.1 b'|') _
                (split-Sound p.1 b'|' (λ e. absurd cc))
                (λ q u.
                  quietly (Granted t s0 stores) B (λ o. Unit) (Idle t s0)
                    (eprt_address c (c.atoi p.0) q.0) _ (eprt_address-Sound c (c.atoi p.0) q.0)
                    (λ o u.
                      eprt_port-Does c s (c.atoi p.0) q.1 o (protocol-Fits s (c.atoi p.0) e) h
                        off))))

  pub handle_eprt-Does :
      (c : CLibrary) (s : Client) (arg : Bytes) → Idle t s0 s → Does (handle_eprt c t s arg)
  unfolding handle_eprt
  handle_eprt-Does c s arg h =
      quietly (Granted t s0 stores) B (λ p. Unit) (Idle t s0) (str_split_char arg b'|') _
        (split-Sound arg b'|' (λ e. absurd cc))
        (λ p u.
          if_elim Does (not (is_empty p.0)) _ _ (λ e. ((tt, tt), cleaned-Idle s h))
            (λ e.
              eprt_protocol-Does c (record s { port_sockaddr = none; pasv_listening = false }) p.1
                (cleaned-Idle s h) refl))

  sockaddr-Sound : (c : CLibrary) (s : Client) → Sound B (λ a. Unit) (pasv_sockaddr c t s)
  unfolding pasv_sockaddr
  sockaddr-Sound c s = elim (Option-cases t.tunable_pasv_address) [
    | inl e ↦ rw e tt
    | inr (text, e) ↦ rw e (by_text (c.inet_aton text))
  ]
    where
      by_text : (raw : Option Bytes) → Sound B (λ a. Unit) (aton_or_die raw)
      by_text none = tt
      by_text (some raw) = tt

  start_listening-Does :
      (c : CLibrary) (h : Host) (s : Client) (is_epsv : Bool)
      → Idle t s0 s
      → Does (start_listening c t h s is_epsv)
  unfolding start_listening
  start_listening-Does c h s is_epsv k =
      let k1 : Idle t s0 (record s { port_sockaddr = none; pasv_listening = true }) =
        ((k.0.0, k.0.1, k.0.2, k.0.3, refl, tt), k.1) in
      Runs-also (Granted t s0 stores) B (Idle t s0) (listen ∷ []) _ (tt, tt)
        (if_elim Does is_epsv _ _ (λ e. ((tt, tt), k1))
          (λ e.
            quietly (Granted t s0 stores) B (λ a. Unit) (Idle t s0)
              (pasv_sockaddr c t (record s { port_sockaddr = none; pasv_listening = true })) _
              (sockaddr-Sound c (record s { port_sockaddr = none; pasv_listening = true }))
              (λ a u. ((tt, tt), k1))))

  pub handle_pasv-Does :
      (c : CLibrary) (h : Host) (s : Client) (arg : Bytes) (is_epsv : Bool)
      → Idle t s0 s
      → Does (handle_pasv c t h s arg is_epsv)
  unfolding handle_pasv
  handle_pasv-Does c h s arg is_epsv k =
      let upper = str_upper arg in
      let argval = c.atoi upper in
      if_elim Does (is_epsv && not (is_empty arg)) _ _
        (λ e.
          if_elim Does (str_equal upper (codes "ALL")) _ _ (λ e. ((tt, tt), k))
            (λ e.
              if_elim Does
                (ltb argval 1 || ltb 2 argval || (not s.local_addr.is_ipv6 && argval == 2)) _ _
                (λ e. ((tt, tt), k)) (λ e. start_listening-Does c h s is_epsv k)))
        (λ e. start_listening-Does c h s is_epsv k)
