-- ===== src/Session/Greeting.antt =====
-- src/prelogin.c: the limits and the greeting; src/features.c, src/opts.c and the commands of
-- src/ssl.c that are accepted before a login.
use cos_ftp_v.Base.{
  ℕ, zero, suc, ◌+◌, Bool, true, false, not, ◌&&◌, ◌||◌, Option, none, some, List, [], ◌∷◌, ◌++◌,
  Bytes, codes, ltb, if◌then◌else◌, length, Outcome, ok, fault, ◌>>=◌,
}
use cos_ftp_v.Str.Compare.{str_equal}
use cos_ftp_v.Str.Edit.{str_upper, is_empty}
use cos_ftp_v.Str.Lines.{str_getline}
use cos_ftp_v.Session.{
  Session, Tunables, Doing, reply, reply_hyphen, reply_raw, log_connection, going, Turn, also,
  then_go, write_exit,
}

unfoldable pub check_limits : Tunables → Session → Turn
check_limits t s =
    if ltb 0 t.tunable_max_clients && ltb t.tunable_max_clients s.num_clients
    then also (log_connection (codes "Connection refused: too many sessions.") ∷ [])
        (write_exit 421 (codes "There are too many connected users, please try later.") 1)
    else if ltb 0 t.tunable_max_per_ip && ltb t.tunable_max_per_ip s.num_this_ip
    then also
        (log_connection (codes "Connection refused: too many sessions for this address.") ∷ [])
        (write_exit 421 (codes "There are too many connections from your internet address.") 1)
    else if not s.tcp_wrapper_ok
    then also (log_connection (codes "Connection refused: tcp_wrappers denial.") ∷ [])
        (write_exit 421 (codes "Service not available.") 1)
    else (log_connection [] ∷ [], going s)

greeting_text : Option Bytes → Bytes
greeting_text none = codes "(vsFTPd 3.0.3)"
greeting_text (some banner) = banner

-- `handshake` is whether the negotiation of src/ssl.c succeeds; its error text is left out.
unfoldable pub ssl_control_handshake : Bool → Session → Turn
ssl_control_handshake handshake s =
    if handshake
    then ([], going (record s { control_use_ssl = true }))
    else write_exit 421 (codes "Negotiation failed: ") 1

unfoldable pub handle_auth : Bool → Session → Bytes → Turn
unfolding ssl_control_handshake
handle_auth handshake s arg =
    let upper = str_upper arg in
    let is_ssl = str_equal upper (codes "SSL") || str_equal upper (codes "TLS-P") in
    if str_equal upper (codes "TLS") || str_equal upper (codes "TLS-C") || is_ssl
    then then_go
        (also (reply 234 (codes "Proceed with negotiation.") ∷ [])
          (ssl_control_handshake handshake s))
        (λ s1. ([], going (if is_ssl then record s1 { data_use_ssl = true } else s1)))
    else (reply 504 (codes "Unknown AUTH type.") ∷ [], going s)

unfoldable pub handle_pbsz : Session → Turn
handle_pbsz s =
    if not s.control_use_ssl
    then (reply 503 (codes "PBSZ needs a secure connection.") ∷ [], going s)
    else (reply 200 (codes "PBSZ set to 0.") ∷ [], going s)

unfoldable pub handle_prot : Session → Bytes → Turn
handle_prot s arg =
    let upper = str_upper arg in
    if not s.control_use_ssl
    then (reply 503 (codes "PROT needs a secure connection.") ∷ [], going s)
    else if str_equal upper (codes "C")
    then (reply 200 (codes "PROT now Clear.") ∷ [], going (record s { data_use_ssl = false }))
    else if str_equal upper (codes "P")
    then (reply 200 (codes "PROT now Private.") ∷ [], going (record s { data_use_ssl = true }))
    else if str_equal upper (codes "S") || str_equal upper (codes "E")
    then (reply 536 (codes "PROT not supported.") ∷ [], going s)
    else (reply 504 (codes "PROT not recognized.") ∷ [], going s)

unfoldable pub handle_opts : Bytes → List Doing
handle_opts arg =
    if str_equal (str_upper arg) (codes "UTF8 ON")
    then reply 200 (codes "Always in UTF8 mode.") ∷ []
    else reply 501 (codes "Option not understood.") ∷ []

abbrev pub when : Bool → List Doing → List Doing
when b did = if b then did else []

unfoldable pub handle_feat : Tunables → List Doing
handle_feat t =
    (reply_hyphen 211 (codes "Features:") ∷ [])
    ++ (when (t.tunable_ssl_enable && (t.tunable_sslv2 || t.tunable_sslv3))
          (reply_raw (codes " AUTH SSL\r\n") ∷ [])
        ++ (when (t.tunable_ssl_enable && t.tunable_tlsv1) (reply_raw (codes " AUTH TLS\r\n") ∷ [])
            ++ (when t.tunable_port_enable (reply_raw (codes " EPRT\r\n") ∷ [])
                ++ (when t.tunable_pasv_enable
                      (reply_raw (codes " EPSV\r\n") ∷ reply_raw (codes " PASV\r\n") ∷ [])
                    ++ (when t.tunable_ssl_enable
                          (reply_raw (codes " PBSZ\r\n") ∷ reply_raw (codes " PROT\r\n") ∷ [])
                        ++ (reply_raw (codes " SIZE\r\n")
                            ∷ reply_raw (codes " TVFS\r\n")
                            ∷ reply_raw (codes " UTF8\r\n")
                            ∷ reply 211 (codes "End")
                            ∷ []))))))

-- src/banner.c: each line of the text is a line of a reply that goes on; `fault` is a lack of fuel.
pub banner_loop : ℕ → ℕ → Bytes → ℕ → Outcome (List Doing)
banner_loop zero ftpcode s pos = fault
banner_loop (suc fuel) ftpcode s pos = str_getline s pos >>= (λ o. elim o [
  | none ↦ ok []
  | some (line, pos') ↦
      banner_loop fuel ftpcode s pos' >>= (λ did. ok (reply_hyphen ftpcode line ∷ did))
])

unfoldable pub vsf_banner_write : ℕ → Bytes → Outcome (List Doing)
unfolding banner_loop
vsf_banner_write ftpcode s = banner_loop (length s + 1) ftpcode s 0

unfoldable pub emit_greeting : Tunables → Session → Outcome (List Doing × Session)
unfolding greeting_text
emit_greeting t s =
    if not (is_empty s.banner_str)
    then (vsf_banner_write 220 s.banner_str
        >>= (λ did. ok (did ++ reply 220 [] ∷ [], record s { banner_str = [] })))
    else ok (reply 220 (greeting_text t.tunable_ftpd_banner) ∷ [], s)
