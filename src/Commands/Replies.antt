-- ===== src/Commands/Replies.antt =====
-- The commands of src/postlogin.c that only answer.
use cos_ftp_v.Base.{
  ℕ, true, false, List, [], ◌∷◌, ◌++◌, map, Bytes, codes, ltb, ◌==◌, if◌then◌else◌, ok, exit,
}
use cos_ftp_v.Str.Compare.{str_equal}
use cos_ftp_v.Str.Edit.{str_upper}
use cos_ftp_v.Str.Locate.{c_str}
use cos_ftp_v.SysUtil.Numbers.{vsf_sysutil_ulong_to_str}
use cos_ftp_v.Session.{Session, Turn, going, gone, logged_in, reply_hyphen}
use cos_ftp_v.Commands.{Client, CommandTunables, said, Run, does, write, write_raw, answer}

unfoldable pub handle_help : Client → Run Client
handle_help s =
    does
      (said (reply_hyphen 214 (codes "The following commands are recognized."))
        ∷ write_raw
            (codes " ABOR ACCT ALLO APPE CDUP CWD  DELE EPRT EPSV FEAT HELP LIST MDTM MKD\r\n")
        ∷ write_raw
            (codes " MODE NLST NOOP OPTS PASS PASV PORT PWD  QUIT REIN REST RETR RMD  RNFR\r\n")
        ∷ write_raw
            (codes " RNTO SITE SIZE SMNT STAT STOR STOU STRU SYST TYPE USER XCUP XCWD XMKD\r\n")
        ∷ write_raw (codes " XPWD XRMD\r\n")
        ∷ write 214 (codes "Help OK.")
        ∷ [])
      s

-- A line of STAT that ends in a number.
abbrev number_line : Bytes → ℕ → List Bytes
number_line text n = text ∷ vsf_sysutil_ulong_to_str n ∷ codes "\r\n" ∷ []

-- The texts of STAT that are written as they are, in order.
unfoldable pub stat_texts : CommandTunables → Client → List Bytes
stat_texts t s =
    (codes "     Connected to "
      ∷ c_str s.remote_ip_str
      ∷ codes "\r\n"
      ∷ codes "     Logged in as "
      ∷ c_str s.user_str
      ∷ codes "\r\n"
      ∷ codes "     TYPE: "
      ∷ (if s.is_ascii then codes "ASCII\r\n" else codes "BINARY\r\n")
      ∷ [])
    ++ ((if s.bw_rate_max == 0
          then codes "     No session bandwidth limit\r\n" ∷ []
          else number_line (codes "     Session bandwidth limit in byte/s is ") s.bw_rate_max)
        ++ ((if t.tunable_idle_session_timeout == 0
              then codes "     No session timeout\r\n" ∷ []
              else number_line (codes "     Session timeout in seconds is ")
                  t.tunable_idle_session_timeout)
            ++ (((if s.control_use_ssl
                    then codes "     Control connection is encrypted\r\n"
                    else codes "     Control connection is plain text\r\n")
                  ∷ (if s.data_use_ssl
                      then codes "     Data connections will be encrypted\r\n"
                      else codes "     Data connections will be plain text\r\n")
                  ∷ [])
                ++ ((if ltb 0 s.num_clients
                      then number_line (codes "     At session startup, client count was ")
                          s.num_clients
                      else [])
                    ++ (codes "     vsFTPd 3.0.3 - secure, fast, stable\r\n" ∷ [])))))

unfoldable pub handle_stat : CommandTunables → Client → Run Client
unfolding stat_texts
handle_stat t s =
    does
      (said (reply_hyphen 211 (codes "FTP server status:"))
        ∷ (map write_raw (stat_texts t s) ++ (write 211 (codes "End of status") ∷ [])))
      s

unfoldable pub handle_logged_in_user : Client → Bytes → Run Client
handle_logged_in_user s arg =
    if s.is_anonymous
    then answer 530 (codes "Can't change from guest user.") s
    else if str_equal s.user_str arg
    then answer 331 (codes "Any password will do.") s
    else answer 530 (codes "Can't change to another user.") s

unfoldable pub handle_logged_in_pass : Client → Run Client
handle_logged_in_pass s = answer 230 (codes "Already logged in.") s

-- The branch of STRU in `process_post_login`.
unfoldable pub handle_stru : Client → Bytes → Run Client
handle_stru s arg =
    if str_equal (str_upper arg) (codes "F")
    then answer 200 (codes "Structure set to F.") s
    else answer 504 (codes "Bad STRU command.") s

-- And that of MODE.
unfoldable pub handle_mode : Client → Bytes → Run Client
handle_mode s arg =
    if str_equal (str_upper arg) (codes "S")
    then answer 200 (codes "Mode set to S.") s
    else answer 504 (codes "Bad MODE command.") s

-- What PBSZ and PROT, which are modelled on a session before its login, see of a session after it.
abbrev pub as_session : Client → Session
as_session s = record {
  user_str = s.user_str;
  is_http = false;
  http_get_arg = [];
  userlist_str = [];
  banner_str = [];
  tcp_wrapper_ok = true;
  num_clients = s.num_clients;
  num_this_ip = 0;
  control_use_ssl = s.control_use_ssl;
  data_use_ssl = s.data_use_ssl;
  login_fails = 0;
}

-- And what they change of it.
abbrev pub handle_turn : Client → Turn → Run Client
handle_turn s (did, going s1) = (map said did, ok (record s { data_use_ssl = s1.data_use_ssl }))
handle_turn s (did, gone n) = (map said did, exit n)
handle_turn s (did, logged_in) = (map said did, ok s)
