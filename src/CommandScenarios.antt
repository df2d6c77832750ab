-- ===== src/CommandScenarios.antt =====
-- Commands of a session after its login, at concrete inputs.
use cos_ftp_v.Base.{
  ◌%◌, ◌≡◌, refl, true, false, not, ◌&&◌, none, some, List, [], ◌∷◌, ◌++◌, map, Bytes, codes,
  length, take, All, ok, Returns,
}
use cos_ftp_v.Session.{Tunables}
use cos_ftp_v.Commands.{SockAddr, Client, CommandTunables, Host, transferred_all, got_fd, ret_0}
use cos_ftp_v.Commands.Paths.{session_real_path, session_check, prepend_session_path_to_filename}
use cos_ftp_v.Commands.{log_line}
use cos_ftp_v.Commands.Convert.{cos_conv_gbk_2_utf}
use cos_ftp_v.Commands.Data.{CLibrary}
use cos_ftp_v.Access.{vsf_access_check_file}
use cos_ftp_v.Commands.Granted.{Granted}
use cos_ftp_v.Commands.Granted.Rounds.{any_stor, process_post_login-Granted}
use cos_ftp_v.Commands.Paths.Resolved.{Lacks, session_real_path-Lacks}
use cos_ftp_v.Commands.Round.Allowed.{is_allowed, is_denied, cmd_ok-is_allowed}
use cos_ftp_v.Commands.Round.{cmd_ok, process_post_login}

abbrev tunables : Tunables
tunables = record {
  tunable_ftp_enable = true;
  tunable_http_enable = false;
  tunable_ssl_enable = false;
  tunable_implicit_ssl = false;
  tunable_local_enable = true;
  tunable_allow_anon_ssl = false;
  tunable_force_anon_logins_ssl = false;
  tunable_force_local_logins_ssl = false;
  tunable_userlist_enable = false;
  tunable_userlist_deny = true;
  tunable_no_anon_password = false;
  tunable_port_enable = true;
  tunable_pasv_enable = true;
  tunable_sslv2 = false;
  tunable_sslv3 = false;
  tunable_tlsv1 = true;
  tunable_ftpd_banner = none;
  tunable_max_clients = 0;
  tunable_max_per_ip = 0;
  tunable_max_login_fails = 3;
  tunable_delay_failed_login = 1;
}

abbrev settings : CommandTunables
settings = record {
  tunable_cmds_allowed = none;
  tunable_cmds_denied = some (codes "REST,MDTM");
  tunable_deny_file = none;
  tunable_pasv_address = none;
  tunable_pasv_enable = true;
  tunable_port_enable = true;
  tunable_port_promiscuous = false;
  tunable_download_enable = true;
  tunable_dirlist_enable = true;
  tunable_write_enable = true;
  tunable_anon_upload_enable = false;
  tunable_anon_mkdir_write_enable = false;
  tunable_anon_other_write_enable = false;
  tunable_tilde_user_enable = false;
  tunable_chown_uploads = false;
  tunable_lock_upload_files = true;
  tunable_delete_failed_uploads = false;
  tunable_ascii_upload_enable = false;
  tunable_ascii_download_enable = false;
  tunable_ssl_enable = false;
  tunable_require_ssl_reuse = true;
  tunable_force_local_data_ssl = true;
  tunable_force_anon_data_ssl = false;
  tunable_max_upload_file_size = 1048576;
  tunable_idle_session_timeout = 300;
  tunable_anon_umask = 63;
  tunable_local_umask = 63;
  tunable_anon_max_rate = 0;
  tunable_local_max_rate = 0;
  feature_tunables = tunables;
}

abbrev localhost : SockAddr
localhost = record { is_ipv6 = false; addr = 127 ∷ 0 ∷ 0 ∷ 1 ∷ []; port = 0 }

abbrev client : Client
client = record {
  is_anonymous = false;
  permissions = 3;
  user_str = codes "u";
  user_root = codes "/r/u";
  home_str = codes "/r/u";
  cwd = codes "/r/u";
  remote_ip_str = codes "127.0.0.1";
  local_addr = localhost;
  remote_addr = localhost;
  num_clients = 1;
  bw_rate_max = 0;
  control_use_ssl = false;
  data_use_ssl = false;
  is_ascii = false;
  epsv_all = false;
  restart_pos = 0;
  port_sockaddr = none;
  pasv_listening = false;
  data_open = false;
  abor_received = false;
  data_timeout = false;
  log_type = none;
  log_str = [];
  transfer_size = 0;
}

abbrev host : Host
host = record {
  home_of = λ n. none;
  chdir_works = true;
  mkdirs_works = true;
  chdir_works_then = true;
  dir_after = codes "/r/u/d";
  isdir = true;
  mkdir_ret = ret_0;
  dir_isempty_ret = ret_0;
  rmdir_ret = ret_0;
  unlink_ret = ret_0;
  file_size = some 5;
  listen_port = 4660;
  pasv_fd = got_fd;
  port_connects = true;
  handshake = true;
  transfer = transferred_all;
  transferred = 5;
  dir_sent = true;
  times_out = false;
  aborts = false;
  closes = true;
  created = some 0;
  locks = true;
  uploaded = true;
}

abbrev library : CLibrary
library = record {
  atoi = λ s. length s;
  inet_ntop = λ v6 raw. codes "127.0.0.1";
  inet_aton = λ s. none;
  iconv = λ s room. (false, length s, take room (map (λ c. c % 128) s));
}

real_path_of_dots : session_real_path client (codes "a/./b/../c") ≡ ok (codes "/r/u/a/c")
unfolding session_real_path cos_ftp_v.Access.with_slash cos_ftp_v.Str.Edit.is_empty
    cos_ftp_v.Str.Edit.str_replace_text cos_ftp_v.Str.Split.str_split_text
    cos_ftp_v.Str.Locate.str_locate_text cos_ftp_v.Str.Split.str_split_char_reverse
    cos_ftp_v.Str.Locate.str_locate_text_reverse
real_path_of_dots = refl

-- The local name of an upload is checked as a path under the root once more, so "../../etc" passes
-- while the file it names is "/etc".
upload_above_root :
    session_check settings client (prepend_session_path_to_filename client (codes "../../etc"))
    ≡ ok true
unfolding session_check prepend_session_path_to_filename cos_ftp_v.Access.with_slash
    cos_ftp_v.Str.Edit.is_empty cos_ftp_v.Str.Edit.str_replace_text
    cos_ftp_v.Str.Split.str_split_text cos_ftp_v.Str.Locate.str_locate_text
    cos_ftp_v.Str.Split.str_split_char_reverse cos_ftp_v.Str.Locate.str_locate_text_reverse
    cos_ftp_v.Access.vsf_access_check_file
upload_above_root = refl

-- The directory above the root passes the check.
parent_of_root : session_check settings client (codes "..") ≡ ok true
unfolding session_check cos_ftp_v.Access.with_slash cos_ftp_v.Str.Edit.is_empty
    cos_ftp_v.Str.Edit.str_replace_text cos_ftp_v.Str.Split.str_split_text
    cos_ftp_v.Str.Locate.str_locate_text cos_ftp_v.Access.vsf_access_check_file
parent_of_root = refl

dots_above_root : session_check settings client (codes "../../etc") ≡ ok false
unfolding session_check cos_ftp_v.Access.with_slash cos_ftp_v.Str.Edit.is_empty
    cos_ftp_v.Str.Edit.str_replace_text cos_ftp_v.Str.Split.str_split_text
    cos_ftp_v.Str.Locate.str_locate_text cos_ftp_v.Str.Split.str_split_char_reverse
    cos_ftp_v.Str.Locate.str_locate_text_reverse
dots_above_root = refl

-- PASV and an upload, a listing that finds no connection, and commands that are denied or unknown.
abbrev history : List (Host × Bytes × Bytes)
history =
    (host, codes "PASV", [])
    ∷ (host, codes "STOR", codes "f")
    ∷ (host, codes "LIST", [])
    ∷ (host, codes "REST", codes "5")
    ∷ (host, codes "MKD", codes "d")
    ∷ (host, codes "DELE", codes "f")
    ∷ (host, codes "CWD", codes "d")
    ∷ (host, codes "NOPE", [])
    ∷ []

process_post_login-Granted_example :
    All
      (Granted settings client (any_stor history))
      (process_post_login library settings client history).0
process_post_login-Granted_example =
    process_post_login-Granted library settings client history (refl, refl, refl)

-- A text in UTF-8 is left as it is; two bytes that are none are converted.
utf8_argument : cos_conv_gbk_2_utf library (195 ∷ 169 ∷ []) ≡ ([], 195 ∷ 169 ∷ [])
unfolding cos_conv_gbk_2_utf cos_ftp_v.Commands.Convert.is_utf8 cos_ftp_v.Commands.Convert.scan_loop
    cos_ftp_v.Commands.Convert.scan_byte cos_ftp_v.Commands.Convert.scan_first
    cos_ftp_v.Str.Edit.is_empty
utf8_argument = refl

gbk_argument : cos_conv_gbk_2_utf library (196 ∷ 227 ∷ []) ≡ (
  log_line (codes "conv gbk to utf-8, src:" ++ 196 ∷ 227 ∷ codes "  dst:Dc")
      ∷ log_line (codes "4463")
      ∷ [],
  codes "Dc",
)
unfolding cos_conv_gbk_2_utf cos_ftp_v.Commands.Convert.is_utf8 cos_ftp_v.Commands.Convert.scan_loop
    cos_ftp_v.Commands.Convert.scan_byte cos_ftp_v.Commands.Convert.scan_first
    cos_ftp_v.Commands.Convert.code_convert cos_ftp_v.Commands.Convert.iconv_loop
    cos_ftp_v.Commands.Convert.inner_asc_2_bcd cos_ftp_v.Str.Edit.is_empty
    cos_ftp_v.Str.Locate.c_str
gbk_argument = refl

session_real_path-Lacks_example :
    Returns (Lacks (codes "/../")) (session_real_path client (codes "a/./b/../../c"))
session_real_path-Lacks_example = session_real_path-Lacks client (codes "a/./b/../../c")

cmd_ok-is_allowed_example :
    cmd_ok settings (codes "REST")
    ≡ ok (
        is_allowed settings.tunable_cmds_allowed (codes "REST")
        && not (is_denied settings.tunable_cmds_denied (codes "REST")))
cmd_ok-is_allowed_example = cmd_ok-is_allowed settings (codes "REST")
