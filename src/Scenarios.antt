-- ===== src/Scenarios.antt =====
-- Sessions and their two processes on concrete inputs, and the theorems at such inputs.
use cos_ftp_v.Base.{
  ℕ, ◌-◌, ◌≤◌, ◌<◌, max, ◌≡◌, refl, inl, inr, Bool, true, false, Option, none, some, List, [], ◌∷◌,
  ◌++◌, arith, Bytes, codes, ◌==◌, if◌then◌else◌, All, ok, Ends, Returns,
}
use cos_ftp_v.Str.Chars.{
  vsf_sysutil_toupper, vsf_sysutil_isalnum, vsf_sysutil_isspace, vsf_sysutil_isprint,
}
use cos_ftp_v.Str.Compare.{str_equal}
use cos_ftp_v.Str.Edit.{is_empty, str_upper, str_contains_space, str_contains_unprintable}
use cos_ftp_v.Str.Locate.{c_str}
use cos_ftp_v.Session.{Session, Tunables}
use cos_ftp_v.Session.Prelogin.{is_anon, parse_username_password}
use cos_ftp_v.Session.Guesses.{attempts, parse_username_password-attempts}
use cos_ftp_v.Session.Admitted.{AdmitsAll, parse_username_password-AdmitsAll}
use cos_ftp_v.Str.Lines.Each.{lines}
use cos_ftp_v.Settings.{Config, vsf_parseconf_load_file}
use cos_ftp_v.Settings.Reload.{tunables_load_defaults, handle_sighup}
use cos_ftp_v.Settings.Reload.Forgets.{Both, Reloaded, handle_sighup-Reloaded}
use cos_ftp_v.Addresses.{vsf_sysutil_parse_ipv6}
use cos_ftp_v.Addresses.Bounds.{IsAddress, parse_ipv6-IsAddress}
use cos_ftp_v.Str.Split.{str_split_text}
use cos_ftp_v.Settings.Lenient.{Loaded, load_file-Loaded}
use cos_ftp_v.Settings.Strict.{IsGood, Decides, load_file-Decides}
use cos_ftp_v.Users.{
  permission_loop, strtok_r, skip_delims, login_loop, entry_user, cos_handle_login,
}
use cos_ftp_v.Users.Listed.{first_listed, listed_users, cos_handle_login-first}
use cos_ftp_v.Process.Privsock.{
  Sock, Wire, octet, write_all, priv_sock_send_result, priv_sock_get_cmd, priv_sock_get_str,
  priv_sock_get_int,
}
use cos_ftp_v.Process.Privops.{
  Parent, LoginTunables, setup_username_globals, handle_local_login, handle_login, starts_well,
  vsf_privop_do_login,
}
use cos_ftp_v.Process.Login.{
  LoginReq, login_req, send_login_req, get_login_req, with_req, do_chroot_of, on_result, Decision,
  admitted, process_login_req,
}
use cos_ftp_v.Process.Login.Carried.{req_wire, login_req_carried}
use cos_ftp_v.Process.Login.Vetted.{IsVetted, process_login_req-IsVetted}
use cos_ftp_v.Process.Pasv.{
  Broker, PortTunables, no_error, addr_in_use, PasvRound, scaled_port, min_port_of, max_port_of,
  vsf_privop_pasv_listen,
}
use cos_ftp_v.Process.Pasv.Ports.{IsListening, pasv_listen-IsListening}
use cos_ftp_v.Process.Broker.{World, vsf_priv_parent_postlogin, process_post_login_req}
use cos_ftp_v.Process.Broker.Balanced.{Balanced, priv_parent_postlogin-Balanced}
use cos_ftp_v.Process.Asks.{listen_req}
use cos_ftp_v.Process.Asks.Listens.{Told, listen_carried}

-- A server for local users, with a list of those that may not log in and three failures at most.
abbrev local_only : Tunables
local_only = record {
  tunable_ftp_enable = true;
  tunable_http_enable = false;
  tunable_ssl_enable = false;
  tunable_implicit_ssl = false;
  tunable_local_enable = true;
  tunable_allow_anon_ssl = false;
  tunable_force_anon_logins_ssl = false;
  tunable_force_local_logins_ssl = true;
  tunable_userlist_enable = true;
  tunable_userlist_deny = true;
  tunable_no_anon_password = false;
  tunable_port_enable = true;
  tunable_pasv_enable = true;
  tunable_sslv2 = false;
  tunable_sslv3 = false;
  tunable_tlsv1 = true;
  tunable_ftpd_banner = none;
  tunable_max_clients = 0;
  tunable_max_per_ip = 0;
  tunable_max_login_fails = 3;
  tunable_delay_failed_login = 1;
}

abbrev new_session : Session
new_session = record {
  user_str = [];
  is_http = false;
  http_get_arg = [];
  userlist_str = codes "root\n";
  banner_str = [];
  tcp_wrapper_ok = true;
  num_clients = 1;
  num_this_ip = 1;
  control_use_ssl = false;
  data_use_ssl = false;
  login_fails = 0;
}

abbrev no_login : Bytes → Bytes → Bool
no_login user pass = false

abbrev guess : List (Bytes × Bytes)
guess = (codes "USER", codes "bob") ∷ (codes "PASS", codes "guess") ∷ []

parse_username_password-attempts_example :
    attempts
      (parse_username_password local_only no_login false new_session (guess ++ (guess ++ guess))).0
    ≤ max 1 (3 - 0)
parse_username_password-attempts_example =
    parse_username_password-attempts local_only no_login false (omega arith) new_session
      (guess ++ (guess ++ guess)) (inl refl)

parse_username_password-AdmitsAll_example :
    AdmitsAll local_only
      (codes "root\n")
      (parse_username_password local_only no_login false new_session guess).0
unfolding is_empty
parse_username_password-AdmitsAll_example =
    parse_username_password-AdmitsAll local_only no_login false (codes "root\n") new_session guess
      refl (refl, λ named. absurd cc)

-- The second of three users, of which the first has no permission field.
abbrev users : Bytes
users = codes "eve:x;bob:secret:RW;bob:other:r"

bob_logs_in : cos_handle_login (some users) (codes "bob") (codes "secret") 0 ≡ some (true, 3)
unfolding cos_handle_login login_loop entry_user strtok_r skip_delims permission_loop str_equal
    c_str
bob_logs_in = refl

cos_handle_login-first_example :
    cos_handle_login (some users) (codes "bob") (codes "other") 0
    ≡ some (first_listed (codes "bob") (codes "other") 0 (listed_users users))
cos_handle_login-first_example = cos_handle_login-first users (codes "bob") (codes "other") 0

-- The ends of a new socket pair.
abbrev new_sock : Sock
new_sock = record { arriving = []; sent = []; writable = true }

abbrev bob_req : LoginReq
bob_req = login_req (codes "bob") (codes "secret") 0 0

login_req_carried_example :
    Returns
      (λ k.
        get_login_req (record new_sock { arriving = k.sent ++ octet 7 ∷ [] })
        ≡ ok (bob_req, record new_sock { arriving = octet 7 ∷ [] }))
      (send_login_req bob_req new_sock)
login_req_carried_example =
    login_req_carried bob_req new_sock new_sock (octet 7 ∷ [])
      (record {
        short_user = omega arith;
        short_password = omega arith;
        control_int = omega arith;
        data_int = omega arith;
      })
      refl refl

abbrev login_tunables : LoginTunables
login_tunables = record {
  tunable_anonymous_enable = true;
  tunable_local_enable = true;
  tunable_ssl_enable = false;
  tunable_setproctitle_enable = false;
  tunable_chroot_local_user = true;
  tunable_chroot_list_enable = false;
  tunable_guest_enable = true;
  tunable_virtual_use_local_privs = true;
  tunable_allow_writeable_chroot = false;
  tunable_login_users = some users;
  tunable_ftp_username = some (codes "ftp");
  tunable_guest_username = some (codes "guest");
  tunable_user_config_dir = none;
  tunable_user_sub_token = none;
  tunable_local_root = none;
  tunable_delay_failed_login = 0;
  tunable_delay_successful_login = 0;
}

abbrev new_parent : Parent
new_parent = record {
  user_str = [];
  anon_pass_str = [];
  remote_ip_str = codes "127.0.0.1";
  banned_email_str = [];
  email_passwords_str = [];
  permissions = 0;
  control_use_ssl = false;
  data_use_ssl = false;
  ssl_slave_active = false;
  is_anonymous = false;
  is_guest = false;
  proctitle_prefix = [];
}

abbrev asked_sock : Sock
asked_sock = record { arriving = req_wire bob_req; sent = []; writable = true }

abbrev bob_admitted : Decision × Sock
bob_admitted = (
  admitted (record new_parent { user_str = codes "bob"; permissions = 3 }) true false,
  record { arriving = []; sent = octet 1 ∷ []; writable = true },
)

bob_is_admitted : process_login_req login_tunables none asked_sock new_parent ≡ ok bob_admitted
unfolding process_login_req get_login_req priv_sock_get_cmd priv_sock_get_str priv_sock_get_int
    with_req vsf_privop_do_login handle_login starts_well vsf_sysutil_isalnum str_contains_space
    vsf_sysutil_isspace str_contains_unprintable vsf_sysutil_isprint is_anon str_upper
    vsf_sysutil_toupper str_equal handle_local_login cos_handle_login login_loop entry_user strtok_r
    skip_delims permission_loop c_str setup_username_globals on_result do_chroot_of
    priv_sock_send_result write_all
bob_is_admitted = refl

process_login_req-IsVetted_example :
    (r : LoginReq × Sock) × (get_login_req asked_sock ≡ ok r)
    × IsVetted login_tunables r.0.user_str r.0.password_str false 3
process_login_req-IsVetted_example =
    process_login_req-IsVetted login_tunables none asked_sock new_parent bob_admitted
      bob_is_admitted

abbrev port_tunables : PortTunables
port_tunables = record {
  tunable_connect_from_port_20 = true;
  tunable_pasv_promiscuous = false;
  tunable_chown_uploads = false;
  tunable_ftp_data_port = 20;
  tunable_pasv_min_port = 40000;
  tunable_pasv_max_port = 40009;
}

-- Port 40005 is in use.
abbrev busy_rounds : ℕ → PasvRound
busy_rounds i = record {
  sock = 5;
  random = (if i == 8 then 128 else 255, 0);
  bind = λ port. if port == 40005 then addr_in_use else no_error;
  listen = no_error;
}

busy_random : (i : ℕ) → ((busy_rounds i).random.0 < 256) × ((busy_rounds i).random.1 < 256)
busy_random i = ground arith

abbrev idle_broker : Broker
idle_broker = record {
  pasv_listen_fd = none;
  opened = [];
  chowned = [];
  anon_ftp_uid = none;
  guest_user_uid = none;
  anon_upload_chown_uid = none;
}

-- The second round finds a port.
listens_second :
    vsf_privop_pasv_listen port_tunables busy_rounds idle_broker
    ≡ ok (40009, record idle_broker { pasv_listen_fd = some 5; opened = 5 ∷ [] })
unfolding vsf_privop_pasv_listen scaled_port min_port_of max_port_of
listens_second = refl

pasv_listen-IsListening_example :
    Ends Unit
      (λ r. IsListening port_tunables busy_rounds idle_broker r.0 r.1)
      (vsf_privop_pasv_listen port_tunables busy_rounds idle_broker)
pasv_listen-IsListening_example =
    pasv_listen-IsListening port_tunables busy_rounds idle_broker busy_random

-- The system lets everything happen, and the one that connects is another host.
abbrev stranger : World
stranger = record {
  sock = 6;
  bind = λ i port. no_error;
  connects = true;
  rounds = busy_rounds;
  accept = some (7, false);
  uid = 0;
  regfile = true;
}

-- The child listens, and accepts.
abbrev asks : Wire
asks = octet 12 ∷ octet 13 ∷ []

priv_parent_postlogin-Balanced_example :
    Ends Unit
      (λ r. Balanced r.1)
      (vsf_priv_parent_postlogin port_tunables
        (stranger ∷ stranger ∷ [])
        (record new_sock { arriving = asks })
        idle_broker)
priv_parent_postlogin-Balanced_example =
    priv_parent_postlogin-Balanced port_tunables (stranger ∷ stranger ∷ [])
      (record new_sock { arriving = asks }) idle_broker (busy_random, (busy_random, tt)) refl

listen_carried_example :
    Returns
      (λ asked. Ends Unit (Told port_tunables stranger idle_broker asked) (
        process_post_login_req port_tunables stranger
          (record new_sock { arriving = asked.sent })
          idle_broker))
      (listen_req new_sock)
listen_carried_example =
    listen_carried port_tunables stranger idle_broker new_sock new_sock busy_random refl refl refl
      refl

abbrev conf : Bytes
conf = codes "# one\nanonymous_enable=maybe\n max_clients=5\nnonsense\n"

abbrev reads_conf : Bytes → Option Bytes
reads_conf filename = some conf

abbrev no_settings : Config
no_settings = record { strs = λ n. none; bools = λ n. true; uints = λ n. 0 }

abbrev five : Bytes → ℕ
five s = 5

load_file-Loaded_example : Returns (Loaded five (codes "ftp_enable") no_settings (lines conf)) (
    vsf_parseconf_load_file five reads_conf
      (λ f. true)
      (some (codes "f"))
      false
      (none, no_settings))
load_file-Loaded_example =
    load_file-Loaded five reads_conf (λ f. true) (codes "f") conf (codes "ftp_enable") none
      no_settings refl refl

load_file-Decides_example : Decides (All IsGood (lines conf)) (
    vsf_parseconf_load_file five reads_conf (λ f. true) (some (codes "f")) true (none, no_settings))
load_file-Decides_example =
    load_file-Decides five reads_conf (λ f. true) (codes "f") conf none no_settings refl refl

handle_sighup-Reloaded_example :
    Both Reloaded (handle_sighup five reads_conf (λ f. true) (some (codes "f"), no_settings)) (
      handle_sighup five reads_conf
        (λ f. true)
        (some (codes "f"), tunables_load_defaults no_settings))
handle_sighup-Reloaded_example =
    handle_sighup-Reloaded five reads_conf (λ f. true) (codes "f") no_settings
      (tunables_load_defaults no_settings) (inr refl)

parse_ipv6-IsAddress_example :
    Returns
      (λ r.
        (p : Bytes × Bytes) × (str_split_text (codes "fe80::1.2.3.4") (codes "::") ≡ ok p)
        × IsAddress p.1 r)
      (vsf_sysutil_parse_ipv6 (codes "fe80::1.2.3.4"))
parse_ipv6-IsAddress_example = parse_ipv6-IsAddress (codes "fe80::1.2.3.4")
