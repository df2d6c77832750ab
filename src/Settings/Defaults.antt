-- ===== src/Settings/Defaults.antt =====
-- src/tunables.c: the values of the settings before any file is loaded, in the order of the source.
use cos_ftp_v.Base.{ℕ, Bool, true, false, Option, none, some, List, [], ◌∷◌, Bytes, codes}

-- The settings that are on or off.
unfoldable pub bool_defaults : List (Bytes × Bool)
bool_defaults =
    (codes "anonymous_enable", true)
    ∷ (codes "local_enable", false)
    ∷ (codes "pasv_enable", true)
    ∷ (codes "port_enable", true)
    ∷ (codes "chroot_local_user", false)
    ∷ (codes "write_enable", false)
    ∷ (codes "anon_upload_enable", false)
    ∷ (codes "anon_mkdir_write_enable", false)
    ∷ (codes "anon_other_write_enable", false)
    ∷ (codes "chown_uploads", false)
    ∷ (codes "connect_from_port_20", false)
    ∷ (codes "xferlog_enable", false)
    ∷ (codes "dirmessage_enable", false)
    ∷ (codes "anon_world_readable_only", true)
    ∷ (codes "async_abor_enable", false)
    ∷ (codes "ascii_upload_enable", false)
    ∷ (codes "ascii_download_enable", false)
    ∷ (codes "one_process_model", false)
    ∷ (codes "xferlog_std_format", false)
    ∷ (codes "pasv_promiscuous", false)
    ∷ (codes "deny_email_enable", false)
    ∷ (codes "chroot_list_enable", false)
    ∷ (codes "setproctitle_enable", false)
    ∷ (codes "text_userdb_names", false)
    ∷ (codes "ls_recurse_enable", false)
    ∷ (codes "log_ftp_protocol", false)
    ∷ (codes "guest_enable", false)
    ∷ (codes "userlist_enable", false)
    ∷ (codes "userlist_deny", true)
    ∷ (codes "use_localtime", false)
    ∷ (codes "check_shell", true)
    ∷ (codes "hide_ids", false)
    ∷ (codes "listen", true)
    ∷ (codes "port_promiscuous", false)
    ∷ (codes "passwd_chroot_enable", false)
    ∷ (codes "no_anon_password", false)
    ∷ (codes "tcp_wrappers", false)
    ∷ (codes "use_sendfile", true)
    ∷ (codes "force_dot_files", false)
    ∷ (codes "listen_ipv6", false)
    ∷ (codes "dual_log_enable", false)
    ∷ (codes "syslog_enable", false)
    ∷ (codes "background", false)
    ∷ (codes "virtual_use_local_privs", false)
    ∷ (codes "session_support", false)
    ∷ (codes "download_enable", true)
    ∷ (codes "dirlist_enable", true)
    ∷ (codes "chmod_enable", true)
    ∷ (codes "secure_email_list_enable", false)
    ∷ (codes "run_as_launching_user", false)
    ∷ (codes "no_log_lock", false)
    ∷ (codes "ssl_enable", false)
    ∷ (codes "allow_anon_ssl", false)
    ∷ (codes "force_local_logins_ssl", true)
    ∷ (codes "force_local_data_ssl", true)
    ∷ (codes "ssl_sslv2", false)
    ∷ (codes "ssl_sslv3", false)
    ∷ (codes "ssl_tlsv1", true)
    ∷ (codes "tilde_user_enable", false)
    ∷ (codes "force_anon_logins_ssl", false)
    ∷ (codes "force_anon_data_ssl", false)
    ∷ (codes "mdtm_write", true)
    ∷ (codes "lock_upload_files", true)
    ∷ (codes "pasv_addr_resolve", false)
    ∷ (codes "debug_ssl", false)
    ∷ (codes "require_cert", false)
    ∷ (codes "validate_cert", false)
    ∷ (codes "strict_ssl_read_eof", true)
    ∷ (codes "strict_ssl_write_shutdown", false)
    ∷ (codes "ssl_request_cert", true)
    ∷ (codes "delete_failed_uploads", false)
    ∷ (codes "implicit_ssl", false)
    ∷ (codes "ptrace_sandbox", false)
    ∷ (codes "require_ssl_reuse", true)
    ∷ (codes "isolate", true)
    ∷ (codes "isolate_network", true)
    ∷ (codes "ftp_enable", true)
    ∷ (codes "http_enable", false)
    ∷ (codes "seccomp_sandbox", true)
    ∷ (codes "allow_writeable_chroot", false)
    ∷ (codes "cos_take_sha", false)
    ∷ []

-- The numbers.
unfoldable pub uint_defaults : List (Bytes × ℕ)
uint_defaults =
    (codes "accept_timeout", 60)
    ∷ (codes "connect_timeout", 60)
    ∷ (codes "local_umask", 63)
    ∷ (codes "anon_umask", 63)
    ∷ (codes "ftp_data_port", 20)
    ∷ (codes "idle_session_timeout", 300)
    ∷ (codes "data_connection_timeout", 300)
    ∷ (codes "pasv_min_port", 5001)
    ∷ (codes "pasv_max_port", 0)
    ∷ (codes "anon_max_rate", 0)
    ∷ (codes "local_max_rate", 0)
    ∷ (codes "listen_port", 21)
    ∷ (codes "max_clients", 2000)
    ∷ (codes "file_open_mode", 438)
    ∷ (codes "max_per_ip", 50)
    ∷ (codes "trans_chunk_size", 0)
    ∷ (codes "delay_failed_login", 1)
    ∷ (codes "delay_successful_login", 0)
    ∷ (codes "max_login_fails", 3)
    ∷ (codes "chown_upload_mode", 384)
    ∷ (codes "cos_conn_timeout_ms", 10000)
    ∷ (codes "cos_req_timeout_ms", 60000)
    ∷ (codes "cos_sign_expire_s", 300)
    ∷ (codes "cos_upload_slice_size", 1048576)
    ∷ (codes "max_upload_file_size", 0)
    ∷ (codes "list_max_count", 0)
    ∷ (codes "cos_download_chunk_size", 0)
    ∷ []

-- The texts; a null pointer is `none`.
unfoldable pub str_defaults : List (Bytes × Option Bytes)
str_defaults =
    (codes "secure_chroot_dir", some (codes "/usr/share/empty"))
    ∷ (codes "ftp_username", some (codes "ftp"))
    ∷ (codes "chown_username", some (codes "root"))
    ∷ (codes "xferlog_file", some (codes "/var/log/xferlog"))
    ∷ (codes "vsftpd_log_file", some (codes "/var/log/vsftpd.log"))
    ∷ (codes "message_file", some (codes ".message"))
    ∷ (codes "nopriv_user", some (codes "nobody"))
    ∷ (codes "ftpd_banner", none)
    ∷ (codes "banned_email_file", some (codes "/etc/vsftpd.banned_emails"))
    ∷ (codes "chroot_list_file", some (codes "/etc/vsftpd.chroot_list"))
    ∷ (codes "pam_service_name", some (codes "ftp"))
    ∷ (codes "guest_username", some (codes "ftp"))
    ∷ (codes "userlist_file", some (codes "/etc/vsftpd.user_list"))
    ∷ (codes "anon_root", none)
    ∷ (codes "local_root", none)
    ∷ (codes "banner_file", none)
    ∷ (codes "pasv_address", none)
    ∷ (codes "listen_address", none)
    ∷ (codes "user_config_dir", none)
    ∷ (codes "listen_address6", none)
    ∷ (codes "cmds_allowed", none)
    ∷ (codes "cmds_denied", none)
    ∷ (codes "hide_file", none)
    ∷ (codes "deny_file", none)
    ∷ (codes "user_sub_token", none)
    ∷ (codes "email_password_file", some (codes "/etc/vsftpd.email_passwords"))
    ∷ (codes "rsa_cert_file", some (codes "/usr/share/ssl/certs/vsftpd.pem"))
    ∷ (codes "dsa_cert_file", none)
    ∷ (codes "ssl_ciphers", some (codes "ECDHE-RSA-AES256-GCM-SHA384"))
    ∷ (codes "rsa_private_key_file", none)
    ∷ (codes "dsa_private_key_file", none)
    ∷ (codes "ca_certs_file", none)
    ∷ (codes "cos_appid", some [])
    ∷ (codes "cos_secretid", some [])
    ∷ (codes "cos_secretkey", some [])
    ∷ (codes "cos_bucket", some [])
    ∷ (codes "cos_region", some (codes "gz"))
    ∷ (codes "cos_download_domain", some (codes "cdn"))
    ∷ (codes "cos_user_home_dir", some (codes "/tempdir"))
    ∷ (codes "login_users", none)
    ∷ []
