-- ===== src/Settings/Tables.antt =====
-- The tables of src/parseconf.c: the names of the settings of each kind, each with its own variable.
use cos_ftp_v.Base.{List, [], ◌∷◌, Bytes, codes}

-- The settings that are on or off.
unfoldable pub parseconf_bool_array : List Bytes
parseconf_bool_array =
    codes "anonymous_enable"
    ∷ codes "local_enable"
    ∷ codes "pasv_enable"
    ∷ codes "port_enable"
    ∷ codes "chroot_local_user"
    ∷ codes "write_enable"
    ∷ codes "anon_upload_enable"
    ∷ codes "anon_mkdir_write_enable"
    ∷ codes "anon_other_write_enable"
    ∷ codes "chown_uploads"
    ∷ codes "connect_from_port_20"
    ∷ codes "xferlog_enable"
    ∷ codes "dirmessage_enable"
    ∷ codes "anon_world_readable_only"
    ∷ codes "async_abor_enable"
    ∷ codes "ascii_upload_enable"
    ∷ codes "ascii_download_enable"
    ∷ codes "one_process_model"
    ∷ codes "xferlog_std_format"
    ∷ codes "pasv_promiscuous"
    ∷ codes "deny_email_enable"
    ∷ codes "chroot_list_enable"
    ∷ codes "setproctitle_enable"
    ∷ codes "text_userdb_names"
    ∷ codes "ls_recurse_enable"
    ∷ codes "log_ftp_protocol"
    ∷ codes "guest_enable"
    ∷ codes "userlist_enable"
    ∷ codes "userlist_deny"
    ∷ codes "use_localtime"
    ∷ codes "check_shell"
    ∷ codes "hide_ids"
    ∷ codes "listen"
    ∷ codes "port_promiscuous"
    ∷ codes "passwd_chroot_enable"
    ∷ codes "no_anon_password"
    ∷ codes "tcp_wrappers"
    ∷ codes "use_sendfile"
    ∷ codes "force_dot_files"
    ∷ codes "listen_ipv6"
    ∷ codes "dual_log_enable"
    ∷ codes "syslog_enable"
    ∷ codes "background"
    ∷ codes "virtual_use_local_privs"
    ∷ codes "session_support"
    ∷ codes "download_enable"
    ∷ codes "dirlist_enable"
    ∷ codes "chmod_enable"
    ∷ codes "secure_email_list_enable"
    ∷ codes "run_as_launching_user"
    ∷ codes "no_log_lock"
    ∷ codes "ssl_enable"
    ∷ codes "allow_anon_ssl"
    ∷ codes "force_local_logins_ssl"
    ∷ codes "force_local_data_ssl"
    ∷ codes "ssl_sslv2"
    ∷ codes "ssl_sslv3"
    ∷ codes "ssl_tlsv1"
    ∷ codes "tilde_user_enable"
    ∷ codes "force_anon_logins_ssl"
    ∷ codes "force_anon_data_ssl"
    ∷ codes "mdtm_write"
    ∷ codes "lock_upload_files"
    ∷ codes "pasv_addr_resolve"
    ∷ codes "debug_ssl"
    ∷ codes "require_cert"
    ∷ codes "validate_cert"
    ∷ codes "strict_ssl_read_eof"
    ∷ codes "strict_ssl_write_shutdown"
    ∷ codes "ssl_request_cert"
    ∷ codes "delete_failed_uploads"
    ∷ codes "implicit_ssl"
    ∷ codes "ptrace_sandbox"
    ∷ codes "require_ssl_reuse"
    ∷ codes "isolate"
    ∷ codes "isolate_network"
    ∷ codes "ftp_enable"
    ∷ codes "http_enable"
    ∷ codes "seccomp_sandbox"
    ∷ codes "allow_writeable_chroot"
    ∷ codes "cos_take_sha"
    ∷ []

-- The numbers.
unfoldable pub parseconf_uint_array : List Bytes
parseconf_uint_array =
    codes "accept_timeout"
    ∷ codes "connect_timeout"
    ∷ codes "local_umask"
    ∷ codes "anon_umask"
    ∷ codes "ftp_data_port"
    ∷ codes "idle_session_timeout"
    ∷ codes "data_connection_timeout"
    ∷ codes "pasv_min_port"
    ∷ codes "pasv_max_port"
    ∷ codes "anon_max_rate"
    ∷ codes "local_max_rate"
    ∷ codes "listen_port"
    ∷ codes "max_clients"
    ∷ codes "file_open_mode"
    ∷ codes "max_per_ip"
    ∷ codes "trans_chunk_size"
    ∷ codes "delay_failed_login"
    ∷ codes "delay_successful_login"
    ∷ codes "max_login_fails"
    ∷ codes "chown_upload_mode"
    ∷ codes "max_upload_file_size"
    ∷ codes "list_max_count"
    ∷ codes "cos_download_chunk_size"
    ∷ codes "cos_upload_slice_size"
    ∷ codes "cos_conn_timeout_ms"
    ∷ codes "cos_req_timeout_ms"
    ∷ codes "cos_sign_expire_s"
    ∷ []

-- The texts.
unfoldable pub parseconf_str_array : List Bytes
parseconf_str_array =
    codes "secure_chroot_dir"
    ∷ codes "ftp_username"
    ∷ codes "chown_username"
    ∷ codes "xferlog_file"
    ∷ codes "vsftpd_log_file"
    ∷ codes "message_file"
    ∷ codes "nopriv_user"
    ∷ codes "ftpd_banner"
    ∷ codes "banned_email_file"
    ∷ codes "chroot_list_file"
    ∷ codes "pam_service_name"
    ∷ codes "guest_username"
    ∷ codes "userlist_file"
    ∷ codes "anon_root"
    ∷ codes "local_root"
    ∷ codes "banner_file"
    ∷ codes "pasv_address"
    ∷ codes "listen_address"
    ∷ codes "user_config_dir"
    ∷ codes "listen_address6"
    ∷ codes "cmds_allowed"
    ∷ codes "hide_file"
    ∷ codes "deny_file"
    ∷ codes "user_sub_token"
    ∷ codes "email_password_file"
    ∷ codes "rsa_cert_file"
    ∷ codes "dsa_cert_file"
    ∷ codes "ssl_ciphers"
    ∷ codes "rsa_private_key_file"
    ∷ codes "dsa_private_key_file"
    ∷ codes "ca_certs_file"
    ∷ codes "cmds_denied"
    ∷ codes "cos_appid"
    ∷ codes "cos_secretid"
    ∷ codes "cos_secretkey"
    ∷ codes "cos_bucket"
    ∷ codes "cos_region"
    ∷ codes "cos_download_domain"
    ∷ codes "cos_user_home_dir"
    ∷ codes "login_users"
    ∷ []
