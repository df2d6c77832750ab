-- ===== src/Commands.antt =====
-- src/postlogin.c with src/session.h and src/logging.c: what a session holds after its login, what
-- its commands do to the outside, and what the outside answers to them.
pub mod Paths
pub mod Data
pub mod Files
pub mod Replies
pub mod Convert
pub mod Round
pub mod Runs
pub mod Granted
pub mod Answered
pub mod Downloads
pub mod Uploads
pub mod Transfers
use cos_ftp_v.Base.{
  ℕ, zero, suc, ◌+◌, ◌-◌, ◌*◌, ◌/◌, ◌%◌, ◌^◌, ◌≤◌, ◌<◌, min, max, ◌≡◌, refl, sym, ap, ◌∙◌, subst,
  ◌≢◌, ◌↔◌, ◌⊎◌, inl, inr, Bool, true, false, not, ◌&&◌, ◌||◌, Option, none, some, List, [], ◌∷◌,
  ◌++◌, map, append-nil, append_assoc, arith, Bytes, codes, uint_mod, ltb, leb, ◌==◌, if◌then◌else◌,
  ltb→lt, lt→ltb, le→ltb, lt→leb, leb→le, le→leb, ==_iff, ==_refl, Bool-cases, Option-cases,
  if_elim, tests, length, get_elem?, set, take, drop, replicate, length-append, length-take,
  length-drop, length-replicate, length-set, take-append-drop, take-length_append,
  drop-length_append, take-length, take-all, drop_split, drop_add, any_of, All, All-append,
  All-left, All-right, all_of, Outcome, ok, bug, die, exit, fault, ◌>>=◌, >>=-eq-ok, Ends, Returns,
  Ends-bind, Ends-mono, Returns-ok,
}
use cos_ftp_v.Session.{Tunables, Doing, reply, reply_hyphen, reply_raw}

-- `struct vsf_sysutil_sockaddr`: its family, the bytes of its address, 4 or 16, and its port.
pub record SockAddr : Type 0 where
  pub is_ipv6 : Bool
  pub addr : Bytes
  pub port : ℕ

-- `enum EVSFLogEntryType`, as far as the commands use it.
pub data LogType : Type 0 where
  log_download log_upload log_mkdir log_rmdir log_delete : LogType

-- The fields of `struct vsf_session` that the commands read or write, and what the process holds for
-- them: its working directory. `user_root` is what `get_user_root_dir` gives. `pasv_listening` is
-- whether the parent listens for a data connection, and `data_open` whether there is one.
pub record Client : Type 0 where
  pub is_anonymous : Bool
  pub permissions : ℕ
  pub user_str : Bytes
  pub user_root : Bytes
  pub home_str : Bytes
  pub cwd : Bytes
  pub remote_ip_str : Bytes
  pub local_addr : SockAddr
  pub remote_addr : SockAddr
  pub num_clients : ℕ
  pub bw_rate_max : ℕ
  pub control_use_ssl : Bool
  pub data_use_ssl : Bool
  pub is_ascii : Bool
  pub epsv_all : Bool
  pub restart_pos : ℕ
  pub port_sockaddr : Option SockAddr
  pub pasv_listening : Bool
  pub data_open : Bool
  pub abor_received : Bool
  pub data_timeout : Bool
  pub log_type : Option LogType
  pub log_str : Bytes
  pub transfer_size : ℕ

-- The settings that the commands read; a null text is `none`.
pub record CommandTunables : Type 0 where
  pub tunable_cmds_allowed : Option Bytes
  pub tunable_cmds_denied : Option Bytes
  pub tunable_deny_file : Option Bytes
  pub tunable_pasv_address : Option Bytes
  pub tunable_pasv_enable : Bool
  pub tunable_port_enable : Bool
  pub tunable_port_promiscuous : Bool
  pub tunable_download_enable : Bool
  pub tunable_dirlist_enable : Bool
  pub tunable_write_enable : Bool
  pub tunable_anon_upload_enable : Bool
  pub tunable_anon_mkdir_write_enable : Bool
  pub tunable_anon_other_write_enable : Bool
  pub tunable_tilde_user_enable : Bool
  pub tunable_chown_uploads : Bool
  pub tunable_lock_upload_files : Bool
  pub tunable_delete_failed_uploads : Bool
  pub tunable_ascii_upload_enable : Bool
  pub tunable_ascii_download_enable : Bool
  pub tunable_ssl_enable : Bool
  pub tunable_require_ssl_reuse : Bool
  pub tunable_force_local_data_ssl : Bool
  pub tunable_force_anon_data_ssl : Bool
  pub tunable_max_upload_file_size : ℕ
  pub tunable_idle_session_timeout : ℕ
  pub tunable_anon_umask : ℕ
  pub tunable_local_umask : ℕ
  pub tunable_anon_max_rate : ℕ
  pub tunable_local_max_rate : ℕ
  pub feature_tunables : Tunables

-- What a command does: it writes a reply; `vsf_banner_dir_changed`; it sets the umask; it ends an entry of the log, with
-- its success; it writes a line to the log. Then the calls of the storage and of the disk, with their
-- paths, and the calls for a data connection: `connect_to` for one that the server opens, and
-- `secure_data` once it is open, with whether it is to be encrypted.
pub data Act : Type 0 where
  said : Doing → Act
  dir_message set_umask : ℕ → Act
  logged : LogType → Bytes → Bool → Act
  log_line : Bytes → Act
  cos_mkdir cos_rmdir cos_unlink : Bytes → Act
  cos_upload_file : Bytes → Bytes → Act
  str_create str_create_exclusive str_unlink str_mkdir str_mkdirs str_rmdir str_chdir : Bytes → Act
  chown_upload truncate_file : Act
  seek_file : ℕ → Act
  listen accept_data : Act
  connect_to : SockAddr → Act
  secure_data : Bool → Act
  send_file : Bool → ℕ → ℕ → Act
  receive_file : Bool → ℕ → Act
  send_dir : Bool → Bytes → Bytes → Bytes → Bool → Act

-- The value of an `int` that a call returns, as far as the commands tell it apart: 0, 1, -178, or
-- any other.
pub data Retval : Type 0 where
  ret_0 ret_1 ret_exists ret_other : Retval

-- The `retval` of a transfer: 0, -1, -2, or -3, which only uploads have.
pub data Transfer : Type 0 where
  transferred_all local_failed network_failed too_large : Transfer

-- A descriptor of the parent's listening socket: -1, -2, or a descriptor.
pub data ListenFd : Type 0 where
  no_fd bad_ip got_fd : ListenFd

-- What the calls of the system, of the storage and of the parent answer during a command.
-- `times_out` and `aborts` are whether the alarm or an ABOR arrives during a transfer, and `closes`
-- whether the end of the data connection goes well.
pub record Host : Type 0 where
  pub home_of : Bytes → Option Bytes
  pub chdir_works : Bool
  pub mkdirs_works : Bool
  pub chdir_works_then : Bool
  pub dir_after : Bytes
  pub isdir : Bool
  pub mkdir_ret : Retval
  pub dir_isempty_ret : Retval
  pub rmdir_ret : Retval
  pub unlink_ret : Retval
  pub file_size : Option ℕ
  pub listen_port : ℕ
  pub pasv_fd : ListenFd
  pub port_connects : Bool
  pub handshake : Bool
  pub transfer : Transfer
  pub transferred : ℕ
  pub dir_sent : Bool
  pub times_out : Bool
  pub aborts : Bool
  pub closes : Bool
  pub created : Option ℕ
  pub locks : Bool
  pub uploaded : Bool

-- What a function does, in order, and what it ends in.
abbrev pub Run {ℓ} : Type ℓ → Type ℓ
Run A = List Act × Outcome A

abbrev pub also {ℓ} : {A : Type ℓ} → List Act → Run A → Run A
also did run = (did ++ run.0, run.1)

infixl 5 ◌>>>◌
abbrev pub ◌>>>◌ {ℓ κ} : {A : Type ℓ} {B : Type κ} → Run A → (A → Run B) → Run B
(did, ok a) >>> f = also did (f a)
(did, bug) >>> f = (did, bug)
(did, die) >>> f = (did, die)
(did, exit n) >>> f = (did, exit n)
(did, fault) >>> f = (did, fault)

-- A call that does nothing to the outside.
abbrev pub quiet {ℓ} : {A : Type ℓ} → Outcome A → Run A
quiet o = ([], o)

abbrev pub done {ℓ} : {A : Type ℓ} → A → Run A
done a = ([], ok a)

abbrev pub does : List Act → Client → Run Client
does did s = (did, ok s)

-- `vsf_cmdio_write` and `vsf_cmdio_write_str`
abbrev pub write : ℕ → Bytes → Act
write status text = said (reply status text)

abbrev pub answer : ℕ → Bytes → Client → Run Client
answer status text s = (write status text ∷ [], ok s)

abbrev pub vsf_cmdio_write_exit : ℕ → Bytes → ℕ → Run Client
vsf_cmdio_write_exit status text exit_val = (write status text ∷ [], exit exit_val)

abbrev pub write_raw : Bytes → Act
write_raw text = said (reply_raw text)

unfoldable pub vsf_log_start_entry : LogType → Client → Run Client
vsf_log_start_entry what s = elim s.log_type [
  | some l ↦ quiet bug
  | none ↦ done (record s { log_type = some what; transfer_size = 0; log_str = [] })
]

-- With no entry, the source logs one whose type is zero; every call here has an entry.
unfoldable pub vsf_log_do_log : Bool → Client → Run Client
vsf_log_do_log succeeded s = elim s.log_type [
  | none ↦ done s
  | some what ↦ does (logged what s.log_str succeeded ∷ []) (record s { log_type = none })
]

-- Global_READ is 1 and Global_WRITE is 2.
unfoldable pub may_read : Client → Bool
may_read s = s.permissions % 2 == 1

unfoldable pub may_write : Client → Bool
may_write s = (s.permissions / 2) % 2 == 1
