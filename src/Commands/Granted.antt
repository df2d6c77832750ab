-- ===== src/Commands/Granted.antt =====
-- What the commands of a session may do: the permissions of its user, the peers it may connect to,
-- and the encryption that the settings demand.
pub mod Ports
pub mod Names
pub mod Files
pub mod Downloads
pub mod Uploads
pub mod Branches
pub mod Answers
pub mod Rounds
pub mod Transfers
use cos_ftp_v.Base.{
  ℕ, zero, suc, ◌+◌, ◌-◌, ◌*◌, ◌/◌, ◌%◌, ◌^◌, ◌≤◌, ◌<◌, min, max, ◌≡◌, refl, sym, ap, ◌∙◌, subst,
  ◌≢◌, ◌↔◌, ◌⊎◌, inl, inr, Bool, true, false, not, ◌&&◌, ◌||◌, Option, none, some, List, [], ◌∷◌,
  ◌++◌, map, append-nil, append_assoc, arith, Bytes, codes, uint_mod, ltb, leb, ◌==◌, if◌then◌else◌,
  ltb→lt, lt→ltb, le→ltb, lt→leb, leb→le, le→leb, ==_iff, ==_refl, Bool-cases, Option-cases,
  if_elim, tests, length, get_elem?, set, take, drop, replicate, length-append, length-take,
  length-drop, length-replicate, length-set, take-append-drop, take-length_append,
  drop-length_append, take-length, take-all, drop_split, drop_add, any_of, All, All-append,
  All-left, All-right, all_of, Outcome, ok, bug, die, exit, fault, ◌>>=◌, >>=-eq-ok, Ends, Returns,
  Ends-bind, Ends-mono, Returns-ok,
}
use cos_ftp_v.Commands.{
  SockAddr, Client, CommandTunables, Act, said, dir_message, set_umask, logged, log_line, cos_mkdir,
  cos_rmdir, cos_unlink, cos_upload_file, str_create, str_create_exclusive, str_unlink, str_mkdir,
  str_mkdirs, str_rmdir, str_chdir, chown_upload, truncate_file, seek_file, listen, accept_data,
  connect_to, secure_data, send_file, receive_file, send_dir,
}
use cos_ftp_v.Commands.Data.{
  vsf_sysutil_sockaddr_addr_equal, vsf_sysutil_is_port_reserved, has_port,
}
use cos_ftp_v.Commands.Round.{writes}

-- The address is the client's, with a port that is not reserved, or the settings allow any.
abbrev pub is_trusted : CommandTunables → Client → SockAddr → Bool
is_trusted t s0 a =
    t.tunable_port_promiscuous
    || (vsf_sysutil_sockaddr_addr_equal s0.remote_addr a
        && not (vsf_sysutil_is_port_reserved a.port))

-- The settings demand that this session encrypts its data connections.
abbrev pub is_forced : CommandTunables → Client → Bool
is_forced t s0 =
    t.tunable_ssl_enable
    && ((t.tunable_force_local_data_ssl && not s0.is_anonymous)
        || (t.tunable_force_anon_data_ssl && s0.is_anonymous))

abbrev pub MayUpload : CommandTunables → Client → Type 0
MayUpload t s0 = writes t s0 t.tunable_anon_upload_enable ≡ true

abbrev pub MayMake : CommandTunables → Client → Type 0
MayMake t s0 = writes t s0 t.tunable_anon_mkdir_write_enable ≡ true

abbrev pub MayRemove : CommandTunables → Client → Type 0
MayRemove t s0 = writes t s0 t.tunable_anon_other_write_enable ≡ true

-- What the session that began as `s0` may do. An object of the storage is also removed by an upload,
-- so `stores` is whether a STOR is among the commands.
abbrev pub Granted : CommandTunables → Client → Bool → Act → Type 0
Granted t s0 stores (said d) = Unit
Granted t s0 stores (dir_message n) = Unit
Granted t s0 stores (set_umask n) = Unit
Granted t s0 stores (logged l path success) = Unit
Granted t s0 stores (log_line text) = Unit
Granted t s0 stores (cos_mkdir path) = MayMake t s0
Granted t s0 stores (cos_rmdir path) = MayRemove t s0
Granted t s0 stores (cos_unlink path) = MayRemove t s0 ⊎ (MayUpload t s0 × (stores ≡ true))
Granted t s0 stores (cos_upload_file path name) = MayUpload t s0
Granted t s0 stores (str_create path) = MayUpload t s0
Granted t s0 stores (str_create_exclusive path) = MayUpload t s0
Granted t s0 stores (str_unlink path) = MayUpload t s0
Granted t s0 stores (str_mkdir path) = MayMake t s0
Granted t s0 stores (str_mkdirs path) = Unit
Granted t s0 stores (str_rmdir path) = MayRemove t s0
Granted t s0 stores (str_chdir path) = Unit
Granted t s0 stores chown_upload = MayUpload t s0
Granted t s0 stores truncate_file = MayUpload t s0
Granted t s0 stores (seek_file n) = MayUpload t s0
Granted t s0 stores listen = Unit
Granted t s0 stores accept_data = Unit
Granted t s0 stores (connect_to a) = is_trusted t s0 a ≡ true
Granted t s0 stores (secure_data encrypted) = (encrypted || not (is_forced t s0)) ≡ true
Granted t s0 stores (send_file ascii offset size) = Unit
Granted t s0 stores (receive_file ascii offset) = MayUpload t s0
Granted t s0 stores (send_dir control dir options filter full) = Unit

abbrev pub Trusts : CommandTunables → Client → Option SockAddr → Type 0
Trusts t s0 none = Unit
Trusts t s0 (some a) = is_trusted t s0 a ≡ true

-- The user, with its kind, name, permissions and root, and the peer are those of `s0`; PORT and PASV are not active both; the address of
-- PORT is trusted.
abbrev pub Kept : CommandTunables → Client → Client → Type 0
Kept t s0 s =
    (s.is_anonymous ≡ s0.is_anonymous)
    × (s.permissions ≡ s0.permissions)
    × (s.remote_addr ≡ s0.remote_addr)
    × ((s.user_root ≡ s0.user_root) × (s.user_str ≡ s0.user_str))
    × ((has_port s.port_sockaddr && s.pasv_listening) ≡ false)
    × Trusts t s0 s.port_sockaddr

-- No data connection is open either, as before and after a transfer.
abbrev pub Idle : CommandTunables → Client → Client → Type 0
Idle t s0 s = Kept t s0 s × (s.data_open ≡ false)

-- Nor is there an entry of the log, as between two commands.
abbrev pub Between : CommandTunables → Client → Client → Type 0
Between t s0 s = Kept t s0 s × (s.data_open ≡ false) × (s.log_type ≡ none)
