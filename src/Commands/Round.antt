-- ===== src/Commands/Round.antt =====
-- `process_post_login` of src/postlogin.c: which command a line is, and what each does.
pub mod Allowed
use cos_ftp_v.Base.{
  ℕ, zero, suc, ◌+◌, ◌-◌, ◌*◌, ◌/◌, ◌%◌, ◌^◌, ◌≤◌, ◌<◌, min, max, ◌≡◌, refl, sym, ap, ◌∙◌, subst,
  ◌≢◌, ◌↔◌, ◌⊎◌, inl, inr, Bool, true, false, not, ◌&&◌, ◌||◌, Option, none, some, List, [], ◌∷◌,
  ◌++◌, map, append-nil, append_assoc, arith, Bytes, codes, uint_mod, ltb, leb, ◌==◌, if◌then◌else◌,
  ltb→lt, lt→ltb, le→ltb, lt→leb, leb→le, le→leb, ==_iff, ==_refl, Bool-cases, Option-cases,
  if_elim, tests, length, get_elem?, set, take, drop, replicate, length-append, length-take,
  length-drop, length-replicate, length-set, take-append-drop, take-length_append,
  drop-length_append, take-length, take-all, drop_split, drop_add, any_of, All, All-append,
  All-left, All-right, all_of, Outcome, ok, bug, die, exit, fault, ◌>>=◌, >>=-eq-ok, Ends, Returns,
  Ends-bind, Ends-mono, Returns-ok,
}
use cos_ftp_v.Str.Compare.{str_equal}
use cos_ftp_v.Str.Edit.{is_empty}
use cos_ftp_v.Str.Split.{str_split_char}
use cos_ftp_v.Session.Greeting.{handle_feat, handle_opts, handle_pbsz, handle_prot}
use cos_ftp_v.Commands.{
  dir_message, set_umask, write, Client, CommandTunables, Host, said, Run, also, ◌>>>◌, quiet, done,
  does, answer, vsf_cmdio_write_exit, vsf_log_do_log, may_read, may_write,
}
use cos_ftp_v.Commands.Data.{CLibrary, handle_pasv, handle_port}
use cos_ftp_v.Commands.Data.Eprt.{handle_eprt}
use cos_ftp_v.Commands.Convert.{cos_conv_gbk_2_utf}
use cos_ftp_v.Commands.Files.{
  not_permitted, handle_pwd, handle_cwd, handle_cdup, handle_mkd, handle_rmd, handle_dele,
  handle_rest, handle_size, handle_type,
}
use cos_ftp_v.Commands.Downloads.{handle_retr, handle_dir_common}
use cos_ftp_v.Commands.Uploads.{handle_upload_common}
use cos_ftp_v.Commands.Replies.{
  handle_help, handle_stat, handle_logged_in_user, handle_logged_in_pass, handle_stru, handle_mode,
  as_session, handle_turn,
}

-- The loop over a list of commands with commas between them: whether `cmd` is found in front of the
-- first empty item.
pub listed_loop : ℕ → Bytes → Bytes → Outcome Bool
listed_loop zero items cmd = fault
listed_loop (suc fuel) items cmd = str_split_char items b',' >>= (λ p. elim (is_empty p.0) [
  | true ↦ ok false
  | false ↦ elim (str_equal p.0 cmd) [ true ↦ ok true | false ↦ listed_loop fuel p.1 cmd ]
])

unfoldable pub is_listed : Bytes → Bytes → Outcome Bool
unfolding listed_loop
is_listed items cmd = listed_loop (length items + 1) items cmd

unfoldable pub allowed_by : Option Bytes → Bytes → Outcome Bool
unfolding is_listed
allowed_by none cmd = ok true
allowed_by (some items) cmd = is_listed items cmd

unfoldable pub denied_by : Option Bytes → Bytes → Outcome Bool
unfolding is_listed
denied_by none cmd = ok false
denied_by (some items) cmd = is_listed items cmd

-- `cmd_ok`
unfoldable pub cmd_ok : CommandTunables → Bytes → Outcome Bool
unfolding allowed_by denied_by
cmd_ok t cmd =
    allowed_by t.tunable_cmds_allowed cmd
    >>= (λ allowed. denied_by t.tunable_cmds_denied cmd >>= (λ denied. ok (allowed && not denied)))

-- The branch that a command takes.
pub data Branch : Type 0 where
  quit pwd cwd cdup pasv epsv retr noop syst help list type_ port stor mkd rmd dele rest : Branch
  nlst size abor eprt stru mode allo feat opts stat stat_file pbsz prot user pass : Branch
  forbidden empty_line http_verb unknown : Branch
  unimplemented : Bytes → Branch

-- The first branch whose test holds.
abbrev pub first_of : List (Bool × Branch) → Branch → Branch
first_of [] b = b
first_of ((test, b) ∷ tests) otherwise = if test then b else first_of tests otherwise

-- Whether anonymous sessions may, by a setting, or this is none of them.
abbrev pub writes : CommandTunables → Client → Bool → Bool
writes t s anon_may = t.tunable_write_enable && ((anon_may || not s.is_anonymous) && may_write s)

abbrev pub any_equal : Bytes → List Bytes → Bool
any_equal cmd names = any_of (λ name. str_equal cmd name) names

abbrev forbidden_names : List Bytes
forbidden_names =
    codes "PASV"
    ∷ codes "PORT"
    ∷ codes "STOR"
    ∷ codes "MKD"
    ∷ codes "XMKD"
    ∷ codes "RMD"
    ∷ codes "XRMD"
    ∷ codes "DELE"
    ∷ codes "RNFR"
    ∷ codes "RNTO"
    ∷ codes "SITE"
    ∷ codes "APPE"
    ∷ codes "EPSV"
    ∷ codes "EPRT"
    ∷ codes "RETR"
    ∷ codes "LIST"
    ∷ codes "NLST"
    ∷ codes "STOU"
    ∷ codes "ALLO"
    ∷ codes "REIN"
    ∷ codes "ACCT"
    ∷ codes "SMNT"
    ∷ codes "FEAT"
    ∷ codes "OPTS"
    ∷ codes "STAT"
    ∷ codes "PBSZ"
    ∷ codes "PROT"
    ∷ []

abbrev http_names : List Bytes
http_names = codes "GET" ∷ codes "POST" ∷ codes "HEAD" ∷ codes "OPTIONS" ∷ codes "CONNECT" ∷ []

-- The tests of the chain, in its order.
unfoldable pub branches : CommandTunables → Client → Bytes → Bytes → List (Bool × Branch)
unfolding may_read may_write
branches t s cmd arg =
    let is = (λ (name : Bytes). str_equal cmd name) in
    let dirlist = t.tunable_dirlist_enable && may_read s in
    let uploads = writes t s t.tunable_anon_upload_enable in
    let makes = writes t s t.tunable_anon_mkdir_write_enable in
    let others = writes t s t.tunable_anon_other_write_enable in
    (is (codes "QUIT"), quit)
    ∷ (is (codes "PWD") || is (codes "XPWD"), pwd)
    ∷ (is (codes "CWD") || is (codes "XCWD"), cwd)
    ∷ (is (codes "CDUP") || is (codes "XCUP"), cdup)
    ∷ (t.tunable_pasv_enable && (not s.epsv_all && (is (codes "PASV") || is (codes "P@SW"))), pasv)
    ∷ (t.tunable_pasv_enable && is (codes "EPSV"), epsv)
    ∷ (t.tunable_download_enable && (may_read s && is (codes "RETR")), retr)
    ∷ (is (codes "NOOP"), noop)
    ∷ (is (codes "SYST"), syst)
    ∷ (is (codes "HELP"), help)
    ∷ (dirlist && is (codes "LIST"), list)
    ∷ (is (codes "TYPE"), type_)
    ∷ (t.tunable_port_enable && (not s.epsv_all && is (codes "PORT")), port)
    ∷ (uploads && is (codes "STOR"), stor)
    ∷ (makes && (is (codes "MKD") || is (codes "XMKD")), mkd)
    ∷ (others && (is (codes "RMD") || is (codes "XRMD")), rmd)
    ∷ (others && is (codes "DELE"), dele)
    ∷ (is (codes "REST"), rest)
    ∷ (others && is (codes "RNFR"), unimplemented (codes "RNFR"))
    ∷ (others && is (codes "RNTO"), unimplemented (codes "RNTO"))
    ∷ (dirlist && is (codes "NLST"), nlst)
    ∷ (may_read s && is (codes "SIZE"), size)
    ∷ (not s.is_anonymous && is (codes "SITE"), unimplemented (codes "SITE"))
    ∷ (is (codes "ABOR") || is (255 ∷ 244 ∷ 255 ∷ 242 ∷ codes "ABOR"), abor)
    ∷ (others && is (codes "APPE"), unimplemented (codes "APPE"))
    ∷ (is (codes "MDTM"), unimplemented (codes "MDTM"))
    ∷ (t.tunable_port_enable && is (codes "EPRT"), eprt)
    ∷ (is (codes "STRU"), stru)
    ∷ (is (codes "MODE"), mode)
    ∷ (uploads && is (codes "STOU"), unimplemented (codes "STOU"))
    ∷ (is (codes "ALLO"), allo)
    ∷ (is (codes "REIN"), unimplemented (codes "REIN"))
    ∷ (is (codes "ACCT"), unimplemented (codes "ACCT"))
    ∷ (is (codes "SMNT"), unimplemented (codes "SMNT"))
    ∷ (is (codes "FEAT"), feat)
    ∷ (is (codes "OPTS"), opts)
    ∷ (is (codes "STAT") && is_empty arg, stat)
    ∷ (dirlist && is (codes "STAT"), stat_file)
    ∷ (t.tunable_ssl_enable && is (codes "PBSZ"), pbsz)
    ∷ (t.tunable_ssl_enable && is (codes "PROT"), prot)
    ∷ (is (codes "USER"), user)
    ∷ (is (codes "PASS"), pass)
    ∷ (any_equal cmd forbidden_names, forbidden)
    ∷ (is_empty cmd && is_empty arg, empty_line)
    ∷ (any_equal cmd http_names, http_verb)
    ∷ []

unfoldable pub branch_of : CommandTunables → Client → Bytes → Bytes → Branch
unfolding branches
branch_of t s cmd arg = first_of (branches t s cmd arg) unknown

-- What a branch does.
unfoldable pub perform : CLibrary → CommandTunables → Host → Client → Bytes → Branch → Run Client
perform c t h s arg quit = vsf_cmdio_write_exit 221 (codes "Goodbye.") 0
perform c t h s arg pwd = handle_pwd s
perform c t h s arg cwd = handle_cwd t h s arg
perform c t h s arg cdup = handle_cdup t h s
perform c t h s arg pasv = handle_pasv c t h s arg false
perform c t h s arg epsv = handle_pasv c t h s arg true
perform c t h s arg retr = handle_retr t h s arg
perform c t h s arg noop = answer 200 (codes "NOOP ok.") s
perform c t h s arg syst = answer 215 (codes "UNIX Type: L8") s
perform c t h s arg help = handle_help s
perform c t h s arg list = handle_dir_common t h s arg true false
perform c t h s arg type_ = handle_type s arg
perform c t h s arg port = handle_port c t s arg
perform c t h s arg stor = handle_upload_common t h s arg
perform c t h s arg mkd = handle_mkd t h s arg
perform c t h s arg rmd = handle_rmd t h s arg
perform c t h s arg dele = handle_dele t h s arg
perform c t h s arg rest = handle_rest s arg
perform c t h s arg nlst = handle_dir_common t h s arg false false
perform c t h s arg size = handle_size t h s arg
perform c t h s arg abor = answer 225 (codes "No transfer to ABOR.") s
perform c t h s arg eprt = handle_eprt c t s arg
perform c t h s arg stru = handle_stru s arg
perform c t h s arg mode = handle_mode s arg
perform c t h s arg allo = answer 202 (codes "ALLO command ignored.") s
perform c t h s arg feat = does (map said (handle_feat t.feature_tunables)) s
perform c t h s arg opts = does (map said (handle_opts arg)) s
perform c t h s arg stat = handle_stat t s
perform c t h s arg stat_file = handle_dir_common t h s arg true true
perform c t h s arg pbsz = handle_turn s (handle_pbsz (as_session s))
perform c t h s arg prot = handle_turn s (handle_prot (as_session s) arg)
perform c t h s arg user = handle_logged_in_user s arg
perform c t h s arg pass = handle_logged_in_pass s
perform c t h s arg forbidden = not_permitted s
perform c t h s arg empty_line = done s
perform c t h s arg http_verb =
    vsf_cmdio_write_exit 500 (codes "HTTP protocol commands not allowed.") 1
perform c t h s arg unknown = answer 500 (codes "Unknown command.") s
perform c t h s arg (unimplemented name) = answer 502 (name ++ codes " not implemented.") s

-- What follows every command.
unfoldable pub after_command : Client → Run Client
unfolding vsf_log_do_log
after_command s = vsf_log_do_log false s >>> (λ s1.
    if s1.data_timeout
    then vsf_cmdio_write_exit 421 (codes "Data timeout. Reconnect. Sorry.") 1
    else done s1)

-- One round of the loop, on a command and its argument, which is converted first.
unfoldable pub one_round : CLibrary → CommandTunables → Host → Client → Bytes × Bytes → Run Client
unfolding cmd_ok branch_of perform after_command cos_conv_gbk_2_utf
one_round c t h s (cmd, raw_arg) =
    let (lines, arg) = cos_conv_gbk_2_utf c raw_arg in
    also lines (
      quiet (cmd_ok t cmd) >>> (λ allowed.
        (if not allowed then not_permitted s else perform c t h s arg (branch_of t s cmd arg))
        >>> after_command))

-- The loop over the commands that come, each with what the outside answers while it runs.
unfoldable pub command_loop :
    CLibrary → CommandTunables → Client → List (Host × Bytes × Bytes) → Run Client
unfolding one_round
command_loop c t s [] = done s
command_loop c t s ((h, cmd, arg) ∷ commands) =
    one_round c t h s (cmd, arg) >>> (λ s1. command_loop c t s1 commands)

-- What comes before the loop, of a session that is not HTTP.
unfoldable pub begin_session : CommandTunables → Client → Run Client
begin_session t s =
    does
      (set_umask (if s.is_anonymous then t.tunable_anon_umask else t.tunable_local_umask)
        ∷ dir_message 230
        ∷ write 230 (codes "Login successful.")
        ∷ [])
      (record s {
        home_str = s.cwd;
        bw_rate_max = if s.is_anonymous then t.tunable_anon_max_rate else t.tunable_local_max_rate;
      })

unfoldable pub process_post_login :
    CLibrary → CommandTunables → Client → List (Host × Bytes × Bytes) → Run Client
unfolding begin_session command_loop
process_post_login c t s commands = begin_session t s >>> (λ s1. command_loop c t s1 commands)
