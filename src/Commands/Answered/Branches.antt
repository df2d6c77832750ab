-- ===== src/Commands/Answered/Branches.antt =====
-- The replies of the branches of the loop over the commands; that for an empty line has none.
use cos_ftp_v.Base.{
  ℕ, ◌≡◌, refl, inl, Bool, true, false, not, ◌&&◌, ◌||◌, List, [], ◌∷◌, ◌++◌, map, arith, Bytes,
  codes, if_elim, all_of,
}
use cos_ftp_v.Str.Compare.{str_equal}
use cos_ftp_v.Str.Edit.{is_empty, str_upper}
use cos_ftp_v.Session.{reply_hyphen, reply, reply_raw, Tunables, Doing}
use cos_ftp_v.Session.Greeting.{when, handle_feat, handle_opts, handle_pbsz, handle_prot}
use cos_ftp_v.Commands.{Client, CommandTunables, Host, said, write, write_raw}
use cos_ftp_v.Commands.Data.{CLibrary}
use cos_ftp_v.Commands.Files.{handle_rest}
use cos_ftp_v.Commands.Replies.{
  handle_help, stat_texts, handle_stat, handle_logged_in_user, handle_logged_in_pass, handle_stru,
  handle_mode, as_session, handle_turn,
}
use cos_ftp_v.Commands.Round.{
  Branch, quit, pwd, cwd, cdup, pasv, epsv, retr, noop, syst, help, list, type_, port, stor, mkd,
  rmd, dele, rest, nlst, size, abor, eprt, stru, mode, allo, feat, opts, stat, stat_file, pbsz,
  prot, user, pass, forbidden, empty_line, http_verb, unknown, unimplemented, first_of, branches,
  branch_of, perform,
}
use cos_ftp_v.Commands.Answered.{Answers, replied, replied-right}
use cos_ftp_v.Commands.Answered.Handlers.{
  handle_port-Answers, handle_eprt-Answers, handle_pasv-Answers, handle_pwd-Answers,
  handle_type-Answers, handle_cwd-Answers, handle_cdup-Answers, handle_mkd-Answers,
  handle_rmd-Answers, handle_dele-Answers, handle_size-Answers,
}
use cos_ftp_v.Commands.Answered.Downloads.{handle_retr-Answers, handle_dir_common-Answers}
use cos_ftp_v.Commands.Answered.Uploads.{handle_upload_common-Answers}

abbrev is_silent : Branch → Bool
is_silent empty_line = true
is_silent b = false

first_of-is_silent :
    (l : List (Bool × Branch)) (otherwise : Branch)
    → all_of (λ p. not (is_silent p.1 && p.0)) l ≡ true
    → is_silent otherwise ≡ false
    → is_silent (first_of l otherwise) ≡ false
first_of-is_silent [] otherwise h k = k
first_of-is_silent ((true, b) ∷ l) otherwise h k = ground arith
first_of-is_silent ((false, b) ∷ l) otherwise h k = first_of-is_silent l otherwise (ground arith) k

-- The branch for an empty line is that of no other.
branch_of-is_silent :
    (t : CommandTunables) (s : Client) (cmd arg : Bytes)
    → (is_empty cmd && is_empty arg) ≡ false
    → is_silent (branch_of t s cmd arg) ≡ false
unfolding branch_of branches
branch_of-is_silent t s cmd arg e =
    first_of-is_silent (branches t s cmd arg) unknown (rw e refl) refl

unfoldable Replied : List Doing → Type 0
Replied did = replied (map said did) ≡ true

Replied-append : (a b : List Doing) → Replied b → Replied (a ++ b)
unfolding Replied
Replied-append [] b h = h
Replied-append (x ∷ a) b h = ground (arith, Replied-append a b h)

Replied-end : (status : ℕ) (text : Bytes) → Replied (reply status text ∷ [])
unfolding Replied
Replied-end status text = refl

feat-Replied : (t : Tunables) → Replied (handle_feat t)
unfolding handle_feat
feat-Replied t = Replied-append (reply_hyphen 211 (codes "Features:") ∷ []) _ (
    Replied-append
      (when (t.tunable_ssl_enable && (t.tunable_sslv2 || t.tunable_sslv3))
        (reply_raw (codes " AUTH SSL\r\n") ∷ []))
      _
      (Replied-append
        (when (t.tunable_ssl_enable && t.tunable_tlsv1) (reply_raw (codes " AUTH TLS\r\n") ∷ [])) _
        (Replied-append (when t.tunable_port_enable (reply_raw (codes " EPRT\r\n") ∷ [])) _ (
          Replied-append
            (when t.tunable_pasv_enable
              (reply_raw (codes " EPSV\r\n") ∷ reply_raw (codes " PASV\r\n") ∷ []))
            _
            (Replied-append
              (when t.tunable_ssl_enable
                (reply_raw (codes " PBSZ\r\n") ∷ reply_raw (codes " PROT\r\n") ∷ []))
              _
              (Replied-append
                (reply_raw (codes " SIZE\r\n")
                  ∷ reply_raw (codes " TVFS\r\n")
                  ∷ reply_raw (codes " UTF8\r\n")
                  ∷ [])
                (reply 211 (codes "End") ∷ []) (Replied-end 211 (codes "End"))))))))

handle_feat-replied : (t : Tunables) → replied (map said (handle_feat t)) ≡ true
unfolding Replied
handle_feat-replied t = feat-Replied t

handle_opts-replied : (arg : Bytes) → replied (map said (handle_opts arg)) ≡ true
unfolding handle_opts
handle_opts-replied arg =
    if_elim (λ did. replied (map said did) ≡ true) (str_equal (str_upper arg) (codes "UTF8 ON")) _ _
      (λ e. refl) (λ e. refl)

handle_pbsz-Answers : (s : Client) → Answers (handle_turn s (handle_pbsz (as_session s)))
unfolding handle_pbsz
handle_pbsz-Answers s =
    if_elim (λ r. Answers (handle_turn s r)) (not s.control_use_ssl) _ _ (λ e. inl refl)
      (λ e. inl refl)

handle_prot-Answers :
    (s : Client) (arg : Bytes) → Answers (handle_turn s (handle_prot (as_session s) arg))
unfolding handle_prot
handle_prot-Answers s arg =
    let upper = str_upper arg in
    if_elim (λ r. Answers (handle_turn s r)) (not s.control_use_ssl) _ _ (λ e. inl refl)
      (λ e.
        if_elim (λ r. Answers (handle_turn s r)) (str_equal upper (codes "C")) _ _ (λ e. inl refl)
          (λ e.
            if_elim (λ r. Answers (handle_turn s r)) (str_equal upper (codes "P")) _ _
              (λ e. inl refl)
              (λ e.
                if_elim (λ r. Answers (handle_turn s r))
                  (str_equal upper (codes "S") || str_equal upper (codes "E")) _ _ (λ e. inl refl)
                  (λ e. inl refl))))

user-Answers : (s : Client) (arg : Bytes) → Answers (handle_logged_in_user s arg)
unfolding handle_logged_in_user
user-Answers s arg =
    if_elim Answers s.is_anonymous _ _ (λ e. inl refl)
      (λ e. if_elim Answers (str_equal s.user_str arg) _ _ (λ e. inl refl) (λ e. inl refl))

stru-Answers : (s : Client) (arg : Bytes) → Answers (handle_stru s arg)
unfolding handle_stru
stru-Answers s arg =
    if_elim Answers (str_equal (str_upper arg) (codes "F")) _ _ (λ e. inl refl) (λ e. inl refl)

mode-Answers : (s : Client) (arg : Bytes) → Answers (handle_mode s arg)
unfolding handle_mode
mode-Answers s arg =
    if_elim Answers (str_equal (str_upper arg) (codes "S")) _ _ (λ e. inl refl) (λ e. inl refl)

help-Answers : (s : Client) → Answers (handle_help s)
unfolding handle_help
help-Answers s = inl refl

stat-Answers : (t : CommandTunables) (s : Client) → Answers (handle_stat t s)
unfolding handle_stat
stat-Answers t s =
    inl
      (replied-right (map write_raw (stat_texts t s)) (write 211 (codes "End of status") ∷ []) refl)

pass-Answers : (s : Client) → Answers (handle_logged_in_pass s)
unfolding handle_logged_in_pass
pass-Answers s = inl refl

rest-Answers : (s : Client) (arg : Bytes) → Answers (handle_rest s arg)
unfolding handle_rest
rest-Answers s arg = inl refl

loud-Answers :
    (c : CLibrary) (t : CommandTunables) (h : Host) (s : Client) (arg : Bytes) (b : Branch)
    → is_silent b ≡ false
    → Answers (perform c t h s arg b)
unfolding perform
loud-Answers c t h s arg quit e = tt
loud-Answers c t h s arg pwd e = handle_pwd-Answers s
loud-Answers c t h s arg cwd e = handle_cwd-Answers t h s arg
loud-Answers c t h s arg cdup e = handle_cdup-Answers t h s
loud-Answers c t h s arg pasv e = handle_pasv-Answers c t h s arg false
loud-Answers c t h s arg epsv e = handle_pasv-Answers c t h s arg true
loud-Answers c t h s arg retr e = handle_retr-Answers t h s arg
loud-Answers c t h s arg noop e = inl refl
loud-Answers c t h s arg syst e = inl refl
loud-Answers c t h s arg help e = help-Answers s
loud-Answers c t h s arg list e = handle_dir_common-Answers t h s arg true false
loud-Answers c t h s arg type_ e = handle_type-Answers s arg
loud-Answers c t h s arg port e = handle_port-Answers c t s arg
loud-Answers c t h s arg stor e = handle_upload_common-Answers t h s arg
loud-Answers c t h s arg mkd e = handle_mkd-Answers t h s arg
loud-Answers c t h s arg rmd e = handle_rmd-Answers t h s arg
loud-Answers c t h s arg dele e = handle_dele-Answers t h s arg
loud-Answers c t h s arg rest e = rest-Answers s arg
loud-Answers c t h s arg nlst e = handle_dir_common-Answers t h s arg false false
loud-Answers c t h s arg size e = handle_size-Answers t h s arg
loud-Answers c t h s arg abor e = inl refl
loud-Answers c t h s arg eprt e = handle_eprt-Answers c t s arg
loud-Answers c t h s arg stru e = stru-Answers s arg
loud-Answers c t h s arg mode e = mode-Answers s arg
loud-Answers c t h s arg allo e = inl refl
loud-Answers c t h s arg feat e = inl (handle_feat-replied t.feature_tunables)
loud-Answers c t h s arg opts e = inl (handle_opts-replied arg)
loud-Answers c t h s arg stat e = stat-Answers t s
loud-Answers c t h s arg stat_file e = handle_dir_common-Answers t h s arg true true
loud-Answers c t h s arg pbsz e = handle_pbsz-Answers s
loud-Answers c t h s arg prot e = handle_prot-Answers s arg
loud-Answers c t h s arg user e = user-Answers s arg
loud-Answers c t h s arg pass e = pass-Answers s
loud-Answers c t h s arg forbidden e = inl refl
loud-Answers c t h s arg empty_line e = absurd cc
loud-Answers c t h s arg http_verb e = tt
loud-Answers c t h s arg unknown e = inl refl
loud-Answers c t h s arg (unimplemented name) e = inl refl

pub perform-Answers :
    (c : CLibrary) (t : CommandTunables) (h : Host) (s : Client) (cmd arg : Bytes)
    → (is_empty cmd && is_empty arg) ≡ false
    → Answers (perform c t h s arg (branch_of t s cmd arg))
perform-Answers c t h s cmd arg e =
    loud-Answers c t h s arg (branch_of t s cmd arg) (branch_of-is_silent t s cmd arg e)
