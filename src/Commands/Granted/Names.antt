-- ===== src/Commands/Granted/Names.antt =====
-- The paths of a command are sound.
use cos_ftp_v.Base.{
  ℕ, ◌≡◌, refl, ◌≢◌, not, Option, none, some, [], ◌∷◌, ◌++◌, arith, Bytes, codes, if_elim,
  get_elem?, Outcome, ok, bug, die, exit, fault, ◌>>=◌,
}
use cos_ftp_v.Str.Edit.{str_replace_text}
use cos_ftp_v.Str.Edit.Replace.{str_replace_text-replaced}
use cos_ftp_v.Str.Edit.Shrinks.{Shrinks, str_replace_text-Shrinks}
use cos_ftp_v.Str.Split.{str_split_char}
use cos_ftp_v.Str.Split.Parts.{str_split_char-before-after}
use cos_ftp_v.Access.{with_slash, vsf_access_check_file, vsf_access_session_check_file}
use cos_ftp_v.Str.Locate.{starts_with}
use cos_ftp_v.Commands.{Client, CommandTunables, Host}
use cos_ftp_v.Commands.Files.{quoted}
use cos_ftp_v.Commands.Paths.{
  text_or_fault, is_tilde, own_home, session_real_path, session_check, str_session_getcwd,
  resolve_tilde,
}
use cos_ftp_v.Commands.Paths.Resolved.{Lacks, session_real_path-Lacks}
use cos_ftp_v.Commands.Runs.{Sound, Sound-bind, Sound-mono, Returns→Sound}

-- Any end is sound where a bug and a fault are.
Sound-allowed : {A : Type 0} (B : Type 0) (o : Outcome A) → B → Sound B (λ a. Unit) o
Sound-allowed B (ok a) b = tt
Sound-allowed B bug b = b
Sound-allowed B fault b = b
Sound-allowed B die b = tt
Sound-allowed B (exit n) b = tt

module _ (B : Type 0) where
  -- A split at a byte is sound.
  pub split-Sound : (s : Bytes) (c : ℕ) → c ≢ 0 → Sound B (λ p. Unit) (str_split_char s c)
  split-Sound s c ne = rw (str_split_char-before-after s c ne) tt

  pub quoted-Sound : (path : Bytes) → Sound B (λ q. Unit) (quoted path)
  quoted-Sound path = rw (str_replace_text-replaced path b'"' (codes "\"\"")) tt

  replace-Sound :
      (s from : Bytes)
      → (from ≡ [] → B)
      → Sound B (λ q. Unit) (str_replace_text s from [] >>= text_or_fault)
  replace-Sound s [] h = Sound-allowed B (str_replace_text s [] [] >>= text_or_fault) (h refl)
  replace-Sound s (x ∷ from) h =
      Sound-bind B (Shrinks (x ∷ from) s []) (λ q. Unit) (str_replace_text s (x ∷ from) [])
        text_or_fault
        (Returns→Sound B (Shrinks (x ∷ from) s []) (str_replace_text s (x ∷ from) [])
          (str_replace_text-Shrinks (x ∷ from) [] (λ e. absurd cc) (omega arith) s))
        got
    where
      got : (o : Option Bytes) → Shrinks (x ∷ from) s [] o → Sound B (λ q. Unit) (text_or_fault o)
      got none k = absurd k
      got (some q) k = tt

  pub getcwd-Sound :
      (s : Client) → (s.user_root ≡ [] → B) → Sound B (λ q. Unit) (str_session_getcwd s)
  unfolding str_session_getcwd
  getcwd-Sound s rooted = replace-Sound s.cwd s.user_root rooted

  pub resolve_tilde-Sound :
      (t : CommandTunables) (h : Host) (s : Client) (path : Bytes)
      → Sound B (λ p. Unit) (resolve_tilde t h s path)
  unfolding resolve_tilde
  resolve_tilde-Sound t h s path =
      if_elim (Sound B (λ p. Unit)) (is_tilde (get_elem? path 0)) _ _
        (λ e.
          if_elim (Sound B (λ p. Unit)) (own_home (get_elem? path 1)) _ _
            (λ e.
              Sound-bind B (λ p. Unit) (λ p. Unit) (str_split_char path b'~') _
                (split-Sound path b'~' (λ e. absurd cc)) (λ p u. tt))
            (λ e.
              if_elim (Sound B (λ p. Unit)) t.tunable_tilde_user_enable _ _
                (λ e.
                  Sound-bind B (λ p. Unit) (λ p. Unit) (str_split_char path b'~') _
                    (split-Sound path b'~' (λ e. absurd cc))
                    (λ p u.
                      Sound-bind B (λ p. Unit) (λ p. Unit) (str_split_char p.1 b'/') _
                        (split-Sound p.1 b'/' (λ e. absurd cc)) (λ q u. tt)))
                (λ e. tt)))
        (λ e. tt)

  module _ (t : CommandTunables)
      (check : (name : Bytes)
        → Sound B (λ b. Unit) (vsf_access_check_file t.tunable_deny_file name)) where
    pub session_check-Sound :
        (s : Client) (name : Bytes) → Sound B (λ b. Unit) (session_check t s name)
    unfolding session_check vsf_access_session_check_file
    session_check-Sound s name =
        Sound-bind B (λ p. Unit) (λ b. Unit) (session_real_path s name) _
          (Sound-mono B B (Lacks (codes "/../")) (λ p. Unit) (session_real_path s name) (λ b. b)
            (λ p k. tt)
            (Returns→Sound B (Lacks (codes "/../")) (session_real_path s name)
              (session_real_path-Lacks s name)))
          (λ path u.
            if_elim (Sound B (λ b. Unit))
              (not (starts_with (s.user_root ++ b'/' ∷ []) (with_slash path))) _ _ (λ e. tt)
              (λ e. check name))
