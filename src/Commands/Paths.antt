-- ===== src/Commands/Paths.antt =====
-- The paths of src/postlogin.c: what a name means in the working directory, in the root of the user
-- and in a home.
pub mod Resolved
use cos_ftp_v.Base.{
  ℕ, zero, suc, ◌+◌, ◌-◌, ◌*◌, ◌/◌, ◌%◌, ◌^◌, ◌≤◌, ◌<◌, min, max, ◌≡◌, refl, sym, ap, ◌∙◌, subst,
  ◌≢◌, ◌↔◌, ◌⊎◌, inl, inr, Bool, true, false, not, ◌&&◌, ◌||◌, Option, none, some, List, [], ◌∷◌,
  ◌++◌, map, append-nil, append_assoc, arith, Bytes, codes, uint_mod, ltb, leb, ◌==◌, if◌then◌else◌,
  ltb→lt, lt→ltb, le→ltb, lt→leb, leb→le, le→leb, ==_iff, ==_refl, Bool-cases, Option-cases,
  if_elim, tests, length, get_elem?, set, take, drop, replicate, length-append, length-take,
  length-drop, length-replicate, length-set, take-append-drop, take-length_append,
  drop-length_append, take-length, take-all, drop_split, drop_add, any_of, All, All-append,
  All-left, All-right, all_of, Outcome, ok, bug, die, exit, fault, ◌>>=◌, >>=-eq-ok, Ends, Returns,
  Ends-bind, Ends-mono, Returns-ok,
}
use cos_ftp_v.Str.Edit.{is_empty, str_replace_text}
use cos_ftp_v.Str.Split.{str_split_text, str_split_char, str_split_char_reverse}
use cos_ftp_v.Access.{with_slash, vsf_access_session_check_file}
use cos_ftp_v.Commands.{Client, CommandTunables, Host}

-- `str_isempty(p_str) || str_get_char_at(p_str, 0) != '/'`
abbrev pub is_relative : Bytes → Bool
is_relative [] = true
is_relative (c ∷ s) = not (c == b'/')

unfoldable pub prepend_path_to_filename : Client → Bytes → Bytes
prepend_path_to_filename s path = if is_relative path then with_slash s.cwd ++ path else path

unfoldable pub prepend_session_path_to_filename : Client → Bytes → Bytes
prepend_session_path_to_filename s path =
    (if is_relative path then with_slash s.cwd else s.user_root) ++ path

-- The text of a replacement; with no fuel left there is none.
abbrev pub text_or_fault : Option Bytes → Outcome Bytes
text_or_fault none = fault
text_or_fault (some s) = ok s

-- The first loop of `session_real_path`, with fuel.
pub squeeze_loop : ℕ → Bytes → Outcome Bytes
squeeze_loop zero path = fault
squeeze_loop (suc fuel) path =
    str_replace_text path (codes "/./") (codes "/") >>= text_or_fault >>= (λ next.
      elim (length next == length path) [ true ↦ ok next | false ↦ squeeze_loop fuel next ])

-- What is left of a path whose part after a "/../" is `rhs`.
abbrev pub rejoin : Bytes → Bytes → Bytes
rejoin path rhs = if is_empty rhs then path else (path ++ b'/' ∷ []) ++ rhs

-- The second.
pub climb_loop : ℕ → Bytes → Outcome Bytes
climb_loop zero path = fault
climb_loop (suc fuel) path = str_split_text path (codes "/../") >>= (λ parts.
    elim (length parts.0 == length path) [
      | true ↦ ok parts.0
      | false ↦
          str_split_char_reverse parts.0 b'/' >>= (λ up. climb_loop fuel (rejoin up.0 parts.1))
    ])

-- The loops that `real_path` and `session_real_path` share; each round makes the path shorter.
unfoldable pub without_dots : Bytes → Outcome Bytes
unfolding squeeze_loop climb_loop
without_dots path =
    squeeze_loop (length path + 1) path >>= (λ next. climb_loop (length next + 1) next)

unfoldable pub real_path : Client → Bytes → Outcome Bytes
unfolding without_dots prepend_path_to_filename
real_path s path = without_dots (prepend_path_to_filename s path)

unfoldable pub session_real_path : Client → Bytes → Outcome Bytes
unfolding without_dots prepend_session_path_to_filename
session_real_path s path = without_dots (prepend_session_path_to_filename s path)

-- `vsf_access_session_check_file` of src/access.c on the session's own real path and root.
unfoldable pub session_check : CommandTunables → Client → Bytes → Outcome Bool
unfolding session_real_path vsf_access_session_check_file
session_check t s name =
    session_real_path s name
    >>= (λ path. vsf_access_session_check_file t.tunable_deny_file path s.user_root name)

-- Of src/sysstr.c.
unfoldable pub str_session_getcwd : Client → Outcome Bytes
str_session_getcwd s = str_replace_text s.cwd s.user_root [] >>= text_or_fault

abbrev pub is_tilde : Option ℕ → Bool
is_tilde none = false
is_tilde (some c) = c == b'~'

abbrev pub own_home : Option ℕ → Bool
own_home none = true
own_home (some c) = c == b'/'

abbrev pub other_home : Bytes → Option Bytes → Bytes → Bytes
other_home path none rhs = path
other_home path (some home) rhs = rejoin home rhs

-- `str_getpwnam` is the host's.
unfoldable pub resolve_tilde : CommandTunables → Host → Client → Bytes → Outcome Bytes
resolve_tilde t h s path =
    if is_tilde (get_elem? path 0)
    then (if own_home (get_elem? path 1)
        then str_split_char path b'~' >>= (λ parts. ok (s.home_str ++ parts.1))
        else if t.tunable_tilde_user_enable
        then str_split_char path b'~' >>= (λ parts.
          str_split_char parts.1 b'/'
          >>= (λ named. ok (other_home path (h.home_of named.0) named.1)))
        else ok path)
    else ok path
