-- ===== src/Access.antt =====
-- src/access.c: the checks of the name of a file and of where its path is.
pub mod Total
use cos_ftp_v.Base.{
  Bool, true, false, not, ◌||◌, Option, none, some, [], ◌∷◌, ◌++◌, Bytes, ◌==◌, if◌then◌else◌,
  Outcome, ok, ◌>>=◌,
}
use cos_ftp_v.Str.Locate.{str_locate_str, starts_with}
use cos_ftp_v.Str.Edit.{is_empty}
use cos_ftp_v.Listing.{Verdict, vsf_filename_passes_filter}

unless_named : Bytes → Bytes → Verdict → Outcome Bool
unless_named name filter r =
    if r.0
    then ok false
    else elim (str_locate_str name filter) [ none ↦ ok true | some _ ↦ ok false ]

-- The body that both checks of a name share: the tunable is null or a C string, and `s_access_str`
-- is a copy of it.
pub access_check : Option Bytes → Bytes → Outcome Bool
unfolding unless_named
access_check none name = ok true
access_check (some filter) name =
    vsf_filename_passes_filter name filter 0 >>= unless_named name filter

unfoldable pub vsf_access_check_file : Option Bytes → Bytes → Outcome Bool
unfolding access_check
vsf_access_check_file tunable_deny_file name = access_check tunable_deny_file name

unfoldable pub vsf_access_check_file_visible : Option Bytes → Bytes → Outcome Bool
unfolding access_check
vsf_access_check_file_visible tunable_hide_file name = access_check tunable_hide_file name

-- `str_get_char_at(…, len - 1) != '/'`
last_is_slash : Bytes → Bool
last_is_slash [] = false
last_is_slash (c ∷ []) = c == b'/'
last_is_slash (c ∷ d ∷ s) = last_is_slash (d ∷ s)

unfoldable pub with_slash : Bytes → Bytes
unfolding last_is_slash
with_slash path = if is_empty path || not (last_is_slash path) then path ++ b'/' ∷ [] else path

-- `real_path` is what `session_real_path` makes of the name and `user_root` what
-- `get_user_root_dir` gives, neither with a zero byte; `session_check` of Commands.Paths gives them.
unfoldable pub vsf_access_session_check_file : Option Bytes → Bytes → Bytes → Bytes → Outcome Bool
vsf_access_session_check_file tunable_deny_file real_path user_root name =
    if not (starts_with (user_root ++ b'/' ∷ []) (with_slash real_path))
    then ok false
    else vsf_access_check_file tunable_deny_file name
