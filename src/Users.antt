-- ===== src/Users.antt =====
-- src/cosswitch.cpp: the users that the setting `login_users` lists.
pub mod Listed
use cos_ftp_v.Base.{
  ℕ, zero, suc, ◌+◌, ◌-◌, ◌*◌, ◌/◌, ◌%◌, ◌^◌, ◌≤◌, ◌<◌, min, max, ◌≡◌, refl, sym, ap, ◌∙◌, subst,
  ◌≢◌, ◌↔◌, ◌⊎◌, inl, inr, Bool, true, false, not, ◌&&◌, ◌||◌, Option, none, some, List, [], ◌∷◌,
  ◌++◌, map, append-nil, append_assoc, arith, Bytes, codes, uint_mod, ltb, leb, ◌==◌, if◌then◌else◌,
  ltb→lt, lt→ltb, le→ltb, lt→leb, leb→le, le→leb, ==_iff, ==_refl, Bool-cases, Option-cases,
  if_elim, tests, length, get_elem?, set, take, drop, replicate, length-append, length-take,
  length-drop, length-replicate, length-set, take-append-drop, take-length_append,
  drop-length_append, take-length, take-all, drop_split, drop_add, any_of, All, All-append,
  All-left, All-right, all_of, Outcome, ok, bug, die, exit, fault, ◌>>=◌, >>=-eq-ok, Ends, Returns,
  Ends-bind, Ends-mono, Returns-ok,
}
use cos_ftp_v.Str.Compare.{str_equal}
use cos_ftp_v.Str.Locate.{c_str}
use cos_ftp_v.Str.Split.Parts.{before, after}

-- `Global_READ` and `Global_WRITE` are the bits 1 and 2.
or_read : ℕ → ℕ
or_read permission = if permission % 2 == 1 then permission else permission + 1

or_write : ℕ → ℕ
or_write permission = if permission / 2 % 2 == 1 then permission else permission + 2

-- The `while` loop over the letters.
unfoldable pub permission_loop : ℕ → Bytes → ℕ
unfolding or_read or_write
permission_loop permission [] = permission
permission_loop permission (c ∷ s) =
    permission_loop
      (if c == b'R' || c == b'r'
        then or_read permission
        else if c == b'W' || c == b'w'
        then or_write permission
        else permission)
      s

unfoldable pub skip_delims : ℕ → Bytes → Bytes
skip_delims delim [] = []
skip_delims delim (c ∷ s) = if c == delim then skip_delims delim s else c ∷ s

abbrev pub token_at : ℕ → Bytes → Option (Bytes × Bytes)
token_at delim [] = none
token_at delim (c ∷ s) = some (before delim (c ∷ s), after delim (c ∷ s))

-- The C library's `strtok_r` with one delimiter: a token, and what its `save_ptr` then points to.
unfoldable pub strtok_r : ℕ → Bytes → Option (Bytes × Bytes)
strtok_r delim s = token_at delim (skip_delims delim s)

-- A name, a password and the letters of its permission.
pub record User : Type 0 where
  pub myuser : Bytes
  pub mypasswd : Bytes
  pub mypermission : Bytes

abbrev pub on_permission : Bytes → Bytes → Option (Bytes × Bytes) → Option User
on_permission u p none = none
on_permission u p (some (m, rest)) = some (record { myuser = u; mypasswd = p; mypermission = m })

abbrev pub on_passwd : Bytes → Option (Bytes × Bytes) → Option User
on_passwd u none = none
on_passwd u (some (p, rest)) = on_permission u p (strtok_r b':' rest)

abbrev pub on_user : Option (Bytes × Bytes) → Option User
on_user none = none
on_user (some (u, rest)) = on_passwd u (strtok_r b':' rest)

-- The three calls on an entry; `none` is a `continue`.
unfoldable pub entry_user : Bytes → Option User
entry_user tp = on_user (strtok_r b':' tp)

-- The two calls of `strcmp`.
abbrev pub is_user : Bytes → Bytes → User → Bool
is_user user passwd e = str_equal e.myuser (c_str user) && str_equal e.mypasswd (c_str passwd)

-- The body of the loop on an entry; `again` is what the next rounds give.
abbrev pub entry_or : Bytes → Bytes → Option (Bool × ℕ) → Option User → Option (Bool × ℕ)
entry_or user passwd again none = again
entry_or user passwd again (some e) =
    if is_user user passwd e then some (true, permission_loop 0 e.mypermission) else again

abbrev pub on_token :
    (Bytes → Option (Bool × ℕ)) → Bytes → Bytes → ℕ → Option (Bytes × Bytes) → Option (Bool × ℕ)
on_token next user passwd permission none = some (false, permission)
on_token next user passwd permission (some (tp, rest)) =
    entry_or user passwd (next rest) (entry_user tp)

-- The `for` loop: whether the result is 0, and `*permission` then; `none` is a lack of fuel.
unfoldable pub login_loop : ℕ → Bytes → Bytes → Bytes → ℕ → Option (Bool × ℕ)
login_loop zero login_users user passwd permission = none
login_loop (suc fuel) login_users user passwd permission =
    on_token (λ rest. login_loop fuel rest user passwd permission) user passwd permission
      (strtok_r b';' login_users)

-- A null setting is `none`.
unfoldable pub cos_handle_login : Option Bytes → Bytes → Bytes → ℕ → Option (Bool × ℕ)
unfolding login_loop
cos_handle_login none user passwd permission = some (false, permission)
cos_handle_login (some login_users) user passwd permission =
    login_loop (length login_users + 1) login_users user passwd permission
