-- ===== src/Users/Listed.antt =====
-- The users that `cos_handle_login` knows are those between the delimiters.
use cos_ftp_v.Base.{
  ℕ, zero, suc, ◌+◌, ◌≤◌, ◌<◌, ◌≡◌, refl, sym, ap, ◌∙◌, subst, inl, inr, Bool, true, false, Option,
  none, some, List, [], ◌∷◌, ◌++◌, map, append-nil, append_assoc, arith, Bytes, ◌==◌, if◌then◌else◌,
  Bool-cases, length,
}
use cos_ftp_v.Str.Split.Parts.{before, after}
use cos_ftp_v.Users.{
  permission_loop, skip_delims, token_at, strtok_r, User, on_permission, on_passwd, on_user,
  entry_user, is_user, entry_or, on_token, login_loop, cos_handle_login,
}

abbrev emit : Bytes → List Bytes → List Bytes
emit [] l = l
emit (c ∷ cur) l = (c ∷ cur) ∷ l

-- The pieces between the delimiters that are not empty, with `cur` read of the first.
abbrev pub pieces_from : ℕ → Bytes → Bytes → List Bytes
pieces_from delim cur [] = emit cur []
pieces_from delim cur (c ∷ s) =
    if c == delim then emit cur (pieces_from delim [] s) else pieces_from delim (cur ++ c ∷ []) s

abbrev pub pieces : ℕ → Bytes → List Bytes
pieces delim s = pieces_from delim [] s

-- The first three fields of an entry.
abbrev pub user_of : List Bytes → Option User
user_of [] = none
user_of (u ∷ []) = none
user_of (u ∷ p ∷ []) = none
user_of (u ∷ p ∷ m ∷ more) = some (record { myuser = u; mypasswd = p; mypermission = m })

-- The permission that the first of the entries with this name and password gives.
abbrev pub first_listed : Bytes → Bytes → ℕ → List (Option User) → Bool × ℕ
first_listed user passwd permission [] = (false, permission)
first_listed user passwd permission (none ∷ entries) = first_listed user passwd permission entries
first_listed user passwd permission (some e ∷ entries) =
    if is_user user passwd e
    then (true, permission_loop 0 e.mypermission)
    else first_listed user passwd permission entries

pieces_from-before :
    (delim x : ℕ) (cur s : Bytes)
    → pieces_from delim (x ∷ cur) s ≡ (x ∷ cur ++ before delim s) ∷ pieces delim (after delim s)
pieces_from-before delim x cur [] = ap (λ a. (x ∷ a) ∷ []) (sym (append-nil cur))
pieces_from-before delim x cur (c ∷ s) = elim (Bool-cases (c == delim)) [
  | inl same ↦ rw same (ap (λ a. (x ∷ a) ∷ pieces delim s) (sym (append-nil cur)))
  | inr other ↦ rw other (
      pieces_from-before delim x (cur ++ c ∷ []) s
      ∙ ap (λ a. (x ∷ a) ∷ pieces delim (after delim s))
          (append_assoc cur (c ∷ []) (before delim s)))
]

-- What a token says of the pieces.
abbrev Token : ℕ → Bytes → Option (Bytes × Bytes) → Type 0
Token delim s none = pieces delim s ≡ []
Token delim s (some (tp, rest)) =
    (pieces delim s ≡ tp ∷ pieces delim rest) × (length rest < length s)

after-length : (delim : ℕ) (s : Bytes) → length (after delim s) ≤ length s
after-length delim [] = omega arith
after-length delim (c ∷ s) = elim (Bool-cases (c == delim)) [
  | inl same ↦ rw same (omega arith)
  | inr other ↦ rw other (omega (arith, after-length delim s))
]

skip-Token :
    (delim c : ℕ) (s : Bytes) (o : Option (Bytes × Bytes))
    → (c == delim) ≡ true
    → Token delim s o
    → Token delim (c ∷ s) o
skip-Token delim c s none same h = rw same h
skip-Token delim c s (some (tp, rest)) same h = rw same (h.0, omega (arith, h.1))

here-Token :
    (delim c : ℕ) (s : Bytes)
    → (c == delim) ≡ false
    → Token delim (c ∷ s) (some (before delim (c ∷ s), after delim (c ∷ s)))
here-Token delim c s other =
    rw other (pieces_from-before delim c [] s, omega (arith, after-length delim s))

skip_delims_skipped :
    (delim c : ℕ) (s : Bytes)
    → (c == delim) ≡ true
    → skip_delims delim (c ∷ s) ≡ skip_delims delim s
unfolding skip_delims
skip_delims_skipped delim c s same = rw same refl

skip_delims_stays :
    (delim c : ℕ) (s : Bytes) → (c == delim) ≡ false → skip_delims delim (c ∷ s) ≡ c ∷ s
unfolding skip_delims
skip_delims_stays delim c s other = rw other refl

strtok_r-Token : (delim : ℕ) (s : Bytes) → Token delim s (strtok_r delim s)
unfolding strtok_r skip_delims
strtok_r-Token delim [] = refl
strtok_r-Token delim (c ∷ s) = elim (Bool-cases (c == delim)) [
  | inl same ↦
      subst (Token delim (c ∷ s)) (sym (ap (token_at delim) (skip_delims_skipped delim c s same)))
        (skip-Token delim c s (strtok_r delim s) same (strtok_r-Token delim s))
  | inr other ↦
      subst (Token delim (c ∷ s)) (sym (ap (token_at delim) (skip_delims_stays delim c s other)))
        (here-Token delim c s other)
]

on_permission-pieces :
    (u p s : Bytes) (o : Option (Bytes × Bytes))
    → Token b':' s o
    → on_permission u p o ≡ user_of (u ∷ p ∷ pieces b':' s)
on_permission-pieces u p s none h = rw h refl
on_permission-pieces u p s (some (m, rest)) h = rw h.0 refl

on_passwd-pieces :
    (u s : Bytes) (o : Option (Bytes × Bytes))
    → Token b':' s o
    → on_passwd u o ≡ user_of (u ∷ pieces b':' s)
on_passwd-pieces u s none h = rw h refl
on_passwd-pieces u s (some (p, rest)) h =
    rw h.0 (on_permission-pieces u p rest (strtok_r b':' rest) (strtok_r-Token b':' rest))

on_user-pieces :
    (s : Bytes) (o : Option (Bytes × Bytes)) → Token b':' s o → on_user o ≡ user_of (pieces b':' s)
on_user-pieces s none h = rw h refl
on_user-pieces s (some (u, rest)) h =
    rw h.0 (on_passwd-pieces u rest (strtok_r b':' rest) (strtok_r-Token b':' rest))

entry_user-pieces : (tp : Bytes) → entry_user tp ≡ user_of (pieces b':' tp)
unfolding entry_user
entry_user-pieces tp = on_user-pieces tp (strtok_r b':' tp) (strtok_r-Token b':' tp)

-- What `login_users` lists: the entries between the semicolons, and in each the fields between the
-- colons.
abbrev pub listed_users : Bytes → List (Option User)
listed_users login_users = map (λ tp. user_of (pieces b':' tp)) (pieces b';' login_users)

login_loop-first :
    (fuel : ℕ) (s user passwd : Bytes) (permission : ℕ)
    → length s < fuel
    → login_loop fuel s user passwd permission
      ≡ some (first_listed user passwd permission (listed_users s))
unfolding login_loop
login_loop-first zero s user passwd permission h = absurd (omega arith)
login_loop-first (suc fuel) s user passwd permission h =
    by_token (strtok_r b';' s) (strtok_r-Token b';' s)
      (λ rest l. login_loop-first fuel rest user passwd permission (omega arith))
  where
    by_entry :
        (o : Option User) (entries : List (Option User)) (again : Option (Bool × ℕ))
        → again ≡ some (first_listed user passwd permission entries)
        → entry_or user passwd again o ≡ some (first_listed user passwd permission (o ∷ entries))
    by_entry none entries again e = e
    by_entry (some u) entries again e = elim (Bool-cases (is_user user passwd u)) [
      | inl is ↦ rw is refl
      | inr is_not ↦ rw is_not e
    ]

    by_token :
        (o : Option (Bytes × Bytes))
        → Token b';' s o
        → ((rest : Bytes)
            → length rest < length s
            → login_loop fuel rest user passwd permission
              ≡ some (first_listed user passwd permission (listed_users rest)))
        → on_token (λ rest. login_loop fuel rest user passwd permission) user passwd permission o
          ≡ some (first_listed user passwd permission (listed_users s))
    by_token none h next = rw h refl
    by_token (some (tp, rest)) h next = rw h.0 (
        by_entry (entry_user tp) (listed_users rest) _ (next rest h.1)
        ∙ ap (λ o. some (first_listed user passwd permission (o ∷ listed_users rest)))
            (entry_user-pieces tp))

-- The login always gives a result: that of the first of the entries between the semicolons of the
-- setting that has at least three fields between its colons, of which the first two are the name
-- and the password up to their first zero byte.
pub cos_handle_login-first :
    (login_users user passwd : Bytes) (permission : ℕ)
    → cos_handle_login (some login_users) user passwd permission
      ≡ some (first_listed user passwd permission (listed_users login_users))
unfolding cos_handle_login
cos_handle_login-first login_users user passwd permission =
    login_loop-first (length login_users + 1) login_users user passwd permission (omega arith)
