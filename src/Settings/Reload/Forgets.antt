-- ===== src/Settings/Reload/Forgets.antt =====
-- A reload forgets what the settings were before.
use cos_ftp_v.Base.{
  ℕ, ◌+◌, ◌≡◌, refl, ◌≢◌, ◌⊎◌, inl, inr, Bool, true, false, Option, none, some, List, [], ◌∷◌,
  arith, Bytes, if◌then◌else◌, Bool-cases, length, All, all_of, Outcome, ok, bug, die, exit, fault,
  ◌>>=◌, Returns,
}
use cos_ftp_v.Str.Compare.{str_equal}
use cos_ftp_v.Str.Edit.{is_empty, str_upper}
use cos_ftp_v.Str.Lines.Each.{lines}
use cos_ftp_v.Str.Locate.{c_str}
use cos_ftp_v.Str.Split.Parts.{before, after, str_split_char-before-after}
use cos_ftp_v.Settings.Tables.{parseconf_bool_array, parseconf_uint_array, parseconf_str_array}
use cos_ftp_v.Settings.Defaults.{bool_defaults, uint_defaults, str_defaults}
use cos_ftp_v.Settings.{
  Config, put, is_in, skip_space, bool_value, put_bool, is_comment, uint_value, load_value,
  vsf_parseconf_load_setting, load_line, load_content, vsf_parseconf_load_file,
}
use cos_ftp_v.Settings.Lenient.{load_lines, load_loop-lines}
use cos_ftp_v.Settings.Reload.{set_all, tunables_load_defaults, handle_sighup}

-- The two agree on the settings of the table.
abbrev pub Agree : {A : Type 0} → List Bytes → (Bytes → A) → (Bytes → A) → Type 0
Agree table f g = All (λ n. f n ≡ g n) table

abbrev pub Alike : Config → Config → Type 0
Alike c d =
    Agree parseconf_str_array c.strs d.strs
    × Agree parseconf_bool_array c.bools d.bools
    × Agree parseconf_uint_array c.uints d.uints

put-Agree :
    {A : Type 0} (table : List Bytes) (f g : Bytes → A) (name : Bytes) (a : A)
    → Agree table f g
    → Agree table (put name a f) (put name a g)
put-Agree [] f g name a h = tt
put-Agree (n ∷ table) f g name a h = (
  elim (Bool-cases (str_equal n name)) [ inl same ↦ rw same refl | inr other ↦ rw other h.0 ],
  put-Agree table f g name a h.1,
)

keys : {A : Type 0} → List (Bytes × A) → List Bytes
keys [] = []
keys ((name, a) ∷ l) = name ∷ keys l

is_set :
    {A : Type 0} (l : List (Bytes × A)) (f g : Bytes → A) (n : Bytes)
    → (f n ≡ g n) ⊎ (is_in (keys l) n ≡ true)
    → set_all l f n ≡ set_all l g n
unfolding keys is_in
is_set [] f g n (inl e) = e
is_set [] f g n (inr h) = absurd cc
is_set ((name, a) ∷ l) f g n h =
    is_set l (put name a f) (put name a g) n (elim (Bool-cases (str_equal n name)) [
      | inl same ↦ inl (rw same refl)
      | inr other ↦ elim h [ inl e ↦ inl (rw other e) | inr k ↦ inr (rw other at k) ]
    ])

set_all-Agree :
    {A : Type 0} (table : List Bytes) (l : List (Bytes × A)) (f g : Bytes → A)
    → all_of (is_in (keys l)) table ≡ true
    → Agree table (set_all l f) (set_all l g)
set_all-Agree [] l f g all = tt
set_all-Agree (n ∷ table) l f g all =
    (is_set l f g n (inr (ground (arith, all))), set_all-Agree table l f g (ground (arith, all)))

strs_covered : all_of (is_in (keys str_defaults)) parseconf_str_array ≡ true
unfolding is_in keys str_defaults parseconf_str_array str_equal
strs_covered = refl

bools_covered : all_of (is_in (keys bool_defaults)) parseconf_bool_array ≡ true
unfolding is_in keys bool_defaults parseconf_bool_array str_equal
bools_covered = refl

uints_covered : all_of (is_in (keys uint_defaults)) parseconf_uint_array ≡ true
unfolding is_in keys uint_defaults parseconf_uint_array str_equal
uints_covered = refl

load_defaults-Alike : (c d : Config) → Alike (tunables_load_defaults c) (tunables_load_defaults d)
unfolding tunables_load_defaults
load_defaults-Alike c d = (
  set_all-Agree parseconf_str_array str_defaults c.strs d.strs strs_covered,
  set_all-Agree parseconf_bool_array bool_defaults c.bools d.bools bools_covered,
  set_all-Agree parseconf_uint_array uint_defaults c.uints d.uints uints_covered,
)

-- Both give a value, and these are related.
abbrev pub Both : {A : Type 0} → (A → A → Type 0) → Outcome A → Outcome A → Type 0
Both R (ok a) o = Returns (λ b. R a b) o
Both R bug o = ⊥
Both R die o = ⊥
Both R (exit n) o = ⊥
Both R fault o = ⊥

if_Both :
    {A : Type 0} (R : A → A → Type 0) (b : Bool) (x y x2 y2 : Outcome A)
    → Both R x x2
    → Both R y y2
    → Both R (if b then x else y) (if b then x2 else y2)
if_Both R true x y x2 y2 h k = h
if_Both R false x y x2 y2 h k = k

bind_Both :
    {A B : Type 0} (R : A → A → Type 0) (Q : B → B → Type 0) (m m2 : Outcome A)
    (f f2 : A → Outcome B)
    → Both R m m2
    → ((a b : A) → R a b → Both Q (f a) (f2 b))
    → Both Q (m >>= f) (m2 >>= f2)
bind_Both R Q (ok a) (ok b) f f2 h k = k a b h
bind_Both R Q (ok a) bug f f2 h k = absurd h
bind_Both R Q (ok a) die f f2 h k = absurd h
bind_Both R Q (ok a) (exit n) f f2 h k = absurd h
bind_Both R Q (ok a) fault f f2 h k = absurd h
bind_Both R Q bug m2 f f2 h k = absurd h
bind_Both R Q die m2 f f2 h k = absurd h
bind_Both R Q (exit n) m2 f f2 h k = absurd h
bind_Both R Q fault m2 f f2 h k = absurd h

-- Two loads have come to their end, with the same values of all settings.
abbrev pub Reloaded : Option Bytes × Option Config → Option Bytes × Option Config → Type 0
Reloaded r q = (c : Config) × (d : Config) × (r.1 ≡ some c) × (q.1 ≡ some d) × Alike c d

module _ (atoi : Bytes → ℕ) where
  put_bool-Both :
      (name : Bytes) (b : Option Bool) (c d : Config)
      → Alike c d
      → Both Alike (put_bool false name b c) (put_bool false name b d)
  put_bool-Both name none c d h = h
  put_bool-Both name (some b) c d h =
      (h.0, put-Agree parseconf_bool_array c.bools d.bools name b h.1, h.2)

  load_value-Both :
      (c d : Config) (name value : Bytes)
      → Alike c d
      → Both Alike (load_value atoi false c (name, value)) (load_value atoi false d (name, value))
  unfolding load_value
  load_value-Both c d name value h =
      if_Both Alike (is_in parseconf_str_array name) _ _ _ _
        (
          put-Agree parseconf_str_array c.strs d.strs name
              (if is_empty value then none else some (c_str value)) h.0,
          h.1,
          h.2,
        )
        (if_Both Alike (is_empty value) _ _ _ _ h (
          if_Both Alike (is_in parseconf_bool_array name) _ _ _ _
            (put_bool-Both name (bool_value (str_upper value)) c d h)
            (if_Both Alike (is_in parseconf_uint_array name) _ _ _ _
              (
                h.0,
                h.1,
                put-Agree parseconf_uint_array c.uints d.uints name (uint_value atoi value) h.2,
              )
              h)))

  load_line-Both :
      (s : Bytes) (c d : Config)
      → Alike c d
      → Both Alike (load_line atoi false s c) (load_line atoi false s d)
  unfolding vsf_parseconf_load_setting
  load_line-Both s c d h = if_Both Alike (is_comment s) _ _ _ _ h (
      rw (str_split_char-before-after (skip_space (c_str s)) b'=' equals_nonzero) (
        load_value-Both c d (before b'=' (skip_space (c_str s))) (after b'=' (skip_space (c_str s)))
          h))
    where
      equals_nonzero : ◌≢◌ {A = ℕ} b'=' 0
      equals_nonzero e = absurd (omega (arith, e))

  load_lines-Both :
      (ss : List Bytes) (c d : Config)
      → Alike c d
      → Both Alike (load_lines atoi false ss c) (load_lines atoi false ss d)
  load_lines-Both [] c d h = h
  load_lines-Both (s ∷ ss) c d h =
      bind_Both Alike Alike (load_line atoi false s c) (load_line atoi false s d)
        (load_lines atoi false ss) (load_lines atoi false ss) (load_line-Both s c d h)
        (load_lines-Both ss)

  load_content-Reloaded :
      (mine : Bool) (filename : Bytes) (c d : Config) (o : Option Bytes)
      → (o ≡ none) ⊎ (mine ≡ true)
      → Alike c d
      → Both Reloaded
          (load_content atoi false mine filename c o)
          (load_content atoi false mine filename d o)
  unfolding load_content
  load_content-Reloaded mine filename c d none h alike = (c, d, refl, refl, alike)
  load_content-Reloaded mine filename c d (some content) (inl e) alike = absurd cc
  load_content-Reloaded mine filename c d (some content) (inr e) alike =
      rw
        (
          e,
          load_loop-lines atoi (length content + 1) content false 0 c (omega arith) (omega arith),
          load_loop-lines atoi (length content + 1) content false 0 d (omega arith) (omega arith),
        )
        (bind_Both (λ o p. (a : Config) × (b : Config) × (o ≡ some a) × (p ≡ some b) × Alike a b)
          Reloaded (load_lines atoi false (lines content) c >>= (λ a. ok (some a)))
          (load_lines atoi false (lines content) d >>= (λ a. ok (some a)))
          (λ o. ok (some filename, o)) (λ o. ok (some filename, o))
          (bind_Both Alike _ (load_lines atoi false (lines content) c)
            (load_lines atoi false (lines content) d) (λ a. ok (some a)) (λ a. ok (some a))
            (load_lines-Both (lines content) c d alike) (λ a b h. (a, b, refl, refl, h)))
          (λ o p h. h))

  -- Where the file whose name is kept cannot be read or is owned by the user, a reload comes to its
  -- end, and gives every setting the same value whatever the values were before.
  pub handle_sighup-Reloaded :
      (fileread : Bytes → Option Bytes) (owned : Bytes → Bool) (filename : Bytes) (c d : Config)
      → (fileread filename ≡ none) ⊎ (owned filename ≡ true)
      → Both Reloaded
          (handle_sighup atoi fileread owned (some filename, c))
          (handle_sighup atoi fileread owned (some filename, d))
  unfolding handle_sighup vsf_parseconf_load_file
  handle_sighup-Reloaded fileread owned filename c d h =
      load_content-Reloaded (owned filename) filename (tunables_load_defaults c)
        (tunables_load_defaults d) (fileread filename) h (load_defaults-Alike c d)
