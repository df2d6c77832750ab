-- ===== src/Settings/Lenient.antt =====
-- A file of settings is loaded line by line, and with errors that are not fatal to its end.
use cos_ftp_v.Base.{
  ℕ, zero, suc, ◌+◌, ◌≤◌, ◌<◌, ◌≡◌, refl, sym, ◌∙◌, subst, ◌≢◌, ◌⊎◌, inl, inr, Bool, true, false,
  Option, none, some, List, [], ◌∷◌, arith, Bytes, if_elim, length, drop, All, Outcome, ok, bug,
  die, exit, fault, ◌>>=◌, Returns, Ends-bind, Ends-mono,
}
use cos_ftp_v.Settings.Tables.{parseconf_bool_array, parseconf_uint_array, parseconf_str_array}
use cos_ftp_v.Str.Compare.{str_equal}
use cos_ftp_v.Str.Edit.{is_empty, str_upper}
use cos_ftp_v.Str.Lines.Each.{lines, str_getline-lines}
use cos_ftp_v.Str.Locate.{c_str}
use cos_ftp_v.Str.Split.Parts.{before, after, str_split_char-before-after}
use cos_ftp_v.Settings.{
  Config, put, is_in, skip_space, bool_value, put_bool, is_comment, load_value,
  vsf_parseconf_load_setting, load_line, load_loop, load_content, vsf_parseconf_load_file,
}

-- The name that a line gives a value to.
abbrev pub setting_name : Bytes → Bytes
setting_name s = before b'=' (skip_space (c_str s))

-- The line is skipped, or names another setting.
abbrev pub Spares : Bytes → Bytes → Type 0
Spares n s = (is_comment s ≡ true) ⊎ (str_equal n (setting_name s) ≡ false)

-- The variables of the setting `n` have the same values.
abbrev pub Same : Bytes → Config → Config → Type 0
Same n c c1 = (c1.strs n ≡ c.strs n) × (c1.bools n ≡ c.bools n) × (c1.uints n ≡ c.uints n)

put_other :
    {A : Type 0} (n name : Bytes) (a : A) (vars : Bytes → A)
    → str_equal n name ≡ false
    → put name a vars n ≡ vars n
put_other n name a vars e = rw e refl

-- What loading leaves of a setting that is named by no line.
abbrev Leaves : Type 0 → Bytes → Config → Outcome Config → Type 0
Leaves Other n c o = Returns (λ c1. Other → Same n c c1) o

module _ (atoi : Bytes → ℕ) where
  put_bool-Leaves :
      (n name : Bytes) (b : Option Bool) (c : Config)
      → Leaves (str_equal n name ≡ false) n c (put_bool false name b c)
  put_bool-Leaves n name none c = λ other. (refl, refl, refl)
  put_bool-Leaves n name (some b) c = λ other. (refl, put_other n name b c.bools other, refl)

  load_value-Leaves :
      (n : Bytes) (c : Config) (name value : Bytes)
      → Leaves (str_equal n name ≡ false) n c (load_value atoi false c (name, value))
  unfolding load_value
  load_value-Leaves n c name value =
      if_elim (Leaves (str_equal n name ≡ false) n c) (is_in parseconf_str_array name) _ _
        (λ is_str. λ other. (put_other n name _ c.strs other, refl, refl))
        (λ not_str.
          if_elim (Leaves (str_equal n name ≡ false) n c) (is_empty value) _ _
            (λ missing. λ other. (refl, refl, refl))
            (λ present.
              if_elim (Leaves (str_equal n name ≡ false) n c) (is_in parseconf_bool_array name) _ _
                (λ is_bool. put_bool-Leaves n name (bool_value (str_upper value)) c)
                (λ not_bool.
                  if_elim (Leaves (str_equal n name ≡ false) n c) (is_in parseconf_uint_array name)
                    _ _ (λ is_uint. λ other. (refl, refl, put_other n name _ c.uints other))
                    (λ unknown. λ other. (refl, refl, refl)))))

  load_setting-Leaves :
      (n s : Bytes) (c : Config)
      → Leaves
          (str_equal n (setting_name s) ≡ false)
          n
          c
          (vsf_parseconf_load_setting atoi false s c)
  unfolding vsf_parseconf_load_setting
  load_setting-Leaves n s c =
      rw (str_split_char-before-after (skip_space (c_str s)) b'=' equals_nonzero) (
        load_value-Leaves n c (before b'=' (skip_space (c_str s)))
          (after b'=' (skip_space (c_str s))))
    where
      equals_nonzero : ◌≢◌ {A = ℕ} b'=' 0
      equals_nonzero e = absurd (omega (arith, e))

  load_line-Leaves : (n s : Bytes) (c : Config) → Leaves (Spares n s) n c (load_line atoi false s c)
  load_line-Leaves n s c =
      if_elim (Leaves (Spares n s) n c) (is_comment s) (ok c)
        (vsf_parseconf_load_setting atoi false s c) (λ skipped spares. (refl, refl, refl))
        (λ read.
          Ends-mono ⊥ ⊥ (λ c1. str_equal n (setting_name s) ≡ false → Same n c c1)
            (λ c1. Spares n s → Same n c c1) (vsf_parseconf_load_setting atoi false s c) (λ b. b)
            (λ c1 k spares. elim spares [ inl skipped ↦ absurd cc | inr other ↦ k other ])
            (load_setting-Leaves n s c))

  -- The lines one after the other.
  abbrev pub load_lines : Bool → List Bytes → Config → Outcome Config
  load_lines errs_fatal [] c = ok c
  load_lines errs_fatal (s ∷ ss) c = load_line atoi errs_fatal s c >>= load_lines errs_fatal ss

  load_lines-Leaves :
      (n : Bytes) (ss : List Bytes) (c : Config)
      → Leaves (All (Spares n) ss) n c (load_lines false ss c)
  load_lines-Leaves n [] c = λ spares. (refl, refl, refl)
  load_lines-Leaves n (s ∷ ss) c =
      Ends-bind ⊥ (λ c1. Spares n s → Same n c c1) (λ c2. All (Spares n) (s ∷ ss) → Same n c c2)
        (load_line atoi false s c) (load_lines false ss) (load_line-Leaves n s c)
        (λ c1 k.
          Ends-mono ⊥ ⊥ (λ c2. All (Spares n) ss → Same n c1 c2)
            (λ c2. All (Spares n) (s ∷ ss) → Same n c c2) (load_lines false ss c1) (λ b. b)
            (λ c2 l spares. both c1 c2 (k spares.0) (l spares.1)) (load_lines-Leaves n ss c1))
    where
      both : (c1 c2 : Config) → Same n c c1 → Same n c1 c2 → Same n c c2
      both c1 c2 h k = (k.0 ∙ h.0, k.1 ∙ h.1, k.2 ∙ h.2)

  bind_steps :
      {A B C : Type 0} (m : Outcome A) (f : A → Outcome C) (g : A → Outcome B) (h : B → Outcome C)
      → ((a : A) → f a ≡ (g a >>= h))
      → (m >>= f) ≡ (m >>= g >>= h)
  bind_steps (ok a) f g h k = k a
  bind_steps bug f g h k = refl
  bind_steps die f g h k = refl
  bind_steps (exit n) f g h k = refl
  bind_steps fault f g h k = refl

  -- The loop goes through the lines.
  pub load_loop-lines :
      (fuel : ℕ) (s : Bytes) (errs_fatal : Bool) (pos : ℕ) (c : Config)
      → pos ≤ length s
      → length s < pos + fuel
      → load_loop atoi fuel s errs_fatal pos c
        ≡ (load_lines errs_fatal (lines (drop pos s)) c >>= (λ c1. ok (some c1)))
  unfolding load_loop
  load_loop-lines zero s errs_fatal pos c h f = absurd (omega arith)
  load_loop-lines (suc fuel) s errs_fatal pos c h f = elim (str_getline-lines s pos h) [
    | inl (end, nil) ↦ rw (end, nil) refl
    | inr (line, next, got, first, later, within) ↦
        rw (got, first)
          (bind_steps (load_line atoi errs_fatal line c)
            (λ c1. load_loop atoi fuel s errs_fatal next c1)
            (load_lines errs_fatal (lines (drop next s))) (λ c1. ok (some c1))
            (λ c1. load_loop-lines fuel s errs_fatal next c1 within (omega arith)))
  ]

  -- A load has come to the end of these lines.
  abbrev pub Loaded : Bytes → Config → List Bytes → Option Bytes × Option Config → Type 0
  Loaded n c ss r = (c1 : Config) × (r.1 ≡ some c1) × (All (Spares n) ss → Same n c c1)

  all_lines :
      (filename content n : Bytes) (c : Config)
      → Returns
          (Loaded n c (lines content))
          (load_loop atoi (length content + 1) content false 0 c >>= (λ o. ok (some filename, o)))
  all_lines filename content n c =
      rw (load_loop-lines (length content + 1) content false 0 c (omega arith) (omega arith)) (
        Ends-bind ⊥
          (λ o. (c1 : Config) × (o ≡ some c1) × (All (Spares n) (lines content) → Same n c c1))
          (Loaded n c (lines content)) (load_lines false (lines content) c >>= (λ c1. ok (some c1)))
          (λ o. ok (some filename, o))
          (Ends-bind ⊥ (λ c1. All (Spares n) (lines content) → Same n c c1) _
            (load_lines false (lines content) c) (λ c1. ok (some c1))
            (load_lines-Leaves n (lines content) c) (λ c1 k. (c1, refl, k)))
          (λ o l. l))

  -- With errors that are not fatal, a load of a file that can be read and is owned by the user comes
  -- to its end, whatever its lines are; and where each line is skipped or names another setting, a
  -- setting keeps its value.
  pub load_file-Loaded :
      (fileread : Bytes → Option Bytes) (owned : Bytes → Bool) (filename content n : Bytes)
      (saved : Option Bytes) (c : Config)
      → fileread filename ≡ some content
      → owned filename ≡ true
      → Returns
          (Loaded n c (lines content))
          (vsf_parseconf_load_file atoi fileread owned (some filename) false (saved, c))
  unfolding vsf_parseconf_load_file load_content
  load_file-Loaded fileread owned filename content n saved c readable mine =
      subst
        (λ o.
          Returns (Loaded n c (lines content))
            (load_content atoi false (owned filename) filename c o))
        (sym readable)
        (if_elim (Returns (Loaded n c (lines content))) (owned filename) _ die
          (λ yes. all_lines filename content n c) (λ no. absurd cc))
