-- ===== src/Settings/Strict.antt =====
-- Which files of settings are accepted where errors are fatal.
use cos_ftp_v.Base.{
  ℕ, ◌+◌, ◌≡◌, refl, sym, subst, ◌≢◌, ◌⊎◌, inl, inr, Bool, true, false, Option, none, some, List,
  [], ◌∷◌, arith, Bytes, if_elim, length, All, Outcome, ok, bug, die, exit, fault, ◌>>=◌, Ends,
  Ends-bind, Ends-mono,
}
use cos_ftp_v.Settings.Tables.{parseconf_bool_array, parseconf_uint_array, parseconf_str_array}
use cos_ftp_v.Str.Edit.{is_empty, str_upper}
use cos_ftp_v.Str.Lines.Each.{lines}
use cos_ftp_v.Str.Locate.{c_str}
use cos_ftp_v.Str.Split.Parts.{after, str_split_char-before-after}
use cos_ftp_v.Settings.{
  Config, is_in, skip_space, bool_value, put_bool, is_comment, load_value,
  vsf_parseconf_load_setting, load_line, load_loop, load_content, vsf_parseconf_load_file,
}
use cos_ftp_v.Settings.Lenient.{setting_name, load_lines, load_loop-lines}

-- What the line gives to its setting.
abbrev pub setting_value : Bytes → Bytes
setting_value s = after b'=' (skip_space (c_str s))

-- A text, with any value, or with a value that is not empty a setting that is on or off with one of
-- the words for that, or a number.
abbrev pub Fits : Bytes → Bytes → Type 0
Fits name value =
    (is_in parseconf_str_array name ≡ true)
    ⊎ ((is_empty value ≡ false)
        × (((is_in parseconf_bool_array name ≡ true)
              × ((b : Bool) × (bool_value (str_upper value) ≡ some b)))
            ⊎ ((is_in parseconf_bool_array name ≡ false)
                × (is_in parseconf_uint_array name ≡ true))))

-- The line is skipped or sets a setting that there is.
abbrev pub IsGood : Bytes → Type 0
IsGood s = (is_comment s ≡ true) ⊎ Fits (setting_name s) (setting_value s)

-- The call gives a value if `P`, and stops if not.
abbrev pub Decides {ℓ} : {A : Type ℓ} → Type 0 → Outcome A → Type 0
Decides P o = Ends (¬ P) (λ a. P) o

module _ (atoi : Bytes → ℕ) where
  put_bool-Decides :
      (name : Bytes) (b : Option Bool) (c : Config)
      → Decides ((v : Bool) × (b ≡ some v)) (put_bool true name b c)
  put_bool-Decides name none c = λ p. absurd cc
  put_bool-Decides name (some b) c = (b, refl)

  Decides-iff {ℓ} :
      {A : Type ℓ} (P Q : Type 0) (o : Outcome A) → (P → Q) → (Q → P) → Decides P o → Decides Q o
  Decides-iff P Q o f g h =
      Ends-mono (¬ P) (¬ Q) (λ a. P) (λ a. Q) o (λ no q. no (g q)) (λ a p. f p) h

  load_value-Decides :
      (c : Config) (name value : Bytes)
      → Decides (Fits name value) (load_value atoi true c (name, value))
  unfolding load_value
  load_value-Decides c name value =
      if_elim (Decides (Fits name value)) (is_in parseconf_str_array name) _ _
        (λ is_str. inl is_str)
        (λ not_str.
          if_elim (Decides (Fits name value)) (is_empty value) _ _
            (λ missing p. elim p [ inl is_str ↦ absurd cc | inr q ↦ absurd (cc) ])
            (λ present.
              if_elim (Decides (Fits name value)) (is_in parseconf_bool_array name) _ _
                (λ is_bool.
                  Decides-iff ((v : Bool) × (bool_value (str_upper value) ≡ some v))
                    (Fits name value) _ (λ v. inr (present, inl (is_bool, v)))
                    (λ p. elim p [
                      | inl is_str ↦ absurd cc
                      | inr (still, inl (on, v)) ↦ v
                      | inr (still, inr (off, on)) ↦ absurd cc
                    ])
                    (put_bool-Decides name (bool_value (str_upper value)) c))
                (λ not_bool.
                  if_elim (Decides (Fits name value)) (is_in parseconf_uint_array name) _ _
                    (λ is_uint. inr (present, inr (not_bool, is_uint)))
                    (λ unknown p. elim p [
                      | inl is_str ↦ absurd cc
                      | inr (still, inl (on, v)) ↦ absurd cc
                      | inr (still, inr (off, on)) ↦ absurd cc
                    ]))))

  load_setting-Decides :
      (s : Bytes) (c : Config)
      → Decides (Fits (setting_name s) (setting_value s)) (vsf_parseconf_load_setting atoi true s c)
  unfolding vsf_parseconf_load_setting
  load_setting-Decides s c =
      rw (str_split_char-before-after (skip_space (c_str s)) b'=' equals_nonzero)
        (load_value-Decides c (setting_name s) (setting_value s))
    where
      equals_nonzero : ◌≢◌ {A = ℕ} b'=' 0
      equals_nonzero e = absurd (omega (arith, e))

  load_line-Decides : (s : Bytes) (c : Config) → Decides (IsGood s) (load_line atoi true s c)
  load_line-Decides s c =
      if_elim (Decides (IsGood s)) (is_comment s) (ok c) (vsf_parseconf_load_setting atoi true s c)
        (λ skipped. inl skipped)
        (λ read.
          Decides-iff (Fits (setting_name s) (setting_value s)) (IsGood s) _ (λ fits. inr fits)
            (λ good. elim good [ inl skipped ↦ absurd cc | inr fits ↦ fits ])
            (load_setting-Decides s c))

  after_first :
      (P Q : Type 0) {B : Type 0} (m : Outcome Config) (next : Config → Outcome B)
      → Decides P m
      → ((c : Config) → Decides Q (next c))
      → Decides (P × Q) (m >>= next)
  after_first P Q (ok c) next h k =
      Ends-mono (¬ Q) (¬ (P × Q)) (λ a. Q) (λ a. P × Q) (next c) (λ no pq. no pq.1) (λ a q. (h, q))
        (k c)
  after_first P Q bug next h k = λ pq. h pq.0
  after_first P Q die next h k = λ pq. h pq.0
  after_first P Q (exit n) next h k = h
  after_first P Q fault next h k = h

  load_lines-Decides :
      (ss : List Bytes) (c : Config) → Decides (All IsGood ss) (load_lines atoi true ss c)
  load_lines-Decides [] c = tt
  load_lines-Decides (s ∷ ss) c =
      after_first (IsGood s) (All IsGood ss) (load_line atoi true s c) (load_lines atoi true ss)
        (load_line-Decides s c) (λ c1. load_lines-Decides ss c1)

  then_ok :
      (P : Type 0) {A B : Type 0} (m : Outcome A) (f : A → B)
      → Decides P m
      → Decides P (m >>= (λ a. ok (f a)))
  then_ok P m f h = Ends-bind (¬ P) (λ a. P) (λ b. P) m (λ a. ok (f a)) h (λ a p. p)

  -- With errors that are fatal, a load of a file that can be read and is owned by the user comes to
  -- its end where each line is skipped or sets a setting that there is to a value that fits it, and
  -- where that is not so the process stops.
  pub load_file-Decides :
      (fileread : Bytes → Option Bytes) (owned : Bytes → Bool) (filename content : Bytes)
      (saved : Option Bytes) (c : Config)
      → fileread filename ≡ some content
      → owned filename ≡ true
      → Decides
          (All IsGood (lines content))
          (vsf_parseconf_load_file atoi fileread owned (some filename) true (saved, c))
  unfolding vsf_parseconf_load_file load_content
  load_file-Decides fileread owned filename content saved c readable mine =
      subst
        (λ o.
          Decides (All IsGood (lines content))
            (load_content atoi true (owned filename) filename c o))
        (sym readable)
        (if_elim (Decides (All IsGood (lines content))) (owned filename) _ die
          (λ is_owned. all_lines) (λ other. absurd cc))
    where
      named : Option Config → Option Bytes × Option Config
      named o = (some filename, o)

      all_lines :
          Decides {A = Option Bytes × Option Config}
            (All IsGood (lines content))
            (load_loop atoi (length content + 1) content true 0 c >>= (λ o. ok (some filename, o)))
      all_lines =
          rw
            (load_loop-lines atoi (length content + 1) content true 0 c (omega arith) (omega arith))
            (then_ok (All IsGood (lines content))
              (load_lines atoi true (lines content) c >>= (λ c1. ok (some c1))) named
              (then_ok (All IsGood (lines content)) (load_lines atoi true (lines content) c)
                (λ c1. some c1) (load_lines-Decides (lines content) c)))
