-- ===== src/Control/Command/Clean.antt =====
-- The bytes of the command and the argument that `vsf_cmdio_get_cmd_and_arg` gives.
use cos_ftp_v.Base.{
  ℕ, zero, suc, ◌≡◌, refl, sym, ap, ◌∙◌, subst, ◌≢◌, inl, inr, Bool, true, false, some, [], ◌∷◌,
  ◌++◌, append-nil, append_assoc, arith, Bytes, ◌==◌, Bool-cases, length, get_elem?, take,
  length-append, length-take, All, All-append, All-left, Returns, Ends-bind,
}
use cos_ftp_v.Str.Chars.{vsf_sysutil_toupper, toupper_idem}
use cos_ftp_v.Str.Edit.{str_upper, str_replace_char}
use cos_ftp_v.Str.Split.Parts.{before, after, str_split_char-before-after}
use cos_ftp_v.Control.Netstr.{line}
use cos_ftp_v.Control.Command.{
  control_getline, vsf_cmdio_get_cmd_and_arg, is_cr_at, strip_cr, clean_line, is_space,
  split_command, Command,
}

abbrev pub NotZero : ℕ → Type 0
NotZero c = c ≢ 0

abbrev NoCrEnd : Bytes → Type 0
NoCrEnd s = (front : Bytes) → s ≢ front ++ 13 ∷ []

replace_zero : (s : Bytes) → All NotZero (str_replace_char s 0 b'\n')
unfolding str_replace_char
replace_zero [] = tt
replace_zero (c ∷ s) = (ground arith, replace_zero s)

get_elem?-last : (front : Bytes) (c : ℕ) → get_elem? (front ++ c ∷ []) (length front) ≡ some c
get_elem?-last [] c = refl
get_elem?-last (x ∷ front) c = get_elem?-last front c

two_answers : {b : Bool} → b ≡ false → b ≡ true → ⊥
two_answers h k = cc

ends_in_cr :
    (s front : Bytes) (n : ℕ)
    → suc n ≡ length s
    → s ≡ front ++ 13 ∷ []
    → is_cr_at (get_elem? s n) ≡ true
unfolding is_cr_at
ends_in_cr s front n e h = rw (h, len) (rw (get_elem?-last front 13) refl)
  where
    len : n ≡ length front
    len = omega (arith, ap length h, length-append front (13 ∷ []))

last_is_cr :
    (n : ℕ) (s : Bytes)
    → suc n ≡ length s
    → is_cr_at (get_elem? s n) ≡ true
    → s ≡ take n s ++ 13 ∷ []
unfolding is_cr_at
last_is_cr n [] e h = absurd (omega arith)
last_is_cr zero (c ∷ []) e h = ap (λ k. k ∷ []) (ground arith)
last_is_cr zero (c ∷ d ∷ s) e h = absurd (omega arith)
last_is_cr (suc n) (c ∷ s) e h = ap (◌∷◌ c) (last_is_cr n s (omega arith) h)

strip_cr-NoCrEnd : (n : ℕ) (s : Bytes) → n ≡ length s → NoCrEnd (strip_cr n s)
unfolding strip_cr is_cr_at
strip_cr-NoCrEnd zero [] e = λ front h. nothing front h
  where
    nothing : (front : Bytes) → [] ≢ front ++ 13 ∷ []
    nothing [] h = cc
    nothing (x ∷ front) h = cc
strip_cr-NoCrEnd zero (c ∷ s) e = absurd (omega arith)
strip_cr-NoCrEnd (suc n) s e = elim (Bool-cases (is_cr_at (get_elem? s n))) [
  | inl cr_end ↦ rw cr_end (strip_cr-NoCrEnd n (take n s) (omega (arith, length-take n s)))
  | inr fine ↦ rw fine (λ front h. two_answers fine (ends_in_cr s front n e h))
]

-- What is left is the line without the carriage returns at its end.
strip_cr_prefix :
    (n : ℕ) (s : Bytes)
    → n ≡ length s
    → (cut : Bytes) × (s ≡ strip_cr n s ++ cut) × All (λ c. c ≡ 13) cut
unfolding strip_cr
strip_cr_prefix zero s e = ([], sym (append-nil s), tt)
strip_cr_prefix (suc n) s e = elim (Bool-cases (is_cr_at (get_elem? s n))) [
  | inl cr_end ↦
      let (cut, parts, crs) = strip_cr_prefix n (take n s) (omega (arith, length-take n s)) in
      rw cr_end (
        cut ++ 13 ∷ [],
        last_is_cr n s e cr_end ∙ ap (λ k. k ++ 13 ∷ []) parts ∙ append_assoc _ cut (13 ∷ []),
        All-append (λ c. c ≡ 13) cut (13 ∷ []) crs (refl, tt),
      )
  | inr fine ↦ rw fine ([], sym (append-nil s), tt)
]

-- The line with its zero bytes made line feeds, and without the carriage returns at its end.
abbrev pub IsCleaned : Bytes → Bytes → Type 0
IsCleaned s t =
    ((cut : Bytes) × (str_replace_char s 0 b'\n' ≡ t ++ cut) × All (λ c. c ≡ 13) cut) × NoCrEnd t

-- The line kept is the line read with its zero bytes made line feeds and all the carriage returns at
-- its end cut off, nothing else, and no carriage return is left at its end.
pub clean_line-IsCleaned : (s : Bytes) → IsCleaned s (clean_line s)
unfolding clean_line
clean_line-IsCleaned s =
    let s' = str_replace_char s 0 b'\n' in
    (strip_cr_prefix (length s') s' refl, strip_cr-NoCrEnd (length s') s' refl)

clean_line-NotZero : (s : Bytes) → All NotZero (clean_line s)
clean_line-NotZero s =
    let ((cut, e, _), _) = clean_line-IsCleaned s in
    All-left NotZero (clean_line s) cut (subst (All NotZero) e (replace_zero s))

module _ (P : ℕ → Type 0) (c : ℕ) where
  before-after-All : (s : Bytes) → All P s → All P (before c s) × All P (after c s)
  before-after-All [] h = (tt, tt)
  before-after-All (x ∷ s) h = elim (Bool-cases (x == c)) [
    | inl same ↦ rw same (tt, h.1)
    | inr other ↦ rw other ((h.0, (before-after-All s h.1).0), (before-after-All s h.1).1)
  ]

NotZero-upper : (s : Bytes) → All NotZero s → All NotZero (str_upper s)
unfolding str_upper vsf_sysutil_toupper
NotZero-upper [] h = tt
NotZero-upper (c ∷ s) h = (ground (arith, h.0), NotZero-upper s h.1)

upper_idem : (s : Bytes) → str_upper (str_upper s) ≡ str_upper s
unfolding str_upper
upper_idem [] = refl
upper_idem (c ∷ s) = rw (toupper_idem c) (ap (◌∷◌ (vsf_sysutil_toupper c)) (upper_idem s))

-- A command as the handlers may rely on it.
pub record IsWellFormed (c : Command) : Type 0 where
  pub cmd_nonzero : All NotZero c.cmd
  pub arg_nonzero : All NotZero c.arg
  pub is_upper : str_upper c.cmd ≡ c.cmd

split_command-Parts :
    (s : Bytes)
    → All NotZero s
    → Returns (λ p. All NotZero p.0 × All NotZero p.1 × (str_upper p.0 ≡ p.0)) (split_command s)
unfolding split_command
split_command-Parts s h = elim (Bool-cases (is_space s)) [
  | inl space ↦ rw space (NotZero-upper s h, tt, upper_idem s)
  | inr other ↦
      let (b, a) = before-after-All NotZero b' ' s h in
      rw other (
        rw (str_split_char-before-after s b' ' (omega arith))
          (NotZero-upper (before b' ' s) b, a, upper_idem (before b' ' s)))
]

-- For a line that was read before the idle timeout, the call returns a command that is in upper case,
-- and neither it nor its argument holds a zero byte.
pub get_cmd_and_arg-IsWellFormed :
    (log_protocol : Bool) (s : Bytes)
    → Returns IsWellFormed (vsf_cmdio_get_cmd_and_arg log_protocol false (line s))
unfolding vsf_cmdio_get_cmd_and_arg control_getline
get_cmd_and_arg-IsWellFormed log_protocol s =
    Ends-bind ⊥ (λ p. All NotZero p.0 × All NotZero p.1 × (str_upper p.0 ≡ p.0)) IsWellFormed
      (split_command (clean_line s)) _ (split_command-Parts (clean_line s) (clean_line-NotZero s))
      (λ p k. record { cmd_nonzero = k.0; arg_nonzero = k.1; is_upper = k.2 })
