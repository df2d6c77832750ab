-- ===== src/Listing/Pieces.antt =====
-- The calls that a round of `vsf_filename_passes_filter` makes on the name and the filter.
use cos_ftp_v.Base.{
  ℕ, zero, suc, ◌+◌, ◌≤◌, ◌<◌, ◌≡◌, refl, ap, subst, ◌≢◌, inl, inr, Bool, ◌&&◌, Option, none, some,
  [], ◌∷◌, arith, Bytes, ltb, ◌==◌, Bool-cases, if_elim, length, take, drop, All, ok, Returns,
}
use cos_ftp_v.Str.Edit.{is_empty}
use cos_ftp_v.Str.Locate.{c_str, str_locate_str, locate_chars_from, contains_byte}
use cos_ftp_v.Str.Locate.First.{IsFirst, Occurs-length, str_locate_text-IsFirst}
use cos_ftp_v.Str.Split.{str_left, str_mid_to_end, str_split_char}
use cos_ftp_v.Str.Split.Parts.{before, after, str_split_char-before-after}
use cos_ftp_v.Listing.{Piece, piece_at, chop, need}

-- A text that is a C string.
abbrev pub HasNoZero : Bytes → Type 0
HasNoZero s = All (λ c. c ≢ 0) s

c_str-HasNoZero : (s : Bytes) → HasNoZero s → c_str s ≡ s
unfolding c_str
c_str-HasNoZero [] h = refl
c_str-HasNoZero (c ∷ s) h = elim (Bool-cases (c == 0)) [
  | inl e ↦ absurd (h.0 (ground (arith, e)))
  | inr e ↦ rw e (ap (◌∷◌ c) (c_str-HasNoZero s h.1))
]

take-HasNoZero : (n : ℕ) (s : Bytes) → HasNoZero s → HasNoZero (take n s)
take-HasNoZero zero s h = tt
take-HasNoZero (suc n) [] h = tt
take-HasNoZero (suc n) (c ∷ s) h = (h.0, take-HasNoZero n s h.1)

drop-HasNoZero : (n : ℕ) (s : Bytes) → HasNoZero s → HasNoZero (drop n s)
drop-HasNoZero zero s h = h
drop-HasNoZero (suc n) [] h = tt
drop-HasNoZero (suc n) (c ∷ s) h = drop-HasNoZero n s h.1

-- The two parts of a text around a byte.
abbrev pub IsCut : Bytes → Bytes → Bytes → Type 0
IsCut s lhs rhs = (length lhs + length rhs ≤ length s) × HasNoZero lhs × HasNoZero rhs

cut : (c : ℕ) (s : Bytes) → HasNoZero s → IsCut s (before c s) (after c s)
cut c [] h = (omega arith, tt, tt)
cut c (x ∷ s) h = elim (Bool-cases (x == c)) [
  | inl e ↦ rw e (omega arith, tt, h.1)
  | inr e ↦ let (l, a, b) = cut c s h.1 in rw e (omega (arith, l), (h.0, a), b)
]

pub split-IsCut :
    (s : Bytes) (c : ℕ) → c ≢ 0 → HasNoZero s → Returns (λ p. IsCut s p.0 p.1) (str_split_char s c)
split-IsCut s c ne h = rw (str_split_char-before-after s c ne) (cut c s h)

pub chars_within :
    (i : ℕ) (s chars : Bytes) (r : ℕ × ℕ)
    → locate_chars_from i s chars ≡ some r
    → r.0 < i + length s
unfolding locate_chars_from
chars_within i [] chars r h = absurd cc
chars_within i (c ∷ s) chars r h = elim (Bool-cases (contains_byte chars c)) [
  | inl e ↦ at_first (rw e at h)
  | inr e ↦ let later = chars_within (i + 1) s chars r (rw e at h) in omega (arith, later)
]
  where
    some_same : {p q : ℕ × ℕ} → some p ≡ some q → p ≡ q
    some_same k = cc

    at_first : some (i, c) ≡ some r → r.0 < i + length (c ∷ s)
    at_first k = subst (λ q. q.0 < i + length (c ∷ s)) (some_same k) (omega arith)

str_left-take : (s : Bytes) (i : ℕ) → i ≤ length s → str_left s i ≡ ok (take i s)
unfolding str_left
str_left-take s i h = ground (arith, h)

str_mid_to_end-drop : (s : Bytes) (i : ℕ) → i ≤ length s → str_mid_to_end s i ≡ ok (drop i s)
unfolding str_mid_to_end
str_mid_to_end-drop s i h = ground (arith, h)

abbrev pub IsPiece : Piece → Type 0
IsPiece piece = HasNoZero piece.match_needed × HasNoZero piece.filter_remain

pub piece_at-IsPiece :
    (filter : Bytes) (o : Option (ℕ × ℕ))
    → HasNoZero filter
    → ((r : ℕ × ℕ) → o ≡ some r → r.0 < length filter)
    → Returns IsPiece (piece_at filter o)
unfolding piece_at
piece_at-IsPiece filter none h k = (h, tt)
piece_at-IsPiece filter (some (i, token)) h k =
    let inside = k (i, token) refl in
    let left = str_left-take filter i (omega (arith, inside)) in
    let behind = str_mid_to_end-drop filter (i + 1) (omega (arith, inside)) in
    rw (left, behind) (take-HasNoZero i filter h, drop-HasNoZero (i + 1) filter h)

chop-Returns :
    (name needed : Bytes) (must : Bool) (o : Option ℕ)
    → IsFirst needed name o
    → Returns (λ r. Unit) (chop name needed must o)
unfolding chop
chop-Returns name needed must none h = tt
chop-Returns name needed must (some i) h =
    if_elim (Returns (λ r. Unit)) (must && ltb 0 i) _ _ (λ e. tt)
      (λ e. rw (str_mid_to_end-drop name (i + length needed) (Occurs-length needed name i h.0)) tt)

pub need-Returns :
    (name needed : Bytes) (must : Bool)
    → HasNoZero needed
    → Returns (λ r. Unit) (need name needed must)
unfolding need str_locate_str is_empty
need-Returns name [] must h = tt
need-Returns name (c ∷ needed) must h = rw (c_str-HasNoZero (c ∷ needed) h) (
    chop-Returns name (c ∷ needed) must _
      (str_locate_text-IsFirst name (c ∷ needed) (λ e. absurd cc)))
