-- ===== src/Str/Split/Parts.antt =====
-- What a split leaves: the parts are around the first, or the last, place of the text.
use cos_ftp_v.Base.{
  ℕ, suc, ◌+◌, ◌<◌, ◌≡◌, refl, ap, ◌∙◌, ◌≢◌, ◌⊎◌, inl, inr, false, Option, none, some, [], ◌∷◌,
  ◌++◌, arith, Bytes, ltb, ◌==◌, if◌then◌else◌, ==_iff, ==_refl, Bool-cases, length, length-append,
  take-length_append, drop-length_append, drop_split, ok, Returns, Ends-mono, Returns-ok,
}
use cos_ftp_v.Str.Locate.{c_str, str_locate_text, str_locate_text_reverse}
use cos_ftp_v.Str.Locate.First.{Occurs, IsFirst, str_locate_text-IsFirst}
use cos_ftp_v.Str.Locate.Last.{IsLast, str_locate_text_reverse-IsLast}
use cos_ftp_v.Str.Split.{
  Split, split_found, str_split_text_common, str_split_text, str_split_text_reverse, str_split_char,
}

-- The text is nowhere and the string is left whole, or the parts stand around its first place.
abbrev pub AroundFirst : Bytes → Bytes → Split → Type 0
AroundFirst s t (lhs, rhs) =
    (((j : ℕ) → ¬ Occurs t s j) × (lhs ≡ s) × (rhs ≡ []))
    ⊎ ((s ≡ lhs ++ (t ++ rhs)) × ((j : ℕ) → j < length lhs → ¬ Occurs t s j))

abbrev pub AroundLast : Bytes → Bytes → Split → Type 0
AroundLast s t (lhs, rhs) =
    (((j : ℕ) → ¬ Occurs t s j) × (lhs ≡ s) × (rhs ≡ []))
    ⊎ ((s ≡ lhs ++ (t ++ rhs)) × ((j : ℕ) → length lhs < j → ¬ Occurs t s j))

-- A place that was found passes the guard, and the parts are what is around it.
split_found_lem :
    (s t : Bytes) (i : ℕ)
    → Occurs t s i
    → Returns (λ p. (s ≡ p.0 ++ (t ++ p.1)) × (length p.0 ≡ i)) (split_found s t (some i))
unfolding split_found
split_found_lem s t i (lhs, rhs, e, l) = rw inside (
    rw (e, ← l)
      (rw (take-length_append lhs (t ++ rhs)) (
        rw
          (
            drop_split lhs (t ++ rhs) (length lhs + length t) (length t) refl,
            drop-length_append t rhs,
          )
          (refl, refl))))
  where
    inside : ltb (length s) (i + length t) ≡ false
    inside = ground (arith, ap length e, length-append lhs (t ++ rhs), length-append t rhs)

-- `str_split_text` of a text that is not empty never stops, and the parts it leaves stand around
-- the first place of the text, or the string is left whole where the text does not occur.
pub str_split_text-AroundFirst :
    (s t : Bytes) → t ≢ [] → Returns (AroundFirst s t) (str_split_text s t)
unfolding str_split_text str_split_text_common
str_split_text-AroundFirst s t ne = go (str_locate_text s t) (str_locate_text-IsFirst s t ne)
  where
    go : (o : Option ℕ) → IsFirst t s o → Returns (AroundFirst s t) (split_found s t o)
    go none h = inl (h, refl, refl)
    go (some i) (o, h) =
        Ends-mono ⊥ ⊥ _ (AroundFirst s t) (split_found s t (some i)) (λ impossible. impossible)
          (λ p k. inr (k.0, rw k.1 h)) (split_found_lem s t i o)

-- `str_split_text_reverse` of a text that is not empty never stops, and the parts it leaves stand
-- around the last place of the text, or the string is left whole where the text does not occur.
pub str_split_text_reverse-AroundLast :
    (s t : Bytes) → t ≢ [] → Returns (AroundLast s t) (str_split_text_reverse s t)
unfolding str_split_text_reverse str_split_text_common
str_split_text_reverse-AroundLast s t ne =
    go (str_locate_text_reverse s t) (str_locate_text_reverse-IsLast s t ne)
  where
    go : (o : Option ℕ) → IsLast t s o → Returns (AroundLast s t) (split_found s t o)
    go none h = inl (h, refl, refl)
    go (some i) (o, h) =
        Ends-mono ⊥ ⊥ _ (AroundLast s t) (split_found s t (some i)) (λ impossible. impossible)
          (λ p k. inr (k.0, rw k.1 h)) (split_found_lem s t i o)

-- The parts around the first `c`, by recursion on the bytes.
abbrev pub before : ℕ → Bytes → Bytes
before c [] = []
before c (x ∷ s) = if x == c then [] else x ∷ before c s

abbrev pub after : ℕ → Bytes → Bytes
after c [] = []
after c (x ∷ s) = if x == c then s else after c s

around_first :
    (c : ℕ) (lhs rhs : Bytes)
    → ((j : ℕ) → j < length lhs → ¬ Occurs (c ∷ []) (lhs ++ (c ∷ rhs)) j)
    → (before c (lhs ++ (c ∷ rhs)) ≡ lhs) × (after c (lhs ++ (c ∷ rhs)) ≡ rhs)
around_first c [] rhs h = rw (==_refl c) (refl, refl)
around_first c (x ∷ lhs) rhs h = elim (Bool-cases (x == c)) [
  | inl same ↦
      absurd (h 0 (omega arith) ([], lhs ++ (c ∷ rhs), rw ((==_iff x c).0 same) refl, refl))
  | inr other ↦ rw other (
      let (b, a) =
        around_first c lhs rhs
          (λ j lt o. h (suc j) (omega arith) (x ∷ o.0, o.1, ap (◌∷◌ x) o.2, ap suc o.3)) in
      (ap (◌∷◌ x) b, a))
]

around_none :
    (c : ℕ) (s : Bytes) → ((j : ℕ) → ¬ Occurs (c ∷ []) s j) → (before c s ≡ s) × (after c s ≡ [])
around_none c [] h = (refl, refl)
around_none c (x ∷ s) h = elim (Bool-cases (x == c)) [
  | inl same ↦ absurd (h 0 ([], s, rw ((==_iff x c).0 same) refl, refl))
  | inr other ↦ rw other (
      let (b, a) = around_none c s (λ j o. h (suc j) (x ∷ o.0, o.1, ap (◌∷◌ x) o.2, ap suc o.3)) in
      (ap (◌∷◌ x) b, a))
]

pub split_one : (s : Bytes) (c : ℕ) → str_split_text s (c ∷ []) ≡ ok (before c s, after c s)
split_one s c =
    let (p, e, h) =
      Returns-ok (AroundFirst s (c ∷ [])) (str_split_text s (c ∷ []))
        (str_split_text-AroundFirst s (c ∷ []) (λ q. absurd cc)) in
    e ∙ parts p h
  where
    parts : (p : Split) → AroundFirst s (c ∷ []) p → ok p ≡ ok (before c s, after c s)
    parts (lhs, rhs) (inl (no_place, l, r)) =
        let (b, a) = around_none c s no_place in rw (b, a, l, r)
    parts (lhs, rhs) (inr (e, first)) =
        let (b, a) = around_first c lhs rhs (rw e at first) in rw (e, b, a)

-- `str_split_char` at a byte other than zero never stops, and leaves the bytes before and after the
-- first one that is `c`.
pub str_split_char-before-after :
    (s : Bytes) (c : ℕ) → c ≢ 0 → str_split_char s c ≡ ok (before c s, after c s)
unfolding str_split_char c_str
str_split_char-before-after s c ne = rw (nonzero, c_str) (split_one s c)
  where
    nonzero : (c == 0) ≡ false
    nonzero = ground arith
