-- ===== src/Str/Locate/First.antt =====
-- `str_locate_text` finds the first place of a text, and fails only where there is none.
use cos_ftp_v.Base.{
  ℕ, zero, suc, ◌+◌, ◌-◌, ◌≤◌, ◌<◌, ◌≡◌, refl, sym, ap, ◌∙◌, ◌≢◌, inl, inr, Bool, true, false,
  Option, none, some, [], ◌∷◌, ◌++◌, arith, Bytes, ltb, ◌==◌, ==_iff, Bool-cases, tests, length,
  take, drop, length-append, length-take, take-append-drop, drop-length_append,
}
use cos_ftp_v.Str.Locate.{starts_with, tail_of, locate_loop, str_locate_text}

-- `t` stands in `s` at the position `i`.
abbrev pub Occurs : Bytes → Bytes → ℕ → Type 0
Occurs t s i = (before after : Bytes) × (s ≡ before ++ (t ++ after)) × (length before ≡ i)

abbrev pub IsFirst : Bytes → Bytes → Option ℕ → Type 0
IsFirst t s none = (j : ℕ) → ¬ Occurs t s j
IsFirst t s (some i) = Occurs t s i × ((j : ℕ) → j < i → ¬ Occurs t s j)

starts_with-append : (t after : Bytes) → starts_with t (t ++ after) ≡ true
unfolding starts_with
starts_with-append [] after = refl
starts_with-append (x ∷ t) after = ground (arith, starts_with-append t after)

pub starts_with-split : (t s : Bytes) → starts_with t s ≡ true → (after : Bytes) × (s ≡ t ++ after)
unfolding starts_with
starts_with-split [] s h = (s, refl)
starts_with-split (x ∷ t) [] h = absurd cc
starts_with-split (x ∷ t) (y ∷ s) h =
    let (after, e) = starts_with-split t s (ground arith) in (after, ground arith)

length-starts_with : (t s : Bytes) → starts_with t s ≡ true → length t ≤ length s
length-starts_with t s h =
    let (after, e) = starts_with-split t s h in omega (arith, ap length e, length-append t after)

pub Occurs→starts_with : (t s : Bytes) (i : ℕ) → Occurs t s i → starts_with t (drop i s) ≡ true
Occurs→starts_with t s i (before, after, e, l) =
    rw (e, ← l) (rw (drop-length_append before (t ++ after)) (starts_with-append t after))

pub starts_with→Occurs :
    (t s : Bytes) (i : ℕ) → i ≤ length s → starts_with t (drop i s) ≡ true → Occurs t s i
starts_with→Occurs t s i h e =
    let (after, r) = starts_with-split t (drop i s) e in
    (
      take i s,
      after,
      sym (take-append-drop i s) ∙ ap (λ k. take i s ++ k) r,
      omega (arith, length-take i s),
    )

pub Occurs-length : (t s : Bytes) (i : ℕ) → Occurs t s i → i + length t ≤ length s
Occurs-length t s i (before, after, e, l) =
    omega (arith, ap length e, length-append before (t ++ after), length-append t after)

-- A test has one answer.
pub false≢true' : {b : Bool} → b ≡ false → b ≡ true → ⊥
false≢true' h k = cc

tail_of-drop : (i : ℕ) (s : Bytes) → tail_of (drop i s) ≡ drop (i + 1) s
unfolding tail_of
tail_of-drop zero [] = refl
tail_of-drop zero (x ∷ s) = refl
tail_of-drop (suc i) [] = ground arith
tail_of-drop (suc i) (x ∷ s) = ground (arith, tail_of-drop i s)

module _ (w t : Bytes) where
  -- What the loop has found out when it has looked at `rounds` places from `i` on.
  abbrev Looked : ℕ → ℕ → Option ℕ → Type 0
  Looked i rounds none = (j : ℕ) → i ≤ j → j < i + rounds → starts_with t (drop j w) ≡ false
  Looked i rounds (some k) =
      (starts_with t (drop k w) ≡ true)
      × (k < i + rounds)
      × ((j : ℕ) → i ≤ j → j < k → starts_with t (drop j w) ≡ false)

  Looked-skip :
      (i rounds : ℕ) (o : Option ℕ)
      → starts_with t (drop i w) ≡ false
      → Looked (i + 1) rounds o
      → Looked i (suc rounds) o
  Looked-skip i rounds none e h = λ j ge lt. elim (Bool-cases (j == i)) [
    | inl q ↦ rw ((==_iff j i).0 q) e
    | inr q ↦ h j (ground arith) (omega arith)
  ]
  Looked-skip i rounds (some k) e h = (
    h.0,
    omega (arith, h.1),
    λ j ge lt. elim (Bool-cases (j == i)) [
      | inl q ↦ rw ((==_iff j i).0 q) e
      | inr q ↦ h.2 j (ground arith) lt
    ],
  )

  locate_loop-Looked : (rounds i : ℕ) → Looked i rounds (locate_loop rounds i (drop i w) t)
  unfolding locate_loop
  locate_loop-Looked zero i = λ j ge lt. absurd (omega arith)
  locate_loop-Looked (suc rounds) i = elim (Bool-cases (starts_with t (drop i w))) [
    | inl e ↦ rw e (e, omega arith, λ j ge lt. absurd (omega arith))
    | inr e ↦
        rw e (rw (tail_of-drop i w) (Looked-skip i rounds _ e (locate_loop-Looked rounds (i + 1))))
  ]

-- `str_locate_text` of a text that is not empty: `found` and `index` are the first place of the text,
-- and it is not found only where it does not occur.
pub str_locate_text-IsFirst : (s t : Bytes) → t ≢ [] → IsFirst t s (str_locate_text s t)
unfolding str_locate_text
str_locate_text-IsFirst s [] ne = absurd (ne refl)
str_locate_text-IsFirst s (x ∷ t) ne = elim (Bool-cases (ltb (length s) (length (x ∷ t)))) [
  | inl short ↦ rw (nonempty, short) (λ j o. absurd (omega (tests, Occurs-length (x ∷ t) s j o)))
  | inr long ↦
      rw (nonempty, long)
        (sum_up (locate_loop (length s - length (x ∷ t) + 1) 0 s (x ∷ t)) (ground arith)
          (locate_loop-Looked s (x ∷ t) (length s - length (x ∷ t) + 1) 0))
]
  where
    nonempty : (length (x ∷ t) == 0) ≡ false
    nonempty = ground arith

    sum_up :
        (o : Option ℕ)
        → length (x ∷ t) ≤ length s
        → Looked s (x ∷ t) 0 (length s - length (x ∷ t) + 1) o
        → IsFirst (x ∷ t) s o
    sum_up none h found = λ j o.
        false≢true' (found j (omega arith) (omega (arith, Occurs-length (x ∷ t) s j o)))
          (Occurs→starts_with (x ∷ t) s j o)
    sum_up (some k) h found = (
      starts_with→Occurs (x ∷ t) s k (omega (arith, found.1)) found.0,
      λ j lt o. false≢true' (found.2 j (omega arith) lt) (Occurs→starts_with (x ∷ t) s j o),
    )
