-- ===== src/Str/Locate/Last.antt =====
-- `str_locate_text_reverse` finds the last place of a text, and fails only where there is none.
use cos_ftp_v.Base.{
  ℕ, zero, suc, ◌-◌, ◌≤◌, ◌<◌, ◌≡◌, refl, ◌≢◌, inl, inr, true, false, Option, none, some, [], ◌∷◌,
  arith, Bytes, ltb, ◌==◌, ==_iff, Bool-cases, tests, length, drop,
}
use cos_ftp_v.Str.Locate.{starts_with, locate_down, str_locate_text_reverse}
use cos_ftp_v.Str.Locate.First.{
  Occurs, Occurs→starts_with, starts_with→Occurs, Occurs-length, false≢true',
}

abbrev pub IsLast : Bytes → Bytes → Option ℕ → Type 0
IsLast t s none = (j : ℕ) → ¬ Occurs t s j
IsLast t s (some i) = Occurs t s i × ((j : ℕ) → i < j → ¬ Occurs t s j)

module _ (s t : Bytes) where
  -- What the loop has found out when it has looked at the places from `top` down to 0.
  abbrev Looked : ℕ → Option ℕ → Type 0
  Looked top none = (j : ℕ) → j ≤ top → starts_with t (drop j s) ≡ false
  Looked top (some k) =
      (starts_with t (drop k s) ≡ true)
      × (k ≤ top)
      × ((j : ℕ) → k < j → j ≤ top → starts_with t (drop j s) ≡ false)

  Looked-skip :
      (top : ℕ) (o : Option ℕ)
      → starts_with t (drop (suc top) s) ≡ false
      → Looked top o
      → Looked (suc top) o
  Looked-skip top none e h = λ j le. elim (Bool-cases (j == suc top)) [
    | inl q ↦ rw ((==_iff j (suc top)).0 q) e
    | inr q ↦ h j (ground arith)
  ]
  Looked-skip top (some k) e h = (
    h.0,
    omega (arith, h.1),
    λ j gt le. elim (Bool-cases (j == suc top)) [
      | inl q ↦ rw ((==_iff j (suc top)).0 q) e
      | inr q ↦ h.2 j gt (ground arith)
    ],
  )

  locate_down-Looked : (i : ℕ) → Looked i (locate_down i s t)
  unfolding locate_down
  locate_down-Looked zero = elim (Bool-cases (starts_with t s)) [
    | inl e ↦ rw e (e, omega arith, λ j gt le. absurd (omega arith))
    | inr e ↦ rw e (λ j le. rw (omega_zero j le) e)
  ]
    where
      omega_zero : (j : ℕ) → j ≤ 0 → j ≡ 0
      omega_zero j le = omega arith
  locate_down-Looked (suc i) = elim (Bool-cases (starts_with t (drop (suc i) s))) [
    | inl e ↦ rw e (e, omega arith, λ j gt le. absurd (omega arith))
    | inr e ↦ rw e (Looked-skip i _ e (locate_down-Looked i))
  ]

-- `str_locate_text_reverse` of a text that is not empty: `found` and `index` are the last place of
-- the text, and it is not found only where it does not occur.
pub str_locate_text_reverse-IsLast :
    (s t : Bytes) → t ≢ [] → IsLast t s (str_locate_text_reverse s t)
unfolding str_locate_text_reverse
str_locate_text_reverse-IsLast s [] ne = absurd (ne refl)
str_locate_text_reverse-IsLast s (x ∷ t) ne = elim (Bool-cases (ltb (length s) (length (x ∷ t)))) [
  | inl short ↦ rw (nonempty, short) (λ j o. absurd (omega (tests, Occurs-length (x ∷ t) s j o)))
  | inr long ↦
      rw (nonempty, long)
        (sum_up (locate_down (length s - length (x ∷ t)) s (x ∷ t)) (ground arith)
          (locate_down-Looked s (x ∷ t) (length s - length (x ∷ t))))
]
  where
    nonempty : (length (x ∷ t) == 0) ≡ false
    nonempty = ground arith

    sum_up :
        (o : Option ℕ)
        → length (x ∷ t) ≤ length s
        → Looked s (x ∷ t) (length s - length (x ∷ t)) o
        → IsLast (x ∷ t) s o
    sum_up none h found = λ j o.
        false≢true' (found j (omega (arith, Occurs-length (x ∷ t) s j o)))
          (Occurs→starts_with (x ∷ t) s j o)
    sum_up (some k) h found = (
      starts_with→Occurs (x ∷ t) s k (omega (arith, found.1)) found.0,
      λ j gt o.
          false≢true' (found.2 j gt (omega (arith, Occurs-length (x ∷ t) s j o)))
            (Occurs→starts_with (x ∷ t) s j o),
    )
