-- ===== src/Str/Edit/Replace.antt =====
-- `str_replace_text` with a text of one byte replaces every such byte.
use cos_ftp_v.Base.{
  ℕ, zero, suc, ◌+◌, ◌≤◌, ◌<◌, ◌≡◌, refl, ap, ◌∙◌, ◌⊎◌, inl, inr, false, Option, some, [], ◌∷◌,
  ◌++◌, append-nil, append_assoc, arith, Bytes, ◌==◌, if◌then◌else◌, lt→ltb, le→ltb, Bool-cases,
  length, Outcome, ok,
}
use cos_ftp_v.Str.Split.Parts.{before, after, split_one}
use cos_ftp_v.Str.Edit.{is_empty, replace_loop, str_replace_text}

-- Every `c` becomes `to`.
abbrev pub replaced : ℕ → Bytes → Bytes → Bytes
replaced c to [] = []
replaced c to (x ∷ s) = if x == c then to ++ replaced c to s else x ∷ replaced c to s

-- One round: it finds the byte and leaves less to search, or it does not and leaves nothing.
abbrev Round : ℕ → Bytes → Bytes → Type 0
Round c to s =
    ((length (before c s) < length s)
      × (replaced c to s ≡ before c s ++ (to ++ replaced c to (after c s)))
      × (length (after c s) < length s))
    ⊎ ((length s ≤ length (before c s)) × (replaced c to s ≡ before c s) × (after c s ≡ []))

Round-cons : (c x : ℕ) (to s : Bytes) → (x == c) ≡ false → Round c to s → Round c to (x ∷ s)
Round-cons c x to s other (inl (f, e, l)) = rw other (inl (omega arith, ap (◌∷◌ x) e, omega arith))
Round-cons c x to s other (inr (f, e, n)) = rw other (inr (omega arith, ap (◌∷◌ x) e, n))

round : (c : ℕ) (to s : Bytes) → Round c to s
round c to [] = inr (omega arith, refl, refl)
round c to (x ∷ s) = elim (Bool-cases (x == c)) [
  | inl same ↦ rw same (inl (omega arith, refl, omega arith))
  | inr other ↦ Round-cons c x to s other (round c to s)
]

-- The test of the `do` loop, with what the next round does.
go_on :
    (next : Outcome (Option Bytes)) (c : ℕ) (to rest out : Bytes)
    → next ≡ ok (some (out ++ replaced c to rest))
    → (if is_empty rest then ok (some out) else next) ≡ ok (some (out ++ replaced c to rest))
unfolding is_empty
go_on next c to [] out e = rw append-nil
go_on next c to (x ∷ rest) out e = e

replace_loop-replaced :
    (fuel : ℕ) (c : ℕ) (to lhs out : Bytes)
    → length lhs < fuel
    → replace_loop fuel lhs (c ∷ []) to out ≡ ok (some (out ++ replaced c to lhs))
unfolding replace_loop
replace_loop-replaced zero c to lhs out h = absurd (omega arith)
replace_loop-replaced (suc fuel) c to lhs out h = rw (split_one lhs c) (elim (round c to lhs) [
  | inl (f, e, l) ↦
      rw (lt→ltb _ _ f, e)
        (go_on _ c to (after c lhs) ((out ++ before c lhs) ++ to) (
            replace_loop-replaced fuel c to (after c lhs) ((out ++ before c lhs) ++ to)
              (omega arith))
          ∙ simp append_assoc)
  | inr (f, e, n) ↦ rw (le→ltb _ _ f, e, n) (unfold is_empty in refl)
])

-- `str_replace_text` with a text of one byte ends and replaces every such byte, wherever it stands.
pub str_replace_text-replaced :
    (s : Bytes) (c : ℕ) (to : Bytes) → str_replace_text s (c ∷ []) to ≡ ok (some (replaced c to s))
unfolding str_replace_text
str_replace_text-replaced s c to = replace_loop-replaced (length s + 1) c to s [] (omega arith)
