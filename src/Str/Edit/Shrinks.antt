-- ===== src/Str/Edit/Shrinks.antt =====
-- What a replacement by a shorter text leaves.
use cos_ftp_v.Base.{
  ℕ, zero, suc, ◌+◌, ◌<◌, ◌≡◌, refl, ap, ◌≢◌, ◌⊎◌, inl, inr, Option, none, some, [], ◌∷◌, ◌++◌,
  arith, Bytes, if◌then◌else◌, lt→ltb, le→ltb, length, length-append, Outcome, ok, Returns,
  Ends-bind, Ends-mono,
}
use cos_ftp_v.Str.Edit.{is_empty, replace_loop, str_replace_text}
use cos_ftp_v.Str.Locate.First.{Occurs}
use cos_ftp_v.Str.Split.{str_split_text}
use cos_ftp_v.Str.Split.Parts.{AroundFirst, str_split_text-AroundFirst}

-- The text is nowhere in the string, which is left as it was, or the string gets shorter.
abbrev pub Shrinks : Bytes → Bytes → Bytes → Option Bytes → Type 0
Shrinks from lhs out none = ⊥
Shrinks from lhs out (some q) =
    (((j : ℕ) → ¬ Occurs from lhs j) × (q ≡ out ++ lhs)) ⊎ (length q < length out + length lhs)

-- The lengths of what stands around a place.
pub parts_length :
    (lhs a from b : Bytes) → lhs ≡ a ++ (from ++ b) → length lhs ≡ length a + length from + length b
parts_length lhs a from b e =
    omega (arith, ap length e, length-append a (from ++ b), length-append from b)

out_length : (out a to : Bytes) → length ((out ++ a) ++ to) ≡ length out + length a + length to
out_length out a to = omega (arith, length-append (out ++ a) to, length-append out a)

module _ (from to : Bytes) (ne : from ≢ []) (shorter : length to < length from) where
  after_one :
      (lhs out a b : Bytes)
      → lhs ≡ a ++ (from ++ b)
      → (o : Option Bytes) → Shrinks from b ((out ++ a) ++ to) o
      → Shrinks from lhs out o
  after_one lhs out a b e none k = k
  after_one lhs out a b e (some q) (inl k) = inr (
      omega (
        arith,
        shorter,
        ap length k.1,
        length-append ((out ++ a) ++ to) b,
        out_length out a to,
        parts_length lhs a from b e,
      ))
  after_one lhs out a b e (some q) (inr k) =
      inr (omega (arith, k, shorter, out_length out a to, parts_length lhs a from b e))

  -- The test of the `do` loop, with what the next round does.
  go_on :
      (next : Outcome (Option Bytes)) (lhs out a b : Bytes)
      → lhs ≡ a ++ (from ++ b)
      → Returns (Shrinks from b ((out ++ a) ++ to)) next
      → Returns (Shrinks from lhs out) (if is_empty b then ok (some ((out ++ a) ++ to)) else next)
  unfolding is_empty
  go_on next lhs out a [] e k =
      inr (omega (arith, shorter, out_length out a to, parts_length lhs a from [] e))
  go_on next lhs out a (x ∷ b) e k =
      Ends-mono ⊥ ⊥ (Shrinks from (x ∷ b) ((out ++ a) ++ to)) (Shrinks from lhs out) next
        (λ impossible. impossible) (after_one lhs out a (x ∷ b) e) k

  replace_loop-Shrinks :
      (fuel : ℕ) (lhs out : Bytes)
      → length lhs < fuel
      → Returns (Shrinks from lhs out) (replace_loop fuel lhs from to out)
  unfolding replace_loop is_empty
  replace_loop-Shrinks zero lhs out h = absurd (omega arith)
  replace_loop-Shrinks (suc fuel) lhs out h =
      Ends-bind ⊥ (AroundFirst lhs from) (Shrinks from lhs out) (str_split_text lhs from) _
        (str_split_text-AroundFirst lhs from ne)
        (λ p around. elim around [
          | inl k ↦ rw (k.1, k.2, le→ltb (length lhs) (length lhs) (omega arith)) (inl (k.0, refl))
          | inr k ↦
              rw
                (lt→ltb (length p.0) (length lhs)
                  (omega (arith, shorter, parts_length lhs p.0 from p.1 k.0)))
                (go_on _ lhs out p.0 p.1 k.0 (
                  replace_loop-Shrinks fuel p.1 ((out ++ p.0) ++ to)
                    (omega (arith, h, shorter, parts_length lhs p.0 from p.1 k.0))))
        ])

  -- A text that is replaced by a shorter one either does not occur, and the string stays, or the
  -- string gets shorter.
  pub str_replace_text-Shrinks :
      (s : Bytes) → Returns (Shrinks from s []) (str_replace_text s from to)
  unfolding str_replace_text
  str_replace_text-Shrinks s = replace_loop-Shrinks (length s + 1) s [] (omega arith)
