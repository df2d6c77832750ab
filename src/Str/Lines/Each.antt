-- ===== src/Str/Lines/Each.antt =====
-- `str_getline` gives the lines of a text one by one, and `str_contains_line` finds a line among them.
use cos_ftp_v.Base.{
  ℕ, zero, suc, ◌+◌, ◌-◌, ◌≤◌, ◌<◌, ◌≡◌, refl, sym, ap, ◌∙◌, ◌⊎◌, inl, inr, Bool, true, false, ◌||◌,
  none, some, List, [], ◌∷◌, arith, Bytes, ltb, ◌==◌, if◌then◌else◌, le→ltb, ==_iff, ==_refl,
  Bool-cases, length, take, drop, length-drop, drop_add, any_of, ok,
}
use cos_ftp_v.Str.Compare.{str_equal}
use cos_ftp_v.Str.Split.Parts.{before, after}
use cos_ftp_v.Str.Lines.{line_end, on_newline, str_getline, contains_line_loop, str_contains_line}

abbrev cons_first : ℕ → List Bytes → List Bytes
cons_first c [] = (c ∷ []) ∷ []
cons_first c (l ∷ ls) = (c ∷ l) ∷ ls

-- The lines of a text; a newline at its end starts no further line.
abbrev pub lines : Bytes → List Bytes
lines [] = []
lines (c ∷ s) = if c == b'\n' then [] ∷ lines s else cons_first c (lines s)

pub lines_step :
    (c : ℕ) (s : Bytes) → lines (c ∷ s) ≡ before b'\n' (c ∷ s) ∷ lines (after b'\n' (c ∷ s))
lines_step c [] = ground arith
lines_step c (d ∷ s) = elim (Bool-cases (c == b'\n')) [
  | inl end ↦ rw end refl
  | inr more ↦ rw more (ap (cons_first c) (lines_step d s))
]

line_end-before : (curr : ℕ) (s : Bytes) → line_end curr s ≡ curr + length (before b'\n' s)
unfolding line_end
line_end-before curr [] = omega arith
line_end-before curr (c ∷ s) = elim (Bool-cases (c == b'\n')) [
  | inl end ↦ rw end (omega arith)
  | inr more ↦ rw more (omega (arith, line_end-before (curr + 1) s))
]

take-before : (s : Bytes) → take (length (before b'\n' s)) s ≡ before b'\n' s
take-before [] = refl
take-before (c ∷ s) = elim (Bool-cases (c == b'\n')) [
  | inl end ↦ rw end refl
  | inr more ↦ rw more (ap (◌∷◌ c) (take-before s))
]

-- How far a line with its newline reaches.
abbrev step : Bytes → ℕ
step s = length (before b'\n' s) + (if on_newline (drop (length (before b'\n' s)) s) then 1 else 0)

drop-step : (s : Bytes) (k : ℕ) → k ≡ step s → drop k s ≡ after b'\n' s
unfolding on_newline
drop-step [] k e = rw e refl
drop-step (c ∷ s) k e = elim (Bool-cases (c == b'\n')) [
  | inl end ↦ rw (rw (end, end) at e) (rw end refl)
  | inr more ↦
      rw (drop_add k 1 (step s) (c ∷ s) (omega (arith, rw more at e)))
        (rw more (drop-step s (step s) refl))
]

step-le : (s : Bytes) → step s ≤ length s
unfolding on_newline
step-le [] = omega arith
step-le (c ∷ s) = elim (Bool-cases (c == b'\n')) [
  | inl end ↦ rw end (rw end (omega arith))
  | inr more ↦ rw more (omega (arith, step-le s))
]

step-pos : (s : Bytes) → 0 < length s → 0 < step s
unfolding on_newline
step-pos [] h = absurd (omega arith)
step-pos (c ∷ s) h = elim (Bool-cases (c == b'\n')) [
  | inl end ↦ rw end (rw end (omega arith))
  | inr more ↦ rw more (omega arith)
]

position : (a l : ℕ) (b : Bool) → (if b then a + l + 1 else a + l) ≡ a + (l + (if b then 1 else 0))
position a l true = omega arith
position a l false = omega arith

-- `str_getline` at a position within the text: the line that starts there, without its newline, and
-- the position behind the line; at the end of the text there is none.
pub str_getline_lem :
    (s : Bytes) (pos : ℕ)
    → pos < length s
    → str_getline s pos ≡ ok (some (before b'\n' (drop pos s), pos + step (drop pos s)))
unfolding str_getline
str_getline_lem s pos h =
    let t = drop pos s in
    let near : ltb (length s) pos ≡ false = ground arith in
    let inside : (pos == length s) ≡ false = ground arith in
    let curr : line_end pos t ≡ pos + length (before b'\n' t) = line_end-before pos t in
    rw (near, inside)
      (rw curr (
        rw (drop_add (pos + length (before b'\n' t)) pos (length (before b'\n' t)) s refl) (
          let len : pos + length (before b'\n' t) - pos ≡ length (before b'\n' t) = omega arith in
          rw len (
            rw (take-before t) (
              ap (λ q. ok (some (before b'\n' t, q)))
                (position pos (length (before b'\n' t))
                  (on_newline (drop (length (before b'\n' t)) t))))))))

getline_end : (s : Bytes) (pos : ℕ) → pos ≡ length s → str_getline s pos ≡ ok none
unfolding str_getline
getline_end s pos e =
    rw e (rw (le→ltb (length s) (length s) (omega arith), ==_refl (length s)) refl)

drop-eq-nil : (n : ℕ) (s : Bytes) → n ≡ length s → drop n s ≡ []
drop-eq-nil n [] e = rw e refl
drop-eq-nil zero (c ∷ s) e = absurd (omega arith)
drop-eq-nil (suc n) (c ∷ s) e = drop-eq-nil n s (omega arith)

lines_step' : (t : Bytes) → 0 < length t → lines t ≡ before b'\n' t ∷ lines (after b'\n' t)
lines_step' [] h = absurd (omega arith)
lines_step' (c ∷ t) h = lines_step c t

either : (a b : Bool) → (if a then ok (some true) else ok (some b)) ≡ ok (some (a || b))
either true b = refl
either false b = refl

contains_line_loop-any :
    (fuel : ℕ) (s line : Bytes) (pos : ℕ)
    → pos ≤ length s
    → length s < pos + fuel
    → contains_line_loop fuel s line pos
      ≡ ok (some (any_of (λ l. str_equal l line) (lines (drop pos s))))
unfolding contains_line_loop
contains_line_loop-any zero s line pos h f = absurd (omega arith)
contains_line_loop-any (suc fuel) s line pos h f = elim (Bool-cases (pos == length s)) [
  | inl end ↦
      rw
        (
          getline_end s pos ((==_iff pos (length s)).0 end),
          drop-eq-nil pos s ((==_iff pos (length s)).0 end),
        )
        refl
  | inr more ↦
      let within : pos < length s = ground arith in
      let long : 0 < length (drop pos s) = omega (arith, length-drop pos s) in
      rw (str_getline_lem s pos within, lines_step' (drop pos s) long)
        (rw
          (contains_line_loop-any fuel s line (pos + step (drop pos s))
            (omega (arith, step-le (drop pos s), length-drop pos s))
            (omega (arith, step-pos (drop pos s) long)))
          (rw
            (
              drop_add (pos + step (drop pos s)) pos (step (drop pos s)) s refl,
              drop-step (drop pos s) (step (drop pos s)) refl,
            )
            (either (str_equal (before b'\n' (drop pos s)) line) _)))
]

-- `str_contains_line` ends, and answers whether one of the lines of the text equals the line.
pub str_contains_line-any :
    (s line : Bytes)
    → str_contains_line s line ≡ ok (some (any_of (λ l. str_equal l line) (lines s)))
unfolding str_contains_line
str_contains_line-any s line =
    contains_line_loop-any (length s + 1) s line 0 (omega arith) (omega arith)

-- A read at a position within the text, or at its end: there is no line left, or the first that is
-- left is read, and the position moves on to the others.
pub str_getline-lines :
    (s : Bytes) (pos : ℕ)
    → pos ≤ length s
    → ((str_getline s pos ≡ ok none) × (lines (drop pos s) ≡ []))
      ⊎ ((line : Bytes) × (next : ℕ) × (str_getline s pos ≡ ok (some (line, next)))
          × (lines (drop pos s) ≡ line ∷ lines (drop next s))
          × (pos < next)
          × (next ≤ length s))
str_getline-lines s pos h = elim (Bool-cases (pos == length s)) [
  | inl end ↦
      let e : pos ≡ length s = (==_iff pos (length s)).0 end in
      inl (getline_end s pos e, ap lines (drop-eq-nil pos s e))
  | inr more ↦
      let within : pos < length s = ground arith in
      let t = drop pos s in
      let long : 0 < length t = omega (arith, length-drop pos s) in
      let moved : drop (pos + step t) s ≡ after b'\n' t =
        drop_add (pos + step t) pos (step t) s refl ∙ drop-step t (step t) refl in
      inr (
        before b'\n' t,
        pos + step t,
        str_getline_lem s pos within,
        lines_step' t long ∙ ap (λ u. before b'\n' t ∷ lines u) (sym moved),
        omega (arith, step-pos t long),
        omega (arith, step-le t, length-drop pos s),
      )
]
