-- ===== src/Commands/Paths/Resolved.antt =====
-- The dots inside a path that `session_real_path` resolves.
use cos_ftp_v.Base.{
  ℕ, zero, suc, ◌+◌, ◌≤◌, ◌<◌, ◌≡◌, sym, ap, subst, ◌⊎◌, inl, inr, true, false, Option, none, some,
  [], ◌∷◌, ◌++◌, arith, Bytes, codes, ◌==◌, ==_refl, Bool-cases, length, length-append, ◌>>=◌,
  Returns, Ends-bind, Ends-mono,
}
use cos_ftp_v.Str.Edit.{is_empty, str_replace_text}
use cos_ftp_v.Str.Edit.Shrinks.{Shrinks, parts_length, str_replace_text-Shrinks}
use cos_ftp_v.Str.Locate.First.{Occurs}
use cos_ftp_v.Str.Split.{Split, str_split_text, str_split_char_reverse, str_split_text_reverse}
use cos_ftp_v.Str.Locate.{c_str}
use cos_ftp_v.Str.Split.Parts.{
  AroundFirst, AroundLast, str_split_text-AroundFirst, str_split_text_reverse-AroundLast,
}
use cos_ftp_v.Commands.{Client}
use cos_ftp_v.Commands.Paths.{
  text_or_fault, squeeze_loop, climb_loop, rejoin, without_dots, session_real_path,
  prepend_session_path_to_filename,
}

-- The text is nowhere in the string.
abbrev pub Lacks : Bytes → Bytes → Type 0
Lacks t s = (j : ℕ) → ¬ Occurs t s j

-- What a text_or_fault text is, of a replacement that shrinks.
text_or_fault-Shrinks :
    (from s : Bytes) (o : Option Bytes)
    → Shrinks from s [] o
    → Returns (λ next. (Lacks from s × (next ≡ s)) ⊎ (length next < length s)) (text_or_fault o)
text_or_fault-Shrinks from s none h = absurd h
text_or_fault-Shrinks from s (some q) (inl h) = inl h
text_or_fault-Shrinks from s (some q) (inr h) = inr (omega arith)

squeeze-Lacks :
    (fuel : ℕ) (path : Bytes)
    → length path < fuel
    → Returns (Lacks (codes "/./")) (squeeze_loop fuel path)
unfolding squeeze_loop
squeeze-Lacks zero path h = absurd (omega arith)
squeeze-Lacks (suc fuel) path h =
    Ends-bind ⊥ (λ next. (Lacks (codes "/./") path × (next ≡ path)) ⊎ (length next < length path))
      (Lacks (codes "/./")) (str_replace_text path (codes "/./") (codes "/") >>= text_or_fault) _
      (Ends-bind ⊥ (Shrinks (codes "/./") path []) _
        (str_replace_text path (codes "/./") (codes "/")) text_or_fault
        (str_replace_text-Shrinks (codes "/./") (codes "/") (λ e. absurd cc) (omega arith) path)
        (text_or_fault-Shrinks (codes "/./") path))
      (λ next k. elim (Bool-cases (length next == length path)) [
        | inl same ↦ rw same (stays next k same)
        | inr other ↦ rw other (squeeze-Lacks fuel next (omega (arith, shrinks next k other, h)))
      ])
  where
    stays :
        (next : Bytes)
        → ((Lacks (codes "/./") path × (next ≡ path)) ⊎ (length next < length path))
        → (length next == length path) ≡ true
        → Lacks (codes "/./") next
    stays next (inl k) same = rw k.1 k.0
    stays next (inr k) same = absurd (ground (arith, k, same))

    shrinks :
        (next : Bytes)
        → ((Lacks (codes "/./") path × (next ≡ path)) ⊎ (length next < length path))
        → (length next == length path) ≡ false
        → length next < length path
    shrinks next (inl k) other = absurd (ground (arith, ap length k.1, other))
    shrinks next (inr k) other = k

-- A split at the last slash never stops, and leaves no more than there was.
split_reverse_le :
    (s : Bytes) → Returns (λ p. length p.0 ≤ length s) (str_split_char_reverse s b'/')
unfolding str_split_char_reverse c_str
split_reverse_le s =
    Ends-mono ⊥ ⊥ (AroundLast s (b'/' ∷ [])) (λ p. length p.0 ≤ length s)
      (str_split_text_reverse s (b'/' ∷ [])) (λ impossible. impossible) le
      (str_split_text_reverse-AroundLast s (b'/' ∷ []) (λ e. absurd cc))
  where
    le : (p : Split) → AroundLast s (b'/' ∷ []) p → length p.0 ≤ length s
    le p (inl k) = omega (arith, ap length k.1)
    le p (inr k) = omega (arith, parts_length s p.0 (b'/' ∷ []) p.1 k.0)

length-rejoin : (a b : Bytes) → length (rejoin a b) ≤ length a + 1 + length b
unfolding is_empty
length-rejoin a [] = omega arith
length-rejoin a (x ∷ b) =
    omega (arith, length-append (a ++ b'/' ∷ []) (x ∷ b), length-append a (b'/' ∷ []))

climb-Lacks :
    (fuel : ℕ) (path : Bytes)
    → length path < fuel
    → Returns (Lacks (codes "/../")) (climb_loop fuel path)
unfolding climb_loop
climb-Lacks zero path h = absurd (omega arith)
climb-Lacks (suc fuel) path h =
    Ends-bind ⊥ (AroundFirst path (codes "/../")) (Lacks (codes "/../"))
      (str_split_text path (codes "/../")) _
      (str_split_text-AroundFirst path (codes "/../") (λ e. absurd cc))
      (λ p around. elim around [
        | inl k ↦
            rw (ap length k.1, ==_refl (length path))
              (subst (λ q. Lacks (codes "/../") q) (sym k.1) k.0)
        | inr k ↦
            let l = parts_length path p.0 (codes "/../") p.1 k.0 in
            let other : (length p.0 == length path) ≡ false = ground (arith, l) in
            rw other (
              Ends-bind ⊥ (λ up. length up.0 ≤ length p.0) (Lacks (codes "/../"))
                (str_split_char_reverse p.0 b'/') _ (split_reverse_le p.0)
                (λ up le.
                  climb-Lacks fuel (rejoin up.0 p.1)
                    (omega (arith, le, l, h, length-rejoin up.0 p.1))))
      ])

-- `session_real_path` ends, for every name and in every working directory, and no "/../" is left in
-- the path it gives.
pub session_real_path-Lacks :
    (s : Client) (name : Bytes) → Returns (Lacks (codes "/../")) (session_real_path s name)
unfolding session_real_path without_dots
session_real_path-Lacks s name =
    let path = prepend_session_path_to_filename s name in
    Ends-bind ⊥ (Lacks (codes "/./")) (Lacks (codes "/../")) (squeeze_loop (length path + 1) path) _
      (squeeze-Lacks (length path + 1) path (omega arith))
      (λ next k. climb-Lacks (length next + 1) next (omega arith))
