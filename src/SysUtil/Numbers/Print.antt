-- ===== src/SysUtil/Numbers/Print.antt =====
-- What the printed digits stand for, and how many there are.
use cos_ftp_v.Base.{
  ℕ, zero, suc, ◌+◌, ◌-◌, ◌*◌, ◌/◌, ◌%◌, ◌^◌, ◌≤◌, ◌<◌, ◌≡◌, sym, ap, ◌∙◌, inl, inr, [], ◌∷◌, arith,
  Bytes, ◌==◌, ==_iff, Bool-cases, length, All,
}
use native.Mathlib.Nat.{pow-suc, pow-zero, div-add-mod', mod-lt}
use cos_ftp_v.SysUtil.Numbers.{digits_onto}

-- The number that digits stand for, with `acc` read before them.
abbrev pub value : ℕ → ℕ → Bytes → ℕ
value base acc [] = acc
value base acc (c ∷ s) = value base (acc * base + (c - b'0')) s

abbrev pub IsDigit : ℕ → ℕ → Type 0
IsDigit base c = (b'0' ≤ c) × (c < b'0' + base)

module _ (base : ℕ) (big : 1 < base) where
  quotient_small : (f n : ℕ) → n < base ^ suc f → n / base < base ^ f
  quotient_small f n h = grind (arith, div-add-mod' n base, pow-suc base f)

  digit_back : (n : ℕ) → n / base * base + (b'0' + n % base - b'0') ≡ n
  digit_back n = omega (arith, div-add-mod' n base)

  -- Printing and reading back, with `acc` read behind the digits.
  pub value-digits_onto :
      (f n : ℕ) (acc : Bytes)
      → n < base ^ f
      → value base 0 (digits_onto base f n acc) ≡ value base n acc
  unfolding digits_onto
  value-digits_onto zero n acc h = ap (λ k. value base k acc) (sym (zero_of n h))
    where
      zero_of : (n : ℕ) → n < base ^ 0 → n ≡ 0
      zero_of n h = omega (arith, pow-zero base)
  value-digits_onto (suc f) n acc h = elim (Bool-cases (n / base == 0)) [
    | inl last ↦ rw last (
        ap (λ k. value base k acc)
          (ap (λ q. q * base + (b'0' + n % base - b'0')) (sym ((==_iff (n / base) 0).0 last))
            ∙ digit_back n))
    | inr more ↦ rw more (
        value-digits_onto f (n / base) _ (quotient_small f n h)
        ∙ ap (λ k. value base k acc) (digit_back n))
  ]

  pub length-digits_onto :
      (f k n : ℕ) (acc : Bytes)
      → n < base ^ suc k
      → length (digits_onto base f n acc) ≤ suc k + length acc
  unfolding digits_onto
  length-digits_onto zero k n acc h = omega arith
  length-digits_onto (suc f) zero n acc h = elim (Bool-cases (n / base == 0)) [
    | inl last ↦ rw last (omega arith)
    | inr more ↦ absurd (ground (arith, quotient_small 0 n h, pow-zero base))
  ]
  length-digits_onto (suc f) (suc k) n acc h = elim (Bool-cases (n / base == 0)) [
    | inl last ↦ rw last (omega arith)
    | inr more ↦ rw more (
        omega (
          arith,
          length-digits_onto f k (n / base) ((b'0' + n % base) ∷ acc) (quotient_small (suc k) n h),
        ))
  ]

  pub digits_onto-IsDigit :
      (f n : ℕ) (acc : Bytes)
      → All (IsDigit base) acc
      → All (IsDigit base) (digits_onto base f n acc)
  unfolding digits_onto
  digits_onto-IsDigit zero n acc h = h
  digits_onto-IsDigit (suc f) n acc h =
      let digit : IsDigit base (b'0' + n % base) =
        (omega arith, omega (arith, mod-lt n {m = base} (omega arith))) in
      elim (Bool-cases (n / base == 0)) [
        | inl last ↦ rw last (digit, h)
        | inr more ↦ rw more (digits_onto-IsDigit f (n / base) _ (digit, h))
      ]
