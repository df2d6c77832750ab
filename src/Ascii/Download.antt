-- ===== src/Ascii/Download.antt =====
-- `vsf_ascii_bin_to_ascii`, which sends: blocks, bound of the output buffer, and line ends.
use cos_ftp_v.Base.{
  ℕ, ◌*◌, ◌≤◌, ◌≡◌, refl, sym, ap, ◌∙◌, inl, inr, Bool, true, false, not, ◌&&◌, [], ◌∷◌, ◌++◌,
  arith, Bytes, ◌==◌, if◌then◌else◌, Bool-cases, length,
}
use cos_ftp_v.Ascii.{cr, lf, bin_loop, bin_last, vsf_ascii_bin_to_ascii}

-- What `last_char` means for the bytes that follow.
bin_loop-eq : (x y : ℕ) (s : Bytes) → (x == cr) ≡ (y == cr) → bin_loop x s ≡ bin_loop y s
unfolding bin_loop
bin_loop-eq x y [] e = refl
bin_loop-eq x y (c ∷ s) e = rw e refl

flag : (b : Bool) → ((if b then cr else 0) == cr) ≡ b
flag true = refl
flag false = refl

bin_loop-append :
    (last_char : ℕ) (was : Bool) (a b : Bytes)
    → (last_char == cr) ≡ was
    → bin_loop last_char (a ++ b)
      ≡ bin_loop last_char a ++ bin_loop (if bin_last was a then cr else 0) b
unfolding bin_loop bin_last
bin_loop-append last_char was [] b e =
    bin_loop-eq last_char (if was then cr else 0) b (e ∙ sym (flag was))
bin_loop-append last_char was (c ∷ a) b e = elim (Bool-cases (c == lf && not (last_char == cr))) [
  | inl yes' ↦ rw (yes') (ap (λ k. cr ∷ c ∷ k) (bin_loop-append c (c == cr) a b refl))
  | inr no' ↦ rw (no') (ap (◌∷◌ c) (bin_loop-append c (c == cr) a b refl))
]

bin_last-append : (was : Bool) (a b : Bytes) → bin_last was (a ++ b) ≡ bin_last (bin_last was a) b
unfolding bin_last
bin_last-append was [] b = refl
bin_last-append was (c ∷ a) b = bin_last-append (c == cr) a b

-- Sending two blocks one after the other, with the flag carried over, gives the bytes and the
-- flag of sending them as one block.
pub bin_to_ascii-append :
    (a b : Bytes) (prev_cr : Bool)
    → let r = vsf_ascii_bin_to_ascii a prev_cr in
      let q = vsf_ascii_bin_to_ascii b r.last_was_cr in
      let whole = vsf_ascii_bin_to_ascii (a ++ b) prev_cr in
      (whole.out ≡ r.out ++ q.out) × (whole.last_was_cr ≡ q.last_was_cr)
unfolding vsf_ascii_bin_to_ascii
bin_to_ascii-append a b prev_cr = (
  bin_loop-append (if prev_cr then cr else 0) prev_cr a b (flag prev_cr),
  bin_last-append prev_cr a b,
)

length-bin_loop : (x : ℕ) (s : Bytes) → length (bin_loop x s) ≤ 2 * length s
unfolding bin_loop
length-bin_loop x [] = omega arith
length-bin_loop x (c ∷ s) = ground (arith, length-bin_loop c s)

-- At most twice as many bytes are stored as were read.
length-bin_to_ascii :
    (s : Bytes) (prev_cr : Bool) → length (vsf_ascii_bin_to_ascii s prev_cr).out ≤ 2 * length s
unfolding vsf_ascii_bin_to_ascii
length-bin_to_ascii s prev_cr = length-bin_loop (if prev_cr then cr else 0) s

-- Every line feed has a carriage return in front; `was` is whether one stood before the text.
abbrev pub LinesEnd : Bool → Bytes → Type 0
LinesEnd was [] = Unit
LinesEnd was (c ∷ s) = (c ≡ lf → was ≡ true) × LinesEnd (c == cr) s

bin_loop-LinesEnd : (x : ℕ) (s : Bytes) → LinesEnd (x == cr) (bin_loop x s)
unfolding bin_loop
bin_loop-LinesEnd x [] = tt
bin_loop-LinesEnd x (c ∷ s) = elim (Bool-cases (c == lf && not (x == cr))) [
  | inl bare ↦ rw bare (λ e. absurd (omega arith), (λ e. refl, bin_loop-LinesEnd c s))
  | inr fine ↦ rw fine (λ e. ground arith, bin_loop-LinesEnd c s)
]

-- What is sent has no line feed without a carriage return in front of it, where the flag says
-- that one was sent before the block.
pub bin_to_ascii-LinesEnd :
    (s : Bytes) (prev_cr : Bool) → LinesEnd prev_cr (vsf_ascii_bin_to_ascii s prev_cr).out
unfolding vsf_ascii_bin_to_ascii
bin_to_ascii-LinesEnd s true = bin_loop-LinesEnd cr s
bin_to_ascii-LinesEnd s false = bin_loop-LinesEnd 0 s
