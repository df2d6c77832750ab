-- ===== src/Ascii/Upload.antt =====
-- `vsf_ascii_ascii_to_bin`, which receives: the blocks of a transfer, and its round trip.
use cos_ftp_v.Base.{
  ℕ, ◌≡◌, refl, sym, ap, ◌∙◌, ◌≢◌, Bool, true, false, not, ◌&&◌, List, [], ◌∷◌, ◌++◌, append-nil,
  append_assoc, arith, Bytes, ◌==◌, if◌then◌else◌, All,
}
use cos_ftp_v.Ascii.{
  cr, bin_loop, vsf_ascii_bin_to_ascii, ascii_loop, ascii_last, not_at_lf, vsf_ascii_ascii_to_bin,
}

-- Every carriage return in front of a line feed is dropped, and nothing else.
abbrev pub without_cr : Bytes → Bytes
without_cr [] = []
without_cr (c ∷ s) = if c == cr && not (not_at_lf s) then without_cr s else c ∷ without_cr s

-- A transfer: the blocks in order with the flag carried over, then the call with no bytes that the
-- caller makes at the end of the file.
abbrev pub received : Bool → List Bytes → Bytes
received prev_cr [] = (vsf_ascii_ascii_to_bin [] prev_cr).out
received prev_cr (b ∷ bs) =
    let r = vsf_ascii_ascii_to_bin b prev_cr in r.out ++ received r.last_was_cr bs

abbrev pub joined : List Bytes → Bytes
joined [] = []
joined (b ∷ bs) = b ++ joined bs

-- The bytes behind a block decide about a carriage return at its end.
loop_then :
    (c : ℕ) (b rest : Bytes)
    → without_cr (c ∷ b ++ rest)
      ≡ ascii_loop (c ∷ b)
        ++ ((if ascii_last (c ∷ b) && not_at_lf rest then cr ∷ [] else []) ++ without_cr rest)
unfolding ascii_loop ascii_last not_at_lf
loop_then c [] rest = ground arith
loop_then c (d ∷ b) rest = ground (arith, loop_then d b rest)

flag_front :
    (was : Bool) (s : Bytes)
    → without_cr ((if was then cr ∷ [] else []) ++ s)
      ≡ (if was && not_at_lf s then cr ∷ [] else []) ++ without_cr s
unfolding not_at_lf
flag_front true [] = refl
flag_front true (c ∷ s) = ground arith
flag_front false s = refl

-- A transfer of blocks that are not empty stores the text with each carriage return in front of a
-- line feed dropped, wherever the blocks are cut, also between the two bytes.
pub received-without_cr :
    (bs : List Bytes)
    → All (λ b. b ≢ []) bs
    → (prev_cr : Bool)
    → received prev_cr bs ≡ without_cr ((if prev_cr then cr ∷ [] else []) ++ joined bs)
unfolding vsf_ascii_ascii_to_bin
received-without_cr [] h true = unfold ascii_loop not_at_lf in refl
received-without_cr [] h false = unfold ascii_loop not_at_lf in refl
received-without_cr ([] ∷ bs) h prev_cr = absurd (h.0 refl)
received-without_cr ((c ∷ b) ∷ bs) h prev_cr =
    let front : Bytes = if prev_cr && not_at_lf (c ∷ b) then cr ∷ [] else [] in
    let last = ascii_last (c ∷ b) in
    append_assoc front (ascii_loop (c ∷ b)) (received last bs)
    ∙ ap (λ k. front ++ (ascii_loop (c ∷ b) ++ k))
        (received-without_cr bs h.1 last ∙ flag_front last (joined bs))
    ∙ ap (λ k. front ++ k) (sym (loop_then c b (joined bs)))
    ∙ unfold not_at_lf in sym (flag_front prev_cr (c ∷ b ++ joined bs))

-- No carriage return stands in front of a line feed.
abbrev pub NoCrLf : Bytes → Type 0
NoCrLf [] = Unit
NoCrLf (c ∷ s) = (c ≡ cr → not_at_lf s ≡ true) × NoCrLf s

bin_loop_head : (c : ℕ) (s : Bytes) → not_at_lf s ≡ true → not_at_lf (bin_loop c s) ≡ true
unfolding bin_loop not_at_lf
bin_loop_head c [] h = refl
bin_loop_head c (d ∷ s) h = ground arith

bin_loop-without_cr :
    (x : ℕ) (s : Bytes) → NoCrLf s → (x ≡ cr → not_at_lf s ≡ true) → without_cr (bin_loop x s) ≡ s
unfolding bin_loop not_at_lf
bin_loop-without_cr x [] h k = refl
bin_loop-without_cr x (c ∷ s) h k =
    ground (arith, bin_loop-without_cr c s h.1 h.0, bin_loop_head c s)

-- A file with no carriage return in front of a line feed comes back as it was, when what is sent for
-- it is received again.
pub received-bin_to_ascii :
    (s : Bytes) → NoCrLf s → received false ((vsf_ascii_bin_to_ascii s false).out ∷ []) ≡ s
unfolding vsf_ascii_bin_to_ascii
received-bin_to_ascii s h =
    whole (bin_loop 0 s) (bin_loop-without_cr 0 s h (λ e. absurd (omega arith)))
  where
    whole : (t : Bytes) → without_cr t ≡ s → received false (t ∷ []) ≡ s
    whole [] e = unfold vsf_ascii_ascii_to_bin ascii_loop ascii_last not_at_lf in e
    whole (c ∷ t) e =
        received-without_cr ((c ∷ t) ∷ []) (λ q. absurd cc, tt) false ∙ rw append-nil e
