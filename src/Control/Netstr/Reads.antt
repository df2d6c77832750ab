-- ===== src/Control/Netstr/Reads.antt =====
-- What is read of the bytes that arrive.
use cos_ftp_v.Base.{
  ℕ, zero, suc, ◌+◌, ◌-◌, ◌≤◌, ◌<◌, min, ◌≡◌, refl, sym, ap, ◌∙◌, subst, ◌≢◌, inl, inr, Bool, true,
  false, none, some, [], ◌∷◌, ◌++◌, append_assoc, arith, Bytes, leb, ◌==◌, leb→le, ==_refl,
  Bool-cases, tests, length, take, drop, length-take, length-drop, take-append-drop,
  drop-length_append, drop_split, All, All-append, All-left, All-right,
}
use cos_ftp_v.Str.Split.Parts.{before}
use cos_ftp_v.Control.Netstr.{
  Socket, peek, take_read, up_to_term, Got, line, netfd_loop, str_netfd_alloc,
}

-- All the bytes still to come.
abbrev pub stream : Socket → Bytes
stream [] = []
stream (chunk ∷ later) = chunk ++ stream later

-- No arrival is empty: that would be the end of the connection.
abbrev pub Arrives : Socket → Type 0
Arrives sock = All (λ chunk. chunk ≢ []) sock

abbrev pub Lacks : ℕ → Bytes → Type 0
Lacks term s = All (λ c. (c == term) ≡ false) s

up_to_term-some :
    (term n : ℕ) (text rest : Bytes)
    → Lacks term text
    → length text < n
    → up_to_term term (take n (text ++ term ∷ rest)) ≡ some (length text + 1)
up_to_term-some term zero text rest h k = absurd (omega arith)
up_to_term-some term (suc n) [] rest h k = rw (==_refl term) refl
up_to_term-some term (suc n) (c ∷ text) rest h k =
    rw h.0 (rw (up_to_term-some term n text rest h.1 (omega arith)) (ap some (omega arith)))

up_to_term-none :
    (term n : ℕ) (text rest : Bytes)
    → Lacks term text
    → n ≤ length text
    → up_to_term term (take n (text ++ rest)) ≡ none
up_to_term-none term zero text rest h k = refl
up_to_term-none term (suc n) [] rest h k = absurd (omega arith)
up_to_term-none term (suc n) (c ∷ text) rest h k =
    rw h.0 (rw (up_to_term-none term n text rest h.1 (omega arith)) refl)

before-append :
    (term : ℕ) (text rest : Bytes) → Lacks term text → before term (text ++ term ∷ rest) ≡ text
before-append term [] rest h = rw (==_refl term) refl
before-append term (c ∷ text) rest h = rw h.0 (ap (◌∷◌ c) (before-append term text rest h.1))

take_more : (n : ℕ) (s t : Bytes) → take (length (take n s)) (s ++ t) ≡ take n s
take_more zero s t = refl
take_more (suc n) [] t = refl
take_more (suc n) (c ∷ s) t = ap (◌∷◌ c) (take_more n s t)

take_short : (n : ℕ) (s t : Bytes) → n ≤ length s → take n (s ++ t) ≡ take n s
take_short zero s t h = refl
take_short (suc n) [] t h = absurd (omega arith)
take_short (suc n) (c ∷ s) t h = ap (◌∷◌ c) (take_short n s t (omega arith))

drop_short : (n : ℕ) (s t : Bytes) → n ≤ length s → drop n (s ++ t) ≡ drop n s ++ t
drop_short zero s t h = refl
drop_short (suc n) [] t h = absurd (omega arith)
drop_short (suc n) (c ∷ s) t h = drop_short n s t (omega arith)

take-take : (m n : ℕ) (s : Bytes) → m ≤ n → take m (take n s) ≡ take m s
take-take zero n s h = refl
take-take (suc m) zero s h = absurd (omega arith)
take-take (suc m) (suc n) [] h = refl
take-take (suc m) (suc n) (c ∷ s) h = ap (◌∷◌ c) (take-take m n s (omega arith))

take_past :
    (term : ℕ) (text rest : Bytes)
    → take (length text + 1) (text ++ term ∷ rest) ≡ text ++ term ∷ []
take_past term [] rest = refl
take_past term (c ∷ text) rest =
    ap (λ k. take k (c ∷ text ++ term ∷ rest)) (next (length text))
    ∙ ap (◌∷◌ c) (take_past term text rest)
  where
    next : (n : ℕ) → suc n + 1 ≡ suc (n + 1)
    next n = omega arith

Lacks-take : (term n : ℕ) (s : Bytes) → Lacks term s → Lacks term (take n s) × Lacks term (drop n s)
Lacks-take term n s h =
    let parts = subst (Lacks term) (sym (take-append-drop n s)) h in
    (All-left _ (take n s) (drop n s) parts, All-right _ (take n s) (drop n s) parts)

length-pos : (s : Bytes) → s ≢ [] → 0 < length s
length-pos [] h = absurd (h refl)
length-pos (c ∷ s) h = omega arith

-- Reading takes bytes off the front of the stream.
take_read-stream :
    (n : ℕ) (chunk : Bytes) (later : Socket)
    → n ≤ length chunk
    → stream (take_read n (chunk ∷ later)) ≡ drop n (chunk ++ stream later)
unfolding take_read
take_read-stream n chunk later h = elim (Bool-cases (leb (length chunk) n)) [
  | inl whole ↦ rw whole (
      sym (
        ap (λ k. drop k (chunk ++ stream later)) (exact whole)
        ∙ drop-length_append chunk (stream later)))
  | inr part ↦ rw part (sym (drop_short n chunk (stream later) h))
]
  where
    exact : leb (length chunk) n ≡ true → n ≡ length chunk
    exact w = omega tests

take_read-Arrives :
    (n : ℕ) (chunk : Bytes) (later : Socket)
    → n ≤ length chunk
    → Arrives (chunk ∷ later)
    → Arrives (take_read n (chunk ∷ later))
unfolding take_read
take_read-Arrives n chunk later h a = elim (Bool-cases (leb (length chunk) n)) [
  | inl whole ↦ rw whole a.1
  | inr part ↦ rw part (λ e. not_all part (ap length e), a.1)
]
  where
    not_all : leb (length chunk) n ≡ false → length (drop n chunk) ≡ length {A = ℕ} [] → ⊥
    not_all p e = ground (arith, length-drop n chunk)

-- What the loop gives for a stream that holds a line.
abbrev pub Reads : ℕ → Bytes → Bytes → Got × Socket → Type 0
Reads term text rest (got, sock) = (got ≡ line text) × (stream sock ≡ rest) × Arrives sock

module _ (peek_fails read_fails : Socket → Bool)
    (works : ((s : Socket) → peek_fails s ≡ false) × ((s : Socket) → read_fails s ≡ false)) where
  netfd_loop-Reads :
      (fuel term : ℕ) (readbuf text rest : Bytes) (left : ℕ) (sock : Socket)
      → Arrives sock
      → Lacks term readbuf
      → Lacks term text
      → stream sock ≡ text ++ term ∷ rest
      → length text < left
      → left < fuel
      → Reads term
          (readbuf ++ text)
          rest
          (netfd_loop peek_fails read_fails fuel term readbuf left sock)
  unfolding netfd_loop peek
  netfd_loop-Reads zero term readbuf text rest left sock a lr lt e h f = absurd (omega arith)
  netfd_loop-Reads (suc fuel) term readbuf text rest left [] a lr lt e h f =
      absurd (no_stream text e)
    where
      no_stream : (t : Bytes) → [] ≡ t ++ term ∷ rest → ⊥
      no_stream [] e = cc
      no_stream (c ∷ t) e = cc
  netfd_loop-Reads (suc fuel) term readbuf text rest left (chunk ∷ later) a lr lt e h f =
      let seen = take left chunk in
      let n = length seen in
      let all = chunk ++ stream later in
      let n_def : n ≡ min left (length chunk) = length-take left chunk in
      let n_pos : 0 < n = omega (arith, length-pos chunk a.0) in
      let go_on : (left == 0) ≡ false = ground arith in
      let some_bytes : (n == 0) ≡ false = ground arith in
      let whole : seen ≡ take n (text ++ term ∷ rest) =
        sym (take_more left chunk (stream later)) ∙ ap (take n) e in
      let fits : n ≤ length chunk = omega arith in
      rw (go_on, works.0 (chunk ∷ later), some_bytes)
        (elim (Bool-cases (leb n (length text))) [
          | inl more ↦
              let short : n ≤ length text = leb→le n (length text) more in
              let here : seen ≡ take n text = whole ∙ take_short n text (term ∷ rest) short in
              let parts = Lacks-take term n text lt in
              rw
                (
                  ap (up_to_term term) whole ∙ up_to_term-none term n text (term ∷ rest) lt short,
                  works.1 (chunk ∷ later),
                )
                (let again : readbuf ++ text ≡ (readbuf ++ seen) ++ drop n text = sym (
                    append_assoc readbuf seen (drop n text)
                    ∙ ap (λ k. readbuf ++ k)
                        (ap (λ k. k ++ drop n text) here ∙ take-append-drop n text)) in
                  subst
                    (λ k. Reads term k rest (
                      netfd_loop peek_fails read_fails fuel term (readbuf ++ seen) (left - n)
                        (take_read n (chunk ∷ later))))
                    (sym again)
                    (netfd_loop-Reads fuel term (readbuf ++ seen) (drop n text) rest (left - n)
                      (take_read n (chunk ∷ later)) (take_read-Arrives n chunk later fits a)
                      (All-append _ readbuf seen lr (subst (Lacks term) (sym here) parts.0)) parts.1
                      (take_read-stream n chunk later fits
                        ∙ ap (drop n) e
                        ∙ drop_short n text (term ∷ rest) short)
                      (omega (arith, length-drop n text)) (omega arith)))
          | inr found ↦
              let long : length text < n = ground arith in
              let i = length text + 1 in
              let taken : take i seen ≡ text ++ term ∷ [] =
                ap (take i) whole
                ∙ take-take i n (text ++ term ∷ rest) (omega arith)
                ∙ take_past term text rest in
              rw
                (
                  ap (up_to_term term) whole ∙ up_to_term-some term n text rest lt long,
                  works.1 (chunk ∷ later),
                )
                (
                  ap line (
                      ap (λ k. before term (readbuf ++ k)) taken
                      ∙ ap (before term) (sym (append_assoc readbuf text (term ∷ [])))
                      ∙ before-append term (readbuf ++ text) [] (All-append _ readbuf text lr lt)),
                  take_read-stream i chunk later (omega arith)
                      ∙ ap (drop i) e
                      ∙ drop_split text (term ∷ rest) i 1 refl,
                  take_read-Arrives i chunk later (omega arith) a,
                )
        ])

  -- Where no callback fails, on a stream that starts with a line shorter than the buffer: the result is the line without its
  -- terminator, however the bytes arrive, and the stream is left just behind the terminator.
  pub str_netfd_alloc-Reads :
      (term maxlen : ℕ) (text rest : Bytes) (sock : Socket)
      → Arrives sock
      → Lacks term text
      → stream sock ≡ text ++ term ∷ rest
      → length text < maxlen
      → Reads term text rest (str_netfd_alloc peek_fails read_fails term maxlen sock)
  unfolding str_netfd_alloc
  str_netfd_alloc-Reads term maxlen text rest sock a lt e h =
      netfd_loop-Reads (maxlen + 1) term [] text rest maxlen sock a tt lt e h (omega arith)
