-- ===== src/Listing/Total.antt =====
-- The end of `vsf_filename_passes_filter`: its fuel, and the guards of the calls that it makes.
use cos_ftp_v.Base.{
  ℕ, zero, suc, ◌+◌, ◌-◌, ◌≤◌, ◌<◌, ◌≡◌, ◌≢◌, Bool, true, false, not, ◌||◌, Option, none, some, [],
  ◌∷◌, ◌++◌, arith, Bytes, codes, ltb, leb, ◌==◌, if_elim, length, All-append, Returns, Ends-bind,
  Ends-mono,
}
use cos_ftp_v.Str.Edit.{is_empty}
use cos_ftp_v.Str.Locate.{str_locate_chars, str_locate_char}
use cos_ftp_v.Str.Split.{str_right, str_get_char_at, str_split_char}
use cos_ftp_v.Listing.Pieces.{
  HasNoZero, IsCut, split-IsCut, chars_within, IsPiece, piece_at-IsPiece, need-Returns,
}
use cos_ftp_v.Listing.{
  matchiters_max, Piece, piece_at, need, Verdict, Rest, skip_one, try_each, open_brace, after_token,
  go_on_with, filter_loop, vsf_filename_passes_filter,
}

-- What a call makes of `*iters` is no less.
abbrev IsLater : ℕ → Verdict → Type 0
IsLater j r = j ≤ r.1

module _ (j : ℕ) (rest : Rest)
    (fine : (name filter : Bytes) (i token : ℕ) (must : Bool)
      → j ≤ i
      → HasNoZero filter
      → Returns (IsLater j) (rest name filter i token must)) where
  skip_one-IsLater :
      (name filter : Bytes) (i token : ℕ)
      → j ≤ i
      → HasNoZero filter
      → Returns (IsLater j) (skip_one rest name filter i token)
  unfolding skip_one str_right
  skip_one-IsLater name filter i token l h =
      rw (shorter (length name)) (fine _ filter i token true l h)
    where
      shorter : (n : ℕ) → ltb n (n - 1) ≡ false
      shorter n = ground arith

  try_each-IsLater :
      (fuel : ℕ) (name alternative others behind : Bytes) (i : ℕ)
      → length alternative + length others < fuel
      → j ≤ i
      → HasNoZero alternative
      → HasNoZero others
      → HasNoZero behind
      → Returns
          (IsLater j)
          (try_each fuel (λ f i. rest name f i 0 true) alternative others behind i)
  unfolding try_each is_empty
  try_each-IsLater zero name alternative others behind i f l a o b = absurd (omega arith)
  try_each-IsLater (suc fuel) name [] others behind i f l a o b = l
  try_each-IsLater (suc fuel) name (c ∷ alternative) others behind i f l a o b =
      Ends-bind ⊥ (IsLater j) (IsLater j) (rest name ((c ∷ alternative) ++ behind) i 0 true) _
        (fine name ((c ∷ alternative) ++ behind) i 0 true l
          (All-append (λ d. d ≢ 0) (c ∷ alternative) behind a b))
        (λ r k.
          if_elim (Returns (IsLater j)) r.0 _ _ (λ e. k)
            (λ e.
              Ends-bind ⊥ (λ p. IsCut others p.0 p.1) (IsLater j) (str_split_char others b',') _
                (split-IsCut others b',' (λ e. absurd cc) o)
                (λ p q.
                  try_each-IsLater fuel name p.0 p.1 behind r.1 (omega (arith, q.0)) k q.1 q.2 b)))

  open_brace-IsLater :
      (name filter : Bytes) (i : ℕ) (o : Option ℕ)
      → j ≤ i
      → HasNoZero filter
      → Returns (IsLater j) (open_brace rest name filter i o)
  unfolding open_brace is_empty str_get_char_at
  open_brace-IsLater name filter i (some at) l h =
      Ends-bind ⊥ (λ p. IsCut filter p.0 p.1) (IsLater j) (str_split_char filter b'}') _
        (split-IsCut filter b'}' (λ e. absurd cc) h)
        (λ p k.
          Ends-bind ⊥ (λ q. IsCut p.0 q.0 q.1) (IsLater j) (str_split_char p.0 b',') _
            (split-IsCut p.0 b',' (λ e. absurd cc) k.1)
            (λ q m.
              try_each-IsLater (length p.0 + 1) name q.0 q.1 p.1 i (omega (arith, m.0)) l m.1 m.2
                k.2))
  open_brace-IsLater [] filter i none l h = l
  open_brace-IsLater (c ∷ name) filter i none l h =
      if_elim (Returns (IsLater j)) (not (c == b'{')) _ _ (λ e. l)
        (λ e. skip_one-IsLater (c ∷ name) filter i b'{' l h)

  after_token-IsLater :
      (name filter : Bytes) (i token : ℕ)
      → j ≤ i
      → HasNoZero filter
      → Returns (IsLater j) (after_token rest name filter i token)
  unfolding after_token
  after_token-IsLater name filter i token l h =
      if_elim (Returns (IsLater j)) (token == b'?') _ _
        (λ e.
          if_elim (Returns (IsLater j)) (is_empty name) _ _ (λ e. l)
            (λ e. skip_one-IsLater name filter i token l h))
        (λ e.
          if_elim (Returns (IsLater j)) (token == b'{') _ _
            (λ e. open_brace-IsLater name filter i (str_locate_char filter b'}') l h)
            (λ e. fine name filter i token false l h))

  go_on_with-IsLater :
      (piece : Piece) (i : ℕ) (o : Option Bytes)
      → j ≤ i
      → IsPiece piece
      → Returns (IsLater j) (go_on_with rest piece i o)
  unfolding go_on_with
  go_on_with-IsLater piece i none l h = l
  go_on_with-IsLater piece i (some name) l h =
      after_token-IsLater name piece.filter_remain i piece.last_token l h.1

filter_loop-IsLater :
    (fuel : ℕ) (name filter : Bytes) (i token : ℕ) (must : Bool)
    → 0 < fuel
    → matchiters_max < fuel + i
    → HasNoZero filter
    → Returns (IsLater i) (filter_loop fuel name filter i token must)
unfolding filter_loop str_locate_chars
filter_loop-IsLater zero name filter i token must f m h = absurd (omega arith)
filter_loop-IsLater (suc fuel) name filter i token must f m h =
    if_elim (Returns (IsLater i)) (is_empty filter || leb matchiters_max i) _ _ (λ e. omega arith)
      (λ e.
        let early : i < matchiters_max = not_yet (is_empty filter) e in
        Ends-bind ⊥ IsPiece (IsLater i) (piece_at filter (str_locate_chars filter (codes "*?{"))) _
          (piece_at-IsPiece filter (str_locate_chars filter (codes "*?{")) h
            (λ r k. omega (arith, chars_within 0 filter (codes "*?{") r k)))
          (λ piece p.
            Ends-bind ⊥ (λ o. Unit) (IsLater i) (need name piece.match_needed must) _
              (need-Returns name piece.match_needed must p.0)
              (λ o u.
                Ends-mono ⊥ ⊥ (IsLater (i + 1)) (IsLater i)
                  (go_on_with (filter_loop fuel) piece (i + 1) o) (λ impossible. impossible)
                  (λ r k. omega (arith, k))
                  (go_on_with-IsLater (i + 1) (filter_loop fuel)
                    (λ n2 f2 i2 t2 m2 l2 h2.
                      Ends-mono ⊥ ⊥ (IsLater i2) (IsLater (i + 1)) (filter_loop fuel n2 f2 i2 t2 m2)
                        (λ impossible. impossible) (λ r k. omega (arith, k, l2))
                        (filter_loop-IsLater fuel n2 f2 i2 t2 m2 (omega (arith, early, m))
                          (omega (arith, l2, m)) h2))
                    piece (i + 1) o (omega arith) p))))
  where
    not_yet : (b : Bool) → (b || leb matchiters_max i) ≡ false → i < matchiters_max
    not_yet b e = ground (arith, e)

pub passes_filter-Returns :
    (name filter : Bytes)
    → HasNoZero filter
    → Returns (λ r. Unit) (vsf_filename_passes_filter name filter 0)
unfolding vsf_filename_passes_filter
passes_filter-Returns name filter h =
    Ends-mono ⊥ ⊥ (IsLater 0) (λ r. Unit)
      (filter_loop (matchiters_max + 1 - 0) name filter 0 0 true) (λ impossible. impossible)
      (λ r k. tt)
      (filter_loop-IsLater (matchiters_max + 1 - 0) name filter 0 0 true (omega arith) (omega arith)
        h)
