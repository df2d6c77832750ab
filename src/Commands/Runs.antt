-- ===== src/Commands/Runs.antt =====
-- How a run of a command is shown to do only what it may.
use cos_ftp_v.Base.{List, All, All-append, Outcome, ok, bug, die, exit, fault, ◌>>=◌, Returns}
use cos_ftp_v.Commands.{Act, Run, also, ◌>>>◌, quiet}

-- The call returns a value that satisfies `Q`, or ends the process; a bug or a fault takes `B`.
abbrev pub Sound {ℓ} : {A : Type ℓ} → Type 0 → (A → Type 0) → Outcome A → Type 0
Sound B Q (ok a) = Q a
Sound B Q bug = B
Sound B Q fault = B
Sound B Q die = Unit
Sound B Q (exit n) = Unit

-- All that is done satisfies `P`, and the end is sound.
abbrev pub Runs {ℓ} : {A : Type ℓ} → (Act → Type 0) → Type 0 → (A → Type 0) → Run A → Type 0
Runs P B Q run = All P run.0 × Sound B Q run.1

pub Sound-mono {ℓ} :
    {A : Type ℓ} (B C : Type 0) (Q R : A → Type 0) (o : Outcome A)
    → (B → C)
    → ((a : A) → Q a → R a)
    → Sound B Q o
    → Sound C R o
Sound-mono B C Q R (ok a) f k h = k a h
Sound-mono B C Q R bug f k h = f h
Sound-mono B C Q R fault f k h = f h
Sound-mono B C Q R die f k h = tt
Sound-mono B C Q R (exit n) f k h = tt

-- A call that returns is sound, whatever a bug takes.
pub Returns→Sound {ℓ} :
    {A : Type ℓ} (B : Type 0) (Q : A → Type 0) (o : Outcome A) → Returns Q o → Sound B Q o
Returns→Sound B Q (ok a) h = h
Returns→Sound B Q bug h = absurd h
Returns→Sound B Q fault h = absurd h
Returns→Sound B Q die h = tt
Returns→Sound B Q (exit n) h = tt

pub Sound-bind {ℓ κ} :
    {A : Type ℓ} {C : Type κ} (B : Type 0) (Q : A → Type 0) (R : C → Type 0) (o : Outcome A)
    (f : A → Outcome C)
    → Sound B Q o
    → ((a : A) → Q a → Sound B R (f a))
    → Sound B R (o >>= f)
Sound-bind B Q R (ok a) f h k = k a h
Sound-bind B Q R bug f h k = h
Sound-bind B Q R fault f h k = h
Sound-bind B Q R die f h k = tt
Sound-bind B Q R (exit n) f h k = tt

-- Whatever a call ends in, it is sound where a bug takes nothing.
pub Sound-any {ℓ} : {A : Type ℓ} (o : Outcome A) → Sound Unit (λ a. Unit) o
Sound-any (ok a) = tt
Sound-any bug = tt
Sound-any fault = tt
Sound-any die = tt
Sound-any (exit n) = tt

module _ (P : Act → Type 0) (B : Type 0) where
  pub Runs-also {ℓ} :
      {A : Type ℓ} (Q : A → Type 0) (did : List Act) (run : Run A)
      → All P did
      → Runs P B Q run
      → Runs P B Q (also did run)
  Runs-also Q did (more, o) h k = (All-append P did more h k.0, k.1)

  pub Runs-bind {ℓ κ} :
      {A : Type ℓ} {C : Type κ} (Q : A → Type 0) (R : C → Type 0) (run : Run A) (f : A → Run C)
      → Runs P B Q run
      → ((a : A) → Q a → Runs P B R (f a))
      → Runs P B R (run >>> f)
  Runs-bind Q R (did, ok a) f h k = Runs-also R did (f a) h.0 (k a h.1)
  Runs-bind Q R (did, bug) f h k = h
  Runs-bind Q R (did, fault) f h k = h
  Runs-bind Q R (did, die) f h k = h
  Runs-bind Q R (did, exit n) f h k = h

  -- A quiet call and then a run.
  pub quietly {ℓ κ} :
      {A : Type ℓ} {C : Type κ} (Q : A → Type 0) (R : C → Type 0) (o : Outcome A) (f : A → Run C)
      → Sound B Q o
      → ((a : A) → Q a → Runs P B R (f a))
      → Runs P B R (quiet o >>> f)
  quietly Q R o f h k = Runs-bind Q R (quiet o) f (tt, h) k
