-- ===== src/Commands/Answered.antt =====
-- Replies to commands: what a reply is, and how a run is shown to write one.
pub mod Transfers
pub mod Handlers
pub mod Downloads
pub mod Uploads
pub mod Branches
pub mod Rounds
use cos_ftp_v.Base.{
  ℕ, zero, suc, ◌+◌, ◌-◌, ◌*◌, ◌/◌, ◌%◌, ◌^◌, ◌≤◌, ◌<◌, min, max, ◌≡◌, refl, sym, ap, ◌∙◌, subst,
  ◌≢◌, ◌↔◌, ◌⊎◌, inl, inr, Bool, true, false, not, ◌&&◌, ◌||◌, Option, none, some, List, [], ◌∷◌,
  ◌++◌, map, append-nil, append_assoc, arith, Bytes, codes, uint_mod, ltb, leb, ◌==◌, if◌then◌else◌,
  ltb→lt, lt→ltb, le→ltb, lt→leb, leb→le, le→leb, ==_iff, ==_refl, Bool-cases, Option-cases,
  if_elim, tests, length, get_elem?, set, take, drop, replicate, length-append, length-take,
  length-drop, length-replicate, length-set, take-append-drop, take-length_append,
  drop-length_append, take-length, take-all, drop_split, drop_add, any_of, All, All-append,
  All-left, All-right, all_of, Outcome, ok, bug, die, exit, fault, ◌>>=◌, >>=-eq-ok, Ends, Returns,
  Ends-bind, Ends-mono, Returns-ok,
}
use cos_ftp_v.Session.{reply}
use cos_ftp_v.Commands.{Client, Act, said, Run, also, ◌>>>◌, quiet}

-- The last line of a reply.
abbrev pub is_reply : Act → Bool
is_reply (said (reply status text)) = true
is_reply act = false

abbrev pub replied : List Act → Bool
replied did = any_of is_reply did

-- A run that returns a value has replied, or its value satisfies `R`.
abbrev pub Replies {ℓ} : {A : Type ℓ} → (A → Type 0) → Run A → Type 0
Replies R (did, ok a) = (replied did ≡ true) ⊎ R a
Replies R (did, bug) = Unit
Replies R (did, fault) = Unit
Replies R (did, die) = Unit
Replies R (did, exit n) = Unit

-- The data connection has timed out, so that the session ends after this command.
abbrev pub TimedOut : Client → Type 0
TimedOut s = s.data_timeout ≡ true

abbrev pub Answers : Run Client → Type 0
Answers run = Replies TimedOut run

-- Of a run with a flag: where the flag is off, it has replied or timed out.
abbrev pub Tells : Run (Bool × Client) → Type 0
Tells run = Replies (λ r. (r.0 ≡ true) ⊎ TimedOut r.1) run

replied-left : (a b : List Act) → replied a ≡ true → replied (a ++ b) ≡ true
replied-left [] b h = absurd cc
replied-left (x ∷ a) b h = ground (arith, replied-left a b)

pub replied-right : (a b : List Act) → replied b ≡ true → replied (a ++ b) ≡ true
replied-right [] b h = h
replied-right (x ∷ a) b h = ground (arith, replied-right a b h)

pub also-replied {ℓ} :
    {A : Type ℓ} (R : A → Type 0) (did : List Act) (run : Run A)
    → replied did ≡ true
    → Replies R (also did run)
also-replied R did (more, ok a) h = inl (replied-left did more h)
also-replied R did (more, bug) h = tt
also-replied R did (more, fault) h = tt
also-replied R did (more, die) h = tt
also-replied R did (more, exit n) h = tt

pub Replies-also {ℓ} :
    {A : Type ℓ} (R : A → Type 0) (did : List Act) (run : Run A)
    → Replies R run
    → Replies R (also did run)
Replies-also R did (more, ok a) (inl h) = inl (replied-right did more h)
Replies-also R did (more, ok a) (inr h) = inr h
Replies-also R did (more, bug) h = tt
Replies-also R did (more, fault) h = tt
Replies-also R did (more, die) h = tt
Replies-also R did (more, exit n) h = tt

pub Replies-bind {ℓ κ} :
    {A : Type ℓ} {C : Type κ} (R : A → Type 0) (S : C → Type 0) (run : Run A) (f : A → Run C)
    → Replies R run
    → ((a : A) → R a → Replies S (f a))
    → Replies S (run >>> f)
Replies-bind R S (did, ok a) f (inl h) k = also-replied S did (f a) h
Replies-bind R S (did, ok a) f (inr h) k = Replies-also S did (f a) (k a h)
Replies-bind R S (did, bug) f h k = tt
Replies-bind R S (did, fault) f h k = tt
Replies-bind R S (did, die) f h k = tt
Replies-bind R S (did, exit n) f h k = tt

-- Whatever a first part does, a run answers if what follows does.
pub followed {ℓ κ} :
    {A : Type ℓ} {C : Type κ} (S : C → Type 0) (run : Run A) (f : A → Run C)
    → ((a : A) → Replies S (f a))
    → Replies S (run >>> f)
followed S (did, ok a) f k = Replies-also S did (f a) (k a)
followed S (did, bug) f k = tt
followed S (did, fault) f k = tt
followed S (did, die) f k = tt
followed S (did, exit n) f k = tt

pub quiet-followed {ℓ κ} :
    {A : Type ℓ} {C : Type κ} (S : C → Type 0) (o : Outcome A) (f : A → Run C)
    → ((a : A) → Replies S (f a))
    → Replies S (quiet o >>> f)
quiet-followed S o f k = followed S (quiet o) f k
