-- ===== src/Base/Ending.antt =====
-- What a call of the program ends in: a value, or the end of the process.
use Prim.Native.Nat.{ℕ}
use mathlib.Core.Path.{◌≡◌, refl}

-- `bug` and `die` are the functions of src/utility.c, `exit` is `vsf_sysutil_exit` with its code.
-- `fault` is an access outside a block of memory, on which C gives no meaning.
pub data Outcome {ℓ} (A : Type ℓ) : Type ℓ where
  ok : A → Outcome A
  bug : Outcome A
  die : Outcome A
  exit : ℕ → Outcome A
  fault : Outcome A

infixl 5 ◌>>=◌
abbrev pub ◌>>=◌ {ℓ κ} : {A : Type ℓ} {B : Type κ} → Outcome A → (A → Outcome B) → Outcome B
ok a >>= f = f a
bug >>= f = bug
die >>= f = die
exit n >>= f = exit n
fault >>= f = fault

-- A chain that gives a value goes on from a value of its first call.
pub >>=-eq-ok {ℓ κ} :
    {A : Type ℓ} {B : Type κ} {last : B} (first : Outcome A) (next : A → Outcome B)
    → (first >>= next) ≡ ok last
    → (a : A) × (next a ≡ ok last) × (first ≡ ok a)
>>=-eq-ok (ok a) next h = (a, h, refl)
>>=-eq-ok bug next h = cc
>>=-eq-ok die next h = cc
>>=-eq-ok (exit n) next h = cc
>>=-eq-ok fault next h = cc

-- The call returns a value that satisfies `P`, or stops by `bug` or `die`, which takes `F`.
-- It never faults.
abbrev pub Ends {ℓ} : {A : Type ℓ} → Type 0 → (A → Type 0) → Outcome A → Type 0
Ends F P (ok a) = P a
Ends F P bug = F
Ends F P die = F
Ends F P (exit n) = ⊥
Ends F P fault = ⊥

-- The call returns a value that satisfies `P`.
abbrev pub Returns {ℓ} : {A : Type ℓ} → (A → Type 0) → Outcome A → Type 0
Returns P r = Ends ⊥ P r

pub Ends-bind {ℓ κ} :
    {A : Type ℓ} {B : Type κ} (F : Type 0) (P : A → Type 0) (Q : B → Type 0) (m : Outcome A)
    (f : A → Outcome B)
    → Ends F P m
    → ((a : A) → P a → Ends F Q (f a))
    → Ends F Q (m >>= f)
Ends-bind F P Q (ok a) f h k = k a h
Ends-bind F P Q bug f h k = h
Ends-bind F P Q die f h k = h
Ends-bind F P Q (exit n) f h k = h
Ends-bind F P Q fault f h k = h

pub Ends-mono {ℓ} :
    {A : Type ℓ} (F G : Type 0) (P Q : A → Type 0) (m : Outcome A)
    → (F → G)
    → ((a : A) → P a → Q a)
    → Ends F P m
    → Ends G Q m
Ends-mono F G P Q (ok a) f k h = k a h
Ends-mono F G P Q bug f k h = f h
Ends-mono F G P Q die f k h = f h
Ends-mono F G P Q (exit n) f k h = h
Ends-mono F G P Q fault f k h = h

pub Returns-ok {ℓ} :
    {A : Type ℓ} (P : A → Type 0) (r : Outcome A) → Returns P r → (a : A) × (r ≡ ok a) × P a
Returns-ok P (ok a) h = (a, refl, h)
Returns-ok P bug h = elim h [ ]
Returns-ok P die h = elim h [ ]
Returns-ok P (exit n) h = elim h [ ]
Returns-ok P fault h = elim h [ ]
