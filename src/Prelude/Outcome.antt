-- ===== src/Prelude/Outcome.antt =====
-- Python exceptions as values. A raise inside `with factory.begin()` rolls the transaction back, so
-- an error carries no state.
use Prim.Native.Nat.{ℕ}
use Prim.Native.String.{String}
use mathlib.Core.Path.{◌≡◌, refl}
use mathlib.Core.Bool.{Bool, true, false}
use ai_auto_test_platform.Prelude.Tests.{if◌then◌else◌}

pub data Error : Type 0 where
  -- `RuntimeError(message)`
  runtime_error : String → Error
  -- `KeyError(key)`
  key_error : String → Error
  -- `IndexError(message)` and `OverflowError(message)`
  index_error : String → Error
  overflow_error : String → Error
  -- `ValueError(message)`
  value_error : String → Error
  -- `PlatformError(status=, code=, detail=)`
  platform_error : ℕ → String → String → Error

pub data Result {ℓ} (A : Type ℓ) : Type ℓ where
  ok : A → Result A
  err : Error → Result A

infixl 5 ◌>>=◌ ◌>>◌
abbrev pub ◌>>=◌ {ℓ κ} : {A : Type ℓ} {B : Type κ} → Result A → (A → Result B) → Result B
ok a >>= next = next a
err e >>= next = err e

abbrev pub ◌>>◌ {ℓ} : {B : Type ℓ} → Result (Unit {0}) → Result B → Result B
m >> next = m >>= λ _. next

-- `if not test: raise e`
abbrev pub require : Bool → Error → Result (Unit {0})
require true e = ok tt
require false e = err e

-- What holds of the value, if there is one.
abbrev pub Ensures {ℓ κ} : {A : Type ℓ} → (A → Type κ) → Result A → Type κ
Ensures P (ok a) = P a
Ensures P (err e) = Unit

-- There is a value, and this holds of it.
abbrev pub Returns {ℓ} : {A : Type ℓ} → (A → Type 0) → Result A → Type 0
Returns P (ok a) = P a
Returns P (err e) = ⊥

-- What holds of the error, if there is one.
abbrev pub Refuses {ℓ} : {A : Type ℓ} → (Error → Type 0) → Result A → Type 0
Refuses P (ok a) = Unit
Refuses P (err e) = P e

pub Refuses-bind {ℓ ℓ'} :
    {A : Type ℓ} {B : Type ℓ'} (P : Error → Type 0) (m : Result A) (f : A → Result B)
    → Refuses P m
    → ((a : A) → Refuses P (f a))
    → Refuses P (m >>= f)
Refuses-bind P (ok a) f p k = k a
Refuses-bind P (err e) f p k = p

pub Refuses-require :
    (P : Error → Type 0) (test : Bool) (e : Error) → P e → Refuses P (require test e)
Refuses-require P true e p = tt
Refuses-require P false e p = p

pub Returns-bind {ℓ ℓ'} :
    {A : Type ℓ} {B : Type ℓ'} (P : A → Type 0) (Q : B → Type 0) (m : Result A) (f : A → Result B)
    → Returns P m
    → ((a : A) → P a → Returns Q (f a))
    → Returns Q (m >>= f)
Returns-bind P Q (ok a) f p k = k a p
Returns-bind P Q (err e) f p k = absurd p

pub Ensures-bind {ℓ ℓ' κ κ'} :
    {A : Type ℓ} {B : Type ℓ'} (P : A → Type κ) (Q : B → Type κ') (m : Result A) (f : A → Result B)
    → Ensures P m
    → ((a : A) → P a → Ensures Q (f a))
    → Ensures Q (m >>= f)
Ensures-bind P Q (ok a) f p k = k a p
Ensures-bind P Q (err e) f p k = tt

-- The rest of a block may use that its first step returned.
pub Ensures-bind_eq {ℓ ℓ' κ} :
    {A : Type ℓ} {B : Type ℓ'} (Q : B → Type κ) (m : Result A) (f : A → Result B)
    → ((a : A) → m ≡ ok a → Ensures Q (f a))
    → Ensures Q (m >>= f)
Ensures-bind_eq Q (ok a) f k = k a refl
Ensures-bind_eq Q (err e) f k = tt

-- What holds of every value holds of the one returned.
pub Ensures-all {ℓ κ} : {A : Type ℓ} (P : A → Type κ) (m : Result A) → ((a : A) → P a) → Ensures P m
Ensures-all P (ok a) k = k a
Ensures-all P (err e) k = tt

-- The rest of a block may use the test of a guard before it.
pub Ensures-require {ℓ κ} :
    {B : Type ℓ} (Q : B → Type κ) (test : Bool) (e : Error) (m : Result B)
    → (test ≡ true → Ensures Q m)
    → Ensures Q (require test e >> m)
Ensures-require Q true e m k = k refl
Ensures-require Q false e m k = tt

pub Ensures-if {ℓ κ} :
    {A : Type ℓ} (Q : A → Type κ) (b : Bool) (m n : Result A)
    → (b ≡ true → Ensures Q m)
    → (b ≡ false → Ensures Q n)
    → Ensures Q (if b then m else n)
Ensures-if Q true m n km kn = km refl
Ensures-if Q false m n km kn = kn refl

pub Ensures-mono {ℓ κ κ'} :
    {A : Type ℓ} (P : A → Type κ) (Q : A → Type κ') (m : Result A)
    → Ensures P m
    → ((a : A) → P a → Q a)
    → Ensures Q m
Ensures-mono P Q (ok a) p k = k a p
Ensures-mono P Q (err e) p k = tt

pub Returns-mono {ℓ} :
    {A : Type ℓ} (P Q : A → Type 0) (m : Result A)
    → Returns P m
    → ((a : A) → P a → Q a)
    → Returns Q m
Returns-mono P Q (ok a) p k = k a p
Returns-mono P Q (err e) p k = absurd p

pub Returns-if {ℓ} :
    {A : Type ℓ} (P : A → Type 0) (b : Bool) (m n : Result A)
    → (b ≡ true → Returns P m)
    → (b ≡ false → Returns P n)
    → Returns P (if b then m else n)
Returns-if P true m n km kn = km refl
Returns-if P false m n km kn = kn refl

pub Returns-Ensures {ℓ} :
    {A : Type ℓ} (P : A → Type 0) (m : Result A)
    → Returns (λ _. Unit {0}) m
    → Ensures P m
    → Returns P m
Returns-Ensures P (ok a) r p = p
Returns-Ensures P (err e) r p = absurd r
