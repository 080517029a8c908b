-- ===== src/Prelude/Results.antt =====
-- Go's `(value, error)` results, and runs that may panic.
use Prim.Native.String.{String}
use Prim.Native.Nat.{ℕ}
use mathlib.Core.Path.{◌≡◌, refl}
use mathlib.Core.Bool.{Bool, true, false}
use mathlib.Core.Option.{Option, none, some}
use mathlib.Core.Logic.{◌⊎◌, inl, inr}

-- The errors that the source compares or builds. `library n` is an error of a library, by number.
pub data Error : Type 0 where
  not_leader key_not_found writes_disabled nothing_new_to_snapshot not_found : Error
  message : String → Error
  wrapped : String → Error → Error
  library : ℕ → Error

abbrev pub is_not_leader : Error → Bool
is_not_leader not_leader = true
is_not_leader _ = false

abbrev pub is_nothing_new : Error → Bool
is_nothing_new nothing_new_to_snapshot = true
is_nothing_new _ = false

abbrev pub is_not_found : Error → Bool
is_not_found not_found = true
is_not_found _ = false

pub data Result {ℓ} (A : Type ℓ) : Type ℓ where
  ok : A → Result A
  err : Error → Result A

pub ok-injective {ℓ} : {A : Type ℓ} (a b : A) → ok a ≡ ok b → a ≡ b
ok-injective a b h = cc

pub Result-cases {ℓ} :
    {A : Type ℓ} (r : Result A) → ((a : A) × (r ≡ ok a)) ⊎ ((e : Error) × (r ≡ err e))
Result-cases (ok a) = inl (a, refl)
Result-cases (err e) = inr (e, refl)

-- A Go call returns or panics, or it is still in a loop that retries after as many rounds as the
-- model's fuel allows.
pub data Outcome {ℓ} (A : Type ℓ) : Type ℓ where
  returns : A → Outcome A
  panics : Outcome A
  waits : Outcome A

infixl 5 ◌>>=◌
abbrev pub ◌>>=◌ {ℓ κ} : {A : Type ℓ} {B : Type κ} → Outcome A → (A → Outcome B) → Outcome B
returns a >>= f = f a
panics >>= f = panics
waits >>= f = waits

pub >>=-eq-returns {ℓ κ} :
    {A : Type ℓ} {B : Type κ} (m : Outcome A) (f : A → Outcome B) {b : B}
    → (m >>= f) ≡ returns b
    → (a : A) × (m ≡ returns a) × (f a ≡ returns b)
>>=-eq-returns (returns a) f h = (a, refl, h)
>>=-eq-returns panics f h = cc
>>=-eq-returns waits f h = cc

-- The call returns, and what it returns has the property.
abbrev pub Returns {ℓ} : {A : Type ℓ} → Outcome A → (A → Type 0) → Type 0
Returns (returns a) P = P a
Returns panics P = ⊥
Returns waits P = ⊥

pub returns-injective {ℓ} : {A : Type ℓ} (a b : A) → returns a ≡ returns b → a ≡ b
returns-injective a b h = cc

pub Returns-bind {ℓ} :
    {A B : Type ℓ} (m : Outcome A) (f : A → Outcome B) (P : A → Type 0) (Q : B → Type 0)
    → Returns m P
    → ((a : A) → P a → Returns (f a) Q)
    → Returns (m >>= f) Q
Returns-bind (returns a) f P Q h k = k a h
Returns-bind panics f P Q h k = elim h [ ]
Returns-bind waits f P Q h k = elim h [ ]

pub Returns-map {ℓ} :
    {A : Type ℓ} (m : Outcome A) (P Q : A → Type 0)
    → Returns m P
    → ((a : A) → P a → Q a)
    → Returns m Q
Returns-map (returns a) P Q h k = k a h
Returns-map panics P Q h k = elim h [ ]
Returns-map waits P Q h k = elim h [ ]

-- The value that a call returns.
pub Returns-value {ℓ} :
    {A : Type ℓ} (m : Outcome A) (P : A → Type 0) → Returns m P → (a : A) × (m ≡ returns a) × P a
Returns-value (returns a) P h = (a, refl, h)
Returns-value panics P h = elim h [ ]
Returns-value waits P h = elim h [ ]

-- The call comes to an end: it returns with the property, or panics.
abbrev pub Ends {ℓ} : {A : Type ℓ} → Outcome A → (A → Type 0) → Type 0
Ends (returns a) P = P a
Ends panics P = Unit
Ends waits P = ⊥

pub Ends-bind {ℓ} :
    {A B : Type ℓ} (m : Outcome A) (f : A → Outcome B) (P : A → Type 0) (Q : B → Type 0)
    → Ends m P
    → ((a : A) → P a → Ends (f a) Q)
    → Ends (m >>= f) Q
Ends-bind (returns a) f P Q h k = k a h
Ends-bind panics f P Q h k = tt
Ends-bind waits f P Q h k = elim h [ ]

pub Ends-not_waits {ℓ} : {A : Type ℓ} (m : Outcome A) (P : A → Type 0) → Ends m P → m ≡ waits → ⊥
Ends-not_waits m P h e = rw e at h

-- `none` is Go's nil error.
abbrev pub failed : Option Error → Bool
failed none = false
failed (some e) = true
