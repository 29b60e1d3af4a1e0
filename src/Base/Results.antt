-- ===== src/Base/Results.antt =====
-- The outcome of code that may throw, fail an assertion or run into undefined behaviour.
use mathlib.Core.Path.{◌≡◌, refl, ap}
use mathlib.Core.Bool.{Bool, true, false}
use mathlib.Core.Option.{Option, none, some}

pub data Fault : Type 0 where
  -- an exception of the bencode parser
  syntax_error : Fault
  -- `std::bad_variant_access` of `std::get`
  bad_variant : Fault
  -- `std::out_of_range` of `at`
  out_of_range : Fault
  -- a division by zero
  divide_by_zero : Fault
  -- an `assert` that fails
  failed_assert : Fault
  -- a read or a write outside an object
  out_of_bounds : Fault
  -- `*o` at an empty `optional`
  empty_optional : Fault
  -- the model's own: a loop was given too few rounds
  out_of_fuel : Fault

pub data Outcome {ℓ} (A : Type ℓ) : Type ℓ where
  ok : A → Outcome A
  fault : Fault → Outcome A

infixl 5 ◌>>=◌ ◌>>◌
abbrev pub ◌>>=◌ {ℓ κ} : {A : Type ℓ} {B : Type κ} → Outcome A → (A → Outcome B) → Outcome B
ok a >>= f = f a
fault e >>= f = fault e

abbrev pub ◌>>◌ {ℓ} : {B : Type ℓ} → Outcome (Unit {0}) → Outcome B → Outcome B
m >> k = m >>= λ _. k

abbrev pub guard : Bool → Fault → Outcome (Unit {0})
guard true e = ok tt
guard false e = fault e

abbrev pub or_fault {ℓ} : {A : Type ℓ} → Option A → Fault → Outcome A
or_fault none e = fault e
or_fault (some a) e = ok a

-- A chain that gives a value: its first step gives one, and the rest goes on from there.
pub >>=-eq-ok {ℓ κ} :
    {A : Type ℓ} {B : Type κ} (first : Outcome A) (rest : A → Outcome B) {last : B}
    → (first >>= rest) ≡ ok last
    → (middle : A) × (first ≡ ok middle) × (rest middle ≡ ok last)
>>=-eq-ok (fault e) rest all = cc
>>=-eq-ok (ok middle) rest all = (middle, refl, all)

-- The value behind `ok`, or the given one.
abbrev pub value_or {ℓ} : {A : Type ℓ} → A → Outcome A → A
value_or d (ok a) = a
value_or d (fault e) = d

pub ok-injective {ℓ} : {A : Type ℓ} {a b : A} → ok a ≡ ok b → a ≡ b
ok-injective {a} e = ap (value_or a) e

pub fault-ne-ok {ℓ} : {A : Type ℓ} {a : A} {f : Fault} → ¬ (fault f ≡ ok a)
fault-ne-ok e = cc
