-- ===== src/Prelude/Outcomes.antt =====
-- What a run of a pass or of a decoder gives: a result, an exception, or no fuel left.
use Prim.Native.Nat.{ℕ}
use Prim.Native.String.{String}
use mathlib.Core.Path.{◌≡◌, refl}
use mathlib.Core.List.{List, [], ◌∷◌}
use mathlib.Core.Option.{Option, none, some}

-- `dangling` is a reference to no node: undefined behaviour, which the program never meets.
pub data Error : Type 0 where
  runtime_error : String → Error
  bad_sum_index : (index variants : ℕ) → Error
  aborted dangling : Error

pub data Outcome {ℓ} (A : Type ℓ) : Type ℓ where
  ok : A → Outcome A
  err : Error → Outcome A
  out_of_fuel : Outcome A

infixl 5 ◌>>=◌
abbrev pub ◌>>=◌ {ℓ κ} : {A : Type ℓ} {B : Type κ} → Outcome A → (A → Outcome B) → Outcome B
ok a >>= f = f a
err e >>= f = err e
out_of_fuel >>= f = out_of_fuel

abbrev pub of_option {ℓ} : {A : Type ℓ} → Error → Option A → Outcome A
of_option e none = err e
of_option e (some a) = ok a

pub >>=-eq-ok {ℓ κ} :
    {A : Type ℓ} {B : Type κ} (first : Outcome A) (next : A → Outcome B) {last : B}
    → (first >>= next) ≡ ok last
    → (middle : A) × (first ≡ ok middle) × (next middle ≡ ok last)
>>=-eq-ok out_of_fuel next h = cc
>>=-eq-ok (err _) next h = cc
>>=-eq-ok (ok middle) next h = (middle, refl, h)

-- `for (x : xs) body(x)`, the state threaded through.
module _ {ℓ κ} {X : Type ℓ} {S : Type κ} (body : X → S → Outcome S) where
  abbrev pub for_each : List X → S → Outcome S
  for_each [] s = ok s
  for_each (x ∷ xs) s = body x s >>= for_each xs

pub ok-injective {ℓ} : {A : Type ℓ} {a b : A} → ok a ≡ ok b → a ≡ b
ok-injective h = cc
