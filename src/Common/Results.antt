-- ===== src/Common/Results.antt =====
-- Go's error results: a value or an error, and checks that stop at the first error.
use mathlib.Core.Path.{◌≡◌, refl}
use mathlib.Core.Logic.{◌⊎◌, inl, inr}
use mathlib.Core.Bool.{Bool, false}
use mathlib.Core.Option.{Option, none, some}
use mathlib.Core.List.{List, [], ◌∷◌}
use Prim.Native.Nat.{ℕ, suc}
use native.Mathlib.Omega.{arith}
use xboard_node_win.Common.Tests.{if◌then◌else◌}

-- `(value, error)`, one of the two.
pub data Result {ℓ κ} (E : Type ℓ) (A : Type κ) : Type (ℓ ⊔ κ) where
  ok : A → Result E A
  error : E → Result E A

module _ {ℓ} {E : Type ℓ} where
  -- `if bad { return err }`, then the rest; `none` is the nil error.
  abbrev pub fail_if : Bool → E → Option E → Option E
  fail_if bad e rest = if bad then some e else rest

  -- `if err := first; err != nil { return err }`, then the rest.
  abbrev pub or_else : Option E → Option E → Option E
  or_else none rest = rest
  or_else (some e) rest = some e

  -- The first error of a loop `for i, x := range xs`, from the index `i` on.
  unfoldable pub first_error {κ} : {A : Type κ} → (ℕ → A → Option E) → ℕ → List A → Option E
  first_error f i [] = none
  first_error f i (x ∷ xs) = or_else (f i x) (first_error f (suc i) xs)

  -- The loop ends without an error exactly if no element has one.
  pub fail_if-none :
      (bad : Bool) (e : E) (rest : Option E)
      → fail_if bad e rest ≡ none
      → (bad ≡ false) × (rest ≡ none)
  fail_if-none bad e rest h = ground (arith, h)

  pub or_else-none : (a b : Option E) → or_else a b ≡ none → (a ≡ none) × (b ≡ none)
  or_else-none none b h = (refl, h)
  or_else-none (some e) b h = cc

-- To split on a computed result and keep the equation.
pub Result-cases {ℓ κ} :
    {E : Type ℓ} {A : Type κ} (r : Result E A) → ((a : A) × (r ≡ ok a)) ⊎ ((e : E) × (r ≡ error e))
Result-cases (ok a) = inl (a, refl)
Result-cases (error e) = inr (e, refl)
