-- ===== src/Common/Sets.antt =====
-- Sets of keys as Go keeps them, maps to the empty struct, and lists without repetition.
use mathlib.Core.Path.{◌≡◌, refl}
use mathlib.Core.Logic.{◌↔◌}
use mathlib.Core.Bool.{Bool, false, ◌||◌}
use mathlib.Core.List.{List, [], ◌∷◌}
use native.Mathlib.Omega.{arith}
use xboard_node_win.Common.Tests.{is_some}
use xboard_node_win.Common.Key.{Key, ◌==ₖ◌}
use xboard_node_win.Common.Maps.{Dict, lookup, insert, lookup-insert}

-- `map[K]struct{}`
abbrev pub Keys {ℓ} : Type ℓ → Type ℓ
Keys K = Dict {ℓ, 0} K Unit

module _ {ℓ} {K : Type ℓ} ⦃e : Key K⦄ where
  abbrev pub in_list : K → List K → Bool
  in_list k [] = false
  in_list k (j ∷ ks) = (j ==ₖ k) || in_list k ks

  -- No key is listed twice.
  abbrev pub Distinct : List K → Type 0
  Distinct [] = Unit
  Distinct (k ∷ ks) = (in_list k ks ≡ false) × Distinct ks

  -- No key of the list is in the map.
  abbrev pub AllNew {κ} : {V : Type κ} → Dict K V → List K → Type 0
  AllNew m [] = Unit
  AllNew m (k ∷ ks) = (is_some (lookup k m) ≡ false) × AllNew m ks

  pub AllNew-nil {κ} : (V : Type κ) (ks : List K) → AllNew {V = V} [] ks
  unfolding lookup
  AllNew-nil V [] = tt
  AllNew-nil V (k ∷ ks) = (refl, AllNew-nil V ks)

  -- A further key in the map is a further key that the list must not have.
  pub AllNew-insert {κ} :
      {V : Type κ} (k : K) (v : V) (m : Dict K V) (ks : List K)
      → AllNew (insert k v m) ks ↔ (AllNew m ks × (in_list k ks ≡ false))
  AllNew-insert k v m [] = ((λ h. (tt, refl)), (λ h. tt))
  AllNew-insert k v m (j ∷ ks) =
      ground (arith, lookup-insert j k v m, AllNew-insert k v m ks, e.beq_iff k j, e.beq_iff j k)
