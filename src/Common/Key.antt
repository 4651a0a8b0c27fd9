-- ===== src/Common/Key.antt =====
-- Keys of a Go map: a type with a decided equality.
use mathlib.Core.Path.{◌≡◌, refl}
use mathlib.Core.Logic.{◌↔◌}
use mathlib.Core.Bool.{Bool, true, false}
use mathlib.Core.List.{List, [], ◌∷◌}
use native.Mathlib.Omega.{arith}
use Prim.Native.Nat.{ℕ}
use xboard_node_win.Common.Tests.{◌==◌, ==_iff, if◌then◌else◌}
use xboard_node_win.Common.Int.{ℤ, beq_ℤ, beq_ℤ_iff}

pub record Key {ℓ} (A : Type ℓ) : Type ℓ where
  pub beq : A → A → Bool
  pub beq_iff : (a b : A) → (beq a b ≡ true) ↔ (a ≡ b)

infix 50 ◌==ₖ◌
abbrev pub ◌==ₖ◌ {ℓ} : {A : Type ℓ} ⦃k : Key A⦄ → A → A → Bool
◌==ₖ◌ ⦃k⦄ = k.beq

instance abbrev pub nat_key : Key ℕ
nat_key = record { beq = ◌==◌; beq_iff = ==_iff }

instance abbrev pub int_key : Key ℤ
int_key = record { beq = beq_ℤ; beq_iff = beq_ℤ_iff }

-- Equality of byte strings.
abbrev pub beq_text : List ℕ → List ℕ → Bool
beq_text [] [] = true
beq_text [] (b ∷ bs) = false
beq_text (a ∷ as') [] = false
beq_text (a ∷ as') (b ∷ bs) = if a == b then beq_text as' bs else false

pub beq_text_sound : (a b : List ℕ) → beq_text a b ≡ true → a ≡ b
beq_text_sound [] [] h = refl
beq_text_sound [] (b ∷ bs) h = cc
beq_text_sound (a ∷ as') [] h = cc
beq_text_sound (a ∷ as') (b ∷ bs) h = ground (arith, beq_text_sound as' bs)

pub beq_text_refl : (a : List ℕ) → beq_text a a ≡ true
beq_text_refl [] = refl
beq_text_refl (a ∷ as') = ground (arith, beq_text_refl as')

pub beq_text_iff : (a b : List ℕ) → (beq_text a b ≡ true) ↔ (a ≡ b)
beq_text_iff a b = (beq_text_sound a b, λ e. rw e (beq_text_refl b))

instance abbrev pub text_key : Key (List ℕ)
text_key = record { beq = beq_text; beq_iff = beq_text_iff }
