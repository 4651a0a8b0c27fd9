-- ===== src/Common/Decimal.antt =====
-- `strconv.Itoa` and `strconv.Atoi` on a 64-bit int: reading back what was written.
use Prim.Native.Nat.{ℕ, zero, suc, ◌+◌, ◌-◌, ◌*◌, ◌/◌, ◌%◌, ◌<◌}
use mathlib.Core.Path.{◌≡◌, refl, ap, sym, ◌∙◌}
use mathlib.Core.Logic.{◌≢◌, inl, inr}
use mathlib.Core.Bool.{true}
use mathlib.Core.Option.{none, some}
use mathlib.Core.List.{[], ◌∷◌, ◌++◌, append_assoc, append-nil}
use native.Mathlib.Omega.{arith}
use xboard_node_win.Common.Tests.{ltb, ltb→lt, Bool-cases}
use xboard_node_win.Common.Int.{ℤ, pos, negsuc, InRange}
use xboard_node_win.Common.Strings.{Text}
use xboard_node_win.Common.Ascii.{read_digits, is_digit, digits, itoa}

-- 10 ^ n
abbrev pow_ten : ℕ → ℕ
pow_ten zero = 1
pow_ten (suc n) = 10 * pow_ten n

read_digit :
    (acc d : ℕ) (rest : Text)
    → d < 10
    → read_digits acc ((48 + d) ∷ rest) ≡ read_digits (acc * 10 + d) rest
read_digit acc d rest h =
    let digit : is_digit (48 + d) ≡ true = ground (arith, h) in
    let value : acc * 10 + (48 + d - 48) ≡ acc * 10 + d = omega arith in rw (digit, value) refl

read_digits-digits :
    (fuel n : ℕ) (rest : Text)
    → n < pow_ten fuel
    → read_digits 0 (digits fuel n ++ rest) ≡ read_digits n rest
unfolding digits
read_digits-digits zero n rest h =
    let none_left : n ≡ 0 = omega arith in ap (λ k. read_digits k rest) (sym none_left)
read_digits-digits (suc fuel) n rest h = elim (Bool-cases (ltb n 10)) [
  | inl e ↦
      let alone : 0 * 10 + n ≡ n = omega arith in
      rw e (read_digit 0 n rest (ltb→lt n 10 e) ∙ ap (λ k. read_digits k rest) alone)
  | inr e ↦
      let fits : n / 10 < pow_ten fuel = omega arith in
      let whole : n / 10 * 10 + n % 10 ≡ n = omega arith in
      rw (e, append_assoc (digits fuel (n / 10)) ((48 + n % 10) ∷ []) rest)
        (read_digits-digits fuel (n / 10) ((48 + n % 10) ∷ rest) fits
          ∙ (read_digit (n / 10) (n % 10) rest (omega arith) ∙ ap (λ k. read_digits k rest) whole))
]

read_all : (n : ℕ) → n < pow_ten 20 → read_digits 0 (digits 20 n) ≡ some n
read_all n h = let r = read_digits-digits 20 n [] h in rw⁻¹ (append-nil (digits 20 n)) r

-- The digits of different numbers differ.
digits_injective : (m n : ℕ) → m < pow_ten 20 → n < pow_ten 20 → digits 20 m ≡ digits 20 n → m ≡ n
digits_injective m n hm hn e =
    let same : some m ≡ some n = sym (read_all m hm) ∙ (ap (read_digits 0) e ∙ read_all n hn) in cc

not_dash : (n : ℕ) (s : Text) → n < pow_ten 20 → digits 20 n ≢ 45 ∷ s
not_dash n s h e = let bad : some n ≡ none = sym (read_all n h) ∙ ap (read_digits 0) e in cc

-- Different 64-bit numbers are written differently.
pub itoa_injective : (a b : ℤ) → InRange a → InRange b → itoa a ≡ itoa b → a ≡ b
unfolding itoa
itoa_injective (pos m) (pos n) ha hb e = ap pos (digits_injective m n (omega arith) (omega arith) e)
itoa_injective (pos m) (negsuc n) ha hb e = absurd (not_dash m (digits 20 (suc n)) (omega arith) e)
itoa_injective (negsuc m) (pos n) ha hb e =
    absurd (not_dash n (digits 20 (suc m)) (omega arith) (sym e))
itoa_injective (negsuc m) (negsuc n) ha hb e =
    let tails : digits 20 (suc m) ≡ digits 20 (suc n) = cc in
    let same : suc m ≡ suc n = digits_injective (suc m) (suc n) (omega arith) (omega arith) tails in
    let same' : m ≡ n = omega arith in ap negsuc same'
