-- ===== src/Common/Ascii.antt =====
-- What the source uses of Go's packages strings and strconv, on ASCII text.
use Prim.Native.Nat.{ℕ, zero, suc, ◌+◌, ◌-◌, ◌*◌, ◌/◌, ◌%◌, ◌^◌}
use mathlib.Core.Bool.{Bool, false, ◌&&◌, ◌||◌}
use mathlib.Core.Option.{Option, none, some}
use mathlib.Core.List.{List, [], ◌∷◌, ◌++◌}
use xboard_node_win.Common.Tests.{ltb, leb, ◌==◌, if◌then◌else◌, is_empty}
use xboard_node_win.Common.Int.{ℤ, pos, negsuc}
use xboard_node_win.Common.Strings.{Text}

-- `unicode.IsSpace` on ASCII.
abbrev pub is_space : ℕ → Bool
is_space c = (leb 9 c && leb c 13) || (c == 32)

abbrev pub trim_left : (ℕ → Bool) → Text → Text
trim_left p [] = []
trim_left p (c ∷ s) = if p c then trim_left p s else c ∷ s

abbrev pub trim_right : (ℕ → Bool) → Text → Text
trim_right p [] = []
trim_right p (c ∷ s) = let t = trim_right p s in if p c && is_empty t then [] else c ∷ t

-- `strings.TrimSpace`
unfoldable pub trim_space : Text → Text
trim_space s = trim_right is_space (trim_left is_space s)

-- `strings.Trim` for a set of characters.
unfoldable pub trim : (ℕ → Bool) → Text → Text
trim p s = trim_right p (trim_left p s)

abbrev pub lower : ℕ → ℕ
lower c = if leb 65 c && leb c 90 then c + 32 else c

-- `strings.ToLower`
unfoldable pub to_lower : Text → Text
to_lower [] = []
to_lower (c ∷ s) = lower c ∷ to_lower s

-- `strings.TrimSuffix` of a suffix of one character.
abbrev pub trim_suffix : ℕ → Text → Text
trim_suffix c [] = []
trim_suffix c (a ∷ s) = if (a == c) && is_empty s then [] else a ∷ trim_suffix c s

-- `strings.Contains` for one character.
abbrev pub has_char : ℕ → Text → Bool
has_char c [] = false
has_char c (a ∷ s) = (a == c) || has_char c s

abbrev pub push_front : ℕ → List Text → List Text
push_front a [] = (a ∷ []) ∷ []
push_front a (p ∷ ps) = (a ∷ p) ∷ ps

-- `strings.Split` at one character.
unfoldable pub split : ℕ → Text → List Text
split c [] = [] ∷ []
split c (a ∷ s) = let ps = split c s in if a == c then [] ∷ ps else push_front a ps

-- `strings.Join` with one character.
unfoldable pub join_texts : ℕ → List Text → Text
join_texts c [] = []
join_texts c (p ∷ []) = p
join_texts c (p ∷ q ∷ ps) = p ++ c ∷ join_texts c (q ∷ ps)

abbrev pub is_digit : ℕ → Bool
is_digit c = leb 48 c && leb c 57

-- The number that the digits spell after those read already, if they are digits.
abbrev pub read_digits : ℕ → Text → Option ℕ
read_digits acc [] = some acc
read_digits acc (c ∷ s) = if is_digit c then read_digits (acc * 10 + (c - 48)) s else none

abbrev pub read_unsigned : Text → Option ℕ
read_unsigned [] = none
read_unsigned (c ∷ s) = read_digits 0 (c ∷ s)

abbrev pub positive : Option ℕ → Option ℤ
positive none = none
positive (some n) = if ltb n (2 ^ 63) then some (pos n) else none

abbrev pub negative : Option ℕ → Option ℤ
negative none = none
negative (some zero) = some (pos 0)
negative (some (suc n)) = if ltb n (2 ^ 63) then some (negsuc n) else none

-- `strconv.Atoi` for a 64-bit int.
unfoldable pub atoi : Text → Option ℤ
atoi [] = none
atoi (c ∷ s) =
    if c == 45
    then negative (read_unsigned s)
    else (if c == 43 then positive (read_unsigned s) else positive (read_unsigned (c ∷ s)))

-- The decimal digits, at most `fuel` of them: 20 are enough for 64 bits.
unfoldable pub digits : ℕ → ℕ → Text
digits zero n = []
digits (suc fuel) n = if ltb n 10 then (48 + n) ∷ [] else digits fuel (n / 10) ++ (48 + n % 10) ∷ []

-- `strconv.Itoa`
unfoldable pub itoa : ℤ → Text
itoa (pos n) = digits 20 n
itoa (negsuc n) = 45 ∷ digits 20 (suc n)
