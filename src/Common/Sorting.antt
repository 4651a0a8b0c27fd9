-- ===== src/Common/Sorting.antt =====
-- Sorting keeps what is counted, and puts an element behind exactly those that are smaller.
use Prim.Native.Nat.{ℕ, zero, suc, ◌≤◌}
use mathlib.Core.Path.{◌≡◌, refl, ap, ◌∙◌}
use mathlib.Core.Bool.{Bool, true, false}
use mathlib.Core.List.{List, [], ◌∷◌, ◌++◌}
use native.Mathlib.Omega.{arith}
use xboard_node_win.Common.Tests.{ltb, if◌then◌else◌, count, length}
use xboard_node_win.Common.Key.{Key, ◌==ₖ◌, text_key}
use xboard_node_win.Common.Strings.{Text, text_ltb, insert_sorted, sort}

-- Whether the value is among the first `n` elements.
abbrev pub among_first {ℓ} : {A : Type ℓ} ⦃e : Key A⦄ → ℕ → A → List A → Bool
among_first zero a xs = false
among_first (suc n) a [] = false
among_first (suc n) a (x ∷ xs) = if x ==ₖ a then true else among_first n a xs

abbrev pub contains {ℓ} : {A : Type ℓ} ⦃e : Key A⦄ → A → List A → Bool
contains a [] = false
contains a (x ∷ xs) = if x ==ₖ a then true else contains a xs

pub count-le-length {ℓ} : {A : Type ℓ} (p : A → Bool) (xs : List A) → count p xs ≤ length xs
count-le-length p [] = omega arith
count-le-length p (x ∷ xs) = ground (arith, count-le-length p xs)

-- A strict total order, as a Boolean test.
pub record StrictOrder {ℓ} {A : Type ℓ} (lt : A → A → Bool) : Type ℓ where
  pub irrefl : (a : A) → lt a a ≡ false
  pub trans : (a b c : A) → lt a b ≡ true → lt b c ≡ true → lt a c ≡ true
  pub total : (a b : A) → lt a b ≡ false → lt b a ≡ false → a ≡ b

module _ {ℓ} {A : Type ℓ} ⦃e : Key A⦄ (lt : A → A → Bool) (o : StrictOrder lt) where
  below : A → A → Bool
  below a x = lt x a

  count-insert_sorted :
      (p : A → Bool) (a : A) (xs : List A) → count p (insert_sorted lt a xs) ≡ count p (a ∷ xs)
  unfolding insert_sorted
  count-insert_sorted p a [] = refl
  count-insert_sorted p a (x ∷ xs) = ground (arith, count-insert_sorted p a xs)

  pub count-sort : (p : A → Bool) (xs : List A) → count p (sort lt xs) ≡ count p xs
  unfolding sort
  count-sort p [] = refl
  count-sort p (x ∷ xs) = ground (arith, count-insert_sorted p x (sort lt xs), count-sort p xs)

  contains-insert_sorted :
      (a b : A) (xs : List A) → contains b (insert_sorted lt a xs) ≡ contains b (a ∷ xs)
  unfolding insert_sorted
  contains-insert_sorted a b [] = refl
  contains-insert_sorted a b (x ∷ xs) = ground (arith, contains-insert_sorted a b xs)

  contains-sort : (b : A) (xs : List A) → contains b (sort lt xs) ≡ contains b xs
  unfolding sort
  contains-sort b [] = refl
  contains-sort b (x ∷ xs) =
      ground (arith, contains-insert_sorted x b (sort lt xs), contains-sort b xs)

  abbrev NoneBelow : A → List A → Type 0
  NoneBelow a [] = Unit
  NoneBelow a (x ∷ xs) = (lt x a ≡ false) × NoneBelow a xs

  abbrev Sorted : List A → Type 0
  Sorted [] = Unit
  Sorted (x ∷ xs) = NoneBelow x xs × Sorted xs

  NoneBelow-mono : (a b : A) (xs : List A) → lt a b ≡ true → NoneBelow b xs → NoneBelow a xs
  NoneBelow-mono a b [] h n = tt
  NoneBelow-mono a b (x ∷ xs) h n = ground (arith, o.trans x a b, NoneBelow-mono a b xs h n.1)

  NoneBelow-insert_sorted :
      (a b : A) (xs : List A)
      → lt a b ≡ false
      → NoneBelow b xs
      → NoneBelow b (insert_sorted lt a xs)
  unfolding insert_sorted
  NoneBelow-insert_sorted a b [] h n = (h, tt)
  NoneBelow-insert_sorted a b (x ∷ xs) h n = ground (arith, NoneBelow-insert_sorted a b xs h n.1)

  Sorted-insert_sorted : (a : A) (xs : List A) → Sorted xs → Sorted (insert_sorted lt a xs)
  unfolding insert_sorted
  Sorted-insert_sorted a [] s = (tt, tt)
  Sorted-insert_sorted a (x ∷ xs) s = ground (
    arith,
    Sorted-insert_sorted a xs s.1,
    NoneBelow-insert_sorted a x xs,
    NoneBelow-mono a x xs,
    o.trans x a x,
    o.irrefl x,
  )

  Sorted-sort : (xs : List A) → Sorted (sort lt xs)
  unfolding sort
  Sorted-sort [] = tt
  Sorted-sort (x ∷ xs) = Sorted-insert_sorted x (sort lt xs) (Sorted-sort xs)

  count-NoneBelow : (a : A) (xs : List A) → NoneBelow a xs → count (below a) xs ≡ 0
  unfolding below
  count-NoneBelow a [] n = refl
  count-NoneBelow a (x ∷ xs) n = ground (arith, count-NoneBelow a xs n.1)

  NoneBelow-contains :
      (a b : A) (xs : List A) → NoneBelow b xs → contains a xs ≡ true → lt a b ≡ false
  NoneBelow-contains a b [] n h = cc
  NoneBelow-contains a b (x ∷ xs) n h = ground (arith, e.beq_iff x a, NoneBelow-contains a b xs n.1)

  among_first-Sorted :
      (n : ℕ) (a : A) (xs : List A)
      → Sorted xs
      → contains a xs ≡ true
      → among_first n a xs ≡ ltb (count (below a) xs) n
  unfolding below
  among_first-Sorted zero a xs s h = ground arith
  among_first-Sorted (suc n) a [] s h = cc
  among_first-Sorted (suc n) a (x ∷ xs) s h = ground (
    arith,
    e.beq_iff x a,
    among_first-Sorted n a xs s.1,
    count-NoneBelow x xs s.0,
    NoneBelow-contains a x xs s.0,
    o.irrefl a,
    o.total x a,
  )

  count-append_self : (a : A) (xs : List A) → count (below a) (xs ++ a ∷ []) ≡ count (below a) xs
  unfolding below
  count-append_self a [] = ground (arith, o.irrefl a)
  count-append_self a (x ∷ xs) = ground (arith, count-append_self a xs)

  contains-append_self : (a : A) (xs : List A) → contains a (xs ++ a ∷ []) ≡ true
  contains-append_self a [] = ground (arith, e.beq_iff a a)
  contains-append_self a (x ∷ xs) = ground (arith, contains-append_self a xs)

  -- Sorted together with the others, an element is among the first `n` if fewer than `n` of the
  -- others are smaller.
  pub among_first-sort :
      (n : ℕ) (a : A) (xs : List A)
      → among_first n a (sort lt (xs ++ a ∷ [])) ≡ ltb (count (λ x. lt x a) xs) n
  unfolding below
  among_first-sort n a xs =
      let all = xs ++ a ∷ [] in
      among_first-Sorted n a (sort lt all) (Sorted-sort all)
        (contains-sort a all ∙ contains-append_self a xs)
      ∙ ap (λ (k : ℕ). ltb k n) (count-sort (below a) all ∙ count-append_self a xs)

text_irrefl : (a : Text) → text_ltb a a ≡ false
text_irrefl [] = refl
text_irrefl (x ∷ a) = ground (arith, text_irrefl a)

text_trans : (a b c : Text) → text_ltb a b ≡ true → text_ltb b c ≡ true → text_ltb a c ≡ true
text_trans [] [] c h k = cc
text_trans [] (y ∷ b) [] h k = cc
text_trans [] (y ∷ b) (z ∷ c) h k = refl
text_trans (x ∷ a) [] c h k = cc
text_trans (x ∷ a) (y ∷ b) [] h k = cc
text_trans (x ∷ a) (y ∷ b) (z ∷ c) h k = ground (arith, text_trans a b c)

text_total : (a b : Text) → text_ltb a b ≡ false → text_ltb b a ≡ false → a ≡ b
text_total [] [] h k = refl
text_total [] (y ∷ b) h k = cc
text_total (x ∷ a) [] h k = cc
text_total (x ∷ a) (y ∷ b) h k = ground (arith, text_total a b)

pub text_order : StrictOrder text_ltb
text_order = record { irrefl = text_irrefl; trans = text_trans; total = text_total }
