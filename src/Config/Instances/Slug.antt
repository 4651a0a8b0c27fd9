-- ===== src/Config/Instances/Slug.antt =====
-- What a slug of internal/config/config.go looks like: it is part of a directory's name.
use xboard_node_win.Common.{
  ℕ, suc, zero, ◌≤◌, Text, bytes, Bool, true, false, not, ◌&&◌, ◌||◌, if◌then◌else◌, ltb, is_empty,
  length, trim, trim_left, trim_right, to_lower, [], ◌∷◌, ◌≡◌, refl, arith, Bool-cases, inl, inr,
}
use xboard_node_win.Config.Instances.{is_slug_char, is_dash, slug_loop, take, slug_of}

-- Every character is a lower-case letter, a digit or a dash.
abbrev pub AllPlain : Text → Type 0
AllPlain [] = Unit
AllPlain (c ∷ s) = ((is_slug_char c || is_dash c) ≡ true) × AllPlain s

abbrev pub starts_dash : Text → Bool
starts_dash [] = false
starts_dash (c ∷ s) = is_dash c

abbrev pub ends_dash : Text → Bool
ends_dash [] = false
ends_dash (c ∷ []) = is_dash c
ends_dash (c ∷ d ∷ s) = ends_dash (d ∷ s)

-- A slug: not empty, at most 48 characters, plain, and no dash at either end.
abbrev pub IsSlug : Text → Type 0
IsSlug s =
    (is_empty s ≡ false)
    × ((length s ≤ 48) × (AllPlain s × ((starts_dash s ≡ false) × (ends_dash s ≡ false))))

slug_loop-AllPlain : (b : Bool) (s : Text) → AllPlain (slug_loop b s)
unfolding slug_loop
slug_loop-AllPlain b [] = tt
slug_loop-AllPlain b (c ∷ s) = ground (arith, slug_loop-AllPlain (not (is_slug_char c)) s)

trim_left-AllPlain : (s : Text) → AllPlain s → AllPlain (trim_left is_dash s)
trim_left-AllPlain [] h = tt
trim_left-AllPlain (c ∷ s) h = ground (arith, trim_left-AllPlain s h.1)

trim_right-AllPlain : (s : Text) → AllPlain s → AllPlain (trim_right is_dash s)
trim_right-AllPlain [] h = tt
trim_right-AllPlain (c ∷ s) h = ground (arith, trim_right-AllPlain s h.1)

take-AllPlain : (n : ℕ) (s : Text) → AllPlain s → AllPlain (take n s)
take-AllPlain zero s h = tt
take-AllPlain (suc n) [] h = tt
take-AllPlain (suc n) (c ∷ s) h = (h.0, take-AllPlain n s h.1)

starts_dash-trim_left : (s : Text) → starts_dash (trim_left is_dash s) ≡ false
starts_dash-trim_left [] = refl
starts_dash-trim_left (c ∷ s) = ground (arith, starts_dash-trim_left s)

starts_dash-trim_right :
    (s : Text) → starts_dash s ≡ false → starts_dash (trim_right is_dash s) ≡ false
starts_dash-trim_right [] h = refl
starts_dash-trim_right (c ∷ s) h = ground arith

ends_dash-cons : (c : ℕ) (s : Text) → is_empty s ≡ false → ends_dash (c ∷ s) ≡ ends_dash s
ends_dash-cons c [] h = cc
ends_dash-cons c (d ∷ s) h = refl

ends_dash-trim_right : (s : Text) → ends_dash (trim_right is_dash s) ≡ false
ends_dash-trim_right [] = refl
ends_dash-trim_right (c ∷ s) = by_rest (trim_right is_dash s) (ends_dash-trim_right s)
  where
    by_rest :
        (t : Text)
        → ends_dash t ≡ false
        → ends_dash (if is_dash c && is_empty t then [] else c ∷ t) ≡ false
    by_rest [] h = ground arith
    by_rest (d ∷ t) h = ground (arith, h)

length-trim_right : (s : Text) → length (trim_right is_dash s) ≤ length s
length-trim_right [] = omega arith
length-trim_right (c ∷ s) = ground (arith, length-trim_right s)

length-take : (n : ℕ) (s : Text) → length (take n s) ≤ n
length-take zero s = omega arith
length-take (suc n) [] = omega arith
length-take (suc n) (c ∷ s) = omega (arith, length-take n s)

-- What is left of a text that is cut after 48 characters and trimmed again.
cut-IsSlug :
    (s : Text)
    → is_empty s ≡ false
    → AllPlain s
    → starts_dash s ≡ false
    → IsSlug (trim is_dash (take 48 s))
unfolding trim
cut-IsSlug [] e h d = cc
cut-IsSlug (c ∷ s) e h d = rw (trim_left_fixed c (take 47 s) d) (
  not_emptied c (take 47 s) d,
  (
    omega (arith, length-trim_right (take 48 (c ∷ s)), length-take 48 (c ∷ s)),
    (
      trim_right-AllPlain (take 48 (c ∷ s)) (take-AllPlain 48 (c ∷ s) h),
      (starts_dash-trim_right (take 48 (c ∷ s)) d, ends_dash-trim_right (take 48 (c ∷ s))),
    ),
  ),
)
  where
    trim_left_fixed : (c : ℕ) (s : Text) → is_dash c ≡ false → trim_left is_dash (c ∷ s) ≡ c ∷ s
    trim_left_fixed c s d = ground (arith, d)

    not_emptied :
        (c : ℕ) (s : Text) → is_dash c ≡ false → is_empty (trim_right is_dash (c ∷ s)) ≡ false
    not_emptied c s d = ground (arith, d)

-- A trimmed text, or the word `panel` if nothing is left of it.
cut_if_long :
    (s : Text)
    → is_empty s ≡ false
    → AllPlain s
    → starts_dash s ≡ false
    → ends_dash s ≡ false
    → IsSlug (if ltb 48 (length s) then trim is_dash (take 48 s) else s)
cut_if_long s e h d f = elim (Bool-cases (ltb 48 (length s))) [
  | inl l ↦ rw l (cut-IsSlug s e h d)
  | inr l ↦ rw l (e, (ground (arith, l), (h, (d, f))))
]

panel_or :
    (s : Text)
    → AllPlain s
    → starts_dash s ≡ false
    → ends_dash s ≡ false
    → IsSlug (
        let s' = if is_empty s then bytes "panel" else s in
        if ltb 48 (length s') then trim is_dash (take 48 s') else s')
panel_or [] h d f =
    cut_if_long (bytes "panel") refl (refl, (refl, (refl, (refl, (refl, tt))))) refl refl
panel_or (c ∷ s) h d f = cut_if_long (c ∷ s) refl h d f

-- The slug of any host and path is not empty, has at most 48 characters, all of them lower-case
-- letters, digits and dashes, and has no dash at either end.
pub slug_of-IsSlug : (base : Text) → IsSlug (slug_of base)
unfolding slug_of trim
slug_of-IsSlug base =
    let s = slug_loop false (to_lower base) in
    let t = trim_left is_dash s in
    panel_or (trim_right is_dash t)
      (trim_right-AllPlain t (trim_left-AllPlain s (slug_loop-AllPlain false (to_lower base))))
      (starts_dash-trim_right t (starts_dash-trim_left s)) (ends_dash-trim_right t)
