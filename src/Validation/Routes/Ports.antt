-- ===== src/Validation/Routes/Ports.antt =====
-- Which port values `validatePortSpecs` of internal/model/custom_route_validate.go accepts.
use xboard_node_win.Common.{
  ℕ, ℤ, pos, ◌≤ℤ◌, Text, trim_space, atoi, split, push_front, join_texts, has_char, is_empty, ◌==◌,
  ==_iff, Bool, true, false, ◌||◌, if◌then◌else◌, Option, none, some, List, [], ◌∷◌, ◌++◌, ◌≡◌,
  refl, sym, ap, ◌∙◌, ◌⊎◌, inl, inr, arith, Bool-cases,
}
use xboard_node_win.Validation.Routes.{
  bad_ends, bad_range, bad_single, bad_spec, validate_port_specs,
}

-- Splitting gives at least one part, and joining the parts gives the text back.
join_texts-push_front :
    (c a : ℕ) (ps : List Text)
    → is_empty ps ≡ false
    → join_texts c (push_front a ps) ≡ a ∷ join_texts c ps
unfolding join_texts
join_texts-push_front c a [] h = cc
join_texts-push_front c a (p ∷ []) h = refl
join_texts-push_front c a (p ∷ q ∷ ps) h = refl

join_texts-one : (c : ℕ) (p : Text) → join_texts c (p ∷ []) ≡ p
unfolding join_texts
join_texts-one c p = refl

join_texts-cons :
    (c : ℕ) (ps : List Text) → is_empty ps ≡ false → join_texts c ([] ∷ ps) ≡ c ∷ join_texts c ps
unfolding join_texts
join_texts-cons c [] h = cc
join_texts-cons c (p ∷ ps) h = refl

is_empty-split : (c : ℕ) (s : Text) → is_empty (split c s) ≡ false
unfolding split
is_empty-split c [] = refl
is_empty-split c (a ∷ s) = by_parts (a == c) (split c s)
  where
    by_parts :
        (b : Bool) (ps : List Text) → is_empty (if b then [] ∷ ps else push_front a ps) ≡ false
    by_parts true ps = refl
    by_parts false [] = refl
    by_parts false (p ∷ ps) = refl

join_texts-split : (c : ℕ) (s : Text) → join_texts c (split c s) ≡ s
unfolding split
join_texts-split c [] = join_texts-one c []
join_texts-split c (a ∷ s) = elim (Bool-cases (a == c)) [
  | inl e ↦ rw e (
      join_texts-cons c (split c s) (is_empty-split c s)
      ∙ (ap (λ t. c ∷ t) (join_texts-split c s) ∙ ap (λ d. d ∷ s) (sym ((==_iff a c).0 e))))
  | inr e ↦ rw e (
      join_texts-push_front c a (split c s) (is_empty-split c s)
      ∙ ap (λ t. a ∷ t) (join_texts-split c s))
]

abbrev pub IsPort : ℤ → Type 0
IsPort p = (pos 1 ≤ℤ p) × (p ≤ℤ pos 65535)

-- Two ports around a `-` or a `:`, with spaces about them, the first not above the second.
abbrev pub IsRange : Text → Type 0
IsRange t =
    (a : Text) × ((b : Text) × ((d : ℕ) × ((p : ℤ) × ((q : ℤ) × (((t ≡ a ++ d ∷ b)
                × ((d ≡ 45) ⊎ (d ≡ 58)))
              × (((atoi (trim_space a) ≡ some p) × (atoi (trim_space b) ≡ some q))
                  × ((IsPort p × IsPort q) × (p ≤ℤ q))))))))

-- A port.
abbrev pub IsSingle : Text → Type 0
IsSingle t = (p : ℤ) × ((atoi t ≡ some p) × IsPort p)

-- A blank value, a port or a range.
abbrev pub AllPorts : List Text → Type 0
AllPorts [] = Unit
AllPorts (v ∷ vs) =
    ((trim_space v ≡ []) ⊎ (IsSingle (trim_space v) ⊎ IsRange (trim_space v))) × AllPorts vs

ends_sound :
    (x y : Option ℤ)
    → bad_ends x y ≡ false
    → (p : ℤ) × ((q : ℤ) × (((x ≡ some p) × (y ≡ some q)) × ((IsPort p × IsPort q) × (p ≤ℤ q))))
ends_sound none y h = cc
ends_sound (some p) none h = cc
ends_sound (some p) (some q) h = (p, (q, ((refl, refl), ground (arith, h))))

IsRange-sound :
    (d : ℕ) (t : Text) (ps : List Text)
    → (d ≡ 45) ⊎ (d ≡ 58)
    → t ≡ join_texts d ps
    → bad_range ps ≡ false
    → IsRange t
unfolding join_texts
IsRange-sound d t [] c e h = cc
IsRange-sound d t (a ∷ []) c e h = cc
IsRange-sound d t (a ∷ b ∷ []) c e h =
    let (p, (q, (r, o))) = ends_sound (atoi (trim_space a)) (atoi (trim_space b)) h in
    (a, (b, (d, (p, (q, ((e, c), (r, o)))))))
IsRange-sound d t (a ∷ b ∷ g ∷ ps) c e h = cc

IsSingle-sound : (t : Text) (o : Option ℤ) → atoi t ≡ o → bad_single o ≡ false → IsSingle t
IsSingle-sound t none e h = cc
IsSingle-sound t (some p) e h = (p, (e, ground (arith, h)))

delimiter : (b : Bool) → let d : ℕ = if b then 58 else 45 in (d ≡ 45) ⊎ (d ≡ 58)
delimiter true = inr refl
delimiter false = inl refl

spec_sound : (t : Text) → bad_spec t ≡ false → IsSingle t ⊎ IsRange t
unfolding bad_spec
spec_sound t h = by_kind (has_char 45 t || has_char 58 t) h
  where
    by_kind :
        (b : Bool)
        → (if b
            then bad_range (split (if has_char 58 t then 58 else 45) t)
            else bad_single (atoi t))
          ≡ false
        → IsSingle t ⊎ IsRange t
    by_kind true h =
        let d : ℕ = if has_char 58 t then 58 else 45 in
        inr
          (IsRange-sound d t (split d t) (delimiter (has_char 58 t)) (sym (join_texts-split d t)) h)
    by_kind false h = inl (IsSingle-sound t (atoi t) refl h)

is_empty_nil : (t : Text) → is_empty t ≡ true → t ≡ []
is_empty_nil [] h = refl
is_empty_nil (c ∷ t) h = cc

-- Every value that is accepted is blank, one port, or two ports around a dash or a colon, the
-- first not above the second; ports are numbers from 1 to 65535.
pub validate_port_specs-AllPorts : (vs : List Text) → validate_port_specs vs ≡ none → AllPorts vs
unfolding validate_port_specs
validate_port_specs-AllPorts [] h = tt
validate_port_specs-AllPorts (v ∷ vs) h = elim (Bool-cases (is_empty (trim_space v))) [
  | inl e ↦
      (inl (is_empty_nil (trim_space v) e), validate_port_specs-AllPorts vs (ground (arith, e, h)))
  | inr e ↦ (
    inr (spec_sound (trim_space v) (ground (arith, e, h))),
    validate_port_specs-AllPorts vs (ground (arith, e, h)),
  )
]
