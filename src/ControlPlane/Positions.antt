-- ===== src/ControlPlane/Positions.antt =====
-- The index of positions that `applyUserDelta` of internal/controlplane/mailbox.go keeps.
use xboard_node_win.Common.{
  ℕ, zero, suc, ◌+◌, ℤ, Dict, lookup, insert, lookup-insert, is_some, is_empty, if◌then◌else◌,
  int_key, text_key, ◌==ₖ◌, beq_ℤ_iff, List, [], ◌∷◌, ◌++◌, Option, none, some, false, ◌≡◌, refl,
  sym, ◌∙◌, arith, Option-cases, inl, inr, length, set,
}
use xboard_node_win.Model.{UserSpec}
use xboard_node_win.Limiter.Users.{last_user}
use xboard_node_win.ControlPlane.{index_positions, add_users}

-- The position of the last user with the id, counted from `i`.
pub last_position : ℤ → ℕ → List UserSpec → Option ℕ
last_position id i [] = none
last_position id i (u ∷ us) = elim (last_position id (suc i) us) [
  | none ↦ if u.id ==ₖ id then some i else none
  | some j ↦ some j
]

pub lookup-index_positions :
    (us : List UserSpec) (id : ℤ) (i : ℕ) (index : Dict ℤ ℕ)
    → lookup id (index_positions i us index)
      ≡ elim (last_position id i us) [ none ↦ lookup id index | some j ↦ some j ]
unfolding index_positions last_position
lookup-index_positions [] id i index = refl
lookup-index_positions (u ∷ us) id i index = ground (
  arith,
  lookup-index_positions us id (suc i) (insert u.id i index),
  lookup-insert id u.id i index,
)

pub last_position-suc :
    (us : List UserSpec) (id : ℤ) (i : ℕ)
    → last_position id (suc i) us
      ≡ elim (last_position id i us) [ none ↦ none | some j ↦ some (suc j) ]
unfolding last_position
last_position-suc [] id i = refl
last_position-suc (u ∷ us) id i = ground (arith, last_position-suc us id (suc i))

-- The index is right for the list.
abbrev pub Indexes : Dict ℤ ℕ → List UserSpec → Type 0
Indexes index us = (id : ℤ) → lookup id index ≡ last_position id 0 us

pub last_position-set :
    (us : List UserSpec) (u : UserSpec) (id : ℤ) (p : ℕ)
    → last_position u.id 0 us ≡ some p
    → last_position id 0 (set us p u) ≡ last_position id 0 us
unfolding last_position
last_position-set [] u id p e = cc
last_position-set (v ∷ us) u id zero e =
    ground (arith, last_position-suc us u.id 0, beq_ℤ_iff v.id u.id)
last_position-set (v ∷ us) u id (suc q) e = ground (
  arith,
  last_position-suc us u.id 0,
  last_position-suc us id 0,
  last_position-suc (set us q u) id 0,
  last_position-set us u id q,
)

pub is_some-last_position :
    (us : List UserSpec) (id : ℤ) (i : ℕ)
    → is_some (last_position id i us) ≡ is_some (last_user id us)
unfolding last_position last_user
is_some-last_position [] id i = refl
is_some-last_position (u ∷ us) id i = ground (arith, is_some-last_position us id (suc i))

pub last_user-set :
    (us : List UserSpec) (u : UserSpec) (id : ℤ) (p : ℕ)
    → last_position u.id 0 us ≡ some p
    → last_user id (set us p u) ≡ (if u.id ==ₖ id then some u else last_user id us)
unfolding last_position last_user
last_user-set [] u id p e = cc
last_user-set (v ∷ us) u id zero e = ground (
  arith,
  last_position-suc us u.id 0,
  is_some-last_position us u.id 0,
  beq_ℤ_iff v.id u.id,
  beq_ℤ_iff u.id id,
  beq_ℤ_iff v.id id,
)
last_user-set (v ∷ us) u id (suc q) e =
    ground (arith, last_position-suc us u.id 0, last_user-set us u id q)

pub last_position-append :
    (us : List UserSpec) (u : UserSpec) (id : ℤ) (i : ℕ)
    → last_position id i (us ++ u ∷ [])
      ≡ (if u.id ==ₖ id then some (i + length us) else last_position id i us)
unfolding last_position
last_position-append [] u id i = ground arith
last_position-append (v ∷ us) u id i = ground (arith, last_position-append us u id (suc i))

pub last_user-append :
    (us : List UserSpec) (u : UserSpec) (id : ℤ)
    → last_user id (us ++ u ∷ []) ≡ (if u.id ==ₖ id then some u else last_user id us)
unfolding last_user
last_user-append [] u id = refl
last_user-append (v ∷ us) u id = ground (arith, last_user-append us u id)

-- The users after the delta: those of the delta win, the later ones over the earlier.
abbrev pub overlay : Option UserSpec → Option UserSpec → Option UserSpec
overlay (some v) old = some v
overlay none old = old

pub last_user-add_users :
    (delta current : List UserSpec) (index : Dict ℤ ℕ) (id : ℤ)
    → Indexes index current
    → last_user id (add_users delta current index)
      ≡ overlay (last_user id delta) (last_user id current)
unfolding add_users last_user
last_user-add_users [] current index id h = refl
last_user-add_users (u ∷ delta) current index id h = elim (Option-cases (lookup u.id index)) [
  | inl e ↦
      rw (e, add_users)
        (ground (
          arith,
          last_user-add_users delta (current ++ u ∷ []) (insert u.id (length current) index) id
              (λ j. ground (
                arith,
                h j,
                lookup-insert j u.id (length current) index,
                last_position-append current u j 0,
              )),
          last_user-append current u id,
        ))
  | inr (p, e) ↦
      let at = sym (h u.id) ∙ e in
      rw (e, add_users)
        (ground (
          arith,
          last_user-add_users delta (set current p u) index id
              (λ j. h j ∙ sym (last_position-set current u j p at)),
          last_user-set current u id p at,
        ))
]

pub is_empty-append : (us : List UserSpec) (u : UserSpec) → is_empty (us ++ u ∷ []) ≡ false
is_empty-append [] u = refl
is_empty-append (v ∷ us) u = refl

pub is_empty-set : (us : List UserSpec) (p : ℕ) (u : UserSpec) → is_empty (set us p u) ≡ is_empty us
is_empty-set [] p u = refl
is_empty-set (v ∷ us) zero u = refl
is_empty-set (v ∷ us) (suc p) u = refl
