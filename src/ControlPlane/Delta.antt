-- ===== src/ControlPlane/Delta.antt =====
-- `applyUserDelta` of internal/controlplane/mailbox.go against its meaning for one user id.
use xboard_node_win.Common.{
  ℕ, ℤ, Text, bytes, Dict, lookup, insert, lookup-insert, is_some, is_empty, from_option,
  if◌then◌else◌, int_key, text_key, ◌==ₖ◌, beq_ℤ_iff, List, [], ◌∷◌, ◌++◌, map, Option, none, some,
  not, Bool, true, false, ◌≡◌, refl, ap, ◌∙◌, arith, Bool-cases, Option-cases, inl, inr, length,
  set, keep,
}
use xboard_node_win.Model.{UserSpec}
use xboard_node_win.Limiter.Users.{last_user}
use xboard_node_win.ControlPlane.{
  index_positions, add_users, remove_ids, apply_user_delta, clone_users, append_nil,
}
use xboard_node_win.ControlPlane.Positions.{
  last_position, lookup-index_positions, overlay, last_user-add_users, is_empty-append,
  is_empty-set,
}

is_empty-add_users :
    (delta current : List UserSpec) (index : Dict ℤ ℕ)
    → is_empty current ≡ false
    → is_empty (add_users delta current index) ≡ false
unfolding add_users
is_empty-add_users [] current index h = h
is_empty-add_users (u ∷ delta) current index h = elim (Option-cases (lookup u.id index)) [
  | inl e ↦
      rw (e, add_users)
        (is_empty-add_users delta (current ++ u ∷ []) (insert u.id (length current) index)
          (is_empty-append current u))
  | inr (p, e) ↦
      rw (e, add_users)
        (is_empty-add_users delta (set current p u) index (is_empty-set current p u ∙ h))
]

pub lookup-remove_ids :
    (delta : List UserSpec) (ids : Dict ℤ (Unit {0})) (id : ℤ)
    → is_some (lookup id (remove_ids delta ids))
      ≡ (if is_some (last_user id delta) then true else is_some (lookup id ids))
unfolding remove_ids last_user
lookup-remove_ids [] ids id = refl
lookup-remove_ids (u ∷ delta) ids id =
    ground (arith, lookup-remove_ids delta (insert u.id tt ids) id, lookup-insert id u.id tt ids)

pub last_user-keep :
    (us : List UserSpec) (gone : ℤ → Bool) (id : ℤ)
    → last_user id (keep (λ u. not (gone u.id)) us) ≡ (if gone id then none else last_user id us)
unfolding last_user
last_user-keep [] gone id = ground arith
last_user-keep (u ∷ us) gone id = ground (arith, last_user-keep us gone id, beq_ℤ_iff u.id id)

map_self : (us : List UserSpec) → map (λ u. u) us ≡ us
map_self [] = refl
map_self (u ∷ us) = ap (λ l. u ∷ l) (map_self us)

pub clone_users_lem : (us : Option (List UserSpec)) → clone_users us ≡ us
clone_users_lem none = refl
clone_users_lem (some us) = ap some (map_self us)

append_nil_lem : (us : List UserSpec) → from_option [] (append_nil us) ≡ us
append_nil_lem [] = refl
append_nil_lem (u ∷ us) = refl

-- What a delta means for the user with the id.
abbrev pub delta_meaning : Text → List UserSpec → ℤ → Option UserSpec → Option UserSpec
delta_meaning action delta id old =
    if action ==ₖ bytes "add"
    then overlay (last_user id delta) old
    else (if action ==ₖ bytes "remove"
        then (if is_some (last_user id delta) then none else old)
        else old)

-- The user with the id, the last one if the list repeats it.
abbrev pub view : Option (List UserSpec) → ℤ → Option UserSpec
view users id = last_user id (from_option [] users)

added_view :
    (users : Option (List UserSpec)) (delta : List UserSpec) (id : ℤ)
    → let current = from_option [] (clone_users users) in
      let added = add_users delta current (index_positions 0 current []) in
      view (if is_empty added then clone_users users else some added) id
      ≡ overlay (last_user id delta) (last_user id current)
unfolding lookup
added_view users delta id =
    let current = from_option [] (clone_users users) in
    let index = index_positions 0 current [] in
    let added = add_users delta current index in
    let meant =
      last_user-add_users delta current index id
        (λ j. lookup-index_positions current j 0 [] ∙ found current j) in
    elim (Bool-cases (is_empty added)) [
      | inr some_left ↦ rw some_left meant
      | inl nothing_left ↦ rw nothing_left (
          ap (last_user id)
            (both_empty current added nothing_left (is_empty-add_users delta current index))
          ∙ meant)
    ]
  where
    found :
        (us : List UserSpec) (j : ℤ)
        → (elim (last_position j 0 us) [ none ↦ none | some k ↦ some k ]) ≡ last_position j 0 us
    found us j = ground arith

    both_empty :
        (a b : List UserSpec)
        → is_empty b ≡ true
        → (is_empty a ≡ false → is_empty b ≡ false)
        → a ≡ b
    both_empty [] [] h k = refl
    both_empty [] (x ∷ b) h k = cc
    both_empty (x ∷ a) b h k = cc (k refl)

-- `applyUserDelta` gives every id the user that the delta means: "add" lets the delta's last entry
-- for the id win, "remove" drops the ids of the delta, and any other action is refused and leaves
-- the users alone. It holds also where the list or the delta repeats an id.
pub apply_user_delta_meaning :
    (users : Option (List UserSpec)) (action : Text) (delta : List UserSpec) (id : ℤ)
    → (view (from_option users (apply_user_delta users action delta)) id
        ≡ delta_meaning action delta id (view users id))
      × (is_some (apply_user_delta users action delta)
          ≡ (if action ==ₖ bytes "add" then true else action ==ₖ bytes "remove"))
unfolding apply_user_delta lookup
apply_user_delta_meaning users action delta id = elim (Bool-cases (action ==ₖ bytes "add")) [
  | inl add ↦
      rw (add, apply_user_delta) (added_view users delta id ∙ rw (clone_users_lem users), refl)
  | inr no_add ↦ elim (Bool-cases (action ==ₖ bytes "remove")) [
    | inl remove ↦
        rw (no_add, remove, apply_user_delta)
          (
            ap (last_user id) (append_nil_lem _)
                ∙ (last_user-keep (from_option [] (clone_users users))
                      (λ j. is_some (lookup j (remove_ids delta []))) id
                    ∙ rw (lookup-remove_ids delta [] id, clone_users_lem users) (removed id)),
            refl,
          )
    | inr no_remove ↦ rw (no_add, no_remove, apply_user_delta) (refl, refl)
  ]
]
  where
    removed :
        (j : ℤ)
        → (if (if is_some (last_user j delta) then true else false) then none else view users j)
          ≡ (if is_some (last_user j delta) then none else view users j)
    removed j = ground arith
