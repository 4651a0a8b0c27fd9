-- ===== src/Limiter/Limits.antt =====
-- The index of device limits that `UpdateUsers` of internal/limiter/limiter.go rebuilds.
use mathlib.Core.List.{append_assoc, append-nil}
use xboard_node_win.Common.{
  ℤ, pos, Text, Dict, lookup, insert, lookup-insert, insert_new, lookup-append, ltb_ℤ,
  if◌then◌else◌, int_key, text_key, ◌==ₖ◌, beq_ℤ_iff, beq_text_iff, List, [], ◌∷◌, ◌++◌, Option,
  none, some, true, ◌≡◌, ◌≢◌, refl, sym, ◌∙◌, arith, Bool-cases, inl, inr, map,
}
use xboard_node_win.Model.{UserSpec}
use xboard_node_win.Limiter.{
  Limiter, index_users, index_limits, update_users, get_device_limit_by_uuid,
}

-- No other user of the list shares the id or the uuid.
abbrev pub Apart : UserSpec → List UserSpec → Type 0
Apart u [] = Unit
Apart u (v ∷ vs) = (u.id ≢ v.id) × (u.uuid ≢ v.uuid) × Apart u vs

abbrev pub AllApart : List UserSpec → Type 0
AllApart [] = Unit
AllApart (u ∷ us) = Apart u us × AllApart us

abbrev AllNew : Dict ℤ UserSpec → List UserSpec → Type 0
AllNew m [] = Unit
AllNew m (u ∷ us) = (lookup u.id m ≡ none) × AllNew m us

abbrev entries : List UserSpec → Dict ℤ UserSpec
entries = map λ u. (u.id, u)

AllNew-append :
    (m : Dict ℤ UserSpec) (u : UserSpec) (us : List UserSpec)
    → Apart u us
    → AllNew m us
    → AllNew (m ++ (u.id, u) ∷ []) us
unfolding lookup
AllNew-append m u [] a n = tt
AllNew-append m u (v ∷ vs) a n = ground (
  arith,
  AllNew-append m u vs a.2 n.1,
  lookup-append v.id m ((u.id, u) ∷ []),
  beq_ℤ_iff u.id v.id,
)

index_users-entries :
    (m : Dict ℤ UserSpec) (us : List UserSpec)
    → AllApart us
    → AllNew m us
    → index_users m us ≡ m ++ entries us
unfolding index_users
index_users-entries m [] a n = sym (append-nil m)
index_users-entries m (u ∷ us) a n = rw (insert_new u.id u m n.0) (
    index_users-entries (m ++ (u.id, u) ∷ []) us a.1 (AllNew-append m u us a.0 n.1)
    ∙ append_assoc m _ _)

-- The limit of the user with the uuid, if the panel gives one.
unfoldable pub panel_limit : Text → List UserSpec → Option ℤ
panel_limit uuid [] = none
panel_limit uuid (u ∷ us) =
    let rest = panel_limit uuid us in
    if u.uuid ==ₖ uuid
    then (if ltb_ℤ (pos 0) u.device_limit then some u.device_limit else none)
    else rest

panel_limit-Apart : (u : UserSpec) (us : List UserSpec) → Apart u us → panel_limit u.uuid us ≡ none
unfolding panel_limit
panel_limit-Apart u [] a = refl
panel_limit-Apart u (v ∷ vs) a = ground (arith, beq_text_iff v.uuid u.uuid, panel_limit-Apart u vs)

lookup-index_limits :
    (uuid : Text) (idx : Dict Text ℤ) (us : List UserSpec)
    → AllApart us
    → lookup uuid (index_limits idx (entries us))
      ≡ elim (panel_limit uuid us) [ none ↦ lookup uuid idx | some l ↦ some l ]
unfolding index_limits panel_limit
lookup-index_limits uuid idx [] a = refl
lookup-index_limits uuid idx (u ∷ us) a = ground (
  arith,
  lookup-index_limits uuid idx us a.1,
  lookup-index_limits uuid (insert u.uuid u.device_limit idx) us a.1,
  lookup-insert uuid u.uuid u.device_limit idx,
  beq_text_iff u.uuid uuid,
  panel_limit-Apart u us a.0,
)

AllNew-nil : (us : List UserSpec) → AllNew [] us
unfolding lookup
AllNew-nil [] = tt
AllNew-nil (u ∷ us) = (refl, AllNew-nil us)

-- If no two users share an id or a uuid, the lookup after `UpdateUsers` gives exactly the positive
-- device limit of the user with that uuid, and no limit for any other uuid.
pub get_device_limit-update_users :
    (l : Limiter) (users : List UserSpec) (uuid : Text)
    → AllApart users
    → get_device_limit_by_uuid (update_users l users).0 uuid ≡ panel_limit uuid users
unfolding get_device_limit_by_uuid update_users lookup
get_device_limit-update_users l users uuid a =
    rw (index_users-entries [] users a (AllNew-nil users))
      (ground (arith, lookup-index_limits uuid [] users a))

-- Every limit of the index is positive.
abbrev pub AllPositive : Dict Text ℤ → Type 0
AllPositive [] = Unit
AllPositive ((k, l) ∷ idx) = (ltb_ℤ (pos 0) l ≡ true) × AllPositive idx

insert-AllPositive :
    (k : Text) (l : ℤ) (idx : Dict Text ℤ)
    → ltb_ℤ (pos 0) l ≡ true
    → AllPositive idx
    → AllPositive (insert k l idx)
unfolding insert
insert-AllPositive k l [] p a = (p, tt)
insert-AllPositive k l ((j, w) ∷ idx) p a = ground (arith, insert-AllPositive k l idx p a.1)

index_limits-AllPositive :
    (us : Dict ℤ UserSpec) (idx : Dict Text ℤ) → AllPositive idx → AllPositive (index_limits idx us)
unfolding index_limits
index_limits-AllPositive [] idx a = a
index_limits-AllPositive ((id, u) ∷ us) idx a = elim (Bool-cases (ltb_ℤ (pos 0) u.device_limit)) [
  | inl p ↦ rw p (
      index_limits-AllPositive us (insert u.uuid u.device_limit idx)
        (insert-AllPositive u.uuid u.device_limit idx p a))
  | inr p ↦ rw p (index_limits-AllPositive us idx a)
]

-- After any update the index holds positive limits only, whatever the panel sent.
pub update_users-AllPositive :
    (l : Limiter) (users : List UserSpec) → AllPositive (update_users l users).0.uuid_device_limit
unfolding update_users
update_users-AllPositive l users = index_limits-AllPositive (index_users [] users) [] tt
