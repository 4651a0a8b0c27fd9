-- ===== src/Limiter/Users.antt =====
-- What `UpdateUsers` of internal/limiter/limiter.go makes of a list of users.
use xboard_node_win.Common.{
  ℤ, Dict, lookup, insert, lookup-insert, is_some, if◌then◌else◌, int_key, text_key, ◌==ₖ◌,
  beq_ℤ_iff, List, [], ◌∷◌, Option, none, some, not, ◌&&◌, Bool, true, false, ◌≡◌, refl, arith,
}
use xboard_node_win.Model.{UserSpec}
use xboard_node_win.Limiter.{Limiter, index_users, removed_users, update_users}

-- The last user of a list that has the id.
unfoldable pub last_user : ℤ → List UserSpec → Option UserSpec
last_user id [] = none
last_user id (u ∷ us) = elim (last_user id us) [
  | none ↦ if u.id ==ₖ id then some u else none
  | some v ↦ some v
]

pub lookup-index_users :
    (id : ℤ) (m : Dict ℤ UserSpec) (us : List UserSpec)
    → lookup id (index_users m us) ≡ elim (last_user id us) [ none ↦ lookup id m | some v ↦ some v ]
unfolding index_users last_user
lookup-index_users id m [] = refl
lookup-index_users id m (u ∷ us) =
    ground (arith, lookup-index_users id (insert u.id u m) us, lookup-insert id u.id u m)

pub users-update_users :
    (l : Limiter) (us : List UserSpec) → (update_users l us).0.users ≡ index_users [] us
unfolding update_users
users-update_users l us = refl

unfoldable pub contains : ℤ → List ℤ → Bool
contains a [] = false
contains a (b ∷ bs) = if b ==ₖ a then true else contains a bs

contains-removed :
    (id : ℤ) (old new_users : Dict ℤ UserSpec)
    → contains id (removed_users old new_users)
      ≡ (is_some (lookup id old) && not (is_some (lookup id new_users)))
unfolding contains removed_users lookup
contains-removed id [] n = refl
contains-removed id ((j, u) ∷ old) n = ground (arith, contains-removed id old n, beq_ℤ_iff j id)

-- The ids that `UpdateUsers` returns are those of the users that were known before and that the
-- new list does not name.
pub update_users_removed :
    (l : Limiter) (users : List UserSpec) (id : ℤ)
    → contains id (update_users l users).1
      ≡ (is_some (lookup id l.users) && not (is_some (last_user id users)))
unfolding update_users lookup
update_users_removed l users id =
    ground
      (arith, contains-removed id l.users (index_users [] users), lookup-index_users id [] users)
