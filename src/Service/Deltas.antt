-- ===== src/Service/Deltas.antt =====
-- `mergeUsers` and `subtractUsers` of internal/service/service.go against the mailbox's `applyUserDelta`.
use xboard_node_win.Common.{
  ℤ, bytes, Dict, lookup, insert, lookup-insert, is_some, from_option, if◌then◌else◌, int_key,
  beq_ℤ_iff, List, [], ◌∷◌, map, Option, none, some, ◌≡◌, refl, sym, ◌∙◌, arith,
}
use xboard_node_win.Model.{UserSpec}
use xboard_node_win.Limiter.{index_users}
use xboard_node_win.Limiter.Users.{last_user, lookup-index_users}
use xboard_node_win.SpeedTracker.Sync.{WellKeyed}
use xboard_node_win.ControlPlane.{apply_user_delta, remove_ids}
use xboard_node_win.ControlPlane.Delta.{
  view, apply_user_delta_meaning, last_user-keep, lookup-remove_ids,
}
use xboard_node_win.ControlPlane.Positions.{overlay}
use xboard_node_win.Service.{merge_users, subtract_users}

insert-WellKeyed : (u : UserSpec) (m : Dict ℤ UserSpec) → WellKeyed m → WellKeyed (insert u.id u m)
unfolding insert lookup
insert-WellKeyed u [] k = (refl, refl, tt)
insert-WellKeyed u ((i, v) ∷ m) k = ground (
  arith,
  k,
  insert-WellKeyed u m k.2,
  lookup-insert i u.id u m,
  beq_ℤ_iff i u.id,
  beq_ℤ_iff u.id i,
)

pub index_users-WellKeyed :
    (us : List UserSpec) (m : Dict ℤ UserSpec) → WellKeyed m → WellKeyed (index_users m us)
unfolding index_users
index_users-WellKeyed [] m k = k
index_users-WellKeyed (u ∷ us) m k =
    index_users-WellKeyed us (insert u.id u m) (insert-WellKeyed u m k)

last_user-values :
    (id : ℤ) (m : Dict ℤ UserSpec) → WellKeyed m → last_user id (map (λ e. e.1) m) ≡ lookup id m
unfolding last_user lookup
last_user-values id [] k = refl
last_user-values id ((i, u) ∷ m) k =
    ground (arith, k, last_user-values id m k.2, beq_ℤ_iff i id, beq_ℤ_iff u.id id)

merged :
    (base delta : List UserSpec) (id : ℤ)
    → last_user id (map (λ e. e.1) (index_users (index_users [] base) delta))
      ≡ overlay (last_user id delta) (last_user id base)
unfolding lookup
merged base delta id =
    let m = index_users [] base in
    last_user-values id (index_users m delta)
      (index_users-WellKeyed delta m (index_users-WellKeyed base [] tt))
    ∙ ground (arith, lookup-index_users id m delta, lookup-index_users id [] base)

subtracted :
    (base : Option (List UserSpec)) (delta : List UserSpec) (id : ℤ)
    → view (subtract_users base (some delta)) id
      ≡ (if is_some (last_user id delta) then none else view base id)
unfolding subtract_users lookup last_user
subtracted none delta id = ground arith
subtracted (some base) [] id = refl
subtracted (some base) (u ∷ delta) id = ground (
  arith,
  last_user-keep base (λ j. is_some (lookup j (remove_ids (u ∷ delta) []))) id,
  lookup-remove_ids (u ∷ delta) [] id,
)

-- The service and the mailbox agree on what a delta means: for every id, merging gives the user that the
-- mailbox gives for "add", and subtracting the one that it gives for "remove", also where a list
-- repeats an id or is nil.
pub merge_users-apply_user_delta :
    (base : Option (List UserSpec)) (delta : List UserSpec) (id : ℤ)
    → (view (merge_users base (some delta)) id
        ≡ view (from_option base (apply_user_delta base (bytes "add") delta)) id)
      × (view (subtract_users base (some delta)) id
          ≡ view (from_option base (apply_user_delta base (bytes "remove") delta)) id)
unfolding merge_users
merge_users-apply_user_delta base delta id = (
  merged (from_option [] base) delta id
      ∙ sym (apply_user_delta_meaning base (bytes "add") delta id).0,
  subtracted base delta id ∙ sym (apply_user_delta_meaning base (bytes "remove") delta id).0,
)
