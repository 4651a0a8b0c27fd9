-- ===== src/Service.antt =====
-- internal/service/service.go: the users that a node service keeps, their updates, and the back-off.
-- The kernel is not modelled: what it answers is an argument (`Answers`). The hash of a list of users
-- is the parameter `user_hash`, and the rate limiters are those of `RateLib`.
pub mod Backoff
pub mod Deltas
pub mod Update
pub mod Resync
pub mod Runtime
pub mod Events
mod Tests
use mathlib.Core.Option
use xboard_node_win.Common.{
  ℕ, zero, suc, ◌+◌, ◌-◌, ◌*◌, ℤ, Text, Dict, lookup, is_some, is_empty, from_option, ltb,
  if◌then◌else◌, int_key, List, [], ◌∷◌, map, Option, none, some, not, Bool, true, false, ◌&&◌,
  keep,
}
use xboard_node_win.Model.{UserSpec}
use xboard_node_win.Limiter.{Limiter, index_users, update_users}
use xboard_node_win.SpeedTracker.{RateLib, SpeedTracker, update_buckets}
use xboard_node_win.ControlPlane.{append_nil, remove_ids}

-- `apiBackoff`; the counter is never negative.
pub record ApiBackoff : Type 0 where
  pub skip_remaining : ℕ

-- `shouldSkip`
unfoldable pub should_skip : ApiBackoff → Bool × ApiBackoff
should_skip b =
    if ltb 0 b.skip_remaining
    then (true, record { skip_remaining = b.skip_remaining - 1 })
    else (false, b)

-- `onSuccess`
unfoldable pub on_success : ApiBackoff → ApiBackoff
on_success b = record { skip_remaining = 0 }

-- `onFailure`
unfoldable pub on_failure : ApiBackoff → ApiBackoff
on_failure b =
    if ltb 0 b.skip_remaining
    then (if ltb b.skip_remaining 8 then record { skip_remaining = b.skip_remaining * 2 } else b)
    else record { skip_remaining = 1 }

-- `mergeUsers`; the loop over `m` gives its users in the map's order.
unfoldable pub merge_users :
    Option (List UserSpec) → Option (List UserSpec) → Option (List UserSpec)
merge_users base none = some (from_option [] base)
merge_users base (some delta) =
    some (map (λ e. e.1) (index_users (index_users [] (from_option [] base)) delta))

-- `subtractUsers`
unfoldable pub subtract_users :
    Option (List UserSpec) → Option (List UserSpec) → Option (List UserSpec)
subtract_users none delta = none
subtract_users (some base) delta =
    let ids = remove_ids (from_option [] delta) [] in
    if is_empty (from_option [] delta)
    then some base
    else some (keep (λ u. not (is_some (lookup u.id ids))) base)

-- What the kernel answers during one update: whether it runs, whether there is a configuration to
-- start it with, and whether a first start, the update and a restart succeed.
pub record Answers : Type 0 where
  pub running : Bool
  pub has_config : Bool
  pub starts : Bool
  pub updates : Bool
  pub restarts : Bool

module _ (lib : RateLib) (user_hash : List UserSpec → Text) where
  -- The fields of `Service` that follow the users.
  pub record UserState : Type 0 where
    pub limiter : Limiter
    pub speed : SpeedTracker lib
    pub last_users : Option (List UserSpec)
    pub last_user_hash : Text

  -- `restoreUserState`
  unfoldable pub restore_user_state : Option (List UserSpec) → Text → UserState → UserState
  restore_user_state users hash s =
      let us = from_option [] users in
      let l = (update_users s.limiter us).0 in
      record {
        limiter = l;
        speed = update_buckets lib l.users s.speed;
        last_users = append_nil us;
        last_user_hash = hash;
      }

  -- `prepareUserState`, less the previous users and hash that it returns.
  unfoldable pub prepare_user_state : Option (List UserSpec) → UserState → UserState
  prepare_user_state users s = restore_user_state users (user_hash (from_option [] users)) s

  -- `ensureRunning`
  unfoldable pub ensure_running : Answers → UserState → Bool
  ensure_running k s =
      if k.running
      then true
      else (if not (is_empty (from_option [] s.last_users)) && k.has_config
          then k.starts
          else false)

  -- `applyUserUpdate`
  unfoldable pub apply_user_update : Answers → Option (List UserSpec) → Text → UserState → UserState
  apply_user_update k users new_hash s =
      let p = prepare_user_state users s in
      let before = append_nil (from_option [] s.last_users) in
      if ensure_running k s
      then (if k.updates
          then (if is_empty new_hash then p else record p { last_user_hash = new_hash })
          else (if k.restarts then p else restore_user_state before s.last_user_hash p))
      else s
