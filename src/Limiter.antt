-- ===== src/Limiter.antt =====
-- internal/limiter/limiter.go: the device limits of the users of the node. The mutex is not
-- modelled: each method holds it from its first access to its last, so a call is one step.
pub mod Users
pub mod Limits
mod Tests
use xboard_node_win.Common.{
  ℕ, ℤ, pos, Text, Dict, lookup, insert, is_some, ltb_ℤ, if◌then◌else◌, int_key, text_key, List, [],
  ◌∷◌, Option, not,
}
use xboard_node_win.Model.{UserSpec}

pub record Limiter : Type 0 where
  pub users : Dict ℤ UserSpec
  pub uuid_device_limit : Dict Text ℤ
  pub device_limit_events : ℕ

-- `New`
pub new : Limiter
new = record { users = []; uuid_device_limit = []; device_limit_events = 0 }

-- The loop that fills `newUsers`.
unfoldable pub index_users : Dict ℤ UserSpec → List UserSpec → Dict ℤ UserSpec
index_users m [] = m
index_users m (u ∷ us) = index_users (insert u.id u m) us

-- The loop that collects the users that are gone.
unfoldable pub removed_users : Dict ℤ UserSpec → Dict ℤ UserSpec → List ℤ
removed_users [] new_users = []
removed_users ((id, u) ∷ old) new_users =
    let rest = removed_users old new_users in
    if is_some (lookup id new_users) then rest else id ∷ rest

-- The loop that fills `idx`.
unfoldable pub index_limits : Dict Text ℤ → Dict ℤ UserSpec → Dict Text ℤ
index_limits idx [] = idx
index_limits idx ((id, u) ∷ us) =
    index_limits (if ltb_ℤ (pos 0) u.device_limit then insert u.uuid u.device_limit idx else idx) us

-- `UpdateUsers`
pub update_users : Limiter → List UserSpec → Limiter × List ℤ
unfolding index_users removed_users index_limits
update_users l users =
    let new_users = index_users [] users in
    (
      record l { users = new_users; uuid_device_limit = index_limits [] new_users },
      removed_users l.users new_users,
    )

-- `GetDeviceLimitByUUID`; `none` is the result (0, false).
unfoldable pub get_device_limit_by_uuid : Limiter → Text → Option ℤ
get_device_limit_by_uuid l uuid = lookup uuid l.uuid_device_limit

-- `SnapshotMetrics`
pub snapshot_metrics : Limiter → ℕ
snapshot_metrics l = l.device_limit_events
