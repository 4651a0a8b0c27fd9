-- ===== src/SpeedTracker/Tests.antt =====
-- Examples for internal/limiter/speedtracker.go, with a pair of a rate and a burst for a limiter.
use xboard_node_win.Common.{
  ℤ, pos, bytes, Dict, lookup, ltb_ℤ, int_key, nat_key, text_key, List, [], ◌∷◌, some, none, true,
  insert, ◌≡◌, refl,
}
use xboard_node_win.Model.{UserSpec}
use xboard_node_win.SpeedTracker.{
  RateLib, SpeedTracker, new_speed_tracker, update_buckets, store_limiter, missing, index_uuids,
  drop_inactive, sync_buckets, sync_bucket, active_ids,
}
use xboard_node_win.SpeedTracker.Sync.{WellKeyed}
use xboard_node_win.SpeedTracker.Tune.{params, params_for}
use xboard_node_win.SpeedTracker.Runs.{Op, updates, stores, run, update_buckets-run}

abbrev pairs : RateLib
pairs = record {
  Lim = ℤ × ℤ;
  new_limiter = λ r b. (r, b);
  set_limit = λ l r. (r, l.1);
  set_burst = λ l b. (l.0, b);
  limit = λ l. l.0;
  burst = λ l. l.1;
  limit-new = λ r b. refl;
  burst-new = λ r b. refl;
  limit-set_limit = λ l r. refl;
  burst-set_limit = λ l r. refl;
  limit-set_burst = λ l b. refl;
  burst-set_burst = λ l b. refl;
}

abbrev user : UserSpec
user = record { id = pos 7; uuid = bytes "a1"; speed_limit = pos 10; device_limit = pos 0 }

abbrev users : Dict ℤ UserSpec
users = (pos 7, user) ∷ []

abbrev start : SpeedTracker pairs
start = update_buckets pairs users (new_speed_tracker pairs)

keyed : WellKeyed users
unfolding lookup
keyed = (refl, refl, tt)

known_uuid : lookup (bytes "a1") start.uuid_map ≡ some (pos 7)
unfolding lookup update_buckets index_uuids insert
known_uuid = refl

no_bucket : lookup (pos 7) start.buckets ≡ none
unfolding lookup update_buckets drop_inactive sync_buckets sync_bucket new_speed_tracker
no_bucket = refl

known_user : lookup (pos 7) users ≡ some user
unfolding lookup
known_user = refl

abbrev calls : List (Op pairs)
calls = updates users ∷ stores (missing (pos 7) (pos 1) (pos 2)) ∷ []

has_bucket :
    lookup (pos 7) (update_buckets pairs users (run pairs calls (new_speed_tracker pairs))).buckets
    ≡ some 0
unfolding lookup update_buckets run store_limiter drop_inactive sync_buckets sync_bucket
    new_speed_tracker insert active_ids
has_bucket = refl

update_buckets-run_example :
    (u : UserSpec) × (lookup (pos 7) users ≡ some u)
    × (ltb_ℤ (pos 0) u.speed_limit ≡ true)
    × (params pairs 0 (update_buckets pairs users (run pairs calls (new_speed_tracker pairs))).store
        ≡ params_for pairs u.speed_limit)
update_buckets-run_example =
    update_buckets-run pairs calls users (pos 7) 0 (keyed, tt) keyed has_bucket
