-- ===== src/SpeedTracker.antt =====
-- internal/limiter/speedtracker.go: one shared rate limiter for each user with a speed limit.
-- `rate.Limiter` of golang.org/x/time/rate is not code of the repository: it is the parameter
-- `RateLib`. Limiters are pointers in the source, so the tracker keeps a store of them. A rate is
-- the integer that the source converts to `rate.Limit`.
pub mod Params
pub mod Sync
pub mod Tune
pub mod Demand
pub mod Invariant
pub mod Runs
mod Tests
use xboard_node_win.Common.{
  ℕ, suc, ◌+◌, ◌-◌, ◌*◌, ◌/◌, ◌<◌, ℤ, pos, negsuc, wrap, Text, Dict, lookup, insert, erase, is_some,
  is_empty, ltb_ℤ, if◌then◌else◌, int_key, text_key, nat_key, List, [], ◌∷◌, Option, none, some,
  not, Bool, true, false, ◌≡◌, ◌&&◌,
}
use xboard_node_win.Model.{UserSpec}
use xboard_node_win.Limiter.{Limiter}

-- The part of golang.org/x/time/rate that the source calls, and the documented behaviour that
-- it relies on: a setter changes its own parameter, and leaves the other.
pub record RateLib : Type 1 where
  pub Lim : Type 0
  pub new_limiter : ℤ → ℤ → Lim
  pub set_limit : Lim → ℤ → Lim
  pub set_burst : Lim → ℤ → Lim
  pub limit : Lim → ℤ
  pub burst : Lim → ℤ
  pub limit-new : (r b : ℤ) → limit (new_limiter r b) ≡ r
  pub burst-new : (r b : ℤ) → burst (new_limiter r b) ≡ b
  pub limit-set_limit : (l : Lim) (r : ℤ) → limit (set_limit l r) ≡ r
  pub burst-set_limit : (l : Lim) (r : ℤ) → burst (set_limit l r) ≡ burst l
  pub limit-set_burst : (l : Lim) (b : ℤ) → limit (set_burst l b) ≡ limit l
  pub burst-set_burst : (l : Lim) (b : ℤ) → burst (set_burst l b) ≡ b

-- Division by 8 truncates towards zero.
abbrev pub div_eight : ℤ → ℤ
div_eight (pos n) = pos (n / 8)
div_eight (negsuc n) = if ltb_ℤ (pos n) (pos 7) then pos 0 else negsuc ((n + 1) / 8 - 1)

-- `int(user.SpeedLimit) * 1_000_000 / 8`, in 64 bits.
unfoldable pub bytes_per_sec : ℤ → ℤ
bytes_per_sec (pos n) = div_eight (wrap (pos (n * 1_000_000)))
bytes_per_sec (negsuc n) = div_eight (wrap (negsuc (n * 1_000_000 + 999_999)))

-- The burst of at least 64 KiB.
unfoldable pub burst_for : ℤ → ℤ
burst_for bps = if ltb_ℤ bps (pos 65536) then pos 65536 else bps

-- `x * 4`, in 64 bits.
abbrev pub times_four : ℤ → ℤ
times_four (pos n) = wrap (pos (n * 4))
times_four (negsuc n) = wrap (negsuc (n * 4 + 3))

-- `GetLimiter` caps the burst once more.
unfoldable pub capped_burst : ℤ → ℤ
capped_burst bps =
    let cap4s = times_four bps in
    let burst = burst_for bps in
    if ltb_ℤ (pos 65536) cap4s && ltb_ℤ cap4s burst then cap4s else burst

module _ (lib : RateLib) where
  open lib use {Lim, new_limiter, set_limit, set_burst}

  pub record SpeedTracker : Type 0 where
    pub buckets : Dict ℤ ℕ
    pub uuid_map : Dict Text ℤ
    pub has_limits : Bool
    pub store : Dict ℕ Lim
    pub next : ℕ

  -- `NewSpeedTracker`
  pub new_speed_tracker : SpeedTracker
  new_speed_tracker = record {
    buckets = [];
    uuid_map = [];
    has_limits = false;
    store = [];
    next = 0;
  }

  -- `lim.SetLimit(rate.Limit(bytesPerSec))` and `lim.SetBurst(burst)` through a pointer.
  unfoldable pub retune : ℕ → ℤ → Dict ℕ Lim → Dict ℕ Lim
  retune p speed store = elim (lookup p store) [
    | none ↦ store
    | some lim ↦
        insert p (set_burst (set_limit lim (bytes_per_sec speed)) (burst_for (bytes_per_sec speed)))
          store
  ]

  -- The body of the loop over `currentUsers` that touches `t.buckets`.
  unfoldable pub sync_bucket : UserSpec → SpeedTracker → SpeedTracker
  sync_bucket u t = elim (lookup u.id t.buckets) [
    | none ↦ t
    | some p ↦
        if ltb_ℤ (pos 0) u.speed_limit
        then record t { store = retune p u.speed_limit t.store }
        else record t { buckets = erase u.id t.buckets }
  ]

  unfoldable pub sync_buckets : Dict ℤ UserSpec → SpeedTracker → SpeedTracker
  sync_buckets [] t = t
  sync_buckets ((id, u) ∷ us) t = sync_buckets us (sync_bucket u t)

  -- The same loop's part that fills `newUUIDMap`.
  unfoldable pub index_uuids : Dict Text ℤ → Dict ℤ UserSpec → Dict Text ℤ
  index_uuids idx [] = idx
  index_uuids idx ((id, u) ∷ us) =
      index_uuids (elim u.uuid [ [] ↦ idx | _ ∷ _ ↦ insert u.uuid u.id idx ]) us

  -- The same loop's part that fills `activeIDs`.
  unfoldable pub active_ids : Dict ℤ (Unit {0}) → Dict ℤ UserSpec → Dict ℤ (Unit {0})
  active_ids ids [] = ids
  active_ids ids ((id, u) ∷ us) = active_ids (insert u.id tt ids) us

  -- The loop that deletes the buckets of removed users.
  unfoldable pub drop_inactive : Dict ℤ (Unit {0}) → Dict ℤ ℕ → Dict ℤ ℕ
  drop_inactive active [] = []
  drop_inactive active ((id, p) ∷ bs) =
      let rest = drop_inactive active bs in
      if is_some (lookup id active) then (id, p) ∷ rest else rest

  -- `UpdateBuckets`
  unfoldable pub update_buckets : Dict ℤ UserSpec → SpeedTracker → SpeedTracker
  update_buckets users t =
      let synced = sync_buckets users t in
      let left = drop_inactive (active_ids [] users) synced.buckets in
      record synced {
        buckets = left;
        uuid_map = index_uuids [] users;
        has_limits = not (is_empty left);
      }

  -- What `GetLimiter` has decided when it releases the read locks: it has no limiter to give, it
  -- found one, or it is about to store a new one for the user.
  pub data Found : Type 0 where
    nothing : Found
    existing : ℕ → Found
    missing : ℤ → ℤ → ℤ → Found

  -- `GetLimiter` up to `rate.NewLimiter`.
  unfoldable pub find_limiter : Dict ℤ UserSpec → SpeedTracker → Text → Found
  find_limiter users t user = elim (lookup user t.uuid_map) [
    | none ↦ nothing
    | some uid ↦ elim (lookup uid t.buckets) [
      | some p ↦ existing p
      | none ↦ elim (lookup uid users) [
        | none ↦ nothing
        | some u ↦
            if ltb_ℤ (pos 0) u.speed_limit
            then missing uid (bytes_per_sec u.speed_limit)
                (capped_burst (bytes_per_sec u.speed_limit))
            else nothing
      ]
    ]
  ]

  -- The part of `GetLimiter` under the write lock, with its second check.
  unfoldable pub store_limiter : SpeedTracker → Found → Option ℕ × SpeedTracker
  store_limiter t nothing = (none, t)
  store_limiter t (existing p) = (some p, t)
  store_limiter t (missing uid bps burst) = elim (lookup uid t.buckets) [
    | some p ↦ (some p, t)
    | none ↦ (
      some t.next,
      record t {
        buckets = insert uid t.next t.buckets;
        has_limits = true;
        store = insert t.next (new_limiter bps burst) t.store;
        next = suc t.next;
      },
    )
  ]

  -- `GetLimiter`
  unfoldable pub get_limiter : Dict ℤ UserSpec → SpeedTracker → Text → Option ℕ × SpeedTracker
  get_limiter users t user = store_limiter t (find_limiter users t user)

  -- `HasLimits`
  pub has_any_limit : SpeedTracker → Bool
  has_any_limit t = t.has_limits
