-- ===== src/SpeedTracker/Sync.antt =====
-- Which buckets `UpdateBuckets` of internal/limiter/speedtracker.go leaves.
use xboard_node_win.Common.{
  ℕ, ℤ, pos, Dict, lookup, insert, lookup-insert, lookup-erase, is_some, ltb_ℤ, if◌then◌else◌,
  int_key, nat_key, ◌==ₖ◌, beq_ℤ_iff, [], ◌∷◌, Option, none, some, ◌≡◌, refl, arith, ◌||◌,
}
use xboard_node_win.Model.{UserSpec}
use xboard_node_win.SpeedTracker.{
  RateLib, SpeedTracker, sync_bucket, sync_buckets, drop_inactive, active_ids, update_buckets,
}

-- Each user stands under its own id, and under no other.
abbrev pub WellKeyed : Dict ℤ UserSpec → Type 0
WellKeyed [] = Unit
WellKeyed ((id, u) ∷ us) = (u.id ≡ id) × (lookup id us ≡ none) × WellKeyed us

-- The bucket that a user may keep: none without a speed limit.
abbrev pub kept : Option UserSpec → Option ℕ → Option ℕ
kept none b = none
kept (some u) b = if ltb_ℤ (pos 0) u.speed_limit then b else none

module _ (lib : RateLib) where
  pub lookup-sync_bucket :
      (id : ℤ) (u : UserSpec) (t : SpeedTracker lib)
      → lookup id (sync_bucket lib u t).buckets
        ≡ (if u.id ==ₖ id then kept (some u) (lookup id t.buckets) else lookup id t.buckets)
  unfolding sync_bucket
  lookup-sync_bucket id u t = ground (arith, beq_ℤ_iff u.id id, lookup-erase id u.id t.buckets)

  lookup-sync_buckets :
      (id : ℤ) (us : Dict ℤ UserSpec) (t : SpeedTracker lib)
      → WellKeyed us
      → lookup id (sync_buckets lib us t).buckets ≡ elim (lookup id us) [
        | none ↦ lookup id t.buckets
        | some u ↦ kept (some u) (lookup id t.buckets)
      ]
  unfolding sync_buckets lookup
  lookup-sync_buckets id [] t k = refl
  lookup-sync_buckets id ((i, u) ∷ us) t k = ground (
    arith,
    lookup-sync_buckets id us (sync_bucket lib u t) k.2,
    lookup-sync_bucket id u t,
    beq_ℤ_iff i id,
    beq_ℤ_iff u.id id,
  )

  lookup-active_ids :
      (id : ℤ) (ids : Dict ℤ (Unit {0})) (us : Dict ℤ UserSpec)
      → WellKeyed us
      → is_some (lookup id (active_ids lib ids us))
        ≡ (is_some (lookup id us) || is_some (lookup id ids))
  unfolding active_ids lookup
  lookup-active_ids id ids [] k = refl
  lookup-active_ids id ids ((i, u) ∷ us) k = ground (
    arith,
    lookup-active_ids id (insert u.id tt ids) us k.2,
    lookup-insert id u.id tt ids,
    beq_ℤ_iff i id,
    beq_ℤ_iff u.id id,
  )

  lookup-drop_inactive :
      (id : ℤ) (active : Dict ℤ (Unit {0})) (bs : Dict ℤ ℕ)
      → lookup id (drop_inactive lib active bs)
        ≡ (if is_some (lookup id active) then lookup id bs else none)
  unfolding drop_inactive lookup
  lookup-drop_inactive id active [] = ground arith
  lookup-drop_inactive id active ((i, p) ∷ bs) =
      ground (arith, lookup-drop_inactive id active bs, beq_ℤ_iff i id)

  -- After `UpdateBuckets` with the users under their own ids, a user has a bucket exactly when it had
  -- one, is still a user of the node and still has a positive speed limit; the bucket is the same
  -- shared limiter as before.
  pub lookup-update_buckets :
      (users : Dict ℤ UserSpec) (t : SpeedTracker lib) (id : ℤ)
      → WellKeyed users
      → lookup id (update_buckets lib users t).buckets
        ≡ kept (lookup id users) (lookup id t.buckets)
  unfolding update_buckets lookup
  lookup-update_buckets users t id k = ground (
    arith,
    lookup-drop_inactive id (active_ids lib [] users) (sync_buckets lib users t).buckets,
    lookup-active_ids id [] users k,
    lookup-sync_buckets id users t k,
  )
