-- ===== src/SpeedTracker/Demand.antt =====
-- `GetLimiter` of internal/limiter/speedtracker.go: limiters on demand, shared by all connections.
use xboard_node_win.Common.{
  ℕ, ℤ, pos, Text, Dict, lookup, lookup-insert, is_some, ltb_ℤ, int_key, nat_key, text_key,
  beq_ℤ_iff, Option, none, some, Bool, true, false, ◌≡◌, arith, Option-cases, inl, inr,
}
use xboard_node_win.Model.{UserSpec}
use xboard_node_win.SpeedTracker.{
  RateLib, SpeedTracker, missing, find_limiter, store_limiter, get_limiter, bytes_per_sec,
  capped_burst,
}
use xboard_node_win.SpeedTracker.Params.{capped_burst-bytes_per_sec}
use xboard_node_win.SpeedTracker.Tune.{params, params_for}

-- Whether the user may have a limiter: it has one, or a speed limit of its own.
abbrev pub may_limit : Option ℕ → Option UserSpec → Bool
may_limit (some p) u = true
may_limit none none = false
may_limit none (some u) = ltb_ℤ (pos 0) u.speed_limit

module _ (lib : RateLib) (users : Dict ℤ UserSpec) (t : SpeedTracker lib) (uuid : Text) where
  -- `GetLimiter` gives a limiter exactly to a known uuid whose user has a bucket already or has a
  -- positive speed limit.
  pub get_limiter_given : is_some (get_limiter lib users t uuid).0 ≡ elim (lookup uuid t.uuid_map) [
    | none ↦ false
    | some uid ↦ may_limit (lookup uid t.buckets) (lookup uid users)
  ]
  unfolding get_limiter find_limiter store_limiter
  get_limiter_given = ground arith

  -- A second call gives the same shared limiter and changes nothing.
  pub get_limiter_again :
      let (found, t') = get_limiter lib users t uuid in get_limiter lib users t' uuid ≡ (found, t')
  unfolding get_limiter find_limiter store_limiter
  get_limiter_again = elim (Option-cases (lookup uuid t.uuid_map)) [
    | inl e ↦ ground arith
    | inr (uid, e) ↦ ground (arith, lookup-insert uid uid t.next t.buckets, beq_ℤ_iff uid uid)
  ]

  -- A known uuid whose user has no bucket yet and has a positive speed limit gets the next fresh
  -- limiter, with the rate and the burst that `UpdateBuckets` would set for the speed limit; the
  -- limiter is stored as the user's bucket and the fast-path flag is set.
  pub get_limiter_fresh :
      (uid : ℤ) (u : UserSpec)
      → lookup uuid t.uuid_map ≡ some uid
      → lookup uid t.buckets ≡ none
      → lookup uid users ≡ some u
      → ltb_ℤ (pos 0) u.speed_limit ≡ true
      → let (found, t') = get_limiter lib users t uuid in
        (found ≡ some t.next)
        × (lookup uid t'.buckets ≡ some t.next)
        × (params lib t.next t'.store ≡ params_for lib u.speed_limit)
        × (t'.has_limits ≡ true)
  unfolding get_limiter find_limiter store_limiter params
  get_limiter_fresh uid u e none_yet known fast =
      let r = bytes_per_sec u.speed_limit in
      ground (
        arith,
        lookup-insert uid uid t.next t.buckets,
        lookup-insert t.next t.next (lib.new_limiter r (capped_burst r)) t.store,
        beq_ℤ_iff uid uid,
        lib.limit-new r (capped_burst r),
        lib.burst-new r (capped_burst r),
        capped_burst-bytes_per_sec u.speed_limit,
      )

module _ (lib : RateLib) where
  -- Two callers that both found the bucket missing, with whatever parameters, get one limiter: the
  -- second check under the write lock finds the first one's, and stores nothing.
  pub store_limiter_race :
      (t : SpeedTracker lib) (uid bps burst bps' burst' : ℤ)
      → let (found, t') = store_limiter lib t (missing uid bps burst) in
        store_limiter lib t' (missing uid bps' burst') ≡ (found, t')
  unfolding store_limiter
  store_limiter_race t uid bps burst bps' burst' =
      ground (arith, lookup-insert uid uid t.next t.buckets, beq_ℤ_iff uid uid)
