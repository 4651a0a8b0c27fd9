-- ===== src/SpeedTracker/Tune.antt =====
-- The parameters that `UpdateBuckets` of internal/limiter/speedtracker.go gives the shared limiters.
use xboard_node_win.Common.{
  ℕ, ℤ, pos, Dict, lookup, lookup-insert, is_some, ltb_ℤ, int_key, nat_key, beq_ℤ_iff, [], ◌∷◌,
  Option, none, some, true, ◌≡◌, ◌≢◌, refl, arith, Option-cases, inl, inr,
}
use xboard_node_win.Model.{UserSpec}
use xboard_node_win.SpeedTracker.{
  RateLib, SpeedTracker, sync_bucket, sync_buckets, update_buckets, retune, bytes_per_sec,
  burst_for,
}
use xboard_node_win.SpeedTracker.Sync.{WellKeyed, lookup-sync_bucket}

module _ (lib : RateLib) where
  open lib use {
    Lim, new_limiter, set_limit, set_burst, limit, burst, limit-set_limit, burst-set_limit,
    limit-set_burst, burst-set_burst,
  }

  -- The limit and the burst of the limiter behind a pointer.
  unfoldable pub params : ℕ → Dict ℕ Lim → Option (ℤ × ℤ)
  params p store = elim (lookup p store) [ none ↦ none | some l ↦ some (limit l, burst l) ]

  abbrev pub params_for : ℤ → Option (ℤ × ℤ)
  params_for speed = some (bytes_per_sec speed, burst_for (bytes_per_sec speed))

  -- No other user has the same limiter.
  abbrev pub Owned : ℤ → ℕ → SpeedTracker lib → Type 0
  Owned id p t = (j : ℤ) → lookup j t.buckets ≡ some p → j ≡ id

  params-retune_ne :
      (p q : ℕ) (speed : ℤ) (store : Dict ℕ Lim)
      → p ≢ q
      → params p (retune lib q speed store) ≡ params p store
  unfolding params retune
  params-retune_ne p q speed store ne = elim (Option-cases (lookup q store)) [
    | inl e ↦ rw (e, retune)
    | inr (l, e) ↦
        rw (e, retune)
          (ground (
            arith,
            lookup-insert p q
                (set_burst (set_limit l (bytes_per_sec speed)) (burst_for (bytes_per_sec speed)))
                store,
          ))
  ]

  params-retune_self :
      (p : ℕ) (speed : ℤ) (store : Dict ℕ Lim) (l : Lim)
      → lookup p store ≡ some l
      → params p (retune lib p speed store) ≡ params_for speed
  unfolding params retune
  params-retune_self p speed store l e =
      let l' = set_limit l (bytes_per_sec speed) in
      rw (e, retune)
        (ground (
          arith,
          lookup-insert p p (set_burst l' (burst_for (bytes_per_sec speed))) store,
          limit-set_burst l' (burst_for (bytes_per_sec speed)),
          burst-set_burst l' (burst_for (bytes_per_sec speed)),
          limit-set_limit l (bytes_per_sec speed),
        ))

  params-sync_bucket_ne :
      (id : ℤ) (p : ℕ) (u : UserSpec) (t : SpeedTracker lib)
      → Owned id p t
      → u.id ≢ id
      → params p (sync_bucket lib u t).store ≡ params p t.store
  unfolding sync_bucket
  params-sync_bucket_ne id p u t own ne = elim (Option-cases (lookup u.id t.buckets)) [
    | inl e ↦ rw (e, sync_bucket)
    | inr (q, e) ↦ ground (arith, own u.id, params-retune_ne p q u.speed_limit t.store)
  ]

  Owned-sync_bucket :
      (id : ℤ) (p : ℕ) (u : UserSpec) (t : SpeedTracker lib)
      → Owned id p t
      → Owned id p (sync_bucket lib u t)
  Owned-sync_bucket id p u t own j e = ground (arith, own j, lookup-sync_bucket lib j u t)

  params-sync_buckets_absent :
      (us : Dict ℤ UserSpec) (id : ℤ) (p : ℕ) (t : SpeedTracker lib)
      → Owned id p t
      → WellKeyed us
      → lookup id us ≡ none
      → params p (sync_buckets lib us t).store ≡ params p t.store
  unfolding sync_buckets lookup
  params-sync_buckets_absent [] id p t own k e = refl
  params-sync_buckets_absent ((i, u) ∷ us) id p t own k e = ground (
    arith,
    params-sync_buckets_absent us id p (sync_bucket lib u t) (Owned-sync_bucket id p u t own) k.2,
    params-sync_bucket_ne id p u t own,
    beq_ℤ_iff i id,
  )

  is_some-retune :
      (p q : ℕ) (speed : ℤ) (store : Dict ℕ Lim)
      → is_some (lookup p store) ≡ true
      → is_some (lookup p (retune lib q speed store)) ≡ true
  unfolding retune
  is_some-retune p q speed store h = elim (Option-cases (lookup q store)) [
    | inl e ↦ rw (e, retune) h
    | inr (l, e) ↦
        rw (e, retune)
          (ground (
            arith,
            lookup-insert p q
                (set_burst (set_limit l (bytes_per_sec speed)) (burst_for (bytes_per_sec speed)))
                store,
          ))
  ]

  pub is_some-sync_bucket :
      (p : ℕ) (u : UserSpec) (t : SpeedTracker lib)
      → is_some (lookup p t.store) ≡ true
      → is_some (lookup p (sync_bucket lib u t).store) ≡ true
  unfolding sync_bucket
  is_some-sync_bucket p u t h = elim (Option-cases (lookup u.id t.buckets)) [
    | inl e ↦ rw (e, sync_bucket) h
    | inr (q, e) ↦ ground (arith, is_some-retune p q u.speed_limit t.store h)
  ]

  params-sync_bucket_self :
      (p : ℕ) (u : UserSpec) (t : SpeedTracker lib)
      → ltb_ℤ (pos 0) u.speed_limit ≡ true
      → lookup u.id t.buckets ≡ some p
      → is_some (lookup p t.store) ≡ true
      → params p (sync_bucket lib u t).store ≡ params_for u.speed_limit
  unfolding sync_bucket
  params-sync_bucket_self p u t fast b alive = elim (Option-cases (lookup p t.store)) [
    | inl e ↦ ground arith
    | inr (l, e) ↦ ground (arith, params-retune_self p u.speed_limit t.store l e)
  ]

  params-sync_buckets :
      (us : Dict ℤ UserSpec) (id : ℤ) (p : ℕ) (u : UserSpec) (t : SpeedTracker lib)
      → Owned id p t
      → WellKeyed us
      → lookup id us ≡ some u
      → ltb_ℤ (pos 0) u.speed_limit ≡ true
      → lookup id t.buckets ≡ some p
      → is_some (lookup p t.store) ≡ true
      → params p (sync_buckets lib us t).store ≡ params_for u.speed_limit
  unfolding sync_buckets lookup
  params-sync_buckets [] id p u t own k e fast b alive = cc
  params-sync_buckets ((i, v) ∷ us) id p u t own k e fast b alive = ground (
    arith,
    params-sync_buckets us id p u (sync_bucket lib v t) (Owned-sync_bucket id p v t own) k.2,
    params-sync_buckets_absent us id p (sync_bucket lib v t) (Owned-sync_bucket id p v t own) k.2,
    params-sync_bucket_self p v t,
    is_some-sync_bucket p v t alive,
    lookup-sync_bucket lib id v t,
    beq_ℤ_iff i id,
    beq_ℤ_iff v.id id,
  )

  -- After `UpdateBuckets` the limiter of a user that keeps its bucket has the rate and the burst of
  -- the user's present speed limit, if no other user shares the limiter.
  pub params-update_buckets :
      (users : Dict ℤ UserSpec) (t : SpeedTracker lib) (id : ℤ) (p : ℕ) (u : UserSpec)
      → Owned id p t
      → WellKeyed users
      → lookup id users ≡ some u
      → ltb_ℤ (pos 0) u.speed_limit ≡ true
      → lookup id t.buckets ≡ some p
      → is_some (lookup p t.store) ≡ true
      → params p (update_buckets lib users t).store ≡ params_for u.speed_limit
  unfolding update_buckets
  params-update_buckets users t id p u own k e fast b alive =
      params-sync_buckets users id p u t own k e fast b alive
