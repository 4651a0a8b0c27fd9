-- ===== src/SpeedTracker/Invariant.antt =====
-- What every method of internal/limiter/speedtracker.go keeps true of the tracker.
use xboard_node_win.Common.{
  ℕ, ℤ, Dict, lookup, lookup-insert, is_empty-insert, is_some, is_empty, int_key, nat_key, text_key,
  beq_ℤ_iff, [], ◌∷◌, Option, none, some, not, true, false, ◌≡◌, refl, arith, Option-cases, inl,
  inr, ◌<◌,
}
use xboard_node_win.Model.{UserSpec}
use xboard_node_win.SpeedTracker.{
  RateLib, SpeedTracker, Found, nothing, existing, missing, store_limiter, new_speed_tracker,
  sync_bucket, sync_buckets, update_buckets,
}
use xboard_node_win.SpeedTracker.Sync.{WellKeyed, lookup-update_buckets, kept}
use xboard_node_win.SpeedTracker.Tune.{is_some-sync_bucket}

module _ (lib : RateLib) where
  open lib use {Lim, new_limiter}

  -- Every bucket points at a stored limiter, no two users share one, and the fast-path flag says
  -- whether there is a bucket at all.
  pub record IsSound (t : SpeedTracker lib) : Type 0 where
    pub alive : (i : ℤ) (p : ℕ) → lookup i t.buckets ≡ some p → is_some (lookup p t.store) ≡ true
    pub fresh : (i : ℤ) (p : ℕ) → lookup i t.buckets ≡ some p → p < t.next
    pub own : (i j : ℤ) (p : ℕ) → lookup i t.buckets ≡ some p → lookup j t.buckets ≡ some p → i ≡ j
    pub flag : t.has_limits ≡ not (is_empty t.buckets)

  pub new-IsSound : IsSound (new_speed_tracker lib)
  unfolding new_speed_tracker lookup
  new-IsSound = record {
    alive = λ i p e. cc;
    fresh = λ i p e. absurd (cc);
    own = λ i j p e. cc;
    flag = refl;
  }

  is_some-sync_buckets :
      (us : Dict ℤ UserSpec) (p : ℕ) (t : SpeedTracker lib)
      → is_some (lookup p t.store) ≡ true
      → is_some (lookup p (sync_buckets lib us t).store) ≡ true
  unfolding sync_buckets
  is_some-sync_buckets [] p t h = h
  is_some-sync_buckets ((i, u) ∷ us) p t h =
      is_some-sync_buckets us p (sync_bucket lib u t) (is_some-sync_bucket lib p u t h)

  next-sync_buckets :
      (us : Dict ℤ UserSpec) (t : SpeedTracker lib) → (sync_buckets lib us t).next ≡ t.next
  unfolding sync_buckets sync_bucket
  next-sync_buckets [] t = refl
  next-sync_buckets ((i, u) ∷ us) t = ground (arith, next-sync_buckets us (sync_bucket lib u t))

  kept-some : (u : Option UserSpec) (b : Option ℕ) (p : ℕ) → kept u b ≡ some p → b ≡ some p
  kept-some none b p e = cc
  kept-some (some u) b p e = ground arith

  survives :
      (users : Dict ℤ UserSpec) (t : SpeedTracker lib) (i : ℤ) (p : ℕ)
      → WellKeyed users
      → lookup i (update_buckets lib users t).buckets ≡ some p
      → lookup i t.buckets ≡ some p
  survives users t i p k e = ground (
    arith,
    lookup-update_buckets lib users t i k,
    kept-some (lookup i users) (lookup i t.buckets) p,
  )

  -- `UpdateBuckets` keeps the invariant.
  pub update_buckets-IsSound :
      (users : Dict ℤ UserSpec) (t : SpeedTracker lib)
      → WellKeyed users
      → IsSound t
      → IsSound (update_buckets lib users t)
  unfolding update_buckets
  update_buckets-IsSound users t k s = record {
    alive = λ i p e. is_some-sync_buckets users p t (s.alive i p (survives users t i p k e));
    fresh = λ i p e. rw (next-sync_buckets users t) (s.fresh i p (survives users t i p k e));
    own = λ i j p e e'. s.own i j p (survives users t i p k e) (survives users t j p k e');
    flag = refl;
  }

  is_empty-lookup : (k : ℤ) (p : ℕ) (m : Dict ℤ ℕ) → lookup k m ≡ some p → is_empty m ≡ false
  unfolding lookup
  is_empty-lookup k p [] e = cc
  is_empty-lookup k p (x ∷ m) e = refl

  -- So does the part of `GetLimiter` under the write lock, whatever happened since the read locks
  -- were released.
  pub store_limiter-IsSound :
      (t : SpeedTracker lib) (f : Found lib) → IsSound t → IsSound (store_limiter lib t f).1
  unfolding store_limiter
  store_limiter-IsSound t nothing s = s
  store_limiter-IsSound t (existing p) s = s
  store_limiter-IsSound t (missing uid bps b) s = elim (Option-cases (lookup uid t.buckets)) [
    | inr (q, e) ↦ rw (e, store_limiter) s
    | inl e ↦
        rw (e, store_limiter)
          (record {
            alive = λ i p h. ground (
              arith,
              s.alive i p,
              lookup-insert i uid t.next t.buckets,
              lookup-insert p t.next (new_limiter bps b) t.store,
            );
            fresh = λ i p h. ground (arith, s.fresh i p, lookup-insert i uid t.next t.buckets);
            own = λ i j p h h'. ground (
              arith,
              s.own i j p,
              s.fresh i p,
              s.fresh j p,
              lookup-insert i uid t.next t.buckets,
              lookup-insert j uid t.next t.buckets,
              beq_ℤ_iff uid i,
              beq_ℤ_iff uid j,
            );
            flag = ground (arith, is_empty-insert uid t.next t.buckets);
          })
  ]
