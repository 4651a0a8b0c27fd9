-- ===== src/SpeedTracker/Runs.antt =====
-- Any sequence of calls of internal/limiter/speedtracker.go, from a new tracker on.
use xboard_node_win.Common.{
  ℕ, ℤ, pos, Dict, lookup, ltb_ℤ, int_key, nat_key, List, [], ◌∷◌, Option, none, some, true, ◌≡◌,
  refl, arith, sym, ◌∙◌,
}
use xboard_node_win.Model.{UserSpec}
use xboard_node_win.SpeedTracker.{
  RateLib, SpeedTracker, Found, store_limiter, new_speed_tracker, update_buckets,
}
use xboard_node_win.SpeedTracker.Sync.{WellKeyed, kept, lookup-update_buckets}
use xboard_node_win.SpeedTracker.Tune.{params, params_for, params-update_buckets}
use xboard_node_win.SpeedTracker.Invariant.{
  IsSound, new-IsSound, update_buckets-IsSound, store_limiter-IsSound,
}

module _ (lib : RateLib) where
  -- An update of the users, or the locked part of a `GetLimiter`, which may have read the tracker at
  -- any earlier time.
  pub data Op : Type 0 where
    updates : Dict ℤ UserSpec → Op
    stores : Found lib → Op

  abbrev pub step : Op → SpeedTracker lib → SpeedTracker lib
  step (updates users) t = update_buckets lib users t
  step (stores f) t = (store_limiter lib t f).1

  unfoldable pub run : List Op → SpeedTracker lib → SpeedTracker lib
  run [] t = t
  run (op ∷ ops) t = run ops (step op t)

  abbrev pub AllKeyed : List Op → Type 0
  AllKeyed [] = Unit
  AllKeyed (updates users ∷ ops) = WellKeyed users × AllKeyed ops
  AllKeyed (stores f ∷ ops) = AllKeyed ops

  -- From a sound tracker, after any sequence of updates, each with its users under their own ids, and
  -- of concurrent `GetLimiter` calls: every bucket points at a stored limiter, no two users share
  -- one, the pointers are older than the next one, and the fast-path flag says whether there is a
  -- bucket.
  pub run-IsSound :
      (ops : List Op) (t : SpeedTracker lib)
      → AllKeyed ops
      → IsSound lib t
      → IsSound lib (run ops t)
  unfolding run
  run-IsSound [] t k s = s
  run-IsSound (updates users ∷ ops) t k s =
      run-IsSound ops (update_buckets lib users t) k.1 (update_buckets-IsSound lib users t k.0 s)
  run-IsSound (stores f ∷ ops) t k s =
      run-IsSound ops (store_limiter lib t f).1 k (store_limiter-IsSound lib t f s)

  kept_fast :
      (o : Option UserSpec) (b : Option ℕ) (p : ℕ)
      → kept o b ≡ some p
      → (u : UserSpec) × (o ≡ some u) × (ltb_ℤ (pos 0) u.speed_limit ≡ true) × (b ≡ some p)
  kept_fast none b p e = absurd (cc)
  kept_fast (some u) b p e = (u, refl, ground arith, ground arith)

  -- Whatever a new tracker has been through, if every update had its users under their own ids, then
  -- after one more such `UpdateBuckets` each bucket belongs to a user of the node with a positive
  -- speed limit, and its limiter has the rate and the burst of that limit.
  pub update_buckets-run :
      (ops : List Op) (users : Dict ℤ UserSpec) (id : ℤ) (p : ℕ)
      → AllKeyed ops
      → WellKeyed users
      → let t = update_buckets lib users (run ops (new_speed_tracker lib)) in
        lookup id t.buckets ≡ some p
        → (u : UserSpec) × (lookup id users ≡ some u)
          × (ltb_ℤ (pos 0) u.speed_limit ≡ true)
          × (params lib p t.store ≡ params_for lib u.speed_limit)
  update_buckets-run ops users id p ks k e =
      let t = run ops (new_speed_tracker lib) in
      let s = run-IsSound ops (new_speed_tracker lib) ks (new-IsSound lib) in
      let (u, known, fast, b) =
        kept_fast (lookup id users) (lookup id t.buckets) p
          (sym (lookup-update_buckets lib users t id k) ∙ e) in
      (
        u,
        known,
        fast,
        params-update_buckets lib users t id p u (λ j h. s.own j id p h b) k known fast b
            (s.alive id p b),
      )
