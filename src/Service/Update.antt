-- ===== src/Service/Update.antt =====
-- `applyUserUpdate` of internal/service/service.go: the limiter, the speed tracker and the list of users.
use xboard_node_win.Common.{
  Text, is_empty, from_option, if◌then◌else◌, int_key, List, [], ◌∷◌, Option, none, some, ◌&&◌,
  ◌||◌, ◌≡◌, refl, Bool-cases, inl, inr,
}
use xboard_node_win.Model.{UserSpec}
use xboard_node_win.Limiter.{Limiter, update_users, get_device_limit_by_uuid}
use xboard_node_win.Limiter.Users.{users-update_users}
use xboard_node_win.Limiter.Limits.{AllApart, panel_limit, get_device_limit-update_users}
use xboard_node_win.SpeedTracker.{RateLib}
use xboard_node_win.SpeedTracker.Sync.{WellKeyed}
use xboard_node_win.SpeedTracker.Invariant.{IsSound, update_buckets-IsSound}
use xboard_node_win.ControlPlane.{append_nil}
use xboard_node_win.Service.{
  Answers, UserState, restore_user_state, prepare_user_state, ensure_running, apply_user_update,
}
use xboard_node_win.Service.Deltas.{index_users-WellKeyed}

module _ (lib : RateLib) (user_hash : List UserSpec → Text) where
  users-WellKeyed : (l : Limiter) (us : List UserSpec) → WellKeyed (update_users l us).0.users
  users-WellKeyed l us = rw (users-update_users l us) (index_users-WellKeyed us [] tt)

  restore_user_state-IsSound :
      (users : Option (List UserSpec)) (hash : Text) (s : UserState lib user_hash)
      → IsSound lib s.speed
      → IsSound lib (restore_user_state lib user_hash users hash s).speed
  unfolding restore_user_state
  restore_user_state-IsSound users hash s h =
      let us = from_option [] users in
      update_buckets-IsSound lib (update_users s.limiter us).0.users s.speed
        (users-WellKeyed s.limiter us) h

  -- A call of `applyUserUpdate`.
  abbrev pub Call : Type 0
  Call = Answers × Option (List UserSpec) × Text

  unfoldable pub run : List Call → UserState lib user_hash → UserState lib user_hash
  run [] s = s
  run ((k, users, hash) ∷ calls) s = run calls (apply_user_update lib user_hash k users hash s)

  apply-IsSound :
      (k : Answers) (users : Option (List UserSpec)) (hash : Text) (s : UserState lib user_hash)
      → IsSound lib s.speed
      → IsSound lib (apply_user_update lib user_hash k users hash s).speed
  unfolding apply_user_update prepare_user_state
  apply-IsSound k users hash s h =
      let own = user_hash (from_option [] users) in
      let p = restore_user_state lib user_hash users own s in
      let before = append_nil (from_option [] s.last_users) in
      let sound = restore_user_state-IsSound users own s h in
      let back = restore_user_state-IsSound before s.last_user_hash p sound in
      elim (Bool-cases (ensure_running lib user_hash k s)) [
        | inr e ↦ rw (e, apply_user_update) h
        | inl e ↦ elim (Bool-cases k.updates) [
          | inr f ↦ elim (Bool-cases k.restarts) [
            | inl r ↦ rw (e, f, r, apply_user_update) sound
            | inr r ↦ rw (e, f, r, apply_user_update) back
          ]
          | inl f ↦ elim (Bool-cases (is_empty hash)) [
            | inl n ↦ rw (e, f, n, apply_user_update) sound
            | inr n ↦ rw (e, f, n, apply_user_update) sound
          ]
        ]
      ]

  limits_of :
      (users : Option (List UserSpec)) (hash : Text) (s : UserState lib user_hash) (uuid : Text)
      → AllApart (from_option [] users)
      → get_device_limit_by_uuid (restore_user_state lib user_hash users hash s).limiter uuid
        ≡ panel_limit uuid (from_option [] users)
  unfolding restore_user_state
  limits_of users hash s uuid a =
      get_device_limit-update_users s.limiter (from_option [] users) uuid a

  -- The list of users that is in force after an update.
  abbrev pub in_force : Answers → Option (List UserSpec) → UserState lib user_hash → List UserSpec
  in_force k users s =
      if ensure_running lib user_hash k s && (k.updates || k.restarts)
      then from_option [] users
      else from_option [] s.last_users

  append_nil_again : (us : List UserSpec) → from_option [] (append_nil us) ≡ us
  append_nil_again [] = refl
  append_nil_again (u ∷ us) = refl

  -- The state has these users, and their limits.
  abbrev Stands : UserState lib user_hash → List UserSpec → Text → Type 0
  Stands s us uuid =
      (from_option [] s.last_users ≡ us)
      × (get_device_limit_by_uuid s.limiter uuid ≡ panel_limit uuid us)

  restored :
      (users : Option (List UserSpec)) (hash : Text) (s : UserState lib user_hash) (uuid : Text)
      → AllApart (from_option [] users)
      → Stands (restore_user_state lib user_hash users hash s) (from_option [] users) uuid
  unfolding restore_user_state
  restored users hash s uuid a =
      (append_nil_again (from_option [] users), limits_of users hash s uuid a)

  restored_again :
      (us : List UserSpec) (hash : Text) (s : UserState lib user_hash) (uuid : Text)
      → AllApart us
      → Stands (restore_user_state lib user_hash (append_nil us) hash s) us uuid
  restored_again [] hash s uuid a = restored none hash s uuid a
  restored_again (u ∷ us) hash s uuid a = restored (some (u ∷ us)) hash s uuid a

  -- The device limits and the list of users stay together on every branch: where both lists have no
  -- two users with one id or uuid and the limits agree with the old list, an update that is not
  -- refused leaves the new list and its limits, and one that fails or finds no running kernel leaves
  -- the old list and its limits.
  pub apply_user_update-limits :
      (k : Answers) (users : Option (List UserSpec)) (hash : Text) (s : UserState lib user_hash)
      (uuid : Text)
      → AllApart (from_option [] users)
      → AllApart (from_option [] s.last_users)
      → get_device_limit_by_uuid s.limiter uuid ≡ panel_limit uuid (from_option [] s.last_users)
      → let s' = apply_user_update lib user_hash k users hash s in
        (from_option [] s'.last_users ≡ in_force k users s)
        × (get_device_limit_by_uuid s'.limiter uuid ≡ panel_limit uuid (in_force k users s))
  unfolding apply_user_update prepare_user_state
  apply_user_update-limits k users hash s uuid a b old =
      let own = user_hash (from_option [] users) in
      let p = restore_user_state lib user_hash users own s in
      let now = restored users own s uuid a in
      let back = restored_again (from_option [] s.last_users) s.last_user_hash p uuid b in
      elim (Bool-cases (ensure_running lib user_hash k s)) [
        | inr e ↦ rw (e, apply_user_update) (refl, old)
        | inl e ↦ elim (Bool-cases k.updates) [
          | inr f ↦ elim (Bool-cases k.restarts) [
            | inl r ↦ rw (e, f, r, apply_user_update) now
            | inr r ↦ rw (e, f, r, apply_user_update) back
          ]
          | inl f ↦ elim (Bool-cases (is_empty hash)) [
            | inl n ↦ rw (e, f, n, apply_user_update) now
            | inr n ↦ rw (e, f, n, apply_user_update) now
          ]
        ]
      ]

  -- Whatever lists of users arrive, with repeated ids or not, and whatever the kernel answers, a sound
  -- speed tracker stays sound through any updates and rollbacks.
  pub run-speed-IsSound :
      (calls : List Call) (s : UserState lib user_hash)
      → IsSound lib s.speed
      → IsSound lib (run calls s).speed
  unfolding run
  run-speed-IsSound [] s h = h
  run-speed-IsSound ((k, users, hash) ∷ calls) s h =
      run-speed-IsSound calls (apply_user_update lib user_hash k users hash s)
        (apply-IsSound k users hash s h)
