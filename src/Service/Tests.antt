-- ===== src/Service/Tests.antt =====
-- Examples for internal/service/service.go: a service with one user, and one that has none yet.
use xboard_node_win.Common.{
  ◌≤◌, ℤ, pos, Text, bytes, from_option, text_key, List, [], ◌∷◌, some, none, true, false, ◌≡◌,
  refl, arith, lookup,
}
use xboard_node_win.Model.{UserSpec}
use xboard_node_win.Limiter.{Limiter, get_device_limit_by_uuid}
use xboard_node_win.Limiter.Limits.{panel_limit}
use xboard_node_win.SpeedTracker.{RateLib, new_speed_tracker}
use xboard_node_win.ControlPlane.{apply_user_delta}
use xboard_node_win.ControlPlane.Delta.{view}
use xboard_node_win.Service.{
  ApiBackoff, Answers, UserState, apply_user_update, merge_users, subtract_users,
}
use xboard_node_win.Service.Deltas.{merge_users-apply_user_delta}
use xboard_node_win.Service.Update.{in_force, apply_user_update-limits, Call}

abbrev pairs : RateLib
pairs = record {
  Lim = ℤ × ℤ;
  new_limiter = λ r b. (r, b);
  set_limit = λ l r. (r, l.1);
  set_burst = λ l b. (l.0, b);
  limit = λ l. l.0;
  burst = λ l. l.1;
  limit-new = λ r b. refl;
  burst-new = λ r b. refl;
  limit-set_limit = λ l r. refl;
  burst-set_limit = λ l r. refl;
  limit-set_burst = λ l b. refl;
  burst-set_burst = λ l b. refl;
}

abbrev no_hash : List UserSpec → Text
no_hash us = []

abbrev ann : UserSpec
ann = record { id = pos 7; uuid = bytes "a1"; speed_limit = pos 10; device_limit = pos 3 }

abbrev bob : UserSpec
bob = record { id = pos 8; uuid = bytes "b2"; speed_limit = pos 0; device_limit = pos 1 }

abbrev empty_limiter : Limiter
empty_limiter = record { users = []; uuid_device_limit = []; device_limit_events = 0 }

abbrev waiting : UserState pairs no_hash
waiting = record {
  limiter = empty_limiter;
  speed = new_speed_tracker pairs;
  last_users = none;
  last_user_hash = [];
}

abbrev works : Answers
works = record { running = true; has_config = true; starts = true; updates = true; restarts = true }

abbrev stopped : Answers
stopped = record {
  running = false;
  has_config = true;
  starts = true;
  updates = true;
  restarts = true;
}

no_limit : get_device_limit_by_uuid waiting.limiter (bytes "a1") ≡ panel_limit (bytes "a1") []
unfolding get_device_limit_by_uuid panel_limit lookup
no_limit = refl

apply_user_update-limits_example :
    let s' = apply_user_update pairs no_hash works (some (ann ∷ [])) [] waiting in
    (from_option [] s'.last_users ≡ in_force pairs no_hash works (some (ann ∷ [])) waiting)
    × (get_device_limit_by_uuid s'.limiter (bytes "a1")
        ≡ panel_limit (bytes "a1") (in_force pairs no_hash works (some (ann ∷ [])) waiting))
apply_user_update-limits_example =
    apply_user_update-limits pairs no_hash works (some (ann ∷ [])) [] waiting (bytes "a1") (tt, tt)
      tt no_limit

abbrev calls : List (Call pairs no_hash)
calls = (stopped, some (ann ∷ []), bytes "h1") ∷ (stopped, some (bob ∷ []), bytes "h2") ∷ []

merge_users-apply_user_delta_example :
    (view (merge_users (some (ann ∷ [])) (some (bob ∷ []))) (pos 8)
      ≡ view
          (from_option
            (some (ann ∷ []))
            (apply_user_delta (some (ann ∷ [])) (bytes "add") (bob ∷ [])))
          (pos 8))
    × (view (subtract_users (some (ann ∷ [])) (some (bob ∷ []))) (pos 8)
        ≡ view
            (from_option
              (some (ann ∷ []))
              (apply_user_delta (some (ann ∷ [])) (bytes "remove") (bob ∷ [])))
            (pos 8))
merge_users-apply_user_delta_example =
    merge_users-apply_user_delta (some (ann ∷ [])) (bob ∷ []) (pos 8)

abbrev fresh : ApiBackoff
fresh = record { skip_remaining = 0 }

zero_le : fresh.skip_remaining ≤ 1
zero_le = ground arith
