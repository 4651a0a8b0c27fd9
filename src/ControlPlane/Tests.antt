-- ===== src/ControlPlane/Tests.antt =====
-- Examples for internal/controlplane/mailbox.go.
use xboard_node_win.Common.{
  pos, Text, bytes, is_some, from_option, if◌then◌else◌, text_key, ◌==ₖ◌, List, [], ◌∷◌, some, none,
  true, ◌≡◌, refl,
}
use xboard_node_win.Limiter.Users.{last_user}
use xboard_node_win.Model.{UserSpec}
use xboard_node_win.ControlPlane.{
  sync_users, sync_user_delta, Event, NodeMailbox, new_node_mailbox, apply_locked, apply,
  apply_user_delta, drain_if_ready, seed_baseline,
}
use xboard_node_win.ControlPlane.Delta.{delta_meaning, view, apply_user_delta_meaning}
use xboard_node_win.ControlPlane.Refinement.{events_meaning, apply_all}
use xboard_node_win.ControlPlane.Drain.{
  after_drain, Covers, drain_if_ready_users, drain_if_ready_emptied,
}
use xboard_node_win.ControlPlane.Wakeup.{
  System, applies, readies, seeds, Reach, here, next, is_pending, WillDrain, start, Reach-WillDrain,
}

abbrev ann : UserSpec
ann = record { id = pos 7; uuid = bytes "a1"; speed_limit = pos 10; device_limit = pos 3 }

abbrev bob : UserSpec
bob = record { id = pos 8; uuid = bytes "b2"; speed_limit = pos 0; device_limit = pos 0 }

abbrev full_list : Event
full_list = record {
  kind = sync_users;
  config = none;
  users = some (ann ∷ []);
  delta_action = [];
  delta_users = [];
  device_users = none;
}

abbrev delta_of : Text → UserSpec → Event
delta_of action u = record {
  kind = sync_user_delta;
  config = none;
  users = none;
  delta_action = action;
  delta_users = u ∷ [];
  device_users = none;
}

abbrev events : List Event
events = delta_of (bytes "add") bob ∷ delta_of (bytes "remove") ann ∷ []

abbrev box : NodeMailbox
box = record new_node_mailbox { ready = true; has_full_user_state = true; users = some (ann ∷ []) }

drain_if_ready_users_example :
    after_drain (drain_if_ready (apply_all events box)).0 (view box.users (pos 8)) (pos 8)
    ≡ events_meaning events (pos 8) (view box.users (pos 8))
drain_if_ready_users_example = drain_if_ready_users events box (pos 8) refl refl refl

apply_user_delta_meaning_example :
    (view
        (from_option
          (some (ann ∷ []))
          (apply_user_delta (some (ann ∷ [])) (bytes "add") (bob ∷ [])))
        (pos 8)
      ≡ delta_meaning (bytes "add") (bob ∷ []) (pos 8) (view (some (ann ∷ [])) (pos 8)))
    × (is_some (apply_user_delta (some (ann ∷ [])) (bytes "add") (bob ∷ []))
        ≡ (if bytes "add" ==ₖ bytes "add" then true else bytes "add" ==ₖ bytes "remove"))
apply_user_delta_meaning_example =
    apply_user_delta_meaning (some (ann ∷ [])) (bytes "add") (bob ∷ []) (pos 8)

covers : Covers (ann ∷ []) (ann ∷ [])
unfolding last_user
covers = (refl, tt)

drain_if_ready_emptied_example :
    ((drain_if_ready (apply (delta_of (bytes "remove") ann) box)).0.has_users ≡ true)
    × ((drain_if_ready (apply (delta_of (bytes "remove") ann) box)).0.users ≡ none)
drain_if_ready_emptied_example =
    drain_if_ready_emptied (delta_of (bytes "remove") ann) box refl refl refl refl (λ e. cc) covers

-- The service seeds the mailbox, a full list arrives, and then the node becomes ready.
abbrev seeded : System
seeded = record start { box = seed_baseline (some (bob ∷ [])) none start.box }

abbrev filled : System
filled = record seeded { box = (apply_locked full_list seeded.box).0; posting = 1 }

abbrev both : System
both = record filled { box = record (filled.box) { ready = true }; posting = 2 }

reached : Reach start both
unfolding apply_locked seed_baseline
reached =
    next (next (next here (seeds start (some (bob ∷ [])) none)) (applies seeded full_list))
      (readies filled)

pending : is_pending both.box ≡ true
unfolding apply_locked seed_baseline
pending = refl

ready : both.box.ready ≡ true
ready = refl

Reach-WillDrain_example : WillDrain both
Reach-WillDrain_example = Reach-WillDrain both reached ready pending
