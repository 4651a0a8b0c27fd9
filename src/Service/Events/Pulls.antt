-- ===== src/Service/Events/Pulls.antt =====
-- The hashes through the polls and the mailbox of internal/service/service.go, and through any run of its main loop.
use xboard_node_win.Common.{
  Text, beq_text, Bool, true, false, not, ◌&&◌, if◌then◌else◌, from_option, Option, none, some,
  List, [], ◌∷◌, ◌≡◌, refl, ◌⊎◌, inl, inr,
}
use xboard_node_win.Model.{UserSpec}
use xboard_node_win.Model.NodeSpec.{NodeSpec}
use xboard_node_win.SpeedTracker.{RateLib}
use xboard_node_win.ControlPlane.{Event, MailboxState}
use xboard_node_win.Service.{prepare_user_state}
use xboard_node_win.Service.Resync.{request_ws_resync, take_result}
use xboard_node_win.Service.Events.{
  Oracle, Snapshot, PullResult, taken_config, taken_users, update_all_users, apply_changes,
  take_config, is_valid, handle_config, handle_users, handle_devices, handle_ws_event,
  pull_result_of, pull_config, pull_users, apply_pull_result, drain_machine_mailbox,
}
use xboard_node_win.Service.Events.Users.{prepared}
use xboard_node_win.Service.Events.Hashes.{
  State, hash_of, IsHashed, if_IsHashed, update_all_users-IsHashed, take_config-IsHashed,
  apply_changes-IsHashed, handle_config-IsHashed, handle_users-IsHashed, handle_devices-IsHashed,
  handle_ws_event-IsHashed,
}

-- What the main loop handles: an event, the result of a poll with the hash current at its start, or
-- what a mailbox gives.
pub data Turn : Type 0 where
  event : Oracle → Event → Turn
  polled : Oracle → Text → Bool → Snapshot → Turn
  drained : Oracle → Oracle → Oracle → MailboxState → Turn

module _ (lib : RateLib) (user_hash : List UserSpec → Text) (config_hash : NodeSpec → Text) where
  taken_config-IsHashed :
      (o : Oracle) (c : Option NodeSpec) (hash : Text) (cert_changed : Bool)
      (s : State lib user_hash config_hash)
      → (c ≡ none) ⊎ (hash ≡ hash_of lib user_hash config_hash c)
      → IsHashed lib user_hash config_hash s
      → IsHashed lib user_hash config_hash
          (taken_config lib user_hash config_hash o c hash cert_changed s).1
  taken_config-IsHashed o none hash b s e h = h
  taken_config-IsHashed o (some n) hash b s (inl e) h = cc
  taken_config-IsHashed o (some n) hash b s (inr e) h =
      by_valid (is_valid lib user_hash config_hash o n)
    where
      by_valid :
          (v : Bool)
          → IsHashed lib user_hash config_hash (
              let r : Bool × State lib user_hash config_hash =
                if v then (true, take_config lib user_hash config_hash o n hash s) else (b, s) in
              r.1)
      by_valid true = rw e (take_config-IsHashed lib user_hash config_hash o n s h)
      by_valid false = h

  taken_users-IsHashed :
      (o : Oracle) (changed : Bool) (us : Option (List UserSpec)) (hash : Text)
      (s : State lib user_hash config_hash)
      → (us ≡ none) ⊎ (hash ≡ user_hash (from_option [] us))
      → IsHashed lib user_hash config_hash s
      → IsHashed lib user_hash config_hash
          (taken_users lib user_hash config_hash o changed us hash s)
  taken_users-IsHashed o changed none hash s e h = h
  taken_users-IsHashed o changed (some us) hash s (inl e) h = cc
  taken_users-IsHashed o changed (some us) hash s (inr e) h =
      let prepared' : State lib user_hash config_hash = record s {
        users = prepare_user_state lib user_hash (some us) s.users;
      } in
      let all = update_all_users lib user_hash config_hash o (some us) hash s in
      if_IsHashed lib user_hash config_hash (beq_text hash s.users.last_user_hash) s
        (if changed then prepared' else all) h
        (if_IsHashed lib user_hash config_hash changed prepared' all
          (prepared lib user_hash (some us) s.users, h.1)
          (update_all_users-IsHashed lib user_hash config_hash o (some us) hash s e h))

  -- The hashes of a result belong to what it brings.
  IsHonest : PullResult → Type 0
  IsHonest r =
      ((r.config ≡ none) ⊎ (r.config_hash ≡ hash_of lib user_hash config_hash r.config))
      × ((r.users ≡ none) ⊎ (r.user_hash ≡ user_hash (from_option [] r.users)))

  kept_honest :
      (b : Bool) (c : Option NodeSpec)
      → ((if b then none else c) ≡ none)
        ⊎ (hash_of lib user_hash config_hash c
            ≡ hash_of lib user_hash config_hash (if b then none else c))
  kept_honest true c = inl refl
  kept_honest false c = inr refl

  users_honest :
      (us : Option (List UserSpec))
      → (us ≡ none)
        ⊎ (elim us [ none ↦ [] | some vs ↦ user_hash vs ] ≡ user_hash (from_option [] us))
  users_honest none = inl refl
  users_honest (some us) = inr refl

  pull_result_of-IsHonest :
      (current : Text) (cert_changed : Bool) (p : Snapshot)
      → IsHonest (pull_result_of lib user_hash config_hash current cert_changed p)
  unfolding pull_result_of IsHonest
  pull_result_of-IsHonest current b p = (
    kept_honest (beq_text (hash_of lib user_hash config_hash p.config) current && not b) p.config,
    users_honest p.users,
  )

  apply_pull_result-IsHashed :
      (o : Oracle) (r : PullResult) (s : State lib user_hash config_hash)
      → IsHonest r
      → IsHashed lib user_hash config_hash s
      → IsHashed lib user_hash config_hash (apply_pull_result lib user_hash config_hash o r s)
  unfolding apply_pull_result pull_config pull_users IsHonest
  apply_pull_result-IsHashed o r s e h =
      let s0 : State lib user_hash config_hash = record s { pull = take_result s.pull } in
      let c = taken_config lib user_hash config_hash o r.config r.config_hash r.cert_changed s0 in
      let s2 = taken_users lib user_hash config_hash o c.0 r.users r.user_hash c.1 in
      let good =
        taken_users-IsHashed o c.0 r.users r.user_hash c.1 e.1
          (taken_config-IsHashed o r.config r.config_hash r.cert_changed s0 e.0 h) in
      if_IsHashed lib user_hash config_hash c.0 (apply_changes lib user_hash config_hash o s2) s2
        (apply_changes-IsHashed lib user_hash config_hash o s2 good) good

  drain-IsHashed :
      (o1 o2 o3 : Oracle) (m : MailboxState) (s : State lib user_hash config_hash)
      → IsHashed lib user_hash config_hash s
      → IsHashed lib user_hash config_hash
          (drain_machine_mailbox lib user_hash config_hash o1 o2 o3 m s)
  unfolding drain_machine_mailbox
  drain-IsHashed o1 o2 o3 m s h =
      let s1 = if m.has_config then handle_config lib user_hash config_hash o1 m.config s else s in
      let h1 =
        if_IsHashed lib user_hash config_hash m.has_config
          (handle_config lib user_hash config_hash o1 m.config s) s
          (handle_config-IsHashed lib user_hash config_hash o1 m.config s h) h in
      let s2 = if m.has_users then handle_users lib user_hash config_hash o2 m.users s1 else s1 in
      let h2 =
        if_IsHashed lib user_hash config_hash m.has_users
          (handle_users lib user_hash config_hash o2 m.users s1) s1
          (handle_users-IsHashed lib user_hash config_hash o2 m.users s1 h1) h1 in
      let s3 =
        if m.has_devices then handle_devices lib user_hash config_hash m.device_users s2 else s2 in
      let h3 =
        if_IsHashed lib user_hash config_hash m.has_devices
          (handle_devices lib user_hash config_hash m.device_users s2) s2
          (handle_devices-IsHashed lib user_hash config_hash m.device_users s2 h2) h2 in
      if_IsHashed lib user_hash config_hash m.needs_reconcile
        (record s3 { pull = request_ws_resync o3.polls s3.pull }) s3 h3 h3

  unfoldable pub turn : Turn → State lib user_hash config_hash → State lib user_hash config_hash
  turn (event o e) s = handle_ws_event lib user_hash config_hash o e s
  turn (polled o current b p) s =
      apply_pull_result lib user_hash config_hash o
        (pull_result_of lib user_hash config_hash current b p) s
  turn (drained o1 o2 o3 m) s = drain_machine_mailbox lib user_hash config_hash o1 o2 o3 m s

  unfoldable pub run : List Turn → State lib user_hash config_hash → State lib user_hash config_hash
  run [] s = s
  run (t ∷ ts) s = run ts (turn t s)

  turn-IsHashed :
      (t : Turn) (s : State lib user_hash config_hash)
      → IsHashed lib user_hash config_hash s
      → IsHashed lib user_hash config_hash (turn t s)
  unfolding turn
  turn-IsHashed (event o e) s h = handle_ws_event-IsHashed lib user_hash config_hash o e s h
  turn-IsHashed (polled o current b p) s h =
      apply_pull_result-IsHashed o (pull_result_of lib user_hash config_hash current b p) s
        (pull_result_of-IsHonest current b p) h
  turn-IsHashed (drained o1 o2 o3 m) s h = drain-IsHashed o1 o2 o3 m s h

  -- Through any events, polls and drains, whatever the kernel and the certificates answer: the
  -- hash of the configuration stays that of the configuration kept, and the hash of the users that
  -- of the users kept, so that what is ignored as unchanged is what is kept already. A service that
  -- keeps no configuration or no users yet has the empty hash for it.
  pub run-IsHashed :
      (ts : List Turn) (s : State lib user_hash config_hash)
      → IsHashed lib user_hash config_hash s
      → IsHashed lib user_hash config_hash (run ts s)
  unfolding run
  run-IsHashed [] s h = h
  run-IsHashed (t ∷ ts) s h = run-IsHashed ts (turn t s) (turn-IsHashed t s h)
