-- ===== src/Service/Events/Stuck.antt =====
-- A node of internal/service/service.go that starts without users.
use xboard_node_win.Common.{
  ℤ, Dict, Text, beq_text_iff, false, if◌then◌else◌, from_option, Option, none, some, List, [], ◌∷◌,
  ◌≡◌, refl, ◌∙◌, arith, Option-cases, inl, inr,
}
use xboard_node_win.Model.{UserSpec}
use xboard_node_win.Model.NodeSpec.{NodeSpec}
use xboard_node_win.SpeedTracker.{RateLib}
use xboard_node_win.ControlPlane.{
  EventType, sync_config, sync_users, sync_user_delta, sync_devices, unknown, Event, MailboxState,
}
use xboard_node_win.Service.{ensure_running, apply_user_update}
use xboard_node_win.Service.Resync.{take_result}
use xboard_node_win.Service.Events.{
  Oracle, PullResult, runs, update_all_users, apply_delta, apply_changes, apply_remote_overrides,
  apply_node_cert, take_config, handle_config, handle_users, handle_devices, handle_ws_event,
  pull_result_of, pull_config, pull_users, apply_pull_result, drain_machine_mailbox,
}
use xboard_node_win.Service.Events.Hashes.{State}
use xboard_node_win.Service.Events.Pulls.{Turn, event, polled, drained, turn, run}

module _ (lib : RateLib) (user_hash : List UserSpec → Text) (config_hash : NodeSpec → Text) where
  -- The service has the users that it had.
  abbrev Same : State lib user_hash config_hash → State lib user_hash config_hash → Type 0
  Same s t = t.users ≡ s.users

  abbrev pub HasNoUsers : State lib user_hash config_hash → Type 0
  HasNoUsers s = from_option [] s.users.last_users ≡ []

  runs_no :
      (o : Oracle) (s : State lib user_hash config_hash)
      → o.running ≡ false
      → HasNoUsers s
      → runs lib user_hash config_hash o s ≡ false
  unfolding ensure_running
  runs_no o s r h = ground (arith, r, h)

  update_all_users-Same :
      (o : Oracle) (users : Option (List UserSpec)) (hash : Text)
      (s : State lib user_hash config_hash)
      → o.running ≡ false
      → HasNoUsers s
      → Same s (update_all_users lib user_hash config_hash o users hash s)
  unfolding update_all_users apply_user_update
  update_all_users-Same o users hash s r h = ground (arith, runs_no o s r h)

  apply_delta-Same :
      (o : Oracle) (action : Text) (delta : List UserSpec) (s : State lib user_hash config_hash)
      → o.running ≡ false
      → HasNoUsers s
      → Same s (apply_delta lib user_hash config_hash o action delta s)
  unfolding apply_delta
  apply_delta-Same o action delta s r h = ground (arith, r, runs_no o s r h)

  take_config-Same :
      (o : Oracle) (n : NodeSpec) (hash : Text) (s : State lib user_hash config_hash)
      → Same s (take_config lib user_hash config_hash o n hash s)
  unfolding take_config apply_remote_overrides apply_node_cert
  take_config-Same o n hash s = ground arith

  apply_changes-Same :
      (o : Oracle) (s : State lib user_hash config_hash)
      → Same s (apply_changes lib user_hash config_hash o s)
  unfolding apply_changes
  apply_changes-Same o s = ground arith

  handle_config-Same :
      (o : Oracle) (c : Option NodeSpec) (s : State lib user_hash config_hash)
      → Same s (handle_config lib user_hash config_hash o c s)
  unfolding handle_config
  handle_config-Same o none s = refl
  handle_config-Same o (some n) s =
      let t = take_config lib user_hash config_hash o n (config_hash n) s in
      ground (arith, take_config-Same o n (config_hash n) s, apply_changes-Same o t)

  handle_users-Same :
      (o : Oracle) (users : Option (List UserSpec)) (s : State lib user_hash config_hash)
      → o.running ≡ false
      → HasNoUsers s
      → Same s (handle_users lib user_hash config_hash o users s)
  unfolding handle_users
  handle_users-Same o none s r h = refl
  handle_users-Same o (some us) s r h =
      ground (arith, update_all_users-Same o (some us) (user_hash us) s r h)

  handle_devices-Same :
      (d : Option (Dict ℤ (List Text))) (s : State lib user_hash config_hash)
      → Same s (handle_devices lib user_hash config_hash d s)
  unfolding handle_devices
  handle_devices-Same none s = refl
  handle_devices-Same (some d) s = refl

  handle_ws_event-Same :
      (k : EventType) (o : Oracle) (e : Event) (s : State lib user_hash config_hash)
      → e.kind ≡ k
      → o.running ≡ false
      → HasNoUsers s
      → Same s (handle_ws_event lib user_hash config_hash o e s)
  unfolding handle_ws_event
  handle_ws_event-Same sync_config o e s k r h =
      rw (k, handle_ws_event) (handle_config-Same o e.config s)
  handle_ws_event-Same sync_users o e s k r h =
      rw (k, handle_ws_event) (handle_users-Same o e.users s r h)
  handle_ws_event-Same sync_user_delta o e s k r h =
      rw (k, handle_ws_event) (apply_delta-Same o e.delta_action e.delta_users s r h)
  handle_ws_event-Same sync_devices o e s k r h =
      rw (k, handle_ws_event) (handle_devices-Same e.device_users s)
  handle_ws_event-Same unknown o e s k r h = rw (k, handle_ws_event) refl

  -- A poll whose configuration is nil or has the hash that was current when it started.
  abbrev pub IsCurrent : Text → Option NodeSpec → Type 0
  IsCurrent current none = Unit
  IsCurrent current (some n) = config_hash n ≡ current

  unchanged :
      (current : Text) (c : Option NodeSpec) (users : Option (List UserSpec))
      → IsCurrent current c
      → (pull_result_of lib user_hash config_hash current false
          (record { config = c; users = users })).config
        ≡ none
  unfolding pull_result_of
  unchanged current none users h = ground arith
  unchanged current (some n) users h = ground (arith, h, beq_text_iff (config_hash n) current)

  -- The users of a poll that brings no new configuration.
  polled-Same :
      (o : Oracle) (r : PullResult) (s : State lib user_hash config_hash)
      → r.config ≡ none
      → r.cert_changed ≡ false
      → o.running ≡ false
      → HasNoUsers s
      → Same s (apply_pull_result lib user_hash config_hash o r s)
  unfolding apply_pull_result pull_config pull_users
  polled-Same o r s c b e h =
      let taken : State lib user_hash config_hash = record s { pull = take_result s.pull } in
      elim (Option-cases r.users) [
        | inl u ↦ ground (arith, c, b, u)
        | inr (us, u) ↦
            ground (arith, c, b, u, update_all_users-Same o (some us) r.user_hash taken e h)
      ]

  drain-Same :
      (o1 o2 o3 : Oracle) (m : MailboxState) (s : State lib user_hash config_hash)
      → o2.running ≡ false
      → HasNoUsers s
      → Same s (drain_machine_mailbox lib user_hash config_hash o1 o2 o3 m s)
  unfolding drain_machine_mailbox
  drain-Same o1 o2 o3 m s r h =
      let s1 = if m.has_config then handle_config lib user_hash config_hash o1 m.config s else s in
      let one : Same s s1 = ground (arith, handle_config-Same o1 m.config s) in
      let s2 = if m.has_users then handle_users lib user_hash config_hash o2 m.users s1 else s1 in
      let empty : HasNoUsers s1 = rw one h in
      let two : Same s1 s2 = ground (arith, handle_users-Same o2 m.users s1 r empty) in
      let s3 =
        if m.has_devices then handle_devices lib user_hash config_hash m.device_users s2 else s2 in
      let three : Same s2 s3 = ground (arith, handle_devices-Same m.device_users s2) in
      ground (arith, one, two, three)

  -- The kernel does not run, and a poll brings neither a new configuration nor a new certificate.
  abbrev pub IsStopped : Turn → Type 0
  IsStopped (event o e) = o.running ≡ false
  IsStopped (polled o current cert_changed p) =
      (o.running ≡ false) × ((cert_changed ≡ false) × IsCurrent current p.config)
  IsStopped (drained o1 o2 o3 m) = (o1.running ≡ false) × (o2.running ≡ false)

  abbrev pub AllStopped : List Turn → Type 0
  AllStopped [] = Unit
  AllStopped (t ∷ ts) = IsStopped t × AllStopped ts

  turn-Same :
      (t : Turn) (s : State lib user_hash config_hash)
      → IsStopped t
      → HasNoUsers s
      → Same s (turn lib user_hash config_hash t s)
  unfolding turn pull_result_of
  turn-Same (event o e) s r h = handle_ws_event-Same e.kind o e s refl r h
  turn-Same (polled o current cert_changed p) s (r, (b, c)) h =
      polled-Same o (pull_result_of lib user_hash config_hash current cert_changed p) s
        (rw b (unchanged current p.config p.users c)) b r h
  turn-Same (drained o1 o2 o3 m) s (r, q) h = drain-Same o1 o2 o3 m s q h

  -- A service without users never gets any by events, drains and polls while the kernel does not run and no
  -- poll brings a new configuration or certificate: whatever users they bring, as a full list or as a
  -- delta, and whatever configurations come by the WebSocket, its users stay as they were.
  pub run_without_users :
      (ts : List Turn) (s : State lib user_hash config_hash)
      → AllStopped ts
      → from_option [] s.users.last_users ≡ []
      → (run lib user_hash config_hash ts s).users ≡ s.users
  unfolding run
  run_without_users [] s q h = refl
  run_without_users (t ∷ ts) s q h =
      let one = turn-Same t s q.0 h in
      let s1 = turn lib user_hash config_hash t s in
      let empty : HasNoUsers s1 = rw one h in run_without_users ts s1 q.1 empty ∙ one
