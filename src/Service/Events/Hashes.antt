-- ===== src/Service/Events/Hashes.antt =====
-- The hashes that internal/service/service.go compares to ignore what it has already: they belong to the
-- configuration and the users that the service keeps.
use xboard_node_win.Common.{
  ℤ, Dict, Text, bytes, beq_text, Bool, true, false, not, ◌&&◌, ◌||◌, if◌then◌else◌, is_empty,
  is_some, from_option, Option, none, some, List, [], ◌≡◌, refl,
}
use xboard_node_win.Model.{UserSpec}
use xboard_node_win.Model.NodeSpec.{NodeSpec, CertConfig}
use xboard_node_win.SpeedTracker.{RateLib}
use xboard_node_win.ControlPlane.{
  Event, sync_config, sync_users, sync_user_delta, sync_devices, unknown,
}
use xboard_node_win.Service.{UserState, apply_user_update, merge_users, subtract_users}
use xboard_node_win.Service.Events.{
  Oracle, ServiceState, answered_cert, override_cert, start_kernel, answers, runs, ensured,
  update_all_users, edit_users, apply_delta, apply_node_cert, apply_remote_overrides, apply_changes,
  take_config, is_valid, handle_config, handle_users, handle_devices, handle_ws_event,
}
use xboard_node_win.Service.Events.Users.{Matches, UsersMatch, updated, edited}

module _ (lib : RateLib) (user_hash : List UserSpec → Text) (config_hash : NodeSpec → Text) where
  -- `computeConfigHash`: no configuration has the empty hash.
  abbrev pub hash_of : Option NodeSpec → Text
  hash_of none = []
  hash_of (some n) = config_hash n

  abbrev pub State : Type 0
  State = ServiceState lib user_hash config_hash

  -- Both hashes belong to what is kept.
  abbrev pub IsHashed : State → Type 0
  IsHashed s =
      Matches lib user_hash s.users.last_users s.users.last_user_hash
      × (s.last_config_hash ≡ hash_of s.last_config)

  pub if_IsHashed :
      (b : Bool) (x y : State) → IsHashed x → IsHashed y → IsHashed (if b then x else y)
  if_IsHashed true x y h k = h
  if_IsHashed false x y h k = k

  pub start_kernel-IsHashed :
      (b : Bool) (nc : Option NodeSpec) (us : Option (List UserSpec)) (s : State)
      → IsHashed s
      → IsHashed (start_kernel lib user_hash config_hash b nc us s)
  start_kernel-IsHashed true nc us s h = h
  start_kernel-IsHashed false nc us s h = h

  pub ensured-IsHashed :
      (o : Oracle) (s : State) → IsHashed s → IsHashed (ensured lib user_hash config_hash o s)
  unfolding ensured
  ensured-IsHashed o s h =
      start_kernel-IsHashed (not o.running && runs lib user_hash config_hash o s) s.last_config
        s.users.last_users s h

  -- The users of a hashed state may be replaced by others that match.
  pub with_users :
      (s : State) (u : UserState lib user_hash)
      → IsHashed s
      → UsersMatch lib user_hash u
      → IsHashed (record s { users = u })
  with_users s u h m = (m, h.1)

  pub update_all_users-IsHashed :
      (o : Oracle) (users : Option (List UserSpec)) (hash : Text) (s : State)
      → hash ≡ user_hash (from_option [] users)
      → IsHashed s
      → IsHashed (update_all_users lib user_hash config_hash o users hash s)
  unfolding update_all_users
  update_all_users-IsHashed o users hash s e h =
      let u =
        apply_user_update lib user_hash (answers lib user_hash config_hash o s) users hash
          s.users in
      let t = ensured lib user_hash config_hash o s in
      start_kernel-IsHashed (runs lib user_hash config_hash o s && not o.updates && o.restarts)
        s.last_config users (record t { users = u })
        (with_users t u (ensured-IsHashed o s h)
          (updated lib user_hash (answers lib user_hash config_hash o s) users hash s.users e h.0))

  pub apply_delta-IsHashed :
      (o : Oracle) (action : Text) (delta : List UserSpec) (s : State)
      → IsHashed s
      → IsHashed (apply_delta lib user_hash config_hash o action delta s)
  unfolding apply_delta
  apply_delta-IsHashed o action delta s h =
      let added =
        edit_users lib user_hash config_hash o (merge_users s.users.last_users (some delta))
          s.users in
      let removed =
        edit_users lib user_hash config_hash o (subtract_users s.users.last_users (some delta))
          s.users in
      let t = ensured lib user_hash config_hash o s in
      let with_added : State = record t { users = added } in
      let with_removed : State = record s { users = removed } in
      let good_added = with_users t added (ensured-IsHashed o s h) (
        edited lib user_hash config_hash o (merge_users s.users.last_users (some delta)) s.users
          h.0) in
      let good_removed = with_users s removed h (
        edited lib user_hash config_hash o (subtract_users s.users.last_users (some delta)) s.users
          h.0) in
      let adds = if runs lib user_hash config_hash o s then with_added else s in
      let removes = if beq_text action (bytes "remove") && o.running then with_removed else s in
      if_IsHashed (is_empty delta) s (if beq_text action (bytes "add") then adds else removes) h (
        if_IsHashed (beq_text action (bytes "add")) adds removes
          (if_IsHashed (runs lib user_hash config_hash o s) with_added s good_added h)
          (if_IsHashed (beq_text action (bytes "remove") && o.running) with_removed s good_removed
            h))

  pub answered_cert-IsHashed :
      (r : Option Bool) (c : CertConfig) (s : State)
      → IsHashed s
      → IsHashed (answered_cert lib user_hash config_hash r c s).1
  answered_cert-IsHashed none c s h = h
  answered_cert-IsHashed (some changed) c s h = h

  pub override_cert-IsHashed :
      (o : Oracle) (n : NodeSpec) (c : Option CertConfig) (s : State)
      → IsHashed s
      → IsHashed (override_cert lib user_hash config_hash o n c s).1
  unfolding apply_node_cert
  override_cert-IsHashed o n none s h = h
  override_cert-IsHashed o n (some c) s h = answered_cert-IsHashed o.reconfigures c s h

  -- The overrides change neither the users nor the configuration.
  pub overrides-IsHashed :
      (o : Oracle) (n : NodeSpec) (s : State)
      → IsHashed s
      → IsHashed (apply_remote_overrides lib user_hash config_hash o n s).1
  unfolding apply_remote_overrides
  overrides-IsHashed o n s h =
      let level = if is_empty n.kernel_log_level then s.kernel_log_level else n.kernel_log_level in
      override_cert-IsHashed o n n.cert_config (record s { kernel_log_level = level }) h

  pub take_config-IsHashed :
      (o : Oracle) (n : NodeSpec) (s : State)
      → IsHashed s
      → IsHashed (take_config lib user_hash config_hash o n (config_hash n) s)
  unfolding take_config
  take_config-IsHashed o n s h =
      overrides-IsHashed o n (record s { last_config = some n; last_config_hash = config_hash n })
        (h.0, refl)

  pub apply_changes-IsHashed :
      (o : Oracle) (s : State) → IsHashed s → IsHashed (apply_changes lib user_hash config_hash o s)
  unfolding apply_changes
  apply_changes-IsHashed o s h =
      let us = s.users.last_users in
      let stopped : State = record s { applied_users = none } in
      let starts = (o.running && o.reloads) || o.starts in
      let started = start_kernel lib user_hash config_hash starts s.last_config us s in
      if_IsHashed (is_empty (from_option [] us)) stopped
        (if is_some s.last_config then started else s) h
        (if_IsHashed (is_some s.last_config) started s
          (start_kernel-IsHashed starts s.last_config us s h) h)

  pub handle_config-IsHashed :
      (o : Oracle) (c : Option NodeSpec) (s : State)
      → IsHashed s
      → IsHashed (handle_config lib user_hash config_hash o c s)
  unfolding handle_config
  handle_config-IsHashed o none s h = h
  handle_config-IsHashed o (some n) s h =
      let taken =
        apply_changes lib user_hash config_hash o
          (take_config lib user_hash config_hash o n (config_hash n) s) in
      if_IsHashed (beq_text (config_hash n) s.last_config_hash) s
        (if is_valid lib user_hash config_hash o n then taken else s) h
        (if_IsHashed (is_valid lib user_hash config_hash o n) taken s
          (apply_changes-IsHashed o (take_config lib user_hash config_hash o n (config_hash n) s)
            (take_config-IsHashed o n s h))
          h)

  pub handle_users-IsHashed :
      (o : Oracle) (us : Option (List UserSpec)) (s : State)
      → IsHashed s
      → IsHashed (handle_users lib user_hash config_hash o us s)
  unfolding handle_users
  handle_users-IsHashed o none s h = h
  handle_users-IsHashed o (some us) s h =
      if_IsHashed (beq_text (user_hash us) s.users.last_user_hash) s
        (update_all_users lib user_hash config_hash o (some us) (user_hash us) s) h
        (update_all_users-IsHashed o (some us) (user_hash us) s refl h)

  pub handle_devices-IsHashed :
      (d : Option (Dict ℤ (List Text))) (s : State)
      → IsHashed s
      → IsHashed (handle_devices lib user_hash config_hash d s)
  unfolding handle_devices
  handle_devices-IsHashed none s h = h
  handle_devices-IsHashed (some d) s h = h

  pub handle_ws_event-IsHashed :
      (o : Oracle) (e : Event) (s : State)
      → IsHashed s
      → IsHashed (handle_ws_event lib user_hash config_hash o e s)
  unfolding handle_ws_event
  handle_ws_event-IsHashed o e s h =
      elim e.kind
        as (λ k. IsHashed (elim k [
          | sync_config ↦ handle_config lib user_hash config_hash o e.config s
          | sync_users ↦ handle_users lib user_hash config_hash o e.users s
          | sync_user_delta ↦ apply_delta lib user_hash config_hash o e.delta_action e.delta_users s
          | sync_devices ↦ handle_devices lib user_hash config_hash e.device_users s
          | unknown ↦ s
        ])) [
          | sync_config ↦ handle_config-IsHashed o e.config s h
          | sync_users ↦ handle_users-IsHashed o e.users s h
          | sync_user_delta ↦ apply_delta-IsHashed o e.delta_action e.delta_users s h
          | sync_devices ↦ handle_devices-IsHashed e.device_users s h
          | unknown ↦ h
        ]
