-- ===== src/Service/Events.antt =====
-- The events of internal/service/service.go: `handleWSEvent`, `applyPullResult`, `drainMachineMailbox` and what
-- they call. What the kernel, the certificate manager and the registry of DNS providers answer during
-- one event is `Oracle`; the hashes are parameters. Logging and metrics are not modelled.
pub mod Users
pub mod Hashes
pub mod Pulls
pub mod Again
pub mod Stuck
mod Tests
use xboard_node_win.Common.{
  ℤ, Text, bytes, beq_text, Dict, Bool, true, false, not, ◌&&◌, ◌||◌, if◌then◌else◌, is_empty,
  is_some, from_option, Option, none, some, List, [], ◌∷◌,
}
use xboard_node_win.Model.{UserSpec}
use xboard_node_win.Model.NodeSpec.{NodeSpec, CertConfig}
use xboard_node_win.SpeedTracker.{RateLib}
use xboard_node_win.ControlPlane.{
  unknown, append_nil, Event, EventType, sync_config, sync_users, sync_user_delta, sync_devices,
  MailboxState,
}
use xboard_node_win.Service.{
  Answers, UserState, restore_user_state, prepare_user_state, ensure_running, apply_user_update,
  merge_users, subtract_users,
}
use xboard_node_win.Service.Resync.{PullState, request_ws_resync, take_result}
use xboard_node_win.Service.Runtime.{validate_node_runtime}

-- The answers of one event: whether the kernel runs, whether a start, an update of the users, a restart, a
-- reload and an addition or removal of users succeed, whether there is a certificate, whether the
-- providers are known, the protocols of the kernel, and whether a new certificate configuration is accepted and
-- has changed the certificate; and whether the control plane supports polling.
pub record Oracle : Type 0 where
  pub running : Bool
  pub starts : Bool
  pub updates : Bool
  pub restarts : Bool
  pub reloads : Bool
  pub edits : Bool
  pub has_cert : Bool
  pub known_provider : Text → Bool
  pub protocols : List Text
  pub reconfigures : Option Bool
  pub polls : Bool

-- What a poll brings: a configuration and users, each perhaps nil.
pub record Snapshot : Type 0 where
  pub config : Option NodeSpec
  pub users : Option (List UserSpec)

-- `pullResult`
pub record PullResult : Type 0 where
  pub config : Option NodeSpec
  pub users : Option (List UserSpec)
  pub config_hash : Text
  pub user_hash : Text
  pub cert_changed : Bool

module _ (lib : RateLib) (user_hash : List UserSpec → Text) (config_hash : NodeSpec → Text) where
  -- The fields of `Service` that events change, with the devices that the kernel was given last.
  pub record ServiceState : Type 0 where
    pub users : UserState lib user_hash
    pub last_config : Option NodeSpec
    pub last_config_hash : Text
    pub kernel_log_level : Text
    pub cert : CertConfig
    pub applied_config : Option NodeSpec
    pub applied_users : Option (List UserSpec)
    pub devices : Option (Dict ℤ (List Text))
    pub pull : PullState

  -- `startKernel`, whose answer is the flag.
  abbrev pub start_kernel :
      Bool → Option NodeSpec → Option (List UserSpec) → ServiceState → ServiceState
  start_kernel starts nc users s =
      if starts then record s { applied_config = nc; applied_users = users } else s

  abbrev pub answers : Oracle → ServiceState → Answers
  answers o s = record {
    running = o.running;
    has_config = is_some s.last_config;
    starts = o.starts;
    updates = o.updates;
    restarts = o.restarts;
  }

  -- `ensureRunning`: its answer, and the state after a start.
  abbrev pub runs : Oracle → ServiceState → Bool
  runs o s = ensure_running lib user_hash (answers o s) s.users

  unfoldable pub ensured : Oracle → ServiceState → ServiceState
  ensured o s = start_kernel (not o.running && runs o s) s.last_config s.users.last_users s

  -- `applyUserUpdate`
  unfoldable pub update_all_users :
      Oracle → Option (List UserSpec) → Text → ServiceState → ServiceState
  update_all_users o users hash s =
      let updated = record (ensured o s) {
        users = apply_user_update lib user_hash (answers o s) users hash s.users;
      } in
      start_kernel (runs o s && not o.updates && o.restarts) s.last_config users updated

  -- The users after an edit that the kernel may refuse twice.
  unfoldable pub edit_users :
      Oracle → Option (List UserSpec) → UserState lib user_hash → UserState lib user_hash
  edit_users o users u =
      let p = prepare_user_state lib user_hash users u in
      let before = append_nil (from_option [] u.last_users) in
      if o.edits || o.updates then p else restore_user_state lib user_hash before u.last_user_hash p

  -- `applyUserDelta`
  unfoldable pub apply_delta : Oracle → Text → List UserSpec → ServiceState → ServiceState
  apply_delta o action delta s =
      let added = edit_users o (merge_users s.users.last_users (some delta)) s.users in
      let removed = edit_users o (subtract_users s.users.last_users (some delta)) s.users in
      if is_empty delta
      then s
      else (if beq_text action (bytes "add")
          then (if runs o s then record (ensured o s) { users = added } else s)
          else (if beq_text action (bytes "remove") && o.running
              then record s { users = removed }
              else s))

  -- What the certificate manager answers to a configuration; `none` is an error.
  abbrev pub answered_cert : Option Bool → CertConfig → ServiceState → Bool × ServiceState
  answered_cert none c s = (false, s)
  answered_cert (some changed) c s =
      (changed, record s { cert = record c { cert_dir = s.cert.cert_dir } })

  -- `applyNodeCert`
  unfoldable pub apply_node_cert : Oracle → CertConfig → ServiceState → Bool × ServiceState
  apply_node_cert o c s = answered_cert o.reconfigures c s

  abbrev legacy_cert : NodeSpec → CertConfig → CertConfig
  legacy_cert n c = record c {
    auto_tls = n.auto_tls;
    domain = if is_empty n.domain then c.domain else n.domain;
  }

  abbrev pub override_cert :
      Oracle → NodeSpec → Option CertConfig → ServiceState → Bool × ServiceState
  override_cert o n none s = (false, record s { cert = legacy_cert n s.cert })
  override_cert o n (some c) s = apply_node_cert o c s

  -- `applyRemoteOverrides`
  unfoldable pub apply_remote_overrides : Oracle → NodeSpec → ServiceState → Bool × ServiceState
  apply_remote_overrides o n s =
      let level = if is_empty n.kernel_log_level then s.kernel_log_level else n.kernel_log_level in
      override_cert o n n.cert_config (record s { kernel_log_level = level })

  -- `applyChanges` after a change of the configuration.
  unfoldable pub apply_changes : Oracle → ServiceState → ServiceState
  apply_changes o s =
      let us = s.users.last_users in
      if is_empty (from_option [] us)
      then record s { applied_users = none }
      else (if is_some s.last_config
          then start_kernel ((o.running && o.reloads) || o.starts) s.last_config us s
          else s)

  -- A configuration that is valid is kept with its hash, and its overrides are applied.
  unfoldable pub take_config : Oracle → NodeSpec → Text → ServiceState → ServiceState
  take_config o n hash s =
      (apply_remote_overrides o n (record s { last_config = some n; last_config_hash = hash })).1

  abbrev pub is_valid : Oracle → NodeSpec → Bool
  is_valid o n =
      not (is_some (validate_node_runtime o.known_provider o.protocols o.has_cert (some n)))

  -- The cases of `handleWSEvent`.
  unfoldable pub handle_config : Oracle → Option NodeSpec → ServiceState → ServiceState
  handle_config o none s = s
  handle_config o (some n) s =
      if beq_text (config_hash n) s.last_config_hash
      then s
      else (if is_valid o n then apply_changes o (take_config o n (config_hash n) s) else s)

  unfoldable pub handle_users : Oracle → Option (List UserSpec) → ServiceState → ServiceState
  handle_users o none s = s
  handle_users o (some us) s =
      if beq_text (user_hash us) s.users.last_user_hash
      then s
      else update_all_users o (some us) (user_hash us) s

  unfoldable pub handle_devices : Option (Dict ℤ (List Text)) → ServiceState → ServiceState
  handle_devices none s = s
  handle_devices (some d) s = record s { devices = some d }

  -- `handleWSEvent`
  unfoldable pub handle_ws_event : Oracle → Event → ServiceState → ServiceState
  handle_ws_event o e s = elim e.kind [
    | sync_config ↦ handle_config o e.config s
    | sync_users ↦ handle_users o e.users s
    | sync_user_delta ↦ apply_delta o e.delta_action e.delta_users s
    | sync_devices ↦ handle_devices e.device_users s
    | unknown ↦ s
  ]

  -- What the goroutine of a poll sends, from the hash that was current when it started.
  unfoldable pub pull_result_of : Text → Bool → Snapshot → PullResult
  pull_result_of current cert_changed p =
      let hash : Text = elim p.config [ none ↦ [] | some n ↦ config_hash n ] in
      let kept = if beq_text hash current && not cert_changed then none else p.config in
      record {
        config = kept;
        users = p.users;
        config_hash = hash;
        user_hash = elim p.users [ none ↦ [] | some us ↦ user_hash us ];
        cert_changed = cert_changed;
      }

  -- The configuration of a result: whether it counts as a change, and the state with it.
  abbrev pub taken_config :
      Oracle → Option NodeSpec → Text → Bool → ServiceState → Bool × ServiceState
  taken_config o none hash cert_changed s = (cert_changed, s)
  taken_config o (some n) hash cert_changed s =
      if is_valid o n then (true, take_config o n hash s) else (cert_changed, s)

  unfoldable pub pull_config : Oracle → PullResult → ServiceState → Bool × ServiceState
  pull_config o r s = taken_config o r.config r.config_hash r.cert_changed s

  -- The users of a result; a changed configuration applies them with itself.
  abbrev pub taken_users :
      Oracle → Bool → Option (List UserSpec) → Text → ServiceState → ServiceState
  taken_users o changed none hash s = s
  taken_users o changed (some us) hash s =
      if beq_text hash s.users.last_user_hash
      then s
      else (if changed
          then record s { users = prepare_user_state lib user_hash (some us) s.users }
          else update_all_users o (some us) hash s)

  unfoldable pub pull_users : Oracle → Bool → PullResult → ServiceState → ServiceState
  pull_users o changed r s = taken_users o changed r.users r.user_hash s

  -- `applyPullResult`
  unfoldable pub apply_pull_result : Oracle → PullResult → ServiceState → ServiceState
  apply_pull_result o r s =
      let c = pull_config o r (record s { pull = take_result s.pull }) in
      let s2 = pull_users o c.0 r c.1 in if c.0 then apply_changes o s2 else s2

  -- `drainMachineMailbox`, with what the mailbox gave and the answers during each event.
  unfoldable pub drain_machine_mailbox :
      Oracle → Oracle → Oracle → MailboxState → ServiceState → ServiceState
  drain_machine_mailbox o1 o2 o3 m s =
      let s1 = if m.has_config then handle_config o1 m.config s else s in
      let s2 = if m.has_users then handle_users o2 m.users s1 else s1 in
      let s3 = if m.has_devices then handle_devices m.device_users s2 else s2 in
      if m.needs_reconcile then record s3 { pull = request_ws_resync o3.polls s3.pull } else s3
