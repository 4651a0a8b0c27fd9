-- ===== src/Sources.antt =====
-- internal/controlplane/panel.go and machine.go: how the answers and events of the panel become those of
-- the control plane. What the panel's client answers is an argument; `E` is the type of its errors.
pub mod Valid
use xboard_node_win.Common.{
  ℤ, pos, Text, bytes, beq_text, Dict, Bool, if◌then◌else◌, is_some, is_empty, from_option, not,
  ◌&&◌, Option, none, some, List, [], ◌∷◌, Result, ok, error,
}
use xboard_node_win.Panel
use xboard_node_win.Model.{UserSpec}
use xboard_node_win.Model.Value.{Value}
use xboard_node_win.Model.NodeSpec.{NodeSpec}
use xboard_node_win.Model.FromPanel.{node_spec_from_panel, user_specs_from_panel}
use xboard_node_win.Config.{KernelConfig}
use xboard_node_win.Config.Load.{FileRead}
use xboard_node_win.Validation.Spec.{SpecError, validate_node_spec}
use xboard_node_win.ControlPlane.{
  EventType, sync_config, sync_users, sync_user_delta, sync_devices, unknown, Event,
}
use xboard_node_win.Service.Events.{Snapshot}
use xboard_node_win.Standalone.{Bootstrap}

-- `MachineNode` of internal/panel/types.go
pub record MachineNode : Type 0 where
  pub id : ℤ
  pub kind : Text
  pub name : Text

-- `WSEvent` of internal/panel/ws.go
pub record WsEvent : Type 0 where
  pub kind : Text
  pub config : Option Panel.NodeConfig
  pub users : Option (List Panel.User)
  pub delta_action : Text
  pub delta_users : Option (List Panel.User)
  pub device_users : Option (Dict ℤ (List Text))
  pub node_id : ℤ
  pub nodes : List MachineNode

-- `EventType(event.Type)`, by the constants of types.go.
unfoldable pub event_type : Text → EventType
event_type t =
    if beq_text t (bytes "sync.config")
    then sync_config
    else (if beq_text t (bytes "sync.users")
        then sync_users
        else (if beq_text t (bytes "sync.user.delta")
            then sync_user_delta
            else (if beq_text t (bytes "sync.devices") then sync_devices else unknown)))

-- The errors of `Poll` and `Initial`, by what failed.
pub data SourceError {ℓ} (E : Type ℓ) : Type ℓ where
  config_failed : E → SourceError E
  config_missing : SourceError E
  users_failed : E → SourceError E
  cancelled : SourceError E
  invalid : SpecError → SourceError E

-- What a handshake says of the intervals; in machine mode it may fail, and both are zero then.
abbrev pub intervals : Option (ℤ × ℤ) → ℤ × ℤ
intervals none = (pos 0, pos 0)
intervals (some p) = p

abbrev pub bootstrap_of : Option (ℤ × ℤ) → Snapshot → Bootstrap
bootstrap_of hs s = record {
  push_interval = (intervals hs).0;
  pull_interval = (intervals hs).1;
  config = s.config;
  users = s.users;
}

module _ (read_file : Text → FileRead) (decode : Bool → Text → Option (Dict Text Value)) where
  -- `NodeSpecFromPanelValidated` of internal/model/panel.go
  unfoldable pub node_spec_from_panel_validated :
      Option Panel.NodeConfig → KernelConfig → Result SpecError (Option NodeSpec)
  node_spec_from_panel_validated nc k =
      let spec = node_spec_from_panel nc in
      elim (validate_node_spec read_file decode spec k) [ some e ↦ error e | none ↦ ok spec ]

  -- The event once its configuration is converted.
  abbrev pub translated : WsEvent → Option NodeSpec → Event
  translated e config = record {
    kind = event_type e.kind;
    config = config;
    users = user_specs_from_panel e.users;
    delta_action = e.delta_action;
    delta_users = from_option [] (user_specs_from_panel e.delta_users);
    device_users = e.device_users;
  }

  -- `TranslateWSEvent`
  unfoldable pub translate_ws_event : WsEvent → KernelConfig → Result SpecError Event
  translate_ws_event e k =
      if is_some e.config
      then elim (node_spec_from_panel_validated e.config k) [
        | error x ↦ error x
        | ok spec ↦ ok (translated e spec)
      ]
      else ok (translated e none)

  module _ {ℓ} {E : Type ℓ} where
    -- The users and the configuration of an answer, once both are there.
    abbrev pub snapshot_of :
        Option (List Panel.User)
        → Result SpecError (Option NodeSpec)
        → Result (SourceError E) Snapshot
    snapshot_of us (error x) = error (invalid x)
    snapshot_of us (ok spec) = ok (record { config = spec; users = user_specs_from_panel us })

    -- `Poll`, the same for a node of its own and one of a machine; `done` says that the context is.
    unfoldable pub poll :
        KernelConfig
        → Result E (Option Panel.NodeConfig)
        → Result E (Option (List Panel.User))
        → Bool
        → Result (SourceError E) Snapshot
    poll k (error x) users done = error (config_failed x)
    poll k (ok nc) (error x) done = error (users_failed x)
    poll k (ok nc) (ok us) done =
        if done then error cancelled else snapshot_of us (node_spec_from_panel_validated nc k)

    abbrev pub started :
        Option (ℤ × ℤ) → Result (SourceError E) Snapshot → Result (SourceError E) Bootstrap
    started hs (error x) = error x
    started hs (ok s) = ok (bootstrap_of hs s)

    -- `MachinePanelControlPlane.Initial`, but for the mailbox and the push client that it passes on.
    unfoldable pub machine_initial :
        KernelConfig
        → Option (ℤ × ℤ)
        → Result E (Option Panel.NodeConfig)
        → Result E (Option (List Panel.User))
        → Result (SourceError E) Bootstrap
    machine_initial k hs (error x) users = error (config_failed x)
    machine_initial k hs (ok none) users = error config_missing
    machine_initial k hs (ok (some nc)) (error x) = error (users_failed x)
    machine_initial k hs (ok (some nc)) (ok us) =
        started hs (snapshot_of us (node_spec_from_panel_validated (some nc) k))
