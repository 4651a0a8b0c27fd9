-- ===== src/ControlPlane.antt =====
-- internal/controlplane/mailbox.go: the mailbox that coalesces the WebSocket events of a node until
-- its service is ready. The mutex makes each method one step, but for the notification, which is
-- sent after the unlock.
pub mod Positions
pub mod Delta
pub mod Refinement
pub mod Drain
pub mod Wakeup
mod Tests
use xboard_node_win.Common.{
  ℕ, suc, ◌+◌, ℤ, Text, bytes, Dict, lookup, insert, is_some, is_empty, from_option, if◌then◌else◌,
  int_key, text_key, ◌==ₖ◌, List, [], ◌∷◌, ◌++◌, map, Option, none, some, not, Bool, true, false,
  ◌&&◌, ◌||◌, length, set, keep,
}
use xboard_node_win.Model.{UserSpec}
use xboard_node_win.Model.NodeSpec.{NodeSpec, clone_node_spec}

-- `EventType`; any other string is `unknown`.
pub data EventType : Type 0 where
  sync_config sync_users sync_user_delta sync_devices unknown : EventType

pub record Event : Type 0 where
  pub kind : EventType
  pub config : Option NodeSpec
  pub users : Option (List UserSpec)
  pub delta_action : Text
  pub delta_users : List UserSpec
  pub device_users : Option (Dict ℤ (List Text))

-- `MailboxState`
pub record MailboxState : Type 0 where
  pub config : Option NodeSpec
  pub users : Option (List UserSpec)
  pub device_users : Option (Dict ℤ (List Text))
  pub has_config : Bool
  pub has_users : Bool
  pub has_devices : Bool
  pub needs_reconcile : Bool

abbrev pub empty_state : MailboxState
empty_state = record {
  config = none;
  users = none;
  device_users = none;
  has_config = false;
  has_users = false;
  has_devices = false;
  needs_reconcile = false;
}

-- `NodeMailbox`; `notified` says that the channel of capacity one holds its token.
pub record NodeMailbox : Type 0 where
  pub ready : Bool
  pub config : Option NodeSpec
  pub users : Option (List UserSpec)
  pub device_users : Option (Dict ℤ (List Text))
  pub dirty_config : Bool
  pub dirty_users : Bool
  pub dirty_devices : Bool
  pub needs_reconcile : Bool
  pub has_full_user_state : Bool
  pub notified : Bool

-- `NewNodeMailbox`
abbrev pub new_node_mailbox : NodeMailbox
new_node_mailbox = record {
  ready = false;
  config = none;
  users = none;
  device_users = none;
  dirty_config = false;
  dirty_users = false;
  dirty_devices = false;
  needs_reconcile = false;
  has_full_user_state = false;
  notified = false;
}

-- `cloneUsers`: a copy, nil for nil.
abbrev pub clone_users : Option (List UserSpec) → Option (List UserSpec)
clone_users none = none
clone_users (some us) = some (map (λ u. u) us)

copy_devices : Dict ℤ (List Text) → Dict ℤ (List Text) → Dict ℤ (List Text)
copy_devices cloned [] = cloned
copy_devices cloned ((uid, ips) ∷ ds) = copy_devices (insert uid (map (λ ip. ip) ips) cloned) ds

-- `cloneDeviceUsers`
unfoldable pub clone_device_users : Option (Dict ℤ (List Text)) → Option (Dict ℤ (List Text))
unfolding copy_devices
clone_device_users none = none
clone_device_users (some ds) = some (copy_devices [] ds)

-- The loop of `applyUserDelta` that maps an id to the position of its user.
unfoldable pub index_positions : ℕ → List UserSpec → Dict ℤ ℕ → Dict ℤ ℕ
index_positions i [] index = index
index_positions i (u ∷ us) index = index_positions (suc i) us (insert u.id i index)

-- The loop of the action "add".
unfoldable pub add_users : List UserSpec → List UserSpec → Dict ℤ ℕ → List UserSpec
add_users [] current index = current
add_users (u ∷ delta) current index =
    let appended = add_users delta (current ++ u ∷ []) (insert u.id (length current) index) in
    elim (lookup u.id index) [ some i ↦ add_users delta (set current i u) index | none ↦ appended ]

-- The loop that fills `removeIDs`.
unfoldable pub remove_ids : List UserSpec → Dict ℤ (Unit {0}) → Dict ℤ (Unit {0})
remove_ids [] ids = ids
remove_ids (u ∷ delta) ids = remove_ids delta (insert u.id tt ids)

-- `append([]model.UserSpec(nil), filtered...)` is nil if there is nothing to append.
abbrev pub append_nil : List UserSpec → Option (List UserSpec)
append_nil [] = none
append_nil (u ∷ us) = some (u ∷ us)

-- `applyUserDelta`; `none` is the result false, which leaves the users alone.
unfoldable pub apply_user_delta :
    Option (List UserSpec) → Text → List UserSpec → Option (Option (List UserSpec))
apply_user_delta users action delta =
    let current = from_option [] (clone_users users) in
    let added = add_users delta current (index_positions 0 current []) in
    let ids = remove_ids delta [] in
    if action ==ₖ bytes "add"
    then some (if is_empty added then clone_users users else some added)
    else (if action ==ₖ bytes "remove"
        then some (append_nil (keep (λ u. not (is_some (lookup u.id ids))) current))
        else none)

-- `SeedBaseline`
unfoldable pub seed_baseline : Option (List UserSpec) → Option NodeSpec → NodeMailbox → NodeMailbox
seed_baseline users config m =
    let m' =
      if is_some users && not m.has_full_user_state
      then record m { users = clone_users users; has_full_user_state = true }
      else m in
    if is_some config && not (is_some m.config)
    then record m' { config = clone_node_spec config }
    else m'

-- The part of `Apply` under the mutex, with the flag `changed`.
unfoldable pub apply_locked : Event → NodeMailbox → NodeMailbox × Bool
apply_locked e m = elim e.kind [
  | sync_config ↦
      if is_some e.config
      then (record m { config = clone_node_spec e.config; dirty_config = true }, true)
      else (m, false)
  | sync_users ↦
      if is_some e.users
      then (
        record m { users = clone_users e.users; dirty_users = true; has_full_user_state = true },
        true,
      )
      else (m, false)
  | sync_devices ↦
      if is_some e.device_users
      then (
        record m { device_users = clone_device_users e.device_users; dirty_devices = true },
        true,
      )
      else (m, false)
  | sync_user_delta ↦
      if is_empty e.delta_users
      then (m, false)
      else (if m.has_full_user_state
          then elim (apply_user_delta m.users e.delta_action e.delta_users) [
            | none ↦ (record m { needs_reconcile = true }, true)
            | some users ↦ (record m { users = users; dirty_users = true }, true)
          ]
          else (record m { needs_reconcile = true }, true))
  | unknown ↦ (m, false)
]

-- `notify`: the channel keeps one token at most.
abbrev pub notify : NodeMailbox → NodeMailbox
notify m = record m { notified = true }

abbrev pub notify_if : NodeMailbox × Bool → NodeMailbox
notify_if (m, changed) = if changed then notify m else m

-- `Apply`
unfoldable pub apply : Event → NodeMailbox → NodeMailbox
apply e m = notify_if (apply_locked e m)

-- `MarkReady`
unfoldable pub mark_ready : NodeMailbox → NodeMailbox
mark_ready m = notify (record m { ready = true })

-- `DrainIfReady`
unfoldable pub drain_if_ready : NodeMailbox → MailboxState × NodeMailbox
drain_if_ready m =
    let with_config = m.dirty_config && is_some m.config in
    let with_devices = m.dirty_devices && is_some m.device_users in
    if m.ready
    then (
      record {
        config = if with_config then clone_node_spec m.config else none;
        users = if m.dirty_users then clone_users m.users else none;
        device_users = if with_devices then clone_device_users m.device_users else none;
        has_config = with_config;
        has_users = m.dirty_users;
        has_devices = with_devices;
        needs_reconcile = m.needs_reconcile;
      },
      record m {
        dirty_config = if with_config then false else m.dirty_config;
        dirty_users = false;
        dirty_devices = if with_devices then false else m.dirty_devices;
        needs_reconcile = false;
      },
    )
    else (empty_state, m)
