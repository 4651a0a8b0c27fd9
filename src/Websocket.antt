-- ===== src/Websocket.antt =====
-- internal/panel/ws.go: what the client of the WebSocket hands on, and how long it waits before it connects
-- again. Reading from the socket and decoding JSON are not modelled: a payload is what the decoder
-- answers, `none` where it fails. The random number of the jitter is an argument.
pub mod Backoff
mod Tests
use xboard_node_win.Common.{
  ℕ, ◌+◌, ◌*◌, ◌/◌, ◌%◌, ℤ, pos, negsuc, ltb_ℤ, ◌+ℤ◌, wrap, ltb, Text, bytes, beq_text, Dict, Bool,
  if◌then◌else◌, ◌||◌, is_empty, Option, none, some, List, [], ◌∷◌, from_option,
}
use xboard_node_win.Panel
use xboard_node_win.Sources.{WsEvent, MachineNode}
use xboard_node_win.Config.Inherit.{or_int}
use xboard_node_win.Machine.{second}

-- The payload structures, each decoded or not.
pub data Payload : Type 0 where
  config_payload : Panel.NodeConfig → ℤ → Payload
  users_payload : Option (List Panel.User) → ℤ → Payload
  delta_payload : Text → Option (List Panel.User) → ℤ → Payload
  devices_payload : Option (Dict ℤ (List Text)) → ℤ → Payload
  nodes_payload : List MachineNode → Payload

-- The name of the event that a payload belongs to.
abbrev pub event_of : Payload → Text
event_of (config_payload c id) = bytes "sync.config"
event_of (users_payload us id) = bytes "sync.users"
event_of (delta_payload a us id) = bytes "sync.user.delta"
event_of (devices_payload ds id) = bytes "sync.devices"
event_of (nodes_payload ns) = bytes "sync.nodes"

-- `var event WSEvent` with the type of the message.
abbrev pub event_with : Text → ℤ → WsEvent
event_with kind id = record {
  kind = kind;
  config = none;
  users = none;
  delta_action = [];
  delta_users = none;
  device_users = none;
  node_id = id;
  nodes = [];
}

abbrev pub first_positive : ℤ → ℤ → ℤ
first_positive a b = if ltb_ℤ (pos 0) a then a else (if ltb_ℤ (pos 0) b then b else pos 0)

-- `handleDataEvent`, up to the call of `onEvent`; `none` is an event that is dropped.
unfoldable pub handle_data_event : Option Payload → Option WsEvent
handle_data_event none = none
handle_data_event (some (config_payload c id)) =
    if is_empty c.protocol
    then none
    else some (record (event_with (bytes "sync.config") (first_positive id c.node_id)) {
      config = some c;
    })
handle_data_event (some (users_payload us id)) =
    if is_empty (from_option [] us)
    then none
    else some (record (event_with (bytes "sync.users") id) { users = us })
handle_data_event (some (delta_payload action us id)) =
    if is_empty action || is_empty (from_option [] us)
    then none
    else some (record (event_with (bytes "sync.user.delta") id) {
      delta_action = action;
      delta_users = us;
    })
handle_data_event (some (devices_payload ds id)) =
    some (record (event_with (bytes "sync.devices") id) { device_users = ds })
handle_data_event (some (nodes_payload ns)) =
    some (record (event_with (bytes "sync.nodes") (pos 0)) { nodes = ns })

-- The two times of `WSClientConfig` that the back-off uses, with the defaults of `NewWSClient`.
abbrev pub initial_or_second : ℤ → ℤ
initial_or_second initial = or_int initial (pos second)

abbrev pub max_or_minute : ℤ → ℤ
max_or_minute longest = or_int longest (pos (60 * second))

-- `backoff + jitter`; `rand.Int63n` panics unless its bound is positive, here `none`.
unfoldable pub wait_time : ℕ → ℤ → Option ℤ
wait_time random (negsuc b) = none
wait_time random (pos b) = if ltb 0 (b / 5) then some (wrap (pos (b + random % (b / 5)))) else none

-- `min(backoff*2, BackoffMax)`, if the maximum is not reached.
unfoldable pub next_backoff : ℤ → ℤ → ℤ
next_backoff longest b =
    let twice = wrap (b +ℤ b) in
    if ltb_ℤ b longest then (if ltb_ℤ twice longest then twice else longest) else b

-- What `Run` does after a connection that lasted `elapsed`: the wait, and the back-off that follows.
unfoldable pub after_connect : ℤ → ℤ → ℤ → ℕ → ℤ → Option (ℤ × ℤ)
after_connect initial longest elapsed random b =
    let b' = if ltb_ℤ (pos (120 * second)) elapsed then initial else b in
    elim (wait_time random b') [ none ↦ none | some w ↦ some (w, next_backoff longest b') ]

-- The loop of `Run` over the connections, each with its duration and random number.
unfoldable pub run : ℤ → ℤ → List (ℤ × ℕ) → ℤ → Option ℤ
run initial longest [] b = some b
run initial longest ((elapsed, random) ∷ cs) b =
    elim (after_connect initial longest elapsed random b) [
      | none ↦ none
      | some p ↦ run initial longest cs p.1
    ]
