-- ===== src/Machine.antt =====
-- internal/machine/machine.go: the orchestrator that runs the nodes of a machine. The goroutine of a node
-- is a `NodeRun` with a number; the handle of a node, its mailbox and its status channel go by that number,
-- so a pointer that is shared is a number that is kept twice. Mailboxes are in a store.
pub mod Intervals
pub mod Nodes
pub mod Wiring
pub mod Delivery
pub mod Happenings
pub mod Accepted
pub mod Downtime
pub mod Overlap
pub mod Kernels
mod Tests
use xboard_node_win.Common.{
  ℕ, suc, ◌+◌, ◌*◌, ℤ, pos, negsuc, beq_ℤ, ltb_ℤ, wrap, Text, bytes, beq_text, Dict, lookup, insert,
  erase, Bool, true, false, if◌then◌else◌, is_some, not, in_list, length, ltb, from_option, int_key,
  nat_key, Option, none, some, List, [], ◌∷◌, ◌++◌, map, Result, ok, error,
}
use xboard_node_win.Panel
use xboard_node_win.Model.Value.{Value}
use xboard_node_win.Config.{Config, MachineConfig}
use xboard_node_win.Config.Load.{FileRead}
use xboard_node_win.Config.Expand.{with_machine}
use xboard_node_win.Validation.Transport.{resolve_kernel_for_transport}
use xboard_node_win.ControlPlane.{
  Event, NodeMailbox, new_node_mailbox, apply, append_nil, seed_baseline, mark_ready,
  drain_if_ready,
}
use xboard_node_win.Model.{UserSpec}
use xboard_node_win.Model.NodeSpec.{NodeSpec}
use xboard_node_win.Standalone.{Bootstrap}
use xboard_node_win.Sources.{MachineNode, WsEvent, SourceError, translate_ws_event, machine_initial}

-- The goroutine that `startNode` starts, with its `nodeCfg` and whether its context is cancelled and
-- its channel `done` is closed.
pub record NodeRun : Type 0 where
  pub node_id : ℤ
  pub cfg : Config
  pub cancelled : Bool
  pub ended : Bool

-- `Orchestrator`, with the stores; `next` is the number of the next run. The status channels hold what
-- was sent and not received.
pub record Orchestrator : Type 0 where
  pub cfg : Config
  pub machine : MachineConfig
  pub nodes : Dict ℤ ℕ
  pub mailboxes : Dict ℤ ℕ
  pub statuses : Dict ℤ ℕ
  pub boxes : Dict ℕ NodeMailbox
  pub channels : Dict ℕ (List Bool)
  pub runs : Dict ℕ NodeRun
  pub next : ℕ
  pub pull_interval : ℤ
  pub push_interval : ℤ

abbrev pub empty_orchestrator : Config → MachineConfig → Orchestrator
empty_orchestrator c m = record {
  cfg = c;
  machine = m;
  nodes = [];
  mailboxes = [];
  statuses = [];
  boxes = [];
  channels = [];
  runs = [];
  next = 0;
  pull_interval = pos 0;
  push_interval = pos 0;
}

-- `New`; without a machine section the nil pointer panics, here `none`.
unfoldable pub new : Config → Option Orchestrator
new c = elim c.machine [ none ↦ none | some m ↦ some (empty_orchestrator c m) ]

-- `time.Second`
abbrev pub second : ℕ
second = 1000000000

-- `time.Duration(n) * time.Second`
abbrev pub seconds : ℤ → ℤ
seconds (pos n) = wrap (pos (n * second))
seconds (negsuc n) = wrap (negsuc (n * second + 999999999))

-- An interval that is below its least value is a minute.
abbrev pub interval_or_minute : ℕ → ℤ → ℤ
interval_or_minute least n =
    if ltb_ℤ (seconds n) (pos (least * second)) then pos (60 * second) else seconds n

-- `applyIntervals`
unfoldable pub apply_intervals : ℤ → ℤ → Orchestrator → Orchestrator
apply_intervals pull push o = record o {
  pull_interval = interval_or_minute 30 pull;
  push_interval = interval_or_minute 10 push;
}

-- The configuration that a node runs with: the kernel is one that can carry the transport of the fetched
-- configuration, if there is one.
unfoldable pub node_config : Option Panel.NodeConfig → MachineNode → Orchestrator → Config
node_config fetched mn o =
    let c = with_machine mn.id mn.kind o.cfg o.machine in
    elim fetched [
      | none ↦ c
      | some n ↦ record c {
        kernel = record (c.kernel) { kind = resolve_kernel_for_transport n.network c.kernel.kind };
      }
    ]

-- `startNode`; the first argument is what `GetConfig` answers.
unfoldable pub start_node : Option Panel.NodeConfig → MachineNode → Orchestrator → Orchestrator
start_node fetched mn o = if is_some (lookup mn.id o.nodes) then o else record o {
  nodes = insert mn.id o.next o.nodes;
  mailboxes = insert mn.id o.next o.mailboxes;
  boxes = insert o.next new_node_mailbox o.boxes;
  runs =
      insert o.next
        (record {
          node_id = mn.id;
          cfg = node_config fetched mn o;
          cancelled = false;
          ended = false;
        })
        o.runs;
  next = suc o.next;
}

-- `registerNode`, when the service of a run registers its status channel.
unfoldable pub register_node : ℤ → ℕ → Orchestrator → Orchestrator
register_node id r o = record o { statuses = insert id r o.statuses }

-- `unregisterNode`
unfoldable pub unregister_node : ℤ → Orchestrator → Orchestrator
unregister_node id o = record o { mailboxes = erase id o.mailboxes; statuses = erase id o.statuses }

-- The end of a goroutine: what it has deferred, `unregisterNode` first.
unfoldable pub end_run : ℕ → Orchestrator → Orchestrator
end_run r o = elim (lookup r o.runs) [
  | none ↦ o
  | some n ↦ if n.ended then o else record (unregister_node n.node_id o) {
    runs = insert r (record n { ended = true }) o.runs;
  }
]

-- `h.cancel()`
unfoldable pub cancel : ℕ → Orchestrator → Orchestrator
cancel r o = elim (lookup r o.runs) [
  | none ↦ o
  | some n ↦ record o { runs = insert r (record n { cancelled = true }) o.runs }
]

-- The part of `stopNode` up to the cancellation of run `r`.
unfoldable pub take_node : ℤ → ℕ → Orchestrator → Orchestrator
take_node id r o =
    cancel r (record o { nodes = erase id o.nodes; mailboxes = erase id o.mailboxes })

-- `stopNode`, when nothing comes between its cancellation and the end of the goroutine it waits for.
unfoldable pub stop_node : ℤ → Orchestrator → Orchestrator
stop_node id o = elim (lookup id o.nodes) [ none ↦ o | some r ↦ end_run r (take_node id r o) ]

-- The ids of the nodes that are not wanted, in the order of the map.
unfoldable pub to_remove : List ℤ → Dict ℤ ℕ → List ℤ
to_remove wanted [] = []
to_remove wanted ((id, r) ∷ ns) =
    if in_list id wanted then to_remove wanted ns else id ∷ to_remove wanted ns

unfoldable pub stop_nodes : List ℤ → Orchestrator → Orchestrator
stop_nodes [] o = o
stop_nodes (id ∷ ids) o = stop_nodes ids (stop_node id o)

-- The first argument is what the panel answers for the configuration of each node.
unfoldable pub start_nodes :
    (ℤ → Option Panel.NodeConfig) → List MachineNode → Orchestrator → Orchestrator
start_nodes fetched [] o = o
start_nodes fetched (mn ∷ ns) o = start_nodes fetched ns (start_node (fetched mn.id) mn o)

abbrev pub node_ids : List MachineNode → List ℤ
node_ids = map (λ mn. mn.id)

-- `rediscover`; `none` is a discovery that failed.
unfoldable pub rediscover :
    (ℤ → Option Panel.NodeConfig) → Option (List MachineNode) → Orchestrator → Orchestrator
rediscover fetched none o = o
rediscover fetched (some ns) o =
    start_nodes fetched ns (stop_nodes (to_remove (node_ids ns) o.nodes) o)

-- A status sent to the channels of the registered services; a channel that holds four is skipped.
unfoldable pub send_status : Bool → Dict ℤ ℕ → Dict ℕ (List Bool) → Dict ℕ (List Bool)
send_status up [] chans = chans
send_status up ((id, r) ∷ rs) chans =
    let held = from_option [] (lookup r chans) in
    send_status up rs (if ltb (length held) 4 then insert r (held ++ up ∷ []) chans else chans)

-- `onWSStatus`
unfoldable pub on_ws_status : Bool → Orchestrator → Orchestrator
on_ws_status up o = record o { channels = send_status up o.statuses o.channels }

-- An operation on the mailbox of a run.
abbrev pub on_box : (NodeMailbox → NodeMailbox) → ℕ → Orchestrator → Orchestrator
on_box f r o = elim (lookup r o.boxes) [
  | none ↦ o
  | some box ↦ record o { boxes = insert r (f box) o.boxes }
]

-- `mailbox.Apply`, by the number of the mailbox.
unfoldable pub deliver : Event → ℕ → Orchestrator → Orchestrator
deliver ev r o = on_box (apply ev) r o

-- `markMailboxReadyAndDrain` of internal/service/service.go, on the mailbox alone, with the users and
-- the configuration of the service.
unfoldable pub mark_ready_and_drain :
    Option (List UserSpec) → Option NodeSpec → NodeMailbox → NodeMailbox
mark_ready_and_drain users config m = (drain_if_ready (mark_ready (seed_baseline users config m))).1

-- What the service of a run does to its mailbox when a token arrives.
unfoldable pub drain_box : ℕ → Orchestrator → Orchestrator
drain_box r o = on_box (λ m. (drain_if_ready (record m { notified = false })).1) r o

module _ (read_file : Text → FileRead) (decode : Bool → Text → Option (Dict Text Value)) where
  -- An event of one node.
  abbrev pub on_node_event : WsEvent → Orchestrator → Orchestrator
  on_node_event e o =
      if beq_ℤ e.node_id (pos 0)
      then o
      else elim (translate_ws_event read_file decode e o.cfg.kernel) [
        | error x ↦ o
        | ok ev ↦ elim (lookup e.node_id o.mailboxes) [ none ↦ o | some r ↦ deliver ev r o ]
      ]

  -- `onWSEvent`; the flag says that a rediscovery is started.
  unfoldable pub on_ws_event : WsEvent → Orchestrator → Bool × Orchestrator
  on_ws_event e o =
      if beq_text e.kind (bytes "sync.nodes") then (true, o) else (false, on_node_event e o)

  -- The mailbox of run `r` is given what the service starts with; a slice that is empty is kept as nil.
  abbrev pub seeded : ℕ → Result (SourceError Text) Bootstrap → Orchestrator → Orchestrator
  seeded r (error x) o = o
  seeded r (ok b) o =
      on_box (mark_ready_and_drain (append_nil (from_option [] b.users)) b.config) r o

  -- `initialSetup` of the service of run `r`, for its mailbox: the node's configuration is validated
  -- with the kernel of the run. A start that fails after the validation is a goroutine that ends.
  unfoldable pub boot :
      ℕ
      → Result Text (Option Panel.NodeConfig)
      → Result Text (Option (List Panel.User))
      → Orchestrator
      → Orchestrator
  boot r nc users o = elim (lookup r o.runs) [
    | none ↦ o
    | some n ↦ seeded r (machine_initial read_file decode n.cfg.kernel none nc users) o
  ]
