-- ===== src/Machine/Happenings.antt =====
-- What an orchestrator of internal/machine/machine.go goes through, and what stays true of it.
use xboard_node_win.Common.{
  ℕ, ℤ, pos, beq_ℤ, Text, bytes, beq_text, Dict, lookup, insert, lookup-insert, Bool, false, Option,
  none, some, List, [], ◌∷◌, int_key, nat_key, ◌≡◌, arith, Option-cases, inl, inr, ok, Result,
  from_option,
}
use xboard_node_win.Panel
use xboard_node_win.Model.Value.{Value}
use xboard_node_win.Config.Load.{FileRead}
use xboard_node_win.Config.{Config, MachineConfig}
use xboard_node_win.ControlPlane.{Event, NodeMailbox, apply, append_nil, drain_if_ready}
use xboard_node_win.Sources.{MachineNode, WsEvent, translate_ws_event}
use xboard_node_win.Machine.{
  Orchestrator, start_node, end_run, stop_node, stop_nodes, start_nodes, to_remove, node_ids,
  rediscover, register_node, on_ws_status, deliver, on_box, boot, drain_box, mark_ready_and_drain,
  on_ws_event, empty_orchestrator,
}
use xboard_node_win.Machine.Wiring.{IsWired, stop_node-IsWired, start_node-IsWired, end_run-IsWired}
use xboard_node_win.Machine.Wiring.Effects.{live_id, node_of}
use xboard_node_win.Machine.Delivery.{on_ws_event-cases, boot-cases}

stop_nodes-IsWired : (ids : List ℤ) (o : Orchestrator) → IsWired o → IsWired (stop_nodes ids o)
unfolding stop_nodes
stop_nodes-IsWired [] o w = w
stop_nodes-IsWired (id ∷ ids) o w =
    stop_nodes-IsWired ids (stop_node id o) (stop_node-IsWired id o w)

start_nodes-IsWired :
    (fetched : ℤ → Option Panel.NodeConfig) (ns : List MachineNode) (o : Orchestrator)
    → IsWired o
    → IsWired (start_nodes fetched ns o)
unfolding start_nodes
start_nodes-IsWired fetched [] o w = w
start_nodes-IsWired fetched (mn ∷ ns) o w =
    start_nodes-IsWired fetched ns (start_node (fetched mn.id) mn o)
      (start_node-IsWired (fetched mn.id) mn o w)

rediscover-IsWired :
    (fetched : ℤ → Option Panel.NodeConfig) (answer : Option (List MachineNode)) (o : Orchestrator)
    → IsWired o
    → IsWired (rediscover fetched answer o)
unfolding rediscover
rediscover-IsWired fetched none o w = w
rediscover-IsWired fetched (some ns) o w =
    let gone = to_remove (node_ids ns) o.nodes in
    start_nodes-IsWired fetched ns (stop_nodes gone o) (stop_nodes-IsWired gone o w)

on_box-IsWired :
    (f : NodeMailbox → NodeMailbox) (r : ℕ) (o : Orchestrator) → IsWired o → IsWired (on_box f r o)
on_box-IsWired f r o w = elim (Option-cases (lookup r o.boxes)) [
  | inl e ↦ rw (e, on_box) w
  | inr (box, e) ↦
      rw (e, on_box)
        (record {
          fresh = w.fresh;
          owned = w.owned;
          live = λ k j h.
              let at = w.live k j h in
              (at.0, (at.1.0, ground (arith, at.1.1, lookup-insert k r (f box) o.boxes)));
        })
]

-- What happens to an orchestrator: discoveries, goroutines that end by themselves, services that register,
-- events and statuses of the WebSocket, and the services that seed and drain their mailboxes.
pub data Happening : Type 0 where
  discovers : (ℤ → Option Panel.NodeConfig) → Option (List MachineNode) → Happening
  ends : ℕ → Happening
  registers : ℤ → ℕ → Happening
  receives : WsEvent → Happening
  connects : Bool → Happening
  boots :
      ℕ → Result Text (Option Panel.NodeConfig) → Result Text (Option (List Panel.User)) → Happening
  drains : ℕ → Happening

module _ (read_file : Text → FileRead) (decode : Bool → Text → Option (Dict Text Value)) where
  abbrev pub happen : Happening → Orchestrator → Orchestrator
  happen (discovers fetched answer) o = rediscover fetched answer o
  happen (ends r) o = end_run r o
  happen (registers id r) o = register_node id r o
  happen (receives e) o = (on_ws_event read_file decode e o).1
  happen (connects up) o = on_ws_status up o
  happen (boots r nc users) o = boot read_file decode r nc users o
  happen (drains r) o = drain_box r o

  unfoldable pub run : List Happening → Orchestrator → Orchestrator
  run [] o = o
  run (h ∷ hs) o = run hs (happen h o)

  on_ws_event-IsWired :
      (e : WsEvent) (o : Orchestrator) → IsWired o → IsWired (on_ws_event read_file decode e o).1
  unfolding deliver
  on_ws_event-IsWired e o w = elim (on_ws_event-cases read_file decode e o) [
    | inl same ↦ rw same w
    | inr ((ev, r), (c, (d, done))) ↦ rw done (on_box-IsWired (apply ev) r o w)
  ]

  boot-IsWired :
      (r : ℕ) (nc : Result Text (Option Panel.NodeConfig))
      (users : Result Text (Option (List Panel.User))) (o : Orchestrator)
      → IsWired o
      → IsWired (boot read_file decode r nc users o)
  boot-IsWired r nc users o w = elim (boot-cases read_file decode r nc users o) [
    | inl same ↦ rw same w
    | inr (p, (e, (h, done))) ↦ rw done (
        on_box-IsWired (mark_ready_and_drain (append_nil (from_option [] p.1.users)) p.1.config) r o
          w)
  ]

  happen-IsWired : (h : Happening) (o : Orchestrator) → IsWired o → IsWired (happen h o)
  unfolding register_node on_ws_status drain_box
  happen-IsWired (discovers fetched answer) o w = rediscover-IsWired fetched answer o w
  happen-IsWired (ends r) o w = end_run-IsWired r o w
  happen-IsWired (registers id r) o w = record { fresh = w.fresh; owned = w.owned; live = w.live }
  happen-IsWired (receives e) o w = on_ws_event-IsWired e o w
  happen-IsWired (connects up) o w = record { fresh = w.fresh; owned = w.owned; live = w.live }
  happen-IsWired (boots r nc users) o w = boot-IsWired r nc users o w
  happen-IsWired (drains r) o w =
      on_box-IsWired (λ m. (drain_if_ready (record m { notified = false })).1) r o w

  pub run-IsWired : (hs : List Happening) (o : Orchestrator) → IsWired o → IsWired (run hs o)
  unfolding run
  run-IsWired [] o w = w
  run-IsWired (h ∷ hs) o w = run-IsWired hs (happen h o) (happen-IsWired h o w)

empty-IsWired : (c : Config) (m : MachineConfig) → IsWired (empty_orchestrator c m)
unfolding lookup node_of live_id
empty-IsWired c m = record { fresh = λ r id h. cc; owned = λ id r h. cc; live = λ r id h. cc }

module _ (read_file : Text → FileRead) (decode : Bool → Text → Option (Dict Text Value)) where
  wired_delivers :
      (o : Orchestrator) (r : ℕ) (e : WsEvent) (ev : Event)
      → IsWired o
      → live_id r o.runs ≡ some e.node_id
      → beq_text e.kind (bytes "sync.nodes") ≡ false
      → beq_ℤ e.node_id (pos 0) ≡ false
      → translate_ws_event read_file decode e o.cfg.kernel ≡ ok ev
      → (box : NodeMailbox) × ((lookup r o.boxes ≡ some box)
          × ((on_ws_event read_file decode e o).1
              ≡ record o { boxes = insert r (apply ev box) o.boxes }))
  unfolding on_ws_event deliver
  wired_delivers o r e ev w l a b c =
      let at = w.live r e.node_id l in
      elim (Option-cases (lookup r o.boxes)) [
        | inl d ↦ absurd (ground (arith, at.1.1, d))
        | inr (box, d) ↦ (box, (d, ground (arith, a, b, c, d, at.1.0)))
      ]

  abbrev pub after : Config → MachineConfig → List Happening → Orchestrator
  after c m hs = run read_file decode hs (empty_orchestrator c m)

  pub after-IsWired :
      (c : Config) (m : MachineConfig) (hs : List Happening) → IsWired (after c m hs)
  after-IsWired c m hs =
      run-IsWired read_file decode hs (empty_orchestrator c m) (empty-IsWired c m)

  -- Whatever discoveries, ends, registrations, events and statuses a new orchestrator has seen, one after
  -- the other: while the goroutine of a node has not ended, its run has the handle of the node, and an
  -- event for the node, unless it is "sync.nodes" or its translation fails, is applied to the run's
  -- mailbox and changes nothing else. The id of the node is not zero.
  pub run_delivers :
      (c : Config) (m : MachineConfig) (hs : List Happening) (r : ℕ) (e : WsEvent) (ev : Event)
      → live_id r (after c m hs).runs ≡ some e.node_id
      → beq_text e.kind (bytes "sync.nodes") ≡ false
      → beq_ℤ e.node_id (pos 0) ≡ false
      → translate_ws_event read_file decode e (after c m hs).cfg.kernel ≡ ok ev
      → (lookup e.node_id (after c m hs).nodes ≡ some r)
        × ((box : NodeMailbox) × ((lookup r (after c m hs).boxes ≡ some box)
              × ((on_ws_event read_file decode e (after c m hs)).1 ≡ record (after c m hs) {
                boxes = insert r (apply ev box) (after c m hs).boxes;
              })))
  run_delivers c m hs r e ev l a b t =
      let w = after-IsWired c m hs in
      ((w.live r e.node_id l).0, wired_delivers (after c m hs) r e ev w l a b t)
