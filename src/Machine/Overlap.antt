-- ===== src/Machine/Overlap.antt =====
-- Two discoveries of internal/machine/machine.go that overlap: `onWSEvent` starts one in a goroutine of its
-- own, and `stopNode` gives its locks back before it waits.
use xboard_node_win.Common.{
  ℕ, Text, Dict, lookup, erase, lookup-erase, Bool, false, if◌then◌else◌, is_some, Option, none,
  some, List, ◌==ₖ◌, int_key, nat_key, ◌≡◌, arith, inl, inr,
}
use xboard_node_win.Panel
use xboard_node_win.Model.Value.{Value}
use xboard_node_win.Config.Load.{FileRead}
use xboard_node_win.Config.{Config, MachineConfig}
use xboard_node_win.Sources.{MachineNode, WsEvent}
use xboard_node_win.Machine.{
  NodeRun, Orchestrator, start_node, end_run, take_node, on_ws_event, node_config,
}
use xboard_node_win.Machine.Nodes.{nodes-end_run, nodes-cancel, nodes-start_node}
use xboard_node_win.Machine.Wiring.{IsWired}
use xboard_node_win.Machine.Wiring.Effects.{
  live_id, live-node_of, live_id-cancel, live_id-end_run, live_id-insert, mailboxes-end_run,
  cancel_keeps,
}
use xboard_node_win.Machine.Delivery.{on_ws_event-cases}
use xboard_node_win.Machine.Happenings.{Happening, after, after-IsWired}

-- A start of a node without a handle makes a run that has not ended, with the next number.
live_id-start_node :
    (k : ℕ) (fetched : Option Panel.NodeConfig) (mn : MachineNode) (o : Orchestrator)
    → is_some (lookup mn.id o.nodes) ≡ false
    → live_id k (start_node fetched mn o).runs
      ≡ (if o.next ==ₖ k then some mn.id else live_id k o.runs)
unfolding start_node
live_id-start_node k fetched mn o e =
    let n : NodeRun = record {
      node_id = mn.id;
      cfg = node_config fetched mn o;
      cancelled = false;
      ended = false;
    } in
    rw (e, start_node) (live_id-insert k o.next n o.runs)

-- Between the two parts of `stopNode` and the end of the goroutine another discovery starts the node.
abbrev pub overlap : Option Panel.NodeConfig → MachineNode → ℕ → Orchestrator → Orchestrator
overlap fetched mn r o = end_run r (start_node fetched mn (take_node mn.id r o))

unplugged :
    (fetched : Option Panel.NodeConfig) (mn : MachineNode) (r : ℕ) (o : Orchestrator)
    → IsWired o
    → live_id r o.runs ≡ some mn.id
    → (live_id o.next (overlap fetched mn r o).runs ≡ some mn.id)
      × ((lookup mn.id (overlap fetched mn r o).nodes ≡ some o.next)
          × (lookup mn.id (overlap fetched mn r o).mailboxes ≡ none))
unfolding take_node
unplugged fetched mn r o w l =
    let o1 : Orchestrator = record o {
      nodes = erase mn.id o.nodes;
      mailboxes = erase mn.id o.mailboxes;
    } in
    let o2 = take_node mn.id r o in
    let o3 = start_node fetched mn o2 in
    let kept = cancel_keeps r o1 in
    let gone : lookup mn.id o2.nodes ≡ none =
      ground
        (arith, nodes-cancel r o1, lookup-erase mn.id mn.id o.nodes, int_key.beq_iff mn.id mn.id) in
    let free : is_some (lookup mn.id o2.nodes) ≡ false = ground (arith, gone) in
    let younger = w.fresh r mn.id (live-node_of r mn.id o.runs l) in
    (
      ground (
        arith,
        live_id-end_run o.next r o3,
        live_id-start_node o.next fetched mn o2 free,
        kept,
        younger,
        nat_key.beq_iff r o.next,
        nat_key.beq_iff o.next o.next,
      ),
      (
        ground (
          arith,
          nodes-end_run r o3,
          nodes-start_node mn.id fetched mn o2,
          gone,
          kept,
          int_key.beq_iff mn.id mn.id,
        ),
        ground (
          arith,
          mailboxes-end_run mn.id r o3,
          live_id-start_node r fetched mn o2 free,
          live_id-cancel r r o1,
          l,
          kept,
          younger,
          nat_key.beq_iff o.next r,
          int_key.beq_iff mn.id mn.id,
        ),
      ),
    )

module _ (read_file : Text → FileRead) (decode : Bool → Text → Option (Dict Text Value)) where
  -- Let a node be running. One discovery stops it, another one starts it before its old goroutine ends:
  -- the new run has not ended and has the handle of the node, but the old one has taken the mailbox, so
  -- every event for the node is dropped.
  pub overlap_lem :
      (c : Config) (m : MachineConfig) (before : List Happening) (fetched : Option Panel.NodeConfig)
      (mn : MachineNode) (r : ℕ) (e : WsEvent)
      → live_id r (after read_file decode c m before).runs ≡ some mn.id
      → e.node_id ≡ mn.id
      → (live_id
            (after read_file decode c m before).next
            (overlap fetched mn r (after read_file decode c m before)).runs
          ≡ some mn.id)
        × ((lookup mn.id (overlap fetched mn r (after read_file decode c m before)).nodes
              ≡ some (after read_file decode c m before).next)
            × ((on_ws_event read_file decode e
                  (overlap fetched mn r (after read_file decode c m before))).1
                ≡ overlap fetched mn r (after read_file decode c m before)))
  overlap_lem c m before fetched mn r e l i =
      let o = after read_file decode c m before in
      let u = unplugged fetched mn r o (after-IsWired read_file decode c m before) l in
      (
        u.0,
        (
          u.1.0,
          elim (on_ws_event-cases read_file decode e (overlap fetched mn r o)) [
            | inl same ↦ same
            | inr ((ev, k), (t, (d, done))) ↦ absurd (ground (arith, d, i, u.1.1))
          ],
        ),
      )
