-- ===== src/Machine/Downtime.antt =====
-- Where internal/machine/machine.go loses a node: a goroutine that ends by itself.
use xboard_node_win.Common.{
  Result, from_option, ℕ, ◌<◌, ℤ, Text, Dict, lookup, erase, lookup-insert, lookup-erase, Bool,
  true, false, is_some, in_list, Option, none, some, List, [], ◌∷◌, ◌==ₖ◌, int_key, nat_key, ◌≡◌,
  ◌∙◌, arith, Bool-cases, Option-cases, inl, inr,
}
use xboard_node_win.Panel
use xboard_node_win.Model.Value.{Value}
use xboard_node_win.Config.{Config, MachineConfig}
use xboard_node_win.Config.Load.{FileRead}
use xboard_node_win.Sources.{MachineNode, WsEvent}
use xboard_node_win.ControlPlane.{NodeMailbox, apply, append_nil, drain_if_ready}
use xboard_node_win.Machine.{
  on_ws_event, on_box, boot, drain_box, mark_ready_and_drain, NodeRun, Orchestrator, start_node,
  end_run, take_node, stop_node, stop_nodes, start_nodes, to_remove, node_ids, rediscover,
  register_node, on_ws_status, deliver, node_config,
}
use xboard_node_win.Machine.Nodes.{nodes-end_run, nodes-cancel, in_list-to_remove}
use xboard_node_win.Machine.Wiring.Effects.{
  live_id, live-node_of, live_id-cancel, live_id-end_run, live_id-insert, mailboxes-end_run,
  boxes-end_run, cancel_keeps,
}
use xboard_node_win.Machine.Delivery.{on_ws_event-cases, boot-cases}
use xboard_node_win.Machine.Happenings.{
  Happening, discovers, ends, registers, receives, connects, boots, drains, happen, run, after,
  after-IsWired,
}

-- The node keeps the handle of a run that is over, and has no mailbox.
pub record IsDown (id : ℤ) (r : ℕ) (o : Orchestrator) : Type 0 where
  pub handle : lookup id o.nodes ≡ some r
  pub over : live_id r o.runs ≡ none
  pub unreachable : lookup id o.mailboxes ≡ none
  pub old : r < o.next

end_run-IsDown : (id : ℤ) (r k : ℕ) (o : Orchestrator) → IsDown id r o → IsDown id r (end_run k o)
end_run-IsDown id r k o d = record {
  handle = ground (arith, d.handle, nodes-end_run k o);
  over = ground (arith, d.over, live_id-end_run r k o);
  unreachable = elim (Option-cases (live_id k o.runs)) [
    | inl e ↦ ground (arith, e, d.unreachable, mailboxes-end_run id k o)
    | inr (i, e) ↦ ground (arith, e, d.unreachable, mailboxes-end_run id k o)
  ];
  old = ground (arith, d.old, boxes-end_run k o);
}

stopped-IsDown :
    (id j : ℤ) (r k : ℕ) (o : Orchestrator)
    → (j ==ₖ id) ≡ false
    → IsDown id r o
    → IsDown id r (take_node j k o)
unfolding take_node
stopped-IsDown id j r k o e d =
    let o1 : Orchestrator = record o { nodes = erase j o.nodes; mailboxes = erase j o.mailboxes } in
    let kept = cancel_keeps k o1 in
    record {
      handle = ground (arith, e, d.handle, nodes-cancel k o1, lookup-erase id j o.nodes);
      over = live_id-cancel r k o1 ∙ d.over;
      unreachable = ground (arith, e, d.unreachable, kept, lookup-erase id j o.mailboxes);
      old = ground (arith, d.old, kept);
    }

stop_node-IsDown :
    (id j : ℤ) (r : ℕ) (o : Orchestrator)
    → (j ==ₖ id) ≡ false
    → IsDown id r o
    → IsDown id r (stop_node j o)
unfolding stop_node
stop_node-IsDown id j r o e d = elim (Option-cases (lookup j o.nodes)) [
  | inl f ↦ rw (f, stop_node) d
  | inr (k, f) ↦
      rw (f, stop_node) (end_run-IsDown id r k (take_node j k o) (stopped-IsDown id j r k o e d))
]

stop_nodes-IsDown :
    (id : ℤ) (r : ℕ) (ids : List ℤ) (o : Orchestrator)
    → in_list id ids ≡ false
    → IsDown id r o
    → IsDown id r (stop_nodes ids o)
unfolding stop_nodes
stop_nodes-IsDown id r [] o e d = d
stop_nodes-IsDown id r (j ∷ ids) o e d =
    stop_nodes-IsDown id r ids (stop_node j o) (ground (arith, e))
      (stop_node-IsDown id j r o (ground (arith, e)) d)

start_node-IsDown :
    (id : ℤ) (r : ℕ) (fetched : Option Panel.NodeConfig) (mn : MachineNode) (o : Orchestrator)
    → IsDown id r o
    → IsDown id r (start_node fetched mn o)
unfolding start_node
start_node-IsDown id r fetched mn o d = elim (Bool-cases (is_some (lookup mn.id o.nodes))) [
  | inl e ↦ rw (e, start_node) d
  | inr e ↦
      let n : NodeRun = record {
        node_id = mn.id;
        cfg = node_config fetched mn o;
        cancelled = false;
        ended = false;
      } in
      rw (e, start_node)
        (record {
          handle =
              ground (
                arith,
                e,
                d.handle,
                lookup-insert id mn.id o.next o.nodes,
                int_key.beq_iff mn.id id,
              );
          over =
              ground
                (arith, d.over, d.old, live_id-insert r o.next n o.runs, nat_key.beq_iff o.next r);
          unreachable = ground (
            arith,
            e,
            d.handle,
            d.unreachable,
            lookup-insert id mn.id o.next o.mailboxes,
            int_key.beq_iff mn.id id,
          );
          old = ground (arith, d.old);
        })
]

start_nodes-IsDown :
    (id : ℤ) (r : ℕ) (fetched : ℤ → Option Panel.NodeConfig) (ns : List MachineNode)
    (o : Orchestrator)
    → IsDown id r o
    → IsDown id r (start_nodes fetched ns o)
unfolding start_nodes
start_nodes-IsDown id r fetched [] o d = d
start_nodes-IsDown id r fetched (mn ∷ ns) o d =
    start_nodes-IsDown id r fetched ns (start_node (fetched mn.id) mn o)
      (start_node-IsDown id r (fetched mn.id) mn o d)

on_box-IsDown :
    (id : ℤ) (r k : ℕ) (f : NodeMailbox → NodeMailbox) (o : Orchestrator)
    → IsDown id r o
    → IsDown id r (on_box f k o)
on_box-IsDown id r k f o d = elim (Option-cases (lookup k o.boxes)) [
  | inl e ↦ rw (e, on_box) d
  | inr (box, e) ↦
      rw (e, on_box)
        (record { handle = d.handle; over = d.over; unreachable = d.unreachable; old = d.old })
]

-- Every discovery fails or lists the node.
abbrev pub Lists : ℤ → Happening → Type 0
Lists id (discovers fetched (some ns)) = in_list id (node_ids ns) ≡ true
Lists id _ = Unit

abbrev pub EachLists : ℤ → List Happening → Type 0
EachLists id [] = Unit
EachLists id (h ∷ hs) = Lists id h × EachLists id hs

rediscover-IsDown :
    (id : ℤ) (r : ℕ) (fetched : ℤ → Option Panel.NodeConfig) (ns : List MachineNode)
    (o : Orchestrator)
    → in_list id (node_ids ns) ≡ true
    → IsDown id r o
    → IsDown id r (rediscover fetched (some ns) o)
unfolding rediscover
rediscover-IsDown id r fetched ns o e d =
    let gone = to_remove (node_ids ns) o.nodes in
    let spared : in_list id gone ≡ false =
      ground (arith, e, in_list-to_remove id (node_ids ns) o.nodes) in
    start_nodes-IsDown id r fetched ns (stop_nodes gone o) (stop_nodes-IsDown id r gone o spared d)

module _ (read_file : Text → FileRead) (decode : Bool → Text → Option (Dict Text Value)) where
  on_ws_event-IsDown :
      (id : ℤ) (r : ℕ) (e : WsEvent) (o : Orchestrator)
      → IsDown id r o
      → IsDown id r (on_ws_event read_file decode e o).1
  unfolding deliver
  on_ws_event-IsDown id r e o d = elim (on_ws_event-cases read_file decode e o) [
    | inl same ↦ rw same d
    | inr ((ev, k), (c, (f, done))) ↦ rw done (on_box-IsDown id r k (apply ev) o d)
  ]

  boot-IsDown :
      (id : ℤ) (r k : ℕ) (nc : Result Text (Option Panel.NodeConfig))
      (users : Result Text (Option (List Panel.User))) (o : Orchestrator)
      → IsDown id r o
      → IsDown id r (boot read_file decode k nc users o)
  boot-IsDown id r k nc users o d = elim (boot-cases read_file decode k nc users o) [
    | inl same ↦ rw same d
    | inr (p, (e, (h, done))) ↦ rw done (
        on_box-IsDown id r k
          (mark_ready_and_drain (append_nil (from_option [] p.1.users)) p.1.config) o d)
  ]

  happen-IsDown :
      (id : ℤ) (r : ℕ) (h : Happening) (o : Orchestrator)
      → Lists id h
      → IsDown id r o
      → IsDown id r (happen read_file decode h o)
  unfolding rediscover register_node on_ws_status drain_box
  happen-IsDown id r (discovers fetched none) o l d = d
  happen-IsDown id r (discovers fetched (some ns)) o l d = rediscover-IsDown id r fetched ns o l d
  happen-IsDown id r (ends k) o l d = end_run-IsDown id r k o d
  happen-IsDown id r (registers j k) o l d = record {
    handle = d.handle;
    over = d.over;
    unreachable = d.unreachable;
    old = d.old;
  }
  happen-IsDown id r (connects up) o l d = record {
    handle = d.handle;
    over = d.over;
    unreachable = d.unreachable;
    old = d.old;
  }
  happen-IsDown id r (receives e) o l d = on_ws_event-IsDown id r e o d
  happen-IsDown id r (boots k nc users) o l d = boot-IsDown id r k nc users o d
  happen-IsDown id r (drains k) o l d =
      on_box-IsDown id r k (λ m. (drain_if_ready (record m { notified = false })).1) o d

  run-IsDown :
      (id : ℤ) (r : ℕ) (hs : List Happening) (o : Orchestrator)
      → EachLists id hs
      → IsDown id r o
      → IsDown id r (run read_file decode hs o)
  unfolding run
  run-IsDown id r [] o l d = d
  run-IsDown id r (h ∷ hs) o l d =
      run-IsDown id r hs (happen read_file decode h o) l.1 (happen-IsDown id r h o l.0 d)

  -- A goroutine that ends by itself, of a node that the panel goes on listing, is never replaced: whatever
  -- came before and whatever follows, the node keeps the handle of the run that is over and has no
  -- mailbox.
  pub end_run-IsDown_forever :
      (c : Config) (m : MachineConfig) (before later : List Happening) (id : ℤ) (r : ℕ)
      → live_id r (after read_file decode c m before).runs ≡ some id
      → EachLists id later
      → IsDown id r (run read_file decode later (end_run r (after read_file decode c m before)))
  end_run-IsDown_forever c m before later id r l ls =
      let o = after read_file decode c m before in
      let w = after-IsWired read_file decode c m before in
      run-IsDown id r later (end_run r o) ls (record {
        handle = ground (arith, (w.live r id l).0, nodes-end_run r o);
        over = ground (arith, live_id-end_run r r o, nat_key.beq_iff r r);
        unreachable = ground (arith, l, mailboxes-end_run id r o, int_key.beq_iff id id);
        old = ground (arith, boxes-end_run r o, w.fresh r id (live-node_of r id o.runs l));
      })
