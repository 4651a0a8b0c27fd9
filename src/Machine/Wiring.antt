-- ===== src/Machine/Wiring.antt =====
-- Runs, handles and mailboxes of internal/machine/machine.go belong together as long as nothing comes
-- between the parts of `stopNode`.
pub mod Effects
use xboard_node_win.Common.{
  ℕ, suc, ◌<◌, ℤ, Text, Dict, lookup, insert, erase, lookup-insert, lookup-erase, Bool, true, false,
  if◌then◌else◌, is_some, Option, none, some, List, [], ◌∷◌, ◌==ₖ◌, int_key, nat_key, ◌≡◌, refl,
  sym, ap, ◌∙◌, arith, Bool-cases, Option-cases, inl, inr, Result, ok, error, Result-cases,
}
use xboard_node_win.Panel
use xboard_node_win.Model.Value.{Value}
use xboard_node_win.Config.Load.{FileRead}
use xboard_node_win.Config.{Config}
use xboard_node_win.ControlPlane.{Event, NodeMailbox, new_node_mailbox, apply}
use xboard_node_win.Sources.{MachineNode, WsEvent}
use xboard_node_win.Machine.{
  NodeRun, Orchestrator, new, start_node, end_run, cancel, take_node, stop_node, stop_nodes,
  start_nodes, to_remove, node_ids, rediscover, register_node, on_ws_status, deliver, on_ws_event,
  on_node_event, node_config,
}
use xboard_node_win.Machine.Nodes.{nodes-end_run, nodes-take_node, nodes-cancel, nodes-start_node}
use xboard_node_win.Machine.Wiring.Effects.{
  node_of, live_id, live-node_of, node_of-cancel, live_id-cancel, node_of-end_run, live_id-end_run,
  mailboxes-end_run, boxes-end_run, cancel_keeps, node_of-insert, live_id-insert,
}

-- Runs are numbered below the next number; a handle is that of a run of its node; and a run that has not
-- ended has the handle and the mailbox of its node.
pub record IsWired (o : Orchestrator) : Type 0 where
  pub fresh : (r : ℕ) (id : ℤ) → node_of r o.runs ≡ some id → r < o.next
  pub owned : (id : ℤ) (r : ℕ) → lookup id o.nodes ≡ some r → node_of r o.runs ≡ some id
  pub live :
      (r : ℕ) (id : ℤ)
      → live_id r o.runs ≡ some id
      → (lookup id o.nodes ≡ some r)
        × ((lookup id o.mailboxes ≡ some r) × (is_some (lookup r o.boxes) ≡ true))

-- Handles differ for different nodes.
pub one_node :
    (o : Orchestrator)
    → IsWired o
    → (i j : ℤ) (r : ℕ) → lookup i o.nodes ≡ some r
    → lookup j o.nodes ≡ some r
    → i ≡ j
one_node o w i j r a b = ground (arith, w.owned i r a, w.owned j r b)

pub end_run-IsWired : (r : ℕ) (o : Orchestrator) → IsWired o → IsWired (end_run r o)
end_run-IsWired r o w = record {
  fresh = λ k id h. rw ((boxes-end_run r o).1) (w.fresh k id (sym (node_of-end_run k r o) ∙ h));
  owned = λ id k h. node_of-end_run k r o ∙ w.owned id k (ground (arith, h, nodes-end_run r o));
  live = λ k id h.
      let alive : live_id k o.runs ≡ some id = ground (arith, h, live_id-end_run k r o) in
      let other : (r ==ₖ k) ≡ false = ground (arith, h, live_id-end_run k r o) in
      let at = w.live k id alive in
      (
        ground (arith, at.0, nodes-end_run r o),
        (
          elim (Option-cases (live_id r o.runs)) [
            | inl e ↦ ground (arith, e, at.1.0, mailboxes-end_run id r o)
            | inr (i, e) ↦ ground (
              arith,
              e,
              at,
              mailboxes-end_run id r o,
              w.live r i e,
              other,
              int_key.beq_iff i id,
              nat_key.beq_iff r k,
            )
          ],
          ground (arith, at.1.1, boxes-end_run r o),
        ),
      );
}

stopped-IsWired :
    (id : ℤ) (r : ℕ) (o : Orchestrator)
    → IsWired o
    → lookup id o.nodes ≡ some r
    → IsWired (end_run r (take_node id r o))
unfolding take_node
stopped-IsWired id r o w e =
    let o1 : Orchestrator = record o {
      nodes = erase id o.nodes;
      mailboxes = erase id o.mailboxes;
    } in
    let o2 = take_node id r o in
    let kept = cancel_keeps r o1 in
    let handles : (end_run r o2).nodes ≡ erase id o.nodes =
      nodes-end_run r o2 ∙ nodes-cancel r o1 in
    record {
      fresh = λ k j h. ground (
        arith,
        kept,
        boxes-end_run r o2,
        w.fresh k j,
        node_of-end_run k r o2,
        node_of-cancel k r o1,
        h,
      );
      owned = λ j k h.
          (node_of-end_run k r o2 ∙ node_of-cancel k r o1)
          ∙ w.owned j k (ground (arith, handles, h, lookup-erase j id o.nodes));
      live = λ k j h.
          let alive : live_id k o.runs ≡ some j =
            ground (arith, h, live_id-end_run k r o2, live_id-cancel k r o1) in
          let other : (r ==ₖ k) ≡ false = ground (arith, h, live_id-end_run k r o2) in
          let at = w.live k j alive in
          let apart : (id ==ₖ j) ≡ false =
            ground (arith, e, at.0, other, int_key.beq_iff id j, nat_key.beq_iff r k) in
          (
            ground (arith, at.0, handles, apart, lookup-erase j id o.nodes),
            (
              elim (Option-cases (live_id r o.runs)) [
                | inl d ↦ ground (
                  arith,
                  d,
                  at.1.0,
                  apart,
                  mailboxes-end_run j r o2,
                  live_id-cancel r r o1,
                  kept,
                  lookup-erase j id o.mailboxes,
                )
                | inr (i, d) ↦ ground (
                  arith,
                  d,
                  at,
                  apart,
                  other,
                  w.live r i d,
                  mailboxes-end_run j r o2,
                  live_id-cancel r r o1,
                  kept,
                  lookup-erase j id o.mailboxes,
                  int_key.beq_iff i j,
                  nat_key.beq_iff r k,
                )
              ],
              ground (arith, at.1.1, boxes-end_run r o2, kept),
            ),
          );
    }

-- `stopNode` forgets the handle, and then the goroutine ends.
pub stop_node-IsWired : (id : ℤ) (o : Orchestrator) → IsWired o → IsWired (stop_node id o)
unfolding stop_node
stop_node-IsWired id o w = elim (Option-cases (lookup id o.nodes)) [
  | inl e ↦ rw (e, stop_node) w
  | inr (r, e) ↦ rw (e, stop_node) (stopped-IsWired id r o w e)
]

-- A new run, with a handle and a mailbox, for a node that has no handle.
abbrev begun : Config → MachineNode → Orchestrator → Orchestrator
begun c mn o = record o {
  nodes = insert mn.id o.next o.nodes;
  mailboxes = insert mn.id o.next o.mailboxes;
  boxes = insert o.next new_node_mailbox o.boxes;
  runs =
      insert o.next (record { node_id = mn.id; cfg = c; cancelled = false; ended = false }) o.runs;
  next = suc o.next;
}

started-IsWired :
    (c : Config) (mn : MachineNode) (o : Orchestrator)
    → IsWired o
    → is_some (lookup mn.id o.nodes) ≡ false
    → IsWired (begun c mn o)
started-IsWired c mn o w e =
    let n : NodeRun = record { node_id = mn.id; cfg = c; cancelled = false; ended = false } in
    record {
      fresh = λ k j h.
          ground
            (arith, h, node_of-insert k o.next n o.runs, w.fresh k j, nat_key.beq_iff o.next k);
      owned = λ j k h. ground (
        arith,
        h,
        lookup-insert j mn.id o.next o.nodes,
        node_of-insert k o.next n o.runs,
        w.owned j k,
        w.fresh k j,
        nat_key.beq_iff o.next k,
        int_key.beq_iff mn.id j,
      );
      live = λ k j h. ground (
        arith,
        h,
        e,
        live_id-insert k o.next n o.runs,
        w.live k j,
        lookup-insert j mn.id o.next o.nodes,
        lookup-insert j mn.id o.next o.mailboxes,
        lookup-insert k o.next new_node_mailbox o.boxes,
        nat_key.beq_iff o.next k,
        int_key.beq_iff mn.id j,
      );
    }

pub start_node-IsWired :
    (fetched : Option Panel.NodeConfig) (mn : MachineNode) (o : Orchestrator)
    → IsWired o
    → IsWired (start_node fetched mn o)
unfolding start_node
start_node-IsWired fetched mn o w = elim (Bool-cases (is_some (lookup mn.id o.nodes))) [
  | inl e ↦ rw e w
  | inr e ↦ rw e (started-IsWired (node_config fetched mn o) mn o w e)
]
