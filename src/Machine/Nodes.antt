-- ===== src/Machine/Nodes.antt =====
-- The nodes that internal/machine/machine.go runs after a discovery.
use xboard_node_win.Common.{
  ℕ, ℤ, Dict, lookup, erase, lookup-insert, lookup-erase, true, not, ◌&&◌, ◌||◌, if◌then◌else◌,
  is_some, in_list, Option, none, some, List, [], ◌∷◌, ◌==ₖ◌, int_key, nat_key, ◌≡◌, refl, arith,
  Bool-cases, Option-cases, inl, inr,
}
use xboard_node_win.Panel
use xboard_node_win.Machine.{
  Orchestrator, start_node, end_run, cancel, take_node, stop_node, stop_nodes, start_nodes,
  to_remove, node_ids, rediscover, unregister_node,
}
use xboard_node_win.Sources.{MachineNode}

pub nodes-end_run : (r : ℕ) (o : Orchestrator) → (end_run r o).nodes ≡ o.nodes
unfolding end_run unregister_node
nodes-end_run r o = ground arith

pub nodes-cancel : (r : ℕ) (o : Orchestrator) → (cancel r o).nodes ≡ o.nodes
unfolding cancel
nodes-cancel r o = ground arith

pub nodes-take_node :
    (id : ℤ) (r : ℕ) (o : Orchestrator) → (take_node id r o).nodes ≡ erase id o.nodes
unfolding take_node
nodes-take_node id r o =
    nodes-cancel r (record o { nodes = erase id o.nodes; mailboxes = erase id o.mailboxes })

pub nodes-stop_node :
    (j id : ℤ) (o : Orchestrator)
    → lookup j (stop_node id o).nodes ≡ (if id ==ₖ j then none else lookup j o.nodes)
unfolding stop_node
nodes-stop_node j id o = elim (Option-cases (lookup id o.nodes)) [
  | inl e ↦ ground (arith, e, int_key.beq_iff id j)
  | inr (r, e) ↦ ground (
    arith,
    e,
    nodes-end_run r (take_node id r o),
    nodes-take_node id r o,
    lookup-erase j id o.nodes,
  )
]

nodes-stop_nodes :
    (j : ℤ) (ids : List ℤ) (o : Orchestrator)
    → lookup j (stop_nodes ids o).nodes ≡ (if in_list j ids then none else lookup j o.nodes)
unfolding stop_nodes
nodes-stop_nodes j [] o = refl
nodes-stop_nodes j (id ∷ ids) o =
    ground (arith, nodes-stop_nodes j ids (stop_node id o), nodes-stop_node j id o)

pub in_list-to_remove :
    (j : ℤ) (wanted : List ℤ) (ns : Dict ℤ ℕ)
    → in_list j (to_remove wanted ns) ≡ is_some (lookup j ns) && not (in_list j wanted)
unfolding to_remove lookup
in_list-to_remove j wanted [] = refl
in_list-to_remove j wanted ((id, r) ∷ ns) =
    ground (arith, in_list-to_remove j wanted ns, int_key.beq_iff id j)

-- A start adds a handle, and keeps those that there are.
pub nodes-start_node :
    (j : ℤ) (fetched : Option Panel.NodeConfig) (mn : MachineNode) (o : Orchestrator)
    → lookup j (start_node fetched mn o).nodes ≡ (
        if not (is_some (lookup j o.nodes)) && (mn.id ==ₖ j) then some o.next else lookup j o.nodes)
unfolding start_node
nodes-start_node j fetched mn o = elim (Bool-cases (is_some (lookup mn.id o.nodes))) [
  | inl e ↦ ground (arith, e, int_key.beq_iff mn.id j)
  | inr e ↦ ground (arith, e, lookup-insert j mn.id o.next o.nodes, int_key.beq_iff mn.id j)
]

abbrev Kept : ℤ → Option ℕ → Option ℕ → Type 0
Kept j before after = (r : ℕ) → before ≡ some r → after ≡ some r

nodes-start_nodes :
    (j : ℤ) (fetched : ℤ → Option Panel.NodeConfig) (ns : List MachineNode) (o : Orchestrator)
    → (is_some (lookup j (start_nodes fetched ns o).nodes)
        ≡ is_some (lookup j o.nodes) || in_list j (node_ids ns))
      × Kept j (lookup j o.nodes) (lookup j (start_nodes fetched ns o).nodes)
unfolding start_nodes
nodes-start_nodes j fetched [] o = (ground arith, λ r h. h)
nodes-start_nodes j fetched (mn ∷ ns) o =
    let o' = start_node (fetched mn.id) mn o in
    let rest = nodes-start_nodes j fetched ns o' in
    let head = nodes-start_node j (fetched mn.id) mn o in
    (ground (arith, rest.0, head), λ r h. rest.1 r (ground (arith, head, h)))

-- After a discovery that the panel answers, and that nothing overlaps, the handles are those of exactly
-- the nodes that the panel lists, and a node that was there before keeps its handle: it is not restarted.
pub rediscover_lem :
    (j : ℤ) (fetched : ℤ → Option Panel.NodeConfig) (ns : List MachineNode) (o : Orchestrator)
    → (is_some (lookup j (rediscover fetched (some ns) o).nodes) ≡ in_list j (node_ids ns))
      × ((r : ℕ)
          → lookup j o.nodes ≡ some r
          → in_list j (node_ids ns) ≡ true
          → lookup j (rediscover fetched (some ns) o).nodes ≡ some r)
unfolding rediscover
rediscover_lem j fetched ns o =
    let gone = to_remove (node_ids ns) o.nodes in
    let stopped = nodes-stop_nodes j gone o in
    let removed = in_list-to_remove j (node_ids ns) o.nodes in
    let begun = nodes-start_nodes j fetched ns (stop_nodes gone o) in
    (
      ground (arith, stopped, removed, begun.0),
      λ r h w. begun.1 r (ground (arith, stopped, removed, h, w)),
    )
