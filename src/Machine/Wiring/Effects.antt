-- ===== src/Machine/Wiring/Effects.antt =====
-- What the operations of internal/machine/machine.go do to runs and mailboxes.
use xboard_node_win.Common.{
  refl, ℕ, ℤ, Dict, lookup, insert, lookup-insert, lookup-erase, true, if◌then◌else◌, Option, none,
  some, ◌==ₖ◌, int_key, nat_key, ◌≡◌, arith, Option-cases, inl, inr,
}
use xboard_node_win.Config.{KernelConfig}
use xboard_node_win.Machine.{NodeRun, Orchestrator, end_run, cancel, unregister_node}

-- The node of a run.
unfoldable pub node_of : ℕ → Dict ℕ NodeRun → Option ℤ
node_of r runs = elim (lookup r runs) [ none ↦ none | some n ↦ some n.node_id ]

-- The node of a run that has not ended.
unfoldable pub live_id : ℕ → Dict ℕ NodeRun → Option ℤ
live_id r runs = elim (lookup r runs) [
  | none ↦ none
  | some n ↦ if n.ended then none else some n.node_id
]

pub live-node_of :
    (r : ℕ) (id : ℤ) (runs : Dict ℕ NodeRun) → live_id r runs ≡ some id → node_of r runs ≡ some id
unfolding live_id node_of
live-node_of r id runs h = ground (arith, h)

pub node_of-cancel : (k r : ℕ) (o : Orchestrator) → node_of k (cancel r o).runs ≡ node_of k o.runs
unfolding node_of cancel
node_of-cancel k r o = elim (Option-cases (lookup r o.runs)) [
  | inl e ↦ ground (arith, e)
  | inr (n, e) ↦
      ground
        (arith, e, lookup-insert k r (record n { cancelled = true }) o.runs, nat_key.beq_iff r k)
]

pub live_id-cancel : (k r : ℕ) (o : Orchestrator) → live_id k (cancel r o).runs ≡ live_id k o.runs
unfolding live_id cancel
live_id-cancel k r o = elim (Option-cases (lookup r o.runs)) [
  | inl e ↦ ground (arith, e)
  | inr (n, e) ↦
      ground
        (arith, e, lookup-insert k r (record n { cancelled = true }) o.runs, nat_key.beq_iff r k)
]

pub node_of-end_run : (k r : ℕ) (o : Orchestrator) → node_of k (end_run r o).runs ≡ node_of k o.runs
unfolding node_of end_run
node_of-end_run k r o = elim (Option-cases (lookup r o.runs)) [
  | inl e ↦ ground (arith, e)
  | inr (n, e) ↦
      ground (arith, e, lookup-insert k r (record n { ended = true }) o.runs, nat_key.beq_iff r k)
]

pub live_id-end_run :
    (k r : ℕ) (o : Orchestrator)
    → live_id k (end_run r o).runs ≡ (if r ==ₖ k then none else live_id k o.runs)
unfolding live_id end_run
live_id-end_run k r o = elim (Option-cases (lookup r o.runs)) [
  | inl e ↦ ground (arith, e, nat_key.beq_iff r k)
  | inr (n, e) ↦
      ground (arith, e, lookup-insert k r (record n { ended = true }) o.runs, nat_key.beq_iff r k)
]

-- A goroutine that ends takes the mailbox of its node with it.
pub mailboxes-end_run :
    (j : ℤ) (r : ℕ) (o : Orchestrator)
    → lookup j (end_run r o).mailboxes ≡ elim (live_id r o.runs) [
      | none ↦ lookup j o.mailboxes
      | some i ↦ if i ==ₖ j then none else lookup j o.mailboxes
    ]
unfolding live_id end_run unregister_node
mailboxes-end_run j r o = elim (Option-cases (lookup r o.runs)) [
  | inl e ↦ ground (arith, e)
  | inr (n, e) ↦ ground (arith, e, lookup-erase j n.node_id o.mailboxes)
]

pub boxes-end_run :
    (r : ℕ) (o : Orchestrator) → ((end_run r o).boxes ≡ o.boxes) × ((end_run r o).next ≡ o.next)
unfolding end_run unregister_node
boxes-end_run r o = ground arith

pub cancel_keeps :
    (r : ℕ) (o : Orchestrator)
    → ((cancel r o).boxes ≡ o.boxes)
      × (((cancel r o).next ≡ o.next) × ((cancel r o).mailboxes ≡ o.mailboxes))
unfolding cancel
cancel_keeps r o = ground arith

pub node_of-insert :
    (k r : ℕ) (n : NodeRun) (runs : Dict ℕ NodeRun)
    → node_of k (insert r n runs) ≡ (if r ==ₖ k then some n.node_id else node_of k runs)
unfolding node_of
node_of-insert k r n runs = ground (arith, lookup-insert k r n runs)

pub live_id-insert :
    (k r : ℕ) (n : NodeRun) (runs : Dict ℕ NodeRun)
    → live_id k (insert r n runs)
      ≡ (if r ==ₖ k then (if n.ended then none else some n.node_id) else live_id k runs)
unfolding live_id
live_id-insert k r n runs = ground (arith, lookup-insert k r n runs)

-- The kernel section of a run's configuration.
unfoldable pub kernel_of : ℕ → Dict ℕ NodeRun → Option KernelConfig
kernel_of r runs = elim (lookup r runs) [ none ↦ none | some n ↦ some n.cfg.kernel ]

pub kernel_of-insert :
    (k r : ℕ) (n : NodeRun) (runs : Dict ℕ NodeRun)
    → kernel_of k (insert r n runs) ≡ (if r ==ₖ k then some n.cfg.kernel else kernel_of k runs)
unfolding kernel_of
kernel_of-insert k r n runs = ground (arith, lookup-insert k r n runs)

kernel_of_again :
    (k r : ℕ) (n m : NodeRun) (runs : Dict ℕ NodeRun)
    → lookup r runs ≡ some n
    → m.cfg ≡ n.cfg
    → kernel_of k (insert r m runs) ≡ kernel_of k runs
unfolding kernel_of
kernel_of_again k r n m runs e h =
    ground (arith, e, h, lookup-insert k r m runs, nat_key.beq_iff r k)

pub kernel_of-cancel :
    (k r : ℕ) (o : Orchestrator) → kernel_of k (cancel r o).runs ≡ kernel_of k o.runs
unfolding cancel
kernel_of-cancel k r o = elim (Option-cases (lookup r o.runs)) [
  | inl e ↦ ground (arith, e)
  | inr (n, e) ↦
      let m : NodeRun = record n { cancelled = true } in
      ground (arith, e, kernel_of_again k r n m o.runs e refl)
]

pub kernel_of-end_run :
    (k r : ℕ) (o : Orchestrator) → kernel_of k (end_run r o).runs ≡ kernel_of k o.runs
unfolding end_run
kernel_of-end_run k r o = elim (Option-cases (lookup r o.runs)) [
  | inl e ↦ ground (arith, e)
  | inr (n, e) ↦
      let m : NodeRun = record n { ended = true } in
      ground (arith, e, kernel_of_again k r n m o.runs e refl)
]
