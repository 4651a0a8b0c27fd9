-- ===== src/Machine/Accepted.antt =====
-- Only configurations that have passed `ValidateNodeSpec` come into the mailboxes of
-- internal/machine/machine.go.
use xboard_node_win.Common.{
  ◌==ₖ◌, false, Result, insert, ℕ, ℤ, Text, Dict, lookup, erase, lookup-insert, Bool, is_some,
  from_option, Option, none, some, List, [], ◌∷◌, nat_key, int_key, ◌≡◌, refl, sym, ap, ◌∙◌, ◌⊎◌,
  inl, inr, arith, Bool-cases, Option-cases, Result-cases,
}
use xboard_node_win.Panel
use xboard_node_win.Model.Value.{Value}
use xboard_node_win.Model.NodeSpec.{
  NodeSpec, clone_node_spec, clone_spec, append_copy, OutboundConfig, CustomRouteRule,
}
use xboard_node_win.Config.{Config, MachineConfig, KernelConfig}
use xboard_node_win.Config.Load.{FileRead}
use xboard_node_win.Validation.Spec.{
  SpecError, validate_node_spec, check_spec, effective_kernel_type, with_kernel,
}
use xboard_node_win.Validation.Transport.{normalize_kernel_type}
use xboard_node_win.Validation.Tags.{TagSource, collect_additional}
use xboard_node_win.ControlPlane.{
  EventType, sync_config, sync_users, sync_user_delta, sync_devices, unknown, Event, NodeMailbox,
  new_node_mailbox, apply, apply_locked, append_nil, seed_baseline, mark_ready, drain_if_ready,
}
use xboard_node_win.Sources.{MachineNode, WsEvent}
use xboard_node_win.Sources.Valid.{translate_ws_event_valid, validate_nil, machine_initial_valid}
use xboard_node_win.Machine.Wiring.Effects.{
  kernel_of, kernel_of-insert, kernel_of-cancel, kernel_of-end_run,
}
use xboard_node_win.Model.{UserSpec}
use xboard_node_win.Machine.{
  NodeRun, node_config, on_box, on_ws_event, boot, drain_box, mark_ready_and_drain, Orchestrator,
  empty_orchestrator, start_node, end_run, cancel, take_node, stop_node, stop_nodes, start_nodes,
  to_remove, node_ids, rediscover, register_node, on_ws_status, deliver, unregister_node,
}
use xboard_node_win.Machine.Delivery.{on_ws_event-cases, boot-cases}
use xboard_node_win.Machine.Happenings.{
  Happening, discovers, ends, registers, receives, connects, boots, drains, happen, run, after,
}

from_option-append_copy {ℓ} :
    {A : Type ℓ} (xs : Option (List A)) → from_option [] (append_copy xs) ≡ from_option [] xs
from_option-append_copy none = refl
from_option-append_copy (some []) = refl
from_option-append_copy (some (x ∷ xs)) = refl

abbrev check_with :
    List OutboundConfig → List CustomRouteRule → NodeSpec → Text → List TagSource → Option SpecError
check_with outs rules n kernel sources =
    check_spec (record n { custom_outbounds = some outs; custom_route_rules = some rules }) kernel
      sources

check_spec-clone :
    (n : NodeSpec) (kernel : Text) (sources : List TagSource)
    → check_spec (clone_spec n) kernel sources ≡ check_spec n kernel sources
unfolding check_spec clone_spec
check_spec-clone n kernel sources =
    ap
      (λ outs. check_with outs (from_option [] (append_copy n.custom_route_rules)) n kernel sources)
      (from_option-append_copy n.custom_outbounds)
    ∙ ap (λ rules. check_with (from_option [] n.custom_outbounds) rules n kernel sources)
        (from_option-append_copy n.custom_route_rules)

-- An event leaves the configuration of a mailbox, or puts a copy of its own there.
config-apply_locked :
    (t : EventType) (e : Event) (m : NodeMailbox)
    → e.kind ≡ t
    → ((apply_locked e m).0.config ≡ m.config)
      ⊎ ((apply_locked e m).0.config ≡ clone_node_spec e.config)
unfolding apply_locked
config-apply_locked sync_config e m h = ground (arith, h)
config-apply_locked sync_users e m h = ground (arith, h)
config-apply_locked sync_devices e m h = ground (arith, h)
config-apply_locked sync_user_delta e m h = ground (arith, h)
config-apply_locked unknown e m h = ground (arith, h)

config-apply :
    (e : Event) (m : NodeMailbox)
    → ((apply e m).config ≡ m.config) ⊎ ((apply e m).config ≡ clone_node_spec e.config)
unfolding apply
config-apply e m = ground (arith, config-apply_locked e.kind e m refl)

-- The configuration of the orchestrator, its mailboxes and the kernels of its runs are as they were.
abbrev Same : Orchestrator → Orchestrator → Type 0
Same o o' =
    (o'.cfg ≡ o.cfg) × ((o'.boxes ≡ o.boxes) × ((r : ℕ) → kernel_of r o'.runs ≡ kernel_of r o.runs))

end_run-Same : (r : ℕ) (o : Orchestrator) → Same o (end_run r o)
unfolding end_run unregister_node
end_run-Same r o = (ground arith, (ground arith, λ k. kernel_of-end_run k r o))

cancel-Same : (r : ℕ) (o : Orchestrator) → Same o (cancel r o)
unfolding cancel
cancel-Same r o = (ground arith, (ground arith, λ k. kernel_of-cancel k r o))

stopped-Same : (id : ℤ) (r : ℕ) (o : Orchestrator) → Same o (end_run r (take_node id r o))
unfolding take_node
stopped-Same id r o =
    let o1 : Orchestrator = record o {
      nodes = erase id o.nodes;
      mailboxes = erase id o.mailboxes;
    } in
    let c = cancel-Same r o1 in
    let e = end_run-Same r (cancel r o1) in (e.0 ∙ c.0, (e.1.0 ∙ c.1.0, λ k. e.1.1 k ∙ c.1.1 k))

stop_node-Same : (id : ℤ) (o : Orchestrator) → Same o (stop_node id o)
unfolding stop_node
stop_node-Same id o = elim (Option-cases (lookup id o.nodes)) [
  | inl e ↦ rw (e, stop_node) (refl, (refl, λ k. refl))
  | inr (r, e) ↦ rw (e, stop_node) (stopped-Same id r o)
]

stop_nodes-Same : (ids : List ℤ) (o : Orchestrator) → Same o (stop_nodes ids o)
unfolding stop_nodes
stop_nodes-Same [] o = (refl, (refl, λ k. refl))
stop_nodes-Same (id ∷ ids) o =
    let one = stop_node-Same id o in
    let rest = stop_nodes-Same ids (stop_node id o) in
    (rest.0 ∙ one.0, (rest.1.0 ∙ one.1.0, λ k. rest.1.1 k ∙ one.1.1 k))

module _ (read_file : Text → FileRead) (decode : Bool → Text → Option (Dict Text Value)) where
  with_kernel-clone :
      (n : NodeSpec) (k : KernelConfig) (kernel : Option Text)
      → with_kernel read_file decode (clone_spec n) k kernel
        ≡ with_kernel read_file decode n k kernel
  unfolding effective_kernel_type clone_spec
  with_kernel-clone n k none = refl
  with_kernel-clone n k (some kernel) =
      elim (Result-cases (collect_additional read_file decode k.custom_config k.custom_outbound)) [
        | inl (sources, e) ↦ ground (arith, e, check_spec-clone n kernel sources)
        | inr (x, e) ↦ ground (arith, e)
      ]

  -- A copy of a configuration is as valid as the configuration.
  validate-clone_node_spec :
      (n : Option NodeSpec) (k : KernelConfig)
      → validate_node_spec read_file decode (clone_node_spec n) k
        ≡ validate_node_spec read_file decode n k
  unfolding clone_node_spec validate_node_spec clone_spec effective_kernel_type
  validate-clone_node_spec none k = refl
  validate-clone_node_spec (some n) k =
      with_kernel-clone n k (normalize_kernel_type (effective_kernel_type n k))

  -- A configuration is valid for the kernel `k`, or for that of run `r`.
  abbrev pub ValidIn : KernelConfig → ℕ → Dict ℕ NodeRun → Option NodeSpec → Type 0
  ValidIn k r runs n =
      (validate_node_spec read_file decode n k ≡ none)
      ⊎ ((κ : KernelConfig) × ((kernel_of r runs ≡ some κ)
            × (validate_node_spec read_file decode n κ ≡ none)))

  -- The kernel section of the machine's configuration is `k`, and the configuration in every mailbox
  -- is valid for it or for the kernel of the mailbox's run.
  abbrev pub AllValid : KernelConfig → Orchestrator → Type 0
  AllValid k o =
      (o.cfg.kernel ≡ k)
      × ((r : ℕ) (box : NodeMailbox) → lookup r o.boxes ≡ some box → ValidIn k r o.runs box.config)

  Same-AllValid :
      (k : KernelConfig) (o o' : Orchestrator) → Same o o' → AllValid k o → AllValid k o'
  Same-AllValid k o o' s v = (
    ap (λ c. c.kernel) s.0 ∙ v.0,
    λ r box h. elim (v.1 r box (sym (ap (lookup r) s.1.0) ∙ h)) [
      | inl ok_k ↦ inl ok_k
      | inr (κ, (e, ok_κ)) ↦ inr (κ, (s.1.1 r ∙ e, ok_κ))
    ],
  )

  -- A box after a start is new and empty, or an old one of an old run.
  started-ValidIn :
      (k : KernelConfig) (n : NodeRun) (o : Orchestrator) (r : ℕ) (box : NodeMailbox)
      → AllValid k o
      → lookup r (insert o.next new_node_mailbox o.boxes) ≡ some box
      → ValidIn k r (insert o.next n o.runs) box.config
  started-ValidIn k n o r box v h =
      let found = lookup-insert r o.next new_node_mailbox o.boxes in
      elim (Bool-cases (o.next ==ₖ r)) [
        | inl e ↦
            let fresh : new_node_mailbox ≡ box = ground (arith, found, e, h) in
            inl (rw (sym fresh) (validate_nil read_file decode k))
        | inr e ↦ elim (v.1 r box (ground (arith, found, e, h))) [
          | inl ok_k ↦ inl ok_k
          | inr (κ, (d, ok_κ)) ↦
              inr (κ, (ground (arith, kernel_of-insert r o.next n o.runs, e, d), ok_κ))
        ]
      ]

  start_node-AllValid :
      (k : KernelConfig) (fetched : Option Panel.NodeConfig) (mn : MachineNode) (o : Orchestrator)
      → AllValid k o
      → AllValid k (start_node fetched mn o)
  unfolding start_node
  start_node-AllValid k fetched mn o v = elim (Bool-cases (is_some (lookup mn.id o.nodes))) [
    | inl e ↦ rw (e, start_node) v
    | inr e ↦
        let n : NodeRun = record {
          node_id = mn.id;
          cfg = node_config fetched mn o;
          cancelled = false;
          ended = false;
        } in
        rw (e, start_node) (v.0, λ r box h. started-ValidIn k n o r box v h)
  ]

  start_nodes-AllValid :
      (k : KernelConfig) (fetched : ℤ → Option Panel.NodeConfig) (ns : List MachineNode)
      (o : Orchestrator)
      → AllValid k o
      → AllValid k (start_nodes fetched ns o)
  unfolding start_nodes
  start_nodes-AllValid k fetched [] o v = v
  start_nodes-AllValid k fetched (mn ∷ ns) o v =
      start_nodes-AllValid k fetched ns (start_node (fetched mn.id) mn o)
        (start_node-AllValid k (fetched mn.id) mn o v)

  rediscover-AllValid :
      (k : KernelConfig) (fetched : ℤ → Option Panel.NodeConfig)
      (answer : Option (List MachineNode)) (o : Orchestrator)
      → AllValid k o
      → AllValid k (rediscover fetched answer o)
  unfolding rediscover
  rediscover-AllValid k fetched none o v = v
  rediscover-AllValid k fetched (some ns) o v =
      let gone = to_remove (node_ids ns) o.nodes in
      start_nodes-AllValid k fetched ns (stop_nodes gone o)
        (Same-AllValid k o (stop_nodes gone o) (stop_nodes-Same gone o) v)

  -- An operation on a mailbox that leaves a valid configuration there.
  on_box-AllValid :
      (k : KernelConfig) (f : NodeMailbox → NodeMailbox) (r : ℕ) (o : Orchestrator)
      → ((m : NodeMailbox) → ValidIn k r o.runs m.config → ValidIn k r o.runs (f m).config)
      → AllValid k o
      → AllValid k (on_box f r o)
  on_box-AllValid k f r o g v = elim (Option-cases (lookup r o.boxes)) [
    | inl e ↦ rw (e, on_box) v
    | inr (box, e) ↦ rw (e, on_box) (v.0, λ i b h. changed box e i b h)
  ]
    where
      changed :
          (box : NodeMailbox)
          → lookup r o.boxes ≡ some box
          → (i : ℕ) (b : NodeMailbox) → lookup i (insert r (f box) o.boxes) ≡ some b
          → ValidIn k i o.runs b.config
      changed box e i b h =
          let found = lookup-insert i r (f box) o.boxes in
          elim (Bool-cases (r ==ₖ i)) [
            | inl d ↦
                let new : f box ≡ b = ground (arith, found, d, h) in
                let same : r ≡ i = (nat_key.beq_iff r i).0 d in
                rw (sym new, sym same) (g box (v.1 r box e))
            | inr d ↦ v.1 i b (ground (arith, found, d, h))
          ]

  -- Seeding keeps the configuration of a mailbox, or puts a copy of the service's there.
  config-mark_ready_and_drain :
      (users : Option (List UserSpec)) (n : Option NodeSpec) (m : NodeMailbox)
      → ((mark_ready_and_drain users n m).config ≡ m.config)
        ⊎ ((mark_ready_and_drain users n m).config ≡ clone_node_spec n)
  unfolding mark_ready_and_drain seed_baseline mark_ready drain_if_ready
  config-mark_ready_and_drain users n m = ground arith

  seed-AllValid :
      (k κ : KernelConfig) (users : Option (List UserSpec)) (n : Option NodeSpec) (r : ℕ)
      (o : Orchestrator)
      → kernel_of r o.runs ≡ some κ
      → validate_node_spec read_file decode n κ ≡ none
      → AllValid k o
      → AllValid k (on_box (mark_ready_and_drain users n) r o)
  seed-AllValid k κ users n r o e g = on_box-AllValid k (mark_ready_and_drain users n) r o (λ m w.
      elim (config-mark_ready_and_drain users n m) [
        | inl s ↦ rw s w
        | inr s ↦ rw s (inr (κ, (e, validate-clone_node_spec n κ ∙ g)))
      ])

  boot-AllValid :
      (k : KernelConfig) (r : ℕ) (nc : Result Text (Option Panel.NodeConfig))
      (users : Result Text (Option (List Panel.User))) (o : Orchestrator)
      → AllValid k o
      → AllValid k (boot read_file decode r nc users o)
  unfolding kernel_of
  boot-AllValid k r nc users o v = elim (boot-cases read_file decode r nc users o) [
    | inl same ↦ rw same v
    | inr ((n, b), (e, (h, done))) ↦
        let valid = machine_initial_valid read_file decode n.cfg.kernel none nc users b h in
        rw done (
          seed-AllValid k n.cfg.kernel (append_nil (from_option [] b.users)) b.config r o
            (ground (arith, e)) valid v)
  ]

  config-drain :
      (m : NodeMailbox) → (drain_if_ready (record m { notified = false })).1.config ≡ m.config
  unfolding drain_if_ready
  config-drain m = ground arith

  receives-AllValid :
      (k : KernelConfig) (e : WsEvent) (o : Orchestrator)
      → AllValid k o
      → AllValid k (on_ws_event read_file decode e o).1
  unfolding deliver
  receives-AllValid k e o v = elim (on_ws_event-cases read_file decode e o) [
    | inl same ↦ rw same v
    | inr ((ev, r), (c, (d, done))) ↦
        let valid = translate_ws_event_valid read_file decode e o.cfg.kernel ev c in
        rw done (
          on_box-AllValid k (apply ev) r o
            (λ m w. elim (config-apply ev m) [
              | inl s ↦ rw s w
              | inr s ↦ rw s (inl (validate-clone_node_spec ev.config k ∙ rw (sym v.0) valid))
            ])
            v)
  ]

  happen-AllValid :
      (k : KernelConfig) (h : Happening) (o : Orchestrator)
      → AllValid k o
      → AllValid k (happen read_file decode h o)
  unfolding register_node on_ws_status drain_box
  happen-AllValid k (discovers fetched answer) o v = rediscover-AllValid k fetched answer o v
  happen-AllValid k (ends r) o v = Same-AllValid k o (end_run r o) (end_run-Same r o) v
  happen-AllValid k (registers id r) o v = v
  happen-AllValid k (connects up) o v = v
  happen-AllValid k (receives e) o v = receives-AllValid k e o v
  happen-AllValid k (boots r nc users) o v = boot-AllValid k r nc users o v
  happen-AllValid k (drains r) o v =
      on_box-AllValid k (λ m. (drain_if_ready (record m { notified = false })).1) r o
        (λ m w. rw (config-drain m) w) v

  run-AllValid :
      (k : KernelConfig) (hs : List Happening) (o : Orchestrator)
      → AllValid k o
      → AllValid k (run read_file decode hs o)
  unfolding run
  run-AllValid k [] o v = v
  run-AllValid k (h ∷ hs) o v =
      run-AllValid k hs (happen read_file decode h o) (happen-AllValid k h o v)

  -- Whatever an orchestrator and the services of its nodes have been through, one thing after the other:
  -- each mailbox holds no configuration, or one that is valid for the kernel of the machine's
  -- configuration or for the kernel of the run that the mailbox belongs to.
  pub after-AllValid :
      (c : Config) (m : MachineConfig) (hs : List Happening)
      → AllValid c.kernel (after read_file decode c m hs)
  unfolding lookup
  after-AllValid c m hs = run-AllValid c.kernel hs (empty_orchestrator c m) (refl, λ r box h. cc)
