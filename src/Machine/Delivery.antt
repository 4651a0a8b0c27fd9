-- ===== src/Machine/Delivery.antt =====
-- The effect of an event in internal/machine/machine.go on the mailboxes.
use xboard_node_win.Common.{
  nat_key, none, List, [], from_option, Result, refl, ℕ, pos, beq_ℤ, Text, bytes, beq_text, Dict,
  lookup, Bool, Option, some, int_key, ◌≡◌, ◌⊎◌, inl, inr, arith, Bool-cases, Option-cases,
  Result-cases, ok,
}
use xboard_node_win.Model.Value.{Value}
use xboard_node_win.Config.Load.{FileRead}
use xboard_node_win.ControlPlane.{Event, append_nil}
use xboard_node_win.Sources.{WsEvent, translate_ws_event, machine_initial}
use xboard_node_win.Standalone.{Bootstrap}
use xboard_node_win.Panel
use xboard_node_win.Machine.{
  NodeRun, boot, on_box, mark_ready_and_drain, Orchestrator, deliver, on_ws_event,
}

module _ (read_file : Text → FileRead) (decode : Bool → Text → Option (Dict Text Value)) where
  -- An event changes nothing, or is delivered, translated, to the mailbox of its node.
  pub on_ws_event-cases :
      (e : WsEvent) (o : Orchestrator)
      → ((on_ws_event read_file decode e o).1 ≡ o)
        ⊎ ((p : Event × ℕ) × ((translate_ws_event read_file decode e o.cfg.kernel ≡ ok p.0)
              × ((lookup e.node_id o.mailboxes ≡ some p.1)
                  × ((on_ws_event read_file decode e o).1 ≡ deliver p.0 p.1 o))))
  unfolding on_ws_event
  on_ws_event-cases e o = elim (Bool-cases (beq_text e.kind (bytes "sync.nodes"))) [
    | inl a ↦ inl (ground (arith, a))
    | inr a ↦ elim (Bool-cases (beq_ℤ e.node_id (pos 0))) [
      | inl b ↦ inl (ground (arith, a, b))
      | inr b ↦ elim (Result-cases (translate_ws_event read_file decode e o.cfg.kernel)) [
        | inr (x, c) ↦ inl (ground (arith, a, b, c))
        | inl (ev, c) ↦ elim (Option-cases (lookup e.node_id o.mailboxes)) [
          | inl d ↦ inl (ground (arith, a, b, c, d))
          | inr (r, d) ↦ inr ((ev, r), (c, (d, ground (arith, a, b, c, d))))
        ]
      ]
    ]
  ]

  -- A start of a service changes nothing, or seeds the mailbox of its run with what it starts with.
  pub boot-cases :
      (r : ℕ) (nc : Result Text (Option Panel.NodeConfig))
      (users : Result Text (Option (List Panel.User))) (o : Orchestrator)
      → (boot read_file decode r nc users o ≡ o)
        ⊎ ((p : NodeRun × Bootstrap) × ((lookup r o.runs ≡ some p.0)
              × ((machine_initial read_file decode p.0.cfg.kernel none nc users ≡ ok p.1)
                  × (boot read_file decode r nc users o
                      ≡ on_box
                          (mark_ready_and_drain (append_nil (from_option [] p.1.users)) p.1.config)
                          r
                          o))))
  unfolding boot
  boot-cases r nc users o = elim (Option-cases (lookup r o.runs)) [
    | inl e ↦ inl (ground (arith, e))
    | inr (n, e) ↦
        elim (Result-cases (machine_initial read_file decode n.cfg.kernel none nc users)) [
          | inr (x, b) ↦ inl (rw (e, b, boot) refl)
          | inl (b, h) ↦ inr ((n, b), (e, (h, rw (e, h, boot) refl)))
        ]
  ]
