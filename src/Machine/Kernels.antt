-- ===== src/Machine/Kernels.antt =====
-- The kernel that internal/machine/machine.go chooses for a node, and the one that `onWSEvent` checks a
-- configuration against.
use xboard_node_win.Common.{
  Text, bytes, Dict, trim_space, to_lower, is_some, Bool, true, Option, some, ◌≡◌, arith, inl, inr,
  error, Option-cases, beq_text_iff, false, ◌⊎◌,
}
use xboard_node_win.Panel
use xboard_node_win.Model.Value.{Value}
use xboard_node_win.Model.NodeSpec.{NodeSpec}
use xboard_node_win.Model.FromPanel.{node_spec_from_panel, spec_from_panel}
use xboard_node_win.Config.{KernelConfig}
use xboard_node_win.Config.Load.{FileRead}
use xboard_node_win.Config.Expand.{derive_kernel}
use xboard_node_win.Validation.Transport.{
  validate_transport_kernel, resolve_kernel_for_transport_lem, validate_transport_kernel-Carries,
  Names,
}
use xboard_node_win.Validation.Spec.{
  KernelOf, SpecError, validate_node_spec, validate_node_spec_sound,
}
use xboard_node_win.Sources.{
  MachineNode, WsEvent, node_spec_from_panel_validated, translate_ws_event,
}
use xboard_node_win.Machine.{Orchestrator, node_config, on_ws_event}
use xboard_node_win.Machine.Delivery.{on_ws_event-cases}

-- The kernel of a configuration that names sing-box.
Names-singbox : (kernel : Text) → Names (bytes "singbox") kernel → kernel ≡ bytes "singbox"
unfolding trim_space to_lower
Names-singbox kernel (inl (e, f)) = e
Names-singbox kernel (inr (e, f)) =
    let differ : false ≡ true = (beq_text_iff (bytes "singbox") (bytes "xray")).1 f in absurd cc

kernel_singbox :
    (n : NodeSpec) (k : KernelConfig) (kernel : Text)
    → k.kind ≡ bytes "singbox"
    → KernelOf n k kernel
    → kernel ≡ bytes "singbox"
unfolding trim_space
kernel_singbox n k kernel h =
    rw h
      (λ (named : ((false ≡ false) × Names (bytes "singbox") kernel)
          ⊎ ((false ≡ true) × Names (trim_space n.kernel_type) kernel)).
        elim named [ inl (e, f) ↦ Names-singbox kernel f | inr (e, f) ↦ absurd cc ])

module _ (read_file : Text → FileRead) (decode : Bool → Text → Option (Dict Text Value)) where
  rejected :
      (n : NodeSpec) (k : KernelConfig) (t : Text)
      → k.kind ≡ bytes "singbox"
      → validate_transport_kernel n.network (bytes "singbox") ≡ some t
      → is_some (validate_node_spec read_file decode (some n) k) ≡ true
  rejected n k t h u = elim (Option-cases (validate_node_spec read_file decode (some n) k)) [
    | inl e ↦
        let p = validate_node_spec_sound read_file decode n k e in
        let same = kernel_singbox n k p.0 h p.1.1.0 in
        let carried = (validate_transport_kernel-Carries n.network p.0).1 p.1.1.1.1.1.1.1 in
        absurd cc
    | inr (x, e) ↦ ground (arith, e)
  ]

  translation_fails :
      (e : WsEvent) (nc : Panel.NodeConfig) (k : KernelConfig) (t : Text)
      → e.config ≡ some nc
      → k.kind ≡ bytes "singbox"
      → validate_transport_kernel nc.network (bytes "singbox") ≡ some t
      → (x : SpecError) × (translate_ws_event read_file decode e k ≡ error x)
  unfolding translate_ws_event node_spec_from_panel_validated node_spec_from_panel spec_from_panel
  translation_fails e nc k t c h u =
      let bad = rejected (spec_from_panel nc) k t h u in
      elim (Option-cases (validate_node_spec read_file decode (some (spec_from_panel nc)) k)) [
        | inl v ↦ absurd (ground (arith, bad, v))
        | inr (x, v) ↦ (x, ground (arith, c, v))
      ]

  -- A node whose transport sing-box lacks, on a machine whose configuration names sing-box: the node runs
  -- with xray, but every event of the WebSocket that brings its configuration is dropped, because it is
  -- checked against the kernel of the machine.
  pub on_ws_event_switched :
      (e : WsEvent) (nc : Panel.NodeConfig) (mn : MachineNode) (o : Orchestrator) (t : Text)
      → e.config ≡ some nc
      → o.cfg.kernel.kind ≡ bytes "singbox"
      → validate_transport_kernel nc.network (bytes "singbox") ≡ some t
      → ((node_config (some nc) mn o).kernel.kind ≡ bytes "xray")
        × ((on_ws_event read_file decode e o).1 ≡ o)
  unfolding node_config derive_kernel
  on_ws_event_switched e nc mn o t c h u = (
    ground (arith, h, u, resolve_kernel_for_transport_lem nc.network o.cfg.kernel.kind),
    elim (on_ws_event-cases read_file decode e o) [
      | inl same ↦ same
      | inr ((ev, r), (g, d)) ↦
          let f = translation_fails e nc o.cfg.kernel t c h u in absurd (ground (arith, f.1, g))
    ],
  )
