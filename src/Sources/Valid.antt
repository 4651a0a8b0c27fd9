-- ===== src/Sources/Valid.antt =====
-- What internal/controlplane hands to the service has passed `ValidateNodeSpec`.
use xboard_node_win.Common.{
  ℤ, List, some, error, Text, Dict, Option, none, is_some, Bool, Result, ok, Result-cases,
  Option-cases, ◌≡◌, refl, sym, inl, inr, arith, Bool-cases,
}
use xboard_node_win.Panel
use xboard_node_win.Model.Value.{Value}
use xboard_node_win.Model.NodeSpec.{NodeSpec}
use xboard_node_win.Model.FromPanel.{node_spec_from_panel}
use xboard_node_win.Config.{KernelConfig}
use xboard_node_win.Config.Load.{FileRead}
use xboard_node_win.Validation.Spec.{SpecError, validate_node_spec}
use xboard_node_win.ControlPlane.{Event}
use xboard_node_win.Standalone.{Bootstrap}
use xboard_node_win.Sources.{
  WsEvent, node_spec_from_panel_validated, translate_ws_event, machine_initial, translated,
}

module _ (read_file : Text → FileRead) (decode : Bool → Text → Option (Dict Text Value)) where
  pub validated_valid :
      (nc : Option Panel.NodeConfig) (k : KernelConfig) (spec : Option NodeSpec)
      → node_spec_from_panel_validated read_file decode nc k ≡ ok spec
      → validate_node_spec read_file decode spec k ≡ none
  unfolding node_spec_from_panel_validated
  validated_valid nc k spec h =
      elim (Option-cases (validate_node_spec read_file decode (node_spec_from_panel nc) k)) [
        | inl e ↦ ground (arith, e, h)
        | inr (x, e) ↦ ground (arith, e, h)
      ]

  pub validate_nil : (k : KernelConfig) → validate_node_spec read_file decode none k ≡ none
  unfolding validate_node_spec
  validate_nil k = refl

  pub translate_ws_event_valid :
      (e : WsEvent) (k : KernelConfig) (ev : Event)
      → translate_ws_event read_file decode e k ≡ ok ev
      → validate_node_spec read_file decode ev.config k ≡ none
  unfolding translate_ws_event
  translate_ws_event_valid e k ev h = elim (Bool-cases (is_some e.config)) [
    | inl c ↦ elim (Result-cases (node_spec_from_panel_validated read_file decode e.config k)) [
      | inl (spec, v) ↦
          let valid = validated_valid e.config k spec v in ground (arith, c, v, h, valid)
      | inr (x, v) ↦ ground (arith, c, v, h)
    ]
    | inr c ↦
        let unset : Result SpecError Event = ok (translated read_file decode e none) in
        let q : unset ≡ ok ev = ground (arith, c, h) in
        let i : translated read_file decode e none ≡ ev = cc in rw (sym i) (validate_nil k)
  ]

  -- So has what a node under a machine starts with, for the kernel of the node.
  pub machine_initial_valid {ℓ} :
      {E : Type ℓ} (k : KernelConfig) (hs : Option (ℤ × ℤ))
      (nc : Result E (Option Panel.NodeConfig)) (users : Result E (Option (List Panel.User)))
      (b : Bootstrap)
      → machine_initial read_file decode k hs nc users ≡ ok b
      → validate_node_spec read_file decode b.config k ≡ none
  unfolding machine_initial
  machine_initial_valid k hs (error x) users b h = cc
  machine_initial_valid k hs (ok none) users b h = cc
  machine_initial_valid k hs (ok (some nc)) (error x) b h = cc
  machine_initial_valid k hs (ok (some nc)) (ok us) b h =
      elim (Result-cases (node_spec_from_panel_validated read_file decode (some nc) k)) [
        | inl (spec, v) ↦
            let valid = validated_valid (some nc) k spec v in
            let same : spec ≡ b.config = ground (arith, v, h) in rw (sym same) valid
        | inr (x, v) ↦ absurd (ground (arith, v, h))
      ]
