-- ===== src/Validation/Spec.antt =====
-- `ValidateNodeSpec` of internal/model/validate.go, and what a description that passes it is like.
use xboard_node_win.Common.{
  ◌⊎◌, inl, inr, true, false, Text, Dict, trim_space, is_empty, from_option, Bool, if◌then◌else◌,
  Option, none, some, List, [], Result, ok, error, ◌≡◌, refl, or_else, or_else-none,
}
use xboard_node_win.Model.Value.{Value}
use xboard_node_win.Model.NodeSpec.{NodeSpec}
use xboard_node_win.Config.{KernelConfig}
use xboard_node_win.Config.Load.{FileRead}
use xboard_node_win.Validation.Transport.{
  normalized, normalize_kernel_type, validate_transport_kernel, Carries,
  validate_transport_kernel-Carries, Names, normalize_kernel_type-Names,
}
use xboard_node_win.Validation.Tags.{
  TagSource, CustomConfigError, Collision, collect_additional, validate_collisions,
  additional_tag_names, build_available,
}
use xboard_node_win.Validation.Tags.Available.{Named, unknown_tag-Named}
use xboard_node_win.Validation.Tags.Apart.{TagsApart, validate_collisions-TagsApart}
use xboard_node_win.Validation.Outbounds.{OutboundError, validate_custom_outbounds}
use xboard_node_win.Validation.Outbounds.Accepts.{AcceptedBy, validate_custom_outbounds-AcceptedBy}
use xboard_node_win.Validation.Routes.{RouteError, validate_custom_route_rules}
use xboard_node_win.Validation.Routes.Accepts.{AllRulesOk, validate_custom_route_rules-AllRulesOk}

-- The errors, by the check that fails.
pub data SpecError : Type 0 where
  kernel_type_unknown : Text → SpecError
  tags_unreadable : CustomConfigError → SpecError
  tag_collision : Collision → SpecError
  outbound_invalid : OutboundError → SpecError
  route_invalid : RouteError → SpecError
  transport_unsupported : Text → SpecError

-- An error of a check as one of the whole.
abbrev wrap_error {ℓ} : {E : Type ℓ} → (E → SpecError) → Option E → Option SpecError
wrap_error f none = none
wrap_error f (some e) = some (f e)

-- The checks once the kernel and the additional tags are known.
unfoldable pub check_spec : NodeSpec → Text → List TagSource → Option SpecError
check_spec n kernel sources =
    let outs = from_option [] n.custom_outbounds in
    let tags = additional_tag_names sources in
    or_else (wrap_error tag_collision (validate_collisions outs sources)) (
      or_else (wrap_error outbound_invalid (validate_custom_outbounds outs kernel tags)) (
        or_else
          (wrap_error route_invalid (
            validate_custom_route_rules (from_option [] n.custom_route_rules) kernel
              (some (build_available outs tags))))
          (wrap_error transport_unsupported (validate_transport_kernel n.network kernel))))

-- The kernel type of the configuration, or else of the description.
unfoldable pub effective_kernel_type : NodeSpec → KernelConfig → Text
effective_kernel_type n k =
    if is_empty (trim_space k.kind) then trim_space n.kernel_type else trim_space k.kind

module _ (read_file : Text → FileRead) (decode : Bool → Text → Option (Dict Text Value)) where
  abbrev pub with_kernel : NodeSpec → KernelConfig → Option Text → Option SpecError
  with_kernel n k none = some (kernel_type_unknown (effective_kernel_type n k))
  with_kernel n k (some kernel) =
      elim (collect_additional read_file decode k.custom_config k.custom_outbound) [
        | error e ↦ some (tags_unreadable e)
        | ok sources ↦ check_spec n kernel sources
      ]

  -- `ValidateNodeSpec`; a nil description passes.
  unfoldable pub validate_node_spec : Option NodeSpec → KernelConfig → Option SpecError
  validate_node_spec none k = none
  validate_node_spec (some n) k =
      with_kernel n k (normalize_kernel_type (effective_kernel_type n k))

wrap_error-none {ℓ} :
    {E : Type ℓ} (f : E → SpecError) (o : Option E) → wrap_error f o ≡ none → o ≡ none
wrap_error-none f none h = refl
wrap_error-none f (some e) h = cc

-- A description that the kernel can be given: the tags from outside differ from each other and from
-- the tags of the outbounds; the outbounds, their settings and the rules are sound; and the kernel has
-- the transport.
abbrev pub SpecOk : NodeSpec → Text → List TagSource → Type 0
SpecOk n kernel sources =
    let outs = from_option [] n.custom_outbounds in
    let tags = additional_tag_names sources in
    TagsApart outs sources
    × (AcceptedBy (normalized kernel) tags outs
        × (AllRulesOk (Named outs tags) (from_option [] n.custom_route_rules)
            × Carries n.network kernel))

check_spec-SpecOk :
    (n : NodeSpec) (kernel : Text) (sources : List TagSource)
    → check_spec n kernel sources ≡ none
    → SpecOk n kernel sources
unfolding check_spec
check_spec-SpecOk n kernel sources h =
    let outs = from_option [] n.custom_outbounds in
    let rules = from_option [] n.custom_route_rules in
    let tags = additional_tag_names sources in
    let available = some (build_available outs tags) in
    let collisions = validate_collisions outs sources in
    let outbounds = validate_custom_outbounds outs kernel tags in
    let routes = validate_custom_route_rules rules kernel available in
    let transport = validate_transport_kernel n.network kernel in
    let a =
      or_else-none (wrap_error tag_collision collisions)
        (or_else (wrap_error outbound_invalid outbounds)
          (or_else (wrap_error route_invalid routes) (wrap_error transport_unsupported transport)))
        h in
    let b =
      or_else-none (wrap_error outbound_invalid outbounds)
        (or_else (wrap_error route_invalid routes) (wrap_error transport_unsupported transport))
        a.1 in
    let c =
      or_else-none (wrap_error route_invalid routes) (wrap_error transport_unsupported transport)
        b.1 in
    (
      validate_collisions-TagsApart outs sources (wrap_error-none tag_collision collisions a.0),
      (
        validate_custom_outbounds-AcceptedBy outs kernel tags
            (wrap_error-none outbound_invalid outbounds b.0),
        (
          validate_custom_route_rules-AllRulesOk (Named outs tags) available
              (λ t filled. unknown_tag-Named outs tags t) rules kernel
              (wrap_error-none route_invalid routes c.0),
          (validate_transport_kernel-Carries n.network kernel).0
              (wrap_error-none transport_unsupported transport c.1),
        ),
      ),
    )

-- The kernel is the one that the configuration names, or else, if it names none, the description.
abbrev pub KernelOf : NodeSpec → KernelConfig → Text → Type 0
KernelOf n k kernel =
    ((is_empty (trim_space k.kind) ≡ false) × Names (trim_space k.kind) kernel)
    ⊎ ((is_empty (trim_space k.kind) ≡ true) × Names (trim_space n.kernel_type) kernel)

either-Names :
    (b : Bool) (x y kernel : Text)
    → normalize_kernel_type (if b then y else x) ≡ some kernel
    → ((b ≡ false) × Names x kernel) ⊎ ((b ≡ true) × Names y kernel)
either-Names true x y kernel h = inr (refl, normalize_kernel_type-Names y kernel h)
either-Names false x y kernel h = inl (refl, normalize_kernel_type-Names x kernel h)

normalize_kernel_type-KernelOf :
    (n : NodeSpec) (k : KernelConfig) (kernel : Text)
    → normalize_kernel_type (effective_kernel_type n k) ≡ some kernel
    → KernelOf n k kernel
unfolding effective_kernel_type
normalize_kernel_type-KernelOf n k kernel h =
    either-Names (is_empty (trim_space k.kind)) (trim_space k.kind) (trim_space n.kernel_type)
      kernel h

module _ (read_file : Text → FileRead) (decode : Bool → Text → Option (Dict Text Value)) where
  -- The kernel and the additional tags of a description that passes, which is sound for them.
  abbrev pub PassesWith : NodeSpec → KernelConfig → Text → List TagSource → Type 0
  PassesWith n k kernel sources =
      KernelOf n k kernel
      × ((collect_additional read_file decode k.custom_config k.custom_outbound ≡ ok sources)
          × SpecOk n kernel sources)

  by_sources :
      (n : NodeSpec) (k : KernelConfig) (kernel : Text)
      (r : Result CustomConfigError (List TagSource))
      → normalize_kernel_type (effective_kernel_type n k) ≡ some kernel
      → collect_additional read_file decode k.custom_config k.custom_outbound ≡ r
      → elim r [ error e ↦ some (tags_unreadable e) | ok sources ↦ check_spec n kernel sources ]
        ≡ none
      → (sources : List TagSource) × PassesWith n k kernel sources
  by_sources n k kernel (error e) f g h = cc
  by_sources n k kernel (ok sources) f g h = (
    sources,
    (normalize_kernel_type-KernelOf n k kernel f, (g, check_spec-SpecOk n kernel sources h)),
  )

  by_kernel_type :
      (n : NodeSpec) (k : KernelConfig) (o : Option Text)
      → normalize_kernel_type (effective_kernel_type n k) ≡ o
      → with_kernel read_file decode n k o ≡ none
      → (kernel : Text) × ((sources : List TagSource) × PassesWith n k kernel sources)
  by_kernel_type n k none f h = cc
  by_kernel_type n k (some kernel) f h = (
    kernel,
    by_sources n k kernel (collect_additional read_file decode k.custom_config k.custom_outbound) f
        refl h,
  )

  -- A description that passes: the kernel that the configuration names, or else the description, is
  -- sing-box or xray; the additional tags can be read, those that are not blank differ up to case and
  -- outer spaces, and no outbound has one of them; its custom outbounds are accepted for the kernel;
  -- each route rule is disabled, or matches on a value that is not blank, has valid ports, networks
  -- that are blank, tcp or udp, and an action: direct or block without a target, or a route to a tag
  -- that is built in, additional or an outbound's; and sing-box is not given the transports xhttp or
  -- splithttp.
  pub validate_node_spec_sound :
      (n : NodeSpec) (k : KernelConfig)
      → validate_node_spec read_file decode (some n) k ≡ none
      → (kernel : Text) × ((sources : List TagSource) × PassesWith n k kernel sources)
  unfolding validate_node_spec
  validate_node_spec_sound n k h =
      by_kernel_type n k (normalize_kernel_type (effective_kernel_type n k)) refl h
