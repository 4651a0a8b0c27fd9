-- ===== src/Validation/Routes/Accepts.antt =====
-- What the accepted route rules of internal/model/custom_route_validate.go are like.
use xboard_node_win.Common.{
  ℕ, suc, Text, bytes, Keys, text_key, beq_text_iff, trim_space, is_empty, Bool, true, false,
  if◌then◌else◌, Option, none, some, List, [], ◌∷◌, ◌≡◌, refl, ◌⊎◌, arith,
}
use xboard_node_win.Model.NodeSpec.{RouteAction, RouteMatch, CustomRouteRule}
use xboard_node_win.Validation.Transport.{normalized}
use xboard_node_win.Validation.Routes.{
  RouteError, KernelRouteSupport, has_route_match, values, as_error, unknown_tag, check_action,
  check_rule, check_rules, route_support, validate_custom_route_rules, kernel_unsupported,
  validate_port_specs, bad_ports, bad_source_ports, bad_network, validate_networks,
  has_any_non_blank,
}
use xboard_node_win.Validation.Routes.Ports.{AllPorts, validate_port_specs-AllPorts}

-- The action routes to a tag that `P` holds of, or it is direct or block and has no target.
abbrev pub ActionOk : (Text → Type 0) → RouteAction → Type 0
ActionOk P a =
    ((normalized a.kind ≡ bytes "route")
      × ((is_empty (trim_space a.target) ≡ false) × P (trim_space a.target)))
    ⊎ (((normalized a.kind ≡ bytes "direct") ⊎ (normalized a.kind ≡ bytes "block"))
        × (is_empty (trim_space a.target) ≡ true))

-- Some value is not blank.
abbrev pub AnyFilled : List Text → Type 0
AnyFilled [] = ⊥
AnyFilled (v ∷ vs) = (is_empty (trim_space v) ≡ false) ⊎ AnyFilled vs

any_filled : (vs : List Text) → has_any_non_blank vs ≡ true → AnyFilled vs
any_filled [] h = absurd (cc)
any_filled (v ∷ vs) h = ground (arith, h, any_filled vs)

-- Some field has a value that is not blank.
abbrev pub Matches : RouteMatch → Type 0
Matches m =
    AnyFilled (values m.domains)
    ⊎ (AnyFilled (values m.domain_suffixes)
        ⊎ (AnyFilled (values m.ip_cidrs)
            ⊎ (AnyFilled (values m.ports)
                ⊎ (AnyFilled (values m.networks)
                    ⊎ (AnyFilled (values m.source_cidrs) ⊎ AnyFilled (values m.source_ports))))))

has_route_match-Matches : (m : RouteMatch) → has_route_match m ≡ true → Matches m
unfolding has_route_match
has_route_match-Matches m h = ground (
  arith,
  h,
  any_filled (values m.domains),
  any_filled (values m.domain_suffixes),
  any_filled (values m.ip_cidrs),
  any_filled (values m.ports),
  any_filled (values m.networks),
  any_filled (values m.source_cidrs),
  any_filled (values m.source_ports),
)

-- Every value is blank, tcp or udp, up to case and outer spaces.
abbrev pub AllNetworks : List Text → Type 0
AllNetworks [] = Unit
AllNetworks (v ∷ vs) =
    ((is_empty (normalized v) ≡ true)
      ⊎ ((normalized v ≡ bytes "tcp") ⊎ (normalized v ≡ bytes "udp")))
    × AllNetworks vs

validate_networks-AllNetworks : (vs : List Text) → validate_networks vs ≡ none → AllNetworks vs
unfolding validate_networks
validate_networks-AllNetworks [] h = tt
validate_networks-AllNetworks (v ∷ vs) h = ground (
  arith,
  h,
  beq_text_iff (normalized v) (bytes "tcp"),
  beq_text_iff (normalized v) (bytes "udp"),
  validate_networks-AllNetworks vs,
)

-- A rule matches on something, its ports are ports or ranges, its networks are tcp or udp, and its
-- action is sound.
abbrev pub RuleOk : (Text → Type 0) → CustomRouteRule → Type 0
RuleOk P r =
    Matches r.match
    × ((AllPorts (values r.match.ports) × AllPorts (values r.match.source_ports))
        × (AllNetworks (values r.match.networks) × ActionOk P r.action))

-- Every rule is disabled or sound.
abbrev pub AllRulesOk : (Text → Type 0) → List CustomRouteRule → Type 0
AllRulesOk P [] = Unit
AllRulesOk P (r ∷ rs) = ((r.disabled ≡ true) ⊎ RuleOk P r) × AllRulesOk P rs

as_error-none : (f : Text → RouteError) (o : Option Text) → as_error f o ≡ none → o ≡ none
as_error-none f none h = refl
as_error-none f (some v) h = cc

module _ (P : Text → Type 0) (tags : Option (Keys Text))
    (known : (t : Text) → is_empty t ≡ false → unknown_tag tags t ≡ false → P t) where
  check_action-ActionOk : (i : ℕ) (a : RouteAction) → check_action tags i a ≡ none → ActionOk P a
  unfolding check_action
  check_action-ActionOk i a h = ground (
    arith,
    h,
    known (trim_space a.target),
    beq_text_iff (normalized a.kind) (bytes "route"),
    beq_text_iff (normalized a.kind) (bytes "direct"),
    beq_text_iff (normalized a.kind) (bytes "block"),
  )

  check_rule-RuleOk :
      (support : Option KernelRouteSupport) (i : ℕ) (r : CustomRouteRule)
      → check_rule support tags i r ≡ none
      → RuleOk P r
  unfolding check_rule
  check_rule-RuleOk support i r h = ground (
    arith,
    h,
    has_route_match-Matches r.match,
    as_error-none (bad_ports i) (validate_port_specs (values r.match.ports)),
    as_error-none (bad_source_ports i) (validate_port_specs (values r.match.source_ports)),
    as_error-none (bad_network i) (validate_networks (values r.match.networks)),
    validate_port_specs-AllPorts (values r.match.ports),
    validate_port_specs-AllPorts (values r.match.source_ports),
    validate_networks-AllNetworks (values r.match.networks),
    check_action-ActionOk i r.action,
  )

  check_rules-AllRulesOk :
      (support : Option KernelRouteSupport) (i : ℕ) (rs : List CustomRouteRule)
      → check_rules support tags i rs ≡ none
      → AllRulesOk P rs
  unfolding check_rules
  check_rules-AllRulesOk support i [] h = tt
  check_rules-AllRulesOk support i (r ∷ rs) h =
      ground (arith, h, check_rule-RuleOk support i r, check_rules-AllRulesOk support (suc i) rs)

  by_kernel :
      (kernel : Text) (rs : List CustomRouteRule) (o : Option KernelRouteSupport)
      → elim o [ none ↦ some (kernel_unsupported kernel) | some k ↦ check_rules (some k) tags 0 rs ]
        ≡ none
      → AllRulesOk P rs
  by_kernel kernel rs none h = cc
  by_kernel kernel rs (some k) h = check_rules-AllRulesOk (some k) 0 rs h

  by_name :
      (named : Bool) (kernel : Text) (rs : List CustomRouteRule)
      → (if named then check_rules none tags 0 rs else elim (route_support kernel) [
        | none ↦ some (kernel_unsupported kernel)
        | some k ↦ check_rules (some k) tags 0 rs
      ])
        ≡ none
      → AllRulesOk P rs
  by_name true kernel rs h = check_rules-AllRulesOk none 0 rs h
  by_name false kernel rs h = by_kernel kernel rs (route_support kernel) h

  -- Accepted route rules: every rule that is not disabled matches on something, its port values are
  -- blank, ports or ranges, its networks are blank, tcp or udp, and its action routes to a tag that
  -- is known, or is direct or block without a target.
  pub validate_custom_route_rules-AllRulesOk :
      (rules : List CustomRouteRule) (kernel_type : Text)
      → validate_custom_route_rules rules kernel_type tags ≡ none
      → AllRulesOk P rules
  unfolding validate_custom_route_rules
  validate_custom_route_rules-AllRulesOk [] kernel_type h = tt
  validate_custom_route_rules-AllRulesOk (r ∷ rs) kernel_type h =
      by_name (is_empty (normalized kernel_type)) (normalized kernel_type) (r ∷ rs) h
