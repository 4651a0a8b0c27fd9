-- ===== src/Validation/Routes.antt =====
-- The checks of custom route rules: internal/model/custom_route_validate.go and custom_route_support.go.
pub mod Accepts
pub mod Ports
use xboard_node_win.Common.{
  ℕ, suc, ℤ, pos, ltb_ℤ, Text, bytes, Keys, lookup, text_key, beq_text, trim_space, to_lower, atoi,
  split, has_char, is_empty, from_option, is_some, in_list, Bool, true, false, not, ◌&&◌, ◌||◌,
  if◌then◌else◌, Option, none, some, List, [], ◌∷◌, fail_if, or_else,
}
use xboard_node_win.Model.Value.{Slice}
use xboard_node_win.Model.NodeSpec.{RouteMatch, RouteAction, CustomRouteRule}
use xboard_node_win.Validation.Transport.{normalized}

-- The errors, with the index of the rule and the value at fault.
pub data RouteError : Type 0 where
  kernel_unsupported : Text → RouteError
  match_required : ℕ → RouteError
  matcher_unsupported : ℕ → RouteError
  bad_ports : ℕ → Text → RouteError
  bad_source_ports : ℕ → Text → RouteError
  bad_network : ℕ → Text → RouteError
  action_required : ℕ → RouteError
  action_unsupported : ℕ → Text → RouteError
  target_required : ℕ → RouteError
  target_unknown : ℕ → Text → RouteError
  target_forbidden : ℕ → RouteError

-- `hasAnyNonBlank`
abbrev pub has_any_non_blank : List Text → Bool
has_any_non_blank [] = false
has_any_non_blank (v ∷ vs) = not (is_empty (trim_space v)) || has_any_non_blank vs

abbrev pub values : Slice Text → List Text
values s = from_option [] s

-- `hasRouteMatch`
unfoldable pub has_route_match : RouteMatch → Bool
has_route_match m =
    has_any_non_blank (values m.domains)
    || has_any_non_blank (values m.domain_suffixes)
    || has_any_non_blank (values m.ip_cidrs)
    || has_any_non_blank (values m.ports)
    || has_any_non_blank (values m.networks)
    || has_any_non_blank (values m.source_cidrs)
    || has_any_non_blank (values m.source_ports)

-- `port < 1 || port > 65535`
abbrev pub bad_port : ℤ → Bool
bad_port p = ltb_ℤ p (pos 1) || ltb_ℤ (pos 65535) p

-- Whether the two ends of a range, as they are parsed, are refused.
abbrev pub bad_ends : Option ℤ → Option ℤ → Bool
bad_ends none b = true
bad_ends (some a) none = true
bad_ends (some a) (some b) = bad_port a || (bad_port b || ltb_ℤ b a)

abbrev pub bad_range : List Text → Bool
bad_range [] = true
bad_range (a ∷ []) = true
bad_range (a ∷ b ∷ []) = bad_ends (atoi (trim_space a)) (atoi (trim_space b))
bad_range (a ∷ b ∷ c ∷ ps) = true

abbrev pub bad_single : Option ℤ → Bool
bad_single none = true
bad_single (some p) = bad_port p

-- Whether a value that is not blank is refused: a range at `:`, else at `-`, else one port.
unfoldable pub bad_spec : Text → Bool
bad_spec v =
    if has_char 45 v || has_char 58 v
    then bad_range (split (if has_char 58 v then 58 else 45) v)
    else bad_single (atoi v)

-- `validatePortSpecs`; the error is the value.
unfoldable pub validate_port_specs : List Text → Option Text
validate_port_specs [] = none
validate_port_specs (v ∷ vs) =
    let t = trim_space v in
    let rest = validate_port_specs vs in
    if is_empty t then rest else (if bad_spec t then some t else rest)

-- `validateNetworks`; the error is the value.
unfoldable pub validate_networks : List Text → Option Text
validate_networks [] = none
validate_networks (v ∷ vs) =
    let t = normalized v in
    let rest = validate_networks vs in
    if is_empty t
    then rest
    else (if not (beq_text t (bytes "tcp")) && not (beq_text t (bytes "udp")) then some t else rest)

-- What `RouteSupportMatrix` lists for a kernel.
pub record KernelRouteSupport : Type 0 where
  pub matchers : List Text
  pub actions : List Text

-- `RouteSupportMatrix`; the two kernels have the same entry.
unfoldable pub route_support : Text → Option KernelRouteSupport
route_support kernel =
    let all : KernelRouteSupport = record {
      matchers =
          bytes "domains"
          ∷ bytes "domain_suffixes"
          ∷ bytes "ip_cidrs"
          ∷ bytes "ports"
          ∷ bytes "networks"
          ∷ bytes "source_cidrs"
          ∷ bytes "source_ports"
          ∷ [];
      actions = bytes "block" ∷ bytes "direct" ∷ bytes "route" ∷ [];
    } in
    if beq_text kernel (bytes "xray") || beq_text kernel (bytes "singbox") then some all else none

abbrev pub lacks : List Text → Text → Slice Text → Bool
lacks matchers name vs = has_any_non_blank (values vs) && not (in_list name matchers)

-- `ensureRouteMatcherSupported`; the map's order decides which matcher the message names, so the error
-- has none. Without a kernel (`none`) every matcher is supported.
unfoldable pub has_unsupported : Option KernelRouteSupport → RouteMatch → Bool
has_unsupported none m = false
has_unsupported (some k) m =
    lacks k.matchers (bytes "domains") m.domains
    || lacks k.matchers (bytes "domain_suffixes") m.domain_suffixes
    || lacks k.matchers (bytes "ip_cidrs") m.ip_cidrs
    || lacks k.matchers (bytes "ports") m.ports
    || lacks k.matchers (bytes "networks") m.networks
    || lacks k.matchers (bytes "source_cidrs") m.source_cidrs
    || lacks k.matchers (bytes "source_ports") m.source_ports

abbrev pub as_error : (Text → RouteError) → Option Text → Option RouteError
as_error f none = none
as_error f (some v) = some (f v)

abbrev pub forbids : Option KernelRouteSupport → Text → Bool
forbids none action = false
forbids (some k) action = not (in_list action k.actions)

abbrev pub unknown_tag : Option (Keys Text) → Text → Bool
unknown_tag none t = false
unknown_tag (some tags) t = not (is_some (lookup (to_lower t) tags))

-- The switch over the action; a nil map of tags is `none`.
unfoldable pub check_action : Option (Keys Text) → ℕ → RouteAction → Option RouteError
check_action tags i a =
    let kind = normalized a.kind in
    let target = trim_space a.target in
    if beq_text kind (bytes "route")
    then fail_if (is_empty target) (target_required i)
        (fail_if (unknown_tag tags target) (target_unknown i a.target) none)
    else (if beq_text kind (bytes "direct") || beq_text kind (bytes "block")
        then fail_if (not (is_empty target)) (target_forbidden i) none
        else some (action_unsupported i a.kind))

-- The checks of one rule that is not disabled.
unfoldable pub check_rule :
    Option KernelRouteSupport → Option (Keys Text) → ℕ → CustomRouteRule → Option RouteError
check_rule support tags i r =
    let kind = normalized r.action.kind in
    fail_if (not (has_route_match r.match)) (match_required i) (
      fail_if (has_unsupported support r.match) (matcher_unsupported i) (
        or_else (as_error (bad_ports i) (validate_port_specs (values r.match.ports))) (
          or_else
            (as_error (bad_source_ports i) (validate_port_specs (values r.match.source_ports)))
            (or_else (as_error (bad_network i) (validate_networks (values r.match.networks))) (
              fail_if (is_empty kind) (action_required i) (
                fail_if (forbids support kind) (action_unsupported i r.action.kind)
                  (check_action tags i r.action)))))))

-- The loop over the rules from index `i`.
unfoldable pub check_rules :
    Option KernelRouteSupport → Option (Keys Text) → ℕ → List CustomRouteRule → Option RouteError
check_rules support tags i [] = none
check_rules support tags i (r ∷ rs) =
    let rest = check_rules support tags (suc i) rs in
    if r.disabled then rest else or_else (check_rule support tags i r) rest

-- `ValidateCustomRouteRules`
unfoldable pub validate_custom_route_rules :
    List CustomRouteRule → Text → Option (Keys Text) → Option RouteError
validate_custom_route_rules rules kernel_type tags =
    let kernel = normalized kernel_type in
    if is_empty rules
    then none
    else (if is_empty kernel then check_rules none tags 0 rules else elim (route_support kernel) [
      | none ↦ some (kernel_unsupported kernel)
      | some k ↦ check_rules (some k) tags 0 rules
    ])
