-- ===== src/Validation/Tests.antt =====
-- Examples for the checks of internal/model: a chain of two outbounds and a rule that uses it.
use xboard_node_win.Common.{
  pos, Text, bytes, Bool, false, Option, none, some, List, [], ◌∷◌, ok, ◌≡◌, refl, Dict, lookup,
  insert, text_key, trim_space, to_lower, atoi, split, first_error,
}
use xboard_node_win.Model.Value.{Value, string, int}
use xboard_node_win.Model.NodeSpec.{NodeSpec, OutboundConfig, CustomRouteRule}
use xboard_node_win.Config.{zero_config}
use xboard_node_win.Config.Load.{FileRead, missing}
use xboard_node_win.Validation.Transport.{
  normalized, validate_transport_kernel, normalize_kernel_type,
}
use xboard_node_win.Validation.Tags.{
  TagSource, collect_additional, collect_custom_config, collect_raw, tag_sources,
  validate_collisions, note_sources, check_outbounds, additional_tag_names, build_available,
}
use xboard_node_win.Validation.Outbounds.{
  validate_custom_outbounds, check_entries, validate_outbound_settings, reserved_error, blank_error,
  available_tags, add_keys, check_proxy, outbound_protocols, as_port,
}
use xboard_node_win.Validation.Outbounds.Settings.{IsPort, as_port_bounds}
use xboard_node_win.Validation.Outbounds.Accepts.{AcceptedBy, validate_custom_outbounds-AcceptedBy}
use xboard_node_win.Validation.Routes.{
  validate_custom_route_rules, check_rules, check_rule, check_action, has_route_match,
  has_unsupported, route_support, validate_port_specs, validate_networks, bad_spec,
}
use xboard_node_win.Validation.Routes.Ports.{AllPorts, validate_port_specs-AllPorts}
use xboard_node_win.Validation.Spec.{
  validate_node_spec, check_spec, effective_kernel_type, PassesWith, validate_node_spec_sound,
}

abbrev settings : Option (Dict Text Value)
settings = some ((bytes "server", string (bytes "h")) ∷ (bytes "server_port", int (pos 443)) ∷ [])

abbrev front : OutboundConfig
front = record {
  tag = bytes "Front";
  protocol = bytes "VLESS";
  settings = settings;
  proxy_tag = bytes "exit";
}

abbrev exit : OutboundConfig
exit = record { tag = bytes "exit"; protocol = bytes "socks"; settings = settings; proxy_tag = [] }

accepted_pair : validate_custom_outbounds (front ∷ exit ∷ []) (bytes "xray") [] ≡ none
unfolding validate_custom_outbounds check_entries validate_outbound_settings reserved_error
    blank_error available_tags add_keys check_proxy outbound_protocols as_port first_error lookup
    insert trim_space to_lower
accepted_pair = refl

validate_custom_outbounds-AcceptedBy_example :
    AcceptedBy (normalized (bytes "xray")) [] (front ∷ exit ∷ [])
validate_custom_outbounds-AcceptedBy_example =
    validate_custom_outbounds-AcceptedBy (front ∷ exit ∷ []) (bytes "xray") [] accepted_pair

read_port : as_port (string (bytes " 443")) ≡ ok (pos 443)
unfolding as_port atoi trim_space
read_port = refl

as_port_bounds_example : IsPort (pos 443)
as_port_bounds_example = as_port_bounds (string (bytes " 443")) (pos 443) read_port

abbrev some_ports : List Text
some_ports = bytes "80" ∷ bytes " " ∷ bytes "1000-2000" ∷ bytes "53:53" ∷ []

accepted_ports : validate_port_specs some_ports ≡ none
unfolding validate_port_specs bad_spec split atoi trim_space
accepted_ports = refl

validate_port_specs-AllPorts_example : AllPorts some_ports
validate_port_specs-AllPorts_example = validate_port_specs-AllPorts some_ports accepted_ports

abbrev rule : CustomRouteRule
rule = record {
  name = [];
  disabled = false;
  match = record {
    domains = none;
    domain_suffixes = none;
    ip_cidrs = none;
    ports = some some_ports;
    networks = none;
    source_cidrs = none;
    source_ports = none;
  };
  action = record { kind = bytes "Route"; target = bytes "front" };
}

abbrev spec : NodeSpec
spec = record {
  protocol = bytes "vless";
  listen_ip = [];
  server_port = pos 443;
  network = bytes "tcp";
  network_settings = none;
  routes = none;
  kernel_type = bytes "xray";
  kernel_log_level = [];
  custom_outbounds = some (front ∷ exit ∷ []);
  custom_routes = none;
  custom_route_rules = some (rule ∷ []);
  cert_config = none;
  auto_tls = false;
  domain = [];
  cipher = [];
  plugin = [];
  plugin_opt = [];
  server_key = [];
  tls = pos 0;
  flow = [];
  decryption = [];
  tls_settings = none;
  host = [];
  server_name = [];
  version = pos 0;
  up_mbps = pos 0;
  down_mbps = pos 0;
  obfs = [];
  obfs_password = [];
  congestion_control = [];
  padding_scheme = [];
  transport = [];
  traffic_pattern = [];
  multiplex = none;
  accept_proxy_protocol = false;
}

abbrev no_file : Text → FileRead
no_file p = missing

abbrev no_decoder : Bool → Text → Option (Dict Text Value)
no_decoder json d = none

passes : validate_node_spec no_file no_decoder (some spec) zero_config.kernel ≡ none
unfolding validate_node_spec effective_kernel_type normalize_kernel_type collect_additional
    collect_custom_config collect_raw tag_sources check_spec validate_collisions note_sources
    check_outbounds additional_tag_names build_available validate_custom_outbounds check_entries
    validate_outbound_settings reserved_error blank_error available_tags add_keys check_proxy
    outbound_protocols as_port first_error lookup insert trim_space to_lower
    validate_custom_route_rules check_rules check_rule check_action has_route_match has_unsupported
    route_support validate_port_specs validate_networks bad_spec split atoi
    validate_transport_kernel
passes = refl

validate_node_spec_sound_example :
    (kernel : Text) × ((sources : List TagSource) × PassesWith no_file no_decoder spec
        zero_config.kernel kernel sources)
validate_node_spec_sound_example =
    validate_node_spec_sound no_file no_decoder spec zero_config.kernel passes
