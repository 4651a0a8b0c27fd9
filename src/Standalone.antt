-- ===== src/Standalone.antt =====
-- internal/model/standalone.go and internal/controlplane/local.go: a node that is described by the
-- local configuration. The context is not modelled: it is not cancelled.
pub mod Users
mod Tests
use mathlib.Core.Option
use xboard_node_win.Common.{
  ℤ, Text, Dict, Bool, false, Option, none, some, List, [], ◌∷◌, map, Result, ok, error, pos,
}
use xboard_node_win.Model.{UserSpec}
use xboard_node_win.Model.Value.{Value}
use xboard_node_win.Model.NodeSpec
use xboard_node_win.Model.Clone.{clone_any_map, clone_string_slice, convert_all}
use xboard_node_win.Config.{
  Config, StandaloneRouteRule, StandaloneCustomRouteRule, StandaloneRouteMatch,
  StandaloneBrutalConfig, StandaloneMultiplexConfig, StandaloneUser, StandaloneConfig,
}
use xboard_node_win.Config.Load.{FileRead}
use xboard_node_win.Validation.Spec.{SpecError, validate_node_spec}

unfoldable pub route_of : StandaloneRouteRule → NodeSpec.RouteRule
route_of r = record {
  id = r.id;
  match = clone_string_slice r.match;
  action = r.action;
  action_value = r.action_value;
}

unfoldable pub match_of : StandaloneRouteMatch → NodeSpec.RouteMatch
match_of m = record {
  domains = clone_string_slice m.domains;
  domain_suffixes = clone_string_slice m.domain_suffixes;
  ip_cidrs = clone_string_slice m.ip_cidrs;
  ports = clone_string_slice m.ports;
  networks = clone_string_slice m.networks;
  source_cidrs = clone_string_slice m.source_cidrs;
  source_ports = clone_string_slice m.source_ports;
}

unfoldable pub rule_of : StandaloneCustomRouteRule → NodeSpec.CustomRouteRule
rule_of r = record {
  name = r.name;
  disabled = r.disabled;
  match = match_of r.match;
  action = record { kind = r.action.kind; target = r.action.target };
}

unfoldable pub brutal_of : StandaloneBrutalConfig → NodeSpec.BrutalConfig
brutal_of b = record { enabled = b.enabled; up_mbps = b.up_mbps; down_mbps = b.down_mbps }

unfoldable pub multiplex_of : StandaloneMultiplexConfig → NodeSpec.MultiplexConfig
multiplex_of m = record {
  enabled = m.enabled;
  protocol = m.protocol;
  max_connections = m.max_connections;
  min_streams = m.min_streams;
  max_streams = m.max_streams;
  padding = m.padding;
  brutal = Option.map brutal_of m.brutal;
}

unfoldable pub spec_of : Config → StandaloneConfig → NodeSpec.NodeSpec
spec_of c s =
    let n = s.node in
    record {
      protocol = n.protocol;
      listen_ip = n.listen_ip;
      server_port = n.server_port;
      network = n.network;
      network_settings = clone_any_map n.network_settings;
      routes = convert_all route_of n.routes;
      kernel_type = c.kernel.kind;
      kernel_log_level = c.kernel.log_level;
      custom_outbounds = none;
      custom_routes = none;
      custom_route_rules = convert_all rule_of n.custom_route_rules;
      cert_config = none;
      auto_tls = false;
      domain = [];
      cipher = n.cipher;
      plugin = n.plugin;
      plugin_opt = n.plugin_opt;
      server_key = n.server_key;
      tls = n.tls;
      flow = n.flow;
      decryption = n.decryption;
      tls_settings = clone_any_map n.tls_settings;
      host = n.host;
      server_name = n.server_name;
      version = n.version;
      up_mbps = n.up_mbps;
      down_mbps = n.down_mbps;
      obfs = n.obfs;
      obfs_password = n.obfs_password;
      congestion_control = n.congestion_control;
      padding_scheme = n.padding_scheme;
      transport = n.transport;
      traffic_pattern = n.traffic_pattern;
      multiplex = Option.map multiplex_of n.multiplex;
      accept_proxy_protocol = n.accept_proxy_protocol;
    }

-- `NodeSpecFromStandalone`
unfoldable pub node_spec_from_standalone : Config → Option NodeSpec.NodeSpec
node_spec_from_standalone c = Option.map (spec_of c) c.standalone

unfoldable pub user_of : StandaloneUser → UserSpec
user_of u = record {
  id = u.id;
  uuid = u.uuid;
  speed_limit = u.speed_limit;
  device_limit = u.device_limit;
}

-- `UserSpecsFromStandalone`; without the section the slice is nil.
unfoldable pub user_specs_from_standalone : Config → Option (List UserSpec)
user_specs_from_standalone c = elim c.standalone [
  | none ↦ none
  | some s ↦ some (map user_of s.users)
]

-- `Bootstrap`, as far as a local control plane fills it.
pub record Bootstrap : Type 0 where
  pub push_interval : ℤ
  pub pull_interval : ℤ
  pub config : Option NodeSpec.NodeSpec
  pub users : Option (List UserSpec)

module _ (read_file : Text → FileRead) (decode : Bool → Text → Option (Dict Text Value)) where
  -- `NodeSpecFromStandaloneValidated`
  unfoldable pub node_spec_validated : Config → Result SpecError (Option NodeSpec.NodeSpec)
  node_spec_validated c =
      let spec = node_spec_from_standalone c in
      elim (validate_node_spec read_file decode spec c.kernel) [ some e ↦ error e | none ↦ ok spec ]

  -- `LocalControlPlane.Initial`
  unfoldable pub initial : Config → Result SpecError Bootstrap
  initial c = elim (node_spec_validated c) [
    | error e ↦ error e
    | ok spec ↦ ok (record {
      push_interval = c.node.push_interval;
      pull_interval = c.node.pull_interval;
      config = spec;
      users = user_specs_from_standalone c;
    })
  ]
