-- ===== src/Model/FromPanel.antt =====
-- internal/model/panel.go: the panel's description of a node and its users, in the model's types.
use mathlib.Core.Option
use xboard_node_win.Common.{text_key, false, Option, [], map}
use xboard_node_win.Model.{UserSpec}
use xboard_node_win.Model.Value.{Slice}
use xboard_node_win.Model.NodeSpec
use xboard_node_win.Panel
use xboard_node_win.Model.Clone.{clone_any_map, clone_map_slice, clone_string_slice, convert_all}

unfoldable pub route_from_panel : Panel.RouteRule → NodeSpec.RouteRule
route_from_panel r = record {
  id = r.id;
  match = clone_string_slice r.match;
  action = r.action;
  action_value = r.action_value;
}

unfoldable pub outbound_from_panel : Panel.OutboundConfig → NodeSpec.OutboundConfig
outbound_from_panel o = record {
  tag = o.tag;
  protocol = o.protocol;
  settings = clone_any_map o.settings;
  proxy_tag = o.proxy_tag;
}

unfoldable pub match_from_panel : Panel.RouteMatch → NodeSpec.RouteMatch
match_from_panel m = record {
  domains = clone_string_slice m.domains;
  domain_suffixes = clone_string_slice m.domain_suffixes;
  ip_cidrs = clone_string_slice m.ip_cidrs;
  ports = clone_string_slice m.ports;
  networks = clone_string_slice m.networks;
  source_cidrs = clone_string_slice m.source_cidrs;
  source_ports = clone_string_slice m.source_ports;
}

unfoldable pub rule_from_panel : Panel.CustomRouteRule → NodeSpec.CustomRouteRule
unfolding match_from_panel
rule_from_panel r = record {
  name = r.name;
  disabled = r.disabled;
  match = match_from_panel r.match;
  action = record { kind = r.action.kind; target = r.action.target };
}

unfoldable pub brutal_from_panel : Panel.BrutalConfig → NodeSpec.BrutalConfig
brutal_from_panel b = record { enabled = b.enabled; up_mbps = b.up_mbps; down_mbps = b.down_mbps }

unfoldable pub multiplex_from_panel : Panel.MultiplexConfig → NodeSpec.MultiplexConfig
unfolding brutal_from_panel
multiplex_from_panel m = record {
  enabled = m.enabled;
  protocol = m.protocol;
  max_connections = m.max_connections;
  min_streams = m.min_streams;
  max_streams = m.max_streams;
  padding = m.padding;
  brutal = Option.map brutal_from_panel m.brutal;
}

unfoldable pub cert_from_panel : Panel.CertConfig → NodeSpec.CertConfig
cert_from_panel c = record {
  cert_mode = c.cert_mode;
  domain = c.domain;
  email = c.email;
  dns_provider = c.dns_provider;
  dns_env = c.dns_env;
  http_port = c.http_port;
  cert_file = c.cert_file;
  key_file = c.key_file;
  cert_content = c.cert_content;
  key_content = c.key_content;
  auto_tls = false;
  cert_dir = [];
}

-- `NodeSpecFromPanel` of a node that is not nil.
unfoldable pub spec_from_panel : Panel.NodeConfig → NodeSpec.NodeSpec
unfolding route_from_panel outbound_from_panel rule_from_panel cert_from_panel multiplex_from_panel
spec_from_panel n = record {
  protocol = n.protocol;
  listen_ip = n.listen_ip;
  server_port = n.server_port;
  network = n.network;
  network_settings = clone_any_map n.network_settings;
  routes = convert_all route_from_panel n.routes;
  kernel_type = n.kernel_type;
  kernel_log_level = n.kernel_log_level;
  custom_outbounds = convert_all outbound_from_panel n.custom_outbounds;
  custom_routes = clone_map_slice n.custom_routes;
  custom_route_rules = convert_all rule_from_panel n.custom_route_rules;
  cert_config = Option.map cert_from_panel n.cert_config;
  auto_tls = n.auto_tls;
  domain = n.domain;
  cipher = n.cipher;
  plugin = n.plugin;
  plugin_opt = n.plugin_opt;
  server_key = n.server_key;
  tls = n.tls;
  flow = n.flow;
  decryption = n.decryption;
  tls_settings = clone_any_map n.tls_settings;
  host = n.host;
  server_name = n.server_name;
  version = n.version;
  up_mbps = n.up_mbps;
  down_mbps = n.down_mbps;
  obfs = n.obfs;
  obfs_password = n.obfs_password;
  congestion_control = n.congestion_control;
  padding_scheme = n.padding_scheme;
  transport = n.transport;
  traffic_pattern = n.traffic_pattern;
  multiplex = Option.map multiplex_from_panel n.multiplex;
  accept_proxy_protocol = n.accept_proxy_protocol;
}

-- `NodeSpecFromPanel`
unfoldable pub node_spec_from_panel : Option Panel.NodeConfig → Option NodeSpec.NodeSpec
unfolding spec_from_panel
node_spec_from_panel = Option.map spec_from_panel

-- `UserSpecsFromPanel`
unfoldable pub user_specs_from_panel : Slice Panel.User → Slice UserSpec
user_specs_from_panel = Option.map (
    map λ u. record {
      id = u.id;
      uuid = u.uuid;
      speed_limit = u.speed_limit;
      device_limit = u.device_limit;
    })
