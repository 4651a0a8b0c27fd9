-- ===== src/Model/ToPanel.antt =====
-- internal/model/panel.go: the way back, to the panel's types.
use mathlib.Core.Option
use xboard_node_win.Common.{pos, text_key, Option, map}
use xboard_node_win.Model.{UserSpec}
use xboard_node_win.Model.Value.{Slice}
use xboard_node_win.Model.NodeSpec
use xboard_node_win.Panel
use xboard_node_win.Model.Clone.{clone_any_map, clone_map_slice, clone_string_slice, convert_all}

unfoldable pub route_to_panel : NodeSpec.RouteRule → Panel.RouteRule
route_to_panel r = record {
  id = r.id;
  match = clone_string_slice r.match;
  action = r.action;
  action_value = r.action_value;
}

unfoldable pub outbound_to_panel : NodeSpec.OutboundConfig → Panel.OutboundConfig
outbound_to_panel o = record {
  tag = o.tag;
  protocol = o.protocol;
  settings = clone_any_map o.settings;
  proxy_tag = o.proxy_tag;
}

unfoldable pub match_to_panel : NodeSpec.RouteMatch → Panel.RouteMatch
match_to_panel m = record {
  domains = clone_string_slice m.domains;
  domain_suffixes = clone_string_slice m.domain_suffixes;
  ip_cidrs = clone_string_slice m.ip_cidrs;
  ports = clone_string_slice m.ports;
  networks = clone_string_slice m.networks;
  source_cidrs = clone_string_slice m.source_cidrs;
  source_ports = clone_string_slice m.source_ports;
}

unfoldable pub rule_to_panel : NodeSpec.CustomRouteRule → Panel.CustomRouteRule
unfolding match_to_panel
rule_to_panel r = record {
  name = r.name;
  disabled = r.disabled;
  match = match_to_panel r.match;
  action = record { kind = r.action.kind; target = r.action.target };
}

unfoldable pub brutal_to_panel : NodeSpec.BrutalConfig → Panel.BrutalConfig
brutal_to_panel b = record { enabled = b.enabled; up_mbps = b.up_mbps; down_mbps = b.down_mbps }

unfoldable pub multiplex_to_panel : NodeSpec.MultiplexConfig → Panel.MultiplexConfig
unfolding brutal_to_panel
multiplex_to_panel m = record {
  enabled = m.enabled;
  protocol = m.protocol;
  max_connections = m.max_connections;
  min_streams = m.min_streams;
  max_streams = m.max_streams;
  padding = m.padding;
  brutal = Option.map brutal_to_panel m.brutal;
}

unfoldable pub cert_to_panel : NodeSpec.CertConfig → Panel.CertConfig
cert_to_panel c = record {
  cert_mode = c.cert_mode;
  domain = c.domain;
  email = c.email;
  dns_provider = c.dns_provider;
  dns_env = c.dns_env;
  http_port = c.http_port;
  cert_file = c.cert_file;
  key_file = c.key_file;
  cert_content = c.cert_content;
  key_content = c.key_content;
}

-- `ToPanel` of a node that is not nil.
unfoldable pub spec_to_panel : NodeSpec.NodeSpec → Panel.NodeConfig
unfolding route_to_panel outbound_to_panel rule_to_panel cert_to_panel multiplex_to_panel
spec_to_panel n = record {
  protocol = n.protocol;
  listen_ip = n.listen_ip;
  server_port = n.server_port;
  network = n.network;
  network_settings = clone_any_map n.network_settings;
  routes = convert_all route_to_panel n.routes;
  kernel_type = n.kernel_type;
  kernel_log_level = n.kernel_log_level;
  custom_outbounds = convert_all outbound_to_panel n.custom_outbounds;
  custom_routes = clone_map_slice n.custom_routes;
  custom_route_rules = convert_all rule_to_panel n.custom_route_rules;
  cert_config = Option.map cert_to_panel n.cert_config;
  auto_tls = n.auto_tls;
  domain = n.domain;
  cipher = n.cipher;
  plugin = n.plugin;
  plugin_opt = n.plugin_opt;
  server_key = n.server_key;
  tls = n.tls;
  flow = n.flow;
  decryption = n.decryption;
  tls_settings = clone_any_map n.tls_settings;
  host = n.host;
  server_name = n.server_name;
  version = n.version;
  up_mbps = n.up_mbps;
  down_mbps = n.down_mbps;
  obfs = n.obfs;
  obfs_password = n.obfs_password;
  congestion_control = n.congestion_control;
  padding_scheme = n.padding_scheme;
  transport = n.transport;
  traffic_pattern = n.traffic_pattern;
  multiplex = Option.map multiplex_to_panel n.multiplex;
  accept_proxy_protocol = n.accept_proxy_protocol;
  node_id = pos 0;
  base_config = record { push_interval = pos 0; pull_interval = pos 0 };
}

-- `ToPanel`
unfoldable pub to_panel : Option NodeSpec.NodeSpec → Option Panel.NodeConfig
unfolding spec_to_panel
to_panel = Option.map spec_to_panel

-- `UserSpecsToPanel`
unfoldable pub user_specs_to_panel : Slice UserSpec → Slice Panel.User
user_specs_to_panel = Option.map (
    map λ u. record {
      id = u.id;
      uuid = u.uuid;
      speed_limit = u.speed_limit;
      device_limit = u.device_limit;
    })
