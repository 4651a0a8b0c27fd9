-- ===== src/Model/Tests.antt =====
-- Examples for internal/model/panel.go.
use xboard_node_win.Common.{pos, bytes, [], ◌∷◌, some, none, true, false, ◌≡◌}
use xboard_node_win.Model.{UserSpec}
use xboard_node_win.Model.Value.{Slice}
use xboard_node_win.Model.FromPanel.{node_spec_from_panel}
use xboard_node_win.Model.ToPanel.{to_panel}
use xboard_node_win.Model.RoundTrip.{node_spec-to_panel}
use xboard_node_win.Panel

abbrev config : Panel.NodeConfig
config = record {
  node_id = pos 0;
  protocol = bytes "vless";
  listen_ip = [];
  server_port = pos 443;
  network = [];
  network_settings = none;
  base_config = record { push_interval = pos 60; pull_interval = pos 60 };
  routes = some (
      record {
        id = pos 1;
        match = some (bytes "geoip:cn" ∷ []);
        action = bytes "block";
        action_value = [];
      }
      ∷ []);
  kernel_type = [];
  kernel_log_level = [];
  custom_outbounds = some [];
  custom_routes = none;
  custom_route_rules = none;
  cert_config = none;
  auto_tls = false;
  domain = [];
  cipher = [];
  plugin = [];
  plugin_opt = [];
  server_key = [];
  tls = pos 0;
  flow = [];
  decryption = [];
  tls_settings = none;
  host = [];
  server_name = [];
  version = pos 0;
  up_mbps = pos 0;
  down_mbps = pos 0;
  obfs = [];
  obfs_password = [];
  congestion_control = [];
  padding_scheme = [];
  transport = [];
  traffic_pattern = [];
  multiplex = some (record {
    enabled = true;
    protocol = bytes "h2mux";
    max_connections = pos 4;
    min_streams = pos 4;
    max_streams = pos 0;
    padding = true;
    brutal = none;
  });
  accept_proxy_protocol = false;
}

node_spec-to_panel_example :
    node_spec_from_panel (to_panel (node_spec_from_panel (some config)))
    ≡ node_spec_from_panel (some config)
node_spec-to_panel_example = node_spec-to_panel (some config)

abbrev users : Slice UserSpec
users =
    some (record { id = pos 7; uuid = bytes "a1"; speed_limit = pos 10; device_limit = pos 3 } ∷ [])
