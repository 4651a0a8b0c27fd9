-- ===== src/Standalone/Tests.antt =====
-- Examples for a standalone node with two users.
use xboard_node_win.Common.{
  ℤ, pos, Text, bytes, true, false, none, some, [], ◌∷◌, ◌≡◌, refl, lookup, insert,
}
use xboard_node_win.Config.{
  Config, StandaloneNodeConfig, StandaloneUser, zero_config, is_standalone,
}
use xboard_node_win.Config.Validate.{validate, validate_mode, validate_standalone, validate_users}

abbrev user : ℤ → Text → StandaloneUser
user id uuid = record { id = id; uuid = uuid; speed_limit = pos 0; device_limit = pos 2 }

abbrev inbound : StandaloneNodeConfig
inbound = record {
  protocol = bytes "vless";
  listen_ip = [];
  server_port = pos 443;
  network = bytes "tcp";
  network_settings = none;
  routes = none;
  custom_route_rules = none;
  cipher = [];
  plugin = [];
  plugin_opt = [];
  server_key = [];
  tls = pos 0;
  flow = [];
  decryption = [];
  tls_settings = none;
  host = [];
  server_name = [];
  version = pos 0;
  up_mbps = pos 0;
  down_mbps = pos 0;
  obfs = [];
  obfs_password = [];
  congestion_control = [];
  padding_scheme = [];
  transport = [];
  traffic_pattern = [];
  multiplex = none;
  accept_proxy_protocol = false;
}

abbrev local : Config
local = record zero_config {
  kernel = record zero_config.kernel { kind = bytes "singbox" };
  standalone = some (record {
    enabled = true;
    node = inbound;
    users = user (pos 1) (bytes "a") ∷ user (pos 2) (bytes "b") ∷ [];
  });
}

is_local : is_standalone local ≡ true
unfolding is_standalone
is_local = refl

is_valid : validate local ≡ none
unfolding validate validate_mode is_standalone validate_standalone validate_users lookup insert
is_valid = refl
