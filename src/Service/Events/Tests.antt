-- ===== src/Service/Events/Tests.antt =====
-- Examples for the main loop of internal/service/service.go: a connected service that asks for a poll, and a node
-- with reality settings.
use xboard_node_win.Common.{
  ℤ, pos, Text, bytes, Dict, Bool, true, false, none, some, List, [], ◌∷◌, ◌≡◌, refl, ◌↔◌, lookup,
  trim_space, inl,
}
use xboard_node_win.Model.{UserSpec}
use xboard_node_win.Model.Value.{Value, string}
use xboard_node_win.Model.NodeSpec.{NodeSpec}
use xboard_node_win.SpeedTracker.{RateLib, new_speed_tracker}
use xboard_node_win.ControlPlane.{Event, sync_config, sync_users, sync_user_delta}
use xboard_node_win.Config.{zero_config}
use xboard_node_win.Service.Resync.{
  PullState, request_ws_resync, poll_fails, tick, request, run_wakes, IsLost, run_wakes-IsLost,
}
use xboard_node_win.Service.Events.Stuck.{run_without_users}
use xboard_node_win.Service.Runtime.{
  validate_node_runtime, validate_tls, validate_reality, validate_cert_config, needs_cert,
}
use xboard_node_win.Service.Runtime.Accepts.{RuntimeOk, validate_node_runtime_lem}
use xboard_node_win.Service.Events.{Oracle, ServiceState, is_valid, handle_config}
use xboard_node_win.Service.Events.Hashes.{IsHashed}
use xboard_node_win.Service.Events.Pulls
use xboard_node_win.Service.Events.Pulls.{event, polled, run-IsHashed}
use xboard_node_win.Service.Events.Again.{handle_config_again}

abbrev pairs : RateLib
pairs = record {
  Lim = ℤ × ℤ;
  new_limiter = λ r b. (r, b);
  set_limit = λ l r. (r, l.1);
  set_burst = λ l b. (l.0, b);
  limit = λ l. l.0;
  burst = λ l. l.1;
  limit-new = λ r b. refl;
  burst-new = λ r b. refl;
  limit-set_limit = λ l r. refl;
  burst-set_limit = λ l r. refl;
  limit-set_burst = λ l b. refl;
  burst-set_burst = λ l b. refl;
}

abbrev no_hash : List UserSpec → Text
no_hash us = bytes "h"

abbrev by_protocol : NodeSpec → Text
by_protocol n = n.protocol

abbrev idle : Bool → PullState
idle up = record {
  pending = false;
  active = false;
  queued = false;
  sending = false;
  connected = up;
  backoff = record { skip_remaining = 0 };
}

run_wakes-IsLost_example :
    ((request_ws_resync true (idle true)).active ≡ true)
    × IsLost
        (run_wakes true (tick ∷ request ∷ []) (poll_fails (request_ws_resync true (idle true))))
run_wakes-IsLost_example =
    run_wakes-IsLost (tick ∷ request ∷ []) (idle true) ((refl, refl), (refl, (refl, refl)))

abbrev settings : Dict Text Value
settings = (bytes "private_key", string (bytes "k")) ∷ (bytes "dest", string (bytes "d")) ∷ []

abbrev spec : Text → NodeSpec
spec protocol = record {
  protocol = protocol;
  listen_ip = [];
  server_port = pos 443;
  network = bytes "tcp";
  network_settings = none;
  routes = none;
  kernel_type = [];
  kernel_log_level = [];
  custom_outbounds = none;
  custom_routes = none;
  custom_route_rules = none;
  cert_config = none;
  auto_tls = false;
  domain = [];
  cipher = [];
  plugin = [];
  plugin_opt = [];
  server_key = [];
  tls = pos 2;
  flow = [];
  decryption = [];
  tls_settings = some settings;
  host = [];
  server_name = [];
  version = pos 0;
  up_mbps = pos 0;
  down_mbps = pos 0;
  obfs = [];
  obfs_password = [];
  congestion_control = [];
  padding_scheme = [];
  transport = [];
  traffic_pattern = [];
  multiplex = none;
  accept_proxy_protocol = false;
}

abbrev known : Text → Bool
known p = true

validate_node_runtime_lem_example :
    (validate_node_runtime known (bytes "vless" ∷ []) false (some (spec (bytes "vless"))) ≡ none)
    ↔ RuntimeOk known (bytes "vless" ∷ []) false (spec (bytes "vless"))
validate_node_runtime_lem_example =
    validate_node_runtime_lem known (bytes "vless" ∷ []) false (spec (bytes "vless"))

abbrev fresh : ServiceState pairs no_hash by_protocol
fresh = record {
  users = record {
    limiter = record { users = []; uuid_device_limit = []; device_limit_events = 0 };
    speed = new_speed_tracker pairs;
    last_users = none;
    last_user_hash = [];
  };
  last_config = none;
  last_config_hash = [];
  kernel_log_level = bytes "warn";
  cert = zero_config.cert;
  applied_config = none;
  applied_users = none;
  devices = none;
  pull = idle true;
}

-- The kernel runs, but neither reloads nor starts.
abbrev oracle : Oracle
oracle = record {
  running = true;
  starts = false;
  updates = true;
  restarts = false;
  reloads = false;
  edits = true;
  has_cert = false;
  known_provider = known;
  protocols = bytes "vless" ∷ [];
  reconfigures = none;
  polls = true;
}

abbrev user : UserSpec
user = record { id = pos 7; uuid = bytes "a"; speed_limit = pos 1; device_limit = pos 1 }

abbrev turns : List Pulls.Turn
turns =
    event oracle (record {
      kind = sync_config;
      config = some (spec (bytes "vless"));
      users = none;
      delta_action = [];
      delta_users = [];
      device_users = none;
    })
    ∷ polled oracle [] false (record { config = none; users = some (user ∷ []) })
    ∷ []

run-IsHashed_example :
    IsHashed pairs no_hash by_protocol (Pulls.run pairs no_hash by_protocol turns fresh)
run-IsHashed_example = run-IsHashed pairs no_hash by_protocol turns fresh (inl (refl, refl), refl)

valid : is_valid pairs no_hash by_protocol oracle (spec (bytes "vless")) ≡ true
unfolding validate_node_runtime validate_tls validate_reality validate_cert_config needs_cert lookup
    trim_space
valid = refl

handle_config_again_example :
    let s' = handle_config pairs no_hash by_protocol oracle (some (spec (bytes "vless"))) fresh in
    handle_config pairs no_hash by_protocol oracle (some (spec (bytes "vless"))) s' ≡ s'
handle_config_again_example =
    handle_config_again pairs no_hash by_protocol oracle oracle (spec (bytes "vless")) fresh valid

-- A service without users whose kernel does not run, and users that come in three ways.
abbrev stopped : Oracle
stopped = record oracle { running = false; starts = true }

abbrev no_config : Event
no_config = record {
  kind = sync_users;
  config = none;
  users = some (user ∷ []);
  delta_action = [];
  delta_users = [];
  device_users = none;
}

abbrev arrivals : List Pulls.Turn
arrivals =
    event stopped no_config
    ∷ event stopped (record no_config {
      kind = sync_user_delta;
      delta_action = bytes "add";
      delta_users = user ∷ [];
    })
    ∷ polled stopped (bytes "vless") false
        (record { config = some (spec (bytes "vless")); users = some (user ∷ []) })
    ∷ []

run_without_users_example : (Pulls.run pairs no_hash by_protocol arrivals fresh).users ≡ fresh.users
run_without_users_example =
    run_without_users pairs no_hash by_protocol arrivals fresh
      (refl, (refl, ((refl, (refl, refl)), tt))) refl
