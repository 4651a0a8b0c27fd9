-- ===== src/Machine/Tests.antt =====
-- Examples for internal/machine/machine.go: a machine on sing-box with one node that needs xray.
use xboard_node_win.Common.{
  List, ℕ, ℤ, pos, Text, bytes, Dict, lookup, insert, in_list, is_some, Bool, true, false,
  trim_space, to_lower, none, some, Option, [], ◌∷◌, int_key, nat_key, ok, ◌≡◌, refl,
}
use xboard_node_win.Panel
use xboard_node_win.Model.Value.{Value}
use xboard_node_win.Config.{Config, MachineConfig, zero_config}
use xboard_node_win.Config.Load.{FileRead, missing}
use xboard_node_win.Validation.Transport.{validate_transport_kernel}
use xboard_node_win.ControlPlane.{NodeMailbox, apply}
use xboard_node_win.Sources.{MachineNode, WsEvent, translate_ws_event, translated}
use xboard_node_win.Machine.{
  Orchestrator, rediscover, start_nodes, start_node, stop_nodes, to_remove, node_ids, node_config,
  end_run, on_ws_event,
}
use xboard_node_win.Machine.Nodes.{rediscover_lem}
use xboard_node_win.Machine.Wiring.Effects.{live_id}
use xboard_node_win.Machine.Happenings.{Happening, discovers, boots, run, after, run_delivers}
use xboard_node_win.Machine.Accepted.{AllValid, after-AllValid}
use xboard_node_win.Machine.Downtime.{IsDown, end_run-IsDown_forever}
use xboard_node_win.Machine.Overlap.{overlap, overlap_lem}
use xboard_node_win.Machine.Kernels.{on_ws_event_switched}

abbrev fetched : Panel.NodeConfig
fetched = record {
  node_id = pos 0;
  protocol = bytes "vless";
  listen_ip = [];
  server_port = pos 443;
  network = bytes "xhttp";
  network_settings = none;
  base_config = record { push_interval = pos 60; pull_interval = pos 60 };
  routes = none;
  kernel_type = [];
  kernel_log_level = [];
  custom_outbounds = some [];
  custom_routes = none;
  custom_route_rules = none;
  cert_config = none;
  auto_tls = false;
  domain = [];
  cipher = [];
  plugin = [];
  plugin_opt = [];
  server_key = [];
  tls = pos 0;
  flow = [];
  decryption = [];
  tls_settings = none;
  host = [];
  server_name = [];
  version = pos 0;
  up_mbps = pos 0;
  down_mbps = pos 0;
  obfs = [];
  obfs_password = [];
  congestion_control = [];
  padding_scheme = [];
  transport = [];
  traffic_pattern = [];
  multiplex = none;
  accept_proxy_protocol = false;
}

abbrev read_file : Text → FileRead
read_file p = missing

abbrev decode : Bool → Text → Option (Dict Text Value)
decode json s = none

abbrev machine : MachineConfig
machine = record { machine_id = pos 3; token = bytes "t"; token_env = [] }

abbrev cfg : Config
cfg = record zero_config { kernel = record (zero_config.kernel) { kind = bytes "singbox" } }

abbrev node : MachineNode
node = record { id = pos 7; kind = bytes "vless"; name = bytes "n" }

abbrev answers : ℤ → Option Panel.NodeConfig
answers id = some fetched

abbrev found : Happening
found = discovers answers (some (node ∷ []))

abbrev begun : Orchestrator
begun = after read_file decode cfg machine (found ∷ [])

abbrev update : WsEvent
update = record {
  kind = bytes "sync.users";
  config = none;
  users =
      some
        (record { id = pos 1; uuid = bytes "u"; speed_limit = pos 0; device_limit = pos 0 } ∷ []);
  delta_action = [];
  delta_users = none;
  device_users = none;
  node_id = pos 7;
  nodes = [];
}

alive : live_id 0 begun.runs ≡ some (pos 7)
unfolding run rediscover start_nodes start_node stop_nodes to_remove lookup insert live_id
alive = refl

readable :
    translate_ws_event read_file decode update begun.cfg.kernel
    ≡ ok (translated read_file decode update none)
unfolding translate_ws_event
readable = refl

rediscover_lem_example :
    (is_some (lookup (pos 7) (rediscover answers (some (node ∷ [])) begun).nodes)
      ≡ in_list (pos 7) (node_ids (node ∷ [])))
    × ((r : ℕ)
        → lookup (pos 7) begun.nodes ≡ some r
        → in_list (pos 7) (node_ids (node ∷ [])) ≡ true
        → lookup (pos 7) (rediscover answers (some (node ∷ [])) begun).nodes ≡ some r)
rediscover_lem_example = rediscover_lem (pos 7) answers (node ∷ []) begun

run_delivers_example :
    (lookup (pos 7) begun.nodes ≡ some 0)
    × ((box : NodeMailbox) × ((lookup 0 begun.boxes ≡ some box)
          × ((on_ws_event read_file decode update begun).1 ≡ record begun {
            boxes = insert 0 (apply (translated read_file decode update none) box) begun.boxes;
          })))
run_delivers_example =
    run_delivers read_file decode cfg machine (found ∷ []) 0 update
      (translated read_file decode update none) alive refl refl readable

-- The node starts with the configuration that only its own kernel can run.
abbrev booted : List Happening
booted = found ∷ boots 0 (ok (some fetched)) (ok (some [])) ∷ []

after-AllValid_example :
    AllValid read_file decode cfg.kernel (after read_file decode cfg machine booted)
after-AllValid_example = after-AllValid read_file decode cfg machine booted

end_run-IsDown_forever_example :
    IsDown (pos 7) 0 (run read_file decode (found ∷ []) (end_run 0 begun))
end_run-IsDown_forever_example =
    end_run-IsDown_forever read_file decode cfg machine (found ∷ []) (found ∷ []) (pos 7) 0 alive
      (refl, tt)

overlap_lem_example :
    (live_id begun.next (overlap (some fetched) node 0 begun).runs ≡ some (pos 7))
    × ((lookup (pos 7) (overlap (some fetched) node 0 begun).nodes ≡ some begun.next)
        × ((on_ws_event read_file decode update (overlap (some fetched) node 0 begun)).1
            ≡ overlap (some fetched) node 0 begun))
overlap_lem_example =
    overlap_lem read_file decode cfg machine (found ∷ []) (some fetched) node 0 update alive refl

abbrev reconfigure : WsEvent
reconfigure = record update { kind = bytes "sync.config"; config = some fetched }

unsupported : validate_transport_kernel (bytes "xhttp") (bytes "singbox") ≡ some (bytes "xhttp")
unfolding validate_transport_kernel trim_space to_lower
unsupported = refl

on_ws_event_switched_example :
    ((node_config (some fetched) node begun).kernel.kind ≡ bytes "xray")
    × ((on_ws_event read_file decode reconfigure begun).1 ≡ begun)
unfolding run rediscover start_nodes start_node stop_nodes to_remove lookup
on_ws_event_switched_example =
    on_ws_event_switched read_file decode reconfigure fetched node begun (bytes "xhttp") refl refl
      unsupported
