-- ===== src/Config.antt =====
-- internal/config/config.go and standalone.go: the configuration, its records. YAML decoding is third-party.
pub mod Inherit
pub mod Env
pub mod Defaults
pub mod Validate
pub mod Instances
pub mod Load
pub mod Expand
pub mod Layout
mod Tests
use xboard_node_win.Common.{ℤ, pos, ltb_ℤ, Text, Bool, false, ◌&&◌, Option, none, some, List, []}
use xboard_node_win.Model.NodeSpec
use xboard_node_win.Model.Value.{Slice, AnyMap}

-- `MachineConfig`
pub record MachineConfig : Type 0 where
  pub machine_id : ℤ
  pub token : Text
  pub token_env : Text

-- `KernelOverride`
pub record KernelOverride : Type 0 where
  pub config_dir : Text
  pub geo_data_dir : Text
  pub log_level : Text
  pub custom_config : Text

-- `NodeEntry`
pub record NodeEntry : Type 0 where
  pub node_id : ℤ
  pub node_type : Text
  pub kernel : Option KernelOverride
  pub cert : Option NodeSpec.CertConfig

-- `RuntimeConfig`
pub record RuntimeConfig : Type 0 where
  pub go_mem_limit : Text
  pub go_gc_percent : ℤ

-- `PanelConfig`
pub record PanelConfig : Type 0 where
  pub url : Text
  pub token : Text
  pub token_env : Text
  pub node_id : ℤ
  pub node_type : Text
  pub machine_id : ℤ

-- `NodeConfig`
pub record NodeConfig : Type 0 where
  pub push_interval : ℤ
  pub pull_interval : ℤ
  pub track_interval : ℤ
  pub device_report_interval : ℤ

-- `WSConfig`
pub record WsConfig : Type 0 where
  pub status_interval : ℤ
  pub handshake_timeout : ℤ
  pub backoff_initial : ℤ
  pub backoff_max : ℤ
  pub discovery_interval : ℤ

-- `KernelConfig`
pub record KernelConfig : Type 0 where
  pub kind : Text
  pub config_dir : Text
  pub log_level : Text
  pub geo_data_dir : Text
  pub custom_outbound : Slice AnyMap
  pub custom_route : Slice AnyMap
  pub custom_config : Text

-- `LogConfig`
pub record LogConfig : Type 0 where
  pub level : Text
  pub output : Text

-- `StandaloneRouteRule`
pub record StandaloneRouteRule : Type 0 where
  pub id : ℤ
  pub match : Slice Text
  pub action : Text
  pub action_value : Text

-- `StandaloneRouteMatch`
pub record StandaloneRouteMatch : Type 0 where
  pub domains : Slice Text
  pub domain_suffixes : Slice Text
  pub ip_cidrs : Slice Text
  pub ports : Slice Text
  pub networks : Slice Text
  pub source_cidrs : Slice Text
  pub source_ports : Slice Text

-- `StandaloneRouteAction`
pub record StandaloneRouteAction : Type 0 where
  pub kind : Text
  pub target : Text

-- `StandaloneCustomRouteRule`
pub record StandaloneCustomRouteRule : Type 0 where
  pub name : Text
  pub disabled : Bool
  pub match : StandaloneRouteMatch
  pub action : StandaloneRouteAction

-- `StandaloneBrutalConfig`
pub record StandaloneBrutalConfig : Type 0 where
  pub enabled : Bool
  pub up_mbps : ℤ
  pub down_mbps : ℤ

-- `StandaloneMultiplexConfig`
pub record StandaloneMultiplexConfig : Type 0 where
  pub enabled : Bool
  pub protocol : Text
  pub max_connections : ℤ
  pub min_streams : ℤ
  pub max_streams : ℤ
  pub padding : Bool
  pub brutal : Option StandaloneBrutalConfig

-- `StandaloneNodeConfig`
pub record StandaloneNodeConfig : Type 0 where
  pub protocol : Text
  pub listen_ip : Text
  pub server_port : ℤ
  pub network : Text
  pub network_settings : AnyMap
  pub routes : Slice StandaloneRouteRule
  pub custom_route_rules : Slice StandaloneCustomRouteRule
  pub cipher : Text
  pub plugin : Text
  pub plugin_opt : Text
  pub server_key : Text
  pub tls : ℤ
  pub flow : Text
  pub decryption : Text
  pub tls_settings : AnyMap
  pub host : Text
  pub server_name : Text
  pub version : ℤ
  pub up_mbps : ℤ
  pub down_mbps : ℤ
  pub obfs : Text
  pub obfs_password : Text
  pub congestion_control : Text
  pub padding_scheme : Text
  pub transport : Text
  pub traffic_pattern : Text
  pub multiplex : Option StandaloneMultiplexConfig
  pub accept_proxy_protocol : Bool

-- `StandaloneUser`
pub record StandaloneUser : Type 0 where
  pub id : ℤ
  pub uuid : Text
  pub speed_limit : ℤ
  pub device_limit : ℤ

-- `StandaloneConfig`
pub record StandaloneConfig : Type 0 where
  pub enabled : Bool
  pub node : StandaloneNodeConfig
  pub users : List StandaloneUser

-- `Config`
pub record Config : Type 0 where
  pub instance_id : Text
  pub panel : PanelConfig
  pub node : NodeConfig
  pub kernel : KernelConfig
  pub cert : NodeSpec.CertConfig
  pub log : LogConfig
  pub runtime : RuntimeConfig
  pub ws : WsConfig
  pub standalone : Option StandaloneConfig
  pub health_port : ℤ
  pub nodes : List NodeEntry
  pub machine : Option MachineConfig

-- `RootConfig`
pub record RootConfig : Type 0 where
  pub instances : List Config
  pub config : Config

-- The zero value of `Config`.
abbrev pub zero_config : Config
zero_config = record {
  instance_id = [];
  panel = record {
    url = [];
    token = [];
    token_env = [];
    node_id = pos 0;
    node_type = [];
    machine_id = pos 0;
  };
  node = record {
    push_interval = pos 0;
    pull_interval = pos 0;
    track_interval = pos 0;
    device_report_interval = pos 0;
  };
  kernel = record {
    kind = [];
    config_dir = [];
    log_level = [];
    geo_data_dir = [];
    custom_outbound = none;
    custom_route = none;
    custom_config = [];
  };
  cert = record {
    auto_tls = false;
    cert_mode = [];
    domain = [];
    email = [];
    dns_provider = [];
    dns_env = none;
    http_port = pos 0;
    cert_file = [];
    key_file = [];
    cert_content = [];
    key_content = [];
    cert_dir = [];
  };
  log = record { level = []; output = [] };
  runtime = record { go_mem_limit = []; go_gc_percent = pos 0 };
  ws = record {
    status_interval = pos 0;
    handshake_timeout = pos 0;
    backoff_initial = pos 0;
    backoff_max = pos 0;
    discovery_interval = pos 0;
  };
  standalone = none;
  health_port = pos 0;
  nodes = [];
  machine = none;
}

-- `IsStandalone`
unfoldable pub is_standalone : Config → Bool
is_standalone c = elim c.standalone [ none ↦ false | some s ↦ s.enabled ]

-- `IsMachineMode`
unfoldable pub is_machine_mode : Config → Bool
is_machine_mode c = elim c.machine [ none ↦ false | some m ↦ ltb_ℤ (pos 0) m.machine_id ]
