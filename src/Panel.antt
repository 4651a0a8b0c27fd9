-- ===== src/Panel.antt =====
-- internal/panel/types.go: what the panel sends. The JSON decoding itself is not modelled.
use xboard_node_win.Common.{ℤ, Text, Dict, Bool, Option}
use xboard_node_win.Model.Value.{Slice, AnyMap}

-- `RouteRule`
pub record RouteRule : Type 0 where
  pub id : ℤ
  pub match : Slice Text
  pub action : Text
  pub action_value : Text

-- `OutboundConfig`
pub record OutboundConfig : Type 0 where
  pub tag : Text
  pub protocol : Text
  pub settings : AnyMap
  pub proxy_tag : Text

-- `RouteMatch`
pub record RouteMatch : Type 0 where
  pub domains : Slice Text
  pub domain_suffixes : Slice Text
  pub ip_cidrs : Slice Text
  pub ports : Slice Text
  pub networks : Slice Text
  pub source_cidrs : Slice Text
  pub source_ports : Slice Text

-- `RouteAction`; `kind` is the field Type.
pub record RouteAction : Type 0 where
  pub kind : Text
  pub target : Text

-- `CustomRouteRule`
pub record CustomRouteRule : Type 0 where
  pub name : Text
  pub disabled : Bool
  pub match : RouteMatch
  pub action : RouteAction

-- `BrutalConfig`
pub record BrutalConfig : Type 0 where
  pub enabled : Bool
  pub up_mbps : ℤ
  pub down_mbps : ℤ

-- `MultiplexConfig`
pub record MultiplexConfig : Type 0 where
  pub enabled : Bool
  pub protocol : Text
  pub max_connections : ℤ
  pub min_streams : ℤ
  pub max_streams : ℤ
  pub padding : Bool
  pub brutal : Option BrutalConfig

-- `CertConfig`
pub record CertConfig : Type 0 where
  pub cert_mode : Text
  pub domain : Text
  pub email : Text
  pub dns_provider : Text
  pub dns_env : Option (Dict Text Text)
  pub http_port : ℤ
  pub cert_file : Text
  pub key_file : Text
  pub cert_content : Text
  pub key_content : Text

-- `BaseConfig`
pub record BaseConfig : Type 0 where
  pub push_interval : ℤ
  pub pull_interval : ℤ

-- `NodeConfig`
pub record NodeConfig : Type 0 where
  pub node_id : ℤ
  pub protocol : Text
  pub listen_ip : Text
  pub server_port : ℤ
  pub network : Text
  pub network_settings : AnyMap
  pub base_config : BaseConfig
  pub routes : Slice RouteRule
  pub kernel_type : Text
  pub kernel_log_level : Text
  pub custom_outbounds : Slice OutboundConfig
  pub custom_routes : Slice AnyMap
  pub custom_route_rules : Slice CustomRouteRule
  pub cert_config : Option CertConfig
  pub auto_tls : Bool
  pub domain : Text
  pub cipher : Text
  pub plugin : Text
  pub plugin_opt : Text
  pub server_key : Text
  pub tls : ℤ
  pub flow : Text
  pub decryption : Text
  pub tls_settings : AnyMap
  pub host : Text
  pub server_name : Text
  pub version : ℤ
  pub up_mbps : ℤ
  pub down_mbps : ℤ
  pub obfs : Text
  pub obfs_password : Text
  pub congestion_control : Text
  pub padding_scheme : Text
  pub transport : Text
  pub traffic_pattern : Text
  pub multiplex : Option MultiplexConfig
  pub accept_proxy_protocol : Bool

-- `User`
pub record User : Type 0 where
  pub id : ℤ
  pub uuid : Text
  pub speed_limit : ℤ
  pub device_limit : ℤ
