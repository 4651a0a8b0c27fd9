-- ===== src/Model/NodeSpec.antt =====
-- internal/model/types.go and custom_route.go: the description of a node, and cloneNodeSpec of
-- internal/controlplane/mailbox.go. Values are immutable here, so sharing is not modelled.
use xboard_node_win.Common.{
  ℤ, Text, Dict, lookup, copy_into, text_key, Bool, Option, none, some, List, [], ◌∷◌, map, bytes,
  true, false, if◌then◌else◌,
}
use xboard_node_win.Model.Value.{Value, bool, Slice, AnyMap}

-- `RouteRule`
pub record RouteRule : Type 0 where
  pub id : ℤ
  pub match : Slice Text
  pub action : Text
  pub action_value : Text

-- `OutboundConfig`
pub record OutboundConfig : Type 0 where
  pub tag : Text
  pub protocol : Text
  pub settings : AnyMap
  pub proxy_tag : Text

-- `RouteMatch`
pub record RouteMatch : Type 0 where
  pub domains : Slice Text
  pub domain_suffixes : Slice Text
  pub ip_cidrs : Slice Text
  pub ports : Slice Text
  pub networks : Slice Text
  pub source_cidrs : Slice Text
  pub source_ports : Slice Text

-- `RouteAction`; `kind` is the field Type.
pub record RouteAction : Type 0 where
  pub kind : Text
  pub target : Text

-- `CustomRouteRule`
pub record CustomRouteRule : Type 0 where
  pub name : Text
  pub disabled : Bool
  pub match : RouteMatch
  pub action : RouteAction

-- `BrutalConfig`
pub record BrutalConfig : Type 0 where
  pub enabled : Bool
  pub up_mbps : ℤ
  pub down_mbps : ℤ

-- `MultiplexConfig`
pub record MultiplexConfig : Type 0 where
  pub enabled : Bool
  pub protocol : Text
  pub max_connections : ℤ
  pub min_streams : ℤ
  pub max_streams : ℤ
  pub padding : Bool
  pub brutal : Option BrutalConfig

-- `CertConfig`
pub record CertConfig : Type 0 where
  pub auto_tls : Bool
  pub cert_mode : Text
  pub domain : Text
  pub email : Text
  pub dns_provider : Text
  pub dns_env : Option (Dict Text Text)
  pub http_port : ℤ
  pub cert_file : Text
  pub key_file : Text
  pub cert_content : Text
  pub key_content : Text
  pub cert_dir : Text

-- `NodeSpec`
pub record NodeSpec : Type 0 where
  pub protocol : Text
  pub listen_ip : Text
  pub server_port : ℤ
  pub network : Text
  pub network_settings : AnyMap
  pub routes : Slice RouteRule
  pub kernel_type : Text
  pub kernel_log_level : Text
  pub custom_outbounds : Slice OutboundConfig
  pub custom_routes : Slice AnyMap
  pub custom_route_rules : Slice CustomRouteRule
  pub cert_config : Option CertConfig
  pub auto_tls : Bool
  pub domain : Text
  pub cipher : Text
  pub plugin : Text
  pub plugin_opt : Text
  pub server_key : Text
  pub tls : ℤ
  pub flow : Text
  pub decryption : Text
  pub tls_settings : AnyMap
  pub host : Text
  pub server_name : Text
  pub version : ℤ
  pub up_mbps : ℤ
  pub down_mbps : ℤ
  pub obfs : Text
  pub obfs_password : Text
  pub congestion_control : Text
  pub padding_scheme : Text
  pub transport : Text
  pub traffic_pattern : Text
  pub multiplex : Option MultiplexConfig
  pub accept_proxy_protocol : Bool

-- `make` and a loop that copies the entries, nil for nil.
unfoldable pub clone_map : {V : Type 0} → Option (Dict Text V) → Option (Dict Text V)
clone_map none = none
clone_map (some m) = some (copy_into [] m)

-- `append([]T(nil), src...)` after a test for nil: nil also for an empty slice.
abbrev pub append_copy {ℓ} : {A : Type ℓ} → Option (List A) → Option (List A)
append_copy none = none
append_copy (some []) = none
append_copy (some (x ∷ xs)) = some (x ∷ xs)

-- The copy of the custom routes, which keeps the length and the nil entries.
unfoldable pub clone_routes : Slice AnyMap → Slice AnyMap
clone_routes none = none
clone_routes (some routes) = some (map clone_map routes)

abbrev clone_cert : CertConfig → CertConfig
clone_cert c = record c { dns_env = clone_map c.dns_env }

unfoldable pub clone_option {ℓ} : {A : Type ℓ} → (A → A) → Option A → Option A
clone_option f none = none
clone_option f (some a) = some (f a)

-- `muxCopy`, with its copy of the pointer to `Brutal`.
abbrev clone_multiplex : MultiplexConfig → MultiplexConfig
clone_multiplex m = record m { brutal = clone_option (λ b. b) m.brutal }

unfoldable pub clone_spec : NodeSpec → NodeSpec
clone_spec s = record s {
  network_settings = clone_map s.network_settings;
  tls_settings = clone_map s.tls_settings;
  routes = append_copy s.routes;
  custom_outbounds = append_copy s.custom_outbounds;
  custom_routes = clone_routes s.custom_routes;
  custom_route_rules = append_copy s.custom_route_rules;
  cert_config = clone_option clone_cert s.cert_config;
  multiplex = clone_option clone_multiplex s.multiplex;
}

-- `cloneNodeSpec`
unfoldable pub clone_node_spec : Option NodeSpec → Option NodeSpec
unfolding clone_option
clone_node_spec none = none
clone_node_spec (some s) = some (clone_spec s)

abbrev accepts_in_settings : Option Value → Bool
accepts_in_settings (some (bool b)) = b
accepts_in_settings _ = false

-- `GetProxyProtocol`
pub get_proxy_protocol : Option NodeSpec → Bool
get_proxy_protocol none = false
get_proxy_protocol (some n) = if n.accept_proxy_protocol then true else elim n.network_settings [
  | none ↦ false
  | some m ↦ accepts_in_settings (lookup (bytes "acceptProxyProtocol") m)
]
