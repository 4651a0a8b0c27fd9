-- ===== src/Config/Inherit.antt =====
-- `inheritFrom` of internal/config/config.go, one function per record of the configuration.
pub mod AutoTls
pub mod Again
use xboard_node_win.Common.{
  ℤ, pos, beq_ℤ, Text, Bool, true, false, not, ◌&&◌, ◌||◌, if◌then◌else◌, is_empty, from_option, [],
  ◌≡◌, refl, ap, arith, none, some, ◌∷◌,
}
use xboard_node_win.Model.NodeSpec
use xboard_node_win.Model.Value.{Slice}
use xboard_node_win.Config.{LogConfig, NodeConfig, WsConfig, RuntimeConfig, KernelConfig, Config}

-- `if c == "" { c = parent }`, and the same for numbers and slices.
abbrev pub or_text : Text → Text → Text
or_text c parent = if is_empty c then parent else c

abbrev pub or_int : ℤ → ℤ → ℤ
or_int c parent = if beq_ℤ c (pos 0) then parent else c

abbrev pub or_slice : {A : Type 0} → Slice A → Slice A → Slice A
or_slice c parent = if is_empty (from_option [] c) then parent else c

unfoldable pub inherit_log : LogConfig → LogConfig → LogConfig
inherit_log c p = record { level = or_text c.level p.level; output = or_text c.output p.output }

unfoldable pub inherit_node : NodeConfig → NodeConfig → NodeConfig
inherit_node c p = record {
  push_interval = or_int c.push_interval p.push_interval;
  pull_interval = or_int c.pull_interval p.pull_interval;
  track_interval = or_int c.track_interval p.track_interval;
  device_report_interval = or_int c.device_report_interval p.device_report_interval;
}

unfoldable pub inherit_ws : WsConfig → WsConfig → WsConfig
inherit_ws c p = record {
  status_interval = or_int c.status_interval p.status_interval;
  handshake_timeout = or_int c.handshake_timeout p.handshake_timeout;
  backoff_initial = or_int c.backoff_initial p.backoff_initial;
  backoff_max = or_int c.backoff_max p.backoff_max;
  discovery_interval = or_int c.discovery_interval p.discovery_interval;
}

unfoldable pub inherit_runtime : RuntimeConfig → RuntimeConfig → RuntimeConfig
inherit_runtime c p = record {
  go_mem_limit = or_text c.go_mem_limit p.go_mem_limit;
  go_gc_percent = or_int c.go_gc_percent p.go_gc_percent;
}

-- All but `config_dir`.
unfoldable pub inherit_kernel : KernelConfig → KernelConfig → KernelConfig
inherit_kernel c p = record c {
  kind = or_text c.kind p.kind;
  log_level = or_text c.log_level p.log_level;
  geo_data_dir = or_text c.geo_data_dir p.geo_data_dir;
  custom_config = or_text c.custom_config p.custom_config;
  custom_outbound = or_slice c.custom_outbound p.custom_outbound;
  custom_route = or_slice c.custom_route p.custom_route;
}

-- `childHasCertConfig`
unfoldable pub has_cert_config : NodeSpec.CertConfig → Bool
has_cert_config c =
    not (is_empty c.cert_mode) || not (is_empty c.cert_file) || not (is_empty c.cert_content)

-- The texts and numbers of the certificate, all but `cert_dir`.
unfoldable pub inherit_cert_fields : NodeSpec.CertConfig → NodeSpec.CertConfig → NodeSpec.CertConfig
inherit_cert_fields c p = record c {
  cert_mode = or_text c.cert_mode p.cert_mode;
  domain = or_text c.domain p.domain;
  email = or_text c.email p.email;
  cert_file = or_text c.cert_file p.cert_file;
  key_file = or_text c.key_file p.key_file;
  dns_provider = or_text c.dns_provider p.dns_provider;
  dns_env = or_slice c.dns_env p.dns_env;
  http_port = or_int c.http_port p.http_port;
  cert_content = or_text c.cert_content p.cert_content;
  key_content = or_text c.key_content p.key_content;
}

-- The switch `auto_tls`, after the fields.
unfoldable pub inherit_auto_tls : NodeSpec.CertConfig → NodeSpec.CertConfig → NodeSpec.CertConfig
inherit_auto_tls c p =
    if not (has_cert_config c) && not c.auto_tls && p.auto_tls
    then record c { auto_tls = p.auto_tls }
    else c

unfoldable pub inherit_cert : NodeSpec.CertConfig → NodeSpec.CertConfig → NodeSpec.CertConfig
inherit_cert c p = inherit_auto_tls (inherit_cert_fields c p) p

-- `inheritFrom`
unfoldable pub inherit_from : Config → Config → Config
inherit_from c parent = record c {
  log = inherit_log c.log parent.log;
  node = inherit_node c.node parent.node;
  ws = inherit_ws c.ws parent.ws;
  runtime = inherit_runtime c.runtime parent.runtime;
  kernel = inherit_kernel c.kernel parent.kernel;
  cert = inherit_cert c.cert parent.cert;
}
