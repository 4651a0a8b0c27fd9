-- ===== src/Config/Expand.antt =====
-- `ExpandNodes` and `ExpandMachineNode` of internal/config/config.go: one configuration per node.
pub mod Unique
use xboard_node_win.Common.{
  ℤ, Text, bytes, beq_text, Bool, if◌then◌else◌, is_empty, itoa, join, Option, none, some, List, [],
  ◌∷◌, map, ◌++◌,
}
use xboard_node_win.Model.NodeSpec
use xboard_node_win.Config.{KernelOverride, NodeEntry, MachineConfig, KernelConfig, Config}
use xboard_node_win.Config.Inherit.{or_text}

-- `fmt.Sprintf("%s/node-%d", base, id)`
unfoldable pub node_dir : Text → ℤ → Text
node_dir base id = base ++ bytes "/node-" ++ itoa id

-- The kernel section with a directory of the node's own, which the geo data stay out of.
unfoldable pub derive_kernel : ℤ → KernelConfig → KernelConfig
derive_kernel id k = record k {
  config_dir = node_dir k.config_dir id;
  geo_data_dir = if beq_text k.geo_data_dir k.config_dir then k.geo_data_dir else k.geo_data_dir;
}

-- The directories of an override: the geo data follow `config_dir` if they were in the shared one.
abbrev override_dir : KernelOverride → KernelConfig → KernelConfig
override_dir o k = if is_empty o.config_dir then k else record k {
  config_dir = o.config_dir;
  geo_data_dir = if beq_text k.geo_data_dir k.config_dir then o.config_dir else k.geo_data_dir;
}

unfoldable pub override_kernel : ℤ → Option KernelOverride → KernelConfig → KernelConfig
override_kernel id none k = derive_kernel id k
override_kernel id (some o) k =
    let d = override_dir o k in
    record d {
      geo_data_dir = or_text o.geo_data_dir d.geo_data_dir;
      log_level = or_text o.log_level d.log_level;
      custom_config = or_text o.custom_config d.custom_config;
    }

abbrev override_cert : Text → Option NodeSpec.CertConfig → NodeSpec.CertConfig → NodeSpec.CertConfig
override_cert config_dir none c = record c {
  cert_dir = or_text c.cert_dir (join config_dir (bytes "certs"));
}
override_cert config_dir (some e) c = record e {
  cert_dir = or_text e.cert_dir (join config_dir (bytes "certs"));
}

-- The configuration of one entry.
unfoldable pub expand_node : Config → NodeEntry → Config
expand_node c e =
    let kernel = override_kernel e.node_id e.kernel c.kernel in
    record c {
      nodes = [];
      panel = record c.panel { node_id = e.node_id; node_type = e.node_type };
      kernel = kernel;
      cert = override_cert kernel.config_dir e.cert c.cert;
    }

-- `ExpandNodes`
unfoldable pub expand_nodes : Config → List Config
expand_nodes c = if is_empty c.nodes then c ∷ [] else map (expand_node c) c.nodes

abbrev pub with_machine : ℤ → Text → Config → MachineConfig → Config
with_machine node_id node_type c m =
    let kernel = derive_kernel node_id c.kernel in
    record c {
      nodes = [];
      panel = record c.panel {
        node_id = node_id;
        node_type = node_type;
        token = m.token;
        machine_id = m.machine_id;
      };
      kernel = kernel;
      cert = record c.cert { cert_dir = join kernel.config_dir (bytes "certs") };
    }

-- `ExpandMachineNode`; without a machine section the nil pointer panics, here `none`.
unfoldable pub expand_machine_node : Config → ℤ → Text → Option Config
expand_machine_node c node_id node_type = elim c.machine [
  | none ↦ none
  | some m ↦ some (with_machine node_id node_type c m)
]
