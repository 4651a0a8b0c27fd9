-- ===== src/Config/Tests.antt =====
-- Examples for internal/config: nodes and instances at one panel.
use xboard_node_win.Common.{
  ℤ, pos, Text, bytes, true, false, Option, none, some, List, [], ◌∷◌, ok, error, ◌≡◌, refl, ◌↔◌,
  Distinct, int_key, text_key, trim_space, trim, to_lower, itoa, digits, join, clean, dir, path_of,
  push_parts, split, join_texts, lookup, insert, first_error, arith,
}
use xboard_node_win.Config.{
  NodeEntry, Config, RootConfig, zero_config, is_standalone, is_machine_mode,
}
use xboard_node_win.Config.Inherit.{
  inherit_from, inherit_log, inherit_node, inherit_ws, inherit_runtime, inherit_kernel,
  inherit_cert, inherit_cert_fields, inherit_auto_tls, has_cert_config,
}
use xboard_node_win.Config.Inherit.AutoTls.{inherit_from-auto_tls}
use xboard_node_win.Config.Defaults.{
  default_kernel, default_log, default_cert, default_ws, default_node, set_defaults_from,
  set_defaults_from_again,
}
use xboard_node_win.Config.Validate.{validate, validate_mode, validate_panel}
use xboard_node_win.Config.Validate.Accepts.{ModeOk, SharedOk, validate_lem}
use xboard_node_win.Config.Instances.{
  assign_instance_ids, auto_instance_id, identity, normalize_base_url, normalize_url, slug_loop,
  slug_of,
}
use xboard_node_win.Config.Instances.Slug.{IsSlug, slug_of-IsSlug}
use xboard_node_win.Config.Load.{
  Outside, contents, load_root, read_root, config_base_dir, set_defaults_root, instance_base,
  validate_root, validate_instances,
}
use xboard_node_win.Config.Env.{apply_env_overrides, env_machine, env_first, resolve_env_refs}
use xboard_node_win.Config.Load.Sound.{InstancesOk, load_root-InstancesOk}
use xboard_node_win.Config.Expand.{expand_nodes}
use xboard_node_win.Config.Expand.Unique.{dirs_of, expand_nodes-Distinct}
use xboard_node_win.Config.Layout.{
  validate_startup_layout, claim_all, claim_instance, claim_port, claim_dir, claim_instance_nodes,
  claim_nodes, binding_of,
}
use xboard_node_win.Config.Layout.Apart
use xboard_node_win.Config.Layout.Apart.{
  ports_of, bindings_of, OwnersAgree, validate_startup_layout_apart,
}

abbrev node : ℤ → Config
node id = record zero_config {
  panel = record zero_config.panel { url = bytes "https://a.io"; token = bytes "t"; node_id = id };
  kernel = record zero_config.kernel { kind = bytes "xray" };
}

abbrev secured : Config
secured = record zero_config {
  cert = record zero_config.cert { auto_tls = true; cert_file = bytes "c" };
}

inherit_from-auto_tls_example : (inherit_from (node (pos 1)) secured).cert.auto_tls ≡ false
unfolding has_cert_config
inherit_from-auto_tls_example = inherit_from-auto_tls (node (pos 1)) secured

set_defaults_from_again_example :
    set_defaults_from (bytes "/b") (set_defaults_from (bytes "/a") (node (pos 1)))
    ≡ set_defaults_from (bytes "/a") (node (pos 1))
set_defaults_from_again_example =
    set_defaults_from_again (bytes "/a") (bytes "/b") (node (pos 1)) refl

validate_lem_example :
    (validate (node (pos 1)) ≡ none) ↔ (ModeOk none (node (pos 1)) × SharedOk (node (pos 1)))
validate_lem_example = validate_lem (node (pos 1))

slug_of-IsSlug_example : IsSlug (slug_of (bytes "A.io:8443-x/"))
slug_of-IsSlug_example = slug_of-IsSlug (bytes "A.io:8443-x/")

abbrev outside : Outside
outside = record {
  read_file = λ p. contents (bytes "instances");
  abs = λ p. some p;
  unmarshal_root =
      λ d. some (record { instances = node (pos 1) ∷ node (pos 2) ∷ []; config = zero_config });
  unmarshal = λ d. none;
  getenv = λ n. [];
  parse_url = λ u. some (record { scheme = bytes "https"; host = bytes "a.io"; escaped_path = [] });
  sha1_hex = λ k. bytes "0badc0de";
}

abbrev loaded : RootConfig
loaded = elim (load_root outside (bytes "/e/c.yml")) [
  | ok rc ↦ rc
  | error e ↦ record { instances = []; config = zero_config }
]

loads : load_root outside (bytes "/e/c.yml") ≡ ok loaded
unfolding load_root read_root config_base_dir apply_env_overrides env_machine env_first
    resolve_env_refs assign_instance_ids auto_instance_id identity is_standalone is_machine_mode
    itoa digits normalize_base_url normalize_url slug_of slug_loop trim to_lower trim_space
    set_defaults_root set_defaults_from default_kernel default_log default_cert default_ws
    default_node instance_base join clean dir path_of push_parts split join_texts validate_root
    validate_instances validate validate_mode validate_panel lookup insert first_error inherit_from
    inherit_log inherit_node inherit_ws inherit_runtime inherit_kernel inherit_cert
    inherit_cert_fields inherit_auto_tls has_cert_config
loads = refl

load_root-InstancesOk_example : InstancesOk loaded.instances loaded.config
load_root-InstancesOk_example = load_root-InstancesOk outside (bytes "/e/c.yml") loaded loads

abbrev entry : ℤ → NodeEntry
entry id = record { node_id = id; node_type = []; kernel = none; cert = none }

abbrev pair_of_nodes : Config
pair_of_nodes = record (node (pos 0)) { nodes = entry (pos 3) ∷ entry (pos 12) ∷ [] }

expand_nodes-Distinct_example : Distinct (dirs_of (expand_nodes pair_of_nodes))
expand_nodes-Distinct_example =
    expand_nodes-Distinct pair_of_nodes
      ((refl, (omega arith, omega arith)), ((refl, (omega arith, omega arith)), tt))
      (refl, (refl, tt))

abbrev named : Text → ℤ → Config
named name id = record (node id) {
  instance_id = name;
  health_port = id;
  kernel = record zero_config.kernel { config_dir = name };
}

abbrev pair_of_instances : List (Option Config)
pair_of_instances = some (named (bytes "a") (pos 1)) ∷ none ∷ some (named (bytes "b") (pos 2)) ∷ []

accepted : validate_startup_layout (λ p. true) pair_of_instances ≡ none
unfolding validate_startup_layout claim_all claim_instance claim_port claim_dir claim_instance_nodes
    claim_nodes binding_of is_machine_mode expand_nodes lookup insert trim_space itoa digits
accepted = refl

validate_startup_layout_apart_example :
    Distinct (ports_of pair_of_instances)
    × (Distinct (bindings_of pair_of_instances) × OwnersAgree (Apart.dirs_of pair_of_instances))
validate_startup_layout_apart_example =
    validate_startup_layout_apart (λ p. true) pair_of_instances accepted
