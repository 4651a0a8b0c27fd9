-- ===== src/Config/Load.antt =====
-- `LoadRoot` and `Load` of internal/config/config.go, with `setDefaultsFrom`, `applyEnvOverrides`,
-- `resolveEnvRefs` and `validateRoot` of the root. The file system, the YAML decoder, the
-- environment, `url.Parse` and SHA-1 are fields of `Outside`.
pub mod Sound
use xboard_node_win.Common.{
  ℕ, suc, Text, bytes, Bool, true, false, not, ◌&&◌, if◌then◌else◌, ltb, is_empty, is_some, length,
  dir, join, Option, none, some, List, [], ◌∷◌, map, Result, ok, error, fail_if, or_else, Keys,
  lookup, insert, text_key, Bool-cases, inl, inr, Distinct, AllNew, AllNew-nil, AllNew-insert, ◌≡◌,
  refl, ◌↔◌, arith,
}
use xboard_node_win.Config.{Config, RootConfig, zero_config}
use xboard_node_win.Config.Inherit.{inherit_from}
use xboard_node_win.Config.Env.{apply_env_overrides, resolve_env_refs}
use xboard_node_win.Config.Defaults.{set_defaults_from}
use xboard_node_win.Config.Validate.{ConfigError, validate}
use xboard_node_win.Config.Instances.{Url, assign_instance_ids}

-- What `os.ReadFile` gives.
pub data FileRead : Type 0 where
  contents : Text → FileRead
  missing : FileRead
  unreadable : FileRead

-- What the loader calls: `filepath.Abs`, `yaml.Unmarshal` into the two records, `os.Getenv`,
-- `url.Parse`, and the hexadecimal SHA-1. `none` is an error.
pub record Outside : Type 0 where
  pub read_file : Text → FileRead
  pub abs : Text → Option Text
  pub unmarshal_root : Text → Option RootConfig
  pub unmarshal : Text → Option Config
  pub getenv : Text → Text
  pub parse_url : Text → Option Url
  pub sha1_hex : Text → Text

-- The errors of `validateRoot`, with the index of the instance.
pub data RootError : Type 0 where
  single : ConfigError → RootError
  instance_invalid : ℕ → ConfigError → RootError
  duplicate_id : ℕ → RootError

pub data LoadError : Type 0 where
  parse_config : LoadError
  parse_legacy : LoadError
  read_failed : LoadError
  bad_url : ℕ → LoadError
  invalid : RootError → LoadError

abbrev pub at_index : ℕ → Option ConfigError → Option RootError
at_index i none = none
at_index i (some e) = some (instance_invalid i e)

-- The loop of `validateRoot` from index `i`, after the identities in `seen`.
unfoldable pub validate_instances : ℕ → Keys Text → List Config → Option RootError
validate_instances i seen [] = none
validate_instances i seen (c ∷ cs) =
    let rest = validate_instances (suc i) (insert c.instance_id tt seen) cs in
    or_else (at_index i (validate c))
      (fail_if (is_some (lookup c.instance_id seen)) (duplicate_id i) rest)

abbrev pub as_single : Option ConfigError → Option RootError
as_single none = none
as_single (some e) = some (single e)

-- `validateRoot`
unfoldable pub validate_root : RootConfig → Option RootError
validate_root rc =
    if is_empty rc.instances
    then as_single (validate rc.config)
    else validate_instances 0 [] rc.instances

-- A step of the root: on the single configuration, or on every instance.
abbrev pub on_each : (Config → Config) → RootConfig → RootConfig
on_each f rc =
    if is_empty rc.instances
    then record rc { config = f rc.config }
    else record rc { instances = map f rc.instances }

-- The directory from which an instance takes its defaults, of several if `many`.
unfoldable pub instance_base : Bool → Text → Config → Text
instance_base many base c =
    if many && is_empty c.kernel.config_dir then join base c.instance_id else base

abbrev pub instance_defaults : Bool → Text → Config → Config
instance_defaults many base c = set_defaults_from (instance_base many base c) c

-- `RootConfig.setDefaultsFrom`
unfoldable pub set_defaults_root : Text → RootConfig → RootConfig
set_defaults_root base rc =
    if is_empty rc.instances
    then record rc { config = set_defaults_from base rc.config }
    else record rc {
      instances = map (instance_defaults (ltb 1 (length rc.instances)) base) rc.instances;
    }

module _ (o : Outside) where
  -- `configBaseDir`
  unfoldable pub config_base_dir : Text → Text
  config_base_dir path = elim (o.abs path) [ none ↦ bytes "/etc/xboard-node" | some a ↦ dir a ]

  abbrev pub set_config : RootConfig → Option Config → Result LoadError RootConfig
  set_config rc none = error parse_legacy
  set_config rc (some c) = ok (record rc { config = c })

  abbrev pub decode : Text → Option RootConfig → Result LoadError RootConfig
  decode data' none = error parse_config
  decode data' (some rc) =
      if is_empty rc.instances then set_config rc (o.unmarshal data') else ok rc

  -- The file's configuration, and the empty one if there is no file.
  unfoldable pub read_root : FileRead → Result LoadError RootConfig
  read_root (contents d) = decode d (o.unmarshal_root d)
  read_root missing = ok (record { instances = []; config = zero_config })
  read_root unreadable = error read_failed

  abbrev pub inherit_all : RootConfig → RootConfig
  inherit_all rc = record rc { instances = map (λ c. inherit_from c rc.config) rc.instances }

  abbrev pub checked : RootConfig → Option RootError → Result LoadError RootConfig
  checked rc none = ok rc
  checked rc (some e) = error (invalid e)

  abbrev pub finish_root : Text → RootConfig → Result ℕ (List Config) → Result LoadError RootConfig
  finish_root base rc (error i) = error (bad_url i)
  finish_root base rc (ok cs) =
      let rc' = set_defaults_root base (record rc { instances = cs }) in
      checked rc' (validate_root rc')

  abbrev pub prepare_root : Text → Result LoadError RootConfig → Result LoadError RootConfig
  prepare_root base (error e) = error e
  prepare_root base (ok rc) =
      let rc1 = on_each (apply_env_overrides o.getenv) (inherit_all rc) in
      let rc2 = on_each (resolve_env_refs o.getenv) rc1 in
      finish_root base rc2 (assign_instance_ids o.parse_url o.sha1_hex 0 rc2.instances)

  -- `LoadRoot`
  unfoldable pub load_root : Text → Result LoadError RootConfig
  load_root path = prepare_root (config_base_dir path) (read_root (o.read_file path))

  unfoldable pub read_config : FileRead → Result LoadError Config
  read_config (contents d) = elim (o.unmarshal d) [ none ↦ error parse_config | some c ↦ ok c ]
  read_config missing = ok zero_config
  read_config unreadable = error read_failed

  abbrev pub checked_config : Config → Option ConfigError → Result LoadError Config
  checked_config c none = ok c
  checked_config c (some e) = error (invalid (single e))

  abbrev pub prepare : Text → Result LoadError Config → Result LoadError Config
  prepare base (error e) = error e
  prepare base (ok c) =
      let c' =
        set_defaults_from base (resolve_env_refs o.getenv (apply_env_overrides o.getenv c)) in
      checked_config c' (validate c')

  -- `Load`
  unfoldable pub load : Text → Result LoadError Config
  load path = prepare (config_base_dir path) (read_config (o.read_file path))
