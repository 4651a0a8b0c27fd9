-- ===== src/Config/Load/Sound.antt =====
-- What `LoadRoot` of internal/config/config.go promises of the configuration that it returns.
use xboard_node_win.Common.{
  ℕ, suc, Text, if◌then◌else◌, is_empty, Option, none, some, List, [], ◌∷◌, Result, ok, error, Keys,
  insert, text_key, Distinct, AllNew, AllNew-insert, ◌≡◌, refl, ◌↔◌, arith,
}
use xboard_node_win.Config.{Config, RootConfig}
use xboard_node_win.Config.Validate.{ConfigError, validate}
use xboard_node_win.Config.Env.{apply_env_overrides, resolve_env_refs}
use xboard_node_win.Config.Instances.{assign_instance_ids}
use xboard_node_win.Config.Load.{
  Outside, RootError, LoadError, validate_instances, as_single, validate_root, load_root, checked,
  finish_root, prepare_root, set_defaults_root, on_each, inherit_all, config_base_dir, read_root,
}

abbrev pub AllValid : List Config → Type 0
AllValid [] = Unit
AllValid (c ∷ cs) = (validate c ≡ none) × AllValid cs

abbrev pub instance_ids : List Config → List Text
instance_ids [] = []
instance_ids (c ∷ cs) = c.instance_id ∷ instance_ids cs

-- Without instances the configuration is valid; with instances, each is valid and no two have one
-- identity.
abbrev pub InstancesOk : List Config → Config → Type 0
InstancesOk [] config = validate config ≡ none
InstancesOk (c ∷ cs) config = AllValid (c ∷ cs) × Distinct (instance_ids (c ∷ cs))

validate_instances_lem :
    (i : ℕ) (seen : Keys Text) (cs : List Config)
    → (validate_instances i seen cs ≡ none)
      ↔ (AllValid cs × (AllNew seen (instance_ids cs) × Distinct (instance_ids cs)))
unfolding validate_instances
validate_instances_lem i seen [] = ((λ h. (tt, (tt, tt))), (λ h. refl))
validate_instances_lem i seen (c ∷ cs) = ground (
  arith,
  validate_instances_lem (suc i) (insert c.instance_id tt seen) cs,
  AllNew-insert c.instance_id tt seen (instance_ids cs),
)

as_single-none : (e : Option ConfigError) → as_single e ≡ none → e ≡ none
as_single-none none h = refl
as_single-none (some e) h = cc

root_by :
    (cs : List Config) (config : Config)
    → (if is_empty cs then as_single (validate config) else validate_instances 0 [] cs) ≡ none
    → InstancesOk cs config
root_by [] config h = as_single-none (validate config) h
root_by (c ∷ cs) config h = let r = (validate_instances_lem 0 [] (c ∷ cs)).0 h in (r.0, r.1.1)

validate_root-InstancesOk :
    (rc : RootConfig) → validate_root rc ≡ none → InstancesOk rc.instances rc.config
unfolding validate_root
validate_root-InstancesOk rc h = root_by rc.instances rc.config h

module _ (o : Outside) where
  checked_ok :
      (rc rc' : RootConfig) (e : Option RootError)
      → validate_root rc ≡ e
      → checked o rc e ≡ ok rc'
      → InstancesOk rc'.instances rc'.config
  checked_ok rc rc' none v h =
      let same : rc ≡ rc' = cc in rw⁻¹ same (validate_root-InstancesOk rc v)
  checked_ok rc rc' (some e) v h = cc

  finish_root_ok :
      (base : Text) (rc rc' : RootConfig) (r : Result ℕ (List Config))
      → finish_root o base rc r ≡ ok rc'
      → InstancesOk rc'.instances rc'.config
  finish_root_ok base rc rc' (error i) h = cc
  finish_root_ok base rc rc' (ok cs) h =
      let done : RootConfig = set_defaults_root base (record rc { instances = cs }) in
      checked_ok done rc' (validate_root done) refl h

  prepare_root_ok :
      (base : Text) (rc' : RootConfig) (r : Result LoadError RootConfig)
      → prepare_root o base r ≡ ok rc'
      → InstancesOk rc'.instances rc'.config
  prepare_root_ok base rc' (error e) h = cc
  prepare_root_ok base rc' (ok rc) h =
      let env = on_each (apply_env_overrides o.getenv) (inherit_all o rc) in
      let resolved = on_each (resolve_env_refs o.getenv) env in
      finish_root_ok base resolved rc'
        (assign_instance_ids o.parse_url o.sha1_hex 0 resolved.instances) h

  -- Whatever the file and the environment hold, a root configuration that `LoadRoot` returns is valid: its
  -- single configuration if it lists no instances, and else each of its instances, no two of which
  -- have one identity.
  pub load_root-InstancesOk :
      (path : Text) (rc : RootConfig)
      → load_root o path ≡ ok rc
      → InstancesOk rc.instances rc.config
  unfolding load_root
  load_root-InstancesOk path rc h =
      prepare_root_ok (config_base_dir o path) rc (read_root o (o.read_file path)) h
