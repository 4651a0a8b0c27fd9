-- ===== src/Config/Layout.antt =====
-- `ValidateStartupLayout` of internal/config/config.go: several instances in one process. Whether a
-- file exists is the parameter `exists`.
pub mod Apart
use xboard_node_win.Common.{
  ℤ, pos, ltb_ℤ, Text, Dict, lookup, insert, int_key, text_key, beq_text, bytes, Bool, true, false,
  not, ◌&&◌, if◌then◌else◌, is_empty, is_some, trim_space, itoa, Option, none, some, List, [], ◌∷◌,
  ◌++◌, Result, ok, error,
}
use xboard_node_win.Config.{Config, is_machine_mode}
use xboard_node_win.Config.Expand.{expand_nodes}

-- The errors, with the instances they name.
pub data LayoutError : Type 0 where
  port_used : ℤ → Text → Text → LayoutError
  dir_shared : Text → Text → Text → LayoutError
  binding_declared : Text → Text → Text → LayoutError
  config_missing : Text → Text → LayoutError

-- The three maps of the loop.
pub record Claimed : Type 0 where
  pub ports : Dict ℤ Text
  pub dirs : Dict Text Text
  pub bindings : Dict Text Text

-- `if other, ok := m[k]; ok { return err }`, then `m[k] = owner`.
unfoldable pub claim_port : Text → ℤ → Dict ℤ Text → Result LayoutError (Dict ℤ Text)
claim_port owner port m =
    if ltb_ℤ (pos 0) port
    then elim (lookup port m) [
      | none ↦ ok (insert port owner m)
      | some o ↦ error (port_used port o owner)
    ]
    else ok m

-- The directory of an instance may be named twice by one owner.
unfoldable pub claim_dir : Text → Text → Dict Text Text → Result LayoutError (Dict Text Text)
claim_dir owner d m = if is_empty d then ok m else elim (lookup d m) [
  | none ↦ ok (insert d owner m)
  | some o ↦ if beq_text o owner then ok (insert d owner m) else error (dir_shared d o owner)
]

-- `fmt.Sprintf("%s/%d", url, id)`
unfoldable pub binding_of : Config → Text
binding_of n = trim_space n.panel.url ++ 47 ∷ itoa n.panel.node_id

module _ (exists : Text → Bool) where
  -- A custom configuration that is named must exist.
  abbrev pub lacks_config : Config → Bool
  lacks_config c =
      let path = trim_space c.kernel.custom_config in not (is_empty path) && not (exists path)

  -- The loop over the nodes of an instance.
  unfoldable pub claim_nodes :
      Text → List Config → Dict Text Text → Result LayoutError (Dict Text Text)
  claim_nodes owner [] m = ok m
  claim_nodes owner (n ∷ ns) m =
      let b = binding_of n in
      let rest = claim_nodes owner ns (insert b owner m) in
      elim (lookup b m) [
        | some o ↦ error (binding_declared b o owner)
        | none ↦
            if lacks_config n
            then error (config_missing (trim_space n.kernel.custom_config) owner)
            else rest
      ]

  unfoldable pub claim_instance_nodes :
      Config → Dict Text Text → Result LayoutError (Dict Text Text)
  claim_instance_nodes c m =
      if is_machine_mode c
      then (if lacks_config c
          then error (config_missing (trim_space c.kernel.custom_config) c.instance_id)
          else ok m)
      else claim_nodes c.instance_id (expand_nodes c) m

  abbrev pub claimed_nodes :
      Claimed → Result LayoutError (Dict Text Text) → Result LayoutError Claimed
  claimed_nodes s (error e) = error e
  claimed_nodes s (ok m) = ok (record s { bindings = m })

  abbrev pub claimed_dir :
      Config → Claimed → Result LayoutError (Dict Text Text) → Result LayoutError Claimed
  claimed_dir c s (error e) = error e
  claimed_dir c s (ok m) = claimed_nodes (record s { dirs = m }) (claim_instance_nodes c s.bindings)

  abbrev pub claimed_port :
      Config → Claimed → Result LayoutError (Dict ℤ Text) → Result LayoutError Claimed
  claimed_port c s (error e) = error e
  claimed_port c s (ok m) =
      claimed_dir c (record s { ports = m })
        (claim_dir c.instance_id (trim_space c.kernel.config_dir) s.dirs)

  -- One turn of the loop over the instances.
  unfoldable pub claim_instance : Config → Claimed → Result LayoutError Claimed
  claim_instance c s = claimed_port c s (claim_port c.instance_id c.health_port s.ports)

  -- The loop over the instances; `none` among them is a nil pointer, which is skipped.
  unfoldable pub claim_all : List (Option Config) → Claimed → Option LayoutError
  claim_all [] s = none
  claim_all (none ∷ cs) s = claim_all cs s
  claim_all (some c ∷ cs) s = elim (claim_instance c s) [
    | error e ↦ some e
    | ok s' ↦ claim_all cs s'
  ]

  -- `ValidateStartupLayout`
  unfoldable pub validate_startup_layout : List (Option Config) → Option LayoutError
  validate_startup_layout cs = claim_all cs (record { ports = []; dirs = []; bindings = [] })
