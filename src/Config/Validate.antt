-- ===== src/Config/Validate.antt =====
-- `Config.validate` of internal/config/config.go and `validateStandalone` of standalone.go: the first
-- check that fails gives the error, with the index the message names. `none` is the nil error.
pub mod Accepts
use xboard_node_win.Common.{
  ℕ, suc, ℤ, pos, negsuc, ltb_ℤ, Text, bytes, beq_text, Bool, true, false, not, ◌&&◌, ◌||◌,
  if◌then◌else◌, is_empty, is_some, Option, none, some, List, [], ◌∷◌, map, ◌≡◌, refl, ◌↔◌, arith,
  fail_if, or_else, first_error, Keys, lookup, insert, int_key, text_key, Distinct, AllNew,
  AllNew-nil, AllNew-insert,
}
use xboard_node_win.Config.{
  NodeEntry, MachineConfig, KernelConfig, StandaloneUser, StandaloneConfig, StandaloneNodeConfig,
  Config, is_standalone, is_machine_mode,
}

-- The errors, without their texts.
pub data ConfigError : Type 0 where
  standalone_required : ConfigError
  standalone_nodes : ConfigError
  protocol_required : ConfigError
  server_port_range : ConfigError
  tls_range : ConfigError
  users_empty : ConfigError
  user_id_not_positive : ℕ → ConfigError
  user_uuid_required : ℕ → ConfigError
  user_id_duplicate : ℕ → ConfigError
  user_uuid_duplicate : ℕ → ConfigError
  url_required : ConfigError
  machine_token_required : ConfigError
  machine_nodes : ConfigError
  token_required : ConfigError
  node_id_not_positive : ConfigError
  entry_not_positive : ℕ → ConfigError
  kernel_unknown : Text → ConfigError
  domain_required : ConfigError
  push_negative : ConfigError
  pull_negative : ConfigError

-- `x <= 0`
abbrev pub not_positive : ℤ → Bool
not_positive x = not (ltb_ℤ (pos 0) x)

-- The loop over the users, from index `i`.
unfoldable pub validate_users : ℕ → Keys ℤ → Keys Text → List StandaloneUser → Option ConfigError
validate_users i ids uuids [] = none
validate_users i ids uuids (u ∷ users) =
    let rest = validate_users (suc i) (insert u.id tt ids) (insert u.uuid tt uuids) users in
    fail_if (not_positive u.id) (user_id_not_positive i) (
      fail_if (is_empty u.uuid) (user_uuid_required i) (
        fail_if (is_some (lookup u.id ids)) (user_id_duplicate i)
          (fail_if (is_some (lookup u.uuid uuids)) (user_uuid_duplicate i) rest)))

-- `validateStandalone`
unfoldable pub validate_standalone : Config → Option ConfigError
validate_standalone c = elim c.standalone [
  | none ↦ some standalone_required
  | some s ↦ fail_if (not (is_empty c.nodes)) standalone_nodes (
      fail_if (is_empty s.node.protocol) protocol_required (
        fail_if (not_positive s.node.server_port || ltb_ℤ (pos 65535) s.node.server_port)
          server_port_range
          (fail_if (ltb_ℤ s.node.tls (pos 0) || ltb_ℤ (pos 2) s.node.tls) tls_range
            (fail_if (is_empty s.users) users_empty (validate_users 0 [] [] s.users)))))
]

unfoldable pub validate_machine : Config → Text → Option ConfigError
validate_machine c token = fail_if (is_empty c.panel.url) url_required (
    fail_if (is_empty token) machine_token_required
      (fail_if (not (is_empty c.nodes)) machine_nodes none))

abbrev pub token_of : Option MachineConfig → Text
token_of none = []
token_of (some m) = m.token

abbrev pub entry_error : ℕ → NodeEntry → Option ConfigError
entry_error i n = fail_if (not_positive n.node_id) (entry_not_positive i) none

unfoldable pub validate_panel : Config → Option ConfigError
validate_panel c = fail_if (is_empty c.panel.url) url_required (
    fail_if (is_empty c.panel.token) token_required (
      fail_if (is_empty c.nodes && not_positive c.panel.node_id) node_id_not_positive
        (first_error entry_error 0 c.nodes)))

-- The checks by mode; the token of a machine is read in machine mode only.
unfoldable pub validate_mode : Config → Option ConfigError
validate_mode c =
    if is_standalone c
    then validate_standalone c
    else (if is_machine_mode c then validate_machine c (token_of c.machine) else validate_panel c)

abbrev pub is_kernel : Text → Bool
is_kernel t = beq_text t (bytes "singbox") || beq_text t (bytes "xray")

-- `Config.validate`
unfoldable pub validate : Config → Option ConfigError
validate c = or_else (validate_mode c) (
    fail_if (not (is_kernel c.kernel.kind)) (kernel_unknown c.kernel.kind) (
      fail_if (c.cert.auto_tls && is_empty c.cert.domain) domain_required (
        fail_if (ltb_ℤ c.node.push_interval (pos 0)) push_negative
          (fail_if (ltb_ℤ c.node.pull_interval (pos 0)) pull_negative none))))
