-- ===== src/Config/Env.antt =====
-- The environment over the configuration: `envFirst`, `applyEnvOverrides` and `resolveEnvRefs` of
-- internal/config/config.go. The environment is a function: an unset variable is the empty text.
use xboard_node_win.Common.{
  ℤ, pos, Text, bytes, true, not, ◌&&◌, if◌then◌else◌, is_empty, from_option, atoi, Option, none,
  some, List, [], ◌∷◌, ◌≡◌, refl,
}
use xboard_node_win.Config.{MachineConfig, Config}

module _ (getenv : Text → Text) where
  -- `envFirst`
  unfoldable pub env_first : List Text → Text
  env_first [] = []
  env_first (n ∷ names) = if is_empty (getenv n) then env_first names else getenv n

  -- `if v := envFirst(a, b); v != "" { c = v }`
  abbrev env_text : List Text → Text → Text
  env_text names c = let v = env_first names in if is_empty v then c else v

  -- The same for a number, kept if the text is none.
  abbrev env_int : List Text → ℤ → ℤ
  env_int names c = let v = env_first names in if is_empty v then c else from_option c (atoi v)

  -- `c.Machine`, made if it is nil.
  abbrev or_new : Option MachineConfig → MachineConfig
  or_new none = record { machine_id = pos 0; token = []; token_env = [] }
  or_new (some m) = m

  abbrev set_machine_id : Option ℤ → Option MachineConfig → Option MachineConfig
  set_machine_id none m = m
  set_machine_id (some id) m = some (record (or_new m) { machine_id = id })

  unfoldable pub env_machine : Option MachineConfig → Option MachineConfig
  env_machine m =
      let id = env_first (bytes "MACHINE_ID" ∷ []) in
      let token = env_first (bytes "MACHINE_TOKEN" ∷ []) in
      let m' = if is_empty id then m else set_machine_id (atoi id) m in
      if is_empty token then m' else some (record (or_new m') { token = token })

  -- `Config.applyEnvOverrides`
  unfoldable pub apply_env_overrides : Config → Config
  apply_env_overrides c =
      let domain = bytes "domain" ∷ bytes "DOMAIN" ∷ [] in
      record c {
        panel = record c.panel {
          url = env_text (bytes "apiHost" ∷ bytes "API_HOST" ∷ []) c.panel.url;
          token = env_text (bytes "apiKey" ∷ bytes "API_KEY" ∷ []) c.panel.token;
          node_id = env_int (bytes "nodeID" ∷ bytes "NODE_ID" ∷ []) c.panel.node_id;
          node_type = env_text (bytes "nodeType" ∷ bytes "NODE_TYPE" ∷ []) c.panel.node_type;
        };
        kernel = record c.kernel {
          kind = env_text (bytes "kernel" ∷ bytes "KERNEL_TYPE" ∷ []) c.kernel.kind;
        };
        cert = record c.cert {
          cert_file = env_text (bytes "certFile" ∷ bytes "CERT_FILE" ∷ []) c.cert.cert_file;
          key_file = env_text (bytes "keyFile" ∷ bytes "KEY_FILE" ∷ []) c.cert.key_file;
          domain = env_text domain c.cert.domain;
          auto_tls = if is_empty (env_first domain) then c.cert.auto_tls else true;
        };
        log = record c.log {
          level = env_text (bytes "logLevel" ∷ bytes "LOG_LEVEL" ∷ []) c.log.level;
        };
        machine = env_machine c.machine;
      }

  abbrev resolve_token : Text → Text → Text
  resolve_token token env = if is_empty token && not (is_empty env) then getenv env else token

  abbrev resolve_machine : Option MachineConfig → Option MachineConfig
  resolve_machine none = none
  resolve_machine (some m) = some (record m { token = resolve_token m.token m.token_env })

  -- `Config.resolveEnvRefs`
  unfoldable pub resolve_env_refs : Config → Config
  resolve_env_refs c = record c {
    panel = record c.panel { token = resolve_token c.panel.token c.panel.token_env };
    machine = resolve_machine c.machine;
  }

-- The first name with a value wins, and no name is read after it.
env_first_none :
    (getenv : Text → Text) (names : List Text)
    → ((n : Text) → getenv n ≡ [])
    → env_first getenv names ≡ []
unfolding env_first
env_first_none getenv [] h = refl
env_first_none getenv (n ∷ names) h = rw (h n) (env_first_none getenv names h)

-- In an environment without variables the configuration stays as the file has it.
pub apply_env_overrides_unset :
    (getenv : Text → Text) (c : Config)
    → ((n : Text) → getenv n ≡ [])
    → apply_env_overrides getenv c ≡ c
unfolding apply_env_overrides env_machine
apply_env_overrides_unset getenv c h =
    let none_set : (names : List Text) → env_first getenv names ≡ [] =
      λ names. env_first_none getenv names h in
    simp none_set
