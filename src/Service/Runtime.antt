-- ===== src/Service/Runtime.antt =====
-- `validateNodeRuntime` of internal/service/service.go: what a node needs before the kernel is given it. The
-- registry of DNS providers answers `known_provider`; `has_cert` says whether there is a certificate.
pub mod Accepts
use xboard_node_win.Common.{
  inl, inr, ℤ, pos, beq_ℤ, beq_ℤ_iff, Text, bytes, beq_text, beq_text_iff, Dict, lookup, text_key,
  trim_space, to_lower, is_empty, in_list, Bool, true, false, not, ◌&&◌, ◌||◌, if◌then◌else◌,
  Option, none, some, List, [], ◌∷◌, fail_if, or_else, ◌≡◌, ◌≢◌, ◌↔◌, ◌⊎◌, refl, arith,
}
use xboard_node_win.Model.Value.{
  Value, nil_value, bool, int, float, not_finite, string, array, object, AnyMap,
}
use xboard_node_win.Model.NodeSpec.{NodeSpec, CertConfig}

-- The errors.
pub data RuntimeError : Type 0 where
  spec_nil : RuntimeError
  protocol_unsupported : Text → RuntimeError
  certificate_required : Text → RuntimeError
  settings_required : RuntimeError
  private_key_required : RuntimeError
  name_required : RuntimeError
  provider_required : RuntimeError
  provider_unknown : Text → RuntimeError

-- `stringValue`
abbrev pub string_value : Option Value → Text
string_value none = []
string_value (some nil_value) = []
string_value (some (bool b)) = []
string_value (some (int n)) = []
string_value (some (float m k)) = []
string_value (some not_finite) = []
string_value (some (string s)) = s
string_value (some (array vs)) = []
string_value (some (object es)) = []

-- The trimmed text of a setting.
abbrev pub setting : Text → Dict Text Value → Text
setting name settings = trim_space (string_value (lookup name settings))

-- `validateRealityRequirements`
unfoldable pub validate_reality : AnyMap → Option RuntimeError
validate_reality none = some settings_required
validate_reality (some s) =
    fail_if (is_empty (setting (bytes "private_key") s)) private_key_required (
      fail_if (is_empty (setting (bytes "server_name") s) && is_empty (setting (bytes "dest") s))
        name_required none)

abbrev pub filled : Text → Bool
filled s = not (is_empty (trim_space s))

-- The switch over the certificate mode.
unfoldable pub usable_mode : CertConfig → Bool
usable_mode c =
    let mode = to_lower (trim_space c.cert_mode) in
    if beq_text mode (bytes "self")
    then true
    else (if beq_text mode (bytes "content")
        then filled c.cert_content && filled c.key_content
        else (if beq_text mode (bytes "file")
            then filled c.cert_file && filled c.key_file
            else (if beq_text mode (bytes "http")
                then filled c.domain
                else (if beq_text mode (bytes "dns")
                    then filled c.domain && filled c.dns_provider
                    else false))))

-- `hasUsableTLSConfig`
unfoldable pub has_usable_tls : Bool → Option CertConfig → Bool
has_usable_tls has_cert none = has_cert
has_usable_tls has_cert (some c) = has_cert || usable_mode c

-- Whether the protocol needs a certificate.
unfoldable pub needs_cert : Text → ℤ → Bool
needs_cert protocol tls =
    if in_list protocol (bytes "hysteria" ∷ bytes "hysteria2" ∷ bytes "tuic" ∷ bytes "anytls" ∷ [])
    then true
    else (if beq_text protocol (bytes "trojan") then not (beq_ℤ tls (pos 2)) else false)

-- `validateTLSRequirements`
unfoldable pub validate_tls : Bool → NodeSpec → Option RuntimeError
validate_tls has_cert n =
    fail_if (needs_cert n.protocol n.tls && not (has_usable_tls has_cert n.cert_config))
      (certificate_required n.protocol)
      (if beq_ℤ n.tls (pos 2) then validate_reality n.tls_settings else none)

module _ (known_provider : Text → Bool) where
  -- `validateRuntimeCertConfig`
  unfoldable pub validate_cert_config : Option CertConfig → Option RuntimeError
  validate_cert_config none = none
  validate_cert_config (some c) =
      let provider = trim_space c.dns_provider in
      if beq_text (to_lower (trim_space c.cert_mode)) (bytes "dns")
      then fail_if (is_empty provider) provider_required
          (fail_if (not (known_provider provider)) (provider_unknown provider) none)
      else none

  -- `validateNodeRuntime`, with the protocols of the kernel.
  unfoldable pub validate_node_runtime : List Text → Bool → Option NodeSpec → Option RuntimeError
  validate_node_runtime protocols has_cert none = some spec_nil
  validate_node_runtime protocols has_cert (some n) =
      fail_if (not (in_list n.protocol protocols)) (protocol_unsupported n.protocol)
        (or_else (validate_tls has_cert n) (validate_cert_config n.cert_config))
