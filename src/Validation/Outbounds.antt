-- ===== src/Validation/Outbounds.antt =====
-- The checks of custom outbounds: internal/model/custom_outbound_validate.go and
-- custom_outbound_support.go.
pub mod Accepts
pub mod Settings
use xboard_node_win.Common.{
  ℕ, suc, ◌^◌, ◌/◌, ◌%◌, ◌+◌, ℤ, pos, negsuc, ltb_ℤ, Text, bytes, Dict, Keys, lookup, insert,
  text_key, beq_text, trim_space, to_lower, atoi, is_empty, from_option, is_some, in_list, ◌==◌,
  ltb, leb, Bool, true, false, not, ◌&&◌, ◌||◌, if◌then◌else◌, Option, none, some, List, [], ◌∷◌,
  Result, ok, error, fail_if, or_else, first_error,
}
use xboard_node_win.Model.Value.{
  Value, nil_value, bool, int, float, not_finite, string, array, object, AnyMap,
}
use xboard_node_win.Model.NodeSpec.{OutboundConfig}
use xboard_node_win.Validation.Transport.{normalized}

-- The errors of `asPort`.
pub data PortError : Type 0 where
  out_of_range : PortError
  not_integer : PortError

abbrev pub port_in_range : ℤ → Result PortError ℤ
port_in_range v = if ltb_ℤ v (pos 1) || ltb_ℤ (pos 65535) v then error out_of_range else ok v

-- A float64 is m / 2 ^ k: an integer if 2 ^ k divides m. One outside an int64 is not equal to what
-- it is converted to.
abbrev pub float_port : ℤ → ℕ → Result PortError ℤ
float_port (pos m) k =
    if (m % 2 ^ k == 0) && ltb (m / 2 ^ k) (2 ^ 63)
    then port_in_range (pos (m / 2 ^ k))
    else error not_integer
float_port (negsuc m) k =
    if ((m + 1) % 2 ^ k == 0) && leb ((m + 1) / 2 ^ k) (2 ^ 63)
    then error out_of_range
    else error not_integer

abbrev pub parsed_port : Option ℤ → Result PortError ℤ
parsed_port none = error not_integer
parsed_port (some v) = port_in_range v

-- `asPort`; the integer types of Go are one here.
unfoldable pub as_port : Value → Result PortError ℤ
as_port nil_value = error not_integer
as_port (bool b) = error not_integer
as_port (int v) = port_in_range v
as_port (float m k) = float_port m k
as_port not_finite = error not_integer
as_port (string s) = parsed_port (atoi (trim_space s))
as_port (array vs) = error not_integer
as_port (object es) = error not_integer

-- The errors, with the index of the outbound, and the field or name.
pub data OutboundError : Type 0 where
  kernel_unsupported : Text → OutboundError
  tag_required : ℕ → OutboundError
  protocol_required : ℕ → OutboundError
  protocol_unsupported : ℕ → Text → OutboundError
  settings_required : ℕ → OutboundError
  setting_reserved : ℕ → Text → OutboundError
  setting_blank : ℕ → Text → OutboundError
  setting_port : ℕ → Text → PortError → OutboundError
  tag_duplicate : ℕ → Text → OutboundError
  proxy_blank : ℕ → OutboundError
  proxy_self : ℕ → OutboundError
  proxy_unknown : ℕ → Text → OutboundError

-- Whether `fmt.Sprintf("%v", v)` is blank: only a blank string is.
abbrev pub prints_blank : Value → Bool
prints_blank nil_value = false
prints_blank (bool b) = false
prints_blank (int v) = false
prints_blank (float m k) = false
prints_blank not_finite = false
prints_blank (string s) = is_empty (trim_space s)
prints_blank (array vs) = false
prints_blank (object es) = false

abbrev pub blank_setting : Option Value → Bool
blank_setting none = false
blank_setting (some v) = prints_blank v

abbrev pub port_error : ℕ → Text → Option Value → Option OutboundError
port_error i field none = none
port_error i field (some v) = elim (as_port v) [
  | ok p ↦ none
  | error e ↦ some (setting_port i field e)
]

-- The names that an outbound's settings must not have, and those that must not be blank.
abbrev pub reserved_keys : List Text
reserved_keys = bytes "tag" ∷ bytes "protocol" ∷ bytes "proxy_tag" ∷ bytes "proxyTag" ∷ []

abbrev pub filled_fields : List Text
filled_fields =
    bytes "server"
    ∷ bytes "uuid"
    ∷ bytes "password"
    ∷ bytes "method"
    ∷ bytes "cipher"
    ∷ bytes "private_key"
    ∷ bytes "secret_key"
    ∷ bytes "privateKey"
    ∷ bytes "secretKey"
    ∷ []

unfoldable pub reserved_error : ℕ → Dict Text Value → List Text → Option OutboundError
reserved_error i s [] = none
reserved_error i s (k ∷ ks) =
    fail_if (is_some (lookup k s)) (setting_reserved i k) (reserved_error i s ks)

unfoldable pub blank_error : ℕ → Dict Text Value → List Text → Option OutboundError
blank_error i s [] = none
blank_error i s (k ∷ ks) =
    fail_if (blank_setting (lookup k s)) (setting_blank i k) (blank_error i s ks)

-- `validateOutboundSettings`
unfoldable pub validate_outbound_settings : ℕ → AnyMap → Option OutboundError
validate_outbound_settings i settings =
    let s = from_option [] settings in
    fail_if (is_empty s) (settings_required i) (
      or_else (reserved_error i s reserved_keys) (
        or_else (blank_error i s filled_fields) (
          or_else (port_error i (bytes "server_port") (lookup (bytes "server_port") s))
            (port_error i (bytes "serverPort") (lookup (bytes "serverPort") s)))))

-- The protocols of `OutboundSupportMatrix`, which are in lower case; `none` for another kernel.
unfoldable pub outbound_protocols : Text → Option (List Text)
outbound_protocols kernel =
    let common =
      bytes "vmess"
      ∷ bytes "vless"
      ∷ bytes "trojan"
      ∷ bytes "shadowsocks"
      ∷ bytes "socks"
      ∷ bytes "http"
      ∷ bytes "wireguard"
      ∷ [] in
    if beq_text kernel (bytes "xray")
    then some common
    else (if beq_text kernel (bytes "singbox")
        then some (
            bytes "vmess"
            ∷ bytes "vless"
            ∷ bytes "trojan"
            ∷ bytes "shadowsocks"
            ∷ bytes "socks"
            ∷ bytes "http"
            ∷ bytes "wireguard"
            ∷ bytes "tuic"
            ∷ bytes "hysteria2"
            ∷ bytes "anytls"
            ∷ bytes "naive"
            ∷ bytes "mieru"
            ∷ [])
        else none)

-- Whether a protocol is allowed; without a kernel (`none`) every one is.
abbrev pub allows : Option (List Text) → Text → Bool
allows none protocol = true
allows (some ps) protocol = in_list protocol ps

-- The first loop from index `i`, over the tags seen, which are also the tags made available.
unfoldable pub check_entries :
    Option (List Text) → ℕ → Keys Text → List OutboundConfig → Option OutboundError
check_entries allowed i seen [] = none
check_entries allowed i seen (o ∷ os) =
    let tag = trim_space o.tag in
    let protocol = normalized o.protocol in
    let rest = check_entries allowed (suc i) (insert (to_lower tag) tt seen) os in
    fail_if (is_empty tag) (tag_required i) (
      fail_if (is_empty protocol) (protocol_required i) (
        fail_if (not (allows allowed protocol)) (protocol_unsupported i o.protocol) (
          or_else (validate_outbound_settings i o.settings)
            (fail_if (is_some (lookup (to_lower tag) seen)) (tag_duplicate i tag) rest))))

-- The tags available once the first loop is over, without error.
abbrev pub tag_keys : List OutboundConfig → List Text
tag_keys [] = []
tag_keys (o ∷ os) = to_lower (trim_space o.tag) ∷ tag_keys os

unfoldable pub add_keys : Keys Text → List Text → Keys Text
add_keys m [] = m
add_keys m (k ∷ ks) = add_keys (if is_empty k then m else insert k tt m) ks

abbrev pub normalized_all : List Text → List Text
normalized_all [] = []
normalized_all (t ∷ ts) = normalized t ∷ normalized_all ts

-- `availableTags` at the second loop.
unfoldable pub available_tags : List Text → List OutboundConfig → Keys Text
available_tags additional outs =
    add_keys
      (add_keys (insert (bytes "block") tt (insert (bytes "direct") tt []))
        (normalized_all additional))
      (tag_keys outs)

-- The second loop: the proxy of one outbound.
unfoldable pub check_proxy : Keys Text → ℕ → OutboundConfig → Option OutboundError
check_proxy available i o =
    let proxy = normalized o.proxy_tag in
    if is_empty o.proxy_tag
    then none
    else fail_if (is_empty proxy) (proxy_blank i) (
        fail_if (beq_text proxy (normalized o.tag)) (proxy_self i)
          (fail_if (not (is_some (lookup proxy available))) (proxy_unknown i o.proxy_tag) none))

abbrev pub check_allowed :
    Option (List Text) → List Text → List OutboundConfig → Option OutboundError
check_allowed allowed additional outs =
    or_else (check_entries allowed 0 [] outs)
      (first_error (check_proxy (available_tags additional outs)) 0 outs)

-- `ValidateCustomOutboundsForKernel`
unfoldable pub validate_custom_outbounds :
    List OutboundConfig → Text → List Text → Option OutboundError
validate_custom_outbounds outs kernel_type additional =
    let kernel = normalized kernel_type in
    if is_empty outs
    then none
    else (if is_empty kernel
        then check_allowed none additional outs
        else elim (outbound_protocols kernel) [
          | none ↦ some (kernel_unsupported kernel)
          | some ps ↦ check_allowed (some ps) additional outs
        ])
