-- ===== src/Validation/Transport.antt =====
-- The kernel types and transports of internal/model/validate.go.
use xboard_node_win.Common.{
  beq_text_iff, ◌≢◌, ◌↔◌, ◌⊎◌, Text, bytes, beq_text, trim_space, to_lower, Bool, ◌&&◌, ◌||◌,
  if◌then◌else◌, Option, none, some, ◌≡◌, inl, inr, arith, Bool-cases,
}

-- `singboxUnsupportedTransports`
abbrev pub singbox_unsupported : Text → Bool
singbox_unsupported t = beq_text t (bytes "xhttp") || beq_text t (bytes "splithttp")

-- `strings.ToLower(strings.TrimSpace(s))`
abbrev pub normalized : Text → Text
normalized s = to_lower (trim_space s)

-- `validateTransportKernel`; the error is the normalized transport.
unfoldable pub validate_transport_kernel : Text → Text → Option Text
validate_transport_kernel network kernel_type =
    let net = normalized network in
    if beq_text kernel_type (bytes "singbox") && singbox_unsupported net then some net else none

-- `ResolveKernelForTransport`
unfoldable pub resolve_kernel_for_transport : Text → Text → Text
resolve_kernel_for_transport network configured =
    let net = normalized network in
    if beq_text configured (bytes "singbox") && singbox_unsupported net
    then bytes "xray"
    else configured

-- `normalizeKernelType`; `none` is the error.
unfoldable pub normalize_kernel_type : Text → Option Text
normalize_kernel_type value =
    let k = normalized value in
    if beq_text k (bytes "singbox") || beq_text k (bytes "sing-box")
    then some (bytes "singbox")
    else (if beq_text k (bytes "xray") then some (bytes "xray") else none)

-- The kernel that is resolved for a transport can carry it; it is the configured one if that can, and
-- else xray.
pub resolve_kernel_for_transport_lem :
    (network configured : Text)
    → (validate_transport_kernel network (resolve_kernel_for_transport network configured) ≡ none)
      × (resolve_kernel_for_transport network configured
          ≡ elim (validate_transport_kernel network configured) [
            | none ↦ configured
            | some t ↦ bytes "xray"
          ])
unfolding validate_transport_kernel resolve_kernel_for_transport
resolve_kernel_for_transport_lem network configured =
    elim (Bool-cases
      (beq_text configured (bytes "singbox") && singbox_unsupported (normalized network))) [
        | inl e ↦ ground (arith, e)
        | inr e ↦ ground (arith, e)
      ]

-- The kernel has the transport: sing-box lacks two.
abbrev pub Carries : Text → Text → Type 0
Carries network kernel =
    (kernel ≢ bytes "singbox")
    ⊎ ((normalized network ≢ bytes "xhttp") × (normalized network ≢ bytes "splithttp"))

refused_unless :
    (kernel named net x y t : Text)
    → ((if beq_text kernel named && (beq_text net x || beq_text net y) then some t else none)
        ≡ none)
      ↔ ((kernel ≢ named) ⊎ ((net ≢ x) × (net ≢ y)))
refused_unless kernel named net x y t =
    ground (arith, beq_text_iff kernel named, beq_text_iff net x, beq_text_iff net y)

pub validate_transport_kernel-Carries :
    (network kernel : Text)
    → (validate_transport_kernel network kernel ≡ none) ↔ Carries network kernel
unfolding validate_transport_kernel
validate_transport_kernel-Carries network kernel =
    refused_unless kernel (bytes "singbox") (normalized network) (bytes "xhttp") (bytes "splithttp")
      (normalized network)

-- What a type names, up to case and outer spaces.
abbrev pub Names : Text → Text → Type 0
Names t kernel =
    ((kernel ≡ bytes "singbox")
      × ((normalized t ≡ bytes "singbox") ⊎ (normalized t ≡ bytes "sing-box")))
    ⊎ ((kernel ≡ bytes "xray") × (normalized t ≡ bytes "xray"))

pub normalize_kernel_type-Names :
    (t kernel : Text) → normalize_kernel_type t ≡ some kernel → Names t kernel
unfolding normalize_kernel_type
normalize_kernel_type-Names t kernel h = ground (
  arith,
  h,
  beq_text_iff (normalized t) (bytes "singbox"),
  beq_text_iff (normalized t) (bytes "sing-box"),
  beq_text_iff (normalized t) (bytes "xray"),
)
