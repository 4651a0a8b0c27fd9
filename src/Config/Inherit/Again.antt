-- ===== src/Config/Inherit/Again.antt =====
-- `inheritFrom` of internal/config/config.go, applied twice.
use xboard_node_win.Common.{
  ℤ, Text, Bool, true, false, not, ◌&&◌, ◌||◌, [], ◌≡◌, refl, ap, arith, none, some, ◌∷◌,
}
use xboard_node_win.Model.NodeSpec
use xboard_node_win.Model.Value.{Slice}
use xboard_node_win.Config.{LogConfig, NodeConfig, WsConfig, RuntimeConfig, KernelConfig, Config}
use xboard_node_win.Config.Inherit.{
  or_text, or_int, or_slice, inherit_log, inherit_node, inherit_ws, inherit_runtime, inherit_kernel,
  has_cert_config, inherit_cert_fields, inherit_auto_tls, inherit_cert, inherit_from,
}
use xboard_node_win.Config.Inherit.AutoTls.{switched, inherit_auto_tls_lem}

pub or_text_again : (c p : Text) → or_text (or_text c p) p ≡ or_text c p
or_text_again [] p = ground arith
or_text_again (x ∷ c) p = refl

pub or_int_again : (c p : ℤ) → or_int (or_int c p) p ≡ or_int c p
or_int_again c p = ground arith

pub or_slice_again : {A : Type 0} (c p : Slice A) → or_slice (or_slice c p) p ≡ or_slice c p
or_slice_again none none = refl
or_slice_again none (some p) = ground arith
or_slice_again (some []) none = refl
or_slice_again (some []) (some p) = ground arith
or_slice_again (some (x ∷ c)) p = refl

pub ruleset again = (or_text_again, or_int_again, or_slice_again)

inherit_log_again : (c p : LogConfig) → inherit_log (inherit_log c p) p ≡ inherit_log c p
unfolding inherit_log
inherit_log_again c p = simp again

inherit_node_again : (c p : NodeConfig) → inherit_node (inherit_node c p) p ≡ inherit_node c p
unfolding inherit_node
inherit_node_again c p = simp again

inherit_ws_again : (c p : WsConfig) → inherit_ws (inherit_ws c p) p ≡ inherit_ws c p
unfolding inherit_ws
inherit_ws_again c p = simp again

inherit_runtime_again :
    (c p : RuntimeConfig) → inherit_runtime (inherit_runtime c p) p ≡ inherit_runtime c p
unfolding inherit_runtime
inherit_runtime_again c p = simp again

inherit_kernel_again :
    (c p : KernelConfig) → inherit_kernel (inherit_kernel c p) p ≡ inherit_kernel c p
unfolding inherit_kernel
inherit_kernel_again c p = simp again

inherit_cert_fields_again :
    (c p : NodeSpec.CertConfig)
    → inherit_cert_fields (inherit_cert_fields c p) p ≡ inherit_cert_fields c p
unfolding inherit_cert_fields
inherit_cert_fields_again c p = simp again

or_absorbs : (a b has : Bool) → (a || (b && not has)) || (b && not has) ≡ a || (b && not has)
or_absorbs true b has = refl
or_absorbs false true true = refl
or_absorbs false true false = refl
or_absorbs false false has = refl

inherit_auto_tls_again :
    (c p : NodeSpec.CertConfig) → inherit_auto_tls (inherit_auto_tls c p) p ≡ inherit_auto_tls c p
unfolding has_cert_config
inherit_auto_tls_again c p =
    rw
      (
        inherit_auto_tls_lem c p,
        inherit_auto_tls_lem (record c { auto_tls = switched (has_cert_config c) c p }) p,
      )
      (ap (λ b. record c { auto_tls = b }) (or_absorbs c.auto_tls p.auto_tls (has_cert_config c)))

inherit_cert_fields-inherit_auto_tls :
    (c p : NodeSpec.CertConfig)
    → inherit_cert_fields c p ≡ c
    → inherit_cert_fields (inherit_auto_tls c p) p ≡ inherit_auto_tls c p
unfolding inherit_cert_fields
inherit_cert_fields-inherit_auto_tls c p h =
    rw (inherit_auto_tls_lem c p) (
      ap {A = NodeSpec.CertConfig} (λ d. record d { auto_tls = switched (has_cert_config c) c p })
        h)

inherit_cert_again :
    (c p : NodeSpec.CertConfig) → inherit_cert (inherit_cert c p) p ≡ inherit_cert c p
unfolding inherit_cert
inherit_cert_again c p =
    let d = inherit_cert_fields c p in
    rw (inherit_cert_fields-inherit_auto_tls d p (inherit_cert_fields_again c p))
      (inherit_auto_tls_again d p)

-- Inheriting from the same parent again changes nothing.
pub inherit_from_again :
    (c parent : Config) → inherit_from (inherit_from c parent) parent ≡ inherit_from c parent
unfolding inherit_from
inherit_from_again c p = simp (
  inherit_log_again, inherit_node_again, inherit_ws_again, inherit_runtime_again,
  inherit_kernel_again, inherit_cert_again,
)
