-- ===== src/Config/Inherit/AutoTls.antt =====
-- The switch `auto_tls` in `inheritFrom` of internal/config/config.go.
use xboard_node_win.Common.{
  Text, Bool, true, false, not, ◌&&◌, ◌||◌, if◌then◌else◌, is_empty, [], ◌≡◌, refl, ◌∷◌,
}
use xboard_node_win.Model.NodeSpec
use xboard_node_win.Config.{Config}
use xboard_node_win.Config.Inherit.{
  or_text, has_cert_config, inherit_cert_fields, inherit_auto_tls, inherit_cert, inherit_from,
}

-- What the switch becomes.
abbrev pub switched : Bool → NodeSpec.CertConfig → NodeSpec.CertConfig → Bool
switched has c p = c.auto_tls || (p.auto_tls && not has)

pub inherit_auto_tls_lem :
    (c p : NodeSpec.CertConfig)
    → inherit_auto_tls c p ≡ record c { auto_tls = switched (has_cert_config c) c p }
unfolding inherit_auto_tls
inherit_auto_tls_lem c p = by_cases (has_cert_config c) c.auto_tls p.auto_tls c
  where
    by_cases :
        (has ca pa : Bool) (c : NodeSpec.CertConfig)
        → (if not has && not ca && pa
            then record c { auto_tls = pa }
            else record c { auto_tls = ca })
          ≡ record c { auto_tls = ca || (pa && not has) }
    by_cases true true pa c = refl
    by_cases true false true c = refl
    by_cases true false false c = refl
    by_cases false true pa c = refl
    by_cases false false true c = refl
    by_cases false false false c = refl

or_blank : (a b : Text) → not (is_empty (or_text a b)) ≡ not (is_empty a) || not (is_empty b)
or_blank [] b = refl
or_blank (x ∷ a) b = refl

or_swap : (a b c d e f : Bool) → (a || b) || (c || d) || (e || f) ≡ (a || c || e) || (b || d || f)
or_swap true b c d e f = refl
or_swap false true true d e f = refl
or_swap false true false d true f = refl
or_swap false true false d false f = refl
or_swap false false true d e f = refl
or_swap false false false true true f = refl
or_swap false false false true false f = refl
or_swap false false false false e f = refl

has_cert_config-inherit :
    (c p : NodeSpec.CertConfig)
    → has_cert_config (inherit_cert_fields c p) ≡ has_cert_config c || has_cert_config p
unfolding has_cert_config inherit_cert_fields
has_cert_config-inherit c p =
    rw
      (
        or_blank c.cert_mode p.cert_mode,
        or_blank c.cert_file p.cert_file,
        or_blank c.cert_content p.cert_content,
      )
      (or_swap (not (is_empty c.cert_mode)) (not (is_empty p.cert_mode))
        (not (is_empty c.cert_file)) (not (is_empty p.cert_file)) (not (is_empty c.cert_content))
        (not (is_empty p.cert_content)))

-- A child's `auto_tls` after inheriting is its own, or else the parent's if neither the child nor
-- the parent names a cert_mode, cert_file or cert_content.
pub inherit_from-auto_tls :
    (c parent : Config)
    → (inherit_from c parent).cert.auto_tls
      ≡ c.cert.auto_tls
        || (parent.cert.auto_tls && not (has_cert_config c.cert || has_cert_config parent.cert))
unfolding inherit_from inherit_cert inherit_cert_fields
inherit_from-auto_tls c parent =
    rw
      (
        inherit_auto_tls_lem (inherit_cert_fields c.cert parent.cert) parent.cert,
        has_cert_config-inherit c.cert parent.cert,
      )
      refl
