-- ===== src/Service/Runtime/Accepts.antt =====
-- The nodes that `validateNodeRuntime` of internal/service/service.go lets run.
use xboard_node_win.Common.{
  inl, inr, ℤ, pos, beq_ℤ, beq_ℤ_iff, Text, bytes, beq_text, beq_text_iff, text_key, trim_space,
  to_lower, is_empty, in_list, Bool, true, false, not, ◌&&◌, ◌||◌, if◌then◌else◌, Option, none,
  some, List, [], ◌∷◌, ◌≡◌, ◌≢◌, ◌↔◌, ◌⊎◌, refl, arith,
}
use xboard_node_win.Model.Value.{AnyMap}
use xboard_node_win.Model.NodeSpec.{NodeSpec, CertConfig}
use xboard_node_win.Service.Runtime.{
  setting, filled, usable_mode, has_usable_tls, needs_cert, validate_reality, validate_tls,
  validate_cert_config, validate_node_runtime,
}

-- Reality settings with a key, and a name or a destination.
abbrev pub RealityOk : AnyMap → Type 0
RealityOk none = ⊥
RealityOk (some s) =
    (is_empty (setting (bytes "private_key") s) ≡ false)
    × ((is_empty (setting (bytes "server_name") s) ≡ false)
        ⊎ (is_empty (setting (bytes "dest") s) ≡ false))

reality_lem : (m : AnyMap) → (validate_reality m ≡ none) ↔ RealityOk m
unfolding validate_reality
reality_lem none = ground arith
reality_lem (some s) = ground arith

-- The provider of a certificate in mode dns is known.
abbrev pub ProviderOk : (Text → Bool) → Option CertConfig → Type 0
ProviderOk known none = Unit
ProviderOk known (some c) =
    (to_lower (trim_space c.cert_mode) ≢ bytes "dns")
    ⊎ ((is_empty (trim_space c.dns_provider) ≡ false) × (known (trim_space c.dns_provider) ≡ true))

provider_lem :
    (known : Text → Bool) (o : Option CertConfig)
    → (validate_cert_config known o ≡ none) ↔ ProviderOk known o
unfolding validate_cert_config
provider_lem known none = ((λ h. tt), (λ h. refl))
provider_lem known (some c) =
    ground (arith, beq_text_iff (to_lower (trim_space c.cert_mode)) (bytes "dns"))

sum_map : {A B C D : Type 0} → (A → C) → (B → D) → A ⊎ B → C ⊎ D
sum_map f g (inl a) = inl (f a)
sum_map f g (inr b) = inr (g b)

either_true : {A : Type 0} (a b : Bool) → (b ≡ true) ↔ A → ((a || b) ≡ true) ↔ ((a ≡ true) ⊎ A)
either_true true b f = ((λ h. inl refl), λ h. refl)
either_true false b f = ((λ h. inr (f.0 h)), λ h. elim h [ inl e ↦ absurd cc | inr x ↦ f.1 x ])

needed_for :
    (protocol a b c d e : Text) (tls : ℤ)
    → ((if in_list protocol (a ∷ b ∷ c ∷ d ∷ [])
          then true
          else (if beq_text protocol e then not (beq_ℤ tls (pos 2)) else false))
        ≡ false)
      ↔ ((protocol ≢ a)
          × ((protocol ≢ b)
              × ((protocol ≢ c) × ((protocol ≢ d) × ((protocol ≢ e) ⊎ (tls ≡ pos 2))))))
needed_for protocol a b c d e tls = ground (
  arith,
  beq_text_iff a protocol,
  beq_text_iff b protocol,
  beq_text_iff c protocol,
  beq_text_iff d protocol,
  beq_text_iff protocol e,
  beq_ℤ_iff tls (pos 2),
)

-- The protocol does without a certificate: all but four, and but trojan where TLS is not reality.
abbrev pub CertFree : Text → ℤ → Type 0
CertFree protocol tls =
    (protocol ≢ bytes "hysteria")
    × ((protocol ≢ bytes "hysteria2")
        × ((protocol ≢ bytes "tuic")
            × ((protocol ≢ bytes "anytls") × ((protocol ≢ bytes "trojan") ⊎ (tls ≡ pos 2)))))

needs_cert_lem :
    (protocol : Text) (tls : ℤ) → (needs_cert protocol tls ≡ false) ↔ CertFree protocol tls
unfolding needs_cert
needs_cert_lem protocol tls =
    needed_for protocol (bytes "hysteria") (bytes "hysteria2") (bytes "tuic") (bytes "anytls")
      (bytes "trojan") tls

-- A text that is not blank.
abbrev pub Filled : Text → Type 0
Filled s = is_empty (trim_space s) ≡ false

-- What each mode of a certificate needs, and no other mode is usable.
abbrev pub CertOk : CertConfig → Type 0
CertOk c =
    let mode = to_lower (trim_space c.cert_mode) in
    (mode ≡ bytes "self")
    ⊎ (((mode ≡ bytes "content") × (Filled c.cert_content × Filled c.key_content))
        ⊎ (((mode ≡ bytes "file") × (Filled c.cert_file × Filled c.key_file))
            ⊎ (((mode ≡ bytes "http") × Filled c.domain)
                ⊎ ((mode ≡ bytes "dns") × (Filled c.domain × Filled c.dns_provider)))))

modes :
    (m a b c d e : Text) (p q r s : Bool)
    → (if beq_text m a
        then true
        else (if beq_text m b
            then p
            else (if beq_text m c
                then q
                else (if beq_text m d then r else (if beq_text m e then s else false)))))
      ≡ true
    → (m ≡ a)
      ⊎ (((m ≡ b) × (p ≡ true))
          ⊎ (((m ≡ c) × (q ≡ true)) ⊎ (((m ≡ d) × (r ≡ true)) ⊎ ((m ≡ e) × (s ≡ true)))))
modes m a b c d e p q r s h = ground (
  arith,
  h,
  beq_text_iff m a,
  beq_text_iff m b,
  beq_text_iff m c,
  beq_text_iff m d,
  beq_text_iff m e,
)

filled_lem : (s : Text) → (filled s ≡ true) → Filled s
filled_lem s h = ground (arith, h)

both_filled : (s t : Text) → (filled s && filled t) ≡ true → Filled s × Filled t
both_filled s t h = ground (arith, h)

fills : (s t : Text) → Filled s → Filled t → (filled s && filled t) ≡ true
fills s t h k = ground (arith, h, k)

usable_mode-CertOk : (c : CertConfig) → usable_mode c ≡ true → CertOk c
unfolding usable_mode
usable_mode-CertOk c h =
    elim (modes (to_lower (trim_space c.cert_mode)) (bytes "self") (bytes "content") (bytes "file")
      (bytes "http") (bytes "dns") (filled c.cert_content && filled c.key_content)
      (filled c.cert_file && filled c.key_file) (filled c.domain)
      (filled c.domain && filled c.dns_provider) h) [
        | inl e ↦ inl e
        | inr (inl (e, f)) ↦ inr (inl (e, both_filled c.cert_content c.key_content f))
        | inr (inr (inl (e, f))) ↦ inr (inr (inl (e, both_filled c.cert_file c.key_file f)))
        | inr (inr (inr (inl (e, f)))) ↦ inr (inr (inr (inl (e, filled_lem c.domain f))))
        | inr (inr (inr (inr (e, f)))) ↦
            inr (inr (inr (inr (e, both_filled c.domain c.dns_provider f))))
      ]

CertOk-usable_mode : (c : CertConfig) → CertOk c → usable_mode c ≡ true
unfolding usable_mode
CertOk-usable_mode c (inl e) = rw (e, usable_mode) refl
CertOk-usable_mode c (inr (inl (e, (f, g)))) =
    rw (e, usable_mode) (fills c.cert_content c.key_content f g)
CertOk-usable_mode c (inr (inr (inl (e, (f, g))))) =
    rw (e, usable_mode) (fills c.cert_file c.key_file f g)
CertOk-usable_mode c (inr (inr (inr (inl (e, f))))) = rw (e, usable_mode) (ground (arith, f))
CertOk-usable_mode c (inr (inr (inr (inr (e, (f, g)))))) =
    rw (e, usable_mode) (fills c.domain c.dns_provider f g)

-- A certificate that is there, or a configuration that gives one.
abbrev pub HasCert : Bool → Option CertConfig → Type 0
HasCert has_cert none = has_cert ≡ true
HasCert has_cert (some c) = (has_cert ≡ true) ⊎ CertOk c

has_usable_tls_lem :
    (has_cert : Bool) (o : Option CertConfig)
    → (has_usable_tls has_cert o ≡ true) ↔ HasCert has_cert o
unfolding has_usable_tls
has_usable_tls_lem has_cert none = ((λ h. h), λ h. h)
has_usable_tls_lem has_cert (some c) =
    either_true has_cert (usable_mode c) (usable_mode-CertOk c, CertOk-usable_mode c)

-- What a node that may run is like.
abbrev pub RuntimeOk : (Text → Bool) → List Text → Bool → NodeSpec → Type 0
RuntimeOk known protocols has_cert n =
    (in_list n.protocol protocols ≡ true)
    × ((CertFree n.protocol n.tls ⊎ HasCert has_cert n.cert_config)
        × (((n.tls ≢ pos 2) ⊎ RealityOk n.tls_settings) × ProviderOk known n.cert_config))

-- The same with the tests of the code.
TestedOk : (Text → Bool) → List Text → Bool → NodeSpec → Type 0
TestedOk known protocols has_cert n =
    (in_list n.protocol protocols ≡ true)
    × (((needs_cert n.protocol n.tls ≡ false) ⊎ (has_usable_tls has_cert n.cert_config ≡ true))
        × (((n.tls ≢ pos 2) ⊎ RealityOk n.tls_settings) × ProviderOk known n.cert_config))

tested_lem :
    (known : Text → Bool) (protocols : List Text) (has_cert : Bool) (n : NodeSpec)
    → (validate_node_runtime known protocols has_cert (some n) ≡ none)
      ↔ TestedOk known protocols has_cert n
unfolding validate_node_runtime validate_tls TestedOk
tested_lem known protocols has_cert n =
    ground
      (arith, reality_lem n.tls_settings, provider_lem known n.cert_config, beq_ℤ_iff n.tls (pos 2))

-- The node may run exactly if the kernel has its protocol; it needs no certificate (hysteria,
-- hysteria2, tuic and anytls need one, and so does trojan unless TLS is 2), has one, or has a
-- configuration for one: mode self, content or file with both texts, http with a domain, or dns with a
-- domain and a provider; its reality settings are complete where TLS is 2; and its DNS provider is
-- known where the certificate's mode is dns.
pub validate_node_runtime_lem :
    (known : Text → Bool) (protocols : List Text) (has_cert : Bool) (n : NodeSpec)
    → (validate_node_runtime known protocols has_cert (some n) ≡ none)
      ↔ RuntimeOk known protocols has_cert n
unfolding TestedOk
validate_node_runtime_lem known protocols has_cert n =
    let t = tested_lem known protocols has_cert n in
    let free = needs_cert_lem n.protocol n.tls in
    let usable = has_usable_tls_lem has_cert n.cert_config in
    (
      λ h. let p = t.0 h in (p.0, (sum_map free.0 usable.0 p.1.0, p.1.1)),
      λ h. t.1 (h.0, (sum_map free.1 usable.1 h.1.0, h.1.1)),
    )
