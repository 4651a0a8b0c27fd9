-- ===== src/Validation/Outbounds/Accepts.antt =====
-- What the accepted custom outbounds of internal/model/custom_outbound_validate.go are like.
use xboard_node_win.Common.{
  ℕ, suc, Text, bytes, Keys, lookup, insert, lookup-insert, text_key, beq_text_iff, trim_space,
  to_lower, is_empty, is_some, in_list, Distinct, AllNew, AllNew-insert, Bool, true, false, ◌||◌,
  if◌then◌else◌, Option, none, some, List, [], ◌∷◌, first_error, ◌≡◌, ◌≢◌, refl, ◌⊎◌, inl, inr, ◌↔◌,
  arith,
}
use xboard_node_win.Model.NodeSpec.{OutboundConfig}
use xboard_node_win.Validation.Transport.{normalized}
use xboard_node_win.Validation.Outbounds.{
  kernel_unsupported, outbound_protocols, allows, check_entries, tag_keys, add_keys, normalized_all,
  available_tags, check_proxy, check_allowed, validate_custom_outbounds,
}
use xboard_node_win.Validation.Outbounds.Settings.{SettingsOk, settings_lem}

-- Each outbound has a tag, an allowed protocol and sound settings.
abbrev pub AllSound : Option (List Text) → ℕ → List OutboundConfig → Type 0
AllSound allowed i [] = Unit
AllSound allowed i (o ∷ os) =
    ((is_empty (trim_space o.tag) ≡ false)
      × ((is_empty (normalized o.protocol) ≡ false)
          × ((allows allowed (normalized o.protocol) ≡ true) × SettingsOk o.settings)))
    × AllSound allowed (suc i) os

check_entries_lem :
    (allowed : Option (List Text)) (i : ℕ) (seen : Keys Text) (os : List OutboundConfig)
    → (check_entries allowed i seen os ≡ none)
      ↔ (AllSound allowed i os × (AllNew seen (tag_keys os) × Distinct (tag_keys os)))
unfolding check_entries
check_entries_lem allowed i seen [] = ((λ h. (tt, (tt, tt))), (λ h. refl))
check_entries_lem allowed i seen (o ∷ os) = ground (
  arith,
  check_entries_lem allowed (suc i) (insert (to_lower (trim_space o.tag)) tt seen) os,
  AllNew-insert (to_lower (trim_space o.tag)) tt seen (tag_keys os),
  settings_lem i o.settings,
)

lookup-add_keys :
    (k : Text) (m : Keys Text) (ks : List Text)
    → is_empty k ≡ false
    → is_some (lookup k (add_keys m ks)) ≡ is_some (lookup k m) || in_list k ks
unfolding add_keys
lookup-add_keys k m [] h = ground arith
lookup-add_keys k m (j ∷ ks) h = ground (
  arith,
  lookup-add_keys k m ks h,
  lookup-add_keys k (insert j tt m) ks h,
  lookup-insert k j tt m,
  beq_text_iff j k,
)

-- The proxy of an outbound is none, or a tag other than its own that is built in, additional, or
-- the tag of an outbound of the list.
abbrev pub ProxyOk : List Text → List OutboundConfig → OutboundConfig → Type 0
ProxyOk additional outs o =
    (is_empty o.proxy_tag ≡ true)
    ⊎ ((normalized o.proxy_tag ≢ normalized o.tag)
        × ((normalized o.proxy_tag ≡ bytes "direct")
            ⊎ ((normalized o.proxy_tag ≡ bytes "block")
                ⊎ ((in_list (normalized o.proxy_tag) (normalized_all additional) ≡ true)
                    ⊎ (in_list (normalized o.proxy_tag) (tag_keys outs) ≡ true)))))

abbrev pub AllProxiesOk : List Text → List OutboundConfig → List OutboundConfig → Type 0
AllProxiesOk additional outs [] = Unit
AllProxiesOk additional outs (o ∷ os) = ProxyOk additional outs o × AllProxiesOk additional outs os

abbrev built_in : Keys Text
built_in = insert (bytes "block") tt (insert (bytes "direct") tt [])

lookup-built_in :
    (k : Text) → is_some (lookup k built_in) ≡ true → (k ≡ bytes "direct") ⊎ (k ≡ bytes "block")
unfolding lookup insert
lookup-built_in k h =
    ground (arith, h, beq_text_iff (bytes "block") k, beq_text_iff (bytes "direct") k)

lookup-available :
    (additional : List Text) (outs : List OutboundConfig) (k : Text)
    → is_empty k ≡ false
    → is_some (lookup k (available_tags additional outs)) ≡ true
    → (k ≡ bytes "direct")
      ⊎ ((k ≡ bytes "block")
          ⊎ ((in_list k (normalized_all additional) ≡ true) ⊎ (in_list k (tag_keys outs) ≡ true)))
unfolding available_tags
lookup-available additional outs k e h = ground (
  arith,
  h,
  lookup-add_keys k (add_keys built_in (normalized_all additional)) (tag_keys outs) e,
  lookup-add_keys k built_in (normalized_all additional) e,
  lookup-built_in k,
)

check_proxy-ProxyOk :
    (additional : List Text) (outs : List OutboundConfig) (i : ℕ) (o : OutboundConfig)
    → check_proxy (available_tags additional outs) i o ≡ none
    → ProxyOk additional outs o
unfolding check_proxy
check_proxy-ProxyOk additional outs i o h = ground (
  arith,
  h,
  lookup-available additional outs (normalized o.proxy_tag),
  beq_text_iff (normalized o.proxy_tag) (normalized o.tag),
)

proxies-AllProxiesOk :
    (additional : List Text) (outs os : List OutboundConfig) (i : ℕ)
    → first_error (check_proxy (available_tags additional outs)) i os ≡ none
    → AllProxiesOk additional outs os
unfolding first_error
proxies-AllProxiesOk additional outs [] i h = tt
proxies-AllProxiesOk additional outs (o ∷ os) i h = ground (
  arith,
  check_proxy-ProxyOk additional outs i o,
  proxies-AllProxiesOk additional outs os (suc i),
)

-- What a list of accepted outbounds is like.
abbrev pub OutboundsOk : Option (List Text) → List Text → List OutboundConfig → Type 0
OutboundsOk allowed additional outs =
    AllSound allowed 0 outs × (Distinct (tag_keys outs) × AllProxiesOk additional outs outs)

check_allowed-OutboundsOk :
    (allowed : Option (List Text)) (additional : List Text) (outs : List OutboundConfig)
    → check_allowed allowed additional outs ≡ none
    → OutboundsOk allowed additional outs
check_allowed-OutboundsOk allowed additional outs h =
    ground
      (arith, h, check_entries_lem allowed 0 [] outs, proxies-AllProxiesOk additional outs outs 0)

-- The protocols that a kernel type allows; `none` allows all, and an unknown kernel no outbound.
abbrev pub AcceptedBy : Text → List Text → List OutboundConfig → Type 0
AcceptedBy kernel additional [] = Unit
AcceptedBy kernel additional (o ∷ os) =
    ((is_empty kernel ≡ true) × OutboundsOk none additional (o ∷ os))
    ⊎ ((ps : List Text) × ((outbound_protocols kernel ≡ some ps)
          × OutboundsOk (some ps) additional (o ∷ os)))

by_kernel :
    (kernel : Text) (additional : List Text) (o : OutboundConfig) (os : List OutboundConfig)
    (r : Option (List Text))
    → outbound_protocols kernel ≡ r
    → elim r [
      | none ↦ some (kernel_unsupported kernel)
      | some ps ↦ check_allowed (some ps) additional (o ∷ os)
    ]
      ≡ none
    → AcceptedBy kernel additional (o ∷ os)
by_kernel kernel additional o os none e h = cc
by_kernel kernel additional o os (some ps) e h =
    inr (ps, (e, check_allowed-OutboundsOk (some ps) additional (o ∷ os) h))

by_name :
    (named : Bool) (kernel : Text) (additional : List Text) (o : OutboundConfig)
    (os : List OutboundConfig)
    → is_empty kernel ≡ named
    → (if named then check_allowed none additional (o ∷ os) else elim (outbound_protocols kernel) [
      | none ↦ some (kernel_unsupported kernel)
      | some ps ↦ check_allowed (some ps) additional (o ∷ os)
    ])
      ≡ none
    → AcceptedBy kernel additional (o ∷ os)
by_name true kernel additional o os e h =
    inl (e, check_allowed-OutboundsOk none additional (o ∷ os) h)
by_name false kernel additional o os e h =
    by_kernel kernel additional o os (outbound_protocols kernel) refl h

-- Accepted outbounds: the kernel is unnamed or known; every outbound has a tag, a protocol that
-- the kernel allows, and sound settings; no two tags are equal up to case and outer spaces; and
-- every proxy tag that is not empty names another outbound, an additional one, or a built-in one.
-- Sound settings are not empty, do not hold one of four reserved names, have no blank string under
-- nine names, and have, when they are given, ports from 1 to 65535 under `server_port` and
-- `serverPort`.
pub validate_custom_outbounds-AcceptedBy :
    (outs : List OutboundConfig) (kernel_type : Text) (additional : List Text)
    → validate_custom_outbounds outs kernel_type additional ≡ none
    → AcceptedBy (normalized kernel_type) additional outs
unfolding validate_custom_outbounds
validate_custom_outbounds-AcceptedBy [] kernel_type additional h = tt
validate_custom_outbounds-AcceptedBy (o ∷ os) kernel_type additional h =
    let kernel = normalized kernel_type in by_name (is_empty kernel) kernel additional o os refl h
