-- ===== src/Validation/Tags/Apart.antt =====
-- The outbound tags that `validateOutboundTagCollisions` of internal/model/custom_config_tags.go lets pass.
use xboard_node_win.Common.{
  ℕ, suc, Text, Dict, lookup, insert, lookup-insert, text_key, is_some, is_empty, in_list, Distinct,
  AllNew, AllNew-insert, true, false, ◌||◌, if◌then◌else◌, none, List, [], ◌∷◌, ok, Result-cases,
  ◌≡◌, ◌⊎◌, inl, inr, Bool-cases, Option-cases, arith,
}
use xboard_node_win.Model.NodeSpec.{OutboundConfig}
use xboard_node_win.Validation.Transport.{normalized}
use xboard_node_win.Validation.Tags.{TagSource, note_sources, check_outbounds, validate_collisions}

-- The tags of the sources up to case and outer spaces, without the blank ones.
abbrev pub source_keys : List TagSource → List Text
source_keys [] = []
source_keys (s ∷ ss) =
    if is_empty (normalized s.tag) then source_keys ss else normalized s.tag ∷ source_keys ss

-- No outbound has a tag that is listed; blank tags do not count.
abbrev pub AllApart : List Text → List OutboundConfig → Type 0
AllApart ks [] = Unit
AllApart ks (o ∷ os) =
    ((is_empty (normalized o.tag) ≡ true) ⊎ (in_list (normalized o.tag) ks ≡ false))
    × AllApart ks os

-- What the loop over the sources leaves in the map.
abbrev Noted : Dict Text Text → Dict Text Text → List Text → Type 0
Noted seen seen' ks =
    (AllNew seen ks × Distinct ks)
    × ((k : Text) → is_some (lookup k seen') ≡ is_some (lookup k seen) || in_list k ks)

note_sources-Noted :
    (ss : List TagSource) (seen seen' : Dict Text Text)
    → note_sources seen ss ≡ ok seen'
    → Noted seen seen' (source_keys ss)
unfolding note_sources
note_sources-Noted [] seen seen' h = ((tt, tt), λ k. ground (arith, h))
note_sources-Noted (s ∷ ss) seen seen' h = elim (Bool-cases (is_empty (normalized s.tag))) [
  | inl e ↦ rw e (note_sources-Noted ss seen seen' (ground (arith, e, h)))
  | inr e ↦ elim (Option-cases (lookup (normalized s.tag) seen)) [
    | inr (prev, d) ↦ absurd (ground (arith, e, d, h))
    | inl d ↦
        let seen1 = insert (normalized s.tag) s.source seen in
        let r = note_sources-Noted ss seen1 seen' (ground (arith, e, d, h)) in
        let n = (AllNew-insert (normalized s.tag) s.source seen (source_keys ss)).0 r.0.0 in
        rw e (
          ((ground (arith, d), n.0), (n.1, r.0.1)),
          λ k. ground (arith, r.1 k, lookup-insert k (normalized s.tag) s.source seen),
        )
  ]
]

check_outbounds-AllApart :
    (seen : Dict Text Text) (ks : List Text) (i : ℕ) (os : List OutboundConfig)
    → ((k : Text) → is_some (lookup k seen) ≡ in_list k ks)
    → check_outbounds seen i os ≡ none
    → AllApart ks os
unfolding check_outbounds
check_outbounds-AllApart seen ks i [] known h = tt
check_outbounds-AllApart seen ks i (o ∷ os) known h =
    let at = known (normalized o.tag) in
    let rest = check_outbounds-AllApart seen ks (suc i) os known in
    elim (Bool-cases (is_empty (normalized o.tag))) [
      | inl e ↦ (inl e, rest (ground (arith, e, h)))
      | inr e ↦ elim (Option-cases (lookup (normalized o.tag) seen)) [
        | inl d ↦ (inr (ground (arith, at, d)), rest (ground (arith, e, d, h)))
        | inr (prev, d) ↦ absurd (ground (arith, e, d, h))
      ]
    ]

-- The tags of the sources differ, and no outbound has one of them.
abbrev pub TagsApart : List OutboundConfig → List TagSource → Type 0
TagsApart outs sources = Distinct (source_keys sources) × AllApart (source_keys sources) outs

pub validate_collisions-TagsApart :
    (outs : List OutboundConfig) (sources : List TagSource)
    → validate_collisions outs sources ≡ none
    → TagsApart outs sources
unfolding validate_collisions lookup
validate_collisions-TagsApart outs sources h = elim (Result-cases (note_sources [] sources)) [
  | inr (x, e) ↦ absurd (ground (arith, e, h))
  | inl (seen, e) ↦
      let noted = note_sources-Noted sources [] seen e in
      (
        noted.0.1,
        check_outbounds-AllApart seen (source_keys sources) 0 outs (λ k. ground (arith, noted.1 k))
            (ground (arith, e, h)),
      )
]
