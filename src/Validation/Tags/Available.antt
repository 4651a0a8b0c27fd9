-- ===== src/Validation/Tags/Available.antt =====
-- The outbound tags that a route rule can go to: `buildAvailableOutboundTags` of
-- internal/model/validate.go.
use xboard_node_win.Common.{
  Text, bytes, beq_text_iff, Keys, lookup, insert, lookup-insert, text_key, to_lower, is_some,
  in_list, true, false, List, [], ◌∷◌, ◌≡◌, ◌⊎◌, inl, refl, some, arith,
}
use xboard_node_win.Model.NodeSpec.{OutboundConfig}
use xboard_node_win.Validation.Transport.{normalized}
use xboard_node_win.Validation.Outbounds.{tag_keys, normalized_all}
use xboard_node_win.Validation.Tags.{add_tags, outbound_tags, build_available}
use xboard_node_win.Validation.Routes.{unknown_tag}

-- A target names a built-in outbound, an additional one, or one of the list, up to case.
abbrev pub Named : List OutboundConfig → List Text → Text → Type 0
Named outs additional t =
    (to_lower t ≡ bytes "direct")
    ⊎ ((to_lower t ≡ bytes "block")
        ⊎ ((in_list (to_lower t) (normalized_all additional) ≡ true)
            ⊎ (in_list (to_lower t) (tag_keys outs) ≡ true)))

lookup-add_tags :
    (k : Text) (m : Keys Text) (ts : List Text)
    → is_some (lookup k (add_tags m ts)) ≡ true
    → (is_some (lookup k m) ≡ true) ⊎ (in_list k (normalized_all ts) ≡ true)
lookup-add_tags k m [] h = inl h
lookup-add_tags k m (t ∷ ts) h = ground (
  arith,
  h,
  lookup-add_tags k m ts,
  lookup-add_tags k (insert (normalized t) tt m) ts,
  lookup-insert k (normalized t) tt m,
  beq_text_iff (normalized t) k,
)

normalized_all-outbound_tags :
    (outs : List OutboundConfig) → normalized_all (outbound_tags outs) ≡ tag_keys outs
normalized_all-outbound_tags [] = refl
normalized_all-outbound_tags (o ∷ os) = rw (normalized_all-outbound_tags os) refl

abbrev built_in : Keys Text
built_in = insert (bytes "block") tt (insert (bytes "direct") tt [])

lookup-built_in :
    (k : Text) → is_some (lookup k built_in) ≡ true → (k ≡ bytes "direct") ⊎ (k ≡ bytes "block")
unfolding lookup insert
lookup-built_in k h =
    ground (arith, h, beq_text_iff (bytes "block") k, beq_text_iff (bytes "direct") k)

pub unknown_tag-Named :
    (outs : List OutboundConfig) (additional : List Text) (t : Text)
    → unknown_tag (some (build_available outs additional)) t ≡ false
    → Named outs additional t
unfolding build_available
unknown_tag-Named outs additional t h = ground (
  arith,
  h,
  lookup-add_tags (to_lower t) (add_tags built_in (outbound_tags outs)) additional,
  lookup-add_tags (to_lower t) built_in (outbound_tags outs),
  normalized_all-outbound_tags outs,
  lookup-built_in (to_lower t),
)
