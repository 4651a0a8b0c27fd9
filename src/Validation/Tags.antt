-- ===== src/Validation/Tags.antt =====
-- Outbound tags from outside the panel's description: internal/model/custom_config_tags.go. The file is
-- read by `read_file` and decoded by `decode`, JSON if the flag is true and else YAML.
pub mod Apart
pub mod Available
use xboard_node_win.Common.{
  ℕ, suc, pos, Text, bytes, Dict, Keys, lookup, insert, text_key, trim_space, itoa, is_empty,
  from_option, ◌==◌, Bool, false, if◌then◌else◌, Option, none, some, List, [], ◌∷◌, ◌++◌, map,
  Result, ok, error,
}
use xboard_node_win.Model.Value.{
  Value, nil_value, bool, int, float, not_finite, string, array, object, Values, no_value, value,
  Entries, no_entry, entry, Slice, AnyMap,
}
use xboard_node_win.Model.NodeSpec.{OutboundConfig}
use xboard_node_win.Config.Load.{FileRead, contents, missing, unreadable}
use xboard_node_win.Validation.Transport.{normalized}

-- `outboundTagSource`
pub record TagSource : Type 0 where
  pub tag : Text
  pub source : Text

-- `tag, _ := item["tag"].(string)`, trimmed.
abbrev text_value : Option Value → Text
text_value none = []
text_value (some nil_value) = []
text_value (some (bool b)) = []
text_value (some (int n)) = []
text_value (some (float m k)) = []
text_value (some not_finite) = []
text_value (some (string s)) = trim_space s
text_value (some (array vs)) = []
text_value (some (object es)) = []

-- The loop that lists the tags of outbounds from index `i`; blank tags are left out.
unfoldable pub tag_sources : Text → ℕ → List (Dict Text Value) → List TagSource
tag_sources prefix i [] = []
tag_sources prefix i (o ∷ os) =
    let tag = text_value (lookup (bytes "tag") o) in
    let rest = tag_sources prefix (suc i) os in
    if is_empty tag
    then rest
    else record { tag = tag; source = prefix ++ 91 ∷ itoa (pos i) ++ 93 ∷ [] } ∷ rest

-- `collectRawOutboundTagSources`
unfoldable pub collect_raw : Slice AnyMap → List TagSource
collect_raw outs =
    tag_sources (bytes "kernel.custom_outbound") 0 (map (from_option []) (from_option [] outs))

abbrev entries_dict : Entries → Dict Text Value
entries_dict no_entry = []
entries_dict (entry k v es) = (k, v) ∷ entries_dict es

-- `toMap` of every item, those that are maps.
unfoldable pub maps_of : Values → List (Dict Text Value)
maps_of no_value = []
maps_of (value nil_value vs) = maps_of vs
maps_of (value (bool b) vs) = maps_of vs
maps_of (value (int n) vs) = maps_of vs
maps_of (value (float m k) vs) = maps_of vs
maps_of (value not_finite vs) = maps_of vs
maps_of (value (string s) vs) = maps_of vs
maps_of (value (array ws) vs) = maps_of vs
maps_of (value (object es) vs) = entries_dict es ∷ maps_of vs

-- `toSliceOfMaps`; a value that is no array gives no maps.
unfoldable pub to_slice_of_maps : Option Value → List (Dict Text Value)
to_slice_of_maps none = []
to_slice_of_maps (some nil_value) = []
to_slice_of_maps (some (bool b)) = []
to_slice_of_maps (some (int n)) = []
to_slice_of_maps (some (float m k)) = []
to_slice_of_maps (some not_finite) = []
to_slice_of_maps (some (string s)) = []
to_slice_of_maps (some (array vs)) = maps_of vs
to_slice_of_maps (some (object es)) = []

-- The errors of reading a custom configuration.
pub data CustomConfigError : Type 0 where
  cannot_read : CustomConfigError
  bad_json : CustomConfigError
  bad_yaml : CustomConfigError

abbrev is_json : Text → Bool
is_json [] = false
is_json (c ∷ s) = c == 123

module _ (read_file : Text → FileRead) (decode : Bool → Text → Option (Dict Text Value)) where
  abbrev decoded_sources :
      Bool → Option (Dict Text Value) → Result CustomConfigError (List TagSource)
  decoded_sources json none = error (if json then bad_json else bad_yaml)
  decoded_sources json (some d) = ok (
      tag_sources (bytes "kernel.custom_config.outbounds") 0
        (to_slice_of_maps (lookup (bytes "outbounds") d)))

  abbrev file_sources : FileRead → Result CustomConfigError (List TagSource)
  file_sources missing = ok []
  file_sources unreadable = error cannot_read
  file_sources (contents d) =
      let json = is_json (trim_space d) in
      if is_empty (trim_space d) then ok [] else decoded_sources json (decode json d)

  -- `collectCustomConfigOutboundTagSources`
  unfoldable pub collect_custom_config : Text → Result CustomConfigError (List TagSource)
  collect_custom_config path =
      if is_empty (trim_space path) then ok [] else file_sources (read_file path)

  -- `collectAdditionalOutboundTagSources`
  unfoldable pub collect_additional :
      Text → Slice AnyMap → Result CustomConfigError (List TagSource)
  collect_additional path outs = elim (collect_custom_config path) [
    | error e ↦ error e
    | ok sources ↦ ok (collect_raw outs ++ sources)
  ]

-- The tag that a second source has, with both sources; or the outbound's index and the source.
pub data Collision : Type 0 where
  between : Text → Text → Text → Collision
  with_outbound : ℕ → Text → Text → Collision

-- The first loop of `validateOutboundTagCollisions`.
unfoldable pub note_sources : Dict Text Text → List TagSource → Result Collision (Dict Text Text)
note_sources seen [] = ok seen
note_sources seen (s ∷ ss) =
    let key = normalized s.tag in
    let rest = note_sources (if is_empty key then seen else insert key s.source seen) ss in
    if is_empty key
    then rest
    else elim (lookup key seen) [ none ↦ rest | some prev ↦ error (between s.source s.tag prev) ]

-- The second loop, from index `i`.
unfoldable pub check_outbounds : Dict Text Text → ℕ → List OutboundConfig → Option Collision
check_outbounds seen i [] = none
check_outbounds seen i (o ∷ os) =
    let key = normalized o.tag in
    let rest = check_outbounds seen (suc i) os in
    if is_empty key
    then rest
    else elim (lookup key seen) [ none ↦ rest | some prev ↦ some (with_outbound i o.tag prev) ]

-- `validateOutboundTagCollisions`
unfoldable pub validate_collisions : List OutboundConfig → List TagSource → Option Collision
validate_collisions structured additional = elim (note_sources [] additional) [
  | error e ↦ some e
  | ok seen ↦ check_outbounds seen 0 structured
]

-- `additionalTagNames`
unfoldable pub additional_tag_names : List TagSource → List Text
additional_tag_names [] = []
additional_tag_names (s ∷ ss) = s.tag ∷ additional_tag_names ss

abbrev pub add_tags : Keys Text → List Text → Keys Text
add_tags available [] = available
add_tags available (t ∷ ts) =
    let tag = normalized t in
    add_tags (if is_empty tag then available else insert tag tt available) ts

abbrev pub outbound_tags : List OutboundConfig → List Text
outbound_tags [] = []
outbound_tags (o ∷ os) = o.tag ∷ outbound_tags os

-- `buildAvailableOutboundTags`
unfoldable pub build_available : List OutboundConfig → List Text → Keys Text
build_available structured raw =
    add_tags
      (add_tags (insert (bytes "block") tt (insert (bytes "direct") tt []))
        (outbound_tags structured))
      raw
