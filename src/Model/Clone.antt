-- ===== src/Model/Clone.antt =====
-- The copying helpers of internal/model/types.go.
use xboard_node_win.Common.{
  Text, copy_into, text_key, Option, none, some, List, [], ◌∷◌, map, from_option,
}
use xboard_node_win.Model.Value.{Slice, AnyMap}

-- `cloneAnyMap`: nil also for an empty map.
unfoldable pub clone_any_map : AnyMap → AnyMap
clone_any_map none = none
clone_any_map (some []) = none
clone_any_map (some (e ∷ src)) = some (copy_into [] (e ∷ src))

-- `cloneMapSlice`
unfoldable pub clone_map_slice : Slice AnyMap → Slice AnyMap
clone_map_slice none = none
clone_map_slice (some []) = none
clone_map_slice (some (m ∷ src)) = some (map clone_any_map (m ∷ src))

-- `cloneStringSlice`
unfoldable pub clone_string_slice : Slice Text → Slice Text
clone_string_slice none = none
clone_string_slice (some []) = none
clone_string_slice (some (s ∷ src)) = some (s ∷ src)

-- A slice made with length 0 and a loop that appends the converted items: never nil.
abbrev pub convert_all {ℓ κ} :
    {A : Type ℓ} {B : Type κ} → (A → B) → Option (List A) → Option (List B)
convert_all f src = some (map f (from_option [] src))
