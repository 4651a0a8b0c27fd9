-- ===== src/Model/Value.antt =====
-- The Go values that the model package stores without a fixed type: `any`, as the JSON and YAML
-- decoders fill it, maps of it, and slices. A nil map or slice is `none`, an empty one `some []`.
use xboard_node_win.Common.{ℕ, ℤ, Text, Dict, Option, List, Bool}

-- `any`. A finite float64 is `float m k` for m / 2 ^ k.
mutual
  pub data Value : Type 0 where
    nil_value : Value
    bool : Bool → Value
    int : ℤ → Value
    float : ℤ → ℕ → Value
    not_finite : Value
    string : Text → Value
    array : Values → Value
    object : Entries → Value

  pub data Values : Type 0 where
    no_value : Values
    value : Value → Values → Values

  pub data Entries : Type 0 where
    no_entry : Entries
    entry : Text → Value → Entries → Entries

abbrev pub Slice : Type 0 → Type 0
Slice A = Option (List A)

-- `map[string]any`
abbrev pub AnyMap : Type 0
AnyMap = Option (Dict Text Value)
