-- ===== src/Config/Expand/Unique.antt =====
-- Which node gets which directory in `ExpandNodes` of internal/config/config.go.
use xboard_node_win.Common.{
  ℤ, InRange, Text, bytes, false, is_empty, itoa, itoa_injective, none, List, [], ◌∷◌, map, ◌++◌,
  ◌≡◌, refl, ap, Distinct, in_list, int_key, text_key, beq_text_iff, beq_ℤ_iff, arith, Bool-cases,
  inl, inr,
}
use xboard_node_win.Config.{NodeEntry, Config}
use xboard_node_win.Config.Expand.{
  node_dir, derive_kernel, override_kernel, expand_node, expand_nodes,
}

append_left : (base x y : Text) → base ++ x ≡ base ++ y → x ≡ y
append_left [] x y h = h
append_left (c ∷ base) x y h = let tails : base ++ x ≡ base ++ y = cc in append_left base x y tails

node_dir_injective :
    (base : Text) (i j : ℤ) → InRange i → InRange j → node_dir base i ≡ node_dir base j → i ≡ j
unfolding node_dir
node_dir_injective base i j hi hj h =
    itoa_injective i j hi hj (append_left (base ++ bytes "/node-") (itoa i) (itoa j) h)

abbrev pub entry_ids : List NodeEntry → List ℤ
entry_ids [] = []
entry_ids (e ∷ es) = e.node_id ∷ entry_ids es

abbrev pub dirs_of : List Config → List Text
dirs_of [] = []
dirs_of (c ∷ cs) = c.kernel.config_dir ∷ dirs_of cs

-- No entry has a kernel section of its own, and the ids fit an int64.
abbrev pub AllDerived : List NodeEntry → Type 0
AllDerived [] = Unit
AllDerived (e ∷ es) = ((e.kernel ≡ none) × InRange e.node_id) × AllDerived es

expand_node_dir :
    (c : Config) (e : NodeEntry)
    → e.kernel ≡ none
    → (expand_node c e).kernel.config_dir ≡ node_dir c.kernel.config_dir e.node_id
unfolding expand_node override_kernel derive_kernel
expand_node_dir c e h = ap (λ o. (override_kernel e.node_id o c.kernel).config_dir) h

in_list-dirs :
    (c : Config) (i : ℤ) (es : List NodeEntry)
    → InRange i
    → AllDerived es
    → in_list i (entry_ids es) ≡ false
    → in_list (node_dir c.kernel.config_dir i) (dirs_of (map (expand_node c) es)) ≡ false
in_list-dirs c i [] r d h = refl
in_list-dirs c i (e ∷ es) r d h = rw (expand_node_dir c e d.0.0) (
    ground (
      arith,
      in_list-dirs c i es r d.1,
      beq_text_iff (node_dir c.kernel.config_dir e.node_id) (node_dir c.kernel.config_dir i),
      node_dir_injective c.kernel.config_dir e.node_id i d.0.1 r,
      beq_ℤ_iff e.node_id i,
    ))

map-Distinct :
    (c : Config) (es : List NodeEntry)
    → AllDerived es
    → Distinct (entry_ids es)
    → Distinct (dirs_of (map (expand_node c) es))
map-Distinct c [] d h = tt
map-Distinct c (e ∷ es) d h =
    rw (expand_node_dir c e d.0.0)
      (in_list-dirs c e.node_id es d.0.1 d.1 h.0, map-Distinct c es d.1 h.1)

-- Nodes whose entries have no kernel section run in directories that all differ, if their ids,
-- which fit an int64, all differ.
pub expand_nodes-Distinct :
    (c : Config)
    → AllDerived c.nodes
    → Distinct (entry_ids c.nodes)
    → Distinct (dirs_of (expand_nodes c))
unfolding expand_nodes
expand_nodes-Distinct c d h = elim (Bool-cases (is_empty c.nodes)) [
  | inl e ↦ rw e (refl, tt)
  | inr e ↦ rw e (map-Distinct c c.nodes d h)
]
