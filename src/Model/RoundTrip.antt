-- ===== src/Model/RoundTrip.antt =====
-- internal/model/panel.go: converting to the panel's types and back keeps a node and its users.
use mathlib.Core.Option
use xboard_node_win.Common.{
  Text, Dict, IsMap, copy_into, copy_into_nil, copy_into-IsMap, is_empty, is_empty-copy, text_key,
  false, Option, none, some, List, [], ◌∷◌, map, ◌≡◌, refl, ap,
}
use xboard_node_win.Model.{UserSpec}
use xboard_node_win.Model.Value.{Value, Slice, AnyMap}
use xboard_node_win.Panel
use xboard_node_win.Model.Clone.{clone_any_map, clone_map_slice, clone_string_slice, convert_all}
use xboard_node_win.Model.FromPanel.{
  route_from_panel, outbound_from_panel, rule_from_panel, brutal_from_panel, multiplex_from_panel,
  cert_from_panel, spec_from_panel, node_spec_from_panel, user_specs_from_panel,
}
use xboard_node_win.Model.ToPanel.{
  route_to_panel, outbound_to_panel, rule_to_panel, brutal_to_panel, multiplex_to_panel,
  cert_to_panel, spec_to_panel, to_panel, user_specs_to_panel,
}

clone_string_slice_idem :
    (s : Slice Text) → clone_string_slice (clone_string_slice s) ≡ clone_string_slice s
unfolding clone_string_slice
clone_string_slice_idem none = refl
clone_string_slice_idem (some []) = refl
clone_string_slice_idem (some (x ∷ xs)) = refl

clone_nonempty :
    (m : Dict Text Value) → IsMap m → is_empty m ≡ false → clone_any_map (some m) ≡ some m
unfolding clone_any_map
clone_nonempty [] h n = cc
clone_nonempty (e ∷ m) h n = ap some (copy_into_nil (e ∷ m) h)

clone_any_map_idem : (m : AnyMap) → clone_any_map (clone_any_map m) ≡ clone_any_map m
unfolding clone_any_map
clone_any_map_idem none = refl
clone_any_map_idem (some []) = refl
clone_any_map_idem (some (e ∷ m)) =
    clone_nonempty (copy_into [] (e ∷ m)) (copy_into-IsMap [] (e ∷ m) tt) (is_empty-copy e m)

-- Converting a list, back and again gives what converting once gives.
map_thrice :
    {A B : Type 0} (f : A → B) (g : B → A)
    → ((a : A) → f (g (f a)) ≡ f a)
    → (xs : List A) → map f (map g (map f xs)) ≡ map f xs
map_thrice f g h [] = refl
map_thrice f g h (x ∷ xs) = cc (h x, map_thrice f g h xs)

map_twice :
    {A : Type 0} (f : A → A)
    → ((a : A) → f (f a) ≡ f a)
    → (xs : List A) → map f (map f xs) ≡ map f xs
map_twice f h [] = refl
map_twice f h (x ∷ xs) = cc (h x, map_twice f h xs)

convert_thrice :
    {A B : Type 0} (f : A → B) (g : B → A)
    → ((a : A) → f (g (f a)) ≡ f a)
    → (s : Slice A) → convert_all f (convert_all g (convert_all f s)) ≡ convert_all f s
convert_thrice f g h none = refl
convert_thrice f g h (some xs) = ap some (map_thrice f g h xs)

option_thrice :
    {A B : Type 0} (f : A → B) (g : B → A)
    → ((a : A) → f (g (f a)) ≡ f a)
    → (o : Option A) → Option.map f (Option.map g (Option.map f o)) ≡ Option.map f o
option_thrice f g h none = refl
option_thrice f g h (some a) = ap some (h a)

clone_map_slice_idem : (s : Slice AnyMap) → clone_map_slice (clone_map_slice s) ≡ clone_map_slice s
unfolding clone_map_slice
clone_map_slice_idem none = refl
clone_map_slice_idem (some []) = refl
clone_map_slice_idem (some (m ∷ ms)) = ap some (map_twice clone_any_map clone_any_map_idem (m ∷ ms))

ruleset clones = (clone_string_slice_idem, clone_any_map_idem, clone_map_slice_idem)

route_again :
    (r : Panel.RouteRule)
    → route_from_panel (route_to_panel (route_from_panel r)) ≡ route_from_panel r
unfolding route_from_panel route_to_panel
route_again r = simp clones

outbound_again :
    (o : Panel.OutboundConfig)
    → outbound_from_panel (outbound_to_panel (outbound_from_panel o)) ≡ outbound_from_panel o
unfolding outbound_from_panel outbound_to_panel
outbound_again o = simp clones

rule_again :
    (r : Panel.CustomRouteRule)
    → rule_from_panel (rule_to_panel (rule_from_panel r)) ≡ rule_from_panel r
unfolding rule_from_panel rule_to_panel
rule_again r = simp clones

brutal_again :
    (b : Panel.BrutalConfig)
    → brutal_from_panel (brutal_to_panel (brutal_from_panel b)) ≡ brutal_from_panel b
unfolding brutal_from_panel brutal_to_panel
brutal_again b = refl

multiplex_again :
    (m : Panel.MultiplexConfig)
    → multiplex_from_panel (multiplex_to_panel (multiplex_from_panel m)) ≡ multiplex_from_panel m
unfolding multiplex_from_panel multiplex_to_panel
multiplex_again m = simp (option_thrice brutal_from_panel brutal_to_panel brutal_again)

cert_again :
    (c : Panel.CertConfig) → cert_from_panel (cert_to_panel (cert_from_panel c)) ≡ cert_from_panel c
unfolding cert_from_panel cert_to_panel
cert_again c = refl

spec_again :
    (n : Panel.NodeConfig) → spec_from_panel (spec_to_panel (spec_from_panel n)) ≡ spec_from_panel n
unfolding spec_from_panel spec_to_panel
spec_again n = simp (
  clones,
  convert_thrice route_from_panel route_to_panel route_again,
  convert_thrice outbound_from_panel outbound_to_panel outbound_again,
  convert_thrice rule_from_panel rule_to_panel rule_again,
  option_thrice multiplex_from_panel multiplex_to_panel multiplex_again,
  option_thrice cert_from_panel cert_to_panel cert_again,
)

-- A node that came from the panel survives the way to the panel's types and back unchanged: every
-- field, list, map and optional part is the same, nil or not.
pub node_spec-to_panel :
    (nc : Option Panel.NodeConfig)
    → node_spec_from_panel (to_panel (node_spec_from_panel nc)) ≡ node_spec_from_panel nc
unfolding node_spec_from_panel to_panel
node_spec-to_panel nc = option_thrice spec_from_panel spec_to_panel spec_again nc

users_there : (us : List UserSpec) → user_specs_from_panel (user_specs_to_panel (some us)) ≡ some us
unfolding user_specs_from_panel user_specs_to_panel
users_there [] = refl
users_there (u ∷ us) = ap (Option.map (λ l. u ∷ l)) (users_there us)

-- A list of users survives both conversions unchanged, nil or not.
pub user_specs-to_panel :
    (us : Slice UserSpec) → user_specs_from_panel (user_specs_to_panel us) ≡ us
unfolding user_specs_from_panel user_specs_to_panel
user_specs-to_panel none = refl
user_specs-to_panel (some us) = users_there us
