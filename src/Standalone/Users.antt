-- ===== src/Standalone/Users.antt =====
-- The users of a standalone node whose configuration was accepted.
use xboard_node_win.Common.{
  ℤ, Text, Bool, true, false, is_empty, from_option, Option, none, some, List, [], ◌∷◌, map,
  Distinct, int_key, text_key, ◌≡◌, refl, ap, if◌then◌else◌,
}
use xboard_node_win.Model.{UserSpec}
use xboard_node_win.Config.{Config, StandaloneUser, StandaloneConfig, is_standalone}
use xboard_node_win.Config.Validate.{validate}
use xboard_node_win.Config.Validate.Accepts.{
  ids_of, uuids_of, StandaloneOk, NodeOk, ModeOk, validate_lem,
}
use xboard_node_win.Standalone.{user_of, user_specs_from_standalone}

abbrev pub spec_ids : List UserSpec → List ℤ
spec_ids [] = []
spec_ids (u ∷ us) = u.id ∷ spec_ids us

abbrev pub spec_uuids : List UserSpec → List Text
spec_uuids [] = []
spec_uuids (u ∷ us) = u.uuid ∷ spec_uuids us

-- There are users, and no two share an id or a uuid.
abbrev pub UsersOk : List UserSpec → Type 0
UsersOk us = (is_empty us ≡ false) × (Distinct (spec_ids us) × Distinct (spec_uuids us))

spec_ids-map : (us : List StandaloneUser) → spec_ids (map user_of us) ≡ ids_of us
unfolding user_of
spec_ids-map [] = refl
spec_ids-map (u ∷ us) = ap (λ is. u.id ∷ is) (spec_ids-map us)

spec_uuids-map : (us : List StandaloneUser) → spec_uuids (map user_of us) ≡ uuids_of us
unfolding user_of
spec_uuids-map [] = refl
spec_uuids-map (u ∷ us) = ap (λ is. u.uuid ∷ is) (spec_uuids-map us)

is_empty-map : (us : List StandaloneUser) → is_empty (map user_of us) ≡ is_empty us
is_empty-map [] = refl
is_empty-map (u ∷ us) = refl

map-UsersOk :
    (us : List StandaloneUser)
    → is_empty us ≡ false
    → Distinct (ids_of us)
    → Distinct (uuids_of us)
    → UsersOk (map user_of us)
map-UsersOk us e i u = rw (is_empty-map us, spec_ids-map us, spec_uuids-map us) (e, (i, u))

enabled_ok : (b : Bool) (A B : Type 0) → b ≡ true → (if b then A else B) → A
enabled_ok true A B h m = m
enabled_ok false A B h m = cc

by_section :
    (c : Config) (o : Option StandaloneConfig)
    → elim o [ none ↦ false | some s ↦ s.enabled ] ≡ true
    → ModeOk o c
    → UsersOk (from_option [] (elim o [ none ↦ none | some s ↦ some (map user_of s.users) ]))
by_section c none h m = cc
by_section c (some s) h m =
    let good = enabled_ok s.enabled (StandaloneOk c.nodes s) (NodeOk c.machine c) h m in
    map-UsersOk s.users good.1.1.1.1.0 good.1.1.1.1.1.1.0 good.1.1.1.1.1.1.1

-- A standalone node whose configuration `validate` accepts hands the service some users, no two of
-- them with one id or one uuid.
pub user_specs_from_standalone-UsersOk :
    (c : Config)
    → is_standalone c ≡ true
    → validate c ≡ none
    → UsersOk (from_option [] (user_specs_from_standalone c))
unfolding user_specs_from_standalone is_standalone
user_specs_from_standalone-UsersOk c b h = by_section c c.standalone b ((validate_lem c).0 h).0
