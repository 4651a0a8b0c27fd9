-- ===== src/Service/Events/Users.antt =====
-- The hash of the users in internal/service/service.go belongs to the users that are kept.
use xboard_node_win.Common.{
  Text, Bool, true, false, ◌||◌, if◌then◌else◌, is_empty, from_option, Option, none, some, List, [],
  ◌∷◌, ◌≡◌, refl, ap, sym, ◌∙◌, ◌⊎◌, inl, inr,
}
use xboard_node_win.Model.{UserSpec}
use xboard_node_win.Model.NodeSpec.{NodeSpec}
use xboard_node_win.SpeedTracker.{RateLib}
use xboard_node_win.ControlPlane.{append_nil}
use xboard_node_win.Service.{
  Answers, UserState, restore_user_state, prepare_user_state, ensure_running, apply_user_update,
}
use xboard_node_win.Service.Events.{Oracle, edit_users}

module _ (lib : RateLib) (user_hash : List UserSpec → Text) where
  -- The hash is that of the users, or there are neither.
  abbrev pub Matches : Option (List UserSpec) → Text → Type 0
  Matches users hash = ((users ≡ none) × (hash ≡ [])) ⊎ (hash ≡ user_hash (from_option [] users))

  pub append_nil_again : (us : List UserSpec) → from_option [] (append_nil us) ≡ us
  append_nil_again [] = refl
  append_nil_again (u ∷ us) = refl

  abbrev pub UsersMatch : UserState lib user_hash → Type 0
  UsersMatch u = Matches u.last_users u.last_user_hash

  pub prepared :
      (users : Option (List UserSpec)) (u : UserState lib user_hash)
      → UsersMatch (prepare_user_state lib user_hash users u)
  unfolding prepare_user_state restore_user_state
  prepared users u = inr (ap user_hash (sym (append_nil_again (from_option [] users))))

  -- Putting the former users and hash back.
  pub restored :
      (u p : UserState lib user_hash)
      → UsersMatch u
      → UsersMatch (
          restore_user_state lib user_hash
            (append_nil (from_option [] u.last_users))
            u.last_user_hash
            p)
  unfolding restore_user_state
  restored u p h = by_users u.last_users u.last_user_hash h
    where
      by_users :
          (us : Option (List UserSpec)) (hash : Text)
          → Matches us hash
          → Matches (append_nil (from_option [] (append_nil (from_option [] us)))) hash
      by_users none hash (inl (e, h)) = inl (refl, h)
      by_users none hash (inr h) = inr h
      by_users (some []) hash (inl (e, h)) = inl (refl, h)
      by_users (some []) hash (inr h) = inr h
      by_users (some (v ∷ vs)) hash (inl (e, h)) = cc
      by_users (some (v ∷ vs)) hash (inr h) = inr h

  pub named_match :
      (users : Option (List UserSpec)) (u : UserState lib user_hash) (hash : Text)
      → hash ≡ user_hash (from_option [] users)
      → Matches (prepare_user_state lib user_hash users u).last_users hash
  unfolding prepare_user_state restore_user_state
  named_match users u hash e =
      inr (e ∙ ap user_hash (sym (append_nil_again (from_option [] users))))

  pub if_match :
      (b : Bool) (x y : UserState lib user_hash)
      → UsersMatch x
      → UsersMatch y
      → UsersMatch (if b then x else y)
  if_match true x y h k = h
  if_match false x y h k = k

  pub updated :
      (k : Answers) (users : Option (List UserSpec)) (hash : Text) (u : UserState lib user_hash)
      → hash ≡ user_hash (from_option [] users)
      → UsersMatch u
      → UsersMatch (apply_user_update lib user_hash k users hash u)
  unfolding apply_user_update
  updated k users hash u e h =
      let p = prepare_user_state lib user_hash users u in
      let before = append_nil (from_option [] u.last_users) in
      let back = restore_user_state lib user_hash before u.last_user_hash p in
      let named : UserState lib user_hash = record p { last_user_hash = hash } in
      let good = prepared users u in
      let good_back = restored u p h in
      if_match (ensure_running lib user_hash k u)
        (if k.updates
          then (if is_empty hash then p else named)
          else (if k.restarts then p else back))
        u
        (if_match k.updates (if is_empty hash then p else named) (if k.restarts then p else back)
          (if_match (is_empty hash) p named good (named_match users u hash e))
          (if_match k.restarts p back good good_back))
        h

module _ (lib : RateLib) (user_hash : List UserSpec → Text) (config_hash : NodeSpec → Text) where
  pub edited :
      (o : Oracle) (users : Option (List UserSpec)) (u : UserState lib user_hash)
      → UsersMatch lib user_hash u
      → UsersMatch lib user_hash (edit_users lib user_hash config_hash o users u)
  unfolding edit_users
  edited o users u h =
      let p = prepare_user_state lib user_hash users u in
      let before = append_nil (from_option [] u.last_users) in
      if_match lib user_hash (o.edits || o.updates) p
        (restore_user_state lib user_hash before u.last_user_hash p)
        (prepared lib user_hash users u) (restored lib user_hash u p h)
