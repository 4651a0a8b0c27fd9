-- ===== src/ControlPlane/Refinement.antt =====
-- The mailbox of internal/controlplane/mailbox.go refines a function from ids to users.
use xboard_node_win.Common.{
  ℤ, Text, is_some, is_empty, from_option, if◌then◌else◌, text_key, List, [], ◌∷◌, Option, none,
  some, true, ◌≡◌, refl, ap, ◌∙◌, arith,
}
use xboard_node_win.Model.{UserSpec}
use xboard_node_win.ControlPlane.{
  EventType, sync_config, sync_users, sync_user_delta, sync_devices, unknown, Event, NodeMailbox,
  apply_locked, apply, apply_user_delta,
}
use xboard_node_win.ControlPlane.Delta.{
  delta_meaning, view, apply_user_delta_meaning, clone_users_lem,
}

-- What an event means for the user with the id, once the full list has been received.
abbrev pub event_meaning : Event → ℤ → Option UserSpec → Option UserSpec
event_meaning e id old = elim e.kind [
  | sync_users ↦ if is_some e.users then view e.users id else old
  | sync_user_delta ↦
      if is_empty e.delta_users then old else delta_meaning e.delta_action e.delta_users id old
  | _ ↦ old
]

unfoldable pub events_meaning : List Event → ℤ → Option UserSpec → Option UserSpec
events_meaning [] id old = old
events_meaning (e ∷ es) id old = events_meaning es id (event_meaning e id old)

unfoldable pub apply_all : List Event → NodeMailbox → NodeMailbox
apply_all [] m = m
apply_all (e ∷ es) m = apply_all es (apply e m)

delta_case :
    (users : Option (List UserSpec)) (action : Text) (delta : List UserSpec) (id : ℤ)
    → view (elim (apply_user_delta users action delta) [ none ↦ users | some us ↦ us ]) id
      ≡ delta_meaning action delta id (view users id)
delta_case users action delta id =
    same (apply_user_delta users action delta) ∙ (apply_user_delta_meaning users action delta id).0
  where
    same :
        (r : Option (Option (List UserSpec)))
        → view (elim r [ none ↦ users | some us ↦ us ]) id ≡ view (from_option users r) id
    same none = refl
    same (some us) = refl

pub by_kind :
    (k : EventType) (e : Event) (m : NodeMailbox) (id : ℤ)
    → e.kind ≡ k
    → m.has_full_user_state ≡ true
    → (view (apply e m).users id ≡ event_meaning e id (view m.users id))
      × ((apply e m).has_full_user_state ≡ true)
unfolding apply apply_locked
by_kind sync_config e m id h full = ground arith
by_kind sync_users e m id h full = ground (arith, clone_users_lem e.users)
by_kind sync_user_delta e m id h full =
    ground (arith, delta_case m.users e.delta_action e.delta_users id)
by_kind sync_devices e m id h full = ground arith
by_kind unknown e m id h full = ground arith

-- Once the mailbox has a full list, any sequence of events leaves it with the users that the events
-- mean one after the other.
pub apply_all_users :
    (es : List Event) (m : NodeMailbox) (id : ℤ)
    → m.has_full_user_state ≡ true
    → view (apply_all es m).users id ≡ events_meaning es id (view m.users id)
unfolding apply_all events_meaning
apply_all_users [] m id full = refl
apply_all_users (e ∷ es) m id full =
    let one = by_kind e.kind e m id refl full in
    apply_all_users es (apply e m) id one.1 ∙ ap (events_meaning es id) one.0
