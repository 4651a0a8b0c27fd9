-- ===== src/ControlPlane/Drain.antt =====
-- `DrainIfReady` of internal/controlplane/mailbox.go: what the service learns from a drain.
use xboard_node_win.Common.{
  ℤ, bytes, lookup, is_some, from_option, if◌then◌else◌, int_key, text_key, List, [], ◌∷◌, Option,
  none, some, not, true, false, ◌≡◌, ◌≢◌, refl, ◌∙◌, arith, keep,
}
use xboard_node_win.Model.{UserSpec}
use xboard_node_win.Limiter.Users.{last_user}
use xboard_node_win.ControlPlane.{
  EventType, sync_config, sync_users, sync_user_delta, sync_devices, unknown, Event, MailboxState,
  empty_state, NodeMailbox, apply_locked, apply, apply_user_delta, drain_if_ready, remove_ids,
}
use xboard_node_win.ControlPlane.Delta.{view, clone_users_lem, lookup-remove_ids}
use xboard_node_win.ControlPlane.Refinement.{events_meaning, apply_all, apply_all_users}

-- With no event in between, the drain after a drain is empty; and a mailbox that is not ready gives
-- nothing and keeps everything.
pub drain_if_ready_again :
    (m : NodeMailbox)
    → ((drain_if_ready (drain_if_ready m).1).0 ≡ empty_state)
      × (m.ready ≡ false → drain_if_ready m ≡ (empty_state, m))
unfolding drain_if_ready
drain_if_ready_again m = ground arith

-- The users that the service has after a drain: those of the drain, or those it had.
abbrev pub after_drain : MailboxState → Option UserSpec → ℤ → Option UserSpec
after_drain s had id = if s.has_users then view s.users id else had

module _ (id : ℤ) where
  -- As long as nothing is marked, the users are those of the last drain.
  abbrev Clean : Option UserSpec → NodeMailbox → Type 0
  Clean had m = (m.dirty_users ≡ false → view m.users id ≡ had) × (m.ready ≡ true)

  apply-Clean :
      (k : EventType) (e : Event) (had : Option UserSpec) (m : NodeMailbox)
      → e.kind ≡ k
      → Clean had m
      → Clean had (apply e m)
  unfolding apply apply_locked
  apply-Clean sync_config e had m h c = ground arith
  apply-Clean sync_users e had m h c = ground arith
  apply-Clean sync_user_delta e had m h c = ground arith
  apply-Clean sync_devices e had m h c = ground arith
  apply-Clean unknown e had m h c = ground arith

  apply_all-Clean :
      (es : List Event) (had : Option UserSpec) (m : NodeMailbox)
      → Clean had m
      → Clean had (apply_all es m)
  unfolding apply_all
  apply_all-Clean [] had m c = c
  apply_all-Clean (e ∷ es) had m c =
      apply_all-Clean es had (apply e m) (apply-Clean e.kind e had m refl c)

  drained :
      (had : Option UserSpec) (m : NodeMailbox)
      → Clean had m
      → after_drain (drain_if_ready m).0 had id ≡ view m.users id
  unfolding drain_if_ready
  drained had m c = ground (arith, clone_users_lem m.users)

-- A drain hands over exactly what happened to the users: from a ready mailbox with a full list and no
-- users marked, after any sequence of events, the users of the drained list, or the old users if the
-- drain has none, are exactly those that the events mean one after the other. A drained list that is
-- nil counts as no users here.
pub drain_if_ready_users :
    (es : List Event) (m : NodeMailbox) (id : ℤ)
    → m.ready ≡ true
    → m.has_full_user_state ≡ true
    → m.dirty_users ≡ false
    → after_drain (drain_if_ready (apply_all es m)).0 (view m.users id) id
      ≡ events_meaning es id (view m.users id)
drain_if_ready_users es m id ready full clean =
    drained id (view m.users id) (apply_all es m)
      (apply_all-Clean id es (view m.users id) m (λ d. refl, ready))
    ∙ apply_all_users es m id full

-- Every user of the list is in the delta.
abbrev pub Covers : List UserSpec → List UserSpec → Type 0
Covers delta [] = Unit
Covers delta (u ∷ us) = (is_some (last_user u.id delta) ≡ true) × Covers delta us

abbrev kept_after : List UserSpec → List UserSpec → List UserSpec
kept_after delta us = keep (λ u. not (is_some (lookup u.id (remove_ids delta [])))) us

kept_none : (delta us : List UserSpec) → Covers delta us → kept_after delta us ≡ []
unfolding lookup
kept_none delta [] c = refl
kept_none delta (u ∷ us) c = ground (arith, lookup-remove_ids delta [] u.id, kept_none delta us c.1)

emptied :
    (users : Option (List UserSpec)) (delta : List UserSpec)
    → Covers delta (from_option [] users)
    → apply_user_delta users (bytes "remove") delta ≡ some none
unfolding apply_user_delta
emptied users delta c = rw (clone_users_lem users, kept_none delta (from_option [] users) c)

-- When a delta that is not empty removes all users of a ready mailbox with a full list, the drain
-- announces users and hands over nil, not an empty list.
pub drain_if_ready_emptied :
    (e : Event) (m : NodeMailbox)
    → m.ready ≡ true
    → m.has_full_user_state ≡ true
    → e.kind ≡ sync_user_delta
    → e.delta_action ≡ bytes "remove"
    → e.delta_users ≢ []
    → Covers e.delta_users (from_option [] m.users)
    → ((drain_if_ready (apply e m)).0.has_users ≡ true)
      × ((drain_if_ready (apply e m)).0.users ≡ none)
unfolding drain_if_ready apply apply_locked
drain_if_ready_emptied e m ready full kind action some_delta covers =
    ground (arith, emptied m.users e.delta_users covers)
