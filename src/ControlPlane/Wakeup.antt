-- ===== src/ControlPlane/Wakeup.antt =====
-- The notification of internal/controlplane/mailbox.go: `Apply` and `MarkReady` unlock the mailbox and
-- only then send the token; the service takes the token and only then drains. When it starts, it also
-- seeds the mailbox and drains it without a token, in markMailboxReadyAndDrain of
-- internal/service/service.go.
use xboard_node_win.Common.{
  ℕ, suc, ◌+◌, ◌<◌, is_some, Bool, true, false, ◌&&◌, ◌||◌, ◌≡◌, refl, arith, inl, inr, ◌⊎◌, Option,
  some, none, List,
}
use xboard_node_win.ControlPlane.{
  EventType, sync_config, sync_users, sync_user_delta, sync_devices, unknown, Event, NodeMailbox,
  new_node_mailbox, apply_locked, drain_if_ready, notify, seed_baseline,
}
use xboard_node_win.Model.{UserSpec}
use xboard_node_win.Model.NodeSpec.{NodeSpec, clone_node_spec}

-- The mailbox, the number of goroutines between their unlock and their `notify`, and whether the
-- service has taken a token and not drained yet.
pub record System : Type 0 where
  pub box : NodeMailbox
  pub posting : ℕ
  pub draining : Bool

abbrev one_if : Bool → ℕ
one_if true = 1
one_if false = 0

-- The steps that the goroutines can take, in any order.
pub data Step : System → System → Type 0 where
  applies :
      (s : System) (e : Event)
      → Step s (record s {
        box = (apply_locked e s.box).0;
        posting = s.posting + one_if (apply_locked e s.box).1;
      })
  readies :
      (s : System)
      → Step s (record s { box = record (s.box) { ready = true }; posting = s.posting + 1 })
  posts :
      (s : System) (n : ℕ)
      → s.posting ≡ suc n
      → Step s (record s { box = notify s.box; posting = n })
  takes :
      (s : System)
      → s.box.notified ≡ true
      → Step s (record s { box = record (s.box) { notified = false }; draining = true })
  drains :
      (s : System)
      → s.draining ≡ true
      → Step s (record s { box = (drain_if_ready s.box).1; draining = false })
  seeds :
      (s : System) (users : Option (List UserSpec)) (config : Option NodeSpec)
      → Step s (record s { box = seed_baseline users config s.box })
  drains_at_start : (s : System) → Step s (record s { box = (drain_if_ready s.box).1 })

pub data Reach (s : System) : System → Type 0 where
  here : Reach s s
  next : {t u : System} → Reach s t → Step t u → Reach s u

-- There is something that a drain would report.
abbrev pub is_pending : NodeMailbox → Bool
is_pending m =
    m.needs_reconcile
    || (m.dirty_config && is_some m.config)
    || m.dirty_users
    || (m.dirty_devices && is_some m.device_users)

-- Someone is going to wake the service, or the service is about to drain.
abbrev pub WillDrain : System → Type 0
WillDrain s = (s.box.notified ≡ true) ⊎ (0 < s.posting) ⊎ (s.draining ≡ true)

abbrev pub Awake : System → Type 0
Awake s =
    (s.box.ready ≡ true → is_pending s.box ≡ true → WillDrain s)
    × (s.box.dirty_config ≡ true → is_some s.box.config ≡ true)

is_some-clone_node_spec : (n : Option NodeSpec) → is_some (clone_node_spec n) ≡ is_some n
unfolding clone_node_spec
is_some-clone_node_spec none = refl
is_some-clone_node_spec (some n) = refl

applies-Awake :
    (k : EventType) (s : System) (e : Event)
    → e.kind ≡ k
    → Awake s
    → Awake (record s {
      box = (apply_locked e s.box).0;
      posting = s.posting + one_if (apply_locked e s.box).1;
    })
unfolding apply_locked
applies-Awake sync_config s e h a = ground (arith, is_some-clone_node_spec e.config)
applies-Awake sync_users s e h a = ground arith
applies-Awake sync_user_delta s e h a = ground arith
applies-Awake sync_devices s e h a = ground arith
applies-Awake unknown s e h a = ground arith

pub Step-Awake : {s t : System} → Step s t → Awake s → Awake t
unfolding drain_if_ready seed_baseline
Step-Awake (applies s e) a = applies-Awake e.kind s e refl a
Step-Awake (readies s) a = (λ r p. inr (inl (omega arith)), a.1)
Step-Awake (posts s n h) a = (λ r p. inl refl, a.1)
Step-Awake (takes s h) a = (λ r p. inr (inr refl), a.1)
Step-Awake (drains s h) a = ground arith
Step-Awake (seeds s users config) a = ground (arith, is_some-clone_node_spec config)
Step-Awake (drains_at_start s) a = ground arith

abbrev pub start : System
start = record { box = new_node_mailbox; posting = 0; draining = false }

Reach-Awake : {s t : System} → Reach s t → Awake s → Awake t
Reach-Awake here a = a
Reach-Awake (next r st) a = Step-Awake st (Reach-Awake r a)

-- No wakeup is lost: in every state that a new mailbox can reach, if the mailbox is ready and holds
-- something to report, then the channel holds a token, or a goroutine is about to send one, or the
-- service is about to drain.
pub Reach-WillDrain :
    (s : System) → Reach start s → s.box.ready ≡ true → is_pending s.box ≡ true → WillDrain s
Reach-WillDrain s r = (Reach-Awake r ((λ ready pending. cc), (λ dirty. cc))).0
