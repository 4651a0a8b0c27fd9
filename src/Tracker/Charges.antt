-- ===== src/Tracker/Charges.antt =====
-- What one call of internal/tracker/tracker.go adds to the pending traffic of a user.
use xboard_node_win.Common.{
  ℤ, pos, ◌+ℤ◌, ◌-ℤ◌, ◌≤ℤ◌, wrap_id, InRange, int_laws, lookup, IsMap, ltb_ℤ, if◌then◌else◌,
  int_key, none, some, Bool, true, false, ◌≡◌, arith, Bool-cases, inl, inr, ◌∙◌, parts_apart,
  ltb_ℤ→lt, ltb_ℤ→ge,
}
use xboard_node_win.Tracker.{
  Traffic, AliveIps, Tracker, traffic_of, delta, deltas, is_active, process,
}
use xboard_node_win.Tracker.Lookups.{charge, last_seen-process_users, pending-process_users}

-- A counter that did not fall is charged the difference.
delta_grown :
    (cum prev : ℤ) → pos 0 ≤ℤ prev → prev ≤ℤ cum → InRange cum → delta cum prev ≡ cum -ℤ prev
unfolding delta
delta_grown cum prev p h r =
    let d : ℤ = cum -ℤ prev in
    rw (wrap_id d (omega (int_laws, parts_apart d, parts_apart cum, parts_apart prev)))
      (elim (Bool-cases (ltb_ℤ d (pos 0))) [
        | inl neg ↦ absurd (omega (int_laws, ltb_ℤ→lt d (pos 0) neg))
        | inr fine ↦ rw fine
      ])

-- A counter that fell was reset, and is charged whole.
delta_reset :
    (cum prev : ℤ) → pos 0 ≤ℤ cum → ltb_ℤ cum prev ≡ true → InRange prev → delta cum prev ≡ cum
unfolding delta
delta_reset cum prev p h r =
    let d : ℤ = cum -ℤ prev in
    let lt = ltb_ℤ→lt cum prev h in
    rw (wrap_id d (omega (int_laws, lt, parts_apart d, parts_apart cum, parts_apart prev)))
      (elim (Bool-cases (ltb_ℤ d (pos 0))) [
        | inl neg ↦ rw neg
        | inr fine ↦ absurd (omega (int_laws, lt, ltb_ℤ→ge d (pos 0) fine))
      ])

-- Whether a counter is that of the upload or of the download.
abbrev pub pick : Bool → ℤ × ℤ → ℤ
pick true p = p.0
pick false p = p.1

-- The growth of a counter since the last call; a counter that fell restarted from zero.
abbrev pub growth : ℤ → ℤ → ℤ
growth cum prev = if ltb_ℤ cum prev then cum else cum -ℤ prev

abbrev pub Counter : ℤ → Type 0
Counter a = (pos 0 ≤ℤ a) × InRange a

pub delta-growth : (cum prev : ℤ) → Counter cum → Counter prev → delta cum prev ≡ growth cum prev
delta-growth cum prev c p = elim (Bool-cases (ltb_ℤ cum prev)) [
  | inl fell ↦ rw fell (delta_reset cum prev c.0 fell p.1)
  | inr rose ↦ rw rose (delta_grown cum prev p.0 (ltb_ℤ→ge cum prev rose) c.1)
]

pub growth_nonneg : (cum prev : ℤ) → Counter cum → pos 0 ≤ℤ growth cum prev
growth_nonneg cum prev c = elim (Bool-cases (ltb_ℤ cum prev)) [
  | inl fell ↦ rw fell c.0
  | inr rose ↦ rw rose (omega (int_laws, ltb_ℤ→ge cum prev rose))
]

-- Pending traffic plus a growth that still fits is charged exactly, in either direction.
pub pick-charge :
    (dir : Bool) (pending d : ℤ × ℤ)
    → pos 0 ≤ℤ d.0
    → pos 0 ≤ℤ d.1
    → InRange (pick dir pending +ℤ pick dir d)
    → pick dir (charge pending d) ≡ pick dir pending +ℤ pick dir d
pick-charge true pending d h k r = elim (Bool-cases (is_active d)) [
  | inl a ↦ rw a (wrap_id _ r)
  | inr a ↦ rw a (omega (int_laws, ltb_ℤ→ge (pos 0) d.0 (ground arith)))
]
pick-charge false pending d h k r = elim (Bool-cases (is_active d)) [
  | inl a ↦ rw a (wrap_id _ r)
  | inr a ↦ rw a (omega (int_laws, ltb_ℤ→ge (pos 0) d.1 (ground arith)))
]

module _ (t : Tracker) (cums : Traffic) (alive : AliveIps) (conns uid : ℤ) where
  -- A user that the kernel does not report keeps its values.
  pub process_absent :
      IsMap cums
      → lookup uid cums ≡ none
      → (traffic_of uid (process t cums alive conns).pending_traffic
          ≡ traffic_of uid t.pending_traffic)
        × (traffic_of uid (process t cums alive conns).last_seen ≡ traffic_of uid t.last_seen)
  unfolding process
  process_absent m e =
      (pending-process_users cums uid _ m ∙ rw e, last_seen-process_users cums uid _ m ∙ rw e)

  -- If the report is a map, and the counters of the user, the last and the new ones, are int64 and
  -- not negative, and the sum fits an int64, then `Process` adds to the user's pending traffic in a
  -- direction exactly the growth of the counter, which after a counter reset is the whole counter,
  -- and remembers the counters.
  pub process_charges :
      (dir : Bool) (cum : ℤ × ℤ)
      → IsMap cums
      → lookup uid cums ≡ some cum
      → Counter cum.0
      → Counter cum.1
      → Counter (traffic_of uid t.last_seen).0
      → Counter (traffic_of uid t.last_seen).1
      → InRange (
          pick dir (traffic_of uid t.pending_traffic)
          +ℤ growth (pick dir cum) (pick dir (traffic_of uid t.last_seen)))
      → (pick dir (traffic_of uid (process t cums alive conns).pending_traffic)
          ≡ pick dir (traffic_of uid t.pending_traffic)
            +ℤ growth (pick dir cum) (pick dir (traffic_of uid t.last_seen)))
        × (traffic_of uid (process t cums alive conns).last_seen ≡ cum)
  unfolding process
  process_charges dir cum m e c0 c1 p0 p1 r = (
    rw (pending-process_users cums uid _ m)
        (rw e (picked dir (traffic_of uid t.last_seen) p0 p1 r)),
    last_seen-process_users cums uid _ m ∙ rw e,
  )
    where
      picked :
          (dir : Bool) (prev : ℤ × ℤ)
          → Counter prev.0
          → Counter prev.1
          → InRange
              (pick dir (traffic_of uid t.pending_traffic) +ℤ growth (pick dir cum) (pick dir prev))
          → pick dir (charge (traffic_of uid t.pending_traffic) (deltas cum prev))
            ≡ pick dir (traffic_of uid t.pending_traffic) +ℤ growth (pick dir cum) (pick dir prev)
      picked true prev q0 q1 fits =
          rw (delta-growth cum.0 prev.0 c0 q0, delta-growth cum.1 prev.1 c1 q1)
            (pick-charge true (traffic_of uid t.pending_traffic)
              (growth cum.0 prev.0, growth cum.1 prev.1) (growth_nonneg cum.0 prev.0 c0)
              (growth_nonneg cum.1 prev.1 c1) fits)
      picked false prev q0 q1 fits =
          rw (delta-growth cum.0 prev.0 c0 q0, delta-growth cum.1 prev.1 c1 q1)
            (pick-charge false (traffic_of uid t.pending_traffic)
              (growth cum.0 prev.0, growth cum.1 prev.1) (growth_nonneg cum.0 prev.0 c0)
              (growth_nonneg cum.1 prev.1 c1) fits)
