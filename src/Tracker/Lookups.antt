-- ===== src/Tracker/Lookups.antt =====
-- What the loops of internal/tracker/tracker.go leave for one user.
use xboard_node_win.Common.{
  ℤ, lookup, insert, lookup-insert, IsMap, insert-IsMap, from_option, if◌then◌else◌, int_key, ◌==ₖ◌,
  beq_ℤ, beq_ℤ_iff, [], ◌∷◌, Option, none, some, ◌≡◌, refl, arith, Bool-cases, inl, inr, ◌∙◌,
}
use xboard_node_win.Tracker.{
  Traffic, Cycle, traffic_of, deltas, add_traffic, is_active, process_user, process_users,
  restore_all,
}

-- What `Process` charges a user for a cumulative counter.
abbrev pub charge : ℤ × ℤ → ℤ × ℤ → ℤ × ℤ
charge pending d = if is_active d then add_traffic pending d else pending

traffic_of-insert :
    (j k : ℤ) (v : ℤ × ℤ) (m : Traffic)
    → traffic_of j (insert k v m) ≡ (if k ==ₖ j then v else traffic_of j m)
traffic_of-insert j k v m = ground (arith, lookup-insert j k v m)

last_seen-process_user :
    (j uid : ℤ) (cum : ℤ × ℤ) (c : Cycle)
    → traffic_of j (process_user uid cum c).last_seen
      ≡ (if uid ==ₖ j then cum else traffic_of j c.last_seen)
unfolding process_user
last_seen-process_user j uid cum c =
    elim (Bool-cases (is_active (deltas cum (traffic_of uid c.last_seen)))) [
      | inl e ↦ rw (e, process_user) (traffic_of-insert j uid cum c.last_seen)
      | inr e ↦ rw (e, process_user) (traffic_of-insert j uid cum c.last_seen)
    ]

pending-process_user :
    (j uid : ℤ) (cum : ℤ × ℤ) (c : Cycle)
    → traffic_of j (process_user uid cum c).pending ≡ (
        if uid ==ₖ j
        then charge (traffic_of j c.pending) (deltas cum (traffic_of j c.last_seen))
        else traffic_of j c.pending)
unfolding process_user
pending-process_user j uid cum c = elim (Bool-cases (beq_ℤ uid j)) [
  | inl same ↦
      let e = (beq_ℤ_iff uid j).0 same in
      rw same (
        rw (← e) (elim (Bool-cases (is_active (deltas cum (traffic_of uid c.last_seen)))) [
          | inl a ↦
              rw (a, process_user)
                (ground (
                  arith,
                  traffic_of-insert uid uid
                      (add_traffic (traffic_of uid c.pending)
                        (deltas cum (traffic_of uid c.last_seen)))
                      c.pending,
                  beq_ℤ_iff uid uid,
                ))
          | inr a ↦ rw (a, process_user)
        ]))
  | inr other ↦ elim (Bool-cases (is_active (deltas cum (traffic_of uid c.last_seen)))) [
    | inl a ↦
        rw (a, process_user)
          (traffic_of-insert j uid
              (add_traffic (traffic_of uid c.pending) (deltas cum (traffic_of uid c.last_seen)))
              c.pending
            ∙ rw other)
    | inr a ↦ rw (a, process_user, other)
  ]
]

-- The values of one user before and after the loop of `Process`.
abbrev pub charged : Option (ℤ × ℤ) → ℤ × ℤ → ℤ × ℤ → ℤ × ℤ
charged none prev pending = pending
charged (some cum) prev pending = charge pending (deltas cum prev)

pub last_seen-process_users :
    (us : Traffic) (uid : ℤ) (c : Cycle)
    → IsMap us
    → traffic_of uid (process_users us c).last_seen
      ≡ from_option (traffic_of uid c.last_seen) (lookup uid us)
unfolding process_users lookup
last_seen-process_users [] uid c m = refl
last_seen-process_users ((i, cum) ∷ us) uid c m = ground (
  arith,
  last_seen-process_users us uid (process_user i cum c) m.1,
  last_seen-process_user uid i cum c,
  beq_ℤ_iff i uid,
)

pub pending-process_users :
    (us : Traffic) (uid : ℤ) (c : Cycle)
    → IsMap us
    → traffic_of uid (process_users us c).pending
      ≡ charged (lookup uid us) (traffic_of uid c.last_seen) (traffic_of uid c.pending)
unfolding process_users lookup
pending-process_users [] uid c m = refl
pending-process_users ((i, cum) ∷ us) uid c m = elim (Bool-cases (beq_ℤ i uid)) [
  | inl same ↦
      let e = (beq_ℤ_iff i uid).0 same in
      let none_left : lookup uid us ≡ none = rw (← e) m.0 in
      rw same (
        pending-process_users us uid (process_user i cum c) m.1
        ∙ rw none_left (pending-process_user uid i cum c ∙ rw same))
  | inr other ↦ rw other (
      pending-process_users us uid (process_user i cum c) m.1
      ∙ rw (last_seen-process_user uid i cum c, pending-process_user uid i cum c, other))
]

-- `RestoreTraffic` adds each user's amount to what is pending.
pub traffic_of-restore_all :
    (ds : Traffic) (uid : ℤ) (pending : Traffic)
    → IsMap ds
    → traffic_of uid (restore_all ds pending) ≡ elim (lookup uid ds) [
      | none ↦ traffic_of uid pending
      | some d ↦ add_traffic (traffic_of uid pending) d
    ]
unfolding restore_all lookup
traffic_of-restore_all [] uid pending m = refl
traffic_of-restore_all ((i, d) ∷ ds) uid pending m = ground (
  arith,
  traffic_of-restore_all ds uid (insert i (add_traffic (traffic_of i pending) d) pending) m.1,
  traffic_of-insert uid i (add_traffic (traffic_of i pending) d) pending,
  beq_ℤ_iff i uid,
)

IsMap-process_user :
    (uid : ℤ) (cum : ℤ × ℤ) (c : Cycle) → IsMap c.pending → IsMap (process_user uid cum c).pending
unfolding process_user
IsMap-process_user uid cum c m =
    let d = deltas cum (traffic_of uid c.last_seen) in
    elim (Bool-cases (is_active d)) [
      | inl a ↦
          rw (a, process_user)
            (insert-IsMap uid (add_traffic (traffic_of uid c.pending) d) c.pending m)
      | inr a ↦ rw (a, process_user) m
    ]

pub IsMap-process_users :
    (us : Traffic) (c : Cycle) → IsMap c.pending → IsMap (process_users us c).pending
unfolding process_users
IsMap-process_users [] c m = m
IsMap-process_users ((uid, cum) ∷ us) c m =
    IsMap-process_users us (process_user uid cum c) (IsMap-process_user uid cum c m)

pub IsMap-restore_all :
    (ds : Traffic) (pending : Traffic) → IsMap pending → IsMap (restore_all ds pending)
unfolding restore_all
IsMap-restore_all [] pending m = m
IsMap-restore_all ((uid, d) ∷ ds) pending m =
    let sum = add_traffic (traffic_of uid pending) d in
    IsMap-restore_all ds (insert uid sum pending) (insert-IsMap uid sum pending m)
