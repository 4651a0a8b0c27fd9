-- ===== src/Tracker/Ledger.antt =====
-- The traffic accounting of internal/tracker/tracker.go as pushReportAsync of
-- internal/service/service.go drives it: at most one report is on its way, and a report that the
-- panel refuses is restored. `Process` may run between any two of these steps. A push that is skipped,
-- by the back-off or without reporting, changes nothing. The last push, of pushReportSync at shutdown,
-- is not modelled: it restores nothing.
pub mod Steps
pub mod Conserve
use xboard_node_win.Common.{
  ℤ, pos, ◌+ℤ◌, ◌≤ℤ◌, wrap, wrap_id, InRange, int_laws, lookup, IsMap, from_option, int_key, List,
  [], ◌∷◌, Option, none, some, Bool, true, false, ◌≡◌, refl, arith, Option-cases, inl, inr, ◌∙◌,
  ◌<◌, ap, pos_part, parts_apart, ◌^◌,
}
use xboard_node_win.Tracker.{
  Traffic, AliveIps, Tracker, traffic_of, add_traffic, process, flush_traffic, restore_traffic,
  restore_all,
}
use xboard_node_win.Tracker.Lookups.{traffic_of-restore_all, IsMap-process_users, IsMap-restore_all}
use xboard_node_win.Tracker.Charges.{
  pick, growth, Counter, growth_nonneg, process_absent, process_charges,
}
use xboard_node_win.Tracker.Totals.{
  pick_zero, pick_add, Fits, Fits-back, Fits-more, Fits-zero, Fits-less, sum_nonneg, regroup,
  regroup_right, Fits-regroup,
}

-- The tracker, the report on its way, and the reports that the panel has accepted.
pub record Ledger : Type 0 where
  pub tracker : Tracker
  pub in_flight : Option Traffic
  pub accepted : List Traffic

pub data Op : Type 0 where
  processed : Traffic → AliveIps → ℤ → Op
  pushed accepts refuses : Op

abbrev after_flush : Traffic × Tracker → Ledger → Ledger
after_flush (report, t) l = record l { tracker = t; in_flight = some report }

-- The `pushActive` flag allows one report at a time; the panel answers only what is on its way.
unfoldable pub step : Op → Ledger → Ledger
step (processed cums alive conns) l = record l { tracker = process l.tracker cums alive conns }
step pushed l = elim l.in_flight [
  | none ↦ after_flush (flush_traffic l.tracker) l
  | some report ↦ l
]
step accepts l = elim l.in_flight [
  | none ↦ l
  | some report ↦ record l { in_flight = none; accepted = report ∷ l.accepted }
]
step refuses l = elim l.in_flight [
  | none ↦ l
  | some report ↦ record l { tracker = restore_traffic report l.tracker; in_flight = none }
]

unfoldable pub run : List Op → Ledger → Ledger
run [] l = l
run (op ∷ ops) l = run ops (step op l)

-- Every report of the kernel is a map of counters, none of them negative.
abbrev pub IsReport : Op → Type 0
IsReport (processed cums alive conns) =
    IsMap cums × ((uid : ℤ) (c : ℤ × ℤ) → lookup uid cums ≡ some c → Counter c.0 × Counter c.1)
IsReport pushed = Unit
IsReport accepts = Unit
IsReport refuses = Unit

abbrev pub AllReports : List Op → Type 0
AllReports [] = Unit
AllReports (op ∷ ops) = IsReport op × AllReports ops

abbrev pub at : Tracker → Option Traffic → List Traffic → Ledger
at t f acc = record { tracker = t; in_flight = f; accepted = acc }

module _ (uid : ℤ) (dir : Bool) where
  unfoldable pub accepted_total : List Traffic → ℤ
  accepted_total [] = pos 0
  accepted_total (r ∷ rs) = pick dir (traffic_of uid r) +ℤ accepted_total rs

  abbrev pub pending : Ledger → ℤ
  pending l = pick dir (traffic_of uid l.tracker.pending_traffic)

  abbrev pub flying : Ledger → ℤ
  flying l = pick dir (traffic_of uid (from_option [] l.in_flight))

  abbrev pub seen : Ledger → ℤ
  seen l = pick dir (traffic_of uid l.tracker.last_seen)

  -- All that has been charged to the user so far, wherever it stands.
  abbrev pub charged_total : Ledger → ℤ
  charged_total l = accepted_total l.accepted +ℤ (flying l +ℤ pending l)

  -- The growth that a reported counter shows, from its last value.
  abbrev pub grown : Option (ℤ × ℤ) → ℤ → ℤ
  grown none last = pos 0
  grown (some c) last = growth (pick dir c) last

  abbrev pub latest : Option (ℤ × ℤ) → ℤ → ℤ
  latest none last = last
  latest (some c) last = pick dir c

  -- What the kernel's counters say of one step.
  abbrev pub used_by : Op → ℤ → ℤ
  used_by (processed cums alive conns) last = grown (lookup uid cums) last
  used_by pushed last = pos 0
  used_by accepts last = pos 0
  used_by refuses last = pos 0

  abbrev pub last_after : Op → ℤ → ℤ
  last_after (processed cums alive conns) last = latest (lookup uid cums) last
  last_after pushed last = last
  last_after accepts last = last
  last_after refuses last = last

  -- What the kernel's counters say of a whole run.
  unfoldable pub used : List Op → ℤ → ℤ
  used [] last = pos 0
  used (op ∷ ops) last = used_by op last +ℤ used ops (last_after op last)

  pub record IsSound (l : Ledger) : Type 0 where
    pub flight_map : IsMap (from_option [] l.in_flight)
    pub pending_map : IsMap l.tracker.pending_traffic
    pub accepted_nonneg : pos 0 ≤ℤ accepted_total l.accepted
    pub flying_nonneg : pos 0 ≤ℤ flying l
    pub pending_nonneg : pos 0 ≤ℤ pending l
    pub seen_up : Counter (traffic_of uid l.tracker.last_seen).0
    pub seen_down : Counter (traffic_of uid l.tracker.last_seen).1

  -- What one step does to the ledger.
  abbrev Advances : Op → Ledger → Ledger → Type 0
  Advances op l l' =
      IsSound l'
      × (charged_total l' ≡ charged_total l +ℤ used_by op (seen l))
      × (seen l' ≡ last_after op (seen l))
