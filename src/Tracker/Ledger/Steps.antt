-- ===== src/Tracker/Ledger/Steps.antt =====
-- One step of the reporting service of internal/service/service.go on the ledger.
use xboard_node_win.Common.{
  ℤ, pos, ◌+ℤ◌, ◌≤ℤ◌, wrap_id, InRange, int_laws, lookup, IsMap, int_key, List, Option, none, some,
  Bool, true, false, ◌≡◌, refl, arith, Option-cases, inl, inr, ◌∙◌, ap,
}
use xboard_node_win.Tracker.{
  Traffic, AliveIps, Tracker, traffic_of, process, flush_traffic, restore_traffic, restore_all,
}
use xboard_node_win.Tracker.Lookups.{traffic_of-restore_all, IsMap-process_users, IsMap-restore_all}
use xboard_node_win.Tracker.Charges.{
  pick, growth, Counter, growth_nonneg, process_absent, process_charges,
}
use xboard_node_win.Tracker.Totals.{
  pick_zero, pick_add, Fits, Fits-back, Fits-more, Fits-zero, sum_nonneg, regroup,
}
use xboard_node_win.Tracker.Ledger.{
  Ledger, Op, processed, pushed, accepts, refuses, step, IsReport, at, accepted_total, pending,
  flying, seen, charged_total, grown, latest, used_by, IsSound, Advances,
}

module _ (uid : ℤ) (dir : Bool) where
  step-pushed :
      (t : Tracker) (f : Option Traffic) (acc : List Traffic)
      → IsSound uid dir (at t f acc)
      → Advances uid dir pushed (at t f acc) (step pushed (at t f acc))
  unfolding step flush_traffic lookup
  step-pushed t none acc s =
      let z = pick_zero dir in
      (
        record {
          flight_map = s.pending_map;
          pending_map = tt;
          accepted_nonneg = s.accepted_nonneg;
          flying_nonneg = s.pending_nonneg;
          pending_nonneg = rw z (omega arith);
          seen_up = s.seen_up;
          seen_down = s.seen_down;
        },
        rw z (omega int_laws),
        refl,
      )
  step-pushed t (some report) acc s = (s, omega int_laws, refl)

  step-accepts :
      (t : Tracker) (f : Option Traffic) (acc : List Traffic)
      → IsSound uid dir (at t f acc)
      → Advances uid dir accepts (at t f acc) (step accepts (at t f acc))
  unfolding step accepted_total lookup
  step-accepts t none acc s = (s, omega int_laws, refl)
  step-accepts t (some report) acc s =
      let z = pick_zero dir in
      (
        record {
          flight_map = tt;
          pending_map = s.pending_map;
          accepted_nonneg = omega (int_laws, s.accepted_nonneg, s.flying_nonneg);
          flying_nonneg = rw z (omega arith);
          pending_nonneg = s.pending_nonneg;
          seen_up = s.seen_up;
          seen_down = s.seen_down;
        },
        rw z (omega int_laws),
        refl,
      )

  restored :
      (t : Tracker) (report : Traffic)
      → IsMap report
      → pos 0 ≤ℤ pick dir (traffic_of uid report)
      → InRange (pick dir (traffic_of uid t.pending_traffic) +ℤ pick dir (traffic_of uid report))
      → InRange (pick dir (traffic_of uid t.pending_traffic))
      → pick dir (traffic_of uid (restore_all report t.pending_traffic))
        ≡ pick dir (traffic_of uid t.pending_traffic) +ℤ pick dir (traffic_of uid report)
  restored t report m h r r' = elim (Option-cases (lookup uid report)) [
    | inl e ↦
        rw (traffic_of-restore_all report uid t.pending_traffic m, e)
          (rw (pick_zero dir) (omega int_laws))
    | inr (d, e) ↦
        rw (traffic_of-restore_all report uid t.pending_traffic m, e)
          (pick_add dir (traffic_of uid t.pending_traffic) d ∙ wrap_id _ (rw e at r))
  ]

  step-refuses :
      (t : Tracker) (f : Option Traffic) (acc : List Traffic)
      → IsSound uid dir (at t f acc)
      → Fits (charged_total uid dir (at t f acc))
      → Advances uid dir refuses (at t f acc) (step refuses (at t f acc))
  unfolding step restore_traffic lookup
  step-refuses t none acc s fits = (s, omega int_laws, refl)
  step-refuses t (some report) acc s fits =
      let z = pick_zero dir in
      let p = pick dir (traffic_of uid t.pending_traffic) in
      let r = pick dir (traffic_of uid report) in
      let fit =
        Fits-back (accepted_total uid dir acc) r p s.accepted_nonneg s.flying_nonneg
          s.pending_nonneg fits in
      let back = restored t report s.flight_map s.flying_nonneg fit.0 fit.1 in
      (
        record {
          flight_map = tt;
          pending_map = IsMap-restore_all report t.pending_traffic s.pending_map;
          accepted_nonneg = s.accepted_nonneg;
          flying_nonneg = rw z (omega arith);
          pending_nonneg = rw back (omega (int_laws, s.flying_nonneg, s.pending_nonneg));
          seen_up = s.seen_up;
          seen_down = s.seen_down;
        },
        rw (z, back) (omega int_laws),
        refl,
      )

  pick-Counter : (c : ℤ × ℤ) → Counter c.0 → Counter c.1 → Counter (pick dir c)
  pick-Counter c h k = both dir
    where
      both : (b : Bool) → Counter (pick b c)
      both true = h
      both false = k

  pub growth_zero_le :
      (c : ℤ × ℤ) (last : ℤ) → Counter c.0 → Counter c.1 → pos 0 ≤ℤ growth (pick dir c) last
  growth_zero_le c last h k = growth_nonneg (pick dir c) last (pick-Counter c h k)

  pending-IsMap-process :
      (t : Tracker) (cums : Traffic) (alive : AliveIps) (conns : ℤ)
      → IsMap t.pending_traffic
      → IsMap (process t cums alive conns).pending_traffic
  unfolding process
  pending-IsMap-process t cums alive conns m = IsMap-process_users cums _ m

  processed_at :
      (t : Tracker) (f : Option Traffic) (acc : List Traffic) (cums : Traffic) (alive : AliveIps)
      (conns : ℤ) (o : Option (ℤ × ℤ))
      → lookup uid cums ≡ o
      → IsSound uid dir (at t f acc)
      → IsReport (processed cums alive conns)
      → Fits (charged_total uid dir (at t f acc) +ℤ grown uid dir o (seen uid dir (at t f acc)))
      → let l' = at (process t cums alive conns) f acc in
        IsSound uid dir l'
        × (charged_total uid dir l'
            ≡ charged_total uid dir (at t f acc) +ℤ grown uid dir o (seen uid dir (at t f acc)))
        × (seen uid dir l' ≡ latest uid dir o (seen uid dir (at t f acc)))
  processed_at t f acc cums alive conns none e s report fits =
      let q = process_absent t cums alive conns uid report.0 e in
      (
        record {
          flight_map = s.flight_map;
          pending_map = pending-IsMap-process t cums alive conns s.pending_map;
          accepted_nonneg = s.accepted_nonneg;
          flying_nonneg = s.flying_nonneg;
          pending_nonneg = rw q.0 s.pending_nonneg;
          seen_up = rw q.1 s.seen_up;
          seen_down = rw q.1 s.seen_down;
        },
        rw q.0 (omega int_laws),
        ap (pick dir) q.1,
      )
  processed_at t f acc cums alive conns (some c) e s report fits =
      let ok = report.1 uid c e in
      let g = growth (pick dir c) (seen uid dir (at t f acc)) in
      let grows = growth_zero_le c (seen uid dir (at t f acc)) ok.0 ok.1 in
      let a = accepted_total uid dir acc in
      let r = flying uid dir (at t f acc) in
      let p = pending uid dir (at t f acc) in
      let q =
        process_charges t cums alive conns uid dir c report.0 e ok.0 ok.1 s.seen_up s.seen_down
          (Fits-more a r p g s.accepted_nonneg s.flying_nonneg s.pending_nonneg grows fits) in
      (
        record {
          flight_map = s.flight_map;
          pending_map = pending-IsMap-process t cums alive conns s.pending_map;
          accepted_nonneg = s.accepted_nonneg;
          flying_nonneg = s.flying_nonneg;
          pending_nonneg = rw q.0 (sum_nonneg p g s.pending_nonneg grows);
          seen_up = rw q.1 ok.0;
          seen_down = rw q.1 ok.1;
        },
        rw q.0 (regroup a r p g),
        ap (pick dir) q.1,
      )

  -- One step of the service keeps the ledger sound, and charges the user with exactly what the
  -- kernel's counters say, as long as the total is an int64.
  pub step-Advances :
      (op : Op) (l : Ledger)
      → IsSound uid dir l
      → IsReport op
      → Fits (charged_total uid dir l +ℤ used_by uid dir op (seen uid dir l))
      → Advances uid dir op l (step op l)
  unfolding step
  step-Advances (processed cums alive conns) l s report fits =
      processed_at l.tracker l.in_flight l.accepted cums alive conns (lookup uid cums) refl s report
        fits
  step-Advances pushed l s report fits = step-pushed l.tracker l.in_flight l.accepted s
  step-Advances accepts l s report fits = step-accepts l.tracker l.in_flight l.accepted s
  step-Advances refuses l s report fits =
      step-refuses l.tracker l.in_flight l.accepted s (Fits-zero (charged_total uid dir l) fits)
