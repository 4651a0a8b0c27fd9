-- ===== src/Tracker/Ledger/Conserve.antt =====
-- Whole runs of the reporting service of internal/service/service.go.
use xboard_node_win.Common.{
  ℤ, pos, ◌+ℤ◌, ◌≤ℤ◌, int_laws, lookup, int_key, List, [], ◌∷◌, Option, none, some, Bool, ◌≡◌, refl,
  arith, ◌∙◌,
}
use xboard_node_win.Tracker.Totals.{Fits, Fits-less, sum_nonneg, regroup_right, Fits-regroup}
use xboard_node_win.Tracker.Ledger.{
  Ledger, Op, processed, pushed, accepts, refuses, step, run, IsReport, AllReports, seen,
  charged_total, grown, used_by, last_after, used, IsSound,
}
use xboard_node_win.Tracker.Ledger.Steps.{step-Advances, growth_zero_le}

module _ (uid : ℤ) (dir : Bool) where
  used_by_nonneg : (op : Op) (last : ℤ) → IsReport op → pos 0 ≤ℤ used_by uid dir op last
  used_by_nonneg (processed cums alive conns) last report = by_value (lookup uid cums) refl
    where
      by_value : (o : Option (ℤ × ℤ)) → lookup uid cums ≡ o → pos 0 ≤ℤ grown uid dir o last
      by_value none e = omega arith
      by_value (some c) e = growth_zero_le uid dir c last (report.1 uid c e).0 (report.1 uid c e).1
  used_by_nonneg pushed last report = omega arith
  used_by_nonneg accepts last report = omega arith
  used_by_nonneg refuses last report = omega arith

  used_nonneg : (ops : List Op) (last : ℤ) → AllReports ops → pos 0 ≤ℤ used uid dir ops last
  unfolding used
  used_nonneg [] last reports = omega arith
  used_nonneg (op ∷ ops) last reports =
      sum_nonneg (used_by uid dir op last) (used uid dir ops (last_after uid dir op last))
        (used_by_nonneg op last reports.0) (used_nonneg ops (last_after uid dir op last) reports.1)

  -- No traffic of a user is lost and none is counted twice, in either direction. Start where pending
  -- and flying traffic are maps, no total is negative and the last counters are int64 and not
  -- negative; let every report of the kernel be a map of such counters; and let the total fit an
  -- int64. Then after any run of reports, pushes, acceptances and refusals, what the panel has
  -- accepted, what is on its way and what is pending add up to what they were before plus what the
  -- kernel's counters say.
  pub run-conserves :
      (ops : List Op) (l : Ledger)
      → IsSound uid dir l
      → AllReports ops
      → Fits (charged_total uid dir l +ℤ used uid dir ops (seen uid dir l))
      → charged_total uid dir (run ops l)
        ≡ charged_total uid dir l +ℤ used uid dir ops (seen uid dir l)
  unfolding run used
  run-conserves [] l s reports fits = omega int_laws
  run-conserves (op ∷ ops) l s reports fits =
      let u = used_by uid dir op (seen uid dir l) in
      let v = used uid dir ops (last_after uid dir op (seen uid dir l)) in
      let st = step-Advances uid dir op l s reports.0 (
        Fits-less (charged_total uid dir l) u v
          (used_nonneg ops (last_after uid dir op (seen uid dir l)) reports.1) fits) in
      run-conserves ops (step op l) st.0 reports.1
        (rw (st.1, st.2) (Fits-regroup (charged_total uid dir l) u v fits))
      ∙ rw (st.1, st.2) (regroup_right (charged_total uid dir l) u v)
