-- ===== src/Tracker/Tests.antt =====
-- Examples for internal/tracker/tracker.go: one user, whose report is refused and sent again.
use xboard_node_win.Common.{
  ℤ, pos, ◌+ℤ◌, ◌-ℤ◌, Text, bytes, lookup, IsMap, InRange, int_key, text_key, sort, insert_sorted,
  ltb_ℤ, List, [], ◌∷◌, some, none, true, ◌≡◌, ◌≢◌, refl, arith,
}
use xboard_node_win.Tracker.{
  Tracker, new, Traffic, AliveIps, traffic_of, process, restore_alive_ips, calc_alive_ips_hash,
  flush_alive_ips, hash_input, uid_bytes, concat_all, keys,
}
use xboard_node_win.Tracker.Totals.{Fits}
use xboard_node_win.Tracker.Charges.{pick, growth, Counter}
use xboard_node_win.Tracker.Ledger.{
  Ledger, Op, processed, pushed, accepts, refuses, run, IsSound, AllReports, charged_total, used,
  seen, accepted_total,
}
use xboard_node_win.Tracker.Ledger.Conserve.{run-conserves}
use xboard_node_win.Tracker.Devices.{flush-restore_alive_ips}

abbrev first : Traffic
first = (pos 7, (pos 100, pos 50)) ∷ []

abbrev second : Traffic
second = (pos 7, (pos 130, pos 50)) ∷ []

abbrev ops : List Op
ops =
    processed first [] (pos 1)
    ∷ pushed
    ∷ processed second [] (pos 1)
    ∷ refuses
    ∷ pushed
    ∷ accepts
    ∷ []

abbrev start : Ledger
start = record { tracker = new; in_flight = none; accepted = [] }

start-IsSound : IsSound (pos 7) true start
unfolding lookup accepted_total
start-IsSound = record {
  flight_map = tt;
  pending_map = tt;
  accepted_nonneg = ground arith;
  flying_nonneg = ground arith;
  pending_nonneg = ground arith;
  seen_up = ground arith;
  seen_down = ground arith;
}

counters :
    (d : ℤ × ℤ) (uid : ℤ) (c : ℤ × ℤ)
    → Counter d.0
    → Counter d.1
    → lookup uid ((pos 7, d) ∷ []) ≡ some c
    → Counter c.0 × Counter c.1
unfolding lookup
counters d uid c h k e = ground (arith, h, k, e)

first_report :
    IsMap first × ((uid : ℤ) (c : ℤ × ℤ) → lookup uid first ≡ some c → Counter c.0 × Counter c.1)
unfolding lookup
first_report =
    ((refl, tt), λ uid c e. counters (pos 100, pos 50) uid c (ground arith) (ground arith) e)

second_report :
    IsMap second × ((uid : ℤ) (c : ℤ × ℤ) → lookup uid second ≡ some c → Counter c.0 × Counter c.1)
unfolding lookup
second_report =
    ((refl, tt), λ uid c e. counters (pos 130, pos 50) uid c (ground arith) (ground arith) e)

reports : AllReports ops
reports = (first_report, (tt, (second_report, (tt, (tt, (tt, tt))))))

fits : Fits (charged_total (pos 7) true start +ℤ used (pos 7) true ops (seen (pos 7) true start))
unfolding used lookup accepted_total ◌+ℤ◌ ◌-ℤ◌
fits = ground arith

run-conserves_example :
    charged_total (pos 7) true (run ops start)
    ≡ charged_total (pos 7) true start +ℤ used (pos 7) true ops (seen (pos 7) true start)
run-conserves_example = run-conserves (pos 7) true ops start start-IsSound reports fits

known : lookup (pos 7) first ≡ some (pos 100, pos 50)
unfolding lookup
known = refl

first-IsMap : IsMap first
unfolding lookup
first-IsMap = (refl, tt)

none_seen :
    Counter (traffic_of (pos 7) new.last_seen).0 × Counter (traffic_of (pos 7) new.last_seen).1
unfolding lookup
none_seen = (ground arith, ground arith)

in_range : InRange (
    pick true (traffic_of (pos 7) new.pending_traffic)
    +ℤ growth (pos 100) (pick true (traffic_of (pos 7) new.last_seen)))
unfolding lookup ◌+ℤ◌ ◌-ℤ◌
in_range = ground arith

abbrev seen_ips : AliveIps
seen_ips = (pos 7, (bytes "1.1.1.1", true) ∷ (bytes "12.2.2.2", true) ∷ []) ∷ []

abbrev other_ips : AliveIps
other_ips = (pos 7, (bytes "1.1.1.11", true) ∷ (bytes "2.2.2.2", true) ∷ []) ∷ []

abbrev same : Text → Text
same x = x

abbrev tracker : Tracker
tracker = record new { live = record (new.live) { alive_ips = seen_ips } }

ips-IsMap : IsMap seen_ips
unfolding lookup
ips-IsMap = (refl, tt)

changed : calc_alive_ips_hash same tracker.live.alive_ips ≢ tracker.last_alive_ips_hash
unfolding calc_alive_ips_hash hash_input uid_bytes sort insert_sorted lookup concat_all
changed = λ e. cc

flush-restore_alive_ips_example :
    let t' =
      restore_alive_ips ((pos 7, bytes "1.1.1.1" ∷ []) ∷ []) (flush_alive_ips same tracker).1 in
    ((flush_alive_ips same t').0 ≡ none)
    × ((flush_alive_ips same (process t' first tracker.live.alive_ips (pos 1))).0 ≡ none)
flush-restore_alive_ips_example =
    flush-restore_alive_ips same tracker ((pos 7, bytes "1.1.1.1" ∷ []) ∷ []) first (pos 1)

collide :
    hash_input seen_ips (sort ltb_ℤ (keys seen_ips))
    ≡ hash_input other_ips (sort ltb_ℤ (keys other_ips))
unfolding hash_input sort uid_bytes lookup concat_all insert_sorted
collide = refl
