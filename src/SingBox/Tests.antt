-- ===== src/SingBox/Tests.antt =====
-- Examples for internal/kernel/singbox/conntracker.go.
use xboard_node_win.Common.{
  pos, bytes, List, [], ◌∷◌, some, none, true, false, ◌&&◌, ltb, leb, ltb_ℤ, pos_part, not, count,
  refl, ◌≡◌, arith, IsMap, is_some, from_option, lookup, int_key, text_key,
}
use xboard_node_win.SingBox.{UserStats, new_conn_tracker, check_device_gate}
use xboard_node_win.SingBox.{ConnTracker, TrackedConn}
use xboard_node_win.SingBox.Accounting.{get_user_traffic}
use xboard_node_win.SingBox.Totals.{get_user_traffic-run}
use xboard_node_win.SingBox.Presence.{is_counted}
use xboard_node_win.SingBox.Gate.{rank, seen_ips, is_known, fresh_devices, check_device_gate_lem}
use xboard_node_win.SingBox.Connections.{Op, connects, closes, maps, run, start, run-references}
use xboard_node_win.SingBox.Effects.{refs_of, is_alive, conns_of, is_open, is_open_of}

-- Two connections from one IP and one from another, of which the first is closed twice.
abbrev ops : List Op
ops =
    maps ((bytes "a1", pos 7) ∷ [])
    ∷ connects false 0 1 (bytes "a1") (bytes "1.1.1.1")
    ∷ connects true 0 2 (bytes "a1") (bytes "1.1.1.1")
    ∷ connects false 0 3 (bytes "a1") (bytes "2.2.2.2")
    ∷ closes 2
    ∷ closes 2
    ∷ []

run-references_example :
    (refs_of (pos 7) (bytes "1.1.1.1") (run ops start).tracker.users
      ≡ count (is_open (pos 7) (bytes "1.1.1.1")) (run ops start).conns)
    × (is_alive (pos 7) (bytes "1.1.1.1") (run ops start).tracker.users
        ≡ ltb 0 (count (is_open (pos 7) (bytes "1.1.1.1")) (run ops start).conns))
    × (conns_of (pos 7) (run ops start).tracker.users
        ≡ pos (count (is_open_of (pos 7)) (run ops start).conns))
run-references_example = run-references (pos 7) (bytes "1.1.1.1") ops

abbrev busy : UserStats
busy = record {
  upload = pos 0;
  download = pos 0;
  ips = (bytes "2.2.2.2", 1) ∷ [];
  conn_count = pos 1;
}

check_device_gate_lem_example :
    check_device_gate 0 new_conn_tracker (some busy) (pos 7) (bytes "3.3.3.3") (pos 1) ≡ (
      ltb_ℤ (pos 0) (pos 1)
      && (not (is_known (bytes "3.3.3.3") busy.ips (fresh_devices 0 new_conn_tracker (pos 7)))
          && leb (pos_part (pos 1)) (
              rank
                (bytes "3.3.3.3")
                (seen_ips busy.ips (fresh_devices 0 new_conn_tracker (pos 7))))))
check_device_gate_lem_example =
    check_device_gate_lem 0 new_conn_tracker (some busy) (pos 7) (bytes "3.3.3.3") (pos 1)

lowest : (u : UserStats) → some busy ≡ some u → rank (bytes "1.1.1.1") (seen_ips u.ips none) ≡ 0
lowest u e = ground (arith, e)

get_user_traffic-run_example :
    let s = run ops start in
    let (traffic, alive, conns) = get_user_traffic s.tracker in
    (is_some (lookup (bytes "1.1.1.1") (from_option [] (lookup (pos 7) alive)))
      ≡ ltb 0 (count (is_open (pos 7) (bytes "1.1.1.1")) s.conns))
    × (conns ≡ pos (count is_counted s.conns))
get_user_traffic-run_example = get_user_traffic-run ops (pos 7) (bytes "1.1.1.1")

-- A user that has sent some bytes, and one of its UDP connections.
abbrev sender : UserStats
sender = record {
  upload = pos 100;
  download = pos 0;
  ips = (bytes "1.1.1.1", 1) ∷ [];
  conn_count = pos 1;
}

abbrev tracker : ConnTracker
tracker = record new_conn_tracker { users = (pos 7, sender) ∷ [] }

abbrev packets : TrackedConn
packets = record {
  is_packet = true;
  us = some (pos 7);
  conn_id = bytes "sb-1";
  source_ip = bytes "1.1.1.1";
  closed = false;
}

users-IsMap : IsMap tracker.users
unfolding lookup
users-IsMap = (refl, tt)

has_stats : lookup (pos 7) tracker.users ≡ some sender
unfolding lookup
has_stats = refl
