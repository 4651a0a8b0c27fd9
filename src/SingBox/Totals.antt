-- ===== src/SingBox/Totals.antt =====
-- The sum of the connection counters of internal/kernel/singbox/conntracker.go over whole runs.
use xboard_node_win.Common.{
  ℕ, suc, ◌+◌, ℤ, pos, negsuc, ◌+ℤ◌, int_laws, Text, Dict, lookup, IsMap, is_some, is_empty,
  from_option, if◌then◌else◌, int_key, text_key, List, [], ◌∷◌, Option, none, some, Bool, true,
  false, ltb, count, count-set, bit, set, get_elem?, ◌≡◌, refl, ap, ◌∙◌, arith, Bool-cases,
  Option-cases, inl, inr,
}
use xboard_node_win.SingBox.{
  UserStats, ConnTracker, TrackedConn, add_conn, remove_conn, on_stats, us_of, ensure_users,
  set_user_map, admit, routed, admitted, is_rejected, close,
}
use xboard_node_win.SingBox.Accounting.{sum_conns, get_user_traffic}
use xboard_node_win.SingBox.Connections.{
  System, Op, connects, closes, maps, opened, shut, step, run, start, run-references,
}
use xboard_node_win.SingBox.Effects.{is_alive, is_open}
use xboard_node_win.SingBox.Report.{on_stats-sum, run-IsMap, lookup-user_ips, is_some-set}
use xboard_node_win.SingBox.Presence.{
  is_counted, AllPresent-Grows, AllPresent-get, AllPresent-set, on_stats-Grows, ensure_users-Grows,
  ensure_users-sum, Summed,
}

conn_count-add_conn :
    (ip : Text) (u : UserStats) → (add_conn ip u).conn_count ≡ u.conn_count +ℤ pos 1
unfolding add_conn
conn_count-add_conn ip u = refl

conn_count-remove_conn :
    (ip : Text) (u : UserStats) → (remove_conn ip u).conn_count ≡ u.conn_count +ℤ negsuc 0
unfolding remove_conn
conn_count-remove_conn ip u = omega int_laws

up_one : (a : ℤ) (n : ℕ) → a ≡ pos n → a +ℤ pos 1 ≡ pos (suc n)
unfolding ◌+ℤ◌
up_one a n e = ground (arith, e)

down_one : (a : ℤ) (n : ℕ) → a ≡ pos (suc n) → a +ℤ negsuc 0 ≡ pos n
unfolding ◌+ℤ◌
down_one a n e = ground (arith, e)

us_of-Present :
    (t : ConnTracker) (uuid : Text) (uid : ℤ)
    → us_of t uuid ≡ some uid
    → is_some (lookup uid t.users) ≡ true
us_of-Present t uuid uid h = ground (arith, h)

admit-Summed :
    (o : Option ℤ) (is_packet : Bool) (conn : ℕ) (uuid ip : Text) (s : System)
    → us_of s.tracker uuid ≡ o
    → Summed s
    → Summed (opened (admitted (admit is_packet conn uuid ip s.tracker)) s)
unfolding admit
admit-Summed none is_packet conn uuid ip s e a =
    rw e (record { present = (λ uid h. ground (arith, e, h), a.present); total = a.total })
admit-Summed (some j) is_packet conn uuid ip s e a =
    let users = s.tracker.users in
    let here = us_of-Present s.tracker uuid j e in
    let grows = on_stats-Grows (add_conn ip) (some j) users in
    let sum =
      on_stats-sum (add_conn ip) (pos 1) (some j) users (conn_count-add_conn ip)
        (λ uid h. us_of-Present s.tracker uuid uid (e ∙ h)) in
    rw e (record {
      present = (
        λ uid h. grows uid (us_of-Present s.tracker uuid uid (e ∙ h)),
        AllPresent-Grows users (on_stats (add_conn ip) (some j) users) s.conns grows a.present,
      );
      total = sum ∙ up_one (sum_conns users) (count is_counted s.conns) a.total;
    })

close-Summed :
    (b : Bool) (o : Option ℤ) (i : ℕ) (c : TrackedConn) (s : System)
    → get_elem? s.conns i ≡ some c
    → c.closed ≡ b
    → c.us ≡ o
    → Summed s
    → Summed (shut (close c s.tracker) i s)
unfolding close
close-Summed true o i c s at b u a =
    let c' = record c { closed = true } in
    let users = s.tracker.users in
    rw b (record {
      present =
          AllPresent-set users s.conns i c' (AllPresent-get users s.conns i c at a.present)
            a.present;
      total = a.total ∙ ap pos (ground (arith, b, count-set is_counted s.conns i c c' at));
    })
close-Summed false o i c s at b u a =
    let users = s.tracker.users in
    let left = on_stats (remove_conn c.source_ip) c.us users in
    let c' = record c { closed = true } in
    let grows = on_stats-Grows (remove_conn c.source_ip) c.us users in
    let here = AllPresent-get users s.conns i c at a.present in
    let sum =
      on_stats-sum (remove_conn c.source_ip) (negsuc 0) c.us users
        (conn_count-remove_conn c.source_ip) here in
    let counts = count-set is_counted s.conns i c c' at in
    rw b (record {
      present =
          AllPresent-set left s.conns i c' (λ uid h. grows uid (here uid h))
            (AllPresent-Grows users left s.conns grows a.present);
      total = by_stats o u sum counts;
    })
  where
    by_stats :
        (o : Option ℤ)
        → c.us ≡ o
        → sum_conns (on_stats (remove_conn c.source_ip) c.us s.tracker.users) ≡ (
            if is_some c.us
            then sum_conns s.tracker.users +ℤ negsuc 0
            else sum_conns s.tracker.users)
        → count is_counted (set s.conns i (record c { closed = true })) + bit (is_counted c)
          ≡ count is_counted s.conns + 0
        → sum_conns (on_stats (remove_conn c.source_ip) c.us s.tracker.users)
          ≡ pos (count is_counted (set s.conns i (record c { closed = true })))
    by_stats none e sum counts = ground (arith, e, sum, counts, a.total, b)
    by_stats (some j) e sum counts = ground (
      arith,
      e,
      sum,
      counts,
      a.total,
      b,
      down_one (sum_conns s.tracker.users)
          (count is_counted (set s.conns i (record c { closed = true }))),
    )

step-Summed : (op : Op) (s : System) → Summed s → Summed (step op s)
unfolding step set_user_map routed
step-Summed (maps m) s a = record {
  present =
      AllPresent-Grows s.tracker.users (ensure_users m s.tracker.users) s.conns
        (ensure_users-Grows m s.tracker.users) a.present;
  total = ensure_users-sum m s.tracker.users ∙ a.total;
}
step-Summed (connects is_packet now conn uuid ip) s a =
    elim (Bool-cases (is_rejected now s.tracker uuid ip)) [
      | inl e ↦ rw (e, step) (record { present = a.present; total = a.total })
      | inr e ↦ rw (e, step) (admit-Summed (us_of s.tracker uuid) is_packet conn uuid ip s refl a)
    ]
step-Summed (closes i) s a = elim (Option-cases (get_elem? s.conns i)) [
  | inl e ↦ rw (e, step) a
  | inr (c, e) ↦ rw (e, step) (close-Summed c.closed c.us i c s e refl refl a)
]

run-Summed : (ops : List Op) (s : System) → Summed s → Summed (run ops s)
unfolding run
run-Summed [] s a = a
run-Summed (op ∷ ops) s a = run-Summed ops (step op s) (step-Summed op s a)

none_there : (ip : Text) (ips : Dict Text ℕ) → is_empty ips ≡ true → is_some (lookup ip ips) ≡ false
unfolding lookup
none_there ip [] e = refl
none_there ip (x ∷ ips) e = cc e

-- After any connections, closes and user maps, `GetUserTraffic` reports exactly the IPs from which a
-- user has an open connection, and as its connection count the number of open connections that
-- have statistics.
pub get_user_traffic-run :
    (ops : List Op) (uid : ℤ) (ip : Text)
    → let s = run ops start in
      let (traffic, alive, conns) = get_user_traffic s.tracker in
      (is_some (lookup ip (from_option [] (lookup uid alive)))
        ≡ ltb 0 (count (is_open uid ip) s.conns))
      × (conns ≡ pos (count is_counted s.conns))
unfolding get_user_traffic sum_conns lookup
get_user_traffic-run ops uid ip =
    let s = run ops start in
    let a = run-Summed ops start (record { present = tt; total = refl }) in
    (seen s (run-IsMap ops start tt) ∙ (run-references uid ip ops).1, a.total)
  where
    seen :
        (s : System)
        → IsMap s.tracker.users
        → is_some (lookup ip (from_option [] (lookup uid (get_user_traffic s.tracker).1)))
          ≡ is_alive uid ip s.tracker.users
    seen s m = elim (Option-cases (lookup uid s.tracker.users)) [
      | inl e ↦ ground (arith, e, lookup-user_ips s.tracker.users [] uid m)
      | inr (u, e) ↦ elim (Bool-cases (is_empty u.ips)) [
        | inl b ↦
            ground (arith, e, b, lookup-user_ips s.tracker.users [] uid m, none_there ip u.ips b)
        | inr b ↦
            ground (arith, e, b, lookup-user_ips s.tracker.users [] uid m, is_some-set ip u.ips)
      ]
    ]
