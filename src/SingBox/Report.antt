-- ===== src/SingBox/Report.antt =====
-- What `GetUserTraffic` of internal/kernel/singbox/conntracker.go reports of the open connections.
use xboard_node_win.Common.{
  ℕ, ℤ, pos, ◌+ℤ◌, ◌-ℤ◌, int_laws, Text, Dict, lookup, insert, lookup-insert, IsMap, insert-IsMap,
  is_some, is_empty, ltb_ℤ, if◌then◌else◌, int_key, text_key, ◌==ₖ◌, beq_ℤ_iff, List, [], ◌∷◌,
  Option, none, some, Bool, true, ◌||◌, get_elem?, map, ◌≡◌, refl, ◌∙◌, arith, Bool-cases,
  Option-cases, inl, inr,
}
use xboard_node_win.SingBox.{
  UserStats, ConnTracker, add_conn, remove_conn, on_stats, us_of, ensure_users, new_user_stats,
  set_user_map, admit, routed, is_rejected, close, alive_ip_list,
}
use xboard_node_win.SingBox.Accounting.{user_traffic, user_ips, sum_conns, get_user_traffic}
use xboard_node_win.SingBox.Connections.{System, Op, connects, closes, maps, step, run}

pub lookup-user_ips :
    (us : Dict ℤ UserStats) (alive : Dict ℤ (Dict Text Bool)) (uid : ℤ)
    → IsMap us
    → lookup uid (user_ips us alive) ≡ elim (lookup uid us) [
      | none ↦ lookup uid alive
      | some u ↦ elim (alive_ip_list u) [ none ↦ lookup uid alive | some ips ↦ some ips ]
    ]
unfolding user_ips lookup
lookup-user_ips [] alive uid m = refl
lookup-user_ips ((i, u) ∷ us) alive uid m = elim (Bool-cases (is_empty u.ips)) [
  | inl e ↦ ground (arith, e, lookup-user_ips us alive uid m.1, beq_ℤ_iff i uid)
  | inr e ↦
      let ips : Dict Text Bool = map (λ x. (x.0, true)) u.ips in
      ground (
        arith,
        e,
        lookup-user_ips us (insert i ips alive) uid m.1,
        lookup-insert uid i ips alive,
        beq_ℤ_iff i uid,
      )
]

pub lookup-user_traffic :
    (us : Dict ℤ UserStats) (traffic : Dict ℤ (ℤ × ℤ)) (uid : ℤ)
    → IsMap us
    → lookup uid (user_traffic us traffic) ≡ elim (lookup uid us) [
      | none ↦ lookup uid traffic
      | some u ↦
          if ltb_ℤ (pos 0) u.upload || ltb_ℤ (pos 0) u.download
          then some (u.upload, u.download)
          else lookup uid traffic
    ]
unfolding user_traffic lookup
lookup-user_traffic [] traffic uid m = refl
lookup-user_traffic ((i, u) ∷ us) traffic uid m =
    elim (Bool-cases (ltb_ℤ (pos 0) u.upload || ltb_ℤ (pos 0) u.download)) [
      | inr e ↦
          rw (e, user_traffic)
            (ground (arith, e, lookup-user_traffic us traffic uid m.1, beq_ℤ_iff i uid))
      | inl e ↦
          rw (e, user_traffic)
            (ground (
              arith,
              e,
              lookup-user_traffic us (insert i (u.upload, u.download) traffic) uid m.1,
              lookup-insert uid i (u.upload, u.download) traffic,
              beq_ℤ_iff i uid,
            ))
    ]

pub is_some-set :
    (ip : Text) (ips : Dict Text ℕ)
    → is_some (lookup ip (map (λ x. (x.0, true)) ips)) ≡ is_some (lookup ip ips)
unfolding lookup
is_some-set ip [] = refl
is_some-set ip (x ∷ ips) = ground (arith, is_some-set ip ips)

on_stats-IsMap :
    (f : UserStats → UserStats) (us : Option ℤ) (users : Dict ℤ UserStats)
    → IsMap users
    → IsMap (on_stats f us users)
on_stats-IsMap f none users m = m
on_stats-IsMap f (some uid) users m = both (lookup uid users)
  where
    both :
        (o : Option UserStats) → IsMap (elim o [ none ↦ users | some u ↦ insert uid (f u) users ])
    both none = m
    both (some u) = insert-IsMap uid (f u) users m

ensure_users-IsMap :
    (m : Dict Text ℤ) (users : Dict ℤ UserStats) → IsMap users → IsMap (ensure_users m users)
unfolding ensure_users
ensure_users-IsMap [] users h = h
ensure_users-IsMap ((uuid, uid) ∷ m) users h = elim (Option-cases (lookup uid users)) [
  | inl e ↦ rw e (
      ensure_users-IsMap m (insert uid new_user_stats users)
        (insert-IsMap uid new_user_stats users h))
  | inr (u, e) ↦ rw e (ensure_users-IsMap m users h)
]

step-IsMap : (op : Op) (s : System) → IsMap s.tracker.users → IsMap (step op s).tracker.users
unfolding step set_user_map routed admit close
step-IsMap (maps m) s h = ensure_users-IsMap m s.tracker.users h
step-IsMap (connects is_packet now conn uuid ip) s h =
    elim (Bool-cases (is_rejected now s.tracker uuid ip)) [
      | inl e ↦ rw (e, step) h
      | inr e ↦ rw (e, step) (on_stats-IsMap (add_conn ip) (us_of s.tracker uuid) s.tracker.users h)
    ]
step-IsMap (closes i) s h = elim (Option-cases (get_elem? s.conns i)) [
  | inl e ↦ rw (e, step) h
  | inr (c, e) ↦ elim (Bool-cases c.closed) [
    | inl b ↦ rw (e, b, step) h
    | inr b ↦ rw (e, b, step) (on_stats-IsMap (remove_conn c.source_ip) c.us s.tracker.users h)
  ]
]

pub run-IsMap :
    (ops : List Op) (s : System) → IsMap s.tracker.users → IsMap (run ops s).tracker.users
unfolding run
run-IsMap [] s h = h
run-IsMap (op ∷ ops) s h = run-IsMap ops (step op s) (step-IsMap op s h)

pub sum_conns-insert :
    (uid : ℤ) (v : UserStats) (users : Dict ℤ UserStats)
    → sum_conns (insert uid v users) ≡ elim (lookup uid users) [
      | none ↦ sum_conns users +ℤ v.conn_count
      | some u ↦ sum_conns users -ℤ u.conn_count +ℤ v.conn_count
    ]
unfolding sum_conns insert lookup
sum_conns-insert uid v [] = omega int_laws
sum_conns-insert uid v ((i, u) ∷ users) = elim (Bool-cases (i ==ₖ uid)) [
  | inl e ↦ rw e (omega int_laws)
  | inr e ↦ elim (Option-cases (lookup uid users)) [
    | inl k ↦
        let ih = sum_conns-insert uid v users in
        let less = rw k at ih in rw (e, k, less) (omega int_laws)
    | inr (w, k) ↦
        let ih = sum_conns-insert uid v users in
        let less = rw k at ih in rw (e, k, less) (omega int_laws)
  ]
]

pub on_stats-sum :
    (f : UserStats → UserStats) (d : ℤ) (us : Option ℤ) (users : Dict ℤ UserStats)
    → ((u : UserStats) → (f u).conn_count ≡ u.conn_count +ℤ d)
    → ((uid : ℤ) → us ≡ some uid → is_some (lookup uid users) ≡ true)
    → sum_conns (on_stats f us users)
      ≡ (if is_some us then sum_conns users +ℤ d else sum_conns users)
on_stats-sum f d none users h k = refl
on_stats-sum f d (some uid) users h k = by_value (lookup uid users) refl
  where
    by_value :
        (o : Option UserStats)
        → lookup uid users ≡ o
        → sum_conns (elim o [ none ↦ users | some u ↦ insert uid (f u) users ])
          ≡ sum_conns users +ℤ d
    by_value none e = absurd (cc (k uid refl, e))
    by_value (some u) e =
        let put = sum_conns-insert uid (f u) users in
        let found = rw e at put in found ∙ rw (h u) (omega int_laws)

-- If no user id is twice in the statistics, `GetUserTraffic` reports for a user exactly its two
-- counters if one of them is positive, and nothing else.
pub get_user_traffic_counters :
    (t : ConnTracker) (uid : ℤ)
    → IsMap t.users
    → lookup uid (get_user_traffic t).0 ≡ elim (lookup uid t.users) [
      | none ↦ none
      | some u ↦
          if ltb_ℤ (pos 0) u.upload || ltb_ℤ (pos 0) u.download
          then some (u.upload, u.download)
          else none
    ]
unfolding get_user_traffic lookup
get_user_traffic_counters t uid m = lookup-user_traffic t.users [] uid m
