-- ===== src/SingBox/Connections.antt =====
-- The IP references of internal/kernel/singbox/conntracker.go against the connections that are open.
use xboard_node_win.Common.{
  ℕ, ℤ, pos, Text, Dict, lookup, is_some, ltb, int_key, text_key, beq_ℤ_iff, List, [], ◌∷◌, Option,
  none, some, Bool, true, false, count, count-set, set, get_elem?, ◌≡◌, refl, ap, ◌∙◌, arith,
  Bool-cases, Option-cases, inl, inr,
}
use xboard_node_win.SingBox.{
  ConnTracker, TrackedConn, us_of, uid_of, set_user_map, admit, routed, admitted, is_rejected,
  close, new_conn_tracker,
}
use xboard_node_win.SingBox.Effects.{
  refs_of, is_of, is_open, is_alive, conns_of, is_open_of, refs-add_conn, refs-remove_conn,
  alive-add_conn, alive-remove_conn, conns-add_conn, conns-remove_conn, ensured,
}

-- The tracker with every connection that it has admitted, the newest first.
pub record System : Type 0 where
  pub tracker : ConnTracker
  pub conns : List TrackedConn

pub data Op : Type 0 where
  connects : Bool → ℕ → ℕ → Text → Text → Op
  closes : ℕ → Op
  maps : Dict Text ℤ → Op

abbrev pub opened : Option TrackedConn × ConnTracker → System → System
opened (none, t) s = record s { tracker = t }
opened (some c, t) s = record { tracker = t; conns = c ∷ s.conns }

abbrev pub shut : TrackedConn × ConnTracker → ℕ → System → System
shut (c, t) i s = record { tracker = t; conns = set s.conns i c }

-- A connection arrives, or the connection at a position is closed, perhaps once more.
unfoldable pub step : Op → System → System
step (connects is_packet now conn uuid ip) s =
    opened (routed is_packet now conn uuid ip s.tracker) s
step (maps m) s = record s { tracker = set_user_map m s.tracker }
step (closes i) s = elim (get_elem? s.conns i) [ none ↦ s | some c ↦ shut (close c s.tracker) i s ]

unfoldable pub run : List Op → System → System
run [] s = s
run (op ∷ ops) s = run ops (step op s)

module _ (uid : ℤ) (ip : Text) where
  -- The tracker's books agree with the connections that are open.
  pub record Agrees (s : System) : Type 0 where
    pub references : refs_of uid ip s.tracker.users ≡ count (is_open uid ip) s.conns
    pub alive : is_alive uid ip s.tracker.users ≡ ltb 0 (refs_of uid ip s.tracker.users)
    pub number : conns_of uid s.tracker.users ≡ pos (count (is_open_of uid) s.conns)

  us_of-present :
      (t : ConnTracker) (uuid : Text)
      → is_of uid (us_of t uuid) ≡ true
      → is_some (lookup uid t.users) ≡ true
  us_of-present t uuid h = ground (arith, beq_ℤ_iff (uid_of t uuid) uid)

  admit-Agrees :
      (s : System) (is_packet : Bool) (conn : ℕ) (uuid ip' : Text)
      → Agrees s
      → Agrees (opened (admitted (admit is_packet conn uuid ip' s.tracker)) s)
  unfolding admit
  admit-Agrees s is_packet conn uuid ip' a =
      let us = us_of s.tracker uuid in
      let users = s.tracker.users in
      record {
        references =
            ground (
              arith,
              a.references,
              refs-add_conn uid ip ip' us users (us_of-present s.tracker uuid),
            );
        alive = alive-add_conn uid ip ip' us users a.alive;
        number = ground (
          arith,
          a.number,
          conns-add_conn uid ip ip' us users (count (is_open_of uid) s.conns)
              (us_of-present s.tracker uuid),
        );
      }

  close_first :
      (s : System) (i : ℕ) (c : TrackedConn)
      → get_elem? s.conns i ≡ some c
      → c.closed ≡ false
      → Agrees s
      → Agrees (shut (close c s.tracker) i s)
  unfolding close
  close_first s i c at first a =
      let users = s.tracker.users in
      let c' = record c { closed = true } in
      rw first (record {
        references = ground (
          arith,
          a.references,
          first,
          count-set (is_open uid ip) s.conns i c c' at,
          refs-remove_conn uid ip c.source_ip c.us users,
        );
        alive = alive-remove_conn uid ip c.source_ip c.us users a.alive;
        number =
            let n = count (is_open_of uid) s.conns in
            let same = count-set (is_open_of uid) s.conns i c c' at in
            ground (
              arith,
              a.number,
              first,
              same,
              conns-remove_conn uid ip c.source_ip c.us users n a.number
                  (λ m. ground (arith, first, same, m)),
            );
      })

  close_again :
      (s : System) (i : ℕ) (c : TrackedConn)
      → get_elem? s.conns i ≡ some c
      → c.closed ≡ true
      → Agrees s
      → Agrees (shut (close c s.tracker) i s)
  unfolding close
  close_again s i c at again a = rw again (record {
    references = ground (arith, a.references, count-set (is_open uid ip) s.conns i c c at);
    alive = a.alive;
    number = ground (arith, a.number, count-set (is_open_of uid) s.conns i c c at);
  })

  step-Agrees : (op : Op) (s : System) → Agrees s → Agrees (step op s)
  unfolding step set_user_map routed
  step-Agrees (maps m) s a =
      let same = ensured uid ip m s.tracker.users in
      record {
        references = same.0 ∙ a.references;
        alive = ground (arith, a.alive, same.0, same.1);
        number = same.2 ∙ a.number;
      }
  step-Agrees (closes i) s a = elim (Option-cases (get_elem? s.conns i)) [
    | inl e ↦ rw (e, step) a
    | inr (c, e) ↦
        rw (e, step)
          (elim (Bool-cases c.closed) [
            | inl again ↦ close_again s i c e again a
            | inr first ↦ close_first s i c e first a
          ])
  ]
  step-Agrees (connects is_packet now conn uuid ip') s a =
      elim (Bool-cases (is_rejected now s.tracker uuid ip')) [
        | inl e ↦ rw e (record { references = a.references; alive = a.alive; number = a.number })
        | inr e ↦ rw e (admit-Agrees s is_packet conn uuid ip' a)
      ]

  run-Agrees : (ops : List Op) (s : System) → Agrees s → Agrees (run ops s)
  unfolding run
  run-Agrees [] s a = a
  run-Agrees (op ∷ ops) s a = run-Agrees ops (step op s) (step-Agrees op s a)

abbrev pub start : System
start = record { tracker = new_conn_tracker; conns = [] }

-- After any connections, closes and user maps, each IP of a user has as many references as the
-- user has open connections from it; the user's IP set, which is what is reported, has the IP
-- exactly if there is one; and the user's connection counter is the number of open connections.
pub run-references :
    (uid : ℤ) (ip : Text) (ops : List Op)
    → (refs_of uid ip (run ops start).tracker.users ≡ count (is_open uid ip) (run ops start).conns)
      × (is_alive uid ip (run ops start).tracker.users
          ≡ ltb 0 (count (is_open uid ip) (run ops start).conns))
      × (conns_of uid (run ops start).tracker.users
          ≡ pos (count (is_open_of uid) (run ops start).conns))
unfolding lookup
run-references uid ip ops =
    let a =
      run-Agrees uid ip ops start (record { references = refl; alive = refl; number = refl }) in
    (a.references, a.alive ∙ ap (ltb 0) a.references, a.number)
