-- ===== src/SingBox/Effects.antt =====
-- What one connection does to the references of internal/kernel/singbox/conntracker.go.
use xboard_node_win.Common.{
  ℕ, suc, ◌+◌, ◌-◌, ◌<◌, ℤ, pos, ◌+ℤ◌, ◌-ℤ◌, Text, Dict, lookup, insert, lookup-insert,
  lookup-erase, is_some, ltb, if◌then◌else◌, int_key, text_key, ◌==ₖ◌, beq_ℤ_iff, beq_text_iff, [],
  ◌∷◌, Option, none, some, not, Bool, true, false, ◌&&◌, ◌≡◌, refl, arith, Option-cases, inl, inr,
}
use xboard_node_win.SingBox.{
  UserStats, TrackedConn, refs, add_conn, remove_conn, on_stats, ensure_users, new_user_stats,
}

-- The references that the tracker has for an IP of a user.
abbrev pub refs_of : ℤ → Text → Dict ℤ UserStats → ℕ
refs_of uid ip users = elim (lookup uid users) [ none ↦ 0 | some u ↦ refs ip u.ips ]

abbrev pub is_of : ℤ → Option ℤ → Bool
is_of uid none = false
is_of uid (some j) = j ==ₖ uid

-- Whether the connection is an open one of the user from the IP.
abbrev pub is_open : ℤ → Text → TrackedConn → Bool
is_open uid ip c = not c.closed && (is_of uid c.us && (c.source_ip ==ₖ ip))

-- Whether the IP is in the user's set, and the number of connections of the user.
abbrev pub is_alive : ℤ → Text → Dict ℤ UserStats → Bool
is_alive uid ip users = elim (lookup uid users) [
  | none ↦ false
  | some u ↦ is_some (lookup ip u.ips)
]

abbrev pub conns_of : ℤ → Dict ℤ UserStats → ℤ
conns_of uid users = elim (lookup uid users) [ none ↦ pos 0 | some u ↦ u.conn_count ]

abbrev pub is_open_of : ℤ → TrackedConn → Bool
is_open_of uid c = not c.closed && is_of uid c.us

module _ (uid : ℤ) (ip : Text) where
  pub refs-add_conn :
      (ip' : Text) (us : Option ℤ) (users : Dict ℤ UserStats)
      → (is_of uid us ≡ true → is_some (lookup uid users) ≡ true)
      → refs_of uid ip (on_stats (add_conn ip') us users)
        ≡ (if is_of uid us && (ip' ==ₖ ip) then refs_of uid ip users + 1 else refs_of uid ip users)
  unfolding add_conn
  refs-add_conn ip' none users h = refl
  refs-add_conn ip' (some j) users h = elim (Option-cases (lookup j users)) [
    | inl e ↦ ground (arith, beq_ℤ_iff j uid)
    | inr (u, e) ↦ ground (
      arith,
      e,
      lookup-insert uid j (add_conn ip' u) users,
      lookup-insert ip ip' (refs ip' u.ips + 1) u.ips,
      beq_ℤ_iff j uid,
      beq_text_iff ip' ip,
    )
  ]

  pub refs-remove_conn :
      (ip' : Text) (us : Option ℤ) (users : Dict ℤ UserStats)
      → refs_of uid ip (on_stats (remove_conn ip') us users)
        ≡ (if is_of uid us && (ip' ==ₖ ip) then refs_of uid ip users - 1 else refs_of uid ip users)
  unfolding remove_conn
  refs-remove_conn ip' none users = refl
  refs-remove_conn ip' (some j) users = elim (Option-cases (lookup j users)) [
    | inl e ↦ ground (arith, beq_ℤ_iff j uid)
    | inr (u, e) ↦ ground (
      arith,
      e,
      lookup-insert uid j (remove_conn ip' u) users,
      lookup-insert ip ip' (refs ip' u.ips - 1) u.ips,
      lookup-erase ip ip' u.ips,
      beq_ℤ_iff j uid,
      beq_text_iff ip' ip,
    )
  ]

  pub alive-add_conn :
      (ip' : Text) (us : Option ℤ) (users : Dict ℤ UserStats)
      → is_alive uid ip users ≡ ltb 0 (refs_of uid ip users)
      → is_alive uid ip (on_stats (add_conn ip') us users)
        ≡ ltb 0 (refs_of uid ip (on_stats (add_conn ip') us users))
  unfolding add_conn
  alive-add_conn ip' none users h = h
  alive-add_conn ip' (some j) users h = elim (Option-cases (lookup j users)) [
    | inl e ↦ ground (arith, e)
    | inr (u, e) ↦ ground (
      arith,
      e,
      lookup-insert uid j (add_conn ip' u) users,
      lookup-insert ip ip' (refs ip' u.ips + 1) u.ips,
      beq_ℤ_iff j uid,
    )
  ]

  pub alive-remove_conn :
      (ip' : Text) (us : Option ℤ) (users : Dict ℤ UserStats)
      → is_alive uid ip users ≡ ltb 0 (refs_of uid ip users)
      → is_alive uid ip (on_stats (remove_conn ip') us users)
        ≡ ltb 0 (refs_of uid ip (on_stats (remove_conn ip') us users))
  unfolding remove_conn
  alive-remove_conn ip' none users h = h
  alive-remove_conn ip' (some j) users h = elim (Option-cases (lookup j users)) [
    | inl e ↦ ground (arith, e)
    | inr (u, e) ↦ ground (
      arith,
      e,
      lookup-insert uid j (remove_conn ip' u) users,
      lookup-insert ip ip' (refs ip' u.ips - 1) u.ips,
      lookup-erase ip ip' u.ips,
      beq_ℤ_iff j uid,
    )
  ]

  pub conns-add_conn :
      (ip' : Text) (us : Option ℤ) (users : Dict ℤ UserStats) (n : ℕ)
      → (is_of uid us ≡ true → is_some (lookup uid users) ≡ true)
      → conns_of uid users ≡ pos n
      → conns_of uid (on_stats (add_conn ip') us users) ≡ pos (if is_of uid us then suc n else n)
  unfolding add_conn ◌+ℤ◌
  conns-add_conn ip' none users n h k = k
  conns-add_conn ip' (some j) users n h k = elim (Option-cases (lookup j users)) [
    | inl e ↦ ground (arith, beq_ℤ_iff j uid)
    | inr (u, e) ↦ ground (arith, e, lookup-insert uid j (add_conn ip' u) users, beq_ℤ_iff j uid)
  ]

  pub conns-remove_conn :
      (ip' : Text) (us : Option ℤ) (users : Dict ℤ UserStats) (n : ℕ)
      → conns_of uid users ≡ pos n
      → (is_of uid us ≡ true → 0 < n)
      → conns_of uid (on_stats (remove_conn ip') us users) ≡ pos (if is_of uid us then n - 1 else n)
  unfolding remove_conn ◌-ℤ◌
  conns-remove_conn ip' none users n k h = k
  conns-remove_conn ip' (some j) users n k h = elim (Option-cases (lookup j users)) [
    | inl e ↦ ground (arith, beq_ℤ_iff j uid)
    | inr (u, e) ↦ ground (arith, e, lookup-insert uid j (remove_conn ip' u) users, beq_ℤ_iff j uid)
  ]

  pub ensured :
      (m : Dict Text ℤ) (users : Dict ℤ UserStats)
      → (refs_of uid ip (ensure_users m users) ≡ refs_of uid ip users)
        × (is_alive uid ip (ensure_users m users) ≡ is_alive uid ip users)
        × (conns_of uid (ensure_users m users) ≡ conns_of uid users)
  unfolding ensure_users lookup
  ensured [] users = (refl, refl, refl)
  ensured ((uuid, j) ∷ m) users = elim (Option-cases (lookup j users)) [
    | inr (u, e) ↦ rw e (ensured m users)
    | inl e ↦ rw e (
        let ih = ensured m (insert j new_user_stats users) in
        (
          ground (arith, e, ih.0, lookup-insert uid j new_user_stats users, beq_ℤ_iff j uid),
          ground (arith, e, ih.1, lookup-insert uid j new_user_stats users, beq_ℤ_iff j uid),
          ground (arith, e, ih.2, lookup-insert uid j new_user_stats users, beq_ℤ_iff j uid),
        ))
  ]
