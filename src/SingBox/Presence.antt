-- ===== src/SingBox/Presence.antt =====
-- The statistics of internal/kernel/singbox/conntracker.go stay, and how the sum of the counters changes.
use xboard_node_win.Common.{
  ℕ, zero, suc, ℤ, pos, ◌+ℤ◌, int_laws, Text, Dict, lookup, insert, lookup-insert, is_some, int_key,
  text_key, List, [], ◌∷◌, Option, none, some, not, Bool, true, ◌&&◌, count, set, get_elem?, ◌≡◌,
  refl, ◌∙◌, arith, Option-cases, inl, inr,
}
use xboard_node_win.SingBox.{UserStats, TrackedConn, on_stats, ensure_users, new_user_stats}
use xboard_node_win.SingBox.Accounting.{sum_conns}
use xboard_node_win.SingBox.Connections.{System}
use xboard_node_win.SingBox.Report.{sum_conns-insert}

-- The connections that have statistics and are open.
abbrev pub is_counted : TrackedConn → Bool
is_counted c = not c.closed && is_some c.us

-- The statistics of a connection are there.
abbrev pub Present : Dict ℤ UserStats → TrackedConn → Type 0
Present users c = (uid : ℤ) → c.us ≡ some uid → is_some (lookup uid users) ≡ true

abbrev pub AllPresent : Dict ℤ UserStats → List TrackedConn → Type 0
AllPresent users [] = Unit
AllPresent users (c ∷ cs) = Present users c × AllPresent users cs

-- Users are never dropped.
abbrev pub Grows : Dict ℤ UserStats → Dict ℤ UserStats → Type 0
Grows users users' =
    (uid : ℤ) → is_some (lookup uid users) ≡ true → is_some (lookup uid users') ≡ true

pub AllPresent-Grows :
    (users users' : Dict ℤ UserStats) (cs : List TrackedConn)
    → Grows users users'
    → AllPresent users cs
    → AllPresent users' cs
AllPresent-Grows users users' [] g a = tt
AllPresent-Grows users users' (c ∷ cs) g a =
    (λ uid e. g uid (a.0 uid e), AllPresent-Grows users users' cs g a.1)

pub AllPresent-get :
    (users : Dict ℤ UserStats) (cs : List TrackedConn) (i : ℕ) (c : TrackedConn)
    → get_elem? cs i ≡ some c
    → AllPresent users cs
    → Present users c
AllPresent-get users [] i c e a = absurd (cc e)
AllPresent-get users (x ∷ cs) zero c e a = λ uid h. a.0 uid (ground (arith, e, h))
AllPresent-get users (x ∷ cs) (suc i) c e a = AllPresent-get users cs i c e a.1

pub AllPresent-set :
    (users : Dict ℤ UserStats) (cs : List TrackedConn) (i : ℕ) (c : TrackedConn)
    → Present users c
    → AllPresent users cs
    → AllPresent users (set cs i c)
AllPresent-set users [] i c p a = tt
AllPresent-set users (x ∷ cs) zero c p a = (p, a.1)
AllPresent-set users (x ∷ cs) (suc i) c p a = (a.0, AllPresent-set users cs i c p a.1)

pub on_stats-Grows :
    (f : UserStats → UserStats) (us : Option ℤ) (users : Dict ℤ UserStats)
    → Grows users (on_stats f us users)
on_stats-Grows f none users uid h = h
on_stats-Grows f (some j) users uid h = elim (Option-cases (lookup j users)) [
  | inl e ↦ ground (arith, e, h)
  | inr (u, e) ↦ ground (arith, e, h, lookup-insert uid j (f u) users)
]

pub ensure_users-Grows :
    (m : Dict Text ℤ) (users : Dict ℤ UserStats) → Grows users (ensure_users m users)
unfolding ensure_users
ensure_users-Grows [] users uid h = h
ensure_users-Grows ((uuid, j) ∷ m) users uid h = elim (Option-cases (lookup j users)) [
  | inl e ↦ ground (
    arith,
    e,
    h,
    ensure_users-Grows m (insert j new_user_stats users) uid,
    lookup-insert uid j new_user_stats users,
  )
  | inr (u, e) ↦ ground (arith, e, h, ensure_users-Grows m users uid)
]

pub zero_right : (a : ℤ) → a +ℤ pos 0 ≡ a
zero_right a = omega int_laws

pub ensure_users-sum :
    (m : Dict Text ℤ) (users : Dict ℤ UserStats)
    → sum_conns (ensure_users m users) ≡ sum_conns users
unfolding ensure_users
ensure_users-sum [] users = refl
ensure_users-sum ((uuid, j) ∷ m) users = elim (Option-cases (lookup j users)) [
  | inl e ↦
      let put = sum_conns-insert j new_user_stats users in
      let fresh = rw e at put in
      rw e (
        ensure_users-sum m (insert j new_user_stats users) ∙ (fresh ∙ zero_right (sum_conns users)))
  | inr (u, e) ↦ rw e (ensure_users-sum m users)
]

-- The sum of the counters is the number of open connections that have statistics.
pub record Summed (s : System) : Type 0 where
  pub present : AllPresent s.tracker.users s.conns
  pub total : sum_conns s.tracker.users ≡ pos (count is_counted s.conns)
