-- ===== src/Machine/Intervals.antt =====
-- The intervals of internal/machine/machine.go, which `time.NewTicker` needs to be positive.
use xboard_node_win.Common.{
  ℤ, pos, ltb_ℤ, ltb_ℤ→ge, InRange, wrap-InRange, ◌≤ℤ◌, ◌+◌, ◌*◌, ℕ, ◌≤◌, arith, Bool-cases, inl,
  inr, if_true, if_false, negsuc,
}
use xboard_node_win.Machine.{Orchestrator, second, seconds, interval_or_minute, apply_intervals}

seconds-InRange : (n : ℤ) → InRange (seconds n)
seconds-InRange (pos n) = wrap-InRange (pos (n * second))
seconds-InRange (negsuc n) = wrap-InRange (negsuc (n * second + 999999999))

-- A time from a least number of seconds to what an int64 can hold.
abbrev pub IsInterval : ℕ → ℤ → Type 0
IsInterval least d = (pos (least * second) ≤ℤ d) × InRange d

interval_or_minute-IsInterval :
    (least : ℕ) (n : ℤ) → least ≤ 60 → IsInterval least (interval_or_minute least n)
interval_or_minute-IsInterval least n h =
    elim (Bool-cases (ltb_ℤ (seconds n) (pos (least * second)))) [
      | inl e ↦
          rw (if_true (ltb_ℤ (seconds n) (pos (least * second))) (pos (60 * second)) (seconds n) e)
            (omega arith)
      | inr e ↦
          rw (if_false (ltb_ℤ (seconds n) (pos (least * second))) (pos (60 * second)) (seconds n) e)
            (ltb_ℤ→ge (seconds n) (pos (least * second)) e, seconds-InRange n)
    ]

-- Whatever numbers the panel sends, also if their product with a second overflows, the machine
-- polls at most every 30 seconds and reports at most every 10.
pub apply_intervals_lem :
    (pull push : ℤ) (o : Orchestrator)
    → IsInterval 30 (apply_intervals pull push o).pull_interval
      × IsInterval 10 (apply_intervals pull push o).push_interval
unfolding apply_intervals
apply_intervals_lem pull push o = (
  interval_or_minute-IsInterval 30 pull (omega arith),
  interval_or_minute-IsInterval 10 push (omega arith),
)
