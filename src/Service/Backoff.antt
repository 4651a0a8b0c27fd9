-- ===== src/Service/Backoff.antt =====
-- `apiBackoff` of internal/service/service.go, as pushReportAsync and pullViaAPIAsync use it: one call at
-- a time, which is skipped or ends in a success or a failure.
use xboard_node_win.Common.{◌≤◌, Bool, if◌then◌else◌, List, [], ◌∷◌, arith}
use xboard_node_win.Service.{ApiBackoff, should_skip, on_success, on_failure}

abbrev pub attempted : Bool → Bool × ApiBackoff → ApiBackoff
attempted fails (skips, b) = if skips then b else (if fails then on_failure b else on_success b)

-- A call that would fail or succeed if it is not skipped.
unfoldable pub attempt : Bool → ApiBackoff → ApiBackoff
attempt fails b = attempted fails (should_skip b)

unfoldable pub run : List Bool → ApiBackoff → ApiBackoff
run [] b = b
run (fails ∷ calls) b = run calls (attempt fails b)

attempt_le_one :
    (fails : Bool) (b : ApiBackoff) → b.skip_remaining ≤ 1 → (attempt fails b).skip_remaining ≤ 1
unfolding attempt should_skip on_success on_failure
attempt_le_one fails b h = ground (arith, h)

-- The back-off is not exponential: from a counter of at most one, after any calls, however many of
-- them fail in a row, at most one call is going to be skipped.
pub run_le_one :
    (calls : List Bool) (b : ApiBackoff) → b.skip_remaining ≤ 1 → (run calls b).skip_remaining ≤ 1
unfolding run
run_le_one [] b h = h
run_le_one (fails ∷ calls) b h = run_le_one calls (attempt fails b) (attempt_le_one fails b h)
