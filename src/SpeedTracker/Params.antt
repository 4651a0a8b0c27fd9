-- ===== src/SpeedTracker/Params.antt =====
-- The two places of internal/limiter/speedtracker.go that compute a rate and a burst.
use xboard_node_win.Common.{
  ℤ, pos, negsuc, wrap, InRange, wrap-InRange, wrap_id, ◌≡◌, arith, ◌≤ℤ◌, ◌*◌, ◌^◌, ◌+◌,
}
use xboard_node_win.SpeedTracker.{bytes_per_sec, burst_for, capped_burst, div_eight}

-- A rate is an eighth of a 64-bit number, so four times a rate does not wrap.
abbrev Small : ℤ → Type 0
Small b = (negsuc (2 ^ 60) ≤ℤ b) × (b ≤ℤ pos (2 ^ 60))

div_eight-Small : (a : ℤ) → InRange a → Small (div_eight a)
div_eight-Small (pos n) h = ground arith
div_eight-Small (negsuc n) h = ground arith

bytes_per_sec-Small : (s : ℤ) → Small (bytes_per_sec s)
unfolding bytes_per_sec
bytes_per_sec-Small (pos n) = div_eight-Small (wrap (pos (n * 1_000_000))) (wrap-InRange _)
bytes_per_sec-Small (negsuc n) =
    div_eight-Small (wrap (negsuc (n * 1_000_000 + 999_999))) (wrap-InRange _)

capped_burst-Small : (b : ℤ) → Small b → capped_burst b ≡ burst_for b
unfolding capped_burst burst_for
capped_burst-Small (pos n) h = rw (wrap_id (pos (n * 4)) (omega arith)) (ground arith)
capped_burst-Small (negsuc n) h = rw (wrap_id (negsuc (n * 4 + 3)) (omega arith)) (ground arith)

-- For every speed limit, the extra cap that `GetLimiter` puts on the burst changes nothing: it
-- gives the burst that `UpdateBuckets` sets, whatever 64-bit overflow the products meet.
pub capped_burst-bytes_per_sec :
    (speed : ℤ) → capped_burst (bytes_per_sec speed) ≡ burst_for (bytes_per_sec speed)
capped_burst-bytes_per_sec speed =
    capped_burst-Small (bytes_per_sec speed) (bytes_per_sec-Small speed)
