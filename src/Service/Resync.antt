-- ===== src/Service/Resync.antt =====
-- The polls of internal/service/service.go: `pullViaAPIAsync`, `requestWSResync`, `handleWSStatus` and the
-- ticks of `Run`, with the goroutine of a poll and the channel `pullResults` that holds one result.
use xboard_node_win.Common.{
  ◌≤◌, Bool, true, false, not, if◌then◌else◌, if_true, if_false, List, [], ◌∷◌, ◌≡◌, refl, ap, ◌∙◌,
  arith, ltb, ◌-◌, Bool-cases, inl, inr,
}
use xboard_node_win.Service.{ApiBackoff, should_skip, on_success, on_failure}

-- The fields that the polls use. `active` is pullActive, `queued` says whether the channel holds a result, and
-- `sending` whether the goroutine waits for the channel. `connected`: there is a WebSocket and it is up.
pub record PullState : Type 0 where
  pub pending : Bool
  pub active : Bool
  pub queued : Bool
  pub sending : Bool
  pub connected : Bool
  pub backoff : ApiBackoff

-- `pullViaAPIAsync`, up to the start of its goroutine; `polls` is SupportsPolling.
unfoldable pub pull_async : Bool → PullState → PullState
pull_async polls s =
    let (skip, b) = should_skip s.backoff in
    if not polls then s else (if s.active then s else record s { active = not skip; backoff = b })

-- The end of the goroutine: a poll that fails, or one whose result is sent or waits to be.
unfoldable pub poll_fails : PullState → PullState
poll_fails s = record s { active = false; backoff = on_failure s.backoff }

unfoldable pub poll_succeeds : PullState → PullState
poll_succeeds s = record s {
  active = s.queued;
  sending = s.queued;
  queued = true;
  backoff = on_success s.backoff;
}

-- `applyPullResult`, as far as the flags: the result is taken, and a goroutine that waits sends its own.
unfoldable pub take_result : PullState → PullState
take_result s = record s {
  pending = false;
  queued = s.sending;
  sending = false;
  active = if s.sending then false else s.active;
}

-- `requestWSResync`
unfoldable pub request_ws_resync : Bool → PullState → PullState
request_ws_resync polls s = if s.pending then s else pull_async polls (record s { pending = true })

-- The case `pullTicker` of `Run`.
unfoldable pub pull_tick : Bool → PullState → PullState
pull_tick polls s = if s.connected then s else pull_async polls s

-- `handleWSStatus`; the first flag is NeedsResync, the second Connected.
unfoldable pub handle_ws_status : Bool → Bool → Bool → PullState → PullState
handle_ws_status polls needs_resync up s =
    let s1 = if needs_resync then request_ws_resync polls s else s in
    pull_async polls (record s1 { connected = up })

-- Requests and ticks, of which a connected service sees any number.
pub data Wake : Type 0 where
  request : Wake
  tick : Wake

unfoldable pub wake : Bool → Wake → PullState → PullState
wake polls request s = request_ws_resync polls s
wake polls tick s = pull_tick polls s

unfoldable pub run_wakes : Bool → List Wake → PullState → PullState
run_wakes polls [] s = s
run_wakes polls (w ∷ ws) s = run_wakes polls ws (wake polls w s)

wake_pending :
    (polls : Bool) (w : Wake) (s : PullState)
    → s.pending ≡ true
    → s.connected ≡ true
    → wake polls w s ≡ s
unfolding wake request_ws_resync pull_tick
wake_pending polls request s p c =
    if_true s.pending s (pull_async polls (record s { pending = true })) p
wake_pending polls tick s p c = if_true s.connected s (pull_async polls s) c

run_wakes_pending :
    (polls : Bool) (ws : List Wake) (s : PullState)
    → s.pending ≡ true
    → s.connected ≡ true
    → run_wakes polls ws s ≡ s
unfolding run_wakes
run_wakes_pending polls [] s p c = refl
run_wakes_pending polls (w ∷ ws) s p c =
    ap (run_wakes polls ws) (wake_pending polls w s p c) ∙ run_wakes_pending polls ws s p c

-- A connected service with nothing under way, no result waiting and no call to skip.
abbrev pub IsIdle : PullState → Type 0
IsIdle s =
    ((s.pending ≡ false) × (s.active ≡ false))
    × ((s.connected ≡ true) × ((s.queued ≡ false) × (s.backoff.skip_remaining ≡ 0)))

-- The flags once the poll of a request has failed.
abbrev pub IsLost : PullState → Type 0
IsLost s = ((s.pending ≡ true) × (s.active ≡ false)) × ((s.connected ≡ true) × (s.queued ≡ false))

pull_by :
    (s : PullState) (a : Bool) (r : Bool × ApiBackoff) (skip : Bool) (b : ApiBackoff)
    → a ≡ false
    → r ≡ (skip, b)
    → (if a then s else record s { active = not r.0; backoff = r.1 })
      ≡ record s { active = not skip; backoff = b }
pull_by s true r skip b h e = cc
pull_by s false r skip b h e =
    ap {B = PullState} (λ (t : Bool × ApiBackoff). record s { active = not t.0; backoff = t.1 }) e

should_skip_none : (b : ApiBackoff) → b.skip_remaining ≡ 0 → should_skip b ≡ (false, b)
unfolding should_skip
should_skip_none b h =
    if_false (ltb 0 b.skip_remaining) (true, record { skip_remaining = b.skip_remaining - 1 })
      (false, b) (ground (arith, h))

should_skip_one :
    (b : ApiBackoff)
    → b.skip_remaining ≡ 1
    → should_skip b ≡ (true, record { skip_remaining = b.skip_remaining - 1 })
unfolding should_skip
should_skip_one b h =
    if_true (ltb 0 b.skip_remaining) (true, record { skip_remaining = b.skip_remaining - 1 })
      (false, b) (ground (arith, h))

-- What a call does if no poll is under way.
pull_async_by :
    (s : PullState) (skip : Bool) (b : ApiBackoff)
    → s.active ≡ false
    → should_skip s.backoff ≡ (skip, b)
    → pull_async true s ≡ record s { active = not skip; backoff = b }
unfolding pull_async
pull_async_by s skip b a e = pull_by s s.active (should_skip s.backoff) skip b a e

request_starts :
    (s : PullState)
    → IsIdle s
    → request_ws_resync true s ≡ record s { pending = true; active = true }
unfolding request_ws_resync
request_starts s h =
    let asked : PullState = record s { pending = true } in
    if_false s.pending s (pull_async true asked) h.0.0
    ∙ pull_async_by asked false s.backoff h.0.1 (should_skip_none s.backoff h.1.1.1)

poll_fails-IsLost : (s : PullState) → IsIdle s → IsLost (poll_fails (request_ws_resync true s))
unfolding poll_fails
poll_fails-IsLost s h = rw (request_starts s h) ((refl, refl), (h.1.0, h.1.1.0))

-- A reconciliation that is lost: an idle service, connected, is asked to reconcile; it starts a
-- poll, and the poll fails. Whatever requests and ticks follow while the connection stays up, the
-- request stays pending, no poll starts and no result arrives.
pub run_wakes-IsLost :
    (ws : List Wake) (s : PullState)
    → IsIdle s
    → ((request_ws_resync true s).active ≡ true)
      × IsLost (run_wakes true ws (poll_fails (request_ws_resync true s)))
run_wakes-IsLost ws s h =
    let l = poll_fails-IsLost s h in
    (
      ap (λ t. t.active) (request_starts s h),
      rw (run_wakes_pending true ws (poll_fails (request_ws_resync true s)) l.0.0 l.1.0) l,
    )

pull_tick_down : (s : PullState) → s.connected ≡ false → pull_tick true s ≡ pull_async true s
unfolding pull_tick
pull_tick_down s c = if_false s.connected s (pull_async true s) c

pull_async-active : (s : PullState) → s.active ≡ true → pull_async true s ≡ s
unfolding pull_async
pull_async-active s a =
    let (skip, b) = should_skip s.backoff in
    if_true s.active s (record s { active = not skip; backoff = b }) a

two_calls :
    (s : PullState)
    → s.backoff.skip_remaining ≤ 1
    → (pull_async true (pull_async true s)).active ≡ true
two_calls s h = elim (Bool-cases s.active) [
  | inl a ↦ rw (pull_async-active s a, pull_async-active s a) a
  | inr a ↦ elim (Bool-cases (ltb 0 s.backoff.skip_remaining)) [
    | inl l ↦ after_skip a (ground (arith, l, h))
    | inr l ↦ at_once a (ground (arith, l))
  ]
]
  where
    at_once :
        s.active ≡ false
        → s.backoff.skip_remaining ≡ 0
        → (pull_async true (pull_async true s)).active ≡ true
    at_once a z =
        let t : PullState = record s { active = true } in
        let one : pull_async true s ≡ t =
          pull_async_by s false s.backoff a (should_skip_none s.backoff z) in
        ap (λ u. (pull_async true u).active) one ∙ ap (λ u. u.active) (pull_async-active t refl)

    after_skip :
        s.active ≡ false
        → s.backoff.skip_remaining ≡ 1
        → (pull_async true (pull_async true s)).active ≡ true
    after_skip a o =
        let b : ApiBackoff = record { skip_remaining = s.backoff.skip_remaining - 1 } in
        let t : PullState = record s { active = false; backoff = b } in
        let one : pull_async true s ≡ t = pull_async_by s true b a (should_skip_one s.backoff o) in
        ap (λ u. (pull_async true u).active) one
        ∙ ap (λ u. u.active) (pull_async_by t false b refl (should_skip_none b (ground (arith, o))))

pull_async-connected : (s : PullState) → (pull_async true s).connected ≡ s.connected
unfolding pull_async
pull_async-connected s = by_active s.active (should_skip s.backoff)
  where
    by_active :
        (a : Bool) (r : Bool × ApiBackoff)
        → (if a then s else record s { active = not r.0; backoff = r.1 }).connected ≡ s.connected
    by_active true r = refl
    by_active false r = refl

-- While the connection is down a poll is under way after two ticks, if no more than one call is to
-- be skipped.
pub pull_tick_twice :
    (s : PullState)
    → s.connected ≡ false
    → s.backoff.skip_remaining ≤ 1
    → (pull_tick true (pull_tick true s)).active ≡ true
pull_tick_twice s c h =
    let u = pull_async true s in
    let down : u.connected ≡ false = pull_async-connected s ∙ c in
    ap (λ t. (pull_tick true t).active) (pull_tick_down s c)
    ∙ (ap (λ t. t.active) (pull_tick_down u down) ∙ two_calls s h)
