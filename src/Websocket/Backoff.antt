-- ===== src/Websocket/Backoff.antt =====
-- The back-off of internal/panel/ws.go.
use xboard_node_win.Common.{
  ℕ, suc, ◌+◌, ◌*◌, ◌/◌, ◌%◌, ◌^◌, ◌≤◌, ◌<◌, ℤ, pos, ◌+ℤ◌, ltb_ℤ, wrap, wrap_id, ltb, if◌then◌else◌,
  false, none, some, List, [], ◌∷◌, length, ◌≡◌, refl, sym, ap, ◌∙◌, arith, Bool-cases, inl, inr,
  if_true, if_false, lt→ltb,
}
use native.Mathlib.Nat.{
  mod-lt, pow-succ', two-mul, mul-add, add-mul, mul-one, le-mul_of_pos_right, mul-le-mul_right,
  one-le-pow,
}
use xboard_node_win.Websocket.{wait_time, next_backoff, after_connect, run}
use xboard_node_win.Machine.{second}

abbrev pub min_ℕ : ℕ → ℕ → ℕ
min_ℕ a b = if ltb a b then a else b

-- The wait is the back-off and at most a fifth more.
wait_time_lem :
    (random b : ℕ)
    → 5 ≤ b
    → b < 2 ^ 62
    → (w : ℕ) × ((wait_time random (pos b) ≡ some (pos w)) × ((b ≤ w) × (5 * w ≤ 6 * b)))
unfolding wait_time
wait_time_lem random b h k =
    let positive : 0 < b / 5 = omega (arith, h) in
    let jitter = random % (b / 5) in
    let small : jitter < b / 5 = mod-lt random positive in
    let whole = wrap_id (pos (b + jitter)) (omega (arith, k, small), omega arith) in
    (
      b + jitter,
      (
        if_true (ltb 0 (b / 5)) (some (wrap (pos (b + jitter)))) none (lt→ltb 0 (b / 5) positive)
            ∙ ap some whole,
        (omega arith, omega (arith, small)),
      ),
    )

doubled : (b : ℕ) → b + b < 2 ^ 63 → wrap (pos b +ℤ pos b) ≡ pos (b + b)
unfolding ◌+ℤ◌
doubled b h =
    let sum : pos b +ℤ pos b ≡ pos (b + b) = ground arith in
    ap wrap sum ∙ wrap_id (pos (b + b)) (omega (arith, h), omega arith)

next_backoff_lem :
    (m b : ℕ) → m < 2 ^ 62 → b ≤ m → next_backoff (pos m) (pos b) ≡ pos (min_ℕ (b + b) m)
unfolding next_backoff
next_backoff_lem m b h k =
    let twice : wrap (pos b +ℤ pos b) ≡ pos (b + b) = doubled b (omega (arith, h, k)) in
    rw twice (ground arith)

-- The back-off stays from `i` to `m`.
abbrev Within : ℕ → ℕ → ℕ → Type 0
Within i m b = (i ≤ b) × (b ≤ m)

-- One turn of the loop, after a connection that did not last.
after_short :
    (i m b random : ℕ) (elapsed : ℤ)
    → 5 ≤ i
    → m < 2 ^ 62
    → Within i m b
    → ltb_ℤ (pos (120 * second)) elapsed ≡ false
    → (w : ℕ) × (after_connect (pos i) (pos m) elapsed random (pos b)
        ≡ some (pos w, pos (min_ℕ (b + b) m)))
unfolding after_connect
after_short i m b random elapsed h k within short =
    let w = wait_time_lem random b (omega (arith, h, within)) (omega (arith, k, within)) in
    (w.0, ground (arith, short, w.1.0, next_backoff_lem m b k within.1))

-- Every connection failed within two minutes.
abbrev pub AllShort : List (ℤ × ℕ) → Type 0
AllShort [] = Unit
AllShort ((elapsed, random) ∷ cs) = (ltb_ℤ (pos (120 * second)) elapsed ≡ false) × AllShort cs

twice_pow : (b n : ℕ) → b * 2 ^ suc n ≡ (b + b) * 2 ^ n
twice_pow b n =
    ap (λ p. b * p) (pow-succ' 2 n ∙ two-mul (2 ^ n))
    ∙ mul-add b (2 ^ n) (2 ^ n)
    ∙ sym (add-mul b b (2 ^ n))

min_ge : (x m : ℕ) → m ≤ x → min_ℕ x m ≡ m
min_ge x m h = ground arith

min_le : (x m : ℕ) → x ≤ m → min_ℕ x m ≡ x
min_le x m h = ground arith

-- Doubling first and then `n` times is doubling `n + 1` times, up to the longest time.
min_twice : (b m n : ℕ) → min_ℕ (min_ℕ (b + b) m * 2 ^ n) m ≡ min_ℕ (b * 2 ^ suc n) m
min_twice b m n = elim (Bool-cases (ltb (b + b) m)) [
  | inl e ↦ rw (if_true (ltb (b + b) m) (b + b) m e, twice_pow b n) refl
  | inr e ↦
      let at_least : m ≤ b + b = ground (arith, e) in
      let grows : m ≤ m * 2 ^ n = le-mul_of_pos_right m (one-le-pow n 2 (omega arith)) in
      let more : m * 2 ^ n ≤ (b + b) * 2 ^ n = mul-le-mul_right (2 ^ n) at_least in
      rw (if_false (ltb (b + b) m) (b + b) m e, twice_pow b n, min_ge (m * 2 ^ n) m grows)
        (sym (min_ge ((b + b) * 2 ^ n) m (omega (arith, grows, more))))
]

-- Exponential, without overflow or panic: after any failed connections that each lasted two minutes at
-- most, whatever the random numbers, the back-off is `b`, where it started, doubled once per failure, or
-- the longest one `m` if that is less. The initial back-off `i` is at least five nanoseconds, `b` is
-- from `i` to `m`, and `m` is below 2 ^ 62 nanoseconds.
pub run_failures :
    (i m b : ℕ) (cs : List (ℤ × ℕ))
    → 5 ≤ i
    → m < 2 ^ 62
    → i ≤ b
    → b ≤ m
    → AllShort cs
    → run (pos i) (pos m) cs (pos b) ≡ some (pos (min_ℕ (b * 2 ^ length cs) m))
unfolding run
run_failures i m b [] h k l u s =
    ap (λ x. some (pos x)) (sym (ap (λ x. min_ℕ x m) (mul-one b) ∙ min_le b m u))
run_failures i m b ((elapsed, random) ∷ cs) h k l u s =
    let turn = after_short i m b random elapsed h k (l, u) s.0 in
    let b' = min_ℕ (b + b) m in
    let rest = run_failures i m b' cs h k (ground arith) (ground arith) s.1 in
    rw (turn.1, run) (rest ∙ ap (λ x. some (pos x)) (min_twice b m (length cs)))
