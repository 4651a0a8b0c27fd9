-- ===== src/Websocket/Tests.antt =====
-- Examples for internal/panel/ws.go: seven failures, with the defaults of `NewWSClient`.
use xboard_node_win.Common.{ℕ, ℤ, pos, ◌*◌, ◌^◌, List, [], ◌∷◌, some, ◌≡◌, refl, arith, length}
use xboard_node_win.Machine.{second}
use xboard_node_win.Websocket.{run, initial_or_second, max_or_minute}
use xboard_node_win.Websocket.Backoff.{min_ℕ, run_failures}

abbrev failures : List (ℤ × ℕ)
failures =
    (pos 0, 7)
    ∷ (pos second, 0)
    ∷ (pos 0, 3)
    ∷ (pos 0, 9)
    ∷ (pos 0, 1)
    ∷ (pos 0, 2)
    ∷ (pos 0, 5)
    ∷ []

run_failures_example :
    run (initial_or_second (pos 0)) (max_or_minute (pos 0)) failures (initial_or_second (pos 0))
    ≡ some (pos (min_ℕ (second * 2 ^ length failures) (60 * second)))
run_failures_example =
    run_failures second (60 * second) second failures (omega arith) (omega arith) (omega arith)
      (omega arith) (refl, (refl, (refl, (refl, (refl, (refl, (refl, tt)))))))
