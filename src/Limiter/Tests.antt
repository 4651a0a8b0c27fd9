-- ===== src/Limiter/Tests.antt =====
-- Examples for internal/limiter/limiter.go: two users, of which only the first has a device limit.
use xboard_node_win.Common.{pos, bytes, int_key, List, [], ◌∷◌, ◌≡◌, arith}
use xboard_node_win.Model.{UserSpec}
use xboard_node_win.Limiter.{Limiter, new, update_users, get_device_limit_by_uuid}
use xboard_node_win.Limiter.Limits.{panel_limit, get_device_limit-update_users}

abbrev limited : UserSpec
limited = record { id = pos 7; uuid = bytes "a1"; speed_limit = pos 10; device_limit = pos 3 }

abbrev unlimited : UserSpec
unlimited = record { id = pos 8; uuid = bytes "b2"; speed_limit = pos 0; device_limit = pos 0 }

abbrev users : List UserSpec
users = limited ∷ unlimited ∷ []

get_device_limit-update_users_example :
    get_device_limit_by_uuid (update_users new users).0 (bytes "a1")
    ≡ panel_limit (bytes "a1") users
get_device_limit-update_users_example =
    get_device_limit-update_users new users (bytes "a1")
      ((ground arith, ground arith, tt), (tt, tt))

abbrev before : Limiter
before = (update_users new users).0
