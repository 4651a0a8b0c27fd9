-- ===== src/Xray/Tests.antt =====
-- Examples for internal/kernel/xray/dispatcher.go: a user with a limit of one device.
use xboard_node_win.Common.{
  ◌+◌, ℤ, pos, Text, bytes, Dict, lookup, text_key, List, [], ◌∷◌, some, none, true, count, ◌≡◌,
  refl,
}
use xboard_node_win.Xray.{
  refs, ips_of, Dispatcher, new_dispatcher, update_limits, limit_of, known, find_path, finish,
  crashed, check_device_limit, del_conn, decide_full,
}
use xboard_node_win.Xray.Admission.{
  verdict, is_turned_away, check_device_limit_lem, finish-del_conn,
}
use xboard_node_win.Xray.References.{after, admits, del_conn-leaks}
use xboard_node_win.Xray.Links.{Op, dispatches, links, closes, updates, run, start, is_live}
use xboard_node_win.Xray.Links.Held.{held, is_open, IsSteady, run-held}

abbrev user : Text
user = bytes "a1"

abbrev first_ip : Text
first_ip = bytes "1.1.1.1"

abbrev second_ip : Text
second_ip = bytes "2.2.2.2"

abbrev limits : Dict Text ℤ
limits = (user, pos 1) ∷ []

-- One connection is open.
abbrev busy : Dispatcher
busy = record new_dispatcher {
  limited_ips = (user, (first_ip, 1) ∷ []) ∷ [];
  device_limits = limits;
}

limited : limit_of user busy ≡ some (pos 1)
unfolding lookup
limited = refl

check_device_limit_lem_example :
    verdict (check_device_limit true user second_ip busy)
    ≡ some (is_turned_away user second_ip busy)
check_device_limit_lem_example = check_device_limit_lem true user second_ip busy

one_connection : lookup user busy.limited_ips ≡ some ((first_ip, 1) ∷ [])
unfolding lookup
one_connection = refl

never_unlimited : lookup user busy.unlimited_ips ≡ none
unfolding lookup
never_unlimited = refl

finish-del_conn_example :
    (find_path user first_ip busy ≡ known)
    × (finish (find_path user first_ip busy) true user first_ip (del_conn user first_ip busy)
        ≡ crashed)
finish-del_conn_example =
    finish-del_conn user first_ip (pos 1) busy limited never_unlimited one_connection

-- The user had no limit before, and has closed its connections.
abbrev idle : Dispatcher
idle = record new_dispatcher { unlimited_ips = (user, []) ∷ []; device_limits = limits }

idle_limited : limit_of user idle ≡ some (pos 1)
unfolding lookup
idle_limited = refl

once_unlimited : lookup user idle.unlimited_ips ≡ some []
unfolding lookup
once_unlimited = refl

is_admitted : admits (check_device_limit true user first_ip idle) ≡ true
unfolding check_device_limit find_path finish decide_full lookup
is_admitted = refl

del_conn-leaks_example :
    refs first_ip (
      ips_of user
        (del_conn user first_ip
          (after (check_device_limit true user first_ip idle) idle)).limited_ips)
    ≡ refs first_ip (ips_of user idle.limited_ips) + 1
del_conn-leaks_example =
    del_conn-leaks user first_ip (pos 1) [] idle idle_limited once_unlimited is_admitted

abbrev ops : List Op
ops =
    dispatches true user first_ip true
    ∷ links user first_ip true
    ∷ dispatches true user second_ip true
    ∷ closes 0
    ∷ closes 0
    ∷ []

steady : IsSteady user first_ip true (updates [] limits)
unfolding lookup update_limits
steady = refl

run-held_example :
    (held user first_ip true (run ops (start [] limits)).disp
      ≡ count (is_open user first_ip true) (run ops (start [] limits)).links)
    × ((run ops (start [] limits)).disp.conn_count
        ≡ pos (count is_live (run ops (start [] limits)).links))
run-held_example = run-held user first_ip true ops [] limits steady (tt, (tt, (tt, (tt, (tt, tt)))))
