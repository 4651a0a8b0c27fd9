-- ===== src/SingBox.antt =====
-- internal/kernel/singbox/conntracker.go: the connections of the sing-box kernel, the traffic and the IP
-- references of each user, and the device gate. Statistics are never removed from `users`, so a
-- pointer to a user's statistics is the user's id. IP references are natural numbers: an entry that
-- falls to zero is deleted. Rate limiting waits but does not change these counts; it is not modelled.
pub mod Gate
pub mod Effects
pub mod Connections
pub mod Accounting
pub mod Report
pub mod Presence
pub mod Totals
mod Tests
use xboard_node_win.Common.{
  ℕ, zero, suc, ◌+◌, ◌-◌, ◌*◌, ◌/◌, ◌%◌, ℤ, pos, ◌+ℤ◌, ◌-ℤ◌, pos_part, wrap, Text, bytes, text_ltb,
  sort, among_first, Dict, lookup, insert, erase, is_some, is_empty, from_option, ltb, leb, ltb_ℤ,
  if◌then◌else◌, ◌==◌, int_key, text_key, ◌==ₖ◌, List, [], ◌∷◌, ◌++◌, map, Option, none, some, not,
  Bool, true, false, ◌&&◌, ◌||◌, length,
}

-- `userStats`
pub record UserStats : Type 0 where
  pub upload : ℤ
  pub download : ℤ
  pub ips : Dict Text ℕ
  pub conn_count : ℤ

abbrev pub new_user_stats : UserStats
new_user_stats = record { upload = pos 0; download = pos 0; ips = []; conn_count = pos 0 }

abbrev pub refs : Text → Dict Text ℕ → ℕ
refs ip ips = from_option 0 (lookup ip ips)

-- `addConn`
unfoldable pub add_conn : Text → UserStats → UserStats
add_conn ip u = record u {
  conn_count = u.conn_count +ℤ pos 1;
  ips = insert ip (refs ip u.ips + 1) u.ips;
}

-- `removeConn`
unfoldable pub remove_conn : Text → UserStats → UserStats
remove_conn ip u = record u {
  conn_count = u.conn_count -ℤ pos 1;
  ips = if leb (refs ip u.ips) 1 then erase ip u.ips else insert ip (refs ip u.ips - 1) u.ips;
}

-- `distinctIPs`
abbrev pub distinct_ips : UserStats → ℕ
distinct_ips u = length u.ips

abbrev pub ip_keys {ℓ} : {V : Type ℓ} → Dict Text V → List Text
ip_keys = map λ e. e.0

-- `aliveIPList`: nil without connections, else the set of the IPs.
abbrev pub alive_ip_list : UserStats → Option (Dict Text Bool)
alive_ip_list u = if is_empty u.ips then none else some (map (λ e. (e.0, true)) u.ips)

-- `ConnTracker`; `global_last_update` is `none` for the zero time, else in nanoseconds.
pub record ConnTracker : Type 0 where
  pub users : Dict ℤ UserStats
  pub uuid_map : Dict Text ℤ
  pub conn_map : Dict Text ℕ
  pub id_counter : ℕ
  pub device_limit_func : Option (Text → Option ℤ)
  pub global_devices : Dict ℤ (Dict Text Bool)
  pub global_last_update : Option ℕ

-- `NewConnTracker`
abbrev pub new_conn_tracker : ConnTracker
new_conn_tracker = record {
  users = [];
  uuid_map = [];
  conn_map = [];
  id_counter = 0;
  device_limit_func = none;
  global_devices = [];
  global_last_update = none;
}

-- `SetDeviceLimitFunc`
pub set_device_limit_func : (Text → Option ℤ) → ConnTracker → ConnTracker
set_device_limit_func f t = record t { device_limit_func = some f }

-- The loop of `SetUserMap` that adds the statistics of new users.
unfoldable pub ensure_users : Dict Text ℤ → Dict ℤ UserStats → Dict ℤ UserStats
ensure_users [] users = users
ensure_users ((uuid, uid) ∷ m) users =
    ensure_users m (if is_some (lookup uid users) then users else insert uid new_user_stats users)

-- `SetUserMap`
unfoldable pub set_user_map : Dict Text ℤ → ConnTracker → ConnTracker
set_user_map m t = record t { uuid_map = m; users = ensure_users m t.users }

abbrev pub to_set : List Text → Dict Text Bool → Dict Text Bool
to_set [] m = m
to_set (ip ∷ ips) m = to_set ips (insert ip true m)

unfoldable pub fill_devices : Dict ℤ (List Text) → Dict ℤ (Dict Text Bool) → Dict ℤ (Dict Text Bool)
fill_devices [] devices = devices
fill_devices ((uid, ips) ∷ us) devices = fill_devices us (insert uid (to_set ips []) devices)

-- `UpdateGlobalDevices`
unfoldable pub update_global_devices : Dict ℤ (List Text) → ℕ → ConnTracker → ConnTracker
update_global_devices users now t = record t {
  global_devices = fill_devices users [];
  global_last_update = some now;
}

-- `ClearGlobalDevices`
unfoldable pub clear_global_devices : ConnTracker → ConnTracker
clear_global_devices t = record t { global_devices = []; global_last_update = none }

-- `time.Since(t.globalLastUpdate) > 60*time.Second`
abbrev pub is_stale : ℕ → Option ℕ → Bool
is_stale now none = true
is_stale now (some t) = ltb 60_000_000_000 (now - t)

-- Whether the source is among the `limit` lowest of the IPs and itself.
abbrev pub is_lowest : ℤ → Text → List Text → Bool
is_lowest limit ip ips = among_first (pos_part limit) ip (sort text_ltb (ips ++ ip ∷ []))

-- The merge of the local and the global IPs.
unfoldable pub merge_ips : List Text → Dict Text Bool → Dict Text Bool
merge_ips [] all = all
merge_ips (ip ∷ ips) all = merge_ips ips (insert ip true all)

abbrev pub in_set : Text → Dict Text Bool → Bool
in_set ip m = from_option false (lookup ip m)

-- `checkDeviceGate` of a user with statistics and a positive limit; true means rejected.
unfoldable pub gate : Dict Text ℕ → Option (Dict Text Bool) → Text → ℤ → Bool
gate local none ip limit =
    if is_some (lookup ip local)
    then false
    else (if ltb_ℤ (pos (length local)) limit
        then false
        else not (is_lowest limit ip (ip_keys local)))
gate local (some global) ip limit =
    let all = merge_ips (ip_keys global) (merge_ips (ip_keys local) []) in
    if is_some (lookup ip local)
    then false
    else (if in_set ip global
        then false
        else (if ltb_ℤ (pos (length all)) limit
            then false
            else not (is_lowest limit ip (ip_keys all))))

-- `checkDeviceGate`
unfoldable pub check_device_gate : ℕ → ConnTracker → Option UserStats → ℤ → Text → ℤ → Bool
check_device_gate now t us uid ip limit = elim us [
  | none ↦ false
  | some u ↦
      if ltb_ℤ (pos 0) limit
      then gate u.ips
          (if is_stale now t.global_last_update then none else lookup uid t.global_devices) ip limit
      else false
]

-- The digits of `formatInt36`, least significant first; at most 13 for an int64.
unfoldable pub digits_36 : ℕ → ℕ → List ℕ
digits_36 zero n = []
digits_36 (suc f) n = let more = digits_36 f (n / 36) in if n == 0 then [] else (n % 36) ∷ more

abbrev pub digit_char : ℕ → ℕ
digit_char d = if ltb d 10 then b'0' + d else b'a' + (d - 10)

-- Writing the digits from the back of the buffer reverses them.
unfoldable pub put_digits : List ℕ → Text → Text
put_digits [] buf = buf
put_digits (d ∷ ds) buf = put_digits ds (digit_char d ∷ buf)

-- `formatInt36`
unfoldable pub format_int_36 : ℕ → Text
unfolding digits_36 put_digits
format_int_36 n = if n == 0 then bytes "0" else put_digits (digits_36 13 n) []

-- What `nextID` makes of the counter.
abbrev pub conn_id : ℕ → Text
conn_id n = bytes "sb-" ++ format_int_36 n

-- `trackedConn` and `trackedPacketConn`; `us` is none where the source has nil.
pub record TrackedConn : Type 0 where
  pub is_packet : Bool
  pub us : Option ℤ
  pub conn_id : Text
  pub source_ip : Text
  pub closed : Bool

abbrev pub on_stats : (UserStats → UserStats) → Option ℤ → Dict ℤ UserStats → Dict ℤ UserStats
on_stats f none users = users
on_stats f (some uid) users = elim (lookup uid users) [
  | none ↦ users
  | some u ↦ insert uid (f u) users
]

-- The limit that applies to the uuid, as the gate sees it.
abbrev pub limit_for : ConnTracker → Text → Option ℤ
limit_for t uuid = elim t.device_limit_func [ none ↦ none | some f ↦ f uuid ]

-- `t.uuidMap[uuid]`, zero if it is missing.
abbrev pub uid_of : ConnTracker → Text → ℤ
uid_of t uuid = from_option (pos 0) (lookup uuid t.uuid_map)

abbrev pub us_of : ConnTracker → Text → Option ℤ
us_of t uuid = if is_some (lookup (uid_of t uuid) t.users) then some (uid_of t uuid) else none

-- Whether the gate turns the connection away.
unfoldable pub is_rejected : ℕ → ConnTracker → Text → Text → Bool
is_rejected now t uuid ip = elim (limit_for t uuid) [
  | none ↦ false
  | some limit ↦ check_device_gate now t (lookup (uid_of t uuid) t.users) (uid_of t uuid) ip limit
]

-- What `RoutedConnection` (is_packet false) and `RoutedPacketConnection` (true) do with an admitted
-- connection; only the first keeps it for a forced close.
unfoldable pub admit : Bool → ℕ → Text → Text → ConnTracker → TrackedConn × ConnTracker
admit is_packet conn uuid ip t =
    let id = conn_id (t.id_counter + 1) in
    (
      record {
        is_packet = is_packet;
        us = us_of t uuid;
        conn_id = id;
        source_ip = ip;
        closed = false;
      },
      record t {
        users = on_stats (add_conn ip) (us_of t uuid) t.users;
        id_counter = t.id_counter + 1;
        conn_map = if is_packet then t.conn_map else insert id conn t.conn_map;
      },
    )

abbrev pub admitted : TrackedConn × ConnTracker → Option TrackedConn × ConnTracker
admitted (c, t) = (some c, t)

-- `RoutedConnection` and `RoutedPacketConnection`; `none` is a connection closed at the gate.
unfoldable pub routed : Bool → ℕ → ℕ → Text → Text → ConnTracker → Option TrackedConn × ConnTracker
routed is_packet now conn uuid ip t =
    if is_rejected now t uuid ip then (none, t) else admitted (admit is_packet conn uuid ip t)

-- `Close` of both kinds; the flag makes the bookkeeping happen once.
unfoldable pub close : TrackedConn → ConnTracker → TrackedConn × ConnTracker
close c t = if c.closed then (c, t) else (
  record c { closed = true },
  record t {
    users = on_stats (remove_conn c.source_ip) c.us t.users;
    conn_map = erase c.conn_id t.conn_map;
  },
)
