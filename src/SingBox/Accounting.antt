-- ===== src/SingBox/Accounting.antt =====
-- The byte counters of internal/kernel/singbox/conntracker.go, and what the kernel reads of them.
-- Waiting for the rate limiter changes nothing here, but it can be cancelled: `is_cancelled`.
use xboard_node_win.Common.{
  ℕ, ℤ, pos, ◌+ℤ◌, wrap, Text, Dict, lookup, insert, ltb_ℤ, if◌then◌else◌, int_key, text_key, [],
  ◌∷◌, Option, none, some, Bool, ◌||◌,
}
use xboard_node_win.SingBox.{UserStats, ConnTracker, TrackedConn, on_stats, alive_ip_list}

-- `upload.Add` and `download.Add`
unfoldable pub add_upload : ℤ → UserStats → UserStats
add_upload n u = record u { upload = wrap (u.upload +ℤ n) }

unfoldable pub add_download : ℤ → UserStats → UserStats
add_download n u = record u { download = wrap (u.download +ℤ n) }

abbrev pub credit : (UserStats → UserStats) → TrackedConn → ConnTracker → ConnTracker
credit f c t = record t { users = on_stats f c.us t.users }

-- `Read`, by the number of bytes that the connection gives.
pub read : ℤ → TrackedConn → ConnTracker → ConnTracker
read n c t = if ltb_ℤ (pos 0) n then credit (add_upload n) c t else t

-- `Write`, by whether the wait was cancelled and the number of bytes that the connection takes.
pub write : Bool → ℤ → TrackedConn → ConnTracker → ConnTracker
write is_cancelled n c t =
    if is_cancelled then t else (if ltb_ℤ (pos 0) n then credit (add_download n) c t else t)

-- `ReadPacket`, by whether the connection failed and the length of the buffer.
unfoldable pub read_packet : Bool → ℤ → TrackedConn → ConnTracker → ConnTracker
read_packet has_failed n c t = if has_failed then t else credit (add_upload n) c t

-- `WritePacket`
unfoldable pub write_packet : Bool → Bool → ℤ → TrackedConn → ConnTracker → ConnTracker
write_packet is_cancelled has_failed n c t =
    if is_cancelled then t else (if has_failed then t else credit (add_download n) c t)

-- The counters that the unwrapped TCP connection calls: `UnwrapReader` and `UnwrapWriter`.
pub count_reader : ℤ → TrackedConn → ConnTracker → ConnTracker
count_reader n c t = credit (add_upload n) c t

pub count_writer : ℤ → TrackedConn → ConnTracker → ConnTracker
count_writer n c t = credit (add_download n) c t

-- Those of the unwrapped UDP connection: `UnwrapPacketReader` and `UnwrapPacketWriter`.
unfoldable pub count_packet_reader : ℤ → TrackedConn → ConnTracker → ConnTracker
count_packet_reader n c t = credit (add_download n) c t

unfoldable pub count_packet_writer : ℤ → TrackedConn → ConnTracker → ConnTracker
count_packet_writer n c t = credit (add_upload n) c t

-- The three results of `GetUserTraffic`, by the loop over the users.
unfoldable pub user_traffic : Dict ℤ UserStats → Dict ℤ (ℤ × ℤ) → Dict ℤ (ℤ × ℤ)
user_traffic [] traffic = traffic
user_traffic ((uid, u) ∷ us) traffic = user_traffic us (
    if ltb_ℤ (pos 0) u.upload || ltb_ℤ (pos 0) u.download
    then insert uid (u.upload, u.download) traffic
    else traffic)

unfoldable pub user_ips : Dict ℤ UserStats → Dict ℤ (Dict Text Bool) → Dict ℤ (Dict Text Bool)
user_ips [] alive = alive
user_ips ((uid, u) ∷ us) alive =
    user_ips us (elim (alive_ip_list u) [ none ↦ alive | some ips ↦ insert uid ips alive ])

unfoldable pub sum_conns : Dict ℤ UserStats → ℤ
sum_conns [] = pos 0
sum_conns ((uid, u) ∷ us) = u.conn_count +ℤ sum_conns us

-- `GetUserTraffic`
unfoldable pub get_user_traffic : ConnTracker → Dict ℤ (ℤ × ℤ) × Dict ℤ (Dict Text Bool) × ℤ
get_user_traffic t = (user_traffic t.users [], user_ips t.users [], sum_conns t.users)

-- `ActiveCount`
unfoldable pub active_count : ConnTracker → ℤ
active_count t = sum_conns t.users

-- `CloseByID`: the connection that it closes, if it knows the id.
abbrev pub close_by_id : Text → ConnTracker → Option ℕ
close_by_id id t = lookup id t.conn_map
