-- ===== src/Tracker.antt =====
-- internal/tracker/tracker.go: per-user traffic deltas from the kernel's cumulative counters, and the
-- alive IPs. Each method that takes the mutex is one step; the snapshot is published and read whole.
-- Counters are int64, so sums and differences are wrapped. SHA-256 is the parameter `digest`.
pub mod Lookups
pub mod Charges
pub mod Totals
pub mod Ledger
pub mod Devices
mod Tests
use xboard_node_win.Common.{
  ℕ, zero, suc, ◌+◌, ◌-◌, ◌/◌, ◌%◌, ◌^◌, ℤ, pos, negsuc, ◌+ℤ◌, ◌-ℤ◌, wrap, Text, text_ltb, sort,
  Dict, lookup, insert, copy_into, is_some, is_empty, from_option, ltb_ℤ, if◌then◌else◌, int_key,
  text_key, ◌==ₖ◌, beq_text, List, [], ◌∷◌, ◌++◌, map, Option, none, some, not, Bool, true, false,
  ◌≡◌, ◌&&◌, ◌||◌, length,
}

abbrev pub Traffic : Type 0
Traffic = Dict ℤ (ℤ × ℤ)

abbrev pub AliveIps : Type 0
AliveIps = Dict ℤ (Dict Text Bool)

-- `snapshot`
pub record Snapshot : Type 0 where
  pub traffic : Traffic
  pub alive_ips : AliveIps
  pub online : Dict ℤ ℕ
  pub conn_count : ℤ
  pub in_speed : ℤ
  pub out_speed : ℤ

pub record Tracker : Type 0 where
  pub last_seen : Traffic
  pub pending_traffic : Traffic
  pub live : Snapshot
  pub alive_ips_buf : Dict ℤ (List Text)
  pub last_alive_ips_hash : Text

-- `New`
abbrev pub new : Tracker
new = record {
  last_seen = [];
  pending_traffic = [];
  live = record {
    traffic = [];
    alive_ips = [];
    online = [];
    conn_count = pos 0;
    in_speed = pos 0;
    out_speed = pos 0;
  };
  alive_ips_buf = [];
  last_alive_ips_hash = [];
}

-- `m[uid]`, the zero value if it is missing.
abbrev pub traffic_of : ℤ → Traffic → ℤ × ℤ
traffic_of uid m = from_option (pos 0, pos 0) (lookup uid m)

-- The delta of one counter, with the guard against a counter reset.
unfoldable pub delta : ℤ → ℤ → ℤ
delta cum prev = let d = wrap (cum -ℤ prev) in if ltb_ℤ d (pos 0) then cum else d

-- `cur[0] += up; cur[1] += down`
abbrev pub add_traffic : ℤ × ℤ → ℤ × ℤ → ℤ × ℤ
add_traffic cur d = (wrap (cur.0 +ℤ d.0), wrap (cur.1 +ℤ d.1))

-- The variables of the loop of `Process`.
pub record Cycle : Type 0 where
  pub last_seen : Traffic
  pub pending : Traffic
  pub cycle_in : ℤ
  pub cycle_out : ℤ

-- `deltaUp > 0 || deltaDown > 0`
abbrev pub is_active : ℤ × ℤ → Bool
is_active d = ltb_ℤ (pos 0) d.0 || ltb_ℤ (pos 0) d.1

abbrev pub deltas : ℤ × ℤ → ℤ × ℤ → ℤ × ℤ
deltas cum prev = (delta cum.0 prev.0, delta cum.1 prev.1)

-- The body of the loop of `Process`.
unfoldable pub process_user : ℤ → ℤ × ℤ → Cycle → Cycle
process_user uid cum c =
    let d = deltas cum (traffic_of uid c.last_seen) in
    let seen = insert uid cum c.last_seen in
    if is_active d
    then record {
      last_seen = seen;
      pending = insert uid (add_traffic (traffic_of uid c.pending) d) c.pending;
      cycle_in = wrap (c.cycle_in +ℤ d.1);
      cycle_out = wrap (c.cycle_out +ℤ d.0);
    }
    else record c { last_seen = seen }

unfoldable pub process_users : Traffic → Cycle → Cycle
process_users [] c = c
process_users ((uid, cum) ∷ us) c = process_users us (process_user uid cum c)

-- The loop that fills `online`.
unfoldable pub count_online : Dict ℤ ℕ → AliveIps → Dict ℤ ℕ
count_online online [] = online
count_online online ((uid, ips) ∷ us) = count_online (insert uid (length ips) online) us

-- `copyTrafficMap`
abbrev pub copy_traffic_map : Traffic → Traffic
copy_traffic_map src = copy_into [] src

-- `Process`
unfoldable pub process : Tracker → Traffic → AliveIps → ℤ → Tracker
process t cum_traffic kernel_alive_ips conn_count =
    let c = process_users cum_traffic (record {
      last_seen = t.last_seen;
      pending = t.pending_traffic;
      cycle_in = pos 0;
      cycle_out = pos 0;
    }) in
    record t {
      last_seen = c.last_seen;
      pending_traffic = c.pending;
      live = record {
        traffic = copy_traffic_map c.pending;
        alive_ips = kernel_alive_ips;
        online = count_online [] kernel_alive_ips;
        conn_count = conn_count;
        in_speed = c.cycle_in;
        out_speed = c.cycle_out;
      };
    }

-- `FlushTraffic`
unfoldable pub flush_traffic : Tracker → Traffic × Tracker
flush_traffic t = (t.pending_traffic, record t { pending_traffic = [] })

-- The loop of `RestoreTraffic`.
unfoldable pub restore_all : Traffic → Traffic → Traffic
restore_all [] pending = pending
restore_all ((uid, d) ∷ ds) pending =
    restore_all ds (insert uid (add_traffic (traffic_of uid pending) d) pending)

-- `RestoreTraffic`
unfoldable pub restore_traffic : Traffic → Tracker → Tracker
restore_traffic ds t = record t { pending_traffic = restore_all ds t.pending_traffic }

-- `HasTraffic`
pub has_traffic : Tracker → Bool
has_traffic t = not (is_empty t.pending_traffic)

abbrev pub keys {ℓ κ} : {K : Type ℓ} {V : Type κ} → Dict K V → List K
keys = map λ e. e.0

-- `byte(uid >> 24), byte(uid >> 16), byte(uid >> 8), byte(uid)` of the two's complement.
unfoldable pub uid_bytes : ℤ → Text
uid_bytes uid =
    let w : ℕ = elim uid [ pos n ↦ n % 2 ^ 64 | negsuc n ↦ 2 ^ 64 - 1 - n % 2 ^ 64 ] in
    (w / 2 ^ 24 % 256) ∷ (w / 2 ^ 16 % 256) ∷ (w / 2 ^ 8 % 256) ∷ (w % 256) ∷ []

unfoldable pub concat_all : List Text → Text
concat_all [] = []
concat_all (s ∷ ss) = s ++ concat_all ss

-- What `calcAliveIPsHash` writes into the hash, for the sorted ids.
unfoldable pub hash_input : AliveIps → List ℤ → Text
hash_input alive [] = []
hash_input alive (uid ∷ uids) =
    uid_bytes uid
    ++ (concat_all (sort text_ltb (keys (from_option [] (lookup uid alive))))
        ++ hash_input alive uids)

-- The loop that fills the buffer from the snapshot; the buffer has just been cleared.
unfoldable pub fill_alive_ips : AliveIps → Dict ℤ (List Text) → Dict ℤ (List Text)
fill_alive_ips [] buf = buf
fill_alive_ips ((uid, ips) ∷ us) buf = fill_alive_ips us (insert uid (keys ips) buf)

-- The inner loop of `RestoreAliveIPs`, which appends what is not there yet.
unfoldable pub append_missing : List Text → List Text → Dict Text (Unit {0}) → List Text
append_missing [] ips exist = ips
append_missing (ip ∷ more) ips exist =
    let next = append_missing more (ips ++ ip ∷ []) (insert ip tt exist) in
    let rest = append_missing more ips exist in if is_some (lookup ip exist) then rest else next

unfoldable pub exist_map : List Text → Dict Text (Unit {0}) → Dict Text (Unit {0})
exist_map [] m = m
exist_map (ip ∷ ips) m = exist_map ips (insert ip tt m)

unfoldable pub restore_ips : Dict ℤ (List Text) → Dict ℤ (List Text) → Dict ℤ (List Text)
restore_ips [] buf = buf
restore_ips ((uid, more) ∷ ds) buf =
    let ips = from_option [] (lookup uid buf) in
    restore_ips ds (insert uid (append_missing more ips (exist_map ips [])) buf)

-- `RestoreAliveIPs`
unfoldable pub restore_alive_ips : Dict ℤ (List Text) → Tracker → Tracker
restore_alive_ips ds t = record t { alive_ips_buf = restore_ips ds t.alive_ips_buf }

module _ (digest : Text → Text) where
  -- `calcAliveIPsHash`
  unfoldable pub calc_alive_ips_hash : AliveIps → Text
  calc_alive_ips_hash [] = []
  calc_alive_ips_hash (e ∷ alive) = digest (hash_input (e ∷ alive) (sort ltb_ℤ (keys (e ∷ alive))))

  -- `FlushAliveIPs`; `none` is the result nil.
  unfoldable pub flush_alive_ips : Tracker → Option (Dict ℤ (List Text)) × Tracker
  flush_alive_ips t =
      let current = calc_alive_ips_hash t.live.alive_ips in
      let buf = fill_alive_ips t.live.alive_ips [] in
      if current ==ₖ t.last_alive_ips_hash
      then (none, t)
      else (some buf, record t { last_alive_ips_hash = current; alive_ips_buf = buf })

-- `CurrentOnline`
unfoldable pub current_online : Tracker → Dict ℤ ℕ
current_online t = t.live.online

-- `ActiveConnections`
pub active_connections : Tracker → ℤ
active_connections t = t.live.conn_count

abbrev div_ten : ℤ → ℤ
div_ten (pos n) = pos (n / 10)
div_ten (negsuc n) = if ltb_ℤ (pos n) (pos 9) then pos 0 else negsuc ((n + 1) / 10 - 1)

-- `InboundSpeed`
pub inbound_speed : Tracker → ℤ
inbound_speed t = div_ten t.live.in_speed

-- `OutboundSpeed`
pub outbound_speed : Tracker → ℤ
outbound_speed t = div_ten t.live.out_speed
