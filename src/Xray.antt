-- ===== src/Xray.antt =====
-- internal/kernel/xray/dispatcher.go: the device limit that the dispatcher enforces, and the
-- references of each source IP of a user, who is known by the e-mail. References are natural
-- numbers: an entry that falls to zero is deleted. `checkDeviceLimit` lets its lock go between
-- reading and counting, so it is two steps, `find_path` and `finish`, and their composition.
pub mod Admission
pub mod References
pub mod Links
mod Tests
use xboard_node_win.Common.{
  ℕ, zero, suc, ◌+◌, ◌-◌, ℤ, pos, ◌+ℤ◌, ◌-ℤ◌, pos_part, Text, text_ltb, sort, among_first, Dict,
  lookup, insert, erase, is_some, is_empty, from_option, ltb, leb, ltb_ℤ, if◌then◌else◌, int_key,
  text_key, ◌==ₖ◌, List, [], ◌∷◌, ◌++◌, map, Option, none, some, not, Bool, true, false, ◌&&◌,
  length,
}

abbrev pub Refs : Type 0
Refs = Dict Text ℕ

abbrev pub refs : Text → Refs → ℕ
refs ip ips = from_option 0 (lookup ip ips)

abbrev pub ips_of : Text → Dict Text Refs → Refs
ips_of email m = from_option [] (lookup email m)

-- `LimitDispatcher`, without the dispatcher that it wraps.
pub record Dispatcher : Type 0 where
  pub limited_ips : Dict Text Refs
  pub device_limits : Dict Text ℤ
  pub email_to_uid : Dict Text ℤ
  pub unlimited_ips : Dict Text Refs
  pub conn_count : ℤ

-- What `limitDispatcherFactory` makes.
abbrev pub new_dispatcher : Dispatcher
new_dispatcher = record {
  limited_ips = [];
  device_limits = [];
  email_to_uid = [];
  unlimited_ips = [];
  conn_count = pos 0;
}

-- `UpdateLimits`
unfoldable pub update_limits : Dict Text ℤ → Dict Text ℤ → Dispatcher → Dispatcher
update_limits uids limits d = record d { email_to_uid = uids; device_limits = limits }

-- `ResetConns`
unfoldable pub reset_conns : Dispatcher → Dispatcher
reset_conns d = record d { limited_ips = []; unlimited_ips = []; conn_count = pos 0 }

abbrev pub count_ip : Text → Refs → Refs
count_ip ip ips = insert ip (refs ip ips + 1) ips

-- The limit that applies, if it is positive.
abbrev pub limit_of : Text → Dispatcher → Option ℤ
limit_of email d = elim (lookup email d.device_limits) [
  | none ↦ none
  | some limit ↦ if ltb_ℤ (pos 0) limit then some limit else none
]

-- What `checkDeviceLimit` has read when it gives up the read lock.
pub data Reading : Type 0 where
  unlimited : Reading
  known : Reading
  room : Reading
  full : ℤ → Reading

unfoldable pub find_path : Text → Text → Dispatcher → Reading
find_path email ip d = elim (limit_of email d) [
  | none ↦ unlimited
  | some limit ↦ elim (lookup email d.limited_ips) [
    | none ↦ full limit
    | some ips ↦
        if ltb 0 (refs ip ips)
        then known
        else (if ltb_ℤ (pos (length ips)) limit then room else full limit)
  ]
]

-- Whether the source is among the `limit` lowest of the IPs and itself.
abbrev pub is_lowest : ℤ → Text → Refs → Bool
is_lowest limit ip ips =
    among_first (pos_part limit) ip (sort text_ltb (map (λ e. e.0) ips ++ ip ∷ []))

-- The result of a check: whether it rejects, or a panic.
pub data Outcome : Type 0 where
  crashed : Outcome
  done : Bool → Dispatcher → Outcome

abbrev pub set_ips : Text → Refs → Dispatcher → Dispatcher
set_ips email ips d = record d { limited_ips = insert email ips d.limited_ips }

-- The decision under the write lock, with its second check.
unfoldable pub decide_full : Bool → Text → Text → ℤ → Dispatcher → Outcome
decide_full is_tcp email ip limit d =
    let ips = ips_of email d.limited_ips in
    let kept = set_ips email ips d in
    let counted = if is_tcp then set_ips email (count_ip ip ips) d else kept in
    if ltb 0 (refs ip ips)
    then done false counted
    else (if ltb_ℤ (pos (length ips)) limit
        then done false counted
        else (if is_lowest limit ip ips then done false counted else done true kept))

-- The rest of `checkDeviceLimit`: counting an IP in a map that is gone panics.
unfoldable pub finish : Reading → Bool → Text → Text → Dispatcher → Outcome
finish unlimited is_tcp email ip d = done false (
    if is_tcp
    then record d {
      unlimited_ips = insert email (count_ip ip (ips_of email d.unlimited_ips)) d.unlimited_ips;
    }
    else d)
finish known is_tcp email ip d =
    if is_tcp
    then elim (lookup email d.limited_ips) [
      | none ↦ crashed
      | some ips ↦ done false (set_ips email (count_ip ip ips) d)
    ]
    else done false d
finish room is_tcp email ip d =
    done false (if is_tcp then set_ips email (count_ip ip (ips_of email d.limited_ips)) d else d)
finish (full limit) is_tcp email ip d = decide_full is_tcp email ip limit d

-- `checkDeviceLimit`
unfoldable pub check_device_limit : Bool → Text → Text → Dispatcher → Outcome
check_device_limit is_tcp email ip d = finish (find_path email ip d) is_tcp email ip d

abbrev pub uncount_ip : Text → Refs → Refs
uncount_ip ip ips = if leb (refs ip ips) 1 then erase ip ips else insert ip (refs ip ips - 1) ips

-- `delConn`
unfoldable pub del_conn : Text → Text → Dispatcher → Dispatcher
del_conn email ip d = elim (lookup email d.unlimited_ips) [
  | some ips ↦
      if is_some (lookup ip ips)
      then record d { unlimited_ips = insert email (uncount_ip ip ips) d.unlimited_ips }
      else d
  | none ↦ elim (lookup email d.limited_ips) [
    | none ↦ d
    | some ips ↦ record d {
      limited_ips =
          if is_empty (uncount_ip ip ips)
          then erase email d.limited_ips
          else insert email (uncount_ip ip ips) d.limited_ips;
    }
  ]
]

-- A link that `trackLink` has wrapped: `closeTrackingWriter`.
pub record Link : Type 0 where
  pub email : Text
  pub source_ip : Text
  pub is_tcp : Bool
  pub closed : Bool

abbrev pub track_link : Text → Text → Bool → Dispatcher → Link × Dispatcher
track_link email ip is_tcp d = (
  record { email = email; source_ip = ip; is_tcp = is_tcp; closed = false },
  record d { conn_count = d.conn_count +ℤ pos 1 },
)

-- `Close` and `Interrupt` of the writer; the flag lets `onClose` run once.
unfoldable pub close_link : Link → Dispatcher → Link × Dispatcher
close_link l d =
    let d' = if l.is_tcp then del_conn l.email l.source_ip d else d in
    if l.closed
    then (l, d)
    else (record l { closed = true }, record d' { conn_count = d'.conn_count -ℤ pos 1 })

abbrev pub no_link : Dispatcher → Option Link × Dispatcher
no_link d = (none, d)

abbrev pub with_link : Link × Dispatcher → Option Link × Dispatcher
with_link (l, d) = (some l, d)

-- `Dispatch` for a user, by what the wrapped dispatcher answers; `none` for a panic.
unfoldable pub dispatch : Bool → Text → Text → Bool → Dispatcher → Option (Option Link × Dispatcher)
dispatch inner_ok email ip is_tcp d = elim (check_device_limit is_tcp email ip d) [
  | crashed ↦ none
  | done rejected d' ↦
      if rejected
      then some (no_link d')
      else (if inner_ok
          then some (with_link (track_link email ip is_tcp d'))
          else some (no_link (if is_tcp then del_conn email ip d' else d')))
]

-- `DispatchLink` for a user: the link is tracked before the wrapped dispatcher is asked.
unfoldable pub dispatch_link : Text → Text → Bool → Dispatcher → Option (Option Link × Dispatcher)
dispatch_link email ip is_tcp d = elim (check_device_limit is_tcp email ip d) [
  | crashed ↦ none
  | done rejected d' ↦
      if rejected then some (no_link d') else some (with_link (track_link email ip is_tcp d'))
]

abbrev pub to_ip_set : Refs → Dict Text Bool
to_ip_set = map λ e. (e.0, true)

-- `aliveIPs`
unfoldable pub alive_ips : Refs → Dict Text Bool
alive_ips [] = []
alive_ips ((ip, n) ∷ ips) = let rest = alive_ips ips in if ltb 0 n then (ip, true) ∷ rest else rest

unfoldable pub merge_set : Dict Text Bool → Dict Text Bool → Dict Text Bool
merge_set [] existing = existing
merge_set ((ip, b) ∷ ips) existing = merge_set ips (insert ip true existing)

abbrev pub uid_of : Text → Dispatcher → ℤ
uid_of email d = from_option (pos 0) (lookup email d.email_to_uid)

-- The loop over the limited users.
unfoldable pub collect_limited :
    Dispatcher → Dict Text Refs → Dict ℤ (Dict Text Bool) → Dict ℤ (Dict Text Bool)
collect_limited d [] alive = alive
collect_limited d ((email, ips) ∷ us) alive = collect_limited d us (
    if (uid_of email d ==ₖ pos 0)
    then alive
    else (if is_empty ips then alive else insert (uid_of email d) (to_ip_set ips) alive))

-- The loop over the unlimited users.
unfoldable pub collect_unlimited :
    Dispatcher → Dict Text Refs → Dict ℤ (Dict Text Bool) → Dict ℤ (Dict Text Bool)
collect_unlimited d [] alive = alive
collect_unlimited d ((email, ips) ∷ us) alive =
    let uid = uid_of email d in
    let merged = merge_set (alive_ips ips) (from_option [] (lookup uid alive)) in
    let set = if is_some (lookup uid alive) then merged else alive_ips ips in
    collect_unlimited d us (
      if (uid ==ₖ pos 0)
      then alive
      else (if is_empty (alive_ips ips) then alive else insert uid set alive))

-- `GetConnectionState`
unfoldable pub get_connection_state : Dispatcher → Dict ℤ (Dict Text Bool) × ℤ
get_connection_state d =
    (collect_unlimited d d.unlimited_ips (collect_limited d d.limited_ips []), d.conn_count)
