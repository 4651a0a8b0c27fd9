-- ===== src/Xray/References.antt =====
-- The references of internal/kernel/xray/dispatcher.go against the links that are open.
use xboard_node_win.Common.{
  ◌+◌, ◌-◌, ℤ, Text, lookup, lookup-insert, lookup-erase, is_some, is_empty, if◌then◌else◌,
  text_key, ◌==ₖ◌, beq_text_iff, [], ◌∷◌, some, not, Bool, true, false, ◌&&◌, ◌||◌, ◌≡◌, refl,
  arith, Option-cases, inl, inr,
}
use xboard_node_win.Xray.{
  Refs, refs, ips_of, Dispatcher, limit_of, count_ip, uncount_ip, find_path, Outcome, crashed, done,
  decide_full, finish, check_device_limit, del_conn,
}

abbrev pub after : Outcome → Dispatcher → Dispatcher
after crashed d = d
after (done rejected d') d = d'

abbrev pub admits : Outcome → Bool
admits crashed = false
admits (done rejected d') = not rejected

refs-count_ip :
    (ip ip' : Text) (ips : Refs)
    → refs ip (count_ip ip' ips) ≡ (if ip' ==ₖ ip then refs ip ips + 1 else refs ip ips)
refs-count_ip ip ip' ips =
    ground (arith, lookup-insert ip ip' (refs ip' ips + 1) ips, beq_text_iff ip' ip)

pub refs-uncount_ip :
    (ip ip' : Text) (ips : Refs)
    → refs ip (uncount_ip ip' ips) ≡ (if ip' ==ₖ ip then refs ip ips - 1 else refs ip ips)
refs-uncount_ip ip ip' ips = ground (
  arith,
  lookup-insert ip ip' (refs ip' ips - 1) ips,
  lookup-erase ip ip' ips,
  beq_text_iff ip' ip,
)

pub refs_of_empty : (ip : Text) (ips : Refs) → is_empty ips ≡ true → refs ip ips ≡ 0
unfolding lookup
refs_of_empty ip [] e = refl
refs_of_empty ip (x ∷ ips) e = cc

-- The check of a user with a limit touches that user's limited IPs only.
decide_full-limited :
    (is_tcp : Bool) (e' ip' : Text) (limit : ℤ) (d : Dispatcher) (email ip : Text)
    → let o = decide_full is_tcp e' ip' limit d in
      (refs ip (ips_of email (after o d).limited_ips) ≡ (
        if admits o && (is_tcp && (e' ==ₖ email && (ip' ==ₖ ip)))
        then refs ip (ips_of email d.limited_ips) + 1
        else refs ip (ips_of email d.limited_ips)))
      × ((after o d).unlimited_ips ≡ d.unlimited_ips)
      × ((after o d).conn_count ≡ d.conn_count)
      × ((after o d).device_limits ≡ d.device_limits)
unfolding decide_full
decide_full-limited is_tcp e' ip' limit d email ip =
    let ips = ips_of e' d.limited_ips in
    let counted = lookup-insert email e' (count_ip ip' ips) d.limited_ips in
    let kept = lookup-insert email e' ips d.limited_ips in
    (
      ground (arith, counted, kept, refs-count_ip ip ip' ips, beq_text_iff e' email),
      ground arith,
      ground arith,
      ground arith,
    )

-- What a whole check does to the references of a user and an IP.
abbrev pub Counts : Bool → Text → Text → Dispatcher → Text → Text → Type 0
Counts is_tcp e' ip' d email ip =
    let o = check_device_limit is_tcp e' ip' d in
    let hit = admits o && (is_tcp && (e' ==ₖ email && (ip' ==ₖ ip))) in
    let has_limit = is_some (limit_of e' d) in
    (refs ip (ips_of email (after o d).limited_ips) ≡ (
      if has_limit && hit
      then refs ip (ips_of email d.limited_ips) + 1
      else refs ip (ips_of email d.limited_ips)))
    × (refs ip (ips_of email (after o d).unlimited_ips) ≡ (
        if not has_limit && hit
        then refs ip (ips_of email d.unlimited_ips) + 1
        else refs ip (ips_of email d.unlimited_ips)))
    × ((has_limit || not (e' ==ₖ email)) ≡ true
        → lookup email (after o d).unlimited_ips ≡ lookup email d.unlimited_ips)
    × ((after o d).conn_count ≡ d.conn_count)
    × ((after o d).device_limits ≡ d.device_limits)

pub check-Counts :
    (is_tcp : Bool) (e' ip' : Text) (d : Dispatcher) (email ip : Text)
    → Counts is_tcp e' ip' d email ip
unfolding check_device_limit find_path finish
check-Counts is_tcp e' ip' d email ip = elim (Option-cases (limit_of e' d)) [
  | inl e ↦
      let ips = ips_of e' d.unlimited_ips in
      let counted = lookup-insert email e' (count_ip ip' ips) d.unlimited_ips in
      (
        ground (arith, e),
        ground (arith, e, counted, refs-count_ip ip ip' ips, beq_text_iff e' email),
        λ h. ground (arith, e, h, counted, beq_text_iff e' email),
        ground (arith, e),
        ground (arith, e),
      )
  | inr (limit, e) ↦
      let ips = ips_of e' d.limited_ips in
      let counted = lookup-insert email e' (count_ip ip' ips) d.limited_ips in
      let over = decide_full-limited is_tcp e' ip' limit d email ip in
      (
        ground (arith, e, over.0, counted, refs-count_ip ip ip' ips, beq_text_iff e' email),
        ground (arith, e, over.1),
        λ h. ground (arith, e, over.1),
        ground (arith, e, over.2),
        ground (arith, e, over.3),
      )
]

-- A user that has been without a limit keeps its entry among the unlimited users. Once it has a limit,
-- closing its connection does not give the reference back: after an admitted TCP connection and its
-- close the IP has one reference more than before.
pub del_conn-leaks :
    (email ip : Text) (limit : ℤ) (was : Refs) (d : Dispatcher)
    → limit_of email d ≡ some limit
    → lookup email d.unlimited_ips ≡ some was
    → let o = check_device_limit true email ip d in
      admits o ≡ true
      → refs ip (ips_of email (del_conn email ip (after o d)).limited_ips)
        ≡ refs ip (ips_of email d.limited_ips) + 1
unfolding del_conn
del_conn-leaks email ip limit was d e u admitted =
    let c = check-Counts true email ip d email ip in
    ground (arith, c.0, c.2, e, u, admitted, beq_text_iff email email, beq_text_iff ip ip)
