-- ===== src/Tracker/Devices.antt =====
-- The alive IPs of internal/tracker/tracker.go: what `FlushAliveIPs` reports, and what becomes of a
-- report that the panel refused.
use xboard_node_win.Common.{
  ℤ, Text, sort, Dict, lookup, insert, lookup-insert, IsMap, ltb_ℤ, int_key, text_key, beq_ℤ_iff,
  beq_text_iff, List, [], ◌∷◌, Option, none, some, Bool, ◌≡◌, ◌≢◌, refl, arith, ◌∙◌, ap, sym,
}
use xboard_node_win.Tracker.{
  AliveIps, Tracker, keys, fill_alive_ips, restore_alive_ips, calc_alive_ips_hash, flush_alive_ips,
  hash_input, process, Traffic,
}

-- The report names each user of the snapshot with its IPs.
abbrev pub ips_of : Option (Dict Text Bool) → Option (List Text)
ips_of none = none
ips_of (some ips) = some (keys ips)

lookup-fill_alive_ips :
    (alive : AliveIps) (uid : ℤ) (buf : Dict ℤ (List Text))
    → IsMap alive
    → lookup uid (fill_alive_ips alive buf)
      ≡ elim (lookup uid alive) [ none ↦ lookup uid buf | some ips ↦ some (keys ips) ]
unfolding fill_alive_ips lookup
lookup-fill_alive_ips [] uid buf m = refl
lookup-fill_alive_ips ((i, ips) ∷ alive) uid buf m = ground (
  arith,
  lookup-fill_alive_ips alive uid (insert i (keys ips) buf) m.1,
  lookup-insert uid i (keys ips) buf,
  beq_ℤ_iff i uid,
)

module _ (digest : Text → Text) where
  -- If the alive IPs are a map and their hash differs from the last reported one, the report gives
  -- every user of the snapshot its IPs, and no other user.
  pub flush_alive_ips_report :
      (t : Tracker) (uid : ℤ)
      → IsMap t.live.alive_ips
      → calc_alive_ips_hash digest t.live.alive_ips ≢ t.last_alive_ips_hash
      → (buf : Dict ℤ (List Text)) × ((flush_alive_ips digest t).0 ≡ some buf)
        × (lookup uid buf ≡ ips_of (lookup uid t.live.alive_ips))
  unfolding flush_alive_ips lookup
  flush_alive_ips_report t uid m changed = (
    fill_alive_ips t.live.alive_ips [],
    ground
        (arith, beq_text_iff (calc_alive_ips_hash digest t.live.alive_ips) t.last_alive_ips_hash),
    ground (arith, lookup-fill_alive_ips t.live.alive_ips uid [] m),
  )

  -- A report that the panel refused is lost: after a flush, whatever `RestoreAliveIPs` puts back,
  -- the next `FlushAliveIPs` reports nothing, neither at once nor after a `Process` in which the
  -- kernel sees the same IPs.
  pub flush-restore_alive_ips :
      (t : Tracker) (refused : Dict ℤ (List Text)) (cums : Traffic) (conns : ℤ)
      → let t' = restore_alive_ips refused (flush_alive_ips digest t).1 in
        ((flush_alive_ips digest t').0 ≡ none)
        × ((flush_alive_ips digest (process t' cums t.live.alive_ips conns)).0 ≡ none)
  unfolding flush_alive_ips restore_alive_ips process
  flush-restore_alive_ips t refused cums conns =
      let h = calc_alive_ips_hash digest t.live.alive_ips in
      (
        ground (arith, beq_text_iff h t.last_alive_ips_hash, beq_text_iff h h),
        ground (arith, beq_text_iff h t.last_alive_ips_hash, beq_text_iff h h),
      )

  calc_alive_ips_hash_nonempty :
      (alive : AliveIps)
      → alive ≢ []
      → calc_alive_ips_hash digest alive ≡ digest (hash_input alive (sort ltb_ℤ (keys alive)))
  unfolding calc_alive_ips_hash
  calc_alive_ips_hash_nonempty [] ne = absurd (ne refl)
  calc_alive_ips_hash_nonempty (e ∷ alive) ne = refl

  -- Two snapshots that are not empty and are hashed from the same bytes are not told apart: after a
  -- flush of the first, nothing is reported at the second.
  pub flush_alive_ips_collision :
      (t : Tracker) (alive : AliveIps) (cums : Traffic) (conns : ℤ)
      → t.live.alive_ips ≢ []
      → alive ≢ []
      → hash_input t.live.alive_ips (sort ltb_ℤ (keys t.live.alive_ips))
        ≡ hash_input alive (sort ltb_ℤ (keys alive))
      → (flush_alive_ips digest (process (flush_alive_ips digest t).1 cums alive conns)).0 ≡ none
  unfolding flush_alive_ips process
  flush_alive_ips_collision t alive cums conns ne ne' same =
      let h = calc_alive_ips_hash digest t.live.alive_ips in
      let h' = calc_alive_ips_hash digest alive in
      let equal : h ≡ h' =
        calc_alive_ips_hash_nonempty t.live.alive_ips ne
        ∙ (ap digest same ∙ sym (calc_alive_ips_hash_nonempty alive ne')) in
      ground (
        arith,
        equal,
        beq_text_iff h t.last_alive_ips_hash,
        beq_text_iff h' h,
        beq_text_iff h' t.last_alive_ips_hash,
      )
