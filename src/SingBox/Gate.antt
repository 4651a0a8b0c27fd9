-- ===== src/SingBox/Gate.antt =====
-- The device gate of internal/kernel/singbox/conntracker.go.
use xboard_node_win.Common.{
  ℕ, zero, suc, ℤ, pos, negsuc, pos_part, Text, text_ltb, text_order, among_first-sort,
  count-le-length, Dict, lookup, is_some, ltb, leb, ltb_ℤ, if◌then◌else◌, int_key, text_key, List,
  [], ◌∷◌, Option, none, some, not, Bool, false, ◌&&◌, ◌||◌, length, count, ◌≡◌, refl, ap, arith,
}
use xboard_node_win.SingBox.{
  UserStats, ConnTracker, ip_keys, is_lowest, merge_ips, in_set, gate, check_device_gate, is_stale,
}

length-ip_keys {ℓ} : {V : Type ℓ} (m : Dict Text V) → length (ip_keys m) ≡ length m
length-ip_keys [] = refl
length-ip_keys (e ∷ m) = ap suc (length-ip_keys m)

-- How many of the IPs sort before the source.
abbrev pub rank : Text → List Text → ℕ
rank ip = count (λ x. text_ltb x ip)

-- The IPs that the gate compares with: the local ones, and those of the other nodes if it has them.
abbrev pub seen_ips : Dict Text ℕ → Option (Dict Text Bool) → List Text
seen_ips local none = ip_keys local
seen_ips local (some global) = ip_keys (merge_ips (ip_keys global) (merge_ips (ip_keys local) []))

abbrev pub is_known : Text → Dict Text ℕ → Option (Dict Text Bool) → Bool
is_known ip local none = is_some (lookup ip local)
is_known ip local (some global) = is_some (lookup ip local) || in_set ip global

decide_rank :
    (n : ℕ) (ip : Text) (ips : List Text)
    → (if ltb (length ips) (suc n) then false else not (is_lowest (pos (suc n)) ip ips))
      ≡ leb (suc n) (rank ip ips)
decide_rank n ip ips =
    rw (among_first-sort text_ltb text_order (suc n) ip ips)
      (ground (arith, count-le-length (λ x. text_ltb x ip) ips))

gate-rank :
    (local : Dict Text ℕ) (global : Option (Dict Text Bool)) (ip : Text) (n : ℕ)
    → gate local global ip (pos (suc n))
      ≡ (not (is_known ip local global) && leb (suc n) (rank ip (seen_ips local global)))
unfolding gate
gate-rank local none ip n = ground (arith, decide_rank n ip (ip_keys local), length-ip_keys local)
gate-rank local (some global) ip n =
    let all = merge_ips (ip_keys global) (merge_ips (ip_keys local) []) in
    ground (arith, decide_rank n ip (ip_keys all), length-ip_keys all)

-- The IPs of the other nodes, unless they are out of date.
abbrev pub fresh_devices : ℕ → ConnTracker → ℤ → Option (Dict Text Bool)
fresh_devices now t uid =
    if is_stale now t.global_last_update then none else lookup uid t.global_devices

-- The gate turns a source away exactly if the user is tracked, has a positive limit, does not have
-- the source connected already, here or on a node whose devices are fresh, and at least `limit` of
-- the IPs in use sort before the source. Without a tracked user or a positive limit it admits all.
pub check_device_gate_lem :
    (now : ℕ) (t : ConnTracker) (us : Option UserStats) (uid : ℤ) (ip : Text) (limit : ℤ)
    → check_device_gate now t us uid ip limit ≡ elim us [
      | none ↦ false
      | some u ↦
          ltb_ℤ (pos 0) limit
          && (not (is_known ip u.ips (fresh_devices now t uid))
              && leb (pos_part limit) (rank ip (seen_ips u.ips (fresh_devices now t uid))))
    ]
unfolding check_device_gate
check_device_gate_lem now t none uid ip limit = refl
check_device_gate_lem now t (some u) uid ip (pos zero) = refl
check_device_gate_lem now t (some u) uid ip (pos (suc n)) =
    ground (arith, gate-rank u.ips (fresh_devices now t uid) ip n)
check_device_gate_lem now t (some u) uid ip (negsuc n) = ground arith

-- The gate does not bound the number of devices: a source that sorts before all IPs in use is
-- admitted under any limit, however many IPs are in use.
pub check_device_gate_lowest :
    (now : ℕ) (t : ConnTracker) (us : Option UserStats) (uid : ℤ) (ip : Text) (limit : ℤ)
    → ((u : UserStats) → us ≡ some u → rank ip (seen_ips u.ips (fresh_devices now t uid)) ≡ 0)
    → check_device_gate now t us uid ip limit ≡ false
check_device_gate_lowest now t none uid ip limit h = check_device_gate_lem now t none uid ip limit
check_device_gate_lowest now t (some u) uid ip limit h =
    rw (check_device_gate_lem now t (some u) uid ip limit) (ground (arith, h u refl))
