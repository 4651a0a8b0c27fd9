-- ===== src/Xray/Admission.antt =====
-- Who `checkDeviceLimit` of internal/kernel/xray/dispatcher.go turns away.
use xboard_node_win.Common.{
  ℕ, zero, suc, ℤ, pos, negsuc, pos_part, Text, text_ltb, text_order, among_first-sort,
  count-le-length, lookup, erase, lookup-erase, beq_text_iff, ltb, leb, ltb_ℤ, if◌then◌else◌,
  int_key, text_key, List, [], ◌∷◌, map, Option, none, some, not, Bool, true, false, ◌&&◌, length,
  count, ◌≡◌, refl, ap, arith, Option-cases, inl, inr,
}
use xboard_node_win.Xray.{
  Refs, refs, ips_of, Dispatcher, limit_of, known, find_path, is_lowest, Outcome, crashed, done,
  decide_full, finish, check_device_limit, del_conn,
}

abbrev pub ip_list : Refs → List Text
ip_list = map λ e. e.0

length-ip_list : (ips : Refs) → length (ip_list ips) ≡ length ips
length-ip_list [] = refl
length-ip_list (e ∷ ips) = ap suc (length-ip_list ips)

-- How many of the user's IPs sort before the source.
abbrev pub rank : Text → Refs → ℕ
rank ip ips = count (λ x. text_ltb x ip) (ip_list ips)

abbrev pub verdict : Outcome → Option Bool
verdict crashed = none
verdict (done rejected d) = some rejected

decided :
    (n : ℕ) (ip : Text) (ips : Refs)
    → (if ltb (length ips) (suc n) then false else not (is_lowest (pos (suc n)) ip ips))
      ≡ leb (suc n) (rank ip ips)
decided n ip ips =
    rw (among_first-sort text_ltb text_order (suc n) ip (ip_list ips))
      (ground (arith, count-le-length (λ x. text_ltb x ip) (ip_list ips), length-ip_list ips))

-- Whether a user with a positive limit is turned away.
abbrev pub is_over : Text → Refs → ℤ → Bool
is_over ip ips limit = not (ltb 0 (refs ip ips)) && leb (pos_part limit) (rank ip ips)

abbrev pub is_turned_away : Text → Text → Dispatcher → Bool
is_turned_away email ip d = elim (limit_of email d) [
  | none ↦ false
  | some limit ↦ is_over ip (ips_of email d.limited_ips) limit
]

verdict-decide_full :
    (is_tcp : Bool) (email ip : Text) (n : ℕ) (d : Dispatcher)
    → verdict (decide_full is_tcp email ip (pos (suc n)) d)
      ≡ some (is_over ip (ips_of email d.limited_ips) (pos (suc n)))
unfolding decide_full
verdict-decide_full is_tcp email ip n d = ground (arith, decided n ip (ips_of email d.limited_ips))

verdict-limited :
    (is_tcp : Bool) (email ip : Text) (n : ℕ) (d : Dispatcher)
    → limit_of email d ≡ some (pos (suc n))
    → verdict (check_device_limit is_tcp email ip d)
      ≡ some (is_over ip (ips_of email d.limited_ips) (pos (suc n)))
unfolding check_device_limit find_path finish
verdict-limited is_tcp email ip n d e = elim (Option-cases (lookup email d.limited_ips)) [
  | inl l ↦ ground (arith, l, e, verdict-decide_full is_tcp email ip n d)
  | inr (ips, l) ↦ ground (arith, l, e, verdict-decide_full is_tcp email ip n d, decided n ip ips)
]

limit_of_positive :
    (email : Text) (d : Dispatcher) (l : ℤ) → limit_of email d ≡ some l → ltb_ℤ (pos 0) l ≡ true
limit_of_positive email d l e = ground (arith, e)

-- `checkDeviceLimit`, run without interruption, never panics, and turns a source away exactly if
-- the user has a positive limit, does not have the source already, and at least `limit` of the
-- user's IPs sort before the source.
pub check_device_limit_lem :
    (is_tcp : Bool) (email ip : Text) (d : Dispatcher)
    → verdict (check_device_limit is_tcp email ip d) ≡ some (is_turned_away email ip d)
unfolding check_device_limit find_path finish
check_device_limit_lem is_tcp email ip d = elim (Option-cases (limit_of email d)) [
  | inl e ↦ ground (arith, e)
  | inr (pos zero, e) ↦ ground (arith, limit_of_positive email d (pos zero) e)
  | inr (pos (suc n), e) ↦ ground (arith, e, verdict-limited is_tcp email ip n d)
  | inr (negsuc n, e) ↦ ground (arith, limit_of_positive email d (negsuc n) e)
]

-- With an interruption it can panic: take a user with a positive limit, one connection and no entry
-- among the unlimited users. If the connection closes after its IP was found to be known for another
-- TCP connection and before that is counted, the map that is to be counted in is gone.
pub finish-del_conn :
    (email ip : Text) (limit : ℤ) (d : Dispatcher)
    → limit_of email d ≡ some limit
    → lookup email d.unlimited_ips ≡ none
    → lookup email d.limited_ips ≡ some ((ip, 1) ∷ [])
    → (find_path email ip d ≡ known)
      × (finish (find_path email ip d) true email ip (del_conn email ip d) ≡ crashed)
unfolding find_path finish del_conn lookup erase
finish-del_conn email ip limit d e u l =
    let is_known : find_path email ip d ≡ known = ground (arith, e, l, beq_text_iff ip ip) in
    (
      is_known,
      rw is_known (
          ground (
            arith,
            u,
            l,
            beq_text_iff ip ip,
            lookup-erase email email d.limited_ips,
            beq_text_iff email email,
          )),
    )
