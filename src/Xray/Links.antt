-- ===== src/Xray/Links.antt =====
-- Whole runs of internal/kernel/xray/dispatcher.go: dispatches, closes and updates of the limits.
pub mod Held
use xboard_node_win.Common.{
  ℕ, ◌+◌, ◌-◌, ℤ, pos, ◌+ℤ◌, ◌-ℤ◌, Text, Dict, lookup, lookup-insert, lookup-erase, is_some,
  if◌then◌else◌, text_key, ◌==ₖ◌, beq_text_iff, List, [], ◌∷◌, Option, none, some, not, Bool, true,
  false, ◌&&◌, count, count-set, set, get_elem?, ◌≡◌, refl, ◌∙◌, arith, Option-cases, inl, inr,
}
use xboard_node_win.Xray.{
  refs, ips_of, Dispatcher, new_dispatcher, limit_of, update_limits, uncount_ip, Outcome, crashed,
  done, check_device_limit, del_conn, Link, track_link, close_link, dispatch, dispatch_link,
  no_link, with_link,
}
use xboard_node_win.Xray.References.{after, admits, check-Counts, refs-uncount_ip, refs_of_empty}

-- The dispatcher with every link that it has tracked, the newest first.
pub record System : Type 0 where
  pub disp : Dispatcher
  pub links : List Link

pub data Op : Type 0 where
  dispatches : Bool → Text → Text → Bool → Op
  links : Text → Text → Bool → Op
  closes : ℕ → Op
  updates : Dict Text ℤ → Dict Text ℤ → Op

abbrev pub opened : Option Link × Dispatcher → System → System
opened (none, d) s = record s { disp = d }
opened (some l, d) s = record { disp = d; links = l ∷ s.links }

abbrev pub opened_if : Option (Option Link × Dispatcher) → System → System
opened_if none s = s
opened_if (some r) s = opened r s

abbrev pub shut : Link × Dispatcher → ℕ → System → System
shut (l, d) i s = record { disp = d; links = set s.links i l }

unfoldable pub step : Op → System → System
step (dispatches inner_ok email ip is_tcp) s =
    opened_if (dispatch inner_ok email ip is_tcp s.disp) s
step (links email ip is_tcp) s = opened_if (dispatch_link email ip is_tcp s.disp) s
step (closes i) s = elim (get_elem? s.links i) [
  | none ↦ s
  | some l ↦ shut (close_link l s.disp) i s
]
step (updates uids limits) s = record s { disp = update_limits uids limits s.disp }

unfoldable pub run : List Op → System → System
run [] s = s
run (op ∷ ops) s = run ops (step op s)

abbrev pub start : Dict Text ℤ → Dict Text ℤ → System
start uids limits = record { disp = update_limits uids limits new_dispatcher; links = [] }

abbrev pub is_live : Link → Bool
is_live l = not l.closed
