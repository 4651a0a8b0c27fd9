-- ===== src/Tracker/Totals.antt =====
-- Sums of int64 counters: what fits stays what it is.
use xboard_node_win.Common.{
  ℤ, pos, ◌+ℤ◌, ◌≤ℤ◌, wrap, InRange, int_laws, int_key, Bool, true, false, ◌≡◌, refl, ◌<◌, pos_part,
  parts_apart, ◌^◌,
}
use xboard_node_win.Tracker.{add_traffic}
use xboard_node_win.Tracker.Charges.{pick}

pub pick_zero : (dir : Bool) → pick dir (pos 0, pos 0) ≡ pos 0
pick_zero true = refl
pick_zero false = refl

pub pick_add :
    (dir : Bool) (a b : ℤ × ℤ) → pick dir (add_traffic a b) ≡ wrap (pick dir a +ℤ pick dir b)
pick_add true a b = refl
pick_add false a b = refl

-- The total is an int64.
abbrev pub Fits : ℤ → Type 0
Fits total = pos_part total < 2 ^ 63

pub Fits-back :
    (a r p : ℤ)
    → pos 0 ≤ℤ a
    → pos 0 ≤ℤ r
    → pos 0 ≤ℤ p
    → Fits (a +ℤ (r +ℤ p))
    → InRange (p +ℤ r) × InRange p
Fits-back a r p ha hr hp f = omega (
  int_laws,
  parts_apart (a +ℤ (r +ℤ p)),
  parts_apart (p +ℤ r),
  parts_apart p,
  parts_apart a,
  parts_apart r,
)

pub Fits-more :
    (a r p g : ℤ)
    → pos 0 ≤ℤ a
    → pos 0 ≤ℤ r
    → pos 0 ≤ℤ p
    → pos 0 ≤ℤ g
    → Fits (a +ℤ (r +ℤ p) +ℤ g)
    → InRange (p +ℤ g)
Fits-more a r p g ha hr hp hg f = omega (
  int_laws,
  parts_apart (a +ℤ (r +ℤ p) +ℤ g),
  parts_apart (p +ℤ g),
  parts_apart p,
  parts_apart a,
  parts_apart r,
  parts_apart g,
)

pub Fits-zero : (a : ℤ) → Fits (a +ℤ pos 0) → Fits a
Fits-zero a f = omega (int_laws, parts_apart a, parts_apart (a +ℤ pos 0))

pub Fits-less : (a u v : ℤ) → pos 0 ≤ℤ v → Fits (a +ℤ (u +ℤ v)) → Fits (a +ℤ u)
Fits-less a u v h f = omega (
  int_laws,
  parts_apart (a +ℤ (u +ℤ v)),
  parts_apart (a +ℤ u),
  parts_apart a,
  parts_apart u,
  parts_apart v,
)

pub sum_nonneg : (p g : ℤ) → pos 0 ≤ℤ p → pos 0 ≤ℤ g → pos 0 ≤ℤ p +ℤ g
sum_nonneg p g h k = omega int_laws

pub regroup : (a r p g : ℤ) → a +ℤ (r +ℤ (p +ℤ g)) ≡ a +ℤ (r +ℤ p) +ℤ g
regroup a r p g = omega int_laws

pub regroup_right : (a u v : ℤ) → a +ℤ u +ℤ v ≡ a +ℤ (u +ℤ v)
regroup_right a u v = omega int_laws

pub Fits-regroup : (a u v : ℤ) → Fits (a +ℤ (u +ℤ v)) → Fits (a +ℤ u +ℤ v)
Fits-regroup a u v f = rw (regroup_right a u v) f
