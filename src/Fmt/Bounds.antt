-- ===== src/Fmt/Bounds.antt =====
-- The costs are far below MAXCOST, for lines of at most a million columns.
use native.Mathlib.Nat.{mul-le-mul, div-le_self}
use lmcas.Base.{ℕ, ◌+◌, ◌*◌, ◌≤◌, Bool, List, [], ◌∷◌, Option, none, some, arith}
use lmcas.Fmt.{
  Word, Globals, short_cost, ragged_cost, widow_cost, orphan_cost, cost_behind, base_cost, distance,
  cost_from, line_cost, break_cost,
}

abbrev pub widest : ℕ
widest = 1000000

-- More than one line adds to the cost.
abbrev pub line_bound : ℕ
line_bound = 200000000400000

short_cost_bound : (n : ℕ) → n ≤ widest → short_cost n ≤ 100000000000000
unfolding short_cost
short_cost_bound n h =
    let tenfold : n * 10 ≤ 10000000 = omega (arith, h) in mul-le-mul tenfold tenfold

ragged_cost_bound : (n : ℕ) → n ≤ widest → ragged_cost n ≤ 50000000000000
unfolding ragged_cost
ragged_cost_bound n h = omega (arith, short_cost_bound n h)

widow_cost_bound : (n : ℕ) → widow_cost n ≤ 40000
unfolding widow_cost
widow_cost_bound n = div-le_self 40000 (n + 2)

orphan_cost_bound : (n : ℕ) → orphan_cost n ≤ 22500
unfolding orphan_cost
orphan_cost_bound n = div-le_self 22500 (n + 2)

cost_behind_bounds :
    (second first : Option Word)
    → (2400 ≤ cost_behind second first) × (cost_behind second first ≤ 364900)
unfolding cost_behind
cost_behind_bounds second none = (omega arith, omega arith)
cost_behind_bounds second (some w) =
    let less = widow_cost_bound w.length_of in (ground (arith, less), ground (arith, less))

-- What base_cost subtracts is never more than what it subtracts it from: a line costs at least 800
-- and at most 387400 before its length counts.
pub base_cost_bounds :
    (second first : Option Word) (this : Word)
    → (800 ≤ base_cost second first this) × (base_cost second first this ≤ 387400)
unfolding base_cost
base_cost_bounds second first this =
    let (above, below) = cost_behind_bounds second first in
    let orphan = orphan_cost_bound this.length_of in
    (ground (arith, above, below, orphan), ground (arith, above, below, orphan))

-- The length of the first line.
abbrev pub IsNarrow : List Word → Type 0
IsNarrow [] = Unit
IsNarrow (w ∷ others) = w.line_length ≤ widest

distance_bound : (a b : ℕ) → a ≤ widest → b ≤ widest → distance a b ≤ widest
distance_bound a b h k = omega (arith, h, k)

line_cost_bound :
    (globals : Globals) (next : List Word) (len : ℕ)
    → globals.goal_width ≤ widest
    → IsNarrow next
    → len ≤ widest
    → line_cost globals next len ≤ 150000000000000
unfolding line_cost
line_cost_bound globals [] len goal narrow h = omega arith
line_cost_bound globals (next ∷ others) len goal narrow h =
    let short =
      short_cost_bound (distance globals.goal_width len)
        (distance_bound globals.goal_width len goal h) in
    let ragged =
      ragged_cost_bound (distance len next.line_length)
        (distance_bound len next.line_length h narrow) in
    ground (arith, short, ragged)

pub break_cost_bound :
    (globals : Globals) (at_start : Bool) (next : List Word) (len : ℕ)
    → globals.goal_width ≤ widest
    → globals.last_line_length ≤ widest
    → IsNarrow next
    → len ≤ widest
    → break_cost globals at_start next len ≤ 200000000000000 + cost_from next
unfolding break_cost
break_cost_bound globals at_start next len goal last narrow h =
    let line = line_cost_bound globals next len goal narrow h in
    let ragged =
      ragged_cost_bound (distance len globals.last_line_length)
        (distance_bound len globals.last_line_length h last) in
    ground (arith, line, ragged)
