-- ===== src/Execution/Guards.antt =====
-- execution/guards.py: the fast-loop guards. Prices are counted in units of 1/10000 rupee, and the
-- fractions of the configuration in 1/10000; `stop` and `init_risk`, which the fractions scale, are
-- counted in 1/10000 of a price unit, so that the arithmetic of `check` is exact. Prices are never
-- negative, so a difference that would fall below 0 loses to the stop or the gain that it is
-- compared with, and may stop at 0. Times of day are numbers, with "HH:MM" already parsed.
pub mod Ratchet
pub mod Manager
use ai_trading_system.Base.{
  ℕ, ◌+◌, ◌-◌, ◌*◌, Bool, true, false, not, ◌&&◌, Option, none, some, List, [], ◌∷◌, ltb, leb, ◌==◌,
  if◌then◌else◌, min, max,
}
use ai_trading_system.Base.Dict.{Dict, lookup, insert, erase}
use ai_trading_system.Broker.{Side, buy, sell, is_buy}

pub data ExitReason : Type 0 where
  stop_hit target_hit trail_hit square_off_time failsafe manual : ExitReason

pub record ExitSignal : Type 0 where
  pub reason : ExitReason
  pub price : ℕ

-- A distance, a trigger or a target of 0 is switched off, as in the source.
pub record Guard : Type 0 where
  pub position_id : ℕ
  pub side : Side
  pub entry : ℕ
  pub stop : ℕ
  pub target : ℕ
  pub instrument_token : ℕ
  pub trail_distance : ℕ
  pub square_off : Option ℕ
  pub high_water : ℕ
  pub breakeven_at_r : ℕ
  pub lock_trigger_frac : ℕ
  pub max_giveback_frac : ℕ
  pub init_risk : ℕ
  pub best_gain : ℕ

abbrev pub scale : ℕ
scale = 10_000

abbrev pub distance : ℕ → ℕ → ℕ
distance a b = (a - b) + (b - a)

-- `max(self.stop, s)` of a long guard, `min(self.stop, s)` of a short one
unfoldable pub tighten : Guard → ℕ → Guard
tighten g s = record g { stop = if is_buy g.side then max g.stop s else min g.stop s }

unfoldable pub tighten_if : Bool → ℕ → Guard → Guard
unfolding tighten
tighten_if true s g = tighten g s
tighten_if false s g = g

-- the high or low water mark after a price
unfoldable pub water : Guard → ℕ → ℕ
water g price =
    let mark = if g.high_water == 0 then g.entry else g.high_water in
    if is_buy g.side then max mark price else min mark price

unfoldable pub trail : Guard → ℕ → Guard
unfolding tighten water
trail g price =
    if g.trail_distance == 0
    then g
    else let mark = water g price in
      tighten (record g { high_water = mark })
        (if is_buy g.side
          then mark * scale - g.trail_distance * scale
          else mark * scale + g.trail_distance * scale)

-- `best_gain`, and the R unit where none was set at arming
unfoldable pub track : Guard → ℕ → Guard
track g price = record g {
  best_gain = max g.best_gain (if is_buy g.side then price - g.entry else g.entry - price);
  init_risk = if leb g.init_risk 0 then distance (g.entry * scale) g.stop else g.init_risk;
}

-- `breakeven_at_r and init_risk > 0 and best_gain >= breakeven_at_r * init_risk`
unfoldable pub is_breakeven : Guard → Bool
is_breakeven g =
    not (g.breakeven_at_r == 0)
    && (ltb 0 g.init_risk && leb (g.breakeven_at_r * g.init_risk) (g.best_gain * scale * scale))

unfoldable pub breakeven : Guard → Guard
unfolding is_breakeven tighten_if
breakeven g = tighten_if (is_breakeven g) (g.entry * scale) g

-- `lock_trigger_frac and target`, `tdist > 0 and best_gain >= lock_trigger_frac * tdist`
unfoldable pub is_locked : Guard → Bool
is_locked g =
    not (g.lock_trigger_frac == 0)
    && (not (g.target == 0)
        && (ltb 0 (distance g.target g.entry)
            && leb (g.lock_trigger_frac * distance g.target g.entry) (g.best_gain * scale)))

-- entry + best_gain * (1 - max_giveback_frac), or its mirror image below the entry
unfoldable pub lock_level : Guard → ℕ
lock_level g =
    if is_buy g.side
    then g.entry * scale + g.best_gain * scale - g.best_gain * g.max_giveback_frac
    else g.entry * scale + g.best_gain * g.max_giveback_frac - g.best_gain * scale

unfoldable pub lock : Guard → Guard
unfolding is_locked lock_level tighten_if
lock g = tighten_if (is_locked g) (lock_level g) g

-- the last part of `check`: the stop first, then the target
unfoldable pub hit : Guard → ℕ → Option ExitSignal
hit g price =
    let at_stop =
      if is_buy g.side then leb (price * scale) g.stop else leb g.stop (price * scale) in
    let at_target = if is_buy g.side then leb g.target price else leb price g.target in
    if at_stop
    then some (record { reason = stop_hit; price = price })
    else if not (g.target == 0) && at_target
    then some (record { reason = target_hit; price = price })
    else none

abbrev pub is_due : Option ℕ → ℕ → Bool
is_due none now = false
is_due (some t) now = leb t now

-- the guard as the price part of `check` leaves it
unfoldable pub adjust : Guard → ℕ → Guard
unfolding trail track breakeven lock
adjust g price = lock (breakeven (track (trail g price) price))

-- `Guard.check`; at the square-off time it returns before it touches the guard
unfoldable pub check : Guard → ℕ → ℕ → Option ExitSignal × Guard
unfolding adjust hit
check g price now =
    if is_due g.square_off now
    then (some (record { reason = square_off_time; price = price }), g)
    else (hit (adjust g price) price, adjust g price)

pub record GuardManager : Type 0 where
  pub guards : Dict Guard
  pub by_token : Dict (List ℕ)

abbrev pub no_guards : GuardManager
no_guards = record { guards = []; by_token = [] }

-- sets of ids
abbrev pub member : ℕ → List ℕ → Bool
member a [] = false
member a (x ∷ xs) = if x == a then true else member a xs

abbrev pub add : ℕ → List ℕ → List ℕ
add a xs = if member a xs then xs else a ∷ xs

abbrev pub discard : ℕ → List ℕ → List ℕ
discard a [] = []
discard a (x ∷ xs) = let rest = discard a xs in if x == a then rest else x ∷ rest

-- `for_token`
unfoldable pub for_token : ℕ → GuardManager → List ℕ
for_token token m = elim (lookup token m.by_token) [ none ↦ [] | some ids ↦ ids ]

unfoldable pub arm : Guard → GuardManager → GuardManager
unfolding for_token
arm g m = record {
  guards = insert g.position_id g m.guards;
  by_token =
      insert g.instrument_token (add g.position_id (for_token g.instrument_token m)) m.by_token;
}

-- an empty or missing set is left alone
unfoldable pub unindex : ℕ → ℕ → Dict (List ℕ) → Dict (List ℕ)
unindex pid token index = elim (lookup token index) [
  | none ↦ index
  | some ids ↦ insert token (discard pid ids) index
]

unfoldable pub disarm : ℕ → GuardManager → GuardManager
unfolding unindex
disarm pid m = elim (lookup pid m.guards) [
  | none ↦ m
  | some g ↦ record {
    guards = erase pid m.guards;
    by_token = unindex pid g.instrument_token m.by_token;
  }
]

-- `check` mutates the guard in its place
unfoldable pub process : ℕ → ℕ → ℕ → GuardManager → Option ExitSignal × GuardManager
unfolding check
process pid price now m = elim (lookup pid m.guards) [
  | none ↦ (none, m)
  | some g ↦
      ((check g price now).0, record m { guards = insert pid (check g price now).1 m.guards })
]

unfoldable pub armed_ids : Dict Guard → List ℕ
armed_ids [] = []
armed_ids ((k, g) ∷ gs) = k ∷ armed_ids gs
