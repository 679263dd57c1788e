-- ===== src/Execution/Simulator.antt =====
-- `fill_price` of execution/simulator.py: the average price over the visible book, and beyond it the
-- worst level with a penalty, then the slippage. The levels of the side that is crossed and the last
-- price are parameters. The slippage is counted in 1/10000 of a basis point and stays under 2000
-- basis points, so that no price is negative; amounts before the rounding are over `whole`.
pub mod Bounds
use ai_trading_system.Base.{
  ℕ, ◌+◌, ◌*◌, ◌-◌, Bool, true, false, ◌&&◌, Option, none, some, List, [], ◌∷◌, ◌==◌, ltb,
  if◌then◌else◌, or_default, min, max,
}
use ai_trading_system.Base.Round.{round_2}
use ai_trading_system.Broker.{Side, is_buy}

abbrev pub whole : ℕ
whole = 100_000_000

-- A price and the quantity that is offered there.
pub record Level : Type 0 where
  pub price : ℕ
  pub quantity : ℕ

-- `[lv for lv in levels if lv[0] > 0 and lv[1] > 0]`
unfoldable pub quote_depth : List Level → List Level
quote_depth [] = []
quote_depth (l ∷ ls) =
    let rest = quote_depth ls in if ltb 0 l.price && ltb 0 l.quantity then l ∷ rest else rest

-- `quote_price`: the best level, or the last price
unfoldable pub quote_price : List Level → Option ℕ → Option ℕ
quote_price [] last = last
quote_price (l ∷ ls) last = some l.price

-- notional and remaining quantity after the levels, and the price of the last level
pub record Walk : Type 0 where
  pub notional : ℕ
  pub filled : ℕ
  pub remaining : ℕ

-- the loop over the levels, which ends when nothing remains
unfoldable pub walk : List Level → Walk → Walk
walk [] w = w
walk (l ∷ ls) w =
    let took = min w.remaining l.quantity in
    let w' : Walk = record {
      notional = w.notional + took * l.price;
      filled = w.filled + took;
      remaining = w.remaining - took;
    } in
    let rest = walk ls w' in if w'.remaining == 0 then w' else rest

-- `levels[-1][0]`
abbrev pub worst : Level → List Level → ℕ
worst l [] = l.price
worst l (x ∷ xs) = worst x xs

-- the price beyond the book, over `whole`
abbrev pub beyond : Side → ℕ → ℕ → ℕ
beyond side slippage price =
    if is_buy side then price * (whole + 5 * slippage) else price * (whole - 5 * slippage)

-- the notional of all, over `whole`, and the quantity; what remains pays the price beyond the book
unfoldable pub whole_fill : Side → ℕ → ℕ → Walk → ℕ × ℕ
whole_fill side slippage price w =
    if ltb 0 w.remaining
    then (w.notional * whole + w.remaining * beyond side slippage price, w.filled + w.remaining)
    else (w.notional * whole, w.filled)

-- the average over the book; the amount is over `whole`
unfoldable pub average : Side → ℕ → ℕ → Level → List Level → ℕ × ℕ
unfolding whole_fill walk
average side slippage qty l ls =
    whole_fill side slippage (worst l ls)
      (walk (l ∷ ls) (record { notional = 0; filled = 0; remaining = max 1 qty }))

-- the slippage on a price num / den, and the rounding
unfoldable pub slipped : Side → ℕ → ℕ → ℕ → ℕ
unfolding round_2
slipped side slippage num den =
    round_2 (num * (if is_buy side then whole + slippage else whole - slippage)) (den * whole)

-- `fill_price`; a last price of 0 is none
unfoldable pub fill_price : Side → ℕ → ℕ → List Level → Option ℕ → Option ℕ
unfolding average slipped
fill_price side slippage qty [] last =
    let px = or_default last 0 in if px == 0 then none else some (slipped side slippage px 1)
fill_price side slippage qty (l ∷ ls) last =
    let (num, n) = average side slippage qty l ls in some (slipped side slippage num (n * whole))
