-- ===== src/Execution/Structures/Closing.antt =====
-- `close_structure` of execution/structures.py. The top of each leg's book is a parameter, as is
-- whether the call of the quotes raised; the slippage is counted in 1/10000 of a basis point and
-- stays under 10000 basis points, the bound on a spread in 1/10000 of a percent. Cooldown and alerts
-- are left out.
use ai_trading_system.Base.{
  ℕ, ◌+◌, ◌*◌, ◌-◌, Bool, not, ◌&&◌, Option, none, some, List, [], ◌∷◌, ◌==◌, ltb, leb,
  if◌then◌else◌,
}
use ai_trading_system.Base.Int.{ℤ, pos, ◌+ℤ◌, ◌-ℤ◌, ◌*ℤ◌, ltb_ℤ}
use ai_trading_system.Base.Dict.{Dict, lookup, insert}
use ai_trading_system.Base.Round.{round_2}
use ai_trading_system.Broker.{Adapter, Call, returned, raised, is_buy}
use ai_trading_system.Execution.Executor.{Setup, World}
use ai_trading_system.Execution.Executor.Exit.{Prices, close}
use ai_trading_system.Execution.Structures.{Leg, StructureGuard, StructureManager, unregister}
use ai_trading_system.Execution.Structures.Opening.{Desk}

-- The best bid and ask; a missing one is 0.
pub record Top : Type 0 where
  pub bid : ℕ
  pub ask : ℕ

-- The quotes by trading symbol.
abbrev pub Books : Type 0
Books = Call (ℕ → Top)

-- `fno.exits`, with the slippage of the simulator
pub record ExitRules : Type 0 where
  pub max_book_spread_pct : ℕ
  pub max_close_loss_overrun : ℕ
  pub max_exit_retries : ℕ
  pub slippage : ℕ

abbrev pub whole : ℕ
whole = 100_000_000

-- a two-sided book whose spread is not too wide
unfoldable pub is_sane : ℕ → Top → Bool
is_sane max_spread t =
    not (t.bid == 0)
    && (leb t.bid t.ask && leb ((t.ask - t.bid) * 200 * 10_000) (max_spread * (t.bid + t.ask)))

-- the crossed price, over `whole`
abbrev pub crossed : ℕ → Leg → Top → ℕ
crossed slippage leg t =
    if is_buy leg.side then t.bid * (whole - slippage) else t.ask * (whole + slippage)

-- what closing the leg there would make, over `whole`
unfoldable pub implied_leg : ℕ → Leg → Top → ℤ
implied_leg slippage leg t =
    let px : ℤ = pos (crossed slippage leg t) in
    let at : ℤ = pos (leg.entry * whole) in
    (if is_buy leg.side then px -ℤ at else at -ℤ px) *ℤ leg.qty

-- the prices and the implied profit of all legs, if every book is sane
unfoldable pub cross_legs : ExitRules → (ℕ → Top) → List Leg → Dict ℕ × ℤ → Option (Dict ℕ × ℤ)
unfolding is_sane implied_leg
cross_legs x q [] acc = some acc
cross_legs x q (leg ∷ legs) (px_map, implied) =
    let t = q leg.tradingsymbol in
    let rest = cross_legs x q legs (
      insert leg.token (round_2 (crossed x.slippage leg t) whole) px_map,
      implied +ℤ implied_leg x.slippage leg t,
    ) in
    if is_sane x.max_book_spread_pct t then rest else none

-- `implied < -(max_loss_total * cap_mult)`, with a maximum loss
abbrev pub is_absurd : ExitRules → StructureGuard → ℤ → Bool
is_absurd x g implied =
    ltb 0 g.max_loss_total
    && ltb_ℤ (implied *ℤ 10_000)
        (pos 0 -ℤ pos (g.max_loss_total * x.max_close_loss_overrun * whole))

abbrev pub unless_absurd : ExitRules → StructureGuard → Option (Dict ℕ × ℤ) → Option (Dict ℕ)
unless_absurd x g none = none
unless_absurd x g (some (px_map, implied)) = if is_absurd x g implied then none else some px_map

-- the validated exit prices; `none` is a bad book
unfoldable pub check_books : ExitRules → Books → StructureGuard → Option (Dict ℕ)
unfolding cross_legs
check_books x raised g = none
check_books x (returned q) g = unless_absurd x g (cross_legs x q g.legs ([], pos 0))

abbrev pub or_zero : Option ℤ → ℤ
or_zero none = pos 0
or_zero (some r) = r

abbrev pub exit_prices : {S : Type 0} → Dict ℕ → (ℕ → Option ℕ) → (S → Option ℕ × S) → ℕ → Prices S
exit_prices exit_px marks quote token = record {
  price = lookup token exit_px;
  quote = quote;
  fallback_price = marks token;
}

-- a guard that is registered is mutated in its place
abbrev pub replace : StructureGuard → StructureManager → StructureManager
replace g m = elim (lookup g.correlation_id m.by_corr) [
  | none ↦ m
  | some _ ↦ record m { by_corr = insert g.correlation_id g m.by_corr }
]

abbrev pub retried : StructureGuard → StructureGuard
retried g = record g { exit_retries = g.exit_retries + 1 }

module _ {S : Type 0} (adapter : Adapter S) (setup : Setup) (quote : ℕ → S → Option ℕ × S) where
  unfoldable pub cross_all : (ℕ → Prices S) → List Leg → World S → ℤ → ℤ × World S
  unfolding close
  cross_all prices [] w realized = (realized, w)
  cross_all prices (leg ∷ legs) w realized =
      let (r, w') = close adapter setup (prices leg.token) leg.position_id w in
      cross_all prices legs w' (realized +ℤ or_zero r)

  -- the part after the check: every leg is closed, and the guard is dropped
  unfoldable pub exit_now : StructureGuard → (ℕ → Prices S) → Desk S → Option ℤ × Desk S
  unfolding cross_all unregister
  exit_now g prices k =
      let (realized, w) = cross_all prices g.legs k.world (pos 0) in
      (some realized, record k { world = w; structures = unregister g.correlation_id k.structures })

  abbrev pub marked : Dict ℕ → (ℕ → Option ℕ) → ℕ → Prices S
  marked exit_px marks token = exit_prices exit_px marks (quote token) token

  -- the marks that were given, as the prices of a close that found no sane book
  abbrev pub at_marks : (ℕ → Option ℕ) → ℕ → Prices S
  at_marks marks token = record {
    price = marks token;
    quote = quote token;
    fallback_price = marks token;
  }

  unfoldable pub after_check :
      ExitRules → StructureGuard → (ℕ → Option ℕ) → Option (Dict ℕ) → Desk S → Option ℤ × Desk S
  unfolding exit_now
  after_check x g marks (some exit_px) k = exit_now g (marked exit_px marks) k
  after_check x g marks none k =
      let k' = record k { structures = replace (retried g) k.structures } in
      if leb (g.exit_retries + 1) x.max_exit_retries
      then (none, k')
      else exit_now (retried g) (at_marks marks) k'

  -- `close_structure`; `none` is a close that was postponed
  unfoldable pub close_structure :
      ExitRules → Books → StructureGuard → (ℕ → Option ℕ) → Bool → Desk S → Option ℤ × Desk S
  unfolding check_books after_check exit_now
  close_structure x books g marks force k =
      if not force && ltb 0 x.max_book_spread_pct
      then after_check x g marks (check_books x books g) k
      else exit_now g (at_marks marks) k
