-- ===== src/Execution/Structures/Opening.antt =====
-- `open_structure` of execution/structures.py and `execute_structure` of execution/executor.py. The
-- resolution of an option and the simulated fill price of a leg, which walks the live book, are
-- parameters. The columns of `positions` that only structures use stand beside the World.
use ai_trading_system.Base.{
  ℕ, ◌+◌, ◌*◌, Bool, true, not, ◌&&◌, Option, none, some, List, [], ◌∷◌, ◌++◌, ◌==◌, ltb, max,
  length, if◌then◌else◌, or_default,
}
use ai_trading_system.Base.Dict.{Dict, insert}
use ai_trading_system.Base.Round.{round_2}
use ai_trading_system.Broker.{Adapter, Side, nfo, nrml, market}
use ai_trading_system.Common.State.{paper}
use ai_trading_system.Common.RuntimeMode.{load_runtime_mode, is_live_mode}
use ai_trading_system.Execution.Costs.{fno, InstrumentType, segment_key, compute_leg}
use ai_trading_system.Execution.Policy.{Instrument, order_allowed, entry}
use ai_trading_system.Execution.Executor.{Decision, Setup, World}
use ai_trading_system.Execution.Executor.Booking.{open_position}
use ai_trading_system.Execution.Executor.Exit.{Prices, close}
use ai_trading_system.Execution.Structures.{
  Shape, iron_condor, vertical, Structure, Leg, StructureGuard, StructureManager,
  legs_from_structure, fill_based_risk, register,
}

-- What the chain of options answers for a strike.
pub record Resolved : Type 0 where
  pub instrument_token : ℕ
  pub tradingsymbol : ℕ

-- `structure_meta`, which is stored with each leg
pub record Meta : Type 0 where
  pub name : ℕ
  pub is_credit : Bool
  pub max_loss_total : ℕ
  pub max_profit_total : ℕ
  pub entry_fees_total : ℕ
  pub target_fraction : ℕ
  pub stop_fraction : ℕ
  pub expiry : Option ℕ
  pub opened_on : Option ℕ

-- What `positions` stores of a leg beside the columns of `Position`.
pub record LegRow : Type 0 where
  pub correlation_id : ℕ
  pub r_rupees : Option ℕ
  pub structure_meta : Option Meta

pub record Desk (S : Type 0) : Type 0 where
  pub world : World S
  pub leg_rows : Dict LegRow
  pub structures : StructureManager

-- What is asked for, with `fno.exits` of the configuration, a missing value or 0 replaced.
pub record Ask : Type 0 where
  pub name : ℕ
  pub expiry : Option ℕ
  pub structure : Structure
  pub lots : ℕ
  pub lot_size : ℕ
  pub correlation_id : ℕ
  pub instrument : Instrument
  pub max_fill_risk_overrun : ℕ
  pub target_fraction : ℕ
  pub stop_fraction : ℕ
  pub today : ℕ

-- The chain, the fill price of a token on a side for a quantity, and the quote of a close.
pub record Market (S : Type 0) : Type 0 where
  pub resolve : InstrumentType → ℕ → Option Resolved
  pub fill : ℕ → Side → ℕ → Option ℕ
  pub quote : ℕ → S → Option ℕ × S

unfoldable pub leg_decision : Ask → Resolved → InstrumentType → Side → Decision
leg_decision a oi opt side = record {
  sleeve = fno;
  exchange = some nfo;
  tradingsymbol = oi.tradingsymbol;
  instrument_token = some oi.instrument_token;
  instrument_type = opt;
  instrument = a.instrument;
  side = side;
  quantity = a.lots * a.lot_size;
  order_type = market;
  entry_price = 0;
  stop_price = 0;
  target_price = 0;
  product = some nrml;
}

pub data Failure : Type 0 where
  leg_unresolved no_quote fill_risk_overrun engine_halted entry_blocked live_blocked : Failure

abbrev pub no_prices : {S : Type 0} → (S → Option ℕ × S) → Prices S
no_prices quote = record { price = none; quote = quote; fallback_price = none }

-- the leg of a fill
unfoldable pub new_leg : Setup → Ask → InstrumentType → Side → Resolved → ℕ → ℕ → Leg
new_leg setup a opt side oi price pid =
    let qty = a.lots * a.lot_size in
    let fees = compute_leg setup.cost_model (segment_key fno opt) side qty price in
    record {
      position_id = pid;
      token = oi.instrument_token;
      tradingsymbol = oi.tradingsymbol;
      side = side;
      qty = qty;
      entry = price;
      fees = fees.total;
    }

module _ {S : Type 0} (adapter : Adapter S) (setup : Setup) (m : Market S) where
  -- one leg that was filled at a price
  unfoldable pub book_leg :
      Ask → InstrumentType → Side → Resolved → ℕ → List Leg × Desk S → List Leg × Desk S
  unfolding open_position leg_decision new_leg
  book_leg a opt side oi price (legs, k) =
      let w = k.world in
      (
        legs ++ (new_leg setup a opt side oi price w.next_id ∷ []),
        record k {
          world =
              open_position setup paper (leg_decision a oi opt side) (a.lots * a.lot_size) price w;
          leg_rows =
              insert w.next_id
                (record {
                  correlation_id = a.correlation_id;
                  r_rupees = none;
                  structure_meta = none;
                })
                k.leg_rows;
        },
      )

  -- `simulate`: a fill price of 0 is none
  abbrev pub filled : Ask → Side → Resolved → Option ℕ
  filled a side oi =
      let px = or_default (m.fill oi.instrument_token side (a.lots * a.lot_size)) 0 in
      if px == 0 then none else some px

  abbrev pub Progress : Type 0
  Progress = Option Failure × List Leg × Desk S

  -- the loop over the legs; a leg that fails ends it
  unfoldable pub open_legs : Ask → List (InstrumentType × ℕ × Side) → List Leg × Desk S → Progress
  unfolding book_leg
  open_legs a [] (legs, k) = (none, legs, k)
  open_legs a ((opt, strike, side) ∷ rest) (legs, k) = elim (m.resolve opt strike) [
    | none ↦ (some leg_unresolved, legs, k)
    | some oi ↦ elim (filled a side oi) [
      | none ↦ (some no_quote, legs, k)
      | some price ↦ open_legs a rest (book_leg a opt side oi price (legs, k))
    ]
  ]

  -- `for leg in legs: await executor.close(leg.position_id, ...)`
  unfoldable pub close_legs : List Leg → World S → World S
  unfolding close
  close_legs [] w = w
  close_legs (leg ∷ legs) w =
      close_legs legs (close adapter setup (no_prices (m.quote leg.token)) leg.position_id w).1

  abbrev pub total_fees : List Leg → ℕ
  total_fees [] = 0
  total_fees (leg ∷ legs) = leg.fees + total_fees legs

  abbrev pub is_credit_shape : Shape → Bool
  is_credit_shape (iron_condor _ _ _ _) = true
  is_credit_shape (vertical credit _ _ _) = credit

  -- the guard of what was filled
  unfoldable pub new_guard : Ask → List Leg → ℕ → ℕ → StructureGuard
  new_guard a legs loss profit = record {
    correlation_id = a.correlation_id;
    name = a.name;
    is_credit = is_credit_shape a.structure.shape;
    legs = legs;
    max_loss_total = loss;
    max_profit_total = profit;
    entry_fees = total_fees legs;
    target_fraction = a.target_fraction;
    stop_fraction = a.stop_fraction;
    expiry = a.expiry;
    opened_on = some a.today;
    exit_retries = 0;
  }

  unfoldable pub meta_of : StructureGuard → Meta
  meta_of g = record {
    name = g.name;
    is_credit = g.is_credit;
    max_loss_total = round_2 g.max_loss_total 1;
    max_profit_total = round_2 g.max_profit_total 1;
    entry_fees_total = round_2 g.entry_fees 1;
    target_fraction = g.target_fraction;
    stop_fraction = g.stop_fraction;
    expiry = g.expiry;
    opened_on = g.opened_on;
  }

  -- the update of the legs' rows
  unfoldable pub store_legs : StructureGuard → List Leg → Dict LegRow → Dict LegRow
  unfolding meta_of
  store_legs g [] rows = rows
  store_legs g (leg ∷ legs) rows = store_legs g legs (
      insert leg.position_id
        (record {
          correlation_id = g.correlation_id;
          r_rupees = some (round_2 g.max_loss_total (max 1 (length g.legs)));
          structure_meta = some (meta_of g);
        })
        rows)

  -- `modeled_loss > 0 and max_loss_total > modeled_loss * overrun`
  abbrev pub is_overrun : Ask → ℕ → Bool
  is_overrun a loss =
      let modeled = a.structure.max_loss_per_lot * a.lots in
      ltb 0 modeled && ltb (modeled * a.max_fill_risk_overrun) (loss * 10_000)

  abbrev pub unwind : List Leg → Desk S → Desk S
  unwind legs k = record k { world = close_legs legs k.world }

  -- after the loop
  unfoldable pub keep_legs : Ask → List Leg → Desk S → Option Failure × Desk S
  unfolding fill_based_risk close_legs new_guard store_legs register
  keep_legs a legs k =
      let (_, loss, profit) = fill_based_risk a.structure.shape legs in
      let g = new_guard a legs loss profit in
      if is_overrun a loss then (some fill_risk_overrun, unwind legs k) else (
        none,
        record k { leg_rows = store_legs g legs k.leg_rows; structures = register g k.structures },
      )

  unfoldable pub settle_legs : Ask → Progress → Option Failure × Desk S
  unfolding keep_legs close_legs
  settle_legs a (some why, legs, k) = (some why, unwind legs k)
  settle_legs a (none, legs, k) = keep_legs a legs k

  -- `open_structure`; `none` is FILLED
  unfoldable pub open_structure : Ask → Desk S → Option Failure × Desk S
  unfolding open_legs settle_legs legs_from_structure
  open_structure a k = settle_legs a (open_legs a (legs_from_structure a.structure.shape) ([], k))

  -- `execute_structure`; live structures are blocked whether they are enabled or not
  unfoldable pub execute_structure : Ask → Desk S → Option Failure × Desk S
  unfolding open_structure
  execute_structure a k =
      let c = k.world.config in
      if c.engine_halted
      then (some engine_halted, k)
      else if not (order_allowed entry c.kill_switch_active c.block_new_entries)
      then (some entry_blocked, k)
      else if is_live_mode (load_runtime_mode c).mode
      then (some live_blocked, k)
      else open_structure a k
