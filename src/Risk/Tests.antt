-- ===== src/Risk/Tests.antt =====
-- Sizing on concrete requests.
use ai_trading_system.Base.{ℕ, ◌*◌, ◌≤◌, ◌≡◌, ◌<◌, true, false, refl, none, some, [], ◌∷◌, max}
use ai_trading_system.Base.Int.{pos, negsuc}
use ai_trading_system.Risk.Sizing.{
  Request, Sized, per_instrument_cap, sleeve_cap, underlying_cap, size_position, accept,
}
use ai_trading_system.Risk.Sizing.Floor.{IsWhole}
use ai_trading_system.Risk.Sizing.Budget.{IsWithin}
use ai_trading_system.Common.State.{paper, ConfigState}
use ai_trading_system.Execution.Policy.{order_allowed, entry, exit}
use ai_trading_system.Risk.Sizing.Structure.{
  StructureRequest, StructureSize, size_structure, IsCovered, take-IsCovered,
}
use ai_trading_system.Risk.KillSwitch.{Desk}
use ai_trading_system.Risk.KillSwitch.Latch.{ensure, book, check, day, latched-day}
use ai_trading_system.Risk.Sizing.Decision.{accept-IsWithin, below-IsWithin}

-- a million rupees, 1 percent a trade, half confidence; entry 100, stop 98, lots of 25
abbrev a_trade : Request
a_trade = record {
  capital = 10_000_000_000;
  per_trade_risk_pct = 10_000;
  per_instrument_cap_pct = 200_000;
  entry_price = 1_000_000;
  stop_price = 980_000;
  lot_size = 25;
  confidence = 5_000;
  sleeve_remaining_capital = some (pos 1_000_000_000);
  portfolio_remaining_r = none;
  margin_available = none;
  margin_per_unit = none;
  min_risk_utilization = 0;
}

-- the sleeve allows 1000 of the 2500 units of the risk budget, the cap of the instrument 2000
abbrev a_size : Sized
a_size = record {
  quantity = 1000;
  lots = 40;
  lot_size = 25;
  actual_risk = 20_000_000;
  capital_allocated = 1_000_000_000;
  clamps = per_instrument_cap ∷ sleeve_cap ∷ [];
}

sized_trade : size_position a_trade ≡ accept a_size
unfolding size_position
sized_trade = refl

accept-IsWithin_example :
    IsWithin a_trade 1000
    × IsWhole 25 1000
    × (25 ≤ 1000)
    × ((k : ℕ) → IsWithin a_trade (k * max 1 25) → k * max 1 25 ≤ 1000)
unfolding size_position
accept-IsWithin_example = accept-IsWithin a_trade a_size refl

-- the same trade in lots of 5000
abbrev too_large : Request
too_large = record a_trade { lot_size = 5000 }

below-IsWithin_example : ¬ IsWithin too_large (1 * max 1 5000)
unfolding size_position
below-IsWithin_example = below-IsWithin too_large refl

abbrev a_structure : StructureRequest
a_structure = record {
  capital = 10_000_000_000;
  per_trade_risk_pct = 10_000;
  max_loss_per_lot = 30_000_000;
  lot_size = 75;
  confidence = 10_000;
  portfolio_remaining_r = none;
  underlying_remaining_r = some (pos 70_000_000);
  margin_available = none;
  margin_per_lot = none;
  max_lots = some 5;
}

abbrev two_lots : StructureSize
two_lots = record {
  lots = 2;
  quantity = 150;
  actual_risk = 60_000_000;
  clamps = underlying_cap ∷ [];
}

take-IsCovered_example :
    IsCovered a_structure 2
    × (0 < 2)
    × (150 ≡ 2 * 75)
    × (60_000_000 ≡ 2 * 30_000_000)
    × ((n : ℕ) → IsCovered a_structure n → n ≤ 2)
unfolding size_structure
take-IsCovered_example = take-IsCovered a_structure two_lots refl

abbrev tripped : ConfigState
tripped = record {
  runtime_mode = none;
  execution_mode = some paper;
  kill_switch_active = true;
  block_new_entries = false;
  engine_halted = false;
  engine_paused = false;
}

abbrev a_desk : Desk
a_desk = record {
  config = tripped;
  daily = λ m. some (record {
    starting_capital = 10_000_000_000;
    max_loss_limit = negsuc 199_999_999;
    realized_pnl = negsuc 250_000_000;
    unrealized_pnl = pos 0;
    kill_switch_tripped = true;
  });
}

latched-day_example :
    let active =
      (day
        (book (some (pos 5)) none ∷ check ∷ ensure 20_000 10_000_000_000 ∷ [])
        a_desk).config.kill_switch_active in
    (active ≡ true)
    × (order_allowed entry active false ≡ false)
    × (order_allowed exit active false ≡ true)
latched-day_example =
    latched-day (book (some (pos 5)) none ∷ check ∷ ensure 20_000 10_000_000_000 ∷ []) a_desk false
      refl
