-- ===== src/Execution/Costs.antt =====
-- execution/costs.py: the fees of one leg. Money is counted in units of 1/10000 rupee and a rate of
-- the configuration in millionths (of a percent, or of a rupee per crore), so every amount is a
-- whole number of 1/10^13 units before it is rounded; only the results are rounded, as in the
-- source. A missing rate is 0.
use ai_trading_system.Base.{
  ℕ, ◌+◌, ◌*◌, Bool, true, false, Option, none, some, min, ◌==◌, if◌then◌else◌, or_default,
}
use ai_trading_system.Base.Round.{round_2, round_half_even}
use ai_trading_system.Broker.{Side, buy, sell, is_buy}

pub data Sleeve : Type 0 where
  intraday_stocks swing_stocks fno mcx_commodities adopted : Sleeve

-- The upper-cased `instrument_type`.
pub data InstrumentType : Type 0 where
  ce pe fut other_type : InstrumentType

pub data Segment : Type 0 where
  fno_options fno_futures mcx_futures equity_delivery equity_intraday : Segment

unfoldable pub segment_key : Sleeve → InstrumentType → Segment
segment_key fno ce = fno_options
segment_key fno pe = fno_options
segment_key fno _ = fno_futures
segment_key mcx_commodities _ = mcx_futures
segment_key swing_stocks _ = equity_delivery
segment_key _ _ = equity_intraday

-- One segment of the configuration.
pub record Rates : Type 0 where
  pub brokerage_flat : Option ℕ
  pub brokerage_pct : ℕ
  pub brokerage_flat_cap : Option ℕ
  pub stt_pct : ℕ
  pub ctt_pct : ℕ
  pub exchange_txn_pct : ℕ
  pub sebi_per_cr : ℕ
  pub stamp_pct : ℕ
  pub gst_pct : ℕ

abbrev pub CostModel : Type 0
CostModel = Segment → Rates

pub record Fees : Type 0 where
  pub brokerage : ℕ
  pub stt : ℕ
  pub txn : ℕ
  pub sebi : ℕ
  pub stamp : ℕ
  pub gst : ℕ
  pub total : ℕ

abbrev pub unit : ℕ
unit = 10_000_000_000_000

abbrev pub pct_of : ℕ → ℕ → ℕ
pct_of amount rate = amount * rate * 100_000

-- `min(raw, float(cap)) if cap else raw`: a missing cap, and a cap of 0, is none
unfoldable pub capped : Option ℕ → ℕ → ℕ
capped cap raw = if or_default cap 0 == 0 then raw else min raw (or_default cap 0 * unit)

unfoldable pub brokerage_of : Rates → ℕ → ℕ
unfolding capped
brokerage_of c turnover = elim c.brokerage_flat [
  | some flat ↦ flat * unit
  | none ↦ capped c.brokerage_flat_cap (pct_of turnover c.brokerage_pct)
]

abbrev pub is_delivery : Segment → Bool
is_delivery equity_delivery = true
is_delivery _ = false

-- STT: both legs for delivery, the sell leg otherwise; CTT on the sell leg
unfoldable pub stt_of : Rates → Segment → Side → ℕ → ℕ
stt_of c segment buy turnover = if is_delivery segment then pct_of turnover c.stt_pct else 0
stt_of c segment sell turnover = pct_of turnover c.stt_pct + pct_of turnover c.ctt_pct

unfoldable pub stamp_of : Rates → Side → ℕ → ℕ
stamp_of c side turnover = if is_buy side then pct_of turnover c.stamp_pct else 0

-- the sum of all six, in 1/10^8 of the amounts above
unfoldable pub exact_total : Rates → Segment → Side → ℕ → ℕ
unfolding brokerage_of stt_of stamp_of
exact_total c segment side turnover =
    let base =
      brokerage_of c turnover + pct_of turnover c.exchange_txn_pct + turnover * c.sebi_per_cr in
    (base + stt_of c segment side turnover + stamp_of c side turnover) * 100_000_000
    + base * c.gst_pct

unfoldable pub compute_leg : CostModel → Segment → Side → ℕ → ℕ → Fees
unfolding exact_total round_2
compute_leg cm segment side quantity price =
    let c = cm segment in
    let turnover = quantity * price in
    let brokerage = brokerage_of c turnover in
    let txn = pct_of turnover c.exchange_txn_pct in
    let sebi = turnover * c.sebi_per_cr in
    record {
      brokerage = round_2 brokerage unit;
      stt = round_2 (stt_of c segment side turnover) unit;
      txn = round_half_even txn unit;
      sebi = round_half_even sebi unit;
      stamp = round_2 (stamp_of c side turnover) unit;
      gst = round_2 ((brokerage + txn + sebi) * c.gst_pct) (unit * 100_000_000);
      total = round_2 (exact_total c segment side turnover) (unit * 100_000_000);
    }

-- Both summands are whole paise, so the rounding of their sum changes nothing.
unfoldable pub round_trip_cost : CostModel → Segment → ℕ → ℕ → ℕ → ℕ
unfolding compute_leg
round_trip_cost cm segment qty entry exit_price =
    round_2
      ((compute_leg cm segment buy qty entry).total
        + (compute_leg cm segment sell qty exit_price).total)
      1
