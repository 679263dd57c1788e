-- ===== src/Execution/Structures/Marking.antt =====
-- `_mid_prices` and `mark_structures` of execution/structures.py: the time exits, then the marks at
-- mid prices and the stop or target on the combined profit. Days and times of the day are numbers;
-- the quotes of a mark and of the close after it are two calls. The column of unrealized profits,
-- which nothing modelled reads, is left out.
use ai_trading_system.Base.{
  ℕ, ◌+◌, ◌*◌, ◌-◌, Bool, false, not, ◌&&◌, ◌||◌, Option, none, some, List, [], ◌∷◌, ◌++◌, ◌==◌,
  ltb, leb, if◌then◌else◌,
}
use ai_trading_system.Base.Int.{ℤ}
use ai_trading_system.Base.Dict.{Dict, lookup, insert}
use ai_trading_system.Base.Round.{round_2}
use ai_trading_system.Broker.{Adapter, returned, raised}
use ai_trading_system.Execution.Executor.{Setup}
use ai_trading_system.Execution.Structures.{Leg, StructureGuard, Action, target, stop, hold, decide}
use ai_trading_system.Execution.Structures.Opening.{Desk}
use ai_trading_system.Execution.Structures.Closing.{Top, Books, ExitRules, close_structure}

-- the book passes with a spread within the bound; a bound of 0 is none
unfoldable pub has_mid : ℕ → Top → Bool
has_mid max_spread t =
    not (t.bid == 0)
    && (leb t.bid t.ask
        && (max_spread == 0 || leb ((t.ask - t.bid) * 200 * 10_000) (max_spread * (t.bid + t.ask))))

abbrev pub mid : Top → ℕ
mid t = round_2 (t.bid + t.ask) 2

unfoldable pub mids_from : ℕ → (ℕ → Top) → List Leg → Dict ℕ → Option (Dict ℕ)
unfolding has_mid
mids_from max_spread q [] prices = some prices
mids_from max_spread q (leg ∷ legs) prices =
    let t = q leg.tradingsymbol in
    let rest = mids_from max_spread q legs (insert leg.token (mid t) prices) in
    if has_mid max_spread t then rest else none

-- `_mid_prices`, where the quotes came
unfoldable pub mid_prices : ℕ → Books → StructureGuard → Option (Dict ℕ)
unfolding mids_from
mid_prices max_spread raised g = none
mid_prices max_spread (returned q) g = mids_from max_spread q g.legs []

-- The rest of `fno.exits`; a bound of 0 is none.
pub record TimeRules : Type 0 where
  pub credit_min_exit_dte : ℕ
  pub credit_max_holding_days : ℕ
  pub min_exit_dte : ℕ
  pub max_holding_days : ℕ
  pub no_mark_before : Option ℕ

abbrev pub min_dte : TimeRules → StructureGuard → ℕ
min_dte r g = if g.is_credit then r.credit_min_exit_dte else r.min_exit_dte

abbrev pub max_held : TimeRules → StructureGuard → ℕ
max_held r g = if g.is_credit then r.credit_max_holding_days else r.max_holding_days

-- `guard.expiry and min_dte and (guard.expiry - today).days <= min_dte`
abbrev pub is_near_expiry : Option ℕ → ℕ → ℕ → Bool
is_near_expiry none dte today = false
is_near_expiry (some e) dte today = not (dte == 0) && leb e (today + dte)

-- `guard.opened_on and max_held and (today - guard.opened_on).days >= max_held`
abbrev pub is_held_long : Option ℕ → ℕ → ℕ → Bool
is_held_long none held today = false
is_held_long (some o) held today = not (held == 0) && leb (o + held) today

pub data Reason : Type 0 where
  time_dte time_held at_stop at_target : Reason

abbrev pub time_reason : TimeRules → StructureGuard → ℕ → Option Reason
time_reason r g today =
    if is_near_expiry g.expiry (min_dte r g) today
    then some time_dte
    else if is_held_long g.opened_on (max_held r g) today
    then some time_held
    else none

-- One line of the answer.
pub data Mark : Type 0 where
  closed : ℕ → Reason → ℤ → Mark
  held : ℕ → ℤ → Mark

-- What one guard meets: the books of the mark, and those of the close.
pub record Sight : Type 0 where
  pub marks : Books
  pub books : Books

abbrev pub reported : ℕ → Reason → Option ℤ → List Mark
reported name why none = []
reported name why (some realized) = closed name why realized ∷ []

abbrev pub no_marks : ℕ → Option ℕ
no_marks token = none

module _ {S : Type 0} (adapter : Adapter S) (setup : Setup) (quote : ℕ → S → Option ℕ × S) where
  unfoldable pub exit_for :
      ExitRules → Books → StructureGuard → (ℕ → Option ℕ) → Reason → Desk S → List Mark × Desk S
  unfolding close_structure
  exit_for x books g marks why k =
      let (realized, k') = close_structure adapter setup quote x books g marks false k in
      (reported g.name why realized, k')

  -- the action on a decision
  unfoldable pub act :
      ExitRules
      → Books
      → StructureGuard
      → (ℕ → Option ℕ)
      → Option (Action × ℤ)
      → Desk S
      → List Mark × Desk S
  unfolding exit_for
  act x books g marks none k = ([], k)
  act x books g marks (some (stop, pnl)) k = exit_for x books g marks at_stop k
  act x books g marks (some (target, pnl)) k = exit_for x books g marks at_target k
  act x books g marks (some (hold, pnl)) k = (held g.name pnl ∷ [], k)

  abbrev pub looked : Dict ℕ → ℕ → Option ℕ
  looked prices token = lookup token prices

  unfoldable pub mark_at :
      ExitRules → Books → StructureGuard → Option (Dict ℕ) → Desk S → List Mark × Desk S
  unfolding act decide
  mark_at x books g none k = ([], k)
  mark_at x books g (some prices) k = act x books g (looked prices) (decide g (looked prices)) k

  -- the loop's body
  unfoldable pub mark_guard :
      TimeRules → ExitRules → ℕ → Sight → StructureGuard → Desk S → List Mark × Desk S
  unfolding exit_for mark_at mid_prices
  mark_guard r x today s g k = elim (time_reason r g today) [
    | some why ↦ exit_for x s.books g no_marks why k
    | none ↦ mark_at x s.books g (mid_prices x.max_book_spread_pct s.marks g) k
  ]

  unfoldable pub mark_all :
      TimeRules → ExitRules → ℕ → (ℕ → Sight) → List StructureGuard → Desk S → List Mark × Desk S
  unfolding mark_guard
  mark_all r x today see [] k = ([], k)
  mark_all r x today see (g ∷ gs) k =
      let (out, k1) = mark_guard r x today (see g.correlation_id) g k in
      let (outs, k2) = mark_all r x today see gs k1 in (out ++ outs, k2)

  abbrev pub guards : Dict StructureGuard → List StructureGuard
  guards [] = []
  guards ((c, g) ∷ gs) = g ∷ guards gs

  abbrev pub is_early : Option ℕ → ℕ → Bool
  is_early none now = false
  is_early (some t) now = ltb now t

  -- `mark_structures`, on a day and at a time of it
  unfoldable pub mark_structures :
      TimeRules → ExitRules → ℕ → ℕ → (ℕ → Sight) → Desk S → List Mark × Desk S
  unfolding mark_all
  mark_structures r x today now see k =
      if is_early r.no_mark_before now
      then ([], k)
      else mark_all r x today see (guards k.structures.by_corr) k
