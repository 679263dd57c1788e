-- ===== src/Execution/Structures.antt =====
-- execution/structures.py: a defined-risk option structure, its guard, and the manager that keeps
-- the guards. Prices and strikes are counted in units of 1/10000 rupee, fractions in 1/10000. A
-- strike or a width is never negative. The class of a structure is what the code reads of its type:
-- an iron condor, or a vertical that its name calls a credit or not.
pub mod Opening
pub mod Closing
pub mod Rebuild
pub mod Marking
pub mod Risk
pub mod Unwound
pub mod Postponed
pub mod Covered
mod Tests
use ai_trading_system.Base.{
  ℕ, ◌+◌, ◌*◌, ◌-◌, Bool, true, false, Option, none, some, List, [], ◌∷◌, max, map, if◌then◌else◌,
}
use ai_trading_system.Base.Int.{ℤ, pos, negsuc, ◌+ℤ◌, ◌-ℤ◌, ◌*ℤ◌, leb_ℤ, pos_part, neg_part}
use ai_trading_system.Base.Dict.{Dict, lookup, insert, erase}
use ai_trading_system.Broker.{Side, buy, sell, is_buy}
use ai_trading_system.Execution.Costs.{InstrumentType, ce, pe}
use ai_trading_system.Execution.Guards.{add, discard}

-- An iron condor has its short call, short put, long call and long put; a vertical its option type,
-- long and short strike.
pub data Shape : Type 0 where
  iron_condor : ℕ → ℕ → ℕ → ℕ → Shape
  vertical : Bool → InstrumentType → ℕ → ℕ → Shape

pub record Structure : Type 0 where
  pub shape : Shape
  pub max_loss_per_lot : ℕ

-- `_structure_width`
unfoldable pub structure_width : Shape → ℕ
structure_width (iron_condor sc sp lc lp) = (sc - lc) + (lc - sc)
structure_width (vertical credit opt long short) = (short - long) + (long - short)

-- `_legs_from_structure`
unfoldable pub legs_from_structure : Shape → List (InstrumentType × ℕ × Side)
legs_from_structure (iron_condor sc sp lc lp) =
    (ce, sc, sell) ∷ (ce, lc, buy) ∷ (pe, sp, sell) ∷ (pe, lp, buy) ∷ []
legs_from_structure (vertical credit opt long short) = (opt, long, buy) ∷ (opt, short, sell) ∷ []

-- `_Leg`
pub record Leg : Type 0 where
  pub position_id : ℕ
  pub token : ℕ
  pub tradingsymbol : ℕ
  pub side : Side
  pub qty : ℕ
  pub entry : ℕ
  pub fees : ℕ

-- the premium of one leg, received or paid
abbrev pub premium : Leg → ℤ
premium leg =
    if is_buy leg.side then pos 0 -ℤ pos (leg.entry * leg.qty) else pos (leg.entry * leg.qty)

unfoldable pub net_premium : List Leg → ℤ
net_premium [] = pos 0
net_premium (leg ∷ legs) = premium leg +ℤ net_premium legs

abbrev pub first_qty : List Leg → ℕ
first_qty [] = 0
first_qty (leg ∷ legs) = leg.qty

-- `max(0.01, x)`
abbrev pub at_least_paisa : ℕ → ℕ
at_least_paisa x = max 100 x

-- the maximum loss and profit, by whether the net premium was received or paid
abbrev pub risk_of : ℤ → ℕ → ℕ × ℕ
risk_of (pos net) width = (at_least_paisa (width - net), at_least_paisa net)
risk_of (negsuc d) width = (at_least_paisa (d + 1), at_least_paisa (width - (d + 1)))

-- `fill_based_risk`
unfoldable pub fill_based_risk : Shape → List Leg → ℤ × ℕ × ℕ
unfolding net_premium structure_width
fill_based_risk s legs =
    let net = net_premium legs in
    let (loss, profit) = risk_of net (structure_width s * first_qty legs) in (net, loss, profit)

-- Dates are numbers of days.
pub record StructureGuard : Type 0 where
  pub correlation_id : ℕ
  pub name : ℕ
  pub is_credit : Bool
  pub legs : List Leg
  pub max_loss_total : ℕ
  pub max_profit_total : ℕ
  pub entry_fees : ℕ
  pub target_fraction : ℕ
  pub stop_fraction : ℕ
  pub expiry : Option ℕ
  pub opened_on : Option ℕ
  pub exit_retries : ℕ

unfoldable pub tokens : List Leg → List ℕ
tokens legs = map (λ leg. leg.token) legs

-- the profit of one leg at a price
abbrev pub leg_pnl : Leg → ℕ → ℤ
leg_pnl leg price =
    (if is_buy leg.side then pos price -ℤ pos leg.entry else pos leg.entry -ℤ pos price) *ℤ leg.qty

abbrev pub add_leg : Option ℤ → Option ℤ → Option ℤ
add_leg none rest = none
add_leg (some x) none = none
add_leg (some x) (some y) = some (x +ℤ y)

abbrev pub priced_pnl : Leg → Option ℕ → Option ℤ
priced_pnl leg none = none
priced_pnl leg (some price) = some (leg_pnl leg price)

-- the sum over the legs, which needs a price of each
unfoldable pub legs_pnl : List Leg → (ℕ → Option ℕ) → Option ℤ
legs_pnl [] prices = some (pos 0)
legs_pnl (leg ∷ legs) prices = add_leg (priced_pnl leg (prices leg.token)) (legs_pnl legs prices)

abbrev pub less_fees : Option ℤ → ℕ → Option ℤ
less_fees none fees = none
less_fees (some x) fees = some (x -ℤ pos fees)

unfoldable pub combined_pnl : StructureGuard → (ℕ → Option ℕ) → Option ℤ
unfolding legs_pnl
combined_pnl g prices = less_fees (legs_pnl g.legs prices) g.entry_fees

pub data Action : Type 0 where
  target stop hold : Action

-- the tests of `decide`, of a known profit
unfoldable pub action_at : StructureGuard → ℤ → Action
action_at g pnl =
    if leb_ℤ (pos (g.target_fraction * g.max_profit_total)) (pnl *ℤ 10_000)
    then target
    else if leb_ℤ (pnl *ℤ 10_000) (pos 0 -ℤ pos (g.stop_fraction * g.max_loss_total))
    then stop
    else hold

abbrev pub act_on : StructureGuard → Option ℤ → Option (Action × ℤ)
act_on g none = none
act_on g (some pnl) = some (action_at g pnl, pnl)

unfoldable pub decide : StructureGuard → (ℕ → Option ℕ) → Option (Action × ℤ)
unfolding combined_pnl action_at
decide g prices = act_on g (combined_pnl g prices)

pub record StructureManager : Type 0 where
  pub by_corr : Dict StructureGuard
  pub by_token : Dict (List ℕ)

abbrev pub ids_at : ℕ → Dict (List ℕ) → List ℕ
ids_at t index = elim (lookup t index) [ none ↦ [] | some ids ↦ ids ]

unfoldable pub index_tokens : ℕ → List ℕ → Dict (List ℕ) → Dict (List ℕ)
index_tokens c [] index = index
index_tokens c (t ∷ ts) index = index_tokens c ts (insert t (add c (ids_at t index)) index)

unfoldable pub register : StructureGuard → StructureManager → StructureManager
unfolding index_tokens tokens
register g m = record {
  by_corr = insert g.correlation_id g m.by_corr;
  by_token = index_tokens g.correlation_id (tokens g.legs) m.by_token;
}

abbrev pub unindex : ℕ → ℕ → Dict (List ℕ) → Dict (List ℕ)
unindex c t index = elim (lookup t index) [
  | none ↦ index
  | some ids ↦ insert t (discard c ids) index
]

unfoldable pub unindex_tokens : ℕ → List ℕ → Dict (List ℕ) → Dict (List ℕ)
unindex_tokens c [] index = index
unindex_tokens c (t ∷ ts) index = unindex_tokens c ts (unindex c t index)

unfoldable pub unregister : ℕ → StructureManager → StructureManager
unfolding unindex_tokens tokens
unregister c m = elim (lookup c m.by_corr) [
  | none ↦ m
  | some g ↦ record {
    by_corr = erase c m.by_corr;
    by_token = unindex_tokens c (tokens g.legs) m.by_token;
  }
]

abbrev pub found : Option StructureGuard → List StructureGuard → List StructureGuard
found none rest = rest
found (some g) rest = g ∷ rest

abbrev pub guards_of : Dict StructureGuard → List ℕ → List StructureGuard
guards_of gs [] = []
guards_of gs (c ∷ cs) = found (lookup c gs) (guards_of gs cs)

unfoldable pub for_token : ℕ → StructureManager → List StructureGuard
for_token t m = guards_of m.by_corr (ids_at t m.by_token)
