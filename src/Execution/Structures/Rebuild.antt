-- ===== src/Execution/Structures/Rebuild.antt =====
-- `rebuild_structures` of execution/structures.py: the guards of the open structures after a restart.
-- A leg's fees are those of its position's row.
use ai_trading_system.Base.{
  ℕ, Bool, ◌&&◌, Option, none, some, List, [], ◌∷◌, ◌++◌, map, if◌then◌else◌, or_default,
}
use ai_trading_system.Base.Dict.{Dict, lookup, insert}
use ai_trading_system.Execution.Costs.{fno}
use ai_trading_system.Execution.Executor.{Position}
use ai_trading_system.Execution.Executor.Book.{is_open}
use ai_trading_system.Execution.Structures.{Leg, StructureGuard, StructureManager, register}
use ai_trading_system.Execution.Structures.Opening.{Meta, LegRow, Desk}
use ai_trading_system.Risk.Positions.{same_sleeve}

-- A row of the query.
pub record OpenLeg : Type 0 where
  pub id : ℕ
  pub correlation_id : ℕ
  pub position : Position
  pub structure_meta : Option Meta

abbrev pub open_leg : ℕ → Position → LegRow → OpenLeg
open_leg pid p r = record {
  id = pid;
  correlation_id = r.correlation_id;
  position = p;
  structure_meta = r.structure_meta;
}

-- `status = 'open' AND sleeve = 'fno'`
abbrev pub is_open_leg : Position → Bool
is_open_leg p = is_open p.status && same_sleeve p.sleeve fno

abbrev pub joined : ℕ → Position → Option LegRow → List OpenLeg → List OpenLeg
joined pid p none rest = rest
joined pid p (some r) rest = if is_open_leg p then open_leg pid p r ∷ rest else rest

-- the query; a row that no structure has opened has no metadata, and is left to the caller
unfoldable pub open_legs : Dict LegRow → Dict Position → List OpenLeg
open_legs rows [] = []
open_legs rows ((pid, p) ∷ ps) = joined pid p (lookup pid rows) (open_legs rows ps)

-- `by_corr.setdefault(corr, []).append(row)`
abbrev pub append_to : OpenLeg → Option (List OpenLeg) → List OpenLeg
append_to r none = r ∷ []
append_to r (some rs) = rs ++ (r ∷ [])

unfoldable pub group : List OpenLeg → Dict (List OpenLeg) → Dict (List OpenLeg)
group [] d = d
group (r ∷ rs) d = group rs (insert r.correlation_id (append_to r (lookup r.correlation_id d)) d)

-- `meta or raw.get("structure_meta")`
abbrev pub first_meta : List OpenLeg → Option Meta
first_meta [] = none
first_meta (r ∷ rs) = elim r.structure_meta [ none ↦ first_meta rs | some m ↦ some m ]

abbrev pub leg_of : OpenLeg → Leg
leg_of r = record {
  position_id = r.id;
  token = or_default r.position.instrument_token 0;
  tradingsymbol = r.position.tradingsymbol;
  side = r.position.side;
  qty = r.position.quantity;
  entry = r.position.average_price;
  fees = r.position.entry_fees;
}

unfoldable pub rebuilt_guard : ℕ → Meta → List OpenLeg → StructureGuard
rebuilt_guard c m rs = record {
  correlation_id = c;
  name = m.name;
  is_credit = m.is_credit;
  legs = map leg_of rs;
  max_loss_total = m.max_loss_total;
  max_profit_total = m.max_profit_total;
  entry_fees = m.entry_fees_total;
  target_fraction = m.target_fraction;
  stop_fraction = m.stop_fraction;
  expiry = m.expiry;
  opened_on = m.opened_on;
  exit_retries = 0;
}

abbrev pub ids : List OpenLeg → List ℕ
ids rs = map (λ r. r.id) rs

-- one group: without metadata it is only logged
abbrev pub rebuild_group :
    ℕ → List OpenLeg → Option Meta → List ℕ × StructureManager → List ℕ × StructureManager
rebuild_group c rs none st = st
rebuild_group c rs (some m) (covered, sm) = (covered ++ ids rs, register (rebuilt_guard c m rs) sm)

unfoldable pub rebuild_groups :
    Dict (List OpenLeg) → List ℕ × StructureManager → List ℕ × StructureManager
unfolding register rebuilt_guard
rebuild_groups [] st = st
rebuild_groups ((c, rs) ∷ gs) st = rebuild_groups gs (rebuild_group c rs (first_meta rs) st)

-- `rebuild_structures`
unfoldable pub rebuild_structures : {S : Type 0} → Desk S → List ℕ × Desk S
unfolding rebuild_groups group open_legs
rebuild_structures k =
    let (covered, sm) =
      rebuild_groups (group (open_legs k.leg_rows k.world.positions) []) ([], k.structures) in
    (covered, record k { structures = sm })
