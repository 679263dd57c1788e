-- ===== src/Risk/Engine/Gates.antt =====
-- The checks of `size` and `size_structure` of risk/engine.py, before the sizing.
use ai_trading_system.Base.{
  ℕ, ◌<◌, ◌+◌, ◌≤◌, ◌≡◌, ◌↔◌, refl, Bool, true, false, Option, none, List, [], ◌∷◌, All, arith, leb,
  is_some, ◌==◌,
}
use ai_trading_system.Execution.Costs.{Sleeve}
use ai_trading_system.Risk.Positions.{open_trades_count}
use ai_trading_system.Risk.Scope.{must_block}
use ai_trading_system.Risk.Engine.{Desk, Listing, book, funds, risk_profile_of}
use ai_trading_system.Risk.Engine.Ask.{
  Block, first_block, common_checks, gates, structure_gates, is_today, is_held, is_margin_unknown,
  already_held, margin_unknown, slots,
}

abbrev IsClear : Bool × Block → Type 0
IsClear c = c.0 ≡ false

first_block-All : (cs : List (Bool × Block)) → first_block cs ≡ none → All IsClear cs
first_block-All [] h = tt
first_block-All ((true, why) ∷ cs) h = ground (arith, h)
first_block-All ((false, why) ∷ cs) h = (refl, first_block-All cs h)

All-first_block : (cs : List (Bool × Block)) → All IsClear cs → first_block cs ≡ none
All-first_block [] h = refl
All-first_block ((true, why) ∷ cs) h = ground (arith, h.0)
All-first_block ((false, why) ∷ cs) h = All-first_block cs h.1

-- No switch and no brake is on, there is capital, and one more trade has a slot.
pub record IsReady (k : Desk) (sleeve : Sleeve) : Type 0 where
  pub not_killed : k.config.kill_switch_active ≡ false
  pub no_period_brake : k.brakes.period_brake_active ≡ false
  pub has_budget : is_today k.brakes.trade_budget_exhausted k.today ≡ false
  pub no_streak : is_today (k.brakes.sleeve_brake sleeve) k.today ≡ false
  pub has_funds : 0 < funds k
  pub has_slot : open_trades_count (book k) + 1 ≤ slots k

common-IsReady :
    (k : Desk) (sleeve : Sleeve) (rest : List (Bool × Block))
    → All IsClear (common_checks k sleeve rest)
    → IsReady k sleeve × All IsClear rest
common-IsReady k sleeve rest (a, (b, (c, (d, (e, (f, h)))))) = (
  record {
    not_killed = a;
    no_period_brake = b;
    has_budget = c;
    no_streak = d;
    has_funds = ground (arith, e);
    has_slot = ground (arith, f);
  },
  h,
)

ready_common :
    (k : Desk) (sleeve : Sleeve) (rest : List (Bool × Block))
    → IsReady k sleeve
    → All IsClear rest
    → All IsClear (common_checks k sleeve rest)
ready_common k sleeve rest r h =
    (r.not_killed, (r.no_period_brake, (r.has_budget, (r.no_streak, (no_funds, (no_slot, h))))))
  where
    no_funds : (funds k == 0) ≡ false
    no_funds = ground (arith, r.has_funds)

    no_slot : leb (slots k) (open_trades_count (book k)) ≡ false
    no_slot = ground (arith, r.has_slot)

-- A size for an instrument is asked for exactly if the desk is ready for its sleeve, no open
-- position is on the instrument, and in live the margin is known.
pub gates_iff :
    (k : Desk) (i : Listing) (sleeve : Sleeve) (margin : Option (ℕ × ℕ))
    → (gates k i sleeve margin ≡ none) ↔ (
        IsReady k sleeve
        × (is_held i.instrument_token (book k) ≡ false)
        × (must_block (risk_profile_of k.runtime) (is_some margin) ≡ false))
unfolding gates
gates_iff k i sleeve margin =
    let rest : List (Bool × Block) =
      (is_held i.instrument_token (book k), already_held)
      ∷ (is_margin_unknown k (is_some margin), margin_unknown)
      ∷ [] in
    (
      λ h.
          let (r, (free, (known, _))) =
            common-IsReady k sleeve rest (first_block-All (common_checks k sleeve rest) h) in
          (r, free, known),
      λ (r, free, known).
          All-first_block (common_checks k sleeve rest)
            (ready_common k sleeve rest r (free, (known, tt))),
    )

-- The same for a structure, which may be on a name that is held already.
pub structure_gates_iff :
    (k : Desk) (sleeve : Sleeve) (margin : Option ℕ)
    → (structure_gates k sleeve margin ≡ none)
      ↔ (IsReady k sleeve × (must_block (risk_profile_of k.runtime) (is_some margin) ≡ false))
unfolding structure_gates
structure_gates_iff k sleeve margin =
    let rest : List (Bool × Block) = (is_margin_unknown k (is_some margin), margin_unknown) ∷ [] in
    (
      λ h.
          let (r, (known, _)) =
            common-IsReady k sleeve rest (first_block-All (common_checks k sleeve rest) h) in
          (r, known),
      λ (r, known).
          All-first_block (common_checks k sleeve rest) (ready_common k sleeve rest r (known, tt)),
    )
