-- ===== src/Execution/Tests.antt =====
-- The parts of the executor on concrete rows, guards and logs.
use mathlib.Core.List.Memᴰ.{head, tail}
use mathlib.Core.List.Permᴰ.{swap}
use ai_trading_system.Base.{◌*◌, ◌≡◌, ◌↔◌, refl, sym, ap, ◌∙◌, none, some, [], ◌∷◌, arith}
use ai_trading_system.Base.Int.{pos, negsuc}
use ai_trading_system.Broker.{buy, working, complete, HistoryRow}
use ai_trading_system.Execution.Guards.{stop_hit, Guard, check, adjust, scale}
use ai_trading_system.Execution.Guards.Ratchet.{
  Tighter, watched, watched-Tighter, Inside, silent_iff, BreakevenReached, LockReached, Protects,
  KeepsGain, adjusted-Protects,
}
use ai_trading_system.Execution.Recovery.{NetPosition, adopted_guard}
use ai_trading_system.Execution.Recovery.Adopted.{check-adopted}
use ai_trading_system.Execution.Events.{Event, entry, full_close, position_from_events}
use ai_trading_system.Execution.Events.Order.{IsKeyed, position-perm}

abbrev half_row : HistoryRow
half_row = record {
  status = some working;
  filled_quantity = some 5;
  average_price = some 1_000_000;
  status_message = none;
}

abbrev full_row : HistoryRow
full_row = record half_row { status = some complete; filled_quantity = some 10 }

-- long from 100 with its stop at 98 and its target at 110
abbrev a_guard : Guard
a_guard = record {
  position_id = 1;
  side = buy;
  entry = 1_000_000;
  stop = 980_000 * scale;
  target = 1_100_000;
  instrument_token = 7;
  trail_distance = 0;
  square_off = some 920;
  high_water = 0;
  breakeven_at_r = 10_000;
  lock_trigger_frac = 5_000;
  max_giveback_frac = 3_500;
  init_risk = 20_000 * scale;
  best_gain = 0;
}

watched-Tighter_example :
    Tighter a_guard (watched ((1_030_000, 600) ∷ (1_010_000, 601) ∷ []) a_guard)
watched-Tighter_example = watched-Tighter ((1_030_000, 600) ∷ (1_010_000, 601) ∷ []) a_guard

silent_iff_example :
    ((check a_guard 1_030_000 600).0 ≡ none) ↔ Inside buy (check a_guard 1_030_000 600).1 1_030_000
silent_iff_example = silent_iff a_guard 1_030_000 600 refl

adjusted-Protects_example :
    (BreakevenReached (adjust a_guard 1_030_000)
      → Protects (adjust a_guard 1_030_000) ((adjust a_guard 1_030_000).entry * scale))
    × (LockReached (adjust a_guard 1_030_000) → KeepsGain (adjust a_guard 1_030_000))
adjusted-Protects_example = adjusted-Protects a_guard 1_030_000

abbrev short_net : NetPosition
short_net = record {
  instrument_token = some 7;
  tradingsymbol = 1;
  quantity = negsuc 9;
  average_price = 1_000_000;
  last_price = 1_000_000;
  product = none;
  exchange = none;
}

check-adopted_example :
    (check (adopted_guard 1 short_net (900_000, 1_100_000)) 950_000 0).0
    ≡ some (record { reason = stop_hit; price = 950_000 })
check-adopted_example =
    check-adopted 1 900_000 1_100_000 950_000 0 short_net (omega arith) (omega arith)

abbrev entered : Event
entered = record {
  ts = 5;
  id = 1;
  event_type = entry;
  filled_qty = 10;
  pending_qty = 0;
  realized_pnl = pos 0;
}

abbrev exited : Event
exited = record entered { ts = 6; id = 2; event_type = full_close }

-- no two of two events at different times share a time stamp
two-IsKeyed : IsKeyed (entered ∷ exited ∷ [])
two-IsKeyed e f (head p) (head q) ts id = p ∙ sym q
two-IsKeyed e f (head p) (tail (head q)) ts id =
    ground (arith, ap (λ x. x.ts) p, ap (λ x. x.ts) q, ts)
two-IsKeyed e f (tail (head p)) (head q) ts id =
    ground (arith, ap (λ x. x.ts) p, ap (λ x. x.ts) q, ts)
two-IsKeyed e f (tail (head p)) (tail (head q)) ts id = p ∙ sym q
two-IsKeyed e f (head p) (tail (tail m)) ts id = elim m [ ]
two-IsKeyed e f (tail (head p)) (tail (tail m)) ts id = elim m [ ]
two-IsKeyed e f (tail (tail m)) q ts id = elim m [ ]

position-perm_example :
    position_from_events (entered ∷ exited ∷ []) ≡ position_from_events (exited ∷ entered ∷ [])
position-perm_example = position-perm (swap refl refl) two-IsKeyed
