-- ===== src/Execution/Executor/Book.antt =====
-- The rows of execution/position_book.py that an exit writes.
use ai_trading_system.Base.{
  ℕ, Bool, true, false, Option, none, some, List, [], ◌∷◌, ◌++◌, ◌==◌, if◌then◌else◌,
}
use ai_trading_system.Base.Int.{ℤ, pos, ◌-ℤ◌, ◌*ℤ◌}
use ai_trading_system.Base.Dict.{lookup}
use ai_trading_system.Broker.{is_buy}
use ai_trading_system.Execution.Events.{
  EventType, cents, RowStatus, row_open, row_closed, row_close_pending,
}
use ai_trading_system.Execution.Executor.{Position, BracketRow, World}
use ai_trading_system.Execution.Executor.Booking.{update_at}

-- the realized profit of a close, after the fees of both legs
unfoldable pub realized_of : Position → ℕ → ℕ → ℤ
realized_of p exit_price exit_fees =
    let move =
      if is_buy p.side
      then pos exit_price -ℤ pos p.average_price
      else pos p.average_price -ℤ pos exit_price in
    cents (((move *ℤ p.quantity) -ℤ pos p.entry_fees) -ℤ pos exit_fees)

abbrev pub closed_row : ℕ → ℕ → Position → Position
closed_row exit_price exit_fees p = record p {
  status = row_closed;
  realized_pnl = some (realized_of p exit_price exit_fees);
}

-- `pos["status"] in ("open", "CLOSE_PENDING")`
abbrev pub is_closable : RowStatus → Bool
is_closable row_open = true
is_closable row_close_pending = true
is_closable _ = false

abbrev pub is_open : RowStatus → Bool
is_open row_open = true
is_open _ = false

abbrev pub parked_row : Option ℕ → Position → Position
parked_row oid p = record p { status = row_close_pending; exit_order = oid }

module _ {S : Type 0} where
  -- `close_position`, of the row that was read
  unfoldable pub close_found : Option Position → ℕ → ℕ → ℕ → World S → Option ℤ × World S
  close_found none pid exit_price exit_fees w = (none, w)
  close_found (some p) pid exit_price exit_fees w =
      if is_closable p.status
      then (
        some (realized_of p exit_price exit_fees),
        record w { positions = update_at (closed_row exit_price exit_fees) pid w.positions },
      )
      else (none, w)

  unfoldable pub close_position : ℕ → ℕ → ℕ → World S → Option ℤ × World S
  unfolding close_found
  close_position pid exit_price exit_fees w =
      close_found (lookup pid w.positions) pid exit_price exit_fees w

  unfoldable pub mark_close_pending : ℕ → Option ℕ → World S → World S
  mark_close_pending pid oid w = record w { positions = update_at (parked_row oid) pid w.positions }

  unfoldable pub append_event : ℕ → EventType → Option ℕ → World S → World S
  append_event pid type filled w = record w {
    events = w.events ++ (record { about = pid; event_type = type; filled_qty = filled } ∷ []);
  }

abbrev pub released : ℕ → List BracketRow → List BracketRow
released pid [] = []
released pid (b ∷ bs) =
    (if b.position_id == pid then record b { is_active = false } else b) ∷ released pid bs
