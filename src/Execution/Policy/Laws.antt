-- ===== src/Execution/Policy/Laws.antt =====
-- What the decisions of execution/policy.py guarantee.
use ai_trading_system.Base.{
  ℕ, ◌≤◌, ◌≡◌, ◌↔◌, true, Option, none, some, List, [], ◌∷◌, ◌++◌, arith, get_last?-snoc,
  or_default,
}
use ai_trading_system.Broker.{BrokerStatus, complete, HistoryRow}
use ai_trading_system.Execution.Policy.{
  normalize_exit_status, close_books_fully, read_row, reduce_order_history,
}

close_books_iff :
    (s : Option BrokerStatus) (filled qty : ℕ)
    → (close_books_fully (normalize_exit_status s filled) filled qty ≡ true)
      ↔ ((s ≡ some complete) × (qty ≤ filled))
unfolding close_books_fully normalize_exit_status
close_books_iff none filled qty = ground arith
close_books_iff (some s) filled qty = ground arith

reduce-snoc :
    (rows : List HistoryRow) (last : HistoryRow)
    → reduce_order_history (rows ++ (last ∷ [])) ≡ read_row last
unfolding reduce_order_history
reduce-snoc rows last = rw (get_last?-snoc rows last, reduce_order_history)

-- The books are closed on an exit exactly if the last row of the order's history says COMPLETE with
-- at least the position's quantity filled, whatever the rows before it say.
pub close_books_by_last_row :
    (rows : List HistoryRow) (last : HistoryRow) (qty : ℕ)
    → let truth = reduce_order_history (rows ++ (last ∷ [])) in
      (close_books_fully (normalize_exit_status truth.status truth.filled) truth.filled qty ≡ true)
      ↔ ((last.status ≡ some complete) × (qty ≤ or_default last.filled_quantity 0))
unfolding read_row
close_books_by_last_row rows last qty =
    rw (reduce-snoc rows last) (close_books_iff last.status (or_default last.filled_quantity 0) qty)
