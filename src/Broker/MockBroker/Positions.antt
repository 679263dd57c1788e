-- ===== src/Broker/MockBroker/Positions.antt =====
-- `positions` of broker/mock_broker.py against `net_quantity`.
use ai_trading_system.Base.{
  ℕ, ◌≡◌, refl, [], ◌∷◌, Option, none, some, arith, ltb, leb, ◌==◌, ◌&&◌, if◌then◌else◌, ◌∙◌, ap,
  Bool-cases, inl, inr, or_default, ==_iff,
}
use ai_trading_system.Base.Int.{ℤ, pos, ◌+ℤ◌}
use ai_trading_system.Base.Dict.{Dict, lookup, insert, lookup-insert}
use ai_trading_system.Broker.MockBroker.{
  Order, signed, fresh_row, MockBroker, net_from, net_quantity, PositionRow, add_fill,
  positions_from, positions,
}

-- the quantity of a symbol's row, 0 if it has none
abbrev pub row_quantity : ℕ → Dict PositionRow → ℤ
row_quantity symbol net = elim (lookup symbol net) [ none ↦ pos 0 | some r ↦ r.quantity ]

or_default-quantity :
    (found : Option PositionRow) (fresh : PositionRow)
    → fresh.quantity ≡ pos 0
    → (or_default found fresh).quantity ≡ elim found [ none ↦ pos 0 | some r ↦ r.quantity ]
or_default-quantity none fresh e = e
or_default-quantity (some r) fresh e = refl

row_quantity-insert :
    (symbol k : ℕ) (r : PositionRow) (net : Dict PositionRow)
    → row_quantity symbol (insert k r net)
      ≡ (if k == symbol then r.quantity else row_quantity symbol net)
row_quantity-insert symbol k r net = ground (arith, lookup-insert k symbol r net)

row_quantity-add_fill :
    (symbol : ℕ) (o : Order) (net : Dict PositionRow)
    → row_quantity symbol (add_fill o net) ≡ (
        if o.symbol == symbol then row_quantity symbol net +ℤ signed o else row_quantity symbol net)
unfolding add_fill
row_quantity-add_fill symbol o net =
    row_quantity-insert symbol o.symbol _ net ∙ elim (Bool-cases (o.symbol == symbol)) [
      | inl same ↦
          rw (same, or_default-quantity (lookup o.symbol net) (fresh_row o) refl)
            (ap (λ k. row_quantity k net +ℤ signed o) ((==_iff o.symbol symbol).0 same))
      | inr other ↦ rw other
    ]

row_quantity-step :
    (symbol : ℕ) (o : Order) (net : Dict PositionRow)
    → row_quantity symbol (if leb o.filled 0 then net else add_fill o net) ≡ (
        if (o.symbol == symbol) && ltb 0 o.filled
        then row_quantity symbol net +ℤ signed o
        else row_quantity symbol net)
row_quantity-step symbol o net = ground (arith, row_quantity-add_fill symbol o net)

row_quantity-positions_from :
    (symbol : ℕ) (net : Dict PositionRow) (os : Dict Order)
    → row_quantity symbol (positions_from net os) ≡ net_from (row_quantity symbol net) symbol os
unfolding positions_from net_from
row_quantity-positions_from symbol net [] = refl
row_quantity-positions_from symbol net ((k, o) ∷ os) =
    row_quantity-positions_from symbol (if leb o.filled 0 then net else add_fill o net) os
    ∙ ap (λ q. net_from q symbol os) (row_quantity-step symbol o net)

-- For every symbol the row of `positions` carries the signed sum of the fills, as `net_quantity`
-- computes it; a symbol without a row has the sum 0.
pub row_quantity-positions :
    (symbol : ℕ) (b : MockBroker) → row_quantity symbol (positions b) ≡ net_quantity symbol b
unfolding positions net_quantity
row_quantity-positions symbol b = row_quantity-positions_from symbol [] b.orders
