-- ===== src/Execution/Reconcile.antt =====
-- `PositionBook.reconcile` of execution/position_book.py and execution/reconciler.py, over the World of
-- the executor. The alert and the stored snapshot are left out.
pub mod Quantities
pub mod Agreement
use ai_trading_system.Base.{
  ℕ, ◌+◌, Bool, true, false, not, ◌&&◌, ◌||◌, Option, none, some, List, [], ◌∷◌, ◌==◌,
  if◌then◌else◌, or_default,
}
use ai_trading_system.Base.Int.{ℤ, pos, ◌+ℤ◌, ◌-ℤ◌, pos_part, neg_part}
use ai_trading_system.Base.Dict.{Dict, lookup, insert}
use ai_trading_system.Broker.{NetRow, is_buy}
use ai_trading_system.Common.State.{Mode, live}
use ai_trading_system.Common.ModeTransition.{same_mode}
use ai_trading_system.Execution.Guards.{add}
use ai_trading_system.Execution.Executor.{Position, World}
use ai_trading_system.Execution.Executor.Book.{is_open}

-- an instrument token as a key, with the missing one
abbrev pub key_of : Option ℕ → ℕ
key_of none = 0
key_of (some t) = t + 1

-- `d.get(key, 0)`
abbrev pub get : ℕ → Dict ℤ → ℤ
get k d = or_default (lookup k d) (pos 0)

-- `d[key] = d.get(key, 0) + x`
unfoldable pub add_at : ℕ → ℤ → Dict ℤ → Dict ℤ
add_at k x d = insert k (get k d +ℤ x) d

-- the signed quantity of a position
unfoldable pub signed_qty : Position → ℤ
signed_qty p = if is_buy p.side then pos p.quantity else pos 0 -ℤ pos p.quantity

-- `get_open(mode)`
abbrev pub is_open_in : Mode → Position → Bool
is_open_in mode p = is_open p.status && same_mode p.mode mode

-- `ours`, from what was summed so far
unfoldable pub ours_from : Dict ℤ → Mode → Dict Position → Dict ℤ
unfolding add_at signed_qty
ours_from d mode [] = d
ours_from d mode ((pid, p) ∷ ps) =
    ours_from (if is_open_in mode p then add_at (key_of p.instrument_token) (signed_qty p) d else d)
      mode ps

-- `theirs`
unfoldable pub theirs_from : Dict ℤ → List NetRow → Dict ℤ
unfolding add_at
theirs_from d [] = d
theirs_from d (r ∷ rs) = theirs_from (add_at (key_of r.instrument_token) r.quantity d) rs

abbrev pub keys : Dict ℤ → List ℕ
keys [] = []
keys ((k, v) ∷ d) = k ∷ keys d

-- `set(ours) | set(theirs)`
abbrev pub union : List ℕ → List ℕ → List ℕ
union [] ys = ys
union (x ∷ xs) ys = add x (union xs ys)

pub record Mismatch : Type 0 where
  pub token : ℕ
  pub book_qty : ℤ
  pub broker_qty : ℤ

abbrev pub eq_ℤ : ℤ → ℤ → Bool
eq_ℤ a b = pos_part a + neg_part b == pos_part b + neg_part a

unfoldable pub mismatches : List ℕ → Dict ℤ → Dict ℤ → List Mismatch
mismatches [] ours theirs = []
mismatches (k ∷ ks) ours theirs =
    let rest = mismatches ks ours theirs in
    if eq_ℤ (get k ours) (get k theirs)
    then rest
    else record { token = k; book_qty = get k ours; broker_qty = get k theirs } ∷ rest

unfoldable pub reconcile : List NetRow → Mode → Dict Position → List Mismatch
unfolding ours_from theirs_from mismatches
reconcile broker_net mode ps =
    let ours = ours_from [] mode ps in
    let theirs = theirs_from [] broker_net in
    mismatches (union (keys ours) (keys theirs)) ours theirs

pub data Severity : Type 0 where
  info trading_blocked flatten_required : Severity

-- the broker holds a quantity that the book does not know
abbrev pub is_unknown : Mismatch → Bool
is_unknown m = eq_ℤ m.book_qty (pos 0) && not (eq_ℤ m.broker_qty (pos 0))

abbrev pub any_unknown : List Mismatch → Bool
any_unknown [] = false
any_unknown (m ∷ ms) = is_unknown m || any_unknown ms

unfoldable pub classify_severity : List Mismatch → Severity
classify_severity [] = info
classify_severity (m ∷ ms) = if any_unknown (m ∷ ms) then flatten_required else trading_blocked

-- `severity in (TRADING_BLOCKED, FLATTEN_REQUIRED)`
abbrev pub acts : Severity → Bool
acts info = false
acts _ = true

unfoldable pub act : {S : Type 0} → Severity → World S → World S
act severity w = record w {
  config = record w.config {
    block_new_entries = if acts severity then true else w.config.block_new_entries;
  };
}

-- `run_reconcile`
unfoldable pub run_reconcile : {S : Type 0} → List NetRow → World S → Severity × World S
unfolding reconcile classify_severity act
run_reconcile broker_net w =
    let severity = classify_severity (reconcile broker_net live w.positions) in
    (severity, act severity w)
