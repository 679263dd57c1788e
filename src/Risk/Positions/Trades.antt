-- ===== src/Risk/Positions/Trades.antt =====
-- What the risk engine's reads of the book see and count.
use ai_trading_system.Base.{
  ℕ, ◌+◌, ◌≡◌, refl, ap, ◌∙◌, sym, Bool, true, false, ◌||◌, ◌&&◌, Option, none, some, List, [], ◌∷◌,
  ◌++◌, ◌==◌, if◌then◌else◌, arith, All, Bool-cases, inl, inr,
}
use ai_trading_system.Common.State.{Mode}
use ai_trading_system.Common.ModeTransition.{same_mode}
use ai_trading_system.Common.RuntimeMode.{RuntimeModeState}
use ai_trading_system.Risk.Scope.{position_scope, in_scope}
use ai_trading_system.Risk.Positions.{
  BookRow, open_positions, is_wanted, seen_in, count_row, count_from, open_trades_count,
}

-- a row has this correlation id
abbrev pub has_id : ℕ → Option ℕ → Bool
has_id c none = false
has_id c (some x) = x == c

abbrev pub known_in : ℕ → List BookRow → Bool
known_in c [] = false
known_in c (r ∷ rs) = has_id c r.correlation_id || known_in c rs

-- a row of a structure that is in the book already
abbrev pub is_leg : Option ℕ → List BookRow → Bool
is_leg none rs = false
is_leg (some c) rs = known_in c rs

or_assoc : (a b c : Bool) → ((a || b) || c) ≡ (a || (b || c))
or_assoc true b c = refl
or_assoc false b c = refl

or_swap : (a b : Bool) → (a || b) ≡ (b || a)
or_swap true true = refl
or_swap true false = refl
or_swap false true = refl
or_swap false false = refl

or_absorb : (a b : Bool) → (b ≡ true) → (a ≡ true → b ≡ true) → b ≡ (a || b)
or_absorb true b p h = p
or_absorb false b p h = refl

same_number : (c x : ℕ) (seen : List ℕ) → (x == c) ≡ true → seen_in x seen ≡ seen_in c seen
same_number c x seen h = let e : x ≡ c = ground (arith, h) in ap (λ t. seen_in t seen) e

seen-count_row :
    (c : ℕ) (id : Option ℕ) (seen : List ℕ) (n : ℕ)
    → seen_in c (count_row id (seen, n)).0 ≡ (seen_in c seen || has_id c id)
unfolding count_row
seen-count_row c none seen n = or_swap false (seen_in c seen)
seen-count_row c (some x) seen n = elim (Bool-cases (seen_in x seen)) [
  | inr new ↦ rw new (or_swap (x == c) (seen_in c seen))
  | inl old ↦ rw old (elim (Bool-cases (x == c)) [
    | inl e ↦ rw e (let p = sym (same_number c x seen e) ∙ old in rw p refl)
    | inr e ↦ rw e (or_swap false (seen_in c seen))
  ])
]

seen-count_from :
    (c : ℕ) (rs : List BookRow) (seen : List ℕ) (n : ℕ)
    → seen_in c (count_from rs (seen, n)).0 ≡ (seen_in c seen || known_in c rs)
unfolding count_from
seen-count_from c [] seen n = or_swap false (seen_in c seen)
seen-count_from c (r ∷ rs) seen n =
    let (seen', n') = count_row r.correlation_id (seen, n) in
    seen-count_from c rs seen' n'
    ∙ ap (λ b. b || known_in c rs) (seen-count_row c r.correlation_id seen n)
    ∙ or_assoc (seen_in c seen) (has_id c r.correlation_id) (known_in c rs)

count_from-append :
    (rs ts : List BookRow) (st : List ℕ × ℕ)
    → count_from (rs ++ ts) st ≡ count_from ts (count_from rs st)
unfolding count_from
count_from-append [] ts st = refl
count_from-append (r ∷ rs) ts st = count_from-append rs ts (count_row r.correlation_id st)

row_counts :
    (id : Option ℕ) (rs : List BookRow) (st : List ℕ × ℕ)
    → ((c : ℕ) → seen_in c st.0 ≡ known_in c rs)
    → (count_row id st).1 ≡ st.1 + (if is_leg id rs then 0 else 1)
unfolding count_row
row_counts none rs (seen, n) h = refl
row_counts (some c) rs (seen, n) h = elim (Bool-cases (known_in c rs)) [
  | inl p ↦ rw (h c ∙ p, p) (omega arith)
  | inr p ↦ rw (h c ∙ p, p) refl
]

-- A row that is added to the book takes one more slot, unless it is a leg of a structure that has a
-- row in the book already: then it takes none.
pub open_trades_count-snoc :
    (rs : List BookRow) (r : BookRow)
    → open_trades_count (rs ++ (r ∷ []))
      ≡ open_trades_count rs + (if is_leg r.correlation_id rs then 0 else 1)
unfolding open_trades_count count_from
open_trades_count-snoc rs r =
    ap (λ st. st.1) (count_from-append rs (r ∷ []) ([], 0))
    ∙ row_counts r.correlation_id rs (count_from rs ([], 0)) (λ c. seen-count_from c rs [] 0)

-- open, and of the mode that a state names
abbrev pub IsOpenIn : Mode → BookRow → Type 0
IsOpenIn m r = (r.is_open ≡ true) × (same_mode r.mode m ≡ true)

both : (a b c : Bool) → (a && (b && c)) ≡ true → (a ≡ true) × (b ≡ true)
both true true c h = (refl, refl)
both true false c h = ground (arith, h)
both false b c h = ground (arith, h)

-- However the rows of the two modes are mixed, what the engine adds up in the scope of a state are
-- open rows of the state's own namespace only.
pub open_positions-IsOpenIn :
    (s : RuntimeModeState) (rs : List BookRow)
    → All (IsOpenIn s.position_namespace) (open_positions (some (position_scope s)) rs)
unfolding open_positions in_scope position_scope
open_positions-IsOpenIn s [] = tt
open_positions-IsOpenIn s (r ∷ rs) = elim (Bool-cases (is_wanted (some (position_scope s)) r)) [
  | inl w ↦ rw w (both r.is_open _ _ w, open_positions-IsOpenIn s rs)
  | inr w ↦ rw w (open_positions-IsOpenIn s rs)
]
