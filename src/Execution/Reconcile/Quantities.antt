-- ===== src/Execution/Reconcile/Quantities.antt =====
-- The sums of `PositionBook.reconcile` are the quantities bought and sold.
use ai_trading_system.Base.{
  ℕ, ◌+◌, ◌≡◌, ◌↔◌, refl, sym, ap, ◌∙◌, subst, Bool, true, false, ◌&&◌, some, List, [], ◌∷◌, arith,
  ◌==◌, ==_iff, if◌then◌else◌, or_default,
}
use ai_trading_system.Base.Int.{
  ℤ, pos, ◌+ℤ◌, ◌-ℤ◌, pos_part, neg_part, eq_of_parts, +ℤ_parts, -ℤ_parts,
}
use ai_trading_system.Base.Dict.{Dict, lookup, lookup-insert}
use ai_trading_system.Broker.{NetRow, Side, buy, sell, is_buy}
use ai_trading_system.Common.State.{Mode}
use ai_trading_system.Execution.Executor.{Position}
use ai_trading_system.Execution.Reconcile.{
  key_of, get, add_at, signed_qty, is_open_in, ours_from, theirs_from,
}

-- The signed quantity of every instrument is the same in both sums.
abbrev pub Agree : Dict ℤ → Dict ℤ → Type 0
Agree ours theirs = (k : ℕ) → get k ours ≡ get k theirs

-- what an order of a side adds to a long holding, and to a short one
abbrev pub long_part : Side → ℕ → ℕ
long_part buy n = n
long_part sell n = 0

abbrev pub short_part : Side → ℕ → ℕ
short_part buy n = 0
short_part sell n = n

-- the quantities that the open positions of a mode have bought and sold of an instrument
abbrev pub bought : ℕ → Mode → Dict Position → ℕ
bought k mode [] = 0
bought k mode ((pid, p) ∷ ps) =
    (if is_open_in mode p && (key_of p.instrument_token == k)
      then long_part p.side p.quantity
      else 0)
    + bought k mode ps

abbrev pub sold : ℕ → Mode → Dict Position → ℕ
sold k mode [] = 0
sold k mode ((pid, p) ∷ ps) =
    (if is_open_in mode p && (key_of p.instrument_token == k)
      then short_part p.side p.quantity
      else 0)
    + sold k mode ps

-- the broker's long and short rows of an instrument
abbrev pub broker_long : ℕ → List NetRow → ℕ
broker_long k [] = 0
broker_long k (r ∷ rs) =
    (if key_of r.instrument_token == k then pos_part r.quantity else 0) + broker_long k rs

abbrev pub broker_short : ℕ → List NetRow → ℕ
broker_short k [] = 0
broker_short k (r ∷ rs) =
    (if key_of r.instrument_token == k then neg_part r.quantity else 0) + broker_short k rs

-- For every instrument the book's net quantity is the broker's: bought less sold is long less short.
abbrev pub Agreed : Mode → Dict Position → List NetRow → Type 0
Agreed mode ps rs =
    (k : ℕ) → bought k mode ps + broker_short k rs ≡ sold k mode ps + broker_long k rs

-- what a sum has gained, from the two parts of what was added
abbrev Gained : ℤ → ℤ → ℕ → ℕ → Type 0
Gained new old up down = pos_part new + neg_part old + down ≡ neg_part new + pos_part old + up

Gained-refl : (a : ℤ) → Gained a a 0 0
Gained-refl a = omega arith

Gained-trans :
    (a b c : ℤ) (u d u' d' : ℕ) → Gained b a u d → Gained c b u' d' → Gained c a (u + u') (d + d')
Gained-trans a b c u d u' d' h h' = omega arith

signed_qty-Gained :
    (p : Position) (a : ℤ)
    → Gained (a +ℤ signed_qty p) a (long_part p.side p.quantity) (short_part p.side p.quantity)
unfolding signed_qty
signed_qty-Gained p a = by_side p.side
  where
    by_side :
        (side : Side)
        → Gained
            (a +ℤ (if is_buy side then pos p.quantity else pos 0 -ℤ pos p.quantity))
            a
            (long_part side p.quantity)
            (short_part side p.quantity)
    by_side buy = ground (arith, +ℤ_parts a (pos p.quantity))
    by_side sell =
        ground (arith, +ℤ_parts a (pos 0 -ℤ pos p.quantity), -ℤ_parts (pos 0) (pos p.quantity))

get-add_at :
    (k j : ℕ) (x : ℤ) (d : Dict ℤ)
    → get k (add_at j x d) ≡ (if j == k then get k d +ℤ x else get k d)
unfolding add_at
get-add_at k j x d =
    ap (λ o. or_default o (pos 0)) (lookup-insert j k (get j d +ℤ x) d) ∙ at_key (j == k) refl
  where
    at_key :
        (b : Bool)
        → (j == k) ≡ b
        → or_default (if b then some (get j d +ℤ x) else lookup k d) (pos 0)
          ≡ (if b then get k d +ℤ x else get k d)
    at_key true e = let same : j ≡ k = (==_iff j k).0 e in ap (λ i. get i d +ℤ x) same
    at_key false e = refl

step-Gained :
    (b s : Bool) (a x new : ℤ) (u d : ℕ)
    → Gained (a +ℤ x) a u d
    → new ≡ (if b then (if s then a +ℤ x else a) else a)
    → Gained new a (if b && s then u else 0) (if b && s then d else 0)
step-Gained true true a x new u d h e = subst (λ n. Gained n a u d) (sym e) h
step-Gained true false a x new u d h e = subst (λ n. Gained n a 0 0) (sym e) (Gained-refl a)
step-Gained false s a x new u d h e = subst (λ n. Gained n a 0 0) (sym e) (Gained-refl a)

get-if :
    (b : Bool) (k j : ℕ) (x : ℤ) (d : Dict ℤ)
    → get k (if b then add_at j x d else d)
      ≡ (if b then (if j == k then get k d +ℤ x else get k d) else get k d)
get-if true k j x d = get-add_at k j x d
get-if false k j x d = refl

ours_from-Gained :
    (k : ℕ) (mode : Mode) (d : Dict ℤ) (ps : Dict Position)
    → Gained (get k (ours_from d mode ps)) (get k d) (bought k mode ps) (sold k mode ps)
unfolding ours_from
ours_from-Gained k mode d [] = Gained-refl (get k d)
ours_from-Gained k mode d ((pid, p) ∷ ps) =
    let j = key_of p.instrument_token in
    let b = is_open_in mode p in
    let d' = if b then add_at j (signed_qty p) d else d in
    Gained-trans (get k d) (get k d') (get k (ours_from d' mode ps)) _ _ _ _
      (step-Gained b (j == k) (get k d) (signed_qty p) (get k d') _ _
        (signed_qty-Gained p (get k d)) (get-if b k j (signed_qty p) d))
      (ours_from-Gained k mode d' ps)

theirs_from-Gained :
    (k : ℕ) (d : Dict ℤ) (rs : List NetRow)
    → Gained (get k (theirs_from d rs)) (get k d) (broker_long k rs) (broker_short k rs)
unfolding theirs_from
theirs_from-Gained k d [] = Gained-refl (get k d)
theirs_from-Gained k d (r ∷ rs) =
    let j = key_of r.instrument_token in
    let d' = add_at j r.quantity d in
    Gained-trans (get k d) (get k d') (get k (theirs_from d' rs)) _ _ _ _
      (step-Gained true (j == k) (get k d) r.quantity (get k d') _ _
        (ground (arith, +ℤ_parts (get k d) r.quantity)) (get-add_at k j r.quantity d))
      (theirs_from-Gained k d' rs)

-- The two sums agree exactly if the quantities do.
pub Agree-iff :
    (mode : Mode) (ps : Dict Position) (rs : List NetRow)
    → Agree (ours_from [] mode ps) (theirs_from [] rs) ↔ Agreed mode ps rs
Agree-iff mode ps rs = (
  λ h k.
      same (get k (ours_from [] mode ps)) (get k (theirs_from [] rs)) _ _ _ _ (ours k) (theirs k)
        (h k),
  λ h k.
      let a = ours k in
      let b = theirs k in
      let e = h k in
      eq_of_parts (get k (ours_from [] mode ps)) (get k (theirs_from [] rs)) (omega arith),
)
  where
    ours :
        (k : ℕ) → Gained (get k (ours_from [] mode ps)) (pos 0) (bought k mode ps) (sold k mode ps)
    ours k = ours_from-Gained k mode [] ps

    theirs :
        (k : ℕ) → Gained (get k (theirs_from [] rs)) (pos 0) (broker_long k rs) (broker_short k rs)
    theirs k = theirs_from-Gained k [] rs

    same :
        (x y : ℤ) (u d u' d' : ℕ)
        → Gained x (pos 0) u d
        → Gained y (pos 0) u' d'
        → x ≡ y
        → u + d' ≡ d + u'
    same x y u d u' d' h h' e = let p = ap pos_part e in let n = ap neg_part e in omega arith
