-- ===== src/Data/Candles/Keys.antt =====
-- One key of the state of data/aggregator.py: what setting this or another key does to it.
use ai_trading_system.Base.{
  ℕ, ◌≡◌, refl, ap, ◌∙◌, inl, inr, Bool, true, false, Option, some, List, [], ◌∷◌, ◌++◌, arith,
  ◌==◌, if◌then◌else◌, Bool-cases, drop, ==_iff,
}
use ai_trading_system.Data.Candles.{
  Interval, Building, ClosedCandle, State, same_interval, is_key, find, set, finalize, finalize_all,
}
use ai_trading_system.Data.Candles.Chart.{run_first}

-- the candles of one instrument and interval
abbrev pub of_key : ℕ → Interval → List ClosedCandle → List ClosedCandle
of_key token i [] = []
of_key token i (c ∷ cs) =
    if is_key token i (c.instrument_token, c.interval)
    then c ∷ of_key token i cs
    else of_key token i cs

same_interval_eq : (j i : Interval) → same_interval j i ≡ true → j ≡ i
same_interval_eq j i h = ground arith

pub is_key_eq : (t u : ℕ) (j l : Interval) → is_key t j (u, l) ≡ true → (u ≡ t) × (l ≡ j)
is_key_eq t u j l h = elim (Bool-cases (u == t)) [
  | inl e ↦ ((==_iff u t).0 e, same_interval_eq l j (ground (arith, h, e)))
  | inr e ↦ ground (arith, h, e)
]

pub is_key_self : (t : ℕ) (j : Interval) → is_key t j (t, j) ≡ true
is_key_self t j = ground arith

module _ (token : ℕ) (i : Interval) where
  pub of_key-append :
      (cs ds : List ClosedCandle)
      → of_key token i (cs ++ ds) ≡ of_key token i cs ++ of_key token i ds
  of_key-append [] ds = refl
  of_key-append (c ∷ cs) ds = ground (arith, of_key-append cs ds)

  -- the candles of the key that a state holds
  abbrev pub entries : State → List ClosedCandle
  entries s = of_key token i (finalize_all s)

  pub find-set_same : (b : Building) (s : State) → find token i (set token i b s) ≡ some b
  find-set_same b [] = rw (is_key_self token i) refl
  find-set_same b ((k, c) ∷ s) = ground (arith, find-set_same b s)

  -- another key than ours
  abbrev pub IsOther : ℕ × Interval → Type 0
  IsOther k = is_key token i k ≡ false

  key-IsOther :
      (t u : ℕ) (j l : Interval) → IsOther (t, j) → is_key t j (u, l) ≡ true → IsOther (u, l)
  key-IsOther t u j l h e = let (p, q) = is_key_eq t u j l e in (λ k. is_key token i (p k, q k)) ∙ h

  -- where another key is set, ours keeps its place
  pub find-set_other :
      (t : ℕ) (j : Interval) (b : Building) (s : State)
      → IsOther (t, j)
      → find token i (set t j b s) ≡ find token i s
  find-set_other t j b [] h = rw h refl
  find-set_other t j b (((u, l), c) ∷ s) h = elim (Bool-cases (is_key t j (u, l))) [
    | inl e ↦ rw (e, key-IsOther t u j l h e) refl
    | inr e ↦ rw e (ground (arith, find-set_other t j b s h))
  ]

  pub entries-set_other :
      (t : ℕ) (j : Interval) (b : Building) (s : State)
      → IsOther (t, j)
      → entries (set t j b s) ≡ entries s
  unfolding finalize
  entries-set_other t j b [] h = rw h refl
  entries-set_other t j b (((u, l), c) ∷ s) h = elim (Bool-cases (is_key t j (u, l))) [
    | inl e ↦ rw (e, key-IsOther t u j l h e) refl
    | inr e ↦ rw e (ground (arith, entries-set_other t j b s h))
  ]

  -- a state holds the key once, if at all
  abbrev pub IsKept : State → Type 0
  IsKept s = entries s ≡ run_first token i (find token i s) []

  kept_head :
      (q : Bool) (x : ClosedCandle) (rest : List ClosedCandle) (c : Building) (o : Option Building)
      → q ≡ true
      → (if q then x ∷ rest else rest) ≡ run_first token i (if q then some c else o) []
      → rest ≡ []
  kept_head true x rest c o p e = ap (drop 1) e
  kept_head false x rest c o p e = ground (arith, p)

  kept_tail :
      (q : Bool) (x : ClosedCandle) (rest : List ClosedCandle) (c : Building) (o : Option Building)
      → q ≡ false
      → (if q then x ∷ rest else rest) ≡ run_first token i (if q then some c else o) []
      → rest ≡ run_first token i o []
  kept_tail true x rest c o p e = ground (arith, p)
  kept_tail false x rest c o p e = e

  pub entries-set_same :
      (b : Building) (s : State) → IsKept s → entries (set token i b s) ≡ finalize token i b ∷ []
  unfolding finalize
  entries-set_same b [] e = rw (is_key_self token i) refl
  entries-set_same b (((u, l), c) ∷ s) e = elim (Bool-cases (is_key token i (u, l))) [
    | inl p ↦
        let (t_eq, l_eq) = is_key_eq token u i l p in
        let none_left =
          kept_head (is_key token i (u, l)) (finalize u l c) (entries s) c (find token i s) p e in
        rw (p, p) (λ k. finalize (t_eq k) (l_eq k) b ∷ none_left k)
    | inr p ↦
        rw (p, p)
          (entries-set_same b s
            (kept_tail (is_key token i (u, l)) (finalize u l c) (entries s) c (find token i s) p e))
  ]
