-- ===== src/Data/Candles/Project.antt =====
-- The aggregator of data/aggregator.py serves every instrument and interval on its own.
use ai_trading_system.Base.{
  ℕ, suc, ◌≡◌, refl, sym, ap, subst, ◌∙◌, inl, inr, false, Option, none, some, List, [], ◌∷◌, ◌++◌,
  arith, ◌==◌, if◌then◌else◌, ltb, Bool-cases, All, ==_iff,
}
use ai_trading_system.Data.Candles.{
  Interval, bucket_start, Tick, Building, ClosedCandle, State, same_interval, is_key, find, set,
  finalize, step, add_tick, known, flush,
}
use ai_trading_system.Data.Candles.Chart.{IsOf, chart, run_key, run_first, run_first-chart}
use ai_trading_system.Data.Candles.Keys.{
  of_key, is_key_eq, is_key_self, of_key-append, find-set_same, find-set_other, entries-set_other,
  entries-set_same, IsOther, IsKept, entries,
}

-- the ticks of one instrument
abbrev pub of_token : ℕ → List Tick → List Tick
of_token token [] = []
of_token token (t ∷ ts) =
    if t.instrument_token == token then t ∷ of_token token ts else of_token token ts

abbrev pub times : Interval → List Interval → ℕ
times i [] = 0
times i (j ∷ js) = if same_interval j i then suc (times i js) else times i js

-- all candles of a session: what the ticks close, in turn, and what `flush` closes at the end
abbrev pub candles : List Interval → List Tick → State → List ClosedCandle
candles is [] s = (flush s).0
candles is (t ∷ ts) s = let (closed, s') = add_tick is t s in closed ++ candles is ts s'

of_token-IsOf : (token : ℕ) (ts : List Tick) → All (IsOf token) (of_token token ts)
of_token-IsOf token [] = tt
of_token-IsOf token (t ∷ ts) = elim (Bool-cases (t.instrument_token == token)) [
  | inl e ↦ rw e ((==_iff t.instrument_token token).0 e, of_token-IsOf token ts)
  | inr e ↦ rw e (of_token-IsOf token ts)
]

module _ (token : ℕ) (i : Interval) where
  -- how many intervals of a tick are the key
  abbrev hits : List Interval → Tick → ℕ
  hits [] t = 0
  hits (j ∷ js) t = if is_key token i (t.instrument_token, j) then suc (hits js t) else hits js t

  -- nothing of the key is touched
  pub record IsSame (s s' : State) : Type 0 where
    pub same_find : find token i s' ≡ find token i s
    pub same_entries : entries token i s' ≡ entries token i s

  step_other :
      (bs : ℕ) (j : Interval) (t : Tick) (o : Option Building)
      → IsOther token i (t.instrument_token, j)
      → of_key token i (step bs j t o).0 ≡ []
  unfolding step finalize
  step_other bs j t none h = refl
  step_other bs j t (some cur) h = elim (Bool-cases (ltb cur.start bs)) [
    | inl e ↦ rw (e, h) refl
    | inr e ↦ rw e refl
  ]

  add_tick_other :
      (is : List Interval) (t : Tick) (s : State)
      → hits is t ≡ 0
      → (of_key token i (add_tick is t s).0 ≡ []) × IsSame s (add_tick is t s).1
  unfolding add_tick
  add_tick_other [] t s h = (refl, record { same_find = refl; same_entries = refl })
  add_tick_other (j ∷ js) t s h = elim (Bool-cases (is_key token i (t.instrument_token, j))) [
    | inl e ↦ ground (arith, e, h)
    | inr e ↦
        let o = find t.instrument_token j s in
        let (closed, b) = step (bucket_start t.ts j) j t o in
        let s' = set t.instrument_token j b s in
        let (none_closed, same) = add_tick_other js t s' (ground (arith, e, h)) in
        (
          of_key-append token i closed (add_tick js t s').0
              ∙ ap (λ cs. cs ++ of_key token i (add_tick js t s').0)
                  (step_other (bucket_start t.ts j) j t o e)
              ∙ none_closed,
          record {
            same_find = same.same_find ∙ find-set_other token i t.instrument_token j b s e;
            same_entries = same.same_entries ∙ entries-set_other token i t.instrument_token j b s e;
          },
        )
  ]

  -- the key after a tick of its instrument
  pub record IsStepped (t : Tick) (s : State) (closed : List ClosedCandle) (s' : State)
      : Type 0 where
    pub closed_once : of_key token i closed ≡ (step (bucket_start t.ts i) i t (find token i s)).0
    pub found : find token i s' ≡ some (step (bucket_start t.ts i) i t (find token i s)).1
    pub kept : IsKept token i s'

step_own :
    (i : Interval) (bs : ℕ) (t : Tick) (o : Option Building)
    → of_key t.instrument_token i (step bs i t o).0 ≡ (step bs i t o).0
unfolding step finalize
step_own i bs t none = refl
step_own i bs t (some cur) = elim (Bool-cases (ltb cur.start bs)) [
  | inl e ↦ rw e (rw (is_key_self t.instrument_token i) refl)
  | inr e ↦ rw e refl
]

append_nil : (cs : List ClosedCandle) → cs ++ [] ≡ cs
append_nil [] = refl
append_nil (c ∷ cs) = ap (λ ds. c ∷ ds) (append_nil cs)

add_tick_first :
    (i : Interval) (js : List Interval) (t : Tick) (s : State)
    → hits t.instrument_token i js t ≡ 0
    → IsKept t.instrument_token i s
    → IsStepped t.instrument_token i t s (add_tick (i ∷ js) t s).0 (add_tick (i ∷ js) t s).1
unfolding add_tick
add_tick_first i js t s h v =
    let token = t.instrument_token in
    let (closed, b) = step (bucket_start t.ts i) i t (find token i s) in
    let s' = set token i b s in
    let (none_closed, same) = add_tick_other token i js t s' h in
    let found = same.same_find ∙ find-set_same token i b s in
    record {
      closed_once =
          of_key-append token i closed (add_tick js t s').0
          ∙ ap (λ cs. of_key token i closed ++ cs) none_closed
          ∙ append_nil (of_key token i closed)
          ∙ step_own i (bucket_start t.ts i) t (find token i s);
      found = found;
      kept =
          same.same_entries
          ∙ entries-set_same token i b s v
          ∙ sym (ap (λ o. run_first token i o []) found);
    }

add_tick_own :
    (i : Interval) (is : List Interval) (t : Tick) (s : State)
    → hits t.instrument_token i is t ≡ 1
    → IsKept t.instrument_token i s
    → IsStepped t.instrument_token i t s (add_tick is t s).0 (add_tick is t s).1
unfolding add_tick
add_tick_own i [] t s h v = ground (arith, h)
add_tick_own i (j ∷ js) t s h v =
    let token = t.instrument_token in
    elim (Bool-cases (is_key token i (token, j))) [
      | inl e ↦
          subst (λ l. IsStepped token i t s (add_tick (l ∷ js) t s).0 (add_tick (l ∷ js) t s).1)
            (sym (is_key_eq token token i j e).1) (add_tick_first i js t s (ground (arith, e, h)) v)
      | inr e ↦
          let o = find token j s in
          let (closed, b) = step (bucket_start t.ts j) j t o in
          let s' = set token j b s in
          let same = find-set_other token i token j b s e in
          let r = add_tick_own i js t s' (ground (arith, e, h)) (
            entries-set_other token i token j b s e
            ∙ v
            ∙ sym (ap (λ p. run_first token i p []) same)) in
          record {
            closed_once =
                of_key-append token i closed (add_tick js t s').0
                ∙ ap (λ cs. cs ++ of_key token i (add_tick js t s').0)
                    (step_other token i (bucket_start t.ts j) j t o e)
                ∙ r.closed_once
                ∙ ap (λ p. (step (bucket_start t.ts i) i t p).0) same;
            found = r.found ∙ ap (λ p. some (step (bucket_start t.ts i) i t p).1) same;
            kept = r.kept;
          }
    ]

hits_own :
    (token : ℕ) (i : Interval) (is : List Interval) (t : Tick)
    → IsOf token t
    → hits token i is t ≡ times i is
hits_own token i [] t q = refl
hits_own token i (j ∷ js) t q =
    rw ((==_iff t.instrument_token token).1 q) (ground (arith, hits_own token i js t q))

hits_other :
    (token : ℕ) (i : Interval) (is : List Interval) (t : Tick)
    → (t.instrument_token == token) ≡ false
    → hits token i is t ≡ 0
hits_other token i [] t q = refl
hits_other token i (j ∷ js) t q = rw q (hits_other token i js t q)

run_first-some :
    (token : ℕ) (i : Interval) (b : Building) (ts : List Tick)
    → run_first token i (some b) ts ≡ run_key token i b ts
run_first-some token i b [] = refl
run_first-some token i b (t ∷ ts) = refl

candles-run :
    (token : ℕ) (i : Interval) (is : List Interval) (ts : List Tick) (s : State)
    → times i is ≡ 1
    → IsKept token i s
    → of_key token i (candles is ts s) ≡ run_first token i (find token i s) (of_token token ts)
unfolding flush
candles-run token i is [] s h v = v
candles-run token i is (t ∷ ts) s h v = elim (Bool-cases (t.instrument_token == token)) [
  | inl e ↦
      let q = (==_iff t.instrument_token token).0 e in
      let r =
        subst (λ n. IsKept n i s → IsStepped n i t s (add_tick is t s).0 (add_tick is t s).1) q
          (add_tick_own i is t s (hits_own t.instrument_token i is t refl ∙ h)) v in
      let (closed, b) = step (bucket_start t.ts i) i t (find token i s) in
      rw e (
        of_key-append token i (add_tick is t s).0 (candles is ts (add_tick is t s).1)
        ∙ ap (λ cs. cs ++ of_key token i (candles is ts (add_tick is t s).1)) r.closed_once
        ∙ ap (λ cs. closed ++ cs)
            (candles-run token i is ts (add_tick is t s).1 h r.kept
              ∙ ap (λ o. run_first token i o (of_token token ts)) r.found
              ∙ run_first-some token i b (of_token token ts)))
  | inr e ↦
      let (none_closed, same) = add_tick_other token i is t s (hits_other token i is t e) in
      rw e (
        of_key-append token i (add_tick is t s).0 (candles is ts (add_tick is t s).1)
        ∙ ap (λ cs. cs ++ of_key token i (candles is ts (add_tick is t s).1)) none_closed
        ∙ candles-run token i is ts (add_tick is t s).1 h
            (same.same_entries ∙ v ∙ sym (ap (λ o. run_first token i o []) same.same_find))
        ∙ ap (λ o. run_first token i o (of_token token ts)) same.same_find)
]

-- The candles of an instrument and an interval that the aggregator returns over a session, at any
-- interleaving with the ticks of others and with the flush at the end, are the chart of the
-- instrument's own ticks: one candle for each run of ticks up to one of a later bucket, with the
-- first, the extreme and the last price, the volume from the least to the last cumulative volume,
-- and the last open interest seen. The interval is named once among those kept.
pub candles-chart :
    (token : ℕ) (i : Interval) (is : List Interval) (ts : List Tick)
    → times i (known is) ≡ 1
    → of_key token i (candles (known is) ts []) ≡ chart token i (of_token token ts)
candles-chart token i is ts h =
    candles-run token i (known is) ts [] h refl
    ∙ run_first-chart token i (of_token token ts) (of_token-IsOf token ts)
