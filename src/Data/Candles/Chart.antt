-- ===== src/Data/Candles/Chart.antt =====
-- What a candle of data/aggregator.py is, read off the ticks that belong to it, and that the ticks
-- of one instrument, fed one by one, build these candles.
use ai_trading_system.Base.{
  ℕ, ◌-◌, ◌≡◌, refl, ap, ◌∙◌, inl, inr, Option, none, some, List, [], ◌∷◌, ◌++◌, arith, All, ltb,
  if◌then◌else◌, max, min, map, Bool-cases,
}
use ai_trading_system.Data.Candles.{
  Interval, bucket_start, Tick, Building, ClosedCandle, latest, finalize, start, absorb, step,
}

-- the greatest price from a least one on, and the least one
abbrev pub highest : ℕ → List Tick → ℕ
highest h [] = h
highest h (t ∷ ts) = max t.last_price (highest h ts)

abbrev pub lowest : ℕ → List Tick → ℕ
lowest l [] = l
lowest l (t ∷ ts) = min t.last_price (lowest l ts)

-- the least cumulative volume
abbrev pub volume_floor : ℕ → List Tick → ℕ
volume_floor v [] = v
volume_floor v (t ∷ ts) = min t.cum_volume (volume_floor v ts)

abbrev pub last_tick : Tick → List Tick → Tick
last_tick t [] = t
last_tick t (u ∷ us) = last_tick u us

-- the last open interest that a tick carries
abbrev pub last_oi : Option ℕ → List Tick → Option ℕ
last_oi o [] = o
last_oi o (t ∷ ts) = last_oi (latest t.oi o) ts

-- the candle of the ticks t and ts
abbrev pub candle : ℕ → Interval → Tick × List Tick → ClosedCandle
candle token i (t, ts) = record {
  ts = bucket_start t.ts i;
  instrument_token = token;
  interval = i;
  open_price = t.last_price;
  high = highest t.last_price ts;
  low = lowest t.last_price ts;
  close = (last_tick t ts).last_price;
  volume = (last_tick t ts).cum_volume - volume_floor t.cum_volume ts;
  oi = last_oi t.oi ts;
}

-- The ticks up to the first of a later bucket than bs, and the groups of the rest, each with its
-- first tick apart. A late tick belongs to the candle that is open when it arrives.
abbrev pub group : Interval → ℕ → List Tick → List Tick × List (Tick × List Tick)
group i bs [] = ([], [])
group i bs (t ∷ ts) =
    if ltb bs (bucket_start t.ts i)
    then (let (own, later) = group i (bucket_start t.ts i) ts in ([], (t, own) ∷ later))
    else (let (own, later) = group i bs ts in (t ∷ own, later))

abbrev pub groups : Interval → List Tick → List (Tick × List Tick)
groups i [] = []
groups i (t ∷ ts) = let (own, later) = group i (bucket_start t.ts i) ts in (t, own) ∷ later

-- the candles of the ticks of one instrument
abbrev pub chart : ℕ → Interval → List Tick → List ClosedCandle
chart token i ts = map (candle token i) (groups i ts)

abbrev pub absorb_all : List Tick → Building → Building
absorb_all [] b = b
absorb_all (t ∷ ts) b = absorb_all ts (absorb t b)

highest-max : (h n : ℕ) (ts : List Tick) → highest (max h n) ts ≡ max n (highest h ts)
highest-max h n [] = omega arith
highest-max h n (t ∷ ts) = omega (arith, highest-max h n ts)

lowest-min : (l n : ℕ) (ts : List Tick) → lowest (min l n) ts ≡ min n (lowest l ts)
lowest-min l n [] = omega arith
lowest-min l n (t ∷ ts) = omega (arith, lowest-min l n ts)

floor-min : (v n : ℕ) (ts : List Tick) → volume_floor (min v n) ts ≡ min n (volume_floor v ts)
floor-min v n [] = omega arith
floor-min v n (t ∷ ts) = omega (arith, floor-min v n ts)

sub_self : (n : ℕ) → 0 ≡ n - n
sub_self n = omega arith

anchor_min : (n v : ℕ) → (if ltb n v then n else v) ≡ min v n
anchor_min n v = ground arith

-- the candle after the tick t, as far as t alone decides
abbrev mark : Tick → Building → Building
mark t b = record b { close = t.last_price; volume = t.cum_volume - b.vol_open }

abbrev widen : Tick → Building → Building
widen t b = record b {
  high = max b.high t.last_price;
  low = min b.low t.last_price;
  vol_open = min b.vol_open t.cum_volume;
  oi = latest t.oi b.oi;
}

-- a candle that is open, as the ticks ts after t leave it
abbrev built : Tick → List Tick → Building → Building
built t ts b = record {
  start = b.start;
  open_price = b.open_price;
  high = highest b.high ts;
  low = lowest b.low ts;
  close = (last_tick t ts).last_price;
  vol_open = volume_floor b.vol_open ts;
  volume = (last_tick t ts).cum_volume - volume_floor b.vol_open ts;
  oi = last_oi b.oi ts;
}

absorb-mark : (t u : Tick) (b : Building) → absorb u (mark t b) ≡ mark u (widen u b)
unfolding absorb
absorb-mark t u b = λ i. record {
  start = b.start;
  open_price = b.open_price;
  high = max b.high u.last_price;
  low = min b.low u.last_price;
  close = u.last_price;
  vol_open = anchor_min u.cum_volume b.vol_open i;
  volume = u.cum_volume - anchor_min u.cum_volume b.vol_open i;
  oi = latest u.oi b.oi;
}

built-widen :
    (t u : Tick) (us : List Tick) (b : Building) → built u us (widen u b) ≡ built t (u ∷ us) b
built-widen t u us b = λ i. record {
  start = b.start;
  open_price = b.open_price;
  high = highest-max b.high u.last_price us i;
  low = lowest-min b.low u.last_price us i;
  close = (last_tick u us).last_price;
  vol_open = floor-min b.vol_open u.cum_volume us i;
  volume = (last_tick u us).cum_volume - floor-min b.vol_open u.cum_volume us i;
  oi = last_oi (latest u.oi b.oi) us;
}

absorb_all-built :
    (t : Tick) (ts : List Tick) (b : Building) → absorb_all ts (mark t b) ≡ built t ts b
absorb_all-built t [] b = refl
absorb_all-built t (u ∷ us) b =
    ap (absorb_all us) (absorb-mark t u b)
    ∙ absorb_all-built u us (widen u b)
    ∙ built-widen t u us b

start-mark : (bs : ℕ) (t : Tick) → start bs t ≡ mark t (start bs t)
unfolding start
start-mark bs t = λ i. record (start bs t) { volume = sub_self t.cum_volume i }

-- the candle of a group of ticks is the one that they build
candle-start :
    (token : ℕ) (i : Interval) (t : Tick) (ts : List Tick)
    → finalize token i (absorb_all ts (start (bucket_start t.ts i) t)) ≡ candle token i (t, ts)
unfolding finalize start
candle-start token i t ts =
    ap (λ (b : Building). finalize token i b)
      (ap (absorb_all ts) (start-mark (bucket_start t.ts i) t)
        ∙ absorb_all-built t ts (start (bucket_start t.ts i) t))

-- the candles that the ticks ts of one instrument close, and at last the one that is open
abbrev pub run_key : ℕ → Interval → Building → List Tick → List ClosedCandle
run_key token i b [] = finalize token i b ∷ []
run_key token i b (t ∷ ts) =
    let (closed, b') = step (bucket_start t.ts i) i t (some b) in closed ++ run_key token i b' ts

abbrev pub IsOf : ℕ → Tick → Type 0
IsOf token t = t.instrument_token ≡ token

pub run_key-group :
    (token : ℕ) (i : Interval) (b : Building) (ts : List Tick)
    → All (IsOf token) ts
    → run_key token i b ts
      ≡ finalize token i (absorb_all (group i b.start ts).0 b)
        ∷ map (candle token i) (group i b.start ts).1
unfolding step absorb start
run_key-group token i b [] h = refl
run_key-group token i b (t ∷ ts) (q, h) = elim (Bool-cases (ltb b.start (bucket_start t.ts i))) [
  | inl later ↦ rw later (
      ap (λ (n : ℕ). finalize n i b ∷ run_key token i (start (bucket_start t.ts i) t) ts) q
      ∙ ap (λ (r : List ClosedCandle). finalize token i b ∷ r)
          (run_key-group token i (start (bucket_start t.ts i) t) ts h
            ∙ ap
                (λ (c : ClosedCandle).
                  c ∷ map (candle token i) (group i (bucket_start t.ts i) ts).1)
                (candle-start token i t (group i (bucket_start t.ts i) ts).0)))
  | inr same ↦ rw same (run_key-group token i (absorb t b) ts h)
]

-- the candles of an instrument, before whose first tick there is none
abbrev pub run_first : ℕ → Interval → Option Building → List Tick → List ClosedCandle
run_first token i none [] = []
run_first token i (some b) [] = run_key token i b []
run_first token i o (t ∷ ts) =
    let (closed, b') = step (bucket_start t.ts i) i t o in closed ++ run_key token i b' ts

pub run_first-chart :
    (token : ℕ) (i : Interval) (ts : List Tick)
    → All (IsOf token) ts
    → run_first token i none ts ≡ chart token i ts
unfolding step start
run_first-chart token i [] h = refl
run_first-chart token i (t ∷ ts) (q, h) =
    run_key-group token i (start (bucket_start t.ts i) t) ts h
    ∙ ap (λ (c : ClosedCandle). c ∷ map (candle token i) (group i (bucket_start t.ts i) ts).1)
        (candle-start token i t (group i (bucket_start t.ts i) ts).0)
