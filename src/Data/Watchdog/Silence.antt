-- ===== src/Data/Watchdog/Silence.antt =====
-- The watchdog of data/feed.py before a feed that accepts every reconnect and sends no tick.
use ai_trading_system.Base.{
  ℕ, ◌+◌, ◌-◌, ◌≤◌, ◌≡◌, refl, Bool, true, false, ◌&&◌, some, List, [], ◌∷◌, arith, All, ◌||◌, ltb,
  leb, Bool-cases, inl, inr,
}
use ai_trading_system.Data.Watchdog.{Limits, Feed, escalate, beat}

-- a feed in session, with no reconnect under way, whose staleness clock was set since the last one
abbrev pub waiting : ℕ → ℕ → Bool → Feed
waiting tick last fired = record {
  last_tick = some tick;
  last_reconnect = last;
  reconnecting = false;
  failsafe_fired = fired;
  was_in_market = true;
}

not_over : (most n : ℕ) → n ≤ most → ltb most n ≡ false
not_over most n h = ground arith

uncooled :
    (after now tick last : ℕ)
    → (ltb after (now - tick) && ltb 120_000 (now - last) && true) ≡ false
    → last ≤ tick
    → after ≤ 120_000
    → now - tick ≤ 120_000
uncooled after now tick last e a r = ground arith

-- what a beat leaves, while the idle time stays below the limit of the fail-safe
beaten :
    (l : Limits) (has : Bool) (now tick last : ℕ)
    → last ≤ tick
    → tick ≤ now
    → l.reconnect_after ≤ 120_000
    → l.staleness ≤ 120_000
    → now - tick ≤ l.failsafe_after
    → (tick' : ℕ) × (last' : ℕ) × ((beat l has true now (waiting tick last false)).1
        ≡ waiting tick' last' false)
      × ((beat l has true now (waiting tick last false)).0.failsafe ≡ false)
      × (last' ≤ tick')
      × (tick' ≤ now)
      × (now - tick' ≤ 120_000)
unfolding beat escalate
beaten l has now tick last a b r s h = elim (Bool-cases (leb (now - tick) l.staleness)) [
  | inl fresh ↦ (tick, last, rw fresh refl, rw fresh refl, a, b, short fresh)
  | inr stale ↦
      let silent = not_over l.failsafe_after (now - tick) h in
      elim (Bool-cases (ltb l.reconnect_after (now - tick) && ltb 120_000 (now - last) && true)) [
        | inl again ↦ (
          now,
          now,
          rw (stale, silent, again) refl,
          rw (stale, silent) refl,
          omega arith,
          omega arith,
          omega arith,
        )
        | inr alone ↦ (
          tick,
          last,
          rw (stale, silent, alone) refl,
          rw (stale, silent) refl,
          a,
          b,
          uncooled l.reconnect_after now tick last alone a r,
        )
      ]
]
  where
    short : leb (now - tick) l.staleness ≡ true → now - tick ≤ 120_000
    short e = ground (arith, e)

-- whether one of the beats fires the fail-safe; they follow each other after the gaps
abbrev pub fires_in : Limits → Bool → Bool → ℕ → List ℕ → Feed → Bool
fires_in l has works now [] f = false
fires_in l has works now (gap ∷ gaps) f =
    let (tasks, f') = beat l has works (now + gap) f in
    tasks.failsafe || fires_in l has works (now + gap) gaps f'

abbrev pub IsShort : ℕ → Type 0
IsShort gap = gap ≤ 60_000

-- A feed that accepts every reconnect before the next beat but sends no tick never fires the
-- fail-safe, however long it is silent in the session, when the beats are at most a minute apart,
-- the limits of the staleness and of the reconnect are at most two minutes and that of the fail-safe
-- is at least three: each reconnect sets the clock of the staleness back.
pub fires_in-false :
    (l : Limits) (has : Bool) (now tick last : ℕ) (gaps : List ℕ)
    → last ≤ tick
    → tick ≤ now
    → now - tick ≤ 120_000
    → l.reconnect_after ≤ 120_000
    → l.staleness ≤ 120_000
    → 180_000 ≤ l.failsafe_after
    → All IsShort gaps
    → fires_in l has true now gaps (waiting tick last false) ≡ false
fires_in-false l has now tick last [] a b i r s q h = refl
fires_in-false l has now tick last (gap ∷ gaps) a b i r s q (g, h) =
    let (tick', last', left, silent, a', b', i') =
      beaten l has (now + gap) tick last a (omega (arith, b)) r s (omega (arith, b, i, g, q)) in
    rw (silent, left) (fires_in-false l has (now + gap) tick' last' gaps a' b' i' r s q h)
