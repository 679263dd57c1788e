-- ===== src/Execution/Guards/Ratchet.antt =====
-- The stop of a guard of execution/guards.py only ever tightens, and what each answer of `check`
-- says about the price.
use ai_trading_system.Base.{
  ℕ, ◌+◌, ◌*◌, ◌≤◌, ◌<◌, ◌≡◌, refl, sym, ◌∙◌, ◌≢◌, ◌↔◌, inl, inr, Bool, true, false, none, List, [],
  ◌∷◌, arith, Bool-cases, subst,
}
use ai_trading_system.Broker.{Side, buy, sell}
use ai_trading_system.Execution.Guards.{
  Guard, scale, distance, tighten, tighten_if, trail, track, is_breakeven, breakeven, is_locked,
  lock_level, lock, hit, is_due, adjust, check,
}

-- `g'` protects at least as much as `g`, and everything that is fixed at arming is the same.
pub record Tighter (g g' : Guard) : Type 0 where
  pub long : g.side ≡ buy → g.stop ≤ g'.stop
  pub short : g.side ≡ sell → g'.stop ≤ g.stop
  pub side : g'.side ≡ g.side
  pub entry : g'.entry ≡ g.entry
  pub target : g'.target ≡ g.target
  pub gain : g.best_gain ≤ g'.best_gain
  pub square_off : g'.square_off ≡ g.square_off

Tighter-refl : (g : Guard) → Tighter g g
Tighter-refl g = ground arith

Tighter-trans : (a b c : Guard) → Tighter a b → Tighter b c → Tighter a c
Tighter-trans a b c p q = ground arith

tighten-Tighter : (g : Guard) (s : ℕ) → Tighter g (tighten g s)
unfolding tighten
tighten-Tighter g s = ground arith

trail-Tighter : (g : Guard) (price : ℕ) → Tighter g (trail g price)
unfolding trail
trail-Tighter g price = ground arith

track-Tighter : (g : Guard) (price : ℕ) → Tighter g (track g price)
unfolding track
track-Tighter g price = ground arith

tighten_if-Tighter : (b : Bool) (s : ℕ) (g : Guard) → Tighter g (tighten_if b s g)
unfolding tighten_if
tighten_if-Tighter true s g = tighten-Tighter g s
tighten_if-Tighter false s g = Tighter-refl g

breakeven-Tighter : (g : Guard) → Tighter g (breakeven g)
unfolding breakeven
breakeven-Tighter g = tighten_if-Tighter _ _ g

lock-Tighter : (g : Guard) → Tighter g (lock g)
unfolding lock
lock-Tighter g = tighten_if-Tighter _ _ g

adjust-Tighter : (g : Guard) (price : ℕ) → Tighter g (adjust g price)
unfolding adjust
adjust-Tighter g price =
    let t = trail g price in
    let k = track t price in
    Tighter-trans g t _ (trail-Tighter g price) (
      Tighter-trans t k _ (track-Tighter t price)
        (Tighter-trans k (breakeven k) _ (breakeven-Tighter k) (lock-Tighter (breakeven k))))

check-Tighter : (g : Guard) (price now : ℕ) → Tighter g (check g price now).1
unfolding check
check-Tighter g price now = elim (Bool-cases (is_due g.square_off now)) [
  | inl due ↦ rw due (Tighter-refl g)
  | inr early ↦ rw early (adjust-Tighter g price)
]

-- the guard after a run of ticks, each a price and a time of day
abbrev pub watched : List (ℕ × ℕ) → Guard → Guard
watched [] g = g
watched ((price, now) ∷ ticks) g = watched ticks (check g price now).1

-- Over any run of ticks the stop of a long guard never falls and that of a short one never rises,
-- the best gain never falls, and side, entry, target and square-off time stay.
pub watched-Tighter : (ticks : List (ℕ × ℕ)) (g : Guard) → Tighter g (watched ticks g)
watched-Tighter [] g = Tighter-refl g
watched-Tighter ((price, now) ∷ ticks) g =
    Tighter-trans g (check g price now).1 _ (check-Tighter g price now)
      (watched-Tighter ticks (check g price now).1)

-- What a tick that triggers nothing leaves: the price is on the right side of the stop, and of the
-- target where there is one.
abbrev pub Inside : Side → Guard → ℕ → Type 0
Inside buy g price = (g.stop < price * scale) × (g.target ≢ 0 → price < g.target)
Inside sell g price = (price * scale < g.stop) × (g.target ≢ 0 → g.target < price)

hit-none : (s : Side) (g : Guard) (price : ℕ) → g.side ≡ s → (hit g price ≡ none) ↔ Inside s g price
unfolding hit
hit-none buy g price e = ground arith
hit-none sell g price e = ground arith

-- Before its square-off time a guard stays silent exactly while the price is strictly between its
-- tightened stop and its target.
pub silent_iff :
    (g : Guard) (price now : ℕ)
    → is_due g.square_off now ≡ false
    → ((check g price now).0 ≡ none) ↔ Inside g.side (check g price now).1 price
unfolding check
silent_iff g price now early =
    rw early (hit-none g.side (adjust g price) price (adjust-Tighter g price).side)

-- The gain has reached the break-even trigger, or the lock trigger of the target's distance.
abbrev pub BreakevenReached : Guard → Type 0
BreakevenReached g =
    (0 < g.breakeven_at_r)
    × (0 < g.init_risk)
    × (g.breakeven_at_r * g.init_risk ≤ g.best_gain * scale * scale)

abbrev pub LockReached : Guard → Type 0
LockReached g =
    (0 < g.lock_trigger_frac)
    × (0 < g.target)
    × (0 < distance g.target g.entry)
    × (g.lock_trigger_frac * distance g.target g.entry ≤ g.best_gain * scale)

-- the fields that only arming and tracking set
abbrev SameGain : Guard → Guard → Type 0
SameGain g g' =
    (g'.side ≡ g.side)
    × (g'.entry ≡ g.entry)
    × (g'.target ≡ g.target)
    × (g'.best_gain ≡ g.best_gain)
    × (g'.init_risk ≡ g.init_risk)
    × (g'.breakeven_at_r ≡ g.breakeven_at_r)
    × (g'.lock_trigger_frac ≡ g.lock_trigger_frac)
    × (g'.max_giveback_frac ≡ g.max_giveback_frac)

tighten_if-SameGain : (b : Bool) (s : ℕ) (g : Guard) → SameGain g (tighten_if b s g)
unfolding tighten_if tighten
tighten_if-SameGain true s g = (refl, refl, refl, refl, refl, refl, refl, refl)
tighten_if-SameGain false s g = (refl, refl, refl, refl, refl, refl, refl, refl)

-- the stop protects at least a level
abbrev pub Protects : Guard → ℕ → Type 0
Protects g level = (g.side ≡ buy → level ≤ g.stop) × (g.side ≡ sell → g.stop ≤ level)

tighten_if-Protects : (s : ℕ) (g : Guard) → Protects (tighten_if true s g) s
unfolding tighten_if tighten
tighten_if-Protects s g = ground arith

is_breakeven_of : (g : Guard) → BreakevenReached g → is_breakeven g ≡ true
unfolding is_breakeven
is_breakeven_of g h = ground arith

is_locked_of : (g : Guard) → LockReached g → is_locked g ≡ true
unfolding is_locked
is_locked_of g h = ground arith

-- what the last step of `check` leaves, whichever of its two tests were true
lock_step-Protects :
    (b : Bool) (s level : ℕ) (g : Guard) → Protects g level → Protects (tighten_if b s g) level
unfolding tighten_if tighten
lock_step-Protects true s level g h = ground arith
lock_step-Protects false s level g h = h

tighten_if_of : (b : Bool) (s : ℕ) (g : Guard) → b ≡ true → Protects (tighten_if b s g) s
unfolding tighten_if tighten
tighten_if_of true s g h = ground arith
tighten_if_of false s g h = ground arith

BreakevenReached-back :
    (b : Bool) (s : ℕ) (g : Guard) → BreakevenReached (tighten_if b s g) → BreakevenReached g
unfolding tighten_if tighten
BreakevenReached-back true s g h = h
BreakevenReached-back false s g h = h

LockReached-back : (b : Bool) (s : ℕ) (g : Guard) → LockReached (tighten_if b s g) → LockReached g
unfolding tighten_if tighten
LockReached-back true s g h = h
LockReached-back false s g h = h

lock_level-tighten_if :
    (b : Bool) (s : ℕ) (g : Guard) → lock_level (tighten_if b s g) ≡ lock_level g
unfolding tighten_if tighten lock_level
lock_level-tighten_if true s g = refl
lock_level-tighten_if false s g = refl

entry-tighten_if : (b : Bool) (s : ℕ) (g : Guard) → (tighten_if b s g).entry ≡ g.entry
unfolding tighten_if tighten
entry-tighten_if true s g = refl
entry-tighten_if false s g = refl

entry-locked_breakeven : (k : Guard) → (lock (breakeven k)).entry ≡ k.entry
unfolding breakeven lock
entry-locked_breakeven k =
    entry-tighten_if (is_locked (tighten_if (is_breakeven k) (k.entry * scale) k))
      (lock_level (tighten_if (is_breakeven k) (k.entry * scale) k))
      (tighten_if (is_breakeven k) (k.entry * scale) k)
    ∙ entry-tighten_if (is_breakeven k) (k.entry * scale) k

breakeven-Protects :
    (k : Guard)
    → BreakevenReached (lock (breakeven k))
    → Protects (lock (breakeven k)) (k.entry * scale)
unfolding breakeven lock
breakeven-Protects k h =
    let b = is_breakeven k in
    let g = tighten_if b (k.entry * scale) k in
    lock_step-Protects (is_locked g) (lock_level g) (k.entry * scale) g (
      tighten_if_of b (k.entry * scale) k (
        is_breakeven_of k (
          BreakevenReached-back b (k.entry * scale) k
            (BreakevenReached-back (is_locked g) (lock_level g) g h))))

lock-Protects : (k : Guard) → LockReached (lock k) → Protects (lock k) (lock_level (lock k))
unfolding lock
lock-Protects k h =
    subst (λ level. Protects (tighten_if (is_locked k) (lock_level k) k) level)
      (sym (lock_level-tighten_if (is_locked k) (lock_level k) k))
      (tighten_if_of (is_locked k) (lock_level k) k
        (is_locked_of k (LockReached-back (is_locked k) (lock_level k) k h)))

-- The stop gives back at most the configured fraction of the best gain: what is between the best
-- price and the stop is at most that fraction. A short guard whose level would be below 0 stops at 0.
abbrev pub KeepsGain : Guard → Type 0
KeepsGain g =
    (g.side ≡ buy → (g.entry + g.best_gain) * scale ≤ g.stop + g.best_gain * g.max_giveback_frac)
    × (g.side ≡ sell
        → 0 < g.stop
        → g.stop + g.best_gain * scale ≤ g.entry * scale + g.best_gain * g.max_giveback_frac)

kept : (s : Side) (g : Guard) → g.side ≡ s → Protects g (lock_level g) → KeepsGain g
unfolding lock_level
kept buy g e h = ground (arith, e, h)
kept sell g e h = ground (arith, e, h)

-- A guard that `check` has adjusted and whose best gain has reached the break-even trigger stops
-- at its entry or better; one whose best gain has reached the lock trigger gives back at most the
-- configured fraction of the best gain, from the best price to its stop.
pub adjusted-Protects :
    (g : Guard) (price : ℕ)
    → (BreakevenReached (adjust g price)
        → Protects (adjust g price) ((adjust g price).entry * scale))
      × (LockReached (adjust g price) → KeepsGain (adjust g price))
unfolding adjust
adjusted-Protects g price = (
  λ h.
      subst (λ e. Protects (lock (breakeven (track (trail g price) price))) (e * scale))
        (sym (entry-locked_breakeven (track (trail g price) price)))
        (breakeven-Protects (track (trail g price) price) h),
  λ h.
      kept (adjust g price).side (adjust g price) refl
        (lock-Protects (breakeven (track (trail g price) price)) h),
)
