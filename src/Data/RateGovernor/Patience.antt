-- ===== src/Data/RateGovernor/Patience.antt =====
-- A caller of data/rate_governor.py is served, if the bucket can hold a token at all.
use native.Mathlib.Nat.{mul-le-mul_right, div-add-mod', mod-lt}
use ai_trading_system.Base.{
  ℕ, zero, suc, ◌+◌, ◌-◌, ◌*◌, ◌≤◌, ◌<◌, ◌≡◌, refl, Bool, true, false, Option, some, arith, leb,
  leb→le, le→leb, Bool-cases, inl, inr, if◌then◌else◌, is_some, min,
}
use ai_trading_system.Data.RateGovernor.{
  TokenBucket, scaled, refill, ceil_div, wait_for, acquire, Caps, Answer, answered, too_many,
  failed, Outcome, rate_limited, State, after, backed_off, attempt, loop, call, max_retries,
  check_order_guard,
}

-- enough capacity for a token, and a rate
pub record IsOpen (b : TokenBucket) : Type 0 where
  pub roomy : 10_000 ≤ b.capacity
  pub refilled : 0 < b.refill_per_sec

ceil_div-covers : (a b : ℕ) → 0 < b → a ≤ ceil_div a b * b
ceil_div-covers a b h = omega (arith, div-add-mod' (a + (b - 1)) b, mod-lt (a + (b - 1)) h)

enough :
    (full held want wait rate gain : ℕ)
    → want ≤ full
    → want - held ≤ wait * rate
    → wait ≤ gain
    → want ≤ min full (held + gain * rate)
enough full held want wait rate gain h covers long =
    omega (arith, h, covers, mul-le-mul_right rate long)

gained : (now w t : ℕ) → now + w ≤ t → w ≤ t - now
gained now w t h = omega arith

-- after its wait a caller finds what it asked for
waited :
    (sleep : ℕ → ℕ → ℕ) (b : TokenBucket) (now : ℕ)
    → ((t w : ℕ) → t + w ≤ sleep t w)
    → IsOpen b
    → scaled 10_000 ≤ (refill (sleep now (wait_for 10_000 (refill now b))) (refill now b)).tokens
unfolding refill
waited sleep b now clock o =
    let b' = refill now b in
    let w = wait_for 10_000 b' in
    enough (scaled b.capacity) b'.tokens (scaled 10_000) w b.refill_per_sec (sleep now w - now)
      (omega (arith, o.roomy))
      (ceil_div-covers (scaled 10_000 - b'.tokens) b.refill_per_sec o.refilled)
      (gained now w (sleep now w) (clock now w))

taken :
    (sleep : ℕ → ℕ → ℕ) (looks : ℕ) (b : TokenBucket) (now : ℕ)
    → scaled 10_000 ≤ (refill now b).tokens
    → IsOpen b
    → (b' : TokenBucket) × (now' : ℕ) × (acquire sleep (suc looks) 10_000 b now ≡ some (b', now'))
      × IsOpen b'
unfolding acquire refill
taken sleep looks b now h o = (
  record (refill now b) { tokens = (refill now b).tokens - scaled 10_000 },
  now,
  rw (le→leb (scaled 10_000) (refill now b).tokens h) refl,
  record { roomy = o.roomy; refilled = o.refilled },
)

module _ (sleep : ℕ → ℕ → ℕ) (clock : (t w : ℕ) → t + w ≤ sleep t w) where
  -- two looks are enough
  acquire-IsOpen :
      (b : TokenBucket) (now : ℕ)
      → IsOpen b
      → (b' : TokenBucket) × (now' : ℕ) × (acquire sleep 2 10_000 b now ≡ some (b', now'))
        × IsOpen b'
  unfolding acquire refill
  acquire-IsOpen b now o = elim (Bool-cases (leb (scaled 10_000) (refill now b).tokens)) [
    | inl full ↦ taken sleep 1 b now (leb→le (scaled 10_000) (refill now b).tokens full) o
    | inr short ↦
        let b' = refill now b in
        let later = sleep now (wait_for 10_000 b') in
        let (b'', now'', ran, o') =
          taken sleep 0 b' later (waited sleep b now clock o)
            (record { roomy = o.roomy; refilled = o.refilled }) in
        (b'', now'', rw short ran, o')
  ]

  module _ {S R : Type 0} (fn : S → Answer R × S) (c : Caps) (is_order : Bool) where
    if-is_some :
        (b : Bool) (x y : Option (Outcome R × State S))
        → is_some x ≡ true
        → is_some y ≡ true
        → is_some (if b then x else y) ≡ true
    if-is_some true x y hx hy = hx
    if-is_some false x y hx hy = hy

    after-is_some :
        (again : State S → Option (Outcome R × State S)) (a : Answer R) (s : State S)
        → IsOpen s.bucket
        → ((s' : State S) → IsOpen s'.bucket → is_some (again s') ≡ true)
        → is_some (after sleep fn c is_order again a s) ≡ true
    unfolding after
    after-is_some again (answered r) s o next = refl
    after-is_some again failed s o next = refl
    after-is_some again too_many s o next = next s o

    -- a turn of the loop answers, if what follows on a 429 does
    attempt-is_some :
        (again : State S → Option (Outcome R × State S)) (s : State S)
        → IsOpen s.bucket
        → ((s' : State S) → IsOpen s'.bucket → is_some (again s') ≡ true)
        → is_some (attempt sleep fn c is_order again s) ≡ true
    unfolding attempt
    attempt-is_some again s o next =
        let (b, now, ran, o') = acquire-IsOpen s.bucket s.now o in
        let s' : State S = record s { bucket = b; now = now; server = (fn s.server).1 } in
        rw (ran, is_some) (after-is_some again (fn s.server).0 s' o' next)

    loop-is_some :
        (left : ℕ) (s : State S)
        → IsOpen s.bucket
        → is_some (loop sleep fn c is_order left s) ≡ true
    unfolding loop
    loop-is_some zero s o = attempt-is_some (λ s'. some (rate_limited, s')) s o (λ s' o'. refl)
    loop-is_some (suc left) s o =
        attempt-is_some
          (λ s'.
            loop sleep fn c is_order left (backed_off sleep fn c is_order (max_retries - left) s'))
          s o
          (λ s' o'. loop-is_some left (backed_off sleep fn c is_order (max_retries - left) s') o')

    -- Where the bucket of the endpoint can hold a token and is refilled, and a sleep lasts at least
    -- as long as it was asked to, every call ends, after two looks at the bucket for each attempt
    -- and six attempts at most, whatever the server answers.
    pub call-is_some :
        (today : ℕ) (s : State S)
        → IsOpen s.bucket
        → is_some (call sleep fn c is_order today s) ≡ true
    unfolding call
    call-is_some today s o =
        let (open_gate, g) = check_order_guard c today s.now s.guard in
        if-is_some is_order _ _
          (if-is_some open_gate _ _ (loop-is_some max_retries (record s { guard = g }) o) refl)
          (loop-is_some max_retries s o)
