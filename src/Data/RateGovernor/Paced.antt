-- ===== src/Data/RateGovernor/Paced.antt =====
-- The caps on orders of data/rate_governor.py, over a run of calls and the log that it leaves.
use ai_trading_system.Base.{
  ℕ, zero, suc, ◌+◌, ◌-◌, ◌≤◌, ◌≡◌, refl, sym, subst, Bool, true, false, Option, none, some, List,
  [], ◌∷◌, arith, leb, if◌then◌else◌,
}
use ai_trading_system.Data.RateGovernor.{
  TokenBucket, scaled, refill, wait_for, acquire, Caps, OrderGuard, check_order_guard, record_order,
  Answer, answered, too_many, failed, Outcome, result, rate_limited, other_error, cap_reached,
  State, record_if, after, backed_off, attempt, loop, call, max_retries,
}
use ai_trading_system.Data.RateGovernor.Tally.{
  Log, IsPaced, no_orders, IsTally, HasRoom, Agrees, tally-Agrees, no_orders-Agrees, later-Agrees,
  checked-IsTally, checked-HasRoom, recorded-IsTally,
}

-- A call of the run: the days since the call before it, and the time.
pub record Pause : Type 0 where
  pub days : ℕ
  pub wait : ℕ

module _ {S R : Type 0} (sleep : ℕ → ℕ → ℕ) (fn : S → Answer R × S) (c : Caps) where
  -- what is left of a call that found a guard at a time: a guard that is the same, or has an order
  -- more, at a time that is no earlier
  abbrev Ends : OrderGuard → ℕ → Option (Outcome R × State S) → Type 0
  Ends g now none = Unit
  Ends g now (some (result r, s)) = (now ≤ s.now) × (s.guard ≡ record_order c s.now g)
  Ends g now (some (o, s)) = (now ≤ s.now) × (s.guard ≡ g)

  Ends-earlier :
      (g : OrderGuard) (m n : ℕ) (o : Option (Outcome R × State S))
      → m ≤ n
      → Ends g n o
      → Ends g m o
  Ends-earlier g m n none h e = tt
  Ends-earlier g m n (some (result r, s)) h (a, b) = (omega (arith, h, a), b)
  Ends-earlier g m n (some (rate_limited, s)) h (a, b) = (omega (arith, h, a), b)
  Ends-earlier g m n (some (other_error, s)) h (a, b) = (omega (arith, h, a), b)
  Ends-earlier g m n (some (cap_reached, s)) h (a, b) = (omega (arith, h, a), b)

  -- The log after a call, in which an order that was answered stands first; a call that the bucket
  -- never serves has no end.
  abbrev logged : ℕ → Option (Outcome R × State S) → State S → Log → State S × Log
  logged today none s log = (s, log)
  logged today (some (result r, s')) s log = (s', (today, s'.now) ∷ log)
  logged today (some (o, s')) s log = (s', log)

  -- the calls of orders one after the other, each after a pause, and the log that they leave
  abbrev pub run : List Pause → ℕ → State S → Log → Log
  run [] today s log = log
  run (p ∷ ps) today s log =
      let day = today + p.days in
      let asked = record s { now = s.now + p.wait } in
      let (s', log') = logged day (call sleep fn c true day asked) asked log in run ps day s' log'

  module _ (onward : (t w : ℕ) → t ≤ sleep t w) where
    -- no look at the bucket is earlier than the one before it
    abbrev Later : ℕ → Option (TokenBucket × ℕ) → Type 0
    Later now none = Unit
    Later now (some (b, t)) = now ≤ t

    Later-earlier : (m n : ℕ) (o : Option (TokenBucket × ℕ)) → m ≤ n → Later n o → Later m o
    Later-earlier m n none h e = tt
    Later-earlier m n (some (b, t)) h e = omega (arith, h, e)

    either-Later :
        (b : Bool) (x y : Option (TokenBucket × ℕ)) (now : ℕ)
        → Later now x
        → Later now y
        → Later now (if b then x else y)
    either-Later true x y now hx hy = hx
    either-Later false x y now hx hy = hy

    acquire-Later :
        (looks wanted : ℕ) (b : TokenBucket) (now : ℕ)
        → Later now (acquire sleep looks wanted b now)
    unfolding acquire
    acquire-Later zero wanted b now = tt
    acquire-Later (suc looks) wanted b now =
        let b' = refill now b in
        let next = sleep now (wait_for wanted b') in
        either-Later (leb (scaled wanted) b'.tokens) _ (acquire sleep looks wanted b' next) now
          (omega arith)
          (Later-earlier now next (acquire sleep looks wanted b' next) (onward now _)
            (acquire-Later looks wanted b' next))

    after-Ends :
        (again : State S → Option (Outcome R × State S)) (a : Answer R) (s : State S)
        → Ends s.guard s.now (again s)
        → Ends s.guard s.now (after sleep fn c true again a s)
    unfolding after record_if
    after-Ends again (answered r) s next = (omega arith, refl)
    after-Ends again failed s next = (omega arith, refl)
    after-Ends again too_many s next = next

    attempt-Ends :
        (again : State S → Option (Outcome R × State S)) (s : State S)
        → ((s' : State S) → Ends s'.guard s'.now (again s'))
        → Ends s.guard s.now (attempt sleep fn c true again s)
    unfolding attempt
    attempt-Ends again s next =
        looked (acquire sleep 2 10_000 s.bucket s.now) (acquire-Later 2 10_000 s.bucket s.now)
      where
        looked :
            (o : Option (TokenBucket × ℕ))
            → Later s.now o
            → Ends s.guard s.now (elim o [
              | none ↦ none
              | some (b, now) ↦
                  let (answer, server) = fn s.server in
                  after sleep fn c true again answer
                    (record s { bucket = b; now = now; server = server })
            ])
        looked none h = tt
        looked (some (b, now)) h =
            let s' : State S = record s { bucket = b; now = now; server = (fn s.server).1 } in
            Ends-earlier s.guard s.now now (after sleep fn c true again (fn s.server).0 s') h
              (after-Ends again (fn s.server).0 s' (next s'))

    loop-Ends : (left : ℕ) (s : State S) → Ends s.guard s.now (loop sleep fn c true left s)
    unfolding loop
    loop-Ends zero s = attempt-Ends (λ s'. some (rate_limited, s')) s (λ s'. (omega arith, refl))
    loop-Ends (suc left) s =
        attempt-Ends
          (λ s'. loop sleep fn c true left (backed_off sleep fn c true (max_retries - left) s')) s
          (λ s'.
            let s'' = backed_off sleep fn c true (max_retries - left) s' in
            Ends-earlier s'.guard s'.now s''.now (loop sleep fn c true left s'') (onward s'.now _)
              (loop-Ends left s''))

    abbrev Held : ℕ → State S × Log → Type 0
    Held day (s, log) = Agrees day s.now s.guard log × IsPaced c log

    kept :
        (day now : ℕ) (s : State S) (g : OrderGuard) (log : Log)
        → now ≤ s.now
        → s.guard ≡ g
        → IsTally day now g log
        → Agrees day s.now s.guard log
    kept day now s g log h e t =
        later-Agrees day day now s.now s.guard log (omega arith) h
          (subst (λ x. Agrees day now x log) (sym e) (tally-Agrees day now g log t))

    ended :
        (day : ℕ) (o : Option (Outcome R × State S)) (now : ℕ) (g : OrderGuard) (s : State S)
        (log : Log)
        → Held day (s, log)
        → HasRoom c day now g log
        → Ends g now o
        → Held day (logged day o s log)
    ended day none now g s log held room e = held
    ended day (some (result r, s')) now g s log (_, paced) room (h, e) = (
      subst (λ x. Agrees day s'.now x ((day, s'.now) ∷ log)) (sym e)
          (tally-Agrees day s'.now _ _ (recorded-IsTally c day now s'.now g log h room.tally)),
      (room.daily, room.minute s'.now h, paced),
    )
    ended day (some (rate_limited, s')) now g s log (_, paced) room (h, e) =
        (kept day now s' g log h e room.tally, paced)
    ended day (some (other_error, s')) now g s log (_, paced) room (h, e) =
        (kept day now s' g log h e room.tally, paced)
    ended day (some (cap_reached, s')) now g s log (_, paced) room (h, e) =
        (kept day now s' g log h e room.tally, paced)

    gated :
        (b : Bool) (day now : ℕ) (g : OrderGuard) (x : Option (Outcome R × State S))
        (s s' : State S) (log : Log)
        → Held day (s, log)
        → IsTally day now g log
        → (b ≡ true → HasRoom c day now g log)
        → s'.guard ≡ g
        → now ≤ s'.now
        → Ends g now x
        → Held day (logged day (if b then x else some (cap_reached, s')) s log)
    gated true day now g x s s' log held t room e h ends =
        ended day x now g s log held (room refl) ends
    gated false day now g x s s' log (_, paced) t room e h ends =
        (kept day now s' g log h e t, paced)

    call-Held :
        (day : ℕ) (s : State S) (log : Log)
        → Held day (s, log)
        → Held day (logged day (call sleep fn c true day s) s log)
    unfolding call
    call-Held day s log held =
        let (open_gate, g) = check_order_guard c day s.now s.guard in
        let t = held.0 day (omega arith) in
        let s' : State S = record s { guard = g } in
        gated open_gate day s.now g (loop sleep fn c true max_retries s') s s' log held
          (checked-IsTally c day s.now s.guard log t) (checked-HasRoom c day s.now s.guard log t)
          refl (omega arith) (loop-Ends max_retries s')

    run-Held :
        (ps : List Pause) (today : ℕ) (s : State S) (log : Log)
        → Held today (s, log)
        → IsPaced c (run ps today s log)
    run-Held [] today s log held = held.1
    run-Held (p ∷ ps) today s log (agrees, paced) =
        let day = today + p.days in
        let asked : State S = record s { now = s.now + p.wait } in
        let (s', log') = logged day (call sleep fn c true day asked) asked log in
        run-Held ps day s' log' (
          call-Held day asked log (
            later-Agrees today day s.now asked.now s.guard log (omega arith) (omega arith) agrees,
            paced,
          ))

    -- From a fresh guard, whatever the pauses between the calls and whatever the server answers, every
    -- order that the server has answered is one of at most `daily_cap` of its day up to it, and one of
    -- at most `per_minute_cap` of its day in the 60 seconds up to it. This is of one caller at a time,
    -- and under a clock that no sleep sets back.
    pub run-IsPaced :
        (ps : List Pause) (today : ℕ) (s : State S)
        → s.guard ≡ no_orders
        → IsPaced c (run ps today s [])
    run-IsPaced ps today s new =
        run-Held ps today s []
          (subst (λ g. Agrees today s.now g []) (sym new) (no_orders-Agrees today s.now), tt)
