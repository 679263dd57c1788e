-- ===== src/Data/RateGovernor/Tally.antt =====
-- The counters of the order guard of data/rate_governor.py against a log of the orders that the server
-- has answered.
use ai_trading_system.Base.{
  ℕ, ◌+◌, ◌≤◌, ◌<◌, ◌≡◌, refl, sym, ap, ◌∙◌, subst, true, false, not, ◌&&◌, ◌||◌, Option, none,
  some, List, [], ◌∷◌, ◌++◌, All, arith, leb, ltb, ◌==◌, Bool-cases, inl, inr, if◌then◌else◌,
  length,
}
use ai_trading_system.Data.RateGovernor.{
  Caps, OrderGuard, is_date, roll_day, recent, check_order_guard, record_order,
}

-- An order that was answered: its day and its time.
abbrev pub Log : Type 0
Log = List (ℕ × ℕ)

-- how many orders of a day are in the log
abbrev pub on_day : ℕ → Log → ℕ
on_day d [] = 0
on_day d ((day, t) ∷ log) = (if day == d then 1 else 0) + on_day d log

-- how many orders of a day are less than 60 seconds old at a time
abbrev pub last_minute : ℕ → ℕ → Log → ℕ
last_minute d now [] = 0
last_minute d now ((day, t) ∷ log) =
    (if (day == d) && ltb now (t + 60_000_000) then 1 else 0) + last_minute d now log

-- Every order is one of at most `daily_cap` of its day up to it, and one of at most `per_minute_cap`
-- of its day in the 60 seconds up to it.
abbrev pub IsPaced : Caps → Log → Type 0
IsPaced c [] = Unit
IsPaced c ((day, t) ∷ log) =
    (on_day day log < c.daily_cap) × (last_minute day t log < c.per_minute_cap) × IsPaced c log

-- the guard of a governor that has just started
abbrev pub no_orders : OrderGuard
no_orders = record {
  order_times = [];
  daily_count = 0;
  daily_date = none;
  alerted_threshold = false;
}

-- what the guard counts is what the log has of a day
pub record IsTally (d now : ℕ) (g : OrderGuard) (log : Log) : Type 0 where
  pub date : g.daily_date ≡ some d
  pub days : All (λ (e : ℕ × ℕ). e.0 ≤ d) log
  pub count : g.daily_count ≡ on_day d log
  pub minute : (n : ℕ) → now ≤ n → length (recent n g.order_times) ≡ last_minute d n log

-- whatever day comes next, the guard that is rolled to it tallies with the log
abbrev pub Agrees : ℕ → ℕ → OrderGuard → Log → Type 0
Agrees last now g log = (d : ℕ) → last ≤ d → IsTally d now (roll_day d g) log

length-recent : (now : ℕ) (ts : List ℕ) → length (recent now ts) ≤ length ts
length-recent now [] = omega arith
length-recent now (t ∷ ts) = ground (arith, length-recent now ts)

recent_twice :
    (m n : ℕ) (ts : List ℕ) → m ≤ n → length (recent n (recent m ts)) ≡ length (recent n ts)
recent_twice m n [] h = refl
recent_twice m n (t ∷ ts) h = ground (arith, recent_twice m n ts h)

recent-append :
    (n t : ℕ) (ts : List ℕ)
    → length (recent n (ts ++ (t ∷ [])))
      ≡ (if ltb n (t + 60_000_000) then 1 else 0) + length (recent n ts)
recent-append n t [] = ground arith
recent-append n t (u ∷ ts) = ground (arith, recent-append n t ts)

none_later :
    (last d n : ℕ) (log : Log)
    → All (λ (e : ℕ × ℕ). e.0 ≤ last) log
    → last < d
    → (on_day d log ≡ 0) × (last_minute d n log ≡ 0)
none_later last d n [] h lt = (refl, refl)
none_later last d n ((day, t) ∷ log) (h, hs) lt = ground (arith, none_later last d n log hs lt)

days_mono :
    (m n : ℕ) (log : Log)
    → m ≤ n
    → All (λ (e : ℕ × ℕ). e.0 ≤ m) log
    → All (λ (e : ℕ × ℕ). e.0 ≤ n) log
days_mono m n [] h a = tt
days_mono m n (e ∷ log) h (a, as_) = (omega (arith, h, a), days_mono m n log h as_)

is_date-some : (d last : ℕ) (o : Option ℕ) → o ≡ some last → is_date d o ≡ (last == d)
is_date-some d last o e = rw e refl

-- a guard that tallies on its day does so after any roll
pub tally-Agrees :
    (last now : ℕ) (g : OrderGuard) (log : Log) → IsTally last now g log → Agrees last now g log
unfolding roll_day
tally-Agrees last now g log h d le = elim (Bool-cases (last == d)) [
  | inl b ↦
      let e : last ≡ d = ground (arith, b) in
      rw (is_date-some d last g.daily_date h.date ∙ b) (subst (λ k. IsTally k now g log) e h)
  | inr b ↦
      let lt : last < d = ground (arith, b, le) in
      rw (is_date-some d last g.daily_date h.date ∙ b) (record {
        date = refl;
        days = days_mono last d log le h.days;
        count = sym (none_later last d 0 log h.days lt).0;
        minute = λ n _. sym (none_later last d n log h.days lt).1;
      })
]

pub no_orders-Agrees : (last now : ℕ) → Agrees last now no_orders []
unfolding roll_day
no_orders-Agrees last now d le = record {
  date = refl;
  days = tt;
  count = refl;
  minute = λ n h. refl;
}

pub later-Agrees :
    (last last' now now' : ℕ) (g : OrderGuard) (log : Log)
    → last ≤ last'
    → now ≤ now'
    → Agrees last now g log
    → Agrees last' now' g log
later-Agrees last last' now now' g log hl hn h d le =
    let t = h d (omega (arith, hl, le)) in
    record {
      date = t.date;
      days = t.days;
      count = t.count;
      minute = λ n hm. t.minute n (omega (arith, hn, hm));
    }

both_below : (a b m n : ℕ) → not (leb a b || leb m n) ≡ true → (b < a) × (n < m)
both_below a b m n h = ground arith

-- the guard of a call that is let through tallies, and has room for an order more
pub record HasRoom (c : Caps) (d now : ℕ) (g : OrderGuard) (log : Log) : Type 0 where
  pub tally : IsTally d now g log
  pub daily : on_day d log < c.daily_cap
  pub minute : (n : ℕ) → now ≤ n → last_minute d n log < c.per_minute_cap

pub checked-IsTally :
    (c : Caps) (d now : ℕ) (g : OrderGuard) (log : Log)
    → IsTally d now (roll_day d g) log
    → IsTally d now (check_order_guard c d now g).1 log
unfolding check_order_guard
checked-IsTally c d now g log t = record {
  date = t.date;
  days = t.days;
  count = t.count;
  minute = λ n h. recent_twice now n (roll_day d g).order_times h ∙ t.minute n h;
}

pub checked-HasRoom :
    (c : Caps) (d now : ℕ) (g : OrderGuard) (log : Log)
    → IsTally d now (roll_day d g) log
    → (check_order_guard c d now g).0 ≡ true
    → HasRoom c d now (check_order_guard c d now g).1 log
unfolding check_order_guard
checked-HasRoom c d now g log t e =
    let times = recent now (roll_day d g).order_times in
    let (few, slow) = both_below c.daily_cap _ c.per_minute_cap _ e in
    record {
      tally = checked-IsTally c d now g log t;
      daily = omega (arith, few, t.count);
      minute = λ n h.
          let same = recent_twice now n (roll_day d g).order_times h ∙ t.minute n h in
          let fewer = length-recent n times in omega (arith, slow, same, fewer);
    }

pub recorded-IsTally :
    (c : Caps) (d now t : ℕ) (g : OrderGuard) (log : Log)
    → now ≤ t
    → IsTally d now g log
    → IsTally d t (record_order c t g) ((d, t) ∷ log)
unfolding record_order
recorded-IsTally c d now t g log h k =
    let today : (d == d) ≡ true = ground arith in
    record {
      date = k.date;
      days = (omega arith, k.days);
      count = rw today (omega (arith, k.count));
      minute = λ n hn. rw today (
          recent-append n t g.order_times
          ∙ ap (λ m. (if ltb n (t + 60_000_000) then 1 else 0) + m)
              (k.minute n (omega (arith, h, hn))));
    }
