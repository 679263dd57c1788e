-- ===== src/Execution/Simulator/Bounds.antt =====
-- The fill price of execution/simulator.py never flatters an order.
use native.Mathlib.Nat.{mul-le-mul_right, mod-lt, div-add-mod, le_of_mul-le-mul_right}
use mathlib.Core.Option.{some-injective}
use ai_trading_system.Base.{
  ℕ, ◌+◌, ◌*◌, ◌-◌, ◌/◌, ◌%◌, ◌≤◌, ◌<◌, ◌≡◌, ◌⊎◌, refl, ap, subst, false, Option, some, List, [],
  ◌∷◌, All, arith, ◌==◌, ltb, min, max, Bool-cases, inl, inr,
}
use ai_trading_system.Base.Round.{nearest, round_half_even, round_2}
use ai_trading_system.Broker.{Side, buy, sell}
use ai_trading_system.Execution.Simulator.{
  whole, Level, Walk, walk, worst, whole_fill, average, slipped, fill_price,
}

abbrev pub AtLeast : ℕ → Level → Type 0
AtLeast lo l = lo ≤ l.price

abbrev pub AtMost : ℕ → Level → Type 0
AtMost hi l = l.price ≤ hi

-- what was taken and what remains make the quantity, and nothing was cheaper than lo
abbrev IsDear : ℕ → ℕ → Walk → Type 0
IsDear n lo w = (w.filled + w.remaining ≡ n) × (lo * w.filled ≤ w.notional)

abbrev IsCheap : ℕ → ℕ → Walk → Type 0
IsCheap n hi w = (w.filled + w.remaining ≡ n) × (w.notional ≤ hi * w.filled)

step_dear :
    (lo took price filled notional : ℕ)
    → lo ≤ price
    → lo * filled ≤ notional
    → lo * (filled + took) ≤ notional + took * price
step_dear lo took price filled notional h k = omega (arith, mul-le-mul_right took h)

step_cheap :
    (hi took price filled notional : ℕ)
    → price ≤ hi
    → notional ≤ hi * filled
    → notional + took * price ≤ hi * (filled + took)
step_cheap hi took price filled notional h k = omega (arith, mul-le-mul_right took h)

-- one level of the loop
abbrev stepped : Level → Walk → Walk
stepped l w =
    let took = min w.remaining l.quantity in
    record {
      notional = w.notional + took * l.price;
      filled = w.filled + took;
      remaining = w.remaining - took;
    }

walk_inv {κ} :
    (P : Walk → Type κ) (Q : Level → Type κ)
    → ((l : Level) (w : Walk) → Q l → P w → P (stepped l w))
    → (ls : List Level) (w : Walk) → All Q ls
    → P w
    → P (walk ls w)
unfolding walk
walk_inv P Q keep [] w qs h = h
walk_inv P Q keep (l ∷ ls) w (q, qs) h = elim (Bool-cases ((stepped l w).remaining == 0)) [
  | inl e ↦ rw e (keep l w q h)
  | inr e ↦ rw e (walk_inv P Q keep ls (stepped l w) qs (keep l w q h))
]

taken : (r q : ℕ) → min r q + (r - min r q) ≡ r
taken r q = ground arith

stepped-IsDear :
    (n lo : ℕ) (l : Level) (w : Walk) → AtLeast lo l → IsDear n lo w → IsDear n lo (stepped l w)
stepped-IsDear n lo l w h (e, k) = (
  omega (arith, e, taken w.remaining l.quantity),
  step_dear lo (min w.remaining l.quantity) l.price w.filled w.notional h k,
)

stepped-IsCheap :
    (n hi : ℕ) (l : Level) (w : Walk) → AtMost hi l → IsCheap n hi w → IsCheap n hi (stepped l w)
stepped-IsCheap n hi l w h (e, k) = (
  omega (arith, e, taken w.remaining l.quantity),
  step_cheap hi (min w.remaining l.quantity) l.price w.filled w.notional h k,
)

worst_in {κ} :
    (Q : Level → Type κ) (l : Level) (ls : List Level)
    → Q l
    → All Q ls
    → (x : Level) × Q x × (x.price ≡ worst l ls)
worst_in Q l [] q qs = (l, q, refl)
worst_in Q l (x ∷ xs) q (p, ps) = worst_in Q x xs p ps

buy_fill :
    (slippage price n lo : ℕ) (w : Walk)
    → lo ≤ price
    → IsDear n lo w
    → let (num, m) = whole_fill buy slippage price w in (m ≡ n) × (lo * n * whole ≤ num)
unfolding whole_fill
buy_fill slippage price n lo w h (e, k) = elim (Bool-cases (ltb 0 w.remaining)) [
  | inl b ↦ rw b (e, omega (arith, k, ap (λ (t : ℕ). lo * t) e, mul-le-mul_right w.remaining h))
  | inr b ↦ rw b (none_left b, omega (arith, k, ap (λ (t : ℕ). lo * t) (none_left b)))
]
  where
    none_left : ltb 0 w.remaining ≡ false → w.filled ≡ n
    none_left b = ground (arith, b, e)

sell_fill :
    (slippage price n hi : ℕ) (w : Walk)
    → price ≤ hi
    → IsCheap n hi w
    → let (num, m) = whole_fill sell slippage price w in (m ≡ n) × (num ≤ hi * n * whole)
unfolding whole_fill
sell_fill slippage price n hi w h (e, k) = elim (Bool-cases (ltb 0 w.remaining)) [
  | inl b ↦ rw b (
    e,
    omega (
      arith,
      k,
      ap (λ (t : ℕ). hi * t) e,
      less w.remaining price slippage,
      mul-le-mul_right w.remaining h,
    ),
  )
  | inr b ↦ rw b (none_left b, omega (arith, k, ap (λ (t : ℕ). hi * t) (none_left b)))
]
  where
    none_left : ltb 0 w.remaining ≡ false → w.filled ≡ n
    none_left b = ground (arith, b, e)

    less : (r p s : ℕ) → r * (p * (whole - 5 * s)) ≤ r * p * whole
    less r p s =
        let h : whole - 5 * s ≤ whole = omega arith in omega (arith, mul-le-mul_right (r * p) h)

nearest_cases :
    (q r d : ℕ) → ((nearest q r d ≡ q) × (2 * r ≤ d)) ⊎ ((nearest q r d ≡ q + 1) × (d ≤ 2 * r))
unfolding nearest
nearest_cases q r d = elim (Bool-cases (ltb (2 * r) d)) [
  | inl a ↦ rw a (inl (refl, ground (arith, a)))
  | inr a ↦ rw a (elim (Bool-cases (ltb d (2 * r))) [
    | inl b ↦ rw b (inr (refl, ground (arith, b)))
    | inr b ↦ rw b (elim (Bool-cases (q % 2 == 0)) [
      | inl c ↦ rw c (inl (refl, ground (arith, b)))
      | inr c ↦ rw c (inr (refl, ground (arith, a)))
    ])
  ])
]

half_off :
    (q r d : ℕ)
    → r < d
    → (2 * (q * d + r) ≤ 2 * (nearest q r d * d) + d)
      × (2 * (nearest q r d * d) ≤ 2 * (q * d + r) + d)
half_off q r d h = elim (nearest_cases q r d) [
  | inl (e, k) ↦ rw e (omega arith, omega arith)
  | inr (e, k) ↦ rw e (omega arith, omega arith)
]

-- rounding to whole paise is off by half a paisa at most
near :
    (num den : ℕ)
    → 0 < den
    → (num ≤ (round_2 num den + 50) * den) × (round_2 num den * den ≤ num + 50 * den)
unfolding round_2 round_half_even
near num den h =
    let d = 100 * den in
    let (a, b) = half_off (num / d) (num % d) d (mod-lt num (omega arith)) in
    let e = div-add-mod num d in (omega (arith, a, e), omega (arith, b, e))

-- the factor of the slippage, over `whole`
abbrev pub plus : ℕ → ℕ
plus slippage = whole + slippage

abbrev pub minus : ℕ → ℕ
minus slippage = whole - slippage

-- What a fill is worth against a bound on the prices: at most half a paisa better for the order than
-- the bound with the slippage on it.
abbrev pub IsFair : Side → ℕ → ℕ → ℕ → Type 0
IsFair buy slippage bound p = bound * plus slippage ≤ (p + 50) * whole
IsFair sell slippage bound p = p * whole ≤ bound * minus slippage + 50 * whole

-- the levels are no better for the order than a bound
abbrev pub Bounded : Side → ℕ → Level → Type 0
Bounded buy bound = AtLeast bound
Bounded sell bound = AtMost bound

slipped-buy :
    (slippage bound num n : ℕ)
    → 0 < n
    → bound * n * whole ≤ num
    → IsFair buy slippage bound (slipped buy slippage num (n * whole))
unfolding slipped
slipped-buy slippage bound num n h k =
    let p = slipped buy slippage num (n * whole) in
    le_of_mul-le-mul_right {m = bound * plus slippage} {n = (p + 50) * whole} {k = n * whole}
      (omega (
        arith,
        mul-le-mul_right (plus slippage) k,
        (near (num * plus slippage) (n * whole * whole) (omega arith)).0,
      ))
      (omega arith)

slipped-sell :
    (slippage bound num n : ℕ)
    → 0 < n
    → num ≤ bound * n * whole
    → IsFair sell slippage bound (slipped sell slippage num (n * whole))
unfolding slipped
slipped-sell slippage bound num n h k =
    let p = slipped sell slippage num (n * whole) in
    le_of_mul-le-mul_right {m = p * whole} {n = bound * minus slippage + 50 * whole} {k = n * whole}
      (omega (
        arith,
        mul-le-mul_right (minus slippage) k,
        (near (num * minus slippage) (n * whole * whole) (omega arith)).1,
      ))
      (omega arith)

-- the average over the book, for each side
average_bounds :
    (side : Side) (slippage qty bound : ℕ) (l : Level) (ls : List Level)
    → All (Bounded side bound) (l ∷ ls)
    → let (num, n) = average side slippage qty l ls in
      IsFair side slippage bound (slipped side slippage num (n * whole))
unfolding average
average_bounds buy slippage qty bound l ls (q, qs) =
    let start : Walk = record { notional = 0; filled = 0; remaining = max 1 qty } in
    let (x, qx, e) = worst_in (AtLeast bound) l ls q qs in
    let (m, h) =
      buy_fill slippage (worst l ls) (max 1 qty) bound (walk (l ∷ ls) start) (omega (arith, qx, e))
        (walk_inv (IsDear (max 1 qty) bound) (AtLeast bound) (stepped-IsDear (max 1 qty) bound)
          (l ∷ ls) start (q, qs) (omega arith, omega arith)) in
    let (num, n) = whole_fill buy slippage (worst l ls) (walk (l ∷ ls) start) in
    slipped-buy slippage bound num n (omega (arith, m))
      (omega (arith, h, ap (λ (t : ℕ). bound * t) m))
average_bounds sell slippage qty bound l ls (q, qs) =
    let start : Walk = record { notional = 0; filled = 0; remaining = max 1 qty } in
    let (x, qx, e) = worst_in (AtMost bound) l ls q qs in
    let (m, h) =
      sell_fill slippage (worst l ls) (max 1 qty) bound (walk (l ∷ ls) start) (omega (arith, qx, e))
        (walk_inv (IsCheap (max 1 qty) bound) (AtMost bound) (stepped-IsCheap (max 1 qty) bound)
          (l ∷ ls) start (q, qs) (omega arith, omega arith)) in
    let (num, n) = whole_fill sell slippage (worst l ls) (walk (l ∷ ls) start) in
    slipped-sell slippage bound num n (omega (arith, m))
      (omega (arith, h, ap (λ (t : ℕ). bound * t) m))

-- However large an order is and however the book looks, its simulated fill is at most half a paisa
-- better for it than the best visible level with the slippage: a purchase is not cheaper than every
-- level, a sale not dearer.
pub fill_price-IsFair :
    (side : Side) (slippage qty bound p : ℕ) (l : Level) (ls : List Level) (last : Option ℕ)
    → All (Bounded side bound) (l ∷ ls)
    → fill_price side slippage qty (l ∷ ls) last ≡ some p
    → IsFair side slippage bound p
unfolding fill_price
fill_price-IsFair side slippage qty bound p l ls last h e =
    subst (IsFair side slippage bound) (some-injective _ p e)
      (average_bounds side slippage qty bound l ls h)
