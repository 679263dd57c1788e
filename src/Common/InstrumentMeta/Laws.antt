-- ===== src/Common/InstrumentMeta/Laws.antt =====
-- What an order that common/instrument_meta.py lets through satisfies.
use ai_trading_system.Base.{
  ℕ, ◌+◌, ◌*◌, ◌/◌, ◌%◌, ◌≤◌, ◌<◌, ◌≡◌, refl, ◌↔◌, true, false, Option, none, some, arith, leb,
  ◌==◌, or_default, sym, ◌∙◌, zero, suc, ◌⊎◌, inl, inr,
}
use ai_trading_system.Base.Round.{nearest, round_half_even}
use ai_trading_system.Common.InstrumentMeta.{
  distance, known, round_to_tick, tick_aligned, default_tol, OrderMeta, misaligned, is_past,
  validate_order_against_meta,
}

nearest-cases :
    (q r den : ℕ)
    → ((nearest q r den ≡ q) × (2 * r ≤ den)) ⊎ ((nearest q r den ≡ q + 1) × (den ≤ 2 * r))
unfolding nearest
nearest-cases q r den = ground arith

nearest-exact : (q r den : ℕ) → r < den → (nearest q r den * den ≡ q * den + r) ↔ (r ≡ 0)
nearest-exact q r den h = elim (nearest-cases q r den) [
  | inl (e, _) ↦ rw e (λ d. omega arith, λ z. omega arith)
  | inr (e, le) ↦ rw e (λ d. omega arith, λ z. omega arith)
]

round_half_even-exact :
    (price tick : ℕ) → 0 < tick → (round_half_even price tick * tick ≡ price) ↔ (price % tick ≡ 0)
unfolding round_half_even
round_half_even-exact price tick h =
    let (a, b) = nearest-exact (price / tick) (price % tick) tick (omega arith) in
    let split : price ≡ price / tick * tick + price % tick = omega arith in
    (λ e. a (e ∙ split), λ e. b e ∙ sym split)

distance-zero : (a b : ℕ) → (leb (distance a b * 100) 1 ≡ true) ↔ (b ≡ a)
distance-zero a b = ground arith

-- A price is aligned exactly if it is a multiple of the tick.
tick_aligned_iff :
    (price tick : ℕ)
    → 0 < tick
    → (tick_aligned price (some tick) default_tol ≡ true) ↔ (price % tick ≡ 0)
unfolding tick_aligned round_to_tick
tick_aligned_iff price tick h =
    let (a, b) = round_half_even-exact price tick h in
    let (c, d) = distance-zero price (round_half_even price tick * tick) in
    let known_tick : (tick == 0) ≡ false = ground arith in
    rw known_tick (λ e. a (c e), λ e. d (b e))

abbrev pub IsAligned : Option ℕ → Option ℕ → Type 0
IsAligned (some p) (some t) = 0 < t → p % t ≡ 0
IsAligned _ _ = Unit

IsAligned-iff : (price tick : Option ℕ) → (misaligned price tick ≡ false) ↔ IsAligned price tick
unfolding misaligned
IsAligned-iff none tick = (λ _. tt, λ _. refl)
IsAligned-iff (some p) none = (λ _. tt, λ _. unfold tick_aligned in refl)
IsAligned-iff (some p) (some zero) = (λ _ h. absurd (omega arith), λ _. unfold tick_aligned in refl)
IsAligned-iff (some p) (some (suc t)) =
    let (a, b) = tick_aligned_iff p (suc t) (omega arith) in
    (λ e _. a (ground arith), λ f. ground (arith, b (f (omega arith))))

abbrev pub IsCurrent : Option ℕ → ℕ → Type 0
IsCurrent none today = Unit
IsCurrent (some e) today = today ≤ e

IsCurrent-iff :
    (expiry : Option ℕ) (today : ℕ) → (is_past expiry today ≡ false) ↔ IsCurrent expiry today
IsCurrent-iff none today = (λ _. tt, λ _. refl)
IsCurrent-iff (some e) today = ground arith

-- What the order has to satisfy, by the fields that are known.
pub record IsAllowed (m : OrderMeta) (today : ℕ) : Type 0 where
  pub positive : 0 < or_default m.quantity 0
  pub whole_lots : 0 < known m.lot_size → or_default m.quantity 0 % known m.lot_size ≡ 0
  pub below_freeze : 0 < known m.freeze_qty → or_default m.quantity 0 ≤ known m.freeze_qty
  pub on_tick : IsAligned m.price m.tick_size
  pub not_expired : IsCurrent m.expiry today

-- An order passes exactly if its quantity is positive, a multiple of a known lot, at most a known
-- freeze quantity, its price if it has one a multiple of a known tick, and its expiry not past.
pub validate_iff :
    (m : OrderMeta) (today : ℕ) → (validate_order_against_meta m today ≡ none) ↔ IsAllowed m today
unfolding validate_order_against_meta
validate_iff m today =
    let (a, b) = IsAligned-iff m.price m.tick_size in
    let (c, d) = IsCurrent-iff m.expiry today in
    (
      λ e. record {
        positive = ground arith;
        whole_lots = ground arith;
        below_freeze = ground arith;
        on_tick = a (ground arith);
        not_expired = c (ground arith);
      },
      λ v. ground (arith, b v.on_tick, d v.not_expired),
    )
