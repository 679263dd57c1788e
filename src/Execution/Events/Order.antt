-- ===== src/Execution/Events/Order.antt =====
-- The state that execution/position_events.py derives does not depend on the order of the log.
use mathlib.Core.List.{Memᴰ, Permᴰ}
use mathlib.Core.List.Memᴰ.{head, tail}
use mathlib.Core.List.Permᴰ.{nil, cons, swap, trans}
use ai_trading_system.Base.{◌≡◌, refl, sym, ap, ◌∙◌, List, [], ◌∷◌, arith}
use ai_trading_system.Execution.Events.{Event, place, ordered, reduce, position_from_events}

-- No two events of the log share time stamp and id.
abbrev pub IsKeyed : List Event → Type 0
IsKeyed es = (e f : Event) → Memᴰ e es → Memᴰ f es → e.ts ≡ f.ts → e.id ≡ f.id → e ≡ f

place-place :
    (e f : Event) (es : List Event)
    → (e.ts ≡ f.ts → e.id ≡ f.id → e ≡ f)
    → place e (place f es) ≡ place f (place e es)
unfolding place
place-place e f [] same = ground arith
place-place e f (g ∷ es) same = ground (arith, place-place e f es same)

IsKeyed-tail : (e : Event) (es : List Event) → IsKeyed (e ∷ es) → IsKeyed es
IsKeyed-tail e es k a b ma mb = k a b (tail ma) (tail mb)

-- an event of a permuted log is one of the log
mem-perm : {e : Event} {es fs : List Event} → Permᴰ es fs → Memᴰ e fs → Memᴰ e es
mem-perm nil m = m
mem-perm (cons same p) (head e) = head (e ∙ sym same)
mem-perm (cons same p) (tail m) = tail (mem-perm p m)
mem-perm (swap same same') (head e) = tail (head (e ∙ sym same'))
mem-perm (swap same same') (tail (head e)) = head (e ∙ sym same)
mem-perm (swap same same') (tail (tail m)) = tail (tail m)
mem-perm (trans p q) m = mem-perm p (mem-perm q m)

ordered-perm : {es fs : List Event} → Permᴰ es fs → IsKeyed es → ordered es ≡ ordered fs
unfolding ordered
ordered-perm nil k = refl
ordered-perm (cons {a = e} {b = f} {l₁ = es} {l₂ = fs} same p) k =
    ap (λ x. place x (ordered es)) same ∙ ap (place f) (ordered-perm p (IsKeyed-tail e es k))
ordered-perm (swap {a = e} {b = f} {a' = f'} {b' = e'} {l = es} same same') k =
    place-place e f (ordered es) (k e f (head refl) (tail (head refl)))
    ∙ ap (λ x. place x (place e (ordered es))) same'
    ∙ ap (λ x. place f' (place x (ordered es))) same
ordered-perm (trans p q) k =
    ordered-perm p k ∙ ordered-perm q (λ a b ma mb. k a b (mem-perm p ma) (mem-perm p mb))

-- Two logs of a position with the same events, which are told apart by their time stamps and ids,
-- give the same derived state, in whatever order the rows are read.
pub position-perm :
    {es fs : List Event}
    → Permᴰ es fs
    → IsKeyed es
    → position_from_events es ≡ position_from_events fs
unfolding position_from_events
position-perm p k = ap reduce (ordered-perm p k)
