-- ===== src/Execution/Executor/Pending/Orphans.antt =====
-- `reconcile_brackets` of execution/executor.py leaves no orphaned bracket active.
use ai_trading_system.Base.{
  ℕ, suc, ◌≡◌, refl, Bool, true, false, List, [], ◌∷◌, arith, All, ◌==◌, if◌then◌else◌, Bool-cases,
  inl, inr, sym, ap, ◌∙◌, ◌≢◌, ◌+◌, subst, length,
}
use ai_trading_system.Broker.{Adapter}
use ai_trading_system.Execution.Guards.{member}
use ai_trading_system.Execution.Executor.{BracketRow, World}
use ai_trading_system.Execution.Executor.Book.{released}
use ai_trading_system.Execution.Executor.Pending.{
  Resolved, open_at, active_brackets, cancel_orphan, sweep, reconcile_brackets,
}

abbrev pids : List BracketRow → List ℕ
pids [] = []
pids (b ∷ bs) = b.position_id ∷ pids bs

-- an active bracket of a position that is not open is one of the list
abbrev IsListed : (ℕ → Bool) → List ℕ → BracketRow → Type 0
IsListed opened ks b =
    b.is_active ≡ true → opened b.position_id ≡ false → member b.position_id ks ≡ true

member_self : (k : ℕ) (ks : List ℕ) → member k (k ∷ ks) ≡ true
member_self k ks = ground arith

member_rest : (k j : ℕ) (ks : List ℕ) → k ≢ j → member j (k ∷ ks) ≡ true → member j ks ≡ true
member_rest k j ks ne h = ground arith

unequal : (k j : ℕ) → (j == k) ≡ false → k ≢ j
unequal k j h = ground arith

Listed-weaken :
    (opened : ℕ → Bool) (k : ℕ) (ks : List ℕ) (bs : List BracketRow)
    → All (IsListed opened ks) bs
    → All (IsListed opened (k ∷ ks)) bs
Listed-weaken opened k ks [] h = tt
Listed-weaken opened k ks (b ∷ bs) (h, hs) =
    (λ a o. ground (arith, h a o), Listed-weaken opened k ks bs hs)

active_if :
    (opened : ℕ → Bool) (t : Bool) (b : BracketRow) (bs : List BracketRow)
    → b.is_active ≡ t
    → All (IsListed opened (pids (active_brackets bs))) bs
    → All
        (IsListed opened (pids (if t then b ∷ active_brackets bs else active_brackets bs)))
        (b ∷ bs)
active_if opened true b bs e h = (
  λ a o. member_self b.position_id _,
  Listed-weaken opened b.position_id (pids (active_brackets bs)) bs h,
)
active_if opened false b bs e h = (λ a o. ground (arith, sym a ∙ e), h)

active-Listed :
    (opened : ℕ → Bool) (bs : List BracketRow)
    → All (IsListed opened (pids (active_brackets bs))) bs
unfolding active_brackets
active-Listed opened [] = tt
active-Listed opened (b ∷ bs) = active_if opened b.is_active b bs refl (active-Listed opened bs)

-- a bracket of an open position need not be listed
Listed-open :
    (opened : ℕ → Bool) (k : ℕ) (ks : List ℕ) (bs : List BracketRow)
    → opened k ≡ true
    → All (IsListed opened (k ∷ ks)) bs
    → All (IsListed opened ks) bs
Listed-open opened k ks [] o h = tt
Listed-open opened k ks (b ∷ bs) o (h, hs) = (
  λ a q. member_rest k b.position_id ks (λ e. ground (arith, sym o ∙ ap opened e ∙ q)) (h a q),
  Listed-open opened k ks bs o hs,
)

released_if :
    (opened : ℕ → Bool) (t : Bool) (k : ℕ) (ks : List ℕ) (b : BracketRow)
    → (t ≡ false → k ≢ b.position_id)
    → IsListed opened (k ∷ ks) b
    → IsListed opened ks (if t then record b { is_active = false } else b)
released_if opened true k ks b ne h = λ a o. ground (arith, a)
released_if opened false k ks b ne h = λ a o. member_rest k b.position_id ks (ne refl) (h a o)

-- nor one that was released
Listed-released :
    (opened : ℕ → Bool) (k : ℕ) (ks : List ℕ) (bs : List BracketRow)
    → All (IsListed opened (k ∷ ks)) bs
    → All (IsListed opened ks) (released k bs)
Listed-released opened k ks [] h = tt
Listed-released opened k ks (b ∷ bs) (h, hs) = (
  released_if opened (b.position_id == k) k ks b (λ e. unequal k b.position_id e) h,
  Listed-released opened k ks bs hs,
)

-- Every active bracket is of an open position.
abbrev pub NoOrphan : (ℕ → Bool) → List BracketRow → Type 0
NoOrphan opened [] = Unit
NoOrphan opened (b ∷ bs) = (b.is_active ≡ true → opened b.position_id ≡ true) × NoOrphan opened bs

NoOrphan-Listed :
    (opened : ℕ → Bool) (bs : List BracketRow) → All (IsListed opened []) bs → NoOrphan opened bs
NoOrphan-Listed opened [] h = tt
NoOrphan-Listed opened (b ∷ bs) (h, hs) = (
  λ a. elim (Bool-cases (opened b.position_id)) [ inl p ↦ p | inr q ↦ ground (arith, h a q) ],
  NoOrphan-Listed opened bs hs,
)

-- the triggers of the active brackets whose position is not open, in the order of their rows
abbrev pub orphans : (ℕ → Bool) → List BracketRow → List ℕ
orphans opened [] = []
orphans opened (b ∷ bs) =
    if b.is_active
    then (if opened b.position_id then orphans opened bs else b.gtt ∷ orphans opened bs)
    else orphans opened bs

-- the triggers of a list of brackets, where the position is not open
abbrev gtts : (ℕ → Bool) → List BracketRow → List ℕ
gtts opened [] = []
gtts opened (b ∷ bs) = if opened b.position_id then gtts opened bs else b.gtt ∷ gtts opened bs

gtts_if :
    (opened : ℕ → Bool) (t : Bool) (b : BracketRow) (xs : List BracketRow) (gs : List ℕ)
    → gtts opened xs ≡ gs
    → gtts opened (if t then b ∷ xs else xs)
      ≡ (if t then (if opened b.position_id then gs else b.gtt ∷ gs) else gs)
gtts_if opened true b xs gs h = ap (λ ys. if opened b.position_id then ys else b.gtt ∷ ys) h
gtts_if opened false b xs gs h = h

gtts-active :
    (opened : ℕ → Bool) (bs : List BracketRow)
    → gtts opened (active_brackets bs) ≡ orphans opened bs
unfolding active_brackets
gtts-active opened [] = refl
gtts-active opened (b ∷ bs) =
    gtts_if opened b.is_active b (active_brackets bs) (orphans opened bs) (gtts-active opened bs)

module _ {S : Type 0} (adapter : Adapter S) where
  -- the broker after the deletion of triggers, one call after the other
  abbrev pub delete_all : List ℕ → S → S
  delete_all [] s = s
  delete_all (g ∷ gs) s = delete_all gs (adapter.delete_gtt g s).1

  abbrev turn : Bool → BracketRow → Resolved S → Resolved S
  turn t b (n, w) = if t then (n, w) else (suc n, cancel_orphan adapter b w)

  -- positions stay, and the listed brackets are fewer
  abbrev Swept : List ℕ → Resolved S → Resolved S → Type 0
  Swept ks r r' =
      (r'.1.positions ≡ r.1.positions) × All (IsListed (open_at r'.1.positions) ks) r'.1.brackets

  turn-Swept :
      (t : Bool) (b : BracketRow) (ks : List ℕ) (r : Resolved S)
      → open_at r.1.positions b.position_id ≡ t
      → All (IsListed (open_at r.1.positions) (b.position_id ∷ ks)) r.1.brackets
      → Swept ks r (turn t b r)
  unfolding cancel_orphan
  turn-Swept true b ks r e h =
      (refl, Listed-open (open_at r.1.positions) b.position_id ks r.1.brackets e h)
  turn-Swept false b ks r e h =
      (refl, Listed-released (open_at r.1.positions) b.position_id ks r.1.brackets h)

  sweep-Swept :
      (bs : List BracketRow) (r : Resolved S)
      → All (IsListed (open_at r.1.positions) (pids bs)) r.1.brackets
      → Swept [] r (sweep adapter bs r)
  unfolding sweep
  sweep-Swept [] r h = (refl, h)
  sweep-Swept (b ∷ bs) r h =
      let (same, listed) = turn-Swept (open_at r.1.positions b.position_id) b (pids bs) r refl h in
      let (same', done) = sweep-Swept bs (turn (open_at r.1.positions b.position_id) b r) listed in
      (same' ∙ same, done)

  -- the calls that a sweep makes, and how many it counts
  abbrev Deletes : List ℕ → Resolved S → Resolved S → Type 0
  Deletes gs r r' = (r'.1.broker ≡ delete_all gs r.1.broker) × (r'.0 ≡ r.0 + length gs)

  turn-Deletes :
      (t : Bool) (b : BracketRow) (gs : List ℕ) (r r' : Resolved S)
      → Deletes gs (turn t b r) r'
      → Deletes (if t then gs else b.gtt ∷ gs) r r'
  unfolding cancel_orphan
  turn-Deletes true b gs r r' h = h
  turn-Deletes false b gs r r' (h, n) = (h, omega arith)

  turn-positions :
      (t : Bool) (b : BracketRow) (r : Resolved S) → (turn t b r).1.positions ≡ r.1.positions
  unfolding cancel_orphan
  turn-positions true b r = refl
  turn-positions false b r = refl

  sweep-Deletes :
      (bs : List BracketRow) (r : Resolved S)
      → Deletes (gtts (open_at r.1.positions) bs) r (sweep adapter bs r)
  unfolding sweep
  sweep-Deletes [] r = (refl, omega arith)
  sweep-Deletes (b ∷ bs) r =
      let t = open_at r.1.positions b.position_id in
      turn-Deletes t b (gtts (open_at r.1.positions) bs) r (sweep adapter bs (turn t b r)) (
        subst (λ ps. Deletes (gtts (open_at ps) bs) (turn t b r) (sweep adapter bs (turn t b r)))
          (turn-positions t b r) (sweep-Deletes bs (turn t b r)))

  -- The sweep asks the broker to delete the trigger of every active bracket whose position is not
  -- open, in the order of the rows, and makes no other call; it counts them. After it every bracket
  -- row that is still marked active is of an open position, and no position has changed.
  pub reconciled-NoOrphan :
      (w : World S)
      → let (n, w') = reconcile_brackets adapter w in
        let gone = orphans (open_at w.positions) w.brackets in
        (w'.broker ≡ delete_all gone w.broker)
        × (n ≡ length gone)
        × (w'.positions ≡ w.positions)
        × NoOrphan (open_at w'.positions) w'.brackets
  unfolding reconcile_brackets
  reconciled-NoOrphan w =
      let (same, listed) =
        sweep-Swept (active_brackets w.brackets) (0, w)
          (active-Listed (open_at w.positions) w.brackets) in
      let (calls, n) =
        subst (λ gs. Deletes gs (0, w) (sweep adapter (active_brackets w.brackets) (0, w)))
          (gtts-active (open_at w.positions) w.brackets)
          (sweep-Deletes (active_brackets w.brackets) (0, w)) in
      (calls, ground (arith, n), same, NoOrphan-Listed _ _ listed)
