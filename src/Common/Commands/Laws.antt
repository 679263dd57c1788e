-- ===== src/Common/Commands/Laws.antt =====
-- The table of common/commands.py: idempotent enqueueing, exclusive claims, recovery.
use mathlib.Core.List.{Permᴰ}
use mathlib.Core.List.Permᴰ.{nil, cons, swap, trans}
use ai_trading_system.Base.{
  ℕ, take, drop, zero, suc, ◌≡◌, ◌∙◌, sym, subst, All, Bool, true, false, ◌||◌, ◌==◌, ==_iff, refl,
  ap, inl, inr, Option, none, some, List, [], ◌∷◌, ◌++◌, arith, if◌then◌else◌, Bool-cases,
}
use ai_trading_system.Common.Commands.{
  is_pending, Row, Table, find_key, settle, new_row, enqueue_command, claim_rows, claim_commands,
}

find_key-append :
    (key : ℕ) (rows : List Row) (r : Row)
    → find_key (some key) rows ≡ none
    → r.idempotency_key ≡ some key
    → find_key (some key) (rows ++ (r ∷ [])) ≡ some r.id
unfolding find_key
find_key-append key [] r h e = ground arith
find_key-append key (s ∷ rows) r h e = ground (arith, find_key-append key rows r)

-- A command sent again under its idempotency key gets the id of the first, and no second row; the
-- rows are those that the first call left.
pub enqueue_twice :
    (key kind kind' : ℕ) (t : Table)
    → let (id, t') = enqueue_command (some key) kind t in
      let (id', t'') = enqueue_command (some key) kind' t' in (id' ≡ id) × (t''.rows ≡ t'.rows)
unfolding enqueue_command settle new_row
enqueue_twice key kind kind' t = by_key (find_key (some key) t.rows) refl
  where
    -- the second call, after whatever the first one found
    Twice : Option ℕ → Type 0
    Twice found =
        let (id, t') = settle found (some key) kind t in
        let (id', t'') = settle (find_key (some key) t'.rows) (some key) kind' t' in
        (id' ≡ id) × (t''.rows ≡ t'.rows)

    by_key : (found : Option ℕ) → find_key (some key) t.rows ≡ found → Twice found
    by_key none e =
        rw (find_key-append key t.rows (new_row t.next_id (some key) kind) e refl) (refl, refl)
    by_key (some id) e = rw e (refl, refl)

-- the queue that claims are served from: the ids of the pending rows, oldest first
abbrev pub pending_ids : List Row → List ℕ
pending_ids [] = []
pending_ids (r ∷ rows) = if is_pending r.status then r.id ∷ pending_ids rows else pending_ids rows

claim_rows-fifo :
    (n : ℕ) (rows : List Row)
    → let (ids, rows') = claim_rows n rows in
      (ids ≡ take n (pending_ids rows)) × (pending_ids rows' ≡ drop n (pending_ids rows))
unfolding claim_rows
claim_rows-fifo zero [] = (refl, refl)
claim_rows-fifo (suc n) [] = (refl, refl)
claim_rows-fifo zero (r ∷ rows) = (refl, refl)
claim_rows-fifo (suc n) (r ∷ rows) = elim (Bool-cases (is_pending r.status)) [
  | inl p ↦ let (a, b) = claim_rows-fifo n rows in rw p (ap (λ ids. r.id ∷ ids) a, b)
  | inr q ↦ let (a, b) = claim_rows-fifo (suc n) rows in rw (q, q) (a, b)
]

-- whether an id is in a list of ids
abbrev pub among : ℕ → List ℕ → Bool
among id [] = false
among id (x ∷ xs) = x == id || among id xs

-- No two rows have the same id, the primary key.
abbrev pub IsKeyed : List Row → Type 0
IsKeyed [] = Unit
IsKeyed (r ∷ rows) = All (λ s. (s.id == r.id) ≡ false) rows × IsKeyed rows

abbrev Unrepeated : List ℕ → Type 0
Unrepeated [] = Unit
Unrepeated (x ∷ xs) = (among x xs ≡ false) × Unrepeated xs

-- No id is in both lists.
abbrev pub Disjoint : List ℕ → List ℕ → Type 0
Disjoint xs ys = (id : ℕ) → ¬ ((among id xs ≡ true) × (among id ys ≡ true))

among-perm : (id : ℕ) {xs ys : List ℕ} → Permᴰ xs ys → among id xs ≡ among id ys
among-perm id nil = refl
among-perm id (cons {a = a} {b = b} e p) = ground (arith, among-perm id p)
among-perm id (swap e e') = ground arith
among-perm id (trans p q) = among-perm id p ∙ among-perm id q

pending_ids-absent :
    (id : ℕ) (rows : List Row)
    → All (λ s. (s.id == id) ≡ false) rows
    → among id (pending_ids rows) ≡ false
pending_ids-absent id [] h = refl
pending_ids-absent id (r ∷ rows) (h, hs) = ground (arith, pending_ids-absent id rows hs)

pending_ids-Unrepeated : (rows : List Row) → IsKeyed rows → Unrepeated (pending_ids rows)
pending_ids-Unrepeated [] k = tt
pending_ids-Unrepeated (r ∷ rows) (h, k) = elim (Bool-cases (is_pending r.status)) [
  | inl p ↦ rw p (pending_ids-absent r.id rows h, pending_ids-Unrepeated rows k)
  | inr q ↦ rw q (pending_ids-Unrepeated rows k)
]

among-take : (id n : ℕ) (xs : List ℕ) → among id (take n xs) ≡ true → among id xs ≡ true
among-take id zero xs h = ground (arith, h)
among-take id (suc n) [] h = h
among-take id (suc n) (x ∷ xs) h = ground (arith, among-take id n xs)

among-drop : (id n : ℕ) (xs : List ℕ) → among id (drop n xs) ≡ true → among id xs ≡ true
among-drop id zero xs h = h
among-drop id (suc n) [] h = h
among-drop id (suc n) (x ∷ xs) h = ground (arith, among-drop id n xs h)

take-Disjoint : (n : ℕ) (xs : List ℕ) → Unrepeated xs → Disjoint (take n xs) (drop n xs)
take-Disjoint zero xs u id (a, b) = ground (arith, a)
take-Disjoint (suc n) [] u id (a, b) = ground (arith, a)
take-Disjoint (suc n) (x ∷ xs) (u, us) id (a, b) = elim (Bool-cases (x == id)) [
  | inr ne ↦ take-Disjoint n xs us id (rw ne at a, b)
  | inl e ↦
      let same : x ≡ id = (==_iff x id).0 e in
      let c = among-drop id n xs b in
      let d : among id xs ≡ false = subst (λ i. among i xs ≡ false) same u in
      ground (arith, sym c ∙ d)
]

-- A claim returns the oldest pending commands in some order, at most `n` of them, and what stays
-- pending is the rest of the queue in its order; two claims in a row never return the same command.
-- This is under distinct ids, however the database orders the rows that a statement returns.
pub claim-fifo :
    (returning returning' : List ℕ → List ℕ)
    → ((ids : List ℕ) → Permᴰ (returning ids) ids)
    → ((ids : List ℕ) → Permᴰ (returning' ids) ids)
    → (n n' : ℕ) (t : Table) → IsKeyed t.rows
    → let (ids, t') = claim_commands returning n t in
      let (ids', t'') = claim_commands returning' n' t' in
      Permᴰ ids (take n (pending_ids t.rows))
      × (pending_ids t'.rows ≡ drop n (pending_ids t.rows))
      × Disjoint ids ids'
unfolding claim_commands
claim-fifo returning returning' order order' n n' t keyed =
    let (ids, rows) = claim_rows n t.rows in
    let (taken, left) = claim_rows-fifo n t.rows in
    let (taken', _) = claim_rows-fifo n' rows in
    (
      subst (λ xs. Permᴰ (returning ids) xs) taken (order ids),
      left,
      λ id (a, b).
          let q = pending_ids t.rows in
          take-Disjoint n q (pending_ids-Unrepeated t.rows keyed) id (
            ap (among id) (sym taken) ∙ sym (among-perm id (order ids)) ∙ a,
            among-take id n' (drop n q) (
                ap (λ xs. among id (take n' xs)) (sym left)
                ∙ ap (among id) (sym taken')
                ∙ sym (among-perm id (order' (claim_rows n' rows).0))
                ∙ b),
          ),
    )
