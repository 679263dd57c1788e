-- ===== src/Common/Commands/Lifecycle.antt =====
-- The life of one command of common/commands.py: completion, failure with its attempts, recovery.
use mathlib.Core.Option
use mathlib.Core.Option.{some-injective}
use ai_trading_system.Base.{
  ℕ, zero, suc, ◌+◌, ◌≡◌, refl, ◌∙◌, ap, ◌≢◌, inl, inr, Bool, Option, none, some, List, [], ◌∷◌,
  arith, leb, ◌==◌, if◌then◌else◌, Bool-cases,
}
use ai_trading_system.Common.Commands.{
  Status, retrying, dead_letter, is_pending, in_flight, next_state, Row, Table, update, attempts_of,
  fail_command, recover_rows, recover_stuck_commands,
}

-- the row with an id
abbrev pub row_of : ℕ → List Row → Option Row
row_of id [] = none
row_of id (r ∷ rows) = if r.id == id then some r else row_of id rows

row_of-update :
    (id : ℕ) (f : Row → Row) (rows : List Row) {r : Row}
    → ((r : Row) → (f r).id ≡ r.id)
    → row_of id rows ≡ some r
    → row_of id (update id f rows) ≡ some (f r)
unfolding update
row_of-update id f [] keep e = cc
row_of-update id f (s ∷ rows) {r} keep e = elim (Bool-cases (s.id == id)) [
  | inl same ↦
      rw (same, ap (λ k. k == id) (keep s) ∙ same)
        (ap (λ q. some (f q)) (some-injective _ _ (rw same at e)))
  | inr other ↦ rw (other, other) (row_of-update id f rows keep (rw other at e))
]

row_of-update_ne :
    (id j : ℕ) (f : Row → Row) (rows : List Row)
    → ((r : Row) → (f r).id ≡ r.id)
    → id ≢ j
    → row_of j (update id f rows) ≡ row_of j rows
unfolding update
row_of-update_ne id j f [] keep ne = refl
row_of-update_ne id j f (s ∷ rows) keep ne =
    ground (arith, keep s, row_of-update_ne id j f rows keep ne)

attempts_of-row_of :
    (id : ℕ) (rows : List Row) {r : Row}
    → row_of id rows ≡ some r
    → attempts_of id rows ≡ r.attempts
unfolding attempts_of
attempts_of-row_of id [] e = cc
attempts_of-row_of id (s ∷ rows) {r} e = elim (Bool-cases (s.id == id)) [
  | inl same ↦ rw same (ap (λ q. q.attempts) (some-injective _ _ (rw same at e)))
  | inr other ↦ rw other (attempts_of-row_of id rows (rw other at e))
]

-- What a failure does to its row: the attempt is counted, and the command is retried until its
-- attempts reach the limit, when it is dead.
abbrev pub failed_row : ℕ → Row → Row
failed_row limit r = record r {
  status = if leb limit (r.attempts + 1) then dead_letter else retrying;
  attempts = r.attempts + 1;
}

row_of-fail :
    (id limit : ℕ) (t : Table) {r : Row}
    → row_of id t.rows ≡ some r
    → row_of id (fail_command id limit t).rows ≡ some (failed_row limit r)
unfolding fail_command next_state
row_of-fail id limit t {r} e =
    rw (attempts_of-row_of id t.rows e) (row_of-update id _ t.rows (λ q. refl) e)

row_of-fail_ne :
    (id j limit : ℕ) (t : Table)
    → id ≢ j
    → row_of j (fail_command id limit t).rows ≡ row_of j t.rows
unfolding fail_command
row_of-fail_ne id j limit t ne = row_of-update_ne id j _ t.rows (λ q. refl) ne

-- `n` failures of the same command, one after another
abbrev pub fail_times : ℕ → ℕ → ℕ → Table → Table
fail_times zero id limit t = t
fail_times (suc n) id limit t = fail_times n id limit (fail_command id limit t)

-- After `n + 1` failures a command that had none is dead exactly if they are as many as the limit,
-- and waits to be retried otherwise; its attempts count the failures, and no other row changes.
pub fail_times_lem :
    (n id limit : ℕ) (t : Table) {r : Row}
    → row_of id t.rows ≡ some r
    → (row_of id (fail_times (suc n) id limit t).rows
        ≡ some (record r {
          status = if leb limit (r.attempts + suc n) then dead_letter else retrying;
          attempts = r.attempts + suc n;
        }))
      × ((j : ℕ) → id ≢ j → row_of j (fail_times (suc n) id limit t).rows ≡ row_of j t.rows)
fail_times_lem zero id limit t e =
    (row_of-fail id limit t e, λ j ne. row_of-fail_ne id j limit t ne)
fail_times_lem (suc n) id limit t {r} e =
    let (a, b) = fail_times_lem n id limit (fail_command id limit t) (row_of-fail id limit t e) in
    let attempts_add : r.attempts + 1 + suc n ≡ r.attempts + suc (suc n) = omega arith in
    (
      a
          ∙ ap
              (λ k.
                some (record r {
                  status = if leb limit k then dead_letter else retrying;
                  attempts = k;
                }))
              attempts_add,
      λ j ne. b j ne ∙ row_of-fail_ne id j limit t ne,
    )

-- A restart: everything in flight waits to be retried, and everything else is as it was.
abbrev pub recovered : Row → Row
recovered r = record r { status = if in_flight r.status then retrying else r.status }

abbrev pub count_status : (Status → Bool) → List Row → ℕ
count_status test [] = 0
count_status test (r ∷ rows) = (if test r.status then 1 else 0) + count_status test rows

recover_rows-counts :
    (rows : List Row)
    → let (n, rows') = recover_rows rows in
      (n ≡ count_status in_flight rows)
      × (count_status in_flight rows' ≡ 0)
      × (count_status is_pending rows' ≡ count_status is_pending rows + n)
unfolding recover_rows
recover_rows-counts [] = omega arith
recover_rows-counts (r ∷ rows) = ground (arith, recover_rows-counts rows)

recover_rows-row_of :
    (id : ℕ) (rows : List Row)
    → row_of id (recover_rows rows).1 ≡ Option.map recovered (row_of id rows)
unfolding recover_rows
recover_rows-row_of id [] = refl
recover_rows-row_of id (r ∷ rows) = ground (arith, recover_rows-row_of id rows)

-- Recovery reports the number of commands in flight, leaves none in flight, and makes each of them
-- pending again; the finished and the dead are untouched.
pub recover_lem :
    (t : Table)
    → let (n, t') = recover_stuck_commands t in
      (n ≡ count_status in_flight t.rows)
      × (count_status in_flight t'.rows ≡ 0)
      × (count_status is_pending t'.rows ≡ count_status is_pending t.rows + n)
      × ((id : ℕ) → row_of id t'.rows ≡ Option.map recovered (row_of id t.rows))
unfolding recover_stuck_commands
recover_lem t =
    let (a, b, c) = recover_rows-counts t.rows in (a, b, c, λ id. recover_rows-row_of id t.rows)
