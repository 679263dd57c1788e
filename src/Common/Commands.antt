-- ===== src/Common/Commands.antt =====
-- common/commands.py: the durable command queue. The `commands` table is the list of its rows in
-- the order of `created_at`; each SQL statement is one atomic function on it. Payloads, workers,
-- error texts and times are left out, since nothing branches on them.
pub mod Laws
pub mod Lifecycle
use ai_trading_system.Base.{
  ℕ, zero, suc, ◌+◌, Bool, true, false, ◌||◌, ◌&&◌, Option, none, some, List, [], ◌∷◌, ◌++◌, leb,
  ◌==◌, if◌then◌else◌,
}

pub data Status : Type 0 where
  created claimed executing succeeded failed retrying dead_letter : Status

pub data Event : Type 0 where
  claim succeed fail other_event : Event

abbrev pub max_attempts : ℕ
max_attempts = 5

-- `current in (CREATED, RETRYING)` and `current in (CLAIMED, EXECUTING)`
abbrev pub is_pending : Status → Bool
is_pending created = true
is_pending retrying = true
is_pending _ = false

abbrev pub in_flight : Status → Bool
in_flight claimed = true
in_flight executing = true
in_flight _ = false

unfoldable pub next_state : Status → Event → ℕ → ℕ → Status
next_state current claim attempts limit = if is_pending current then claimed else current
next_state current succeed attempts limit = if in_flight current then succeeded else current
next_state current fail attempts limit =
    if in_flight current
    then (if leb limit (attempts + 1) then dead_letter else retrying)
    else current
next_state current other_event attempts limit = current

pub record Row : Type 0 where
  pub id : ℕ
  pub idempotency_key : Option ℕ
  pub kind : ℕ
  pub status : Status
  pub attempts : ℕ

-- The rows, and the value that the serial column gives next.
pub record Table : Type 0 where
  pub rows : List Row
  pub next_id : ℕ

abbrev pub same_key : Option ℕ → Option ℕ → Bool
same_key (some a) (some b) = a == b
same_key _ _ = false

-- `SELECT id FROM commands WHERE idempotency_key=$1`; NULL equals nothing
unfoldable pub find_key : Option ℕ → List Row → Option ℕ
find_key key [] = none
find_key key (r ∷ rows) = if same_key key r.idempotency_key then some r.id else find_key key rows

-- the row of the INSERT
unfoldable pub new_row : ℕ → Option ℕ → ℕ → Row
new_row id key kind = record {
  id = id;
  idempotency_key = key;
  kind = kind;
  status = created;
  attempts = 0;
}

-- the two ends of the INSERT; on a conflict the serial column has already moved on
unfoldable pub settle : Option ℕ → Option ℕ → ℕ → Table → ℕ × Table
unfolding new_row
settle (some existing) key kind t = (existing, record t { next_id = t.next_id + 1 })
settle none key kind t = (
  t.next_id,
  record { rows = t.rows ++ (new_row t.next_id key kind ∷ []); next_id = t.next_id + 1 },
)

unfoldable pub enqueue_command : Option ℕ → ℕ → Table → ℕ × Table
unfolding find_key settle
enqueue_command key kind t = settle (find_key key t.rows) key kind t

-- the UPDATE of the first `max_n` pending rows by `created_at`, with the ids that it has changed
unfoldable pub claim_rows : ℕ → List Row → List ℕ × List Row
claim_rows n [] = ([], [])
claim_rows zero (r ∷ rows) = ([], r ∷ rows)
claim_rows (suc n) (r ∷ rows) =
    let taken = claim_rows n rows in
    let passed = claim_rows (suc n) rows in
    if is_pending r.status
    then (r.id ∷ taken.0, record r { status = claimed } ∷ taken.1)
    else (passed.0, r ∷ passed.1)

-- RETURNING gives the changed rows in the order `returning` puts them, which the statement leaves
-- to the database.
unfoldable pub claim_commands : (List ℕ → List ℕ) → ℕ → Table → List ℕ × Table
unfolding claim_rows
claim_commands returning max_n t =
    let (ids, rows) = claim_rows max_n t.rows in (returning ids, record t { rows = rows })

-- UPDATE ... WHERE id = $1
unfoldable pub update : ℕ → (Row → Row) → List Row → List Row
update id f [] = []
update id f (r ∷ rows) = (if r.id == id then f r else r) ∷ update id f rows

unfoldable pub complete_command : ℕ → Table → Table
unfolding update
complete_command id t = record t { rows = update id (λ r. record r { status = succeeded }) t.rows }

-- `int(row["attempts"]) if row else 0`
unfoldable pub attempts_of : ℕ → List Row → ℕ
attempts_of id [] = 0
attempts_of id (r ∷ rows) = if r.id == id then r.attempts else attempts_of id rows

unfoldable pub fail_command : ℕ → ℕ → Table → Table
unfolding update attempts_of next_state
fail_command id limit t =
    let new = next_state claimed fail (attempts_of id t.rows) limit in
    record t { rows = update id (λ r. record r { status = new; attempts = r.attempts + 1 }) t.rows }

unfoldable pub recover_rows : List Row → ℕ × List Row
recover_rows [] = (0, [])
recover_rows (r ∷ rows) =
    let (n, rest) = recover_rows rows in
    if in_flight r.status then (n + 1, record r { status = retrying } ∷ rest) else (n, r ∷ rest)

unfoldable pub recover_stuck_commands : Table → ℕ × Table
unfolding recover_rows
recover_stuck_commands t = let (n, rows) = recover_rows t.rows in (n, record t { rows = rows })
