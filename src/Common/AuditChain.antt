-- ===== src/Common/AuditChain.antt =====
-- common/audit_chain.py, and the table of daily digests of common/audit.py. A row is the canonical
-- text that json.dumps gives of it; the hash of a digest and a text, and the test on digests, are
-- parameters, and `empty` is the digest before the first row.
pub mod Evidence
mod Tests
use ai_trading_system.Base.{
  ℕ, suc, ◌+◌, Bool, Option, none, some, List, [], ◌∷◌, ltb, if◌then◌else◌,
}
use ai_trading_system.Base.Dict.{Dict, insert}

-- A row of `audit_digests`.
pub record DayDigest (D : Type 0) : Type 0 where
  pub row_count : ℕ
  pub digest : D
  pub prev_digest : Option D

module _ {D R : Type 0} (empty : D) (row_fingerprint : D → R → D) where
  -- the loop of `chain_digest`, from a digest and a count
  unfoldable pub fold_rows : D → ℕ → List R → D × ℕ
  fold_rows h n [] = (h, n)
  fold_rows h n (r ∷ rows) = fold_rows (row_fingerprint h r) (n + 1) rows

  -- `prev_digest or ""`
  abbrev pub seed : Option D → D
  seed none = empty
  seed (some d) = d

  unfoldable pub chain_digest : List R → Option D → D × ℕ
  unfolding fold_rows
  chain_digest rows prev = fold_rows (seed prev) 0 rows

  unfoldable pub verify_chain : (D → D → Bool) → List R → D → Option D → Bool
  unfolding chain_digest
  verify_chain same rows expected prev = same (chain_digest rows prev).0 expected

  -- the later of two days
  abbrev pub later : Option (ℕ × D) → ℕ × D → ℕ × D
  later none x = x
  later (some (day, d)) (day', d') = if ltb day' day then (day, d) else (day', d')

  -- the digest of the last day before one
  unfoldable pub last_before : ℕ → Dict (DayDigest D) → Option (ℕ × D)
  last_before date [] = none
  last_before date ((day, x) ∷ table) =
      let rest = last_before date table in
      if ltb day date then some (later rest (day, x.digest)) else rest

  abbrev pub digest_of : Option (ℕ × D) → Option D
  digest_of none = none
  digest_of (some (day, d)) = some d

  -- `compute_and_store_daily_digest`, on the rows of the day
  unfoldable pub store_daily_digest : ℕ → List R → Dict (DayDigest D) → D × Dict (DayDigest D)
  unfolding chain_digest last_before
  store_daily_digest date rows table =
      let prev = digest_of (last_before date table) in
      let (digest, n) = chain_digest rows prev in
      (digest, insert date (record { row_count = n; digest = digest; prev_digest = prev }) table)
