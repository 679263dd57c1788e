-- ===== src/Common/AuditChain/Tests.antt =====
-- The chain with a hash that keeps all it was given.
use ai_trading_system.Base.{
  ℕ, ◌≡◌, ◌↔◌, refl, Bool, Option, true, false, ◌&&◌, some, List, [], ◌∷◌, arith, ◌==◌, ==_iff,
}
use ai_trading_system.Common.AuditChain.{chain_digest, verify_chain, store_daily_digest}
use ai_trading_system.Common.AuditChain.Evidence.{IsChaining, verify_chain_iff}

abbrev keep : List ℕ → ℕ → List ℕ
keep d r = r ∷ d

keep-IsChaining : IsChaining [] keep
keep-IsChaining = record {
  no_collision = λ d e r s q. (cc, cc);
  not_empty = λ d r q. ground (arith, q);
}

abbrev same_list : List ℕ → List ℕ → Bool
same_list [] [] = true
same_list (x ∷ xs) (y ∷ ys) = (x == y) && same_list xs ys
same_list _ _ = false

same_list_iff : (xs ys : List ℕ) → (same_list xs ys ≡ true) ↔ (xs ≡ ys)
same_list_iff [] [] = (λ e. refl, λ e. refl)
same_list_iff [] (y ∷ ys) = ground arith
same_list_iff (x ∷ xs) [] = ground arith
same_list_iff (x ∷ xs) (y ∷ ys) = ground (arith, ==_iff x y, same_list_iff xs ys)

-- the rows of a day, and the same with the last moved to the front
abbrev day_rows : List ℕ
day_rows = 5 ∷ 6 ∷ 7 ∷ []

abbrev moved : List ℕ
moved = 7 ∷ 5 ∷ 6 ∷ []

-- the digest of a day of two rows before
abbrev day_before : Option (List ℕ)
day_before = some (2 ∷ 1 ∷ [])

verify_chain_iff_example :
    (verify_chain [] keep same_list moved (chain_digest [] keep day_rows day_before).0 day_before
      ≡ true)
    ↔ (moved ≡ day_rows)
unfolding chain_digest
verify_chain_iff_example =
    verify_chain_iff [] keep keep-IsChaining same_list same_list_iff (1 ∷ 2 ∷ []) moved day_rows
      day_before refl

-- the digest of the third day is seeded by that of the first
third_day :
    let (d, table) = store_daily_digest [] keep 1 (1 ∷ 2 ∷ []) [] in
    (store_daily_digest [] keep 3 (5 ∷ []) table).0 ≡ 5 ∷ 2 ∷ 1 ∷ []
unfolding store_daily_digest
third_day = refl
