-- ===== src/Common/AuditChain/Evidence.antt =====
-- That the chain of digests of common/audit_chain.py shows every change of the rows.
use ai_trading_system.Base.{
  ℕ, ◌+◌, ◌≡◌, ◌≢◌, ◌↔◌, refl, sym, ap, ◌∙◌, Bool, true, Option, none, List, [], ◌∷◌, ◌++◌, drop,
}
use ai_trading_system.Common.AuditChain.{fold_rows, seed, chain_digest, verify_chain}

-- a hash without collisions, that never gives the digest before the first row
pub record IsChaining {D R : Type 0} (empty : D) (hash : D → R → D) : Type 0 where
  pub no_collision : (d e : D) (r s : R) → hash d r ≡ hash e s → (d ≡ e) × (r ≡ s)
  pub not_empty : (d : D) (r : R) → hash d r ≢ empty

module _ {D R : Type 0} (empty : D) (hash : D → R → D) (chaining : IsChaining empty hash) where
  -- the digest of rows that stand in reverse order
  abbrev digest_back : List R → D
  digest_back [] = empty
  digest_back (r ∷ rows) = hash (digest_back rows) r

  digest_back-injective :
      (rows other : List R) → digest_back rows ≡ digest_back other → rows ≡ other
  digest_back-injective [] [] e = refl
  digest_back-injective [] (s ∷ other) e =
      elim (chaining.not_empty (digest_back other) s (sym e)) [ ]
  digest_back-injective (r ∷ rows) [] e = elim (chaining.not_empty (digest_back rows) r e) [ ]
  digest_back-injective (r ∷ rows) (s ∷ other) e =
      let (before, here) = chaining.no_collision _ _ r s e in
      λ i. here i ∷ digest_back-injective rows other before i

  -- rows put in reverse before others
  abbrev turn_onto : List R → List R → List R
  turn_onto back [] = back
  turn_onto back (r ∷ rows) = turn_onto (r ∷ back) rows

  fold-digest_back :
      (back rows : List R) (n : ℕ)
      → (fold_rows empty hash (digest_back back) n rows).0 ≡ digest_back (turn_onto back rows)
  unfolding fold_rows
  fold-digest_back back [] n = refl
  fold-digest_back back (r ∷ rows) n = fold-digest_back (r ∷ back) rows (n + 1)

  turn_onto-turn_onto :
      (front back rows : List R)
      → turn_onto front (turn_onto back rows) ≡ turn_onto (rows ++ front) back
  turn_onto-turn_onto front back [] = refl
  turn_onto-turn_onto front back (r ∷ rows) = turn_onto-turn_onto front (r ∷ back) rows

  turn_onto-injective :
      (rows front other : List R) → turn_onto front rows ≡ turn_onto other rows → front ≡ other
  turn_onto-injective [] front other e = e
  turn_onto-injective (r ∷ rows) front other e =
      ap (drop 1) (turn_onto-injective rows (r ∷ front) (r ∷ other) e)

  append_nil : (rows : List R) → rows ++ [] ≡ rows
  append_nil [] = refl
  append_nil (r ∷ rows) = ap (λ rs. r ∷ rs) (append_nil rows)

  turned : (back rows other : List R) → turn_onto back rows ≡ turn_onto back other → rows ≡ other
  turned back rows other e =
      sym (append_nil rows)
      ∙ turn_onto-injective back (rows ++ []) (other ++ []) (
          sym (turn_onto-turn_onto [] back rows)
          ∙ ap (turn_onto []) e
          ∙ turn_onto-turn_onto [] back other)
      ∙ append_nil other

  chain-digest_back :
      (back rows : List R) (prev : Option D)
      → seed empty hash prev ≡ digest_back back
      → (chain_digest empty hash rows prev).0 ≡ digest_back (turn_onto back rows)
  unfolding chain_digest
  chain-digest_back back rows prev e =
      ap (λ d. (fold_rows empty hash d 0 rows).0) e ∙ fold-digest_back back rows 0

  -- With a hash that has no collision and never gives the empty digest, rows reproduce the digest of
  -- a day exactly if they are the day's rows in their order, whatever rows were chained before it:
  -- any edit, reorder, insertion or deletion shows.
  pub verify_chain_iff :
      (same : D → D → Bool)
      → ((d e : D) → (same d e ≡ true) ↔ (d ≡ e))
      → (history rows original : List R) (prev : Option D)
      → seed empty hash prev ≡ (chain_digest empty hash history none).0
      → (verify_chain empty hash same rows (chain_digest empty hash original prev).0 prev ≡ true)
        ↔ (rows ≡ original)
  unfolding verify_chain
  verify_chain_iff same same_iff history rows original prev e =
      let back = turn_onto [] history in
      let start = e ∙ chain-digest_back [] history none refl in
      let of_rows = chain-digest_back back rows prev start in
      let of_original = chain-digest_back back original prev start in
      (
        λ t. turned back rows original (
            digest_back-injective (turn_onto back rows) (turn_onto back original)
              (sym of_rows ∙ (same_iff _ _).0 t ∙ of_original)),
        λ q. (same_iff _ _).1 (ap (λ rs. (chain_digest empty hash rs prev).0) q),
      )
