-- ===== src/Execution/Structures/Postponed.antt =====
-- How often `close_structure` of execution/structures.py can put an exit off, and what it closes.
use mathlib.Core.List.{Memᴰ}
use mathlib.Core.List.Memᴰ.{head, tail}
use ai_trading_system.Base.{
  ℕ, ◌+◌, ◌≤◌, ◌≡◌, ◌<◌, ◌⊎◌, All, is_some, refl, sym, subst, ap, ◌∙◌, ◌==◌, Bool, true, false, not,
  ◌&&◌, Option, none, some, List, [], ◌∷◌, arith, leb, ltb, length, Bool-cases, inl, inr,
}
use ai_trading_system.Base.Int.{ℤ, pos}
use ai_trading_system.Base.Dict.{Dict, lookup, lookup-insert}
use ai_trading_system.Broker.{Adapter}
use ai_trading_system.Execution.Executor.{Setup, World}
use ai_trading_system.Execution.Executor.Exit.{Prices, close}
use ai_trading_system.Execution.Executor.Closing.{IsSettled}
use ai_trading_system.Execution.Executor.Settled.{
  is_open_row, shut_row, close-keeps, close-IsSettled,
}
use ai_trading_system.Execution.Structures.{Leg, StructureGuard}
use ai_trading_system.Execution.Structures.Opening.{Desk}
use ai_trading_system.Execution.Structures.Closing.{
  Books, ExitRules, replace, retried, cross_all, exit_now, marked, at_marks, after_check,
  check_books, close_structure,
}

eq_self : (n : ℕ) → (n == n) ≡ true
eq_self n = ground arith

module _ {S : Type 0} (adapter : Adapter S) (setup : Setup) (quote : ℕ → S → Option ℕ × S) where
  -- the close was put off: nothing changed but the guard's count of retries
  abbrev pub IsPostponed : ExitRules → StructureGuard → Desk S → Option ℤ × Desk S → Type 0
  IsPostponed x g k r =
      (g.exit_retries + 1 ≤ x.max_exit_retries)
      × (r.1 ≡ record k { structures = replace (retried g) k.structures })

  abbrev pub AllSettled : List Leg → World S → Type 0
  AllSettled legs w = (leg : Leg) → Memᴰ leg legs → IsSettled adapter setup leg.position_id w

  cross_all-keeps :
      (pid : ℕ) (prices : ℕ → Prices S) (legs : List Leg) (w : World S) (r : ℤ)
      → IsSettled adapter setup pid w
      → IsSettled adapter setup pid (cross_all adapter setup quote prices legs w r).1
  unfolding cross_all
  cross_all-keeps pid prices [] w r h = h
  cross_all-keeps pid prices (leg ∷ legs) w r h =
      cross_all-keeps pid prices legs (close adapter setup (prices leg.token) leg.position_id w).1 _
        (close-keeps adapter setup pid leg.position_id (prices leg.token) w h)

  cross_all-AllSettled :
      (prices : ℕ → Prices S) (legs : List Leg) (w : World S) (r : ℤ)
      → AllSettled legs (cross_all adapter setup quote prices legs w r).1
  unfolding cross_all
  cross_all-AllSettled prices [] w r leg m = elim m [ ]
  cross_all-AllSettled prices (x ∷ legs) w r leg (head e) =
      cross_all-keeps leg.position_id prices legs
        (close adapter setup (prices x.token) x.position_id w).1 _
        (subst
          (λ y.
            IsSettled adapter setup y.position_id
              (close adapter setup (prices x.token) x.position_id w).1)
          (sym e) (close-IsSettled adapter setup (prices x.token) x.position_id w))
  cross_all-AllSettled prices (x ∷ legs) w r leg (tail m) =
      cross_all-AllSettled prices legs (close adapter setup (prices x.token) x.position_id w).1 _
        leg m

  -- no row of the legs is open
  abbrev pub AllShut : List Leg → World S → Type 0
  AllShut legs w = All (λ leg. is_open_row (lookup leg.position_id w.positions) ≡ false) legs

  shut_all : (legs : List Leg) (w : World S) → AllSettled legs w → AllShut legs w
  shut_all [] w h = tt
  shut_all (leg ∷ legs) w h = (
    shut_row (lookup leg.position_id w.positions) (h leg (head refl)),
    shut_all legs w (λ x m. h x (tail m)),
  )

  -- what a close did: it was postponed, or every leg is closed
  abbrev pub Closed : ExitRules → StructureGuard → Desk S → Option ℤ × Desk S → Type 0
  Closed x g k r =
      ((r.0 ≡ none) × IsPostponed x g k r) ⊎ ((is_some r.0 ≡ true) × AllShut g.legs r.1.world)

  exited :
      (x : ExitRules) (g : StructureGuard) (prices : ℕ → Prices S) (k k' : Desk S) (n : ℕ)
      → Closed x g k (exit_now adapter setup quote (record g { exit_retries = n }) prices k')
  unfolding exit_now
  exited x g prices k k' n = inr (
    refl,
    shut_all g.legs (cross_all adapter setup quote prices g.legs k'.world (pos 0)).1
        (cross_all-AllSettled prices g.legs k'.world (pos 0)),
  )

  checked :
      (x : ExitRules) (g : StructureGuard) (marks : ℕ → Option ℕ) (o : Option (Dict ℕ)) (k : Desk S)
      → Closed x g k (after_check adapter setup quote x g marks o k)
  unfolding after_check
  checked x g marks (some px) k =
      exited x g (marked adapter setup quote px marks) k k g.exit_retries
  checked x g marks none k = elim (Bool-cases (leb (g.exit_retries + 1) x.max_exit_retries)) [
    | inl b ↦ rw b (inl (refl, (ground (arith, b), refl)))
    | inr b ↦ rw b (
        exited x g (at_marks adapter setup quote marks) k
          (record k { structures = replace (retried g) k.structures }) (g.exit_retries + 1))
  ]

  pub close_structure-Closed :
      (x : ExitRules) (books : Books) (g : StructureGuard) (marks : ℕ → Option ℕ) (force : Bool)
      (k : Desk S)
      → Closed x g k (close_structure adapter setup quote x books g marks force k)
  unfolding close_structure
  close_structure-Closed x books g marks force k =
      elim (Bool-cases (not force && ltb 0 x.max_book_spread_pct)) [
        | inl b ↦ rw b (checked x g marks (check_books x books g) k)
        | inr b ↦ rw b (exited x g (at_marks adapter setup quote marks) k k g.exit_retries)
      ]

  -- One cycle: the guard that the manager has under the id, if any, is closed.
  abbrev pub cycle :
      ExitRules → (ℕ → Option ℕ) → Books → Option StructureGuard → Desk S → Option ℤ × Desk S
  cycle x marks b none k = (none, k)
  cycle x marks b (some g) k = close_structure adapter setup quote x b g marks false k

  abbrev pub next_try : (Desk S → Option ℤ × Desk S) → Option ℤ × Desk S → Option ℤ × Desk S
  next_try rest (some r, k) = (some r, k)
  next_try rest (none, k) = rest k

  -- a cycle after another, until the exit of the structure is no longer postponed
  unfoldable pub attempts : ExitRules → (ℕ → Option ℕ) → List Books → ℕ → Desk S → Option ℤ × Desk S
  unfolding close_structure
  attempts x marks [] c k = (none, k)
  attempts x marks (b ∷ bs) c k =
      next_try (attempts x marks bs c) (cycle x marks b (lookup c k.structures.by_corr) k)

  tried :
      (rest : Desk S → Option ℤ × Desk S) (x : ExitRules) (g : StructureGuard) (k : Desk S)
      (r : Option ℤ × Desk S)
      → Closed x g k r
      → ((k' : Desk S) → IsPostponed x g k (none, k') → is_some (rest k').0 ≡ true)
      → is_some (next_try rest r).0 ≡ true
  tried rest x g k (some r, k') c h = refl
  tried rest x g k (none, k') (inl (_, p)) h = h k' p
  tried rest x g k (none, k') (inr (e, _)) h = ground (arith, e)

  -- the manager keeps the count of a guard that it has
  stored :
      (g : StructureGuard) (k : Desk S)
      → lookup g.correlation_id k.structures.by_corr ≡ some g
      → lookup g.correlation_id (replace (retried g) k.structures).by_corr ≡ some (retried g)
  stored g k found =
      rw (found, replace)
        (lookup-insert g.correlation_id g.correlation_id (retried g) k.structures.by_corr
          ∙ rw (eq_self g.correlation_id) refl)

  -- However bad the books stay, the exit of a structure whose guard is registered goes through in one
  -- of the next cycles, each of which reads the guard from the manager, if these are more than the
  -- retries that it has left.
  pub attempts-is_some :
      (x : ExitRules) (marks : ℕ → Option ℕ) (bs : List Books) (g : StructureGuard) (k : Desk S)
      → lookup g.correlation_id k.structures.by_corr ≡ some g
      → 0 < length bs
      → x.max_exit_retries < g.exit_retries + length bs
      → is_some (attempts x marks bs g.correlation_id k).0 ≡ true
  unfolding attempts
  attempts-is_some x marks [] g k found h m = absurd (omega arith)
  attempts-is_some x marks (b ∷ bs) g k found h m =
      subst
        (λ o.
          is_some (next_try (attempts x marks bs g.correlation_id) (cycle x marks b o k)).0 ≡ true)
        (sym found)
        (tried (attempts x marks bs g.correlation_id) x g k
          (close_structure adapter setup quote x b g marks false k)
          (close_structure-Closed x b g marks false k)
          (λ k' (p, e).
            attempts-is_some x marks bs (retried g) k'
              (ap (λ (d : Desk S). lookup g.correlation_id d.structures.by_corr) e
                ∙ stored g k found)
              (omega (arith, p)) (omega (arith, p))))
