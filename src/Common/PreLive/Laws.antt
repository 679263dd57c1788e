-- ===== src/Common/PreLive/Laws.antt =====
-- The verdict of common/prelive.py is fail-closed.
use ai_trading_system.Base.{ℕ, ◌≡◌, refl, ◌↔◌, true, false, not, none, some, List, [], ◌∷◌, arith}
use ai_trading_system.Broker.{Call, returned, raised}
use ai_trading_system.Common.PreLive.{
  pass, CheckResult, Raw, result, flag, tuple, unrecognized, run_check, results, is_ok, all_ok,
  names_where, run_all,
}

-- What a probe has to hand back for its check to count: no exception, no empty tuple, nothing
-- unrecognized, and a status that is `pass` or `warn`.
abbrev pub Passes : Call Raw → Type 0
Passes raised = ⊥
Passes (returned (result cr)) = is_ok cr.status ≡ true
Passes (returned (flag b)) = b ≡ true
Passes (returned (tuple none)) = ⊥
Passes (returned (tuple (some s))) = is_ok s ≡ true
Passes (returned unrecognized) = ⊥

run_check-Passes : (n : ℕ) (fn : Call Raw) → (is_ok (run_check n fn).status ≡ true) ↔ Passes fn
unfolding run_check
run_check-Passes n raised = ground arith
run_check-Passes n (returned (result cr)) = ground arith
run_check-Passes n (returned (flag true)) = ground arith
run_check-Passes n (returned (flag false)) = ground arith
run_check-Passes n (returned (tuple none)) = ground arith
run_check-Passes n (returned (tuple (some s))) = ground arith
run_check-Passes n (returned unrecognized) = ground arith

abbrev pub AllPass : List (ℕ × Call Raw) → Type 0
AllPass [] = Unit
AllPass ((n, fn) ∷ checks) = Passes fn × AllPass checks

all_ok-AllPass : (checks : List (ℕ × Call Raw)) → (all_ok (results checks) ≡ true) ↔ AllPass checks
unfolding all_ok results
all_ok-AllPass [] = (λ _. tt, λ _. refl)
all_ok-AllPass ((n, fn) ∷ checks) =
    let (a, b) = run_check-Passes n fn in
    let (c, d) = all_ok-AllPass checks in
    (λ e. (a (ground arith), c (ground arith)), λ p. ground (arith, b p.0, d p.1))

-- The overall verdict is `pass` exactly if every probe returned a usable value that is no failure:
-- one probe that raises, or one failing status, is enough for `fail`.
pub overall-pass_iff :
    (checks : List (ℕ × Call Raw)) → ((run_all checks).overall ≡ pass) ↔ AllPass checks
unfolding run_all
overall-pass_iff checks =
    let (a, b) = all_ok-AllPass checks in (λ e. a (ground arith), λ p. ground (arith, b p))

pub names_where-not_ok :
    (cs : List CheckResult) → (names_where (λ s. not (is_ok s)) cs ≡ []) ↔ (all_ok cs ≡ true)
unfolding names_where all_ok
names_where-not_ok [] = (λ _. refl, λ _. refl)
names_where-not_ok (c ∷ cs) = let (a, b) = names_where-not_ok cs in ground (arith, a, b)
