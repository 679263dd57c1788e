-- ===== src/Common/ModeTransition/Gate.antt =====
-- Going live is fail-closed: the transition of common/mode_transition.py as a whole.
use ai_trading_system.Base.{
  ℕ, ◌≡◌, refl, sym, ◌∙◌, ap, ◌≢◌, ◌↔◌, ◌⊎◌, inl, inr, Bool, true, false, Option, none, some, List,
  [], ◌∷◌, arith, Bool-cases, subst,
}
use ai_trading_system.Broker.{Call, returned, raised}
use ai_trading_system.Common.State.{Mode, paper, live, other_mode, ConfigState}
use ai_trading_system.Common.RuntimeMode.{RuntimeModeState, load_runtime_mode}
use ai_trading_system.Common.PreLive.{Raw, results, run_all, pass}
use ai_trading_system.Common.PreLive.Laws.{names_where-not_ok}
use ai_trading_system.Common.ModeTransition.{
  service_run, failed_checks, as_named, Reason, Result, ok, err, Request, live_reasons, unflattened,
  paper_reasons, decide, reasons, apply, ◌>>=◌, transition, if_known, request_transition, same_mode,
  unknown_mode,
}
use ai_trading_system.Common.ModeTransition.Reasons.{
  >>=-ok, IsCleared, ok-injective, live_reasons-empty, live_reasons_of_IsCleared,
}

-- the part of the transition after the no-op test
abbrev validated : Request → ConfigState → Result (RuntimeModeState × ConfigState)
validated r c = reasons r >>= λ rs. decide rs >>= λ _. ok (apply r c)

decide-ok : (rs : List Reason) {u : Unit {0}} → decide rs ≡ ok u → rs ≡ []
unfolding decide
decide-ok [] e = refl
decide-ok (r ∷ rs) e = cc

validated_iff :
    (r : Request) (c : ConfigState) → (validated r c ≡ ok (apply r c)) ↔ (reasons r ≡ ok [])
unfolding decide
validated_iff r c = (
  λ e.
      let (rs, h, er) = >>=-ok (reasons r) _ e in
      let (u, _, ed) = >>=-ok (decide rs) _ h in er ∙ ap ok (decide-ok rs ed),
  λ e. rw e,
)

request-live :
    (r : Request) (c : ConfigState)
    → r.target_mode ≡ live
    → (load_runtime_mode c).mode ≡ paper
    → request_transition r c ≡ validated r c
unfolding request_transition
request-live r c target now = rw (target, now)

request-paper :
    (r : Request) (c : ConfigState)
    → r.target_mode ≡ paper
    → (load_runtime_mode c).mode ≡ live
    → request_transition r c ≡ validated r c
unfolding request_transition
request-paper r c target now = rw (target, now)

reasons-live : (r : Request) → r.target_mode ≡ live → reasons r ≡ live_reasons r
unfolding reasons
reasons-live r target = rw target

reasons-paper : (r : Request) → r.target_mode ≡ paper → reasons r ≡ paper_reasons r
unfolding reasons
reasons-paper r target = rw target

-- With paper in force, a request to go live goes through exactly if its token is "LIVE", the
-- kill switch, where a check of it is given, is known to be off, the pre-live checks ran and none
-- failed, and the broker reconciliation, where it is asked for, is clean.
pub go_live_iff :
    (r : Request) (c : ConfigState)
    → r.target_mode ≡ live
    → (load_runtime_mode c).mode ≡ paper
    → (request_transition r c ≡ ok (apply r c)) ↔ IsCleared r
go_live_iff r c target now = rw (request-live r c target now) (
  λ e. live_reasons-empty r (sym (reasons-live r target) ∙ (validated_iff r c).0 e),
  λ v. (validated_iff r c).1 (reasons-live r target ∙ live_reasons_of_IsCleared r v),
)

abbrev pub IsFlat : Option (Call ℕ) → Type 0
IsFlat none = Unit
IsFlat (some (returned n)) = n ≡ 0
IsFlat (some raised) = ⊥

unflattened_iff :
    (o : Option (Call ℕ)) (allow : Bool)
    → (unflattened o allow ≡ ok []) ↔ (IsFlat o ⊎ (allow ≡ true))
unfolding unflattened
unflattened_iff none allow = (λ _. inl tt, λ _. refl)
unflattened_iff (some c) true = (λ _. inr refl, λ _. refl)
unflattened_iff (some (returned n)) false = ground arith
unflattened_iff (some raised) false = ground arith

paper_reasons_iff :
    (r : Request)
    → (paper_reasons r ≡ ok [])
      ↔ (IsFlat r.open_live_positions ⊎ (r.allow_unflattened_downgrade ≡ true))
unfolding paper_reasons
paper_reasons_iff r = unflattened_iff r.open_live_positions r.allow_unflattened_downgrade

-- With live in force, a request to go back to paper goes through exactly if the count of open live
-- positions is 0, is not asked for, or is overridden.
pub go_paper_iff :
    (r : Request) (c : ConfigState)
    → r.target_mode ≡ paper
    → (load_runtime_mode c).mode ≡ live
    → (request_transition r c ≡ ok (apply r c))
      ↔ (IsFlat r.open_live_positions ⊎ (r.allow_unflattened_downgrade ≡ true))
go_paper_iff r c target now =
    let (a, b) = paper_reasons_iff r in
    rw (request-paper r c target now) (
      λ e. a (sym (reasons-paper r target) ∙ (validated_iff r c).0 e),
      λ v. (validated_iff r c).1 (reasons-paper r target ∙ b v),
    )

apply-lands :
    (r : Request) (c : ConfigState)
    → (r.target_mode ≡ paper) ⊎ (r.target_mode ≡ live)
    → (load_runtime_mode (apply r c).1 ≡ (apply r c).0) × ((apply r c).0.mode ≡ r.target_mode)
unfolding apply
apply-lands r c (inl e) = (refl, rw e)
apply-lands r c (inr e) = (refl, rw e)

same_mode-eq : (m n : Mode) → same_mode m n ≡ true → m ≡ n
same_mode-eq m n e = ground arith

-- what a returned pair of state and configuration satisfies
abbrev Lands : Mode → RuntimeModeState × ConfigState → Type 0
Lands m p = (load_runtime_mode p.1 ≡ p.0) × (p.0.mode ≡ m)

transition-Lands :
    (r : Request) (c : ConfigState) {p : RuntimeModeState × ConfigState}
    → (r.target_mode ≡ paper) ⊎ (r.target_mode ≡ live)
    → transition r c ≡ ok p
    → Lands r.target_mode p
unfolding transition
transition-Lands r c {p} known e =
    elim (Bool-cases (same_mode (load_runtime_mode c).mode r.target_mode)) [
      | inl same ↦
          subst (Lands r.target_mode) (ok-injective (rw same at e)) (refl, same_mode-eq _ _ same)
      | inr other ↦
          let (rs, h, _) = >>=-ok (reasons r) _ (rw other at e) in
          let (_, h', _) = >>=-ok (decide rs) _ h in
          subst (Lands r.target_mode) (ok-injective h') (apply-lands r c known)
    ]

request-transition :
    (r : Request) (c : ConfigState) (m : Mode)
    → r.target_mode ≡ m
    → m ≢ other_mode
    → request_transition r c ≡ transition r c
unfolding request_transition
request-transition r c paper t h = ap (λ m. if_known m (transition r c)) t
request-transition r c live t h = ap (λ m. if_known m (transition r c)) t
request-transition r c other_mode t h = absurd (h refl)

request-unknown :
    (r : Request) (c : ConfigState)
    → r.target_mode ≡ other_mode
    → request_transition r c ≡ err unknown_mode
unfolding request_transition
request-unknown r c t = ap (λ m. if_known m (transition r c)) t

-- After a success the mode in force is the requested one, and every reader sees the state that the
-- request returned.
pub request-lands :
    (r : Request) (c : ConfigState) {p : RuntimeModeState × ConfigState}
    → request_transition r c ≡ ok p
    → (load_runtime_mode p.1 ≡ p.0) × (p.0.mode ≡ r.target_mode)
request-lands r c {p} e = by_target r.target_mode refl
  where
    by_target : (m : Mode) → r.target_mode ≡ m → Lands r.target_mode p
    by_target paper t =
        transition-Lands r c (inl t) (sym (request-transition r c paper t (λ q. cc)) ∙ e)
    by_target live t =
        transition-Lands r c (inr t) (sym (request-transition r c live t (λ q. cc)) ∙ e)
    by_target other_mode t = absurd (cc (request-unknown r c t))

as_named-empty : (ns : List ℕ) → as_named ns ≡ [] → ns ≡ []
as_named-empty [] e = refl
as_named-empty (n ∷ ns) e = cc

-- The service's run is accepted by the gate exactly if its overall verdict is `pass`.
pub failed_checks-run_all :
    (checks : List (ℕ × Call Raw))
    → (failed_checks (service_run (run_all checks).checks) ≡ []) ↔ ((run_all checks).overall ≡ pass)
unfolding failed_checks run_all
failed_checks-run_all checks =
    let (a, b) = names_where-not_ok (results checks) in
    (λ e. ground (arith, a (as_named-empty _ e)), λ e. rw (b (ground arith)))
