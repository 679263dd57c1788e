-- ===== src/Common/ModeTransition.antt =====
-- common/mode_transition.py: the validated switch between paper and live. The validators are
-- arguments, as in the source: absent, or what the call returns or that it raises.
pub mod Reasons
pub mod Gate
use ai_trading_system.Base.{
  ℕ, ◌≡◌, Bool, true, false, not, ◌&&◌, Option, none, some, List, [], ◌∷◌, ◌++◌, ltb, if◌then◌else◌,
  String,
}
use text.Mathlib.Text.{◌==◌ as str_eq}
use ai_trading_system.Broker.{Call, returned, raised}
use ai_trading_system.Common.State.{Mode, paper, live, other_mode, ConfigState}
use ai_trading_system.Common.RuntimeMode.{
  RuntimeModeState, derive_for_mode, load_runtime_mode, write_runtime_mode,
}
use ai_trading_system.Common.PreLive.{CheckResult, is_ok, names_where}

pub data FailedCheck : Type 0 where
  named : ℕ → FailedCheck
  returned_nothing not_ok : FailedCheck

-- The shapes that a pre-live runner may return: None, the legacy map, the service's run, an object
-- with `failed()`, an object with `ok`.
pub data PreLiveResult : Type 0 where
  nothing : PreLiveResult
  legacy_map : List (ℕ × Bool) → PreLiveResult
  service_run : List CheckResult → PreLiveResult
  with_failed : List ℕ → PreLiveResult
  with_ok : Bool → PreLiveResult

abbrev pub as_named : List ℕ → List FailedCheck
as_named [] = []
as_named (n ∷ ns) = named n ∷ as_named ns

unfoldable pub falsy : List (ℕ × Bool) → List ℕ
falsy [] = []
falsy ((k, v) ∷ items) = let rest = falsy items in if v then rest else k ∷ rest

-- `_failed_checks`
unfoldable pub failed_checks : PreLiveResult → List FailedCheck
unfolding falsy names_where
failed_checks nothing = returned_nothing ∷ []
failed_checks (legacy_map items) = as_named (falsy items)
failed_checks (service_run cs) = as_named (names_where (λ s. not (is_ok s)) cs)
failed_checks (with_failed ns) = as_named ns
failed_checks (with_ok b) = if b then [] else not_ok ∷ []

pub data Reason : Type 0 where
  needs_confirm kill_switch_on prelive_missing reconcile_dirty open_positions : Reason
  prelive_failed : List FailedCheck → Reason

pub data Error : Type 0 where
  unknown_mode : Error
  rejected : List Reason → Error
  validator_raised : Error

pub data Result (A : Type 0) : Type 0 where
  ok : A → Result A
  err : Error → Result A

infixl 5 ◌>>=◌
abbrev pub ◌>>=◌ : {A B : Type 0} → Result A → (A → Result B) → Result B
ok a >>= f = f a
err e >>= f = err e

-- awaiting a validator
abbrev pub await : {A : Type 0} → Call A → Result A
await (returned a) = ok a
await raised = err validator_raised

abbrev pub reason_if : Bool → Reason → List Reason
reason_if true r = r ∷ []
reason_if false r = []

pub record Request : Type 0 where
  pub target_mode : Mode
  pub confirm_token : Option String
  pub prelive_runner : Option (Call PreLiveResult)
  pub kill_switch_active : Option (Call Bool)
  pub reconcile_check : Option (Call Bool)
  pub open_live_positions : Option (Call ℕ)
  pub allow_unflattened_downgrade : Bool
  pub broker_account_id : Option ℕ

unfoldable pub confirmed : Option String → Bool
confirmed none = false
confirmed (some t) = str_eq t "LIVE"

unfoldable pub kill_reasons : Option (Call Bool) → Result (List Reason)
kill_reasons none = ok []
kill_reasons (some c) = do active ← await c; ok (reason_if active kill_switch_on)

unfoldable pub prelive_reasons : Option (Call PreLiveResult) → Result (List Reason)
unfolding failed_checks
prelive_reasons none = ok (prelive_missing ∷ [])
prelive_reasons (some c) = do
  r ← await c
  ok (elim (failed_checks r) [ [] ↦ [] | f ∷ fs ↦ prelive_failed (f ∷ fs) ∷ [] ])

unfoldable pub reconcile_reasons : Option (Call Bool) → Result (List Reason)
reconcile_reasons none = ok []
reconcile_reasons (some c) = do clean ← await c; ok (reason_if (not clean) reconcile_dirty)

-- the reasons against going live, in the order in which they are collected
unfoldable pub live_reasons : Request → Result (List Reason)
unfolding confirmed kill_reasons prelive_reasons reconcile_reasons
live_reasons r = do
  kill ← kill_reasons r.kill_switch_active
  prelive ← prelive_reasons r.prelive_runner
  reconcile ← reconcile_reasons r.reconcile_check
  ok (reason_if (not (confirmed r.confirm_token)) needs_confirm ++ (kill ++ (prelive ++ reconcile)))

-- `n > 0` open positions; the count is not asked for when the operator overrides it
unfoldable pub unflattened : Option (Call ℕ) → Bool → Result (List Reason)
unflattened none allow = ok []
unflattened (some c) true = ok []
unflattened (some c) false = do n ← await c; ok (reason_if (ltb 0 n) open_positions)

-- the reasons against going back to paper
unfoldable pub paper_reasons : Request → Result (List Reason)
unfolding unflattened
paper_reasons r = unflattened r.open_live_positions r.allow_unflattened_downgrade

unfoldable pub decide : List Reason → Result (Unit {0})
decide [] = ok tt
decide (r ∷ rs) = err (rejected (r ∷ rs))

abbrev pub same_mode : Mode → Mode → Bool
same_mode paper paper = true
same_mode live live = true
same_mode other_mode other_mode = true
same_mode _ _ = false

unfoldable pub reasons : Request → Result (List Reason)
unfolding live_reasons paper_reasons
reasons r = elim r.target_mode [ live ↦ live_reasons r | _ ↦ paper_reasons r ]

-- the write at the end
unfoldable pub apply : Request → ConfigState → RuntimeModeState × ConfigState
unfolding write_runtime_mode derive_for_mode
apply r c = write_runtime_mode (derive_for_mode r.target_mode r.broker_account_id 0) c

-- `request_transition`; an error leaves the configuration as it was
unfoldable pub transition : Request → ConfigState → Result (RuntimeModeState × ConfigState)
unfolding reasons decide apply
transition r c =
    if same_mode (load_runtime_mode c).mode r.target_mode
    then ok (load_runtime_mode c, c)
    else (do rs ← reasons r; _ ← decide rs; ok (apply r c))

-- the test against the two known modes
unfoldable pub if_known :
    Mode → Result (RuntimeModeState × ConfigState) → Result (RuntimeModeState × ConfigState)
if_known other_mode rest = err unknown_mode
if_known _ rest = rest

unfoldable pub request_transition : Request → ConfigState → Result (RuntimeModeState × ConfigState)
unfolding transition if_known
request_transition r c = if_known r.target_mode (transition r c)
