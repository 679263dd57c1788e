-- ===== src/Common/ModeTransition/Reasons.antt =====
-- What each validator of common/mode_transition.py has to say for a request to go through.
use text.Mathlib.TextEquality.{eq_iff}
use ai_trading_system.Base.{
  ◌≡◌, refl, ◌∙◌, ap, ◌↔◌, Bool, true, false, not, Option, none, some, List, [], ◌∷◌, ◌++◌, arith,
  String,
}
use ai_trading_system.Broker.{Call, returned, raised}
use ai_trading_system.Common.ModeTransition.{
  needs_confirm, PreLiveResult, failed_checks, Reason, Result, ok, err, Request, confirmed,
  kill_reasons, prelive_reasons, reconcile_reasons, live_reasons, reason_if, ◌>>=◌,
}

abbrev pub IsQuiet : Option (Call Bool) → Type 0
IsQuiet none = Unit
IsQuiet (some (returned active)) = active ≡ false
IsQuiet (some raised) = ⊥

abbrev pub IsPassed : Option (Call PreLiveResult) → Type 0
IsPassed none = ⊥
IsPassed (some (returned r)) = failed_checks r ≡ []
IsPassed (some raised) = ⊥

abbrev pub IsClean : Option (Call Bool) → Type 0
IsClean none = Unit
IsClean (some (returned clean)) = clean ≡ true
IsClean (some raised) = ⊥

-- Every safeguard on the way to live.
pub record IsCleared (r : Request) : Type 0 where
  pub token : r.confirm_token ≡ some "LIVE"
  pub quiet : IsQuiet r.kill_switch_active
  pub passed : IsPassed r.prelive_runner
  pub clean : IsClean r.reconcile_check

pub kill_iff : (o : Option (Call Bool)) → (kill_reasons o ≡ ok []) ↔ IsQuiet o
unfolding kill_reasons
kill_iff none = (λ _. tt, λ _. refl)
kill_iff (some (returned true)) = ground arith
kill_iff (some (returned false)) = ground arith
kill_iff (some raised) = ground arith

pub prelive_iff : (o : Option (Call PreLiveResult)) → (prelive_reasons o ≡ ok []) ↔ IsPassed o
unfolding prelive_reasons
prelive_iff none = ground arith
prelive_iff (some (returned r)) = ground arith
prelive_iff (some raised) = ground arith

pub reconcile_iff : (o : Option (Call Bool)) → (reconcile_reasons o ≡ ok []) ↔ IsClean o
unfolding reconcile_reasons
reconcile_iff none = (λ _. tt, λ _. refl)
reconcile_iff (some (returned true)) = ground arith
reconcile_iff (some (returned false)) = ground arith
reconcile_iff (some raised) = ground arith

pub confirmed_iff : (t : Option String) → (confirmed t ≡ true) ↔ (t ≡ some "LIVE")
unfolding confirmed
confirmed_iff none = ground arith
confirmed_iff (some t) = ground (arith, eq_iff t "LIVE")

pub append-empty {ℓ} : {A : Type ℓ} (xs ys : List A) → xs ++ ys ≡ [] → (xs ≡ []) × (ys ≡ [])
append-empty [] ys e = (refl, e)
append-empty (x ∷ xs) ys e = cc

-- a chain that succeeds has a first step that does, and goes on from its value
pub >>=-ok :
    {X Y : Type 0} (first : Result X) (next : X → Result Y) {y : Y}
    → first >>= next ≡ ok y
    → (x : X) × (next x ≡ ok y) × (first ≡ ok x)
>>=-ok (ok x) next done = (x, done, refl)
>>=-ok (err why) next done = cc

pub reason_if-empty : (b : Bool) (r : Reason) → (reason_if b r ≡ []) ↔ (b ≡ false)
reason_if-empty true r = ground arith
reason_if-empty false r = ground arith

pub ok-injective : {A : Type 0} {a b : A} → ok a ≡ ok b → a ≡ b
ok-injective e = cc

token_of :
    (r : Request)
    → reason_if (not (confirmed r.confirm_token)) needs_confirm ≡ []
    → r.confirm_token ≡ some "LIVE"
token_of r h =
    (confirmed_iff r.confirm_token).0
      (ground (arith, (reason_if-empty (not (confirmed r.confirm_token)) needs_confirm).0 h))

pub live_reasons-empty : (r : Request) → live_reasons r ≡ ok [] → IsCleared r
unfolding live_reasons
live_reasons-empty r h =
    let (kill, h₁, ek) = >>=-ok (kill_reasons r.kill_switch_active) _ h in
    let (pre, h₂, ep) = >>=-ok (prelive_reasons r.prelive_runner) _ h₁ in
    let (rec, h₃, er) = >>=-ok (reconcile_reasons r.reconcile_check) _ h₂ in
    let (token, rest) = append-empty _ _ (ok-injective h₃) in
    let (nokill, rest') = append-empty kill _ rest in
    let (nopre, norec) = append-empty pre rec rest' in
    record {
      token = token_of r token;
      quiet = (kill_iff _).0 (ek ∙ ap ok nokill);
      passed = (prelive_iff _).0 (ep ∙ ap ok nopre);
      clean = (reconcile_iff _).0 (er ∙ ap ok norec);
    }

pub live_reasons_of_IsCleared : (r : Request) → IsCleared r → live_reasons r ≡ ok []
unfolding live_reasons
live_reasons_of_IsCleared r v = rw (
  (kill_iff _).1 v.quiet,
  (prelive_iff _).1 v.passed,
  (reconcile_iff _).1 v.clean,
  (confirmed_iff _).1 v.token,
)
