-- ===== src/Execution/Guards/Manager.antt =====
-- The manager of execution/guards.py: its index by token finds every armed guard.
use ai_trading_system.Base.{
  ℕ, ◌≡◌, refl, sym, ◌∙◌, ◌≢◌, Bool, true, false, some, List, [], ◌∷◌, arith, ◌==◌, if◌then◌else◌,
  subst, ==_iff,
}
use mathlib.Core.Option.{some-injective}
use ai_trading_system.Base.Dict.{Dict, lookup, insert, lookup-insert}
use ai_trading_system.Execution.Guards.{Guard, GuardManager, member, add, discard, for_token, arm}

member-add : (a b : ℕ) (xs : List ℕ) → member b xs ≡ true → member b (add a xs) ≡ true
member-add a b xs h = ground arith

member-add_self : (a : ℕ) (xs : List ℕ) → member a (add a xs) ≡ true
member-add_self a xs = ground arith

member-discard : (a b : ℕ) (xs : List ℕ) → a ≢ b → member b (discard a xs) ≡ member b xs
member-discard a b [] ne = refl
member-discard a b (x ∷ xs) ne = ground (arith, member-discard a b xs ne)

-- Every armed guard is found under its token.
abbrev pub IsIndexed : GuardManager → Type 0
IsIndexed m =
    (pid : ℕ) (g : Guard)
    → lookup pid m.guards ≡ some g
    → member pid (for_token g.instrument_token m) ≡ true

for_token-insert :
    (token t : ℕ) (ids : List ℕ) (m : GuardManager) (gs : Dict Guard)
    → for_token t (record { guards = gs; by_token = insert token ids m.by_token })
      ≡ (if token == t then ids else for_token t m)
unfolding for_token
for_token-insert token t ids m gs = ground (arith, lookup-insert token t ids m.by_token)

-- an id that was found under its token still is, whichever token another id was added to
member-added :
    (b : Bool) (t t' p pid : ℕ) (m : GuardManager)
    → (b ≡ true → t ≡ t')
    → member pid (for_token t' m) ≡ true
    → member pid (if b then add p (for_token t m) else for_token t' m) ≡ true
member-added true t t' p pid m same h =
    member-add p pid (for_token t m)
      (subst (λ k. member pid (for_token k m) ≡ true) (sym (same refl)) h)
member-added false t t' p pid m same h = h

-- the added id itself
member-added_self :
    (b : Bool) (t p : ℕ) (m : GuardManager)
    → b ≡ true
    → member p (if b then add p (for_token t m) else for_token t m) ≡ true
member-added_self true t p m h = member-add_self p (for_token t m)
member-added_self false t p m h = ground arith

-- what the guards of a manager look like after arming, by the test of the dict
arm_at :
    (b : Bool) (g g' : Guard) (m : GuardManager) (pid : ℕ)
    → (b ≡ true → g.position_id ≡ pid)
    → IsIndexed m
    → (if b then some g else lookup pid m.guards) ≡ some g'
    → member pid (
        if g.instrument_token == g'.instrument_token
        then add g.position_id (for_token g.instrument_token m)
        else for_token g'.instrument_token m)
      ≡ true
arm_at true g g' m pid same h found =
    subst
      (λ k.
        member k (
          if g.instrument_token == g'.instrument_token
          then add g.position_id (for_token g.instrument_token m)
          else for_token g'.instrument_token m)
        ≡ true)
      (same refl)
      (subst
        (λ k.
          member g.position_id (
            if g.instrument_token == k.instrument_token
            then add g.position_id (for_token g.instrument_token m)
            else for_token k.instrument_token m)
          ≡ true)
        (some-injective g g' found)
        (member-added_self (g.instrument_token == g.instrument_token) g.instrument_token
          g.position_id m ((==_iff g.instrument_token g.instrument_token).1 refl)))
arm_at false g g' m pid same h found =
    member-added (g.instrument_token == g'.instrument_token) g.instrument_token g'.instrument_token
      g.position_id pid m (==_iff g.instrument_token g'.instrument_token).0 (h pid g' found)

-- Arming keeps the index complete, also where it replaces a guard.
pub arm-IsIndexed : (g : Guard) (m : GuardManager) → IsIndexed m → IsIndexed (arm g m)
unfolding arm
arm-IsIndexed g m h pid g' found =
    subst (λ ids. member pid ids ≡ true)
      (sym (
        for_token-insert g.instrument_token g'.instrument_token
          (add g.position_id (for_token g.instrument_token m)) m (insert g.position_id g m.guards)))
      (arm_at (g.position_id == pid) g g' m pid (==_iff g.position_id pid).0 h
        (sym (lookup-insert g.position_id pid g m.guards) ∙ found))
