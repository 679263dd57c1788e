-- ===== src/Execution/Reconcile/Agreement.antt =====
-- A reconciliation passes exactly if the book and the broker agree on every instrument.
use ai_trading_system.Base.{
  ℕ, ◌≡◌, ◌≢◌, ◌↔◌, refl, sym, ◌∙◌, subst, true, false, Option, List, [], ◌∷◌, arith, ◌==◌, ==_iff,
  Bool-cases, inl, inr,
}
use ai_trading_system.Base.Int.{ℤ, pos, eq_of_parts}
use ai_trading_system.Base.Dict.{Dict}
use ai_trading_system.Broker.{NetRow, Adapter}
use ai_trading_system.Common.State.{live}
use ai_trading_system.Execution.Guards.{member}
use ai_trading_system.Execution.Executor.{Decision, Setup, World}
use ai_trading_system.Execution.Executor.Entry.{execute}
use ai_trading_system.Execution.Executor.Safety.{IsRefused, blocked-IsRefused}
use ai_trading_system.Execution.Reconcile.Quantities.{Agree, Agreed, Agree-iff}
use ai_trading_system.Execution.Reconcile.{
  get, ours_from, theirs_from, keys, union, Mismatch, eq_ℤ, mismatches, reconcile, Severity, info,
  classify_severity, act, run_reconcile,
}

eq_ℤ-refl : (a : ℤ) → eq_ℤ a a ≡ true
eq_ℤ-refl a = ground arith

eq_ℤ-eq : (a b : ℤ) → eq_ℤ a b ≡ true → a ≡ b
eq_ℤ-eq a b h = eq_of_parts a b (ground (arith, h))

get-absent : (k : ℕ) (d : Dict ℤ) → member k (keys d) ≡ false → get k d ≡ pos 0
get-absent k [] h = refl
get-absent k ((j, v) ∷ d) h = ground (arith, get-absent k d)

member-union_left : (k : ℕ) (xs ys : List ℕ) → member k xs ≡ true → member k (union xs ys) ≡ true
member-union_left k [] ys h = ground (arith, h)
member-union_left k (x ∷ xs) ys h = ground (arith, member-union_left k xs ys)

member-union_right : (k : ℕ) (xs ys : List ℕ) → member k ys ≡ true → member k (union xs ys) ≡ true
member-union_right k [] ys h = h
member-union_right k (x ∷ xs) ys h = ground (arith, member-union_right k xs ys h)

agreed :
    (k : ℕ) (ks : List ℕ) (ours theirs : Dict ℤ)
    → mismatches ks ours theirs ≡ []
    → member k ks ≡ true
    → get k ours ≡ get k theirs
unfolding mismatches
agreed k [] ours theirs e m = ground (arith, m)
agreed k (j ∷ ks) ours theirs e m = elim (Bool-cases (eq_ℤ (get j ours) (get j theirs))) [
  | inr p ↦ ground (arith, rw p at e)
  | inl p ↦ elim (Bool-cases (j == k)) [
    | inl same ↦
        subst (λ i. get i ours ≡ get i theirs) ((==_iff j k).0 same)
          (eq_ℤ-eq (get j ours) (get j theirs) p)
    | inr other ↦ agreed k ks ours theirs (rw p at e) (rw other at m)
  ]
]

none_mismatched :
    (ks : List ℕ) (ours theirs : Dict ℤ) → Agree ours theirs → mismatches ks ours theirs ≡ []
unfolding mismatches
none_mismatched [] ours theirs h = refl
none_mismatched (k ∷ ks) ours theirs h =
    rw (subst (λ x. eq_ℤ (get k ours) x ≡ true) (h k) (eq_ℤ-refl (get k ours)))
      (none_mismatched ks ours theirs h)

agreed_everywhere :
    (ours theirs : Dict ℤ)
    → mismatches (union (keys ours) (keys theirs)) ours theirs ≡ []
    → Agree ours theirs
agreed_everywhere ours theirs e k =
    let all = union (keys ours) (keys theirs) in
    elim (Bool-cases (member k (keys ours))) [
      | inl p ↦ agreed k all ours theirs e (member-union_left k (keys ours) (keys theirs) p)
      | inr p ↦ elim (Bool-cases (member k (keys theirs))) [
        | inl q ↦ agreed k all ours theirs e (member-union_right k (keys ours) (keys theirs) q)
        | inr q ↦ get-absent k ours p ∙ sym (get-absent k theirs q)
      ]
    ]

mismatches_iff :
    (ours theirs : Dict ℤ)
    → (mismatches (union (keys ours) (keys theirs)) ours theirs ≡ []) ↔ Agree ours theirs
mismatches_iff ours theirs = (agreed_everywhere ours theirs, none_mismatched _ ours theirs)

info_iff : (ms : List Mismatch) → (classify_severity ms ≡ info) ↔ (ms ≡ [])
unfolding classify_severity
info_iff [] = (λ _. refl, λ _. refl)
info_iff (m ∷ ms) = ground arith

blocked-act :
    {S : Type 0} (s : Severity) (w : World S) → s ≢ info → (act s w).config.block_new_entries ≡ true
unfolding act
blocked-act s w h = ground (arith, h)

-- A reconciliation answers `info` exactly if for every instrument what the open live positions have
-- bought less what they have sold is the broker's net quantity, its long rows less its short ones.
pub run_reconcile_iff :
    {S : Type 0} (broker_net : List NetRow) (w : World S)
    → ((run_reconcile broker_net w).0 ≡ info) ↔ Agreed live w.positions broker_net
unfolding run_reconcile reconcile
run_reconcile_iff broker_net w =
    let ours = ours_from [] live w.positions in
    let theirs = theirs_from [] broker_net in
    let (a, b) = info_iff (mismatches (union (keys ours) (keys theirs)) ours theirs) in
    let (c, d) = mismatches_iff ours theirs in
    let (e, f) = Agree-iff live w.positions broker_net in (λ h. e (c (a h)), λ h. b (d (f h)))

-- After any other answer every entry is rejected and leaves the broker and the book as they are.
pub execute-reconciled :
    {S : Type 0} (adapter : Adapter S) (setup : Setup) (quote : S → Option ℕ × S) (force : Option ℕ)
    (d : Decision) (broker_net : List NetRow) (w : World S)
    → (run_reconcile broker_net w).0 ≢ info
    → let w' = (run_reconcile broker_net w).1 in
      IsRefused w' (execute adapter setup quote force d w')
unfolding run_reconcile
execute-reconciled adapter setup quote force d broker_net w h =
    blocked-IsRefused adapter setup quote force d _
      (blocked-act (classify_severity (reconcile broker_net live w.positions)) w h)
