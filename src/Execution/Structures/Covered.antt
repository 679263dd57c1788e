-- ===== src/Execution/Structures/Covered.antt =====
-- No open leg is left without its structure's guard after a restart.
use mathlib.Core.List.{Memᴰ}
use mathlib.Core.List.Memᴰ.{head, tail}
use mathlib.Core.Option.{some-injective}
use ai_trading_system.Base.{
  ℕ, ◌≡◌, refl, sym, ap, ◌∙◌, subst, true, false, Option, none, some, List, [], ◌∷◌, ◌++◌, ◌==◌,
  arith, map, or_default, Bool-cases, inl, inr, Option-cases,
}
use ai_trading_system.Base.Dict.{
  Dict, lookup, contains, insert, lookup-insert, Distinct, insert-Distinct,
}
use ai_trading_system.Execution.Executor.{Position}
use ai_trading_system.Execution.Structures.{Leg, StructureManager, StructureGuard, register}
use ai_trading_system.Execution.Structures.Opening.{Meta, LegRow, Desk}
use ai_trading_system.Execution.Structures.Rebuild.{
  OpenLeg, leg_of, open_leg, is_open_leg, joined, open_legs, append_to, group, first_meta,
  rebuilt_guard, ids, rebuild_group, rebuild_groups, rebuild_structures,
}

mem-append_left {ℓ} :
    {A : Type ℓ} {a : A} {xs : List A} (ys : List A) → Memᴰ a xs → Memᴰ a (xs ++ ys)
mem-append_left ys (head e) = head e
mem-append_left ys (tail m) = tail (mem-append_left ys m)

mem-append_right {ℓ} :
    {A : Type ℓ} {a : A} (xs : List A) {ys : List A} → Memᴰ a ys → Memᴰ a (xs ++ ys)
mem-append_right [] m = m
mem-append_right (x ∷ xs) m = tail (mem-append_right xs m)

mem-ids : {r : OpenLeg} {rs : List OpenLeg} → Memᴰ r rs → Memᴰ r.id (ids rs)
mem-ids (head e) = head (ap (λ x. x.id) e)
mem-ids (tail m) = tail (mem-ids m)

mem-open_legs :
    (rows : Dict LegRow) (pid : ℕ) (p : Position) (r : LegRow) (ps : Dict Position)
    → Memᴰ (pid, p) ps
    → lookup pid rows ≡ some r
    → is_open_leg p ≡ true
    → Memᴰ (open_leg pid p r) (open_legs rows ps)
unfolding open_legs
mem-open_legs rows pid p r [] m h o = elim m [ ]
mem-open_legs rows pid p r ((j, q) ∷ ps) (head e) h o =
    subst (λ x. Memᴰ (open_leg pid p r) (joined x.0 x.1 (lookup x.0 rows) (open_legs rows ps))) e
      (rw (h, joined) (rw o (head refl)))
mem-open_legs rows pid p r ((j, q) ∷ ps) (tail m) h o =
    kept (lookup j rows) (mem-open_legs rows pid p r ps m h o)
  where
    kept :
        (x : Option LegRow)
        → Memᴰ (open_leg pid p r) (open_legs rows ps)
        → Memᴰ (open_leg pid p r) (joined j q x (open_legs rows ps))
    kept none g = g
    kept (some y) g = elim (Bool-cases (is_open_leg q)) [ inl b ↦ rw b (tail g) | inr b ↦ rw b g ]

-- the group of an id holds a row
abbrev Grouped : OpenLeg → Dict (List OpenLeg) → Type 0
Grouped r d = (rs : List OpenLeg) × (lookup r.correlation_id d ≡ some rs) × Memᴰ r rs

insert-Grouped :
    (r x : OpenLeg) (d : Dict (List OpenLeg))
    → Grouped r d
    → Grouped r (insert x.correlation_id (append_to x (lookup x.correlation_id d)) d)
insert-Grouped r x d (rs, e, m) = elim (Bool-cases (x.correlation_id == r.correlation_id)) [
  | inl b ↦ (
    rs ++ (x ∷ []),
    lookup-insert x.correlation_id r.correlation_id _ d
        ∙ rw b (ap (λ o. some (append_to x o)) (same b ∙ e)),
    mem-append_left (x ∷ []) m,
  )
  | inr b ↦ (rs, lookup-insert x.correlation_id r.correlation_id _ d ∙ rw b e, m)
]
  where
    same :
        (x.correlation_id == r.correlation_id) ≡ true
        → lookup x.correlation_id d ≡ lookup r.correlation_id d
    same b =
        let e' : x.correlation_id ≡ r.correlation_id = ground (arith, b) in ap (λ c. lookup c d) e'

appended : (r : OpenLeg) (o : Option (List OpenLeg)) → Memᴰ r (append_to r o)
appended r none = head refl
appended r (some rs) = mem-append_right rs (head refl)

eq_self : (n : ℕ) → (n == n) ≡ true
eq_self n = ground arith

inserted :
    (r : OpenLeg) (d : Dict (List OpenLeg))
    → Grouped r (insert r.correlation_id (append_to r (lookup r.correlation_id d)) d)
inserted r d = (
  append_to r (lookup r.correlation_id d),
  lookup-insert r.correlation_id r.correlation_id _ d ∙ rw (eq_self r.correlation_id) refl,
  appended r (lookup r.correlation_id d),
)

group-keeps :
    (r : OpenLeg) (xs : List OpenLeg) (d : Dict (List OpenLeg))
    → Grouped r d
    → Grouped r (group xs d)
unfolding group
group-keeps r [] d g = g
group-keeps r (x ∷ xs) d g = group-keeps r xs _ (insert-Grouped r x d g)

group-Grouped :
    (r : OpenLeg) (xs : List OpenLeg) (d : Dict (List OpenLeg)) → Memᴰ r xs → Grouped r (group xs d)
unfolding group
group-Grouped r [] d m = elim m [ ]
group-Grouped r (x ∷ xs) d (head e) = group-keeps r xs _ (
    subst (λ y. Grouped r (insert y.correlation_id (append_to y (lookup y.correlation_id d)) d)) e
      (inserted r d))
group-Grouped r (x ∷ xs) d (tail m) = group-Grouped r xs _ m

meta_found :
    (r : OpenLeg) (rs : List OpenLeg) (m : Meta)
    → Memᴰ r rs
    → r.structure_meta ≡ some m
    → (m' : Meta) × (first_meta rs ≡ some m')
meta_found r [] m h e = elim h [ ]
meta_found r (x ∷ rs) m (head p) e =
    (m, rw (sym (ap (λ y. y.structure_meta) p) ∙ e, first_meta) refl)
meta_found r (x ∷ rs) m (tail h) e = elim (Option-cases x.structure_meta) [
  | inl n ↦ let (m', f) = meta_found r rs m h e in (m', rw (n, first_meta) f)
  | inr (m', s) ↦ (m', rw (s, first_meta) refl)
]

-- The row is a leg of the guard, with its side, quantity, entry and instrument.
abbrev pub IsLeg : ℕ → Position → StructureGuard → Type 0
IsLeg pid p g =
    (leg : Leg) × Memᴰ leg g.legs
    × (leg.position_id ≡ pid)
    × (leg.side ≡ p.side)
    × (leg.qty ≡ p.quantity)
    × (leg.entry ≡ p.average_price)
    × (leg.token ≡ or_default p.instrument_token 0)

-- The id is covered, and the guard that is registered for its structure has it as a leg.
abbrev pub IsManaged : ℕ → Position → ℕ → List ℕ × StructureManager → Type 0
IsManaged pid p c st =
    Memᴰ pid st.0 × ((g : StructureGuard) × (lookup c st.1.by_corr ≡ some g) × IsLeg pid p g)

mem-legs : {r : OpenLeg} {rs : List OpenLeg} → Memᴰ r rs → Memᴰ (leg_of r) (map leg_of rs)
mem-legs (head e) = head (ap leg_of e)
mem-legs (tail m) = tail (mem-legs m)

register_other :
    (c : ℕ) (g : StructureGuard) (sm : StructureManager)
    → (g.correlation_id == c) ≡ false
    → lookup c (register g sm).by_corr ≡ lookup c sm.by_corr
unfolding register
register_other c g sm h = lookup-insert g.correlation_id c g sm.by_corr ∙ rw h refl

register_self :
    (c : ℕ) (m : Meta) (rs : List OpenLeg) (sm : StructureManager)
    → lookup c (register (rebuilt_guard c m rs) sm).by_corr ≡ some (rebuilt_guard c m rs)
unfolding register rebuilt_guard
register_self c m rs sm = lookup-insert c c (rebuilt_guard c m rs) sm.by_corr ∙ rw (eq_self c) refl

rebuild_group-keeps :
    (pid : ℕ) (p : Position) (c d : ℕ) (rs : List OpenLeg) (o : Option Meta)
    (st : List ℕ × StructureManager)
    → (d == c) ≡ false
    → IsManaged pid p c st
    → IsManaged pid p c (rebuild_group d rs o st)
unfolding rebuilt_guard
rebuild_group-keeps pid p c d rs none st ne h = h
rebuild_group-keeps pid p c d rs (some m) (covered, sm) ne (a, (g, found, leg)) =
    (mem-append_left (ids rs) a, (g, register_other c (rebuilt_guard d m rs) sm ne ∙ found, leg))

absent_cons :
    {V : Type 0} (c d : ℕ) (v : V) (gs : Dict V)
    → contains c ((d, v) ∷ gs) ≡ false
    → ((d == c) ≡ false) × (contains c gs ≡ false)
absent_cons c d v gs h = elim (Bool-cases (d == c)) [
  | inl b ↦ ground (arith, rw b at h)
  | inr b ↦ (b, rw b at h)
]

-- the groups of the other structures change nothing
rebuild_groups-keeps :
    (pid : ℕ) (p : Position) (c : ℕ) (gs : Dict (List OpenLeg)) (st : List ℕ × StructureManager)
    → contains c gs ≡ false
    → IsManaged pid p c st
    → IsManaged pid p c (rebuild_groups gs st)
unfolding rebuild_groups
rebuild_groups-keeps pid p c [] st absent h = h
rebuild_groups-keeps pid p c ((d, rs) ∷ gs) st absent h =
    let (ne, rest) = absent_cons c d rs gs absent in
    rebuild_groups-keeps pid p c gs _ rest
      (rebuild_group-keeps pid p c d rs (first_meta rs) st ne h)

rebuilt :
    (r : OpenLeg) (c : ℕ) (rs : List OpenLeg) (m : Meta) (st : List ℕ × StructureManager)
    → Memᴰ r rs
    → IsManaged r.id r.position c (rebuild_group c rs (some m) st)
unfolding rebuilt_guard
rebuilt r c rs m (covered, sm) h = (
  mem-append_right covered (mem-ids h),
  (
    rebuilt_guard c m rs,
    register_self c m rs sm,
    (leg_of r, mem-legs h, refl, refl, refl, refl, refl),
  ),
)

rebuild_groups-IsManaged :
    (r : OpenLeg) (m : Meta) (rs : List OpenLeg) (gs : Dict (List OpenLeg))
    (st : List ℕ × StructureManager)
    → Distinct gs
    → lookup r.correlation_id gs ≡ some rs
    → Memᴰ r rs
    → r.structure_meta ≡ some m
    → IsManaged r.id r.position r.correlation_id (rebuild_groups gs st)
unfolding rebuild_groups
rebuild_groups-IsManaged r m rs [] st once found h e = ground (arith, found)
rebuild_groups-IsManaged r m rs ((c, xs) ∷ gs) st (absent, once) found h e =
    elim (Bool-cases (c == r.correlation_id)) [
      | inr b ↦
          rebuild_groups-IsManaged r m rs gs (rebuild_group c xs (first_meta xs) st) once
            (rw b at found) h e
      | inl b ↦
          let same : xs ≡ rs = some-injective xs rs (rw b at found) in
          let (m', f) = meta_found r rs m h e in
          let id : c ≡ r.correlation_id = ground (arith, b) in
          rebuild_groups-keeps r.id r.position r.correlation_id gs
            (rebuild_group c xs (first_meta xs) st) (subst (λ d. contains d gs ≡ false) id absent)
            (subst (λ d. IsManaged r.id r.position d (rebuild_group c xs (first_meta xs) st)) id
              (rw (same, f) (rebuilt r c rs m' st h)))
    ]

group-Distinct : (xs : List OpenLeg) (d : Dict (List OpenLeg)) → Distinct d → Distinct (group xs d)
unfolding group
group-Distinct [] d h = h
group-Distinct (x ∷ xs) d h =
    group-Distinct xs _
      (insert-Distinct x.correlation_id (append_to x (lookup x.correlation_id d)) d h)

-- After a restart every open leg whose row carries its structure's metadata is covered, so that the
-- per-leg recovery skips it, and the guard that is registered for its structure has a leg of its
-- position, with the side, the quantity, the average price and the instrument of the row.
pub rebuild_structures-IsManaged :
    {S : Type 0} (k : Desk S) (pid : ℕ) (p : Position) (r : LegRow) (m : Meta)
    → Memᴰ (pid, p) k.world.positions
    → is_open_leg p ≡ true
    → lookup pid k.leg_rows ≡ some r
    → r.structure_meta ≡ some m
    → let (covered, k') = rebuild_structures k in
      IsManaged pid p r.correlation_id (covered, k'.structures)
unfolding rebuild_structures
rebuild_structures-IsManaged k pid p r m here opened row stored =
    let x = open_leg pid p r in
    let legs = open_legs k.leg_rows k.world.positions in
    let (rs, found, h) =
      group-Grouped x legs []
        (mem-open_legs k.leg_rows pid p r k.world.positions here row opened) in
    rebuild_groups-IsManaged x m rs (group legs []) ([], k.structures) (group-Distinct legs [] tt)
      found h stored
