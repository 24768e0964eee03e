-- ===== src/Engineering/Dependencies/Closure.antt =====
-- The recursive query computes the least set that holds its base and is closed under the edges.
use dev_workflow_automation.Common.{
  some-injective, ℕ, zero, suc, ◌≤◌, ◌<◌, ◌==◌, Bool, true, false, not, ◌&&◌, none, some, List, [],
  ◌∷◌, In, length, any-eq_true, any_of_In, count_where, ◌≡◌, inl, inr, refl, sym, ◌∙◌, arith,
  Bool-cases, Option-cases, subst, and-eq_true, ap,
}
use dev_workflow_automation.Engineering.Rows.{TaskDependency}
use dev_workflow_automation.Engineering.Dependencies.{has, leads_out, reachable}

pub has-In : (s : List ℕ) (x : ℕ) → has s x ≡ true → In x s
has-In s x h =
    let (y, place, same) = any-eq_true (λ y. x == y) s h in
    let e : y ≡ x = ground arith in subst (λ z. In z s) e place

pub In-has : (s : List ℕ) (x : ℕ) → In x s → has s x ≡ true
In-has s x m = any_of_In (λ y. x == y) x s m (ground arith)

-- The edges whose target is not reached yet: what falls in each round.
abbrev outside : List ℕ → TaskDependency → Bool
outside seen d = not (has seen d.prerequisite_id)

not-true : (b : Bool) → not b ≡ true → b ≡ false
not-true b h = ground arith

pub leads_out-eq-some :
    (seen : List ℕ) (rows : List TaskDependency) (id : ℕ)
    → leads_out seen rows ≡ some id
    → (d : TaskDependency) × In d rows
      × (has seen d.task_id ≡ true)
      × (has seen id ≡ false)
      × (d.prerequisite_id ≡ id)
unfolding leads_out
leads_out-eq-some seen [] id h = cc
leads_out-eq-some seen (d ∷ rows) id h =
    elim (Bool-cases (has seen d.task_id && not (has seen d.prerequisite_id))) [
      | inl fits ↦
          let (from, new) = and-eq_true (has seen d.task_id) _ fits in
          let same : d.prerequisite_id ≡ id = some-injective (rw fits at h) in
          (d, inl refl, from, subst (λ i. has seen i ≡ false) same (not-true _ new), same)
      | inr other ↦
          let (e, place, from, new, same) = leads_out-eq-some seen rows id (rw other at h) in
          (e, inr place, from, new, same)
    ]

-- The query stops only when no edge leads out.
leads_out-eq-none :
    (seen : List ℕ) (rows : List TaskDependency) (d : TaskDependency)
    → leads_out seen rows ≡ none
    → In d rows
    → has seen d.task_id ≡ true
    → has seen d.prerequisite_id ≡ true
unfolding leads_out
leads_out-eq-none seen [] d h m from = absurd m
leads_out-eq-none seen (e ∷ rows) d h (inl same) from =
    elim (Bool-cases (has seen d.prerequisite_id)) [
      | inl old ↦ old
      | inr new ↦
          (let f = rw (from, new) at (subst (λ x. leads_out seen (x ∷ rows) ≡ none) (sym same) h) in
            cc)
    ]
leads_out-eq-none seen (e ∷ rows) d h (inr place) from =
    elim (Bool-cases (has seen e.task_id && not (has seen e.prerequisite_id))) [
      | inl fits ↦ (let f = rw fits at h in cc)
      | inr other ↦ leads_out-eq-none seen rows d (rw other at h) place from
    ]

outside-cons-le :
    (seen : List ℕ) (id : ℕ) (rows : List TaskDependency)
    → count_where (outside (id ∷ seen)) rows ≤ count_where (outside seen) rows
outside-cons-le seen id [] = omega arith
outside-cons-le seen id (d ∷ rows) = ground (arith, outside-cons-le seen id rows)

-- A round leaves fewer edges whose target is not reached.
outside-cons-lt :
    (seen : List ℕ) (id : ℕ) (rows : List TaskDependency) (d : TaskDependency)
    → In d rows
    → d.prerequisite_id ≡ id
    → has seen id ≡ false
    → count_where (outside (id ∷ seen)) rows < count_where (outside seen) rows
outside-cons-lt seen id [] d m e new = absurd m
outside-cons-lt seen id (x ∷ rows) d (inl same) e new =
    let here : x.prerequisite_id ≡ id = ap (λ y. y.prerequisite_id) (sym same) ∙ e in
    rw here (rw new (ground (arith, outside-cons-le seen id rows)))
outside-cons-lt seen id (x ∷ rows) d (inr place) e new =
    ground (arith, outside-cons-lt seen id rows d place e new)

count_where-le :
    (p : TaskDependency → Bool) (rows : List TaskDependency) → count_where p rows ≤ length rows
count_where-le p [] = omega arith
count_where-le p (d ∷ rows) = ground (arith, count_where-le p rows)

no_outside :
    (seen : List ℕ) (rows : List TaskDependency) (d : TaskDependency)
    → count_where (outside seen) rows ≤ 0
    → In d rows
    → has seen d.prerequisite_id ≡ true
no_outside seen [] d h m = absurd m
no_outside seen (x ∷ rows) d h (inl same) =
    let seen_x : has seen x.prerequisite_id ≡ true = ground arith in
    subst (λ y. has seen y.prerequisite_id ≡ true) (sym same) seen_x
no_outside seen (x ∷ rows) d h (inr place) = no_outside seen rows d (ground arith) place

-- A set that holds the target of every edge whose source it holds.
abbrev pub IsClosed : List TaskDependency → List ℕ → Type 0
IsClosed rows s = (d : TaskDependency) → In d rows → In d.task_id s → In d.prerequisite_id s

-- A set that holds the base and is closed.
abbrev pub Closes : List TaskDependency → List ℕ → List ℕ → Type 0
Closes rows base s = ((i : ℕ) → In i base → In i s) × IsClosed rows s

-- With a round for each edge that leads outside, the result holds the base and is closed.
reachable-IsClosed :
    (fuel : ℕ) (rows : List TaskDependency) (seen : List ℕ)
    → count_where (outside seen) rows ≤ fuel
    → Closes rows seen (reachable fuel rows seen)
unfolding reachable
reachable-IsClosed zero rows seen h =
    (λ i m. m, λ d place from. has-In seen d.prerequisite_id (no_outside seen rows d h place))
reachable-IsClosed (suc fuel) rows seen h = elim (Option-cases (leads_out seen rows)) [
  | inl nothing ↦
      let stops : seen ≡ reachable (suc fuel) rows seen = ground arith in
      subst (Closes rows seen) stops (
        λ i m. m,
        λ d place from.
            has-In seen d.prerequisite_id
              (leads_out-eq-none seen rows d nothing place (In-has seen d.task_id from)),
      )
  | inr (id, found) ↦
      let (d, place, _, new, e) = leads_out-eq-some seen rows id found in
      let less = outside-cons-lt seen id rows d place e new in
      let (base, closed) = reachable-IsClosed fuel rows (id ∷ seen) (omega (arith, less, h)) in
      let goes_on : reachable fuel rows (id ∷ seen) ≡ reachable (suc fuel) rows seen =
        ground arith in
      subst (Closes rows seen) goes_on (λ i m. base i (inr m), closed)
]

-- With as many rounds as there are edges, the recursive query gives a set that holds its base and
-- the target of every edge whose source it holds.
pub reachable-Closes :
    (rows : List TaskDependency) (base : List ℕ)
    → Closes rows base (reachable (length rows) rows base)
reachable-Closes rows base =
    reachable-IsClosed (length rows) rows base (count_where-le (outside base) rows)
