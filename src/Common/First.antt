-- ===== src/Common/First.antt =====
-- `order_by(...).limit(1)`: the first row of a list in an order.
use Prim.Native.Nat.{ℕ, zero, suc}
use mathlib.Core.Path.{◌≡◌, refl, sym, subst}
use mathlib.Core.List.{List, [], ◌∷◌}
use mathlib.Core.Logic.{◌≢◌, inl, inr}
use mathlib.Core.Bool.{Bool, true, false}
use mathlib.Core.Option.{Option, none, some}
use dev_workflow_automation.Common.Tests.{Bool-cases, if◌then◌else◌, some-injective, none-some}
use native.Mathlib.Omega.{arith}
use dev_workflow_automation.Common.Lists.{In}

module _ {R : Type 0} where
  abbrev pub sooner : (R → R → Bool) → R → Option R → Option R
  sooner less j none = some j
  sooner less j (some k) = if less k j then some k else some j

  -- Between rows that the order leaves equal, the first is taken.
  unfoldable pub first_of : (R → R → Bool) → List R → Option R
  first_of less [] = none
  first_of less (j ∷ jobs) = sooner less j (first_of less jobs)

-- The first row is one of the rows, whatever the order.
sooner-In :
    {R : Type 0} (less : R → R → Bool) (x : R) (rows : List R) (o : Option R) (r : R)
    → ((m : R) → o ≡ some m → In m rows)
    → sooner less x o ≡ some r
    → In r (x ∷ rows)
sooner-In less x rows none r place h = inl (sym (some-injective h))
sooner-In less x rows (some m) r place h = elim (Bool-cases (less m x)) [
  | inl before ↦ inr (subst (λ k. In k rows) (some-injective (rw before at h)) (place m refl))
  | inr after ↦ inl (sym (some-injective (rw after at h)))
]

pub first_of-mem :
    {R : Type 0} (less : R → R → Bool) (rows : List R) (r : R)
    → first_of less rows ≡ some r
    → In r rows
unfolding first_of
first_of-mem less [] r h = absurd (none-some h)
first_of-mem less (x ∷ rows) r h =
    sooner-In less x rows (first_of less rows) r (λ m e. first_of-mem less rows m e) h

-- A test on which being no sooner is transitive, as it is for the order by several columns.
module _ {R : Type 0} (less : R → R → Bool) (irreflexive : (a : R) → less a a ≡ false)
    (transitive : (a b c : R) → less a b ≡ false → less b c ≡ false → less a c ≡ false)
    (asymmetric : (a b : R) → less a b ≡ true → less b a ≡ false) where
  sooner-eq-none : (x : R) (o : Option R) → sooner less x o ≢ none
  sooner-eq-none x none h = cc
  sooner-eq-none x (some m) h = ground arith

  first_of-eq-none : (xs : List R) → first_of less xs ≡ none → xs ≡ []
  unfolding first_of
  first_of-eq-none [] h = refl
  first_of-eq-none (x ∷ xs) h = absurd (sooner-eq-none x (first_of less xs) h)

  -- The first of a list is in it, and none of the list comes sooner.
  abbrev pub IsFirst : List R → R → Type 0
  IsFirst xs j = In j xs × ((k : R) → In k xs → less k j ≡ false)

  least_cons :
      (x : R) (xs : List R) (j : R)
      → less x j ≡ false
      → ((k : R) → In k xs → less k j ≡ false)
      → (k : R) → In k (x ∷ xs)
      → less k j ≡ false
  least_cons x xs j first rest k (inl e) = rw e first
  least_cons x xs j first rest k (inr m) = rest k m

  sooner-IsFirst :
      (x : R) (xs : List R) (o : Option R) (j : R)
      → o ≡ first_of less xs
      → ((m : R) → o ≡ some m → IsFirst xs m)
      → sooner less x o ≡ some j
      → IsFirst (x ∷ xs) j
  sooner-IsFirst x xs none j e rest h =
      let nil = first_of-eq-none xs (sym e) in
      subst (IsFirst (x ∷ xs)) (some-injective h)
        (inl refl, least_cons x xs x (irreflexive x) (λ k m. absurd (subst (In k) nil m)))
  sooner-IsFirst x xs (some m) j e rest h =
      let (place, least) = rest m refl in
      elim (Bool-cases (less m x)) [
        | inl before ↦
            subst (IsFirst (x ∷ xs)) (some-injective (rw before at h))
              (inr place, least_cons x xs m (asymmetric m x before) least)
        | inr after ↦ subst (IsFirst (x ∷ xs)) (some-injective (rw after at h)) (
          inl refl,
          least_cons x xs x (irreflexive x) (λ k i. transitive k m x (least k i) after),
        )
      ]

  pub first_of-In : (xs : List R) (j : R) → first_of less xs ≡ some j → IsFirst xs j
  unfolding first_of
  first_of-In [] j h = cc
  first_of-In (x ∷ xs) j h =
      sooner-IsFirst x xs (first_of less xs) j refl (λ m e. first_of-In xs m e) h

module _ {R : Type 0} where
  unfoldable pub insert_by : (R → R → Bool) → R → List R → List R
  insert_by less x [] = x ∷ []
  insert_by less x (y ∷ ys) =
      let rest = insert_by less x ys in if less y x then y ∷ rest else x ∷ y ∷ ys

  -- `order_by(...)`: rows that the order leaves equal keep their places.
  unfoldable pub sort_by : (R → R → Bool) → List R → List R
  unfolding insert_by
  sort_by less [] = []
  sort_by less (x ∷ xs) = insert_by less x (sort_by less xs)

  -- `limit(n)`
  unfoldable pub limit : ℕ → List R → List R
  limit zero xs = []
  limit (suc n) [] = []
  limit (suc n) (x ∷ xs) = x ∷ limit n xs

  -- `next((x for x in reversed(xs) if p(x)), None)`
  unfoldable pub last_where : (R → Bool) → List R → Option R
  last_where p [] = none
  last_where p (x ∷ xs) = elim (last_where p xs) [
    | none ↦ if p x then some x else none
    | some y ↦ some y
  ]
