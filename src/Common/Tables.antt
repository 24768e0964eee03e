-- ===== src/Common/Tables.antt =====
-- A table of the database: a list of rows with a numeric primary key.
use Prim.Native.Nat.{ℕ, ◌+◌, ◌≤◌}
use mathlib.Core.Path.{◌≡◌, refl}
use mathlib.Core.Bool.{Bool, true, false, ◌||◌}
use mathlib.Core.List.{List, [], ◌∷◌, map}
use mathlib.Core.Option.{Option, none, some}
use native.Mathlib.Omega.{arith}
use mathlib.Core.Logic.{inl, inr, ◌≢◌}
use mathlib.Core.Path.{subst, sym, ap, ◌∙◌}
use dev_workflow_automation.Common.Lists.{any, In}
use dev_workflow_automation.Common.Tests.{
  ◌==◌, if◌then◌else◌, Bool-cases, some-injective, none-some,
}

module _ {R : Type 0} (key : R → ℕ) where
  -- `session.get(R, id)`
  unfoldable pub find : ℕ → List R → Option R
  find i [] = none
  find i (r ∷ rows) = if key r == i then some r else find i rows

  -- The row of that key with new columns.
  unfoldable pub store : R → List R → List R
  store new [] = []
  store new (r ∷ rows) = (if key r == key new then new else r) ∷ store new rows

  -- The new row is found where a row was, and every other row is as before.
  pub find-store :
      (i : ℕ) (new : R) (rows : List R)
      → find i (store new rows) ≡ (
          if key new == i
          then elim (find i rows) [ none ↦ none | some old ↦ some new ]
          else find i rows)
  unfolding find store
  find-store i new [] = ground arith
  find-store i new (r ∷ rows) = ground (arith, find-store i new rows)

  pub find-key : (i : ℕ) (rows : List R) (r : R) → find i rows ≡ some r → key r ≡ i
  unfolding find
  find-key i [] r h = cc
  find-key i (x ∷ rows) r h = ground (arith, find-key i rows r)

-- `select(count(*)).where(p)`
abbrev pub count_where : {R : Type 0} → (R → Bool) → List R → ℕ
count_where p [] = 0
count_where p (r ∷ rows) = (if p r then 1 else 0) + count_where p rows

-- Rows with a primary key: no two have the same.
abbrev pub Distinct : {R : Type 0} → (R → ℕ) → List R → Type 0
Distinct key [] = Unit
Distinct key (r ∷ rows) = (find key (key r) rows ≡ none) × Distinct key rows

module _ {R : Type 0} (key : R → ℕ) (i : ℕ) (p q : R → Bool)
    (same : (r : R) → (key r == i) ≡ false → q r ≡ true → p r ≡ true) where
  count_where_absent :
      (rows : List R) → find key i rows ≡ none → count_where q rows ≤ count_where p rows
  unfolding find
  count_where_absent [] h = omega arith
  count_where_absent (r ∷ rows) h =
      let away : (key r == i) ≡ false = ground arith in
      let rest = count_where_absent rows (ground arith) in
      let kept = same r away in
      elim (Bool-cases (q r)) [
        | inl e ↦ (let e' = kept e in rw (e, e') omega (arith, rest))
        | inr e ↦ rw e omega (arith, rest)
      ]

  -- Two tests that differ at one key count at most one row more.
  pub count_where_one :
      (rows : List R) → Distinct key rows → count_where q rows ≤ 1 + count_where p rows
  count_where_one [] d = omega arith
  count_where_one (r ∷ rows) (absent, d) = elim (Bool-cases (key r == i)) [
    | inl here ↦
        let at_i : key r ≡ i = ground arith in
        let rest = count_where_absent rows (subst (λ k. find key k rows ≡ none) at_i absent) in
        elim (Bool-cases (q r)) [
          | inl e ↦ rw e omega (arith, rest)
          | inr e ↦ rw e omega (arith, rest)
        ]
    | inr away ↦
        let rest = count_where_one rows d in
        elim (Bool-cases (q r)) [
          | inl e ↦ (let e' = same r away e in rw (e, e') omega (arith, rest))
          | inr e ↦ rw e omega (arith, rest)
        ]
  ]

module _ {R : Type 0} (key : R → ℕ) (p : R → Bool) where
  count_where-store :
      (new : R) (rows : List R)
      → count_where p (store key new rows)
        ≡ count_where (λ r. p (if key r == key new then new else r)) rows
  unfolding store
  count_where-store new [] = refl
  count_where-store new (r ∷ rows) = rw (count_where-store new rows) refl

  -- One stored row adds at most one to a count.
  pub count_where-store-le :
      (new : R) (rows : List R)
      → Distinct key rows
      → count_where p (store key new rows) ≤ 1 + count_where p rows
  count_where-store-le new rows d = rw (count_where-store new rows) (
      count_where_one key (key new) p (λ r. p (if key r == key new then new else r))
        (λ r away e. (rw away at e)) rows d)

-- A row that fails a test makes no row pass it.
pub any-store :
    {R : Type 0} (key : R → ℕ) (p : R → Bool) (new : R) (rows : List R)
    → p new ≡ false
    → any p (store key new rows) ≡ true
    → any p rows ≡ true
unfolding store
any-store key p new [] fails h = cc
any-store key p new (r ∷ rows) fails h = elim (Bool-cases (key r == key new)) [
  | inl same ↦
      let later : any p (store key new rows) ≡ true = rw (same, fails) at h in
      let rest = any-store key p new rows fails later in ground (arith, rest)
  | inr other ↦ step (p r) (rw other at h) (any-store key p new rows fails)
]
  where
    step :
        (b : Bool)
        → (b || any p (store key new rows)) ≡ true
        → (any p (store key new rows) ≡ true → any p rows ≡ true)
        → (b || any p rows) ≡ true
    step true h rest = refl
    step false h rest = rest h

module _ {R : Type 0} (key : R → ℕ) where
  -- The row of a key is changed, each column from the row's own.
  abbrev pub amend : ℕ → (R → R) → List R → List R
  amend i f [] = []
  amend i f (r ∷ rows) = (if key r == i then f r else r) ∷ amend i f rows

  -- A row of the changed table is a row of the table, changed where it has the key.
  pub amend-In :
      (i : ℕ) (f : R → R) (rows : List R) (r : R)
      → In r (amend i f rows)
      → (old : R) × In old rows × (r ≡ (if key old == i then f old else old))
  amend-In i f [] r m = absurd m
  amend-In i f (x ∷ rows) r (inl e) = (x, inl refl, e)
  amend-In i f (x ∷ rows) r (inr m) =
      let (old, place, e) = amend-In i f rows r m in (old, inr place, e)

  -- Each row of the table has its image in the changed table.
  pub In-amend :
      (i : ℕ) (f : R → R) (rows : List R) (r : R)
      → In r rows
      → In (if key r == i then f r else r) (amend i f rows)
  In-amend i f [] r m = absurd m
  In-amend i f (x ∷ rows) r (inl e) = inl (ap (λ y. if key y == i then f y else y) e)
  In-amend i f (x ∷ rows) r (inr m) = inr (In-amend i f rows r m)

  pub find-In : (i : ℕ) (rows : List R) (r : R) → find key i rows ≡ some r → In r rows
  unfolding find
  find-In i [] r h = absurd (none-some h)
  find-In i (x ∷ rows) r h = elim (Bool-cases (key x == i)) [
    | inl here ↦ inl (sym (some-injective (rw here at h)))
    | inr away ↦ inr (find-In i rows r (rw away at h))
  ]

  -- With a primary key, a row is found under its own key.
  pub In-find :
      (rows : List R) (r : R) → Distinct key rows → In r rows → find key (key r) rows ≡ some r
  unfolding find
  In-find [] r d m = absurd m
  In-find (x ∷ rows) r d (inl e) = rw e ground arith
  In-find (x ∷ rows) r (absent, d) (inr m) =
      let found = In-find rows r d m in
      elim (Bool-cases (key x == key r)) [
        | inl here ↦
            let same : key x ≡ key r = ground arith in
            absurd (none-some (sym (subst (λ k. find key k rows ≡ none) same absent) ∙ found))
        | inr away ↦ rw away found
      ]

-- A change of rows that makes no row pass a test.
pub count_where-map-le :
    {R : Type 0} (p : R → Bool) (g : R → R) (rows : List R)
    → ((r : R) → In r rows → p (g r) ≡ true → p r ≡ true)
    → count_where p (map g rows) ≤ count_where p rows
count_where-map-le p g [] h = omega arith
count_where-map-le p g (r ∷ rows) h =
    let rest = count_where-map-le p g rows (λ x m. h x (inr m)) in
    let here = h r (inl refl) in
    elim (Bool-cases (p (g r))) [
      | inl e ↦ (let e' = here e in rw (e, e') omega (arith, rest))
      | inr e ↦ rw e omega (arith, rest)
    ]

module _ {R : Type 0} (key : R → ℕ) where
  pub amend-map :
      (i : ℕ) (f : R → R) (rows : List R)
      → amend key i f rows ≡ map (λ r. if key r == i then f r else r) rows
  amend-map i f [] = refl
  amend-map i f (r ∷ rows) = rw (amend-map i f rows) refl

  -- A change that keeps the keys keeps the table's primary key.
  pub find-map :
      (g : R → R)
      → ((r : R) → key (g r) ≡ key r)
      → (i : ℕ) (rows : List R)
      → find key i (map g rows) ≡ elim (find key i rows) [ none ↦ none | some r ↦ some (g r) ]
  unfolding find
  find-map g same i [] = refl
  find-map g same i (r ∷ rows) = rw (same r) (elim (Bool-cases (key r == i)) [
    | inl here ↦ rw here refl
    | inr away ↦ rw away (find-map g same i rows)
  ])

  pub Distinct-map :
      (g : R → R)
      → ((r : R) → key (g r) ≡ key r)
      → (rows : List R) → Distinct key rows
      → Distinct key (map g rows)
  Distinct-map g same [] d = tt
  Distinct-map g same (r ∷ rows) (absent, d) =
      let e = find-map g same (key r) rows in
      (
        rw (same r) (e ∙ ap (λ o. elim o [ none ↦ none | some r ↦ some (g r) ]) absent),
        Distinct-map g same rows d,
      )

  -- A key that no row has.
  pub find_absent :
      (i : ℕ) (rows : List R) → ((r : R) → In r rows → key r ≢ i) → find key i rows ≡ none
  unfolding find
  find_absent i [] h = refl
  find_absent i (r ∷ rows) h =
      let away : (key r == i) ≡ false = (let other = h r (inl refl) in ground (arith, other)) in
      rw away (find_absent i rows (λ x m. h x (inr m)))

  -- The changed row is found where the row was.
  pub find-amend :
      (i : ℕ) (f : R → R) (rows : List R) (r : R)
      → ((x : R) → key (f x) ≡ key x)
      → find key i rows ≡ some r
      → find key i (amend key (key r) f rows) ≡ some (f r)
  find-amend i f rows r same found =
      let g : R → R = λ x. if key x == key r then f x else x in
      let keeps : (x : R) → key (g x) ≡ key x = λ x. elim (Bool-cases (key x == key r)) [
        | inl here ↦ rw here (same x)
        | inr away ↦ rw away refl
      ] in
      let here : (key r == key r) ≡ true = ground arith in
      let image : some (g r) ≡ some (f r) = rw here refl in
      ap (find key i) (amend-map (key r) f rows)
      ∙ find-map g keeps i rows
      ∙ ap (λ o. elim o [ none ↦ none | some x ↦ some (g x) ]) found
      ∙ image
