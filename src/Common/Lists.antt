-- ===== src/Common/Lists.antt =====
-- Lists measured by native numbers, and predicates on lists by recursion.
use Prim.Native.Nat.{ℕ, suc, ◌+◌}
use mathlib.Core.Path.{◌≡◌, refl, sym, ap, subst}
use mathlib.Core.List.{List, [], ◌∷◌, ◌++◌, map}
use mathlib.Core.Bool.{Bool, true, false, ◌&&◌, ◌||◌}
use mathlib.Core.Logic.{◌⊎◌, inl, inr}
use native.Mathlib.Omega.{arith}
use dev_workflow_automation.Common.Tests.{Bool-cases, if◌then◌else◌}

module _ {ℓ} {A : Type ℓ} where
  abbrev pub length : List A → ℕ
  length [] = 0
  length (x ∷ xs) = suc (length xs)

  -- `any(p(x) for x in xs)`
  abbrev pub any : (A → Bool) → List A → Bool
  any p [] = false
  any p (x ∷ xs) = p x || any p xs

  -- `all(p(x) for x in xs)`
  abbrev pub all : (A → Bool) → List A → Bool
  all p [] = true
  all p (x ∷ xs) = p x && all p xs

  -- `[x for x in xs if p(x)]`
  abbrev pub keep : (A → Bool) → List A → List A
  keep p [] = []
  keep p (x ∷ xs) = let rest = keep p xs in if p x then x ∷ rest else rest

  -- One appended reason, if a condition holds.
  abbrev pub when : Bool → A → List A
  when true a = a ∷ []
  when false a = []

module _ {ℓ κ} {A : Type ℓ} where
  abbrev pub All : (A → Type κ) → List A → Type κ
  All P [] = Unit
  All P (x ∷ xs) = P x × All P xs

module _ {ℓ} {A : Type ℓ} where
  pub length-append : (xs ys : List A) → length (xs ++ ys) ≡ length xs + length ys
  length-append [] ys = omega arith
  length-append (x ∷ xs) ys = omega (arith, length-append xs ys)

module _ {A : Type 0} where
  -- Membership, with the place kept.
  abbrev pub In : A → List A → Type 0
  In a [] = ⊥
  In a (x ∷ xs) = (a ≡ x) ⊎ In a xs

  pub any-eq_true :
      (p : A → Bool) (xs : List A) → any p xs ≡ true → (x : A) × In x xs × (p x ≡ true)
  any-eq_true p [] h = cc
  any-eq_true p (x ∷ xs) h = elim (Bool-cases (p x)) [
    | inl found ↦ (x, inl refl, found)
    | inr missed ↦
        let (y, place, found) = any-eq_true p xs (rw missed at h) in (y, inr place, found)
  ]

  pub any_of_In : (p : A → Bool) (x : A) (xs : List A) → In x xs → p x ≡ true → any p xs ≡ true
  any_of_In p x [] m h = absurd m
  any_of_In p x (y ∷ ys) (inl e) h = ground arith
  any_of_In p x (y ∷ ys) (inr m) h = ground (arith, any_of_In p x ys m h)

  pub all_of_In : (p : A → Bool) (x : A) (xs : List A) → all p xs ≡ true → In x xs → p x ≡ true
  all_of_In p x [] h m = absurd m
  all_of_In p x (y ∷ ys) h (inl e) = ground arith
  all_of_In p x (y ∷ ys) h (inr m) = all_of_In p x ys (ground arith) m

-- A row of statements `if b: reasons.append(r)`.
abbrev pub collect : {R : Type 0} → List (Bool × R) → List R
collect [] = []
collect ((b, r) ∷ tests) = let rest = collect tests in if b then r ∷ rest else rest

-- Membership under the operations.
keep_cases :
    {A : Type 0} (p : A → Bool) (x y : A) (ys : List A) (b : Bool)
    → b ≡ p y
    → In x (if b then y ∷ keep p ys else keep p ys)
    → ((x ≡ y) × (p y ≡ true)) ⊎ In x (keep p ys)
keep_cases p x y ys true e (inl same) = inl (same, sym e)
keep_cases p x y ys true e (inr k) = inr k
keep_cases p x y ys false e m = inr m

pub keep-In :
    {A : Type 0} (p : A → Bool) (x : A) (xs : List A) → In x (keep p xs) → In x xs × (p x ≡ true)
keep-In p x [] m = absurd m
keep-In p x (y ∷ ys) m = elim (keep_cases p x y ys (p y) refl m) [
  | inl (same, e) ↦ (inl same, rw same e)
  | inr k ↦ (let (place, e) = keep-In p x ys k in (inr place, e))
]

pub In-keep :
    {A : Type 0} (p : A → Bool) (x : A) (xs : List A) → In x xs → p x ≡ true → In x (keep p xs)
In-keep p x [] m e = absurd m
In-keep p x (y ∷ ys) (inl same) e =
    let here : p y ≡ true = ground arith in
    subst (In x) (ap (λ b. if b then y ∷ keep p ys else keep p ys) (sym here)) (inl same)
In-keep p x (y ∷ ys) (inr m) e = elim (Bool-cases (p y)) [
  | inl k ↦
      subst (In x) (ap (λ b. if b then y ∷ keep p ys else keep p ys) (sym k))
        (inr (In-keep p x ys m e))
  | inr k ↦
      subst (In x) (ap (λ b. if b then y ∷ keep p ys else keep p ys) (sym k)) (In-keep p x ys m e)
]

pub append_cases : {A : Type 0} (x : A) (xs ys : List A) → In x (xs ++ ys) → In x xs ⊎ In x ys
append_cases x [] ys m = inr m
append_cases x (y ∷ xs) ys (inl e) = inl (inl e)
append_cases x (y ∷ xs) ys (inr m) = elim (append_cases x xs ys m) [
  | inl left ↦ inl (inr left)
  | inr right ↦ inr right
]

pub map-In :
    {A B : Type 0} (f : A → B) (y : B) (xs : List A)
    → In y (map f xs)
    → (x : A) × In x xs × (y ≡ f x)
map-In f y [] m = absurd m
map-In f y (x ∷ xs) (inl e) = (x, inl refl, e)
map-In f y (x ∷ xs) (inr m) = (let (z, place, e) = map-In f y xs m in (z, inr place, e))

pub In-map : {A B : Type 0} (f : A → B) (x : A) (xs : List A) → In x xs → In (f x) (map f xs)
In-map f x [] m = absurd m
In-map f x (y ∷ xs) (inl e) = inl (ap f e)
In-map f x (y ∷ xs) (inr m) = inr (In-map f x xs m)
