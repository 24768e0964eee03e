-- ===== src/Common/Results.antt =====
-- Errors as values: `raise` is `err`, and a sequence of statements that may raise is a `do` block.
use mathlib.Core.Path.{◌≡◌, refl}
use mathlib.Core.Bool.{Bool, true, false}
use mathlib.Core.List.{List, [], ◌∷◌}
use dev_workflow_automation.Common.Tests.{if◌then◌else◌}
use dev_workflow_automation.Common.Lists.{collect}

pub data Result (E A : Type 0) : Type 0 where
  err : E → Result E A
  ok : A → Result E A

module _ {E A B : Type 0} where
  infixl 5 ◌>>=◌
  abbrev pub ◌>>=◌ : Result E A → (A → Result E B) → Result E B
  err raised >>= rest = err raised
  ok value >>= rest = rest value

  -- A sequence that ends has a first statement that ends, and the rest ends on its value.
  pub >>=-eq-ok :
      (start : Result E A) (rest : A → Result E B) {last : B}
      → (start >>= rest) ≡ ok last
      → (value : A) × (start ≡ ok value) × (rest value ≡ ok last)
  >>=-eq-ok (err raised) rest ended = cc
  >>=-eq-ok (ok value) rest ended = (value, refl, ended)

module _ {E B : Type 0} where
  infixl 5 ◌>>◌
  abbrev pub ◌>>◌ : Result E (Unit {0}) → Result E B → Result E B
  ok _ >> k = k
  err e >> k = err e

module _ {E : Type 0} where
  -- `if b: raise e`
  abbrev pub refuse : Bool → E → Result E (Unit {0})
  refuse true e = err e
  refuse false e = ok tt

module _ {E : Type 0} where
  -- No guard of the row holds.
  abbrev pub NoneHolds : List (Bool × E) → Type 0
  NoneHolds [] = Unit
  NoneHolds ((b, e) ∷ guards) = (b ≡ false) × NoneHolds guards

module _ {E A : Type 0} where
  -- A row of statements `if b: raise e`, and then the value.
  abbrev pub check : List (Bool × E) → A → Result E A
  check [] a = ok a
  check ((b, e) ∷ guards) a = elim b [ true ↦ err e | false ↦ check guards a ]

  pub check-eq-ok :
      (guards : List (Bool × E)) (a : A) {q : A}
      → check guards a ≡ ok q
      → (q ≡ a) × NoneHolds guards
  check-eq-ok [] a h = (cc, tt)
  check-eq-ok ((true, e) ∷ guards) a h = cc
  check-eq-ok ((false, e) ∷ guards) a h =
      let (same, rest) = check-eq-ok guards a h in (same, (refl, rest))

  pub check_ok : (guards : List (Bool × E)) (a : A) → NoneHolds guards → check guards a ≡ ok a
  check_ok [] a h = refl
  check_ok ((true, e) ∷ guards) a h = cc (h.0)
  check_ok ((false, e) ∷ guards) a h = check_ok guards a h.1

module _ {R : Type 0} where
  pub collect-eq-nil : (tests : List (Bool × R)) → collect tests ≡ [] → NoneHolds tests
  collect-eq-nil [] h = tt
  collect-eq-nil ((true, r) ∷ tests) h = cc
  collect-eq-nil ((false, r) ∷ tests) h = (refl, collect-eq-nil tests h)

  pub collect_nil : (tests : List (Bool × R)) → NoneHolds tests → collect tests ≡ []
  collect_nil [] h = refl
  collect_nil ((true, r) ∷ tests) h = cc (h.0)
  collect_nil ((false, r) ∷ tests) h = collect_nil tests h.1

-- `if b: raise e`
pub if-err-eq-ok :
    {E A : Type 0} (b : Bool) (e : E) (rest : Result E A) {a : A}
    → (if b then err e else rest) ≡ ok a
    → (b ≡ false) × (rest ≡ ok a)
if-err-eq-ok true e rest h = cc
if-err-eq-ok false e rest h = (refl, h)
