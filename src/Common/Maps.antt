-- ===== src/Common/Maps.antt =====
-- Python's `dict[str, V]` as an association list with one entry a key.
use Prim.Native.Nat.{ℕ, ◌+◌, ◌-◌, ◌≤◌, max}
use Prim.Native.String.{String}
use mathlib.Core.Path.{◌≡◌, refl}
use mathlib.Core.List.{List, [], ◌∷◌}
use mathlib.Core.Option.{Option, none, some}
use native.Mathlib.Omega.{arith}
use text.Mathlib.Text.{◌==◌ as str_eq}
use text.Mathlib.TextEquality.{eq_iff}
use dev_workflow_automation.Common.Tests.{if◌then◌else◌}

module _ {ℓ} {V : Type ℓ} where
  -- `m.get(k)`
  unfoldable pub get : String → List (String × V) → Option V
  get k [] = none
  get k ((j, v) ∷ m) = if str_eq j k then some v else get k m

  -- `m[k] = v`
  unfoldable pub put : String → V → List (String × V) → List (String × V)
  put k v [] = (k, v) ∷ []
  put k v ((j, w) ∷ m) = if str_eq j k then (k, v) ∷ m else (j, w) ∷ put k v m

  -- `m.pop(k, None)`
  unfoldable pub pop : String → List (String × V) → List (String × V)
  pop k [] = []
  pop k ((j, w) ∷ m) = if str_eq j k then m else (j, w) ∷ pop k m

  pub get-put :
      (k j : String) (v : V) (m : List (String × V))
      → get j (put k v m) ≡ (if str_eq k j then some v else get j m)
  unfolding get put
  get-put k j v [] = refl
  get-put k j v ((i, w) ∷ m) = ground (arith, eq_iff k j, eq_iff i k, eq_iff i j, get-put k j v m)

-- `max(m.values(), default=0)`
unfoldable pub max_value : List (String × ℕ) → ℕ
max_value [] = 0
max_value ((k, n) ∷ m) = max n (max_value m)

-- `sum(max(0, n - 1) for n in m.values())`
unfoldable pub sum_repeats : List (String × ℕ) → ℕ
sum_repeats [] = 0
sum_repeats ((k, n) ∷ m) = (n - 1) + sum_repeats m

-- `m.get(k, d)` for a count.
abbrev pub count_or : ℕ → Option ℕ → ℕ
count_or d none = d
count_or d (some n) = n

pub get-le-max_value :
    (k : String) (m : List (String × ℕ)) (n : ℕ) → get k m ≡ some n → n ≤ max_value m
unfolding get max_value
get-le-max_value k [] n h = cc
get-le-max_value k ((j, v) ∷ m) n h = ground (arith, get-le-max_value k m n)
