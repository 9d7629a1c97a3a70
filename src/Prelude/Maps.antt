-- ===== src/Prelude/Maps.antt =====
-- JavaScript's `Map` and plain records, as lists of entries.
use Prim.Native.String.{String, compare}
use Prim.Native.Nat.{Ordering}
use mathlib.Core.Bool.{Bool, true, false}
use mathlib.Core.Option.{Option, none, some}
use mathlib.Core.List.{List, [], ◌∷◌}
use text.Mathlib.Text.{◌==◌}
use agent_gateway_control.Prelude.Tests.{if◌then◌else◌}

-- `a < b` on texts. JavaScript orders by UTF-16 units: on ASCII ids that is the order of the bytes.
abbrev pub str_lt : String → String → Bool
str_lt a b = elim (compare a b) [ Ordering.lt ↦ true | _ ↦ false ]

-- `Map.get` and an own property of a record.
abbrev pub lookup {ℓ} : {V : Type ℓ} → String → List (String × V) → Option V
lookup k [] = none
lookup k ((j, v) ∷ m) = if j == k then some v else lookup k m

-- `new Map(xs.map((x) => [key(x), x])).get(k)`: a later entry replaces an earlier one.
abbrev pub last_with {ℓ} : {A : Type ℓ} → (A → String) → String → List A → Option A
last_with key k [] = none
last_with key k (x ∷ xs) = elim (last_with key k xs) [
  | some y ↦ some y
  | none ↦ if key x == k then some x else none
]
