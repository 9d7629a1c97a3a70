-- ===== src/Prelude/Table.antt =====
-- A database table as the list of its rows. One statement sees and writes the table at once, as in
-- a transaction that holds the locks of the rows it touches.
use Prim.Native.String.{String}
use mathlib.Core.Bool.{Bool, true, false, ◌&&◌}
use mathlib.Core.Path.{◌≡◌, refl}
use mathlib.Core.Logic.{◌≢◌, inl, inr}
use mathlib.Core.Option.{Option, none, some}
use mathlib.Core.List.{List, [], ◌∷◌}
use native.Mathlib.Omega.{arith}
use text.Mathlib.Text.{◌==◌}
use text.Mathlib.TextEquality.{eq_iff}
use agent_gateway_control.Prelude.Tests.{if◌then◌else◌, Bool-cases}
use agent_gateway_control.Prelude.Lists.{All}

module _ {ℓ} {R : Type ℓ} where
  -- update … set … where …
  abbrev pub update_where : (R → Bool) → (R → R) → List R → List R
  update_where test set [] = []
  update_where test set (r ∷ rs) = (if test r then set r else r) ∷ update_where test set rs

  -- the rows that `returning` gives back, as the update left them
  abbrev pub returning : (R → Bool) → (R → R) → List R → List R
  returning test set [] = []
  returning test set (r ∷ rs) =
      let rest = returning test set rs in if test r then set r ∷ rest else rest

  -- `const [row] = …`
  abbrev pub first_row : List R → Option R
  first_row [] = none
  first_row (r ∷ rs) = some r

  pub All-update_where {κ} :
      (P : R → Type κ) (test : R → Bool) (set : R → R) (rs : List R)
      → ((r : R) → P r → P (if test r then set r else r))
      → All P rs
      → All P (update_where test set rs)
  All-update_where P test set [] f h = tt
  All-update_where P test set (r ∷ rs) f h = (f r h.0, All-update_where P test set rs f h.1)

-- A primary key.
module _ {ℓ} {R : Type ℓ} (key : R → String) where
  abbrev pub find_row : String → List R → Option R
  find_row k [] = none
  find_row k (r ∷ rs) = if key r == k then some r else find_row k rs

  -- No two rows share the key.
  abbrev pub HasUniqueKeys : List R → Type 0
  HasUniqueKeys [] = Unit
  HasUniqueKeys (r ∷ rs) = All (λ s. (key s == key r) ≡ false) rs × HasUniqueKeys rs

  -- A row after an update.
  abbrev pub touched : (R → Bool) → (R → R) → Option R → Option R
  touched test set none = none
  touched test set (some r) = some (if test r then set r else r)

  pub find_row-update_where :
      (k : String) (test : R → Bool) (set : R → R) (rs : List R)
      → ((r : R) → key (set r) ≡ key r)
      → find_row k (update_where test set rs) ≡ touched test set (find_row k rs)
  find_row-update_where k test set [] keeps = refl
  find_row-update_where k test set (r ∷ rs) keeps = elim (Bool-cases (test r)) [
    | inl e ↦ rw (e, keeps r) (ground (arith, find_row-update_where k test set rs keeps))
    | inr e ↦ rw e (ground (arith, find_row-update_where k test set rs keeps))
  ]

  find_row_absent :
      (k : String) (rs : List R) → All (λ s. (key s == k) ≡ false) rs → find_row k rs ≡ none
  find_row_absent k [] h = refl
  find_row_absent k (r ∷ rs) h = ground (arith, find_row_absent k rs h.1)

  -- What an update of one key gives back.
  abbrev pub given_back : (R → Bool) → (R → R) → Option R → Option R
  given_back test set none = none
  given_back test set (some r) = if test r then some (set r) else none

  pub first_row-returning :
      (k : String) (test : R → Bool) (set : R → R) (rs : List R)
      → HasUniqueKeys rs
      → first_row (returning (λ r. key r == k && test r) set rs)
        ≡ given_back test set (find_row k rs)
  first_row-returning k test set [] u = refl
  first_row-returning k test set (r ∷ rs) u = elim (Bool-cases (key r == k)) [
    | inl e ↦
        let same = (eq_iff (key r) k).0 e in
        let absent : find_row k rs ≡ none = find_row_absent k rs (rw same at (u.0)) in
        rw e (ground (arith, first_row-returning k test set rs u.1, absent))
    | inr e ↦ rw e (first_row-returning k test set rs u.1)
  ]

  key-if :
      (b : Bool) (set : R → R) (r : R)
      → ((r : R) → key (set r) ≡ key r)
      → key (if b then set r else r) ≡ key r
  key-if true set r keeps = keeps r
  key-if false set r keeps = refl

  pub HasUniqueKeys-update_where :
      (test : R → Bool) (set : R → R) (rs : List R)
      → ((r : R) → key (set r) ≡ key r)
      → HasUniqueKeys rs
      → HasUniqueKeys (update_where test set rs)
  HasUniqueKeys-update_where test set [] keeps u = tt
  HasUniqueKeys-update_where test set (r ∷ rs) keeps u = (
    rw (key-if (test r) set r keeps) (
        All-update_where (λ s. (key s == key r) ≡ false) test set rs
          (λ s h. rw (key-if (test s) set s keeps) h) u.0),
    HasUniqueKeys-update_where test set rs keeps u.1,
  )

  pub find_row-key : (k : String) (rs : List R) {r : R} → find_row k rs ≡ some r → key r ≡ k
  find_row-key k [] h = cc
  find_row-key k (s ∷ rs) {r} h = elim (Bool-cases (key s == k)) [
    | inl e ↦ ground (arith, eq_iff (key s) k)
    | inr e ↦ ground (arith, find_row-key k rs {r = r})
  ]

  -- An update that keeps to one key leaves the rows of the others alone.
  pub find_row-update_ne :
      (j k : String) (test : R → Bool) (set : R → R) (rs : List R)
      → ((r : R) → key (set r) ≡ key r)
      → ((r : R) → test r ≡ true → key r ≡ k)
      → j ≢ k
      → find_row j (update_where test set rs) ≡ find_row j rs
  find_row-update_ne j k test set [] keeps only ne = refl
  find_row-update_ne j k test set (r ∷ rs) keeps only ne = elim (Bool-cases (test r)) [
    | inl e ↦
        let rest = find_row-update_ne j k test set rs keeps only ne in
        rw (e, keeps r) (ground (arith, rest, eq_iff (key r) j, only r e))
    | inr e ↦ rw e (ground (arith, find_row-update_ne j k test set rs keeps only ne))
  ]
