-- ===== src/Waits/Consumed.antt =====
-- The waits of one run, and which of them are consumed (wait-store.ts).
use mathlib.Core.Option.{some-injective}
use mathlib.Core.Path.{subst}
use agent_gateway_control.Prelude.{
  ℕ, String, str_eq, eq_iff, Bool, true, false, ◌&&◌, ◌||◌, not, none, some, List, [], ◌∷◌, ◌≡◌,
  refl, sym, ap, ◌⊎◌, inl, inr, Bool-cases, All, All-imp, arith, if◌then◌else◌,
}
use agent_gateway_control.Prelude.Table.{
  update_where, returning, first_row, find_row, HasUniqueKeys,
}
use agent_gateway_control.Waits.Store.{
  WaitRow, is_active, is_resolved, resolution, resolved_row, cancelled_row, is_open, is_sibling,
}

abbrev pub id_of : WaitRow → String
id_of wait = wait.id

-- No wait of the run is consumed.
abbrev pub fresh : String → WaitRow → Bool
fresh run wait = not (str_eq wait.created_by_run_id run) || not (is_resolved wait.status)

-- No wait of the run is active any more, and none but the one with the id is consumed.
abbrev pub closed : String → String → WaitRow → Bool
closed run id wait =
    not (str_eq wait.created_by_run_id run)
    || not (is_active wait.status) && (not (is_resolved wait.status) || str_eq wait.id id)

abbrev pub AllFresh : String → List WaitRow → Type 0
AllFresh run waits = All (λ wait. fresh run wait ≡ true) waits

abbrev pub AllClosed : String → String → List WaitRow → Type 0
AllClosed run id waits = All (λ wait. closed run id wait ≡ true) waits

abbrev pub IsConsumedOnce : String → List WaitRow → Type 0
IsConsumedOnce run waits = AllFresh run waits ⊎ ((id : String) × AllClosed run id waits)

pub update_where-none :
    (test : WaitRow → Bool) (set : WaitRow → WaitRow) (rs : List WaitRow)
    → first_row (returning test set rs) ≡ none
    → update_where test set rs ≡ rs
update_where-none test set [] h = refl
update_where-none test set (r ∷ rs) h = elim (Bool-cases (test r)) [
  | inl e ↦ absurd (let bad = rw e at h in ground (arith, bad))
  | inr e ↦ rw (e, update_where-none test set rs (rw e at h)) refl
]

pub All-find_row :
    (P : WaitRow → Type 0) (k : String) (rs : List WaitRow) (w : WaitRow)
    → All P rs
    → find_row id_of k rs ≡ some w
    → P w
All-find_row P k [] w h e = absurd (ground (arith, e))
All-find_row P k (r ∷ rs) w h e = elim (Bool-cases (str_eq r.id k)) [
  | inl q ↦ subst P (some-injective r w (rw q at e)) h.0
  | inr q ↦ All-find_row P k rs w h.1 (rw q at e)
]

-- With the id as the key, the rows with one id are those of one run.
pub same_run :
    (k : String) (rs : List WaitRow) (w : WaitRow)
    → HasUniqueKeys id_of rs
    → find_row id_of k rs ≡ some w
    → All (λ y. (not (str_eq y.id k) || str_eq y.created_by_run_id w.created_by_run_id) ≡ true) rs
same_run k [] w u e = tt
same_run k (r ∷ rs) w u e = elim (Bool-cases (str_eq r.id k)) [
  | inl q ↦
      let it : r ≡ w = some-injective r w (rw q at e) in
      let run =
        (eq_iff r.created_by_run_id w.created_by_run_id).1 (ap (λ x. x.created_by_run_id) it) in
      let id = (eq_iff r.id k).0 q in
      (
        ground (arith, run),
        All-imp _ _ rs
            (λ y n. let other : str_eq y.id k ≡ false = rw (sym id) n in ground (arith, other)) u.0,
      )
  | inr q ↦ (ground (arith, q), same_run k rs w u.1 (rw q at e))
]

-- After the wait is consumed: of its run, only the wait itself may still be consumed or have its id
-- and be active no more.
abbrev pub consumed : String → String → WaitRow → Bool
consumed run id wait =
    not (str_eq wait.created_by_run_id run)
    || (not (is_active wait.status) || not (str_eq wait.id id))
      && (not (is_resolved wait.status) || str_eq wait.id id)

resolution_lem :
    (timed : Bool) (run k : String) (y : WaitRow)
    → is_open k y ≡ true
    → (not (str_eq y.created_by_run_id run)
        || (not (is_active (resolution timed)) || not (str_eq y.id k))
          && (not (is_resolved (resolution timed)) || str_eq y.id k))
      ≡ true
resolution_lem true run k y o = ground (arith, o)
resolution_lem false run k y o = ground (arith, o)

pub resolved_row-consumed :
    (now : ℕ) (k event run : String) (timed : Bool) (y : WaitRow)
    → fresh run y ≡ true
    → consumed run k (if is_open k y then resolved_row now event timed y else y) ≡ true
resolved_row-consumed now k event run timed y f = elim (Bool-cases (is_open k y)) [
  | inl o ↦ rw o (resolution_lem timed run k y o)
  | inr o ↦ rw o (ground (arith, f, o))
]

pub cancelled_row-closed :
    (now : ℕ) (k run : String) (y : WaitRow)
    → consumed run k y ≡ true
    → closed run k (if is_sibling run k y then cancelled_row now y else y) ≡ true
cancelled_row-closed now k run y c = elim (Bool-cases (is_sibling run k y)) [
  | inl s ↦ rw s (ground arith)
  | inr s ↦ rw s (ground (arith, c, s))
]

-- An update of the rows of other runs leaves what holds of the rows of a run.
other_run :
    (run : String) (Q : WaitRow → Bool) (test : WaitRow → Bool) (set : WaitRow → WaitRow)
    (rs : List WaitRow)
    → ((y : WaitRow) → (set y).created_by_run_id ≡ y.created_by_run_id)
    → All (λ y. (not (test y) || not (str_eq y.created_by_run_id run)) ≡ true) rs
    → All (λ y. (not (str_eq y.created_by_run_id run) || Q y) ≡ true) rs
    → All (λ y. (not (str_eq y.created_by_run_id run) || Q y) ≡ true) (update_where test set rs)
other_run run Q test set [] keeps o h = tt
other_run run Q test set (y ∷ rs) keeps o h = (
  elim (Bool-cases (test y)) [
    | inl t ↦
        let away : not (str_eq y.created_by_run_id run) ≡ true = rw t at o.0 in
        rw (t, keeps y, away) refl
    | inr t ↦ rw t h.0
  ],
  other_run run Q test set rs keeps o.1 h.1,
)

pub other_run-IsConsumedOnce :
    (run : String) (test : WaitRow → Bool) (set : WaitRow → WaitRow) (rs : List WaitRow)
    → ((y : WaitRow) → (set y).created_by_run_id ≡ y.created_by_run_id)
    → All (λ y. (not (test y) || not (str_eq y.created_by_run_id run)) ≡ true) rs
    → IsConsumedOnce run rs
    → IsConsumedOnce run (update_where test set rs)
other_run-IsConsumedOnce run test set rs keeps o (inl f) =
    inl (other_run run (λ y. not (is_resolved y.status)) test set rs keeps o f)
other_run-IsConsumedOnce run test set rs keeps o (inr (id, c)) = inr (
  id,
  other_run run (λ y. not (is_active y.status) && (not (is_resolved y.status) || str_eq y.id id))
      test set rs keeps o c,
)
