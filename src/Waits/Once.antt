-- ===== src/Waits/Once.antt =====
-- resolveWait and cancelActiveWaits of packages/core/src/services/wait-store.ts, extendApprovalWait of
-- approval-store.ts and insertWait of runs.ts, one at a time.
use mathlib.Core.Option.{some-injective}
use agent_gateway_control.Prelude.{
  ℕ, String, str_eq, eq_iff, Bool, true, false, ◌||◌, not, Option, none, some, List, [], ◌∷◌, ◌≡◌,
  refl, sym, ap, ◌∙◌, inl, inr, Bool-cases, Option-cases, All, All-imp, All-append, arith,
  if◌then◌else◌,
}
use agent_gateway_control.Prelude.Table.{
  update_where, returning, first_row, All-update_where, find_row, HasUniqueKeys, given_back,
  first_row-returning,
}
use agent_gateway_control.Waits.Store.{
  WaitRow, is_active, resolved_row, cancelled_row, extended_row, is_open, is_sibling, resolve_wait,
  is_open_of, insert_wait,
}
use agent_gateway_control.Waits.Consumed.{
  id_of, fresh, closed, AllFresh, AllClosed, IsConsumedOnce, update_where-none, All-find_row,
  same_run, resolved_row-consumed, cancelled_row-closed, other_run-IsConsumedOnce,
}

abbrev after_both : ℕ → String → String → Bool → String → List WaitRow → List WaitRow
after_both now k event timed run waits =
    update_where (is_sibling run k) (cancelled_row now)
      (update_where (is_open k) (resolved_row now event timed) waits)

after_both-AllClosed :
    (now : ℕ) (k event run : String) (timed : Bool) (waits : List WaitRow)
    → AllFresh run waits
    → AllClosed run k (after_both now k event timed run waits)
after_both-AllClosed now k event run timed [] f = tt
after_both-AllClosed now k event run timed (y ∷ waits) f = (
  cancelled_row-closed now k run _ (resolved_row-consumed now k event run timed y f.0),
  after_both-AllClosed now k event run timed waits f.1,
)

All-every : (P : WaitRow → Type 0) (rs : List WaitRow) → ((y : WaitRow) → P y) → All P rs
All-every P [] f = tt
All-every P (r ∷ rs) f = (f r, All-every P rs f)

not_both_runs :
    (a run other : String)
    → str_eq run other ≡ false
    → (not (str_eq a run) || not (str_eq a other)) ≡ true
not_both_runs a run other n = elim (Bool-cases (str_eq a run)) [
  | inl e ↦
      let it : a ≡ run = (eq_iff a run).0 e in
      let off : str_eq a other ≡ false = rw it n in ground (arith, off)
  | inr e ↦ ground (arith, e)
]

after_both-other :
    (now : ℕ) (k event run other : String) (timed : Bool) (waits : List WaitRow)
    → str_eq run other ≡ false
    → All (λ y. (not (str_eq y.id k) || str_eq y.created_by_run_id run) ≡ true) waits
    → IsConsumedOnce other waits
    → IsConsumedOnce other (after_both now k event timed run waits)
after_both-other now k event run other timed waits n same h =
    other_run-IsConsumedOnce other (is_sibling run k) (cancelled_row now) _ (λ y. refl)
      (All-every _ _
        (λ y. let off = not_both_runs y.created_by_run_id run other n in ground (arith, off)))
      (other_run-IsConsumedOnce other (is_open k) (resolved_row now event timed) waits (λ y. refl)
        (All-imp _ _ waits
          (λ y m. let off = not_both_runs y.created_by_run_id run other n in ground (arith, off, m))
          same)
        h)

-- The row that comes back was active, and its run is still its own.
Returned : String → List WaitRow → WaitRow → Type 0
Returned k waits v =
    (w : WaitRow) × find_row id_of k waits ≡ some w
    × is_active w.status ≡ true
    × v.created_by_run_id ≡ w.created_by_run_id

given_back-Returned :
    (now : ℕ) (k event : String) (timed : Bool) (waits : List WaitRow) (v : WaitRow)
    (found : Option WaitRow)
    → find_row id_of k waits ≡ found
    → given_back id_of (λ r. is_active r.status) (resolved_row now event timed) found ≡ some v
    → Returned k waits v
unfolding Returned
given_back-Returned now k event timed waits v none f g = absurd (ground (arith, g))
given_back-Returned now k event timed waits v (some w) f g =
    elim (Bool-cases (is_active w.status)) [
      | inl a ↦ (
        w,
        f,
        a,
        sym (
            ap (λ x. x.created_by_run_id)
              (some-injective (resolved_row now event timed w) v (rw a at g))),
      )
      | inr a ↦ absurd (let bad = rw a at g in ground (arith, bad))
    ]

resolved_same :
    (now : ℕ) (k event run : String) (timed : Bool) (waits : List WaitRow) (w : WaitRow)
    → find_row id_of k waits ≡ some w
    → is_active w.status ≡ true
    → str_eq w.created_by_run_id run ≡ true
    → IsConsumedOnce run waits
    → IsConsumedOnce run (after_both now k event timed w.created_by_run_id waits)
resolved_same now k event run timed waits w f a q (inl fresh) =
    let it : w.created_by_run_id ≡ run = (eq_iff w.created_by_run_id run).0 q in
    rw it (inr (k, after_both-AllClosed now k event run timed waits fresh))
resolved_same now k event run timed waits w f a q (inr (id, done)) = absurd (
    let shut = All-find_row (λ y. closed run id y ≡ true) k waits w done f in
    ground (arith, shut, a, q))

resolved_once :
    (now : ℕ) (k event run : String) (timed : Bool) (waits : List WaitRow) (v : WaitRow)
    → HasUniqueKeys id_of waits
    → Returned k waits v
    → IsConsumedOnce run waits
    → IsConsumedOnce run (after_both now k event timed v.created_by_run_id waits)
unfolding Returned
resolved_once now k event run timed waits v u (w, f, a, e) once =
    rw e (elim (Bool-cases (str_eq w.created_by_run_id run)) [
      | inl q ↦ resolved_same now k event run timed waits w f a q once
      | inr q ↦
          after_both-other now k event w.created_by_run_id run timed waits q
            (same_run k waits w u f) once
    ])

pub resolve_wait-IsConsumedOnce :
    (now : ℕ) (k event : String) (timed : Bool) (waits : List WaitRow)
    → HasUniqueKeys id_of waits
    → ((run : String) → IsConsumedOnce run waits)
    → (run : String) → IsConsumedOnce run ((resolve_wait now k event timed waits).0)
unfolding resolve_wait
resolve_wait-IsConsumedOnce now k event timed waits u once run =
    elim (Option-cases (first_row (returning (is_open k) (resolved_row now event timed) waits))) [
      | inl e ↦ rw e (rw (update_where-none _ _ waits e) (once run))
      | inr (v, e) ↦ rw e (
          resolved_once now k event run timed waits v u
            (given_back-Returned now k event timed waits v (find_row id_of k waits) refl (
              sym (
                first_row-returning id_of k (λ r. is_active r.status) (resolved_row now event timed)
                  waits u)
              ∙ e))
            (once run))
    ]

cancelled_row-fresh :
    (now : ℕ) (run : String) (t : Bool) (y : WaitRow)
    → fresh run y ≡ true
    → fresh run (if t then cancelled_row now y else y) ≡ true
cancelled_row-fresh now run true y h = ground arith
cancelled_row-fresh now run false y h = h

cancelled_row-still_closed :
    (now : ℕ) (run id : String) (t : Bool) (y : WaitRow)
    → closed run id y ≡ true
    → closed run id (if t then cancelled_row now y else y) ≡ true
cancelled_row-still_closed now run id true y h = ground arith
cancelled_row-still_closed now run id false y h = h

pub cancelled_row-IsConsumedOnce :
    (now : ℕ) (agent run : String) (waits : List WaitRow)
    → IsConsumedOnce run waits
    → IsConsumedOnce run (update_where (is_open_of agent) (cancelled_row now) waits)
cancelled_row-IsConsumedOnce now agent run waits (inl f) = inl (
    All-update_where (λ y. fresh run y ≡ true) (is_open_of agent) (cancelled_row now) waits
      (λ y h. cancelled_row-fresh now run (is_open_of agent y) y h) f)
cancelled_row-IsConsumedOnce now agent run waits (inr (id, c)) = inr (
  id,
  All-update_where (λ y. closed run id y ≡ true) (is_open_of agent) (cancelled_row now) waits
      (λ y h. cancelled_row-still_closed now run id (is_open_of agent y) y h) c,
)

extended_row-keeps :
    (until : ℕ) (Q : WaitRow → Bool)
    → ((x : WaitRow) → Q (extended_row until x) ≡ Q x)
    → (t : Bool) (y : WaitRow) → Q y ≡ true
    → Q (if t then extended_row until y else y) ≡ true
extended_row-keeps until Q same true y h = same y ∙ h
extended_row-keeps until Q same false y h = h

-- An update that moves the timeout of some waits.
pub extended_row-IsConsumedOnce :
    (until : ℕ) (test : WaitRow → Bool) (run : String) (waits : List WaitRow)
    → IsConsumedOnce run waits
    → IsConsumedOnce run (update_where test (extended_row until) waits)
extended_row-IsConsumedOnce until test run waits (inl f) = inl (
    All-update_where (λ y. fresh run y ≡ true) test (extended_row until) waits
      (λ y h. extended_row-keeps until (fresh run) (λ x. refl) (test y) y h) f)
extended_row-IsConsumedOnce until test run waits (inr (id, c)) = inr (
  id,
  All-update_where (λ y. closed run id y ≡ true) test (extended_row until) waits
      (λ y h. extended_row-keeps until (closed run id) (λ x. refl) (test y) y h) c,
)

-- A wait is stored under an id that no row has, and before any wait of its run is consumed: a run
-- stores its waits in the transaction that ends it.
abbrev pub MayInsert : String → String → List WaitRow → Type 0
MayInsert id run waits = All (λ y. str_eq y.id id ≡ false) waits × AllFresh run waits

pub insert_wait-IsConsumedOnce :
    (id run agent correlation : String) (timeout : ℕ) (waits : List WaitRow) (other : String)
    → AllFresh run waits
    → IsConsumedOnce other waits
    → IsConsumedOnce other (insert_wait id run agent correlation timeout waits)
unfolding insert_wait
insert_wait-IsConsumedOnce id run agent correlation timeout waits other f (inl h) =
    inl (All-append (λ y. fresh other y ≡ true) waits _ h (ground arith, tt))
insert_wait-IsConsumedOnce id run agent correlation timeout waits other f (inr (k, c)) =
    elim (Bool-cases (str_eq run other)) [
      | inl e ↦
          let it : run ≡ other = (eq_iff run other).0 e in
          inl (All-append (λ y. fresh other y ≡ true) waits _ (rw it at f) (ground arith, tt))
      | inr e ↦ inr (k, All-append (λ y. closed other k y ≡ true) waits _ c (ground (arith, e), tt))
    ]

differs : (a b : String) → str_eq b a ≡ false → str_eq a b ≡ false
differs a b n = elim (Bool-cases (str_eq a b)) [
  | inl e ↦ absurd (let same = (eq_iff b a).1 (sym ((eq_iff a b).0 e)) in ground (arith, same, n))
  | inr e ↦ e
]

pub insert_wait-HasUniqueKeys :
    (id run agent correlation : String) (timeout : ℕ) (waits : List WaitRow)
    → All (λ y. str_eq y.id id ≡ false) waits
    → HasUniqueKeys id_of waits
    → HasUniqueKeys id_of (insert_wait id run agent correlation timeout waits)
unfolding insert_wait
insert_wait-HasUniqueKeys id run agent correlation timeout [] n u = (tt, tt)
insert_wait-HasUniqueKeys id run agent correlation timeout (y ∷ waits) n u = (
  All-append (λ s. str_eq s.id y.id ≡ false) waits _ u.0 (differs id y.id n.0, tt),
  insert_wait-HasUniqueKeys id run agent correlation timeout waits n.1 u.1,
)
