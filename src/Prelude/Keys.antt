-- ===== src/Prelude/Keys.antt =====
-- Lists whose elements have different keys, through append, filter and sort.
use Prim.Native.String.{String}
use mathlib.Core.Bool.{Bool, true, false, ◌||◌}
use mathlib.Core.Path.{◌≡◌, refl, sym, subst, subst₂}
use mathlib.Core.Logic.{inl, inr}
use mathlib.Core.List.{List, [], ◌∷◌, ◌++◌}
use native.Mathlib.Omega.{arith}
use text.Mathlib.Text.{◌==◌}
use text.Mathlib.TextEquality.{eq_iff}
use agent_gateway_control.Prelude.Tests.{Bool-cases}
use agent_gateway_control.Prelude.Lists.{All, All-imp, All-filter, All-append, any, filter}
use agent_gateway_control.Prelude.Sort.{sort, insert_sorted, All-insert_sorted, All-sort}
use agent_gateway_control.Prelude.Table.{HasUniqueKeys}

module _ {ℓ} {A : Type ℓ} (key : A → String) where
  abbrev pub Differs : A → A → Type 0
  Differs a b = (key b == key a) ≡ false

  -- Every element of the first list differs from every element of the second.
  abbrev pub AreApart : List A → List A → Type 0
  AreApart xs ys = All (λ x. All (Differs x) ys) xs

  pub Differs-sym : (a b : A) → Differs a b → Differs b a
  Differs-sym a b h = ground (arith, eq_iff (key a) (key b), eq_iff (key b) (key a))

  -- An element with the key is in the list.
  abbrev pub has_key : String → List A → Bool
  has_key k xs = any (λ x. key x == k) xs

  pub Differs-has_key : (x : A) (xs : List A) → has_key (key x) xs ≡ false → All (Differs x) xs
  Differs-has_key x [] h = tt
  Differs-has_key x (y ∷ xs) h = (ground arith, Differs-has_key x xs (ground arith))

  pub HasUniqueKeys-append :
      (xs ys : List A)
      → HasUniqueKeys key xs
      → HasUniqueKeys key ys
      → AreApart xs ys
      → HasUniqueKeys key (xs ++ ys)
  HasUniqueKeys-append [] ys u v d = v
  HasUniqueKeys-append (x ∷ xs) ys u v d =
      (All-append (Differs x) xs ys u.0 d.0, HasUniqueKeys-append xs ys u.1 v d.1)

  pub HasUniqueKeys-filter :
      (p : A → Bool) (xs : List A) → HasUniqueKeys key xs → HasUniqueKeys key (filter p xs)
  HasUniqueKeys-filter p [] u = tt
  HasUniqueKeys-filter p (x ∷ xs) u = elim (Bool-cases (p x)) [
    | inl t ↦ rw t (All-filter (Differs x) p xs u.0, HasUniqueKeys-filter p xs u.1)
    | inr f ↦ rw f (HasUniqueKeys-filter p xs u.1)
  ]

  module _ (before : A → A → Bool) where
    HasUniqueKeys-insert_sorted :
        (x : A) (xs : List A)
        → All (Differs x) xs
        → HasUniqueKeys key xs
        → HasUniqueKeys key (insert_sorted before x xs)
    unfolding insert_sorted
    HasUniqueKeys-insert_sorted x [] d u = (tt, tt)
    HasUniqueKeys-insert_sorted x (y ∷ xs) d u = elim (Bool-cases (before y x)) [
      | inl t ↦ rw t (
        All-insert_sorted before (Differs y) x xs (Differs-sym x y d.0) u.0,
        HasUniqueKeys-insert_sorted x xs d.1 u.1,
      )
      | inr f ↦ rw f (d, u)
    ]

    pub HasUniqueKeys-sort :
        (xs : List A) → HasUniqueKeys key xs → HasUniqueKeys key (sort before xs)
    unfolding sort
    HasUniqueKeys-sort [] u = tt
    HasUniqueKeys-sort (x ∷ xs) u =
        HasUniqueKeys-insert_sorted x (sort before xs) (All-sort before (Differs x) xs u.0)
          (HasUniqueKeys-sort xs u.1)

    has_key-insert_sorted :
        (k : String) (x : A) (xs : List A)
        → has_key k (insert_sorted before x xs) ≡ (key x == k || has_key k xs)
    unfolding insert_sorted
    has_key-insert_sorted k x [] = refl
    has_key-insert_sorted k x (y ∷ xs) = ground (arith, has_key-insert_sorted k x xs)

    pub has_key-sort : (k : String) (xs : List A) → has_key k (sort before xs) ≡ has_key k xs
    unfolding sort
    has_key-sort k [] = refl
    has_key-sort k (x ∷ xs) =
        ground (arith, has_key-insert_sorted k x (sort before xs), has_key-sort k xs)

  pub has_key-append :
      (k : String) (xs ys : List A) → has_key k (xs ++ ys) ≡ (has_key k xs || has_key k ys)
  has_key-append k [] ys = refl
  has_key-append k (x ∷ xs) ys = ground (arith, has_key-append k xs ys)

  pub AreApart-append :
      (xs ys zs : List A) → AreApart xs ys → AreApart xs zs → AreApart xs (ys ++ zs)
  AreApart-append [] ys zs h k = tt
  AreApart-append (x ∷ xs) ys zs h k =
      (All-append (Differs x) ys zs h.0 k.0, AreApart-append xs ys zs h.1 k.1)

  AreApart-cons_right :
      (x : A) (ys zs : List A) → All (λ y. Differs y x) ys → AreApart ys zs → AreApart ys (x ∷ zs)
  AreApart-cons_right x [] zs d h = tt
  AreApart-cons_right x (y ∷ ys) zs d h = ((d.0, h.0), AreApart-cons_right x ys zs d.1 h.1)

  filter_keep :
      (p : A → Bool) (x : A) (xs : List A) → p x ≡ true → filter p (x ∷ xs) ≡ x ∷ filter p xs
  filter_keep p x xs h = rw h

  filter_drop : (p : A → Bool) (x : A) (xs : List A) → p x ≡ false → filter p (x ∷ xs) ≡ filter p xs
  filter_drop p x xs h = rw h

  -- Two halves of a list with unique keys are apart.
  pub AreApart-filter :
      (p q : A → Bool) (xs : List A)
      → ((x : A) → p x ≡ true → q x ≡ false)
      → HasUniqueKeys key xs
      → AreApart (filter p xs) (filter q xs)
  AreApart-filter p q [] d u = tt
  AreApart-filter p q (x ∷ xs) d u =
      let rest = AreApart-filter p q xs d u.1 in
      elim (Bool-cases (p x)) [
        | inl t ↦
            subst₂ AreApart (sym (filter_keep p x xs t)) (sym (filter_drop q x xs (d x t)))
              (All-filter (Differs x) q xs u.0, rest)
        | inr f ↦
            subst (λ ys. AreApart ys (filter q (x ∷ xs))) (sym (filter_drop p x xs f))
              (elim (Bool-cases (q x)) [
                | inl t ↦ subst (AreApart (filter p xs)) (sym (filter_keep q x xs t)) (
                    AreApart-cons_right x (filter p xs) (filter q xs)
                      (All-filter (λ y. Differs y x) p xs
                        (All-imp (Differs x) (λ y. Differs y x) xs (λ y e. Differs-sym x y e) u.0))
                      rest)
                | inr g ↦ subst (AreApart (filter p xs)) (sym (filter_drop q x xs g)) rest
              ])
      ]

  pub AreApart-sort_left :
      (before : A → A → Bool) (xs ys : List A) → AreApart xs ys → AreApart (sort before xs) ys
  AreApart-sort_left before xs ys h = All-sort before (λ x. All (Differs x) ys) xs h

  pub AreApart-sort_right :
      (before : A → A → Bool) (xs ys : List A) → AreApart xs ys → AreApart xs (sort before ys)
  AreApart-sort_right before xs ys h =
      All-imp (λ x. All (Differs x) ys) (λ x. All (Differs x) (sort before ys)) xs
        (λ x k. All-sort before (Differs x) ys k) h
