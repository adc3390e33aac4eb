-- ===== src/Base/Sort/Counts.antt =====
-- How often an element stands in a sorted list, a set or the keys of a dictionary.
use Prim.Native.Nat.{ℕ}
use mathlib.Core.Logic.{◌≢◌, inl, inr}
use mathlib.Core.Bool.{Bool, true, false, ◌||◌}
use mathlib.Core.Path.{◌≡◌, refl, ap, subst}
use mathlib.Core.List.{List, [], ◌∷◌, ◌++◌, map}
use native.Mathlib.Omega.{arith}
use migration_status_check.Base.Equality.{Eq, ◌==◌, eq_iff, if◌then◌else◌, Bool-cases}
use migration_status_check.Base.Lists.{contains, count_by, filter, All}
use migration_status_check.Base.Dict
use migration_status_check.Base.Dict.{Dict}
use migration_status_check.Base.Sort.{insert_by, sort_by, distinct}

-- How often an element of a set is met
abbrev pub one_if : Bool → ℕ
one_if true = 1
one_if false = 0

module _ {ℓ} {A : Type ℓ} where
  pub count_by-insert_by :
      (p : A → Bool) (le : A → A → Bool) (x : A) (ys : List A)
      → count_by p (insert_by le x ys) ≡ count_by p (x ∷ ys)
  unfolding insert_by
  count_by-insert_by p le x [] = refl
  count_by-insert_by p le x (y ∷ ys) = ground (arith, count_by-insert_by p le x ys)

  pub count_by-sort_by :
      (p : A → Bool) (le : A → A → Bool) (xs : List A) → count_by p (sort_by le xs) ≡ count_by p xs
  unfolding sort_by
  count_by-sort_by p le [] = refl
  count_by-sort_by p le (x ∷ xs) =
      ground (arith, count_by-insert_by p le x (sort_by le xs), count_by-sort_by p le xs)

  pub count_by-map {κ} :
      {B : Type κ} (p : B → Bool) (f : A → B) (xs : List A)
      → count_by p (map f xs) ≡ count_by (λ x. p (f x)) xs
  count_by-map p f [] = refl
  count_by-map p f (x ∷ xs) = ground (arith, count_by-map p f xs)

module _ {ℓ} {A : Type ℓ} ⦃e : Eq A⦄ where
  -- How often an element stands in a list
  abbrev pub occurrences : A → List A → ℕ
  occurrences k xs = count_by (λ x. x == k) xs

  pub contains-append :
      (xs ys : List A) (k : A) → contains (xs ++ ys) k ≡ (contains xs k || contains ys k)
  contains-append [] ys k = refl
  contains-append (x ∷ xs) ys k = ground (arith, contains-append xs ys k)

  pub occurrences-distinct :
      (k : A) (xs : List A) → occurrences k (distinct xs) ≡ one_if (contains xs k)
  occurrences-distinct k [] = refl
  occurrences-distinct k (x ∷ xs) = elim (Bool-cases (x == k)) [
    | inl q ↦ ground (arith, q, ap (contains xs) ((eq_iff x k).0 q), occurrences-distinct k xs)
    | inr q ↦ ground (arith, q, occurrences-distinct k xs)
  ]

  pub occurrences-filter :
      (p : A → Bool) (k : A) (xs : List A)
      → occurrences k (filter p xs) ≡ (if p k then occurrences k xs else 0)
  occurrences-filter p k [] = ground arith
  occurrences-filter p k (x ∷ xs) = elim (Bool-cases (x == k)) [
    | inl q ↦ ground (arith, q, ap p ((eq_iff x k).0 q), occurrences-filter p k xs)
    | inr q ↦ ground (arith, q, occurrences-filter p k xs)
  ]

  pub contains-filter :
      (p : A → Bool) (k : A) (xs : List A)
      → contains (filter p xs) k ≡ (if p k then contains xs k else false)
  contains-filter p k [] = ground arith
  contains-filter p k (x ∷ xs) = elim (Bool-cases (x == k)) [
    | inl q ↦ ground (arith, q, ap p ((eq_iff x k).0 q), contains-filter p k xs)
    | inr q ↦ ground (arith, q, contains-filter p k xs)
  ]

  pub contains-keys {κ} :
      {V : Type κ} (d : Dict A V) (k : A) → contains (Dict.keys d) k ≡ Dict.has d k
  unfolding Dict.has Dict.get
  contains-keys [] k = refl
  contains-keys ((j, w) ∷ d) k = ground (arith, contains-keys d k)

  has-All_ne {κ} : {V : Type κ} (d : Dict A V) (k : A) → All (λ p. p.0 ≢ k) d → Dict.has d k ≡ false
  unfolding Dict.has
  has-All_ne d k a = rw (Dict.get-All_ne d k a) refl

  pub occurrences-keys {κ} :
      {V : Type κ} (d : Dict A V) (k : A)
      → Dict.IsDict d
      → occurrences k (Dict.keys d) ≡ one_if (Dict.has d k)
  unfolding Dict.has Dict.get
  occurrences-keys [] k u = refl
  occurrences-keys ((j, w) ∷ d) k u = elim (Bool-cases (j == k)) [
    | inl q ↦ ground (
      arith,
      q,
      occurrences-keys d k u.1,
      has-All_ne d k (subst (λ i. All (λ p. p.0 ≢ i) d) ((eq_iff j k).0 q) u.0),
    )
    | inr q ↦ ground (arith, q, occurrences-keys d k u.1)
  ]
