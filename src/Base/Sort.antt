-- ===== src/Base/Sort.antt =====
-- `sorted`: a stable sort by insertion, and the sorted union of two sets of texts.
pub mod Counts
use Prim.Native.Nat.{Ordering}
use Prim.Native.String.{String, compare}
use mathlib.Core.Logic.{inl, inr}
use mathlib.Core.Bool.{Bool, true, false}
use mathlib.Core.List.{List, [], ◌∷◌, Perm, Memᴰ}
use mathlib.Core.List.Perm
use migration_status_check.Base.Equality.{Eq, string_eq, if◌then◌else◌, Bool-cases}
use migration_status_check.Base.Lists.{All, contains}

-- `a <= b` of texts
abbrev pub text_le : String → String → Bool
text_le a b = elim (compare a b) [ Ordering.gt ↦ false | _ ↦ true ]

module _ {ℓ} {A : Type ℓ} (le : A → A → Bool) where
  unfoldable pub insert_by : A → List A → List A
  insert_by x [] = x ∷ []
  insert_by x (y ∷ ys) = if le x y then x ∷ y ∷ ys else y ∷ insert_by x ys

  -- `sorted(xs, key=...)`: equal elements keep their order.
  unfoldable pub sort_by : List A → List A
  sort_by [] = []
  sort_by (x ∷ xs) = insert_by x (sort_by xs)

  insert_by-perm : (x : A) (ys : List A) → Perm (insert_by x ys) (x ∷ ys)
  unfolding insert_by
  insert_by-perm x [] = Perm.rfl
  insert_by-perm x (y ∷ ys) = elim (Bool-cases (le x y)) [
    | inl q ↦ rw q Perm.rfl
    | inr q ↦ rw q (Perm.trans (Perm.cons y (insert_by-perm x ys)) (Perm.swap x y ys))
  ]

  pub sort_by-perm : (xs : List A) → Perm (sort_by xs) xs
  unfolding sort_by
  sort_by-perm [] = Perm.rfl
  sort_by-perm (x ∷ xs) = Perm.trans (insert_by-perm x (sort_by xs)) (Perm.cons x (sort_by-perm xs))

module _ {ℓ} {A : Type ℓ} (le : A → A → Bool) where
  insert_by-mem : (x y : A) (ys : List A) → Memᴰ x (y ∷ ys) → Memᴰ x (insert_by le y ys)
  unfolding insert_by
  insert_by-mem x y [] m = m
  insert_by-mem x y (z ∷ zs) m = elim (Bool-cases (le y z)) [
    | inl q ↦ rw q m
    | inr q ↦ rw q (elim m [
      | Memᴰ.head e ↦ Memᴰ.tail (insert_by-mem x y zs (Memᴰ.head e))
      | Memᴰ.tail (Memᴰ.head e) ↦ Memᴰ.head e
      | Memᴰ.tail (Memᴰ.tail k) ↦ Memᴰ.tail (insert_by-mem x y zs (Memᴰ.tail k))
    ])
  ]

  pub sort_by-mem : (x : A) (xs : List A) → Memᴰ x xs → Memᴰ x (sort_by le xs)
  unfolding sort_by
  sort_by-mem x [] m = elim m [ ]
  sort_by-mem x (y ∷ xs) (Memᴰ.head e) = insert_by-mem x y (sort_by le xs) (Memᴰ.head e)
  sort_by-mem x (y ∷ xs) (Memᴰ.tail m) =
      insert_by-mem x y (sort_by le xs) (Memᴰ.tail (sort_by-mem x xs m))

-- `sorted(xs)` of texts
abbrev pub sorted : List String → List String
sorted xs = sort_by text_le xs

-- The elements of `set(xs)`, each once
abbrev pub distinct {ℓ} : {A : Type ℓ} ⦃e : Eq A⦄ → List A → List A
distinct [] = []
distinct (x ∷ xs) = if contains xs x then distinct xs else x ∷ distinct xs

-- `sorted(set(xs))`
unfoldable pub sorted_set : List String → List String
sorted_set xs = sorted (distinct xs)

insert_by-All {ℓ κ} :
    {A : Type ℓ} (P : A → Type κ) (le : A → A → Bool) (x : A) (ys : List A)
    → P x
    → All P ys
    → All P (insert_by le x ys)
unfolding insert_by
insert_by-All P le x [] h a = (h, tt)
insert_by-All P le x (y ∷ ys) h a = elim (Bool-cases (le x y)) [
  | inl q ↦ rw q (h, a)
  | inr q ↦ rw q (a.0, insert_by-All P le x ys h a.1)
]

pub sort_by-All {ℓ κ} :
    {A : Type ℓ} (P : A → Type κ) (le : A → A → Bool) (xs : List A)
    → All P xs
    → All P (sort_by le xs)
unfolding sort_by
sort_by-All P le [] a = tt
sort_by-All P le (x ∷ xs) a = insert_by-All P le x (sort_by le xs) a.0 (sort_by-All P le xs a.1)

distinct-All {κ} : (P : String → Type κ) (xs : List String) → All P xs → All P (distinct xs)
distinct-All P [] a = tt
distinct-All P (x ∷ xs) a = elim (Bool-cases (contains xs x)) [
  | inl q ↦ rw q (distinct-All P xs a.1)
  | inr q ↦ rw q (a.0, distinct-All P xs a.1)
]

pub sorted_set-All {κ} : (P : String → Type κ) (xs : List String) → All P xs → All P (sorted_set xs)
unfolding sorted_set
sorted_set-All P xs a = sort_by-All P text_le (distinct xs) (distinct-All P xs a)
