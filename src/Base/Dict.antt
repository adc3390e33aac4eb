-- ===== src/Base/Dict.antt =====
-- Python's `dict` as an association list in order of insertion: a write to a key that is present
-- keeps the key's place.
use mathlib.Core.Bool.{Bool, true, false}
use migration_status_check.Base.Equality.{Eq, ◌==◌, eq_false_of_ne, if◌then◌else◌, Bool-cases}
use migration_status_check.Base.Lists.{All, All-filter, filter}
use mathlib.Core.Logic.{◌≢◌, inl, inr}
use mathlib.Core.Path.{◌≡◌, refl, sym, ap, subst}
use mathlib.Core.Option.{Option, none, some}
use mathlib.Core.List.{List, [], ◌∷◌}
use native.Mathlib.Omega.{arith}

abbrev pub Dict {ℓ κ} : Type ℓ → Type κ → Type (ℓ ⊔ κ)
Dict K V = List (K × V)

abbrev pub is_some {μ} : {A : Type μ} → Option A → Bool
is_some none = false
is_some (some a) = true

module _ {ℓ κ} {K : Type ℓ} {V : Type κ} ⦃e : Eq K⦄ where
  -- `d.get(k)`
  unfoldable pub get : Dict K V → K → Option V
  get [] k = none
  get ((j, v) ∷ d) k = if j == k then some v else get d k

  -- `d[k] = v`
  unfoldable pub put : Dict K V → K → V → Dict K V
  put [] k v = (k, v) ∷ []
  put ((j, w) ∷ d) k v = if j == k then (k, v) ∷ d else (j, w) ∷ put d k v

  -- `d.pop(k, None)`, `del d[k]`
  unfoldable pub remove : Dict K V → K → Dict K V
  remove [] k = []
  remove ((j, w) ∷ d) k = let rest = remove d k in if j == k then rest else (j, w) ∷ rest

  -- `k in d`
  unfoldable pub has : Dict K V → K → Bool
  has d k = is_some (get d k)

  -- `list(d)`
  abbrev pub keys : Dict K V → List K
  keys [] = []
  keys ((j, w) ∷ d) = j ∷ keys d

  -- Reading after a write
  pub get-put :
      (d : Dict K V) (written read : K) (value : V)
      → get (put d written value) read ≡ (if written == read then some value else get d read)
  unfolding get put
  get-put [] k j v = refl
  get-put ((i, w) ∷ d) k j v =
      ground (arith, e.test_iff k j, e.test_iff i k, e.test_iff i j, get-put d k j v)

  -- Reading after a removal
  pub get-remove :
      (d : Dict K V) (removed read : K)
      → get (remove d removed) read ≡ (if removed == read then none else get d read)
  unfolding get remove
  get-remove [] k j = ground arith
  get-remove ((i, w) ∷ d) k j =
      ground (arith, e.test_iff k j, e.test_iff i k, e.test_iff i j, get-remove d k j)

  module _ {μ} (P : K × V → Type μ) where
    pub All-put : (d : Dict K V) (k : K) (v : V) → P (k, v) → All P d → All P (put d k v)
    unfolding put
    All-put [] k v h a = (h, tt)
    All-put ((j, w) ∷ d) k v h a = elim (Bool-cases (j == k)) [
      | inl q ↦ rw q (h, a.1)
      | inr q ↦ rw q (a.0, All-put d k v h a.1)
    ]

    pub All-remove : (d : Dict K V) (k : K) → All P d → All P (remove d k)
    unfolding remove
    All-remove [] k a = tt
    All-remove ((j, w) ∷ d) k a = elim (Bool-cases (j == k)) [
      | inl q ↦ rw q (All-remove d k a.1)
      | inr q ↦ rw q (a.0, All-remove d k a.1)
    ]

    pub All-get : (d : Dict K V) (k : K) {v : V} → All P d → get d k ≡ some v → P (k, v)
    unfolding get
    All-get [] k a h = cc
    All-get ((j, w) ∷ d) k {v} a h = elim (Bool-cases (j == k)) [
      | inl q ↦ (let r : w ≡ v = ground (arith, q, h) in subst P (cc ((e.test_iff j k).0 q, r)) a.0)
      | inr q ↦ All-get d k a.1 (ground (arith, q, h))
    ]

  pub All-keys_ne : (d : Dict K V) (k : K) → get d k ≡ none → All (λ p. p.0 ≢ k) d
  unfolding get
  All-keys_ne [] k h = tt
  All-keys_ne ((j, w) ∷ d) k h = elim (Bool-cases (j == k)) [
    | inl q ↦ absurd (ground (arith, q, h))
    | inr q ↦ (
      λ r. absurd (ground (arith, q, (e.test_iff j k).1 r)),
      All-keys_ne d k (ground (arith, q, h)),
    )
  ]

  -- Every key stands once, as in any `dict`.
  abbrev pub IsDict : Dict K V → Type ℓ
  IsDict [] = Unit
  IsDict ((j, w) ∷ d) = All (λ p. p.0 ≢ j) d × IsDict d

  pub get-All_ne : (d : Dict K V) (k : K) → All (λ p. p.0 ≢ k) d → get d k ≡ none
  unfolding get
  get-All_ne [] k a = refl
  get-All_ne ((j, w) ∷ d) k a = rw (eq_false_of_ne j k a.0) (get-All_ne d k a.1)

  pub filter-IsDict : (p : K × V → Bool) (d : Dict K V) → IsDict d → IsDict (filter p d)
  filter-IsDict p [] u = tt
  filter-IsDict p ((j, w) ∷ d) u = elim (Bool-cases (p (j, w))) [
    | inl q ↦ rw q (All-filter (λ p. p.0 ≢ j) p d u.0, filter-IsDict p d u.1)
    | inr q ↦ rw q (filter-IsDict p d u.1)
  ]

  pub put-IsDict : (d : Dict K V) (k : K) (v : V) → IsDict d → IsDict (put d k v)
  unfolding put
  put-IsDict [] k v u = (tt, tt)
  put-IsDict ((j, w) ∷ d) k v u = elim (Bool-cases (j == k)) [
    | inl q ↦ rw q (subst (λ i. All (λ p. p.0 ≢ i) d) ((e.test_iff j k).0 q) u.0, u.1)
    | inr q ↦ rw q (
      All-put (λ p. p.0 ≢ j) d k v (λ r. ground (arith, q, (e.test_iff j k).1 (sym r))) u.0,
      put-IsDict d k v u.1,
    )
  ]

  pub remove-IsDict : (d : Dict K V) (k : K) → IsDict d → IsDict (remove d k)
  unfolding remove
  remove-IsDict [] k u = tt
  remove-IsDict ((j, w) ∷ d) k u = elim (Bool-cases (j == k)) [
    | inl q ↦ rw q (remove-IsDict d k u.1)
    | inr q ↦ rw q (All-remove (λ p. p.0 ≢ j) d k u.0, remove-IsDict d k u.1)
  ]

  abbrev pub kept_if : (K × V → Bool) → K → Option V → Option V
  kept_if p k none = none
  kept_if p k (some v) = if p (k, v) then some v else none

  pub get-filter :
      (p : K × V → Bool) (d : Dict K V) (k : K)
      → IsDict d
      → get (filter p d) k ≡ kept_if p k (get d k)
  unfolding get
  get-filter p [] k u = refl
  get-filter p ((j, w) ∷ d) k u = elim (Bool-cases (j == k)) [
    | inl q ↦
        let same = (e.test_iff j k).0 q in
        let gone =
          get-All_ne (filter p d) k
            (All-filter (λ p. p.0 ≢ k) p d (subst (λ i. All (λ p. p.0 ≢ i) d) same u.0)) in
        elim (Bool-cases (p (j, w))) [
          | inl r ↦ ground (arith, q, r, ap (λ i. p (i, w)) same)
          | inr r ↦ ground (arith, q, r, gone, ap (λ i. p (i, w)) same)
        ]
    | inr q ↦ elim (Bool-cases (p (j, w))) [
      | inl r ↦ ground (arith, q, r, get-filter p d k u.1)
      | inr r ↦ ground (arith, q, r, get-filter p d k u.1)
    ]
  ]

pub ruleset dict_laws = (get-put, get-remove)
