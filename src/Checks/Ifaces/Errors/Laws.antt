-- ===== src/Checks/Ifaces/Errors/Laws.antt =====
-- When the error counters of an interface are a fault (migration_validator/checks/ifaces.py).
use mathlib.Core.List.{Memᴰ}
use migration_status_check.Base.Dict
use migration_status_check.Base.Dict.{Dict}
use migration_status_check.Base.Integer.{ℤ, pos, negsuc, pos_part, neg_part}
use migration_status_check.Base.{
  zero, suc, String, Bool, true, false, not, none, some, [], ◌∷◌, filter, any, length, ◌==◌, nat_eq,
  string_eq, ◌≡◌, refl, sym, ap, ◌∙◌, Option, All, All-mem, ◌<◌, ◌↔◌, Option-cases, any_of_mem,
  Bool-cases, inl, inr, arith,
}
use migration_status_check.Models.Status.{Outcome, broken}
use migration_status_check.Checks.Ifaces.Errors.{
  Counters, is_null, total_of, sums_to_zero, or_zero, has_grown, nonzero_finding, errors_finding,
}

-- The counters of a device are never negative.
abbrev pub IsCount : String × ℤ → Type 0
IsCount e = neg_part e.1 ≡ 0

abbrev pub is_broken : Outcome → Bool
is_broken broken = true
is_broken _ = false

abbrev pub is_nonzero : String × ℤ → Bool
is_nonzero e = not (is_null e.1)

length-filter_zero :
    (p : String × ℤ → Bool) (xs : Counters) → (length (filter p xs) == 0) ≡ not (any p xs)
length-filter_zero p [] = refl
length-filter_zero p (x ∷ xs) = elim (Bool-cases (p x)) [
  | inl q ↦ rw q (ground arith)
  | inr q ↦ rw q (length-filter_zero p xs)
]

no_negative : (c : Counters) → All IsCount c → total_of neg_part c ≡ 0
unfolding total_of
no_negative [] h = refl
no_negative ((key, n) ∷ c) h = omega (arith, h.0, no_negative c h.1)

any-is_nonzero : (c : Counters) → All IsCount c → any is_nonzero c ≡ not (total_of pos_part c == 0)
unfolding total_of
any-is_nonzero [] h = refl
any-is_nonzero ((key, pos zero) ∷ c) h = ground (arith, any-is_nonzero c h.1)
any-is_nonzero ((key, pos (suc n)) ∷ c) h = ground arith
any-is_nonzero ((key, negsuc n) ∷ c) h = absurd (omega (arith, h.0))

sums_to_zero-any : (c : Counters) → All IsCount c → sums_to_zero c ≡ not (any is_nonzero c)
sums_to_zero-any c h = ground (arith, no_negative c h, any-is_nonzero c h)

-- A counter that is zero has not grown.
none_grown :
    (baseline c : Counters)
    → ((key : String) → neg_part (or_zero (Dict.get baseline key)) ≡ 0)
    → All IsCount c
    → any is_nonzero c ≡ false
    → any (has_grown baseline) c ≡ false
none_grown baseline [] b h z = refl
none_grown baseline ((key, pos zero) ∷ c) b h z =
    ground (arith, b key, none_grown baseline c b h.1 z)
none_grown baseline ((key, pos (suc n)) ∷ c) b h z = absurd (ground (arith, z))
none_grown baseline ((key, negsuc n) ∷ c) b h z = absurd (omega (arith, h.0))

-- The counter is greater than in the baseline, where one that the baseline does not have counts as zero.
pub data HasGrown (baseline : Counters) (e : String × ℤ) : Type 0 where
  since :
      (was : ℤ)
      → Dict.get baseline e.0 ≡ some was
      → pos_part was < pos_part e.1
      → HasGrown baseline e
  appeared : Dict.get baseline e.0 ≡ none → 0 < pos_part e.1 → HasGrown baseline e

-- Some counter of the interface satisfies the predicate.
abbrev pub HasCounter : (String × ℤ → Type 0) → Counters → Type 0
HasCounter P c = (e : String × ℤ) × (Memᴰ e c × P e)

any-HasCounter :
    (P : String × ℤ → Type 0) (p : String × ℤ → Bool) (c : Counters)
    → ((e : String × ℤ) → Memᴰ e c → p e ≡ true → P e)
    → any p c ≡ true
    → HasCounter P c
any-HasCounter P p [] h q = cc
any-HasCounter P p (e ∷ c) h q = elim (Bool-cases (p e)) [
  | inl t ↦ (e, (Memᴰ.head refl, h e (Memᴰ.head refl) t))
  | inr f ↦
      let (x, (m, k)) = any-HasCounter P p c (λ x m. h x (Memᴰ.tail m)) (ground (arith, f, q)) in
      (x, (Memᴰ.tail m, k))
]

HasCounter-any :
    (P : String × ℤ → Type 0) (p : String × ℤ → Bool) (c : Counters)
    → ((e : String × ℤ) → Memᴰ e c → P e → p e ≡ true)
    → HasCounter P c
    → any p c ≡ true
HasCounter-any P p c h (e, (m, k)) = any_of_mem p e c m (h e m k)

count_of_get :
    (baseline : Counters) (key : String) (was : ℤ)
    → All IsCount baseline
    → Dict.get baseline key ≡ some was
    → neg_part was ≡ 0
unfolding Dict.get
count_of_get [] key was h q = cc
count_of_get ((j, n) ∷ d) key was h q = elim (Bool-cases (j == key)) [
  | inl t ↦ ground (arith, t, q, h.0)
  | inr f ↦ count_of_get d key was h.1 (ground (arith, f, q))
]

or_zero-count :
    (baseline : Counters) (key : String)
    → All IsCount baseline
    → neg_part (or_zero (Dict.get baseline key)) ≡ 0
or_zero-count baseline key h = elim (Option-cases (Dict.get baseline key)) [
  | inl q ↦ rw q refl
  | inr (was, q) ↦ rw q (count_of_get baseline key was h q)
]

some_same : {a b : ℤ} → ◌≡◌ {A = Option ℤ} (some a) (some b) → a ≡ b
some_same h = ap (λ o. or_zero o) h

has_grown_iff :
    (baseline : Counters) (e : String × ℤ)
    → All IsCount baseline
    → IsCount e
    → (has_grown baseline e ≡ true ↔ HasGrown baseline e)
has_grown_iff baseline e h c = elim (Option-cases (Dict.get baseline e.0)) [
  | inl q ↦ (
    λ g. HasGrown.appeared q (ground (arith, q, g, c)),
    λ g. elim g [
      | HasGrown.since was r l ↦ cc (q, r)
      | HasGrown.appeared r l ↦ ground (arith, q, l, c)
    ],
  )
  | inr (was, q) ↦
      let z = count_of_get baseline e.0 was h q in
      (
        λ g. HasGrown.since was q (ground (arith, q, g, c, z)),
        λ g. elim g [
          | HasGrown.since w r l ↦
              (let same : w ≡ was = some_same (sym r ∙ q) in
                ground (arith, q, c, z, ap pos_part same, l))
          | HasGrown.appeared r l ↦ cc (q, r)
        ],
      )
]

is_nonzero_iff : (e : String × ℤ) → IsCount e → (is_nonzero e ≡ true ↔ 0 < pos_part e.1)
is_nonzero_iff e c = (λ h. ground (arith, h, c), λ h. ground (arith, h, c))

is_broken_iff : (o : Outcome) → (o ≡ broken ↔ is_broken o ≡ true)
is_broken_iff o = (λ h. rw h refl, λ h. ground (arith, h))

-- The outcome in terms of the code's own tests
errors_finding-any :
    (name label : String) (counters baseline : Counters)
    → All IsCount counters
    → ((key : String) → neg_part (or_zero (Dict.get baseline key)) ≡ 0)
    → (is_broken (errors_finding name label counters none).outcome ≡ any is_nonzero counters)
      × (is_broken (errors_finding name label counters (some baseline)).outcome
          ≡ any (has_grown baseline) counters)
unfolding errors_finding nonzero_finding
errors_finding-any name label counters baseline c b = elim (Bool-cases (any is_nonzero counters)) [
  | inl q ↦ (
    ground (arith, q, sums_to_zero-any counters c),
    ground
        (arith, q, sums_to_zero-any counters c, length-filter_zero (has_grown baseline) counters),
  )
  | inr q ↦ (
    ground (arith, q, sums_to_zero-any counters c),
    ground (arith, q, sums_to_zero-any counters c, none_grown baseline counters b c q),
  )
]

-- The counters of an interface are a fault exactly if one of them is greater than it was in the
-- baseline, where a counter that the baseline does not have counts as zero; and without a baseline
-- exactly if one of them is not zero. No counter is negative here.
pub errors_finding-is_broken :
    (name label : String) (counters baseline : Counters)
    → All IsCount counters
    → All IsCount baseline
    → ((errors_finding name label counters none).outcome ≡ broken
        ↔ HasCounter (λ e. 0 < pos_part e.1) counters)
      × ((errors_finding name label counters (some baseline)).outcome ≡ broken
          ↔ HasCounter (HasGrown baseline) counters)
errors_finding-is_broken name label counters baseline c b =
    let all_count = λ (key : String). or_zero-count baseline key b in
    let (alone, compared) = errors_finding-any name label counters baseline c all_count in
    let positive =
      λ (e : String × ℤ). λ (m : Memᴰ e counters). is_nonzero_iff e (All-mem IsCount c m) in
    let grown = λ (e : String × ℤ).
      λ (m : Memᴰ e counters). has_grown_iff baseline e b (All-mem IsCount c m) in
    (
      (
        λ h.
            any-HasCounter (λ e. 0 < pos_part e.1) is_nonzero counters (λ e m. (positive e m).0)
              (sym alone ∙ (is_broken_iff _).0 h),
        λ h. (is_broken_iff _).1 (
            alone
            ∙ HasCounter-any (λ e. 0 < pos_part e.1) is_nonzero counters (λ e m. (positive e m).1)
                h),
      ),
      (
        λ h.
            any-HasCounter (HasGrown baseline) (has_grown baseline) counters (λ e m. (grown e m).0)
              (sym compared ∙ (is_broken_iff _).0 h),
        λ h. (is_broken_iff _).1 (
            compared
            ∙ HasCounter-any (HasGrown baseline) (has_grown baseline) counters
                (λ e m. (grown e m).1) h),
      ),
    )
