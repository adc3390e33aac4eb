-- ===== src/Models/Scope/Select/Laws.antt =====
-- What the view of a scope holds under each key, and which services can share a BGP session
-- (migration_validator/models/scope.py).
use mathlib.Core.List.{Memᴰ, append_assoc, append-nil}
use migration_status_check.Base.Dict
use migration_status_check.Base.Dict.{Dict}
use migration_status_check.Base.{
  ℕ, String, true, Option, none, some, List, [], ◌∷◌, ◌++◌, filter, length, ◌==◌, string_eq, ◌≡◌,
  refl, ◌≢◌, ◌∙◌, ap, sym, subst, arith, All-mem, All-filter, filter_sound, eq_false_of_ne, inl,
  inr, Bool-cases, All, eq_iff, if◌then◌else◌,
}
use migration_status_check.Models.Value.{Value, str, null, bool, int, real, nonfinite, seq, dict}
use migration_status_check.Models.Value.Access.{value_at, text_at, is_text, rows_at}
use migration_status_check.Models.Scope.{Scope}
use migration_status_check.Models.Scope.Select.{
  Record, bgp_instance, owns_bgp_peer, add_to_group, group_from, view_of, ambiguous_of, by_key,
}
use migration_status_check.Models.Scope.Select.Areas.{own_bgp}

-- The record of a group of one
abbrev pub sole : List Record → Option Record
sole (r ∷ []) = some r
sole rs = none

-- The size of a group of several
abbrev pub several : List Record → Option ℕ
several (r ∷ s ∷ rs) = some (length (r ∷ s ∷ rs))
several rs = none

abbrev records_of : Option (List Record) → List Record
records_of none = []
records_of (some rs) = rs

-- The records of one key, in their order
abbrev pub keyed : List Record → String → String → List Record
keyed records key k = filter (λ r. text_at r key == k) records

grown : Option (List Record) → Record → List Record
grown o r = elim o [ none ↦ r ∷ [] | some rs ↦ rs ++ (r ∷ []) ]

grown-records_of : (o : Option (List Record)) (r : Record) → grown o r ≡ records_of o ++ (r ∷ [])
unfolding grown
grown-records_of none r = refl
grown-records_of (some rs) r = refl

abbrev keyed_one : String → String → Record → List Record
keyed_one j k r = if j == k then r ∷ [] else []

keyed_one-keyed :
    (j k : String) (r : Record) (rs : List Record)
    → keyed_one j k r ++ rs ≡ (if j == k then r ∷ rs else rs)
keyed_one-keyed j k r rs = ground arith

add_to_group-records :
    (d : Dict String (List Record)) (j : String) (r : Record) (k : String)
    → records_of (Dict.get (add_to_group d j r) k) ≡ records_of (Dict.get d k) ++ keyed_one j k r
unfolding add_to_group grown
add_to_group-records d j r k = elim (Bool-cases (j == k)) [
  | inl q ↦
      rw
        (
          Dict.get-put d j k (grown (Dict.get d j) r),
          q,
          grown-records_of (Dict.get d j) r,
          (eq_iff j k).0 q,
        )
        refl
  | inr q ↦
      rw (Dict.get-put d j k (grown (Dict.get d j) r), q, append-nil (records_of (Dict.get d k)))
        refl
]

group_from-records :
    (key k : String) (records : List Record) (d : Dict String (List Record))
    → records_of (Dict.get (group_from key d records) k)
      ≡ records_of (Dict.get d k) ++ keyed records key k
unfolding group_from
group_from-records key k [] d = sym (append-nil (records_of (Dict.get d k)))
group_from-records key k (r ∷ rs) d =
    let before = records_of (Dict.get d k) in
    let j = text_at r key in
    group_from-records key k rs (add_to_group d j r)
    ∙ (ap (λ rs'. rs' ++ keyed rs key k) (add_to_group-records d j r k)
        ∙ (append_assoc before (keyed_one j k r) (keyed rs key k)
            ∙ ap (λ rs'. before ++ rs') (keyed_one-keyed j k r (keyed rs key k))))

group_from-IsDict :
    (key : String) (records : List Record) (d : Dict String (List Record))
    → Dict.IsDict d
    → Dict.IsDict (group_from key d records)
unfolding group_from add_to_group
group_from-IsDict key [] d h = h
group_from-IsDict key (r ∷ rs) d h =
    group_from-IsDict key rs _ (Dict.put-IsDict d (text_at r key) _ h)

view_of-All_ne :
    (d : Dict String (List Record)) (k : String)
    → All (λ p. p.0 ≢ k) d
    → Dict.get (view_of d) k ≡ none
unfolding view_of Dict.get
view_of-All_ne [] k a = refl
view_of-All_ne ((j, []) ∷ d) k a = view_of-All_ne d k a.1
view_of-All_ne ((j, r ∷ []) ∷ d) k a = rw (eq_false_of_ne j k a.0) (view_of-All_ne d k a.1)
view_of-All_ne ((j, r ∷ s ∷ rs) ∷ d) k a = view_of-All_ne d k a.1

ambiguous_of-All_ne :
    (d : Dict String (List Record)) (k : String)
    → All (λ p. p.0 ≢ k) d
    → Dict.get (ambiguous_of d) k ≡ none
unfolding ambiguous_of Dict.get
ambiguous_of-All_ne [] k a = refl
ambiguous_of-All_ne ((j, []) ∷ d) k a = ambiguous_of-All_ne d k a.1
ambiguous_of-All_ne ((j, r ∷ []) ∷ d) k a = ambiguous_of-All_ne d k a.1
ambiguous_of-All_ne ((j, r ∷ s ∷ rs) ∷ d) k a =
    rw (eq_false_of_ne j k a.0) (ambiguous_of-All_ne d k a.1)

module _ (k : String) where
  ne_of :
      (j : String) (d : Dict String (List Record))
      → (j == k) ≡ true
      → All (λ p. p.0 ≢ j) d
      → All (λ p. p.0 ≢ k) d
  ne_of j d q a = subst (λ i. All (λ p. p.0 ≢ i) d) ((eq_iff j k).0 q) a

  get-view_of :
      (d : Dict String (List Record))
      → Dict.IsDict d
      → Dict.get (view_of d) k ≡ sole (records_of (Dict.get d k))
  unfolding view_of Dict.get
  get-view_of [] u = refl
  get-view_of ((j, []) ∷ d) u = elim (Bool-cases (j == k)) [
    | inl q ↦ rw q (view_of-All_ne d k (ne_of j d q u.0))
    | inr q ↦ rw q (get-view_of d u.1)
  ]
  get-view_of ((j, r ∷ []) ∷ d) u = elim (Bool-cases (j == k)) [
    | inl q ↦ rw q refl
    | inr q ↦ rw q (get-view_of d u.1)
  ]
  get-view_of ((j, r ∷ s ∷ rs) ∷ d) u = elim (Bool-cases (j == k)) [
    | inl q ↦ rw q (view_of-All_ne d k (ne_of j d q u.0))
    | inr q ↦ rw q (get-view_of d u.1)
  ]

  get-ambiguous_of :
      (d : Dict String (List Record))
      → Dict.IsDict d
      → Dict.get (ambiguous_of d) k ≡ several (records_of (Dict.get d k))
  unfolding ambiguous_of Dict.get
  get-ambiguous_of [] u = refl
  get-ambiguous_of ((j, []) ∷ d) u = elim (Bool-cases (j == k)) [
    | inl q ↦ rw q (ambiguous_of-All_ne d k (ne_of j d q u.0))
    | inr q ↦ rw q (get-ambiguous_of d u.1)
  ]
  get-ambiguous_of ((j, r ∷ []) ∷ d) u = elim (Bool-cases (j == k)) [
    | inl q ↦ rw q (ambiguous_of-All_ne d k (ne_of j d q u.0))
    | inr q ↦ rw q (get-ambiguous_of d u.1)
  ]
  get-ambiguous_of ((j, r ∷ s ∷ rs) ∷ d) u = elim (Bool-cases (j == k)) [
    | inl q ↦ rw q refl
    | inr q ↦ rw q (get-ambiguous_of d u.1)
  ]

-- A key reads as its record in the view where exactly one record has it, and as the number of its
-- records among the ambiguous ones where several have it; otherwise it is in neither.
pub by_key_exact :
    (records : List Record) (key k : String)
    → (Dict.get (by_key records key).0 k ≡ sole (keyed records key k))
      × (Dict.get (by_key records key).1 k ≡ several (keyed records key k))
unfolding by_key Dict.get
by_key_exact records key k =
    let groups = group_from key [] records in
    let unique = group_from-IsDict key records [] tt in
    (
      get-view_of k groups unique ∙ ap sole (group_from-records key k records []),
      get-ambiguous_of k groups unique ∙ ap several (group_from-records key k records []),
    )

sole-mem : (rs : List Record) (r : Record) → sole rs ≡ some r → Memᴰ r rs
sole-mem [] r h = cc
sole-mem (s ∷ []) r h = Memᴰ.head (ground arith)
sole-mem (s ∷ t ∷ rs) r h = cc

is_text_unique : (v : Value) (a b : Option String) → is_text v a ≡ true → is_text v b ≡ true → a ≡ b
is_text_unique null none none h k = refl
is_text_unique null none (some b) h k = cc
is_text_unique null (some a) b h k = cc
is_text_unique (bool _) a b h k = cc
is_text_unique (int _) a b h k = cc
is_text_unique (real _ _) a b h k = cc
is_text_unique (nonfinite _) a b h k = cc
is_text_unique (seq _) a b h k = cc
is_text_unique (dict _) a b h k = cc
is_text_unique (str t) none b h k = cc
is_text_unique (str t) (some a) none h k = cc
is_text_unique (str t) (some a) (some b) h k = cc ((eq_iff t a).0 h, (eq_iff t b).0 k)

-- The sessions in the view of a scope are owned by the scope.
own_bgp-owns :
    (s : Scope) (facts : Record) (peer : String) (r : Record)
    → Dict.get (own_bgp s facts).0 peer ≡ some r
    → owns_bgp_peer s r ≡ true
unfolding own_bgp
own_bgp-owns s facts peer r h =
    let own = filter (owns_bgp_peer s) (rows_at facts "bgp") in
    All-mem (λ t. owns_bgp_peer s t ≡ true)
      (All-filter (λ t. owns_bgp_peer s t ≡ true) (λ t. text_at t "address" == peer) own
        (filter_sound (owns_bgp_peer s) (rows_at facts "bgp")))
      (sole-mem (keyed own "address" peer) r (sym ((by_key_exact own "address" peer).0) ∙ h))

owns_bgp_peer-instance :
    (s : Scope) (r : Record)
    → owns_bgp_peer s r ≡ true
    → is_text (value_at r "routing_instance") (bgp_instance s) ≡ true
unfolding owns_bgp_peer
owns_bgp_peer-instance s r h = ground (arith, h)

-- Two scopes whose views hold the same BGP session look for their peers in the same instance: a
-- service never shows the session of a service in another instance, though the peers' addresses are
-- equal.
pub own_bgp_disjoint :
    (s t : Scope) (facts : Record) (peer : String) (r : Record)
    → Dict.get (own_bgp s facts).0 peer ≡ some r
    → Dict.get (own_bgp t facts).0 peer ≡ some r
    → bgp_instance s ≡ bgp_instance t
own_bgp_disjoint s t facts peer r h k =
    is_text_unique (value_at r "routing_instance") (bgp_instance s) (bgp_instance t)
      (owns_bgp_peer-instance s r (own_bgp-owns s facts peer r h))
      (owns_bgp_peer-instance t r (own_bgp-owns t facts peer r k))
