-- ===== src/Engine/Align/Names.antt =====
-- The subject's name of an interface of the baseline (`_aligned_baseline_data` in
-- migration_validator/engine.py).
use mathlib.Core.List.{Memᴰ}
use migration_status_check.Base.Dict
use migration_status_check.Base.Dict.{Dict}
use migration_status_check.Base.{
  String, none, some, List, [], ◌∷◌, ◌==◌, string_eq, eq_iff, arith, ◌≡◌, refl, sym, subst, ap, ◌∙◌,
  ◌⊎◌, inl, inr, Bool-cases,
}
use migration_status_check.Models.Scope.{Selectors}
use migration_status_check.Engine.Align.{zip, update_pairs, rename_of, renamed, or_same}

-- The two names stand at the same position of their lists.
pub data StandsAt : List String → List String → String → String → Type 0 where
  here : {x y : String} {xs ys : List String} → StandsAt (x ∷ xs) (y ∷ ys) x y
  later :
      {x y v w : String} {xs ys : List String} → StandsAt xs ys v w → StandsAt (x ∷ xs) (y ∷ ys) v w

-- The subject's name stands opposite to the baseline's among the interfaces, the ports or the members
-- of the LAG.
abbrev pub Opposite : Selectors → Selectors → String → String → Type 0
Opposite before now name new =
    StandsAt before.interfaces now.interfaces name new
    ⊎ (StandsAt before.physical_interfaces now.physical_interfaces name new
        ⊎ StandsAt before.lag_members now.lag_members name new)

-- One name stands opposite to it, or none does and it has kept its name.
abbrev pub IsSubjectName : Selectors → Selectors → String → String → Type 0
IsSubjectName before now name new =
    ((other : String) → Opposite before now name other → other ≡ new)
    × (Opposite before now name new
        ⊎ (((other : String) → ¬ Opposite before now name other) × (new ≡ name)))

stands_of_mem :
    (xs ys : List String) (name new : String)
    → Memᴰ (name, new) (zip xs ys)
    → StandsAt xs ys name new
stands_of_mem [] ys name new m = elim m [ ]
stands_of_mem (x ∷ xs) [] name new m = elim m [ ]
stands_of_mem (x ∷ xs) (y ∷ ys) name new (Memᴰ.head e) =
    subst (λ p. StandsAt (x ∷ xs) (y ∷ ys) p.0 p.1) (sym e) here
stands_of_mem (x ∷ xs) (y ∷ ys) name new (Memᴰ.tail m) = later (stands_of_mem xs ys name new m)

mem_of_stands :
    (xs ys : List String) (name new : String)
    → StandsAt xs ys name new
    → Memᴰ (name, new) (zip xs ys)
mem_of_stands [] ys name new s = elim s [ ]
mem_of_stands (x ∷ xs) [] name new s = elim s [ ]
mem_of_stands (x ∷ xs) (y ∷ ys) name new here = Memᴰ.head refl
mem_of_stands (x ∷ xs) (y ∷ ys) name new (later s) = Memᴰ.tail (mem_of_stands xs ys name new s)

-- What a table has for a name after further pairs: the one new name that they agree on, or nothing.
abbrev Reads : Dict String String → String → String → Type 0
Reads d name new = (Dict.get d name ≡ some new) ⊎ (Dict.get d name ≡ none)

update_pairs-Reads :
    (d pairs : Dict String String) (name new : String)
    → ((other : String) → Memᴰ (name, other) pairs → other ≡ new)
    → Reads d name new
    → Reads (update_pairs d pairs) name new
      × (((Dict.get d name ≡ some new) ⊎ Memᴰ (name, new) pairs)
          → Dict.get (update_pairs d pairs) name ≡ some new)
      × ((Dict.get (update_pairs d pairs) name ≡ some new)
          → (Dict.get d name ≡ some new) ⊎ Memᴰ (name, new) pairs)
unfolding update_pairs
update_pairs-Reads d [] name new agree r =
    (r, λ h. elim h [ inl q ↦ q | inr m ↦ elim m [ ] ], λ h. inl h)
update_pairs-Reads d ((k, v) ∷ pairs) name new agree r =
    let written = Dict.get-put d k name v in
    let later_agree =
      λ (other : String). λ (m : Memᴰ (name, other) pairs). agree other (Memᴰ.tail m) in
    elim (Bool-cases (k == name)) [
      | inl q ↦
          let same = (eq_iff k name).0 q in
          let first : v ≡ new = agree v (Memᴰ.head (ap (λ n. (n, v)) (sym same))) in
          let now : Dict.get (Dict.put d k v) name ≡ some new = ground (arith, written, q, first) in
          let (a, b, c) =
            update_pairs-Reads (Dict.put d k v) pairs name new later_agree (inl now) in
          (a, λ h. b (inl now), λ h. inr (Memᴰ.head (cc (same, first))))
      | inr q ↦
          let now : Dict.get (Dict.put d k v) name ≡ Dict.get d name = ground (arith, written, q) in
          let (a, b, c) =
            update_pairs-Reads (Dict.put d k v) pairs name new later_agree
              (elim r [ inl x ↦ inl (now ∙ x) | inr x ↦ inr (now ∙ x) ]) in
          (
            a,
            λ h. elim h [
              | inl x ↦ b (inl (now ∙ x))
              | inr (Memᴰ.head e) ↦ absurd (cc ((eq_iff k name).1 (sym (ap (λ p. p.0) e)), q))
              | inr (Memᴰ.tail m) ↦ b (inr m)
            ],
            λ h. elim (c h) [ inl x ↦ inl (sym now ∙ x) | inr m ↦ inr (Memᴰ.tail m) ],
          )
    ]

-- The table of new names has the subject's name.
pub renamed-IsSubjectName :
    (before now : Selectors) (name new : String)
    → IsSubjectName before now name new
    → renamed (rename_of before now) name ≡ new
unfolding rename_of renamed Dict.get
renamed-IsSubjectName before now name new (agree, stands) =
    let of_names = zip before.interfaces now.interfaces in
    let of_ports = zip before.physical_interfaces now.physical_interfaces in
    let of_members = zip before.lag_members now.lag_members in
    let (reads1, has1, from1) =
      update_pairs-Reads [] of_names name new
        (λ other m. agree other (inl (stands_of_mem before.interfaces now.interfaces name other m)))
        (inr refl) in
    let (reads2, has2, from2) =
      update_pairs-Reads (update_pairs [] of_names) of_ports name new
        (λ other m. agree other (
          inr
            (inl (stands_of_mem before.physical_interfaces now.physical_interfaces name other m))))
        reads1 in
    let (reads3, has3, from3) =
      update_pairs-Reads (update_pairs (update_pairs [] of_names) of_ports) of_members name new
        (λ other m.
          agree other (inr (inr (stands_of_mem before.lag_members now.lag_members name other m))))
        reads2 in
    elim stands [
      | inl opposite ↦
          ap (λ o. or_same o name)
            (elim opposite [
              | inl s ↦ has3 (inl (has2 (inl (has1 (inr (mem_of_stands _ _ name new s))))))
              | inr (inl s) ↦ has3 (inl (has2 (inr (mem_of_stands _ _ name new s))))
              | inr (inr s) ↦ has3 (inr (mem_of_stands _ _ name new s))
            ])
      | inr (alone, kept) ↦ elim reads3 [
        | inr q ↦ ap (λ o. or_same o name) q ∙ sym kept
        | inl q ↦ absurd (
            alone new (elim (from3 q) [
              | inr m ↦ inr (inr (stands_of_mem _ _ name new m))
              | inl q2 ↦ elim (from2 q2) [
                | inr m ↦ inr (inl (stands_of_mem _ _ name new m))
                | inl q1 ↦ elim (from1 q1) [
                  | inr m ↦ inl (stands_of_mem _ _ name new m)
                  | inl q0 ↦ cc q0
                ]
              ]
            ]))
      ]
    ]
