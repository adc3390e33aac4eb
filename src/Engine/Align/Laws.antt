-- ===== src/Engine/Align/Laws.antt =====
-- What the checks read of the baseline under the subject's names
-- (migration_validator/engine.py).
use migration_status_check.Base.Dict
use migration_status_check.Base.Dict.{Dict}
use migration_status_check.Base.{
  true, filter, String, false, Option, none, some, List, [], ◌∷◌, ◌==◌, string_eq, eq_iff, eq_refl,
  eq_false_of_ne, arith, ◌≡◌, ◌≢◌, refl, sym, ap, ◌∙◌, subst, inl, inr, Bool-cases, All,
  if◌then◌else◌,
}
use migration_status_check.Models.Value.{Value}
use migration_status_check.Models.Value.Access.{
  value_at, table_at, flag_at, as_dict, or_null, entries_of-fields_of,
}
use migration_status_check.Models.Scope.{Scope, matches_interface}
use migration_status_check.Models.Scope.Select.{Record}
use migration_status_check.Models.Scope.Select.Areas.{select, named_area, kept_names}
use migration_status_check.Engine.Align.Names.{IsSubjectName, renamed-IsSubjectName}
use migration_status_check.Engine.Align.{
  renamed, rename_keys, rename_keys_from, rename_of, change_area, change_areas, in_keys, in_mac,
  in_instance_table, in_list, in_table, renamed_key_areas, rename_areas, renamed_unless_empty,
  aligned_baseline_data,
}

-- No other name of the table is renamed to the one that this name is renamed to.
abbrev pub KeepsApart {ℓ} : {V : Type ℓ} → Dict String String → Dict String V → String → Type 0
KeepsApart rename d name =
    (other : String)
    → Dict.has d other ≡ true
    → renamed rename other ≡ renamed rename name
    → other ≡ name

abbrev first_of {ℓ} : {A : Type ℓ} → Option A → Option A → Option A
first_of none o = o
first_of (some a) o = some a

first_of-none {ℓ} : {A : Type ℓ} (o : Option A) → first_of o none ≡ o
first_of-none none = refl
first_of-none (some a) = refl

module _ (rename : Dict String String) (name : String) where
  tail-KeepsApart {ℓ} :
      {V : Type ℓ} (j : String) (v : V) (d : Dict String V)
      → KeepsApart rename ((j, v) ∷ d) name
      → KeepsApart rename d name
  unfolding Dict.has Dict.get
  tail-KeepsApart j v d apart other h = apart other (ground (arith, h))

  head_apart {ℓ} :
      {V : Type ℓ} (j : String) (v : V) (d : Dict String V)
      → KeepsApart rename ((j, v) ∷ d) name
      → (j == name) ≡ false
      → (renamed rename j == renamed rename name) ≡ false
  unfolding Dict.has Dict.get
  head_apart j v d apart q =
      eq_false_of_ne (renamed rename j) (renamed rename name)
        (λ e. cc ((eq_iff j name).1 (apart j (ground (arith, eq_refl {A = String} j)) e), q))

  get-rename_keys_from {ℓ} :
      {V : Type ℓ} (d done : Dict String V)
      → Dict.IsDict d
      → KeepsApart rename d name
      → Dict.get (rename_keys_from rename done d) (renamed rename name)
        ≡ first_of (Dict.get d name) (Dict.get done (renamed rename name))
  unfolding rename_keys_from Dict.get
  get-rename_keys_from [] done u apart = refl
  get-rename_keys_from ((j, v) ∷ d) done u apart =
      let rest =
        get-rename_keys_from d (Dict.put done (renamed rename j) v) u.1
          (tail-KeepsApart j v d apart) in
      let read = Dict.get-put done (renamed rename j) (renamed rename name) v in
      elim (Bool-cases (j == name)) [
        | inl q ↦
            let same = (eq_iff j name).0 q in
            let gone = Dict.get-All_ne d name (subst (λ i. All (λ p. p.0 ≢ i) d) same u.0) in
            ground (
              arith,
              rest,
              read,
              q,
              gone,
              (eq_iff (renamed rename j) (renamed rename name)).1 (ap (renamed rename) same),
            )
        | inr q ↦ ground (arith, rest, read, q, head_apart j v d apart q)
      ]

  -- What the baseline has under a name, the renamed table has under the name's new form.
  get-rename_keys {ℓ} :
      {V : Type ℓ} (d : Dict String V)
      → Dict.IsDict d
      → KeepsApart rename d name
      → Dict.get (rename_keys rename d) (renamed rename name) ≡ Dict.get d name
  unfolding rename_keys Dict.get
  get-rename_keys d u apart = get-rename_keys_from d [] u apart ∙ first_of-none (Dict.get d name)

change_area-other :
    (change : Value → Value) (facts : Record) (area key : String)
    → (area == key) ≡ false
    → Dict.get (change_area change facts area) key ≡ Dict.get facts key
unfolding change_area
change_area-other change facts area key ne = elim (Bool-cases (flag_at facts area)) [
  | inl q ↦ ground (arith, q, Dict.get-put facts area key (change (value_at facts area)), ne)
  | inr q ↦ ground (arith, q)
]

change_areas-other :
    (change : Value → Value) (areas : List String) (facts : Record) (key : String)
    → All (λ a. (a == key) ≡ false) areas
    → Dict.get (change_areas change areas facts) key ≡ Dict.get facts key
unfolding change_areas
change_areas-other change [] facts key ne = refl
change_areas-other change (a ∷ areas) facts key ne =
    change_areas-other change areas (change_area change facts a) key ne.1
    ∙ change_area-other change facts a key ne.0

get-put_same :
    (facts : Record) (key : String) (v : Value) → Dict.get (Dict.put facts key v) key ≡ some v
get-put_same facts key v = ground (arith, Dict.get-put facts key key v, eq_refl {A = String} key)

rename_areas-interfaces :
    (rename : Dict String String) (facts : Record)
    → Dict.get (rename_areas rename facts) "interfaces"
      ≡ some (in_keys rename (value_at facts "interfaces"))
unfolding rename_areas
rename_areas-interfaces rename facts =
    change_areas-other (in_table rename) ("bfd" ∷ "evpn_esi" ∷ []) _ "interfaces" (refl, (refl, tt))
    ∙ (change_areas-other (in_list rename) ("arp" ∷ "nd" ∷ []) _ "interfaces" (refl, (refl, tt))
        ∙ (change_areas-other (in_keys rename) renamed_key_areas _ "interfaces"
              (refl, (refl, (refl, (refl, (refl, (refl, tt))))))
            ∙ (change_area-other (in_instance_table rename) _ "evpn_instance" "interfaces" refl
                ∙ (change_area-other (in_keys rename) _ "optics" "interfaces" refl
                    ∙ (change_area-other (in_mac rename) _ "evpn_mac" "interfaces" refl
                        ∙ get-put_same facts "interfaces"
                            (in_keys rename (value_at facts "interfaces")))))))

table_of-interfaces :
    (rename : Dict String String) (facts : Record)
    → table_at (rename_areas rename facts) "interfaces"
      ≡ rename_keys rename (table_at facts "interfaces")
unfolding table_at value_at in_keys
table_of-interfaces rename facts =
    ap (λ o. as_dict (or_null o)) (rename_areas-interfaces rename facts)
    ∙ entries_of-fields_of (rename_keys rename (table_at facts "interfaces"))

-- A scope whose interfaces have kept their names
renamed_none : (name : String) → renamed [] name ≡ name
unfolding renamed Dict.get
renamed_none name = refl

renamed_unless_empty-interfaces :
    (rename : Dict String String) (name : String) (facts : Record)
    → KeepsApart rename (table_at facts "interfaces") name
    → Dict.IsDict (table_at facts "interfaces")
    → Dict.get (table_at (renamed_unless_empty rename facts) "interfaces") (renamed rename name)
      ≡ Dict.get (table_at facts "interfaces") name
renamed_unless_empty-interfaces [] name facts apart u =
    ap (Dict.get (table_at facts "interfaces")) (renamed_none name)
renamed_unless_empty-interfaces (e ∷ rename) name facts apart u =
    ap (λ t. Dict.get t (renamed (e ∷ rename) name)) (table_of-interfaces (e ∷ rename) facts)
    ∙ get-rename_keys (e ∷ rename) name (table_at facts "interfaces") u apart

-- The interfaces that a scope selects
selected_interfaces :
    (s : Scope) (facts probes : Record)
    → table_at (select s facts probes) "interfaces"
      ≡ filter (λ e. matches_interface s.selectors e.0) (table_at facts "interfaces")
unfolding select named_area kept_names table_at value_at Dict.get
selected_interfaces s facts probes =
    entries_of-fields_of
      (filter (λ e. matches_interface s.selectors e.0) (table_at facts "interfaces"))

kept_name :
    (s : Scope) (name : String) (o : Option Value)
    → Dict.kept_if (λ (e : String × Value). matches_interface s.selectors e.0) name o
      ≡ (if matches_interface s.selectors name then o else none)
kept_name s name none = ground arith
kept_name s name (some v) = refl

-- What stands under the new name of an interface, in terms of the code's own renaming
aligned_baseline_data-renamed :
    (baseline_scope scope : Scope) (facts probes : Record) (name : String)
    → Dict.IsDict (table_at facts "interfaces")
    → KeepsApart
        (rename_of baseline_scope.selectors scope.selectors)
        (table_at (select baseline_scope facts probes) "interfaces")
        name
    → Dict.get
        (table_at (aligned_baseline_data baseline_scope scope facts probes) "interfaces")
        (renamed (rename_of baseline_scope.selectors scope.selectors) name)
      ≡ (if matches_interface baseline_scope.selectors name
          then Dict.get (table_at facts "interfaces") name
          else none)
unfolding aligned_baseline_data
aligned_baseline_data-renamed bs s facts probes name u apart =
    let rename = rename_of bs.selectors s.selectors in
    let keep = λ (e : String × Value). matches_interface bs.selectors e.0 in
    let all_of = table_at facts "interfaces" in
    let chosen = selected_interfaces bs facts probes in
    renamed_unless_empty-interfaces rename name (select bs facts probes) apart
      (subst (λ t. Dict.IsDict t) (sym chosen) (Dict.filter-IsDict keep all_of u))
    ∙ (ap (λ t. Dict.get t name) chosen
        ∙ (Dict.get-filter keep all_of name u ∙ kept_name bs name (Dict.get all_of name)))

-- The checks find the baseline's data of an interface under the subject's name of it: the name that
-- stands in the subject's interfaces, ports or LAG members where the name stands in the baseline's
-- ones, or the name itself if none stands opposite to it. Under it is what the baseline's facts have
-- for the interface, if the baseline's scope selects it. The facts have each name once, only one name
-- stands opposite to the interface, and no other name that the scope selects is renamed to that one.
pub aligned_baseline_data-interfaces :
    (baseline_scope scope : Scope) (facts probes : Record) (name new : String)
    → Dict.IsDict (table_at facts "interfaces")
    → IsSubjectName baseline_scope.selectors scope.selectors name new
    → ((other : String)
        → Dict.has (table_at (select baseline_scope facts probes) "interfaces") other ≡ true
        → renamed (rename_of baseline_scope.selectors scope.selectors) other ≡ new
        → other ≡ name)
    → Dict.get (table_at (aligned_baseline_data baseline_scope scope facts probes) "interfaces") new
      ≡ (if matches_interface baseline_scope.selectors name
          then Dict.get (table_at facts "interfaces") name
          else none)
aligned_baseline_data-interfaces bs s facts probes name new u stands apart =
    let same = renamed-IsSubjectName bs.selectors s.selectors name new stands in
    ap (λ n. Dict.get (table_at (aligned_baseline_data bs s facts probes) "interfaces") n)
      (sym same)
    ∙ aligned_baseline_data-renamed bs s facts probes name u (λ other h e. apart other h (e ∙ same))
