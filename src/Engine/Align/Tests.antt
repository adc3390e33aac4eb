-- ===== src/Engine/Align/Tests.antt =====
-- Tests of the renaming of the baseline's interfaces.
use migration_status_check.Base.Dict
use migration_status_check.Base.Dict.{Dict}
use migration_status_check.Base.{
  ◌≡◌, refl, inl, inr, sym, eq_iff, arith, String, string_eq, true, none, [], ◌∷◌, if◌then◌else◌,
}
use migration_status_check.Models.Value.{str}
use migration_status_check.Models.Value.Access.{of_dict, table_at, value_at}
use migration_status_check.Models.Scope.{Scope, no_selectors, matches_interface}
use migration_status_check.Models.Scope.Select.{Record}
use migration_status_check.Models.Scope.Select.Areas.{select, named_area, kept_names}
use migration_status_check.Engine.Align.{aligned_baseline_data, rename_of, renamed}
use migration_status_check.Engine.Align.Names.{IsSubjectName, StandsAt, here, later}
use migration_status_check.Engine.Align.Laws.{aligned_baseline_data-interfaces}

abbrev on_unit : String → Scope
on_unit name = record {
  id = name;
  kind = "service";
  key = none;
  selectors = record no_selectors { interfaces = name ∷ [] };
  routing_instance_active = true;
  interface_active = true;
}

abbrev old_unit : String
old_unit = "ge-0/0/2.113"

abbrev new_unit : String
new_unit = "et-0/0/8.113"

abbrev facts : Record
facts = ("interfaces", of_dict ((old_unit, str "up") ∷ [])) ∷ []

facts-IsDict : Dict.IsDict (table_at facts "interfaces")
unfolding table_at value_at Dict.get
facts-IsDict = (tt, tt)

only_new : {a b v w : String} → StandsAt (a ∷ []) (b ∷ []) v w → w ≡ b
only_new here = refl
only_new (later k) = elim k [ ]

-- The new unit stands opposite to the old one.
old_unit-IsSubjectName :
    IsSubjectName (on_unit old_unit).selectors (on_unit new_unit).selectors old_unit new_unit
old_unit-IsSubjectName = (
  λ other h. elim h [ inl k ↦ only_new k | inr (inl k) ↦ elim k [ ] | inr (inr k) ↦ elim k [ ] ],
  inl (inl here),
)

apart :
    (other : String)
    → Dict.has (table_at (select (on_unit old_unit) facts []) "interfaces") other ≡ true
    → renamed (rename_of (on_unit old_unit).selectors (on_unit new_unit).selectors) other ≡ new_unit
    → other ≡ old_unit
unfolding select named_area kept_names table_at value_at matches_interface Dict.has Dict.get
apart other h e = sym ((eq_iff old_unit other).0 (ground (arith, h)))

aligned_baseline_data-interfaces_example :
    Dict.get
      (table_at (aligned_baseline_data (on_unit old_unit) (on_unit new_unit) facts []) "interfaces")
      new_unit
    ≡ (if matches_interface (on_unit old_unit).selectors old_unit
        then Dict.get (table_at facts "interfaces") old_unit
        else none)
aligned_baseline_data-interfaces_example =
    aligned_baseline_data-interfaces (on_unit old_unit) (on_unit new_unit) facts [] old_unit
      new_unit facts-IsDict old_unit-IsSubjectName apart
