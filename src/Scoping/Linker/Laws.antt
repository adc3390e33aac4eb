-- ===== src/Scoping/Linker/Laws.antt =====
-- How often an L2 scope is linked (`link_scopes` in migration_validator/scoping/linker.py).
use migration_status_check.Base.Dict.{Dict}
use migration_status_check.Base.{
  ℕ, subst, ◌≤◌, ◌≡◌, refl, String, false, not, ◌||◌, Option, none, some, List, [], ◌∷◌, ◌++◌, ◌==◌,
  string_eq, arith, contains, count_by, count_by-append, filter, if◌then◌else◌, Bool-cases, inl,
  inr, eq_iff,
}
use migration_status_check.Models.Scope.{Scope}
use migration_status_check.Scoping.Matcher.{entries}
use migration_status_check.Scoping.Linker.{
  ScopeLink, IrbEntry, Linked, or_text, unit_of, carries_unit, context_matches, is_l2, is_local,
  add_link, link_unit, link_entry, link_entries, link_members, link_scope, link_each, link_evpn,
  index_l3,
}

abbrev pub links_to : String → List ScopeLink → ℕ
links_to id links = count_by (λ l. l.l2_scope_id == id) links

-- The ids that count as linked are those of the links, each of one.
abbrev pub AreOnce : Linked → Type 0
AreOnce acc = (id : String) → links_to id acc.links ≡ (if contains acc.linked_l2 id then 1 else 0)

add_once :
    (acc : Linked) (l : ScopeLink)
    → AreOnce acc
    → contains acc.linked_l2 l.l2_scope_id ≡ false
    → AreOnce (record { links = acc.links ++ (l ∷ []); linked_l2 = l.l2_scope_id ∷ acc.linked_l2 })
add_once acc l h q id =
    let counted = count_by-append (λ k. k.l2_scope_id == id) acc.links (l ∷ []) in
    elim (Bool-cases (l.l2_scope_id == id)) [
      | inl r ↦
          let free =
            subst (λ z. contains acc.linked_l2 z ≡ false) ((eq_iff l.l2_scope_id id).0 r) q in
          ground (arith, counted, h id, r, free)
      | inr r ↦ ground (arith, counted, h id, r)
    ]

add_link-AreOnce :
    (s : Scope) (i first irb context unit : String) (candidates : List Scope) (acc : Linked)
    → AreOnce acc
    → AreOnce (add_link s i first irb context unit candidates acc)
unfolding add_link
add_link-AreOnce s i first irb context unit [] acc h = h
add_link-AreOnce s i first irb context unit (a ∷ b ∷ cs) acc h = h
add_link-AreOnce s i first irb context unit (l3 ∷ []) acc h =
    elim (Bool-cases (contains acc.linked_l2 s.id)) [
      | inl q ↦ rw q h
      | inr q ↦ rw q (add_once acc _ h q)
    ]

link_unit-AreOnce :
    (l3 : Dict String (List Scope)) (s : Scope) (i first irb context : String)
    (unit : Option String) (acc : Linked)
    → AreOnce acc
    → AreOnce (link_unit l3 s i first irb context unit acc)
link_unit-AreOnce l3 s i first irb context none acc h = h
link_unit-AreOnce l3 s i first irb context (some unit) acc h =
    elim (Bool-cases (context == "" || not (carries_unit s unit))) [
      | inl q ↦ rw q h
      | inr q ↦ rw q (
          add_link-AreOnce s i first irb context unit
            (filter (λ c. context_matches c context) (entries l3 irb)) acc h)
    ]

link_entries-AreOnce :
    (l3 : Dict String (List Scope)) (s : Scope) (i first : String) (es : List IrbEntry)
    (acc : Linked)
    → AreOnce acc
    → AreOnce (link_entries l3 s i first es acc)
unfolding link_entries link_entry
link_entries-AreOnce l3 s i first [] acc h = h
link_entries-AreOnce l3 s i first (e ∷ es) acc h =
    link_entries-AreOnce l3 s i first es (link_entry l3 s i first e acc) (
      link_unit-AreOnce l3 s i first (or_text e.name "") (or_text e.l3_context "")
        (unit_of (or_text e.name "")) acc h)

link_members-AreOnce :
    (l3 : Dict String (List Scope)) (evpn : Dict String (List IrbEntry)) (s : Scope)
    (is names : List String) (acc : Linked)
    → AreOnce acc
    → AreOnce (link_members l3 evpn s is names acc)
link_members-AreOnce l3 evpn s [] names acc h = h
link_members-AreOnce l3 evpn s (i ∷ is) [] acc h = h
link_members-AreOnce l3 evpn s (i ∷ is) (name ∷ names) acc h =
    link_entries-AreOnce l3 s i name (entries evpn i) acc h

link_each-AreOnce :
    (l3 : Dict String (List Scope)) (evpn : Dict String (List IrbEntry)) (ss : List Scope)
    (acc : Linked)
    → AreOnce acc
    → AreOnce (link_each l3 evpn ss acc)
unfolding link_each link_scope
link_each-AreOnce l3 evpn [] acc h = h
link_each-AreOnce l3 evpn (s ∷ ss) acc h =
    link_each-AreOnce l3 evpn ss (link_scope l3 evpn s acc)
      (elim (Bool-cases (not (is_l2 s) || is_local s)) [
        | inl q ↦ rw q h
        | inr q ↦ rw q (
            link_members-AreOnce l3 evpn s s.selectors.routing_instances s.selectors.interfaces acc
              h)
      ])

-- Whatever the EVPN instances hold, the links that come from them name an L2 scope at most once.
pub link_evpn-links_to :
    (scopes : List Scope) (evpn : Dict String (List IrbEntry)) (id : String)
    → links_to id (link_evpn scopes evpn).links ≤ 1
unfolding link_evpn
link_evpn-links_to scopes evpn id =
    let once =
      link_each-AreOnce (index_l3 [] scopes) evpn scopes (record { links = []; linked_l2 = [] })
        (λ i. refl) id in
    ground (arith, once)
