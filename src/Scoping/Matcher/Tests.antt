-- ===== src/Scoping/Matcher/Tests.antt =====
-- Tests of the matching.
use migration_status_check.Base.{
  All, ◌≡◌, refl, String, Bool, true, false, ◌&&◌, Option, none, some, [], ◌∷◌, ◌==◌, string_eq,
  option_eq, eq_iff, arith,
}
use migration_status_check.Models.Scope.{Scope, ScopeKey, no_selectors}
use migration_status_check.Scoping.Mapping.{
  is_ignored, empty_mapping, Selector, matches, has_description, has_service_type,
}
use migration_status_check.Scoping.Matcher.{ScopeObject}
use migration_status_check.Scoping.Matcher.Keys.{Rule, keys_description, IpInterface, key_eq}
use migration_status_check.Scoping.Matcher.Match.{Matching, match_rule, match_scopes}
use migration_status_check.Scoping.Matcher.Covered.Rules.{IsReported, match_scopes-IsReported}
use migration_status_check.Scoping.Matcher.Unambiguous.{IsFrom, match_rule-IsFrom}
use mathlib.Core.List.{Memᴰ}

abbrev named : String → String → Scope
named id text = record {
  id = id;
  kind = "service";
  key =
      some (record { description = some text; service_type = "Internet"; service_subtype = none });
  selectors = no_selectors;
  routing_instance_active = true;
  interface_active = true;
}

abbrev old_a : ScopeObject
old_a = record { address = 1; scope = named "old-a" "CUSTOMER A" }

abbrev old_b : ScopeObject
old_b = record { address = 2; scope = named "old-b" "CUSTOMER B" }

abbrev new_a : ScopeObject
new_a = record { address = 3; scope = named "new-a" "CUSTOMER A" }

abbrev no_ip : String → Option IpInterface
no_ip text = none

-- Two scopes are the same as far as a selector reads them.
abbrev same_key : Option ScopeKey → Option ScopeKey → Bool
same_key none none = true
same_key (some k) (some j) =
    k.description == j.description
    && (k.service_type == j.service_type && k.service_subtype == j.service_subtype)
same_key _ _ = false

abbrev same_view : Scope → Scope → Bool
same_view a b =
    same_key a.key b.key
    && (a.selectors.interfaces == b.selectors.interfaces
        && a.selectors.routing_instances == b.selectors.routing_instances)

same_key-eq : (a b : Option ScopeKey) → same_key a b ≡ true → a ≡ b
same_key-eq none none h = refl
same_key-eq none (some j) h = cc
same_key-eq (some k) none h = cc
same_key-eq (some k) (some j) h = ground (
  arith,
  h,
  eq_iff k.description j.description,
  eq_iff k.service_type j.service_type,
  eq_iff k.service_subtype j.service_subtype,
)

same_view-matches :
    (a b : Scope) (sel : Selector)
    → same_view a b ≡ true
    → matches sel b ≡ true
    → matches sel a ≡ true
unfolding matches has_description has_service_type
same_view-matches a b sel h k =
    let keys = same_key-eq a.key b.key (ground (arith, h)) in
    let interfaces = (eq_iff a.selectors.interfaces b.selectors.interfaces).0 (ground (arith, h)) in
    let instances =
      (eq_iff a.selectors.routing_instances b.selectors.routing_instances).0 (ground (arith, h)) in
    rw keys (rw interfaces (rw instances k))

match_scopes-IsReported_example :
    IsReported old_b (match_scopes no_ip same_view (old_a ∷ old_b ∷ []) (new_a ∷ []) none)
unfolding is_ignored empty_mapping
match_scopes-IsReported_example =
    match_scopes-IsReported no_ip same_view (old_a ∷ old_b ∷ []) (new_a ∷ []) none old_b
      same_view-matches (Memᴰ.tail (Memᴰ.head refl)) refl

abbrev by_description : Rule
by_description = record {
  method = "description+service_type";
  confidence = "high";
  keys_of = keys_description;
}

abbrev to_match : Matching
to_match = record {
  remaining = record {
    baseline = old_a ∷ old_b ∷ [];
    subject = new_a ∷ [];
    result = record { pairs = []; unmatched_baseline = []; unmatched_subject = [] };
  };
  ambiguity = [];
}

match_rule-IsFrom_example :
    All
      (IsFrom [] by_description (old_a ∷ old_b ∷ []) (new_a ∷ []))
      (match_rule by_description to_match).remaining.result.pairs
match_rule-IsFrom_example = match_rule-IsFrom by_description to_match
