-- ===== src/Scoping/Matcher/Manual.antt =====
-- The manual rules of a mapping, which come first (migration_validator/scoping/matcher.py). The
-- parameter `same` is the equality that `@dataclass` generates for a scope: `list.remove` takes out
-- the first scope that is equal.
use migration_status_check.Base.{Bool, List, [], ◌∷◌, ◌++◌, map, filter, if◌then◌else◌}
use migration_status_check.Models.Scope.{Scope}
use migration_status_check.Scoping.Mapping.{Mapping, MappingRule, Selector, matches}
use migration_status_check.Scoping.Matcher.{ScopeObject, MatchSet, UnmatchedScope, ambiguity_reason}

-- The scopes that are left on both sides, and the result so far.
pub record Remaining : Type 0 where
  pub baseline : List ScopeObject
  pub subject : List ScopeObject
  pub result : MatchSet

module _ (same : Scope → Scope → Bool) where
  -- `scopes.remove(scope)`
  unfoldable pub remove_first : ScopeObject → List ScopeObject → List ScopeObject
  remove_first o [] = []
  remove_first o (x ∷ xs) =
      let rest = remove_first o xs in if same x.scope o.scope then xs else x ∷ rest

  unfoldable pub remove_each : List ScopeObject → List ScopeObject → List ScopeObject
  remove_each [] scopes = scopes
  remove_each (o ∷ os) scopes = remove_each os (remove_first o scopes)

-- `[scope for scope in remaining if selector.matches(scope)]`
unfoldable pub hits : Selector → List ScopeObject → List ScopeObject
hits selector scopes = filter (λ o. matches selector o.scope) scopes

-- `for scope in hits: unmatched.append(UnmatchedScope(scope, _ambiguity_reason(hits)))`
unfoldable pub all_ambiguous : List ScopeObject → List UnmatchedScope
all_ambiguous found = map (λ o. record { scope = o; reason = ambiguity_reason found }) found

module _ (same : Scope → Scope → Bool) where
  abbrev pub drop_baseline : List ScopeObject → Remaining → Remaining
  drop_baseline (x ∷ y ∷ more) r = record r {
    baseline = remove_each same (x ∷ y ∷ more) r.baseline;
    result = record r.result {
      unmatched_baseline = r.result.unmatched_baseline ++ all_ambiguous (x ∷ y ∷ more);
    };
  }
  drop_baseline _ r = r

  abbrev pub drop_subject : List ScopeObject → Remaining → Remaining
  drop_subject (x ∷ y ∷ more) r = record r {
    subject = remove_each same (x ∷ y ∷ more) r.subject;
    result = record r.result {
      unmatched_subject = r.result.unmatched_subject ++ all_ambiguous (x ∷ y ∷ more);
    };
  }
  drop_subject _ r = r

  -- One rule on the hits of its two selectors: a pair, or every side with several hits is ambiguous.
  abbrev pub apply_hits : List ScopeObject → List ScopeObject → Remaining → Remaining
  apply_hits (b ∷ []) (s ∷ []) r = record {
    baseline = remove_first same b r.baseline;
    subject = remove_first same s r.subject;
    result = record r.result {
      pairs =
          r.result.pairs
          ++ (record { baseline = b; subject = s; method = "manual"; confidence = "manual" } ∷ []);
    };
  }
  apply_hits bs ss r = drop_subject ss (drop_baseline bs r)

  unfoldable pub apply_rule : MappingRule → Remaining → Remaining
  apply_rule rule r = apply_hits (hits rule.baseline r.baseline) (hits rule.subject r.subject) r

  abbrev pub apply_rules : List MappingRule → Remaining → Remaining
  apply_rules [] r = r
  apply_rules (rule ∷ rest) r = apply_rules rest (apply_rule rule r)

  -- `_apply_manual`
  unfoldable pub apply_manual : Mapping → Remaining → Remaining
  apply_manual mapping r = apply_rules mapping.mappings r
