-- ===== src/Scoping/Matcher/Match.antt =====
-- The rules one after the other, their second pass that pairs what is unambiguous on both sides,
-- and the reasons of what is left (`match_scopes` in migration_validator/scoping/matcher.py).
use migration_status_check.Base.Dict
use migration_status_check.Base.Dict.{Dict}
use migration_status_check.Base.{
  ℕ, String, Bool, not, ◌||◌, Option, none, some, List, [], ◌∷◌, ◌++◌, map, filter, any, contains,
  if◌then◌else◌, nat_eq,
}
use migration_status_check.Models.Scope.{Scope}
use migration_status_check.Scoping.Mapping.{Mapping, is_ignored, empty_mapping}
use migration_status_check.Scoping.Matcher.{
  ScopeObject, Reason, MatchedPair, UnmatchedScope, MatchSet, entries, no_candidate, new_service,
}
use migration_status_check.Scoping.Matcher.Keys.{IpInterface, Rule, rules, index_by}
use migration_status_check.Scoping.Matcher.Manual.{Remaining, apply_manual}
use migration_status_check.Scoping.Matcher.Survey.{
  Ambiguity, Survey, new_survey, survey_keys, spread_all, note_edges,
}

-- The first pass of a rule, whole
unfoldable pub survey : Rule → List ScopeObject → List ScopeObject → Ambiguity → Survey
survey rule baseline subject a =
    let keyed =
      survey_keys (index_by rule.keys_of baseline) (index_by rule.keys_of subject) (new_survey a) in
    let b_spread = spread_all keyed.b_scopes keyed.b_candidates keyed in
    let v = spread_all b_spread.s_scopes b_spread.s_candidates b_spread in
    let b_noted =
      note_edges v.rule_ambiguous v.b_scopes v.b_rivals subject v.b_candidates v.ambiguity in
    record v {
      ambiguity = note_edges v.rule_ambiguous v.s_scopes v.s_rivals baseline v.s_candidates b_noted;
    }

abbrev pub only_partner : Option (Dict ℕ ScopeObject) → Option (ℕ × ScopeObject)
only_partner (some (p ∷ [])) = some p
only_partner _ = none

abbrev pub unless_blocked : List ℕ → Option (ℕ × ScopeObject) → Option (ℕ × ScopeObject)
unless_blocked blocked none = none
unless_blocked blocked (some p) = if contains blocked p.0 then none else some p

-- The partner of a scope, if neither of them is ambiguous. A scope with several partners is.
unfoldable pub partner :
    List ℕ → Dict ℕ (Dict ℕ ScopeObject) → List ℕ → ScopeObject → Option (ℕ × ScopeObject)
partner blocked candidates paired o =
    if contains blocked o.address || contains paired o.address
    then none
    else unless_blocked blocked (only_partner (Dict.get candidates o.address))

pub record Paired : Type 0 where
  pub pairs : List MatchedPair
  pub paired : List ℕ

abbrev pub add_pair : Rule → ScopeObject → Option (ℕ × ScopeObject) → Paired → Paired
add_pair rule o none p = p
add_pair rule o (some (sid, s)) p = record {
  pairs =
      p.pairs
      ++ (record { baseline = o; subject = s; method = rule.method; confidence = rule.confidence }
          ∷ []);
  paired = o.address ∷ sid ∷ p.paired;
}

-- `for scope in remaining_baseline`
unfoldable pub pair_scopes :
    Rule → List ℕ → Dict ℕ (Dict ℕ ScopeObject) → List ScopeObject → Paired → Paired
pair_scopes rule blocked candidates [] p = p
pair_scopes rule blocked candidates (o ∷ os) p =
    pair_scopes rule blocked candidates os
      (add_pair rule o (partner blocked candidates p.paired o) p)

-- `[scope for scope in scopes if id(scope) not in paired]`
unfoldable pub without : List ℕ → List ScopeObject → List ScopeObject
without paired scopes = filter (λ o. not (contains paired o.address)) scopes

pub record Matching : Type 0 where
  pub remaining : Remaining
  pub ambiguity : Ambiguity

unfoldable pub match_rule : Rule → Matching → Matching
match_rule rule m =
    let v = survey rule m.remaining.baseline m.remaining.subject m.ambiguity in
    let p =
      pair_scopes rule v.rule_ambiguous v.b_candidates m.remaining.baseline
        (record { pairs = m.remaining.result.pairs; paired = [] }) in
    record {
      remaining = record {
        baseline = without p.paired m.remaining.baseline;
        subject = without p.paired m.remaining.subject;
        result = record m.remaining.result { pairs = p.pairs };
      };
      ambiguity = v.ambiguity;
    }

-- `for method, confidence, key_fn in RULES`
unfoldable pub match_rules : List Rule → Matching → Matching
match_rules [] m = m
match_rules (rule ∷ rest) m = match_rules rest (match_rule rule m)

-- `paired_ids`
unfoldable pub paired_ids : List MatchedPair → List ℕ
paired_ids pairs = map (λ p. p.baseline.address) pairs ++ map (λ p. p.subject.address) pairs

-- The first ambiguity with a rival that is still not paired
unfoldable pub live_reason : List ℕ → List (Reason × List ScopeObject) → Reason → Reason
live_reason paired [] fallback = fallback
live_reason paired ((reason, rivals) ∷ rest) fallback =
    if any (λ o. not (contains paired o.address)) rivals
    then reason
    else live_reason paired rest fallback

-- `UnmatchedScope(scope, _reason(scope, fallback))`
unfoldable pub unmatched_for : List ℕ → Ambiguity → Reason → ScopeObject → UnmatchedScope
unmatched_for paired a fallback o = record {
  scope = o;
  reason = live_reason paired (entries a o.address) fallback;
}

-- The end of `match_scopes`
unfoldable pub finish : Matching → MatchSet
finish m =
    let paired = paired_ids m.remaining.result.pairs in
    record m.remaining.result {
      unmatched_baseline =
          m.remaining.result.unmatched_baseline
          ++ map (unmatched_for paired m.ambiguity no_candidate) m.remaining.baseline;
      unmatched_subject =
          m.remaining.result.unmatched_subject
          ++ map (unmatched_for paired m.ambiguity new_service) m.remaining.subject;
    }

abbrev pub mapping_or_empty : Option Mapping → Mapping
mapping_or_empty none = empty_mapping
mapping_or_empty (some mapping) = mapping

-- `[scope for scope in scopes if not mapping.is_ignored(scope)]`
unfoldable pub not_ignored : Mapping → List ScopeObject → List ScopeObject
not_ignored mapping scopes = filter (λ o. not (is_ignored mapping o.scope)) scopes

-- What there is to match
unfoldable pub considered : Mapping → List ScopeObject → List ScopeObject → Remaining
considered mapping baseline subject = record {
  baseline = not_ignored mapping baseline;
  subject = not_ignored mapping subject;
  result = record { pairs = []; unmatched_baseline = []; unmatched_subject = [] };
}

module _ (ip_interface : String → Option IpInterface) (same : Scope → Scope → Bool) where
  -- `match_scopes`
  unfoldable pub match_scopes : List ScopeObject → List ScopeObject → Option Mapping → MatchSet
  match_scopes baseline subject chosen = finish (
      match_rules (rules ip_interface) (record {
        remaining =
            apply_manual same (mapping_or_empty chosen)
              (considered (mapping_or_empty chosen) baseline subject);
        ambiguity = [];
      }))
