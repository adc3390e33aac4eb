-- ===== src/Scoping/Matcher/Covered.antt =====
-- What becomes of the scopes of the baseline (`match_scopes` in migration_validator/scoping/matcher.py).
pub mod Candidates
pub mod Manual
pub mod Rules
use migration_status_check.Base.Dict
use migration_status_check.Base.Dict.{Dict}
use migration_status_check.Base.{
  ℕ, ◌≡◌, refl, sym, subst, ap, String, Bool, true, false, not, ◌||◌, Option, none, some, List, [],
  ◌∷◌, ◌++◌, ◌==◌, map, filter, any, contains, nat_eq, arith, any-append, mem-append_left,
  mem-append_right, Bool-cases, Option-cases, inl, inr, ◌⊎◌, eq_refl, if◌then◌else◌, All,
}
use migration_status_check.Models.Scope.{Scope}
use migration_status_check.Scoping.Mapping.{Mapping, MappingRule, Selector, matches, is_ignored}
use migration_status_check.Scoping.Matcher.{ScopeObject, MatchedPair, UnmatchedScope, MatchSet}
use migration_status_check.Scoping.Matcher.Keys.{IpInterface, Rule, rules}
use migration_status_check.Scoping.Matcher.Manual.{
  Remaining, remove_first, remove_each, hits, all_ambiguous, apply_hits, apply_rule, apply_rules,
  apply_manual, drop_baseline, drop_subject,
}
use migration_status_check.Scoping.Matcher.Survey.{Survey}
use migration_status_check.Scoping.Matcher.Match.{
  survey, partner, only_partner, unless_blocked, Paired, add_pair, pair_scopes, without, Matching,
  match_rule, match_rules, finish, mapping_or_empty, not_ignored, considered, match_scopes,
  unmatched_for,
}
use mathlib.Core.List.{Memᴰ}

-- The scope at an address is one of a pair.
abbrev pub is_paired : List MatchedPair → ℕ → Bool
is_paired pairs a = any (λ p. p.baseline.address == a || p.subject.address == a) pairs

abbrev pub scopes_of : List UnmatchedScope → List ScopeObject
scopes_of us = map (λ u. u.scope) us

-- A scope of the baseline is paired, reported as unmatched, or still to be matched.
abbrev pub IsCovered : ScopeObject → Remaining → Type 0
IsCovered o r =
    Memᴰ o r.baseline
    ⊎ ((is_paired r.result.pairs o.address ≡ true) ⊎ Memᴰ o (scopes_of r.result.unmatched_baseline))

module _ (same : Scope → Scope → Bool) where
  pub remove_first-mem :
      (x o : ScopeObject) (xs : List ScopeObject)
      → Memᴰ o xs
      → Memᴰ o (remove_first same x xs) ⊎ (same o.scope x.scope ≡ true)
  unfolding remove_first
  remove_first-mem x o [] m = elim m [ ]
  remove_first-mem x o (y ∷ ys) (Memᴰ.head e) = elim (Bool-cases (same y.scope x.scope)) [
    | inl q ↦ inr (subst (λ z. same z.scope x.scope ≡ true) (sym e) q)
    | inr q ↦ rw q (inl (Memᴰ.head e))
  ]
  remove_first-mem x o (y ∷ ys) (Memᴰ.tail m) = elim (Bool-cases (same y.scope x.scope)) [
    | inl q ↦ rw q (inl m)
    | inr q ↦ rw q (elim (remove_first-mem x o ys m) [ inl l ↦ inl (Memᴰ.tail l) | inr r ↦ inr r ])
  ]

  -- A scope that is removed with the hits of a selector is the same as one of them.
  pub remove_each-mem :
      (P : ScopeObject → Type 0) (os : List ScopeObject) (o : ScopeObject) (xs : List ScopeObject)
      → ((x : ScopeObject) → P x → same o.scope x.scope ≡ true → P o)
      → All P os
      → Memᴰ o xs
      → Memᴰ o (remove_each same os xs) ⊎ P o
  unfolding remove_each
  remove_each-mem P [] o xs h a m = inl m
  remove_each-mem P (x ∷ os) o xs h a m = elim (remove_first-mem x o xs m) [
    | inl l ↦ remove_each-mem P os o (remove_first same x xs) h a.1 l
    | inr r ↦ inr (h x a.0 r)
  ]
