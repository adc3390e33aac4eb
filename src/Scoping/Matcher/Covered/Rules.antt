-- ===== src/Scoping/Matcher/Covered/Rules.antt =====
-- What becomes of the baseline under the rules and in the whole matching (`match_scopes` in
-- migration_validator/scoping/matcher.py).
use migration_status_check.Base.Dict.{Dict}
use migration_status_check.Base.{
  filter-mem, ℕ, ◌≡◌, refl, String, Bool, true, false, not, ◌||◌, Option, none, some, List, [], ◌∷◌,
  ◌==◌, map, contains, nat_eq, arith, any-append, mem-append_left, mem-append_right, map-append,
  Bool-cases, inl, inr, ◌⊎◌, eq_iff,
}
use migration_status_check.Models.Scope.{Scope}
use migration_status_check.Scoping.Mapping.{Mapping, Selector, matches, is_ignored}
use migration_status_check.Scoping.Matcher.{ScopeObject, MatchSet, Reason}
use migration_status_check.Scoping.Matcher.Keys.{IpInterface, Rule, rules}
use migration_status_check.Scoping.Matcher.Survey.{Ambiguity}
use migration_status_check.Scoping.Matcher.Match.{
  survey, partner, Paired, add_pair, pair_scopes, without, Matching, match_rule, match_rules,
  finish, mapping_or_empty, not_ignored, considered, match_scopes, unmatched_for,
}
use migration_status_check.Scoping.Matcher.Covered.{IsCovered, is_paired, scopes_of}
use migration_status_check.Scoping.Matcher.Covered.Candidates.{
  IsOwnAddress, AreOwn, survey-AreOwn, partner-of,
}
use migration_status_check.Scoping.Matcher.Covered.Manual.{apply_manual-IsCovered}
use mathlib.Core.List.{Memᴰ}

-- Every address that counts as paired is one of a pair.
abbrev pub IsRecorded : Paired → Type 0
IsRecorded p = (a : ℕ) → contains p.paired a ≡ true → is_paired p.pairs a ≡ true

add_pair-IsRecorded :
    (rule : Rule) (o : ScopeObject) (q : Option (ℕ × ScopeObject)) (p : Paired)
    → ((r : ℕ × ScopeObject) → q ≡ some r → IsOwnAddress o.address r)
    → IsRecorded p
    → IsRecorded (add_pair rule o q p)
add_pair-IsRecorded rule o none p own h = h
add_pair-IsRecorded rule o (some (sid, s)) p own h = λ a k. ground (
  arith,
  own (sid, s) refl,
  h a,
  k,
  eq_iff o.address a,
  eq_iff sid a,
  any-append (λ x. x.baseline.address == a || x.subject.address == a) p.pairs
      (record { baseline = o; subject = s; method = rule.method; confidence = rule.confidence }
        ∷ []),
)

pair_scopes-IsRecorded :
    (rule : Rule) (blocked : List ℕ) (candidates : Dict ℕ (Dict ℕ ScopeObject))
    (os : List ScopeObject) (p : Paired)
    → AreOwn candidates
    → IsRecorded p
    → IsRecorded (pair_scopes rule blocked candidates os p)
unfolding pair_scopes
pair_scopes-IsRecorded rule blocked candidates [] p a h = h
pair_scopes-IsRecorded rule blocked candidates (o ∷ os) p a h =
    pair_scopes-IsRecorded rule blocked candidates os
      (add_pair rule o (partner blocked candidates p.paired o) p) a
      (add_pair-IsRecorded rule o (partner blocked candidates p.paired o) p
        (λ r e. partner-of IsOwnAddress blocked candidates p.paired o r a e) h)

add_pair-is_paired :
    (rule : Rule) (o : ScopeObject) (q : Option (ℕ × ScopeObject)) (p : Paired) (a : ℕ)
    → is_paired p.pairs a ≡ true
    → is_paired (add_pair rule o q p).pairs a ≡ true
add_pair-is_paired rule o none p a h = h
add_pair-is_paired rule o (some (sid, s)) p a h = ground (
  arith,
  h,
  any-append (λ x. x.baseline.address == a || x.subject.address == a) p.pairs
      (record { baseline = o; subject = s; method = rule.method; confidence = rule.confidence }
        ∷ []),
)

pair_scopes-is_paired :
    (rule : Rule) (blocked : List ℕ) (candidates : Dict ℕ (Dict ℕ ScopeObject))
    (os : List ScopeObject) (p : Paired) (a : ℕ)
    → is_paired p.pairs a ≡ true
    → is_paired (pair_scopes rule blocked candidates os p).pairs a ≡ true
unfolding pair_scopes
pair_scopes-is_paired rule blocked candidates [] p a h = h
pair_scopes-is_paired rule blocked candidates (o ∷ os) p a h =
    pair_scopes-is_paired rule blocked candidates os
      (add_pair rule o (partner blocked candidates p.paired o) p) a
      (add_pair-is_paired rule o (partner blocked candidates p.paired o) p a h)

match_rule-IsCovered :
    (rule : Rule) (m : Matching) (o : ScopeObject)
    → IsCovered o m.remaining
    → IsCovered o (match_rule rule m).remaining
unfolding match_rule without
match_rule-IsCovered rule m o (inr (inr u)) = inr (inr u)
match_rule-IsCovered rule m o (inr (inl p)) = inr (
    inl (
      pair_scopes-is_paired rule _ _ m.remaining.baseline
        (record { pairs = m.remaining.result.pairs; paired = [] }) o.address p))
match_rule-IsCovered rule m o (inl k) =
    let v = survey rule m.remaining.baseline m.remaining.subject m.ambiguity in
    let start : Paired = record { pairs = m.remaining.result.pairs; paired = [] } in
    let p = pair_scopes rule v.rule_ambiguous v.b_candidates m.remaining.baseline start in
    let recorded =
      pair_scopes-IsRecorded rule v.rule_ambiguous v.b_candidates m.remaining.baseline start
        (survey-AreOwn rule m.remaining.baseline m.remaining.subject m.ambiguity) (λ a h. cc) in
    elim (Bool-cases (contains p.paired o.address)) [
      | inl q ↦ inr (inl (recorded o.address q))
      | inr q ↦ inl (
          filter-mem (λ x. not (contains p.paired x.address)) o m.remaining.baseline k
            (ground (arith, q)))
    ]

match_rules-IsCovered :
    (rs : List Rule) (m : Matching) (o : ScopeObject)
    → IsCovered o m.remaining
    → IsCovered o (match_rules rs m).remaining
unfolding match_rules
match_rules-IsCovered [] m o c = c
match_rules-IsCovered (rule ∷ rest) m o c =
    match_rules-IsCovered rest (match_rule rule m) o (match_rule-IsCovered rule m o c)

map-unmatched_mem :
    (paired : List ℕ) (a : Ambiguity) (fallback : Reason) (o : ScopeObject) (xs : List ScopeObject)
    → Memᴰ o xs
    → Memᴰ o (scopes_of (map (unmatched_for paired a fallback) xs))
unfolding unmatched_for
map-unmatched_mem paired a f o [] m = elim m [ ]
map-unmatched_mem paired a f o (x ∷ xs) (Memᴰ.head e) = Memᴰ.head e
map-unmatched_mem paired a f o (x ∷ xs) (Memᴰ.tail m) =
    Memᴰ.tail (map-unmatched_mem paired a f o xs m)

-- A scope of the result is paired or reported as unmatched.
abbrev pub IsReported : ScopeObject → MatchSet → Type 0
IsReported o result =
    (is_paired result.pairs o.address ≡ true) ⊎ Memᴰ o (scopes_of result.unmatched_baseline)

finish-IsReported :
    (m : Matching) (o : ScopeObject) → IsCovered o m.remaining → IsReported o (finish m)
unfolding finish
finish-IsReported m o (inr (inl p)) = inl p
finish-IsReported m o (inr (inr u)) = inr (
    rw (map-append (λ u. u.scope) m.remaining.result.unmatched_baseline _)
      (mem-append_left o _ _ u))
finish-IsReported m o (inl k) = inr (
    rw (map-append (λ u. u.scope) m.remaining.result.unmatched_baseline _)
      (mem-append_right o _ _ (map-unmatched_mem _ m.ambiguity _ o m.remaining.baseline k)))

-- Every scope of the baseline that the mapping does not ignore is paired (an address of a pair is
-- its own) or is reported as unmatched, however the IP addresses read, if a scope that is the same
-- as one that a selector matches is matched by it too.
pub match_scopes-IsReported :
    (ip_interface : String → Option IpInterface) (same : Scope → Scope → Bool)
    (baseline subject : List ScopeObject) (mapping : Option Mapping) (o : ScopeObject)
    → ((a b : Scope) (sel : Selector)
        → same a b ≡ true
        → matches sel b ≡ true
        → matches sel a ≡ true)
    → Memᴰ o baseline
    → is_ignored (mapping_or_empty mapping) o.scope ≡ false
    → IsReported o (match_scopes ip_interface same baseline subject mapping)
unfolding match_scopes considered not_ignored
match_scopes-IsReported ip_interface same baseline subject mapping o respects m h =
    let chosen = mapping_or_empty mapping in
    let kept = filter-mem (λ x. not (is_ignored chosen x.scope)) o baseline m (ground (arith, h)) in
    finish-IsReported _ o (
      match_rules-IsCovered (rules ip_interface) _ o (
        apply_manual-IsCovered same respects chosen (considered chosen baseline subject) o
          (inl kept)))
