-- ===== src/Scoping/Matcher/Unambiguous.antt =====
-- What the pairs of a rule rest on (`match_scopes` in migration_validator/scoping/matcher.py).
use migration_status_check.Base.Dict.{Dict}
use migration_status_check.Base.{
  ℕ, contains, true, subst, nat_eq, ◌≡◌, refl, sym, ap, ◌∙◌, Option, none, some, List, [], ◌∷◌,
  arith, inl, inr, ◌⊎◌, All, eq_iff, All-append, All-of_mem, ◌≢◌,
}
use migration_status_check.Scoping.Matcher.{ScopeObject, MatchedPair}
use migration_status_check.Scoping.Matcher.Keys.{key_eq, Rule}
use migration_status_check.Scoping.Matcher.Match.{
  partner, Paired, add_pair, pair_scopes, Matching, match_rule,
}
use migration_status_check.Scoping.Matcher.Survey.{addresses}
use migration_status_check.Scoping.Matcher.Alone.{HasCandidate}
use migration_status_check.Scoping.Matcher.Covered.Candidates.{
  IsOwnAddress, survey-AreOwn, partner-of,
}
use mathlib.Core.List.{Memᴰ}
use migration_status_check.Scoping.Matcher.Holders.{IsEdge, survey-IsEdge}
use migration_status_check.Scoping.Matcher.Choice.{
  HasNoChoice, surveyed, partner-clear, only_one, recorded-IsCandidates, no_choice,
}

-- A pair that was there before, or one of a key that its scopes have alone, of scopes without a choice
abbrev pub IsFrom :
    List MatchedPair → Rule → List ScopeObject → List ScopeObject → MatchedPair → Type 0
IsFrom before rule baseline subject p =
    Memᴰ p before
    ⊎ (IsEdge rule baseline subject p.baseline.address (p.subject.address, p.subject)
        × HasNoChoice rule baseline subject p.baseline.address p.subject.address)

-- The scopes of the pairs that are added satisfy what the partner of a scope does.
module _ (P : MatchedPair → Type 0) (rule : Rule) (blocked : List ℕ)
    (candidates : Dict ℕ (Dict ℕ ScopeObject))
    (adds : (o : ScopeObject) (q : ℕ × ScopeObject) (paired : List ℕ)
      → partner blocked candidates paired o ≡ some q
      → P (record {
        baseline = o;
        subject = q.1;
        method = rule.method;
        confidence = rule.confidence;
      })) where
  add_pair-All :
      (o : ScopeObject) (q : Option (ℕ × ScopeObject)) (p : Paired)
      → partner blocked candidates p.paired o ≡ q
      → All P p.pairs
      → All P (add_pair rule o q p).pairs
  add_pair-All o none p h a = a
  add_pair-All o (some q) p h a = All-append P p.pairs _ a (adds o q p.paired h, tt)

  pair_scopes-All :
      (os : List ScopeObject) (p : Paired)
      → All P p.pairs
      → All P (pair_scopes rule blocked candidates os p).pairs
  unfolding pair_scopes
  pair_scopes-All [] p a = a
  pair_scopes-All (o ∷ os) p a =
      pair_scopes-All os (add_pair rule o (partner blocked candidates p.paired o) p)
        (add_pair-All o (partner blocked candidates p.paired o) p refl a)

nonempty : (os : List ScopeObject) (o : ScopeObject) → os ≡ o ∷ [] → os ≢ []
nonempty os o h k = cc (h, k)

partner-IsFrom :
    (rule : Rule) (m : Matching) (o : ScopeObject) (q : ℕ × ScopeObject) (paired : List ℕ)
    → partner (surveyed rule m).rule_ambiguous (surveyed rule m).b_candidates paired o ≡ some q
    → IsEdge rule m.remaining.baseline m.remaining.subject o.address (q.1.address, q.1)
      × HasNoChoice rule m.remaining.baseline m.remaining.subject o.address q.1.address
partner-IsFrom rule m o q paired h =
    let v = surveyed rule m in
    let (o_clear, q_clear, only) = partner-clear v.rule_ambiguous v.b_candidates paired o q h in
    let edge =
      partner-of (IsEdge rule m.remaining.baseline m.remaining.subject) v.rule_ambiguous
        v.b_candidates paired o q (survey-IsEdge rule m) h in
    let own : q.0 ≡ q.1.address =
      partner-of IsOwnAddress v.rule_ambiguous v.b_candidates paired o q
        (survey-AreOwn rule m.remaining.baseline m.remaining.subject m.ambiguity) h in
    let (k, (b, (b_alone, (s_alone, at)))) = edge in
    let c =
      recorded-IsCandidates rule m o.address q o_clear q_clear only k (nonempty _ b b_alone)
        (nonempty _ q.1 s_alone)
        (inl (
          subst (λ os. contains (addresses os) o.address ≡ true) (sym b_alone)
            (ground (arith, (eq_iff b.address o.address).1 at)))) in
    let c_b : c.b ≡ b = only_one (sym c.b_alone ∙ b_alone) in
    let c_s : c.s ≡ q.1 = only_one (sym c.s_alone ∙ s_alone) in
    let of_q : HasCandidate v.s_candidates q.0 o.address =
      subst (λ z. HasCandidate v.s_candidates z o.address) (ap (λ s. s.address) c_s ∙ sym own)
        (subst (HasCandidate v.s_candidates c.s.address) (ap (λ b. b.address) c_b ∙ at) c.of_s) in
    (
      edge,
      subst (HasNoChoice rule m.remaining.baseline m.remaining.subject o.address) own
          (no_choice rule m o.address q o_clear q_clear only of_q),
    )

-- A rule adds a pair only where one of its keys is held, of all the scopes that are left, by the
-- baseline scope of the pair alone on its side and by the subject scope of the pair alone on the
-- other; and it never chooses among several: every key of one of the two scopes that both sides have
-- is held by these two scopes alone.
pub match_rule-IsFrom :
    (rule : Rule) (m : Matching)
    → All
        (IsFrom m.remaining.result.pairs rule m.remaining.baseline m.remaining.subject)
        (match_rule rule m).remaining.result.pairs
unfolding match_rule
match_rule-IsFrom rule m =
    let before = m.remaining.result.pairs in
    let P = IsFrom before rule m.remaining.baseline m.remaining.subject in
    pair_scopes-All P rule (surveyed rule m).rule_ambiguous (surveyed rule m).b_candidates
      (λ o q paired h. inr (partner-IsFrom rule m o q paired h)) m.remaining.baseline
      (record { pairs = before; paired = [] }) (All-of_mem P before (λ p h. inl h))
