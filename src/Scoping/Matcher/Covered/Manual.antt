-- ===== src/Scoping/Matcher/Covered/Manual.antt =====
-- What becomes of the baseline under the manual rules (`_apply_manual` in migration_validator/scoping/matcher.py).
use migration_status_check.Base.{
  filter-mem, ◌≡◌, ap, Bool, true, ◌||◌, List, [], ◌∷◌, ◌==◌, map, nat_eq, arith, any-append,
  mem-append_left, mem-append_right, map-append, inl, inr, eq_refl, All, filter_sound,
}
use migration_status_check.Models.Scope.{Scope}
use migration_status_check.Scoping.Mapping.{Mapping, MappingRule, Selector, matches}
use migration_status_check.Scoping.Matcher.{ScopeObject, Reason, ambiguity_reason}
use migration_status_check.Scoping.Matcher.Manual.{
  Remaining, hits, all_ambiguous, apply_hits, apply_rule, apply_rules, apply_manual, drop_baseline,
  drop_subject,
}
use migration_status_check.Scoping.Matcher.Covered.{
  IsCovered, scopes_of, remove_first-mem, remove_each-mem,
}
use mathlib.Core.List.{Memᴰ}

map-reason_mem :
    (o : ScopeObject) (r : Reason) (xs : List ScopeObject)
    → Memᴰ o xs
    → Memᴰ o (scopes_of (map (λ x. record { scope = x; reason = r }) xs))
map-reason_mem o r [] m = elim m [ ]
map-reason_mem o r (x ∷ xs) (Memᴰ.head e) = Memᴰ.head e
map-reason_mem o r (x ∷ xs) (Memᴰ.tail m) = Memᴰ.tail (map-reason_mem o r xs m)

module _ (same : Scope → Scope → Bool)
    (respects : (a b : Scope) (sel : Selector)
      → same a b ≡ true
      → matches sel b ≡ true
      → matches sel a ≡ true) where
  drop_subject-IsCovered :
      (ss : List ScopeObject) (r : Remaining) (o : ScopeObject)
      → IsCovered o r
      → IsCovered o (drop_subject same ss r)
  drop_subject-IsCovered [] r o c = c
  drop_subject-IsCovered (s ∷ []) r o c = c
  drop_subject-IsCovered (s ∷ t ∷ ss) r o c = c

  drop_baseline-IsCovered :
      (sel : Selector) (bs : List ScopeObject) (r : Remaining) (o : ScopeObject)
      → All (λ x. matches sel x.scope ≡ true) bs
      → (Memᴰ o r.baseline → matches sel o.scope ≡ true → Memᴰ o bs)
      → IsCovered o r
      → IsCovered o (drop_baseline same bs r)
  unfolding all_ambiguous
  drop_baseline-IsCovered sel [] r o a hit c = c
  drop_baseline-IsCovered sel (x ∷ []) r o a hit c = c
  drop_baseline-IsCovered sel (x ∷ y ∷ more) r o a hit (inr (inl p)) = inr (inl p)
  drop_baseline-IsCovered sel (x ∷ y ∷ more) r o a hit (inr (inr u)) = inr (
      inr (
        rw (map-append (λ u. u.scope) r.result.unmatched_baseline (all_ambiguous (x ∷ y ∷ more)))
          (mem-append_left o _ _ u)))
  drop_baseline-IsCovered sel (x ∷ y ∷ more) r o a hit (inl m) =
      elim (remove_each-mem same (λ z. matches sel z.scope ≡ true) (x ∷ y ∷ more) o r.baseline
        (λ z p q. respects o.scope z.scope sel q p) a m) [
          | inl l ↦ inl l
          | inr p ↦ inr (
              inr (
                rw
                  (map-append (λ u. u.scope) r.result.unmatched_baseline
                    (all_ambiguous (x ∷ y ∷ more)))
                  (mem-append_right o _ _
                    (map-reason_mem o (ambiguity_reason (x ∷ y ∷ more)) (x ∷ y ∷ more) (hit m p)))))
        ]

  apply_hits-IsCovered :
      (sel : Selector) (bs ss : List ScopeObject) (r : Remaining) (o : ScopeObject)
      → All (λ x. matches sel x.scope ≡ true) bs
      → (Memᴰ o r.baseline → matches sel o.scope ≡ true → Memᴰ o bs)
      → IsCovered o r
      → IsCovered o (apply_hits same bs ss r)
  apply_hits-IsCovered sel [] ss r o a hit c = drop_subject-IsCovered ss r o c
  apply_hits-IsCovered sel (b ∷ []) [] r o a hit c = c
  apply_hits-IsCovered sel (b ∷ []) (s ∷ t ∷ ss) r o a hit c = c
  apply_hits-IsCovered sel (b ∷ d ∷ bs) ss r o a hit c =
      drop_subject-IsCovered ss (drop_baseline same (b ∷ d ∷ bs) r) o
        (drop_baseline-IsCovered sel (b ∷ d ∷ bs) r o a hit c)
  apply_hits-IsCovered sel (b ∷ []) (s ∷ []) r o a hit (inr (inl p)) = inr (
      inl (
        ground (
          arith,
          p,
          any-append (λ q. q.baseline.address == o.address || q.subject.address == o.address)
              r.result.pairs
              (record { baseline = b; subject = s; method = "manual"; confidence = "manual" } ∷ []),
        )))
  apply_hits-IsCovered sel (b ∷ []) (s ∷ []) r o a hit (inr (inr u)) = inr (inr u)
  apply_hits-IsCovered sel (b ∷ []) (s ∷ []) r o a hit (inl m) =
      elim (remove_first-mem same b o r.baseline m) [
        | inl l ↦ inl l
        | inr q ↦ elim (hit m (respects o.scope b.scope sel q a.0)) [
          | Memᴰ.head e ↦ inr (
              inl (
                ground (
                  arith,
                  ap (λ z. z.address) e,
                  eq_refl b.address,
                  any-append
                      (λ q. q.baseline.address == o.address || q.subject.address == o.address)
                      r.result.pairs
                      (record {
                        baseline = b;
                        subject = s;
                        method = "manual";
                        confidence = "manual";
                      }
                        ∷ []),
                )))
          | Memᴰ.tail t ↦ elim t [ ]
        ]
      ]

  apply_rules-IsCovered :
      (rules : List MappingRule) (r : Remaining) (o : ScopeObject)
      → IsCovered o r
      → IsCovered o (apply_rules same rules r)
  unfolding apply_rule hits
  apply_rules-IsCovered [] r o c = c
  apply_rules-IsCovered (rule ∷ rest) r o c =
      apply_rules-IsCovered rest (apply_rule same rule r) o (
        apply_hits-IsCovered rule.baseline (hits rule.baseline r.baseline)
          (hits rule.subject r.subject) r o
          (filter_sound (λ x. matches rule.baseline x.scope) r.baseline)
          (λ m q. filter-mem (λ x. matches rule.baseline x.scope) o r.baseline m q) c)

  pub apply_manual-IsCovered :
      (mapping : Mapping) (r : Remaining) (o : ScopeObject)
      → IsCovered o r
      → IsCovered o (apply_manual same mapping r)
  unfolding apply_manual
  apply_manual-IsCovered mapping r o c = apply_rules-IsCovered mapping.mappings r o c
