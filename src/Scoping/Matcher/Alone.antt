-- ===== src/Scoping/Matcher/Alone.antt =====
-- What the first pass of a rule records of every key: a candidate on either side, or an ambiguity
-- (`match_scopes` in migration_validator/scoping/matcher.py).
use mathlib.Core.List.{Memᴰ}
use migration_status_check.Base.Dict
use migration_status_check.Base.Dict.{Dict, is_some}
use migration_status_check.Base.{
  Eq, ℕ, ◌≤◌, Bool, true, false, ◌||◌, ◌&&◌, Option, none, some, List, [], ◌∷◌, ◌++◌, length,
  contains, ltb, ◌==◌, nat_eq, arith, eq_iff, eq_refl, ◌≡◌, refl, sym, ap, subst, ◌∙◌, ◌⊎◌, inl,
  inr, Bool-cases,
}
use migration_status_check.Scoping.Matcher.{ScopeObject, entries, or_empty}
use migration_status_check.Scoping.Matcher.Keys.{Key, key_eq, Rule, index_by}
use migration_status_check.Scoping.Matcher.Survey.{
  Survey, Ambiguity, new_survey, add_candidate, add_edge, add_crowd, with_rivals, survey_key,
  survey_keys, spread, spread_all, addresses, partners_of,
}
use migration_status_check.Scoping.Matcher.Match.{survey}

-- The scope has the other one among its candidates.
abbrev pub HasCandidate : Dict ℕ (Dict ℕ ScopeObject) → ℕ → ℕ → Type 0
HasCandidate d i j = Dict.has (entries d i) j ≡ true

abbrev pub IsMarked : Survey → ℕ → Type 0
IsMarked v a = contains v.rule_ambiguous a ≡ true

-- What is recorded stays recorded.
pub record Grows (v w : Survey) : Type 0 where
  pub marks : (a : ℕ) → IsMarked v a → IsMarked w a
  pub of_baseline : (i j : ℕ) → HasCandidate v.b_candidates i j → HasCandidate w.b_candidates i j
  pub of_subject : (i j : ℕ) → HasCandidate v.s_candidates i j → HasCandidate w.s_candidates i j

Grows-refl : (v : Survey) → Grows v v
Grows-refl v = record { marks = λ a h. h; of_baseline = λ i j h. h; of_subject = λ i j h. h }

Grows-trans : {u v w : Survey} → Grows u v → Grows v w → Grows u w
Grows-trans g h = record {
  marks = λ a m. h.marks a (g.marks a m);
  of_baseline = λ i j m. h.of_baseline i j (g.of_baseline i j m);
  of_subject = λ i j m. h.of_subject i j (g.of_subject i j m);
}

pub contains-append :
    (xs ys : List ℕ) (a : ℕ) → contains (xs ++ ys) a ≡ (contains xs a || contains ys a)
contains-append [] ys a = refl
contains-append (x ∷ xs) ys a = ground (arith, contains-append xs ys a)

has-put :
    (d : Dict ℕ ScopeObject) (i j : ℕ) (o : ScopeObject)
    → Dict.has (Dict.put d i o) j ≡ (i == j || Dict.has d j)
unfolding Dict.has
has-put d i j o = ground (arith, Dict.get-put d i j o)

has-add_candidate :
    (d : Dict ℕ (Dict ℕ ScopeObject)) (b s : ScopeObject) (i j : ℕ)
    → Dict.has (entries (add_candidate d b s) i) j
      ≡ ((b.address == i && s.address == j) || Dict.has (entries d i) j)
unfolding add_candidate entries
has-add_candidate d b s i j =
    let added = Dict.put (entries d b.address) s.address s in
    let written = Dict.get-put d b.address i added in
    elim (Bool-cases (b.address == i)) [
      | inl q ↦
          let same = (eq_iff b.address i).0 q in
          let found : Dict.get (Dict.put d b.address added) i ≡ some added =
            ground (arith, written, q) in
          ap (λ o. Dict.has (or_empty o) j) found
          ∙ has-put (entries d b.address) s.address j s
          ∙ ap (λ z. s.address == j || Dict.has (entries d z) j) same
          ∙ ground (arith, q)
      | inr q ↦
          let found : Dict.get (Dict.put d b.address added) i ≡ Dict.get d i =
            ground (arith, written, q) in
          ap (λ o. Dict.has (or_empty o) j) found ∙ ground (arith, q)
    ]

add_candidate-keeps :
    (d : Dict ℕ (Dict ℕ ScopeObject)) (b s : ScopeObject) (i j : ℕ)
    → HasCandidate d i j
    → HasCandidate (add_candidate d b s) i j
add_candidate-keeps d b s i j h = ground (arith, has-add_candidate d b s i j, h)

add_candidate-own :
    (d : Dict ℕ (Dict ℕ ScopeObject)) (b s : ScopeObject)
    → HasCandidate (add_candidate d b s) b.address s.address
add_candidate-own d b s =
    ground
      (arith, has-add_candidate d b s b.address s.address, eq_refl b.address, eq_refl s.address)

-- A key with one scope on either side, who are candidates of each other
pub record IsCandidates (v : Survey) (bs ss : List ScopeObject) : Type 0 where
  pub b : ScopeObject
  pub s : ScopeObject
  pub b_alone : bs ≡ b ∷ []
  pub s_alone : ss ≡ s ∷ []
  pub of_b : HasCandidate v.b_candidates b.address s.address
  pub of_s : HasCandidate v.s_candidates s.address b.address

-- All scopes of the key are marked as ambiguous.
abbrev pub AreMarked : Survey → List ScopeObject → List ScopeObject → Type 0
AreMarked v bs ss = (a : ℕ) → contains (addresses ss ++ addresses bs) a ≡ true → IsMarked v a

-- What a key leaves behind
abbrev pub IsRecorded : Survey → List ScopeObject → List ScopeObject → Type 0
IsRecorded v bs ss = (ss ≡ []) ⊎ (IsCandidates v bs ss ⊎ AreMarked v bs ss)

IsRecorded-Grows :
    {v w : Survey} {bs ss : List ScopeObject} → Grows v w → IsRecorded v bs ss → IsRecorded w bs ss
IsRecorded-Grows g (inl e) = inl e
IsRecorded-Grows g (inr (inl c)) = inr (
    inl (record {
      b = c.b;
      s = c.s;
      b_alone = c.b_alone;
      s_alone = c.s_alone;
      of_b = g.of_baseline c.b.address c.s.address c.of_b;
      of_s = g.of_subject c.s.address c.b.address c.of_s;
    }))
IsRecorded-Grows g (inr (inr m)) = inr (inr (λ a h. g.marks a (m a h)))

crowd_bool :
    (x y z : Bool) {whole rest own : Bool}
    → whole ≡ (x || rest)
    → rest ≡ (y || z)
    → own ≡ (x || y)
    → own ≡ true
    → whole ≡ true
crowd_bool x y z a b c h = ground (arith, a, b, c, h)

add_crowd-marks :
    (bs ss : List ScopeObject) (v : Survey)
    → AreMarked (add_crowd bs ss v) bs ss × Grows v (add_crowd bs ss v)
unfolding add_crowd
add_crowd-marks bs ss v =
    let all_of = λ (a : ℕ). contains-append (addresses ss) (addresses bs ++ v.rule_ambiguous) a in
    let rest_of = λ (a : ℕ). contains-append (addresses bs) v.rule_ambiguous a in
    let own = λ (a : ℕ). contains-append (addresses ss) (addresses bs) a in
    (
      λ a h. crowd_bool _ _ _ (all_of a) (rest_of a) (own a) h,
      record {
        marks = λ a h. ground (arith, all_of a, rest_of a, h);
        of_baseline = λ i j h. h;
        of_subject = λ i j h. h;
      },
    )

add_edge-IsCandidates :
    (b s : ScopeObject) (v : Survey)
    → IsCandidates (add_edge b s v) (b ∷ []) (s ∷ []) × Grows v (add_edge b s v)
unfolding add_edge
add_edge-IsCandidates b s v = (
  record {
    b = b;
    s = s;
    b_alone = refl;
    s_alone = refl;
    of_b = add_candidate-own v.b_candidates b s;
    of_s = add_candidate-own v.s_candidates s b;
  },
  record {
    marks = λ a h. h;
    of_baseline = λ i j h. add_candidate-keeps v.b_candidates b s i j h;
    of_subject = λ i j h. add_candidate-keeps v.s_candidates s b i j h;
  },
)

survey_key-IsRecorded :
    (bs ss : List ScopeObject) (v : Survey)
    → IsRecorded (survey_key bs ss v) bs ss × Grows v (survey_key bs ss v)
survey_key-IsRecorded bs [] v = (inl refl, Grows-refl v)
survey_key-IsRecorded [] (s ∷ ss) v =
    let (m, g) = add_crowd-marks [] (s ∷ ss) (with_rivals [] (s ∷ ss) v) in
    (
      inr (inr m),
      record { marks = g.marks; of_baseline = g.of_baseline; of_subject = g.of_subject },
    )
survey_key-IsRecorded (b ∷ []) (s ∷ []) v =
    let (m, g) = add_edge-IsCandidates b s (with_rivals (b ∷ []) (s ∷ []) v) in
    (
      inr (inl m),
      record { marks = g.marks; of_baseline = g.of_baseline; of_subject = g.of_subject },
    )
survey_key-IsRecorded (b ∷ []) (s ∷ t ∷ ss) v =
    let (m, g) = add_crowd-marks (b ∷ []) (s ∷ t ∷ ss) (with_rivals (b ∷ []) (s ∷ t ∷ ss) v) in
    (
      inr (inr m),
      record { marks = g.marks; of_baseline = g.of_baseline; of_subject = g.of_subject },
    )
survey_key-IsRecorded (b ∷ c ∷ bs) (s ∷ ss) v =
    let (m, g) = add_crowd-marks (b ∷ c ∷ bs) (s ∷ ss) (with_rivals (b ∷ c ∷ bs) (s ∷ ss) v) in
    (
      inr (inr m),
      record { marks = g.marks; of_baseline = g.of_baseline; of_subject = g.of_subject },
    )

survey_keys-Grows :
    (index other : Dict Key (List ScopeObject)) (v : Survey) → Grows v (survey_keys index other v)
unfolding survey_keys
survey_keys-Grows [] other v = Grows-refl v
survey_keys-Grows ((k, bs) ∷ rest) other v =
    Grows-trans (survey_key-IsRecorded bs (entries other k) v).1
      (survey_keys-Grows rest other (survey_key bs (entries other k) v))

survey_keys-IsRecorded :
    (index other : Dict Key (List ScopeObject)) (v : Survey) (k : Key) (bs : List ScopeObject)
    → Memᴰ (k, bs) index
    → IsRecorded (survey_keys index other v) bs (entries other k)
unfolding survey_keys
survey_keys-IsRecorded [] other v k bs m = elim m [ ]
survey_keys-IsRecorded ((j, cs) ∷ rest) other v k bs (Memᴰ.head e) =
    subst
      (λ p.
        IsRecorded (survey_keys rest other (survey_key cs (entries other j) v)) p.1
          (entries other p.0))
      (sym e)
      (IsRecorded-Grows (survey_keys-Grows rest other (survey_key cs (entries other j) v))
        (survey_key-IsRecorded cs (entries other j) v).0)
survey_keys-IsRecorded ((j, cs) ∷ rest) other v k bs (Memᴰ.tail m) =
    survey_keys-IsRecorded rest other (survey_key cs (entries other j) v) k bs m

spread-Grows :
    (scopes : Dict ℕ ScopeObject) (i : ℕ) (ps : Dict ℕ ScopeObject) (v : Survey)
    → Grows v (spread scopes i ps v)
      × (ltb 1 (length ps) ≡ true → IsMarked (spread scopes i ps v) i)
      × ((spread scopes i ps v).s_candidates ≡ v.s_candidates)
unfolding spread
spread-Grows scopes i ps v =
    let added = λ (a : ℕ). contains-append (addresses (partners_of ps)) (i ∷ v.rule_ambiguous) a in
    elim (Bool-cases (ltb 1 (length ps))) [
      | inl q ↦ rw q (
        record {
          marks = λ a h. ground (arith, added a, h);
          of_baseline = λ x j h. h;
          of_subject = λ x j h. h;
        },
        λ h. ground (arith, added i, eq_refl i),
        refl,
      )
      | inr q ↦ rw q (Grows-refl v, (λ h. cc h), refl)
    ]

spread_all-Grows :
    (scopes : Dict ℕ ScopeObject) (d : Dict ℕ (Dict ℕ ScopeObject)) (v : Survey)
    → Grows v (spread_all scopes d v) × ((spread_all scopes d v).s_candidates ≡ v.s_candidates)
unfolding spread_all
spread_all-Grows scopes [] v = (Grows-refl v, refl)
spread_all-Grows scopes ((i, ps) ∷ rest) v =
    let (g, _, same) = spread-Grows scopes i ps v in
    let (h, kept) = spread_all-Grows scopes rest (spread scopes i ps v) in
    (Grows-trans g h, kept ∙ same)

-- A scope with several candidates is marked.
spread_all-marks :
    (scopes : Dict ℕ ScopeObject) (d : Dict ℕ (Dict ℕ ScopeObject)) (v : Survey) (i : ℕ)
    (ps : Dict ℕ ScopeObject)
    → Memᴰ (i, ps) d
    → ltb 1 (length ps) ≡ true
    → IsMarked (spread_all scopes d v) i
unfolding spread_all
spread_all-marks scopes [] v i ps m h = elim m [ ]
spread_all-marks scopes ((j, qs) ∷ rest) v i ps (Memᴰ.head e) h =
    let same : i ≡ j = ap (λ p. p.0) e in
    let several : ltb 1 (length qs) ≡ true = ap (λ p. ltb 1 (length p.1)) (sym e) ∙ h in
    let (g, marks, _) = spread-Grows scopes j qs v in
    (spread_all-Grows scopes rest (spread scopes j qs v)).0.marks i
      (subst (IsMarked (spread scopes j qs v)) (sym same) (marks several))
spread_all-marks scopes ((j, qs) ∷ rest) v i ps (Memᴰ.tail m) h =
    spread_all-marks scopes rest (spread scopes j qs v) i ps m h

pair_of {ℓ κ} :
    {K : Type ℓ} {W : Type κ} {j k : K} {w v : W} → j ≡ k → w ≡ v → ◌≡◌ {A = K × W} (k, v) (j, w)
pair_of {j} {v} p q = ap (λ x. (x, v)) (sym p) ∙ ap (λ x. (j, x)) (sym q)

pub some_value {ℓ} : {W : Type ℓ} {w v : W} → ◌≡◌ {A = Option W} (some w) (some v) → w ≡ v
some_value {w} h = ap (λ o. elim o [ none ↦ w | some x ↦ x ]) h

pub mem_of_get {ℓ κ} :
    {K : Type ℓ} {W : Type κ} ⦃e : Eq K⦄ (d : Dict K W) (k : K) (v : W)
    → Dict.get d k ≡ some v
    → Memᴰ (k, v) d
unfolding Dict.get
mem_of_get [] k v h = cc h
mem_of_get {W = W} ((j, w) ∷ d) k v h = elim (Bool-cases (j == k)) [
  | inl q ↦
      let same : ◌≡◌ {A = Option W} (some w) (some v) = ground (arith, q, h) in
      Memᴰ.head (pair_of ((eq_iff j k).0 q) (some_value same))
  | inr q ↦ Memᴰ.tail (mem_of_get d k v (ground (arith, q, h)))
]

-- The survey of a rule records every key of the baseline, and marks a scope of the subject that has
-- several candidates.
pub survey-IsRecorded :
    (rule : Rule) (baseline subject : List ScopeObject) (before : Ambiguity) (k : Key)
    (bs : List ScopeObject)
    → Memᴰ (k, bs) (index_by rule.keys_of baseline)
    → IsRecorded
        (survey rule baseline subject before)
        bs
        (entries (index_by rule.keys_of subject) k)
unfolding survey
survey-IsRecorded rule baseline subject before k bs m =
    let index = index_by rule.keys_of baseline in
    let other = index_by rule.keys_of subject in
    let keyed = survey_keys index other (new_survey before) in
    let b_spread = spread_all keyed.b_scopes keyed.b_candidates keyed in
    let g =
      Grows-trans (spread_all-Grows keyed.b_scopes keyed.b_candidates keyed).0
        (spread_all-Grows b_spread.s_scopes b_spread.s_candidates b_spread).0 in
    IsRecorded-Grows
      (record { marks = g.marks; of_baseline = g.of_baseline; of_subject = g.of_subject })
      (survey_keys-IsRecorded index other (new_survey before) k bs m)

pub survey-several :
    (rule : Rule) (baseline subject : List ScopeObject) (before : Ambiguity) (i : ℕ)
    (ps : Dict ℕ ScopeObject)
    → Dict.get (survey rule baseline subject before).s_candidates i ≡ some ps
    → contains (survey rule baseline subject before).rule_ambiguous i ≡ false
    → length ps ≤ 1
unfolding survey
survey-several rule baseline subject before i ps h clear =
    let index = index_by rule.keys_of baseline in
    let other = index_by rule.keys_of subject in
    let keyed = survey_keys index other (new_survey before) in
    let b_spread = spread_all keyed.b_scopes keyed.b_candidates keyed in
    let kept = (spread_all-Grows b_spread.s_scopes b_spread.s_candidates b_spread).1 in
    elim (Bool-cases (ltb 1 (length ps))) [
      | inr q ↦ ground (arith, q)
      | inl q ↦
          let marked =
            spread_all-marks b_spread.s_scopes b_spread.s_candidates b_spread i ps
              (mem_of_get b_spread.s_candidates i ps (ap (λ d. Dict.get d i) (sym kept) ∙ h)) q in
          absurd (cc (marked, clear))
    ]
