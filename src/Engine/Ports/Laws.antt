-- ===== src/Engine/Ports/Laws.antt =====
-- Who wins a vote (`_l1_baseline` in migration_validator/engine.py).
use migration_status_check.Base.Dict
use migration_status_check.Base.Dict.{Dict}
use migration_status_check.Models.Scope.Select.{head?}
use migration_status_check.Base.{
  ap, sym, subst, ◌∙◌, find?, find?-mem, find?_sound, ℕ, ◌≤◌, ◌<◌, ◌≡◌, ◌⊎◌, refl, String, true,
  false, none, some, List, [], ◌∷◌, ◌==◌, string_eq, nat_eq, arith, ltb, eq_iff, Bool-cases,
  Option-cases, inl, inr, All, All-map_imp, All-mem, ◌≢◌, ◌+◌, suc, Option, Bool, ◌&&◌, count_by,
  if◌then◌else◌,
}
use migration_status_check.Engine.Ports.{
  leader, is_tied, winner, count_votes, l1_baseline, add_vote, count_of,
}
use migration_status_check.Models.Scope.{Scope}
use migration_status_check.Scoping.Linker.{is_only}
use migration_status_check.Scoping.Matcher.{MatchedPair}
use mathlib.Core.List.{Memᴰ}

leader-none : (votes : Dict String ℕ) → leader votes ≡ none → votes ≡ []
unfolding leader
leader-none [] h = refl
leader-none ((name, n) ∷ rest) h = elim (Option-cases (leader rest)) [
  | inl q ↦ absurd (ground (arith, q, h))
  | inr (r, q) ↦ absurd (ground (arith, q, h))
]

leader-mem : (votes : Dict String ℕ) (top : String × ℕ) → leader votes ≡ some top → Memᴰ top votes
unfolding leader
leader-mem [] top h = cc
leader-mem ((name, n) ∷ rest) top h = elim (Option-cases (leader rest)) [
  | inl q ↦ Memᴰ.head (ground (arith, q, h))
  | inr (r, q) ↦ elim (Bool-cases (ltb n r.1)) [
    | inl x ↦ Memᴰ.tail (leader-mem rest top (ground (arith, q, x, h)))
    | inr x ↦ Memᴰ.head (ground (arith, q, x, h))
  ]
]

-- The leader has at least the votes of everybody.
leader-greatest :
    (votes : Dict String ℕ) (top : String × ℕ)
    → leader votes ≡ some top
    → All (λ e. e.1 ≤ top.1) votes
unfolding leader
leader-greatest [] top h = tt
leader-greatest ((name, n) ∷ rest) top h = elim (Option-cases (leader rest)) [
  | inl q ↦
      let same : (name, n) ≡ top = ground (arith, q, h) in
      (
        ground (arith, ap (λ p. p.1) same),
        subst (All (λ e. e.1 ≤ top.1)) (sym (leader-none rest q)) tt,
      )
  | inr (r, q) ↦ elim (Bool-cases (ltb n r.1)) [
    | inl x ↦
        let same : r ≡ top = ground (arith, q, x, h) in
        (ground (arith, x, ap (λ p. p.1) same), leader-greatest rest top (q ∙ ap some same))
    | inr x ↦
        let same : (name, n) ≡ top = ground (arith, q, x, h) in
        (
          ground (arith, ap (λ p. p.1) same),
          All-map_imp (λ e. e.1 ≤ r.1) (λ e. e.1 ≤ top.1)
              (λ e k. ground (arith, x, ap (λ p. p.1) same)) rest (leader-greatest rest r q),
        )
  ]
]

not_tied-others :
    (votes : Dict String ℕ) (top : String × ℕ)
    → is_tied top votes ≡ false
    → All (λ e. e.1 ≤ top.1) votes
    → All (λ e. (e.0 ≡ top.0) ⊎ (e.1 < top.1)) votes
unfolding is_tied
not_tied-others [] top h a = tt
not_tied-others ((name, n) ∷ rest) top h a = elim (Bool-cases (name == top.0)) [
  | inl q ↦ (inl ((eq_iff name top.0).0 q), not_tied-others rest top (ground (arith, q, h)) a.1)
  | inr q ↦ (inr (ground (arith, q, h, a.0)), not_tied-others rest top (ground (arith, q, h)) a.1)
]

-- A name with its votes that no other name reaches
abbrev pub IsWinner : Dict String ℕ → String → Type 0
IsWinner votes name = (n : ℕ) × (Memᴰ (name, n) votes × All (λ e. (e.0 ≡ name) ⊎ (e.1 < n)) votes)

winner-IsWinner :
    (votes : Dict String ℕ) (name : String) → winner votes ≡ some name → IsWinner votes name
unfolding winner
winner-IsWinner votes name h = elim (Option-cases (leader votes)) [
  | inl q ↦ absurd (ground (arith, q, h))
  | inr (top, q) ↦ elim (Bool-cases (is_tied top votes)) [
    | inl x ↦ absurd (ground (arith, q, x, h))
    | inr x ↦
        let same : top.0 ≡ name = ground (arith, q, x, h) in
        subst (IsWinner votes) same (
          top.1,
          (leader-mem votes top q, not_tied-others votes top x (leader-greatest votes top q)),
        )
  ]
]

-- Is the list this one name?
abbrev pub holds_just : List String → String → Bool
holds_just [] name = false
holds_just (x ∷ []) name = x == name
holds_just (x ∷ y ∷ xs) name = false

abbrev pub begins_with : List String → String → Bool
begins_with [] name = false
begins_with (x ∷ xs) name = x == name

-- The service of the pair is on the L1 port of the subject, and was on the port of the baseline.
abbrev pub came_from : String → String → MatchedPair → Bool
came_from port name p =
    holds_just p.subject.scope.selectors.physical_interfaces port
    && begins_with p.baseline.scope.selectors.physical_interfaces name

-- How many of the paired services of the L1 port came from a port of the baseline
abbrev pub came_count : String → String → List MatchedPair → ℕ
came_count port name pairs = count_by (came_from port name) pairs

holds_just-is_only : (xs : List String) (name : String) → is_only xs name ≡ holds_just xs name
holds_just-is_only [] name = refl
holds_just-is_only (x ∷ []) name = refl
holds_just-is_only (x ∷ y ∷ xs) name = refl

add_vote-count :
    (votes : Dict String ℕ) (names : List String) (name : String)
    → count_of (Dict.get (add_vote votes (head? names)) name) ≡ (
        if begins_with names name
        then suc (count_of (Dict.get votes name))
        else count_of (Dict.get votes name))
unfolding add_vote
add_vote-count votes [] name = refl
add_vote-count votes (x ∷ xs) name = elim (Bool-cases (x == name)) [
  | inl q ↦
      ground (
        arith,
        q,
        (eq_iff x name).0 q,
        Dict.get-put votes x name (suc (count_of (Dict.get votes x))),
      )
  | inr q ↦ ground (arith, q, Dict.get-put votes x name (suc (count_of (Dict.get votes x))))
]

add_vote-IsDict :
    (votes : Dict String ℕ) (o : Option String) → Dict.IsDict votes → Dict.IsDict (add_vote votes o)
unfolding add_vote
add_vote-IsDict votes none u = u
add_vote-IsDict votes (some n) u = Dict.put-IsDict votes n _ u

-- The votes for a port are its paired services.
count_votes-came_count :
    (port name : String) (pairs : List MatchedPair) (votes : Dict String ℕ)
    → count_of (Dict.get (count_votes port pairs votes) name)
      ≡ count_of (Dict.get votes name) + came_count port name pairs
unfolding count_votes
count_votes-came_count port name [] votes = omega arith
count_votes-came_count port name (p ∷ ps) votes =
    let ports = p.subject.scope.selectors.physical_interfaces in
    let olds = p.baseline.scope.selectors.physical_interfaces in
    elim (Bool-cases (holds_just ports port)) [
      | inl q ↦ ground (
        arith,
        q,
        holds_just-is_only ports port,
        add_vote-count votes olds name,
        count_votes-came_count port name ps (add_vote votes (head? olds)),
      )
      | inr q ↦
          ground
            (arith, q, holds_just-is_only ports port, count_votes-came_count port name ps votes)
    ]

count_votes-IsDict :
    (port : String) (pairs : List MatchedPair) (votes : Dict String ℕ)
    → Dict.IsDict votes
    → Dict.IsDict (count_votes port pairs votes)
unfolding count_votes
count_votes-IsDict port [] votes u = u
count_votes-IsDict port (p ∷ ps) votes u =
    elim (Bool-cases (is_only p.subject.scope.selectors.physical_interfaces port)) [
      | inl q ↦ rw q (count_votes-IsDict port ps _ (add_vote-IsDict votes _ u))
      | inr q ↦ rw q (count_votes-IsDict port ps votes u)
    ]

get_of_mem :
    (d : Dict String ℕ) (k : String) (n : ℕ)
    → Dict.IsDict d
    → Memᴰ (k, n) d
    → count_of (Dict.get d k) ≡ n
unfolding Dict.get
get_of_mem [] k n u m = elim m [ ]
get_of_mem ((j, w) ∷ d) k n u (Memᴰ.head e) =
    rw ((eq_iff j k).1 (sym (ap (λ p. p.0) e))) (sym (ap (λ p. p.1) e))
get_of_mem ((j, w) ∷ d) k n u (Memᴰ.tail m) = elim (Bool-cases (j == k)) [
  | inl q ↦ absurd (All-mem (λ p. p.0 ≢ j) u.0 m (sym ((eq_iff j k).0 q)))
  | inr q ↦ rw q (get_of_mem d k n u.1 m)
]

-- A name that is not the winner's has fewer votes than the winner.
others_below :
    (votes : Dict String ℕ) (name other : String) (n : ℕ)
    → All (λ e. (e.0 ≡ name) ⊎ (e.1 < n)) votes
    → other ≢ name
    → (Dict.get votes other ≡ none) ⊎ (count_of (Dict.get votes other) < n)
unfolding Dict.get
others_below [] name other n a ne = inl refl
others_below ((j, w) ∷ votes) name other n a ne = elim (Bool-cases (j == other)) [
  | inl q ↦ elim a.0 [ inl e ↦ absurd (ne (sym ((eq_iff j other).0 q) ∙ e)) | inr l ↦ inr (rw q l) ]
  | inr q ↦ rw q (others_below votes name other n a.1 ne)
]

no_votes : (name : String) → count_of (Dict.get {K = String} [] name) ≡ 0
unfolding Dict.get
no_votes name = refl

put-positive :
    (votes : Dict String ℕ) (name : String) (n : ℕ)
    → All (λ e. 0 < e.1) votes
    → All (λ e. 0 < e.1) (Dict.put votes name (suc n))
unfolding Dict.put
put-positive [] name n a = (omega arith, tt)
put-positive ((j, w) ∷ votes) name n a = elim (Bool-cases (j == name)) [
  | inl q ↦ rw q (omega arith, a.1)
  | inr q ↦ rw q (a.0, put-positive votes name n a.1)
]

add_vote-positive :
    (votes : Dict String ℕ) (o : Option String)
    → All (λ e. 0 < e.1) votes
    → All (λ e. 0 < e.1) (add_vote votes o)
unfolding add_vote
add_vote-positive votes none a = a
add_vote-positive votes (some n) a = put-positive votes n _ a

-- Whoever has votes has at least one.
count_votes-positive :
    (port : String) (pairs : List MatchedPair) (votes : Dict String ℕ)
    → All (λ e. 0 < e.1) votes
    → All (λ e. 0 < e.1) (count_votes port pairs votes)
unfolding count_votes
count_votes-positive port [] votes a = a
count_votes-positive port (p ∷ ps) votes a =
    elim (Bool-cases (is_only p.subject.scope.selectors.physical_interfaces port)) [
      | inl q ↦ rw q (count_votes-positive port ps _ (add_vote-positive votes _ a))
      | inr q ↦ rw q (count_votes-positive port ps votes a)
    ]

is_only-just : (xs : List String) (name : String) → is_only xs name ≡ true → xs ≡ name ∷ []
is_only-just [] name h = cc
is_only-just (x ∷ []) name h = ap (λ y. y ∷ []) ((eq_iff x name).0 h)
is_only-just (x ∷ y ∷ xs) name h = cc

-- The winner of the votes is the port that strictly more of the services came from.
winner-came_count :
    (port : String) (pairs : List MatchedPair) (name : String)
    → IsWinner (count_votes port pairs []) name
    → (0 < came_count port name pairs)
      × ((other : String) → other ≢ name → came_count port other pairs < came_count port name pairs)
winner-came_count port pairs name (n, (m, a)) =
    let votes = count_votes port pairs [] in
    let won = get_of_mem votes name n (count_votes-IsDict port pairs [] tt) m in
    let counted = λ (x : String). count_votes-came_count port x pairs [] in
    let positive : 0 < n = All-mem (λ e. 0 < e.1) (count_votes-positive port pairs [] tt) m in
    (
      omega (arith, won, no_votes name, counted name, positive),
      λ other ne. elim (others_below votes name other n a ne) [
        | inl q ↦ omega (
          arith,
          won,
          ap count_of q,
          no_votes name,
          no_votes other,
          counted name,
          counted other,
          positive,
        )
        | inr l ↦ omega (arith, won, l, no_votes name, no_votes other, counted name, counted other)
      ],
    )

-- An L1 port gets a scope of the baseline only if that scope is of one port alone, at least one of
-- the paired services of the L1 port came from that port, and strictly fewer of them came from any
-- other: a tie gives none.
pub l1_baseline-IsWinner :
    (port : String) (pairs : List MatchedPair) (baseline_l1 : List Scope) (s : Scope)
    → l1_baseline port pairs baseline_l1 ≡ some s
    → Memᴰ s baseline_l1
      × ((name : String) × ((s.selectors.interfaces ≡ name ∷ [])
            × ((0 < came_count port name pairs)
                × ((other : String)
                    → other ≢ name
                    → came_count port other pairs < came_count port name pairs))))
unfolding l1_baseline
l1_baseline-IsWinner port pairs baseline_l1 s h =
    elim (Option-cases (winner (count_votes port pairs []))) [
      | inl q ↦ absurd (ground (arith, q, h))
      | inr (name, q) ↦
          let found : find? (λ x. is_only x.selectors.interfaces name) baseline_l1 ≡ some s =
            ground (arith, q, h) in
          (
            find?-mem _ baseline_l1 s found,
            (
              name,
              (
                is_only-just s.selectors.interfaces name
                    (find?_sound (λ x. is_only x.selectors.interfaces name) baseline_l1 s found),
                winner-came_count port pairs name
                    (winner-IsWinner (count_votes port pairs []) name q),
              ),
            ),
          )
    ]
