-- ===== src/Models/Status/Laws.antt =====
-- The worst status of a list, the counters and the derived status.
use mathlib.Core.List.{Memᴰ}
use migration_status_check.Base.Integer.{◌≤ℤ◌}
use migration_status_check.Base.{
  ℕ, ◌+◌, ◌≡◌, ◌↔◌, ◌⊎◌, inl, inr, refl, ap, sym, ◌∙◌, Bool, true, false, List, [], ◌∷◌, ◌++◌, map,
  arith, length, All, count_by, flatten,
}
use migration_status_check.Models.Status.{
  Status, pass, recv, warn, fail, Severity, critical, advisory, Outcome, ok, recovered, unchanged,
  degraded, broken, rank, worse, max_by_rank, worst, Counts, bump, zero_counts, count_from,
  count_statuses, derive_status,
}

abbrev pub status_beq : Status → Status → Bool
status_beq pass pass = true
status_beq recv recv = true
status_beq Status.skip Status.skip = true
status_beq warn warn = true
status_beq fail fail = true
status_beq Status.info Status.info = true
status_beq _ _ = false

-- The counter of a status.
abbrev pub counter : Counts → Status → ℕ
counter c Status.pass = c.pass
counter c Status.recv = c.recv
counter c Status.skip = c.skip
counter c Status.warn = c.warn
counter c Status.fail = c.fail
counter c Status.info = c.info

worse_assoc : (a b c : Status) → worse (worse a b) c ≡ worse a (worse b c)
worse_assoc pass b c = ground arith
worse_assoc _ b c = ground arith

pub worse_comm : (a b : Status) → worse a b ≡ worse b a
worse_comm a b = ground arith

-- What came before joins what comes after.
pub max_by_rank-worse :
    (a b : Status) (ss : List Status) → max_by_rank (worse a b) ss ≡ worse a (max_by_rank b ss)
unfolding max_by_rank
max_by_rank-worse a b [] = refl
max_by_rank-worse a b (s ∷ ss) = rw worse_assoc (max_by_rank-worse a (worse b s) ss)

pub max_by_rank-append :
    (a : Status) (ss ts : List Status)
    → max_by_rank a (ss ++ ts) ≡ max_by_rank (max_by_rank a ss) ts
unfolding max_by_rank
max_by_rank-append a [] ts = refl
max_by_rank-append a (s ∷ ss) ts = max_by_rank-append (worse a s) ss ts

-- The worst of two lists put together is the worse of their worsts.
pub worst-append :
    (s t : Status) (ss ts : List Status)
    → worst ((s ∷ ss) ++ (t ∷ ts)) ≡ worse (worst (s ∷ ss)) (worst (t ∷ ts))
unfolding worst max_by_rank
worst-append s t ss ts =
    max_by_rank-append s ss (t ∷ ts) ∙ max_by_rank-worse (max_by_rank s ss) t ts

rank-le-worse : (a b : Status) → (rank a ≤ℤ rank (worse a b)) × (rank b ≤ℤ rank (worse a b))
rank-le-worse a b = ground arith

rank-le-max_by_rank :
    (a : Status) (ss : List Status)
    → (rank a ≤ℤ rank (max_by_rank a ss)) × All (λ t. rank t ≤ℤ rank (max_by_rank a ss)) ss
unfolding max_by_rank
rank-le-max_by_rank a [] = (omega arith, tt)
rank-le-max_by_rank a (s ∷ ss) =
    let (here, below) = rank-le-max_by_rank (worse a s) ss in
    let (left, right) = rank-le-worse a s in (omega arith, (omega arith, below))

worse-cases : (a b : Status) → (worse a b ≡ a) ⊎ (worse a b ≡ b)
worse-cases a b = ground arith

max_by_rank-mem : (a : Status) (ss : List Status) → Memᴰ (max_by_rank a ss) (a ∷ ss)
unfolding max_by_rank
max_by_rank-mem a [] = Memᴰ.head refl
max_by_rank-mem a (s ∷ ss) = widen (max_by_rank-mem (worse a s) ss) (worse-cases a s)
  where
    widen :
        {t : Status}
        → Memᴰ t (worse a s ∷ ss)
        → (worse a s ≡ a) ⊎ (worse a s ≡ s)
        → Memᴰ t (a ∷ s ∷ ss)
    widen (Memᴰ.head e) (inl p) = Memᴰ.head (e ∙ p)
    widen (Memᴰ.head e) (inr p) = Memᴰ.tail (Memᴰ.head (e ∙ p))
    widen (Memᴰ.tail m) _ = Memᴰ.tail (Memᴰ.tail m)

-- The worst status of a list that is not empty stands in the list, and no status of the list
-- ranks above it.
worst-greatest :
    (s : Status) (ss : List Status)
    → Memᴰ (worst (s ∷ ss)) (s ∷ ss) × All (λ t. rank t ≤ℤ rank (worst (s ∷ ss))) (s ∷ ss)
unfolding worst
worst-greatest s ss = (max_by_rank-mem s ss, rank-le-max_by_rank s ss)

max_by_rank-flatten :
    (a : Status) (lists : List (Status × List Status))
    → max_by_rank a (map (λ l. worst (l.0 ∷ l.1)) lists)
      ≡ max_by_rank a (flatten (map (λ l. l.0 ∷ l.1) lists))
unfolding max_by_rank worst flatten
max_by_rank-flatten a [] = refl
max_by_rank-flatten a ((s, ss) ∷ lists) =
    max_by_rank-flatten (worse a (max_by_rank s ss)) lists
    ∙ ap (λ w. max_by_rank w (flatten (map (λ l. l.0 ∷ l.1) lists)))
        (sym (max_by_rank-worse a s ss))
    ∙ sym (max_by_rank-append (worse a s) ss (flatten (map (λ l. l.0 ∷ l.1) lists)))

-- The worst of the worsts of lists that are not empty is the worst of all their statuses.
pub worst-flatten :
    (s : Status) (ss : List Status) (lists : List (Status × List Status))
    → worst (map (λ l. worst (l.0 ∷ l.1)) ((s, ss) ∷ lists))
      ≡ worst (flatten (map (λ l. l.0 ∷ l.1) ((s, ss) ∷ lists)))
unfolding max_by_rank worst flatten
worst-flatten s ss lists =
    max_by_rank-flatten (max_by_rank s ss) lists
    ∙ sym (max_by_rank-append s ss (flatten (map (λ l. l.0 ∷ l.1) lists)))

counter-zero :
    (t : Status) (ss : List Status)
    → counter zero_counts t + count_by (status_beq t) ss ≡ count_by (status_beq t) ss
counter-zero t ss = ground arith

counts-from :
    (c : Counts) (ss : List Status) (t : Status)
    → counter (count_from c ss) t ≡ counter c t + count_by (status_beq t) ss
unfolding count_from
counts-from c [] t = omega arith
counts-from c (s ∷ ss) t = ground (arith, counts-from (bump c s) ss t)

abbrev pub total : Counts → ℕ
total c = c.pass + c.warn + c.fail + c.skip + c.info + c.recv

total-count_from : (c : Counts) (ss : List Status) → total (count_from c ss) ≡ total c + length ss
unfolding count_from
total-count_from c [] = omega arith
total-count_from c (s ∷ ss) = ground (arith, total-count_from (bump c s) ss)

-- Every counter holds the number of its statuses in the list, and the six counters add up to the
-- length of the list: no status is counted twice or lost.
pub count_statuses-exact :
    (ss : List Status)
    → ((t : Status) → counter (count_statuses ss) t ≡ count_by (status_beq t) ss)
      × (total (count_statuses ss) ≡ length ss)
unfolding count_statuses
count_statuses-exact ss = (
  λ t. counts-from zero_counts ss t ∙ counter-zero t ss,
  omega (arith, total-count_from zero_counts ss),
)

-- FAIL comes from a broken outcome of a critical check and from nothing else; WARN from a degraded
-- one at any severity or a broken one of an advisory check; and the severity matters to no other
-- outcome: INFO and SKIP come from info and skip alone, whatever it is.
pub derive_status-exact :
    (o : Outcome) (v : Severity)
    → (derive_status o v ≡ fail ↔ ((o ≡ broken) × (v ≡ critical)))
      × (derive_status o v ≡ warn ↔ ((o ≡ degraded) ⊎ ((o ≡ broken) × (v ≡ advisory))))
      × (derive_status o v ≡ pass ↔ ((o ≡ ok) ⊎ (o ≡ unchanged)))
      × (derive_status o v ≡ recv ↔ (o ≡ recovered))
      × (derive_status o v ≡ Status.info ↔ (o ≡ Outcome.info))
      × (derive_status o v ≡ Status.skip ↔ (o ≡ Outcome.skip))
unfolding derive_status
derive_status-exact o v = (
  (λ h. ground arith, λ h. ground arith),
  (λ h. ground arith, λ h. ground arith),
  (λ h. ground arith, λ h. ground arith),
  (λ h. ground arith, λ h. ground arith),
  (λ h. ground arith, λ h. ground arith),
  (λ h. ground arith, λ h. ground arith),
)
