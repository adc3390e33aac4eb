-- ===== src/Engine/Layers/Laws.antt =====
-- The grouping under L1 ports keeps every block (migration_validator/engine.py).
use migration_status_check.Base.Dict
use migration_status_check.Base.Dict.{Dict}
use migration_status_check.Base.Results.{◌>>=◌}
use migration_status_check.Base.Sort.{sort_by, insert_by}
use migration_status_check.Base.{
  ℕ, ◌+◌, String, Bool, true, false, not, Option, none, some, List, [], ◌∷◌, filter, count_by,
  count_by-append, ◌==◌, string_eq, eq_iff, eq_false_of_ne, arith, ◌≡◌, ◌≢◌, refl, sym, ap, ◌∙◌,
  subst, inl, inr, Bool-cases, All, if◌then◌else◌, returns,
}
use migration_status_check.Engine.Order.{ScopeResult}
use migration_status_check.Engine.Ports.{parent_port}
use migration_status_check.Engine.Layers.{
  is_l1, by_id_from, put_port, l1_by_port, is_port, is_homeless, blocks, laid_out, group_by_layer1,
  port_le,
}

abbrev Ports : Type 0
Ports = Dict String ScopeResult

-- A sum over the L1 ports
total : (String × ScopeResult → ℕ) → Ports → ℕ
total f [] = 0
total f (e ∷ es) = f e + total f es

total-insert_by :
    (f : String × ScopeResult → ℕ) (le : String × ScopeResult → String × ScopeResult → Bool)
    (e : String × ScopeResult) (es : Ports)
    → total f (insert_by le e es) ≡ f e + total f es
unfolding insert_by total
total-insert_by f le e [] = refl
total-insert_by f le e (x ∷ es) = ground (arith, total-insert_by f le e es)

total-sort_by :
    (f : String × ScopeResult → ℕ) (le : String × ScopeResult → String × ScopeResult → Bool)
    (es : Ports)
    → total f (sort_by le es) ≡ total f es
unfolding sort_by total
total-sort_by f le [] = refl
total-sort_by f le (e ∷ es) =
    total-insert_by f le e (sort_by le es) ∙ ap (λ n. f e + n) (total-sort_by f le es)

total-plus :
    (f g : String × ScopeResult → ℕ) (es : Ports)
    → total (λ e. f e + g e) es ≡ total f es + total g es
unfolding total
total-plus f g [] = omega arith
total-plus f g (e ∷ es) = omega (arith, total-plus f g es)

total-zero : (es : Ports) → total (λ e. 0) es ≡ 0
unfolding total
total-zero [] = refl
total-zero (e ∷ es) = omega (arith, total-zero es)

-- Each L1 result has a port, and none of the results before it has the same one.
pub data HasOwnPorts : Dict String ScopeResult → List ScopeResult → Type 0 where
  done : (l1 : Dict String ScopeResult) → HasOwnPorts l1 []
  service :
      {l1 : Dict String ScopeResult} {r : ScopeResult} {rs : List ScopeResult}
      → is_l1 r ≡ false
      → HasOwnPorts l1 rs
      → HasOwnPorts l1 (r ∷ rs)
  on_port :
      {l1 : Dict String ScopeResult} {r : ScopeResult} {rs : List ScopeResult} (name : String)
      (others : List String)
      → is_l1 r ≡ true
      → r.identity.interfaces ≡ name ∷ others
      → Dict.has l1 name ≡ false
      → HasOwnPorts (Dict.put l1 name r) rs
      → HasOwnPorts l1 (r ∷ rs)

module _ (p : ScopeResult → Bool) where
  abbrev weight : ScopeResult → ℕ
  weight r = if p r then 1 else 0

  abbrev weight_if : Bool → ScopeResult → ℕ
  weight_if b r = if b then weight r else 0

  -- The blocks of the ports hold the ports' results and the services on them.
  count_by-blocks :
      (by_id : Dict String ScopeResult) (services : List ScopeResult) (es : Ports)
      → count_by p (blocks by_id services es)
        ≡ total
            (λ e.
              weight e.1 + count_by p (filter (λ s. is_port e.0 (parent_port by_id s)) services))
            es
  unfolding blocks total
  count_by-blocks by_id services [] = refl
  count_by-blocks by_id services ((port, r) ∷ es) =
      let mine = filter (λ s. is_port port (parent_port by_id s)) services in
      ground (
        arith,
        count_by-append p mine (blocks by_id services es),
        count_by-blocks by_id services es,
      )

  -- A service counts once for each port that it is on.
  count_by-filter :
      (q : ScopeResult → Bool) (s : ScopeResult) (ss : List ScopeResult)
      → count_by p (filter q (s ∷ ss)) ≡ weight_if (q s) s + count_by p (filter q ss)
  count_by-filter q s ss = ground arith

  services-total :
      (parent : ScopeResult → Option String) (s : ScopeResult) (ss : List ScopeResult) (es : Ports)
      → total (λ e. count_by p (filter (λ x. is_port e.0 (parent x)) (s ∷ ss))) es
        ≡ total (λ e. weight_if (is_port e.0 (parent s)) s) es
          + total (λ e. count_by p (filter (λ x. is_port e.0 (parent x)) ss)) es
  unfolding total
  services-total parent s ss [] = omega arith
  services-total parent s ss (e ∷ es) =
      omega
        (arith, count_by-filter (λ x. is_port e.0 (parent x)) s ss, services-total parent s ss es)

  absent-total :
      (s : ScopeResult) (name : String) (es : Ports)
      → All (λ e. e.0 ≢ name) es
      → total (λ e. weight_if (is_port e.0 (some name)) s) es ≡ 0
  unfolding total
  absent-total s name [] a = refl
  absent-total s name (e ∷ es) a =
      ground (arith, eq_false_of_ne name e.0 (λ h. a.0 (sym h)), absent-total s name es a.1)

  -- A service is on one port, or on none.
  one_port :
      (s : ScopeResult) (name : String) (es : Ports)
      → Dict.IsDict es
      → total (λ e. weight_if (is_port e.0 (some name)) s) es ≡ weight_if (Dict.has es name) s
  unfolding total Dict.has Dict.get
  one_port s name [] u = refl
  one_port s name ((port, r) ∷ es) u = elim (Bool-cases (port == name)) [
    | inl q ↦
        let same = (eq_iff port name).0 q in
        ground (
          arith,
          q,
          (eq_iff name port).1 (sym same),
          absent-total s name es (subst (λ i. All (λ e. e.0 ≢ i) es) same u.0),
        )
    | inr q ↦ ground (
      arith,
      q,
      one_port s name es u.1,
      eq_false_of_ne name port (λ h. cc ((eq_iff port name).1 (sym h), q)),
    )
  ]

  count_by-cons :
      (s : ScopeResult) (ss : List ScopeResult) → count_by p (s ∷ ss) ≡ weight s + count_by p ss
  count_by-cons s ss = ground arith

  placed_once :
      (s : ScopeResult) (parent : Option String) (es : Ports)
      → Dict.IsDict es
      → total (λ e. weight_if (is_port e.0 parent) s) es + weight_if (is_homeless es parent) s
        ≡ weight s
  placed_once s none es u = omega (arith, total-zero es)
  placed_once s (some name) es u = ground (arith, one_port s name es u)

  all_placed :
      (parent : ScopeResult → Option String) (ss : List ScopeResult) (es : Ports)
      → Dict.IsDict es
      → total (λ e. count_by p (filter (λ x. is_port e.0 (parent x)) ss)) es
          + count_by p (filter (λ x. is_homeless es (parent x)) ss)
        ≡ count_by p ss
  all_placed parent [] es u = omega (arith, total-zero es)
  all_placed parent (s ∷ ss) es u =
      let split_off = services-total parent s ss es in
      let home = count_by-filter (λ x. is_homeless es (parent x)) s ss in
      let here = placed_once s (parent s) es u in
      let rest = all_placed parent ss es u in
      omega (arith, count_by-cons s ss, split_off, home, here, rest)

  total-put :
      (l1 : Ports) (name : String) (r : ScopeResult)
      → Dict.has l1 name ≡ false
      → total (λ e. weight e.1) (Dict.put l1 name r) ≡ weight r + total (λ e. weight e.1) l1
  unfolding total Dict.put Dict.has Dict.get
  total-put [] name r h = refl
  total-put ((j, w) ∷ l1) name r h = elim (Bool-cases (j == name)) [
    | inl q ↦ absurd (ground (arith, q, h))
    | inr q ↦ ground (arith, q, total-put l1 name r (ground (arith, q, h)))
  ]

l1_by_port-on :
    (l1 : Ports) (name : String) (others : List String) (r : ScopeResult) (rs : List ScopeResult)
    → is_l1 r ≡ true
    → r.identity.interfaces ≡ name ∷ others
    → l1_by_port l1 (r ∷ rs) ≡ l1_by_port (Dict.put l1 name r) rs
unfolding l1_by_port
l1_by_port-on l1 name others r rs q e =
    ap
      (λ b.
        if b
        then put_port r.identity.interfaces r l1 >>= (λ l. l1_by_port l rs)
        else l1_by_port l1 rs)
      q
    ∙ ap (λ names. put_port names r l1 >>= (λ l. l1_by_port l rs)) e

-- The table of the ports holds the L1 results.
abbrev Holds : Ports → List ScopeResult → Ports → Type 0
Holds l1 rs out =
    Dict.IsDict out
    × ((p : ScopeResult → Bool)
        → total (λ e. weight p e.1) out
          ≡ total (λ e. weight p e.1) l1 + count_by p (filter is_l1 rs))

ports-of :
    (rs : List ScopeResult) (l1 : Ports)
    → HasOwnPorts l1 rs
    → Dict.IsDict l1
    → (out : Ports) × ((l1_by_port l1 rs ≡ returns out) × Holds l1 rs out)
unfolding l1_by_port
ports-of [] l1 h u = (l1, (refl, (u, (λ p. omega arith))))
ports-of (r ∷ rs) l1 (service q h) u =
    let next = ports-of rs l1 h u in
    (next.0, (ground (arith, q, next.1.0), (next.1.1.0, (λ p. ground (arith, q, next.1.1.1 p)))))
ports-of (r ∷ rs) l1 (on_port name others q e free h) u =
    let next = ports-of rs (Dict.put l1 name r) h (Dict.put-IsDict l1 name r u) in
    (
      next.0,
      (
        l1_by_port-on l1 name others r rs q e ∙ next.1.0,
        (next.1.1.0, (λ p. ground (arith, q, next.1.1.1 p, total-put p l1 name r free))),
      ),
    )

module _ (p : ScopeResult → Bool) where
  -- The services of the results are those that are not L1 results.
  count_by-split :
      (q : ScopeResult → Bool) (rs : List ScopeResult)
      → count_by p (filter q rs) + count_by p (filter (λ r. not (q r)) rs) ≡ count_by p rs
  count_by-split q [] = refl
  count_by-split q (r ∷ rs) = elim (Bool-cases (q r)) [
    | inl t ↦ ground (arith, t, count_by-split q rs)
    | inr f ↦ ground (arith, f, count_by-split q rs)
  ]

  total-laid_out :
      (by_id : Dict String ScopeResult) (services : List ScopeResult) (l1 : Ports)
      → Dict.IsDict l1
      → count_by p (laid_out by_id services l1) ≡ total (λ e. weight p e.1) l1 + count_by p services
  unfolding laid_out
  total-laid_out by_id services l1 u =
      let on =
        λ (e : String × ScopeResult). filter (λ s. is_port e.0 (parent_port by_id s)) services in
      let sorted = sort_by (λ a b. port_le a.0 b.0) l1 in
      let homeless = filter (λ s. is_homeless l1 (parent_port by_id s)) services in
      omega (
        arith,
        count_by-append p (blocks by_id services sorted) homeless,
        count_by-blocks p by_id services sorted,
        total-plus (λ e. weight p e.1) (λ e. count_by p (on e)) sorted,
        total-sort_by (λ e. weight p e.1) (λ a b. port_le a.0 b.0) l1,
        total-sort_by (λ e. count_by p (on e)) (λ a b. port_le a.0 b.0) l1,
        all_placed p (parent_port by_id) services l1 u,
      )

-- Let each L1 result have a port that no other L1 result has. The grouping under the L1 ports then
-- succeeds, and it neither loses nor repeats a result, whatever the links are: each result is in the
-- grouped report as often as in the results.
pub group_by_layer1-count_by :
    (results : List ScopeResult)
    → HasOwnPorts [] results
    → (out : List ScopeResult) × ((group_by_layer1 results ≡ returns out)
        × ((p : ScopeResult → Bool) → count_by p out ≡ count_by p results))
unfolding group_by_layer1 total
group_by_layer1-count_by results own =
    let ports = ports-of results [] own tt in
    let services = filter (λ r. not (is_l1 r)) results in
    (
      laid_out (by_id_from [] results) services ports.0,
      (
        ap (λ m. m >>= λ l1. returns (laid_out (by_id_from [] results) services l1)) ports.1.0,
        (λ p. omega (
          arith,
          total-laid_out p (by_id_from [] results) services ports.0 ports.1.1.0,
          ports.1.1.1 p,
          count_by-split p is_l1 results,
        )),
      ),
    )
