-- ===== src/Runs/Manifest/Mappings.antt =====
-- The recorded pairs of old and new ports (migration_validator/runs/manifest.py).
use Prim.Native.Nat.{max}
use migration_status_check.Base.{
  ◌≤◌, String, ◌≡◌, refl, Bool, true, false, some, List, [], ◌∷◌, string_eq, nat_eq, filter,
  returns, Ensures, Ensures-bind, of_Ensures, if◌then◌else◌, count_by, arith, eq_iff, eq_refl,
  Bool-cases, ap, length, ◌↔◌, ◌⊎◌, inl, inr, sym, ◌∙◌,
}
use migration_status_check.Runs.Manifest.Kinds.{length-filter}
use migration_status_check.Runs.Manifest.{
  MappingEndpoint, InterfaceMapping, RunManifest, at_endpoint, same_place, extend_mapping,
  add_mapping, paired_new,
}

abbrev pub from_old : String → String → InterfaceMapping → Bool
from_old node port p = at_endpoint node port p.old

-- Every old port is recorded at most once.
abbrev pub IsFunctional : List InterfaceMapping → Type 0
IsFunctional ps = (node port : String) → count_by (from_old node port) ps ≤ 1

at_endpoint_iff :
    (node port : String) (e : MappingEndpoint)
    → (at_endpoint node port e ≡ true) ↔ ((e.node ≡ node) × (e.port ≡ port))
unfolding at_endpoint
at_endpoint_iff node port e = (
  λ h. ground (arith, eq_iff e.node node, eq_iff e.port port),
  λ h. rw (h.0, h.1, eq_refl node, eq_refl port),
)

-- Two ends at one place answer every question about places alike.
at_same_place :
    (a b : MappingEndpoint)
    → same_place a b ≡ true
    → (node port : String) → at_endpoint node port a ≡ at_endpoint node port b
unfolding at_endpoint
at_same_place a b h node port = let (n, p) = (at_endpoint_iff b.node b.port a).0 h in rw (n, p)

-- No question is answered by two ends at different places.
at_other_place :
    (a b : MappingEndpoint)
    → same_place a b ≡ false
    → (node port : String) → (at_endpoint node port a ≡ false) ⊎ (at_endpoint node port b ≡ false)
at_other_place a b e node port = elim (Bool-cases (at_endpoint node port a)) [
  | inr f ↦ inl f
  | inl f ↦ elim (Bool-cases (at_endpoint node port b)) [
    | inr g ↦ inr g
    | inl g ↦
        let (n, p) = (at_endpoint_iff node port a).0 f in
        let (n', p') = (at_endpoint_iff node port b).0 g in
        absurd (cc (e, (at_endpoint_iff b.node b.port a).1 (n ∙ sym n', p ∙ sym p')))
  ]
]

same_place_refl : (a : MappingEndpoint) → same_place a a ≡ true
same_place_refl a = (at_endpoint_iff a.node a.port a).1 (refl, refl)

-- How many records an old port has after a pair was added.
abbrev CountAfter :
    String → String → MappingEndpoint → List InterfaceMapping → List InterfaceMapping → Type 0
CountAfter node port old ps qs = count_by (from_old node port) qs ≡ (
    if at_endpoint node port old
    then max 1 (count_by (from_old node port) ps)
    else count_by (from_old node port) ps)

count-extend_mapping :
    (node port : String) (ps : List InterfaceMapping) (old new : MappingEndpoint)
    → Ensures (CountAfter node port old ps) (extend_mapping ps old new)
unfolding extend_mapping
count-extend_mapping node port [] old new = ground arith
count-extend_mapping node port (p ∷ ps) old new = elim (Bool-cases (same_place p.old old)) [
  | inl e ↦ elim (Bool-cases (same_place p.new new)) [
    | inl f ↦ rw (e, f) (ground (arith, at_same_place p.old old e node port))
    | inr f ↦ rw (e, f) tt
  ]
  | inr e ↦ rw e (
      Ensures-bind (CountAfter node port old ps) (CountAfter node port old (p ∷ ps))
        (extend_mapping ps old new) _ (count-extend_mapping node port ps old new)
        (λ qs h. ground (arith, h, at_other_place p.old old e node port)))
]

-- Adding a pair never gives an old port a second new port.
pub add_mapping-IsFunctional :
    (m m' : RunManifest) (old new : MappingEndpoint)
    → add_mapping m old new ≡ returns m'
    → IsFunctional m.interface_mapping
    → IsFunctional m'.interface_mapping
unfolding add_mapping
add_mapping-IsFunctional m m' old new added once node port =
    let counted : CountAfter node port old m.interface_mapping m'.interface_mapping =
      of_Ensures
        (λ (k : RunManifest). CountAfter node port old m.interface_mapping k.interface_mapping)
        (add_mapping m old new)
        (Ensures-bind (CountAfter node port old m.interface_mapping) _
          (extend_mapping m.interface_mapping old new) _
          (count-extend_mapping node port m.interface_mapping old new) (λ qs h. h))
        added in
    ground (arith, counted, once node port)

extend_mapping-again :
    (ps : List InterfaceMapping) (old new : MappingEndpoint)
    → Ensures (λ qs. extend_mapping qs old new ≡ returns qs) (extend_mapping ps old new)
unfolding extend_mapping
extend_mapping-again [] old new = rw (same_place_refl old, same_place_refl new)
extend_mapping-again (p ∷ ps) old new = elim (Bool-cases (same_place p.old old)) [
  | inl e ↦ elim (Bool-cases (same_place p.new new)) [
    | inl f ↦ rw (e, f) (rw (e, f))
    | inr f ↦ rw (e, f) tt
  ]
  | inr e ↦ rw e (
      Ensures-bind _ _ (extend_mapping ps old new) _ (extend_mapping-again ps old new)
        (λ qs h. rw (e, h)))
]

-- Recording the same pair a second time succeeds and changes nothing.
pub add_mapping_idem :
    (m m' : RunManifest) (old new : MappingEndpoint)
    → add_mapping m old new ≡ returns m'
    → add_mapping m' old new ≡ returns m'
unfolding add_mapping
add_mapping_idem m m' old new added =
    of_Ensures (λ (k : RunManifest). add_mapping k old new ≡ returns k) (add_mapping m old new)
      (Ensures-bind (λ qs. extend_mapping qs old new ≡ returns qs) _
        (extend_mapping m.interface_mapping old new) _
        (extend_mapping-again m.interface_mapping old new) (λ qs h. rw h))
      added

-- The records of an old port after a pair was added: the pair's own port has a first record that
-- leads to the new port, any other port has the records that it had.
abbrev RecordedPair :
    String
    → String
    → MappingEndpoint
    → MappingEndpoint
    → List InterfaceMapping
    → List InterfaceMapping
    → Type 0
RecordedPair node port old new ps qs =
    (at_endpoint node port old ≡ false
      → filter (from_old node port) qs ≡ filter (from_old node port) ps)
    × (at_endpoint node port old ≡ true
        → (p : InterfaceMapping) × (rest : List InterfaceMapping) × (filter (from_old node port) qs
            ≡ p ∷ rest)
          × (same_place p.new new ≡ true))

extend_mapping-RecordedPair :
    (node port : String) (ps : List InterfaceMapping) (old new : MappingEndpoint)
    → Ensures (RecordedPair node port old new ps) (extend_mapping ps old new)
unfolding extend_mapping
extend_mapping-RecordedPair node port [] old new =
    (λ e. rw e, λ e. (record { old = old; new = new }, [], rw e, same_place_refl new))
extend_mapping-RecordedPair node port (p ∷ ps) old new = elim (Bool-cases (same_place p.old old)) [
  | inl e ↦ elim (Bool-cases (same_place p.new new)) [
    | inl f ↦
        rw (e, f)
          (
            λ _. refl,
            λ k.
                (p, filter (from_old node port) ps, rw (at_same_place p.old old e node port, k), f),
          )
    | inr f ↦ rw (e, f) tt
  ]
  | inr e ↦ rw e (
      Ensures-bind (RecordedPair node port old new ps) (RecordedPair node port old new (p ∷ ps))
        (extend_mapping ps old new) _ (extend_mapping-RecordedPair node port ps old new)
        (λ qs h.
          (λ k. rw (h.0 k), λ k. ground (arith, k, at_other_place p.old old e node port, h.1 k))))
]

nil_of_length : (xs : List InterfaceMapping) → length xs ≡ 0 → xs ≡ []
nil_of_length [] h = refl
nil_of_length (x ∷ xs) h = absurd (omega arith)

exactly_one_first :
    (node port : String) (qs : List InterfaceMapping) (p : InterfaceMapping)
    (rest : List InterfaceMapping)
    → count_by (from_old node port) qs ≤ 1
    → filter (from_old node port) qs ≡ p ∷ rest
    → rest ≡ []
exactly_one_first node port qs p rest h e =
    nil_of_length rest (omega (arith, length-filter (from_old node port) qs, ap length e))

-- After a pair was added to a manifest in which every old port has at most one new port, the
-- pair's old port is paired with the new port, and every other old port is paired as before.
pub add_mapping-paired_new :
    (m m' : RunManifest) (old new : MappingEndpoint)
    → add_mapping m old new ≡ returns m'
    → IsFunctional m.interface_mapping
    → ((e : MappingEndpoint) × (paired_new m' old.node old.port ≡ some e)
        × (e.node ≡ new.node)
        × (e.port ≡ new.port))
      × ((node port : String)
          → at_endpoint node port old ≡ false
          → paired_new m' node port ≡ paired_new m node port)
unfolding paired_new
add_mapping-paired_new m m' old new added once = (here, elsewhere)
  where
    recorded :
        (node port : String)
        → RecordedPair node port old new m.interface_mapping m'.interface_mapping
    recorded node port =
        of_Ensures
          (λ (k : RunManifest).
            RecordedPair node port old new m.interface_mapping k.interface_mapping)
          (add_mapping m old new)
          (unfold add_mapping in
            Ensures-bind (RecordedPair node port old new m.interface_mapping) _
              (extend_mapping m.interface_mapping old new) _
              (extend_mapping-RecordedPair node port m.interface_mapping old new) (λ qs h. h))
          added

    here :
        (e : MappingEndpoint) × (paired_new m' old.node old.port ≡ some e)
        × (e.node ≡ new.node)
        × (e.port ≡ new.port)
    here =
        let (p, rest, e, f) = (recorded old.node old.port).1 (same_place_refl old) in
        let alone =
          exactly_one_first old.node old.port m'.interface_mapping p rest
            (add_mapping-IsFunctional m m' old new added once old.node old.port) e in
        let (n, q) = (at_endpoint_iff new.node new.port p.new).0 f in (p.new, rw (e, alone), n, q)

    elsewhere :
        (node port : String)
        → at_endpoint node port old ≡ false
        → paired_new m' node port ≡ paired_new m node port
    elsewhere node port k = rw ((recorded node port).0 k)
