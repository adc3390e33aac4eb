-- ===== src/Engine/Unassigned/Laws.antt =====
-- No session and no route of the device is lost (migration_validator/engine.py).
use mathlib.Core.List.{Memᴰ}
use migration_status_check.Base.Sort.{sort_by, sort_by-mem}
use migration_status_check.Base.{
  any, [], ◌∷◌, refl, ap, ◌∙◌, ◌==◌, string_eq, eq_refl, String, Bool, true, false, not, ◌&&◌,
  Option, List, map, filter, filter-mem, map-mem, arith, ◌≡◌, ◌⊎◌, inl, inr, Bool-cases,
}
use migration_status_check.Models.Value.Access.{rows_at, text_at}
use migration_status_check.Models.Scope.{Scope}
use migration_status_check.Models.Scope.Select.{Record, is_wanted, owns_bgp_peer}
use migration_status_check.Models.Scope.Select.Areas.{own_bgp}
use migration_status_check.Models.Scope.Select.Laws.{sole, several, keyed, by_key_exact}
use migration_status_check.Base.Dict
use migration_status_check.Base.Dict.{is_some}
use migration_status_check.Engine.Unassigned.{
  is_owned_peer, peer_on_port, peer_le, peer_entry, unassigned_bgp_peers, is_owned_session,
  session_on_port, session_le, session_entry, unassigned_bfd_sessions, all_static_routes,
  route_on_port, route_le, route_entry, unassigned_static_routes,
}

owned_or_listed :
    (owned elsewhere : Record → Bool) (le : Record → Record → Bool) (entry : Record → Record)
    (r : Record) (rs : List Record)
    → Memᴰ r rs
    → (owned r ≡ true)
      ⊎ ((elsewhere r ≡ false)
          ⊎ Memᴰ (entry r) (map entry (filter (λ x. not (owned x) && elsewhere x) (sort_by le rs))))
owned_or_listed owned elsewhere le entry r rs m = elim (Bool-cases (owned r)) [
  | inl q ↦ inl q
  | inr q ↦ elim (Bool-cases (elsewhere r)) [
    | inr k ↦ inr (inl k)
    | inl k ↦ inr (
        inr (
          map-mem entry (
            filter-mem (λ x. not (owned x) && elsewhere x) r (sort_by le rs) (sort_by-mem le r rs m)
              (ground (arith, q, k)))))
  ]
]

module _ (in_network : String → String → Bool) (facts : Record) (scopes : List Scope)
    (port : Option String) where
  -- Every BGP session of the device is owned by a scope, or it is of another port than the one of the
  -- snapshot, or the report lists it as unassigned.
  pub unassigned_bgp_peers_complete :
      (r : Record)
      → Memᴰ r (rows_at facts "bgp")
      → (is_owned_peer scopes r ≡ true)
        ⊎ ((peer_on_port in_network port scopes r ≡ false)
            ⊎ Memᴰ (peer_entry r) (unassigned_bgp_peers in_network facts scopes port))
  unfolding unassigned_bgp_peers
  unassigned_bgp_peers_complete r m =
      owned_or_listed (is_owned_peer scopes) (peer_on_port in_network port scopes) peer_le
        peer_entry r (rows_at facts "bgp") m

module _ (facts : Record) (scopes : List Scope) (port : Option String) where
  -- Every BFD session of the device is owned by a scope other than a Core loopback, or it is of
  -- another port than the one of the snapshot, or the report lists it as unassigned.
  pub unassigned_bfd_sessions_complete :
      (r : Record)
      → Memᴰ r (rows_at facts "bfd")
      → (is_owned_session scopes (rows_at facts "bfd") r ≡ true)
        ⊎ ((session_on_port port scopes r ≡ false)
            ⊎ Memᴰ (session_entry r) (unassigned_bfd_sessions facts scopes port))
  unfolding unassigned_bfd_sessions
  unassigned_bfd_sessions_complete r m =
      owned_or_listed (is_owned_session scopes (rows_at facts "bfd")) (session_on_port port scopes)
        session_le session_entry r (rows_at facts "bfd") m

  -- Every route of the device is one that a scope's configuration wants, or it is of another port
  -- than the one of the snapshot, or the report lists it as unassigned.
  pub unassigned_static_routes_complete :
      (r : Record)
      → Memᴰ r (rows_at facts "routes")
      → (is_wanted (all_static_routes scopes) r ≡ true)
        ⊎ ((route_on_port port scopes r ≡ false)
            ⊎ Memᴰ (route_entry r) (unassigned_static_routes facts scopes port))
  unfolding unassigned_static_routes
  unassigned_static_routes_complete r m =
      owned_or_listed (is_wanted (all_static_routes scopes)) (route_on_port port scopes) route_le
        route_entry r (rows_at facts "routes") m

any-witness {ℓ} :
    {A : Type ℓ} (p : A → Bool) (xs : List A)
    → any p xs ≡ true
    → (x : A) × (Memᴰ x xs × (p x ≡ true))
any-witness p [] h = cc
any-witness p (x ∷ xs) h = elim (Bool-cases (p x)) [
  | inl q ↦ (x, (Memᴰ.head refl, q))
  | inr q ↦ (let (y, (m, k)) = any-witness p xs (ground (arith, q, h)) in (y, (Memᴰ.tail m, k)))
]

sole_or_several :
    (r : Record) (rs : List Record)
    → Memᴰ r rs
    → (is_some (sole rs) ≡ true) ⊎ (is_some (several rs) ≡ true)
sole_or_several r [] m = elim m [ ]
sole_or_several r (x ∷ []) m = inl refl
sole_or_several r (x ∷ y ∷ rs) m = inr refl

-- A scope that owns a session shows it under its address, or says that the address is ambiguous.
abbrev pub Shows : Scope → Record → Record → Type 0
Shows s facts r =
    (Dict.has (own_bgp s facts).0 (text_at r "address") ≡ true)
    ⊎ (Dict.has (own_bgp s facts).1 (text_at r "address") ≡ true)

owner-Shows :
    (s : Scope) (facts r : Record)
    → Memᴰ r (rows_at facts "bgp")
    → owns_bgp_peer s r ≡ true
    → Shows s facts r
unfolding own_bgp Dict.has
owner-Shows s facts r m h =
    let k = text_at r "address" in
    let own = filter (owns_bgp_peer s) (rows_at facts "bgp") in
    let mine =
      filter-mem (λ t. text_at t "address" == k) r own
        (filter-mem (owns_bgp_peer s) r (rows_at facts "bgp") m h) (eq_refl {A = String} k) in
    elim (sole_or_several r (keyed own "address" k) mine) [
      | inl q ↦ inl (ap is_some ((by_key_exact own "address" k).0) ∙ q)
      | inr q ↦ inr (ap is_some ((by_key_exact own "address" k).1) ∙ q)
    ]

-- No BGP session of the device is lost between the services and the report: for every session some
-- scope shows the address of the peer to its checks or counts it as ambiguous, or the session is of
-- another port than the one of the snapshot, or the report lists it as unassigned.
pub bgp_session_visible :
    (in_network : String → String → Bool) (facts : Record) (scopes : List Scope)
    (port : Option String) (r : Record)
    → Memᴰ r (rows_at facts "bgp")
    → ((s : Scope) × (Memᴰ s scopes × Shows s facts r))
      ⊎ ((peer_on_port in_network port scopes r ≡ false)
          ⊎ Memᴰ (peer_entry r) (unassigned_bgp_peers in_network facts scopes port))
bgp_session_visible in_network facts scopes port r m =
    elim (unassigned_bgp_peers_complete in_network facts scopes port r m) [
      | inl q ↦
          (let (s, (i, o)) = any-witness (λ s. owns_bgp_peer s r) scopes q in
            inl (s, (i, owner-Shows s facts r m o)))
      | inr q ↦ inr q
    ]
