-- ===== src/Gui/Authz/Laws.antt =====
-- What a role may do, and whom a session stands for (migration_validator/gui/authz.py).
use migration_status_check.Base.Results.{returns}
use migration_status_check.Base.{
  ℕ, ◌≤◌, ◌≡◌, ◌≢◌, ◌↔◌, refl, sym, subst, String, Bool, true, false, Option, none, some, List,
  ◌==◌, string_eq, option_eq, arith, eq_false_of_ne, eq_iff, Bool-cases, map, filter, ◌∙◌,
  Option-cases, inl, inr, contains,
}
use migration_status_check.Gui.Users.{User}
use migration_status_check.Gui.Sessions.{Session, SessionStore, lookup, drop_session}
use migration_status_check.Gui.Sessions.Laws.{Event, IsNotIssued, run, lookup-logged_out}
use migration_status_check.Gui.Authz.{
  Permission, all_permissions, view, operate, admin, Actor, role_rank, needed_rank,
  permission_value, allows, permissions_for, require, is_same_login, session_actor, provider,
}

-- A permission that is granted brings every permission of a lower rank with it.
pub allows-monotone :
    (actor : Actor) (p q : Permission)
    → needed_rank q ≤ needed_rank p
    → allows actor p ≡ true
    → allows actor q ≡ true
unfolding allows
allows-monotone actor p q h k = elim (Option-cases (role_rank actor.role)) [
  | inl r ↦ absurd (ground (arith, r, k))
  | inr (n, r) ↦ ground (arith, r, k)
]

contains-granted :
    (granted : Permission → Bool) (p : Permission)
    → contains (map permission_value (filter granted all_permissions)) (permission_value p)
      ≡ granted p
contains-granted granted view = ground arith
contains-granted granted operate = ground arith
contains-granted granted admin = ground arith

-- A route lets an actor in exactly if the name of its permission is among the ones that the GUI
-- lists for the actor's role.
pub require-permissions_for :
    (p : Permission) (actor : Actor)
    → (require p (some actor) ≡ returns actor)
      ↔ (contains (permissions_for actor.role) (permission_value p) ≡ true)
unfolding require permissions_for allows
require-permissions_for p actor =
    let listed =
      contains-granted (allows (record { role = actor.role; username = "anonymous" })) p in
    elim (Bool-cases (allows actor p)) [
      | inl q ↦ (λ h. listed ∙ q, λ h. ground (arith, q))
      | inr q ↦ (λ h. absurd (ground (arith, q, h)), λ h. absurd (ground (arith, q, listed, h)))
    ]

-- The session and the account behind an actor
abbrev pub StandsFor : (String → Option User) → Actor → Option Session → Type 0
StandsFor users actor none = ⊥
StandsFor users actor (some s) =
    (user : User) × ((users s.username ≡ some user)
      × ((some user.password_hash ≡ s.password_hash)
          × ((actor.role ≡ user.role) × (actor.username ≡ user.username))))

session_actor-StandsFor :
    (users : String → Option User) (token : String) (found : Option Session × SessionStore)
    (actor : Actor)
    → (session_actor users token found).0 ≡ some actor
    → StandsFor users actor found.0
session_actor-StandsFor users token (none, store) actor h = cc
session_actor-StandsFor users token (some s, store) actor h =
    elim (Option-cases (users s.username)) [
      | inl q ↦ absurd (ground (arith, q, h))
      | inr (user, q) ↦ elim (Bool-cases (is_same_login user s)) [
        | inl r ↦ (
          user,
          (
            q,
            (
              (eq_iff (some user.password_hash) s.password_hash).0 r,
              (ground (arith, q, r, h), ground (arith, q, r, h)),
            ),
          ),
        )
        | inr r ↦ absurd (ground (arith, q, r, h))
      ]
    ]

-- Whoever a request stands for has a session that the store finds under the cookie, and an account
-- whose password is still the one of the login; the role is the one the account has now.
pub provider-StandsFor :
    (users : String → Option User) (store : SessionStore) (token : String) (now : ℕ) (actor : Actor)
    → (provider users store (some token) now).0 ≡ some actor
    → StandsFor users actor (lookup store token now).0
unfolding provider
provider-StandsFor users store token now actor h = elim (Bool-cases (token == "")) [
  | inl q ↦ absurd (ground (arith, q, h))
  | inr q ↦
      session_actor-StandsFor users token (lookup store token now) actor (ground (arith, q, h))
]

session_actor-none :
    (users : String → Option User) (token : String) (found : Option Session × SessionStore)
    → found.0 ≡ none
    → (session_actor users token found).0 ≡ none
session_actor-none users token (none, store) h = refl
session_actor-none users token (some s, store) h = cc

session_actor-drops :
    (users : String → Option User) (token : String) (found : Option Session × SessionStore)
    (s : Session)
    → found.0 ≡ some s
    → ((user : User) → users s.username ≡ some user → is_same_login user s ≡ false)
    → (session_actor users token found).1 ≡ drop_session found.1 token
session_actor-drops users token (none, store) s h changed = cc
session_actor-drops users token (some t, store) s h changed =
    let same : t ≡ s = ground arith in
    elim (Option-cases (users t.username)) [
      | inl q ↦ ground (arith, q)
      | inr (user, q) ↦
          let other : is_same_login user t ≡ false =
            subst (λ r. users r.username ≡ some user → is_same_login user r ≡ false) (sym same)
              (changed user) q in
          ground (arith, q, other)
    ]

provider-lookup :
    (users : String → Option User) (store : SessionStore) (token : String) (now : ℕ)
    → token ≢ ""
    → provider users store (some token) now ≡ session_actor users token (lookup store token now)
unfolding provider
provider-lookup users store token now ne = rw (eq_false_of_ne token "" ne) refl

-- Once a request with a token that is not empty found its session, but the account gone or with
-- another password than at the login, the token stands for nobody, whatever the accounts are later, until it is issued again.
pub provider-revoked :
    (users later_users : String → Option User) (store : SessionStore) (token : String) (s : Session)
    (now later : ℕ) (es : List Event)
    → token ≢ ""
    → (lookup store token now).0 ≡ some s
    → ((user : User) → users s.username ≡ some user → is_same_login user s ≡ false)
    → IsNotIssued token es
    → (provider later_users (run (provider users store (some token) now).1 es) (some token) later).0
      ≡ none
provider-revoked users later_users store token s now later es ne found changed n =
    let dropped = session_actor-drops users token (lookup store token now) s found changed in
    let gone = lookup-logged_out (lookup store token now).1 token es later n in
    rw (provider-lookup users store token now ne) (
      rw
        (provider-lookup later_users (run (session_actor users token (lookup store token now)).1 es)
          token later ne)
        (rw dropped (session_actor-none later_users token _ gone)))
