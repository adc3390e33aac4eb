-- ===== src/Gui/Authz.antt =====
-- Roles and permissions of the GUI (migration_validator/gui/authz.py). A request is its session
-- cookie; the error 401 or 403 of a route is an exception.
pub mod Laws
mod Tests
use migration_status_check.Base.Results.{Result, returns, raises}
use migration_status_check.Base.{
  ℕ, String, Bool, false, Option, none, some, List, [], ◌∷◌, ◌==◌, string_eq, option_eq, leb, map,
  filter, if◌then◌else◌, concat,
}
use migration_status_check.Gui.Users.{User}
use migration_status_check.Gui.Sessions.{Session, SessionStore, lookup, drop_session}

pub data Permission : Type 0 where
  view : Permission
  operate : Permission
  admin : Permission

pub record Actor : Type 0 where
  pub role : String
  pub username : String

-- `_ROLE_RANK`
unfoldable pub role_rank : String → Option ℕ
role_rank role =
    if role == "viewer"
    then some 0
    else if role == "operator"
    then some 1
    else if role == "admin"
    then some 2
    else none

-- `_NEEDED_RANK`
unfoldable pub needed_rank : Permission → ℕ
needed_rank view = 0
needed_rank operate = 1
needed_rank admin = 2

-- The value of a permission
abbrev pub permission_value : Permission → String
permission_value view = "view"
permission_value operate = "operate"
permission_value admin = "admin"

unfoldable pub anonymous_admin : Actor
anonymous_admin = record { role = "admin"; username = "anonymous" }

-- `allows`: a role that is not known has the rank -1.
unfoldable pub allows : Actor → Permission → Bool
allows actor p = elim (role_rank actor.role) [ none ↦ false | some rank ↦ leb (needed_rank p) rank ]

abbrev pub all_permissions : List Permission
all_permissions = view ∷ operate ∷ admin ∷ []

-- `permissions_for`
unfoldable pub permissions_for : String → List String
permissions_for role =
    map permission_value
      (filter (allows (record { role = role; username = "anonymous" })) all_permissions)

-- `require`
unfoldable pub require : Permission → Option Actor → Result Actor
require p none = raises "401 login required"
require p (some actor) =
    if allows actor p
    then returns actor
    else raises (concat ("403 nedostatecne opravneni: vyzaduje " ∷ permission_value p ∷ []))

abbrev pub is_same_login : User → Session → Bool
is_same_login user s = some user.password_hash == s.password_hash

-- The account of a session that was found
abbrev pub actor_of : SessionStore → String → Session → Option User → Option Actor × SessionStore
actor_of store token s none = (none, drop_session store token)
actor_of store token s (some user) =
    if is_same_login user s
    then (some (record { role = user.role; username = user.username }), store)
    else (none, drop_session store token)

abbrev pub session_actor :
    (String → Option User) → String → Option Session × SessionStore → Option Actor × SessionStore
session_actor users token (none, store) = (none, store)
session_actor users token (some s, store) = actor_of store token s (users s.username)

-- `provider` of `session_actor_provider`; `users` is `UserStore.get` at the time of the request.
unfoldable pub provider :
    (String → Option User) → SessionStore → Option String → ℕ → Option Actor × SessionStore
provider users store none now = (none, store)
provider users store (some token) now =
    if token == "" then (none, store) else session_actor users token (lookup store token now)
