-- ===== src/Gui/Authz/Tests.antt =====
-- Tests of the roles and of the actor of a request.
use migration_status_check.Base.Dict
use migration_status_check.Base.Results.{returns}
use migration_status_check.Base.{
  ◌≡◌, ◌≢◌, ◌↔◌, refl, String, true, Option, none, some, [], ◌∷◌, contains, string_eq,
}
use migration_status_check.Gui.Users.{User}
use migration_status_check.Gui.Sessions.{Session, SessionStore, lookup, expired}
use migration_status_check.Gui.Sessions.Laws.{run}
use migration_status_check.Gui.Authz.{Actor, operate, require, permissions_for, provider}
use migration_status_check.Gui.Authz.Laws.{
  StandsFor, require-permissions_for, provider-StandsFor, provider-revoked,
}

abbrev operator : Actor
operator = record { role = "operator"; username = "ann" }

require-permissions_for_example :
    (require operate (some operator) ≡ returns operator)
    ↔ (contains (permissions_for "operator") "operate" ≡ true)
require-permissions_for_example = require-permissions_for operate operator

abbrev ann_session : Session
ann_session = record { username = "ann"; created_at = 0; last_seen = 0; password_hash = some "h" }

abbrev one_session : SessionStore
one_session = record { idle = 100; absolute = 150; sessions = ("t", ann_session) ∷ [] }

abbrev account : String → Option User
account name = some (record { username = name; role = "operator"; password_hash = "h" })

provider-StandsFor_example : StandsFor account operator (lookup one_session "t" 50).0
unfolding provider lookup Dict.get expired
provider-StandsFor_example = provider-StandsFor account one_session "t" 50 operator refl

abbrev no_account : String → Option User
no_account name = none

t_is_not_empty : ◌≢◌ {A = String} "t" ""
t_is_not_empty h = cc

provider-revoked_example :
    (provider account (run (provider no_account one_session (some "t") 50).1 []) (some "t") 60).0
    ≡ none
unfolding lookup Dict.get expired
provider-revoked_example =
    provider-revoked no_account account one_session "t" (record ann_session { last_seen = 50 }) 50
      60 [] t_is_not_empty refl (λ user h. cc) tt
