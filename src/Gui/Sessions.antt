-- ===== src/Gui/Sessions.antt =====
-- The sessions of the logged-in users (migration_validator/gui/sessions.py). The reading of the
-- clock is an argument, in ticks, and so is the token that `secrets.token_urlsafe` returns.
pub mod Laws
mod Tests
use migration_status_check.Base.Dict
use migration_status_check.Base.Dict.{Dict}
use migration_status_check.Base.{
  ℕ, ◌-◌, String, Bool, not, ◌||◌, Option, none, some, string_eq, ltb, filter, if◌then◌else◌,
}

pub record Session : Type 0 where
  pub username : String
  pub created_at : ℕ
  pub last_seen : ℕ
  pub password_hash : Option String

pub record SessionStore : Type 0 where
  pub idle : ℕ
  pub absolute : ℕ
  pub sessions : Dict String Session

-- `SessionStore._expired`
unfoldable pub expired : SessionStore → Session → ℕ → Bool
expired store s now = ltb store.idle (now - s.last_seen) || ltb store.absolute (now - s.created_at)

-- `SessionStore.create`: the expired sessions go first.
unfoldable pub create : SessionStore → String → Option String → ℕ → String → SessionStore
create store username password_hash now token = record store {
  sessions = Dict.put (filter (λ e. not (expired store e.1 now)) store.sessions) token (record {
    username = username;
    created_at = now;
    last_seen = now;
    password_hash = password_hash;
  });
}

-- `SessionStore.drop`
unfoldable pub drop_session : SessionStore → String → SessionStore
drop_session store token = record store { sessions = Dict.remove store.sessions token }

-- `SessionStore.lookup`: it notes the time, or forgets the session that has expired.
unfoldable pub lookup : SessionStore → String → ℕ → Option Session × SessionStore
lookup store token now = elim (Dict.get store.sessions token) [
  | none ↦ (none, store)
  | some s ↦
      if expired store s now
      then (none, record store { sessions = Dict.remove store.sessions token })
      else (
        some (record s { last_seen = now }),
        record store { sessions = Dict.put store.sessions token (record s { last_seen = now }) },
      )
]
