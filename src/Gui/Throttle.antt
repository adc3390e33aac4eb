-- ===== src/Gui/Throttle.antt =====
-- The lock after failed logins (`LoginThrottle` in migration_validator/gui/sessions.py). The clock is
-- read in ticks, `second` of which are a second.
pub mod Laws
mod Tests
use migration_status_check.Base.Dict
use migration_status_check.Base.Dict.{Dict}
use migration_status_check.Base.{
  ℕ, suc, ◌+◌, ◌-◌, ◌/◌, String, Bool, true, not, ◌&&◌, ◌||◌, Option, none, some, ◌==◌, string_eq,
  nat_eq, Eq, ltb, leb, filter, length, if◌then◌else◌, ◌≡◌, ◌↔◌, arith,
}

-- A name and an address: the key of an entry
pub record Login : Type 0 where
  pub username : String
  pub ip : String

abbrev pub login_beq : Login → Login → Bool
login_beq a b = a.username == b.username && a.ip == b.ip

pub login_beq_iff : (a b : Login) → (login_beq a b ≡ true) ↔ (a ≡ b)
login_beq_iff a b =
    ground (arith, string_eq.test_iff a.username b.username, string_eq.test_iff a.ip b.ip)

instance abbrev pub login_eq : Eq Login
login_eq = record { test = login_beq; test_iff = login_beq_iff }

pub record Failures : Type 0 where
  pub count : ℕ
  pub last_failure : ℕ
  pub locked_until : ℕ

pub record LoginThrottle : Type 0 where
  pub threshold : ℕ
  pub lockout : ℕ
  pub entries : Dict Login Failures

-- `math.ceil` of a number of ticks in seconds
abbrev pub ceil_seconds : ℕ → ℕ → ℕ
ceil_seconds second ticks = (ticks + (second - 1)) / second

-- `LoginThrottle.retry_after`
unfoldable pub retry_after : ℕ → LoginThrottle → Login → ℕ → ℕ
retry_after second t login now = elim (Dict.get t.entries login) [
  | none ↦ 0
  | some e ↦ if leb e.locked_until now then 0 else ceil_seconds second (e.locked_until - now)
]

unfoldable pub is_stale : LoginThrottle → ℕ → Failures → Bool
is_stale t now e = leb e.locked_until now && ltb t.lockout (now - e.last_failure)

-- More than 10 000 entries: the stale ones go.
unfoldable pub purge : LoginThrottle → ℕ → Dict Login Failures
purge t now =
    if ltb 10000 (length t.entries)
    then filter (λ e. not (is_stale t now e.1)) t.entries
    else t.entries

-- An entry that no longer counts: its lock has run out, or the last failure is long ago.
unfoldable pub is_over : LoginThrottle → ℕ → Failures → Bool
is_over t now e =
    (not (e.locked_until == 0) && leb e.locked_until now) || ltb t.lockout (now - e.last_failure)

abbrev pub fresh : ℕ → Failures
fresh now = record { count = 0; last_failure = now; locked_until = 0 }

-- The entry that the failure is counted in
unfoldable pub entry_at : LoginThrottle → ℕ → Option Failures → Failures
entry_at t now none = fresh now
entry_at t now (some e) = if is_over t now e then fresh now else e

-- One more failure; the threshold locks and starts the count anew.
unfoldable pub count_failure : LoginThrottle → ℕ → Failures → Failures
count_failure t now e =
    if leb t.threshold (suc e.count)
    then record { count = 0; last_failure = now; locked_until = now + t.lockout }
    else record { count = suc e.count; last_failure = now; locked_until = e.locked_until }

-- `LoginThrottle.failure`
unfoldable pub failure : LoginThrottle → Login → ℕ → LoginThrottle
failure t login now =
    let kept = purge t now in
    record t {
      entries = Dict.put kept login (count_failure t now (entry_at t now (Dict.get kept login)));
    }

-- `LoginThrottle.success`
unfoldable pub success : LoginThrottle → Login → LoginThrottle
success t login = record t { entries = Dict.remove t.entries login }
