-- ===== src/Gui/Sessions/Tests.antt =====
-- Tests of the sessions.
use migration_status_check.Base.Dict
use migration_status_check.Base.{
  eq_iff, ◌-◌, ◌≤◌, ◌≡◌, ◌≢◌, refl, none, some, String, List, [], ◌∷◌, string_eq,
}
use migration_status_check.Gui.Sessions.{
  Session, SessionStore, create, drop_session, lookup, expired,
}
use migration_status_check.Gui.Sessions.Laws.{Event, asks, logs_in, logs_out, lookup-session_of}

abbrev no_sessions : SessionStore
no_sessions = record { idle = 100; absolute = 150; sessions = [] }

abbrev busy : List Event
busy = asks "a" 70 ∷ logs_in "eve" none 80 "b" ∷ asks "a" 120 ∷ logs_out "b" ∷ []

b_is_not_a : ◌≢◌ {A = String} "b" "a"
b_is_not_a h = cc ((eq_iff {A = String} "b" "a").1 h)

abbrev seen_at_140 : Session
seen_at_140 = record { username = "ann"; created_at = 0; last_seen = 140; password_hash = some "h" }

lookup-session_of_example :
    (seen_at_140.username ≡ "ann") × ((seen_at_140.password_hash ≡ some "h") × (140 - 0 ≤ 150))
unfolding Dict.get create drop_session lookup expired Dict.remove Dict.put
lookup-session_of_example =
    lookup-session_of no_sessions "ann" (some "h") 0 "a" busy 140 seen_at_140 refl (b_is_not_a, tt)
      refl
