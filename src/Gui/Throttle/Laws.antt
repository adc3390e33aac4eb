-- ===== src/Gui/Throttle/Laws.antt =====
-- When failed logins lock (`LoginThrottle` in migration_validator/gui/sessions.py).
use migration_status_check.Base.Dict
use migration_status_check.Base.Dict.{Dict}
use migration_status_check.Base.{
  ℕ, suc, ◌+◌, ◌-◌, ◌<◌, ◌≤◌, ◌≡◌, ◌≢◌, true, not, ◌&&◌, none, some, List, [], ◌∷◌, ◌==◌, nat_eq,
  ltb, leb, length, if◌then◌else◌, arith, eq_refl, eq_false_of_ne, Bool-cases, Option-cases, ◌⊎◌,
  inl, inr,
}
use migration_status_check.Gui.Throttle.{
  Login, login_eq, Failures, LoginThrottle, ceil_seconds, retry_after, is_stale, purge, is_over,
  entry_at, count_failure, failure, success,
}

-- The failures of one login, at their times
abbrev pub fail_all : LoginThrottle → Login → List ℕ → LoginThrottle
fail_all t login [] = t
fail_all t login (now ∷ times) = fail_all (failure t login now) login times

-- Every failure comes within `window` of the one before.
abbrev pub IsBurst : ℕ → ℕ → List ℕ → Type 0
IsBurst window before [] = Unit
IsBurst window before (now ∷ times) = (now - before ≤ window) × IsBurst window now times

abbrev pub last_of : ℕ → List ℕ → ℕ
last_of before [] = before
last_of before (now ∷ times) = last_of now times

-- What the purge of old entries leaves of one entry
purge-get :
    (t : LoginThrottle) (now : ℕ) (login : Login)
    → Dict.IsDict t.entries
    → Dict.get (purge t now) login ≡ (
        if ltb 10000 (length t.entries)
        then Dict.kept_if (λ e. not (is_stale t now e.1)) login (Dict.get t.entries login)
        else Dict.get t.entries login)
unfolding purge
purge-get t now login u =
    ground (arith, Dict.get-filter (λ e. not (is_stale t now e.1)) t.entries login u)

-- A stale entry is over as well, so the purge does not change what a failure counts.
entry_at-purge :
    (t : LoginThrottle) (now : ℕ) (login : Login)
    → Dict.IsDict t.entries
    → entry_at t now (Dict.get (purge t now) login) ≡ entry_at t now (Dict.get t.entries login)
unfolding entry_at is_stale is_over
entry_at-purge t now login u = elim (Option-cases (Dict.get t.entries login)) [
  | inl q ↦ ground (arith, purge-get t now login u, q)
  | inr (e, q) ↦ ground (arith, purge-get t now login u, q)
]

failure-get :
    (t : LoginThrottle) (login : Login) (now : ℕ)
    → Dict.IsDict t.entries
    → Dict.get (failure t login now).entries login
      ≡ some (count_failure t now (entry_at t now (Dict.get t.entries login)))
unfolding failure
failure-get t login now u = ground (
  arith,
  eq_refl login,
  entry_at-purge t now login u,
  Dict.get-put (purge t now) login login
      (count_failure t now (entry_at t now (Dict.get (purge t now) login))),
)

failure-IsDict :
    (t : LoginThrottle) (login : Login) (now : ℕ)
    → Dict.IsDict t.entries
    → Dict.IsDict (failure t login now).entries
unfolding failure purge
failure-IsDict t login now u = elim (Bool-cases (ltb 10000 (length t.entries))) [
  | inl q ↦
      rw q
        (Dict.put-IsDict _ login _ (Dict.filter-IsDict (λ e. not (is_stale t now e.1)) t.entries u))
  | inr q ↦ rw q (Dict.put-IsDict t.entries login _ u)
]

-- What is in the store of a burst: the failures so far, or the lock of the last one
abbrev pub burst_entry : LoginThrottle → ℕ → ℕ → List ℕ → Failures
burst_entry t count before times =
    if count + length times == t.threshold
    then record {
      count = 0;
      last_failure = last_of before times;
      locked_until = last_of before times + t.lockout;
    }
    else record {
      count = count + length times;
      last_failure = last_of before times;
      locked_until = 0;
    }

-- One more failure of a burst
count_failure-burst :
    (t : LoginThrottle) (now count before : ℕ)
    → now - before ≤ t.lockout
    → count_failure t now
        (entry_at t now (some (record { count = count; last_failure = before; locked_until = 0 })))
      ≡ (if leb t.threshold (suc count)
          then record { count = 0; last_failure = now; locked_until = now + t.lockout }
          else record { count = suc count; last_failure = now; locked_until = 0 })
unfolding count_failure entry_at is_over
count_failure-burst t now count before h = ground arith

fail_all-burst_from :
    (times : List ℕ) (t : LoginThrottle) (login : Login) (count before : ℕ)
    → Dict.IsDict t.entries
    → Dict.get t.entries login
      ≡ some (record { count = count; last_failure = before; locked_until = 0 })
    → IsBurst t.lockout before times
    → count < t.threshold
    → count + length times ≤ t.threshold
    → Dict.get (fail_all t login times).entries login ≡ some (burst_entry t count before times)
unfolding failure
fail_all-burst_from [] t login count before u q b h k = ground (arith, q)
fail_all-burst_from (now ∷ []) t login count before u q b h k =
    let counted = count_failure-burst t now count before b.0 in
    ground (arith, failure-get t login now u, counted, q)
fail_all-burst_from (now ∷ next ∷ times) t login count before u q b h k =
    let counted = count_failure-burst t now count before b.0 in
    let one_more : Dict.get (failure t login now).entries login
        ≡ some (record { count = suc count; last_failure = now; locked_until = 0 }) =
      ground (arith, failure-get t login now u, counted, q) in
    ground (
      arith,
      fail_all-burst_from (next ∷ times) (failure t login now) login (suc count) now
          (failure-IsDict t login now u) one_more b.1 (omega arith) (omega arith),
    )

fail_all-burst :
    (times : List ℕ) (t : LoginThrottle) (login : Login) (first : ℕ)
    → Dict.IsDict t.entries
    → Dict.get t.entries login ≡ none
    → IsBurst t.lockout first times
    → suc (length times) ≤ t.threshold
    → Dict.get (fail_all t login (first ∷ times)).entries login ≡ some (burst_entry t 1 first times)
unfolding failure entry_at count_failure
fail_all-burst [] t login first u q b h = ground (arith, failure-get t login first u, q)
fail_all-burst (next ∷ times) t login first u q b h =
    let one : Dict.get (failure t login first).entries login
        ≡ some (record { count = 1; last_failure = first; locked_until = 0 }) =
      ground (arith, failure-get t login first u, q) in
    ground (
      arith,
      fail_all-burst_from (next ∷ times) (failure t login first) login 1 first
          (failure-IsDict t login first u) one b (omega arith) (omega arith),
    )

-- In a throttle with one entry for each key, after a successful login, a burst of failures, each within the lock's length of the one before,
-- does not lock the login as long as it is shorter than the threshold, and locks it with the
-- threshold's failure: until the lock's length after that failure, the rest of it is to be waited.
pub fail_all-retry_after :
    (second : ℕ) (t : LoginThrottle) (login : Login) (first : ℕ) (times : List ℕ) (now : ℕ)
    → Dict.IsDict t.entries
    → IsBurst t.lockout first times
    → suc (length times) ≤ t.threshold
    → retry_after second (fail_all (success t login) login (first ∷ times)) login now ≡ (
        if suc (length times) == t.threshold && ltb now (last_of first times + t.lockout)
        then ceil_seconds second ((last_of first times + t.lockout) - now)
        else 0)
unfolding success retry_after
fail_all-retry_after second t login first times now u b h =
    let gone : Dict.get (success t login).entries login ≡ none =
      ground (arith, Dict.get-remove t.entries login login, eq_refl login) in
    ground (
      arith,
      fail_all-burst times (success t login) login first (Dict.remove-IsDict t.entries login u) gone
          b h,
    )

purge-get_cases :
    (t : LoginThrottle) (now : ℕ) (login : Login)
    → Dict.IsDict t.entries
    → (Dict.get (purge t now) login ≡ Dict.get t.entries login)
      ⊎ ((Dict.get (purge t now) login ≡ none)
          × ((e : Failures) × ((Dict.get t.entries login ≡ some e)
                × (leb e.locked_until now ≡ true))))
unfolding is_stale
purge-get_cases t now login u = elim (Option-cases (Dict.get t.entries login)) [
  | inl q ↦ inl (ground (arith, purge-get t now login u, q))
  | inr (e, q) ↦ elim (Bool-cases (ltb 10000 (length t.entries) && is_stale t now e)) [
    | inl r ↦ inr (ground (arith, purge-get t now login u, q, r), (e, (q, ground (arith, r))))
    | inr r ↦ inl (ground (arith, purge-get t now login u, q, r))
  ]
]

-- In a throttle with one entry for each key, a failed login does not change how long any other login has to wait at that time, whether or not
-- the failure makes the throttle forget old entries.
pub failure-retry_after_other :
    (second : ℕ) (t : LoginThrottle) (login other : Login) (now : ℕ)
    → Dict.IsDict t.entries
    → login ≢ other
    → retry_after second (failure t login now) other now ≡ retry_after second t other now
unfolding failure retry_after
failure-retry_after_other second t login other now u ne =
    let put_other =
      Dict.get-put (purge t now) login other
        (count_failure t now (entry_at t now (Dict.get (purge t now) login))) in
    elim (purge-get_cases t now other u) [
      | inl q ↦ ground (arith, put_other, eq_false_of_ne login other ne, q)
      | inr (q, (e, (found, over))) ↦
          ground (arith, put_other, eq_false_of_ne login other ne, q, found, over)
    ]
