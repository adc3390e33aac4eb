-- ===== src/Gui/Throttle/Tests.antt =====
-- Tests of the lock after failed logins.
use migration_status_check.Base.{String, ◌≡◌, eq_iff, string_eq, ap, ◌≢◌, [], ◌∷◌, arith}
use migration_status_check.Gui.Throttle.{Login, LoginThrottle, retry_after, success}
use migration_status_check.Gui.Throttle.Laws.{fail_all, fail_all-retry_after}

abbrev no_failures : LoginThrottle
no_failures = record { threshold = 3; lockout = 300; entries = [] }

abbrev ann : Login
ann = record { username = "ann"; ip = "10.0.0.1" }

abbrev bob : Login
bob = record { username = "bob"; ip = "10.0.0.1" }

-- Three failures lock for 300 ticks: at 100, 220 remain, which are 22 seconds of 10 ticks.
fail_all-retry_after_example :
    retry_after 10 (fail_all (success no_failures ann) ann (0 ∷ 10 ∷ 20 ∷ [])) ann 100 ≡ 22
fail_all-retry_after_example =
    fail_all-retry_after 10 no_failures ann 0 (10 ∷ 20 ∷ []) 100 tt (omega arith, (omega arith, tt))
      (omega arith)

ann_is_not_bob : ann ≢ bob
ann_is_not_bob h = cc ((eq_iff {A = String} "ann" "bob").1 (ap (λ l. l.username) h))
