-- ===== src/Models/Status.antt =====
-- Statuses, severities and outcomes (migration_validator/models/result.py).
pub mod Laws
mod Tests
use migration_status_check.Base.Integer.{ℤ, pos, negsuc, leb_ℤ}
use migration_status_check.Base.{ℕ, suc, ◌+◌, List, [], ◌∷◌, if◌then◌else◌}

-- The final state of a check or of a scope.
pub data Status : Type 0 where
  pass recv skip warn fail info : Status

pub data Severity : Type 0 where
  critical advisory : Severity

-- What a check measures; the framework derives the status from it.
pub data Outcome : Type 0 where
  ok info recovered unchanged degraded broken skip : Outcome

-- `_STATUS_RANK`
abbrev pub rank : Status → ℤ
rank Status.info = negsuc 0
rank pass = pos 0
rank recv = pos 1
rank Status.skip = pos 2
rank warn = pos 3
rank fail = pos 4

-- One step of Python's `max`: the earlier of two equal maxima stays.
abbrev pub worse : Status → Status → Status
worse best s = if leb_ℤ (rank s) (rank best) then best else s

unfoldable pub max_by_rank : Status → List Status → Status
max_by_rank best [] = best
max_by_rank best (s ∷ ss) = max_by_rank (worse best s) ss

-- `Status.worst`: the worst state of a set; the empty set was not measured.
unfoldable pub worst : List Status → Status
worst [] = Status.skip
worst (s ∷ ss) = max_by_rank s ss

-- The dictionary of six counters.
pub record Counts : Type 0 where
  pub pass : ℕ
  pub warn : ℕ
  pub fail : ℕ
  pub skip : ℕ
  pub info : ℕ
  pub recv : ℕ

abbrev pub zero_counts : Counts
zero_counts = record { pass = 0; warn = 0; fail = 0; skip = 0; info = 0; recv = 0 }

-- `counts[status.value.lower()] += 1`
abbrev pub bump : Counts → Status → Counts
bump c Status.pass = record c { pass = c.pass + 1 }
bump c Status.warn = record c { warn = c.warn + 1 }
bump c Status.fail = record c { fail = c.fail + 1 }
bump c Status.skip = record c { skip = c.skip + 1 }
bump c Status.info = record c { info = c.info + 1 }
bump c Status.recv = record c { recv = c.recv + 1 }

unfoldable pub count_from : Counts → List Status → Counts
count_from c [] = c
count_from c (s ∷ ss) = count_from (bump c s) ss

unfoldable pub count_statuses : List Status → Counts
unfolding count_from
count_statuses statuses = count_from zero_counts statuses

-- The status that an outcome has at a severity.
unfoldable pub derive_status : Outcome → Severity → Status
derive_status ok severity = pass
derive_status unchanged severity = pass
derive_status Outcome.info severity = Status.info
derive_status recovered severity = recv
derive_status Outcome.skip severity = Status.skip
derive_status degraded severity = warn
derive_status broken critical = fail
derive_status broken advisory = warn
