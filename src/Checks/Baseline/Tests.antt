-- ===== src/Checks/Baseline/Tests.antt =====
-- The gate on a baseline that has not measured the area.
use migration_status_check.Base.{String, arith, eq_iff, string_eq, ◌≢◌}

bgp_is_not_ping : ◌≢◌ {A = String} "bgp" "ping"
bgp_is_not_ping = ground (arith, eq_iff {A = String} "bgp" "ping")
