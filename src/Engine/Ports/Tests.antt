-- ===== src/Engine/Ports/Tests.antt =====
-- Tests of the votes for an L1 port.
use migration_status_check.Base.{◌<◌, ◌≢◌, ◌≡◌, refl, true, String, [], ◌∷◌, none}
use migration_status_check.Models.Scope.{Scope, no_selectors}
use migration_status_check.Scoping.Matcher.{MatchedPair}
use migration_status_check.Engine.Ports.{
  l1_baseline, winner, count_votes, add_vote, leader, is_tied,
}
use migration_status_check.Engine.Ports.Laws.{came_count, l1_baseline-IsWinner}
use migration_status_check.Base.Dict
use mathlib.Core.List.{Memᴰ}

abbrev on_port : String → String → Scope
on_port name port = record {
  id = name;
  kind = "service";
  key = none;
  selectors = record no_selectors { interfaces = name ∷ []; physical_interfaces = port ∷ [] };
  routing_instance_active = true;
  interface_active = true;
}

abbrev moved : MatchedPair
moved = record {
  baseline = record { address = 1; scope = on_port "ge-0/0/5.1" "ge-0/0/5" };
  subject = record { address = 2; scope = on_port "ae0.1" "ae0" };
  method = "manual";
  confidence = "manual";
}

l1_baseline-IsWinner_example :
    Memᴰ (on_port "ge-0/0/5" "ge-0/0/5") (on_port "ge-0/0/5" "ge-0/0/5" ∷ [])
    × ((name : String) × (("ge-0/0/5" ∷ [] ≡ name ∷ [])
          × ((0 < came_count "ae0" name (moved ∷ []))
              × ((other : String)
                  → other ≢ name
                  → came_count "ae0" other (moved ∷ []) < came_count "ae0" name (moved ∷ [])))))
unfolding l1_baseline winner count_votes add_vote leader is_tied Dict.get Dict.put
l1_baseline-IsWinner_example =
    l1_baseline-IsWinner "ae0" (moved ∷ []) (on_port "ge-0/0/5" "ge-0/0/5" ∷ [])
      (on_port "ge-0/0/5" "ge-0/0/5") refl
