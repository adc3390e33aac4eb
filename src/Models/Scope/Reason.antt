-- ===== src/Models/Scope/Reason.antt =====
-- The reason of a deactivation (`Scope.deactivation_reason`).
use migration_status_check.Base.{
  ◌≡◌, refl, Bool, true, false, not, ◌&&◌, Option, none, some, [], ◌∷◌, ◌++◌, String, if◌then◌else◌,
}
use migration_status_check.Models.Scope.{Scope, is_deactivated, deactivation_reason, reason_text}

abbrev pub has_text : Option String → Bool
has_text none = false
has_text (some s) = true

reasons_text :
    (container : String) (ri iface : Bool)
    → has_text (
        reason_text
          ((if ri then [] else container ∷ []) ++ (if iface then [] else "interface" ∷ [])))
      ≡ not (ri && iface)
reasons_text container true true = refl
reasons_text container true false = refl
reasons_text container false true = refl
reasons_text container false false = refl

-- A scope has a text of its deactivation exactly when it is deactivated, so a message that names
-- the reason never prints `None`.
pub deactivation_reason-is_deactivated :
    (s : Scope) → has_text (deactivation_reason s) ≡ is_deactivated s
unfolding deactivation_reason is_deactivated
deactivation_reason-is_deactivated s = reasons_text _ s.routing_instance_active s.interface_active
