-- ===== src/Models/Snapshot.antt =====
-- Snapshots: what a capture of a device holds (migration_validator/models/snapshot.py). The scopes
-- are objects, so they carry their address.
use migration_status_check.Base.Dict.{Dict}
use migration_status_check.Base.{ℕ, String, Option, some, List, [], ◌∷◌, string_eq, if◌then◌else◌}
use migration_status_check.Models.Value.Access.{text_at_or, value_at, is_text}
use migration_status_check.Models.Scope.Select.{Record}
use migration_status_check.Scoping.Matcher.{ScopeObject}

abbrev pub schema_version : ℕ
schema_version = 15

pub record DeviceMeta : Type 0 where
  pub address : String
  pub hostname : Option String
  pub platform : String
  pub model : Option String
  pub version : Option String
  pub uptime_seconds : Option ℕ

pub record CaptureMeta : Type 0 where
  pub started_at : String
  pub finished_at : Option String
  pub phase : Option String
  pub collectors : Dict String Record

-- `CaptureMeta.failed_collectors`
unfoldable pub failed_collectors_of : Dict String Record → Dict String String
failed_collectors_of [] = []
failed_collectors_of ((name, info) ∷ rest) =
    let more = failed_collectors_of rest in
    if is_text (value_at info "status") (some "ok")
    then more
    else (name, text_at_or info "message" "neznama chyba") ∷ more

pub record Snapshot : Type 0 where
  pub device : DeviceMeta
  pub capture : CaptureMeta
  pub facts : Record
  pub probes : Record
  pub scopes : List ScopeObject
