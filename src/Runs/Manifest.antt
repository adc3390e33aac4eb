-- ===== src/Runs/Manifest.antt =====
-- The model of run.yml (migration_validator/runs/manifest.py).
pub mod Captures
pub mod Mappings
pub mod Kinds
pub mod Loaded
pub mod File
mod Tests
use migration_status_check.Base.Dict
use migration_status_check.Base.Dict.{Dict}
use migration_status_check.Base.{
  ℕ, suc, String, Bool, true, false, not, ◌&&◌, ◌||◌, Option, none, some, List, [], ◌∷◌, ◌++◌, map,
  ◌==◌, string_eq, option_eq, nat_eq, Result, returns, raises, ◌>>=◌, if◌then◌else◌, filter, find?,
  count_by, contains, concat, length, ltb,
}
use migration_status_check.Models.Value.{Value}

abbrev pub valid_roles : List String
valid_roles = "old" ∷ "new" ∷ "l2-switch" ∷ "single" ∷ []

pub record RunDevice : Type 0 where
  pub host : String
  pub platform : String
  pub role : String

-- `RunDevice.__post_init__`
unfoldable pub check_role : String → Result (Unit {0})
check_role role =
    if not (contains valid_roles role)
    then raises (concat ("neplatna role '" ∷ role ∷ "'" ∷ []))
    else returns tt

pub record MappingEndpoint : Type 0 where
  pub node : String
  pub port : String
  pub l2_switch : Option Value

pub record InterfaceMapping : Type 0 where
  pub old : MappingEndpoint
  pub new : MappingEndpoint

-- The port `none` is a capture of the whole box.
pub record CaptureRecord : Type 0 where
  pub phase : String
  pub device : String
  pub port : Option String
  pub snapshot : String
  pub taken : String

pub record RunManifest : Type 0 where
  pub devices : Dict String RunDevice
  pub interface_mapping : List InterfaceMapping
  pub captures : List CaptureRecord
  pub kind : String
  pub profile : Option String
  pub group : Option String
  pub created_by : Option String

-- `RunManifest.node_for_host`
unfoldable pub node_for_host : Dict String RunDevice → String → Option String
node_for_host [] host = none
node_for_host ((node, device) ∷ rest) host =
    if device.host == host then some node else node_for_host rest host

abbrev pub has_role : String → String × RunDevice → Bool
has_role role entry = entry.1.role == role

abbrev pub the_only {ℓ} : {A : Type ℓ} → String → List A → Result (Option A)
the_only message [] = returns none
the_only message (x ∷ []) = returns (some x)
the_only message (x ∷ y ∷ rest) = raises message

-- `RunManifest.device_with_role`: more than one box of the role is an error.
unfoldable pub device_with_role : RunManifest → String → Result (Option (String × RunDevice))
device_with_role m role =
    the_only (concat ("faze 4 podporuje jeden box role '" ∷ role ∷ "'" ∷ []))
      (filter (has_role role) m.devices)

unfoldable pub at_endpoint : String → String → MappingEndpoint → Bool
at_endpoint node port e = e.node == node && e.port == port

abbrev pub exactly_one {ℓ} : {A : Type ℓ} → List A → Option A
exactly_one (x ∷ []) = some x
exactly_one _ = none

-- `RunManifest.mapped_olds`
unfoldable pub mapped_olds : RunManifest → String → String → List MappingEndpoint
mapped_olds m node port =
    map (λ p. p.old) (filter (λ p. at_endpoint node port p.new) m.interface_mapping)

-- `RunManifest.paired_old`
unfoldable pub paired_old : RunManifest → String → String → Option MappingEndpoint
paired_old m node port =
    exactly_one (map (λ p. p.old) (filter (λ p. at_endpoint node port p.new) m.interface_mapping))

-- `RunManifest.paired_new`
unfoldable pub paired_new : RunManifest → String → String → Option MappingEndpoint
paired_new m node port =
    exactly_one (map (λ p. p.new) (filter (λ p. at_endpoint node port p.old) m.interface_mapping))

abbrev pub same_place : MappingEndpoint → MappingEndpoint → Bool
same_place a b = at_endpoint b.node b.port a

-- The loop of `RunManifest.add_mapping`: the first record of the old port decides.
unfoldable pub extend_mapping :
    List InterfaceMapping → MappingEndpoint → MappingEndpoint → Result (List InterfaceMapping)
extend_mapping [] old new = returns (record { old = old; new = new } ∷ [])
extend_mapping (p ∷ rest) old new =
    let extended = extend_mapping rest old new >>= λ ps. returns (p ∷ ps) in
    if same_place p.old old
    then (if same_place p.new new
        then returns (p ∷ rest)
        else raises (
            concat (
              "old " ∷ old.node ∷ "/" ∷ old.port ∷ " uz je sparovan s jinym new portem ("
              ∷ p.new.node ∷ "/" ∷ p.new.port ∷ ")" ∷ [])))
    else extended

-- `RunManifest.add_mapping`
unfoldable pub add_mapping : RunManifest → MappingEndpoint → MappingEndpoint → Result RunManifest
add_mapping m old new = extend_mapping m.interface_mapping old new >>= λ ps.
    returns (record m { interface_mapping = ps })

-- The key of a capture.
unfoldable pub is_capture : String → String → Option String → CaptureRecord → Bool
is_capture phase device port r = r.phase == phase && r.device == device && r.port == port

-- The loop of `RunManifest.record_capture`: the first record of the key is replaced.
unfoldable pub put_capture : List CaptureRecord → CaptureRecord → List CaptureRecord
put_capture [] record_of = record_of ∷ []
put_capture (r ∷ rest) record_of =
    if is_capture record_of.phase record_of.device record_of.port r
    then record_of ∷ rest
    else r ∷ put_capture rest record_of

-- `RunManifest.record_capture`
unfoldable pub record_capture : RunManifest → CaptureRecord → RunManifest
record_capture m r = record m { captures = put_capture m.captures r }

-- `RunManifest.find_capture`
unfoldable pub find_capture : RunManifest → String → String → Option String → Option CaptureRecord
find_capture m phase device port = find? (is_capture phase device port) m.captures

abbrev pub count_role : String → Dict String RunDevice → ℕ
count_role role devices = count_by (has_role role) devices

-- `roles.count(role)`
abbrev pub count_of_role : String → List String → ℕ
count_of_role role roles = count_by (λ r. r == role) roles

abbrev pub role_error : String → Result (Unit {0})
role_error role =
    raises (concat ("run typu migration podporuje jeden box role '" ∷ role ∷ "'" ∷ []))

-- `check_kind_devices` on the roles of the devices
unfoldable pub check_kind_roles : String → List String → Result (Unit {0})
check_kind_roles kind roles =
    if not (kind == "single" || kind == "migration")
    then raises (concat ("neznamy kind '" ∷ kind ∷ "', ocekavano single nebo migration" ∷ []))
    else if kind == "single"
    then (if not (length roles == 1) || not (count_of_role "single" roles == 1)
        then raises "run typu single ma prave jedno zarizeni role 'single'"
        else returns tt)
    else if ltb 0 (count_of_role "single" roles)
    then raises "run typu migration nesmi obsahovat zarizeni role 'single'"
    else if ltb 1 (count_of_role "old" roles)
    then role_error "old"
    else if ltb 1 (count_of_role "new" roles)
    then role_error "new"
    else returns tt

-- `check_kind_devices`: the rules of the kind of a run against the roles of its devices.
unfoldable pub check_kind_devices : String → Dict String RunDevice → Result (Unit {0})
check_kind_devices kind devices = check_kind_roles kind (map (λ e. e.1.role) devices)
