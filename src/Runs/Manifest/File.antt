-- ===== src/Runs/Manifest/File.antt =====
-- Loading and saving run.yml (`load_manifest`, `save_manifest` in migration_validator/runs/manifest.py).
-- The text of the file is read and written by `yaml`, a parameter. The classes do not check their
-- fields, so what is loaded (Loaded) has the values of YAML, but for the roles and the kind, which are
-- checked. The keys of a mapping are texts.
pub mod Laws
pub mod Rules
mod Tests
use Prim.Native.Nat.{◌^◌}
use migration_status_check.Base.Dict.{Dict}
use migration_status_check.Base.Dict
use migration_status_check.Base.Integer.{ℤ, pos}
use migration_status_check.Base.{
  ℕ, String, Bool, true, false, not, Option, none, some, List, [], ◌∷◌, map, ◌==◌, string_eq,
  nat_eq, option_eq, Result, returns, raises, ◌>>=◌, if◌then◌else◌, concat,
}
use migration_status_check.Models.Value.{
  Value, null, bool, int, real, nonfinite, str, seq, dict, truthy,
}
use migration_status_check.Models.Value.Access.{
  entries_of, list_of, of_dict, of_list, value_at, or_null, py_str,
}
use migration_status_check.Runs.Manifest.Loaded.{
  LoadedDevice, LoadedEndpoint, LoadedMapping, LoadedCapture, LoadedManifest,
}
use migration_status_check.Runs.Manifest.{
  RunDevice, MappingEndpoint, InterfaceMapping, CaptureRecord, RunManifest, check_role,
  check_kind_roles, check_kind_devices,
}

-- `value == RUN_SCHEMA_VERSION`
abbrev pub is_schema_version : Value → Bool
is_schema_version (int (pos n)) = n == 1
is_schema_version (real (pos n) k) = n == 10 ^ k
is_schema_version (bool b) = b
is_schema_version _ = false

abbrev pub dict_of : Value → Result (Dict String Value)
dict_of (dict fs) = returns (entries_of fs)
dict_of _ = raises "TypeError: not a mapping"

-- `(value or {}).items()` and `value or []`
abbrev pub table_of : Value → Result (Dict String Value)
table_of v = if truthy v then dict_of v else returns []

abbrev pub rows_of : Value → Result (List Value)
rows_of (seq vs) = returns (list_of vs)
rows_of v = if truthy v then raises "TypeError: not a list" else returns []

abbrev pub needed : String → Option Value → Result Value
needed key none = raises (concat ("KeyError: '" ∷ key ∷ "'" ∷ []))
needed key (some v) = returns v

-- `data[key]`
abbrev pub item_at : Dict String Value → String → Result Value
item_at d key = needed key (Dict.get d key)

-- `raise ValueError(f"{prefix}{exc}") from exc`
abbrev pub prefixed {ℓ} : {A : Type ℓ} → List String → Result A → Result A
prefixed prefix (returns a) = returns a
prefixed prefix (raises e) = raises (concat (concat prefix ∷ e ∷ []))

abbrev pub unhashable : String
unhashable = "TypeError: unhashable type"

-- The role of a device in a `frozenset`: a value that has no hash raises a TypeError, which
-- `load_manifest` passes on, and any other value that is no role a ValueError.
abbrev pub load_role : List String → Value → Result String
load_role prefix (str role) = prefixed prefix (check_role role) >>= λ _. returns role
load_role prefix (seq vs) = raises unhashable
load_role prefix (dict fs) = raises unhashable
load_role prefix v = raises (concat (concat prefix ∷ "neplatna role '" ∷ py_str v ∷ "'" ∷ []))

-- `_load_device`, with the message of `load_manifest` for a role that is not valid
unfoldable pub load_device : String → String → Value → Result LoadedDevice
load_device path node stored = dict_of stored >>= λ d. item_at d "host" >>= λ host.
    item_at d "platform" >>= λ platform. item_at d "role" >>= λ given.
    load_role (path ∷ ": zarizeni '" ∷ node ∷ "': " ∷ []) given >>= λ role.
    returns (record { host = host; platform = platform; role = role })

-- The loop over the devices: the nodes of a dictionary are distinct.
unfoldable pub load_devices : String → Dict String Value → Result (Dict String LoadedDevice)
load_devices path [] = returns []
load_devices path ((node, stored) ∷ rest) = load_device path node stored >>= λ device.
    load_devices path rest >>= λ devices. returns ((node, device) ∷ devices)

-- `_load_endpoint`
unfoldable pub load_endpoint : Value → Result LoadedEndpoint
load_endpoint stored = dict_of stored >>= λ d. item_at d "node" >>= λ node.
    item_at d "port" >>= λ port.
    returns (record { node = node; port = port; l2_switch = value_at d "l2_switch" })

unfoldable pub load_mapping_entry : Value → Result LoadedMapping
load_mapping_entry entry = dict_of entry >>= λ d. item_at d "old" >>= λ old_stored.
    load_endpoint old_stored >>= λ old. item_at d "new" >>= λ new_stored.
    load_endpoint new_stored >>= λ new. returns (record { old = old; new = new })

-- A port "all" is a capture of the whole box.
abbrev pub loaded_port : Value → Value
loaded_port (str port) = if port == "all" then null else str port
loaded_port v = v

-- `_load_capture`
unfoldable pub load_capture : Value → Result LoadedCapture
load_capture stored = dict_of stored >>= λ d. item_at d "phase" >>= λ phase.
    item_at d "device" >>= λ device. item_at d "snapshot" >>= λ snapshot.
    item_at d "taken" >>= λ taken. returns (record {
      phase = phase;
      device = device;
      port = loaded_port (value_at d "port");
      snapshot = snapshot;
      taken = taken;
    })

-- `[f(entry) for entry in entries]`
unfoldable pub load_each {ℓ} : {A : Type ℓ} → (Value → Result A) → List Value → Result (List A)
load_each f [] = returns []
load_each f (v ∷ vs) = f v >>= λ a. load_each f vs >>= λ rest. returns (a ∷ rest)

-- The kind, migration by default, after the rules of the kind
abbrev pub load_kind : String → List String → Value → Result String
load_kind path roles null =
    prefixed (path ∷ ": " ∷ []) (check_kind_roles "migration" roles) >>= λ _. returns "migration"
load_kind path roles (str kind) =
    prefixed (path ∷ ": " ∷ []) (check_kind_roles kind roles) >>= λ _. returns kind
load_kind path roles (seq vs) = raises unhashable
load_kind path roles (dict fs) = raises unhashable
load_kind path roles v =
    raises
      (concat (path ∷ ": neznamy kind '" ∷ py_str v ∷ "', ocekavano single nebo migration" ∷ []))

-- `load_manifest` after the test of the version
unfoldable pub load_fields : String → Dict String Value → Result LoadedManifest
load_fields path raw = table_of (value_at raw "devices") >>= λ entries.
    load_devices path entries >>= λ devices.
    load_kind path (map (λ e. e.1.role) devices) (value_at raw "kind") >>= λ kind.
    rows_of (value_at raw "interface_mapping") >>= load_each load_mapping_entry >>= λ mapping.
    rows_of (value_at raw "captures") >>= load_each load_capture >>= λ captures. returns (record {
      devices = devices;
      interface_mapping = mapping;
      captures = captures;
      kind = kind;
      profile = value_at raw "profile";
      group = value_at raw "group";
      created_by = value_at raw "created_by";
    })

abbrev pub load_mapping_of : String → Value → Result LoadedManifest
load_mapping_of path (dict fs) =
    if not (is_schema_version (value_at (entries_of fs) "schema_version"))
    then raises (concat (path ∷ ": neznama schema_version, ocekavano 1" ∷ []))
    else load_fields path (entries_of fs)
load_mapping_of path _ = raises (concat (path ∷ ": run.yml musi byt mapping" ∷ []))

-- `load_manifest`: an empty file reads as an empty mapping.
unfoldable pub load_manifest : (String → Result Value) → String → String → Result LoadedManifest
load_manifest safe_load path text =
    safe_load text >>= λ raw. load_mapping_of path (if truthy raw then raw else of_dict [])

abbrev pub dump_device : String × RunDevice → String × Value
dump_device e = (
  e.0,
  of_dict (("host", str e.1.host) ∷ ("platform", str e.1.platform) ∷ ("role", str e.1.role) ∷ []),
)

abbrev pub dump_switch : Option Value → Dict String Value
dump_switch none = []
dump_switch (some v) = ("l2_switch", v) ∷ []

-- `_dump_endpoint`
abbrev pub dump_endpoint : MappingEndpoint → Value
dump_endpoint e = of_dict (("node", str e.node) ∷ ("port", str e.port) ∷ dump_switch e.l2_switch)

abbrev pub dump_mapping : InterfaceMapping → Value
dump_mapping p = of_dict (("old", dump_endpoint p.old) ∷ ("new", dump_endpoint p.new) ∷ [])

abbrev pub dumped_port : Option String → String
dumped_port none = "all"
dumped_port (some port) = port

abbrev pub dump_capture : CaptureRecord → Value
dump_capture r = of_dict (
    ("phase", str r.phase)
    ∷ ("device", str r.device)
    ∷ ("port", str (dumped_port r.port))
    ∷ ("snapshot", str r.snapshot)
    ∷ ("taken", str r.taken)
    ∷ [])

-- `if value is not None: stored[key] = value`
abbrev pub with_text : String → Option String → Dict String Value → Dict String Value
with_text key none rest = rest
with_text key (some s) rest = (key, str s) ∷ rest

-- The dictionary that `save_manifest` writes
unfoldable pub manifest_data : RunManifest → Dict String Value
manifest_data m =
    ("schema_version", int (pos 1))
    ∷ ("kind", str m.kind)
    ∷ with_text "profile" m.profile (
        with_text "group" m.group (
          with_text "created_by" m.created_by (
            ("devices", of_dict (map dump_device m.devices))
            ∷ ("interface_mapping", of_list (map dump_mapping m.interface_mapping))
            ∷ ("captures", of_list (map dump_capture m.captures))
            ∷ [])))

-- `save_manifest`: the text of the file, or the error of the rules of the kind
unfoldable pub save_manifest : (Value → String) → RunManifest → Result String
save_manifest safe_dump m =
    check_kind_devices m.kind m.devices >>= λ _. returns (safe_dump (of_dict (manifest_data m)))
