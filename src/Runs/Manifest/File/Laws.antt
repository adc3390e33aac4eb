-- ===== src/Runs/Manifest/File/Laws.antt =====
-- A saved run.yml loads as the manifest that was saved (migration_validator/runs/manifest.py).
use migration_status_check.Base.Dict.{Dict}
use migration_status_check.Base.Dict
use migration_status_check.Base.Integer.{pos}
use migration_status_check.Base.{
  String, true, Option, none, some, List, [], ◌∷◌, map, string_eq, option_eq, Result, returns,
  raises, ◌>>=◌, if◌then◌else◌, ◌≡◌, ◌≢◌, refl, sym, ap, ◌∙◌, All, All-of_mem, contains,
  eq_false_of_ne, arith,
}
use migration_status_check.Models.Value.{Value, int, str, truthy}
use migration_status_check.Models.Value.Access.{
  of_dict, of_list, value_at, or_null, entries_of-fields_of, list_of-items_of,
}
use migration_status_check.Runs.Manifest.{
  RunDevice, MappingEndpoint, InterfaceMapping, CaptureRecord, RunManifest, check_role,
  check_kind_devices, check_kind_roles, valid_roles,
}
use migration_status_check.Runs.Manifest.Loaded.{
  LoadedDevice, LoadedManifest, as_device, as_endpoint, as_mapping, as_capture, as_loaded,
  text_or_null,
}
use migration_status_check.Runs.Manifest.File.{
  load_manifest, load_fields, load_mapping_of, load_devices, load_device, load_endpoint,
  load_mapping_entry, load_capture, load_each, load_kind, table_of, rows_of, loaded_port, prefixed,
  dumped_port, dump_device, dump_switch, dump_endpoint, dump_mapping, dump_capture, with_text,
  manifest_data, save_manifest,
}

-- What the constructor of a device demands.
abbrev pub HasValidRole : String × RunDevice → Type 0
HasValidRole e = contains valid_roles e.1.role ≡ true

-- The manifests that run.yml can hold: "all" is no name of a port.
pub record IsStorable (m : RunManifest) : Type 0 where
  pub roles : All HasValidRole m.devices
  pub ports : All (λ r. r.port ≢ some "all") m.captures

load_device-dump :
    (path node : String) (d : RunDevice)
    → contains valid_roles d.role ≡ true
    → load_device path node (dump_device (node, d)).1 ≡ returns (as_device d)
unfolding load_device check_role Dict.get
load_device-dump path node d valid = rw valid refl

load_devices-dump :
    (path : String) (ds : Dict String RunDevice)
    → All HasValidRole ds
    → load_devices path (map dump_device ds) ≡ returns (map (λ e. (e.0, as_device e.1)) ds)
unfolding load_devices
load_devices-dump path [] h = refl
load_devices-dump path ((node, d) ∷ ds) h =
    rw (load_device-dump path node d h.0, load_devices-dump path ds h.1) refl

loads_endpoint :
    (n p : String) (switch : Option Value)
    → load_endpoint (of_dict (("node", str n) ∷ ("port", str p) ∷ dump_switch switch))
      ≡ returns (record { node = str n; port = str p; l2_switch = or_null switch })
unfolding load_endpoint value_at Dict.get
loads_endpoint n p none = refl
loads_endpoint n p (some v) = refl

load_endpoint-dump :
    (e : MappingEndpoint) → load_endpoint (dump_endpoint e) ≡ returns (as_endpoint e)
load_endpoint-dump e = loads_endpoint e.node e.port e.l2_switch

load_mapping_entry-dump :
    (p : InterfaceMapping) → load_mapping_entry (dump_mapping p) ≡ returns (as_mapping p)
unfolding load_mapping_entry Dict.get
load_mapping_entry-dump p = rw (load_endpoint-dump p.old, load_endpoint-dump p.new) refl

loaded_port-dumped_port :
    (port : Option String)
    → port ≢ some "all"
    → loaded_port (str (dumped_port port)) ≡ text_or_null port
loaded_port-dumped_port none h = refl
loaded_port-dumped_port (some p) h = rw (eq_false_of_ne p "all" (λ e. h (ap some e))) refl

load_capture-dump :
    (r : CaptureRecord)
    → r.port ≢ some "all"
    → load_capture (dump_capture r) ≡ returns (as_capture r)
unfolding load_capture Dict.get value_at
load_capture-dump r h =
    ap (λ port. returns (record (as_capture r) { port = port })) (loaded_port-dumped_port r.port h)

load_each-dump {ℓ κ} :
    {A : Type ℓ} {B : Type κ} (P : A → Type 0) (dump : A → Value) (f : Value → Result B) (g : A → B)
    → ((a : A) → P a → f (dump a) ≡ returns (g a))
    → (xs : List A) → All P xs
    → load_each f (map dump xs) ≡ returns (map g xs)
unfolding load_each
load_each-dump P dump f g back [] h = refl
load_each-dump P dump f g back (a ∷ xs) h =
    rw (back a h.0, load_each-dump P dump f g back xs h.1) refl

abbrev written_data :
    Option String
    → Option String
    → Option String
    → String
    → Value
    → Value
    → Value
    → Dict String Value
written_data profile group created_by kind ds ms cs =
    ("schema_version", int (pos 1))
    ∷ ("kind", str kind)
    ∷ with_text "profile" profile (
        with_text "group" group (
          with_text "created_by" created_by
            (("devices", ds) ∷ ("interface_mapping", ms) ∷ ("captures", cs) ∷ [])))

-- What each reading of a written dictionary finds, whichever texts are absent.
written :
    (profile group created_by : Option String) (kind : String) (ds ms cs : Value)
    → let d = written_data profile group created_by kind ds ms cs in
      (value_at d "schema_version" ≡ int (pos 1))
      × (value_at d "devices" ≡ ds)
      × (value_at d "kind" ≡ str kind)
      × (value_at d "interface_mapping" ≡ ms)
      × (value_at d "captures" ≡ cs)
      × (value_at d "profile" ≡ text_or_null profile)
      × (value_at d "group" ≡ text_or_null group)
      × (value_at d "created_by" ≡ text_or_null created_by)
unfolding value_at Dict.get
written none none none kind ds ms cs = (refl, refl, refl, refl, refl, refl, refl, refl)
written none none (some c) kind ds ms cs = (refl, refl, refl, refl, refl, refl, refl, refl)
written none (some g) none kind ds ms cs = (refl, refl, refl, refl, refl, refl, refl, refl)
written none (some g) (some c) kind ds ms cs = (refl, refl, refl, refl, refl, refl, refl, refl)
written (some p) none none kind ds ms cs = (refl, refl, refl, refl, refl, refl, refl, refl)
written (some p) none (some c) kind ds ms cs = (refl, refl, refl, refl, refl, refl, refl, refl)
written (some p) (some g) none kind ds ms cs = (refl, refl, refl, refl, refl, refl, refl, refl)
written (some p) (some g) (some c) kind ds ms cs = (refl, refl, refl, refl, refl, refl, refl, refl)

table_of-of_dict : (d : Dict String Value) → table_of (of_dict d) ≡ returns d
table_of-of_dict [] = refl
table_of-of_dict ((k, v) ∷ d) = ap (λ e. returns ((k, v) ∷ e)) (entries_of-fields_of d)

abbrev pub role_in : String × LoadedDevice → String
role_in e = e.1.role

-- The roles are checked again as they were when the manifest was saved.
pub roles_as_device :
    (ds : Dict String RunDevice)
    → map role_in (map (λ e. (e.0, as_device e.1)) ds)
      ≡ map (λ (e : String × RunDevice). e.1.role) ds
roles_as_device [] = refl
roles_as_device (e ∷ ds) = ap (λ rs. e.1.role ∷ rs) (roles_as_device ds)

load_kind-text :
    (path kind : String) (roles : List String) (v : Value)
    → v ≡ str kind
    → check_kind_roles kind roles ≡ returns tt
    → load_kind path roles v ≡ returns kind
load_kind-text path kind roles v e ok =
    ap (load_kind path roles) e ∙ ap (λ r. prefixed (path ∷ ": " ∷ []) r >>= λ _. returns kind) ok

-- Each part is read as the part of the manifest.
load_fields-parts :
    (path : String) (raw : Dict String Value) (m : LoadedManifest) (entries : Dict String Value)
    → table_of (value_at raw "devices") ≡ returns entries
    → load_devices path entries ≡ returns m.devices
    → load_kind path (map (λ e. e.1.role) m.devices) (value_at raw "kind") ≡ returns m.kind
    → (rows_of (value_at raw "interface_mapping") >>= load_each load_mapping_entry)
      ≡ returns m.interface_mapping
    → (rows_of (value_at raw "captures") >>= load_each load_capture) ≡ returns m.captures
    → value_at raw "profile" ≡ m.profile
    → value_at raw "group" ≡ m.group
    → value_at raw "created_by" ≡ m.created_by
    → load_fields path raw ≡ returns m
unfolding load_fields
load_fields-parts path raw m entries table devices kind mappings captures profile group created_by =
    rw (table, devices, kind, mappings, captures, profile, group, created_by) refl

rows-dump {ℓ κ} :
    {A : Type ℓ} {B : Type κ} (P : A → Type 0) (dump : A → Value) (f : Value → Result B) (g : A → B)
    → ((a : A) → P a → f (dump a) ≡ returns (g a))
    → (xs : List A) (v : Value) → v ≡ of_list (map dump xs)
    → All P xs
    → (rows_of v >>= load_each f) ≡ returns (map g xs)
rows-dump P dump f g back xs v e h =
    ap (λ w. rows_of w >>= load_each f) e
    ∙ ap (load_each f) (list_of-items_of (map dump xs))
    ∙ load_each-dump P dump f g back xs h

-- The devices, mappings and captures of a storable manifest are read back.
load_fields-data :
    (path : String) (m : RunManifest)
    → IsStorable m
    → check_kind_devices m.kind m.devices ≡ returns tt
    → load_fields path (manifest_data m) ≡ returns (as_loaded m)
unfolding manifest_data check_kind_devices
load_fields-data path m storable ok =
    let (_, devices, kind, mappings, captures, profile, group, created_by) =
      written m.profile m.group m.created_by m.kind (of_dict (map dump_device m.devices))
        (of_list (map dump_mapping m.interface_mapping)) (of_list (map dump_capture m.captures)) in
    load_fields-parts path (manifest_data m) (as_loaded m) (map dump_device m.devices)
      (ap table_of devices ∙ table_of-of_dict (map dump_device m.devices))
      (load_devices-dump path m.devices storable.roles)
      (load_kind-text path m.kind _ _ kind
        (ap (check_kind_roles m.kind) (roles_as_device m.devices) ∙ ok))
      (rows-dump (λ _. Unit {0}) dump_mapping load_mapping_entry as_mapping
        (λ p _. load_mapping_entry-dump p) m.interface_mapping _ mappings
        (All-of_mem (λ _. Unit {0}) m.interface_mapping (λ _ _. tt)))
      (rows-dump (λ r. r.port ≢ some "all") dump_capture load_capture as_capture load_capture-dump
        m.captures _ captures storable.ports)
      profile group created_by

load_mapping_of-data :
    (path : String) (m : RunManifest)
    → load_mapping_of path (of_dict (manifest_data m)) ≡ load_fields path (manifest_data m)
unfolding manifest_data value_at Dict.get
load_mapping_of-data path m = ap (load_fields path) (entries_of-fields_of (manifest_data m))

-- What was saved passed the rules of its kind, and its text is the dumped dictionary.
saved_of :
    (ruled : Result (Unit {0})) (dumped text : String)
    → (ruled >>= λ _. returns dumped) ≡ returns text
    → (ruled ≡ returns tt) × (dumped ≡ text)
saved_of (returns u) dumped text e = (refl, ground (arith, e))
saved_of (raises message) dumped text e = absurd (ground (arith, e))

-- Let YAML load what it dumped for this manifest. If the manifest is saved (the devices suit its kind),
-- its roles are valid and no port is named "all", then loading the saved text gives the manifest
-- itself, field by field.
pub load_manifest-save_manifest :
    (safe_load : String → Result Value) (safe_dump : Value → String) (path text : String)
    (m : RunManifest)
    → safe_load (safe_dump (of_dict (manifest_data m))) ≡ returns (of_dict (manifest_data m))
    → IsStorable m
    → save_manifest safe_dump m ≡ returns text
    → load_manifest safe_load path text ≡ returns (as_loaded m)
unfolding load_manifest save_manifest manifest_data
load_manifest-save_manifest safe_load safe_dump path text m yaml storable saved =
    let (ok, same) =
      saved_of (check_kind_devices m.kind m.devices) (safe_dump (of_dict (manifest_data m))) text
        saved in
    ap (λ s. load_manifest safe_load path s) (sym same)
    ∙ ap (λ r. r >>= λ raw. load_mapping_of path (if truthy raw then raw else of_dict [])) yaml
    ∙ load_mapping_of-data path m
    ∙ load_fields-data path m storable ok
