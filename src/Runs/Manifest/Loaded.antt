-- ===== src/Runs/Manifest/Loaded.antt =====
-- A manifest as `load_manifest` builds it from the values of YAML
-- (migration_validator/runs/manifest.py). `as_loaded` is a manifest of texts as such values; both
-- None and the null of YAML are `null`.
use migration_status_check.Base.Dict.{Dict}
use migration_status_check.Base.{String, Option, none, some, List, map}
use migration_status_check.Models.Value.{Value, null, str}
use migration_status_check.Models.Value.Access.{or_null}
use migration_status_check.Runs.Manifest.{
  RunDevice, MappingEndpoint, InterfaceMapping, CaptureRecord, RunManifest,
}

-- What is loaded: the fields that nothing checks hold any value.
pub record LoadedDevice : Type 0 where
  pub host : Value
  pub platform : Value
  pub role : String

pub record LoadedEndpoint : Type 0 where
  pub node : Value
  pub port : Value
  pub l2_switch : Value

pub record LoadedMapping : Type 0 where
  pub old : LoadedEndpoint
  pub new : LoadedEndpoint

pub record LoadedCapture : Type 0 where
  pub phase : Value
  pub device : Value
  pub port : Value
  pub snapshot : Value
  pub taken : Value

pub record LoadedManifest : Type 0 where
  pub devices : Dict String LoadedDevice
  pub interface_mapping : List LoadedMapping
  pub captures : List LoadedCapture
  pub kind : String
  pub profile : Value
  pub group : Value
  pub created_by : Value

-- A manifest of texts, as loaded
abbrev pub text_or_null : Option String → Value
text_or_null none = null
text_or_null (some s) = str s

abbrev pub as_device : RunDevice → LoadedDevice
as_device d = record { host = str d.host; platform = str d.platform; role = d.role }

abbrev pub as_endpoint : MappingEndpoint → LoadedEndpoint
as_endpoint e = record { node = str e.node; port = str e.port; l2_switch = or_null e.l2_switch }

abbrev pub as_mapping : InterfaceMapping → LoadedMapping
as_mapping p = record { old = as_endpoint p.old; new = as_endpoint p.new }

abbrev pub as_capture : CaptureRecord → LoadedCapture
as_capture r = record {
  phase = str r.phase;
  device = str r.device;
  port = text_or_null r.port;
  snapshot = str r.snapshot;
  taken = str r.taken;
}

abbrev pub as_loaded : RunManifest → LoadedManifest
as_loaded m = record {
  devices = map (λ e. (e.0, as_device e.1)) m.devices;
  interface_mapping = map as_mapping m.interface_mapping;
  captures = map as_capture m.captures;
  kind = m.kind;
  profile = text_or_null m.profile;
  group = text_or_null m.group;
  created_by = text_or_null m.created_by;
}
