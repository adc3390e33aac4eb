-- ===== src/Runs/Manifest/File/Rules.antt =====
-- A run.yml that loads obeys the rules of the manifest (migration_validator/runs/manifest.py).
use migration_status_check.Base.Dict.{Dict}
use migration_status_check.Base.{
  String, Bool, true, false, not, List, [], ◌∷◌, Result, returns, raises, ◌>>=◌, if◌then◌else◌, ◌≡◌,
  refl, map, All, contains, Bool-cases, inl, inr, string_eq, Ensures, Ensures-bind, of_Ensures,
}
use migration_status_check.Models.Value.{
  Value, null, bool, int, real, nonfinite, str, seq, dict, truthy,
}
use migration_status_check.Models.Value.Access.{value_at, of_dict, entries_of}
use migration_status_check.Runs.Manifest.{check_role, check_kind_roles, valid_roles}
use migration_status_check.Runs.Manifest.Loaded.{LoadedDevice, LoadedManifest}
use migration_status_check.Runs.Manifest.File.{
  load_manifest, load_fields, load_mapping_of, load_devices, load_device, load_each, load_role,
  load_mapping_entry, load_capture, load_kind, table_of, rows_of, prefixed, dict_of, item_at,
  is_schema_version,
}
use migration_status_check.Runs.Manifest.File.Laws.{role_in}

abbrev IsRole : String → Type 0
IsRole role = contains valid_roles role ≡ true

abbrev RoleIsValid : LoadedDevice → Type 0
RoleIsValid d = IsRole d.role

abbrev EntryIsValid : String × LoadedDevice → Type 0
EntryIsValid e = RoleIsValid e.1

-- What the classes and `check_kind_devices` demand of a manifest.
abbrev pub IsValid : LoadedManifest → Type 0
IsValid m =
    (check_kind_roles m.kind (map role_in m.devices) ≡ returns tt) × All EntryIsValid m.devices

Ensures-prefixed {ℓ κ} :
    {A : Type ℓ} (P : A → Type κ) (prefix : List String) (r : Result A)
    → Ensures P r
    → Ensures P (prefixed prefix r)
Ensures-prefixed P prefix (returns a) h = h
Ensures-prefixed P prefix (raises e) h = tt

-- A step that is passed keeps what every continuation ensures.
Ensures-then {ℓ κ μ} :
    {A : Type ℓ} {B : Type κ} (Q : B → Type μ) (r : Result A) (f : A → Result B)
    → ((a : A) → Ensures Q (f a))
    → Ensures Q (r >>= f)
Ensures-then Q (returns a) f k = k a
Ensures-then Q (raises e) f k = tt

check_role-IsRole : (role : String) → Ensures (λ _. IsRole role) (check_role role)
unfolding check_role
check_role-IsRole role = elim (Bool-cases (contains valid_roles role)) [
  | inl q ↦ rw q refl
  | inr q ↦ rw q tt
]

load_role-IsRole : (prefix : List String) (v : Value) → Ensures IsRole (load_role prefix v)
load_role-IsRole prefix (str role) =
    Ensures-bind (λ _. IsRole role) IsRole (prefixed prefix (check_role role)) _
      (Ensures-prefixed (λ _. IsRole role) prefix (check_role role) (check_role-IsRole role))
      (λ _ h. h)
load_role-IsRole prefix null = tt
load_role-IsRole prefix (bool b) = tt
load_role-IsRole prefix (int n) = tt
load_role-IsRole prefix (real n k) = tt
load_role-IsRole prefix (nonfinite x) = tt
load_role-IsRole prefix (seq vs) = tt
load_role-IsRole prefix (dict fs) = tt

load_device-RoleIsValid :
    (path node : String) (stored : Value) → Ensures RoleIsValid (load_device path node stored)
unfolding load_device
load_device-RoleIsValid path node stored = Ensures-then RoleIsValid (dict_of stored) _ λ d.
    Ensures-then RoleIsValid (item_at d "host") _ λ host.
      Ensures-then RoleIsValid (item_at d "platform") _ λ platform.
        Ensures-then RoleIsValid (item_at d "role") _ λ given.
          Ensures-bind IsRole RoleIsValid
            (load_role (path ∷ ": zarizeni '" ∷ node ∷ "': " ∷ []) given) _
            (load_role-IsRole (path ∷ ": zarizeni '" ∷ node ∷ "': " ∷ []) given) (λ role h. h)

load_devices-EntryIsValid :
    (path : String) (entries : Dict String Value)
    → Ensures (All EntryIsValid) (load_devices path entries)
unfolding load_devices
load_devices-EntryIsValid path [] = tt
load_devices-EntryIsValid path ((node, stored) ∷ rest) =
    Ensures-bind RoleIsValid (All EntryIsValid) (load_device path node stored) _
      (load_device-RoleIsValid path node stored)
      (λ device valid.
        Ensures-bind (All EntryIsValid) (All EntryIsValid) (load_devices path rest) _
          (load_devices-EntryIsValid path rest) (λ devices all_valid. (valid, all_valid)))

ruled :
    (prefix : List String) (checked : Result (Unit {0}))
    → Ensures (λ _. checked ≡ returns tt) (prefixed prefix checked)
ruled prefix (returns u) = refl
ruled prefix (raises e) = tt

Ensures-unless {ℓ κ} :
    {A : Type ℓ} (P : A → Type κ) (passed : Bool) (message : String) (r : Result A)
    → Ensures P r
    → Ensures P (if not passed then raises message else r)
Ensures-unless P true message r h = h
Ensures-unless P false message r h = tt

load_kind-ruled :
    (path : String) (roles : List String) (v : Value)
    → Ensures (λ kind. check_kind_roles kind roles ≡ returns tt) (load_kind path roles v)
load_kind-ruled path roles null =
    Ensures-bind (λ _. check_kind_roles "migration" roles ≡ returns tt)
      (λ kind. check_kind_roles kind roles ≡ returns tt) _ _
      (ruled (path ∷ ": " ∷ []) (check_kind_roles "migration" roles)) (λ _ h. h)
load_kind-ruled path roles (str k) =
    Ensures-bind (λ _. check_kind_roles k roles ≡ returns tt)
      (λ kind. check_kind_roles kind roles ≡ returns tt)
      (prefixed (path ∷ ": " ∷ []) (check_kind_roles k roles)) _
      (ruled (path ∷ ": " ∷ []) (check_kind_roles k roles)) (λ _ h. h)
load_kind-ruled path roles (bool b) = tt
load_kind-ruled path roles (int n) = tt
load_kind-ruled path roles (real n k) = tt
load_kind-ruled path roles (nonfinite x) = tt
load_kind-ruled path roles (seq vs) = tt
load_kind-ruled path roles (dict fs) = tt

load_fields-IsValid :
    (path : String) (raw : Dict String Value) → Ensures IsValid (load_fields path raw)
unfolding load_fields
load_fields-IsValid path raw = Ensures-then IsValid (table_of (value_at raw "devices")) _ λ entries.
    Ensures-bind (All EntryIsValid) IsValid (load_devices path entries) _
      (load_devices-EntryIsValid path entries)
      λ devices roles.
        Ensures-bind (λ kind. check_kind_roles kind (map role_in devices) ≡ returns tt) IsValid
          (load_kind path (map role_in devices) (value_at raw "kind")) _
          (load_kind-ruled path (map role_in devices) (value_at raw "kind"))
          λ kind ok.
            Ensures-then IsValid
              (rows_of (value_at raw "interface_mapping") >>= load_each load_mapping_entry) _
              λ mapping.
                Ensures-then IsValid (rows_of (value_at raw "captures") >>= load_each load_capture)
                  _ λ captures. (ok, roles)

load_mapping_of-IsValid : (path : String) (raw : Value) → Ensures IsValid (load_mapping_of path raw)
load_mapping_of-IsValid path (dict fs) =
    Ensures-unless IsValid (is_schema_version (value_at (entries_of fs) "schema_version")) _
      (load_fields path (entries_of fs)) (load_fields-IsValid path (entries_of fs))
load_mapping_of-IsValid path null = tt
load_mapping_of-IsValid path (bool b) = tt
load_mapping_of-IsValid path (int n) = tt
load_mapping_of-IsValid path (real n k) = tt
load_mapping_of-IsValid path (nonfinite x) = tt
load_mapping_of-IsValid path (str s) = tt
load_mapping_of-IsValid path (seq vs) = tt

-- Whatever the file holds, a manifest that loads has devices of valid roles only, and they suit its
-- kind.
pub load_manifest-IsValid :
    (safe_load : String → Result Value) (path text : String) (m : LoadedManifest)
    → load_manifest safe_load path text ≡ returns m
    → IsValid m
unfolding load_manifest
load_manifest-IsValid safe_load path text m loaded =
    of_Ensures IsValid (load_manifest safe_load path text)
      (Ensures-then IsValid (safe_load text) _
        λ raw. load_mapping_of-IsValid path (if truthy raw then raw else of_dict []))
      loaded
