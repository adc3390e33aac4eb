-- ===== src/Runs/Manifest/Kinds.antt =====
-- The devices of a manifest by their roles (migration_validator/runs/manifest.py).
use migration_status_check.Base.Dict.{Dict}
use migration_status_check.Base.{
  ◌≤◌, String, ◌≡◌, ◌≢◌, refl, Bool, List, [], ◌∷◌, string_eq, nat_eq, returns, Returns, filter,
  map, count_by, length, arith, eq_iff,
}
use migration_status_check.Runs.Manifest.{
  RunDevice, RunManifest, has_role, the_only, device_with_role, count_role, count_of_role,
  check_kind_roles, check_kind_devices,
}

pub length-filter {ℓ} :
    {A : Type ℓ} (p : A → Bool) (xs : List A) → length (filter p xs) ≡ count_by p xs
length-filter p [] = refl
length-filter p (x ∷ xs) = ground (arith, length-filter p xs)

the_only-Returns {ℓ} :
    {A : Type ℓ} (message : String) (xs : List A) → length xs ≤ 1 → Returns (the_only message xs)
the_only-Returns message [] h = tt
the_only-Returns message (x ∷ []) h = tt
the_only-Returns message (x ∷ y ∷ rest) h = absurd (omega arith)

device_with_role-Returns :
    (m : RunManifest) (role : String)
    → count_role role m.devices ≤ 1
    → Returns (device_with_role m role)
unfolding device_with_role
device_with_role-Returns m role h =
    the_only-Returns _ (filter (has_role role) m.devices)
      (omega (arith, length-filter (has_role role) m.devices))

count_role-roles :
    (role : String) (devices : Dict String RunDevice)
    → count_of_role role (map (λ e. e.1.role) devices) ≡ count_role role devices
count_role-roles role [] = refl
count_role-roles role (e ∷ es) = ground (arith, count_role-roles role es)

-- A migration has at most one old and one new box, and no single one.
pub check_kind_devices-migration :
    (kind : String) (devices : Dict String RunDevice)
    → check_kind_devices kind devices ≡ returns tt
    → kind ≢ "single"
    → (count_role "single" devices ≡ 0)
      × (count_role "old" devices ≤ 1)
      × (count_role "new" devices ≤ 1)
unfolding check_kind_devices check_kind_roles
check_kind_devices-migration kind devices ok ne = ground (
  arith,
  eq_iff kind "single",
  count_role-roles "single" devices,
  count_role-roles "old" devices,
  count_role-roles "new" devices,
)

-- In a manifest whose kind and devices were accepted, looking for the old or the new box of a
-- migration never raises.
pub device_with_role_safe :
    (m : RunManifest)
    → check_kind_devices m.kind m.devices ≡ returns tt
    → m.kind ≢ "single"
    → Returns (device_with_role m "old") × Returns (device_with_role m "new")
device_with_role_safe m ok ne =
    let (_, old, new) = check_kind_devices-migration m.kind m.devices ok ne in
    (device_with_role-Returns m "old" old, device_with_role-Returns m "new" new)
