-- ===== src/Gui/Users.antt =====
-- The accounts of the GUI, read from a file whose contents are cached by its modification time, size
-- and inode (migration_validator/users.py). The file is none where it does not exist; what
-- `load` makes of its text is the field `users`.
pub mod Laws
mod Tests
use migration_status_check.Base.Dict
use migration_status_check.Base.Dict.{Dict}
use migration_status_check.Base.Results.{Result, returns, raises}
use migration_status_check.Base.{
  ℕ, String, Bool, false, ◌&&◌, Option, none, some, List, [], ◌∷◌, ◌==◌, string_eq, nat_eq,
  contains, if◌then◌else◌, concat,
}

pub record User : Type 0 where
  pub username : String
  pub role : String
  pub password_hash : String

abbrev pub allowed_roles : List String
allowed_roles = "viewer" ∷ "operator" ∷ "admin" ∷ []

-- `validate_role`
unfoldable pub validate_role : String → Result (Unit {0})
validate_role role =
    if contains allowed_roles role
    then returns tt
    else raises (concat ("neznama role '" ∷ role ∷ "' (zname: admin, operator, viewer)" ∷ []))

pub record Stamp : Type 0 where
  pub mtime : ℕ
  pub size : ℕ
  pub inode : ℕ

pub record UsersFile : Type 0 where
  pub stamp : Stamp
  pub users : Result (Dict String User)

pub record Cache : Type 0 where
  pub key : Option Stamp
  pub users : Dict String User

pub record UserStore : Type 0 where
  pub cache : Option Cache

-- `UserStore.load`
unfoldable pub load : Option UsersFile → Result (Dict String User)
load none = returns []
load (some f) = f.users

abbrev pub stamp_of : Option UsersFile → Option Stamp
stamp_of none = none
stamp_of (some f) = some f.stamp

abbrev pub same_stamp : Stamp → Stamp → Bool
same_stamp a b = a.mtime == b.mtime && (a.size == b.size && a.inode == b.inode)

-- `cache[0] == key and key is not None`
abbrev pub is_current : Option Stamp → Option Stamp → Bool
is_current (some a) (some b) = same_stamp a b
is_current _ _ = false

abbrev pub read_into :
    UserStore → Option Stamp → Result (Dict String User) → String → Result (Option User) × UserStore
read_into store key (raises e) username = (raises e, store)
read_into store key (returns us) username =
    (returns (Dict.get us username), record { cache = some (record { key = key; users = us }) })

-- `UserStore.get`: a file that cannot be read leaves the cache as it is.
unfoldable pub get_user : UserStore → Option UsersFile → String → Result (Option User) × UserStore
get_user store file username = elim store.cache [
  | none ↦ read_into store (stamp_of file) (load file) username
  | some c ↦
      if is_current c.key (stamp_of file)
      then (returns (Dict.get c.users username), store)
      else read_into store (stamp_of file) (load file) username
]
