-- ===== src/Engine/Layers.antt =====
-- The blocks of the report under their L1 ports, in the natural order of the ports
-- (`_natural_key`, `_is_l1`, `_group_by_layer1` in migration_validator/engine.py). Digits are those of
-- ASCII.
pub mod Laws
mod Tests
use Prim.Native.Nat.{ℕ, ◌+◌, ◌*◌, ◌-◌}
use Prim.Native.Char.{Char, code}
use migration_status_check.Base.Dict
use migration_status_check.Base.Dict.{Dict}
use migration_status_check.Base.Sort.{sort_by}
use migration_status_check.Base.Address.{chars, is_digit}
use migration_status_check.Base.Results.{Result, returns, raises, ◌>>=◌}
use migration_status_check.Base.{
  String, Bool, true, false, not, Option, none, some, List, [], ◌∷◌, ◌++◌, ◌==◌, string_eq, nat_eq,
  option_eq, filter, ltb, if◌then◌else◌,
}
use migration_status_check.Models.Scope.{ScopeKey, layer1_service_type}
use migration_status_check.Engine.Order.{ScopeResult}
use migration_status_check.Engine.Ports.{parent_port}

-- A part of the key: texts and numbers take turns, beginning with a text.
pub data Part : Type 0 where
  text : List Char → Part
  number : ℕ → Part

abbrev pub push_char : Char → List Part → List Part
push_char c (text s ∷ ps) = text (c ∷ s) ∷ ps
push_char c ps = text (c ∷ []) ∷ ps

-- `_natural_key`, with the number that is being read, if any
unfoldable pub natural_from : Option ℕ → List Char → List Part
natural_from none [] = text [] ∷ []
natural_from (some n) [] = number n ∷ text [] ∷ []
natural_from none (c ∷ s) =
    if is_digit c
    then text [] ∷ natural_from (some (code c - b'0')) s
    else push_char c (natural_from none s)
natural_from (some n) (c ∷ s) =
    if is_digit c
    then natural_from (some (n * 10 + (code c - b'0'))) s
    else number n ∷ push_char c (natural_from none s)

abbrev pub natural_key : String → List Part
natural_key name = natural_from none (chars name)

-- `a <= b` of lists of characters
unfoldable pub chars_le : List Char → List Char → Bool
chars_le [] t = true
chars_le (c ∷ s) [] = false
chars_le (c ∷ s) (d ∷ t) =
    let rest = chars_le s t in if code c == code d then rest else ltb (code c) (code d)

abbrev pub chars_beq : List Char → List Char → Bool
chars_beq [] [] = true
chars_beq (c ∷ s) (d ∷ t) = if code c == code d then chars_beq s t else false
chars_beq _ _ = false

-- `a <= b` of keys: a text never stands against a number.
unfoldable pub key_le : List Part → List Part → Bool
key_le [] ks = true
key_le (p ∷ ps) [] = false
key_le (text s ∷ ps) (text t ∷ ks) =
    let rest = key_le ps ks in if chars_beq s t then rest else chars_le s t
key_le (number n ∷ ps) (number m ∷ ks) = let rest = key_le ps ks in if n == m then rest else ltb n m
key_le (text s ∷ ps) (number m ∷ ks) = false
key_le (number n ∷ ps) (text t ∷ ks) = false

abbrev pub port_le : String → String → Bool
port_le a b = key_le (natural_key a) (natural_key b)

abbrev pub type_of_key : Option ScopeKey → Option String
type_of_key none = none
type_of_key (some k) = some k.service_type

-- `_is_l1`
unfoldable pub is_l1 : ScopeResult → Bool
is_l1 r = type_of_key r.key == some layer1_service_type

-- `{result.scope_id: result for result in results}`
unfoldable pub by_id_from : Dict String ScopeResult → List ScopeResult → Dict String ScopeResult
by_id_from d [] = d
by_id_from d (r ∷ rs) = by_id_from (Dict.put d r.scope_id r) rs

abbrev pub put_port :
    List String → ScopeResult → Dict String ScopeResult → Result (Dict String ScopeResult)
put_port [] r d = raises "IndexError: list index out of range"
put_port (p ∷ ps) r d = returns (Dict.put d p r)

-- `l1_by_port`
unfoldable pub l1_by_port :
    Dict String ScopeResult → List ScopeResult → Result (Dict String ScopeResult)
l1_by_port d [] = returns d
l1_by_port d (r ∷ rs) =
    let found = put_port r.identity.interfaces r d >>= λ more. l1_by_port more rs in
    let passed = l1_by_port d rs in if is_l1 r then found else passed

abbrev pub is_port : String → Option String → Bool
is_port port none = false
is_port port (some p) = p == port

-- `_parent_port(result, by_id) not in l1_by_port`
abbrev pub is_homeless : Dict String ScopeResult → Option String → Bool
is_homeless l1 none = true
is_homeless l1 (some p) = not (Dict.has l1 p)

-- The block of a port: its L1 result and the services on it
unfoldable pub blocks :
    Dict String ScopeResult → List ScopeResult → Dict String ScopeResult → List ScopeResult
blocks by_id services [] = []
blocks by_id services ((port, r) ∷ rest) =
    r ∷ (filter (λ s. is_port port (parent_port by_id s)) services ++ blocks by_id services rest)

unfoldable pub laid_out :
    Dict String ScopeResult → List ScopeResult → Dict String ScopeResult → List ScopeResult
laid_out by_id services l1 =
    blocks by_id services (sort_by (λ a b. port_le a.0 b.0) l1)
    ++ filter (λ s. is_homeless l1 (parent_port by_id s)) services

-- `_group_by_layer1`
unfoldable pub group_by_layer1 : List ScopeResult → Result (List ScopeResult)
group_by_layer1 results = l1_by_port [] results >>= λ l1.
    returns (laid_out (by_id_from [] results) (filter (λ r. not (is_l1 r)) results) l1)
