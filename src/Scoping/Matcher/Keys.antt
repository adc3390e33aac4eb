-- ===== src/Scoping/Matcher/Keys.antt =====
-- The keys of a scope under each rule, the rules, and the index of the scopes by their keys
-- (migration_validator/scoping/matcher.py). The standard library's `ipaddress.ip_interface` is a
-- parameter: none where it raises ValueError.
use migration_status_check.Base.Dict.{Dict}
use migration_status_check.Base.{
  ℕ, String, Option, none, some, List, [], ◌∷◌, ◌++◌, map, leb, if◌then◌else◌, Eq, ◌==◌, string_eq,
  Bool, true, false, ◌&&◌, ◌≡◌, refl, ◌↔◌, eq_iff, arith,
}
use migration_status_check.Models.Scope.{Scope}
use migration_status_check.Scoping.Matcher.{ScopeObject, append_at}

-- `str(interface)`, `str(interface.network)` and `interface.network.num_addresses`
pub record IpInterface : Type 0 where
  pub text : String
  pub network : String
  pub num_addresses : ℕ

abbrev pub Key : Type 0
Key = List String

abbrev pub key_beq : Key → Key → Bool
key_beq [] [] = true
key_beq (a ∷ xs) (b ∷ ys) = a == b && key_beq xs ys
key_beq _ _ = false

pub key_beq_iff : (k j : Key) → (key_beq k j ≡ true) ↔ (k ≡ j)
key_beq_iff [] [] = (λ h. refl, λ h. refl)
key_beq_iff [] (b ∷ ys) = (λ h. cc, λ h. cc)
key_beq_iff (a ∷ xs) [] = (λ h. cc, λ h. cc)
key_beq_iff (a ∷ xs) (b ∷ ys) = ground (arith, eq_iff a b, key_beq_iff xs ys)

instance abbrev pub key_eq : Eq Key
key_eq = record { test = key_beq; test_iff = key_beq_iff }

-- `_keys_description_subtype`
unfoldable pub keys_description_subtype : Scope → List Key
keys_description_subtype s = elim s.key [
  | none ↦ []
  | some k ↦ elim k.description [
    | none ↦ []
    | some d ↦ elim k.service_subtype [ none ↦ [] | some t ↦ (d ∷ k.service_type ∷ t ∷ []) ∷ [] ]
  ]
]

-- `_keys_description`
unfoldable pub keys_description : Scope → List Key
keys_description s = elim s.key [
  | none ↦ []
  | some k ↦ elim k.description [ none ↦ [] | some d ↦ (d ∷ k.service_type ∷ []) ∷ [] ]
]

-- `_keys_routing_instance`
unfoldable pub keys_routing_instance : Scope → List Key
keys_routing_instance s = elim s.key [
  | none ↦ []
  | some k ↦ map (λ instance_of. instance_of ∷ k.service_type ∷ []) s.selectors.routing_instances
]

-- `_keys_vlan`
unfoldable pub keys_vlan : Scope → List Key
keys_vlan s = elim s.key [
  | none ↦ []
  | some k ↦ map (λ vlan. vlan ∷ k.service_type ∷ []) s.selectors.vlans
]

pub record Rule : Type 0 where
  pub method : String
  pub confidence : String
  pub keys_of : Scope → List Key

module _ (ip_interface : String → Option IpInterface) where
  -- A prefix of at most four addresses counts by its own address, a larger one by its network.
  unfoldable pub subnet_key : String → IpInterface → Key
  subnet_key type_of i = (if leb i.num_addresses 4 then i.text else i.network) ∷ type_of ∷ []

  -- The loop of `_keys_subnet`
  unfoldable pub subnet_keys : String → List String → List Key
  subnet_keys type_of [] = []
  subnet_keys type_of (a ∷ rest) = elim (ip_interface a) [
    | none ↦ subnet_keys type_of rest
    | some i ↦ subnet_key type_of i ∷ subnet_keys type_of rest
  ]

  -- `_keys_subnet`
  unfoldable pub keys_subnet : Scope → List Key
  keys_subnet s = elim s.key [
    | none ↦ []
    | some k ↦ subnet_keys k.service_type (s.selectors.local_ipv4 ++ s.selectors.local_ipv6)
  ]

  -- `RULES`
  unfoldable pub rules : List Rule
  rules =
      record {
        method = "description+service_type+service_subtype";
        confidence = "high";
        keys_of = keys_description_subtype;
      }
      ∷ record {
        method = "description+service_type";
        confidence = "high";
        keys_of = keys_description;
      }
      ∷ record {
        method = "routing_instance+service_type";
        confidence = "medium";
        keys_of = keys_routing_instance;
      }
      ∷ record { method = "subnet+service_type"; confidence = "medium"; keys_of = keys_subnet }
      ∷ record { method = "vlan+service_type"; confidence = "low"; keys_of = keys_vlan }
      ∷ []

-- The inner loop of `_index`
unfoldable pub index_scope :
    Dict Key (List ScopeObject) → List Key → ScopeObject → Dict Key (List ScopeObject)
index_scope index [] o = index
index_scope index (k ∷ ks) o = index_scope (append_at index k o) ks o

abbrev pub index_from :
    (Scope → List Key)
    → Dict Key (List ScopeObject)
    → List ScopeObject
    → Dict Key (List ScopeObject)
index_from keys_of index [] = index
index_from keys_of index (o ∷ os) = index_from keys_of (index_scope index (keys_of o.scope) o) os

-- `_index`
unfoldable pub index_by : (Scope → List Key) → List ScopeObject → Dict Key (List ScopeObject)
index_by keys_of scopes = index_from keys_of [] scopes
