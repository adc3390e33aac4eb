-- ===== src/Lib.antt =====
-- Verification of the evaluation core of the migration validator.
--
-- The program captures snapshots of network devices before and after a migration, matches the
-- services of the two, runs checks on every service and reports a status. These files model the
-- parts that decide, not the ones that talk to devices or render:
--
--   Base          names, lists, dictionaries in order of insertion, results that may raise, sorting,
--                 decimal texts and the families of addresses
--   Models        migration_validator/models: Status and Finding (result.py: Status, worst,
--                 count_statuses, derive_status, Finding, CheckResult), Scope (scope.py: ScopeKey,
--                 Selectors, Scope, deactivation_reason; Select: owns_bgp_peer, owns_bfd_session,
--                 _by_key, route_key; Select/Areas: Scope.select), Value (dynamic values of YAML
--                 and JSON, read in Access), JsonSafe (jsonsafe.py), Snapshot (snapshot.py: the
--                 data and failed_collectors)
--   Checks        migration_validator/config.py (Config), checks/base.py (Framework: run_check and
--                 its guards), checks/deactivation.py, checks/baseline.py, checks/bgp.py (Bgp: the
--                 rows of a session; Bgp/Rows: BgpSessionStateCheck.run), checks/bfd.py (Bfd),
--                 checks/ifaces.py (Ifaces: InterfaceStateCheck; Ifaces/Errors:
--                 InterfaceErrorsCheck)
--   Runs          migration_validator/runs: manifest.py (Manifest: devices, mappings, captures;
--                 Manifest/File: load_manifest, save_manifest; Manifest/Loaded: what is loaded), pairing.py (Pairing: plan_evaluations)
--   Scoping       migration_validator/scoping: mapping.py (Mapping: Selector.matches, is_ignored),
--                 matcher.py (Matcher: Keys has the rules, Manual _apply_manual, Survey the first
--                 pass of a rule, Match the second pass and match_scopes), linker.py (Linker)
--   Engine        migration_validator/engine.py (Order: the status of a scope, _link_payloads,
--                 _reorder_linked; Ports: _parent_port, _l1_baseline; Layers: _group_by_layer1;
--                 Align: _aligned_baseline_data; Plan: which scopes are evaluated, skipped and
--                 excluded; Run: _run_scope; Unassigned: what no scope claims; Evaluate:
--                 evaluate_snapshots)
--   Gui           migration_validator/gui/sessions.py (Sessions, Throttle), gui/authz.py (Authz),
--                 users.py (Users)
--
-- How they interact: the matcher pairs the scopes of the snapshots, the engine plans a job for each
-- scope, cuts the facts to it by Scope.select, renames the baseline's interfaces to the subject's,
-- runs run_check for every registered check and takes the worst status, the pairing plans which captures of a run
-- are evaluated against which, and the GUI lets an actor in by its session and role.
--
-- Conventions. Methods are functions from the state to the new state. A dict is an association
-- list in order of insertion, a set of addresses or names a list. A function that may raise is a
-- Result; of the messages of exceptions, list reprs and counts are left out. Scopes in the matcher
-- are objects: `address` is id(scope). A candidate of the matcher is always stored together with
-- its scope, so reading the scope back is written as a list of at most one. The dataclass equality
-- of scopes, the tokens, the clocks (in ticks), the reading of `ipaddress.ip_interface`, the
-- membership of an address in a network, the registered checks, the reading and writing of
-- YAML and the text of the accounts file are parameters. A fact of a shape that no collector produces reads as empty. Decimal values are `real n k` for n / 10 ^ k. Every loop is
-- structural recursion on the list it walks, so no fuel is used.
--
-- Not modelled: network and device access, the collectors, the XML parsers, the protocol checks but
-- those of BGP and BFD sessions and of the state and the errors of interfaces, the counts of prefixes (they compute with floats), the building of scopes from the inventory, the command line, the HTTP routes, rendering,
-- reading and writing of files, and password hashing.
pub mod Base
pub mod Models
pub mod Checks
pub mod Runs
pub mod Scoping
pub mod Gui
pub mod Engine
