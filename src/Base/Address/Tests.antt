-- ===== src/Base/Address/Tests.antt =====
-- Tests of the address families.
use mathlib.Core.Path.{◌≡◌, refl}
use mathlib.Core.Option.{none, some}
use migration_status_check.Base.Address.{ip_version, is_ipv4, is_ipv6, is_octet, is_group, split}

v4 : ip_version "10.255.0.7" ≡ some 4
unfolding ip_version is_ipv4 is_octet split
v4 = refl

no_octet : ip_version "10.256.0.7" ≡ none
unfolding ip_version is_ipv4 is_octet split is_ipv6 is_group
no_octet = refl

v6 : ip_version "2001:db8::1" ≡ some 6
unfolding ip_version is_ipv4 is_octet split is_ipv6 is_group
v6 = refl

v6_ends : ip_version "fe80::1%ge-0" ≡ some 6
unfolding ip_version is_ipv4 is_octet split is_ipv6 is_group
v6_ends = refl

v6_any : ip_version "::" ≡ some 6
unfolding ip_version is_ipv4 is_octet split is_ipv6 is_group
v6_any = refl

v6_mapped : ip_version "::ffff:10.0.0.1" ≡ some 6
unfolding ip_version is_ipv4 is_octet split is_ipv6 is_group
v6_mapped = refl

no_colon : ip_version ":1::2" ≡ none
unfolding ip_version is_ipv4 is_octet split is_ipv6 is_group
no_colon = refl
