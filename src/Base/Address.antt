-- ===== src/Base/Address.antt =====
-- `ipaddress.ip_address(text).version` of the standard library: the family of an address, none where
-- it raises a ValueError.
mod Tests
use Prim.Native.Nat.{ℕ, zero, suc, ◌+◌, ◌-◌, ◌*◌}
use Prim.Native.Char.{Char, code}
use Prim.Native.String.{String}
use mathlib.Core.Bool.{Bool, true, false, not, ◌&&◌, ◌||◌}
use mathlib.Core.Option.{Option, none, some}
use mathlib.Core.List.{List, [], ◌∷◌}
use migration_status_check.Base.Equality.{leb, ◌==◌, nat_eq, if◌then◌else◌}
use migration_status_check.Base.Lists.{length, all}

abbrev pub chars : String → List Char
chars Prim.Native.String.[] = []
chars (Prim.Native.String.◌∷◌ c s) = c ∷ chars s

abbrev pub add_char : Char → List (List Char) → List (List Char)
add_char c [] = (c ∷ []) ∷ []
add_char c (p ∷ ps) = (c ∷ p) ∷ ps

-- `text.split(separator)`: one piece more than there are separators
unfoldable pub split : ℕ → List Char → List (List Char)
split separator [] = [] ∷ []
split separator (c ∷ s) =
    let rest = split separator s in if code c == separator then [] ∷ rest else add_char c rest

abbrev pub is_between : ℕ → ℕ → Char → Bool
is_between low high c = leb low (code c) && leb (code c) high

abbrev pub is_digit : Char → Bool
is_digit c = is_between b'0' b'9' c

abbrev pub is_hex : Char → Bool
is_hex c = is_digit c || (is_between b'a' b'f' c || is_between b'A' b'F' c)

abbrev pub is_no_text : List Char → Bool
is_no_text [] = true
is_no_text (c ∷ s) = false

abbrev pub value_from : ℕ → List Char → ℕ
value_from n [] = n
value_from n (c ∷ s) = value_from (n * 10 + (code c - b'0')) s

abbrev pub has_leading_zero : List Char → Bool
has_leading_zero (c ∷ d ∷ s) = code c == b'0'
has_leading_zero _ = false

-- One number of an IPv4 address
unfoldable pub is_octet : List Char → Bool
is_octet s =
    not (is_no_text s)
    && (all is_digit s
        && (leb (length s) 3 && (not (has_leading_zero s) && leb (value_from 0 s) 255)))

unfoldable pub is_ipv4 : List Char → Bool
is_ipv4 s = let octets = split b'.' s in length octets == 4 && all is_octet octets

-- One group of an IPv6 address
unfoldable pub is_group : List Char → Bool
is_group s = not (is_no_text s) && (all is_hex s && leb (length s) 4)

abbrev pub contains_code : ℕ → List Char → Bool
contains_code n [] = false
contains_code n (c ∷ s) = code c == n || contains_code n s

-- An IPv4 address in the last group stands for two groups.
abbrev pub last_groups : List Char → Option (List (List Char))
last_groups s =
    if contains_code b'.' s
    then (if is_ipv4 s then some (("0" ∷ []) ∷ ("0" ∷ []) ∷ []) else none)
    else some (s ∷ [])

abbrev pub before : List Char → Option (List (List Char)) → Option (List (List Char))
before g none = none
before g (some gs) = some (g ∷ gs)

abbrev pub expand : List (List Char) → Option (List (List Char))
expand [] = some []
expand (g ∷ []) = last_groups g
expand (g ∷ h ∷ gs) = before g (expand (h ∷ gs))

-- The groups in front of the first empty one and those after it
abbrev pub cut : List (List Char) → List (List Char) × Option (List (List Char))
cut [] = ([], none)
cut ([] ∷ gs) = ([], some gs)
cut (g ∷ gs) = let rest = cut gs in (g ∷ rest.0, rest.1)

-- The groups in front of `::`; a leading colon only starts a `::`.
abbrev pub high_groups : List Char → List (List Char) → Option ℕ
high_groups [] [] = some 0
high_groups [] (m ∷ mid) = none
high_groups g mid = if all is_group (g ∷ mid) then some (length (g ∷ mid)) else none

-- The groups after it; a trailing colon only ends a `::`.
abbrev pub low_groups : List (List Char) → Option ℕ
low_groups [] = none
low_groups ([] ∷ []) = some 0
low_groups gs = if all is_group gs then some (length gs) else none

abbrev pub fits : Option ℕ → Option ℕ → Bool
fits (some high) (some low) = leb (high + low) 7
fits _ _ = false

abbrev pub is_whole : List Char → List (List Char) × Option (List (List Char)) → Bool
is_whole g (mid, none) = all is_group (g ∷ mid) && length (g ∷ mid) == 8
is_whole g (mid, some low) = fits (high_groups g mid) (low_groups low)

abbrev pub are_groups : Option (List (List Char)) → Bool
are_groups none = false
are_groups (some []) = false
are_groups (some (g ∷ gs)) = is_whole g (cut gs)

-- An optional zone after a percent sign
abbrev pub is_zoned : List (List Char) → Bool
is_zoned (address ∷ []) = are_groups (expand (split b':' address))
is_zoned (address ∷ zone ∷ []) = not (is_no_text zone) && are_groups (expand (split b':' address))
is_zoned _ = false

unfoldable pub is_ipv6 : List Char → Bool
is_ipv6 s = not (contains_code b'/' s) && is_zoned (split b'%' s)

unfoldable pub ip_version : String → Option ℕ
ip_version text =
    let s = chars text in if is_ipv4 s then some 4 else if is_ipv6 s then some 6 else none
