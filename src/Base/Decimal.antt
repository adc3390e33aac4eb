-- ===== src/Base/Decimal.antt =====
-- Decimal texts of numbers, as `str` of an int writes them.
use Prim.Native.Nat.{ℕ, zero, suc, ◌+◌, ◌/◌, ◌%◌, ◌^◌}
use Prim.Native.String.{String, ◌++◌, slice}
use mathlib.Core.Bool.{true, false}
use migration_status_check.Base.Equality.{ltb, nat_eq}
use migration_status_check.Base.Integer.{ℤ, pos, negsuc}

abbrev pub digit : ℕ → String
digit d = slice "0123456789" d (d + 1)

-- The digits of a number in front of a text; the fuel is the number of digits at most.
unfoldable pub show_from : ℕ → ℕ → String → String
show_from zero n rest = rest
show_from (suc fuel) n rest = elim (ltb n 10) [
  | true ↦ digit n ++ rest
  | false ↦ show_from fuel (n / 10) (digit (n % 10) ++ rest)
]

-- A number has fewer digits than its successor counts.
unfoldable pub show_nat : ℕ → String
show_nat n = show_from (suc n) n ""

unfoldable pub show_int : ℤ → String
show_int (pos n) = show_nat n
show_int (negsuc n) = "-" ++ show_nat (suc n)

-- `f"{n:+d}"`
unfoldable pub show_signed : ℤ → String
show_signed (pos n) = "+" ++ show_nat n
show_signed (negsuc n) = "-" ++ show_nat (suc n)

abbrev pub pad : ℕ → ℕ → String
pad zero n = ""
pad (suc k) n = pad k (n / 10) ++ digit (n % 10)

-- n / 10 ^ k in positional notation, with at least one digit after the point
unfoldable pub show_decimal : ℕ → ℕ → String
show_decimal n zero = show_nat n ++ ".0"
show_decimal n (suc k) = show_nat (n / 10 ^ suc k) ++ ("." ++ pad (suc k) n)
