-- ===== src/Prelude/Int64.antt =====
-- int64 as a bit pattern below 2 ^ 64, in two's complement; comparison goes by the biased value.
use Prim.Native.Nat.{ℕ, ◌+◌, ◌-◌, ◌%◌, ◌^◌, ◌<◌}
use mathlib.Core.Bool.{Bool}
use session_proxy.Prelude.Tests.{ltb}

abbrev pub Int64 : Type 0
Int64 = ℕ

-- The order of int64 is the order of these.
abbrev pub bias : Int64 → ℕ
bias a = (a + 2 ^ 63) % 2 ^ 64

-- a < b on int64
abbrev pub slt : Int64 → Int64 → Bool
slt a b = ltb (bias a) (bias b)

-- a++ on int64
abbrev pub inc : Int64 → Int64
inc a = (a + 1) % 2 ^ 64

abbrev pub max_int64 : Int64
max_int64 = 2 ^ 63 - 1

-- The value -1.
abbrev pub minus_one : Int64
minus_one = 0xffffffffffffffff

-- A number that int64 reads as itself.
abbrev pub IsNat64 : Int64 → Type 0
IsNat64 a = a < 2 ^ 63

-- a + b and a - b on int64
abbrev pub add64 : Int64 → Int64 → Int64
add64 a b = (a + b) % 2 ^ 64

abbrev pub sub64 : Int64 → Int64 → Int64
sub64 a b = (a + 2 ^ 64 - b) % 2 ^ 64
