-- ===== src/Base/Int32.antt =====
-- Go's int32 as a bit pattern, a number below 2 ^ 32.
use Prim.Native.Nat.{ℕ, ◌+◌, ◌-◌, ◌/◌, ◌%◌, ◌<◌}
use mathlib.Core.Path.{◌≡◌}
use mathlib.Core.Bool.{Bool}
use native.Mathlib.Omega.{arith}
use tigris.Base.Tests.{ltb, if◌then◌else◌}

-- int32(n) of a number that is not negative.
abbrev pub int32 : ℕ → ℕ
int32 n = n % 4294967296

-- a < b, read with the sign.
abbrev pub slt : ℕ → ℕ → Bool
slt a b = ltb ((a + 2147483648) % 4294967296) ((b + 2147483648) % 4294967296)

-- a / b for b > 0, rounded towards 0.
abbrev pub sdiv : ℕ → ℕ → ℕ
sdiv a b = if ltb a 2147483648 then a / b else (4294967296 - (4294967296 - a) / b) % 4294967296

pub slt-eq-ltb : (a b : ℕ) → a < 2147483648 → b < 2147483648 → slt a b ≡ ltb a b
slt-eq-ltb a b h k = ground arith
