-- ===== src/Postgres/Checkpoints/Int32.antt =====
-- internal/adapters/postgres/postgres.go and internal/api/snapshot.go: the conversion to `int32`.
use delta_works.Base.{ℕ, ◌^◌, ◌<◌, ◌≡◌, arith}
use delta_works.Decimal.Integers.{ℤ, pos, negsuc}
use delta_works.Postgres.Checkpoints.{bits32, signed32, int32}

-- The integers that 32 bits can hold.
abbrev pub FitsInt32 : ℤ → Type 0
FitsInt32 (pos n) = n < 2 ^ 31
FitsInt32 (negsuc n) = n < 2 ^ 31

bits32-lt : (n : ℤ) → bits32 n < 2 ^ 32
unfolding bits32
bits32-lt (pos n) = omega arith
bits32-lt (negsuc n) = omega arith

signed32_fits : (b : ℕ) → b < 2 ^ 32 → FitsInt32 (signed32 b)
unfolding signed32
signed32_fits b h = ground arith

fitting : (n : ℤ) → FitsInt32 n → int32 n ≡ n
unfolding bits32 signed32
fitting (pos n) h = ground arith
fitting (negsuc n) h = ground arith

-- A converted integer is one that 32 bits hold, and an integer that they hold is converted to itself.
pub int32_exact : (n : ℤ) → FitsInt32 (int32 n) × (FitsInt32 n → int32 n ≡ n)
int32_exact n = (signed32_fits (bits32 n) (bits32-lt n), fitting n)
