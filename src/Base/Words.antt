-- ===== src/Base/Words.antt =====
-- The machine words of the emulator, as numbers below `2 ^ w`: casts, shifts, complements and the
-- sign extensions that C++ makes when an `int8_t`, `int16_t` or `int32_t` becomes a `uint64_t`.
use Prim.Native.Nat.{ℕ, ◌+◌, ◌-◌, ◌*◌, ◌/◌, ◌%◌, ◌^◌}
use rremu.Base.Tests.{ltb, if◌then◌else◌}

abbrev pub u64_mod : ℕ
u64_mod = 2 ^ 64

abbrev pub u32_mod : ℕ
u32_mod = 2 ^ 32

-- the casts to `uint64_t` and `uint32_t`
abbrev pub u64 : ℕ → ℕ
u64 x = x % 2 ^ 64

abbrev pub u32 : ℕ → ℕ
u32 x = x % 2 ^ 32

infixl 75 ◌>>>◌
abbrev pub ◌>>>◌ : ℕ → ℕ → ℕ
x >>> k = x / 2 ^ k

-- `x << k` on `uint32_t` and on `uint64_t`
abbrev pub shl32 : ℕ → ℕ → ℕ
shl32 x k = x * 2 ^ k % 2 ^ 32

abbrev pub shl64 : ℕ → ℕ → ℕ
shl64 x k = x * 2 ^ k % 2 ^ 64

-- `~x` on `uint32_t` and on `uint64_t`
abbrev pub not32 : ℕ → ℕ
not32 x = 2 ^ 32 - 1 - x

abbrev pub not64 : ℕ → ℕ
not64 x = 2 ^ 64 - 1 - x

-- `a + b`, `a - b` and `a * b` on `uint64_t`
abbrev pub add64 : ℕ → ℕ → ℕ
add64 a b = (a + b) % 2 ^ 64

abbrev pub sub64 : ℕ → ℕ → ℕ
sub64 a b = (a + 2 ^ 64 - b) % 2 ^ 64

abbrev pub mul64 : ℕ → ℕ → ℕ
mul64 a b = a * b % 2 ^ 64

-- `(uint64_t)(int8_t)x`, `(uint64_t)(int16_t)x` and `(uint64_t)(int32_t)x`
abbrev pub sext8 : ℕ → ℕ
sext8 x = let y = x % 2 ^ 8 in if ltb y (2 ^ 7) then y else y + (2 ^ 64 - 2 ^ 8)

abbrev pub sext16 : ℕ → ℕ
sext16 x = let y = x % 2 ^ 16 in if ltb y (2 ^ 15) then y else y + (2 ^ 64 - 2 ^ 16)

abbrev pub sext32 : ℕ → ℕ
sext32 x = let y = x % 2 ^ 32 in if ltb y (2 ^ 31) then y else y + (2 ^ 64 - 2 ^ 32)
