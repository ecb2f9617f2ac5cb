-- ===== src/Word.antt =====
-- Machine words as native numbers: a `uint64_t` is a number below 2 ^ 64. `x >> k` is `shr`,
-- `x << k` keeps 64 bits, `~x` is the complement in 64 bits, and `&` `|` `^` are the native
-- operations, which need no truncation.
pub mod Bits
pub mod Masks
pub mod Flags
pub mod Fields
use type_ii_hypervisor_code.Common.{
  bit_and, not, ℕ, zero, suc, ◌+◌, ◌-◌, ◌*◌, ◌/◌, ◌%◌, ◌^◌, Bool, ltb, ◌==◌, if◌then◌else◌,
}

abbrev pub u32 : ℕ → ℕ
u32 x = x % 2 ^ 32

abbrev pub u8 : ℕ → ℕ
u8 x = x % 2 ^ 8

abbrev pub shl : ℕ → ℕ → ℕ
shl x k = x * 2 ^ k % 2 ^ 64

abbrev pub shr : ℕ → ℕ → ℕ
shr x k = x / 2 ^ k

-- `~x` on 64 bits.
abbrev pub not64 : ℕ → ℕ
not64 x = 2 ^ 64 - 1 - x

-- `a + b` and `a - b` on `uint64_t`.
abbrev pub add64 : ℕ → ℕ → ℕ
add64 a b = (a + b) % 2 ^ 64

abbrev pub sub64 : ℕ → ℕ → ℕ
sub64 a b = (a + 2 ^ 64 - b) % 2 ^ 64

-- `(int32_t) x` widened to `uint64_t`: the low 32 bits, sign-extended.
abbrev pub sext32 : ℕ → ℕ
sext32 x = let y = x % 2 ^ 32 in if ltb y (2 ^ 31) then y else 2 ^ 64 - 2 ^ 32 + y

-- Bit number i.
unfoldable pub bit : ℕ → ℕ → Bool
bit x zero = x % 2 == 1
bit x (suc i) = bit (x / 2) i

-- `x & m` as a condition.
unfoldable pub has : ℕ → ℕ → Bool
has x m = not (bit_and x m == 0)
