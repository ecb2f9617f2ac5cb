-- ===== src/Cp0/Access.antt =====
-- `ReservedBits`: the shifts of a masked value that fits in the lower half.
use type_ii_hypervisor_code.Common.{ℕ, ◌^◌, ◌<◌, bit_and, ◌≡◌, arith}
use type_ii_hypervisor_code.Word.Bits.{and-lt_right}
use type_ii_hypervisor_code.Cp0.{low_half}

pub low_half-eq : (a : ℕ) → a < 2 ^ 32 → low_half a ≡ a
unfolding low_half
low_half-eq a h = omega arith

pub low_half-mask : (a m : ℕ) → m < 2 ^ 32 → low_half (bit_and a m) ≡ bit_and a m
low_half-mask a m h = low_half-eq _ (and-lt_right 32 a m h)
