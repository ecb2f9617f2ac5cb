-- ===== src/Mmu/Privileges.antt =====
-- Which addresses each mode may use.
use type_ii_hypervisor_code.Common.{
  ℕ, ◌+◌, ◌-◌, ◌/◌, ◌%◌, ◌^◌, ◌≤◌, ◌<◌, ◌≡◌, ◌⊎◌, ◌↔◌, true, false, arith,
}
use type_ii_hypervisor_code.Word.Masks.{and-low_mask}
use type_ii_hypervisor_code.Cp0.{Regs, get_ksu}
use type_ii_hypervisor_code.Mmu.{verify_priviliges}

-- The upper half of the address is 0 or all ones.
abbrev pub IsCompatible : ℕ → Type 0
IsCompatible addr = (addr < 2 ^ 32) ⊎ (2 ^ 64 - 2 ^ 32 ≤ addr)

-- Of the 64-bit addresses, user mode may use exactly those up to 2 ^ 40 - 1 that are not between 2
-- ^ 31 and 2 ^ 32 - 1, and those from 2 ^ 64 - 2 ^ 32 on with bit 31 clear.
pub verify_priviliges_user_iff :
    (regs : Regs) (addr : ℕ)
    → get_ksu regs ≡ 2
    → addr < 2 ^ 64
    → (verify_priviliges regs addr ≡ true)
      ↔ ((IsCompatible addr × (addr % 2 ^ 32 < 2 ^ 31)) ⊎ ((2 ^ 32 ≤ addr) × (addr < 2 ^ 40)))
unfolding verify_priviliges
verify_priviliges_user_iff regs addr user h =
    (ground (arith, and-low_mask 3 (addr / 2 ^ 29)), ground (arith, and-low_mask 3 (addr / 2 ^ 29)))

-- Supervisor mode may use no address at all: the source joins two inequations by `||`.
verify_priviliges_supervisor :
    (regs : Regs) (addr : ℕ) → get_ksu regs ≡ 1 → verify_priviliges regs addr ≡ false
unfolding verify_priviliges
verify_priviliges_supervisor regs addr mode = ground arith

-- Kernel mode may use every compatible address, and of the others all but the ends of the three
-- mapped segments.
pub verify_priviliges_kernel_iff :
    (regs : Regs) (addr : ℕ)
    → get_ksu regs ≡ 0
    → addr < 2 ^ 64
    → (verify_priviliges regs addr ≡ false) ↔ (
        ((2 ^ 40 ≤ addr) × (addr < 2 ^ 62))
        ⊎ ((2 ^ 62 + 2 ^ 40 ≤ addr) × (addr < 2 ^ 63))
        ⊎ ((2 ^ 63 + 2 ^ 62 + 2 ^ 40 - 2 ^ 31 ≤ addr) × (addr < 2 ^ 64 - 2 ^ 32)))
unfolding verify_priviliges
verify_priviliges_kernel_iff regs addr kernel h = (ground arith, ground arith)
