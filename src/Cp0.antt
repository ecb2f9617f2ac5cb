-- ===== src/Cp0.antt =====
-- CP0_IPE.h and CP0_IPE.cpp: the coprocessor 0 register file of one core. `reg` points to
-- 32 * 8 words of the guest data area, addressed by `reg * CP0_NO_OF_SELECT + sel`; here it is a
-- function of that index.
pub mod Registers
pub mod Init
pub mod Access
pub mod Modes
use type_ii_hypervisor_code.Common.{
  ℕ, ◌+◌, ◌*◌, ◌/◌, ◌%◌, ◌^◌, bit_and, bit_or, Bool, not, ◌&&◌, ◌==◌, ltb, if◌then◌else◌,
}
use type_ii_hypervisor_code.Word.{has, shl, shr, u32, add64}
use Registers.{h2_cp0_count, h2_cp0_status, h2_cp0_cause, h2_cp0_ebase_1, h2_cp0_cvmcount_6}

abbrev pub Regs : Type 0
Regs = ℕ → ℕ

abbrev pub slot : ℕ → ℕ → ℕ
slot reg sel = reg * 8 + sel

-- `this->reg[i] = v`.
unfoldable pub set_slot : Regs → ℕ → ℕ → Regs
set_slot regs i v j = if j == i then v else regs j

-- `a = (a << 32) >> 32`.
unfoldable pub low_half : ℕ → ℕ
low_half a = shr (shl a 32) 32

unfoldable pub reserved_bits : ℕ → ℕ → ℕ → ℕ
unfolding low_half
reserved_bits reg sel a =
    if reg == 1
    then (if sel == 0 then low_half (bit_and a 0x3f) else a)
    else if reg == 4
    then (if sel == 0 then bit_and a 0xffff_ffff_ffff_fff0 else a)
    else if reg == 5
    then (if sel == 1 then low_half (bit_and a 0xe000_0000) else a)
    else if reg == 6
    then (if sel == 0 then low_half (bit_and a 0x3f) else a)
    else if reg == 7
    then (if sel == 0 then low_half (bit_and a 0xc000_000f) else a)
    else if reg == 9
    then (if sel == 0 then bit_and a 0xffff_ffff else a)
    else if reg == 11
    then (if sel == 0 then bit_and a 0xffff_ffff else a)
    else if reg == 12
    then (if sel == 0
        then low_half (bit_and a 0x50f8_ffff)
        else if sel == 1
        then low_half (bit_and a 0xfc00_0000)
        else if sel == 2
        then bit_and a 0
        else a)
    else if reg == 13
    then (if sel == 0 then low_half (bit_and a 0xfcc0_ff7c) else a)
    else if reg == 15
    then (if sel == 0
        then a
        else if sel == 1
        then low_half (bit_or (bit_and a 0xbfff_f3ff) 0x8000_0000)
        else a)
    else if reg == 16
    then (if sel == 0 then bit_or (bit_and a 0x8000_c48f) 0x8000_4488 else a)
    else if reg == 20
    then (if sel == 0 then bit_and a 0xffff_ffff_ffff_fff0 else a)
    else a

unfoldable pub read : Regs → ℕ → ℕ → ℕ
read regs reg sel = regs (slot reg sel)

unfoldable pub write : Regs → ℕ → ℕ → ℕ → Regs
unfolding set_slot
write regs val reg sel = set_slot regs (slot reg sel) (reserved_bits reg sel val)

abbrev pub kernel_mode : ℕ
kernel_mode = 0

abbrev pub supervisor_mode : ℕ
supervisor_mode = 1

abbrev pub user_mode : ℕ
user_mode = 2

-- The operating mode; ERL or EXL (mask 6) turn any other mode into kernel mode.
unfoldable pub get_ksu : Regs → ℕ
unfolding has
get_ksu regs =
    let status = u32 (regs (slot h2_cp0_status 0)) in
    let mode = shr (bit_and status 0x18) 3 in
    if not (mode == kernel_mode) then (if has status 6 then kernel_mode else mode) else mode

-- A pending and unmasked request (IP and IM fields, 0xff00), with IE = 1, EXL = 0, ERL = 0.
unfoldable pub is_interrupt_pending : Regs → Bool
is_interrupt_pending regs =
    let status = regs (slot h2_cp0_status 0) in
    let cause = bit_and (regs (slot h2_cp0_cause 0)) (bit_and status 0xff00) in
    ltb 0 cause && (bit_and status 7 == 1)

unfoldable pub inc_cvm_count : Regs → Regs
unfolding set_slot
inc_cvm_count regs = let i = slot h2_cp0_cvmcount_6 6 in set_slot regs i (add64 (regs i) 1)

-- The new register file and the returned count; bit 27 of Cause disables counting.
unfoldable pub inc_and_get_count : Regs → Regs × ℕ
unfolding set_slot has
inc_and_get_count regs =
    let count = regs (slot h2_cp0_count 0) in
    if not (has (regs (slot h2_cp0_cause 0)) 0x0800_0000)
    then (let next = bit_and (add64 count 1) 0xffff_ffff in
        (set_slot regs (slot h2_cp0_count 0) next, next))
    else (regs, count)

unfoldable pub corenum : Regs → ℕ
corenum regs = u32 (bit_and (regs (slot h2_cp0_ebase_1 1)) 0x3ff)
