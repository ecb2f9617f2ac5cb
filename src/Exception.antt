-- ===== src/Exception.antt =====
-- ExceptionHandler_IPE.h and .cpp: entering an exception. `none` is the `exit(1)` of the switch's
-- default case; a result is the address of the handler and the new registers.
pub mod Entry
use mathlib.Core.Option
use type_ii_hypervisor_code.Common.{
  ℕ, ◌+◌, ◌*◌, ◌-◌, ◌^◌, ◌%◌, ◌/◌, bit_and, bit_or, Bool, not, ◌&&◌, ◌||◌, ◌==◌, leb, ltb,
  if◌then◌else◌, Option, none, some,
}
use type_ii_hypervisor_code.Word.{has, not64, add64, shl, shr, sext32}
use type_ii_hypervisor_code.Cp0.{Regs, read, write}
use type_ii_hypervisor_code.Context.{Context, get_ldst, get_pc}

abbrev pub exc_int : ℕ
exc_int = 0

abbrev pub tlb_mod : ℕ
tlb_mod = 1

abbrev pub tlbl : ℕ
tlbl = 2

abbrev pub tlbs : ℕ
tlbs = 3

abbrev pub adel : ℕ
adel = 4

abbrev pub ades : ℕ
ades = 5

abbrev pub scall : ℕ
scall = 8

abbrev pub trap : ℕ
trap = 13

abbrev pub tlb_inv : ℕ
tlb_inv = 14

-- The switch on `exp_type`; 6 and 7 (bus errors) have no case.
unfoldable pub cause_exc_code : ℕ → Context → Option ℕ
unfolding get_ldst
cause_exc_code exp_type context =
    if leb exp_type ades || leb scall exp_type && leb exp_type trap
    then some exp_type
    else if exp_type == tlb_inv
    then some (tlbl + get_ldst context)
    else none

-- The entry point: `status` and `ebase` as read at entry, `cause` with its new code.
unfoldable pub entry_point : ℕ → ℕ → ℕ → ℕ → ℕ
unfolding has
entry_point status cause ebase exp_type =
    let offset =
      if (exp_type == tlbl || exp_type == tlbs) && not (has status 2)
      then 0x80
      else if exp_type == exc_int && has cause 0x0080_0000
      then 0x200
      else 0x180 in
    if has status 0x0040_0000
    then sext32 (0xbfc0_0200 + offset)
    else sext32 (add64 (bit_and ebase (not64 0x3ff)) offset)

-- The part behind the switch, with the code it chose.
unfoldable pub enter : Regs → ℕ → ℕ → ℕ → Context → ℕ × Regs
unfolding entry_point read write get_pc has
enter regs gva exp_type code context =
    let cause = bit_or (bit_and (read regs 13 0) (not64 0x7c)) (code * 4) in
    let status = read regs 12 0 in
    let ebase = read regs 15 1 in
    let regs₁ = write regs gva 8 0 in
    let regs₂ = write regs₁ cause 13 0 in
    let new_pc = entry_point status cause ebase exp_type in
    if not (has status 2)
    then (let regs₃ = write regs₂ (get_pc context) 14 0 in
        (new_pc, write regs₃ (bit_or status 2) 12 0))
    else (let regs₃ = write regs₂ (get_pc context) 30 0 in
        (new_pc, write regs₃ (bit_or status 4) 12 0))

unfoldable pub perform_exception : Regs → ℕ → ℕ → Context → Option (ℕ × Regs)
perform_exception regs gva exp_type context =
    Option.map (λ code. enter regs gva exp_type code context) (cause_exc_code exp_type context)

-- The registers that a refill handler reads, set from the faulting address.
unfoldable pub tlb_registers : Regs → ℕ → Regs
unfolding read write
tlb_registers regs gva =
    let xcontext = bit_and (read regs 20 0) 0xffff_fc00_0000_0000 in
    let context = bit_and (read regs 4 0) 0xffff_ffff_ff80_0000 in
    let entry_hi = bit_and (read regs 10 0) 0xff in
    let region = bit_and gva (shl 0x3 62) in
    let vpn = bit_and (bit_and gva (not64 0x1fff)) 0x1_ffff_ffff_ffff in
    let regs₁ = write regs (bit_or entry_hi (bit_or vpn region)) 10 0 in
    let regs₂ = write regs₁ (bit_or xcontext (bit_or (shr region 22) (shr vpn 9))) 20 0 in
    write regs₂ (bit_or context (bit_and (shr vpn 9) 0x007f_fff0)) 4 0

unfoldable pub tlb_excep : Regs → ℕ → ℕ → Context → Option (ℕ × Regs)
tlb_excep regs gva exp_type context =
    perform_exception (tlb_registers regs gva) gva exp_type context
