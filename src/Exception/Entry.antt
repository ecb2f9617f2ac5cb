-- ===== src/Exception/Entry.antt =====
-- `Perform_Exception`: mode, saved state and entry point.
use type_ii_hypervisor_code.Common.{
  ℕ, ◌*◌, ◌/◌, ◌%◌, ◌^◌, ◌<◌, bit_and, bit_or, ◌≡◌, refl, ◌∙◌, true, false, ◌||◌, arith,
  if◌then◌else◌, inl, inr, Bool-cases,
}
use type_ii_hypervisor_code.Word.{bit, has, not64}
use type_ii_hypervisor_code.Word.Bits.{bit-and, bit-or}
use type_ii_hypervisor_code.Word.Masks.{and-field_mask, and_assoc, insert_field, insert_field_rest}
use type_ii_hypervisor_code.Word.Flags.{has-pow_two}
use type_ii_hypervisor_code.Cp0.{Regs, read, get_ksu, is_interrupt_pending, reserved_bits}
use type_ii_hypervisor_code.Cp0.Access.{low_half-mask}
use type_ii_hypervisor_code.Cp0.Modes.{status_of, cause_of, get_ksu_lem, is_interrupt_pending_iff}
use type_ii_hypervisor_code.Context.{Context, get_pc}
use type_ii_hypervisor_code.Exception.{enter}

-- EXL is set at the first level, ERL when EXL was set already.
abbrev pub level : ℕ → ℕ
level status = if bit status 1 then 4 else 2

-- Status behind `enter`.
enter-status :
    (regs : Regs) (gva t code : ℕ) (context : Context)
    → status_of (enter regs gva t code context).1
      ≡ bit_and (bit_or (status_of regs) (level (status_of regs))) 0x50f8_ffff
unfolding enter reserved_bits
enter-status regs gva t code context =
    let s = status_of regs in
    elim (Bool-cases (bit s 1)) [
      | inl set ↦ rw (has-pow_two s 1, set) (low_half-mask (bit_or s 4) 0x50f8_ffff (omega arith))
      | inr clear ↦
          rw (has-pow_two s 1, clear) (low_half-mask (bit_or s 2) 0x50f8_ffff (omega arith))
    ]

status_mask_bits :
    (bit 0x50f8_ffff 1 ≡ true) × (bit 0x50f8_ffff 2 ≡ true) × (bit 2 1 ≡ true) × (bit 4 2 ≡ true)
unfolding bit
status_mask_bits = (refl, refl, refl, refl)

entered-levels :
    (s : ℕ) → let t = bit_and (bit_or s (level s)) 0x50f8_ffff in bit t 1 || bit t 2 ≡ true
entered-levels s =
    let x = bit_or s (level s) in
    ground (
      arith,
      status_mask_bits,
      bit-and x 0x50f8_ffff 1,
      bit-and x 0x50f8_ffff 2,
      bit-or s (level s) 1,
      bit-or s (level s) 2,
    )

-- Behind every exception the core is in kernel mode, with interrupts held off.
pub enter-kernel :
    (regs : Regs) (gva t code : ℕ) (context : Context)
    → let after = (enter regs gva t code context).1 in
      (get_ksu after ≡ 0) × (is_interrupt_pending after ≡ false)
enter-kernel regs gva t code context =
    let after = (enter regs gva t code context).1 in
    let s : bit (status_of after) 1 || bit (status_of after) 2 ≡ true =
      rw (enter-status regs gva t code context) (entered-levels (status_of regs)) in
    (
      rw (get_ksu_lem after, s),
      elim (Bool-cases (is_interrupt_pending after)) [
        | inl pending ↦
            let (n, lt, p, q, on) = (is_interrupt_pending_iff after).0 pending in ground arith
        | inr quiet ↦ quiet
      ],
    )

-- Cause with a new code, as `enter` stores it.
abbrev pub stored_cause : ℕ → ℕ → ℕ
stored_cause c code = bit_and (bit_or (bit_and c (not64 0x7c)) (code * 4)) 0xfcc0_ff7c

pub stored_cause_fields :
    (c code : ℕ)
    → code < 32
    → c < 2 ^ 64
    → (stored_cause c code / 4 % 32 ≡ code)
      × (bit_and (stored_cause c code) 0xff00 ≡ bit_and c 0xff00)
stored_cause_fields c code h small =
    let x = bit_or (bit_and c (not64 0x7c)) (code * 4) in
    let fits : bit_and (code * 4) 0x7c ≡ code * 4 = omega (arith, and-field_mask 2 5 (code * 4)) in
    let field : bit_and (stored_cause c code) 0x7c ≡ code * 4 =
      and_assoc x 0xfcc0_ff7c 0x7c ∙ insert_field c 0x7c (code * 4) (omega arith) fits in
    (
      omega (arith, field, and-field_mask 2 5 (stored_cause c code)),
      and_assoc x 0xfcc0_ff7c 0xff00
          ∙ insert_field_rest c 0x7c (code * 4) 0xff00 (omega arith) fits small refl,
    )

pub enter-cause :
    (regs : Regs) (gva t code : ℕ) (context : Context)
    → cause_of (enter regs gva t code context).1 ≡ stored_cause (cause_of regs) code
unfolding enter reserved_bits
enter-cause regs gva t code context =
    let c = bit_or (bit_and (cause_of regs) (not64 0x7c)) (code * 4) in
    elim (Bool-cases (has (status_of regs) 2)) [
      | inl set ↦ rw set (low_half-mask c 0xfcc0_ff7c (omega arith))
      | inr clear ↦ rw clear (low_half-mask c 0xfcc0_ff7c (omega arith))
    ]

enter-bad_address :
    (regs : Regs) (gva t code : ℕ) (context : Context)
    → read (enter regs gva t code context).1 8 0 ≡ gva
unfolding enter reserved_bits
enter-bad_address regs gva t code context = elim (Bool-cases (has (status_of regs) 2)) [
  | inl set ↦ rw set
  | inr clear ↦ rw clear
]

enter-epc :
    (regs : Regs) (gva t code : ℕ) (context : Context)
    → bit (status_of regs) 1 ≡ false
    → let after = (enter regs gva t code context).1 in
      (read after 14 0 ≡ get_pc context) × (read after 30 0 ≡ read regs 30 0)
unfolding enter reserved_bits
enter-epc regs gva t code context clear = rw (has-pow_two (status_of regs) 1, clear) (refl, refl)

enter-error_epc :
    (regs : Regs) (gva t code : ℕ) (context : Context)
    → bit (status_of regs) 1 ≡ true
    → let after = (enter regs gva t code context).1 in
      (read after 30 0 ≡ get_pc context) × (read after 14 0 ≡ read regs 14 0)
unfolding enter reserved_bits
enter-error_epc regs gva t code context set = rw (has-pow_two (status_of regs) 1, set) (refl, refl)

-- For a code below 32 and a 64-bit Cause: an exception stores the faulting address in BadVAddr and
-- its code in Cause, where the pending interrupts stay; it stores the program counter in EPC, and
-- in ErrorEPC instead if EXL was set; the other of the two stays.
pub enter-records :
    (regs : Regs) (gva t code : ℕ) (context : Context)
    → code < 32
    → cause_of regs < 2 ^ 64
    → let after = (enter regs gva t code context).1 in
      (read after 8 0 ≡ gva)
      × (cause_of after / 4 % 32 ≡ code)
      × (bit_and (cause_of after) 0xff00 ≡ bit_and (cause_of regs) 0xff00)
      × (read after 14 0 ≡ (if bit (status_of regs) 1 then read regs 14 0 else get_pc context))
      × (read after 30 0 ≡ (if bit (status_of regs) 1 then get_pc context else read regs 30 0))
enter-records regs gva t code context h small =
    let fields = stored_cause_fields (cause_of regs) code h small in
    (
      enter-bad_address regs gva t code context,
      rw enter-cause fields.0,
      rw enter-cause fields.1,
      ground (arith, enter-epc regs gva t code context, enter-error_epc regs gva t code context),
      ground (arith, enter-epc regs gva t code context, enter-error_epc regs gva t code context),
    )
