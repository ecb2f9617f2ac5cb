-- ===== src/Board.antt =====
-- SystemBoard_IPE.h and SystemBoard_IPE.cpp: guest memory with the firmware in it, and the numbers of
-- the cores. The objects of the devices and the threads are left out. Host memory is a function of
-- the address, by bytes, the most significant first; `files` gives what the
-- file holds that a pointer to its path opens.
pub mod Firmware
pub mod Cores
use type_ii_hypervisor_code.Common.{
  ℕ, zero, suc, ◌+◌, ◌*◌, ◌-◌, bit_and, bit_or, if◌then◌else◌, ◌==◌, Option, none, some, List, [],
  ◌∷◌, Result, and_then,
}
use type_ii_hypervisor_code.Word.{not64}
use type_ii_hypervisor_code.Cp0.{Regs, read, write}
use type_ii_hypervisor_code.Cp0.Registers.{h2_cp0_ebase_1}
use type_ii_hypervisor_code.Mmu.{gva_to_gpa_for_fileloading}
use type_ii_hypervisor_code.MemoryMap.{Regions, Mmap, gpa_to_hva, initialize_gpa_subsections}
use type_ii_hypervisor_code.CommandLine.{CString, Specifications}

abbrev pub uboot_load_address : ℕ
uboot_load_address = 0xffff_ffff_bfc0_0000

abbrev pub kernel_load_address : ℕ
kernel_load_address = 0xffff_ffff_a080_0000

abbrev pub npei_dbg_address : ℕ
npei_dbg_address = 0x8001_1f00_0000_8510

abbrev pub npei_dbg_data : List ℕ
npei_dbg_data = 0 ∷ 0 ∷ 0 ∷ 0 ∷ 0x14 ∷ 0x42 ∷ 0 ∷ 0 ∷ []

abbrev pub allocated_memory : ℕ
allocated_memory = 1024 * 1024 * 1024

abbrev pub ebase_corenum_mask : ℕ
ebase_corenum_mask = 0x3ff

abbrev pub Host : Type 0
Host = ℕ → ℕ

unfoldable pub put_bytes : Host → ℕ → List ℕ → Host
put_bytes host addr [] = host
put_bytes host addr (b ∷ bs) = put_bytes (λ a. if a == addr then b else host a) (addr + 1) bs

-- `loadfile`; a file that cannot be opened ends the process.
abbrev pub load_file : Host → ℕ → Option (List ℕ) → Result Host
load_file host addr none = Result.exited
load_file host addr (some bytes) = Result.ok (put_bytes host addr bytes)

-- The number of the i-th core, in EBase.
unfoldable pub number_core : Regs → ℕ → Regs
unfolding read write
number_core regs i =
    write regs (bit_or (bit_and (read regs h2_cp0_ebase_1 1) (not64 ebase_corenum_mask)) i)
      h2_cp0_ebase_1 1

-- The loop over the cores from the i-th on, `left` of them.
unfoldable pub number_cores : ℕ → ℕ → (ℕ → Regs) → ℕ → Regs
unfolding number_core
number_cores zero i cores = cores
number_cores (suc left) i cores =
    number_cores left (i + 1) (λ k. if k == i then number_core (cores i) i else cores k)

module _ (negative : ℕ) (mmap : Mmap) where
  unfoldable pub initialize_system_memory : Regions → Result Regions
  initialize_system_memory r = initialize_gpa_subsections negative mmap r allocated_memory

  -- Without a translation the process ends.
  abbrev pub file_address : Regions → Option ℕ → Result (ℕ × Regions)
  file_address r none = Result.exited
  file_address r (some gpa) = gpa_to_hva negative mmap r gpa

  unfoldable pub initialize_memory_segments : Regions → Host → Result (Host × Regions)
  unfolding put_bytes
  initialize_memory_segments r host =
      and_then (file_address r (gva_to_gpa_for_fileloading npei_dbg_address))
        (λ a. Result.ok (put_bytes host a.0 npei_dbg_data, a.1))

  unfoldable pub load_firmware :
      (CString → Option (List ℕ)) → Specifications → Regions → Host → Result (Host × Regions)
  load_firmware files spec r host =
      and_then (file_address r (gva_to_gpa_for_fileloading uboot_load_address)) (λ u.
        and_then (file_address u.1 (gva_to_gpa_for_fileloading kernel_load_address)) (λ k.
          and_then (load_file host u.0 (files spec.uboot_path)) (λ host₁.
            and_then (load_file host₁ k.0 (files spec.kernel_path))
              (λ host₂. Result.ok (host₂, k.1)))))

  -- The constructor, up to the first object: guest memory, the firmware and the one word that is
  -- not zero.
  unfoldable pub board_memory :
      (CString → Option (List ℕ)) → Specifications → Regions → Host → Result (Host × Regions)
  unfolding initialize_system_memory load_firmware initialize_memory_segments
  board_memory files spec r host =
      and_then (initialize_system_memory r) (λ r'.
        and_then (load_firmware files spec r' host) (λ a. initialize_memory_segments a.1 a.0))
