-- ===== src/Tests/Threads.antt =====
-- The memory map under several threads, at concrete inputs.
use type_ii_hypervisor_code.Common.{◌≡◌, refl, arith, Result}
use type_ii_hypervisor_code.Word.{add64}
use type_ii_hypervisor_code.MemoryMap.{get_base_and_offset, translate_gpa_to_hva, gpa_to_hva}
use type_ii_hypervisor_code.MemoryMap.Threads.{
  Thread, Shared, Step, Reach, moved, look_up, Reach-settles,
}
use type_ii_hypervisor_code.Tests.Cores.{no_map, memory}

abbrev resting : Shared
resting = record { regions = memory; thread = λ k. Thread.outside }

-- Thread 7 has looked up another address of the same region.
abbrev looked : Shared
looked = moved resting 7 memory (look_up memory 0x5678)

Reach-settles_example :
    (gpa_to_hva 0 no_map memory 0x1234 ≡ Result.ok (add64 0x7f00_0000_0000 0x1234, memory))
    × (look_up memory 0x1234 ≡ Thread.returned (add64 0x7f00_0000_0000 0x1234))
unfolding get_base_and_offset translate_gpa_to_hva
Reach-settles_example =
    Reach-settles 0 no_map resting looked 0x1234 (λ h. omega arith) (λ i. refl)
      (Reach.next Reach.here (Step.calls resting 7 0x5678 refl))
