-- ===== src/Tests/Requests.antt =====
-- The requests of a core at a concrete input.
use type_ii_hypervisor_code.Common.{◌≡◌, refl, arith, Result}
use type_ii_hypervisor_code.Word.{add64}
use type_ii_hypervisor_code.MemoryMap.{get_base_and_offset, translate_gpa_to_hva, gpa_to_hva}
use type_ii_hypervisor_code.Processor.Requests.{tlb_write_i}
use type_ii_hypervisor_code.Dispatch.{Machine, Turn, Run, handle_request}
use type_ii_hypervisor_code.Dispatch.Kept.{Run-translates}
use type_ii_hypervisor_code.Tests.Cores.{no_map, memory, core, storing}

-- A core that asks for `tlbwi`.
abbrev asking : Machine
asking = record {
  access = record storing { core = record core { control_mark = 5 } };
  tlb_data = 0;
  clock = record { start_of_time = 0; start_of_cvm_time = 0 };
  armed = record { tv_sec = 0; tv_nsec = 0 };
}

abbrev written : Machine
written = record asking {
  access = record storing { core = tlb_write_i (record core { control_mark = 5 }) };
}

tlb_written :
    handle_request 0 no_map (λ a. 0) 0 (λ now count. now) asking (record { random = 0; now = 0 })
    ≡ Result.ok written
unfolding handle_request
tlb_written = refl

Run-translates_example :
    gpa_to_hva 0 no_map memory 0x1234 ≡ Result.ok (add64 0x7f00_0000_0000 0x1234, memory)
unfolding get_base_and_offset translate_gpa_to_hva tlb_write_i
Run-translates_example =
    Run-translates 0 no_map (λ a. 0) 0 (λ now count. now) asking written 0x1234
      (Run.next Run.here (Turn.request asking written (record { random = 0; now = 0 }) tlb_written))
      (λ h. omega arith)
