-- ===== src/Queue.antt =====
-- VirtQueue.h and VirtQueue.cpp: a virtqueue. `Vring` is the structure of virtio_ring.h, of the
-- kernel headers, and `vring_init` is the function of that file.
use type_ii_hypervisor_code.Common.{ℕ, ◌+◌, ◌*◌, ◌%◌, ◌^◌, Result, and_then}
use type_ii_hypervisor_code.MemoryMap.{Regions, Mmap, gpa_to_hva}

pub record VirtQueue (Vring : Type 0) : Type 0 where
  pub gpa : ℕ
  pub hva : ℕ
  pub num_desc : ℕ
  pub last_avail_idx : ℕ
  pub vring : Vring

module _ {Vring : Type 0} (negative : ℕ) (mmap : Mmap) (vring_init : ℕ → ℕ → ℕ → Vring) where
  -- The queue, and the memory map afterwards.
  unfoldable pub create_vring : Regions → ℕ → ℕ → ℕ → Result (VirtQueue Vring × Regions)
  create_vring r num page align = and_then (gpa_to_hva negative mmap r (page * 2 ^ 12)) (λ a.
      Result.ok (
        record {
          gpa = page * 2 ^ 12;
          hva = a.0;
          num_desc = num;
          last_avail_idx = 0;
          vring = vring_init num a.0 align;
        },
        a.1,
      ))

-- A `uint16_t`.
unfoldable pub inc_last_avail_idx : {Vring : Type 0} → VirtQueue Vring → VirtQueue Vring
inc_last_avail_idx q = record q { last_avail_idx = (q.last_avail_idx + 1) % 2 ^ 16 }
