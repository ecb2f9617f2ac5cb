-- ===== src/Vhost/Chains.antt =====
-- Vhost.cpp: a request of direct descriptors, from the queue into the table.
use type_ii_hypervisor_code.Common.{
  ℕ, zero, suc, ◌+◌, ◌-◌, ◌*◌, ◌%◌, ◌^◌, ◌<◌, ◌≤◌, ◌≡◌, refl, ap, sym, ◌∙◌, ◌==◌, ltb, leb, arith,
  if◌then◌else◌, true, false, some, none, Result, and_then,
}
use type_ii_hypervisor_code.Word.{add64, has}
use type_ii_hypervisor_code.MemoryMap.{Regions, Mmap, gpa_to_hva}
use type_ii_hypervisor_code.Queue.{VirtQueue, inc_last_avail_idx}
use type_ii_hypervisor_code.Vhost.{VringDesc, GuestRings, MemoryRegion, Vhost, next_desc}
use type_ii_hypervisor_code.Vhost.Walks.{
  at_end, chain_loop, head_of, blk_rounds, update_blk_table_from_queue,
}
use type_ii_hypervisor_code.Vhost.Tables.{
  Tables, close_table, blk_kept, closed, net_queues, update_memory_table,
}
use type_ii_hypervisor_code.Vhost.Entries.{
  region, enter_region, enter_all, enter_all-count, enter_all-is_net, enter_all-region,
  update_table_entry-direct,
}

module _ {Vring : Type 0} (negative : ℕ) (mmap : Mmap) (rings : GuestRings Vring)
    (r : Regions) where
  -- A round that takes a whole request.
  blk_rounds-step :
      (rounds left left' ret n i : ℕ) (v : Vhost) (a : Vhost × Regions) (q : VirtQueue Vring)
      → (q.last_avail_idx == rings.avail_idx q.vring) ≡ false
      → head_of rings q ≡ Result.ok i
      → chain_loop negative mmap rings left 0 v r q i ≡ Result.ok (at_end left' n a)
      → blk_rounds negative mmap rings (suc rounds) left ret v r q
        ≡ blk_rounds negative mmap rings rounds left' (ret + 1) a.0 a.1 (inc_last_avail_idx q)
  unfolding blk_rounds and_then
  blk_rounds-step rounds left left' ret n i v a q more head chain = rw (more, head, chain) refl

  blk_rounds-done :
      (rounds left ret : ℕ) (v : Vhost) (q : VirtQueue Vring)
      → (q.last_avail_idx == rings.avail_idx q.vring) ≡ true
      → blk_rounds negative mmap rings (suc rounds) left ret v r q
        ≡ Result.ok (record { ret = ret; queue = q; vhost = v; memory = r })
  unfolding blk_rounds
  blk_rounds-done rounds left ret v q none_left = rw none_left refl

-- The m-th descriptor of a chain whose indices are c.
abbrev pub chained_desc : {Vring : Type 0} → GuestRings Vring → Vring → (ℕ → ℕ) → ℕ → VringDesc
chained_desc rings ring c m = rings.load_desc (add64 (rings.desc ring) (c m * rings.desc_size))

module _ {Vring : Type 0} (negative : ℕ) (mmap : Mmap) (rings : GuestRings Vring) (r : Regions)
    (q : VirtQueue Vring) (n : ℕ) (c hva : ℕ → ℕ) (in_queue : (m : ℕ) → m ≤ n → c m < q.num_desc)
    (known : (m : ℕ)
      → m ≤ n
      → gpa_to_hva negative mmap r (chained_desc rings q.vring c m).addr ≡ Result.ok (hva m, r))
    (direct : (m : ℕ)
      → m ≤ n
      → has (chained_desc rings q.vring c m).flags rings.desc_f_indirect ≡ false)
    (linked : (m : ℕ) → m < n → next_desc rings (chained_desc rings q.vring c m) ≡ some (c (m + 1)))
    (last : next_desc rings (chained_desc rings q.vring c n) ≡ none) where
  -- From the m-th descriptor on, with k behind it.
  chain_loop-from :
      (k m left entered : ℕ) (v : Vhost)
      → m + k ≡ n
      → v.mem_table_idx + (k + 1) < 2 ^ 31
      → chain_loop negative mmap rings (k + 1 + left) entered v r q (c m)
        ≡ Result.ok (
            at_end left
              (entered + (k + 1))
              (enter_all (k + 1) m (λ j. region (chained_desc rings q.vring c j) (hva j)) v, r))
  unfolding chain_loop enter_all enter_region and_then
  chain_loop-from zero m left entered v here room =
      let at : m ≡ n = omega arith in
      let inside : leb q.num_desc (c m) ≡ false = ground (arith, in_queue m (omega arith)) in
      let end : next_desc rings (chained_desc rings q.vring c m) ≡ none = rw at last in
      let rounds : 0 + 1 + left ≡ suc left = omega arith in
      rw
        (
          rounds,
          inside,
          update_table_entry-direct negative mmap rings v r (chained_desc rings q.vring c m) (hva m)
              (known m (omega arith)) (direct m (omega arith)) (omega arith),
          end,
        )
        refl
  chain_loop-from (suc k) m left entered v here room =
      let inside : leb q.num_desc (c m) ≡ false = ground (arith, in_queue m (omega arith)) in
      let count : entered + 1 + (k + 1) ≡ entered + (suc k + 1) = omega arith in
      let length : suc k + 1 ≡ suc (k + 1) = omega arith in
      let rounds : suc k + 1 + left ≡ suc (k + 1 + left) = omega arith in
      rw
        (
          rounds,
          inside,
          update_table_entry-direct negative mmap rings v r (chained_desc rings q.vring c m) (hva m)
              (known m (omega arith)) (direct m (omega arith)) (omega arith),
          linked m (omega arith),
        )
        (chain_loop-from k (m + 1) left (entered + 1)
            (enter_region v (region (chained_desc rings q.vring c m) (hva m))) (omega arith)
            (omega arith)
          ∙ rw (count, length) refl)

  -- With one request in the queue, a chain of at most 63 descriptors of the queue, none of them
  -- indirect and all of them in known memory: each is entered in order, from the next slot on.
  blk_rounds-one :
      (v : Vhost)
      → n < 63
      → v.mem_table_idx + n + 1 < 2 ^ 31
      → q.last_avail_idx < 2 ^ 16
      → rings.avail_idx q.vring ≡ (q.last_avail_idx + 1) % 2 ^ 16
      → rings.avail_ring q.vring (q.last_avail_idx % q.num_desc) ≡ c 0
      → update_blk_table_from_queue negative mmap rings v r q
        ≡ Result.ok (record {
          ret = 1;
          queue = inc_last_avail_idx q;
          vhost = enter_all (n + 1) 0 (λ j. region (chained_desc rings q.vring c j) (hva j)) v;
          memory = r;
        })
  unfolding update_blk_table_from_queue head_of inc_last_avail_idx
  blk_rounds-one v short room range waiting head =
      let some_desc : (q.num_desc == 0) ≡ false = ground (arith, in_queue 0 (omega arith)) in
      let more : (q.last_avail_idx == rings.avail_idx q.vring) ≡ false = ground arith in
      let done : ((q.last_avail_idx + 1) % 2 ^ 16 == rings.avail_idx q.vring) ≡ true =
        ground arith in
      let all : n + 1 + (62 - n) ≡ 63 = omega arith in
      let f : ℕ → MemoryRegion = λ j. region (chained_desc rings q.vring c j) (hva j) in
      blk_rounds-step negative mmap rings r 63 63 (62 - n) 0 (0 + (n + 1)) (c 0) v
        (enter_all (n + 1) 0 f v, r) q more (rw (some_desc, head) refl)
        (ap (λ k. chain_loop negative mmap rings k 0 v r q (c 0)) (sym all)
          ∙ chain_loop-from n 0 (62 - n) 0 v (omega arith) (omega arith))
      ∙ blk_rounds-done negative mmap rings r 62 (62 - n) 1 (enter_all (n + 1) 0 f v)
          (inc_last_avail_idx q) done

-- With one request in the queue of a block device, a chain of n + 1 descriptors of the queue, 63 at
-- most, none of them indirect and all of them in known memory, and room for them in the `int` that
-- counts the regions: the m-th stands in the m-th slot behind those that were filled, the slots
-- filled are counted up to 64, the request is passed, and the other queues and the memory map stay.
pub update_memory_table-request :
    {Vring : Type 0} (negative : ℕ) (mmap : Mmap) (rings : GuestRings Vring) (t : Tables Vring)
    (n : ℕ) (c hva : ℕ → ℕ)
    → let q = t.queues 0 in
      let d = chained_desc rings q.vring c in
      ((m : ℕ) → m ≤ n → c m < q.num_desc)
      → ((m : ℕ)
          → m ≤ n
          → gpa_to_hva negative mmap t.memory (d m).addr ≡ Result.ok (hva m, t.memory))
      → ((m : ℕ) → m ≤ n → has (d m).flags rings.desc_f_indirect ≡ false)
      → ((m : ℕ) → m < n → next_desc rings (d m) ≡ some (c (m + 1)))
      → next_desc rings (d n) ≡ none
      → n < 63
      → t.vhost.mem_table_idx + n + 1 < 2 ^ 31
      → q.last_avail_idx < 2 ^ 16
      → rings.avail_idx q.vring ≡ (q.last_avail_idx + 1) % 2 ^ 16
      → rings.avail_ring q.vring (q.last_avail_idx % q.num_desc) ≡ c 0
      → t.vhost.is_net ≡ false
      → (v : Vhost) × (update_memory_table negative mmap rings t
          ≡ Result.ok (record {
            queues = λ k. if k == 0 then inc_last_avail_idx q else t.queues k;
            vhost = v;
            memory = t.memory;
          }))
        × ((m : ℕ) → m ≤ n → v.regions ((t.vhost.mem_table_idx + m) % 64) ≡ region (d m) (hva m))
        × (v.mem_table_idx ≡ t.vhost.mem_table_idx + n + 1)
        × (v.nregions ≡ (if ltb 64 v.mem_table_idx then 64 else v.mem_table_idx))
        × (v.is_net ≡ false)
unfolding update_memory_table close_table and_then
update_memory_table-request negative mmap rings t n c hva inside known direct linked last short room
      range waiting head blk =
    let f : ℕ → MemoryRegion = λ j. region (chained_desc rings (t.queues 0).vring c j) (hva j) in
    let one =
      blk_rounds-one negative mmap rings t.memory (t.queues 0) n c hva inside known direct linked
        last t.vhost short room range waiting head in
    (
      close_table 1 (enter_all (n + 1) 0 f t.vhost),
      ap
            (λ b.
              and_then
                (if b
                  then net_queues negative mmap rings t.vhost.num_queues 0 0 t
                  else and_then
                      (update_blk_table_from_queue negative mmap rings t.vhost t.memory
                        (t.queues 0))
                      (blk_kept t))
                closed)
            blk
          ∙ ap (λ x. and_then (and_then x (blk_kept t)) closed) one,
      (λ m h.
          let at : 0 + m ≡ m = omega arith in
          rw at at (enter_all-region (n + 1) 0 f t.vhost m (omega arith) (omega arith))),
      omega (arith, enter_all-count (n + 1) 0 f t.vhost),
      refl,
      enter_all-is_net (n + 1) 0 f t.vhost ∙ blk,
    )

-- Without a request in the queue nothing is entered.
pub update_memory_table-idle :
    {Vring : Type 0} (negative : ℕ) (mmap : Mmap) (rings : GuestRings Vring) (t : Tables Vring)
    → ((t.queues 0).last_avail_idx == rings.avail_idx (t.queues 0).vring) ≡ true
    → t.vhost.is_net ≡ false
    → update_memory_table negative mmap rings t
      ≡ Result.ok (record t { queues = λ k. if k == 0 then t.queues 0 else t.queues k })
unfolding update_memory_table update_blk_table_from_queue close_table and_then
update_memory_table-idle negative mmap rings t none_left blk =
    ap
      (λ b.
        and_then
          (if b
            then net_queues negative mmap rings t.vhost.num_queues 0 0 t
            else and_then
                (update_blk_table_from_queue negative mmap rings t.vhost t.memory (t.queues 0))
                (blk_kept t))
          closed)
      blk
    ∙ ap (λ x. and_then (and_then x (blk_kept t)) closed)
        (blk_rounds-done negative mmap rings t.memory 63 63 0 t.vhost (t.queues 0) none_left)
