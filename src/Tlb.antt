-- ===== src/Tlb.antt =====
-- TLB_IPE.h and TLB_IPE.cpp: the translation lookaside buffer of one core. The object holds the
-- pointer to its core's coprocessor 0, so its state here has the registers and the 64 entries,
-- a function of the index. `rand()` is the argument `random` of `tlb_random`.
pub mod Entries
pub mod Search
pub mod Translate
pub mod Writes
pub mod Probe
pub mod Refill
pub mod Random
use type_ii_hypervisor_code.Common.{
  ℕ, zero, suc, ◌+◌, ◌*◌, ◌-◌, ◌^◌, ◌%◌, ◌/◌, ◌<◌, bit_and, bit_or, if◌then◌else◌, Bool, true,
  false, not, ◌&&◌, ◌||◌, ◌==◌, ltb, Option, none, some,
}
use type_ii_hypervisor_code.Word.{not64, shr}
use type_ii_hypervisor_code.Cp0.{Regs, read, write}
use type_ii_hypervisor_code.Context.{Context, access_write, get_ldst, set_prot}
use type_ii_hypervisor_code.Exception.{tlb_mod, tlbl, tlb_inv, tlb_excep}
use mathlib.Core.Option
use Entries.{
  Entry, entry_valid, entry_invalid, seg_mask, min_page_mask, get_pagemask, get_entry_hi,
  get_entry_lo0, get_entry_lo1, set_entry, reset_entry,
}
use Search.{first_from}

pub record Tlb : Type 0 where
  pub regs : Regs
  pub entry : ℕ → Entry

abbrev pub max_entries : ℕ
max_entries = 64

-- `this->tlb_entry[idx] = e`.
unfoldable pub put_entry : (ℕ → Entry) → ℕ → Entry → ℕ → Entry
put_entry entries idx e j = if j == idx then e else entries j

-- `__builtin_popcount` of the low 32 bits: its argument is an `unsigned int`.
unfoldable pub popcount : ℕ → ℕ → ℕ
popcount zero x = 0
popcount (suc bits) x = x % 2 + popcount bits (x / 2)

abbrev pub page_mask : Entry → ℕ
page_mask e = bit_or e.pagemask min_page_mask

unfoldable pub get_asid : Regs → ℕ
get_asid regs = bit_and (read regs 10 0) 0xff

-- `(VPN == tag)` and the address space test, shared by the three loops.
unfoldable pub same_page : ℕ → ℕ → Entry → Bool
same_page asid gva e =
    (e.global == 1 || e.asid == asid)
    && (bit_and e.vpn (not64 (page_mask e)) == bit_and (bit_and gva (not64 (page_mask e))) seg_mask)

-- The condition of the loop of `GVAtoGPA`.
unfoldable pub hits : ℕ → ℕ → Entry → Bool
unfolding same_page
hits asid gva e =
    same_page asid gva e && (e.region == bit_and (shr gva 62) 3) && (e.validity == entry_valid)

-- Which page of the pair: bit `popcount(mask)` of the address.
unfoldable pub odd_page : ℕ → Entry → Bool
unfolding popcount
odd_page gva e = shr gva (popcount 32 (shr (page_mask e) 1)) % 2 == 1

abbrev pub page_v : ℕ → Entry → ℕ
page_v gva e = if odd_page gva e then e.v1 else e.v0

abbrev pub page_d : ℕ → Entry → ℕ
page_d gva e = if odd_page gva e then e.d1 else e.d0

abbrev pub page_pfn : ℕ → Entry → ℕ
page_pfn gva e = if odd_page gva e then e.pfn1 else e.pfn0

-- The result of the body for a hit: `none` is TLB_MATCH, otherwise the exception.
unfoldable pub page_fault : ℕ → Context → Entry → Option ℕ
page_fault gva context e =
    if page_v gva e == 0
    then some tlb_inv
    else if (get_ldst context == access_write) && (page_d gva e == 0)
    then some tlb_mod
    else none

-- What a translation leaves: the returned flag, `*GPA`, the registers and the context.
pub record Translated : Type 0 where
  pub ok : Bool
  pub address : ℕ
  pub regs : Regs
  pub context : Context

-- `*GPA = TLB_Excep(..)` and `return false`; `none` is the exit in `Perform_Exception`.
unfoldable pub faulted : Regs → ℕ → ℕ → Context → Option Translated
faulted regs gva code context =
    Option.map (λ r. record { ok = false; address = r.0; regs = r.1; context = context })
      (tlb_excep regs gva code context)

-- The end of the loop's body for entry `e`, from the result so far.
unfoldable pub conclude : Tlb → ℕ → Context → Entry → Option ℕ → Option Translated
unfolding set_prot
conclude t gva context e none = some (record {
  ok = true;
  address = bit_or (page_pfn gva e) (bit_and gva (shr (page_mask e) 1));
  regs = t.regs;
  context = set_prot (page_d gva e) context;
})
conclude t gva context e (some code) = faulted t.regs gva code (set_prot (page_d gva e) context)

-- What follows the loop, or its `break` at `idx`.
unfoldable pub translate_at : Tlb → ℕ → Context → Option ℕ → Option Translated
unfolding conclude get_ldst
translate_at t gva context none = faulted t.regs gva (tlbl + get_ldst context) context
translate_at t gva context (some idx) =
    conclude t gva context (t.entry idx) (page_fault gva context (t.entry idx))

abbrev pub hit_index : Tlb → ℕ → Option ℕ
hit_index t gva = first_from (λ idx. hits (get_asid t.regs) gva (t.entry idx)) max_entries 0

unfoldable pub gva_to_gpa : Tlb → ℕ → Context → Option Translated
unfolding translate_at
gva_to_gpa t gva context = translate_at t gva context (hit_index t gva)

unfoldable pub get_wired : Regs → ℕ
get_wired regs = bit_and (read regs 6 0) 0x3f

unfoldable pub get_index : Regs → ℕ
get_index regs = bit_and 0x3f (read regs 0 0)

-- `set_Entry` on entry `idx`, for `tlbwi` and `tlbwr`.
unfoldable pub write_entry : Tlb → ℕ → Tlb
unfolding put_entry set_entry
write_entry t idx = record t { entry = put_entry t.entry idx (set_entry t.regs) }

unfoldable pub tlb_write_index : Tlb → Tlb
unfolding write_entry get_index
tlb_write_index t = write_entry t (get_index t.regs)

-- The index that `tlbwr` writes; it may pass the last entry (see `Tlb.Writes`).
unfoldable pub random_index : ℕ → ℕ → ℕ
random_index random wired =
    let idx = random % max_entries in if ltb idx wired then idx + wired else idx

unfoldable pub tlb_random : Tlb → ℕ → Tlb
unfolding write_entry random_index get_wired
tlb_random t random =
    let idx = random_index random (get_wired t.regs) in
    let t' = write_entry t idx in record t' { regs = write t'.regs (bit_and idx 0x3f) 1 0 }

unfoldable pub tlb_read : Tlb → Tlb
unfolding get_index
tlb_read t =
    let e = t.entry (get_index t.regs) in
    let regs₁ = write t.regs (get_pagemask e) 5 0 in
    let regs₂ = write regs₁ (get_entry_hi e) 10 0 in
    let regs₃ = write regs₂ (get_entry_lo0 e) 2 0 in
    record t { regs = write regs₃ (get_entry_lo1 e) 3 0 }

-- The second loop of `tlb_probe`, from the index behind the first match: what it found.
unfoldable pub invalidate_at : (ℕ → Entry) → Option ℕ → ℕ → Entry
unfolding put_entry
invalidate_at entries none = entries
invalidate_at entries (some i) =
    put_entry entries i (record (entries i) { validity = entry_invalid })

unfoldable pub drop_duplicate : ℕ → Regs → (ℕ → Entry) → ℕ → ℕ → Entry
unfolding invalidate_at
drop_duplicate asid regs entries idx = invalidate_at entries (
    first_from
      (λ i. same_page asid (read regs 10 0) (entries i) && ((entries i).validity == entry_valid))
      (max_entries - idx) idx)

-- `tlb_probe` from what its first loop found.
unfoldable pub probe_at : Tlb → Option ℕ → Tlb
probe_at t none = record t {
  regs = write t.regs (bit_or (read t.regs 0 0) 0xffff_ffff_8000_0000) 0 0;
}
probe_at t (some idx) =
    let regs = write t.regs (bit_and 0x3f idx) 0 0 in
    record { regs = regs; entry = drop_duplicate (get_asid t.regs) regs t.entry (idx + 1) }

unfoldable pub tlb_probe : Tlb → Tlb
unfolding probe_at
tlb_probe t =
    probe_at t
      (first_from (λ i. same_page (get_asid t.regs) (read t.regs 10 0) (t.entry i)) max_entries 0)

unfoldable pub clear_tlb : Tlb → Tlb
clear_tlb t = record t {
  entry = λ i. if ltb i max_entries then reset_entry (t.entry i) else t.entry i;
}
