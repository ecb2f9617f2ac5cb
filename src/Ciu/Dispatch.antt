-- ===== src/Ciu/Dispatch.antt =====
-- `updateFlags`: what a write to the interrupt unit can come to.
use type_ii_hypervisor_code.Common.{
  ℕ, ◌+◌, ◌-◌, ◌*◌, ◌/◌, ◌%◌, ◌<◌, bit_and, ◌≡◌, ◌↔◌, refl, Bool, true, false, ◌&&◌, arith, ◌==◌,
  if◌then◌else◌, leb,
}
use type_ii_hypervisor_code.Cp0.{slot, set_slot, write}
use type_ii_hypervisor_code.Ciu.Registers.{Memory}
use type_ii_hypervisor_code.Ciu.{
  Ciu, Outcome, update_interrupt, handled, update_flags, send_nmi, within,
}

-- The register number of an address.
abbrev pub register_at : ℕ → ℕ
register_at addr = bit_and addr 0x7fff / 8

-- A write ends in a value no function returned exactly when it names a register 1424 + 2 n with
-- 2 n ≤ 23, that is INTn_EN4_0_W1C.
update_flags-undefined_iff :
    (c : Ciu) (addr value : ℕ)
    → (update_flags c addr value ≡ Outcome.undefined)
      ↔ ((n : ℕ) × (n < 12) × (register_at addr ≡ 1424 + 2 * n))
unfolding update_flags handled
update_flags-undefined_iff c addr value = (
  λ e.
      let there : (leb 1424 (register_at addr) ≡ true)
          × (leb (register_at addr) 1447 ≡ true)
          × ((register_at addr - 1424) % 2 ≡ 0) =
        ground (arith, e) in
      ((register_at addr - 1424) / 2, ground (arith, there), ground (arith, there)),
  λ (n, lt, e). ground (arith, e),
)

-- Between the two states at most one core differs, and that core in its Cause register only.
abbrev pub OneCause : Ciu → Ciu → Type 0
OneCause c c' =
    (c'.num_cores ≡ c.num_cores)
    × ((core cause : ℕ) × ((k j : ℕ)
          → c'.cores k j ≡ (if (k == core) && (j == slot 13 0) then cause else c.cores k j)))

abbrev Contained : Ciu → Outcome → Type 0
Contained c (Outcome.done c') = OneCause c c'
Contained c Outcome.soft_reset = Unit
Contained c Outcome.undefined = Unit

either :
    (c : Ciu) (b : Bool) (x y : Outcome)
    → Contained c x
    → Contained c y
    → Contained c (if b then x else y)
either c true x y p q = p
either c false x y p q = q

handled-Contained : (c : Ciu) (mem : Memory) (core : ℕ) → Contained c (handled c mem core)
unfolding handled update_interrupt write set_slot
handled-Contained c mem core = (
  refl,
  (
    core,
    (update_interrupt (record c { memory = mem }) core).cores core (slot 13 0),
    λ k j. ground arith,
  ),
)

unchanged : (c : Ciu) → OneCause c c
unchanged c = (refl, (0, c.cores 0 104, λ k j. ground arith))

nmi_only : (c : Ciu) (value : ℕ) → OneCause c (send_nmi c value)
unfolding send_nmi
nmi_only c value = (refl, (0, c.cores 0 104, λ k j. ground arith))

contained : (c : Ciu) (addr value : ℕ) → Contained c (update_flags c addr value)
unfolding update_flags
contained c addr value =
    let at = register_at addr in
    let own = handled-Contained c in
    either c (within 64 111 at) _ _ (own _ _) (
      either c (within 192 203 at) _ _ (own _ _) (
        either c (within 208 219 at) _ _ (own _ _) (
          either c (at == 227) _ _ (nmi_only c value) (
            either c (at == 232) _ _ tt (
              either c (within 400 423 at) _ _ (own _ _) (
                either c (within 1088 1135 at) _ _ (own _ _) (
                  either c (within 1424 1447 at) _ _
                    (either c ((at - 1424) % 2 == 0) _ _ tt (own _ _))
                    (either c (within 3136 3183 at) _ _ (own _ _)
                      (either c (within 3472 3495 at) _ _ (own _ _) (unchanged c))))))))))

-- A write to any register that the unit completes leaves the number of cores, and changes at most
-- the Cause register of one core among all registers of all cores.
update_flags-OneCause :
    (c c' : Ciu) (addr value : ℕ) → update_flags c addr value ≡ Outcome.done c' → OneCause c c'
update_flags-OneCause c c' addr value e = let found = contained c addr value in rw e at found
