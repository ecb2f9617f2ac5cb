-- ===== src/Board/Cores.antt =====
-- SystemBoard_IPE.cpp: the numbers of the cores.
use type_ii_hypervisor_code.Common.{
  ℕ, zero, suc, ◌+◌, ◌<◌, ◌≤◌, ◌≡◌, ◌≢◌, refl, sym, ◌∙◌, ◌^◌, ◌%◌, bit_and, bit_or, if◌then◌else◌,
  true, false, not, ◌&&◌, ◌==◌, ==_refl, ==-eq-false, Bool-cases, inl, inr, ltb, leb, arith,
}
use type_ii_hypervisor_code.Word.{bit, not64, shl, shr}
use type_ii_hypervisor_code.Word.Bits.{
  bit-zero, bit-and, bit-or, bit-not, bit-mod, bit-high, eq_of_bits,
}
use type_ii_hypervisor_code.Word.Masks.{bit-low_mask}
use type_ii_hypervisor_code.Cp0.{
  Regs, slot, read, write, set_slot, reserved_bits, low_half, corenum,
}
use type_ii_hypervisor_code.Board.{number_core, number_cores}

-- What `write` keeps of EBase.
ebase_field :
    (x i : ℕ)
    → i < 2 ^ 10
    → bit_and
        (bit_or (bit_and (bit_or (bit_and x (not64 0x3ff)) i) 0xbfff_f3ff) 0x8000_0000 % 2 ^ 32)
        0x3ff
      ≡ i
ebase_field x i h = eq_of_bits _ _ (λ j.
    let kept : bit 0xbfff_f3ff j && bit 0x3ff j ≡ bit 0x3ff j = sym (bit-and 0xbfff_f3ff 0x3ff j) in
    let apart : bit 0x8000_0000 j && bit 0x3ff j ≡ false =
      sym (bit-and 0x8000_0000 0x3ff j) ∙ bit-zero j in
    let rest : bit (not64 0x3ff) j ≡ ltb j 64 && not (bit 0x3ff j) =
      bit-not 64 0x3ff j (omega arith) in
    let mask : bit 0x3ff j ≡ ltb j 10 = bit-low_mask 10 j in
    let high = bit-high i 10 j h in
    rw
      (
        bit-and _ 0x3ff j,
        bit-mod _ 32 j,
        bit-or _ 0x8000_0000 j,
        bit-and _ 0xbfff_f3ff j,
        bit-or _ i j,
        bit-and x (not64 0x3ff) j,
        rest,
      )
      (ground (arith, kept, apart, mask, high)))

low_half-mod : (w : ℕ) → shr (shl w 32) 32 ≡ w % 2 ^ 32
low_half-mod w = omega arith

number_core-corenum : (regs : Regs) (i : ℕ) → i < 2 ^ 10 → corenum (number_core regs i) ≡ i
unfolding corenum number_core write set_slot reserved_bits low_half
number_core-corenum regs i h =
    let x = read regs 15 1 in
    let w = bit_or (bit_and (bit_or (bit_and x (not64 0x3ff)) i) 0xbfff_f3ff) 0x8000_0000 in
    let half : shr (shl w 32) 32 ≡ w % 2 ^ 32 = low_half-mod w in
    rw (half, ebase_field x i h) (omega arith)

number_core-other : (regs : Regs) (i j : ℕ) → j ≢ slot 15 1 → number_core regs i j ≡ regs j
unfolding number_core write set_slot
number_core-other regs i j away = rw (==-eq-false j (slot 15 1) away) refl

number_cores-eq :
    (left i k : ℕ) (cores : ℕ → Regs)
    → number_cores left i cores k
      ≡ (if leb i k && ltb k (i + left) then number_core (cores k) k else cores k)
unfolding number_cores
number_cores-eq zero i k cores = ground arith
number_cores-eq (suc left) i k cores =
    number_cores-eq left (i + 1) k (λ x. if x == i then number_core (cores i) i else cores x)
    ∙ elim (Bool-cases (k == i)) [
      | inl same ↦
          let e : k ≡ i = ground arith in
          let behind : (leb (i + 1) i && ltb i (i + 1 + left)) ≡ false = ground arith in
          let inside : (leb i i && ltb i (i + suc left)) ≡ true = ground arith in
          rw (e, ==_refl i, behind, inside) refl
      | inr other ↦
          let range : (leb (i + 1) k && ltb k (i + 1 + left)) ≡ (leb i k && ltb k (i + suc left)) =
            ground arith in
          rw (other, range) refl
    ]

-- Once n cores are numbered, 1024 at most, each of them reads its place as its number, and every
-- other register of its coprocessor 0 is as it was.
number_cores_lem :
    (n i j : ℕ) (cores : ℕ → Regs)
    → n ≤ 1024
    → i < n
    → j ≢ slot 15 1
    → (corenum (number_cores n 0 cores i) ≡ i) × (number_cores n 0 cores i j ≡ cores i j)
number_cores_lem n i j cores le lt away =
    let inside : (leb 0 i && ltb i (0 + n)) ≡ true = ground arith in
    rw (number_cores-eq n 0 i cores, inside)
      (number_core-corenum (cores i) i (omega arith), number_core-other (cores i) i j away)
