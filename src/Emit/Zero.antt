-- ===== src/Emit/Zero.antt =====
-- Register 0 of the guest, which the emitted code keeps in memory like the others: the stores to its
-- place.
use type_ii_hypervisor_code.Common.{
  ℕ, ◌+◌, ◌*◌, ◌≡◌, refl, sym, ◌∙◌, ap, Bool, true, false, ◌&&◌, ◌||◌, ◌==◌, arith, List, [], ◌∷◌,
  ◌++◌, if◌then◌else◌,
}
use type_ii_hypervisor_code.Instr.{IInfo}
use type_ii_hypervisor_code.Layout.{base_gp, base_reg, opcode_sd}
use type_ii_hypervisor_code.Emit.{HostIns}
use type_ii_hypervisor_code.Emit.Control.{checking_previlige}
use type_ii_hypervisor_code.Emit.Branches.{
  branch_path, branch_path_likely, and_link, bne_beq, bbit, branch, bne_beq_likely, branch_likely,
}
use type_ii_hypervisor_code.Emit.Jumps.{j, jal, jr, jalr}
use type_ii_hypervisor_code.Emit.Mtc0.{
  mtc0, mtc0_0, mtc0_2, mtc0_4, mtc0_5, mtc0_6, mtc0_7, mtc0_9, mtc0_10, mtc0_11, mtc0_12, mtc0_13,
  mtc0_15, mtc0_20, mtc0_default,
}

-- A store to the place of register 0.
abbrev pub is_zero_store : HostIns → Bool
is_zero_store (HostIns.i_word op rs rt imm) = op == opcode_sd && (rs == base_reg && imm == base_gp)
is_zero_store _ = false

unfoldable pub writes_zero : List HostIns → Bool
writes_zero [] = false
writes_zero (w ∷ rest) = is_zero_store w || writes_zero rest

or_assoc : (a b c : Bool) → ((a || b) || c) ≡ (a || (b || c))
or_assoc true b c = refl
or_assoc false b c = refl

pub writes_zero-append :
    (xs ys : List HostIns) → writes_zero (xs ++ ys) ≡ writes_zero xs || writes_zero ys
unfolding writes_zero
writes_zero-append [] ys = refl
writes_zero-append (w ∷ xs) ys =
    ap (λ b. is_zero_store w || b) (writes_zero-append xs ys)
    ∙ sym (or_assoc (is_zero_store w) (writes_zero xs) (writes_zero ys))

-- Where no word but those of the delay slot stores to register 0.
pub writes_zero-around :
    (before slot behind : List HostIns)
    → writes_zero before ≡ false
    → writes_zero behind ≡ false
    → writes_zero (before ++ (slot ++ behind)) ≡ writes_zero slot
writes_zero-around before slot behind h k =
    writes_zero-append before (slot ++ behind)
    ∙ ground (arith, h, k, writes_zero-append slot behind)

module _ (i : IInfo) where
  mtc0_0-keeps : writes_zero (mtc0_0 i) ≡ false
  unfolding writes_zero mtc0_0
  mtc0_0-keeps = ground arith

  mtc0_2-keeps : writes_zero (mtc0_2 i) ≡ false
  unfolding writes_zero mtc0_2
  mtc0_2-keeps = ground arith

  mtc0_4-keeps : writes_zero (mtc0_4 i) ≡ false
  unfolding writes_zero mtc0_4
  mtc0_4-keeps = ground arith

  mtc0_5-keeps : writes_zero (mtc0_5 i) ≡ false
  unfolding writes_zero mtc0_5
  mtc0_5-keeps = ground arith

  mtc0_6-keeps : writes_zero (mtc0_6 i) ≡ false
  unfolding writes_zero mtc0_6
  mtc0_6-keeps = ground arith

  mtc0_7-keeps : writes_zero (mtc0_7 i) ≡ false
  unfolding writes_zero mtc0_7
  mtc0_7-keeps = ground arith

  mtc0_9-keeps : writes_zero (mtc0_9 i) ≡ false
  unfolding writes_zero mtc0_9
  mtc0_9-keeps = ground arith

  mtc0_10-keeps : writes_zero (mtc0_10 i) ≡ false
  unfolding writes_zero mtc0_10
  mtc0_10-keeps = ground arith

  mtc0_11-keeps : writes_zero (mtc0_11 i) ≡ false
  unfolding writes_zero mtc0_11
  mtc0_11-keeps = ground arith

  mtc0_12-keeps : writes_zero (mtc0_12 i) ≡ false
  unfolding writes_zero mtc0_12
  mtc0_12-keeps = ground arith

  mtc0_13-keeps : writes_zero (mtc0_13 i) ≡ false
  unfolding writes_zero mtc0_13
  mtc0_13-keeps = ground arith

  mtc0_15-keeps : writes_zero (mtc0_15 i) ≡ false
  unfolding writes_zero mtc0_15
  mtc0_15-keeps = ground arith

  mtc0_20-keeps : writes_zero (mtc0_20 i) ≡ false
  unfolding writes_zero mtc0_20
  mtc0_20-keeps = ground arith

  mtc0_default-keeps : writes_zero (mtc0_default i) ≡ false
  unfolding writes_zero mtc0_default
  mtc0_default-keeps = ground arith

  pub mtc0-keeps : writes_zero (mtc0 i) ≡ false
  unfolding writes_zero mtc0 checking_previlige
  mtc0-keeps = ground (
    arith, mtc0_0-keeps, mtc0_2-keeps, mtc0_4-keeps, mtc0_5-keeps, mtc0_6-keeps, mtc0_7-keeps,
    mtc0_9-keeps, mtc0_10-keeps, mtc0_11-keeps, mtc0_12-keeps, mtc0_13-keeps, mtc0_15-keeps,
    mtc0_20-keeps, mtc0_default-keeps,
  )

module _ (i : IInfo) (slot : List HostIns) where
  pub bne_beq-writes_zero : writes_zero (bne_beq i slot) ≡ writes_zero slot
  unfolding writes_zero bne_beq branch_path
  bne_beq-writes_zero = writes_zero-append slot _ ∙ ground arith

  pub bbit-writes_zero : writes_zero (bbit i slot) ≡ writes_zero slot
  unfolding writes_zero bbit branch_path
  bbit-writes_zero = writes_zero-append slot _ ∙ ground arith

  pub branch-writes_zero : writes_zero (branch i slot) ≡ writes_zero slot
  unfolding writes_zero branch branch_path and_link
  branch-writes_zero =
      writes_zero-append (if i.i_rt == 16 || i.i_rt == 17 then and_link else []) _
      ∙ ap (λ b. writes_zero (if i.i_rt == 16 || i.i_rt == 17 then and_link else []) || b)
          (writes_zero-append slot _)
      ∙ ground arith

  branch_path_likely-writes_zero :
      (imm : ℕ) → writes_zero (branch_path_likely slot imm) ≡ writes_zero slot
  unfolding writes_zero branch_path_likely
  branch_path_likely-writes_zero imm = writes_zero-append slot _ ∙ ground arith

  pub bne_beq_likely-writes_zero : writes_zero (bne_beq_likely i slot) ≡ writes_zero slot
  unfolding writes_zero bne_beq_likely
  bne_beq_likely-writes_zero = ground (arith, branch_path_likely-writes_zero i.imm)

  pub branch_likely-writes_zero : writes_zero (branch_likely i slot) ≡ writes_zero slot
  unfolding writes_zero branch_likely and_link
  branch_likely-writes_zero =
      writes_zero-append (if i.i_rt == 18 || i.i_rt == 19 then and_link else []) _
      ∙ ground (arith, branch_path_likely-writes_zero i.imm)

  pub j-writes_zero : (block_end : ℕ) → writes_zero (j i slot block_end) ≡ writes_zero slot
  unfolding writes_zero j
  j-writes_zero block_end = writes_zero-append slot _ ∙ ground arith

  pub jal-writes_zero : (block_end : ℕ) → writes_zero (jal i slot block_end) ≡ writes_zero slot
  unfolding writes_zero jal and_link
  jal-writes_zero block_end = writes_zero-append slot _ ∙ ground arith

  pub jr-writes_zero : writes_zero (jr i slot) ≡ writes_zero slot
  unfolding writes_zero jr
  jr-writes_zero = writes_zero-append slot _ ∙ ground arith

  pub jalr-writes_zero : writes_zero (jalr i slot) ≡ i.rd == 0 || writes_zero slot
  unfolding writes_zero jalr
  jalr-writes_zero =
      ap (λ b. (base_gp + 8 * i.rd == base_gp) || b) (writes_zero-append slot _) ∙ ground arith
