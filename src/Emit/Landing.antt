-- ===== src/Emit/Landing.antt =====
-- The branches inside the code that is emitted for one instruction: where they lead.
use type_ii_hypervisor_code.Common.{
  ℕ, ◌≤◌, ◌≡◌, refl, Bool, true, not, ◌&&◌, ◌||◌, ◌==◌, leb, arith, List, [], ◌∷◌, ◌++◌, length,
  length-append, if◌then◌else◌,
}
use type_ii_hypervisor_code.Instr.{IInfo}
use type_ii_hypervisor_code.Emit.{HostIns}
use type_ii_hypervisor_code.Emit.Branches.{
  branch_path, branch_path_likely, and_link, bne_beq, bbit, branch, bne_beq_likely, branch_likely,
}

-- The opcodes of branches: bltz and its kin, beq, bne, blez, bgtz, their likely forms, and bbit.
abbrev pub is_branch_op : ℕ → Bool
is_branch_op op =
    op == 1
    || (leb 4 op && leb op 7)
    || (leb 20 op && leb op 23)
    || op == 50
    || op == 54
    || op == 58
    || op == 62

-- A branch over `imm` words behind it, where `left` words follow it, does not go past their end.
abbrev pub stays : HostIns → ℕ → Bool
stays (HostIns.i_word op rs rt imm) left = not (is_branch_op op) || leb imm left
stays _ left = true

unfoldable pub lands : List HostIns → Bool
lands [] = true
lands (w ∷ rest) = stays w (length rest) && lands rest

stays-more : (w : HostIns) (n m : ℕ) → n ≤ m → stays w n ≡ true → stays w m ≡ true
stays-more (HostIns.i_word op rs rt imm) n m h s = ground arith
stays-more (HostIns.r_word op rs rt rd sa func) n m h s = refl
stays-more HostIns.zero_word n m h s = refl

pub lands-append :
    (xs ys : List HostIns) → lands xs ≡ true → lands ys ≡ true → lands (xs ++ ys) ≡ true
unfolding lands
lands-append [] ys h k = k
lands-append (w ∷ xs) ys h k =
    let longer : length xs ≤ length (xs ++ ys) = omega (arith, length-append xs ys) in
    ground (arith, stays-more w (length xs) (length (xs ++ ys)) longer, lands-append xs ys)

module _ (i : IInfo) (slot : List HostIns) (h : lands slot ≡ true) where
  pub bne_beq-lands : lands (bne_beq i slot) ≡ true
  unfolding lands length bne_beq branch_path
  bne_beq-lands = lands-append slot _ h (ground arith)

  pub bbit-lands : lands (bbit i slot) ≡ true
  unfolding lands length bbit branch_path
  bbit-lands = lands-append slot _ h (ground arith)

  pub branch-lands : lands (branch i slot) ≡ true
  unfolding lands length branch branch_path and_link
  branch-lands =
      lands-append (if i.i_rt == 16 || i.i_rt == 17 then and_link else []) _ (ground arith)
        (lands-append slot _ h (ground arith))

  branch_path_likely-lands : (imm : ℕ) → lands (branch_path_likely slot imm) ≡ true
  unfolding lands length branch_path_likely
  branch_path_likely-lands imm = lands-append slot _ h (ground arith)

  pub bne_beq_likely-lands : lands (bne_beq_likely i slot) ≡ true
  unfolding lands length bne_beq_likely branch_path_likely
  bne_beq_likely-lands = ground (arith, branch_path_likely-lands i.imm)

  pub branch_likely-lands : lands (branch_likely i slot) ≡ true
  unfolding lands length branch_likely branch_path_likely and_link
  branch_likely-lands =
      lands-append (if i.i_rt == 18 || i.i_rt == 19 then and_link else []) _ (ground arith)
        (ground (arith, branch_path_likely-lands i.imm))
