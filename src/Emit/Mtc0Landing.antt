-- ===== src/Emit/Mtc0Landing.antt =====
-- The branches in the code of mtc0 stay inside it.
use type_ii_hypervisor_code.Common.{◌≡◌, true, arith, length}
use type_ii_hypervisor_code.Instr.{IInfo}
use type_ii_hypervisor_code.Emit.Control.{checking_previlige}
use type_ii_hypervisor_code.Emit.Mtc0.{
  mtc0, mtc0_0, mtc0_2, mtc0_4, mtc0_5, mtc0_6, mtc0_7, mtc0_9, mtc0_10, mtc0_11, mtc0_12, mtc0_13,
  mtc0_15, mtc0_20, mtc0_default,
}
use type_ii_hypervisor_code.Emit.Landing.{lands}

module _ (i : IInfo) where
  mtc0_0-lands : lands (mtc0_0 i) ≡ true
  unfolding lands length mtc0_0
  mtc0_0-lands = ground arith

  mtc0_2-lands : lands (mtc0_2 i) ≡ true
  unfolding lands length mtc0_2
  mtc0_2-lands = ground arith

  mtc0_4-lands : lands (mtc0_4 i) ≡ true
  unfolding lands length mtc0_4
  mtc0_4-lands = ground arith

  mtc0_5-lands : lands (mtc0_5 i) ≡ true
  unfolding lands length mtc0_5
  mtc0_5-lands = ground arith

  mtc0_6-lands : lands (mtc0_6 i) ≡ true
  unfolding lands length mtc0_6
  mtc0_6-lands = ground arith

  mtc0_7-lands : lands (mtc0_7 i) ≡ true
  unfolding lands length mtc0_7
  mtc0_7-lands = ground arith

  mtc0_9-lands : lands (mtc0_9 i) ≡ true
  unfolding lands length mtc0_9
  mtc0_9-lands = ground arith

  mtc0_10-lands : lands (mtc0_10 i) ≡ true
  unfolding lands length mtc0_10
  mtc0_10-lands = ground arith

  mtc0_11-lands : lands (mtc0_11 i) ≡ true
  unfolding lands length mtc0_11
  mtc0_11-lands = ground arith

  mtc0_12-lands : lands (mtc0_12 i) ≡ true
  unfolding lands length mtc0_12
  mtc0_12-lands = ground arith

  mtc0_13-lands : lands (mtc0_13 i) ≡ true
  unfolding lands length mtc0_13
  mtc0_13-lands = ground arith

  mtc0_15-lands : lands (mtc0_15 i) ≡ true
  unfolding lands length mtc0_15
  mtc0_15-lands = ground arith

  mtc0_20-lands : lands (mtc0_20 i) ≡ true
  unfolding lands length mtc0_20
  mtc0_20-lands = ground arith

  mtc0_default-lands : lands (mtc0_default i) ≡ true
  unfolding lands length mtc0_default
  mtc0_default-lands = ground arith

  pub mtc0-lands : lands (mtc0 i) ≡ true
  unfolding lands length mtc0 checking_previlige
  mtc0-lands = ground (
    arith, mtc0_0-lands, mtc0_2-lands, mtc0_4-lands, mtc0_5-lands, mtc0_6-lands, mtc0_7-lands,
    mtc0_9-lands, mtc0_10-lands, mtc0_11-lands, mtc0_12-lands, mtc0_13-lands, mtc0_15-lands,
    mtc0_20-lands, mtc0_default-lands,
  )
