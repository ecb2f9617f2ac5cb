-- ===== src/Layout.antt =====
-- Processor_IPE.h and Translation_IPE.h: where the state of a core lies, the registers that the
-- emitted code uses, the opcodes, and the control marks.
use type_ii_hypervisor_code.Common.{ℕ}

abbrev pub addr_store : ℕ
addr_store = 56

abbrev pub base_reg : ℕ
base_reg = 12

abbrev pub base_cp : ℕ
base_cp = 520

abbrev pub base_gp : ℕ
base_gp = 200

abbrev pub block_end_pc : ℕ
block_end_pc = 184

abbrev pub control_from_ri : ℕ
control_from_ri = 14

abbrev pub c_func_call_offset : ℕ
c_func_call_offset = 88

abbrev pub c_label_reg : ℕ
c_label_reg = 24

abbrev pub control_mark : ℕ
control_mark = 104

abbrev pub control_from_entryhi : ℕ
control_from_entryhi = 7

abbrev pub control_from_ext_int : ℕ
control_from_ext_int = 8

abbrev pub control_from_end_of_block : ℕ
control_from_end_of_block = 1

abbrev pub control_from_ls : ℕ
control_from_ls = 0

abbrev pub control_from_log_write : ℕ
control_from_log_write = 11

abbrev pub control_from_break : ℕ
control_from_break = 12

abbrev pub control_from_compare : ℕ
control_from_compare = 9

abbrev pub control_from_countwrite : ℕ
control_from_countwrite = 10

abbrev pub control_from_syscall : ℕ
control_from_syscall = 2

abbrev pub control_from_tlbp : ℕ
control_from_tlbp = 3

abbrev pub control_from_tlbr : ℕ
control_from_tlbr = 4

abbrev pub control_from_tlbwi : ℕ
control_from_tlbwi = 5

abbrev pub control_from_tlbwr : ℕ
control_from_tlbwr = 6

abbrev pub control_from_trap : ℕ
control_from_trap = 13

abbrev pub ldst_data : ℕ
ldst_data = 64

abbrev pub llbit_flag : ℕ
llbit_flag = 32

abbrev pub ll_data : ℕ
ll_data = 40

abbrev pub mpl0 : ℕ
mpl0 = 35

abbrev pub mpl1 : ℕ
mpl1 = 36

abbrev pub mpl2 : ℕ
mpl2 = 37

abbrev pub memory_temp4 : ℕ
memory_temp4 = 72

abbrev pub memory_temp5 : ℕ
memory_temp5 = 80

abbrev pub opcode_add : ℕ
opcode_add = 32

abbrev pub opcode_addi : ℕ
opcode_addi = 8

abbrev pub opcode_addiu : ℕ
opcode_addiu = 9

abbrev pub opcode_andi : ℕ
opcode_andi = 12

abbrev pub opcode_beq : ℕ
opcode_beq = 4

abbrev pub opcode_bgez : ℕ
opcode_bgez = 1

abbrev pub opcode_bne : ℕ
opcode_bne = 5

abbrev pub opcode_caviumaddition : ℕ
opcode_caviumaddition = 28

abbrev pub opcode_daddi : ℕ
opcode_daddi = 24

abbrev pub opcode_daddiu : ℕ
opcode_daddiu = 25

abbrev pub opcode_dins : ℕ
opcode_dins = 7

abbrev pub opcode_dinsu : ℕ
opcode_dinsu = 6

abbrev pub opcode_dsll32 : ℕ
opcode_dsll32 = 60

abbrev pub opcode_dsrl32 : ℕ
opcode_dsrl32 = 62

abbrev pub opcode_ins : ℕ
opcode_ins = 4

abbrev pub opcode_ld : ℕ
opcode_ld = 55

abbrev pub opcode_lui : ℕ
opcode_lui = 15

abbrev pub opcode_lw : ℕ
opcode_lw = 35

abbrev pub opcode_mfhi : ℕ
opcode_mfhi = 16

abbrev pub opcode_mflo : ℕ
opcode_mflo = 18

abbrev pub opcode_ori : ℕ
opcode_ori = 13

abbrev pub opcode_saad : ℕ
opcode_saad = 25

abbrev pub opcode_sd : ℕ
opcode_sd = 63

abbrev pub opcode_special2 : ℕ
opcode_special2 = 28

abbrev pub opcode_special3 : ℕ
opcode_special3 = 31

abbrev pub opcode_srl : ℕ
opcode_srl = 2

abbrev pub opcode_sw : ℕ
opcode_sw = 43

abbrev pub opcode_zero : ℕ
opcode_zero = 0

abbrev pub op_indicator : ℕ
op_indicator = 168

abbrev pub p0 : ℕ
p0 = 38

abbrev pub p1 : ℕ
p1 = 39

abbrev pub p2 : ℕ
p2 = 40

abbrev pub pc_offset : ℕ
pc_offset = 0

abbrev pub reg_hi : ℕ
reg_hi = 32

abbrev pub reg_lo : ℕ
reg_lo = 33

abbrev pub ret_addr_reg : ℕ
ret_addr_reg = 25

abbrev pub temp1 : ℕ
temp1 = 13

abbrev pub temp2 : ℕ
temp2 = 14

abbrev pub temp3 : ℕ
temp3 = 15

abbrev pub trans_addr : ℕ
trans_addr = 48
