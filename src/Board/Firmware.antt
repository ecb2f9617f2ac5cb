-- ===== src/Board/Firmware.antt =====
-- SystemBoard_IPE.cpp: where the firmware lies.
use type_ii_hypervisor_code.Common.{ℕ, zero, suc, ◌-◌, if◌then◌else◌, leb, List, [], ◌∷◌}
use type_ii_hypervisor_code.Board.{Host}

-- The byte of a file, or what lies behind its end.
abbrev pub byte_or : ℕ → List ℕ → ℕ → ℕ
byte_or old [] k = old
byte_or old (b ∷ bs) zero = b
byte_or old (b ∷ bs) (suc k) = byte_or old bs k

-- A byte of host memory with a file at an address.
abbrev pub overlaid : Host → ℕ → List ℕ → Host
overlaid host addr bytes a = if leb addr a then byte_or (host a) bytes (a - addr) else host a
