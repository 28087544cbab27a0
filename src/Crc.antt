-- ===== src/Crc.antt =====
-- core/modbus/Crc16.cpp: the checksum of an RTU frame.
pub mod Injective
use modbus_viewer.Prelude.{
  ℕ, zero, suc, ◌/◌, bit_and, bit_xor, not, List, [], ◌∷◌, ◌==◌, if◌then◌else◌,
}

-- One round of the loop over `bit`.
crc_bit : ℕ → ℕ
crc_bit crc =
    let lsb_set = not (bit_and crc 0x0001 == 0) in
    let shifted = crc / 2 in if lsb_set then bit_xor shifted 0xa001 else shifted

crc_bits : ℕ → ℕ → ℕ
crc_bits zero crc = crc
crc_bits (suc rounds) crc = crc_bits rounds (crc_bit crc)

-- `crc ^= byte`, and eight rounds.
crc_byte : ℕ → ℕ → ℕ
crc_byte crc byte = crc_bits 8 (bit_xor crc byte)

crc_loop : List ℕ → ℕ → ℕ
crc_loop [] crc = crc
crc_loop (byte ∷ rest) crc = crc_loop rest (crc_byte crc byte)

unfoldable pub compute_modbus_crc16 : List ℕ → ℕ
unfolding crc_loop crc_byte crc_bits crc_bit
compute_modbus_crc16 data_bytes = crc_loop data_bytes 0xffff
