-- ===== src/Pdu/Requests.antt =====
-- The request half of core/modbus/ModbusPduCodec.cpp.
use modbus_viewer.Prelude.{
  ℕ, ◌+◌, ◌*◌, ◌/◌, ◌%◌, ◌^◌, bit_or, Bool, List, [], ◌∷◌, ◌++◌, if◌then◌else◌, length, set, get_or,
  replicate,
}
use modbus_viewer.Bytes.{append_u16}
use modbus_viewer.Model.{
  FunctionCode, function_byte, write_single_coil, write_single_register, write_multiple_coils,
  write_multiple_registers,
}

-- The body of the loop in `packBits`, at index `i`.
unfoldable pub pack_bit : ℕ → Bool → List ℕ → List ℕ
pack_bit i value packed =
    if value
    then set packed (i / 8) (bit_or (get_or packed (i / 8) 0) (2 ^ (i % 8)) % 256)
    else packed

unfoldable pub pack_loop : List Bool → ℕ → List ℕ → List ℕ
pack_loop [] i packed = packed
pack_loop (value ∷ values) i packed = pack_loop values (i + 1) (pack_bit i value packed)

unfoldable pub pack_bits : List Bool → List ℕ
pack_bits values = pack_loop values 0 (replicate ((length values + 7) / 8) 0)

unfoldable pub encode_read_request : FunctionCode → ℕ → ℕ → List ℕ
encode_read_request function_code start_address quantity =
    append_u16 (append_u16 (function_byte function_code ∷ []) start_address) quantity

unfoldable pub encode_write_single_coil_request : ℕ → Bool → List ℕ
encode_write_single_coil_request address value =
    append_u16 (append_u16 (function_byte write_single_coil ∷ []) address)
      (if value then 0xff00 else 0x0000)

unfoldable pub encode_write_single_register_request : ℕ → ℕ → List ℕ
encode_write_single_register_request address value =
    append_u16 (append_u16 (function_byte write_single_register ∷ []) address) value

-- `quint16(values.size())` and `quint8(packed.size())` wrap.
unfoldable pub encode_write_multiple_coils_request : ℕ → List Bool → List ℕ
encode_write_multiple_coils_request start_address values =
    let header : List ℕ =
      append_u16 (append_u16 (function_byte write_multiple_coils ∷ []) start_address)
        (length values % 65536) in
    let packed = pack_bits values in (header ++ ((length packed % 256) ∷ [])) ++ packed

-- `for (quint16 value : values) appendBigEndianU16(pdu, value);`
unfoldable pub append_words : List ℕ → List ℕ → List ℕ
append_words pdu [] = pdu
append_words pdu (value ∷ values) = append_words (append_u16 pdu value) values

unfoldable pub encode_write_multiple_registers_request : ℕ → List ℕ → List ℕ
encode_write_multiple_registers_request start_address values =
    let header : List ℕ =
      append_u16 (append_u16 (function_byte write_multiple_registers ∷ []) start_address)
        (length values % 65536) in
    append_words (header ++ ((length values * 2 % 256) ∷ [])) values
