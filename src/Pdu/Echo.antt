-- ===== src/Pdu/Echo.antt =====
-- Requests of five bytes, and the write responses, which repeat them.
use modbus_viewer.Prelude.{
  ℕ, ◌+◌, ◌<◌, ◌≡◌, refl, ◌∙◌, Bool, List, [], ◌∷◌, ◌++◌, some, arith, if◌then◌else◌, length,
  length-append, append_assoc, append-nil, get_elem?,
}
use modbus_viewer.Bytes.{
  IsWord, read_u16, u16_bytes, read_u16-u16_bytes, length-u16_bytes, append_u16,
}
use modbus_viewer.Model.{FunctionCode, function_byte}
use modbus_viewer.Pdu.Requests.{
  encode_read_request, encode_write_single_register_request, encode_write_single_coil_request,
}
use modbus_viewer.Pdu.Registers.{header_valid}
use modbus_viewer.Pdu.Responses.{
  success, decode_checked, decode_write_single_response, decode_write_multiple_response,
  write_single_body, write_multiple_body, decode_write_single_register_response,
  decode_write_single_coil_response,
}

-- A function code and two words, as every request of five bytes is laid out.
abbrev pub five_bytes : ℕ → ℕ → ℕ → List ℕ
five_bytes fc first second = append_u16 (append_u16 (fc ∷ []) first) second

two_words :
    (fc first second : ℕ) (rest : List ℕ)
    → IsWord first
    → IsWord second
    → (read_u16 (five_bytes fc first second ++ rest) 1 ≡ some first)
      × (read_u16 (five_bytes fc first second ++ rest) 3 ≡ some second)
      × (length (five_bytes fc first second ++ rest) ≡ 5 + length rest)
      × (get_elem? (five_bytes fc first second ++ rest) 0 ≡ some fc)
unfolding append_u16
two_words fc first second rest ha hv =
    let flat : (u16_bytes first ++ u16_bytes second) ++ rest
        ≡ u16_bytes first ++ (u16_bytes second ++ rest) =
      append_assoc (u16_bytes first) (u16_bytes second) rest in
    let size : length (fc ∷ u16_bytes first) ≡ 3 = omega (arith, length-u16_bytes first) in
    (
      rw flat (read_u16-u16_bytes (fc ∷ []) (u16_bytes second ++ rest) first ha),
      rw (flat, ← size) (read_u16-u16_bytes (fc ∷ u16_bytes first) rest second hv),
      rw flat (
          omega (
            arith,
            length-append (u16_bytes first) (u16_bytes second ++ rest),
            length-append (u16_bytes second) rest,
            length-u16_bytes first,
            length-u16_bytes second,
          )),
      refl,
    )

-- A read request carries its function code, start address and quantity, and nothing else.
pub encode_read_request_fields :
    (function_code : FunctionCode) (start_address quantity : ℕ)
    → IsWord start_address
    → IsWord quantity
    → let pdu = encode_read_request function_code start_address quantity in
      (get_elem? pdu 0 ≡ some (function_byte function_code))
      × (read_u16 pdu 1 ≡ some start_address)
      × (read_u16 pdu 3 ≡ some quantity)
      × (length pdu ≡ 5)
unfolding encode_read_request
encode_read_request_fields fc start quantity hs hq =
    let (a, q, n, f) = two_words (function_byte fc) start quantity [] hs hq in
    let whole = append-nil (five_bytes (function_byte fc) start quantity) in
    (rw whole at f, rw whole at a, rw whole at q, rw whole at n ∙ omega arith)

echoed :
    (fc first second : ℕ) (rest : List ℕ)
    → fc < 128
    → IsWord first
    → IsWord second
    → (decode_write_single_response (five_bytes fc first second ++ rest) fc
        ≡ some (success (record { address = first; value = second })))
      × (decode_write_multiple_response (five_bytes fc first second ++ rest) fc
          ≡ some (success (record { start_address = first; quantity = second })))
unfolding decode_write_single_response decode_write_multiple_response decode_checked
    write_single_body write_multiple_body append_u16
echoed fc first second rest hf ha hv =
    let (a, v, n, _) = two_words fc first second rest ha hv in
    let header = header_valid fc ((u16_bytes first ++ u16_bytes second) ++ rest) hf in
    (rw (header, a, v) (ground arith), rw (header, a, v) (ground arith))

-- A device confirms a write of one register or coil by repeating the request, and the decoders read
-- the address and the value back from it: 0xFF00 for a coil that is on, 0 for one that is off.
pub decode_write_single-request :
    (address value : ℕ) (on : Bool) (rest : List ℕ)
    → IsWord address
    → IsWord value
    → (decode_write_single_register_response
          (encode_write_single_register_request address value ++ rest)
        ≡ some (success (record { address = address; value = value })))
      × (decode_write_single_coil_response (encode_write_single_coil_request address on ++ rest)
          ≡ some (success (record { address = address; value = if on then 0xff00 else 0 })))
unfolding decode_write_single_register_response decode_write_single_coil_response
    encode_write_single_register_request encode_write_single_coil_request
decode_write_single-request address value on rest ha hv = (
  (echoed 6 address value rest (omega arith) ha hv).0,
  (echoed 5 address (if on then 0xff00 else 0) rest (omega arith) ha (ground arith)).0,
)
