-- ===== src/Pdu/Safety.antt =====
-- The reads of the decoders of core/modbus/ModbusPduCodec.cpp.
use modbus_viewer.Prelude.{
  ℕ, zero, suc, ◌+◌, ◌*◌, ◌/◌, ◌%◌, ◌^◌, ◌≤◌, ◌<◌, ◌≡◌, refl, ◌≢◌, inl, inr, Bool, List, [], ◌∷◌,
  Option, none, some, arith, ◌==◌, ltb, Bool-cases, length, get_elem?_below, bit_and, not,
}
use modbus_viewer.Bytes.{read_u16_below}
use modbus_viewer.Pdu.Responses.{
  PduDecodeResult, ResponseHeaderCheck, check_response_header, decode_checked, read_registers,
  register_values, counted_registers, register_body, decode_read_registers_response, read_bit,
  read_bits, bit_values, counted_bits, bit_body, decode_read_bits_response, write_single_body,
  decode_write_single_response, write_multiple_body, decode_write_multiple_response,
}

check_response_header-ne-none :
    (pdu : List ℕ) (expected : ℕ) → check_response_header pdu expected ≢ none
unfolding check_response_header
check_response_header-ne-none [] expected = λ e. cc
check_response_header-ne-none (a ∷ []) expected = λ e. ground arith
check_response_header-ne-none (a ∷ b ∷ rest) expected = λ e. ground arith

decode_checked-ne-none {ℓ} :
    {T : Type ℓ} (check : Option ResponseHeaderCheck) (body : Option (PduDecodeResult T))
    → check ≢ none
    → body ≢ none
    → decode_checked check body ≢ none
unfolding decode_checked
decode_checked-ne-none none body h k = absurd (h refl)
decode_checked-ne-none (some ResponseHeaderCheck.valid) body h k = k
decode_checked-ne-none (some (ResponseHeaderCheck.invalid m)) body h k = λ e. cc
decode_checked-ne-none (some (ResponseHeaderCheck.exceptional r)) body h k = λ e. cc

pub read_registers_defined :
    (pdu : List ℕ) (rounds i : ℕ)
    → 2 + i + 2 * rounds ≤ length pdu
    → (vs : List ℕ) × (read_registers pdu rounds i ≡ some vs) × (length vs ≡ rounds)
unfolding read_registers
read_registers_defined pdu zero i h = ([], refl, refl)
read_registers_defined pdu (suc rounds) i h =
    let (v, ev) = read_u16_below pdu (2 + i) (omega arith) in
    let (vs, es, el) = read_registers_defined pdu rounds (i + 2) (omega arith) in
    (v ∷ vs, rw (ev, es) refl, omega arith)

read_bit_defined :
    (pdu : List ℕ) (bit : ℕ) → 2 + bit / 8 < length pdu → (v : Bool) × (read_bit pdu bit ≡ some v)
unfolding read_bit
read_bit_defined pdu bit h =
    let (b, e) = get_elem?_below pdu (2 + bit / 8) h in
    (not (bit_and b (2 ^ (bit % 8)) == 0), rw e refl)

pub read_bits_defined :
    (pdu : List ℕ) (rounds bit : ℕ)
    → 2 + (bit + rounds + 7) / 8 ≤ length pdu
    → (vs : List Bool) × (read_bits pdu rounds bit ≡ some vs) × (length vs ≡ rounds)
unfolding read_bits
read_bits_defined pdu zero bit h = ([], refl, refl)
read_bits_defined pdu (suc rounds) bit h =
    let (v, ev) = read_bit_defined pdu bit (omega arith) in
    let (vs, es, el) = read_bits_defined pdu rounds (bit + 1) (omega arith) in
    (v ∷ vs, rw (ev, es) refl, omega arith)

counted_registers-ne-none : (pdu : List ℕ) (n : ℕ) → counted_registers pdu n ≢ none
unfolding counted_registers register_values
counted_registers-ne-none pdu n = elim (Bool-cases (ltb (length pdu) (2 + n))) [
  | inl short ↦ λ e. ground arith
  | inr fits ↦ elim (Bool-cases (n % 2 == 0)) [
    | inr odd ↦ λ e. ground arith
    | inl even ↦
        let (vs, es, _) = read_registers_defined pdu ((n + 1) / 2) 0 (ground arith) in
        rw (even, fits, es) (λ e. cc)
  ]
]

counted_bits-ne-none : (pdu : List ℕ) (q n : ℕ) → counted_bits pdu q n ≢ none
unfolding counted_bits bit_values
counted_bits-ne-none pdu q n = elim (Bool-cases (ltb (length pdu) (2 + n))) [
  | inl short ↦ λ e. ground arith
  | inr fits ↦ elim (Bool-cases (n == (q + 7) / 8)) [
    | inr differs ↦ λ e. ground arith
    | inl same ↦
        let (vs, es, _) = read_bits_defined pdu q 0 (ground arith) in rw (same, fits, es) (λ e. cc)
  ]
]

register_body-ne-none : (pdu : List ℕ) → register_body pdu ≢ none
unfolding register_body
register_body-ne-none [] = λ e. cc
register_body-ne-none (a ∷ []) = λ e. cc
register_body-ne-none (a ∷ b ∷ rest) = ground (arith, counted_registers-ne-none (a ∷ b ∷ rest) b)

bit_body-ne-none : (pdu : List ℕ) (q : ℕ) → bit_body pdu q ≢ none
unfolding bit_body
bit_body-ne-none [] q = λ e. cc
bit_body-ne-none (a ∷ []) q = λ e. cc
bit_body-ne-none (a ∷ b ∷ rest) q = ground (arith, counted_bits-ne-none (a ∷ b ∷ rest) q b)

write_single_body-ne-none : (pdu : List ℕ) → write_single_body pdu ≢ none
unfolding write_single_body
write_single_body-ne-none pdu = elim (Bool-cases (ltb (length pdu) 5)) [
  | inl short ↦ rw short (λ e. cc)
  | inr long ↦
      let (a, ea) = read_u16_below pdu 1 (ground arith) in
      let (v, ev) = read_u16_below pdu 3 (ground arith) in rw (long, ea, ev) (λ e. cc)
]

write_multiple_body-ne-none : (pdu : List ℕ) → write_multiple_body pdu ≢ none
unfolding write_multiple_body
write_multiple_body-ne-none pdu = elim (Bool-cases (ltb (length pdu) 5)) [
  | inl short ↦ rw short (λ e. cc)
  | inr long ↦
      let (a, ea) = read_u16_below pdu 1 (ground arith) in
      let (v, ev) = read_u16_below pdu 3 (ground arith) in rw (long, ea, ev) (λ e. cc)
]

-- On every PDU, of any length and any bytes, each of the four decoders returns a result: none of
-- its reads goes outside the array.
pub decoders-ne-none :
    (pdu : List ℕ) (expected quantity : ℕ)
    → (decode_read_registers_response pdu expected ≢ none)
      × (decode_read_bits_response pdu expected quantity ≢ none)
      × (decode_write_single_response pdu expected ≢ none)
      × (decode_write_multiple_response pdu expected ≢ none)
unfolding decode_read_registers_response decode_read_bits_response decode_write_single_response
    decode_write_multiple_response
decoders-ne-none pdu expected quantity =
    let checked = check_response_header-ne-none pdu expected in
    (
      decode_checked-ne-none _ _ checked (register_body-ne-none pdu),
      decode_checked-ne-none _ _ checked (bit_body-ne-none pdu quantity),
      decode_checked-ne-none _ _ checked (write_single_body-ne-none pdu),
      decode_checked-ne-none _ _ checked (write_multiple_body-ne-none pdu),
    )
