-- ===== src/Framing/Rtu/Length.antt =====
-- `expectedRtuResponseLength` of core/modbus/ModbusRtuFramer.cpp on whole and partial frames.
use modbus_viewer.Prelude.{
  ℕ, ◌+◌, ◌<◌, ◌≡◌, ◌≢◌, refl, sym, ap, ◌∙◌, ◌⊎◌, inl, inr, subst, List, [], ◌∷◌, ◌++◌, true, false,
  arith, length, length-append, append_assoc, append-nil,
}
use native.Mathlib.Decide.{ℕ_discrete}
use modbus_viewer.Bytes.{length-u16_bytes, append_u16, u16_bytes}
use modbus_viewer.Pdu.Registers.{is_exception-of_lt, is_exception-of_le}
use modbus_viewer.Pdu.Echo.{five_bytes}
use modbus_viewer.Framing.Rtu.{
  encode_rtu_frame, is_read_function_code, is_write_function_code, length_by_function,
  expected_rtu_response_length,
}

-- The responses of the protocol: an exception, a confirmed write, and a read of any payload.
pub data ResponsePdu : List ℕ → Type 0 where
  exception_pdu : (fc code : ℕ) → fc < 128 → ResponsePdu ((fc + 128) ∷ code ∷ [])
  write_pdu :
      (fc first second : ℕ)
      → fc < 128
      → is_write_function_code fc ≡ true
      → ResponsePdu (five_bytes fc first second)
  read_pdu :
      (fc : ℕ) (payload : List ℕ)
      → fc < 128
      → is_read_function_code fc ≡ true
      → is_write_function_code fc ≡ false
      → ResponsePdu (fc ∷ length payload ∷ payload)

length-encode_rtu_frame : (u : ℕ) (pdu : List ℕ) → length (encode_rtu_frame u pdu) ≡ length pdu + 3
unfolding encode_rtu_frame
length-encode_rtu_frame u pdu = omega (arith, length-append pdu (_ ∷ _ ∷ []))

expected_of_pdu :
    (u : ℕ) (pdu tail : List ℕ)
    → ResponsePdu pdu
    → expected_rtu_response_length (u ∷ (pdu ++ tail)) ≡ length pdu + 3
unfolding expected_rtu_response_length length_by_function append_u16
expected_of_pdu u pdu tail (exception_pdu fc code h) =
    rw (is_exception-of_le (fc + 128) (omega arith) (omega arith)) (ground arith)
expected_of_pdu u pdu tail (write_pdu fc first second h w) =
    rw (is_exception-of_lt fc h, w)
      (ground (
        arith,
        length-append (u16_bytes first) (u16_bytes second),
        length-u16_bytes first,
        length-u16_bytes second,
      ))
expected_of_pdu u pdu tail (read_pdu fc payload h r w) =
    rw (is_exception-of_lt fc h, w, r) (ground arith)

-- Once determined, the length does not change when more bytes arrive.
expected_stable :
    (front back : List ℕ)
    → expected_rtu_response_length front ≢ 0
    → expected_rtu_response_length (front ++ back) ≡ expected_rtu_response_length front
unfolding expected_rtu_response_length length_by_function
expected_stable [] back h = absurd (h refl)
expected_stable (a ∷ []) back h = absurd (h refl)
expected_stable (a ∷ b ∷ []) back h = ground arith
expected_stable (a ∷ b ∷ c ∷ rest) back h = ground arith

encoded_shape :
    (u : ℕ) (pdu : List ℕ) → (tail : List ℕ) × (encode_rtu_frame u pdu ≡ u ∷ (pdu ++ tail))
unfolding encode_rtu_frame
encoded_shape u pdu = (_, refl)

-- On a stream that begins with the frame of a response, the inferred length is that frame's.
pub expected_length_whole :
    (unit_id : ℕ) (pdu rest : List ℕ)
    → ResponsePdu pdu
    → expected_rtu_response_length (encode_rtu_frame unit_id pdu ++ rest)
      ≡ length (encode_rtu_frame unit_id pdu)
expected_length_whole unit_id pdu rest r =
    let (tail, e) = encoded_shape unit_id pdu in
    ap (λ f. expected_rtu_response_length (f ++ rest)) e
    ∙ ap (λ t. expected_rtu_response_length (unit_id ∷ t)) (append_assoc pdu tail rest)
    ∙ expected_of_pdu unit_id pdu (tail ++ rest) r
    ∙ sym (length-encode_rtu_frame unit_id pdu)

-- On a proper part of the frame of a response, the length is unknown or longer than the part: the
-- reader waits for more.
pub expected_length_part :
    (unit_id : ℕ) (pdu front back : List ℕ)
    → ResponsePdu pdu
    → encode_rtu_frame unit_id pdu ≡ front ++ back
    → 0 < length back
    → (expected_rtu_response_length front ≡ 0) ⊎ (length front < expected_rtu_response_length front)
expected_length_part unit_id pdu front back r e h =
    elim (ℕ_discrete (expected_rtu_response_length front) 0) [
      | yes unknown ↦ inl unknown
      | no known ↦
          let whole : expected_rtu_response_length (front ++ back) ≡ length (front ++ back) =
            subst (λ f. expected_rtu_response_length f ≡ length f) (append-nil _ ∙ e)
              (expected_length_whole unit_id pdu [] r ∙ ap length (sym (append-nil _))) in
          inr (omega (arith, expected_stable front back known, length-append front back))
    ]
