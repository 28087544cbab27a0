-- ===== src/Framing/Rtu/RoundTrip.antt =====
-- `encodeRtuFrame` and `decodeRtuFrame` of core/modbus/ModbusRtuFramer.cpp, one after the other.
use modbus_viewer.Prelude.{
  subst, ℕ, ◌+◌, ◌-◌, ◌*◌, ◌/◌, ◌%◌, ◌^◌, ◌≤◌, ◌≡◌, refl, sym, ap, ◌∙◌, bit_and, bit_or, false,
  All-append_right, List, [], ◌∷◌, ◌++◌, none, some, arith, ◌==◌, ltb, if◌then◌else◌, length,
  get_or, All, length-append, take-append_exact, get_or-append_right,
}
use modbus_viewer.Prelude.Bits.{bit_and_byte, bit_or_comm, bit_or_shifted}
use modbus_viewer.Bytes.{IsByte}
use modbus_viewer.Crc.{compute_modbus_crc16}
use modbus_viewer.Crc.Injective.{crc16-IsWord}
use modbus_viewer.Framing.Rtu.{
  DecodedRtuFrame, encode_rtu_frame, received_crc, without_crc, decode_rtu_frame,
}

pub crc_of_bytes : (lo hi : ℕ) → IsByte lo → IsByte hi → bit_or lo (hi * 2 ^ 8) ≡ hi * 256 + lo
crc_of_bytes lo hi hl hh =
    bit_or_comm 16 lo (hi * 2 ^ 8) (omega arith) (omega arith) ∙ bit_or_shifted 8 hi lo hl

pub received_crc-append :
    (message : List ℕ) (lo hi : ℕ)
    → IsByte lo
    → IsByte hi
    → (received_crc (message ++ (lo ∷ hi ∷ [])) ≡ hi * 256 + lo)
      × (without_crc (message ++ (lo ∷ hi ∷ [])) ≡ message)
unfolding received_crc without_crc
received_crc-append message lo hi hl hh =
    let size : length (message ++ (lo ∷ hi ∷ [])) ≡ length message + 2 =
      length-append message (lo ∷ hi ∷ []) in
    let cut : length message + 2 - 2 ≡ length message = omega arith in
    let last : length message + 2 - 1 ≡ length message + 1 = omega arith in
    let first_byte : get_or (message ++ (lo ∷ hi ∷ [])) (length message) 0 ≡ lo =
      get_or-append_right message (lo ∷ hi ∷ []) (length message) 0 0 (omega arith) in
    let second_byte : get_or (message ++ (lo ∷ hi ∷ [])) (length message + 1) 0 ≡ hi =
      get_or-append_right message (lo ∷ hi ∷ []) (length message + 1) 1 0 refl in
    (
      rw (size, cut, last, first_byte, second_byte) (crc_of_bytes lo hi hl hh),
      rw (size, cut) (take-append_exact message (lo ∷ hi ∷ [])),
    )

-- What a frame must satisfy to be accepted, and what it is then read as.
decode_rtu_split :
    (unit_id : ℕ) (pdu : List ℕ) (lo hi : ℕ)
    → IsByte lo
    → IsByte hi
    → decode_rtu_frame ((unit_id ∷ pdu) ++ (lo ∷ hi ∷ [])) ≡ (
        if compute_modbus_crc16 (unit_id ∷ pdu) == hi * 256 + lo
        then some (record { unit_id = unit_id; pdu = pdu })
        else none)
unfolding decode_rtu_frame
decode_rtu_split unit_id pdu lo hi hl hh =
    let (crc, message) = received_crc-append (unit_id ∷ pdu) lo hi hl hh in
    let long : ltb (length ((unit_id ∷ pdu) ++ (lo ∷ hi ∷ []))) 3 ≡ false =
      ground (arith, length-append (unit_id ∷ pdu) (lo ∷ hi ∷ [])) in
    rw (long, crc, message) refl

-- A frame that was encoded from bytes is decoded to the same unit id and PDU.
pub decode-encode_rtu_frame :
    (unit_id : ℕ) (pdu : List ℕ)
    → IsByte unit_id
    → All IsByte pdu
    → decode_rtu_frame (encode_rtu_frame unit_id pdu)
      ≡ some (record { unit_id = unit_id; pdu = pdu })
unfolding encode_rtu_frame
decode-encode_rtu_frame unit_id pdu hu hp =
    let crc = compute_modbus_crc16 (unit_id ∷ pdu) in
    let word = crc16-IsWord (unit_id ∷ pdu) (hu, hp) in
    let lo : bit_and crc 0xff ≡ crc % 256 = bit_and_byte crc in
    let hi : bit_and (crc / 2 ^ 8) 0xff ≡ crc / 256 = bit_and_byte (crc / 2 ^ 8) ∙ omega arith in
    rw (lo, hi, decode_rtu_split unit_id pdu (crc % 256) (crc / 256) (omega arith) (omega arith))
      (ground arith)

-- Every list of three elements or more ends in two.
split_end :
    (a : ℕ) (xs : List ℕ)
    → 2 ≤ length xs
    → (m : List ℕ) × (lo : ℕ) × (hi : ℕ) × (xs ≡ m ++ (lo ∷ hi ∷ []))
split_end a [] h = absurd (omega arith)
split_end a (x ∷ []) h = absurd (omega arith)
split_end a (x ∷ y ∷ []) h = ([], x, y, refl)
split_end a (x ∷ y ∷ z ∷ rest) h =
    let (m, lo, hi, e) = split_end a (y ∷ z ∷ rest) (omega arith) in (x ∷ m, lo, hi, ap (◌∷◌ x) e)

accepted :
    (unit_id : ℕ) (pdu : List ℕ) (lo hi : ℕ) (d : DecodedRtuFrame)
    → IsByte lo
    → IsByte hi
    → decode_rtu_frame ((unit_id ∷ pdu) ++ (lo ∷ hi ∷ [])) ≡ some d
    → (compute_modbus_crc16 (unit_id ∷ pdu) ≡ hi * 256 + lo)
      × (d ≡ record { unit_id = unit_id; pdu = pdu })
accepted unit_id pdu lo hi d hl hh e =
    let split = sym (decode_rtu_split unit_id pdu lo hi hl hh) ∙ e in ground arith

split_sound :
    (unit_id : ℕ) (pdu : List ℕ) (lo hi : ℕ) (d : DecodedRtuFrame)
    → All IsByte ((unit_id ∷ pdu) ++ (lo ∷ hi ∷ []))
    → decode_rtu_frame ((unit_id ∷ pdu) ++ (lo ∷ hi ∷ [])) ≡ some d
    → (unit_id ∷ pdu) ++ (lo ∷ hi ∷ []) ≡ encode_rtu_frame d.unit_id d.pdu
unfolding encode_rtu_frame
split_sound unit_id pdu lo hi d h e =
    let (hl, (hh, _)) = All-append_right IsByte (unit_id ∷ pdu) (lo ∷ hi ∷ []) h in
    let (crc, read) = accepted unit_id pdu lo hi d hl hh e in
    let low : bit_and (hi * 256 + lo) 0xff ≡ lo = bit_and_byte (hi * 256 + lo) ∙ omega arith in
    let high : bit_and ((hi * 256 + lo) / 2 ^ 8) 0xff ≡ hi =
      bit_and_byte ((hi * 256 + lo) / 2 ^ 8) ∙ omega arith in
    rw (read, crc, low, high) refl

-- A frame that is accepted is exactly what the encoder writes for the unit id and the PDU returned.
pub decode_rtu_frame_sound :
    (frame : List ℕ) (d : DecodedRtuFrame)
    → All IsByte frame
    → decode_rtu_frame frame ≡ some d
    → frame ≡ encode_rtu_frame d.unit_id d.pdu
decode_rtu_frame_sound [] d h e = unfold decode_rtu_frame in cc
decode_rtu_frame_sound (a ∷ []) d h e = unfold decode_rtu_frame in cc
decode_rtu_frame_sound (a ∷ b ∷ []) d h e = unfold decode_rtu_frame in cc
decode_rtu_frame_sound (a ∷ b ∷ c ∷ rest) d h e =
    let (m, lo, hi, s) = split_end a (b ∷ c ∷ rest) (omega arith) in
    subst (λ f. All IsByte f → decode_rtu_frame f ≡ some d → f ≡ encode_rtu_frame d.unit_id d.pdu)
      (sym (ap (◌∷◌ a) s)) (split_sound a m lo hi d) h e
