-- ===== src/Framing/Rtu/Corruption.antt =====
-- `decodeRtuFrame` of core/modbus/ModbusRtuFramer.cpp on a frame with one byte changed.
use native.Mathlib.Decide.{ℕ_discrete}
use modbus_viewer.Prelude.{
  append_assoc, All-append, ℕ, ◌+◌, ◌*◌, ◌/◌, ◌^◌, ◌≡◌, ◌≢◌, refl, sym, ap, ◌∙◌, subst, bit_and,
  List, [], ◌∷◌, ◌++◌, none, Option-cases, inl, inr, arith, length, All, length-append,
  All-append_left, All-append_right,
}
use modbus_viewer.Prelude.Bits.{bit_and_byte}
use modbus_viewer.Bytes.{IsByte, IsWord}
use modbus_viewer.Crc.{compute_modbus_crc16}
use modbus_viewer.Crc.Injective.{crc16-IsWord, crc16_single_byte}
use modbus_viewer.Framing.Rtu.{encode_rtu_frame, decode_rtu_frame}
use modbus_viewer.Framing.Rtu.RoundTrip.{decode_rtu_frame_sound}

-- Where an element of `m ++ x ∷ y ∷ []` stands.
data Place (m : List ℕ) (x y : ℕ) (front : List ℕ) (a : ℕ) (back : List ℕ) : Type 0 where
  in_message :
      (mid : List ℕ)
      → m ≡ front ++ (a ∷ mid)
      → back ≡ mid ++ (x ∷ y ∷ [])
      → Place m x y front a back
  in_low : m ≡ front → x ≡ a → back ≡ y ∷ [] → Place m x y front a back
  in_high : m ++ (x ∷ []) ≡ front → y ≡ a → back ≡ [] → Place m x y front a back

further :
    (f : ℕ) (m : List ℕ) (x y : ℕ) (front : List ℕ) (a : ℕ) (back : List ℕ)
    → Place m x y front a back
    → Place (f ∷ m) x y (f ∷ front) a back
further f m x y front a back (in_message mid e b) = in_message mid (ap (◌∷◌ f) e) b
further f m x y front a back (in_low e l b) = in_low (ap (◌∷◌ f) e) l b
further f m x y front a back (in_high e l b) = in_high (ap (◌∷◌ f) e) l b

place :
    (m : List ℕ) (x y : ℕ) (front : List ℕ) (a : ℕ) (back : List ℕ)
    → m ++ (x ∷ y ∷ []) ≡ front ++ (a ∷ back)
    → Place m x y front a back
place [] x y [] a back e = in_low refl (cc) (cc)
place [] x y (f ∷ []) a back e = let first : x ≡ f = cc in in_high (rw first refl) (cc) (cc)
place [] x y (f ∷ g ∷ front) a back e =
    absurd (omega (arith, ap length e, length-append front (a ∷ back)))
place (f ∷ m) x y [] a back e = let first : f ≡ a = cc in in_message m (rw first refl) (cc)
place (f ∷ m) x y (g ∷ front) a back e =
    let first : f ≡ g = cc in
    subst (λ h. Place (f ∷ m) x y (h ∷ front) a back) first
      (further f m x y front a back (place m x y front a back (cc)))

end_injective :
    (m n : List ℕ) (x y z w : ℕ)
    → m ++ (x ∷ y ∷ []) ≡ n ++ (z ∷ w ∷ [])
    → (m ≡ n) × (x ≡ z) × (y ≡ w)
end_injective [] [] x y z w e = (refl, cc, cc)
end_injective [] (b ∷ n) x y z w e =
    absurd (omega (arith, ap length e, length-append n (z ∷ w ∷ [])))
end_injective (a ∷ m) [] x y z w e =
    absurd (omega (arith, ap length e, length-append m (x ∷ y ∷ [])))
end_injective (a ∷ m) (b ∷ n) x y z w e =
    let (s, p, q) = end_injective m n x y z w (cc) in let first : a ≡ b = cc in (cc, p, q)

last_injective : (m n : List ℕ) (x z : ℕ) → m ++ (x ∷ []) ≡ n ++ (z ∷ []) → (m ≡ n) × (x ≡ z)
last_injective [] [] x z e = (refl, cc)
last_injective [] (b ∷ n) x z e = absurd (omega (arith, ap length e, length-append n (z ∷ [])))
last_injective (a ∷ m) [] x z e = absurd (omega (arith, ap length e, length-append m (x ∷ [])))
last_injective (a ∷ m) (b ∷ n) x z e =
    let (s, p) = last_injective m n x z (cc) in let first : a ≡ b = cc in (cc, p)

message_clash :
    (front mid : List ℕ) (a b : ℕ)
    → All IsByte (front ++ (a ∷ mid))
    → IsByte b
    → compute_modbus_crc16 (front ++ (a ∷ mid)) ≡ compute_modbus_crc16 (front ++ (b ∷ mid))
    → a ≡ b
message_clash front mid a b h hb e = elim (ℕ_discrete a b) [
  | yes same ↦ same
  | no other ↦
      let (ha, hm) = All-append_right IsByte front (a ∷ mid) h in
      absurd (
        crc16_single_byte front mid a b (All-append_left IsByte front (a ∷ mid) h) hm ha hb other e)
]

module _ (m n : List ℕ) (x y z w : ℕ) (front back : List ℕ) (a b : ℕ) where
  -- Two frames whose checksums fit, and which agree but for one byte, agree in that byte too.
  clash :
      All IsByte (front ++ (a ∷ back))
      → IsByte b
      → compute_modbus_crc16 m ≡ y * 256 + x
      → compute_modbus_crc16 n ≡ w * 256 + z
      → Place m x y front a back
      → Place n z w front b back
      → a ≡ b
  clash h hb cm cn (in_message mid em bm) (in_message mid' en bn) =
      let (same, low, high) = end_injective mid mid' x y z w (sym bm ∙ bn) in
      let bytes : All IsByte ((front ++ (a ∷ mid)) ++ (x ∷ y ∷ [])) =
        subst (All IsByte)
          (ap (λ t. front ++ (a ∷ t)) bm ∙ sym (append_assoc front (a ∷ mid) (x ∷ y ∷ []))) h in
      let crc : compute_modbus_crc16 (front ++ (a ∷ mid)) ≡ y * 256 + x =
        ap compute_modbus_crc16 (sym em) ∙ cm in
      let crc' : compute_modbus_crc16 (front ++ (b ∷ mid)) ≡ w * 256 + z =
        ap compute_modbus_crc16 (ap (λ t. front ++ (b ∷ t)) same ∙ sym en) ∙ cn in
      message_clash front mid a b (All-append_left IsByte (front ++ (a ∷ mid)) (x ∷ y ∷ []) bytes)
        hb (omega arith)
  clash h hb cm cn (in_message mid em bm) (in_low en l bn) =
      absurd (omega (arith, ap length bm, ap length bn, length-append mid (x ∷ y ∷ [])))
  clash h hb cm cn (in_message mid em bm) (in_high en l bn) =
      absurd (omega (arith, ap length bm, ap length bn, length-append mid (x ∷ y ∷ [])))
  clash h hb cm cn (in_low em l bm) (in_message mid en bn) =
      absurd (omega (arith, ap length bm, ap length bn, length-append mid (z ∷ w ∷ [])))
  clash h hb cm cn (in_low em l bm) (in_low en l' bn) =
      let crc : compute_modbus_crc16 m ≡ compute_modbus_crc16 n =
        ap compute_modbus_crc16 (em ∙ sym en) in
      let high : y ≡ w = cc in omega arith
  clash h hb cm cn (in_low em l bm) (in_high en l' bn) =
      absurd (omega (arith, ap length bm, ap length bn))
  clash h hb cm cn (in_high em l bm) (in_message mid en bn) =
      absurd (omega (arith, ap length bm, ap length bn, length-append mid (z ∷ w ∷ [])))
  clash h hb cm cn (in_high em l bm) (in_low en l' bn) =
      absurd (omega (arith, ap length bm, ap length bn))
  clash h hb cm cn (in_high em l bm) (in_high en l' bn) =
      let (same, low) = last_injective m n x z (em ∙ sym en) in
      let crc : compute_modbus_crc16 m ≡ compute_modbus_crc16 n = ap compute_modbus_crc16 same in
      omega arith

crc_bytes_word : (crc : ℕ) → IsWord crc → crc ≡ bit_and (crc / 2 ^ 8) 0xff * 256 + bit_and crc 0xff
crc_bytes_word crc h = rw (bit_and_byte crc, bit_and_byte (crc / 2 ^ 8)) (omega arith)

encoded-Place :
    (unit_id : ℕ) (pdu front : List ℕ) (a : ℕ) (back : List ℕ)
    → encode_rtu_frame unit_id pdu ≡ front ++ (a ∷ back)
    → Place
        (unit_id ∷ pdu)
        (bit_and (compute_modbus_crc16 (unit_id ∷ pdu)) 0xff)
        (bit_and (compute_modbus_crc16 (unit_id ∷ pdu) / 2 ^ 8) 0xff)
        front
        a
        back
unfolding encode_rtu_frame
encoded-Place unit_id pdu front a back e = place _ _ _ front a back e

encoded_bytes :
    (unit_id : ℕ) (pdu : List ℕ)
    → IsByte unit_id
    → All IsByte pdu
    → All IsByte (encode_rtu_frame unit_id pdu)
unfolding encode_rtu_frame
encoded_bytes unit_id pdu hu hp =
    All-append IsByte (unit_id ∷ pdu) _ (hu, hp)
      (rw bit_and_byte (omega arith), (rw bit_and_byte (omega arith), tt))

encoded_message :
    (unit_id : ℕ) (pdu : List ℕ)
    → All IsByte (encode_rtu_frame unit_id pdu)
    → All IsByte (unit_id ∷ pdu)
unfolding encode_rtu_frame
encoded_message unit_id pdu h = All-append_left IsByte (unit_id ∷ pdu) _ h

-- If one byte of an encoded frame is replaced by another, be it the unit id, a byte of the PDU or a
-- byte of the checksum, the decoder refuses the frame.
pub decode_rtu_frame_corrupted :
    (unit_id : ℕ) (pdu front back : List ℕ) (a b : ℕ)
    → IsByte unit_id
    → All IsByte pdu
    → IsByte b
    → a ≢ b
    → encode_rtu_frame unit_id pdu ≡ front ++ (a ∷ back)
    → decode_rtu_frame (front ++ (b ∷ back)) ≡ none
decode_rtu_frame_corrupted unit_id pdu front back a b hu hp hb n e =
    elim (Option-cases (decode_rtu_frame (front ++ (b ∷ back)))) [
      | inl refused ↦ refused
      | inr (d, read) ↦
          let bytes : All IsByte (front ++ (a ∷ back)) =
            subst (All IsByte) e (encoded_bytes unit_id pdu hu hp) in
          let (ha, hk) = All-append_right IsByte front (a ∷ back) bytes in
          let changed : All IsByte (front ++ (b ∷ back)) =
            All-append IsByte front (b ∷ back) (All-append_left IsByte front (a ∷ back) bytes)
              (hb, hk) in
          let whole = decode_rtu_frame_sound (front ++ (b ∷ back)) d changed read in
          let message = encoded_message d.unit_id d.pdu (subst (All IsByte) whole changed) in
          absurd (
            n (
              clash (unit_id ∷ pdu) (d.unit_id ∷ d.pdu) _ _ _ _ front back a b bytes hb
                (crc_bytes_word _ (crc16-IsWord _ (hu, hp)))
                (crc_bytes_word _ (crc16-IsWord _ message))
                (encoded-Place unit_id pdu front a back e)
                (encoded-Place d.unit_id d.pdu front b back (sym whole))))
    ]
