-- ===== src/Crc/Injective.antt =====
-- The checksum of core/modbus/Crc16.cpp on messages that differ.
use modbus_viewer.Prelude.{
  ℕ, zero, suc, ◌/◌, ◌%◌, ◌^◌, ◌≤◌, ◌<◌, ◌≡◌, ◌≢◌, refl, sym, ◌∙◌, ◌⊎◌, inl, inr, List, [], ◌∷◌,
  ◌++◌, arith, bit_xor, All,
}
use modbus_viewer.Prelude.Bits.{
  bit_and_one, bit_xor-lt, bit_xor_injective, bit_xor_bit, bit_xor_comm,
}
use modbus_viewer.Bytes.{IsByte, IsWord}
use modbus_viewer.Crc.{crc_bit, crc_bits, crc_byte, crc_loop, compute_modbus_crc16}

-- A round, by the lowest bit.
crc_bit_cases :
    (c : ℕ)
    → ((c % 2 ≡ 0) × (crc_bit c ≡ c / 2)) ⊎ ((c % 2 ≡ 1) × (crc_bit c ≡ bit_xor (c / 2) 0xa001))
unfolding crc_bit
crc_bit_cases c = ground (arith, bit_and_one c)

crc_bit-IsWord : (c : ℕ) → IsWord c → IsWord (crc_bit c)
crc_bit-IsWord c h = elim (crc_bit_cases c) [
  | inl (_, e) ↦ rw e (omega arith)
  | inr (_, e) ↦ rw e (bit_xor-lt 16 (c / 2) 0xa001 (omega arith) (omega arith))
]

-- The polynomial sets the top bit, which a shift leaves clear.
top_set : (x : ℕ) → x < 2 ^ 15 → 2 ^ 15 ≤ bit_xor x 0xa001
top_set x h =
    let clear : x / 2 ^ 15 % 2 ≡ 0 = omega arith in
    let set : bit_xor x 0xa001 / 2 ^ 15 % 2 ≡ 1 = bit_xor_bit 15 x 0xa001 ∙ rw clear refl in
    omega arith

crc_bit_injective : (a b : ℕ) → IsWord a → IsWord b → crc_bit a ≡ crc_bit b → a ≡ b
crc_bit_injective a b ha hb e = elim (crc_bit_cases a) [
  | inl (ra, ea) ↦ elim (crc_bit_cases b) [
    | inl (rb, eb) ↦ omega arith
    | inr (rb, eb) ↦ absurd (omega (arith, top_set (b / 2) (omega arith)))
  ]
  | inr (ra, ea) ↦ elim (crc_bit_cases b) [
    | inl (rb, eb) ↦ absurd (omega (arith, top_set (a / 2) (omega arith)))
    | inr (rb, eb) ↦
        let half =
          bit_xor_injective 16 (a / 2) (b / 2) 0xa001 (omega arith) (omega arith) (omega arith)
            (sym ea ∙ e ∙ eb) in
        omega arith
  ]
]

crc_bits_injective : (n a b : ℕ) → IsWord a → IsWord b → crc_bits n a ≡ crc_bits n b → a ≡ b
unfolding crc_bits
crc_bits_injective zero a b ha hb e = e
crc_bits_injective (suc n) a b ha hb e =
    crc_bit_injective a b ha hb
      (crc_bits_injective n (crc_bit a) (crc_bit b) (crc_bit-IsWord a ha) (crc_bit-IsWord b hb) e)

crc_bits-IsWord : (n c : ℕ) → IsWord c → IsWord (crc_bits n c)
unfolding crc_bits
crc_bits-IsWord zero c h = h
crc_bits-IsWord (suc n) c h = crc_bits-IsWord n (crc_bit c) (crc_bit-IsWord c h)

crc_byte-IsWord : (c b : ℕ) → IsWord c → IsByte b → IsWord (crc_byte c b)
unfolding crc_byte
crc_byte-IsWord c b hc hb = crc_bits-IsWord 8 (bit_xor c b) (bit_xor-lt 16 c b hc (omega arith))

-- Another state before the byte, another state after it.
crc_byte_state : (c d b : ℕ) → IsWord c → IsWord d → IsByte b → crc_byte c b ≡ crc_byte d b → c ≡ d
unfolding crc_byte
crc_byte_state c d b hc hd hb e = bit_xor_injective 16 c d b hc hd (omega arith) (
    crc_bits_injective 8 (bit_xor c b) (bit_xor d b) (bit_xor-lt 16 c b hc (omega arith))
      (bit_xor-lt 16 d b hd (omega arith)) e)

bit_xor_second : (c a b : ℕ) → IsWord c → IsByte a → IsByte b → bit_xor c a ≡ bit_xor c b → a ≡ b
bit_xor_second c a b hc ha hb e =
    bit_xor_injective 16 a b c (omega arith) (omega arith) hc
      (bit_xor_comm 16 a c (omega arith) hc ∙ e ∙ bit_xor_comm 16 c b hc (omega arith))

crc_byte_data : (c a b : ℕ) → IsWord c → IsByte a → IsByte b → crc_byte c a ≡ crc_byte c b → a ≡ b
unfolding crc_byte
crc_byte_data c a b hc ha hb e = bit_xor_second c a b hc ha hb (
    crc_bits_injective 8 (bit_xor c a) (bit_xor c b) (bit_xor-lt 16 c a hc (omega arith))
      (bit_xor-lt 16 c b hc (omega arith)) e)

crc_loop-IsWord : (bytes : List ℕ) (c : ℕ) → All IsByte bytes → IsWord c → IsWord (crc_loop bytes c)
unfolding crc_loop
crc_loop-IsWord [] c h hc = hc
crc_loop-IsWord (b ∷ bs) c h hc = crc_loop-IsWord bs (crc_byte c b) h.1 (crc_byte-IsWord c b hc h.0)

crc_loop_state :
    (bytes : List ℕ) (c d : ℕ)
    → All IsByte bytes
    → IsWord c
    → IsWord d
    → crc_loop bytes c ≡ crc_loop bytes d
    → c ≡ d
unfolding crc_loop
crc_loop_state [] c d h hc hd e = e
crc_loop_state (b ∷ bs) c d h hc hd e = crc_byte_state c d b hc hd h.0 (
    crc_loop_state bs (crc_byte c b) (crc_byte d b) h.1 (crc_byte-IsWord c b hc h.0)
      (crc_byte-IsWord d b hd h.0) e)

crc_loop-append : (xs ys : List ℕ) (c : ℕ) → crc_loop (xs ++ ys) c ≡ crc_loop ys (crc_loop xs c)
unfolding crc_loop
crc_loop-append [] ys c = refl
crc_loop-append (x ∷ xs) ys c = crc_loop-append xs ys (crc_byte c x)

-- The checksum of bytes fits 16 bits.
pub crc16-IsWord : (bytes : List ℕ) → All IsByte bytes → IsWord (compute_modbus_crc16 bytes)
unfolding compute_modbus_crc16
crc16-IsWord bytes h = crc_loop-IsWord bytes 0xffff h (omega arith)

-- Two messages that differ in one byte, anywhere, have different checksums.
pub crc16_single_byte :
    (front back : List ℕ) (a b : ℕ)
    → All IsByte front
    → All IsByte back
    → IsByte a
    → IsByte b
    → a ≢ b
    → compute_modbus_crc16 (front ++ (a ∷ back)) ≢ compute_modbus_crc16 (front ++ (b ∷ back))
unfolding compute_modbus_crc16 crc_loop
crc16_single_byte front back a b hf hk ha hb n e =
    let start = crc_loop-IsWord front 0xffff hf (omega arith) in
    let s = crc_loop front 0xffff in
    n (
      crc_byte_data s a b start ha hb (
        crc_loop_state back (crc_byte s a) (crc_byte s b) hk (crc_byte-IsWord s a start ha)
          (crc_byte-IsWord s b start hb)
          (sym (crc_loop-append front (a ∷ back) 0xffff)
            ∙ e
            ∙ crc_loop-append front (b ∷ back) 0xffff)))
