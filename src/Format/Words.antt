-- ===== src/Format/Words.antt =====
-- `packBytes` and `unpackToRegisters` of core/format/ValueFormatter.cpp.
use modbus_viewer.Prelude.{
  ℕ, ◌+◌, ◌*◌, ◌/◌, ◌%◌, ◌^◌, ◌<◌, ◌≡◌, refl, ap, ◌∙◌, bit_and, bit_or, List, [], ◌∷◌, arith,
}
use modbus_viewer.Prelude.Bits.{bit_or_shifted, bit_and_byte}
use modbus_viewer.Bytes.{IsByte, IsWord, word_of_bytes}

pub data ByteOrder : Type 0 where
  abcd badc cdab dcba : ByteOrder

unfoldable pub join_bytes : ℕ → ℕ → ℕ → ℕ → ℕ
join_bytes a b c d = bit_or (bit_or (bit_or (a * 2 ^ 24) (b * 2 ^ 16)) (c * 2 ^ 8)) d

unfoldable pub pack_bytes : ℕ → ℕ → ByteOrder → ℕ
pack_bytes r0 r1 byte_order =
    let h0 = r0 / 2 ^ 8 % 256 in
    let l0 = bit_and r0 0xff in
    let h1 = r1 / 2 ^ 8 % 256 in
    let l1 = bit_and r1 0xff in
    elim byte_order [
      | abcd ↦ join_bytes h0 l0 h1 l1
      | badc ↦ join_bytes l0 h0 l1 h1
      | cdab ↦ join_bytes h1 l1 h0 l0
      | dcba ↦ join_bytes l1 h1 l0 h0
    ]

unfoldable pub word_at : ℕ → ℕ → ℕ
word_at hi lo = bit_or (hi * 2 ^ 8) lo

unfoldable pub unpack_to_registers : ℕ → ByteOrder → List ℕ
unpack_to_registers value32 byte_order =
    let a = bit_and (value32 / 2 ^ 24) 0xff in
    let b = bit_and (value32 / 2 ^ 16) 0xff in
    let c = bit_and (value32 / 2 ^ 8) 0xff in
    let d = bit_and value32 0xff in
    elim byte_order [
      | abcd ↦ word_at a b ∷ word_at c d ∷ []
      | badc ↦ word_at b a ∷ word_at d c ∷ []
      | cdab ↦ word_at c d ∷ word_at a b ∷ []
      | dcba ↦ word_at d c ∷ word_at b a ∷ []
    ]

pub join_bytes_lem :
    (a b c d : ℕ)
    → IsByte b
    → IsByte c
    → IsByte d
    → join_bytes a b c d ≡ ((a * 256 + b) * 256 + c) * 256 + d
unfolding join_bytes
join_bytes_lem a b c d hb hc hd =
    let first : bit_or (a * 2 ^ 24) (b * 2 ^ 16) ≡ (a * 256 + b) * 2 ^ 16 =
      bit_or_shifted 24 a (b * 2 ^ 16) (omega arith) ∙ omega arith in
    let second : bit_or ((a * 256 + b) * 2 ^ 16) (c * 2 ^ 8) ≡ ((a * 256 + b) * 256 + c) * 2 ^ 8 =
      bit_or_shifted 16 (a * 256 + b) (c * 2 ^ 8) (omega arith) ∙ omega arith in
    rw (first, second) (bit_or_shifted 8 ((a * 256 + b) * 256 + c) d hd ∙ omega arith)

pack_bytes_lem :
    (r0 r1 : ℕ) (byte_order : ByteOrder)
    → pack_bytes r0 r1 byte_order ≡ elim byte_order [
      | abcd ↦ join_bytes (r0 / 256 % 256) (r0 % 256) (r1 / 256 % 256) (r1 % 256)
      | badc ↦ join_bytes (r0 % 256) (r0 / 256 % 256) (r1 % 256) (r1 / 256 % 256)
      | cdab ↦ join_bytes (r1 / 256 % 256) (r1 % 256) (r0 / 256 % 256) (r0 % 256)
      | dcba ↦ join_bytes (r1 % 256) (r1 / 256 % 256) (r0 % 256) (r0 / 256 % 256)
    ]
unfolding pack_bytes
pack_bytes_lem r0 r1 abcd = rw (bit_and_byte r0, bit_and_byte r1) refl
pack_bytes_lem r0 r1 badc = rw (bit_and_byte r0, bit_and_byte r1) refl
pack_bytes_lem r0 r1 cdab = rw (bit_and_byte r0, bit_and_byte r1) refl
pack_bytes_lem r0 r1 dcba = rw (bit_and_byte r0, bit_and_byte r1) refl

-- The four bytes of a 32-bit value, from the highest on.
byte_of : (value k : ℕ) → bit_and (value / k) 0xff ≡ value / k % 256
byte_of value k = bit_and_byte (value / k)

unpack_lem :
    (v : ℕ) (byte_order : ByteOrder)
    → unpack_to_registers v byte_order ≡ elim byte_order [
      | abcd ↦
          word_at (v / 2 ^ 24 % 256) (v / 2 ^ 16 % 256) ∷ word_at (v / 2 ^ 8 % 256) (v % 256) ∷ []
      | badc ↦
          word_at (v / 2 ^ 16 % 256) (v / 2 ^ 24 % 256) ∷ word_at (v % 256) (v / 2 ^ 8 % 256) ∷ []
      | cdab ↦
          word_at (v / 2 ^ 8 % 256) (v % 256) ∷ word_at (v / 2 ^ 24 % 256) (v / 2 ^ 16 % 256) ∷ []
      | dcba ↦
          word_at (v % 256) (v / 2 ^ 8 % 256) ∷ word_at (v / 2 ^ 16 % 256) (v / 2 ^ 24 % 256) ∷ []
    ]
unfolding unpack_to_registers
unpack_lem v abcd =
    rw (byte_of v (2 ^ 24), byte_of v (2 ^ 16), byte_of v (2 ^ 8), bit_and_byte v) refl
unpack_lem v badc =
    rw (byte_of v (2 ^ 24), byte_of v (2 ^ 16), byte_of v (2 ^ 8), bit_and_byte v) refl
unpack_lem v cdab =
    rw (byte_of v (2 ^ 24), byte_of v (2 ^ 16), byte_of v (2 ^ 8), bit_and_byte v) refl
unpack_lem v dcba =
    rw (byte_of v (2 ^ 24), byte_of v (2 ^ 16), byte_of v (2 ^ 8), bit_and_byte v) refl

-- The registers that carry the bytes `a b c d` of a value.
registers_of : ℕ → ℕ → ℕ → ℕ → ByteOrder → List ℕ
registers_of a b c d abcd = (a * 256 + b) ∷ (c * 256 + d) ∷ []
registers_of a b c d badc = (b * 256 + a) ∷ (d * 256 + c) ∷ []
registers_of a b c d cdab = (c * 256 + d) ∷ (a * 256 + b) ∷ []
registers_of a b c d dcba = (d * 256 + c) ∷ (b * 256 + a) ∷ []

abbrev value_of : ℕ → ℕ → ℕ → ℕ → ℕ
value_of a b c d = ((a * 256 + b) * 256 + c) * 256 + d

digits_of :
    (a b c d : ℕ)
    → IsByte a
    → IsByte b
    → IsByte c
    → IsByte d
    → (value_of a b c d / 2 ^ 24 % 256 ≡ a)
      × (value_of a b c d / 2 ^ 16 % 256 ≡ b)
      × (value_of a b c d / 2 ^ 8 % 256 ≡ c)
      × (value_of a b c d % 256 ≡ d)
digits_of a b c d ha hb hc hd = (omega arith, omega arith, omega arith, omega arith)

unpack_bytes :
    (a b c d : ℕ) (byte_order : ByteOrder)
    → IsByte a
    → IsByte b
    → IsByte c
    → IsByte d
    → unpack_to_registers (value_of a b c d) byte_order ≡ registers_of a b c d byte_order
unfolding registers_of word_at
unpack_bytes a b c d abcd ha hb hc hd =
    let (e1, e2, e3, e4) = digits_of a b c d ha hb hc hd in
    unpack_lem (value_of a b c d) abcd
    ∙ simp (e1, e2, e3, e4) (rw (word_of_bytes a b hb, word_of_bytes c d hd) refl)
unpack_bytes a b c d badc ha hb hc hd =
    let (e1, e2, e3, e4) = digits_of a b c d ha hb hc hd in
    unpack_lem (value_of a b c d) badc
    ∙ simp (e1, e2, e3, e4) (rw (word_of_bytes b a ha, word_of_bytes d c hc) refl)
unpack_bytes a b c d cdab ha hb hc hd =
    let (e1, e2, e3, e4) = digits_of a b c d ha hb hc hd in
    unpack_lem (value_of a b c d) cdab
    ∙ simp (e1, e2, e3, e4) (rw (word_of_bytes a b hb, word_of_bytes c d hd) refl)
unpack_bytes a b c d dcba ha hb hc hd =
    let (e1, e2, e3, e4) = digits_of a b c d ha hb hc hd in
    unpack_lem (value_of a b c d) dcba
    ∙ simp (e1, e2, e3, e4) (rw (word_of_bytes b a ha, word_of_bytes d c hc) refl)

unpack_joined :
    (a b c d : ℕ) (byte_order : ByteOrder)
    → IsByte a
    → IsByte b
    → IsByte c
    → IsByte d
    → unpack_to_registers (join_bytes a b c d) byte_order ≡ registers_of a b c d byte_order
unpack_joined a b c d byte_order ha hb hc hd =
    ap (λ v. unpack_to_registers v byte_order) (join_bytes_lem a b c d hb hc hd)
    ∙ unpack_bytes a b c d byte_order ha hb hc hd

split_word : (r : ℕ) → IsWord r → (r / 256 % 256) * 256 + r % 256 ≡ r
split_word r h = omega arith

-- Packing two registers and unpacking the value gives the registers again, for every byte order.
pub unpack-pack_bytes :
    (r0 r1 : ℕ) (byte_order : ByteOrder)
    → IsWord r0
    → IsWord r1
    → unpack_to_registers (pack_bytes r0 r1 byte_order) byte_order ≡ r0 ∷ r1 ∷ []
unfolding registers_of
unpack-pack_bytes r0 r1 abcd h0 h1 =
    ap (λ v. unpack_to_registers v abcd) (pack_bytes_lem r0 r1 abcd)
    ∙ unpack_joined (r0 / 256 % 256) (r0 % 256) (r1 / 256 % 256) (r1 % 256) abcd (omega arith)
        (omega arith) (omega arith) (omega arith)
    ∙ rw (split_word r0 h0, split_word r1 h1) refl
unpack-pack_bytes r0 r1 badc h0 h1 =
    ap (λ v. unpack_to_registers v badc) (pack_bytes_lem r0 r1 badc)
    ∙ unpack_joined (r0 % 256) (r0 / 256 % 256) (r1 % 256) (r1 / 256 % 256) badc (omega arith)
        (omega arith) (omega arith) (omega arith)
    ∙ rw (split_word r0 h0, split_word r1 h1) refl
unpack-pack_bytes r0 r1 cdab h0 h1 =
    ap (λ v. unpack_to_registers v cdab) (pack_bytes_lem r0 r1 cdab)
    ∙ unpack_joined (r1 / 256 % 256) (r1 % 256) (r0 / 256 % 256) (r0 % 256) cdab (omega arith)
        (omega arith) (omega arith) (omega arith)
    ∙ rw (split_word r0 h0, split_word r1 h1) refl
unpack-pack_bytes r0 r1 dcba h0 h1 =
    ap (λ v. unpack_to_registers v dcba) (pack_bytes_lem r0 r1 dcba)
    ∙ unpack_joined (r1 % 256) (r1 / 256 % 256) (r0 % 256) (r0 / 256 % 256) dcba (omega arith)
        (omega arith) (omega arith) (omega arith)
    ∙ rw (split_word r0 h0, split_word r1 h1) refl

pub pack_bytes-lt : (r0 r1 : ℕ) (byte_order : ByteOrder) → pack_bytes r0 r1 byte_order < 4294967296
pack_bytes-lt r0 r1 abcd =
    rw
      (
        pack_bytes_lem r0 r1 abcd,
        join_bytes_lem (r0 / 256 % 256) (r0 % 256) (r1 / 256 % 256) (r1 % 256) (omega arith)
            (omega arith) (omega arith),
      )
      (omega arith)
pack_bytes-lt r0 r1 badc =
    rw
      (
        pack_bytes_lem r0 r1 badc,
        join_bytes_lem (r0 % 256) (r0 / 256 % 256) (r1 % 256) (r1 / 256 % 256) (omega arith)
            (omega arith) (omega arith),
      )
      (omega arith)
pack_bytes-lt r0 r1 cdab =
    rw
      (
        pack_bytes_lem r0 r1 cdab,
        join_bytes_lem (r1 / 256 % 256) (r1 % 256) (r0 / 256 % 256) (r0 % 256) (omega arith)
            (omega arith) (omega arith),
      )
      (omega arith)
pack_bytes-lt r0 r1 dcba =
    rw
      (
        pack_bytes_lem r0 r1 dcba,
        join_bytes_lem (r1 % 256) (r1 / 256 % 256) (r0 % 256) (r0 / 256 % 256) (omega arith)
            (omega arith) (omega arith),
      )
      (omega arith)
