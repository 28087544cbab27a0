-- ===== src/Bytes.antt =====
-- Bytes and big-endian 16-bit words in a QByteArray, which is a list of numbers below 256:
-- the two helpers at the head of core/modbus/ModbusPduCodec.cpp, which
-- core/modbus/ModbusTcpFramer.cpp repeats word for word.
use modbus_viewer.Prelude.{
  ℕ, ◌+◌, ◌*◌, ◌/◌, ◌%◌, ◌^◌, ◌<◌, bit_and, bit_or, ◌≡◌, refl, ap, ◌∙◌, List, [], ◌∷◌, ◌++◌, Option,
  some, arith, ◌>>=◌, length, get_elem?, get_elem?_below, get_elem?-append_right, All,
}
use modbus_viewer.Prelude.Bits.{bit_and_byte, bit_or_shifted}

abbrev pub IsByte : ℕ → Type 0
IsByte b = b < 256

abbrev pub IsWord : ℕ → Type 0
IsWord w = w < 65536

-- The two bytes that `appendBigEndianU16` appends.
unfoldable pub u16_bytes : ℕ → List ℕ
u16_bytes value = bit_and (value / 2 ^ 8) 0xff ∷ bit_and value 0xff ∷ []

unfoldable pub append_u16 : List ℕ → ℕ → List ℕ
append_u16 buffer value = buffer ++ u16_bytes value

-- `none` is a read outside the array, which Qt leaves undefined.
unfoldable pub read_u16 : List ℕ → ℕ → Option ℕ
read_u16 buffer offset = do
  hi ← get_elem? buffer offset
  lo ← get_elem? buffer (offset + 1)
  some (bit_or (hi * 2 ^ 8) lo)

pub u16_bytes_lem : (v : ℕ) → IsWord v → u16_bytes v ≡ (v / 256) ∷ (v % 256) ∷ []
unfolding u16_bytes
u16_bytes_lem v h =
    let high : bit_and (v / 2 ^ 8) 0xff ≡ v / 256 = bit_and_byte (v / 2 ^ 8) ∙ omega arith in
    rw (high, bit_and_byte v) refl

pub word_of_bytes : (hi lo : ℕ) → IsByte lo → bit_or (hi * 2 ^ 8) lo ≡ hi * 256 + lo
word_of_bytes hi lo h = bit_or_shifted 8 hi lo h

-- What two bytes at an offset read as.
pub read_u16_at :
    (buffer : List ℕ) (offset hi lo : ℕ)
    → get_elem? buffer offset ≡ some hi
    → get_elem? buffer (offset + 1) ≡ some lo
    → IsByte lo
    → read_u16 buffer offset ≡ some (hi * 256 + lo)
unfolding read_u16
read_u16_at buffer offset hi lo eh el h = rw (eh, el, word_of_bytes hi lo h) refl

-- A read of two bytes inside the array succeeds.
pub read_u16_below :
    (buffer : List ℕ) (offset : ℕ)
    → offset + 1 < length buffer
    → (v : ℕ) × (read_u16 buffer offset ≡ some v)
unfolding read_u16
read_u16_below buffer offset h =
    let (hi, eh) = get_elem?_below buffer offset (omega arith) in
    let (lo, el) = get_elem?_below buffer (offset + 1) h in
    (bit_or (hi * 2 ^ 8) lo, rw (eh, el) refl)

-- The word that was appended behind `front` is read back there.
pub read_u16-u16_bytes :
    (front rest : List ℕ) (v : ℕ)
    → IsWord v
    → read_u16 (front ++ (u16_bytes v ++ rest)) (length front) ≡ some v
read_u16-u16_bytes front rest v h =
    read_u16_at _ (length front) (v / 256) (v % 256) (at_zero ∙ rw (u16_bytes_lem v h) refl)
      (at_one ∙ rw (u16_bytes_lem v h) refl) (omega arith)
    ∙ ap some split
  where
    split : v / 256 * 256 + v % 256 ≡ v
    split = omega arith

    zero_offset : length front + 0 ≡ length front
    zero_offset = omega arith

    at_zero :
        get_elem? (front ++ (u16_bytes v ++ rest)) (length front)
        ≡ get_elem? (u16_bytes v ++ rest) 0
    at_zero = rw zero_offset at (get_elem?-append_right front (u16_bytes v ++ rest) 0)

    at_one :
        get_elem? (front ++ (u16_bytes v ++ rest)) (length front + 1)
        ≡ get_elem? (u16_bytes v ++ rest) 1
    at_one = get_elem?-append_right front (u16_bytes v ++ rest) 1

pub length-u16_bytes : (v : ℕ) → length (u16_bytes v) ≡ 2
unfolding u16_bytes
length-u16_bytes v = refl

pub u16_bytes-IsByte : (v : ℕ) → All IsByte (u16_bytes v)
unfolding u16_bytes
u16_bytes-IsByte v = (rw bit_and_byte (omega arith), (rw bit_and_byte (omega arith), tt))
