-- ===== src/Pdu/Bits.antt =====
-- Coils and discrete inputs in core/modbus/ModbusPduCodec.cpp: the decoder and `packBits`.
use native.Mathlib.Nat.{pow-suc, pow-le-pow_right}
use native.Mathlib.Decide.{ℕ_discrete}
use modbus_viewer.Prelude.{
  ℕ, zero, suc, ◌+◌, ◌-◌, ◌*◌, ◌/◌, ◌%◌, ◌^◌, ◌≤◌, ◌<◌, ◌≡◌, ◌≢◌, refl, ap, ◌∙◌, Bool, List, [],
  ◌∷◌, ◌++◌, some, arith, ◌==◌, leb, ◌||◌, ◌&&◌, length, get_elem?, get_elem?-append_left,
  length-append, bit_and, not, true, false, All, All-set, length-set, set, get_or, bit_or,
  replicate, length-replicate,
}
use modbus_viewer.Prelude.Bits.{
  zero-bit_and, bit_and_two_pow, bit_or_bit, two_pow_bit_self, two_pow_bit_ne, bit_or-lt,
}
use modbus_viewer.Bytes.{IsByte}
use modbus_viewer.Pdu.Requests.{pack_bit, pack_loop, pack_bits}
use modbus_viewer.Pdu.Registers.{header_valid}
use modbus_viewer.Pdu.Responses.{
  decode_checked, read_bit, read_bits, bit_values, counted_bits, bit_body,
  decode_read_bits_response, success,
}

-- Bit `j` of a packed array, lowest bit of the first byte first.
bit_at : List ℕ → ℕ → Bool
bit_at packed j = not (bit_and (get_or packed (j / 8) 0) (2 ^ (j % 8)) == 0)

two_pow_pos : (m : ℕ) → 0 < 2 ^ m
two_pow_pos zero = omega arith
two_pow_pos (suc m) = omega (arith, pow-suc 2 m, two_pow_pos m)

two_pow-IsByte : (m : ℕ) → m < 8 → IsByte (2 ^ m)
two_pow-IsByte m h =
    omega (arith, pow-le-pow_right {n = 2} (omega arith) {i = m} {j = 7} (omega arith))

-- The test `(byte & (1 << m)) != 0` reads bit `m`.
test_bit : (m b : ℕ) → (not (bit_and b (2 ^ m) == 0)) ≡ (b / 2 ^ m % 2 == 1)
test_bit m b = ground (arith, bit_and_two_pow m b, two_pow_pos m)

get_or-set_self : (xs : List ℕ) (i v : ℕ) → i < length xs → get_or (set xs i v) i 0 ≡ v
get_or-set_self [] i v h = elim h [ ]
get_or-set_self (x ∷ xs) zero v h = refl
get_or-set_self (x ∷ xs) (suc i) v h = get_or-set_self xs i v (omega arith)

get_or-set_ne : (xs : List ℕ) (i j v : ℕ) → i ≢ j → get_or (set xs i v) j 0 ≡ get_or xs j 0
get_or-set_ne [] i j v h = refl
get_or-set_ne (x ∷ xs) zero zero v h = absurd (h refl)
get_or-set_ne (x ∷ xs) zero (suc j) v h = refl
get_or-set_ne (x ∷ xs) (suc i) zero v h = refl
get_or-set_ne (x ∷ xs) (suc i) (suc j) v h = get_or-set_ne xs i j v (λ e. h (ap suc e))

get_elem?-get_or : (xs : List ℕ) (i : ℕ) → i < length xs → get_elem? xs i ≡ some (get_or xs i 0)
get_elem?-get_or [] i h = elim h [ ]
get_elem?-get_or (x ∷ xs) zero h = refl
get_elem?-get_or (x ∷ xs) (suc i) h = get_elem?-get_or xs i (omega arith)

get_or-IsByte : (xs : List ℕ) (i : ℕ) → All IsByte xs → IsByte (get_or xs i 0)
get_or-IsByte [] i h = omega arith
get_or-IsByte (x ∷ xs) zero h = h.0
get_or-IsByte (x ∷ xs) (suc i) h = get_or-IsByte xs i h.1

or_bit :
    (b k m : ℕ)
    → IsByte b
    → k < 8
    → (not (bit_and (bit_or b (2 ^ k) % 256) (2 ^ m) == 0))
      ≡ (not (bit_and b (2 ^ m) == 0) || (k == m))
or_bit b k m hb hk =
    let fits : bit_or b (2 ^ k) % 256 ≡ bit_or b (2 ^ k) =
      omega (arith, bit_or-lt 8 b (2 ^ k) hb (two_pow-IsByte k hk)) in
    rw (fits, test_bit m (bit_or b (2 ^ k)), bit_or_bit m b (2 ^ k), test_bit m b)
      (elim (ℕ_discrete k m) [
        | yes e ↦ ground (arith, rw e at (two_pow_bit_self k))
        | no n ↦ ground (arith, two_pow_bit_ne k m n)
      ])

pack_bit_bit :
    (i j : ℕ) (v : Bool) (packed : List ℕ)
    → i / 8 < length packed
    → All IsByte packed
    → bit_at (pack_bit i v packed) j ≡ (bit_at packed j || (v && (i == j)))
unfolding pack_bit bit_at
pack_bit_bit i j false packed h bytes = ground arith
pack_bit_bit i j true packed h bytes = elim (ℕ_discrete (i / 8) (j / 8)) [
  | yes e ↦
      rw
        (
          ← e,
          get_or-set_self packed (i / 8) (bit_or (get_or packed (i / 8) 0) (2 ^ (i % 8)) % 256) h,
        )
        (or_bit (get_or packed (i / 8) 0) (i % 8) (j % 8) (get_or-IsByte packed (i / 8) bytes)
            (omega arith)
          ∙ ground arith)
  | no n ↦
      rw
        (get_or-set_ne packed (i / 8) (j / 8) (bit_or (get_or packed (i / 8) 0) (2 ^ (i % 8)) % 256)
          n)
        (ground arith)
]

pack_bit_shape :
    (i : ℕ) (v : Bool) (packed : List ℕ)
    → All IsByte packed
    → All IsByte (pack_bit i v packed) × (length (pack_bit i v packed) ≡ length packed)
unfolding pack_bit
pack_bit_shape i false packed bytes = (bytes, refl)
pack_bit_shape i true packed bytes =
    (All-set IsByte packed (i / 8) _ bytes (omega arith), length-set packed (i / 8) _)

pub pack_loop_shape :
    (vs : List Bool) (i : ℕ) (packed : List ℕ)
    → All IsByte packed
    → All IsByte (pack_loop vs i packed) × (length (pack_loop vs i packed) ≡ length packed)
unfolding pack_loop
pack_loop_shape [] i packed bytes = (bytes, refl)
pack_loop_shape (v ∷ vs) i packed bytes =
    let (b, l) = pack_bit_shape i v packed bytes in
    let (bs, ls) = pack_loop_shape vs (i + 1) (pack_bit i v packed) b in (bs, ls ∙ l)

element_later :
    (v : Bool) (vs : List Bool) (i j : ℕ)
    → i < j
    → get_or (v ∷ vs) (j - i) false ≡ get_or vs (j - (i + 1)) false
element_later v vs i j h = let e : j - i ≡ suc (j - (i + 1)) = omega arith in rw e refl

element_now : (v : Bool) (vs : List Bool) (i j : ℕ) → i ≡ j → get_or (v ∷ vs) (j - i) false ≡ v
element_now v vs i j h = let e : j - i ≡ 0 = omega arith in rw e refl

shift_element :
    (v : Bool) (vs : List Bool) (i j : ℕ) (x : Bool)
    → ((x || (v && (i == j))) || (leb (i + 1) j && get_or vs (j - (i + 1)) false))
      ≡ (x || (leb i j && get_or (v ∷ vs) (j - i) false))
shift_element v vs i j x = ground (arith, element_later v vs i j, element_now v vs i j)

-- The loop sets bit `i + k` where element `k` is true, and leaves every other bit.
pack_loop_bit :
    (vs : List Bool) (i j : ℕ) (packed : List ℕ)
    → i + length vs ≤ 8 * length packed
    → All IsByte packed
    → bit_at (pack_loop vs i packed) j ≡ (bit_at packed j || (leb i j && get_or vs (j - i) false))
unfolding pack_loop
pack_loop_bit [] i j packed h bytes = ground arith
pack_loop_bit (v ∷ vs) i j packed h bytes =
    let (b, l) = pack_bit_shape i v packed bytes in
    pack_loop_bit vs (i + 1) j (pack_bit i v packed) (omega arith) b
    ∙ rw (pack_bit_bit i j v packed (omega arith) bytes) (shift_element v vs i j (bit_at packed j))

zeros-IsByte : (n : ℕ) → All IsByte (replicate n 0)
zeros-IsByte zero = tt
zeros-IsByte (suc n) = (omega arith, zeros-IsByte n)

zeros_bit : (n j : ℕ) → get_or {A = ℕ} (replicate n 0) j 0 ≡ 0
zeros_bit zero j = refl
zeros_bit (suc n) zero = refl
zeros_bit (suc n) (suc j) = zeros_bit n j

pub length-pack_bits : (vs : List Bool) → length (pack_bits vs) ≡ (length vs + 7) / 8
unfolding pack_bits
length-pack_bits vs =
    (pack_loop_shape vs 0 _ (zeros-IsByte _)).1 ∙ length-replicate ((length vs + 7) / 8) 0

pub pack_bits-IsByte : (vs : List Bool) → All IsByte (pack_bits vs)
unfolding pack_bits
pack_bits-IsByte vs = (pack_loop_shape vs 0 _ (zeros-IsByte _)).0

pack_bits_bit : (vs : List Bool) (j : ℕ) → bit_at (pack_bits vs) j ≡ get_or vs j false
unfolding pack_bits bit_at
pack_bits_bit vs j =
    let start : j - 0 ≡ j = omega arith in
    pack_loop_bit vs 0 j _ (omega (arith, length-replicate {0} {A = ℕ} ((length vs + 7) / 8) 0))
      (zeros-IsByte ((length vs + 7) / 8))
    ∙ rw (zeros_bit ((length vs + 7) / 8) (j / 8), zero-bit_and (2 ^ (j % 8)), start) (ground arith)

read_bit-packed :
    (fc n j : ℕ) (packed rest : List ℕ)
    → j / 8 < length packed
    → read_bit (fc ∷ n ∷ (packed ++ rest)) j ≡ some (bit_at packed j)
unfolding read_bit bit_at
read_bit-packed fc n j packed rest h =
    let at : 2 + j / 8 ≡ suc (suc (j / 8)) = omega arith in
    let left = get_elem?-append_left packed rest (j / 8) h in
    rw (at, left, get_elem?-get_or packed (j / 8) h) refl

read_bits-packed :
    (fc n i : ℕ) (vs : List Bool) (packed rest : List ℕ)
    → i + length vs ≤ 8 * length packed
    → ((k : ℕ) → k < length vs → bit_at packed (i + k) ≡ get_or vs k false)
    → read_bits (fc ∷ n ∷ (packed ++ rest)) (length vs) i ≡ some vs
unfolding read_bits
read_bits-packed fc n i [] packed rest h bits = refl
read_bits-packed fc n i (v ∷ vs) packed rest h bits =
    let here : i + 0 ≡ i = omega arith in
    let first : bit_at packed i ≡ v = rw here at (bits 0 (omega arith)) in
    let later : (k : ℕ) → k < length vs → bit_at packed (i + 1 + k) ≡ get_or vs k false = λ k hk.
      let next : i + 1 + k ≡ i + suc k = omega arith in rw next (bits (suc k) (omega arith)) in
    rw
      (
        read_bit-packed fc n i packed rest (omega arith),
        first,
        read_bits-packed fc n (i + 1) vs packed rest (omega arith) later,
      )
      refl

-- What a device answers to a read of bits. The count is a byte.
abbrev pub bit_response : ℕ → List Bool → List ℕ
bit_response fc values = fc ∷ ((length values + 7) / 8 % 256) ∷ pack_bits values

-- A response that packs up to 2040 `values` as `packBits` does, whose byte count is then a byte, is
-- read back as `values`: the padding of the last byte and bytes behind the response are not reported.
pub decode_bits-bit_response :
    (fc : ℕ) (values : List Bool) (rest : List ℕ)
    → fc < 128
    → length values ≤ 2040
    → decode_read_bits_response (bit_response fc values ++ rest) fc (length values)
      ≡ some (success values)
unfolding decode_read_bits_response decode_checked bit_body counted_bits bit_values
decode_bits-bit_response fc values rest hf short =
    let count = (length values + 7) / 8 in
    let is_byte : count % 256 ≡ count = omega arith in
    let read : read_bits (fc ∷ count ∷ (pack_bits values ++ rest)) (length values) 0 ≡ some values =
      read_bits-packed fc count 0 values (pack_bits values) rest
        (omega (arith, length-pack_bits values))
        (λ k h. let e : 0 + k ≡ k = omega arith in rw e (pack_bits_bit values k)) in
    let size : 2 + count ≤ length (fc ∷ count ∷ (pack_bits values ++ rest)) =
      omega (arith, length-append (pack_bits values) rest, length-pack_bits values) in
    rw (is_byte, header_valid fc (count ∷ (pack_bits values ++ rest)) hf)
      (ground (arith, read, size))
