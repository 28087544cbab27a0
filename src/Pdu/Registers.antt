-- ===== src/Pdu/Registers.antt =====
-- The decoder of register responses in core/modbus/ModbusPduCodec.cpp.
use mathlib.Core.Path.{ap₂}
use modbus_viewer.Prelude.{
  ℕ, zero, suc, ◌+◌, ◌*◌, ◌/◌, ◌%◌, ◌≤◌, ◌<◌, ◌≡◌, refl, sym, ap, ◌∙◌, List, [], ◌∷◌, ◌++◌, Option,
  none, some, arith, length, get_elem?, length-append, append_assoc, append-nil, bit_and,
  All-get_elem?, true, false, All, >>=-eq-some, drop,
}
use modbus_viewer.Prelude.Bits.{bit_and_two_pow}
use modbus_viewer.Bytes.{
  u16_bytes_lem, word_of_bytes, IsByte, IsWord, read_u16, u16_bytes, append_u16, read_u16-u16_bytes,
  length-u16_bytes,
}
use modbus_viewer.Pdu.Exceptions.{Message, is_exception_function_code}
use modbus_viewer.Pdu.Requests.{append_words}
use modbus_viewer.Pdu.Responses.{
  PduDecodeResult, malformed, ResponseHeaderCheck, invalid, exceptional, check_response_header,
  valid, decode_checked, read_registers, register_values, counted_registers, register_body,
  decode_read_registers_response, success,
}

-- A function code that is no exception has its top bit clear.
pub is_exception-of_lt : (fc : ℕ) → fc < 128 → is_exception_function_code fc ≡ false
unfolding is_exception_function_code
is_exception-of_lt fc h =
    let top : bit_and fc 0x80 ≡ 0 = bit_and_two_pow 7 fc ∙ omega arith in rw top refl

pub is_exception-of_le : (fc : ℕ) → IsByte fc → 128 ≤ fc → is_exception_function_code fc ≡ true
unfolding is_exception_function_code
is_exception-of_le fc b h =
    let top : bit_and fc 0x80 ≡ 128 = bit_and_two_pow 7 fc ∙ omega arith in rw top refl

pub header_valid :
    (fc : ℕ) (rest : List ℕ) → fc < 128 → check_response_header (fc ∷ rest) fc ≡ some valid
unfolding check_response_header
header_valid fc rest h = rw (is_exception-of_lt fc h) (ground arith)

-- The payload: each value as two bytes, high byte first.
abbrev pub words : List ℕ → List ℕ
words [] = []
words (v ∷ vs) = u16_bytes v ++ words vs

-- What a device answers to a read of registers.
abbrev pub register_response : ℕ → List ℕ → List ℕ
register_response fc values = fc ∷ (2 * length values) ∷ words values

pub append_words-words : (pdu values : List ℕ) → append_words pdu values ≡ pdu ++ words values
unfolding append_words append_u16
append_words-words pdu [] = sym (append-nil pdu)
append_words-words pdu (v ∷ vs) =
    append_words-words (pdu ++ u16_bytes v) vs ∙ append_assoc pdu (u16_bytes v) (words vs)

pub length-words : (values : List ℕ) → length (words values) ≡ 2 * length values
length-words [] = omega arith
length-words (v ∷ vs) =
    omega (arith, length-append (u16_bytes v) (words vs), length-u16_bytes v, length-words vs)

read_registers-words :
    (front values rest : List ℕ) (i : ℕ)
    → length front ≡ 2 + i
    → All IsWord values
    → read_registers (front ++ (words values ++ rest)) (length values) i ≡ some values
unfolding read_registers
read_registers-words front [] rest i h w = refl
read_registers-words front (v ∷ vs) rest i h w =
    let split : front ++ ((u16_bytes v ++ words vs) ++ rest)
        ≡ (front ++ u16_bytes v) ++ (words vs ++ rest) =
      ap (◌++◌ front) (append_assoc (u16_bytes v) (words vs) rest)
      ∙ sym (append_assoc front (u16_bytes v) (words vs ++ rest)) in
    let whole : front ++ ((u16_bytes v ++ words vs) ++ rest)
        ≡ front ++ (u16_bytes v ++ (words vs ++ rest)) =
      ap (◌++◌ front) (append_assoc (u16_bytes v) (words vs) rest) in
    let first : read_u16 (front ++ ((u16_bytes v ++ words vs) ++ rest)) (2 + i) ≡ some v =
      rw (whole, ← h) (read_u16-u16_bytes front (words vs ++ rest) v w.0) in
    let others : read_registers (front ++ ((u16_bytes v ++ words vs) ++ rest)) (length vs) (i + 2)
        ≡ some vs =
      rw split (
        read_registers-words (front ++ u16_bytes v) vs rest (i + 2)
          (omega (arith, length-append front (u16_bytes v), length-u16_bytes v)) w.1) in
    rw (first, others) refl

-- Whatever a device sends for at most 127 registers, the decoder returns exactly those values; bytes
-- behind the response change nothing.
pub decode_registers-register_response :
    (fc : ℕ) (values rest : List ℕ)
    → fc < 128
    → All IsWord values
    → length values ≤ 127
    → decode_read_registers_response (register_response fc values ++ rest) fc
      ≡ some (success values)
unfolding decode_read_registers_response decode_checked register_body counted_registers
    register_values
decode_registers-register_response fc values rest hf w short =
    let rounds : (2 * length values + 1) / 2 ≡ length values = omega arith in
    let read : read_registers (register_response fc values ++ rest) ((2 * length values + 1) / 2) 0
        ≡ some values =
      rw rounds
        (read_registers-words (fc ∷ (2 * length values) ∷ []) values rest 0 (omega arith) w) in
    let size : 2 + 2 * length values ≤ length (register_response fc values ++ rest) =
      omega (arith, length-append (words values) rest, length-words values) in
    rw (header_valid fc ((2 * length values) ∷ (words values ++ rest)) hf)
      (ground (arith, read, size))

drop-get_elem? : (xs : List ℕ) (i a : ℕ) → get_elem? xs i ≡ some a → drop i xs ≡ a ∷ drop (i + 1) xs
drop-get_elem? [] i a h = cc
drop-get_elem? (x ∷ xs) zero a h = ground arith
drop-get_elem? (x ∷ xs) (suc i) a h =
    let next : suc i + 1 ≡ suc (i + 1) = omega arith in rw next (drop-get_elem? xs i a h)

read_u16_sound :
    (pdu : List ℕ) (offset v : ℕ)
    → All IsByte pdu
    → read_u16 pdu offset ≡ some v
    → (drop offset pdu ≡ u16_bytes v ++ drop (offset + 2) pdu) × IsWord v
unfolding read_u16
read_u16_sound pdu offset v bytes h =
    let (hi, eh, h') = >>=-eq-some (get_elem? pdu offset) _ h in
    let (lo, el, h'') = >>=-eq-some (get_elem? pdu (offset + 1)) _ h' in
    let bh = All-get_elem? IsByte pdu offset hi bytes eh in
    let bl = All-get_elem? IsByte pdu (offset + 1) lo bytes el in
    let value : v ≡ hi * 256 + lo = cc (word_of_bytes hi lo bl) in
    let word : IsWord v = omega arith in
    let two : offset + 1 + 1 ≡ offset + 2 = omega arith in
    let top : v / 256 ≡ hi = omega arith in
    let low : v % 256 ≡ lo = omega arith in
    let first = drop-get_elem? pdu offset hi eh in
    let second : drop (offset + 1) pdu ≡ lo ∷ drop (offset + 2) pdu =
      rw (← two) (drop-get_elem? pdu (offset + 1) lo el) in
    (rw (u16_bytes_lem v word, top, low, first, second) refl, word)

read_registers_sound :
    (pdu : List ℕ) (rounds i : ℕ) (vs : List ℕ)
    → All IsByte pdu
    → read_registers pdu rounds i ≡ some vs
    → (drop (2 + i) pdu ≡ words vs ++ drop (2 + i + 2 * rounds) pdu)
      × All IsWord vs
      × (length vs ≡ rounds)
unfolding read_registers
read_registers_sound pdu zero i vs bytes h =
    let none_read : vs ≡ [] = cc in
    let same : 2 + i + 2 * 0 ≡ 2 + i = omega arith in rw (none_read, same) (refl, tt, refl)
read_registers_sound pdu (suc rounds) i vs bytes h =
    let (v, ev, h') = >>=-eq-some (read_u16 pdu (2 + i)) _ h in
    let (ws, ew, h'') = >>=-eq-some (read_registers pdu rounds (i + 2)) _ h' in
    let (first, word) = read_u16_sound pdu (2 + i) v bytes ev in
    let (others, all, size) = read_registers_sound pdu rounds (i + 2) ws bytes ew in
    let list : vs ≡ v ∷ ws = cc in
    let next : 2 + (i + 2) ≡ 2 + i + 2 = omega arith in
    let end : 2 + i + 2 + 2 * rounds ≡ 2 + i + 2 * suc rounds = omega arith in
    rw list (
      first
          ∙ ap (◌++◌ (u16_bytes v)) (rw (next, end) at others)
          ∙ sym (append_assoc (u16_bytes v) (words ws) (drop (2 + i + 2 * suc rounds) pdu)),
      (word, all),
      omega arith,
    )

pub decode_checked_success {ℓ} :
    {T : Type ℓ} (check : Option ResponseHeaderCheck) (body : Option (PduDecodeResult T)) {v : T}
    → decode_checked check body ≡ some (success v)
    → (check ≡ some valid) × (body ≡ some (success v))
unfolding decode_checked
decode_checked_success none body h = cc
decode_checked_success (some valid) body h = (refl, h)
decode_checked_success (some (invalid m)) body h = cc
decode_checked_success (some (exceptional r)) body h = cc

pub header_valid_code :
    (a fc : ℕ) (rest : List ℕ) → check_response_header (a ∷ rest) fc ≡ some valid → a ≡ fc
unfolding check_response_header
header_valid_code a fc [] h = ground arith
header_valid_code a fc (b ∷ rest) h = ground arith

counted_registers_success :
    (pdu : List ℕ) (n : ℕ) (vs : List ℕ)
    → counted_registers pdu n ≡ some (success vs)
    → (n % 2 ≡ 0) × (read_registers pdu ((n + 1) / 2) 0 ≡ some vs)
unfolding counted_registers register_values
counted_registers_success pdu n vs h = ground arith

register_body_counted :
    (a n : ℕ) (rest : List ℕ) → register_body (a ∷ n ∷ rest) ≡ counted_registers (a ∷ n ∷ rest) n
unfolding register_body
register_body_counted a n rest = ground arith

short_body : {vs : List ℕ} {m : Message} → some (malformed m) ≡ some (success vs) → ⊥
short_body e = cc

-- A register response is accepted only if its bytes are exactly what the protocol prescribes for the
-- values returned, up to bytes behind it: the function code asked for, twice the number of values, and
-- each value high byte first.
pub decode_registers_sound :
    (pdu : List ℕ) (fc : ℕ) (values : List ℕ)
    → All IsByte pdu
    → decode_read_registers_response pdu fc ≡ some (success values)
    → (rest : List ℕ) × (pdu ≡ register_response fc values ++ rest) × All IsWord values
unfolding decode_read_registers_response register_body
decode_registers_sound [] fc values bytes h =
    absurd (short_body (decode_checked_success _ (register_body []) h).1)
decode_registers_sound (a ∷ []) fc values bytes h =
    absurd (short_body (decode_checked_success _ (register_body (a ∷ [])) h).1)
decode_registers_sound (a ∷ n ∷ rest) fc values bytes h =
    let (header, body) = decode_checked_success _ (register_body (a ∷ n ∷ rest)) h in
    let code = header_valid_code a fc (n ∷ rest) header in
    let (even, read) =
      counted_registers_success (a ∷ n ∷ rest) n values
        (sym (register_body_counted a n rest) ∙ body) in
    let (payload, all, size) =
      read_registers_sound (a ∷ n ∷ rest) ((n + 1) / 2) 0 values bytes read in
    let count : n ≡ 2 * length values = omega arith in
    let bytes_of : a ∷ n ∷ rest
        ≡ a ∷ n ∷ (words values ++ drop (2 + 0 + 2 * ((n + 1) / 2)) (a ∷ n ∷ rest)) =
      ap (λ (t : List ℕ). a ∷ n ∷ t) payload in
    (
      drop (2 + 0 + 2 * ((n + 1) / 2)) (a ∷ n ∷ rest),
      bytes_of
          ∙ ap₂
              (λ (s t : ℕ).
                s ∷ t ∷ (words values ++ drop (2 + 0 + 2 * ((n + 1) / 2)) (a ∷ n ∷ rest)))
              code count,
      all,
    )
