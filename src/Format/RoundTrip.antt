-- ===== src/Format/RoundTrip.antt =====
-- `formatValue` and `parseValue` of core/format/ValueFormatter.cpp, one after the other.
use modbus_viewer.Prelude.{
  ℕ, ◌-◌, ◌<◌, ◌≡◌, refl, Bool, true, false, List, [], ◌∷◌, ◌++◌, some, ◌>>=◌, arith, length,
  length-append, drop, take, take-append_exact, drop-append_exact, All,
}
use modbus_viewer.Prelude.Integers.{
  ℤ, pos, negsuc, signed16, signed32, unsigned-signed16, unsigned-signed32, unsigned16-pos,
  unsigned32-pos,
}
use modbus_viewer.Prelude.Texts.{Text, text_eq, ends_with, chop}
use modbus_viewer.Bytes.{IsWord}
use modbus_viewer.Format.Words.{pack_bytes, unpack-pack_bytes, pack_bytes-lt}
use modbus_viewer.Format.Settings.{
  DisplayFormat, signed_decimal, unsigned_decimal, hex, binary, float32, int32_signed,
  int32_unsigned, FormatSettings, Numerics, register_span_for,
}
use modbus_viewer.Format.Values.{
  packed, is_default_scaling, with_unit, without_unit, integer_text, format_value, parse_value,
  parse_decimal, registers_of_double, space,
}

-- The integers of 32 bits, signed or not.
abbrev pub Fits32 : ℤ → Type 0
Fits32 (pos k) = k < 4294967296
Fits32 (negsuc k) = k < 2147483648

-- What Qt documents: the text of such an integer is read back exactly, and rounding keeps it.
pub record IsExact {R : Type 0} (n : Numerics R) : Type 0 where
  pub to_double_number : (i : ℤ) → Fits32 i → n.to_double (n.number i) ≡ some (n.of_integer i)
  pub round_of_integer : (i : ℤ) → Fits32 i → n.round64 (n.of_integer i) ≡ i

unfoldable pub is_integer_format : DisplayFormat → Bool
is_integer_format signed_decimal = true
is_integer_format unsigned_decimal = true
is_integer_format int32_signed = true
is_integer_format int32_unsigned = true
is_integer_format hex = false
is_integer_format binary = false
is_integer_format float32 = false

text_eq_refl : (t : Text) → text_eq t t ≡ true
text_eq_refl [] = refl
text_eq_refl (a ∷ t) = ground (arith, text_eq_refl t)

drop_back : (t s : Text) → drop (length (t ++ s) - length s) (t ++ s) ≡ s
drop_back t s =
    let n : length (t ++ s) - length s ≡ length t = omega (arith, length-append t s) in
    rw n (drop-append_exact t s)

take_front : (t s : Text) → take (length (t ++ s) - length s) (t ++ s) ≡ t
take_front t s =
    let n : length (t ++ s) - length s ≡ length t = omega (arith, length-append t s) in
    rw n (take-append_exact t s)

ends_with-append : (t s : Text) → ends_with (t ++ s) s ≡ true
unfolding ends_with
ends_with-append t s = rw (drop_back t s, text_eq_refl s) (ground (arith, length-append t s))

module _ {R : Type 0} (n : Numerics R) where
  without-with_unit :
      (settings : FormatSettings R) (t : Text)
      → without_unit n settings (with_unit n t settings) ≡ t
  unfolding without_unit with_unit chop
  without-with_unit settings t =
      ground
        (arith, ends_with-append t (space ∷ settings.unit), take_front t (space ∷ settings.unit))

  module _ (exact : IsExact n) where
    read_back :
        (settings : FormatSettings R) (i : ℤ) (raw : List ℕ)
        → is_default_scaling n settings ≡ true
        → Fits32 i
        → (t : Text) × (integer_text n settings i raw ≡ some t)
          × (parse_decimal n settings (without_unit n settings t)
              ≡ registers_of_double n settings (n.of_integer i))
    unfolding integer_text parse_decimal
    read_back settings i raw plain fits = (
      with_unit n (n.number i) settings,
      rw plain refl,
      rw (without-with_unit settings (n.number i), exact.to_double_number i fits, plain) refl,
    )

    signed16-Fits32 : (w : ℕ) → IsWord w → Fits32 (signed16 w)
    unfolding signed16
    signed16-Fits32 w h = ground arith

    signed32-Fits32 : (w : ℕ) → w < 4294967296 → Fits32 (signed32 w)
    unfolding signed32
    signed32-Fits32 w h = ground arith

    parse-format_as :
        (format : DisplayFormat) (settings : FormatSettings R) (raw : List ℕ)
        → is_integer_format format ≡ true
        → is_default_scaling n (record settings { format = format }) ≡ true
        → All IsWord raw
        → length raw ≡ register_span_for format
        → (format_value n (record settings { format = format }) raw
            >>= parse_value n (record settings { format = format }))
          ≡ some raw
    unfolding format_value parse_value registers_of_double packed is_integer_format
        register_span_for
    parse-format_as signed_decimal settings (r ∷ []) kind plain (w, _) span =
        let s = record settings { format = signed_decimal } in
        let i = signed16 r in
        let fits = signed16-Fits32 r w in
        let (t, shown, back) = read_back s i (r ∷ []) plain fits in
        rw (shown, back, exact.round_of_integer i fits, unsigned-signed16 r w) refl
    parse-format_as unsigned_decimal settings (r ∷ []) kind plain (w, _) span =
        let s = record settings { format = unsigned_decimal } in
        let fits : r < 4294967296 = omega (arith, w) in
        let low = unsigned16-pos r w in
        let (t, shown, back) = read_back s (pos r) (r ∷ []) plain fits in
        rw (shown, back, exact.round_of_integer (pos r) fits, low) refl
    parse-format_as int32_signed settings (r0 ∷ r1 ∷ []) kind plain (w0, (w1, _)) span =
        let s = record settings { format = int32_signed } in
        let v = pack_bytes r0 r1 settings.byte_order in
        let small = pack_bytes-lt r0 r1 settings.byte_order in
        let fits = signed32-Fits32 v small in
        let (t, shown, back) = read_back s (signed32 v) (r0 ∷ r1 ∷ []) plain fits in
        rw
          (
            shown,
            back,
            exact.round_of_integer (signed32 v) fits,
            unsigned-signed32 v small,
            unpack-pack_bytes r0 r1 settings.byte_order w0 w1,
          )
          refl
    parse-format_as int32_unsigned settings (r0 ∷ r1 ∷ []) kind plain (w0, (w1, _)) span =
        let s = record settings { format = int32_unsigned } in
        let v = pack_bytes r0 r1 settings.byte_order in
        let small = pack_bytes-lt r0 r1 settings.byte_order in
        let low = unsigned32-pos v small in
        let (t, shown, back) = read_back s (pos v) (r0 ∷ r1 ∷ []) plain small in
        rw
          (
            shown,
            back,
            exact.round_of_integer (pos v) small,
            low,
            unpack-pack_bytes r0 r1 settings.byte_order w0 w1,
          )
          refl
    parse-format_as _ settings raw kind plain w span = ground arith

    -- For the four integer formats with no scaling, whatever the unit and the byte order, the text
    -- that is shown for the registers is read back as the same registers, where the conversions of
    -- integers to text, to `double` and back are exact.
    pub parse-format_value :
        (settings : FormatSettings R) (raw : List ℕ)
        → is_integer_format settings.format ≡ true
        → is_default_scaling n settings ≡ true
        → All IsWord raw
        → length raw ≡ register_span_for settings.format
        → (format_value n settings raw >>= parse_value n settings) ≡ some raw
    parse-format_value settings raw kind plain w span =
        parse-format_as settings.format settings raw kind plain w span
