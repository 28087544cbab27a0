-- ===== src/Format/Tests.antt =====
-- Values of tests/test_value_formatter.cpp, with integers in the place of `double`.
use modbus_viewer.Prelude.{◌≡◌, refl, true, [], ◌∷◌, some, ◌>>=◌, arith}
use modbus_viewer.Prelude.Integers.{ℤ, pos, negsuc}
use modbus_viewer.Prelude.Texts.{codes}
use modbus_viewer.Format.Words.{cdab}
use modbus_viewer.Format.Settings.{int32_signed, FormatSettings, register_span_for}
use modbus_viewer.Format.Values.{format_value, parse_value, is_default_scaling}
use modbus_viewer.Format.RoundTrip.{IsExact, is_integer_format, parse-format_value}
use modbus_viewer.Format.Samples.{unary, read_unary, integers}

integers-IsExact : IsExact integers
integers-IsExact = record {
  to_double_number =
      λ i h. elim i as (λ i. read_unary (unary i) ≡ some i) [ pos k ↦ refl | negsuc k ↦ refl ];
  round_of_integer = λ i h. refl;
}

abbrev metres : FormatSettings ℤ
metres = record {
  format = int32_signed;
  byte_order = cdab;
  scale = pos 1;
  offset = pos 0;
  unit = codes "m";
}

plain_metres : is_default_scaling integers metres ≡ true
unfolding is_default_scaling
plain_metres = refl

parse-format_value_example :
    (format_value integers metres (0xfffe ∷ 0xffff ∷ []) >>= parse_value integers metres)
    ≡ some (0xfffe ∷ 0xffff ∷ [])
unfolding is_integer_format register_span_for
parse-format_value_example =
    parse-format_value integers integers-IsExact metres (0xfffe ∷ 0xffff ∷ []) refl plain_metres
      (omega arith) refl
