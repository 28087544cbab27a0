-- ===== src/Addresses.antt =====
-- core/format/AddressConvention.h and core/format/AddressConvention.cpp. An int is exact here.
pub mod RoundTrip
mod Tests
use modbus_viewer.Prelude.{ℕ, ◌+◌, ◌-◌, Bool, true, false, leb, if◌then◌else◌}
use modbus_viewer.Prelude.Integers.{ℤ, pos, negsuc}
use modbus_viewer.Model.{RegisterType, coil, discrete_input, holding_register, input_register}

unfoldable pub add_base : ℕ → ℤ → ℤ
add_base base (pos n) = pos (base + n)
add_base base (negsuc n) = if leb (n + 1) base then pos (base - (n + 1)) else negsuc (n - base)

unfoldable pub subtract_base : ℤ → ℕ → ℤ
subtract_base (pos n) base = if leb base n then pos (n - base) else negsuc (base - (n + 1))
subtract_base (negsuc n) base = negsuc (n + base)

pub data AddressConvention : Type 0 where
  pdu modicon : AddressConvention

unfoldable pub modicon_base_for : RegisterType → ℕ
modicon_base_for coil = 1
modicon_base_for discrete_input = 10001
modicon_base_for input_register = 30001
modicon_base_for holding_register = 40001

unfoldable pub display_address : RegisterType → ℤ → AddressConvention → ℤ
display_address type address pdu = address
display_address type address modicon = add_base (modicon_base_for type) address

unfoldable pub pdu_address : RegisterType → ℤ → AddressConvention → ℤ
pdu_address type address pdu = address
pdu_address type address modicon = subtract_base address (modicon_base_for type)

abbrev pub convention_eq : AddressConvention → AddressConvention → Bool
convention_eq pdu pdu = true
convention_eq pdu modicon = false
convention_eq modicon pdu = false
convention_eq modicon modicon = true
