-- ===== src/Model.antt =====
-- core/model/RegisterType.h, core/model/RegisterType.cpp and the `FunctionCode` enumeration of
-- core/modbus/ModbusPduCodec.h: the four Modbus data regions and the function codes.
use modbus_viewer.Prelude.{ℕ, Bool, true, false, if◌then◌else◌, ◌==◌, ◌≡◌, refl}

pub data FunctionCode : Type 0 where
  read_coils read_discrete_inputs read_holding_registers read_input_registers : FunctionCode
  write_single_coil write_single_register write_multiple_coils : FunctionCode
  write_multiple_registers : FunctionCode

-- `quint8(functionCode)`.
abbrev pub function_byte : FunctionCode → ℕ
function_byte read_coils = 0x01
function_byte read_discrete_inputs = 0x02
function_byte read_holding_registers = 0x03
function_byte read_input_registers = 0x04
function_byte write_single_coil = 0x05
function_byte write_single_register = 0x06
function_byte write_multiple_coils = 0x0f
function_byte write_multiple_registers = 0x10

pub data RegisterType : Type 0 where
  coil discrete_input holding_register input_register : RegisterType

unfoldable pub read_function_code_for : RegisterType → FunctionCode
read_function_code_for coil = read_coils
read_function_code_for discrete_input = read_discrete_inputs
read_function_code_for holding_register = read_holding_registers
read_function_code_for input_register = read_input_registers

unfoldable pub is_bit_register_type : RegisterType → Bool
is_bit_register_type coil = true
is_bit_register_type discrete_input = true
is_bit_register_type holding_register = false
is_bit_register_type input_register = false

unfoldable pub is_writable_register_type : RegisterType → Bool
is_writable_register_type coil = true
is_writable_register_type discrete_input = false
is_writable_register_type holding_register = true
is_writable_register_type input_register = false

abbrev pub max_bits_per_read_request : ℕ
max_bits_per_read_request = 2000

abbrev pub max_registers_per_read_request : ℕ
max_registers_per_read_request = 125

unfoldable pub max_read_count_for : RegisterType → ℕ
max_read_count_for type =
    if is_bit_register_type type then max_bits_per_read_request else max_registers_per_read_request

-- `int(registerType)`.
abbrev pub type_rank : RegisterType → ℕ
type_rank coil = 0
type_rank discrete_input = 1
type_rank holding_register = 2
type_rank input_register = 3

abbrev pub type_eq : RegisterType → RegisterType → Bool
type_eq a b = type_rank a == type_rank b

pub type_eq→eq : (a b : RegisterType) → type_eq a b ≡ true → a ≡ b
type_eq→eq coil coil h = refl
type_eq→eq discrete_input discrete_input h = refl
type_eq→eq holding_register holding_register h = refl
type_eq→eq input_register input_register h = refl
type_eq→eq coil discrete_input h = cc
type_eq→eq coil holding_register h = cc
type_eq→eq coil input_register h = cc
type_eq→eq discrete_input coil h = cc
type_eq→eq discrete_input holding_register h = cc
type_eq→eq discrete_input input_register h = cc
type_eq→eq holding_register coil h = cc
type_eq→eq holding_register discrete_input h = cc
type_eq→eq holding_register input_register h = cc
type_eq→eq input_register coil h = cc
type_eq→eq input_register discrete_input h = cc
type_eq→eq input_register holding_register h = cc

pub type_eq_refl : (a : RegisterType) → type_eq a a ≡ true
type_eq_refl coil = refl
type_eq_refl discrete_input = refl
type_eq_refl holding_register = refl
type_eq_refl input_register = refl
