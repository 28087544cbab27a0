-- ===== src/Addresses/Tests.antt =====
-- Addresses of tests/test_address_convention.cpp.
use modbus_viewer.Prelude.{◌≡◌, refl}
use modbus_viewer.Prelude.Integers.{pos}
use modbus_viewer.Model.{holding_register}
use modbus_viewer.Addresses.{modicon, modicon_base_for, add_base, display_address}

first_holding_register : display_address holding_register (pos 0) modicon ≡ pos 40001
unfolding display_address modicon_base_for add_base
first_holding_register = refl
