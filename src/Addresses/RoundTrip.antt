-- ===== src/Addresses/RoundTrip.antt =====
-- The two conversions of core/format/AddressConvention.cpp, one after the other.
use modbus_viewer.Prelude.{ℕ, ◌≡◌, refl, arith}
use modbus_viewer.Prelude.Integers.{ℤ, pos, negsuc}
use modbus_viewer.Model.{RegisterType}
use modbus_viewer.Addresses.{
  add_base, subtract_base, AddressConvention, pdu, modicon, modicon_base_for, display_address,
  pdu_address,
}

subtract-add : (base : ℕ) (a : ℤ) → subtract_base (add_base base a) base ≡ a
unfolding subtract_base add_base
subtract-add base (pos n) = ground arith
subtract-add base (negsuc n) = ground arith

add-subtract : (base : ℕ) (a : ℤ) → add_base base (subtract_base a base) ≡ a
unfolding subtract_base add_base
add-subtract base (pos n) = ground arith
add-subtract base (negsuc n) = ground arith

-- In both conventions and for every region, converting an address for display and back gives the
-- address again, and so does converting a displayed address and back, negative numbers included.
pub display-pdu_address :
    (type : RegisterType) (address : ℤ) (convention : AddressConvention)
    → (pdu_address type (display_address type address convention) convention ≡ address)
      × (display_address type (pdu_address type address convention) convention ≡ address)
unfolding pdu_address display_address
display-pdu_address type address pdu = (refl, refl)
display-pdu_address type address modicon =
    (subtract-add (modicon_base_for type) address, add-subtract (modicon_base_for type) address)
