-- ===== src/Timing/Bounds.antt =====
-- The silence between frames of core/modbus/RtuTiming.cpp.
use modbus_viewer.Prelude.{ℕ, ◌+◌, ◌*◌, ◌/◌, ◌%◌, ◌^◌, ◌≤◌, ◌<◌, ◌≡◌, arith}
use native.Mathlib.Nat.{div-add-mod, mod-lt, le-div_iff_mul-le, div-le_self}
use modbus_viewer.Timing.{inter_frame_silence_microseconds}

calculated : (b : ℕ) → 0 < b → b ≤ 19200 → inter_frame_silence_microseconds b ≡ 385000000 / (10 * b)
unfolding inter_frame_silence_microseconds
calculated b low high = ground arith

-- At every positive rate up to 19200 baud the silence is 3.5 characters of 11 bits, rounded down to a
-- microsecond, is longer than the 1750 microseconds of the faster rates, and fits an int.
pub inter_frame_silence_bounds :
    (baud_rate : ℕ)
    → 0 < baud_rate
    → baud_rate ≤ 19200
    → (10 * baud_rate * inter_frame_silence_microseconds baud_rate ≤ 35 * 11 * 1000000)
      × (35 * 11 * 1000000 < 10 * baud_rate * (inter_frame_silence_microseconds baud_rate + 1))
      × (1750 < inter_frame_silence_microseconds baud_rate)
      × (inter_frame_silence_microseconds baud_rate < 2 ^ 31)
inter_frame_silence_bounds b low high =
    let q = 385000000 / (10 * b) in
    let whole : 10 * b * q + 385000000 % (10 * b) ≡ 385000000 = div-add-mod 385000000 (10 * b) in
    let part : 385000000 % (10 * b) < 10 * b = mod-lt 385000000 (omega arith) in
    let positive : 0 < 10 * b = omega arith in
    let scaled : 1751 * (10 * b) ≤ 385000000 = omega arith in
    let more : 1751 ≤ q = (le-div_iff_mul-le {k = 10 * b} positive).1 scaled in
    rw (calculated b low high) (
      omega (arith, whole),
      grind (arith, whole, part),
      omega (arith, more),
      omega (arith, div-le_self 385000000 (10 * b)),
    )
