-- ===== src/Timing.antt =====
-- core/modbus/RtuTiming.h and core/modbus/RtuTiming.cpp. A rate that is not positive is 0 here.
pub mod Bounds
mod Tests
use modbus_viewer.Prelude.{ℕ, ◌*◌, ◌/◌, Bool, ◌||◌, ◌==◌, ltb, if◌then◌else◌}

abbrev pub rtu_character_bits : ℕ
rtu_character_bits = 11

abbrev pub fixed_inter_frame_silence_microseconds : ℕ
fixed_inter_frame_silence_microseconds = 1750

abbrev pub max_baud_rate_for_calculated_silence : ℕ
max_baud_rate_for_calculated_silence = 19200

abbrev pub microseconds_per_second : ℕ
microseconds_per_second = 1000000

unfoldable pub character_time_microseconds : ℕ → ℕ
character_time_microseconds baud_rate =
    if baud_rate == 0 then 0 else rtu_character_bits * microseconds_per_second / baud_rate

unfoldable pub inter_frame_silence_microseconds : ℕ → ℕ
inter_frame_silence_microseconds baud_rate =
    if baud_rate == 0 || ltb max_baud_rate_for_calculated_silence baud_rate
    then fixed_inter_frame_silence_microseconds
    else 35 * rtu_character_bits * microseconds_per_second / (10 * baud_rate)
