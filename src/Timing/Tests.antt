-- ===== src/Timing/Tests.antt =====
-- The rates of tests/test_rtu_timing.cpp.
use modbus_viewer.Prelude.{◌≡◌, refl}
use modbus_viewer.Timing.{character_time_microseconds, inter_frame_silence_microseconds}

character_time_of_9600 : character_time_microseconds 9600 ≡ 1145
unfolding character_time_microseconds
character_time_of_9600 = refl

silence_of_9600 : inter_frame_silence_microseconds 9600 ≡ 4010
unfolding inter_frame_silence_microseconds
silence_of_9600 = refl
