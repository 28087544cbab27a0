-- ===== src/Prelude/Integers.antt =====
-- Signed integers over the native numbers, and the casts of a word to one and back.
use Prim.Native.Nat.{ℕ, ◌-◌, ◌%◌, ◌<◌}
use mathlib.Core.Path.{◌≡◌}
use native.Mathlib.Omega.{arith}
use modbus_viewer.Prelude.Tests.{ltb, if◌then◌else◌}

-- `negsuc n` is -(n + 1).
pub data ℤ : Type 0 where
  pos negsuc : ℕ → ℤ

-- The `qint16` and the `qint32` with the bits of a word.
unfoldable pub signed16 : ℕ → ℤ
signed16 w = if ltb w 32768 then pos w else negsuc (65535 - w)

unfoldable pub signed32 : ℕ → ℤ
signed32 w = if ltb w 2147483648 then pos w else negsuc (4294967295 - w)

-- The `quint16` and the `quint32` that an integer is cast to, modulo 2^16 and 2^32.
unfoldable pub unsigned16 : ℤ → ℕ
unsigned16 (pos n) = n % 65536
unsigned16 (negsuc n) = 65535 - n % 65536

unfoldable pub unsigned32 : ℤ → ℕ
unsigned32 (pos n) = n % 4294967296
unsigned32 (negsuc n) = 4294967295 - n % 4294967296

pub unsigned-signed16 : (w : ℕ) → w < 65536 → unsigned16 (signed16 w) ≡ w
unfolding unsigned16 signed16
unsigned-signed16 w h = ground arith

pub unsigned-signed32 : (w : ℕ) → w < 4294967296 → unsigned32 (signed32 w) ≡ w
unfolding unsigned32 signed32
unsigned-signed32 w h = ground arith

pub unsigned16-pos : (w : ℕ) → w < 65536 → unsigned16 (pos w) ≡ w
unfolding unsigned16
unsigned16-pos w h = omega arith

pub unsigned32-pos : (w : ℕ) → w < 4294967296 → unsigned32 (pos w) ≡ w
unfolding unsigned32
unsigned32-pos w h = omega arith
