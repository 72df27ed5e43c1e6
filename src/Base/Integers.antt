-- ===== src/Base/Integers.antt =====
-- Signed integers, and what C makes of `w` bits as two's complement.
use Prim.Native.Nat.{ℕ, ◌-◌, ◌*◌, ◌^◌, ◌<◌}
use mathlib.Core.Path.{◌≡◌}
use native.Mathlib.Omega.{arith}
use zigbee_hub.Base.Tests.{ltb, if◌then◌else◌}

pub data ℤ : Type 0 where
  pos : ℕ → ℤ
  negsuc : ℕ → ℤ

-- The conversion of a number below 2 ^ suc w to the signed type of suc w bits.
unfoldable pub to_signed : ℕ → ℕ → ℤ
to_signed w n = if ltb n (2 ^ w) then pos n else negsuc (2 * 2 ^ w - 1 - n)

-- The bits of an integer in suc w of them.
unfoldable pub bits_of : ℕ → ℤ → ℕ
bits_of w (pos n) = n
bits_of w (negsuc n) = 2 * 2 ^ w - 1 - n

abbrev pub IsSigned : ℕ → ℤ → Type 0
IsSigned w (pos n) = n < 2 ^ w
IsSigned w (negsuc n) = n < 2 ^ w

pub to_signed-bits_of :
    (w : ℕ) (z : ℤ) → IsSigned w z → (to_signed w (bits_of w z) ≡ z) × (bits_of w z < 2 * 2 ^ w)
unfolding to_signed bits_of
to_signed-bits_of w (pos n) h = ground arith
to_signed-bits_of w (negsuc n) h = ground arith
