-- ===== src/Popcount/Tests.antt =====
-- The counts at concrete numbers.
use smi240_android_hal.Prelude.{◌≡◌, refl}
use smi240_android_hal.Popcount.{sensord_popcount_32, sensord_popcount_64}
use smi240_android_hal.Popcount.Ones.{count_ones, sensord_popcount-count_ones}

all_bits : sensord_popcount_64 0xffffffffffffffff ≡ 64
unfolding sensord_popcount_64
all_bits = refl

-- The digits 0, 2 and 63 are 1.
sensord_popcount-count_ones_example :
    (sensord_popcount_32 0x8000000000000005 ≡ count_ones 32 0x8000000000000005)
    × (sensord_popcount_64 0x8000000000000005 ≡ count_ones 64 0x8000000000000005)
sensord_popcount-count_ones_example = sensord_popcount-count_ones 0x8000000000000005

three_ones : count_ones 64 0x8000000000000005 ≡ 3
unfolding count_ones
three_ones = refl
