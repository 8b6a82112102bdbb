-- ===== src/Popcount.antt =====
-- The population counts of legacy/sensord/util_misc.c.
pub mod Digits
pub mod Ones
mod Tests
use smi240_android_hal.Prelude.{ℕ, ◌+◌, ◌/◌, ◌%◌, ◌^◌, bit_and}

-- One round of the counts: (x & m) + ((x >> s) & m), on `w` bits.
unfoldable pub fold_bits : ℕ → ℕ → ℕ → ℕ → ℕ
fold_bits w m s x = (bit_and x m + bit_and (x / 2 ^ s) m) % 2 ^ w

unfoldable pub sensord_popcount_32 : ℕ → ℕ
unfolding fold_bits
sensord_popcount_32 x =
    let x₁ = fold_bits 32 0x55555555 1 x in
    let x₂ = fold_bits 32 0x33333333 2 x₁ in
    let x₄ = fold_bits 32 0x0f0f0f0f 4 x₂ in
    let x₈ = fold_bits 32 0x00ff00ff 8 x₄ in fold_bits 32 0x0000ffff 16 x₈

unfoldable pub sensord_popcount_64 : ℕ → ℕ
unfolding fold_bits
sensord_popcount_64 x =
    let x₁ = fold_bits 64 0x5555555555555555 1 x in
    let x₂ = fold_bits 64 0x3333333333333333 2 x₁ in
    let x₄ = fold_bits 64 0x0f0f0f0f0f0f0f0f 4 x₂ in
    let x₈ = fold_bits 64 0x00ff00ff00ff00ff 8 x₄ in
    let x₁₆ = fold_bits 64 0x0000ffff0000ffff 16 x₈ in fold_bits 64 0x00000000ffffffff 32 x₁₆
