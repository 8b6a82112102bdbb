-- ===== src/Algo/Align.antt =====
-- Every sample is aligned and delivered once.
use smi240_android_hal.Prelude.{
  ℕ, zero, suc, ◌+◌, ◌≤◌, ◌≡◌, refl, ap, inl, inr, ◌⊎◌, true, false, List, [], ◌∷◌, arith, length,
  Bool-cases,
}
use smi240_android_hal.Algo.{
  HwData, Indication, cur_base_tm, at_base, align_from, sort_input_samples, InputId, acceleration,
  angularrate, deliver,
}

-- The samples of one chip among those delivered.
abbrev pub of_acc : List (InputId × HwData) → List HwData
of_acc [] = []
of_acc ((acceleration, d) ∷ ps) = d ∷ of_acc ps
of_acc ((angularrate, d) ∷ ps) = of_acc ps

abbrev pub of_gyr : List (InputId × HwData) → List HwData
of_gyr [] = []
of_gyr ((acceleration, d) ∷ ps) = of_gyr ps
of_gyr ((angularrate, d) ∷ ps) = d ∷ of_gyr ps

-- A round takes a sample.
progress :
    (a g : HwData) (acc gyr : List HwData)
    → let base = cur_base_tm (a ∷ acc) (g ∷ gyr) in
      (at_base base (a ∷ acc) ≡ true) ⊎ (at_base base (g ∷ gyr) ≡ true)
unfolding cur_base_tm at_base
progress a g acc gyr = ground arith

-- What holds of the indications from `acc` and `gyr`, with enough fuel.
abbrev pub Aligned : List Indication → List HwData → List HwData → Type 0
Aligned is acc gyr =
    (of_acc (deliver is acc gyr) ≡ acc)
    × (of_gyr (deliver is acc gyr) ≡ gyr)
    × (length is ≤ length acc + length gyr)

Aligned-both :
    (a g : HwData) (acc gyr : List HwData) (is : List Indication)
    → Aligned is acc gyr
    → Aligned (record { has_acc = true; has_gyr = true } ∷ is) (a ∷ acc) (g ∷ gyr)
unfolding deliver
Aligned-both a g acc gyr is (h, k, l) = (ap (◌∷◌ a) h, ap (◌∷◌ g) k, omega arith)

Aligned-acc :
    (a : HwData) (acc gyr : List HwData) (is : List Indication)
    → Aligned is acc gyr
    → Aligned (record { has_acc = true; has_gyr = false } ∷ is) (a ∷ acc) gyr
unfolding deliver
Aligned-acc a acc [] is (h, k, l) = (ap (◌∷◌ a) h, k, omega arith)
Aligned-acc a acc (g ∷ gyr) is (h, k, l) = (ap (◌∷◌ a) h, k, omega arith)

Aligned-gyr :
    (g : HwData) (acc gyr : List HwData) (is : List Indication)
    → Aligned is acc gyr
    → Aligned (record { has_acc = false; has_gyr = true } ∷ is) acc (g ∷ gyr)
unfolding deliver
Aligned-gyr g [] gyr is (h, k, l) = (h, ap (◌∷◌ g) k, omega arith)
Aligned-gyr g (a ∷ acc) gyr is (h, k, l) = (h, ap (◌∷◌ g) k, omega arith)

only_gyr : (g : HwData) (gyr : List HwData) → at_base (cur_base_tm [] (g ∷ gyr)) (g ∷ gyr) ≡ true
unfolding cur_base_tm at_base
only_gyr g gyr = ground arith

only_acc : (a : HwData) (acc : List HwData) → at_base (cur_base_tm (a ∷ acc) []) (a ∷ acc) ≡ true
unfolding cur_base_tm at_base
only_acc a acc = ground arith

align_from-Aligned :
    (fuel : ℕ) (acc gyr : List HwData)
    → length acc + length gyr ≤ fuel
    → Aligned (align_from fuel acc gyr) acc gyr
unfolding align_from deliver
align_from-Aligned zero [] [] h = (refl, refl, omega arith)
align_from-Aligned zero [] (g ∷ gyr) h = absurd (omega arith)
align_from-Aligned zero (a ∷ acc) gyr h = absurd (omega arith)
align_from-Aligned (suc fuel) [] [] h = (refl, refl, omega arith)
align_from-Aligned (suc fuel) [] (g ∷ gyr) h =
    rw (only_gyr g gyr) (Aligned-gyr g [] gyr _ (align_from-Aligned fuel [] gyr (omega arith)))
align_from-Aligned (suc fuel) (a ∷ acc) [] h =
    rw (only_acc a acc) (Aligned-acc a acc [] _ (align_from-Aligned fuel acc [] (omega arith)))
align_from-Aligned (suc fuel) (a ∷ acc) (g ∷ gyr) h =
    let base = cur_base_tm (a ∷ acc) (g ∷ gyr) in
    elim (Bool-cases (at_base base (a ∷ acc))) [
      | inl ea ↦ elim (Bool-cases (at_base base (g ∷ gyr))) [
        | inl eg ↦
            rw (ea, eg) (Aligned-both a g acc gyr _ (align_from-Aligned fuel acc gyr (omega arith)))
        | inr eg ↦
            rw (ea, eg)
              (Aligned-acc a acc (g ∷ gyr) _ (align_from-Aligned fuel acc (g ∷ gyr) (omega arith)))
      ]
      | inr ea ↦
          let eg : at_base base (g ∷ gyr) ≡ true = ground (arith, progress a g acc gyr) in
          rw (ea, eg)
            (Aligned-gyr g (a ∷ acc) gyr _ (align_from-Aligned fuel (a ∷ acc) gyr (omega arith)))
    ]

-- For any samples: the loop of sort_input_samples ends with no more indications than it has bytes
-- for, one per sample, and by them every sample of each chip is delivered exactly once, in the order
-- of its list.
pub sort_input_samples-Aligned :
    (acc gyr : List HwData)
    → let is = sort_input_samples acc gyr in
      (of_acc (deliver is acc gyr) ≡ acc)
      × (of_gyr (deliver is acc gyr) ≡ gyr)
      × (length is ≤ length acc + length gyr)
unfolding sort_input_samples
sort_input_samples-Aligned acc gyr =
    align_from-Aligned (length acc + length gyr) acc gyr (omega arith)
