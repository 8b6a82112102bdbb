-- ===== src/Algo/Order.antt =====
-- The samples are delivered in the order of their timestamps.
use smi240_android_hal.Prelude.{
  ℕ, zero, suc, ◌+◌, ◌≤◌, ◌<◌, ◌≡◌, inl, inr, ◌⊎◌, true, false, List, [], ◌∷◌, arith, length,
}
use smi240_android_hal.Algo.{
  HwData, cur_base_tm, at_base, align_from, sort_input_samples, InputId, deliver,
}

-- The timestamps never fall, from `from` on.
abbrev pub IsRising : ℕ → List HwData → Type 0
IsRising from [] = Unit {0}
IsRising from (d ∷ ds) = (from ≤ d.timestamp) × IsRising d.timestamp ds

abbrev pub IsOrdered : ℕ → List (InputId × HwData) → Type 0
IsOrdered from [] = Unit {0}
IsOrdered from (p ∷ ps) = (from ≤ p.1.timestamp) × IsOrdered p.1.timestamp ps

-- The base time is a timestamp of a sample at the front of a list, and not above the other one.
base_lem :
    (a g : HwData) (acc gyr : List HwData)
    → 0 < g.timestamp
    → let base = cur_base_tm (a ∷ acc) (g ∷ gyr) in
      ((at_base base (a ∷ acc) ≡ true)
        × (at_base base (g ∷ gyr) ≡ true)
        × (a.timestamp ≡ g.timestamp))
      ⊎ (((at_base base (a ∷ acc) ≡ true)
            × (at_base base (g ∷ gyr) ≡ false)
            × (a.timestamp < g.timestamp))
          ⊎ ((at_base base (a ∷ acc) ≡ false)
              × (at_base base (g ∷ gyr) ≡ true)
              × (g.timestamp < a.timestamp)))
unfolding cur_base_tm at_base
base_lem a g acc gyr h = ground arith

only_gyr : (g : HwData) (gyr : List HwData) → at_base (cur_base_tm [] (g ∷ gyr)) (g ∷ gyr) ≡ true
unfolding cur_base_tm at_base
only_gyr g gyr = ground arith

only_acc : (a : HwData) (acc : List HwData) → at_base (cur_base_tm (a ∷ acc) []) (a ∷ acc) ≡ true
unfolding cur_base_tm at_base
only_acc a acc = ground arith

align_from-IsOrdered :
    (fuel from : ℕ) (acc gyr : List HwData)
    → length acc + length gyr ≤ fuel
    → 0 < from
    → IsRising from acc
    → IsRising from gyr
    → IsOrdered from (deliver (align_from fuel acc gyr) acc gyr)
unfolding align_from deliver
align_from-IsOrdered zero from acc gyr h z r s = tt
align_from-IsOrdered (suc fuel) from [] [] h z r s = tt
align_from-IsOrdered (suc fuel) from [] (g ∷ gyr) h z r s =
    rw (only_gyr g gyr)
      (s.0, align_from-IsOrdered fuel g.timestamp [] gyr (omega arith) (omega arith) tt s.1)
align_from-IsOrdered (suc fuel) from (a ∷ acc) [] h z r s =
    rw (only_acc a acc)
      (r.0, align_from-IsOrdered fuel a.timestamp acc [] (omega arith) (omega arith) r.1 tt)
align_from-IsOrdered (suc fuel) from (a ∷ acc) (g ∷ gyr) h z r s =
    elim (base_lem a g acc gyr (omega arith)) [
      | inl (ea, eg, same) ↦
          rw (ea, eg)
            (
              r.0,
              (
                omega arith,
                align_from-IsOrdered fuel g.timestamp acc gyr (omega arith) (omega arith)
                    (rw same at r.1) s.1,
              ),
            )
      | inr (inl (ea, eg, before)) ↦
          rw (ea, eg)
            (
              r.0,
              align_from-IsOrdered fuel a.timestamp acc (g ∷ gyr) (omega arith) (omega arith) r.1
                  (omega arith, s.1),
            )
      | inr (inr (ea, eg, after)) ↦
          rw (ea, eg)
            (
              s.0,
              align_from-IsOrdered fuel g.timestamp (a ∷ acc) gyr (omega arith) (omega arith)
                  (omega arith, r.1) s.1,
            )
    ]

-- Where the timestamps of each chip are positive and never fall, the samples of both chips are
-- delivered so that the timestamps never fall.
pub sort_input_samples-IsOrdered :
    (acc gyr : List HwData)
    → IsRising 1 acc
    → IsRising 1 gyr
    → IsOrdered 1 (deliver (sort_input_samples acc gyr) acc gyr)
unfolding sort_input_samples
sort_input_samples-IsOrdered acc gyr r s =
    align_from-IsOrdered (length acc + length gyr) 1 acc gyr (omega arith) (omega arith) r s
