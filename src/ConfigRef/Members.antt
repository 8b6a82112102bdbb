-- ===== src/ConfigRef/Members.antt =====
-- Which sensors are active after a call of activate_configref_resort.
use smi240_android_hal.Prelude.{
  ℕ, ◌<◌, ◌≡◌, Bool, true, false, some, List, arith, ltb, ◌==◌, if◌then◌else◌,
}
use smi240_android_hal.ConfigRef.{activate_configref_resort}
use smi240_android_hal.ConfigRef.Sorted.{
  IsSorted, contains, insert-IsSorted, erase-IsSorted, contains-insert, contains-erase,
}
use smi240_android_hal.ConfigRef.Resort.{change, changed}
use smi240_android_hal.ConfigRef.Activate.{banks_of, activate_configref_resort_lem}

change-IsSorted :
    (e : Bool) (a : ℕ) (xs : List ℕ) → a < 32 → IsSorted 0 xs → IsSorted 0 (change e a xs)
change-IsSorted true a xs h s = insert-IsSorted a 0 xs (omega arith) h s
change-IsSorted false a xs h s = erase-IsSorted a 0 xs s

contains-change :
    (e : Bool) (a b : ℕ) (xs : List ℕ)
    → IsSorted 0 xs
    → contains b (change e a xs) ≡ (if b == a then e else contains b xs)
contains-change true a b xs s = ground (arith, contains-insert a b xs)
contains-change false a b xs s = ground (arith, contains-erase a b 0 xs s)

-- For a sensor without wake-up (index below 32), where both arrays are strictly rising: afterwards
-- that sensor is active exactly if the call enables it, every other one as it was before, and the
-- arrays are strictly rising again.
pub activate_configref_resort_members :
    (bsx_list_index : ℕ) (is_enable : Bool) (xs ys : List ℕ)
    → bsx_list_index < 32
    → IsSorted 0 xs
    → IsSorted 0 ys
    → (xs' : List ℕ) × (activate_configref_resort bsx_list_index is_enable (banks_of xs ys)
        ≡ some (banks_of xs' ys, changed is_enable bsx_list_index xs))
      × IsSorted 0 xs'
      × ((b : ℕ) → contains b xs' ≡ (if b == bsx_list_index then is_enable else contains b xs))
activate_configref_resort_members index e xs ys h s t =
    let low : ltb index 32 ≡ true = ground arith in
    (
      change e index xs,
      rw low at (activate_configref_resort_lem index e xs ys (omega arith) s t),
      change-IsSorted e index xs h s,
      λ b. contains-change e index b xs s,
    )
