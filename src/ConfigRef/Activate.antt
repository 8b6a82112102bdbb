-- ===== src/ConfigRef/Activate.antt =====
-- activate_configref_resort never leaves the arrays, and inserts into or erases from the ordered set
-- of active sensors.
use smi240_android_hal.Prelude.{
  ℕ, zero, suc, ◌+◌, ◌-◌, ◌≤◌, ◌<◌, ◌≡◌, inl, inr, Bool, true, false, some, List, [], ◌∷◌, ◌++◌,
  arith, length, ltb, leb, ◌==◌, if◌then◌else◌, length-append, Bool-cases,
}
use smi240_android_hal.ConfigRef.{Bank, Banks, resort_from, activate_configref_resort}
use smi240_android_hal.ConfigRef.Arrays.{Slots}
use smi240_android_hal.ConfigRef.Sorted.{IsSorted, length_of_IsSorted, contains_below}
use smi240_android_hal.ConfigRef.Resort.{
  bank_from, change, changed, Resorts, at_end, at_same, behind, past,
}

resort_lem :
    (rounds : ℕ) (p : Slots) (xs : List ℕ) (rel : ℕ) (e : Bool) (lo : ℕ)
    → rounds + length p ≡ 32
    → length p ≤ lo
    → lo ≤ rel
    → rel < 32
    → IsSorted lo xs
    → Resorts rounds p xs rel e
resort_lem zero p xs rel e lo r h k m s = absurd (omega arith)
resort_lem (suc rounds) p [] rel e lo r h k m s = at_end rounds p rel e r
resort_lem (suc rounds) p (x ∷ xs) rel e lo r h k m s =
    let next = length-append p (some x ∷ []) in
    let room = length_of_IsSorted (x + 1) xs (omega arith) s.2 in
    elim (Bool-cases (ltb x rel)) [
      | inl before ↦ past rounds p x xs rel e (ground arith) (
          resort_lem rounds (p ++ some x ∷ []) xs rel e (x + 1) (omega arith) (omega arith)
            (ground arith) m s.2)
      | inr not_before ↦ elim (Bool-cases (x == rel)) [
        | inl same ↦
            let eq : x ≡ rel = ground arith in rw (← eq) (at_same rounds p x xs e (omega arith))
        | inr other ↦
            behind rounds p x xs rel e (ground arith) (ground arith)
              (contains_below rel (x + 1) xs (ground arith) s.2)
      ]
    ]

-- One of the two arrays, as the set of offsets that it holds.
abbrev pub bank_of : List ℕ → Bank
bank_of xs = bank_from [] xs

abbrev pub banks_of : List ℕ → List ℕ → Banks
banks_of xs ys = record { nonwk = bank_of xs; wk = bank_of ys }

resort_bank :
    (xs : List ℕ) (rel : ℕ) (e : Bool)
    → rel < 32
    → IsSorted 0 xs
    → resort_from 32 0 rel e (bank_of xs) ≡ some (bank_of (change e rel xs), changed e rel xs)
resort_bank xs rel e m s = resort_lem 32 [] xs rel e 0 (omega arith) (omega arith) (omega arith) m s

-- For every index below 64, where both arrays hold strictly rising offsets below 32 with NULL behind
-- them, the call stays in its array, inserts the sensor into or erases it from the array of its kind,
-- leaves the other array, and returns 1 exactly where the set has changed.
pub activate_configref_resort_lem :
    (bsx_list_index : ℕ) (is_enable : Bool) (xs ys : List ℕ)
    → bsx_list_index < 64
    → IsSorted 0 xs
    → IsSorted 0 ys
    → activate_configref_resort bsx_list_index is_enable (banks_of xs ys) ≡ (
        if ltb bsx_list_index 32
        then some
            (banks_of (change is_enable bsx_list_index xs) ys, changed is_enable bsx_list_index xs)
        else some (
          banks_of xs (change is_enable (bsx_list_index - 32) ys),
          changed is_enable (bsx_list_index - 32) ys,
        ))
unfolding activate_configref_resort
activate_configref_resort_lem index e xs ys h s t = elim (Bool-cases (ltb index 32)) [
  | inl low ↦
      let low' : leb index 31 ≡ true = ground arith in
      rw (low, low') (rw (resort_bank xs index e (ground arith) s))
  | inr high ↦
      let high' : leb index 31 ≡ false = ground arith in
      rw (high, high') (rw (resort_bank ys (index - 32) e (ground arith) t))
]
