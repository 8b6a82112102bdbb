-- ===== src/SimpleList/Fifo.antt =====
-- The contract of BoschSimpleList (legacy/sensord/boschsimple_list.cpp): a queue of samples that
-- drops its oldest ones beyond a limit. The other threads of the legacy HAL are modelled over it.
use smi240_android_hal.Prelude.{
  ℕ, ◌-◌, Bool, true, false, Option, none, some, List, [], ◌∷◌, ◌++◌, length, drop, ltb, ◌==◌,
  if◌then◌else◌,
}
use smi240_android_hal.Prelude.Int.{ℤ, pos, negsuc}

-- The samples, oldest first.
pub record Fifo (A : Type 0) : Type 0 where
  pub items : List A
  pub uplimit : ℕ

module _ {A : Type 0} where
  -- list_add_rear, by whether malloc succeeds: -1 where it does not, -2 where a sample is dropped.
  unfoldable pub add_rear : Bool → A → Fifo A → Fifo A × ℤ
  add_rear false a q = (q, negsuc 0)
  add_rear true a q =
      if length q.items == q.uplimit
      then (record q { items = drop 1 q.items ++ a ∷ [] }, negsuc 1)
      else (record q { items = q.items ++ a ∷ [] }, pos 0)

  abbrev head_of : List A → Option A
  head_of [] = none
  head_of (a ∷ rest) = some a

  -- list_get_headdata
  unfoldable pub get_headdata : Fifo A → Fifo A × Option A
  get_headdata q = (record q { items = drop 1 q.items }, head_of q.items)

  -- How many samples are beyond the limit.
  abbrev pub beyond : ℕ → List A → ℕ
  beyond limit xs = length xs - limit

  -- list_mount_rear: the list, the list that is mounted, and -1 where samples are dropped.
  unfoldable pub mount_rear : Fifo A → Fifo A → Fifo A × Fifo A × ℤ
  mount_rear q m = if length m.items == 0 then (q, m, pos 0) else (
    record q { items = drop (beyond q.uplimit (q.items ++ m.items)) (q.items ++ m.items) },
    record m { items = [] },
    if ltb q.uplimit (length (q.items ++ m.items)) then negsuc 0 else pos 0,
  )
