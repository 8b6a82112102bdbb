-- ===== src/ConfigRef.antt =====
-- The lists of active sensors of the legacy HAL: `activate_configref_resort` of
-- legacy/sensord/sensord_hwcntl.cpp. `BSX_active_confref_nonwk` and `BSX_active_confref_wk` are
-- arrays of 32 pointers into a table of configurations, kept in the order of the table with NULL
-- behind the last; a pointer is modelled by its offset in the table. An operation is `none` where
-- the code would leave the array.
pub mod Arrays
pub mod Sorted
pub mod Resort
pub mod Activate
pub mod Members
mod Tests
use smi240_android_hal.Prelude.{
  ℕ, zero, suc, ◌+◌, ◌-◌, ◌%◌, ◌^◌, Bool, true, false, ◌&&◌, Option, none, some, List, [], ◌∷◌,
  ◌++◌, ltb, leb, ◌==◌, if◌then◌else◌, length, get_elem?, set, drop, take,
}

-- One of the two arrays, with its count.
pub record Bank : Type 0 where
  pub refs : List (Option ℕ)
  pub active_sensor_cnt : ℕ

-- memmove of `n` slots from `src` to `dst`.
pub memmove : ℕ → ℕ → ℕ → List (Option ℕ) → Option (List (Option ℕ))
memmove dst src n a =
    if leb (src + n) (length a) && leb (dst + n) (length a)
    then some (take dst a ++ (take n (drop src a) ++ drop (dst + n) a))
    else none

-- a[i] = v
pub write : ℕ → Option ℕ → List (Option ℕ) → Option (List (Option ℕ))
write i v a = if ltb i (length a) then some (set a i v) else none

infixl 5 ◌>>=◌
abbrev pub ◌>>=◌ : {A B : Type 0} → Option A → (A → Option B) → Option B
none >>= f = none
some a >>= f = f a

-- (int)(*p_active_sensor_cnt) - i, where a negative size is a fault.
pub rest_count : ℕ → ℕ → Option ℕ
rest_count cnt i = if ltb cnt i then none else some (cnt - i)

abbrev pub u32 : ℕ → ℕ
u32 n = n % 2 ^ 32

-- The branches of the loop's body that return, at slot `i`.
pub append_ref : ℕ → ℕ → Bank → Option (Bank × ℕ)
unfolding write
append_ref i rel b = write i (some rel) b.refs >>= λ a.
    some (record { refs = a; active_sensor_cnt = u32 (b.active_sensor_cnt + 1) }, 1)

pub delete_ref : ℕ → Bank → Option (Bank × ℕ)
unfolding write memmove rest_count
delete_ref i b =
    let cnt = u32 (b.active_sensor_cnt + (2 ^ 32 - 1)) in
    rest_count cnt i >>= λ n. memmove i (i + 1) n b.refs >>= λ a.
    write cnt none a >>= λ a'. some (record { refs = a'; active_sensor_cnt = cnt }, 1)

pub insert_ref : ℕ → ℕ → Bank → Option (Bank × ℕ)
unfolding write memmove rest_count
insert_ref i rel b = rest_count b.active_sensor_cnt i >>= λ n. memmove (i + 1) i n b.refs >>= λ a.
    write i (some rel) a >>= λ a'.
    some (record { refs = a'; active_sensor_cnt = u32 (b.active_sensor_cnt + 1) }, 1)

-- The for loop from slot `i` on, with the rounds that are left; `rel` is the offset of the sensor
-- in its table.
pub resort_from : ℕ → ℕ → ℕ → Bool → Bank → Option (Bank × ℕ)
resort_from zero i rel is_enable b = some (b, 0)
resort_from (suc rounds) i rel is_enable b = elim (get_elem? b.refs i) [
  | none ↦ none
  | some slot ↦ elim slot [
    | none ↦ if is_enable then append_ref i rel b else some (b, 0)
    | some current ↦ elim (ltb current rel) [
      | true ↦ resort_from rounds (i + 1) rel is_enable b
      | false ↦
          if current == rel
          then (if is_enable then some (b, 0) else delete_ref i b)
          else if is_enable
          then insert_ref i rel b
          else some (b, 0)
    ]
  ]
]

-- The two arrays, and the functions that both begin by choosing one of them.
pub record Banks : Type 0 where
  pub nonwk : Bank
  pub wk : Bank

abbrev pub sensorlist_inx_ambient_iaq : ℕ
sensorlist_inx_ambient_iaq = 31

abbrev pub sensorlist_inx_wakeup_signi_pressure : ℕ
sensorlist_inx_wakeup_signi_pressure = 32

abbrev pub sensorlist_inx_end : ℕ
sensorlist_inx_end = 64

unfoldable pub activate_configref_resort : ℕ → Bool → Banks → Option (Banks × ℕ)
unfolding resort_from append_ref delete_ref insert_ref
activate_configref_resort bsx_list_index is_enable s =
    if leb bsx_list_index sensorlist_inx_ambient_iaq
    then (resort_from (sensorlist_inx_ambient_iaq + 1) 0 bsx_list_index is_enable s.nonwk >>= λ r.
        some (record s { nonwk = r.0 }, r.1))
    else (resort_from (sensorlist_inx_end - sensorlist_inx_wakeup_signi_pressure) 0
          (bsx_list_index - sensorlist_inx_wakeup_signi_pressure) is_enable s.wk
        >>= λ r. some (record s { wk = r.0 }, r.1))
