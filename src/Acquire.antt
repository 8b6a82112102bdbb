-- ===== src/Acquire.antt =====
-- The way of a sample through the legacy HAL: the thread that polls the chips
-- (`ap_hw_poll_smi240acc`, `ap_hw_poll_smi240gyro`, `IMU_hw_deliver_sensordata` of
-- legacy/sensord/sensord_hwcntl_implement.cpp) and the thread that processes what it hands over
-- (`sensord_read_rawdata` of legacy/sensord/sensord.cpp, and `sensord_algo_process` of
-- legacy/sensord/sensord_algo.cpp with its allocations). The lists are those of the contract
-- SimpleList/Fifo.antt. What the platform gives is an argument: what each read() yields, the clock,
-- and whether each allocation succeeds. The result is `none` where the code would access memory that
-- it does not own.
pub mod Collect
pub mod Drain
pub mod Pipeline
pub mod Events
pub mod Pace
pub mod Image
pub mod Heap
pub mod Threads
mod Tests
use smi240_android_hal.Prelude.{
  ℕ, zero, suc, ◌+◌, ◌-◌, ◌%◌, ◌^◌, Bool, true, false, not, ◌&&◌, Option, none, some, List, [], ◌∷◌,
  ◌++◌, ltb, ◌==◌, if◌then◌else◌, length, drop, map,
}
use smi240_android_hal.Prelude.Int.{ℤ}
use smi240_android_hal.Prelude.Float.{Float}
use smi240_android_hal.Remap.{hw_remap_sensor_data, Vector}
use smi240_android_hal.Scan.{sysfs_extract_numbers, ◌>>=◌}
use smi240_android_hal.SimpleList.Fifo.{Fifo, add_rear, get_headdata, mount_rear}
use smi240_android_hal.Algo.{
  HwData, EventType, accelerometer, gyroscope_uncalibrated, InputId, SensorsEvent, event_of,
  sort_input_samples, deliver,
}

-- HW_DATA_UNION: the numbers of a sample are floats.
pub record Sample (F : Type 0) : Type 0 where
  pub id : EventType
  pub x : F
  pub y : F
  pub z : F
  pub timestamp : ℕ

-- One round of a poll: the bytes that read() yields, at least one, the time of the clock, and whether
-- the allocations of the sample and of its list node succeed.
pub record Reading : Type 0 where
  pub bytes : List ℕ
  pub timestamp : ℕ
  pub calloc_works : Bool
  pub malloc_works : Bool

-- The float type, its conversion to int32_t, LONG_MAX, and the settings of
-- legacy/sensord/sensord_cfg.cpp.
pub record Platform : Type 1 where
  pub fl : Float
  pub to_int : fl.F → ℤ
  pub long_max : ℕ
  pub place_g : ℕ
  pub accl_range : ℕ
  pub gyro_range : ℕ

-- char data[100];
abbrev pub data_size : ℕ
data_size = 100

-- What the array holds after read() and `data[ret] = '\0'`.
unfoldable pub filled : List ℕ → List ℕ → Option (List ℕ)
filled buffer bytes =
    if ltb (length bytes) data_size
    then some (bytes ++ 0 ∷ drop (length bytes + 1) buffer)
    else none

-- The locals of a poll before they are set.
pub record Locals : Type 0 where
  pub buffer : List ℕ
  pub xyz : ℤ × ℤ × ℤ

-- The locals of a poll, and its list.
pub record Polling (F : Type 0) : Type 0 where
  pub buffer : List ℕ
  pub xyz : ℤ × ℤ × ℤ
  pub list : Fifo (Sample F)

-- The lists of class BoschSensor; those of the magnetometer are not used.
pub record Lists (F : Type 0) : Type 0 where
  pub hwcntl_acclraw : Fifo (Sample F)
  pub hwcntl_gyroraw : Fifo (Sample F)
  pub shared : Fifo (Sample F)
  pub sensord_acclraw : Fifo (Sample F)
  pub sensord_gyroraw : Fifo (Sample F)

-- The allocations of sensord_algo_process: the two arrays, the indications, and the event with each
-- number.
pub record Allocations : Type 0 where
  pub acc_array : Bool
  pub gyro_array : Bool
  pub align_ind : Bool
  pub event : ℕ → Bool

-- SAMPLING_INTERVAL_OFFSET, in microseconds
abbrev pub sampling_interval_offset : ℕ
sampling_interval_offset = 600

-- The argument of usleep at the end of IMU_hw_deliver_sensordata, a uint32_t.
unfoldable pub sleep_us : ℕ → ℕ
sleep_us sampling_interval = (sampling_interval + 2 ^ 32 - sampling_interval_offset) % 2 ^ 32

module _ (p : Platform) where
  abbrev pub F : Type 0
  F = p.fl.F

  -- The sample that is stored for the numbers of a line; only the gyroscope is remapped.
  unfoldable pub sample_of : EventType → ℤ × ℤ × ℤ → ℕ → Option (Sample F)
  unfolding hw_remap_sensor_data
  sample_of accelerometer (x, y, z) t = some (record {
    id = accelerometer;
    x = p.fl.of_int x;
    y = p.fl.of_int y;
    z = p.fl.of_int z;
    timestamp = t;
  })
  sample_of gyroscope_uncalibrated (x, y, z) t =
      hw_remap_sensor_data p.fl p.place_g
        (record { x = p.fl.of_int x; y = p.fl.of_int y; z = p.fl.of_int z })
      >>= λ v.
          some (record { id = gyroscope_uncalibrated; x = v.x; y = v.y; z = v.z; timestamp = t })

  -- The rest of a round after the line is read.
  unfoldable pub store : EventType → Reading → Polling F → Option (Polling F)
  unfolding sample_of add_rear
  store id r s =
      if r.calloc_works
      then (sample_of id s.xyz r.timestamp >>= λ d.
          some (record s { list = (add_rear r.malloc_works d s.list).0 }))
      else some s

  unfoldable pub poll_round : EventType → Reading → Polling F → Option (Polling F)
  unfolding filled sysfs_extract_numbers store
  poll_round id r s = filled s.buffer r.bytes >>= λ buffer.
      sysfs_extract_numbers p.long_max buffer s.xyz >>= λ xyz.
      store id r (record s { buffer = buffer; xyz = xyz })

  -- ap_hw_poll_smi240acc and ap_hw_poll_smi240gyro: the while loop, until read() yields nothing.
  unfoldable pub poll : EventType → List Reading → Polling F → Option (Polling F)
  unfolding poll_round
  poll id [] s = some s
  poll id (r ∷ rs) s = poll_round id r s >>= λ s'. poll id rs s'

  -- What IMU_hw_deliver_sensordata does under the mutex: both lists are mounted.
  unfoldable pub hand_over : Lists F → Lists F
  unfolding mount_rear
  hand_over l =
      let (shared₁, acc, c₁) = mount_rear l.shared l.hwcntl_acclraw in
      let (shared₂, gyro, c₂) = mount_rear shared₁ l.hwcntl_gyroraw in
      record l { shared = shared₂; hwcntl_acclraw = acc; hwcntl_gyroraw = gyro }

  abbrev pub begin : Locals → Fifo (Sample F) → Polling F
  begin u q = record { buffer = u.buffer; xyz = u.xyz; list = q }

  -- IMU_hw_deliver_sensordata up to usleep; the Boolean says whether the other thread is signalled.
  -- The locals of a poll are not initialised: what they hold is an argument.
  unfoldable pub deliver_sensordata :
      Locals → Locals → List Reading → List Reading → Lists F → Option (Lists F × Bool)
  unfolding poll hand_over
  deliver_sensordata u v acc gyro l = poll accelerometer acc (begin u l.hwcntl_acclraw) >>= λ a.
      poll gyroscope_uncalibrated gyro (begin v l.hwcntl_gyroraw) >>= λ g.
      let l' = record l { hwcntl_acclraw = a.list; hwcntl_gyroraw = g.list } in
      some (
        if length a.list.items + length g.list.items == 0
        then (l', false)
        else (hand_over l', true))

  -- The switch of sensord_read_rawdata.
  unfoldable pub sort_in : Bool → Sample F → Lists F → Lists F
  unfolding add_rear
  sort_in works d l = elim d.id [
    | accelerometer ↦ record l { sensord_acclraw = (add_rear works d l.sensord_acclraw).0 }
    | gyroscope_uncalibrated ↦ record l { sensord_gyroraw = (add_rear works d l.sensord_gyroraw).0 }
  ]

  -- The while loop of sensord_read_rawdata, for at most as many rounds as the fuel says; `works k` says
  -- whether the malloc of the round with k rounds of fuel behind it succeeds.
  unfoldable pub drain : (ℕ → Bool) → ℕ → Lists F → Lists F
  unfolding get_headdata sort_in
  drain works zero l = l
  drain works (suc fuel) l = elim (get_headdata l.shared).1 [
    | none ↦ l
    | some d ↦
        drain works fuel (sort_in (works fuel) d (record l { shared = (get_headdata l.shared).0 }))
  ]

  -- sensord_read_rawdata from where it holds the mutex, which it waits for first where the list is
  -- empty; `waited` says whether that wait succeeds.
  unfoldable pub sensord_read_rawdata : Bool → (ℕ → Bool) → Lists F → Lists F
  unfolding drain
  sensord_read_rawdata waited works l =
      if length l.shared.items == 0 && not waited then l else drain works (length l.shared.items) l

  -- What the processing reads of a sample.
  abbrev pub hw_data : Sample F → HwData
  hw_data d = record {
    x = p.to_int d.x;
    y = p.to_int d.y;
    z = p.to_int d.z;
    timestamp = d.timestamp;
  }

  -- The events that are allocated, from the one with number `k` on.
  unfoldable pub events_from : (ℕ → Bool) → ℕ → List (InputId × HwData) → List (SensorsEvent F)
  events_from works k [] = []
  events_from works k (d ∷ ds) =
      let rest = events_from works (k + 1) ds in
      if works k
      then (elim (event_of p.fl p.accl_range p.gyro_range d) [ none ↦ rest | some e ↦ e ∷ rest ])
      else rest

  -- sensord_algo_process after both arrays are filled.
  unfoldable pub process_arrays : Allocations → List HwData → List HwData → List (SensorsEvent F)
  unfolding sort_input_samples deliver events_from
  process_arrays a acc gyro =
      if a.align_ind
      then events_from a.event 0 (deliver (sort_input_samples acc gyro) acc gyro)
      else []

  abbrev pub emptied : Fifo (Sample F) → Fifo (Sample F)
  emptied q = record q { items = [] }

  -- sensord_algo_process. A list that is empty needs no array.
  unfoldable pub process : Allocations → Lists F → Lists F × List (SensorsEvent F)
  unfolding process_arrays
  process a l =
      let acc = l.sensord_acclraw.items in
      let gyro = l.sensord_gyroraw.items in
      if length acc + length gyro == 0
      then (l, [])
      else if not (length acc == 0) && not a.acc_array
      then (l, [])
      else if not (length gyro == 0) && not a.gyro_array
      then (record l { sensord_acclraw = emptied l.sensord_acclraw }, [])
      else (
        record l {
          sensord_acclraw = emptied l.sensord_acclraw;
          sensord_gyroraw = emptied l.sensord_gyroraw;
        },
        process_arrays a (map hw_data acc) (map hw_data gyro),
      )
