-- ===== src/Lifecycle.antt =====
-- The opening and closing of the legacy device: `open_sensors` and `poll__close` of
-- legacy/hal/sensors.cpp, the construction and destruction of BoschSensor in
-- legacy/hal/BoschSensor.cpp, and `hwcntl_init` of legacy/sensord/sensord_hwcntl_implement.cpp. The
-- calls between them go to the handlers of Legacy.antt. What the platform answers is an argument, and
-- both chips are configured as SMI240 in the IMU solution. A step is `none` where the code would use
-- memory or a thread that it does not have.
pub mod Uses
pub mod Sessions
mod Tests
use smi240_android_hal.Prelude.{
  ℕ, Bool, true, false, not, ◌&&◌, ◌||◌, Option, none, some, List, [], ◌∷◌, ◌==◌, if◌then◌else◌,
}
use smi240_android_hal.Prelude.Int.{ℤ, pos, negsuc}
use smi240_android_hal.Prelude.Float.{Float}
use smi240_android_hal.ConfigRef.{◌>>=◌}
use smi240_android_hal.SensorTable.{SensorList, ap_get_sensorlist, bsx_sensor_id_invalid}
use smi240_android_hal.Legacy.{Legacy, Request, activate, batch, flush, handle}
use smi240_android_hal.PlatformLog.{
  Answers, Log, Config, LogCall, sensord_pltf_init, sensord_pltf_clearup, perform,
}

-- Whether the calls of the platform succeed: those of the logs, pipe(), the two open(), the two
-- pthread_create() and the two malloc() of the list of sensors.
pub record Startup : Type 0 where
  pub log_answers : Answers
  pub pipe_works : Bool
  pub acc_opens : Bool
  pub gyro_opens : Bool
  pub sensord_starts : Bool
  pub hwcntl_starts : Bool
  pub list_fits : Bool
  pub index_fits : Bool

-- class BoschSensor: whether the handlers are set, the lists are allocated, and each thread runs.
pub record Instance : Type 0 where
  pub has_functions : Bool
  pub has_lists : Bool
  pub sensord_runs : Bool
  pub hwcntl_runs : Bool

-- What a pointer of bosch_sensorlist points to; `dangling` is memory that was freed.
pub data Pointer : Type 0 where
  null live dangling : Pointer

-- BoschSensor::instance, and the globals of the other files; bosch_sensorlist is in `legacy`, but for
-- its pointers, and the static variables of sensord_pltf.c in `log`.
pub record Device (F : Type 0) : Type 0 where
  pub instance_of : Option Instance
  pub list_pointer : Pointer
  pub index_pointer : Pointer
  pub acc_fd : Bool
  pub gyr_fd : Bool
  pub log : Log
  pub legacy : Legacy F

-- -ENODEV
abbrev pub enodev : ℤ
enodev = negsuc 18

-- ap_hwcntl_init_ACC and ap_hwcntl_init_GYRO: what they return.
unfoldable pub init_result : Bool → ℤ
init_result opens = if opens then pos 0 else enodev

-- hwcntl_init returns what the second of them returns.
unfoldable pub hwcntl_init : {F : Type 0} → Startup → Device F → Device F × ℤ
unfolding init_result
hwcntl_init w d =
    let ret = init_result w.acc_opens in
    let ret' = init_result w.gyro_opens in
    (record d { acc_fd = w.acc_opens; gyr_fd = w.gyro_opens }, ret')

abbrev is_zero : ℤ → Bool
is_zero (pos n) = n == 0
is_zero (negsuc n) = false

-- BoschSensor::BoschSensor once the logs are set up.
unfoldable pub construct_with : {F : Type 0} → Startup → Device F → Device F × Instance
unfolding hwcntl_init
construct_with w d =
    if not w.pipe_works
    then (
      d,
      record {
        has_functions = false;
        has_lists = false;
        sensord_runs = false;
        hwcntl_runs = false;
      },
    )
    else (let (d', ret) = hwcntl_init w d in
        (
          d',
          record {
            has_functions = true;
            has_lists = true;
            sensord_runs = w.sensord_starts;
            hwcntl_runs = is_zero ret && w.hwcntl_starts;
          },
        ))

-- BoschSensor::BoschSensor
unfoldable pub construct : {F : Type 0} → Startup → Device F → Option (Device F × Instance)
unfolding construct_with
construct w d = sensord_pltf_init w.log_answers d.log >>= λ log.
    some (construct_with w (record d { log = log }))

-- if (p) free(p), with the pointer left as it is.
unfoldable pub free : Pointer → Option Pointer
free null = some null
free live = some dangling
free dangling = none

-- BoschSensor::destroy and BoschSensor::~BoschSensor, which signals and joins both threads, clears up
-- the logs and deletes the lists.
unfoldable pub destroy : {F : Type 0} → Device F → Option (Device F)
unfolding free
destroy d = elim d.instance_of [
  | none ↦ some d
  | some i ↦
      if i.sensord_runs && i.hwcntl_runs && i.has_lists
      then (sensord_pltf_clearup d.log >>= λ log. free d.list_pointer >>= λ list.
          free d.index_pointer >>= λ index.
          some (record d {
            instance_of = none;
            log = log;
            list_pointer = list;
            index_pointer = index;
          }))
      else none
]

-- What ap_get_sensorlist does to the pointers.
unfoldable pub list_pointers : Bool → Bool → SensorList → Pointer × Pointer → Pointer × Pointer
list_pointers list_fits index_fits l (list, index) =
    if not (l.list_len == 0)
    then (list, index)
    else if not list_fits
    then (null, index)
    else if not index_fits
    then (dangling, null)
    else (live, live)

-- BoschSensor::get_sensorlist: the number of sensors.
unfoldable pub get_sensorlist : {F : Type 0} → Startup → Instance → Device F → Device F × ℕ
unfolding ap_get_sensorlist list_pointers
get_sensorlist w i d =
    if i.has_functions
    then (let (list, count) = ap_get_sensorlist w.list_fits w.index_fits d.legacy.list in
        let (p, q) =
          list_pointers w.list_fits w.index_fits d.legacy.list (d.list_pointer, d.index_pointer) in
        (
          record d {
            list_pointer = p;
            index_pointer = q;
            legacy = record d.legacy { list = list };
          },
          count,
        ))
    else (d, 0)

-- open_sensors: getInstance, which constructs the object where there is none, and get_sensorlist.
unfoldable pub open_sensors : {F : Type 0} → Startup → Device F → Option (Device F × ℕ)
unfolding construct get_sensorlist
open_sensors w d = elim d.instance_of [
  | none ↦ construct w d >>= λ r.
      some (get_sensorlist w (r.1) (record (r.0) { instance_of = some (r.1) }))
  | some i ↦ some (get_sensorlist w i d)
]

-- Whether a call reads the list of sensors: ap_activate does not for the handle that is not valid.
abbrev pub reads_list : Request → Bool
reads_list (activate h e) = not (h == bsx_sensor_id_invalid)
reads_list (batch h p l) = true
reads_list (flush h) = true

abbrev is_dangling : Pointer → Bool
is_dangling dangling = true
is_dangling _ = false

-- The calls of the framework: open, close, a call of a handler, and setDelay; and a line that any of
-- the threads writes to a log.
pub data Call : Type 0 where
  open_device : Startup → Call
  close_device : Call
  request : Request → Call
  set_delay : ℕ → ℤ → Call
  log_line : Config → LogCall → Call

module _ (fl : Float) where
  open fl use {F}

  -- BoschSensor::activate, batch and flush: the state and the result.
  unfoldable pub forward : Request → Device F → Option (Device F × ℤ)
  unfolding handle
  forward q d = elim d.instance_of [
    | none ↦ none
    | some i ↦
        if not i.has_functions
        then some (d, pos 0)
        else if reads_list q
            && (not (d.legacy.list.list_len == 0)
                && (is_dangling d.list_pointer || is_dangling d.index_pointer))
        then none
        else (handle fl q d.legacy >>= λ r. some (record d { legacy = r.0 }, r.1))
  ]

  unfoldable pub call : Call → Device F → Option (Device F)
  unfolding open_sensors destroy forward
  call (open_device w) d = open_sensors w d >>= λ r. some (r.0)
  call close_device d = destroy d
  call (request q) d = forward q d >>= λ r. some r.0
  call (set_delay h ns) d = forward (batch h ns (pos 0)) d >>= λ r. some r.0
  call (log_line c x) d = perform c x d.log >>= λ log. some (record d { log = log })

  unfoldable pub calls : List Call → Device F → Option (Device F)
  unfolding call
  calls [] d = some d
  calls (c ∷ cs) d = call c d >>= λ d'. calls cs d'
