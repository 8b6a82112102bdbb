-- ===== src/Lifecycle/Tests.antt =====
-- Sessions at concrete calls, with the naturals as hundredths for the floating-point type.
use smi240_android_hal.Prelude.{
  ℕ, ◌≡◌, refl, true, false, none, some, List, [], ◌∷◌, ◌++◌, arith, map,
}
use smi240_android_hal.Prelude.Int.{pos}
use smi240_android_hal.Prelude.Float.{IsNumber, hundredths}
use smi240_android_hal.ConfigRef.{◌>>=◌}
use smi240_android_hal.PlatformLog.{
  Config, Log, missing, trace, log_input, sensord_pltf_init, sensord_pltf_clearup,
}
use smi240_android_hal.SensorTable.Listed.{full_list}
use smi240_android_hal.Legacy.{Legacy, activate, batch, flush, run, start_with}
use smi240_android_hal.Lifecycle.{
  Startup, Device, open_device, close_device, request, call, calls, open_sensors, destroy,
}
use smi240_android_hal.Lifecycle.Uses.{Use, ask, write, as_call, requests_of, fresh}
use smi240_android_hal.Lifecycle.Sessions.{Starts, closed, session-closed, reopened_faults}

centi-IsNumber : (k : ℕ) → IsNumber hundredths (hundredths.centi k)
centi-IsNumber k = record { le_lt = λ j. ground arith; lt_down = λ i j h e. ground arith }

-- The accelerometer's file cannot be opened.
abbrev most_works : Startup
most_works = record {
  log_answers = record { chmod_works = false; mkdir_mode = some 448; fopen_works = true };
  pipe_works = true;
  acc_opens = false;
  gyro_opens = true;
  sensord_starts = true;
  hwcntl_starts = true;
  list_fits = true;
  index_fits = true;
}

most_Starts : Starts most_works
most_Starts = record {
  trace = refl;
  pipe = refl;
  gyro = refl;
  sensord = refl;
  hwcntl = refl;
  list = refl;
  index = refl;
}

abbrev to_file : Config
to_file = record { trace_level = 28; trace_to_logcat = 0 }

abbrev uses : List Use
uses =
    ask (activate 1 true)
    ∷ write to_file (trace true 8 (1 ∷ []))
    ∷ ask (batch 1 (pos 5_000_000) (pos 0))
    ∷ write to_file (log_input true true (2 ∷ []))
    ∷ ask (flush 1)
    ∷ []

-- Where the gyroscope's file cannot be opened there is no second thread, which the closing signals.
no_thread :
    (open_sensors (record most_works { gyro_opens = false }) (fresh hundredths missing) >>= λ r.
    destroy (r.0))
    ≡ none
unfolding open_sensors destroy sensord_pltf_init
no_thread = refl

-- Where the trace file cannot be opened, the closing closes stdout, and the next opening fails if it has
-- to print that the trace file cannot be opened.
abbrev no_trace : Startup
no_trace = record most_works {
  log_answers = record { chmod_works = false; mkdir_mode = some 448; fopen_works = false };
}

stdout_closed :
    calls hundredths
      (open_device no_trace ∷ close_device ∷ open_device no_trace ∷ [])
      (fresh hundredths missing)
    ≡ none
unfolding calls sensord_pltf_init sensord_pltf_clearup
stdout_closed = refl

session-closed_example :
    (t : Legacy ℕ) × (l : Log) × (run hundredths
        (requests_of uses)
        (start_with hundredths full_list)
      ≡ some t)
    × (calls hundredths
          (open_device most_works ∷ (map as_call uses ++ close_device ∷ []))
          (fresh hundredths missing)
        ≡ some (closed hundredths most_works l t))
    × ((l.streams 0).is_open ≡ true)
session-closed_example =
    session-closed hundredths centi-IsNumber most_works missing uses most_Starts

reopened_faults_example :
    (t : Device ℕ) × (calls hundredths
        (open_device most_works ∷ (map as_call uses ++ close_device ∷ open_device most_works ∷ []))
        (fresh hundredths missing)
      ≡ some t)
    × (call hundredths (request (flush 16)) t ≡ none)
    × (call hundredths close_device t ≡ none)
reopened_faults_example =
    reopened_faults hundredths centi-IsNumber most_works most_works missing uses (flush 16)
      most_Starts refl refl
