-- ===== src/PlatformLog/Tests.antt =====
-- The logs at concrete calls.
use smi240_android_hal.Prelude.{
  ◌≡◌, refl, true, false, none, some, List, [], ◌∷◌, arith, ltb, ◌==◌, if◌then◌else◌,
}
use smi240_android_hal.Scan.{◌>>=◌}
use smi240_android_hal.PlatformLog.{
  Log, Config, Answers, LogCall, trace, log_input, log_bsx, directory, missing, loaded,
  sensord_pltf_init, sensord_pltf_clearup, data_log_algo_input, perform_all, message,
}
use smi240_android_hal.PlatformLog.Kept.{Logs}
use smi240_android_hal.PlatformLog.Data.{Keeps}
use smi240_android_hal.PlatformLog.Opened.{no_logs, logs_keep}
use smi240_android_hal.PlatformLog.Closed.{closed_log_faults}

-- The settings of the source, but for the trace that goes to the file.
abbrev to_file : Config
to_file = record { trace_level = 28; trace_to_logcat = 0 }

abbrev all_well : Answers
all_well = record { chmod_works = true; mkdir_mode = some 448; fopen_works = true }

-- The second message is of the level INFO, which the settings leave out; the input log cannot be opened
-- at first.
abbrev calls : List LogCall
calls =
    trace true 8 (1 ∷ [])
    ∷ trace true 2 (2 ∷ [])
    ∷ log_input false true (3 ∷ [])
    ∷ log_bsx true true (4 ∷ [])
    ∷ log_input true true (5 ∷ [])
    ∷ trace true 4 (6 ∷ [])
    ∷ []

abbrev logs : Logs
logs = record {
  to_trace = (1 ∷ []) ∷ (6 ∷ []) ∷ [];
  to_logcat = [];
  input = some ((5 ∷ []) ∷ []);
  bsx = some ((4 ∷ []) ∷ []);
}

logs_keep_example :
    (s : Log) × ((sensord_pltf_init all_well (loaded missing) >>= perform_all to_file calls)
      ≡ some s)
    × Keeps s logs
logs_keep_example = logs_keep to_file all_well missing calls refl

abbrev logging : Log
logging = record (loaded (directory 502)) {
  streams = λ k. record { texts = if k == 1 then message (5 ∷ []) ∷ [] else []; is_open = ltb k 3 };
  fresh = 3;
  g_fp_trace = some 2;
  g_dlog_input = some 1;
}

abbrev logged_input : Logs
logged_input = record no_logs { input = some ((5 ∷ []) ∷ []) }

logging-Keeps : Keeps logging logged_input
logging-Keeps = record {
  trace = (omega arith, omega arith, refl);
  input = (omega arith, omega arith, refl);
  bsx = tt;
  trace_input = λ e. omega arith;
  trace_bsx = tt;
  input_bsx = tt;
  logcat = refl;
  console = refl;
  positive = omega arith;
}

closed_log_faults_example :
    (s' : Log) × (s'' : Log) × (sensord_pltf_clearup logging ≡ some s')
    × (sensord_pltf_init all_well s' ≡ some s'')
    × (data_log_algo_input true true (7 ∷ []) s'' ≡ none)
closed_log_faults_example =
    closed_log_faults logging logged_input 1 ((5 ∷ []) ∷ []) all_well true true (7 ∷ [])
      logging-Keeps refl refl
