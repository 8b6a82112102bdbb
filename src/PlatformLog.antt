-- ===== src/PlatformLog.antt =====
-- The trace and the data logs of the legacy HAL (legacy/sensord/sensord_pltf.c), as built for Android.
-- A stream is what fopen gives, with what was written through it; stream 0 is stdout. Messages come in
-- as the text that the format gives. What the platform answers is an argument. The result is `none`
-- where a function of stdio is called with NULL or with a stream that was closed.
pub mod Kept
pub mod Data
pub mod Calls
pub mod Opened
pub mod Closed
pub mod Cleared
mod Tests
use smi240_android_hal.Prelude.{
  ℕ, ◌+◌, Bool, true, false, not, ◌&&◌, Option, none, some, List, [], ◌∷◌, ◌++◌, ◌==◌,
  if◌then◌else◌, bit_and, take,
}
use smi240_android_hal.Scan.{◌>>=◌}

-- PATH_DIR_SENSOR_STORAGE, as stat() sees it; the number is the mode.
pub data Storage : Type 0 where
  missing other : Storage
  directory : ℕ → Storage

pub data LogFile : Type 0 where
  sensord_trace_file data_in_file bsx_data_log : LogFile

-- What the code prints by itself.
pub data Note : Type 0 where
  no_chmod no_storage no_trace_file trace_fails : Note
  no_file : LogFile → Note

pub data Text : Type 0 where
  message : List ℕ → Text
  note : Note → Text

pub record Stream : Type 0 where
  pub texts : List Text
  pub is_open : Bool

-- android_LogPriority
pub data Priority : Type 0 where
  fatal error warn info debug : Priority

-- The static variables, the streams from 0 to `fresh`, the storage and Android's log.
pub record Log : Type 0 where
  pub streams : ℕ → Stream
  pub fresh : ℕ
  pub storage : Storage
  pub logcat : List (Priority × List ℕ)
  pub g_fp_trace : Option ℕ
  pub g_dlog_input : Option ℕ
  pub g_bsx_dlog : Option ℕ

-- trace_level and trace_to_logcat of legacy/sensord/sensord_cfg.cpp.
pub record Config : Type 0 where
  pub trace_level : ℕ
  pub trace_to_logcat : ℕ

-- What the platform answers to chmod, to mkdir (the mode that the umask leaves) and to fopen.
pub record Answers : Type 0 where
  pub chmod_works : Bool
  pub mkdir_mode : Option ℕ
  pub fopen_works : Bool

abbrev pub update_stream : (ℕ → Stream) → ℕ → Stream → ℕ → Stream
update_stream f k v j = if k == j then v else f j

-- fprintf and fflush, by whether the write succeeds.
unfoldable pub print : Bool → Option ℕ → Text → Log → Option Log
print writes none t s = none
print writes (some k) t s =
    if (s.streams k).is_open
    then some (
        if writes
        then record s {
          streams =
              update_stream s.streams k
                (record { texts = (s.streams k).texts ++ t ∷ []; is_open = true });
        }
        else s)
    else none

-- printf
unfoldable pub say : Note → Log → Option Log
unfolding print
say n s = print true (some 0) (note n) s

-- fopen
unfoldable pub fopen : Bool → Log → Option ℕ × Log
fopen false s = (none, s)
fopen true s = (
  some s.fresh,
  record s {
    fresh = s.fresh + 1;
    streams = update_stream s.streams s.fresh (record { texts = []; is_open = true });
  },
)

unfoldable pub fclose : Option ℕ → Log → Option Log
fclose none s = none
fclose (some k) s =
    if (s.streams k).is_open
    then some (record s {
      streams = update_stream s.streams k (record { texts = (s.streams k).texts; is_open = false });
    })
    else none

-- 0766
abbrev pub storage_mode : ℕ
storage_mode = 502

-- chmod of the storage.
abbrev pub changed_mode : Bool → Storage → Storage
changed_mode true (directory m) = directory storage_mode
changed_mode true missing = missing
changed_mode true other = other
changed_mode false st = st

unfoldable pub storage_init : Answers → Log → Option Log
unfolding say
storage_init a s = elim s.storage [
  | directory m ↦
      let s' = record s { storage = changed_mode a.chmod_works (directory m) } in
      if a.chmod_works then some s' else say no_chmod s'
  | other ↦ some s
  | missing ↦ elim a.mkdir_mode [
    | none ↦ say no_storage s
    | some m ↦ some (record s { storage = changed_mode a.chmod_works (directory m) })
  ]
]

unfoldable pub sensord_trace_init : Bool → Log → Option Log
unfolding fopen say
sensord_trace_init works s =
    let (fp, s') = fopen works s in
    elim fp [
      | none ↦ say no_trace_file (record s' { g_fp_trace = none }) >>= λ s''.
          some (record s'' { g_fp_trace = some 0 })
      | some k ↦ some (record s' { g_fp_trace = some k })
    ]

-- The switch of trace_log.
unfoldable pub priority_of : ℕ → Option Priority
priority_of level =
    if level == 16
    then some fatal
    else if level == 8
    then some error
    else if level == 4
    then some warn
    else if level == 2
    then some info
    else if level == 1
    then some debug
    else if level == 32
    then some warn
    else none

-- What vsnprintf leaves of a message in the buffer of 256 bytes, the last of which is not used.
abbrev pub buffered : List ℕ → List ℕ
buffered m = take 254 m

unfoldable pub trace_log : Config → Bool → ℕ → List ℕ → Log → Option Log
unfolding print say priority_of
trace_log c writes level m s =
    if c.trace_to_logcat == 0
    then (if bit_and c.trace_level level == 0
        then some s
        else (print writes s.g_fp_trace (message m) s >>= λ s'.
            if writes then some s' else say trace_fails s'))
    else elim (priority_of level) [
      | none ↦ some s
      | some p ↦ some (record s { logcat = s.logcat ++ (p, buffered m) ∷ [] })
    ]

-- generic_data_log, with what it leaves in `*p_dest_fp`.
unfoldable pub generic_data_log :
    LogFile → Bool → Bool → List ℕ → Option ℕ → Log → Option (Option ℕ × Log)
unfolding fopen print say
generic_data_log path opens writes m (some k) s =
    print writes (some k) (message m) s >>= λ s'. some (some k, s')
generic_data_log path opens writes m none s =
    let (fp, s') = fopen opens s in
    elim fp [
      | none ↦ say (no_file path) s' >>= λ s''. some (none, s'')
      | some k ↦ print writes (some k) (message m) s' >>= λ s''. some (some k, s'')
    ]

unfoldable pub data_log_algo_input : Bool → Bool → List ℕ → Log → Option Log
unfolding generic_data_log
data_log_algo_input opens writes m s =
    generic_data_log data_in_file opens writes m s.g_dlog_input s >>= λ r.
    some (record (r.1) { g_dlog_input = r.0 })

unfoldable pub bsx_datalog_algo : Bool → Bool → List ℕ → Log → Option Log
unfolding generic_data_log
bsx_datalog_algo opens writes m s =
    generic_data_log bsx_data_log opens writes m s.g_bsx_dlog s >>= λ r.
    some (record (r.1) { g_bsx_dlog = r.0 })

unfoldable pub sensord_pltf_init : Answers → Log → Option Log
unfolding storage_init sensord_trace_init
sensord_pltf_init a s = storage_init a s >>= λ s'. sensord_trace_init a.fopen_works s'

-- fclose of a data log that was opened.
unfoldable pub close_opened : Option ℕ → Log → Option Log
unfolding fclose
close_opened none s = some s
close_opened (some k) s = fclose (some k) s

unfoldable pub sensord_pltf_clearup : Log → Option Log
unfolding close_opened
sensord_pltf_clearup s = fclose s.g_fp_trace s >>= λ s1.
    close_opened s1.g_dlog_input s1 >>= λ s2. close_opened s2.g_bsx_dlog s2

-- The static variables at the start of the process.
abbrev pub loaded : Storage → Log
loaded st = record {
  streams = λ k. record { texts = []; is_open = k == 0 };
  fresh = 1;
  storage = st;
  logcat = [];
  g_fp_trace = none;
  g_dlog_input = none;
  g_bsx_dlog = none;
}

-- A call of one of the logs.
pub data LogCall : Type 0 where
  trace : Bool → ℕ → List ℕ → LogCall
  log_input log_bsx : Bool → Bool → List ℕ → LogCall

unfoldable pub perform : Config → LogCall → Log → Option Log
unfolding trace_log data_log_algo_input bsx_datalog_algo
perform c (trace writes level m) s = trace_log c writes level m s
perform c (log_input opens writes m) s = data_log_algo_input opens writes m s
perform c (log_bsx opens writes m) s = bsx_datalog_algo opens writes m s

unfoldable pub perform_all : Config → List LogCall → Log → Option Log
unfolding perform
perform_all c [] s = some s
perform_all c (x ∷ xs) s = perform c x s >>= λ s'. perform_all c xs s'
