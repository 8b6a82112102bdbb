-- ===== src/PlatformLog/Opened.antt =====
-- The logs from the start of the process on.
use smi240_android_hal.Prelude.{
  ℕ, ◌+◌, ◌≡◌, refl, ap, ◌∙◌, Bool, true, false, Option, none, some, List, [], arith, if◌then◌else◌,
}
use smi240_android_hal.Scan.{◌>>=◌}
use smi240_android_hal.PlatformLog.{
  Storage, missing, other, directory, Log, Stream, Config, Answers, LogCall, no_chmod, no_storage,
  update_stream, say, fopen, changed_mode, storage_init, sensord_trace_init, sensord_pltf_init,
  loaded, perform_all,
}
use smi240_android_hal.PlatformLog.Kept.{
  Logs, after_calls, Moves, say-Moves, update-same, update-other,
}
use smi240_android_hal.PlatformLog.Data.{Keeps}
use smi240_android_hal.PlatformLog.Calls.{perform_all-Keeps}

abbrev pub no_logs : Logs
no_logs = record { to_trace = []; to_logcat = []; input = none; bsx = none }

stored-Moves :
    (st : Storage) (s : Log)
    → (s.streams 0).is_open ≡ true
    → Moves none s (record s { storage = st }) none
stored-Moves st s con = record {
  same = λ j pos lt d. refl;
  apart = λ j lt d. tt;
  higher = omega arith;
  console = con;
  keeps = (refl, refl, refl, refl);
}

chmod-Moves :
    (works : Bool) (st : Storage) (s : Log)
    → (s.streams 0).is_open ≡ true
    → (s' : Log) × ((if works
          then some (record s { storage = st })
          else say no_chmod (record s { storage = st }))
        ≡ some s')
      × Moves none s s' none
chmod-Moves true st s con = (record s { storage = st }, refl, stored-Moves st s con)
chmod-Moves false st s con =
    let (s', e, v) = say-Moves no_chmod none (record s { storage = st }) con in
    (
      s',
      e,
      record {
        same = v.same;
        apart = v.apart;
        higher = v.higher;
        console = v.console;
        keeps = v.keeps;
      },
    )

mkdir-Moves :
    (a : Answers) (mode : Option ℕ) (s : Log)
    → (s.streams 0).is_open ≡ true
    → a.mkdir_mode ≡ mode
    → (s' : Log) × (storage_init a (record s { storage = missing }) ≡ some s')
      × Moves none s s' none
unfolding storage_init
mkdir-Moves a none s con n =
    let (s', e, v) = say-Moves no_storage none (record s { storage = missing }) con in
    (
      s',
      rw n e,
      record {
        same = v.same;
        apart = v.apart;
        higher = v.higher;
        console = v.console;
        keeps = v.keeps;
      },
    )
mkdir-Moves a (some m) s con n = (
  record s { storage = changed_mode a.chmod_works (directory m) },
  rw n refl,
  stored-Moves (changed_mode a.chmod_works (directory m)) s con,
)

pub storage_init-Moves :
    (a : Answers) (st : Storage) (s : Log)
    → (s.streams 0).is_open ≡ true
    → (s' : Log) × (storage_init a (record s { storage = st }) ≡ some s') × Moves none s s' none
unfolding storage_init
storage_init-Moves a (directory m) s con =
    chmod-Moves a.chmod_works (changed_mode a.chmod_works (directory m)) s con
storage_init-Moves a other s con = (record s { storage = other }, refl, stored-Moves other s con)
storage_init-Moves a missing s con = mkdir-Moves a a.mkdir_mode s con refl

pub opened_logs :
    (a : Answers) (st : Storage)
    → a.fopen_works ≡ true
    → (s : Log) × (sensord_pltf_init a (loaded st) ≡ some s) × Keeps s no_logs
unfolding sensord_pltf_init sensord_trace_init fopen
opened_logs a st works =
    let (s', e, v) = storage_init-Moves a st (loaded st) refl in
    let (log, _, input, bsx) = v.keeps in
    let trace_stream : Stream = record { texts = []; is_open = true } in
    (
      record s' {
        fresh = s'.fresh + 1;
        streams = update_stream s'.streams s'.fresh trace_stream;
        g_fp_trace = some s'.fresh;
      },
      rw (e, ◌>>=◌) (rw works refl),
      record {
        trace =
            (omega (arith, v.higher), omega arith, update-same s'.streams s'.fresh trace_stream);
        input = rw input tt;
        bsx = rw bsx tt;
        trace_input = rw input tt;
        trace_bsx = rw bsx tt;
        input_bsx = rw bsx tt;
        logcat = log;
        console =
            ap (λ (x : Stream). x.is_open)
              (update-other s'.streams s'.fresh 0 trace_stream (λ z. omega (arith, v.higher)))
            ∙ v.console;
        positive = omega arith;
      },
    )

-- From the start of the process, where the trace file can be opened, after sensord_pltf_init, whatever it
-- finds of the storage: whatever calls of trace_log, data_log_algo_input and bsx_datalog_algo are made,
-- whether their writes succeed and the data logs can be opened or not, none uses a stream that is not
-- open. After them each log holds its messages in the order of the calls: in the trace file those of a
-- level that trace_level has where trace_to_logcat is 0, in Android's log those of the six levels, of each
-- the first 254 bytes, where it is not, and in each data log those since it could be opened; of the
-- files, those whose write succeeded.
pub logs_keep :
    (c : Config) (a : Answers) (st : Storage) (xs : List LogCall)
    → a.fopen_works ≡ true
    → (s : Log) × ((sensord_pltf_init a (loaded st) >>= perform_all c xs) ≡ some s)
      × Keeps s (after_calls c xs no_logs)
logs_keep c a st xs works =
    let (s₁, e₁, v₁) = opened_logs a st works in
    let (s, e, v) = perform_all-Keeps c xs s₁ no_logs v₁ in (s, rw (e₁, ◌>>=◌) e, v)
