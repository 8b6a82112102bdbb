-- ===== src/PlatformLog/Data.antt =====
-- What holds of the logs, and that the data logs keep it.
use smi240_android_hal.Prelude.{
  ℕ, ◌<◌, ◌≡◌, refl, ◌∙◌, sym, Bool, true, Option, none, some, List, arith,
}
use smi240_android_hal.Scan.{◌>>=◌}
use smi240_android_hal.PlatformLog.{
  data_in_file, bsx_data_log, Log, Config, LogCall, log_input, log_bsx, data_log_algo_input,
  bsx_datalog_algo, perform,
}
use smi240_android_hal.PlatformLog.Kept.{
  Logs, after_call, Holds, Apart, moved-Holds, generic_data_log-Moves,
}

-- The logs hold `g`, in streams that differ from each other and from stdout, which is open.
pub record Keeps (s : Log) (g : Logs) : Type 0 where
  pub trace : Holds s s.g_fp_trace (some g.to_trace)
  pub input : Holds s s.g_dlog_input g.input
  pub bsx : Holds s s.g_bsx_dlog g.bsx
  pub trace_input : Apart s.g_fp_trace s.g_dlog_input
  pub trace_bsx : Apart s.g_fp_trace s.g_bsx_dlog
  pub input_bsx : Apart s.g_dlog_input s.g_bsx_dlog
  pub logcat : s.logcat ≡ g.to_logcat
  pub console : (s.streams 0).is_open ≡ true
  pub positive : 0 < s.fresh

pub Apart-sym : (p q : Option ℕ) → Apart p q → Apart q p
Apart-sym none none a = tt
Apart-sym none (some j) a = tt
Apart-sym (some k) none a = tt
Apart-sym (some k) (some j) a = λ e. a (sym e)

abbrev pub Performs : Config → LogCall → Log → Logs → Type 0
Performs c x s g = (s' : Log) × (perform c x s ≡ some s') × Keeps s' (after_call c x g)

pub input-Performs :
    (c : Config) (opens writes : Bool) (m : List ℕ) (s : Log) (g : Logs)
    → Keeps s g
    → Performs c (log_input opens writes m) s g
unfolding perform data_log_algo_input
input-Performs c opens writes m s g v =
    let (q, s', e, h, w) =
      generic_data_log-Moves data_in_file opens writes m s.g_dlog_input g.input s v.input v.console
        v.positive in
    let (log, fp, _, bsx) = w.keeps in
    let (t, at_trace) =
      moved-Holds s.g_dlog_input q s s' s.g_fp_trace (some g.to_trace) w
        (Apart-sym s.g_fp_trace s.g_dlog_input v.trace_input) v.trace in
    let (b, at_bsx) = moved-Holds s.g_dlog_input q s s' s.g_bsx_dlog g.bsx w v.input_bsx v.bsx in
    (
      record s' { g_dlog_input = q },
      rw (e, ◌>>=◌) refl,
      record {
        trace = rw fp t;
        input = h;
        bsx = rw bsx b;
        trace_input = rw fp (Apart-sym q s.g_fp_trace at_trace);
        trace_bsx = rw (fp, bsx) v.trace_bsx;
        input_bsx = rw bsx at_bsx;
        logcat = log ∙ v.logcat;
        console = w.console;
        positive = omega (arith, w.higher, v.positive);
      },
    )

pub bsx-Performs :
    (c : Config) (opens writes : Bool) (m : List ℕ) (s : Log) (g : Logs)
    → Keeps s g
    → Performs c (log_bsx opens writes m) s g
unfolding perform bsx_datalog_algo
bsx-Performs c opens writes m s g v =
    let (q, s', e, h, w) =
      generic_data_log-Moves bsx_data_log opens writes m s.g_bsx_dlog g.bsx s v.bsx v.console
        v.positive in
    let (log, fp, input, _) = w.keeps in
    let (t, at_trace) =
      moved-Holds s.g_bsx_dlog q s s' s.g_fp_trace (some g.to_trace) w
        (Apart-sym s.g_fp_trace s.g_bsx_dlog v.trace_bsx) v.trace in
    let (b, at_input) =
      moved-Holds s.g_bsx_dlog q s s' s.g_dlog_input g.input w
        (Apart-sym s.g_dlog_input s.g_bsx_dlog v.input_bsx) v.input in
    (
      record s' { g_bsx_dlog = q },
      rw (e, ◌>>=◌) refl,
      record {
        trace = rw fp t;
        input = rw input b;
        bsx = h;
        trace_input = rw (fp, input) v.trace_input;
        trace_bsx = rw fp (Apart-sym q s.g_fp_trace at_trace);
        input_bsx = rw input (Apart-sym q s.g_dlog_input at_input);
        logcat = log ∙ v.logcat;
        console = w.console;
        positive = omega (arith, w.higher, v.positive);
      },
    )
