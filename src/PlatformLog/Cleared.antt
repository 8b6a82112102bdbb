-- ===== src/PlatformLog/Cleared.antt =====
-- The clearing up of logs that are kept, and the next sensord_pltf_init.
use smi240_android_hal.Prelude.{◌≡◌, refl, ap, ◌∙◌, Bool, true, false, none, some}
use smi240_android_hal.Scan.{◌>>=◌}
use smi240_android_hal.PlatformLog.{
  Log, Stream, Answers, no_trace_file, fopen, sensord_trace_init, sensord_pltf_init, close_opened,
  sensord_pltf_clearup,
}
use smi240_android_hal.PlatformLog.Kept.{Logs, say-Moves}
use smi240_android_hal.PlatformLog.Data.{Keeps}
use smi240_android_hal.PlatformLog.Opened.{storage_init-Moves}
use smi240_android_hal.PlatformLog.Closed.{
  fclose-Closes, close_opened-Closes, closed-Holds, Differs-0,
}

-- Logs that are kept are closed without using a stream that is not open, and stdout stays open.
pub clearup_closes :
    (s : Log) (g : Logs)
    → Keeps s g
    → (s' : Log) × (sensord_pltf_clearup s ≡ some s') × ((s'.streams 0).is_open ≡ true)
unfolding sensord_pltf_clearup
clearup_closes s g v =
    let (s1, e1, c1) = fclose-Closes s.g_fp_trace g.to_trace s v.trace in
    let input1 = closed-Holds s.g_fp_trace s.g_dlog_input g.input s s1 c1 v.trace_input v.input in
    let bsx1 = closed-Holds s.g_fp_trace s.g_bsx_dlog g.bsx s s1 c1 v.trace_bsx v.bsx in
    let (s2, e2, c2) = close_opened-Closes s.g_dlog_input g.input s1 input1 in
    let bsx2 = closed-Holds s.g_dlog_input s.g_bsx_dlog g.bsx s1 s2 c2 v.input_bsx bsx1 in
    let (s3, e3, c3) = close_opened-Closes s.g_bsx_dlog g.bsx s2 bsx2 in
    let at_b2 : s2.g_bsx_dlog ≡ s.g_bsx_dlog = c2.keeps.1 ∙ c1.keeps.1 in
    let second : close_opened s1.g_dlog_input s1 ≡ some s2 =
      ap (λ p. close_opened p s1) c1.keeps.0 ∙ e2 in
    let third : close_opened s2.g_bsx_dlog s2 ≡ some s3 = ap (λ p. close_opened p s2) at_b2 ∙ e3 in
    (
      s3,
      rw (e1, ◌>>=◌) (rw (second, ◌>>=◌) third),
      ap (λ (x : Stream). x.is_open)
            (c3.same 0 (Differs-0 s.g_bsx_dlog g.bsx s v.bsx)
              ∙ c2.same 0 (Differs-0 s.g_dlog_input g.input s v.input)
              ∙ c1.same 0 (Differs-0 s.g_fp_trace (some g.to_trace) s v.trace))
          ∙ v.console,
    )

trace_init_opens :
    (works : Bool) (s : Log)
    → (s.streams 0).is_open ≡ true
    → (s' : Log) × (sensord_trace_init works s ≡ some s')
unfolding sensord_trace_init fopen
trace_init_opens true s con = (_, refl)
trace_init_opens false s con =
    let (s', e, v) = say-Moves no_trace_file none (record s { g_fp_trace = none }) con in
    (record s' { g_fp_trace = some 0 }, rw (e, ◌>>=◌) refl)

-- While stdout is open, sensord_pltf_init uses no stream that is not open, whatever it finds.
pub pltf_init_opens :
    (a : Answers) (s : Log)
    → (s.streams 0).is_open ≡ true
    → (s' : Log) × (sensord_pltf_init a s ≡ some s')
unfolding sensord_pltf_init
pltf_init_opens a s con =
    let (s1, e1, w) = storage_init-Moves a s.storage s con in
    let (s2, e2) = trace_init_opens a.fopen_works s1 w.console in (s2, rw (e1, ◌>>=◌) e2)
