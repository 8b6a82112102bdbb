-- ===== src/Acquire/Pace.antt =====
-- How long the polling thread sleeps between two rounds.
use smi240_android_hal.Prelude.{ℕ, ◌+◌, ◌≤◌, ◌≡◌, some, List, arith}
use smi240_android_hal.Prelude.Float.{Float, IsNumber}
use smi240_android_hal.Legacy.{Legacy, Request, run}
use smi240_android_hal.Legacy.Sends.{Inv}
use smi240_android_hal.Legacy.Runs.{run_never_faults}
use smi240_android_hal.Acquire.{sleep_us, sampling_interval_offset}

sleep_us-exact : (n : ℕ) → 600 ≤ n → n ≤ 1_000_000 → sleep_us n + sampling_interval_offset ≡ n
unfolding sleep_us
sleep_us-exact n lo hi = omega arith

-- Where every literal is a number, after any sequence of calls from a state of the invariant the
-- polling thread sleeps for the sampling interval less 600 microseconds: the subtraction does not wrap
-- around, and the sleep is from 1.9 ms to 999.4 ms, which usleep accepts.
pub run-sleep :
    (fl : Float) (numbers : (k : ℕ) → IsNumber fl (fl.centi k)) (qs : List Request)
    (s : Legacy fl.F)
    → Inv s
    → (t : Legacy fl.F) × (run fl qs s ≡ some t)
      × (sleep_us t.sampling_interval + 600 ≡ t.sampling_interval)
      × (1900 ≤ sleep_us t.sampling_interval)
      × (sleep_us t.sampling_interval ≤ 999_400)
run-sleep fl numbers qs s inv =
    let (t, e, (_, _, _, _, _, _, _, _, lo, hi)) = run_never_faults fl numbers qs s inv in
    let exact = sleep_us-exact t.sampling_interval (omega arith) hi in
    (t, e, exact, omega arith, omega arith)
