-- ===== src/Sensor/Schedule.antt =====
-- When a running sensor takes its samples.
use smi240_android_hal.Prelude.{
  ℕ, ◌+◌, ◌≤◌, ◌≡◌, inl, inr, ◌⊎◌, ◌-◌, true, false, List, [], ◌∷◌, arith, leb, if◌then◌else◌,
  Bool-cases,
}
use smi240_android_hal.Sensor.{Sensor, run_round, for_ns}

-- The times of the samples of a sensor whose thread reads these clock values, one in each round.
unfoldable pub sample_times : List ℕ → Sensor → List ℕ
sample_times [] s = []
sample_times (now ∷ ts) s =
    let rest = sample_times ts (run_round now s).0 in
    if (run_round now s).1 then now ∷ rest else rest

-- Each time is at least `period` after the one before, the first one after `from`.
abbrev pub IsSpaced : ℕ → ℕ → List ℕ → Type 0
IsSpaced period from [] = Unit {0}
IsSpaced period from (t ∷ ts) = (from + period ≤ t) × IsSpaced period t ts

run_round_cases :
    (now : ℕ) (s : Sensor)
    → ((run_round now s).0.sampling_period_ns ≡ s.sampling_period_ns)
      × (((run_round now s).1 ≡ true)
            × (s.last_sample_time_ns + s.sampling_period_ns ≤ now)
            × ((run_round now s).0.last_sample_time_ns ≡ now)
          ⊎ ((run_round now s).1 ≡ false)
            × ((run_round now s).0.last_sample_time_ns ≡ s.last_sample_time_ns))
unfolding run_round
run_round_cases now s = ground arith

-- However the clock is read and whether the sensor is enabled or not, samples are at least one
-- sampling period apart, and the first is as far from the last one before.
pub sample_times-IsSpaced :
    (ts : List ℕ) (s : Sensor)
    → IsSpaced s.sampling_period_ns s.last_sample_time_ns (sample_times ts s)
unfolding sample_times
sample_times-IsSpaced [] s = tt
sample_times-IsSpaced (now ∷ ts) s =
    let rest = sample_times-IsSpaced ts (run_round now s).0 in
    let (period, cases) = run_round_cases now s in
    elim cases [
      | inl (posts, late, last) ↦ rw posts (late, rw (period, last) at rest)
      | inr (quiet, last) ↦ rw quiet (rw (period, last) at rest)
    ]

-- For a sensor that is enabled and not stopped, with a clock that is not behind its last sample: a
-- round asks to wait for at most one period, and the next round posts a sample exactly if that wait
-- has gone by.
pub run_round_wakes :
    (now later : ℕ) (s : Sensor)
    → s.stop_thread ≡ false
    → s.is_enabled ≡ true
    → s.last_sample_time_ns ≤ now
    → (w : ℕ) × ((run_round now s).2 ≡ for_ns w)
      × (w ≤ s.sampling_period_ns)
      × ((run_round later (run_round now s).0).1 ≡ leb (now + w) later)
unfolding run_round
run_round_wakes now later s stop on clock =
    elim (Bool-cases (leb (s.last_sample_time_ns + s.sampling_period_ns) now)) [
      | inl due ↦ (s.sampling_period_ns, ground arith, ground arith, ground arith)
      | inr early ↦ (
        s.last_sample_time_ns + s.sampling_period_ns - now,
        ground arith,
        ground arith,
        ground arith,
      )
    ]
