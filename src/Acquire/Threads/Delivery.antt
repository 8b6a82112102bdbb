-- ===== src/Acquire/Threads/Delivery.antt =====
-- What the two threads deliver, in whatever order their steps come.
use mathlib.Core.List.{append-nil, append_assoc}
use smi240_android_hal.Prelude.{
  ℕ, ◌+◌, ◌≤◌, ◌<◌, ◌≡◌, refl, ap, sym, ◌∙◌, true, none, some, List, [], ◌∷◌, ◌++◌, arith, length,
  map,
}
use smi240_android_hal.Scan.{◌>>=◌}
use smi240_android_hal.Scan.RoundTrip.{IsLongMax}
use smi240_android_hal.Algo.{
  accelerometer, gyroscope_uncalibrated, acceleration, angularrate, SensorsEvent,
}
use smi240_android_hal.Acquire.{Sample, Platform, F, Locals, Allocations}
use smi240_android_hal.Acquire.Collect.{Measurement, AllShort, Samples, reading_of}
use smi240_android_hal.Acquire.Drain.{acc_in, gyro_in}
use smi240_android_hal.Acquire.Pipeline.{idle}
use smi240_android_hal.Acquire.Threads.{
  Threads, reading, waiting, Action, poll_chips, wake_up, take_samples, process_samples, step,
  steps,
}
use smi240_android_hal.Acquire.Threads.Order.{acc_events, gyro_events}
use smi240_android_hal.Acquire.Threads.Stages.{
  Stage, at_lock, at_wait, behind_wait, holding, shared_in, acc_pending, gyro_pending, handed_over,
  woken_up, after_take, after_processing, state, processed, step-wake_up, step-take, step-process,
}
use smi240_android_hal.Acquire.Threads.Polls.{step-poll}
use smi240_android_hal.Acquire.Threads.Invariant.{
  Inv, chip_events, Inv-woken_up, Inv-take, Inv-process, Inv-poll,
}

-- A step of a thread, or a spurious wakeup, where the chips yield lines and all allocations succeed.
pub data Move : Type 0 where
  polls : Locals → Locals → List Measurement → List Measurement → Move
  wakes takes finishes : Move

abbrev pub every_allocation : Allocations
every_allocation = record {
  acc_array = true;
  gyro_array = true;
  align_ind = true;
  event = λ k. true;
}

abbrev pub action_of : Move → Action
action_of (polls u v accs gyrs) = poll_chips u v (map reading_of accs) (map reading_of gyrs)
action_of wakes = wake_up
action_of takes = take_samples (λ k. true)
action_of finishes = process_samples every_allocation

-- The lines that are read.
abbrev pub acc_lines : List Move → List Measurement
acc_lines [] = []
acc_lines (polls u v accs gyrs ∷ ts) = accs ++ acc_lines ts
acc_lines (wakes ∷ ts) = acc_lines ts
acc_lines (takes ∷ ts) = acc_lines ts
acc_lines (finishes ∷ ts) = acc_lines ts

abbrev pub gyro_lines : List Move → List Measurement
gyro_lines [] = []
gyro_lines (polls u v accs gyrs ∷ ts) = gyrs ++ gyro_lines ts
gyro_lines (wakes ∷ ts) = gyro_lines ts
gyro_lines (takes ∷ ts) = gyro_lines ts
gyro_lines (finishes ∷ ts) = gyro_lines ts

module _ (p : Platform) where
  abbrev pub start : ℕ → Threads (F p)
  start n = record { lists = idle n; phase = reading; events = [] }

  -- The numbers of the lines of a poll fit, and the shared list has room for their samples.
  abbrev CanPoll : Move → Threads (F p) → Type 0
  CanPoll (polls u v accs gyrs) s =
      (AllShort accs × AllShort gyrs)
      × (length s.lists.shared.items + (length accs + length gyrs) ≤ s.lists.shared.uplimit)
  CanPoll wakes s = Unit
  CanPoll takes s = Unit
  CanPoll finishes s = Unit

  -- That holds at each poll of the run.
  abbrev pub HaveRoom : List Move → Threads (F p) → Type 0
  HaveRoom [] s = Unit
  HaveRoom (t ∷ ts) s =
      CanPoll t s × elim (step p (action_of t) s) [ none ↦ Unit | some s' ↦ HaveRoom ts s' ]

  -- What is read and not processed, of each chip.
  abbrev pub acc_held : Threads (F p) → List (Sample (F p))
  acc_held s = s.lists.sensord_acclraw.items ++ acc_in s.lists.shared.items

  abbrev pub gyro_held : Threads (F p) → List (Sample (F p))
  gyro_held s = s.lists.sensord_gyroraw.items ++ gyro_in s.lists.shared.items

  held-pending :
      (n : ℕ) (st : Stage (F p)) (es : List (SensorsEvent (F p)))
      → (acc_held (state p n st es) ≡ acc_pending st)
        × (gyro_held (state p n st es) ≡ gyro_pending st)
        × ((state p n st es).events ≡ es)
        × ((state p n st es).lists.shared ≡ record { items = shared_in st; uplimit = n })
  held-pending n (at_lock xs) es = (refl, refl, refl, refl)
  held-pending n at_wait es = (refl, refl, refl, refl)
  held-pending n (behind_wait xs) es = (refl, refl, refl, refl)
  held-pending n (holding xs bs gs) es = (refl, refl, refl, refl)

  pub steps-cons :
      (a : Action) (rest : List Action) (s s' : Threads (F p))
      → step p a s ≡ some s'
      → steps p (a ∷ rest) s ≡ steps p rest s'
  unfolding steps
  steps-cons a rest s s' e = rw (e, ◌>>=◌) refl

  -- A run that reaches a stage at which the invariant holds.
  pub record Reaches (n : ℕ) (accs gyrs : List Measurement) (ts : List Move) (s : Threads (F p))
      : Type 0 where
    pub stage : Stage (F p)
    pub out : List (SensorsEvent (F p))
    pub run : steps p (map action_of ts) s ≡ some (state p n stage out)
    pub inv : Inv p n accs gyrs stage out

  module _ (n : ℕ) (positive : 0 < n) (long : IsLongMax p.long_max) (place : p.place_g < 8) where
    go_on :
        (accs gyrs : List Measurement) (t : Move) (ts : List Move) (s s' : Threads (F p))
        → step p (action_of t) s ≡ some s'
        → Reaches n accs gyrs ts s'
        → Reaches n accs gyrs (t ∷ ts) s
    go_on accs gyrs t ts s s' e r = record {
      stage = r.stage;
      out = r.out;
      run = steps-cons (action_of t) (map action_of ts) s s' e ∙ r.run;
      inv = r.inv;
    }

    next-HaveRoom :
        (t : Move) (ts : List Move) (s s' : Threads (F p))
        → step p (action_of t) s ≡ some s'
        → HaveRoom (t ∷ ts) s
        → HaveRoom ts s'
    next-HaveRoom t ts s s' e (_, h) = rw e at h

    run-Reaches :
        (accs gyrs : List Measurement) (ts : List Move) (st : Stage (F p))
        (es : List (SensorsEvent (F p)))
        → HaveRoom ts (state p n st es)
        → Inv p n accs gyrs st es
        → Reaches n (accs ++ acc_lines ts) (gyrs ++ gyro_lines ts) ts (state p n st es)
    unfolding steps
    run-Reaches accs gyrs [] st es h v = record {
      stage = st;
      out = es;
      run = refl;
      inv = rw (append-nil accs, append-nil gyrs) v;
    }
    run-Reaches accs gyrs (wakes ∷ ts) st es h v =
        let e = step-wake_up p n st es in
        go_on _ _ wakes ts (state p n st es) _ e (
          run-Reaches accs gyrs ts (woken_up st) es (next-HaveRoom wakes ts (state p n st es) _ e h)
            (Inv-woken_up p v))
    run-Reaches accs gyrs (takes ∷ ts) st es h v =
        let e = step-take p n st es positive v.fits in
        go_on _ _ takes ts (state p n st es) _ e (
          run-Reaches accs gyrs ts (after_take st) es
            (next-HaveRoom takes ts (state p n st es) _ e h) (Inv-take p v))
    run-Reaches accs gyrs (finishes ∷ ts) st es h v =
        let e = step-process p every_allocation n st es (refl, refl, refl, λ k. refl) in
        go_on _ _ finishes ts (state p n st es) _ e (
          run-Reaches accs gyrs ts (after_processing st) (es ++ processed p st)
            (next-HaveRoom finishes ts (state p n st es) _ e h) (Inv-process p v))
    run-Reaches accs gyrs (polls u w accs' gyrs' ∷ ts) st es h v =
        let (short, room) = h.0 in
        let fits : length (shared_in st) + (length accs' + length gyrs') ≤ n =
          rw (held-pending n st es).3 at room in
        let (das, dgs, ha, hg, l, e) =
          step-poll p n u w accs' gyrs' st es positive long place short fits in
        let rest =
          run-Reaches (accs ++ accs') (gyrs ++ gyrs') ts (handed_over (das ++ dgs) st) es
            (next-HaveRoom (polls u w accs' gyrs') ts (state p n st es) _ e h)
            (Inv-poll p accs' gyrs' das dgs ha hg (omega (arith, l)) v) in
        go_on _ _ (polls u w accs' gyrs') ts (state p n st es) _ e (
          rw (append_assoc accs accs' (acc_lines ts), append_assoc gyrs gyrs' (gyro_lines ts)) at
            rest)

    pub started :
        (ts : List Move)
        → HaveRoom ts (start n)
        → Reaches n (acc_lines ts) (gyro_lines ts) ts (start n)
    started ts h = run-Reaches [] [] ts (at_lock []) [] h (record {
      das = [];
      dgs = [];
      acc_samples = tt;
      gyro_samples = tt;
      acc_way = refl;
      gyro_way = refl;
      fits = omega arith;
    })

    -- Where the limit of the lists is positive, LONG_MAX is that of 32 bits at least, the gyroscope's
    -- position is in the table, the numbers of all lines fit 32 bits, the shared list has room for the
    -- samples of each poll and the allocations succeed: whatever the order of the steps of the two
    -- threads and of spurious wakeups, no step accesses memory that is not the program's own, and the
    -- events that are delivered, followed by those of the samples that are in the shared list or taken,
    -- are for each chip those of the samples of all lines that were read, in their order.
    pub steps_deliver :
        (ts : List Move)
        → HaveRoom ts (start n)
        → (das : List (Sample (F p))) × (dgs : List (Sample (F p))) × (s : Threads (F p)) × Samples
            p accelerometer
            (acc_lines ts)
            das
          × Samples p gyroscope_uncalibrated (gyro_lines ts) dgs
          × (steps p (map action_of ts) (start n) ≡ some s)
          × (acc_events s.events ++ chip_events p acceleration (acc_held s)
              ≡ chip_events p acceleration das)
          × (gyro_events s.events ++ chip_events p angularrate (gyro_held s)
              ≡ chip_events p angularrate dgs)
    steps_deliver ts h =
        let r = started ts h in
        let v = r.inv in
        let (a, g, e, _) = held-pending n r.stage r.out in
        (
          v.das,
          v.dgs,
          state p n r.stage r.out,
          v.acc_samples,
          v.gyro_samples,
          r.run,
          rw (a, e) v.acc_way,
          rw (g, e) v.gyro_way,
        )

    waiting-empty :
        (st : Stage (F p)) (es : List (SensorsEvent (F p)))
        → (state p n st es).phase ≡ waiting
        → (state p n st es).lists ≡ idle n
    waiting-empty (at_lock xs) es e = absurd (cc)
    waiting-empty at_wait es e = refl
    waiting-empty (behind_wait xs) es e = absurd (cc)
    waiting-empty (holding xs bs gs) es e = absurd (cc)

    -- Under the conditions of steps_deliver, where such a run leaves the processing thread in pthread_cond_wait, not
    -- woken, all lists are empty: no wakeup is lost.
    pub steps-waiting :
        (ts : List Move) (s : Threads (F p))
        → HaveRoom ts (start n)
        → steps p (map action_of ts) (start n) ≡ some s
        → s.phase ≡ waiting
        → s.lists ≡ idle n
    steps-waiting ts s h e w =
        let r = started ts h in
        let same : state p n r.stage r.out ≡ s = cc (r.run, e) in
        sym (ap (λ (t : Threads (F p)). t.lists) same)
        ∙ waiting-empty r.stage r.out (ap (λ (t : Threads (F p)). t.phase) same ∙ w)
