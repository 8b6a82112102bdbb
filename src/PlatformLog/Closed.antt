-- ===== src/PlatformLog/Closed.antt =====
-- What sensord_pltf_clearup leaves behind.
use smi240_android_hal.Prelude.{
  ℕ, ◌+◌, ◌<◌, ◌≡◌, refl, ap, ◌∙◌, Bool, true, false, Option, none, some, List, [], arith,
}
use smi240_android_hal.Scan.{◌>>=◌}
use smi240_android_hal.PlatformLog.{
  Log, Stream, Answers, no_trace_file, update_stream, fopen, fclose, sensord_trace_init,
  sensord_pltf_init, close_opened, sensord_pltf_clearup, data_in_file, generic_data_log,
  data_log_algo_input,
}
use smi240_android_hal.PlatformLog.Kept.{
  Logs, Holds, Apart, Differs, say-Moves, update-same, update-other,
}
use smi240_android_hal.PlatformLog.Data.{Keeps, Apart-sym}
use smi240_android_hal.PlatformLog.Opened.{storage_init-Moves}

-- What closing the stream of a pointer changes.
pub record Closes (p : Option ℕ) (s s' : Log) : Type 0 where
  pub same : (j : ℕ) → Differs p j → s'.streams j ≡ s.streams j
  pub shut : (j : ℕ) → p ≡ some j → (s'.streams j).is_open ≡ false
  pub fresh : s'.fresh ≡ s.fresh
  pub keeps : (s'.g_dlog_input ≡ s.g_dlog_input) × (s'.g_bsx_dlog ≡ s.g_bsx_dlog)

pub close_opened-Closes :
    (p : Option ℕ) (ms : Option (List (List ℕ))) (s : Log)
    → Holds s p ms
    → (s' : Log) × (close_opened p s ≡ some s') × Closes p s s'
unfolding close_opened
close_opened-Closes none ms s h = (
  s,
  refl,
  record { same = λ j d. refl; shut = λ j e. absurd (cc); fresh = refl; keeps = (refl, refl) },
)
close_opened-Closes (some k) none s h = absurd h
close_opened-Closes (some k) (some ms) s (pos, lt, e) =
    let shut_stream : Stream = record { texts = (s.streams k).texts; is_open = false } in
    (
      record s { streams = update_stream s.streams k shut_stream },
      rw (ap (λ (x : Stream). x.is_open) e) refl,
      record {
        same = λ j d. update-other s.streams k j shut_stream d;
        shut = λ j same.
            let here : j ≡ k = cc in
            ap (λ n. (update_stream s.streams k shut_stream n).is_open) here
            ∙ ap (λ (x : Stream). x.is_open) (update-same s.streams k shut_stream);
        fresh = refl;
        keeps = (refl, refl);
      },
    )

pub closed-Holds :
    (p q : Option ℕ) (ms : Option (List (List ℕ))) (s s' : Log)
    → Closes p s s'
    → Apart p q
    → Holds s q ms
    → Holds s' q ms
closed-Holds p none none s s' c a h = tt
closed-Holds p none (some ms) s s' c a h = absurd h
closed-Holds p (some j) none s s' c a h = absurd h
closed-Holds p (some j) (some ms) s s' c a (pos, lt, e) =
    (pos, omega (arith, c.fresh), c.same j a ∙ e)

pub fclose-Closes :
    (p : Option ℕ) (ms : List (List ℕ)) (s : Log)
    → Holds s p (some ms)
    → (s' : Log) × (fclose p s ≡ some s') × Closes p s s'
unfolding close_opened
fclose-Closes none ms s h = absurd h
fclose-Closes (some k) ms s h = close_opened-Closes (some k) (some ms) s h

pub Differs-0 : (p : Option ℕ) (ms : Option (List (List ℕ))) (s : Log) → Holds s p ms → Differs p 0
Differs-0 none ms s h = tt
Differs-0 (some k) none s h = absurd h
Differs-0 (some k) (some ms) s (pos, lt, e) = λ z. omega arith

-- What clearing up leaves behind: the pointer to a data log that was open, whose stream is closed.
record Dangles (i : ℕ) (s : Log) : Type 0 where
  pointer : s.g_dlog_input ≡ some i
  closed : (s.streams i).is_open ≡ false
  console : (s.streams 0).is_open ≡ true
  positive : 0 < i
  allocated : i < s.fresh

clearup-Dangles :
    (s : Log) (g : Logs) (i : ℕ) (ms : List (List ℕ))
    → Keeps s g
    → s.g_dlog_input ≡ some i
    → g.input ≡ some ms
    → (s' : Log) × (sensord_pltf_clearup s ≡ some s') × Dangles i s'
unfolding sensord_pltf_clearup
clearup-Dangles s g i ms v at_i written =
    let input : Holds s (some i) (some ms) = rw (at_i, written) at v.input in
    let away : Apart s.g_fp_trace (some i) = rw at_i at v.trace_input in
    let apart : Apart (some i) s.g_bsx_dlog = rw at_i at v.input_bsx in
    let (s1, e1, c1) = fclose-Closes s.g_fp_trace g.to_trace s v.trace in
    let input1 = closed-Holds s.g_fp_trace (some i) (some ms) s s1 c1 away input in
    let bsx1 = closed-Holds s.g_fp_trace s.g_bsx_dlog g.bsx s s1 c1 v.trace_bsx v.bsx in
    let (s2, e2, c2) = close_opened-Closes (some i) (some ms) s1 input1 in
    let bsx2 = closed-Holds (some i) s.g_bsx_dlog g.bsx s1 s2 c2 apart bsx1 in
    let (s3, e3, c3) = close_opened-Closes s.g_bsx_dlog g.bsx s2 bsx2 in
    let at_i1 : s1.g_dlog_input ≡ some i = c1.keeps.0 ∙ at_i in
    let at_b2 : s2.g_bsx_dlog ≡ s.g_bsx_dlog = c2.keeps.1 ∙ c1.keeps.1 in
    let second : close_opened s1.g_dlog_input s1 ≡ some s2 =
      ap (λ p. close_opened p s1) at_i1 ∙ e2 in
    let third : close_opened s2.g_bsx_dlog s2 ≡ some s3 = ap (λ p. close_opened p s2) at_b2 ∙ e3 in
    (
      s3,
      rw (e1, ◌>>=◌) (rw (second, ◌>>=◌) third),
      record {
        pointer = c3.keeps.0 ∙ c2.keeps.0 ∙ at_i1;
        closed =
            ap (λ (x : Stream). x.is_open) (c3.same i (Apart-sym (some i) s.g_bsx_dlog apart))
            ∙ c2.shut i refl;
        console =
            ap (λ (x : Stream). x.is_open)
              (c3.same 0 (Differs-0 s.g_bsx_dlog g.bsx s v.bsx)
                ∙ c2.same 0 (Differs-0 (some i) (some ms) s input)
                ∙ c1.same 0 (Differs-0 s.g_fp_trace (some g.to_trace) s v.trace))
            ∙ v.console;
        positive = input.0;
        allocated = omega (arith, input.1, c1.fresh, c2.fresh, c3.fresh);
      },
    )

reopened-Dangles :
    (works : Bool) (i : ℕ) (s : Log)
    → Dangles i s
    → (s' : Log) × (sensord_trace_init works s ≡ some s') × Dangles i s'
unfolding sensord_trace_init fopen
reopened-Dangles true i s d =
    let trace_stream : Stream = record { texts = []; is_open = true } in
    (
      record s {
        fresh = s.fresh + 1;
        streams = update_stream s.streams s.fresh trace_stream;
        g_fp_trace = some s.fresh;
      },
      refl,
      record {
        pointer = d.pointer;
        closed =
            ap (λ (x : Stream). x.is_open)
              (update-other s.streams s.fresh i trace_stream (λ z. omega (arith, d.allocated)))
            ∙ d.closed;
        console =
            ap (λ (x : Stream). x.is_open)
              (update-other s.streams s.fresh 0 trace_stream (λ z. omega (arith, d.allocated)))
            ∙ d.console;
        positive = d.positive;
        allocated = omega (arith, d.allocated);
      },
    )
reopened-Dangles false i s d =
    let (s', e, v) = say-Moves no_trace_file none (record s { g_fp_trace = none }) d.console in
    (
      record s' { g_fp_trace = some 0 },
      rw (e, ◌>>=◌) refl,
      record {
        pointer = v.keeps.2 ∙ d.pointer;
        closed = ap (λ (x : Stream). x.is_open) (v.same i d.positive d.allocated tt) ∙ d.closed;
        console = v.console;
        positive = d.positive;
        allocated = omega (arith, v.higher, d.allocated);
      },
    )

-- Where the logs are kept and data_log_algo_input has opened its file: sensord_pltf_clearup and the next
-- sensord_pltf_init succeed, whatever that finds, but the next call of data_log_algo_input writes to the
-- stream that was closed.
pub closed_log_faults :
    (s : Log) (g : Logs) (i : ℕ) (ms : List (List ℕ)) (a : Answers) (opens writes : Bool)
    (m : List ℕ)
    → Keeps s g
    → s.g_dlog_input ≡ some i
    → g.input ≡ some ms
    → (s' : Log) × (s'' : Log) × (sensord_pltf_clearup s ≡ some s')
      × (sensord_pltf_init a s' ≡ some s'')
      × (data_log_algo_input opens writes m s'' ≡ none)
unfolding sensord_pltf_init data_log_algo_input
closed_log_faults s g i ms a opens writes m v at_i written =
    let (s', e, d) = clearup-Dangles s g i ms v at_i written in
    let (s1, e1, w) = storage_init-Moves a s'.storage s' d.console in
    let d1 : Dangles i s1 = record {
      pointer = w.keeps.2 ∙ d.pointer;
      closed = ap (λ (x : Stream). x.is_open) (w.same i d.positive d.allocated tt) ∙ d.closed;
      console = w.console;
      positive = d.positive;
      allocated = omega (arith, w.higher, d.allocated);
    } in
    let (s'', e2, d2) = reopened-Dangles a.fopen_works i s1 d1 in
    let by_pointer : Option ℕ → Option Log = λ p.
      generic_data_log data_in_file opens writes m p s'' >>= λ r.
      some (record (r.1) { g_dlog_input = r.0 }) in
    (s', s'', e, rw (e1, ◌>>=◌) e2, ap by_pointer d2.pointer ∙ rw (d2.closed, ◌>>=◌) refl)
