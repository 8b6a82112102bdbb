-- ===== src/PlatformLog/Calls.antt =====
-- Any sequence of calls of the logs.
use smi240_android_hal.Prelude.{
  ℕ, ◌≡◌, refl, ap, ◌∙◌, sym, Bool, true, false, Option, none, some, List, [], ◌∷◌, ◌++◌, arith,
  ◌==◌, if◌then◌else◌, bit_and, Bool-cases, Option-cases, inl, inr,
}
use mathlib.Core.List.{append-nil}
use smi240_android_hal.Scan.{◌>>=◌}
use smi240_android_hal.PlatformLog.{
  trace_fails, message, Priority, Log, Config, LogCall, trace, log_input, log_bsx, print, say,
  priority_of, buffered, trace_log, perform, perform_all,
}
use smi240_android_hal.PlatformLog.Kept.{
  Logs, added, to_android, after_call, after_calls, Holds, Moves, moved-Holds, print-Moves,
  say-Moves,
}
use smi240_android_hal.PlatformLog.Data.{Keeps, Performs, input-Performs, bsx-Performs}

Moves-trans : (p : Option ℕ) (s s₁ s₂ : Log) → Moves p s s₁ p → Moves p s₁ s₂ p → Moves p s s₂ p
Moves-trans p s s₁ s₂ v w =
    let (a, b, c, d) = v.keeps in
    let (a', b', c', d') = w.keeps in
    record {
      same = λ j pos lt n. w.same j pos (omega (arith, v.higher)) n ∙ v.same j pos lt n;
      apart = λ j lt n. n;
      higher = omega (arith, v.higher, w.higher);
      console = w.console;
      keeps = (a' ∙ a, b' ∙ b, c' ∙ c, d' ∙ d);
    }

-- What trace_log prints, and the note where that fails.
trace-Moves :
    (writes : Bool) (k : ℕ) (m : List ℕ) (ms : List (List ℕ)) (s : Log)
    → Holds s (some k) (some ms)
    → (s.streams 0).is_open ≡ true
    → (s' : Log) × ((print writes (some k) (message m) s >>= λ x.
          if writes then some x else say trace_fails x)
        ≡ some s')
      × Holds s' (some k) (some (ms ++ added writes m))
      × Moves (some k) s s' (some k)
trace-Moves true k m ms s h con =
    let (s', e, h', v) = print-Moves true k m ms s h con in (s', rw (e, ◌>>=◌) refl, h', v)
trace-Moves false k m ms s h con =
    let (s₁, e₁, h₁, v₁) = print-Moves false k m ms s h con in
    let (s₂, e₂, v₂) = say-Moves trace_fails (some k) s₁ v₁.console in
    let (s₃, e₃, v₃) = say-Moves trace_fails none s₁ v₁.console in
    let same : s₃ ≡ s₂ = cc (e₂, e₃) in
    (
      s₂,
      rw (e₁, ◌>>=◌) e₂,
      rw same at (moved-Holds none none s₁ s₃ (some k) (some (ms ++ [])) v₃ tt h₁).0,
      Moves-trans (some k) s s₁ s₂ v₁ v₂,
    )

to_file-Performs :
    (c : Config) (writes : Bool) (level k : ℕ) (m : List ℕ) (s : Log) (g : Logs)
    → (c.trace_to_logcat == 0) ≡ true
    → (bit_and c.trace_level level == 0) ≡ false
    → s.g_fp_trace ≡ some k
    → Keeps s g
    → Performs c (trace writes level m) s g
unfolding perform trace_log
to_file-Performs c writes level k m s g file passes at_k v =
    let (s', e, h, w) = trace-Moves writes k m g.to_trace s (rw at_k at v.trace) v.console in
    let (log, fp, input, bsx) = w.keeps in
    let (i, at_input) =
      moved-Holds (some k) (some k) s s' s.g_dlog_input g.input w (rw at_k at v.trace_input)
        v.input in
    let (b, at_bsx) =
      moved-Holds (some k) (some k) s s' s.g_bsx_dlog g.bsx w (rw at_k at v.trace_bsx) v.bsx in
    let to_pointer : Option ℕ → Option Log =
      λ fp. print writes fp (message m) s >>= λ x. if writes then some x else say trace_fails x in
    let sent : perform c (trace writes level m) s ≡ to_pointer s.g_fp_trace =
      rw (file, passes) refl in
    (
      s',
      sent ∙ ap to_pointer at_k ∙ e,
      rw (file, passes)
          (record {
            trace = rw (fp ∙ at_k) h;
            input = rw input i;
            bsx = rw bsx b;
            trace_input = rw (fp, input) v.trace_input;
            trace_bsx = rw (fp, bsx) v.trace_bsx;
            input_bsx = rw (input, bsx) v.input_bsx;
            logcat = log ∙ v.logcat;
            console = w.console;
            positive = omega (arith, w.higher, v.positive);
          }),
    )

android-Keeps :
    (ps qs : List (Priority × List ℕ)) (s : Log) (g : Logs)
    → Keeps s g
    → ps ≡ g.to_logcat ++ qs
    → Keeps (record s { logcat = ps }) (record g { to_logcat = g.to_logcat ++ qs })
android-Keeps ps qs s g v e = record {
  trace = v.trace;
  input = v.input;
  bsx = v.bsx;
  trace_input = v.trace_input;
  trace_bsx = v.trace_bsx;
  input_bsx = v.input_bsx;
  logcat = e;
  console = v.console;
  positive = v.positive;
}

to_logcat-Performs :
    (c : Config) (writes : Bool) (level : ℕ) (m : List ℕ) (s : Log) (g : Logs)
    → (c.trace_to_logcat == 0) ≡ false
    → Keeps s g
    → Performs c (trace writes level m) s g
unfolding perform trace_log
to_logcat-Performs c writes level m s g android v = elim (Option-cases (priority_of level)) [
  | inl n ↦
      let nothing : to_android level m ≡ [] = rw (n, to_android) refl in
      (
        s,
        rw (android, n) refl,
        rw android (
            android-Keeps s.logcat (to_android level m) s g v
              (v.logcat ∙ sym (append-nil g.to_logcat) ∙ ap (◌++◌ g.to_logcat) (sym nothing))),
      )
  | inr (p, n) ↦
      let one : to_android level m ≡ (p, buffered m) ∷ [] = rw (n, to_android) refl in
      (
        record s { logcat = s.logcat ++ (p, buffered m) ∷ [] },
        rw (android, n) refl,
        rw android (
            android-Keeps (s.logcat ++ (p, buffered m) ∷ []) (to_android level m) s g v
              (ap (λ l. l ++ (p, buffered m) ∷ []) v.logcat ∙ ap (◌++◌ g.to_logcat) (sym one))),
      )
]

silent-Performs :
    (c : Config) (writes : Bool) (level : ℕ) (m : List ℕ) (s : Log) (g : Logs)
    → (c.trace_to_logcat == 0) ≡ true
    → (bit_and c.trace_level level == 0) ≡ true
    → Keeps s g
    → Performs c (trace writes level m) s g
unfolding perform trace_log
silent-Performs c writes level m s g file silent v =
    (s, rw (file, silent) refl, rw (file, silent) v)

trace-Performs :
    (c : Config) (writes : Bool) (level : ℕ) (m : List ℕ) (s : Log) (g : Logs)
    → Keeps s g
    → Performs c (trace writes level m) s g
trace-Performs c writes level m s g v = elim (Bool-cases (c.trace_to_logcat == 0)) [
  | inr android ↦ to_logcat-Performs c writes level m s g android v
  | inl file ↦ elim (Bool-cases (bit_and c.trace_level level == 0)) [
    | inl silent ↦ silent-Performs c writes level m s g file silent v
    | inr passes ↦ elim (Option-cases s.g_fp_trace) [
      | inl n ↦ absurd (rw n at v.trace)
      | inr (k, at_k) ↦ to_file-Performs c writes level k m s g file passes at_k v
    ]
  ]
]

pub perform-Keeps : (c : Config) (x : LogCall) (s : Log) (g : Logs) → Keeps s g → Performs c x s g
perform-Keeps c (trace writes level m) s g v = trace-Performs c writes level m s g v
perform-Keeps c (log_input opens writes m) s g v = input-Performs c opens writes m s g v
perform-Keeps c (log_bsx opens writes m) s g v = bsx-Performs c opens writes m s g v

-- Where the trace and the data logs that are open have streams of their own, which are not stdout, and
-- stdout is open: whatever calls of trace_log, data_log_algo_input and bsx_datalog_algo are made,
-- whether a write succeeds and a data log can be opened or not, none uses a stream that is not open.
-- After them each log holds its messages in the order of the calls: in the trace file those of a level
-- that trace_level has where trace_to_logcat is 0, in Android's log those of the six levels, the first
-- 254 bytes, where it is not, and in the data logs those that were written once the log could be opened.
pub perform_all-Keeps :
    (c : Config) (xs : List LogCall) (s : Log) (g : Logs)
    → Keeps s g
    → (s' : Log) × (perform_all c xs s ≡ some s') × Keeps s' (after_calls c xs g)
unfolding perform_all
perform_all-Keeps c [] s g v = (s, refl, v)
perform_all-Keeps c (x ∷ xs) s g v =
    let (s₁, e₁, v₁) = perform-Keeps c x s g v in
    let (s', e', v') = perform_all-Keeps c xs s₁ (after_call c x g) v₁ in
    (s', rw (e₁, ◌>>=◌) e', v')
