-- ===== src/PlatformLog/Kept.antt =====
-- What each log should hold, and what one write does to the streams.
use smi240_android_hal.Prelude.{
  ℕ, ◌+◌, ◌≤◌, ◌<◌, ◌≡◌, ◌≢◌, refl, ap, ◌∙◌, sym, Bool, true, false, Option, none, some, List, [],
  ◌∷◌, ◌++◌, arith, map, ◌==◌, if◌then◌else◌, bit_and,
}
use mathlib.Core.List.{append-nil, map-append}
use smi240_android_hal.Scan.{◌>>=◌}
use smi240_android_hal.PlatformLog.{
  LogFile, Note, note, no_file, message, Stream, Priority, Log, Config, LogCall, trace, log_input,
  log_bsx, update_stream, print, say, priority_of, buffered, generic_data_log,
}

-- What the logs hold: the trace, Android's log, and the two data logs, of which one that could not be
-- opened is `none`.
pub record Logs : Type 0 where
  pub to_trace : List (List ℕ)
  pub to_logcat : List (Priority × List ℕ)
  pub input : Option (List (List ℕ))
  pub bsx : Option (List (List ℕ))

abbrev pub added : Bool → List ℕ → List (List ℕ)
added true m = m ∷ []
added false m = []

abbrev pub logged : Bool → Bool → List ℕ → Option (List (List ℕ)) → Option (List (List ℕ))
logged opens writes m (some ms) = some (ms ++ added writes m)
logged true writes m none = some (added writes m)
logged false writes m none = none

abbrev pub to_android : ℕ → List ℕ → List (Priority × List ℕ)
to_android level m = elim (priority_of level) [ none ↦ [] | some p ↦ (p, buffered m) ∷ [] ]

-- What a call adds to the logs.
abbrev pub after_call : Config → LogCall → Logs → Logs
after_call c (trace writes level m) g =
    if c.trace_to_logcat == 0
    then (if bit_and c.trace_level level == 0
        then g
        else record g { to_trace = g.to_trace ++ added writes m })
    else record g { to_logcat = g.to_logcat ++ to_android level m }
after_call c (log_input opens writes m) g = record g { input = logged opens writes m g.input }
after_call c (log_bsx opens writes m) g = record g { bsx = logged opens writes m g.bsx }

abbrev pub after_calls : Config → List LogCall → Logs → Logs
after_calls c [] g = g
after_calls c (x ∷ xs) g = after_calls c xs (after_call c x g)

-- The pointer is to a stream other than stdout that is open and holds the messages, or NULL.
abbrev pub HoldsIn : (ℕ → Stream) → ℕ → Option ℕ → Option (List (List ℕ)) → Type 0
HoldsIn streams fresh none none = Unit {0}
HoldsIn streams fresh none (some ms) = ⊥
HoldsIn streams fresh (some k) none = ⊥
HoldsIn streams fresh (some k) (some ms) =
    (0 < k) × (k < fresh) × (streams k ≡ record { texts = map message ms; is_open = true })

abbrev pub Holds : Log → Option ℕ → Option (List (List ℕ)) → Type 0
Holds s p ms = HoldsIn s.streams s.fresh p ms

abbrev pub Differs : Option ℕ → ℕ → Type 0
Differs none j = Unit {0}
Differs (some k) j = k ≢ j

abbrev pub Apart : Option ℕ → Option ℕ → Type 0
Apart p none = Unit {0}
Apart p (some j) = Differs p j

-- What a write through the pointer `p`, which leaves `q`, does to the rest.
pub record Moves (p : Option ℕ) (s s' : Log) (q : Option ℕ) : Type 0 where
  pub same : (j : ℕ) → 0 < j → j < s.fresh → Differs p j → s'.streams j ≡ s.streams j
  pub apart : (j : ℕ) → j < s.fresh → Differs p j → Differs q j
  pub higher : s.fresh ≤ s'.fresh
  pub console : (s'.streams 0).is_open ≡ true
  pub keeps :
      (s'.logcat ≡ s.logcat)
      × (s'.g_fp_trace ≡ s.g_fp_trace)
      × (s'.g_dlog_input ≡ s.g_dlog_input)
      × (s'.g_bsx_dlog ≡ s.g_bsx_dlog)

pub moved-Holds :
    (p q : Option ℕ) (s s' : Log) (r : Option ℕ) (ms : Option (List (List ℕ)))
    → Moves p s s' q
    → Apart p r
    → Holds s r ms
    → Holds s' r ms × Apart q r
moved-Holds p q s s' none none m a h = (tt, tt)
moved-Holds p q s s' none (some ms) m a h = absurd h
moved-Holds p q s s' (some j) none m a h = absurd h
moved-Holds p q s s' (some j) (some ms) m a (pos, lt, e) =
    ((pos, omega (arith, m.higher), m.same j pos lt a ∙ e), m.apart j lt a)

pub update-same : (f : ℕ → Stream) (k : ℕ) (v : Stream) → update_stream f k v k ≡ v
update-same f k v = let e : (k == k) ≡ true = ground arith in rw e refl

pub update-other : (f : ℕ → Stream) (k j : ℕ) (v : Stream) → k ≢ j → update_stream f k v j ≡ f j
update-other f k j v ne = let e : (k == j) ≡ false = ground (arith, ne) in rw e refl

Moves-refl : (p : Option ℕ) (s : Log) → (s.streams 0).is_open ≡ true → Moves p s s p
Moves-refl p s con = record {
  same = λ j pos lt d. refl;
  apart = λ j lt d. d;
  higher = omega arith;
  console = con;
  keeps = (refl, refl, refl, refl);
}

-- A write through a pointer that is open.
pub print-Moves :
    (writes : Bool) (k : ℕ) (m : List ℕ) (ms : List (List ℕ)) (s : Log)
    → Holds s (some k) (some ms)
    → (s.streams 0).is_open ≡ true
    → (s' : Log) × (print writes (some k) (message m) s ≡ some s')
      × Holds s' (some k) (some (ms ++ added writes m))
      × Moves (some k) s s' (some k)
unfolding print
print-Moves true k m ms s (pos, lt, e) con =
    let texts : map message ms ++ message m ∷ [] ≡ map message (ms ++ m ∷ []) =
      sym (map-append message ms (m ∷ [])) in
    (
      record s {
        streams =
            update_stream s.streams k
              (record { texts = map message ms ++ message m ∷ []; is_open = true });
      },
      rw e refl,
      (pos, lt, update-same s.streams k _ ∙ (λ i. record { texts = texts i; is_open = true })),
      record {
        same = λ j pos' lt' d. update-other s.streams k j _ d;
        apart = λ j lt' d. d;
        higher = omega arith;
        console =
            ap (λ (x : Stream). x.is_open) (update-other s.streams k 0 _ (λ z. omega arith)) ∙ con;
        keeps = (refl, refl, refl, refl);
      },
    )
print-Moves false k m ms s (pos, lt, e) con =
    (s, rw e refl, (pos, lt, rw (append-nil ms) e), Moves-refl (some k) s con)

-- A note on stdout.
pub say-Moves :
    (n : Note) (p : Option ℕ) (s : Log)
    → (s.streams 0).is_open ≡ true
    → (s' : Log) × (say n s ≡ some s') × Moves p s s' p
unfolding say
say-Moves n p s con = (
  record s {
    streams =
        update_stream s.streams 0
          (record { texts = (s.streams 0).texts ++ note n ∷ []; is_open = true });
  },
  rw con refl,
  record {
    same = λ j pos lt d. update-other s.streams 0 j _ (λ z. omega arith);
    apart = λ j lt d. d;
    higher = omega arith;
    console =
        ap (λ (x : Stream). x.is_open)
          (update-same s.streams 0
            (record { texts = (s.streams 0).texts ++ note n ∷ []; is_open = true }));
    keeps = (refl, refl, refl, refl);
  },
)

-- A data log takes a message, where it is open or can be opened.
pub generic_data_log-Moves :
    (path : LogFile) (opens writes : Bool) (m : List ℕ) (p : Option ℕ) (ms : Option (List (List ℕ)))
    (s : Log)
    → Holds s p ms
    → (s.streams 0).is_open ≡ true
    → 0 < s.fresh
    → (q : Option ℕ) × (s' : Log) × (generic_data_log path opens writes m p s ≡ some (q, s'))
      × Holds s' q (logged opens writes m ms)
      × Moves p s s' q
unfolding generic_data_log
generic_data_log-Moves path opens writes m (some k) none s h con pos = absurd h
generic_data_log-Moves path opens writes m none (some ms) s h con pos = absurd h
generic_data_log-Moves path opens writes m (some k) (some ms) s h con pos =
    let (s', e, h', v) = print-Moves writes k m ms s h con in
    (some k, s', rw (e, ◌>>=◌) refl, h', v)
generic_data_log-Moves path false writes m none none s h con pos =
    let (s', e, v) = say-Moves (no_file path) none s con in (none, s', rw (e, ◌>>=◌) refl, tt, v)
generic_data_log-Moves path true writes m none none s h con pos =
    let opened = record s {
      fresh = s.fresh + 1;
      streams = update_stream s.streams s.fresh (record { texts = []; is_open = true });
    } in
    let con' : (opened.streams 0).is_open ≡ true =
      ap (λ (x : Stream). x.is_open) (update-other s.streams s.fresh 0 _ (λ z. omega arith))
      ∙ con in
    let (s', e, h', v) =
      print-Moves writes s.fresh m [] opened (pos, omega arith, update-same s.streams s.fresh _)
        con' in
    (
      some s.fresh,
      s',
      rw (e, ◌>>=◌) refl,
      h',
      record {
        same = λ j pos' lt d.
            v.same j pos' (omega arith) (λ z. omega arith)
            ∙ update-other s.streams s.fresh j _ (λ z. omega arith);
        apart = λ j lt d z. omega arith;
        higher = omega (arith, v.higher);
        console = v.console;
        keeps = v.keeps;
      },
    )
