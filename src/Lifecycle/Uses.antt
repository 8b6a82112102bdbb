-- ===== src/Lifecycle/Uses.antt =====
-- What is done with the device while it is open: calls of the handlers, and lines for the logs.
use smi240_android_hal.Prelude.{
  ℕ, ◌≡◌, refl, Bool, true, false, not, ◌&&◌, none, some, List, [], ◌∷◌, ◌++◌, map, ◌==◌,
  Option-cases, inl, inr,
}
use smi240_android_hal.Prelude.Float.{Float, IsNumber}
use smi240_android_hal.Prelude.Int.{ℤ}
use smi240_android_hal.ConfigRef.{◌>>=◌}
use smi240_android_hal.PlatformLog.{Config, Log, LogCall, Storage, loaded}
use smi240_android_hal.PlatformLog.Kept.{Logs, after_call}
use smi240_android_hal.PlatformLog.Data.{Keeps}
use smi240_android_hal.PlatformLog.Calls.{perform-Keeps}
use smi240_android_hal.SensorTable.Listed.{empty_list}
use smi240_android_hal.Legacy.{Legacy, Request, start_with, run, handle}
use smi240_android_hal.Legacy.Sends.{Inv}
use smi240_android_hal.Legacy.Runs.{handle-Answers}
use smi240_android_hal.Lifecycle.{
  Startup, Instance, Device, null, live, Call, request, log_line, call, calls, reads_list,
}

pub data Use : Type 0 where
  ask : Request → Use
  write : Config → LogCall → Use

abbrev pub as_call : Use → Call
as_call (ask q) = request q
as_call (write c x) = log_line c x

-- The calls of the handlers alone.
abbrev pub requests_of : List Use → List Request
requests_of [] = []
requests_of (ask q ∷ us) = q ∷ requests_of us
requests_of (write c x ∷ us) = requests_of us

never_dangling : (a b : Bool) → (a && (b && false)) ≡ false
never_dangling true true = refl
never_dangling true false = refl
never_dangling false b = refl

abbrev pub running : Instance
running = record { has_functions = true; has_lists = true; sensord_runs = true; hwcntl_runs = true }

module _ (fl : Float) where
  open fl use {F}

  -- The device before it is opened for the first time.
  abbrev pub fresh : Storage → Device F
  fresh st = record {
    instance_of = none;
    list_pointer = null;
    index_pointer = null;
    acc_fd = false;
    gyr_fd = false;
    log = loaded st;
    legacy = start_with fl empty_list;
  }

  abbrev pub opened : Startup → Log → Legacy F → Device F
  opened w l s = record {
    instance_of = some running;
    list_pointer = live;
    index_pointer = live;
    acc_fd = w.acc_opens;
    gyr_fd = true;
    log = l;
    legacy = s;
  }

  pub calls-append :
      (cs ds : List Call) (d : Device F) → calls fl (cs ++ ds) d ≡ (calls fl cs d >>= calls fl ds)
  unfolding calls
  calls-append [] ds d = refl
  calls-append (c ∷ cs) ds d = elim (Option-cases (call fl c d)) [
    | inl e ↦ rw (e, ◌>>=◌) refl
    | inr (d', e) ↦ rw (e, ◌>>=◌) (calls-append cs ds d')
  ]

  module _ (numbers : (k : ℕ) → IsNumber fl (fl.centi k)) where
    request_opened :
        (w : Startup) (l : Log) (q : Request) (s : Legacy F)
        → Inv s
        → (t : Legacy F) × (code : ℤ) × (handle fl q s ≡ some (t, code))
          × (call fl (request q) (opened w l s) ≡ some (opened w l t))
          × Inv t
    unfolding call
    request_opened w l q s inv =
        let (t, code, e, inv') = handle-Answers fl numbers q s inv in
        let quiet = never_dangling (reads_list q) (not (s.list.list_len == 0)) in
        (t, code, e, rw (quiet, e, ◌>>=◌) refl, inv')

    line_opened :
        (w : Startup) (c : Config) (x : LogCall) (l : Log) (g : Logs) (s : Legacy F)
        → Keeps l g
        → (l' : Log) × (call fl (log_line c x) (opened w l s) ≡ some (opened w l' s))
          × Keeps l' (after_call c x g)
    unfolding call
    line_opened w c x l g s v =
        let (l', e, v') = perform-Keeps c x l g v in (l', rw (e, ◌>>=◌) refl, v')

    pub uses_opened :
        (w : Startup) (us : List Use) (l : Log) (g : Logs) (s : Legacy F)
        → Inv s
        → Keeps l g
        → (t : Legacy F) × (l' : Log) × (g' : Logs) × (run fl (requests_of us) s ≡ some t)
          × (calls fl (map as_call us) (opened w l s) ≡ some (opened w l' t))
          × Inv t
          × Keeps l' g'
    unfolding calls run
    uses_opened w [] l g s inv v = (s, l, g, refl, refl, inv, v)
    uses_opened w (ask q ∷ us) l g s inv v =
        let (t, code, h, e, inv') = request_opened w l q s inv in
        let (u, l', g', k, f, inv'', v') = uses_opened w us l g t inv' v in
        (u, l', g', rw (h, ◌>>=◌) k, rw (e, ◌>>=◌) f, inv'', v')
    uses_opened w (write c x ∷ us) l g s inv v =
        let (l₁, e, v₁) = line_opened w c x l g s v in
        let (u, l', g', k, f, inv'', v') = uses_opened w us l₁ (after_call c x g) s inv v₁ in
        (u, l', g', k, rw (e, ◌>>=◌) f, inv'', v')
