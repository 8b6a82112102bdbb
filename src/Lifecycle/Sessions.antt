-- ===== src/Lifecycle/Sessions.antt =====
-- One session of the device, from its opening to its closing, and what comes after it.
use smi240_android_hal.Prelude.{
  ℕ, ◌≡◌, refl, true, Option, none, some, List, [], ◌∷◌, ◌++◌, arith, map, ◌∙◌,
}
use smi240_android_hal.Prelude.Float.{Float, IsNumber}
use smi240_android_hal.ConfigRef.{◌>>=◌}
use smi240_android_hal.PlatformLog.{Log, Storage, loaded, sensord_pltf_init, sensord_pltf_clearup}
use smi240_android_hal.PlatformLog.Opened.{no_logs, opened_logs}
use smi240_android_hal.PlatformLog.Cleared.{clearup_closes, pltf_init_opens}
use smi240_android_hal.SensorTable.Listed.{full_list}
use smi240_android_hal.Legacy.{Legacy, Request, start_with, run}
use smi240_android_hal.Legacy.Runs.{start_with-Inv}
use smi240_android_hal.Lifecycle.{
  Startup, Device, dangling, open_device, close_device, request, call, calls, reads_list,
  open_sensors, construct_with, get_sensorlist, destroy,
}
use smi240_android_hal.Lifecycle.Uses.{
  Use, as_call, requests_of, fresh, opened, calls-append, uses_opened,
}

-- Everything works but perhaps the opening of the accelerometer's file, whose failure is not reported.
pub record Starts (w : Startup) : Type 0 where
  pub trace : w.log_answers.fopen_works ≡ true
  pub pipe : w.pipe_works ≡ true
  pub gyro : w.gyro_opens ≡ true
  pub sensord : w.sensord_starts ≡ true
  pub hwcntl : w.hwcntl_starts ≡ true
  pub list : w.list_fits ≡ true
  pub index : w.index_fits ≡ true

fails : {A B : Type 0} (o : Option A) → ◌>>=◌ {B = B} o (λ _. none) ≡ none
fails none = refl
fails (some a) = refl

module _ (fl : Float) where
  open fl use {F}

  -- After the closing the pointers are not reset.
  abbrev pub closed : Startup → Log → Legacy F → Device F
  closed w l s = record (opened fl w l s) {
    instance_of = none;
    list_pointer = dangling;
    index_pointer = dangling;
  }

  open_fresh :
      (w : Startup) (st : Storage) (l : Log)
      → Starts w
      → sensord_pltf_init w.log_answers (loaded st) ≡ some l
      → call fl (open_device w) (fresh fl st) ≡ some (opened fl w l (start_with fl full_list))
  unfolding call open_sensors
  open_fresh w st l v e =
      rw (e, ◌>>=◌) (rw (v.pipe, v.gyro, v.sensord, v.hwcntl, v.list, v.index) refl)

  close_opened :
      (w : Startup) (l l' : Log) (s : Legacy F)
      → sensord_pltf_clearup l ≡ some l'
      → call fl close_device (opened fl w l s) ≡ some (closed w l' s)
  unfolding call destroy
  close_opened w l l' s e = rw (e, ◌>>=◌) refl

  -- The device once it is opened again.
  reopened : Startup → Startup → Log → Legacy F → Device F
  reopened w w' l s =
      let (d, i) = construct_with w' (closed w l s) in
      (get_sensorlist w' i (record d { instance_of = some i })).0

  open_closed :
      (w w' : Startup) (l l' : Log) (s : Legacy F)
      → sensord_pltf_init w'.log_answers l ≡ some l'
      → call fl (open_device w') (closed w l s) ≡ some (reopened w w' l' s)
  unfolding call open_sensors reopened
  open_closed w w' l l' s e = rw (e, ◌>>=◌) refl

  forward_reopened :
      (w w' : Startup) (l : Log) (s : Legacy F) (q : Request)
      → s.list ≡ full_list
      → w'.pipe_works ≡ true
      → reads_list q ≡ true
      → call fl (request q) (reopened w w' l s) ≡ none
  unfolding call reopened construct_with get_sensorlist
  forward_reopened w w' l s q listed pipe reads = rw (pipe, listed) (rw reads refl)

  close_reopened :
      (w w' : Startup) (l : Log) (s : Legacy F)
      → s.list ≡ full_list
      → w'.pipe_works ≡ true
      → call fl close_device (reopened w w' l s) ≡ none
  unfolding call reopened construct_with get_sensorlist destroy
  close_reopened w w' l s listed pipe =
      let blocked = fails {B = Device F} (sensord_pltf_clearup l) in
      rw (pipe, listed) (ground (arith, blocked))

  module _ (numbers : (k : ℕ) → IsNumber fl (fl.centi k)) where
    -- From the opening on: the handlers do what they do in `run`, and the logs can be closed.
    session :
        (w : Startup) (st : Storage) (us : List Use)
        → Starts w
        → (t : Legacy F) × (l : Log) × (l' : Log) × (run fl
              (requests_of us)
              (start_with fl full_list)
            ≡ some t)
          × (calls fl (open_device w ∷ map as_call us) (fresh fl st) ≡ some (opened fl w l t))
          × (sensord_pltf_clearup l ≡ some l')
          × ((l'.streams 0).is_open ≡ true)
          × (t.list ≡ full_list)
    unfolding calls
    session w st us v =
        let (l₀, e₀, k₀) = opened_logs w.log_answers st v.trace in
        let (t, l, g, r, e, (_, _, _, _, _, _, _, listed, _, _), k) =
          uses_opened fl numbers w us l₀ no_logs (start_with fl full_list)
            (start_with-Inv fl numbers) k₀ in
        let (l', c, console) = clearup_closes l g k in
        (t, l, l', r, rw (open_fresh w st l₀ v e₀, ◌>>=◌) e, c, console, listed)

    -- Where every literal is a number and everything works when the device is first opened, but perhaps
    -- the opening of the accelerometer's file and what is done to the storage: the opening, any sequence
    -- of calls of the handlers and of lines for the logs, and the closing use no memory, stream or thread
    -- that is not there; the handlers change what they change in `run`; and afterwards there is no
    -- instance, stdout is still open, and the pointers to the list of sensors are not reset.
    pub session-closed :
        (w : Startup) (st : Storage) (us : List Use)
        → Starts w
        → (t : Legacy F) × (l : Log) × (run fl (requests_of us) (start_with fl full_list) ≡ some t)
          × (calls fl (open_device w ∷ (map as_call us ++ close_device ∷ [])) (fresh fl st)
              ≡ some (closed w l t))
          × ((l.streams 0).is_open ≡ true)
    unfolding calls
    session-closed w st us v =
        let (t, l, l', r, e, c, console, _) = session w st us v in
        (
          t,
          l',
          r,
          calls-append fl (open_device w ∷ map as_call us) (close_device ∷ []) (fresh fl st)
              ∙ rw (e, ◌>>=◌) (rw (close_opened w l l' t c, ◌>>=◌) refl),
          console,
        )

    -- After such a session, where the device is opened again and its pipe works: the opening succeeds,
    -- whatever the platform answers to the logs; then any call of a handler that looks up its sensor reads
    -- the list of sensors that was freed, and the closing fails too, as it frees the list again.
    pub reopened_faults :
        (w w' : Startup) (st : Storage) (us : List Use) (q : Request)
        → Starts w
        → w'.pipe_works ≡ true
        → reads_list q ≡ true
        → (t : Device F) × (calls fl
              (open_device w ∷ (map as_call us ++ close_device ∷ open_device w' ∷ []))
              (fresh fl st)
            ≡ some t)
          × (call fl (request q) t ≡ none)
          × (call fl close_device t ≡ none)
    unfolding calls
    reopened_faults w w' st us q v pipe reads =
        let (t, l, l', r, e, c, console, listed) = session w st us v in
        let (l'', o) = pltf_init_opens w'.log_answers l' console in
        let rest = close_device ∷ open_device w' ∷ [] in
        (
          reopened w w' l'' t,
          calls-append fl (open_device w ∷ map as_call us) rest (fresh fl st)
              ∙ rw (e, ◌>>=◌)
                  (rw (close_opened w l l' t c, ◌>>=◌)
                    (rw (open_closed w w' l' l'' t o, ◌>>=◌) refl)),
          forward_reopened w w' l'' t q listed pipe reads,
          close_reopened w w' l'' t listed pipe,
        )
