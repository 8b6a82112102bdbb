-- ===== src/Legacy/Runs.antt =====
-- No sequence of control calls makes the legacy HAL fault.
use smi240_android_hal.Prelude.{
  ℕ, zero, suc, ◌≡◌, refl, ap, ◌∙◌, inl, inr, Bool, true, Option, none, some, List, [], ◌∷◌, arith,
  length, ltb, ◌==◌, if◌then◌else◌, Bool-cases, Option-cases, set,
}
use smi240_android_hal.Prelude.Int.{ℤ, pos, negsuc, eqb_ℤ}
use smi240_android_hal.Prelude.Float.{Float, IsNumber}
use smi240_android_hal.ConfigRef.{◌>>=◌}
use smi240_android_hal.ConfigRef.Sorted.{contains}
use smi240_android_hal.ConfigRef.Activate.{banks_of}
use smi240_android_hal.Batch.{
  Control, batch_configref_resort, configured, bsx_sensor_config_nonwk, bsx_sensor_config_wk,
}
use smi240_android_hal.Batch.Store.{batch_configref_resort_lem, configured_fault}
use smi240_android_hal.SensorTable.Listed.{full_list, smi240_sensor}
use smi240_android_hal.Legacy.{
  Legacy, ap_activate, ap_batch, batch_sensor, clamped_period, einval, Request, activate, batch,
  flush, handle, run, start_with,
}
use smi240_android_hal.Legacy.Sends.{Inv, IsListed, send_listed, found_cases, activate_listed}

length-set : {A : Type 0} (xs : List A) (i : ℕ) (v : A) → length (set xs i v) ≡ length xs
length-set [] i v = refl
length-set (x ∷ xs) zero v = refl
length-set (x ∷ xs) (suc i) v = ap suc (length-set xs i v)

not_none : {A : Type 0} {a : A} {o : Option A} → o ≡ some a → o ≡ none → ⊥
not_none h k = absurd (cc)

module _ (fl : Float) (numbers : (k : ℕ) → IsNumber fl (fl.centi k)) where
  open fl use {F, centi}

  clamped_positive : (i : ℕ) (p : ℤ) → clamped_period fl (smi240_sensor i) p ≡ pos 0 → ⊥
  unfolding clamped_period
  clamped_positive i (pos n) h = absurd (ground arith)
  clamped_positive i (negsuc n) h = absurd (ground arith)

  batch_control :
      (i : ℕ) (used latency : ℤ) (c : Control F) (xs ys : List ℕ)
      → IsListed i
      → (used ≡ pos 0 → ⊥)
      → c.refs ≡ banks_of xs ys
      → length c.config_nonwk ≡ 32
      → length c.config_wk ≡ 32
      → (c' : Control F) × (code : ℕ) × (batch_configref_resort fl i used latency (centi 0) c
          ≡ some (c', code))
        × (c'.refs ≡ banks_of xs ys)
        × (length c'.config_nonwk ≡ 32)
        × (length c'.config_wk ≡ 32)
  batch_control i used latency c xs ys listed nz refs ln lw =
      elim (Option-cases (configured fl used latency (centi 0))) [
        | inl fault ↦ absurd (nz ((configured_fault fl used latency (centi 0)).0 fault))
        | inr (new, fine) ↦
            let low : ltb i 32 ≡ true = ground (arith, listed) in
            let lem =
              batch_configref_resort_lem fl i used latency (centi 0) xs ys c.config_nonwk
                c.config_wk (ground (arith, listed)) ln lw in
            (
              record {
                refs = banks_of xs ys;
                config_nonwk = set c.config_nonwk i new;
                config_wk = c.config_wk;
              },
              (if contains i xs then 1 else 0),
              (λ j. batch_configref_resort fl i used latency (centi 0) (record c { refs = refs j }))
                  ∙ rw (low, fine) at lem,
              refl,
              length-set c.config_nonwk i new ∙ ln,
              lw,
            )
      ]

  -- A call that does not fault, and keeps the invariant.
  abbrev pub Answers : Option (Legacy F × ℤ) → Type 0
  Answers r = (t : Legacy F) × (code : ℤ) × (r ≡ some (t, code)) × Inv t

  ap_activate-Answers :
      (handle : ℕ) (enabled : Bool) (s : Legacy F)
      → Inv s
      → Answers (ap_activate fl handle enabled s)
  unfolding ap_activate
  ap_activate-Answers h e s inv = elim (Bool-cases (h == 255)) [
    | inl invalid ↦ (s, pos 0, rw invalid refl, inv)
    | inr valid ↦ elim (found_cases fl numbers h s.list inv.7) [
      | inl missing ↦ (s, einval, rw valid (rw missing refl), inv)
      | inr (i, listed, found) ↦
          let (t, f, inv') = activate_listed fl numbers i e s listed inv in
          (t, pos 0, rw valid (rw found f), inv')
    ]
  ]

  batch_sensor-Answers :
      (i : ℕ) (period latency : ℤ) (s : Legacy F)
      → IsListed i
      → Inv s
      → Answers (batch_sensor fl (smi240_sensor i) i period latency s)
  unfolding batch_sensor
  batch_sensor-Answers i period latency s listed (xs, ys, refs, sx, sy, ln, lw, l, lo, hi) =
      let used = clamped_period fl (smi240_sensor i) period in
      let (c, code, e, refs', ln', lw') =
        batch_control i used latency s.control xs ys listed (clamped_positive i period) refs ln
          lw in
      let s' : Legacy F = record s { control = c } in
      elim (Bool-cases (code == 0)) [
        | inl inactive ↦ (
          s',
          pos 0,
          rw (e, ◌>>=◌) (rw inactive refl),
          (xs, ys, refs', sx, sy, ln', lw', l, lo, hi),
        )
        | inr active ↦
            let (t, f, (k, l', lo', hi')) = send_listed fl numbers i s' listed ln' lo hi in
            (
              t,
              pos 0,
              rw (e, ◌>>=◌) (rw active (rw (f, ◌>>=◌) refl)),
              (
                xs,
                ys,
                ap (λ z. z.refs) k ∙ refs',
                sx,
                sy,
                ap (λ z. length z.config_nonwk) k ∙ ln',
                ap (λ z. length z.config_wk) k ∙ lw',
                l' ∙ l,
                lo',
                hi',
              ),
            )
      ]

  ap_batch-Answers :
      (handle : ℕ) (period latency : ℤ) (s : Legacy F)
      → Inv s
      → Answers (ap_batch fl handle period latency s)
  unfolding ap_batch
  ap_batch-Answers h period latency s inv = elim (found_cases fl numbers h s.list inv.7) [
    | inl missing ↦
        (s, (if eqb_ℤ latency (pos 0) then pos 0 else einval), rw (missing, ap_batch) refl, inv)
    | inr (i, listed, found) ↦
        let (t, code, f, inv') = batch_sensor-Answers i period latency s listed inv in
        (t, code, rw (found, ap_batch) f, inv')
  ]

  pub handle-Answers : (q : Request) (s : Legacy F) → Inv s → Answers (handle fl q s)
  unfolding handle
  handle-Answers (activate h e) s inv = ap_activate-Answers h e s inv
  handle-Answers (batch h p l) s inv = ap_batch-Answers h p l s inv
  handle-Answers (flush h) s inv = (s, _, refl, inv)

  -- Where every literal is a number, from a state of the invariant no sequence of calls, with any
  -- handles, periods and latencies, faults, and the invariant holds after it: the references stay in
  -- order, and the sampling interval from 2.5 ms to 1 s.
  pub run_never_faults :
      (qs : List Request) (s : Legacy F) → Inv s → (t : Legacy F) × (run fl qs s ≡ some t) × Inv t
  unfolding run
  run_never_faults [] s inv = (s, refl, inv)
  run_never_faults (q ∷ qs) s inv =
      let (t, code, e, inv') = handle-Answers q s inv in
      let (u, f, inv'') = run_never_faults qs t inv' in (u, rw (e, ◌>>=◌) f, inv'')

  -- The state at the start, with the two sensors listed, satisfies the invariant.
  pub start_with-Inv : Inv (start_with fl full_list)
  unfolding bsx_sensor_config_nonwk bsx_sensor_config_wk
  start_with-Inv = ([], [], refl, tt, tt, refl, refl, refl, omega arith, omega arith)
