-- ===== src/Legacy/Sends.antt =====
-- What the control calls do for a sensor that is listed.
use smi240_android_hal.Prelude.{
  ℕ, zero, suc, ◌/◌, ◌<◌, ◌≤◌, ◌≡◌, refl, ap, ◌∙◌, inl, inr, ◌⊎◌, Bool, true, false, none, some,
  List, [], ◌∷◌, arith, length, ◌==◌, if◌then◌else◌, Bool-cases, get_elem?,
}
use smi240_android_hal.Prelude.Int.{pos}
use smi240_android_hal.Prelude.Float.{Float, IsNumber}
use smi240_android_hal.Encode.{smi240_convert_odr, convert_datarate_code}
use smi240_android_hal.Encode.Rate.{smi240_convert_odr_range}
use smi240_android_hal.ConfigRef.{activate_configref_resort, ◌>>=◌}
use smi240_android_hal.ConfigRef.Sorted.{IsSorted}
use smi240_android_hal.ConfigRef.Activate.{banks_of}
use smi240_android_hal.ConfigRef.Members.{activate_configref_resort_members}
use smi240_android_hal.SensorTable.{SensorList, bosch_all_sensors, get_sensor_t}
use smi240_android_hal.SensorTable.Listed.{full_list, smi240_sensor, get_sensor_t_listed}
use smi240_android_hal.Legacy.{
  Legacy, ap_config_phy_acc, sample_rate_of, ap_send_config, ap_send_disable_config, answer,
}

-- The two sensors are listed, both arrays of references are in order, both tables are whole, and the
-- sampling interval is from 2.5 ms to 1 s.
abbrev pub Inv : {F : Type 0} → Legacy F → Type 0
Inv s =
    (xs : List ℕ) × (ys : List ℕ) × (s.control.refs ≡ banks_of xs ys)
    × IsSorted 0 xs
    × IsSorted 0 ys
    × (length s.control.config_nonwk ≡ 32)
    × (length s.control.config_wk ≡ 32)
    × (s.list ≡ full_list)
    × (2500 ≤ s.sampling_interval)
    × (s.sampling_interval ≤ 1_000_000)

-- Only the sampling interval differs, within its bounds.
abbrev pub IsRetimed : {F : Type 0} → Legacy F → Legacy F → Type 0
IsRetimed s t =
    (t.control ≡ s.control)
    × (t.list ≡ s.list)
    × (2500 ≤ t.sampling_interval)
    × (t.sampling_interval ≤ 1_000_000)

abbrev pub IsListed : ℕ → Type 0
IsListed i = (i ≡ 1) ⊎ (i ≡ 16)

inside : {A : Type 0} (xs : List A) (i : ℕ) → i < length xs → (x : A) × (get_elem? xs i ≡ some x)
inside [] i h = absurd (omega arith)
inside (x ∷ xs) zero h = (x, refl)
inside (x ∷ xs) (suc i) h = inside xs i (omega arith)

module _ (fl : Float) (numbers : (k : ℕ) → IsNumber fl (fl.centi k)) where
  open fl use {F, centi, eq}

  interval_bounds :
      (hz : F)
      → IsNumber fl hz
      → (2500 ≤ 1_000_000 / smi240_convert_odr fl hz)
        × (1_000_000 / smi240_convert_odr fl hz ≤ 1_000_000)
  unfolding smi240_convert_odr
  interval_bounds hz n = ground (arith, n.le_lt 20000, n.le_lt 10000, n.le_lt 5000, n.le_lt 500)

  phy_acc :
      (k : ℕ) (s : Legacy F)
      → (2500 ≤ s.sampling_interval)
      → (s.sampling_interval ≤ 1_000_000)
      → (t : Legacy F) × (ap_config_phy_acc fl (centi k) s ≡ some t) × IsRetimed s t
  unfolding ap_config_phy_acc
  phy_acc k s lo hi = elim (Bool-cases (eq (centi k) (centi 6_553_500))) [
    | inl off ↦ (s, rw off refl, (refl, refl, lo, hi))
    | inr on ↦
        let range = smi240_convert_odr_range fl (centi k) (numbers k) in
        let bounds = interval_bounds (centi k) (numbers k) in
        let nonzero : (smi240_convert_odr fl (centi k) == 0) ≡ false = ground (arith, range) in
        (_, rw on (rw nonzero refl), (refl, refl, bounds.0, bounds.1))
  ]

  send_rate :
      (i : ℕ) (s : Legacy F)
      → IsListed i
      → length s.control.config_nonwk ≡ 32
      → (k : ℕ) × (sample_rate_of fl i s.control ≡ some (centi k))
  unfolding sample_rate_of bosch_all_sensors
  send_rate i s (inl one) l =
      let (c, e) = inside s.control.config_nonwk 1 (omega arith) in
      (convert_datarate_code c.data_rate, rw one (rw (e, ◌>>=◌) refl))
  send_rate i s (inr two) l =
      let (c, e) = inside s.control.config_nonwk 16 (omega arith) in
      (convert_datarate_code c.data_rate, rw two (rw (e, ◌>>=◌) refl))

  pub send_listed :
      (i : ℕ) (s : Legacy F)
      → IsListed i
      → length s.control.config_nonwk ≡ 32
      → 2500 ≤ s.sampling_interval
      → s.sampling_interval ≤ 1_000_000
      → (t : Legacy F) × (ap_send_config fl i s ≡ some t) × IsRetimed s t
  unfolding ap_send_config
  send_listed i s (inl one) l lo hi =
      let (k, e) = send_rate 1 s (inl refl) l in
      let (t, f, r) = phy_acc k s lo hi in (t, rw one (rw (e, ◌>>=◌) f), r)
  send_listed i s (inr two) l lo hi =
      let (k, e) = send_rate 16 s (inr refl) l in
      (s, rw two (rw (e, ◌>>=◌) refl), (refl, refl, lo, hi))

  disable_listed :
      (i : ℕ) (s : Legacy F)
      → IsListed i
      → 2500 ≤ s.sampling_interval
      → s.sampling_interval ≤ 1_000_000
      → (t : Legacy F) × (ap_send_disable_config fl i s ≡ some t) × IsRetimed s t
  unfolding ap_send_disable_config
  disable_listed i s (inl one) lo hi = let (t, f, r) = phy_acc 6_553_500 s lo hi in (t, rw one f, r)
  disable_listed i s (inr two) lo hi = (s, rw two refl, (refl, refl, lo, hi))

  pub found_cases :
      (h : ℕ) (l : SensorList)
      → l ≡ full_list
      → (get_sensor_t h l.entries ≡ none)
        ⊎ ((i : ℕ) × IsListed i × (get_sensor_t h l.entries ≡ some (smi240_sensor i, i)))
  found_cases h l e = elim (Bool-cases (h == 1)) [
    | inl one ↦ inr (1, inl refl, rw e (rw one at (get_sensor_t_listed h)))
    | inr other ↦ elim (Bool-cases (h == 16)) [
      | inl two ↦ inr (16, inr refl, rw e (rw (other, two) at (get_sensor_t_listed h)))
      | inr none_of ↦ inl (rw e (rw (other, none_of) at (get_sensor_t_listed h)))
    ]
  ]

  pub activate_listed :
      (i : ℕ) (enabled : Bool) (s : Legacy F)
      → IsListed i
      → Inv s
      → (t : Legacy F) × ((activate_configref_resort i enabled s.control.refs >>= λ r.
            let s' = record s { control = record s.control { refs = r.0 } } in
            answer fl
              (pos 0)
              (if enabled then ap_send_config fl i s' else ap_send_disable_config fl i s'))
          ≡ some (t, pos 0))
        × Inv t
  activate_listed i true s listed (xs, ys, refs, sx, sy, ln, lw, l, lo, hi) =
      let (xs', e, sx', _) =
        activate_configref_resort_members i true xs ys (ground (arith, listed)) sx sy in
      let s' : Legacy F = record s { control = record s.control { refs = banks_of xs' ys } } in
      let (t, f, (c, l', lo', hi')) = send_listed i s' listed ln lo hi in
      (
        t,
        rw refs (rw (e, ◌>>=◌) (rw (f, ◌>>=◌) refl)),
        (
          xs',
          ys,
          ap (λ z. z.refs) c,
          sx',
          sy,
          ap (λ z. length z.config_nonwk) c ∙ ln,
          ap (λ z. length z.config_wk) c ∙ lw,
          l' ∙ l,
          lo',
          hi',
        ),
      )
  activate_listed i false s listed (xs, ys, refs, sx, sy, ln, lw, l, lo, hi) =
      let (xs', e, sx', _) =
        activate_configref_resort_members i false xs ys (ground (arith, listed)) sx sy in
      let s' : Legacy F = record s { control = record s.control { refs = banks_of xs' ys } } in
      let (t, f, (c, l', lo', hi')) = disable_listed i s' listed lo hi in
      (
        t,
        rw refs (rw (e, ◌>>=◌) (rw (f, ◌>>=◌) refl)),
        (
          xs',
          ys,
          ap (λ z. z.refs) c,
          sx',
          sy,
          ap (λ z. length z.config_nonwk) c ∙ ln,
          ap (λ z. length z.config_wk) c ∙ lw,
          l' ∙ l,
          lo',
          hi',
        ),
      )
