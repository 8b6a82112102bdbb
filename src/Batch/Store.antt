-- ===== src/Batch/Store.antt =====
-- What batch_configref_resort stores and answers.
use mathlib.Core.List.{append_assoc}
use smi240_android_hal.Prelude.{
  ℕ, zero, suc, ◌+◌, ◌-◌, ◌<◌, ◌≡◌, refl, ap, sym, ◌∙◌, inl, inr, true, false, Option, none, some,
  List, [], ◌∷◌, ◌++◌, arith, length, length-append, ltb, leb, ◌==◌, if◌then◌else◌, Bool-cases,
  Option-cases, ◌↔◌, get_elem?, set, replicate,
}
use smi240_android_hal.Prelude.Int.{ℤ, pos, negsuc}
use smi240_android_hal.Prelude.Float.{Float}
use smi240_android_hal.Encode.{quotient_int64}
use smi240_android_hal.ConfigRef.{◌>>=◌}
use smi240_android_hal.ConfigRef.Arrays.{Slots, get_elem?-prefix}
use smi240_android_hal.ConfigRef.Sorted.{contains}
use smi240_android_hal.ConfigRef.Resort.{somes}
use smi240_android_hal.ConfigRef.Activate.{bank_of, banks_of}
use smi240_android_hal.Batch.{
  SensorConfig, Control, find_ref, configured, batch_in, batch_configref_resort,
}

contains_next : (x a : ℕ) (xs : List ℕ) → (x == a) ≡ false → contains a (x ∷ xs) ≡ contains a xs
unfolding contains
contains_next x a xs h = ground arith

contains_here : (x a : ℕ) (xs : List ℕ) → (x == a) ≡ true → contains a (x ∷ xs) ≡ true
unfolding contains
contains_here x a xs h = ground arith

contains_none : (a : ℕ) → contains a [] ≡ false
unfolding contains
contains_none a = refl

find_ref_lem :
    (xs : List ℕ) (p tail : Slots) (rel : ℕ)
    → find_ref (length xs) (length p) rel (p ++ (somes xs ++ tail)) ≡ some (contains rel xs)
unfolding find_ref
find_ref_lem [] p tail rel = ap some (sym (contains_none rel))
find_ref_lem (x ∷ xs) p tail rel = elim (Bool-cases (x == rel)) [
  | inl same ↦
      rw (get_elem?-prefix p (somes xs ++ tail) (some x), find_ref)
        (rw (same, find_ref) (rw (contains_here x rel xs same) refl))
  | inr other ↦
      let next : length p + 1 ≡ length (p ++ some x ∷ []) =
        omega (arith, length-append p (some x ∷ [])) in
      rw (get_elem?-prefix p (somes xs ++ tail) (some x), find_ref)
        (rw (other, find_ref)
          ((λ i.
              find_ref (length xs) (next i) rel
                (sym (append_assoc p (some x ∷ []) (somes xs ++ tail)) i))
            ∙ find_ref_lem xs (p ++ some x ∷ []) tail rel
            ∙ ap some (sym (contains_next x rel xs other))))
]

get_elem?-inside :
    {A : Type 0} (xs : List A) (i : ℕ) → i < length xs → (x : A) × (get_elem? xs i ≡ some x)
get_elem?-inside [] i h = absurd (omega arith)
get_elem?-inside (x ∷ xs) zero h = (x, refl)
get_elem?-inside (x ∷ xs) (suc i) h = get_elem?-inside xs i (omega arith)

some-none : {A : Type 0} {a : A} → some a ≡ none → ⊥
some-none h = absurd (cc)

quotient_fault : (a b : ℤ) → (quotient_int64 a b ≡ none) ↔ (b ≡ pos 0)
unfolding quotient_int64
quotient_fault (pos a) (pos b) = ground arith
quotient_fault (pos a) (negsuc b) = ground arith
quotient_fault (negsuc a) (pos b) = ground arith
quotient_fault (negsuc a) (negsuc b) = ground arith

module _ (fl : Float) where
  open fl use {F}

  -- The reply of `batch_in` to a configuration that was computed, or to a division by 0.
  abbrev pub stored :
      ℕ
      → List ℕ
      → List (SensorConfig F)
      → Option (SensorConfig F)
      → Option (List (SensorConfig F) × ℕ)
  stored rel xs configs none = none
  stored rel xs configs (some c) = some (set configs rel c, if contains rel xs then 1 else 0)

  batch_in_lem :
      (rel : ℕ) (period latency : ℤ) (delay_hz : F) (xs : List ℕ) (configs : List (SensorConfig F))
      → rel < length configs
      → batch_in fl rel period latency delay_hz (bank_of xs) configs
        ≡ stored rel xs configs (configured fl period latency delay_hz)
  unfolding batch_in
  batch_in_lem rel period latency delay_hz xs configs h =
      let slots = somes xs ++ replicate (32 - length xs) none in
      let count : 0 + length xs ≡ length xs = omega arith in
      let found : find_ref (0 + length xs) 0 rel slots ≡ some (contains rel xs) =
        (λ i. find_ref (count i) 0 rel slots)
        ∙ find_ref_lem xs [] (replicate (32 - length xs) none) rel in
      let (old, e) = get_elem?-inside configs rel h in
      rw (found, ◌>>=◌)
        (rw (e, ◌>>=◌)
          (elim (Option-cases (configured fl period latency delay_hz)) [
            | inl fault ↦ rw (fault, ◌>>=◌) refl
            | inr (c, fine) ↦ rw (fine, ◌>>=◌) refl
          ]))

  -- For every index below 64, two tables of 32 configurations and arrays that hold their references
  -- in front and count them: the call writes the new configuration at the place of the sensor in its table,
  -- whether the sensor is active or not, leaves all else, and answers 1 exactly for an active
  -- sensor; it faults where the configuration cannot
  -- be computed.
  pub batch_configref_resort_lem :
      (bsx_list_index : ℕ) (period latency : ℤ) (delay_hz : F) (xs ys : List ℕ)
      (nonwk wk : List (SensorConfig F))
      → bsx_list_index < 64
      → length nonwk ≡ 32
      → length wk ≡ 32
      → let s : Control F = record {
        refs = banks_of xs ys;
        config_nonwk = nonwk;
        config_wk = wk;
      } in
        let c = configured fl period latency delay_hz in
        batch_configref_resort fl bsx_list_index period latency delay_hz s ≡ (
          if ltb bsx_list_index 32
          then (stored bsx_list_index xs nonwk c >>= λ r.
              some (record s { config_nonwk = r.0 }, r.1))
          else (stored (bsx_list_index - 32) ys wk c >>= λ r.
              some (record s { config_wk = r.0 }, r.1)))
  unfolding batch_configref_resort
  batch_configref_resort_lem index period latency delay_hz xs ys nonwk wk h l m =
      elim (Bool-cases (ltb index 32)) [
        | inl low ↦
            let low' : leb index 31 ≡ true = ground arith in
            let inside : index < length nonwk = ground arith in
            rw (low, low') (rw (batch_in_lem index period latency delay_hz xs nonwk inside) refl)
        | inr high ↦
            let high' : leb index 31 ≡ false = ground arith in
            let inside : index - 32 < length wk = ground arith in
            rw (high, high')
              (rw (batch_in_lem (index - 32) period latency delay_hz ys wk inside) refl)
      ]

  -- The configuration cannot be computed exactly where the sampling period is 0, by which the code
  -- divides the latency.
  pub configured_fault :
      (period latency : ℤ) (delay_hz : F)
      → (configured fl period latency delay_hz ≡ none) ↔ (period ≡ pos 0)
  unfolding configured
  configured_fault period latency delay_hz =
      let (to, from) = quotient_fault latency period in
      elim (Option-cases (quotient_int64 latency period)) [
        | inl fault ↦ ((λ _. to fault), λ z. rw (fault, ◌>>=◌) refl)
        | inr (q, fine) ↦ (
          (λ h. absurd (some-none (rw (fine, ◌>>=◌) at h))),
          λ z. absurd (some-none (sym fine ∙ from z)),
        )
      ]
