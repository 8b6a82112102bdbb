-- ===== src/Acquire/Drain.antt =====
-- What sensord_read_rawdata takes from the shared list.
use mathlib.Core.List.{append-nil, append_assoc}
use smi240_android_hal.Prelude.{
  ℕ, ◌≤◌, ◌<◌, ◌≡◌, refl, ap, sym, ◌∙◌, Bool, true, false, List, [], ◌∷◌, ◌++◌, arith, length, ◌==◌,
  ◌≢◌,
}
use smi240_android_hal.SimpleList.Fifo.{Fifo, get_headdata}
use smi240_android_hal.SimpleList.Kept.{kept, add_rear-kept, kept-append, kept-fits, length-kept}
use smi240_android_hal.Algo.{EventType, accelerometer, gyroscope_uncalibrated}
use smi240_android_hal.Acquire.{Sample, Platform, F, Lists, sort_in, drain, sensord_read_rawdata}

abbrev pub if_acc {ℓ} : {A : Type ℓ} → EventType → A → A → A
if_acc accelerometer a b = a
if_acc gyroscope_uncalibrated a b = b

module _ {F : Type 0} where
  -- The samples of each chip, in their order.
  abbrev pub acc_in : List (Sample F) → List (Sample F)
  acc_in [] = []
  acc_in (d ∷ ds) = if_acc d.id (d ∷ acc_in ds) (acc_in ds)

  abbrev pub gyro_in : List (Sample F) → List (Sample F)
  gyro_in [] = []
  gyro_in (d ∷ ds) = if_acc d.id (gyro_in ds) (d ∷ gyro_in ds)

  -- Within a limit that is positive.
  pub record IsBounded (q : Fifo (Sample F)) : Type 0 where
    pub fits : length q.items ≤ q.uplimit
    pub positive : 0 < q.uplimit

  -- The list with the last ones of its samples and `ds`.
  abbrev pub joined : Fifo (Sample F) → List (Sample F) → Fifo (Sample F)
  joined q ds = record q { items = kept q.uplimit (q.items ++ ds) }

  pub joined-IsBounded :
      (q : Fifo (Sample F)) (ds : List (Sample F)) → IsBounded q → IsBounded (joined q ds)
  joined-IsBounded q ds b = record {
    fits = length-kept q.uplimit (q.items ++ ds);
    positive = b.positive;
  }

  pub joined-nil : (q : Fifo (Sample F)) → IsBounded q → joined q [] ≡ q
  joined-nil q b =
      let same : kept q.uplimit (q.items ++ []) ≡ q.items =
        rw (append-nil q.items) (kept-fits q.uplimit q.items b.fits) in
      λ i. record { items = same i; uplimit = q.uplimit }

  pub joined-cons :
      (q : Fifo (Sample F)) (d : Sample F) (ds : List (Sample F))
      → joined (joined q (d ∷ [])) ds ≡ joined q (d ∷ ds)
  joined-cons q d ds =
      let whole =
        kept-append q.uplimit (q.items ++ d ∷ []) ds
        ∙ ap (kept q.uplimit) (append_assoc q.items (d ∷ []) ds) in
      λ i. record { items = whole i; uplimit = q.uplimit }

  abbrev pub with_shared : List (Sample F) → Lists F → Lists F
  with_shared xs l = record l { shared = record { items = xs; uplimit = l.shared.uplimit } }

  pub not_empty : (xs : List (Sample F)) → xs ≢ [] → (length xs == 0) ≡ false
  not_empty [] h = absurd (h refl)
  not_empty (x ∷ xs) h = ground arith

  -- The lists after `ds` are taken from the shared one.
  abbrev pub taken : List (Sample F) → Lists F → Lists F
  taken ds l = record l {
    shared = record { items = []; uplimit = l.shared.uplimit };
    sensord_acclraw = joined l.sensord_acclraw (acc_in ds);
    sensord_gyroraw = joined l.sensord_gyroraw (gyro_in ds);
  }

module _ (p : Platform) where
  abbrev sorted_in : Sample (F p) → Lists (F p) → Lists (F p)
  sorted_in d l =
      if_acc d.id (record l { sensord_acclraw = joined l.sensord_acclraw (d ∷ []) })
        (record l { sensord_gyroraw = joined l.sensord_gyroraw (d ∷ []) })

  abbrev sample : EventType → F p → F p → F p → ℕ → Sample (F p)
  sample id x y z t = record { id = id; x = x; y = y; z = z; timestamp = t }

  abbrev pub AreBounded : Lists (F p) → Type 0
  AreBounded l = IsBounded l.sensord_acclraw × IsBounded l.sensord_gyroraw

  -- What the switch does with a sample.
  sort_in-sorted :
      (id : EventType) (x y z : F p) (t : ℕ) (xs : List (Sample (F p))) (l : Lists (F p))
      → AreBounded l
      → let d = sample id x y z t in
        (sort_in p true d (with_shared xs l) ≡ with_shared xs (sorted_in d l))
        × AreBounded (sorted_in d l)
  unfolding sort_in
  sort_in-sorted accelerometer x y z t xs l (a, g) =
      let d = sample accelerometer x y z t in
      (
        rw (add_rear-kept d l.sensord_acclraw a.fits a.positive) refl,
        (joined-IsBounded l.sensord_acclraw (d ∷ []) a, g),
      )
  sort_in-sorted gyroscope_uncalibrated x y z t xs l (a, g) =
      let d = sample gyroscope_uncalibrated x y z t in
      (
        rw (add_rear-kept d l.sensord_gyroraw g.fits g.positive) refl,
        (a, joined-IsBounded l.sensord_gyroraw (d ∷ []) g),
      )

  taken-cons :
      (id : EventType) (x y z : F p) (t : ℕ) (ds : List (Sample (F p))) (l : Lists (F p))
      → let d = sample id x y z t in taken ds (sorted_in d l) ≡ taken (d ∷ ds) l
  taken-cons accelerometer x y z t ds l = λ i. record (taken ds l) {
    sensord_acclraw = joined-cons l.sensord_acclraw (sample accelerometer x y z t) (acc_in ds) i;
  }
  taken-cons gyroscope_uncalibrated x y z t ds l = λ i. record (taken ds l) {
    sensord_gyroraw =
        joined-cons l.sensord_gyroraw (sample gyroscope_uncalibrated x y z t) (gyro_in ds) i;
  }

  drain-taken :
      (works : ℕ → Bool) (xs : List (Sample (F p))) (l : Lists (F p))
      → ((k : ℕ) → works k ≡ true)
      → AreBounded l
      → drain p works (length xs) (with_shared xs l) ≡ taken xs l
  unfolding drain get_headdata
  drain-taken works [] l ok (a, g) = sym (λ i. record (with_shared [] l) {
    sensord_acclraw = joined-nil l.sensord_acclraw a i;
    sensord_gyroraw = joined-nil l.sensord_gyroraw g i;
  })
  drain-taken works (d ∷ ds) l ok b =
      let (e, b') = sort_in-sorted d.id d.x d.y d.z d.timestamp ds l b in
      rw (ok (length ds), e)
        (drain-taken works ds (sorted_in d l) ok b' ∙ taken-cons d.id d.x d.y d.z d.timestamp ds l)

  -- Where both lists of the processing thread are within their positive limits, every malloc succeeds
  -- and the shared list holds a sample: the thread empties the shared list and adds the samples of each
  -- chip, in their order, to the list of that chip, which keeps the last ones that it has room for; the
  -- lists of the other thread stay as they are.
  pub sensord_read_rawdata_takes :
      (works : ℕ → Bool) (waited : Bool) (l : Lists (F p))
      → ((k : ℕ) → works k ≡ true)
      → AreBounded l
      → l.shared.items ≢ []
      → sensord_read_rawdata p waited works l ≡ taken l.shared.items l
  unfolding sensord_read_rawdata
  sensord_read_rawdata_takes works waited l ok b some_left =
      rw (not_empty l.shared.items some_left) (drain-taken works l.shared.items l ok b)
