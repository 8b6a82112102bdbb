-- ===== src/Acquire/Heap.antt =====
-- The lists of class BoschSensor on the heap: what the contract says of the hand-over and of the reading
-- is what the calls of BoschSimpleList do there.
mod Tests
use smi240_android_hal.Prelude.{
  ℕ, suc, ◌≡◌, refl, ap, ◌∙◌, sym, Bool, true, some, List, [], ◌∷◌, arith, length, drop, ◌==◌,
  Bool-cases, inl, inr,
}
use smi240_android_hal.SimpleList.Fifo.{Fifo, add_rear, get_headdata, mount_rear}
use smi240_android_hal.SimpleList.Family.{
  Operation, add_to, get_from, mount_onto, set, foresee_all, operate_all, AreApart, Family,
}
use smi240_android_hal.SimpleList.{SimpleList, Heap}
use smi240_android_hal.SimpleList.Chain.{Cells}
use smi240_android_hal.SimpleList.Runs.{Answer}
use smi240_android_hal.SimpleList.Family.Operates.{operate_all-Family}
use smi240_android_hal.Algo.{EventType, accelerometer, gyroscope_uncalibrated}
use smi240_android_hal.Algo.Process.{length-map}
use smi240_android_hal.Acquire.Image.{image, add_rear-image, mount_rear-image}
use smi240_android_hal.Acquire.{
  Sample, Platform, F, Lists, hand_over, sort_in, drain, sensord_read_rawdata,
}

module _ (p : Platform) (obj : ℕ → Sample (F p)) where
  -- The five lists, by their numbers.
  abbrev pub lists_at : (ℕ → Fifo ℕ) → Lists (F p)
  lists_at qs = record {
    hwcntl_acclraw = image obj (qs 0);
    hwcntl_gyroraw = image obj (qs 1);
    shared = image obj (qs 2);
    sensord_acclraw = image obj (qs 3);
    sensord_gyroraw = image obj (qs 4);
  }

  abbrev pub list_of : EventType → ℕ
  list_of accelerometer = 3
  list_of gyroscope_uncalibrated = 4

  -- The calls of IMU_hw_deliver_sensordata under the mutex, and those of sensord_read_rawdata.
  abbrev pub hand_over_calls : List Operation
  hand_over_calls = mount_onto 2 0 ∷ mount_onto 2 1 ∷ []

  abbrev pub read_calls : (ℕ → Bool) → List ℕ → List Operation
  read_calls works [] = []
  read_calls works (d ∷ ds) =
      get_from 2 ∷ add_to (list_of ((obj d).id)) (works (length ds)) d ∷ read_calls works ds

  hand_over-calls :
      (qs : ℕ → Fifo ℕ) → hand_over p (lists_at qs) ≡ lists_at (foresee_all hand_over_calls qs).0
  unfolding hand_over foresee_all
  hand_over-calls qs =
      let (s1, a) = mount_rear-image obj (qs 2) (qs 0) in
      let q2 = (mount_rear (qs 2) (qs 0)).0 in
      let (s2, g) = mount_rear-image obj q2 (qs 1) in rw (s1, a) (rw (s2, g) refl)

  abbrev fifo : List ℕ → ℕ → Fifo ℕ
  fifo xs n = record { items = xs; uplimit = n }

  -- The queues after a sample is taken from the shared one, and after it is added to that of its chip.
  abbrev after_get : (ℕ → Fifo ℕ) → Fifo ℕ → ℕ → Fifo ℕ
  after_get qs q = set qs 2 (record { items = drop 1 q.items; uplimit = q.uplimit })

  abbrev after_round : Bool → ℕ → (ℕ → Fifo ℕ) → EventType → Fifo ℕ → ℕ → Fifo ℕ
  after_round ok d qs id q =
      set (after_get qs q) (list_of id) (add_rear ok d (after_get qs q (list_of id))).0

  sort_in-calls :
      (ok : Bool) (d : ℕ) (qs : ℕ → Fifo ℕ) (q : Fifo ℕ) (id : EventType) (x y z : F p) (t : ℕ)
      → obj d ≡ record { id = id; x = x; y = y; z = z; timestamp = t }
      → sort_in p ok
          (record { id = id; x = x; y = y; z = z; timestamp = t })
          (lists_at (after_get qs q))
        ≡ lists_at (after_round ok d qs id q)
  unfolding sort_in
  sort_in-calls ok d qs q accelerometer x y z t e =
      let added =
        ap (λ s. (add_rear ok s (image obj (qs 3))).0) (sym e) ∙ add_rear-image obj ok d (qs 3) in
      λ i. record (lists_at (after_get qs q)) { sensord_acclraw = added i }
  sort_in-calls ok d qs q gyroscope_uncalibrated x y z t e =
      let added =
        ap (λ s. (add_rear ok s (image obj (qs 4))).0) (sym e) ∙ add_rear-image obj ok d (qs 4) in
      λ i. record (lists_at (after_get qs q)) { sensord_gyroraw = added i }

  -- The shared list is not that of a chip.
  shared-after_round :
      (ok : Bool) (d : ℕ) (qs : ℕ → Fifo ℕ) (id : EventType) (q : Fifo ℕ)
      → after_round ok d qs id q 2 ≡ after_get qs q 2
  shared-after_round ok d qs accelerometer q = refl
  shared-after_round ok d qs gyroscope_uncalibrated q = refl

  drain-calls :
      (works : ℕ → Bool) (xs : List ℕ) (n : ℕ) (qs : ℕ → Fifo ℕ)
      → qs 2 ≡ fifo xs n
      → drain p works (length xs) (lists_at qs) ≡ lists_at (foresee_all (read_calls works xs) qs).0
  unfolding drain get_headdata foresee_all
  drain-calls works [] n qs e = refl
  drain-calls works (d ∷ ds) n qs e =
      let id = (obj d).id in
      let ok = works (length ds) in
      let taken : drain p works (suc (length ds)) (lists_at qs)
          ≡ drain p works (length ds)
              (sort_in p ok (obj d) (lists_at (after_get qs (fifo (d ∷ ds) n)))) =
        λ i. drain p works (suc (length ds)) (record (lists_at qs) { shared = image obj (e i) }) in
      taken
      ∙ ap (drain p works (length ds)) (
          sort_in-calls ok d qs (fifo (d ∷ ds) n) id (obj d).x (obj d).y (obj d).z (obj d).timestamp
            refl)
      ∙ drain-calls works ds n (after_round ok d qs id (fifo (d ∷ ds) n))
          (shared-after_round ok d qs id (fifo (d ∷ ds) n))
      ∙ ap (λ q. lists_at (foresee_all (read_calls works ds) (after_round ok d qs id q)).0) (sym e)

  -- sensord_read_rawdata where the wait succeeds.
  read_rawdata-drain :
      (works : ℕ → Bool) (l : Lists (F p))
      → sensord_read_rawdata p true works l ≡ drain p works (length l.shared.items) l
  unfolding sensord_read_rawdata
  read_rawdata-drain works l = elim (Bool-cases (length l.shared.items == 0)) [
    | inl none_left ↦ rw none_left refl
    | inr some_left ↦ rw some_left refl
  ]

  read_calls-AreApart : (works : ℕ → Bool) (xs : List ℕ) → AreApart (read_calls works xs)
  read_calls-AreApart works [] = tt
  read_calls-AreApart works (x ∷ xs) = read_calls-AreApart works xs

  -- Where the lists of class BoschSensor are well formed on one heap, within their limits and without a
  -- common node: the calls of BoschSimpleList that the hand-over makes under the mutex, and after them
  -- those that sensord_read_rawdata makes, where its wait succeeds, malloc failing or not, touch no
  -- invalid pointer and leave such lists, which hold the addresses of the samples that hand_over and
  -- sensord_read_rawdata say.
  pub round_on_heap :
      (works : ℕ → Bool) (h : Heap) (ls : ℕ → SimpleList) (qs : ℕ → Fifo ℕ) (cells : ℕ → Cells)
      → Family h ls qs cells
      → let shared = ((foresee_all hand_over_calls qs).0 2).items in
        (ls₁ : ℕ → SimpleList) × (ls₂ : ℕ → SimpleList) × (h₁ : Heap) × (h₂ : Heap) × (out₁ : List
          Answer)
        × (out₂ : List Answer) × (qs' : ℕ → Fifo ℕ) × (cells' : ℕ → Cells) × (operate_all
              hand_over_calls ls h
            ≡ some ((ls₁, out₁), h₁))
        × (operate_all (read_calls works shared) ls₁ h₁ ≡ some ((ls₂, out₂), h₂))
        × Family h₂ ls₂ qs' cells'
        × (lists_at qs' ≡ sensord_read_rawdata p true works (hand_over p (lists_at qs)))
  round_on_heap works h ls qs cells v =
      let qs₁ = (foresee_all hand_over_calls qs).0 in
      let shared = (qs₁ 2).items in
      let (ls₁, h₁, cells₁, e₁, v₁) =
        operate_all-Family hand_over_calls h ls qs cells
          ((λ z. omega arith), ((λ z. omega arith), tt)) v in
      let (ls₂, h₂, cells₂, e₂, v₂) =
        operate_all-Family (read_calls works shared) h₁ ls₁ qs₁ cells₁
          (read_calls-AreApart works shared) v₁ in
      (
        ls₁,
        ls₂,
        h₁,
        h₂,
        (foresee_all hand_over_calls qs).1,
        (foresee_all (read_calls works shared) qs₁).1,
        (foresee_all (read_calls works shared) qs₁).0,
        cells₂,
        e₁,
        e₂,
        v₂,
        sym (
            ap (sensord_read_rawdata p true works) (hand_over-calls qs)
            ∙ read_rawdata-drain works (lists_at qs₁)
            ∙ ap (λ k. drain p works k (lists_at qs₁)) (length-map obj shared)
            ∙ drain-calls works shared (qs₁ 2).uplimit qs₁ refl),
      )
