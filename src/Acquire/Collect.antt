-- ===== src/Acquire/Collect.antt =====
-- What a poll of a chip adds to its list.
use mathlib.Core.List.{append-nil, append_assoc}
use smi240_android_hal.Prelude.{
  ℕ, zero, suc, ◌+◌, ◌≤◌, ◌<◌, ◌≡◌, refl, ap, ◌∙◌, true, some, List, [], ◌∷◌, ◌++◌, arith, length,
  drop, ltb, get_elem?, map,
}
use smi240_android_hal.Prelude.Int.{ℤ}
use smi240_android_hal.Remap.{AxisRemap, axis_remap_matrix, hw_remap_sensor_data}
use smi240_android_hal.Scan.{◌>>=◌}
use smi240_android_hal.Scan.Print.{print, print-append, length-print}
use smi240_android_hal.Scan.RoundTrip.{IsInt32, IsLongMax, sysfs_extract_numbers-print}
use smi240_android_hal.SimpleList.Kept.{kept, add_rear-kept, kept-append, kept-fits, length-kept}
use smi240_android_hal.Algo.{EventType, accelerometer, gyroscope_uncalibrated}
use smi240_android_hal.Acquire.{
  Sample, Reading, Platform, F, Polling, filled, sample_of, store, poll_round, poll,
}

-- The three numbers of a line, and the time at which it is read.
pub record Measurement : Type 0 where
  pub x : ℤ
  pub y : ℤ
  pub z : ℤ
  pub time : ℕ

abbrev pub IsShort : Measurement → Type 0
IsShort m = IsInt32 m.x × IsInt32 m.y × IsInt32 m.z

abbrev pub AllShort : List Measurement → Type 0
AllShort [] = Unit {0}
AllShort (m ∷ ms) = IsShort m × AllShort ms

-- "%d %d %d\n" with `rest` behind it.
abbrev pub line : Measurement → List ℕ → List ℕ
line m rest = print m.x (b' ' ∷ print m.y (b' ' ∷ print m.z (10 ∷ rest)))

abbrev pub reading_of : Measurement → Reading
reading_of m = record {
  bytes = line m [];
  timestamp = m.time;
  calloc_works = true;
  malloc_works = true;
}

line-append : (m : Measurement) (t : List ℕ) → line m [] ++ t ≡ line m t
line-append m t =
    print-append m.x (b' ' ∷ print m.y (b' ' ∷ print m.z (10 ∷ []))) t
    ∙ ap (λ s. print m.x (b' ' ∷ s)) (print-append m.y (b' ' ∷ print m.z (10 ∷ [])) t)
    ∙ ap (λ s. print m.x (b' ' ∷ print m.y (b' ' ∷ s))) (print-append m.z (10 ∷ []) t)

-- A line fits the array, with its zero byte.
length-line : (m : Measurement) → IsShort m → length (line m []) < 100
length-line m (hx, hy, hz) = omega (
  arith,
  length-print m.x (b' ' ∷ print m.y (b' ' ∷ print m.z (10 ∷ []))) hx.0 hx.1,
  length-print m.y (b' ' ∷ print m.z (10 ∷ [])) hy.0 hy.1,
  length-print m.z (10 ∷ []) hz.0 hz.1,
)

row_exists : (n : ℕ) → n < 8 → (r : AxisRemap) × (get_elem? axis_remap_matrix n ≡ some r)
row_exists zero h = (_, refl)
row_exists (suc zero) h = (_, refl)
row_exists (suc (suc zero)) h = (_, refl)
row_exists (suc (suc (suc zero))) h = (_, refl)
row_exists (suc (suc (suc (suc zero)))) h = (_, refl)
row_exists (suc (suc (suc (suc (suc zero))))) h = (_, refl)
row_exists (suc (suc (suc (suc (suc (suc zero)))))) h = (_, refl)
row_exists (suc (suc (suc (suc (suc (suc (suc zero))))))) h = (_, refl)
row_exists (suc (suc (suc (suc (suc (suc (suc (suc n)))))))) h = absurd (omega arith)

module _ (p : Platform) where
  -- The samples that are stored for the measurements of a chip.
  abbrev pub Samples : EventType → List Measurement → List (Sample (F p)) → Type 0
  Samples id [] [] = Unit {0}
  Samples id [] (d ∷ ds) = ⊥
  Samples id (m ∷ ms) [] = ⊥
  Samples id (m ∷ ms) (d ∷ ds) = (sample_of p id (m.x, m.y, m.z) m.time ≡ some d) × Samples id ms ds

  -- A round of a poll stores the sample of its line.
  poll_round-line :
      (id : EventType) (m : Measurement) (s : Polling (F p)) (d : Sample (F p))
      → IsLongMax p.long_max
      → IsShort m
      → sample_of p id (m.x, m.y, m.z) m.time ≡ some d
      → length s.list.items ≤ s.list.uplimit
      → 0 < s.list.uplimit
      → (b : List ℕ) × (poll_round p id (reading_of m) s
          ≡ some (record {
            buffer = b;
            xyz = (m.x, m.y, m.z);
            list = record {
              items = kept s.list.uplimit (s.list.items ++ d ∷ []);
              uplimit = s.list.uplimit;
            };
          }))
  unfolding poll_round filled store
  poll_round-line id m s d long short e fits positive =
      let t = drop (length (line m []) + 1) s.buffer in
      let room : ltb (length (line m [])) 100 ≡ true = ground (arith, length-line m short) in
      let scanned =
        sysfs_extract_numbers-print p.long_max m.x m.y m.z b' ' b' ' 10 (0 ∷ t) s.xyz long short
          (refl, refl, refl) in
      let added = add_rear-kept d s.list fits positive in
      (
        line m (0 ∷ t),
        rw (room, ◌>>=◌)
            (rw (line-append m (0 ∷ t)) (rw (scanned, ◌>>=◌) (rw (e, ◌>>=◌) (rw added refl)))),
      )

  -- A poll stores the samples of its lines, and keeps the last ones that the list has room for.
  poll-lines :
      (id : EventType) (ms : List Measurement) (ds : List (Sample (F p))) (s : Polling (F p))
      → IsLongMax p.long_max
      → AllShort ms
      → Samples id ms ds
      → length s.list.items ≤ s.list.uplimit
      → 0 < s.list.uplimit
      → (s' : Polling (F p)) × (poll p id (map reading_of ms) s ≡ some s')
        × (s'.list ≡ record s.list { items = kept s.list.uplimit (s.list.items ++ ds) })
  unfolding poll
  poll-lines id [] [] s long short e fits positive =
      let same : kept s.list.uplimit (s.list.items ++ []) ≡ s.list.items =
        rw (append-nil s.list.items) (kept-fits s.list.uplimit s.list.items fits) in
      (s, refl, rw same refl)
  poll-lines id [] (d ∷ ds) s long short e fits positive = absurd e
  poll-lines id (m ∷ ms) [] s long short e fits positive = absurd e
  poll-lines id (m ∷ ms) (d ∷ ds) s long short e fits positive =
      let (b, e₁) = poll_round-line id m s d long short.0 e.0 fits positive in
      let s₁ : Polling (F p) = record {
        buffer = b;
        xyz = (m.x, m.y, m.z);
        list = record {
          items = kept s.list.uplimit (s.list.items ++ d ∷ []);
          uplimit = s.list.uplimit;
        };
      } in
      let (s', e', q) =
        poll-lines id ms ds s₁ long short.1 e.1
          (length-kept s.list.uplimit (s.list.items ++ d ∷ [])) positive in
      let whole =
        kept-append s.list.uplimit (s.list.items ++ d ∷ []) ds
        ∙ ap (kept s.list.uplimit) (append_assoc s.list.items (d ∷ []) ds) in
      (s', rw (e₁, ◌>>=◌) e', q ∙ (λ i. record { items = whole i; uplimit = s.list.uplimit }))

  sample_exists :
      (id : EventType) (m : Measurement)
      → p.place_g < 8
      → (d : Sample (F p)) × (sample_of p id (m.x, m.y, m.z) m.time ≡ some d)
  unfolding sample_of hw_remap_sensor_data
  sample_exists accelerometer m h = (_, refl)
  sample_exists gyroscope_uncalibrated m h =
      let (r, e) = row_exists p.place_g h in rw (e, ◌>>=◌) (_, refl)

  Samples-exist :
      (id : EventType) (ms : List Measurement)
      → p.place_g < 8
      → (ds : List (Sample (F p))) × Samples id ms ds
  Samples-exist id [] h = ([], tt)
  Samples-exist id (m ∷ ms) h =
      let (d, e) = sample_exists id m h in let (ds, es) = Samples-exist id ms h in (d ∷ ds, (e, es))

  -- Where LONG_MAX is that of 32 bits at least, the gyroscope's position is in the table, the numbers
  -- fit 32 bits and the allocations succeed: a poll that reads a line "x y z" of each measurement stays
  -- in its array, whatever it held, and adds the sample of each, in order, to a list within its positive
  -- limit, which keeps the last ones that it has room for.
  pub poll_collects :
      (id : EventType) (ms : List Measurement) (s : Polling (F p))
      → IsLongMax p.long_max
      → p.place_g < 8
      → AllShort ms
      → length s.list.items ≤ s.list.uplimit
      → 0 < s.list.uplimit
      → (ds : List (Sample (F p))) × (s' : Polling (F p)) × Samples id ms ds
        × (poll p id (map reading_of ms) s ≡ some s')
        × (s'.list ≡ record s.list { items = kept s.list.uplimit (s.list.items ++ ds) })
  poll_collects id ms s long place short fits positive =
      let (ds, es) = Samples-exist id ms place in
      let (s', e, q) = poll-lines id ms ds s long short es fits positive in (ds, s', es, e, q)
