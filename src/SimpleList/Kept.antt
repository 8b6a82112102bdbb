-- ===== src/SimpleList/Kept.antt =====
-- What a bounded queue keeps of the samples that are added to it: the last ones.
use smi240_android_hal.Prelude.{
  ℕ, zero, suc, ◌+◌, ◌-◌, ◌≤◌, ◌<◌, ◌≡◌, refl, ap, ◌∙◌, sym, true, List, [], ◌∷◌, ◌++◌, arith,
  length, drop, ◌==◌, length-append, length-drop, Bool-cases, inl, inr,
}
use mathlib.Core.List.{append-nil}
use smi240_android_hal.SimpleList.Fifo.{Fifo, add_rear, mount_rear}

module _ {A : Type 0} where
  -- The last `limit` of `xs`, or all of them.
  abbrev pub kept : ℕ → List A → List A
  kept limit xs = drop (length xs - limit) xs

  drop-append : (n : ℕ) (xs ys : List A) → n ≤ length xs → drop n xs ++ ys ≡ drop n (xs ++ ys)
  drop-append zero xs ys h = refl
  drop-append (suc n) [] ys h = absurd (omega arith)
  drop-append (suc n) (x ∷ xs) ys h = drop-append n xs ys (omega arith)

  drop-nil : (n : ℕ) → drop {A = A} n [] ≡ []
  drop-nil zero = refl
  drop-nil (suc n) = refl

  drop-drop : (m n : ℕ) (xs : List A) → drop m (drop n xs) ≡ drop (n + m) xs
  drop-drop m zero xs = ap (λ k. drop k xs) (omega arith)
  drop-drop m (suc n) [] = drop-nil m ∙ sym (drop-nil (suc n + m))
  drop-drop m (suc n) (x ∷ xs) =
      let e : suc (n + m) ≡ suc n + m = omega arith in
      drop-drop m n xs ∙ ap (λ (k : ℕ). drop k (x ∷ xs)) e

  pub kept-fits : (n : ℕ) (xs : List A) → length xs ≤ n → kept n xs ≡ xs
  kept-fits n xs h = let z : length xs - n ≡ 0 = omega arith in rw z refl

  pub length-kept : (n : ℕ) (xs : List A) → length (kept n xs) ≤ n
  length-kept n xs = omega (arith, length-drop (length xs - n) xs)

  -- Keeping in steps is keeping at the end.
  pub kept-append : (n : ℕ) (xs ys : List A) → kept n (kept n xs ++ ys) ≡ kept n (xs ++ ys)
  kept-append n xs ys =
      let k : ℕ = length xs - n in
      let joined = drop-append k xs ys (omega arith) in
      let m : ℕ = length (kept n xs ++ ys) - n in
      let counts : k + m ≡ length (xs ++ ys) - n =
        omega (arith, length-append (kept n xs) ys, length-append xs ys, length-drop k xs) in
      ap (drop m) joined ∙ drop-drop m k (xs ++ ys) ∙ ap (λ j. drop j (xs ++ ys)) counts

  pub add_rear-kept :
      (a : A) (q : Fifo A)
      → length q.items ≤ q.uplimit
      → 0 < q.uplimit
      → (add_rear true a q).0 ≡ record q { items = kept q.uplimit (q.items ++ a ∷ []) }
  unfolding add_rear
  add_rear-kept a q fits positive = elim (Bool-cases (length q.items == q.uplimit)) [
    | inl full ↦
        let one : length (q.items ++ a ∷ []) - q.uplimit ≡ 1 =
          ground (arith, length-append q.items (a ∷ [])) in
        let front = drop-append 1 q.items (a ∷ []) (ground arith) in
        rw (full, one) (λ i. record q { items = front i })
    | inr room ↦
        let none_over : length (q.items ++ a ∷ []) - q.uplimit ≡ 0 =
          ground (arith, length-append q.items (a ∷ [])) in
        rw (room, none_over) refl
  ]

  mount_any :
      (limit : ℕ) (xs : List A) (m : Fifo A) (ys : List A)
      → length xs ≤ limit
      → m.items ≡ ys
      → let r = mount_rear (record { items = xs; uplimit = limit }) m in
        (r.0 ≡ record { items = kept limit (xs ++ ys); uplimit = limit })
        × (r.1 ≡ record m { items = [] })
  unfolding mount_rear
  mount_any limit xs m [] fits e =
      let same : kept limit (xs ++ []) ≡ xs = rw (append-nil xs) (kept-fits limit xs fits) in
      ground (arith, e, same)
  mount_any limit xs m (y ∷ ys) fits e = rw e (ground arith, ground arith)

  pub mount_rear-kept :
      (q m : Fifo A)
      → length q.items ≤ q.uplimit
      → ((mount_rear q m).0 ≡ record q { items = kept q.uplimit (q.items ++ m.items) })
        × ((mount_rear q m).1 ≡ record m { items = [] })
  mount_rear-kept q m fits = mount_any q.uplimit q.items m m.items fits refl
