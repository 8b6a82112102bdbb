-- ===== src/Acquire/Image.antt =====
-- The contract of the list, where its entries are the addresses of others.
use smi240_android_hal.Prelude.{
  ℕ, zero, suc, ◌-◌, ◌≡◌, refl, ap, ◌∙◌, sym, Bool, true, false, List, [], ◌∷◌, ◌++◌, arith, map,
  length, drop, ◌==◌, Bool-cases, inl, inr,
}
use mathlib.Core.List.{map-append}
use smi240_android_hal.SimpleList.Fifo.{Fifo, add_rear, mount_rear}
use smi240_android_hal.Algo.Process.{length-map}

module _ {A B : Type 0} (f : A → B) where
  -- The queue of what the addresses point to.
  abbrev pub image : Fifo A → Fifo B
  image q = record { items = map f q.items; uplimit = q.uplimit }

  map-drop : (n : ℕ) (xs : List A) → drop n (map f xs) ≡ map f (drop n xs)
  map-drop zero xs = refl
  map-drop (suc n) [] = refl
  map-drop (suc n) (x ∷ xs) = map-drop n xs

  pub add_rear-image :
      (ok : Bool) (a : A) (q : Fifo A) → (add_rear ok (f a) (image q)).0 ≡ image (add_rear ok a q).0
  unfolding add_rear
  add_rear-image false a q = refl
  add_rear-image true a q = elim (Bool-cases (length q.items == q.uplimit)) [
    | inl full ↦
        let full' : (length (map f q.items) == q.uplimit) ≡ true =
          ap (λ n. n == q.uplimit) (length-map f q.items) ∙ full in
        let items : drop 1 (map f q.items) ++ f a ∷ [] ≡ map f (drop 1 q.items ++ a ∷ []) =
          ap (λ xs. xs ++ f a ∷ []) (map-drop 1 q.items)
          ∙ sym (map-append f (drop 1 q.items) (a ∷ [])) in
        rw (full, full') (λ i. record { items = items i; uplimit = q.uplimit })
    | inr room ↦
        let room' : (length (map f q.items) == q.uplimit) ≡ false =
          ap (λ n. n == q.uplimit) (length-map f q.items) ∙ room in
        let items = sym (map-append f q.items (a ∷ [])) in
        rw (room, room') (λ i. record { items = items i; uplimit = q.uplimit })
  ]

  -- What a queue keeps of two.
  join-image :
      (n : ℕ) (xs ys : List A)
      → drop (length (map f xs ++ map f ys) - n) (map f xs ++ map f ys)
        ≡ map f (drop (length (xs ++ ys) - n) (xs ++ ys))
  join-image n xs ys =
      ap (λ zs. drop (length zs - n) zs) (sym (map-append f xs ys))
      ∙ ap (λ k. drop (k - n) (map f (xs ++ ys))) (length-map f (xs ++ ys))
      ∙ map-drop (length (xs ++ ys) - n) (xs ++ ys)

  mount-image :
      (xs ys : List A) (a b : ℕ)
      → let q : Fifo A = record { items = xs; uplimit = a } in
        let m : Fifo A = record { items = ys; uplimit = b } in
        ((mount_rear (image q) (image m)).0 ≡ image (mount_rear q m).0)
        × ((mount_rear (image q) (image m)).1 ≡ image (mount_rear q m).1)
  unfolding mount_rear
  mount-image xs [] a b = (refl, refl)
  mount-image xs (y ∷ ys) a b =
      let here : (suc (length ys) == 0) ≡ false = ground arith in
      let there : (suc (length (map f ys)) == 0) ≡ false = ground arith in
      rw (here, there) ((λ i. record { items = join-image a xs (y ∷ ys) i; uplimit = a }), refl)

  pub mount_rear-image :
      (q m : Fifo A)
      → ((mount_rear (image q) (image m)).0 ≡ image (mount_rear q m).0)
        × ((mount_rear (image q) (image m)).1 ≡ image (mount_rear q m).1)
  mount_rear-image q m = mount-image q.items m.items q.uplimit m.uplimit
