-- ===== src/ConfigRef/Arrays.antt =====
-- What the array operations do behind a prefix that they leave alone.
use mathlib.Core.List.{append_assoc}
use smi240_android_hal.Prelude.{
  ℕ, suc, ◌+◌, ◌-◌, ◌^◌, ◌<◌, ◌≡◌, refl, ap, sym, ◌∙◌, true, ◌&&◌, Option, none, some, List, [],
  ◌∷◌, ◌++◌, arith, length, get_elem?, set, drop, take, length-append, ltb, leb,
}
use smi240_android_hal.ConfigRef.{
  memmove, write, rest_count, append_ref, insert_ref, delete_ref, u32,
}

abbrev pub Slots : Type 0
Slots = List (Option ℕ)

suc_add : (a b : ℕ) → suc a + b ≡ suc (a + b)
suc_add a b = omega arith

module _ {ℓ} {A : Type ℓ} where
  pub get_elem?-append : (p r : List A) (k : ℕ) → get_elem? (p ++ r) (length p + k) ≡ get_elem? r k
  get_elem?-append [] r k = ap (get_elem? r) (omega arith)
  get_elem?-append (x ∷ p) r k =
      ap (get_elem? (x ∷ (p ++ r))) (suc_add (length p) k) ∙ get_elem?-append p r k

  pub set-append : (p r : List A) (k : ℕ) (v : A) → set (p ++ r) (length p + k) v ≡ p ++ set r k v
  set-append [] r k v = ap (λ (i : ℕ). set r i v) (omega arith)
  set-append (x ∷ p) r k v =
      ap (λ (i : ℕ). set (x ∷ (p ++ r)) i v) (suc_add (length p) k)
      ∙ ap (◌∷◌ x) (set-append p r k v)

  pub take-append : (p r : List A) (k : ℕ) → take (length p + k) (p ++ r) ≡ p ++ take k r
  take-append [] r k = ap (λ (i : ℕ). take i r) (omega arith)
  take-append (x ∷ p) r k =
      ap (λ (i : ℕ). take i (x ∷ (p ++ r))) (suc_add (length p) k) ∙ ap (◌∷◌ x) (take-append p r k)

  pub drop-append : (p r : List A) (k : ℕ) → drop (length p + k) (p ++ r) ≡ drop k r
  drop-append [] r k = ap (λ (i : ℕ). drop i r) (omega arith)
  drop-append (x ∷ p) r k =
      ap (λ (i : ℕ). drop i (x ∷ (p ++ r))) (suc_add (length p) k) ∙ drop-append p r k

  -- The two sides of a list at its prefix's length.
  pub take-prefix : (p r : List A) → take (length p) (p ++ r) ≡ p
  take-prefix [] r = refl
  take-prefix (x ∷ p) r = ap (◌∷◌ x) (take-prefix p r)

  pub drop-prefix : (p r : List A) → drop (length p) (p ++ r) ≡ r
  drop-prefix [] r = refl
  drop-prefix (x ∷ p) r = drop-prefix p r

  pub set-prefix : (p r : List A) (x v : A) → set (p ++ x ∷ r) (length p) v ≡ p ++ v ∷ r
  set-prefix [] r x v = refl
  set-prefix (y ∷ p) r x v = ap (◌∷◌ y) (set-prefix p r x v)

  pub get_elem?-prefix : (p r : List A) (x : A) → get_elem? (p ++ x ∷ r) (length p) ≡ some x
  get_elem?-prefix [] r x = refl
  get_elem?-prefix (y ∷ p) r x = get_elem?-prefix p r x

  -- All but the last of `c ∷ m` is as long as `m`.
  pub drop_to_last : (c : A) (m r : List A) → (z : A) × (drop (length m) (c ∷ (m ++ r)) ≡ z ∷ r)
  drop_to_last c [] r = (c, refl)
  drop_to_last c (d ∷ m) r = drop_to_last d m r

rest_lem : (i n : ℕ) → rest_count (i + n) i ≡ some n
unfolding rest_count
rest_lem i n = ground arith

write_prefix : (p r : Slots) (x v : Option ℕ) → write (length p) v (p ++ x ∷ r) ≡ some (p ++ v ∷ r)
unfolding write
write_prefix p r x v =
    let inside : ltb (length p) (length (p ++ x ∷ r)) ≡ true =
      ground (arith, length-append p (x ∷ r)) in
    rw (inside, set-prefix p r x v)

pub append_ref_lem :
    (p r : Slots) (x : Option ℕ) (rel : ℕ)
    → length p + 1 < 2 ^ 32
    → append_ref (length p) rel (record { refs = p ++ x ∷ r; active_sensor_cnt = length p })
      ≡ some (record { refs = p ++ some rel ∷ r; active_sensor_cnt = length p + 1 }, 1)
unfolding append_ref
append_ref_lem p r x rel small = rw (write_prefix p r x (some rel)) (ground arith)

memmove_up :
    (p m r : Slots) (c x : Option ℕ)
    → memmove (length p + 1) (length p) (length (c ∷ m)) (p ++ ((c ∷ m) ++ x ∷ r))
      ≡ some (p ++ c ∷ ((c ∷ m) ++ r))
unfolding memmove
memmove_up p m r c x =
    let lengths = length-append p ((c ∷ m) ++ x ∷ r) in
    let lengths' = length-append (c ∷ m) (x ∷ r) in
    let inside : (leb (length p + length (c ∷ m)) (length (p ++ ((c ∷ m) ++ x ∷ r)))
          && leb (length p + 1 + length (c ∷ m)) (length (p ++ ((c ∷ m) ++ x ∷ r))))
        ≡ true =
      ground (arith, lengths, lengths') in
    let regroup : length p + 1 + length (c ∷ m) ≡ length p + (length (c ∷ m) + 1) = omega arith in
    let upper : drop (length p + 1 + length (c ∷ m)) (p ++ ((c ∷ m) ++ x ∷ r)) ≡ r =
      ap (λ (i : ℕ). drop i (p ++ ((c ∷ m) ++ x ∷ r))) regroup
      ∙ drop-append p ((c ∷ m) ++ x ∷ r) (length (c ∷ m) + 1)
      ∙ drop-append (c ∷ m) (x ∷ r) 1 in
    let lower : take (length p + 1) (p ++ ((c ∷ m) ++ x ∷ r)) ≡ p ++ c ∷ [] =
      take-append p ((c ∷ m) ++ x ∷ r) 1 in
    let moved : take (length (c ∷ m)) (drop (length p) (p ++ ((c ∷ m) ++ x ∷ r))) ≡ c ∷ m =
      ap (take (length (c ∷ m))) (drop-prefix p ((c ∷ m) ++ x ∷ r)) ∙ take-prefix (c ∷ m) (x ∷ r) in
    rw (inside, lower, upper, moved) (ap some (append_assoc p (c ∷ []) ((c ∷ m) ++ r)))

memmove_down :
    (p m r : Slots) (c : Option ℕ)
    → memmove (length p) (length p + 1) (length m) (p ++ (c ∷ (m ++ r)))
      ≡ some (p ++ (m ++ drop (length m) (c ∷ (m ++ r))))
unfolding memmove
memmove_down p m r c =
    let lengths = length-append p (c ∷ (m ++ r)) in
    let lengths' = length-append m r in
    let inside : (leb (length p + 1 + length m) (length (p ++ c ∷ (m ++ r)))
          && leb (length p + length m) (length (p ++ c ∷ (m ++ r))))
        ≡ true =
      ground (arith, lengths, lengths') in
    let upper : drop (length p + length m) (p ++ c ∷ (m ++ r)) ≡ drop (length m) (c ∷ (m ++ r)) =
      drop-append p (c ∷ (m ++ r)) (length m) in
    let moved : take (length m) (drop (length p + 1) (p ++ c ∷ (m ++ r))) ≡ m =
      ap (take (length m)) (drop-append p (c ∷ (m ++ r)) 1) ∙ take-prefix m r in
    rw (inside, take-prefix p (c ∷ (m ++ r)), upper, moved)

-- A reference goes in before slots that are full, of which the first free one takes the last.
pub insert_ref_lem :
    (p m r : Slots) (c x : Option ℕ) (rel : ℕ)
    → length p + length (c ∷ m) + 1 < 2 ^ 32
    → insert_ref
        (length p)
        rel
        (record { refs = p ++ ((c ∷ m) ++ x ∷ r); active_sensor_cnt = length p + length (c ∷ m) })
      ≡ some (
        record {
          refs = p ++ some rel ∷ ((c ∷ m) ++ r);
          active_sensor_cnt = length p + length (c ∷ m) + 1;
        },
        1,
      )
unfolding insert_ref
insert_ref_lem p m r c x rel small =
    let room : rest_count (length p + length (c ∷ m)) (length p) ≡ some (length (c ∷ m)) =
      rest_lem (length p) (length (c ∷ m)) in
    rw room
      (rw (memmove_up p m r c x) (rw (write_prefix p ((c ∷ m) ++ r) c (some rel)) (ground arith)))

-- The slots behind a reference close up, and the last one is cleared.
pub delete_ref_lem :
    (p m r : Slots) (c : Option ℕ)
    → length p + length (c ∷ m) < 2 ^ 32
    → delete_ref
        (length p)
        (record { refs = p ++ (c ∷ (m ++ r)); active_sensor_cnt = length p + length (c ∷ m) })
      ≡ some (record { refs = p ++ (m ++ none ∷ r); active_sensor_cnt = length p + length m }, 1)
unfolding delete_ref
delete_ref_lem p m r c small =
    let count : u32 (length p + length (c ∷ m) + (2 ^ 32 - 1)) ≡ length p + length m =
      omega arith in
    let room : rest_count (length p + length m) (length p) ≡ some (length m) =
      rest_lem (length p) (length m) in
    let (z, last) = drop_to_last c m r in
    let cleared : write (length p + length m) none (p ++ (m ++ z ∷ r))
        ≡ some (p ++ (m ++ none ∷ r)) =
      ap (λ (i : ℕ). write i none (p ++ (m ++ z ∷ r))) (sym (length-append p m))
      ∙ ap (write (length (p ++ m)) none) (sym (append_assoc p m (z ∷ r)))
      ∙ write_prefix (p ++ m) r z none
      ∙ ap some (append_assoc p m (none ∷ r)) in
    rw count (rw room (rw (memmove_down p m r c) (rw (last, cleared))))
