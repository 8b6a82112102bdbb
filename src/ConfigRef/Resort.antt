-- ===== src/ConfigRef/Resort.antt =====
-- One slot of the array, in each of the places that the loop of activate_configref_resort may meet.
use mathlib.Core.List.{append_assoc}
use smi240_android_hal.Prelude.{
  ℕ, suc, ◌+◌, ◌-◌, ◌≤◌, ◌<◌, ◌≡◌, refl, ap, sym, ◌∙◌, Bool, true, false, Option, none, some, List,
  [], ◌∷◌, ◌++◌, arith, length, replicate, ltb, ◌==◌, if◌then◌else◌, length-append,
}
use smi240_android_hal.ConfigRef.{Bank, resort_from, delete_ref, insert_ref}
use smi240_android_hal.ConfigRef.Arrays.{
  Slots, get_elem?-prefix, append_ref_lem, insert_ref_lem, delete_ref_lem,
}
use smi240_android_hal.ConfigRef.Sorted.{contains, insert, erase}

abbrev pub somes : List ℕ → Slots
somes [] = []
somes (x ∷ xs) = some x ∷ somes xs

-- The slots behind the first `n`: the offsets `xs`, and NULL up to the end.
abbrev pub filled : ℕ → List ℕ → Slots
filled n xs = somes xs ++ replicate (32 - n - length xs) none

-- An array whose first slots are `p`, with the offsets `xs` behind them.
abbrev pub bank_from : Slots → List ℕ → Bank
bank_from p xs = record {
  refs = p ++ filled (length p) xs;
  active_sensor_cnt = length p + length xs;
}

abbrev pub change : Bool → ℕ → List ℕ → List ℕ
change is_enable a xs = if is_enable then insert a xs else erase a xs

-- The call asks for a new configuration where the set has changed.
abbrev pub changed : Bool → ℕ → List ℕ → ℕ
changed is_enable a xs =
    if contains a xs then (if is_enable then 0 else 1) else if is_enable then 1 else 0

length-somes : (xs : List ℕ) → length (somes xs) ≡ length xs
length-somes [] = refl
length-somes (x ∷ xs) = ap suc (length-somes xs)

bank_shift :
    (p : Slots) (x : ℕ) (xs : List ℕ) → bank_from p (x ∷ xs) ≡ bank_from (p ++ some x ∷ []) xs
bank_shift p x xs =
    let e : length (p ++ some x ∷ []) ≡ length p + 1 =
      omega (arith, length-append p (some x ∷ [])) in
    let slots : 32 - (length p + 1) - length xs ≡ 32 - length p - suc (length xs) = omega arith in
    let count : length p + 1 + length xs ≡ length p + suc (length xs) = omega arith in
    rw (
      e,
      slots,
      count,
      append_assoc p (some x ∷ []) (somes xs ++ replicate (32 - length p - suc (length xs)) none),
    )

abbrev pub Resorts : ℕ → Slots → List ℕ → ℕ → Bool → Type 0
Resorts rounds p xs rel e =
    resort_from rounds (length p) rel e (bank_from p xs)
    ≡ some (bank_from p (change e rel xs), changed e rel xs)

pub at_end :
    (rounds : ℕ) (p : Slots) (rel : ℕ) (e : Bool)
    → suc rounds + length p ≡ 32
    → Resorts (suc rounds) p [] rel e
unfolding resort_from insert erase contains
at_end rounds p rel true fits =
    let room : 32 - length p - 0 ≡ suc (32 - length p - 1) = omega arith in
    let count : length p + 0 ≡ length p = omega arith in
    rw (room, count)
      (rw (get_elem?-prefix p (replicate (32 - length p - 1) none) none, resort_from)
        (append_ref_lem p (replicate (32 - length p - 1) none) none rel (omega arith)))
at_end rounds p rel false fits =
    let room : 32 - length p - 0 ≡ suc (32 - length p - 1) = omega arith in
    rw room (rw (get_elem?-prefix p (replicate (32 - length p - 1) none) none, resort_from))

delete_at :
    (p : Slots) (x : ℕ) (xs : List ℕ)
    → length p + length (x ∷ xs) ≤ 32
    → delete_ref (length p) (bank_from p (x ∷ xs)) ≡ some (bank_from p xs, 1)
delete_at p x xs small =
    let k = 32 - length p - suc (length xs) in
    let room : 32 - length p - length xs ≡ suc k = omega arith in
    rw room (
      rw (length-somes xs) at
        (delete_ref_lem p (somes xs) (replicate k none) (some x) (omega (arith, length-somes xs))))

insert_at :
    (p : Slots) (rel x : ℕ) (xs : List ℕ)
    → length p + length (x ∷ xs) < 32
    → insert_ref (length p) rel (bank_from p (x ∷ xs)) ≡ some (bank_from p (rel ∷ x ∷ xs), 1)
insert_at p rel x xs small =
    let k = 32 - length p - suc (suc (length xs)) in
    let room : 32 - length p - suc (length xs) ≡ suc k = omega arith in
    let count : length p + suc (suc (length xs)) ≡ length p + suc (length xs) + 1 = omega arith in
    rw (room, count)
      (rw (length-somes xs) at (
        insert_ref_lem p (somes xs) (replicate k none) (some x) none rel
          (omega (arith, length-somes xs))))

-- The slot of the sensor itself.
pub at_same :
    (rounds : ℕ) (p : Slots) (x : ℕ) (xs : List ℕ) (e : Bool)
    → length p + length (x ∷ xs) ≤ 32
    → Resorts (suc rounds) p (x ∷ xs) x e
unfolding resort_from insert erase contains
at_same rounds p x xs true small =
    let after : ltb x x ≡ false = ground arith in
    let same : (x == x) ≡ true = ground arith in
    rw (get_elem?-prefix p _ (some x), resort_from) (rw after (rw same))
at_same rounds p x xs false small =
    let after : ltb x x ≡ false = ground arith in
    let same : (x == x) ≡ true = ground arith in
    rw (get_elem?-prefix p _ (some x), resort_from) (rw after (rw same (delete_at p x xs small)))

contains_same : (x a : ℕ) (xs : List ℕ) → (a == x) ≡ false → contains a (x ∷ xs) ≡ contains a xs
unfolding contains
contains_same x a xs h = rw h

erase_absent : (a : ℕ) (xs : List ℕ) → contains a xs ≡ false → erase a xs ≡ xs
unfolding contains erase
erase_absent a [] h = refl
erase_absent a (x ∷ xs) h = ground (arith, erase_absent a xs)

-- A slot behind the place of the sensor.
pub behind :
    (rounds : ℕ) (p : Slots) (x : ℕ) (xs : List ℕ) (rel : ℕ) (e : Bool)
    → length p + length (x ∷ xs) < 32
    → rel < x
    → contains rel xs ≡ false
    → Resorts (suc rounds) p (x ∷ xs) rel e
unfolding resort_from insert
behind rounds p x xs rel true small lt absent =
    let after : ltb x rel ≡ false = ground arith in
    let other : (x == rel) ≡ false = ground arith in
    let other' : (rel == x) ≡ false = ground arith in
    rw (get_elem?-prefix p _ (some x), resort_from)
      (rw after (rw (other, contains_same x rel xs other', absent) (insert_at p rel x xs small)))
behind rounds p x xs rel false small lt absent =
    let after : ltb x rel ≡ false = ground arith in
    let other : (x == rel) ≡ false = ground arith in
    let other' : (rel == x) ≡ false = ground arith in
    let absent' : contains rel (x ∷ xs) ≡ false = contains_same x rel xs other' ∙ absent in
    rw (erase_absent rel (x ∷ xs) absent', absent')
      (rw (get_elem?-prefix p _ (some x), resort_from) (rw after (rw other)))

change_past :
    (e : Bool) (x rel : ℕ) (xs : List ℕ) → x < rel → change e rel (x ∷ xs) ≡ x ∷ change e rel xs
unfolding insert erase
change_past e x rel xs h = ground arith

changed_past :
    (e : Bool) (x rel : ℕ) (xs : List ℕ) → x < rel → changed e rel (x ∷ xs) ≡ changed e rel xs
unfolding contains
changed_past e x rel xs h = ground arith

with_code : ℕ → Bank → Option (Bank × ℕ)
with_code code b = some (b, code)

-- A slot before the place of the sensor is passed over.
pub past :
    (rounds : ℕ) (p : Slots) (x : ℕ) (xs : List ℕ) (rel : ℕ) (e : Bool)
    → x < rel
    → Resorts rounds (p ++ some x ∷ []) xs rel e
    → Resorts (suc rounds) p (x ∷ xs) rel e
unfolding resort_from with_code
past rounds p x xs rel e lt rest =
    let before : ltb x rel ≡ true = ground arith in
    let next : length p + 1 ≡ length (p ++ some x ∷ []) =
      omega (arith, length-append p (some x ∷ [])) in
    rw (change_past e x rel xs lt, changed_past e x rel xs lt)
      (rw (get_elem?-prefix p _ (some x), resort_from)
        (rw before (
          (λ i. resort_from rounds (next i) rel e (bank_shift p x xs i))
          ∙ rest
          ∙ ap (with_code (changed e rel xs)) (sym (bank_shift p x (change e rel xs))))))
