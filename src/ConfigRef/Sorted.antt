-- ===== src/ConfigRef/Sorted.antt =====
-- Ordered sets of offsets, as strictly rising lists: what the arrays of active sensors stand for.
use smi240_android_hal.Prelude.{
  ℕ, ◌+◌, ◌≤◌, ◌<◌, ◌≡◌, refl, Bool, false, ◌||◌, ◌&&◌, not, List, [], ◌∷◌, arith, length, ltb,
  ◌==◌, if◌then◌else◌,
}

-- Strictly rising, from `lo` on, and below 32.
abbrev pub IsSorted : ℕ → List ℕ → Type 0
IsSorted lo [] = Unit {0}
IsSorted lo (x ∷ xs) = (lo ≤ x) × (x < 32) × IsSorted (x + 1) xs

unfoldable pub contains : ℕ → List ℕ → Bool
contains a [] = false
contains a (x ∷ xs) = (a == x) || contains a xs

unfoldable pub insert : ℕ → List ℕ → List ℕ
insert a [] = a ∷ []
insert a (x ∷ xs) = if ltb x a then x ∷ insert a xs else if x == a then x ∷ xs else a ∷ x ∷ xs

unfoldable pub erase : ℕ → List ℕ → List ℕ
erase a [] = []
erase a (x ∷ xs) = if x == a then xs else x ∷ erase a xs

pub length_of_IsSorted : (lo : ℕ) (xs : List ℕ) → lo ≤ 32 → IsSorted lo xs → lo + length xs ≤ 32
length_of_IsSorted lo [] h s = omega arith
length_of_IsSorted lo (x ∷ xs) h s = omega (arith, length_of_IsSorted (x + 1) xs (omega arith) s.2)

pub contains_below : (a lo : ℕ) (xs : List ℕ) → a < lo → IsSorted lo xs → contains a xs ≡ false
unfolding contains
contains_below a lo [] h s = refl
contains_below a lo (x ∷ xs) h s = ground (arith, contains_below a (x + 1) xs (omega arith) s.2)

pub insert-IsSorted :
    (a lo : ℕ) (xs : List ℕ) → lo ≤ a → a < 32 → IsSorted lo xs → IsSorted lo (insert a xs)
unfolding insert
insert-IsSorted a lo [] h k s = (h, k, tt)
insert-IsSorted a lo (x ∷ xs) h k s = ground (arith, insert-IsSorted a (x + 1) xs)

IsSorted-mono : (lo hi : ℕ) (xs : List ℕ) → lo ≤ hi → IsSorted hi xs → IsSorted lo xs
IsSorted-mono lo hi [] h s = tt
IsSorted-mono lo hi (x ∷ xs) h s = (omega arith, s.1, s.2)

pub erase-IsSorted : (a lo : ℕ) (xs : List ℕ) → IsSorted lo xs → IsSorted lo (erase a xs)
unfolding erase
erase-IsSorted a lo [] s = tt
erase-IsSorted a lo (x ∷ xs) s =
    ground (arith, erase-IsSorted a (x + 1) xs s.2, IsSorted-mono lo (x + 1) xs)

-- An insertion adds one element and no other.
pub contains-insert :
    (a b : ℕ) (xs : List ℕ) → contains b (insert a xs) ≡ ((b == a) || contains b xs)
unfolding contains insert
contains-insert a b [] = refl
contains-insert a b (x ∷ xs) = ground (arith, contains-insert a b xs)

-- An erasure takes one element away and no other.
pub contains-erase :
    (a b lo : ℕ) (xs : List ℕ)
    → IsSorted lo xs
    → contains b (erase a xs) ≡ (not (b == a) && contains b xs)
unfolding contains erase
contains-erase a b lo [] s = ground arith
contains-erase a b lo (x ∷ xs) s =
    ground (arith, contains-erase a b (x + 1) xs s.2, contains_below b (x + 1) xs)
