-- ===== src/Scan/Print.antt =====
-- The decimal print of an integer, as the kernel driver writes it.
use native.Mathlib.Nat.{pow-suc}
use smi240_android_hal.Prelude.{
  ℕ, zero, suc, ◌+◌, ◌/◌, ◌%◌, ◌^◌, ◌<◌, ◌++◌, length, ap, ◌≤◌, ◌≡◌, refl, true, false, List, ◌∷◌,
  arith, ltb, inl, inr, Bool-cases,
}
use smi240_android_hal.Prelude.Int.{ℤ, pos, negsuc, pos_part, neg_part}
use smi240_android_hal.Scan.{scan_digits, is_digit, minus_sign}

-- The digits of `n` before `out`; `n` rounds are enough.
unfoldable pub digits_from : ℕ → ℕ → List ℕ → List ℕ
digits_from zero n out = (b'0' + n) ∷ out
digits_from (suc fuel) n out = elim (ltb n 10) [
  | true ↦ (b'0' + n) ∷ out
  | false ↦ digits_from fuel (n / 10) ((b'0' + n % 10) ∷ out)
]

abbrev pub print_nat : ℕ → List ℕ → List ℕ
print_nat n out = digits_from n n out

-- The print of `v`, followed by `out`.
unfoldable pub print : ℤ → List ℕ → List ℕ
unfolding digits_from
print (pos n) out = print_nat n out
print (negsuc n) out = minus_sign ∷ print_nat (suc n) out

-- A print begins with a digit.
pub digits_from_head :
    (fuel n : ℕ) (out : List ℕ)
    → n ≤ fuel
    → (c : ℕ) × (s : List ℕ) × (digits_from fuel n out ≡ c ∷ s) × (is_digit c ≡ true)
unfolding digits_from
digits_from_head zero n out h = (b'0' + n, out, refl, ground arith)
digits_from_head (suc fuel) n out h = elim (Bool-cases (ltb n 10)) [
  | inl e ↦ rw (e, digits_from) (b'0' + n, out, refl, ground arith)
  | inr e ↦ rw (e, digits_from) (digits_from_head fuel (n / 10) _ (ground arith))
]

-- Reading the digits of `n` is as reading on behind `n`.
pub scan_digits-digits_from :
    (fuel n : ℕ) (out : List ℕ)
    → n ≤ fuel
    → scan_digits 0 (digits_from fuel n out) ≡ scan_digits n out
unfolding digits_from scan_digits
scan_digits-digits_from zero n out h = ground arith
scan_digits-digits_from (suc fuel) n out h = elim (Bool-cases (ltb n 10)) [
  | inl e ↦ rw (e, digits_from) (ground arith)
  | inr e ↦
      rw (e, digits_from)
        (ground (arith, scan_digits-digits_from fuel (n / 10) ((b'0' + n % 10) ∷ out)))
]

-- Printing before `out ++ t` is printing before `out`.
digits_from-append :
    (fuel n : ℕ) (out t : List ℕ) → digits_from fuel n out ++ t ≡ digits_from fuel n (out ++ t)
unfolding digits_from
digits_from-append zero n out t = refl
digits_from-append (suc fuel) n out t = elim (Bool-cases (ltb n 10)) [
  | inl e ↦ rw (e, digits_from) refl
  | inr e ↦ rw (e, digits_from) (digits_from-append fuel (n / 10) ((b'0' + n % 10) ∷ out) t)
]

pub print-append : (v : ℤ) (out t : List ℕ) → print v out ++ t ≡ print v (out ++ t)
unfolding print
print-append (pos n) out t = digits_from-append n n out t
print-append (negsuc n) out t = ap (◌∷◌ minus_sign) (digits_from-append (suc n) (suc n) out t)

-- A number below 10^(k + 1) has at most k + 1 digits.
length-digits_from :
    (k fuel n : ℕ) (out : List ℕ)
    → n < 10 ^ suc k
    → n ≤ fuel
    → length (digits_from fuel n out) ≤ suc k + length out
unfolding digits_from
length-digits_from k zero n out h le = omega arith
length-digits_from zero (suc fuel) n out h le =
    let e : ltb n 10 ≡ true = ground (arith, pow-suc 10 0) in rw (e, digits_from) (omega arith)
length-digits_from (suc k) (suc fuel) n out h le = elim (Bool-cases (ltb n 10)) [
  | inl e ↦ rw (e, digits_from) (omega arith)
  | inr e ↦
      rw (e, digits_from)
        (omega (
          arith,
          length-digits_from k fuel (n / 10) ((b'0' + n % 10) ∷ out)
              (omega (arith, pow-suc 10 (suc k))) (ground arith),
        ))
]

-- A number that fits 32 bits takes at most eleven bytes.
pub length-print :
    (v : ℤ) (out : List ℕ)
    → pos_part v < 2 ^ 31
    → neg_part v ≤ 2 ^ 31
    → length (print v out) ≤ 11 + length out
unfolding print
length-print (pos n) out h k =
    omega (arith, length-digits_from 9 n n out (omega arith) (omega arith))
length-print (negsuc n) out h k =
    omega (arith, length-digits_from 9 (suc n) (suc n) out (omega arith) (omega arith))
