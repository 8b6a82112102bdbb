-- ===== src/Popcount/Digits.antt =====
-- `bit_and` by the lowest digit, and on blocks of digits.
use Prim.Native.Nat.{min, digits}
use smi240_android_hal.Prelude.{
  ℕ, zero, suc, ◌+◌, ◌-◌, ◌*◌, ◌/◌, ◌%◌, ◌^◌, ◌≤◌, ◌<◌, ◌≡◌, refl, arith, ap, sym, ◌∙◌, bit_and,
  bit_and-bitwise,
}
use native.Mathlib.Nat.{pow-suc, one-le-pow, mod-add-div, mod-lt}

abbrev and_digits : ℕ → ℕ → ℕ → ℕ
and_digits n a b = digits (λ _. zero) min n a b

-- The fuel of `digits` may be any number that is not below the first one.
and_digits-fuel : (k l x y : ℕ) → x ≤ k → x ≤ l → and_digits k x y ≡ and_digits l x y
and_digits-fuel zero zero x y h h' = refl
and_digits-fuel zero (suc l) zero y h h' = refl
and_digits-fuel (suc k) zero zero y h h' = refl
and_digits-fuel (suc k) (suc l) zero y h h' = refl
and_digits-fuel zero (suc l) (suc x) y h h' = absurd (omega arith)
and_digits-fuel (suc k) zero (suc x) y h h' = absurd (omega arith)
and_digits-fuel (suc k) (suc l) (suc x) y h h' = λ i.
    and_digits-fuel k l (suc x / 2) (y / 2) (omega arith) (omega arith) i * 2
    + min (suc x % 2) (y % 2)

bit_and-low : (x y : ℕ) → bit_and x y ≡ bit_and (x / 2) (y / 2) * 2 + min (x % 2) (y % 2)
bit_and-low zero y = simp bit_and-bitwise (omega arith)
bit_and-low (suc x) y = simp bit_and-bitwise (λ i.
    and_digits-fuel x (suc x / 2) (suc x / 2) (y / 2) (omega arith) (omega arith) i * 2
    + min (suc x % 2) (y % 2))

two_pow-suc : (k q : ℕ) → 2 ^ suc k * q ≡ 2 * (2 ^ k * q)
two_pow-suc k q = rw (pow-suc 2 k) (grind arith)

-- The lowest `k` digits and the others do not meet.
bit_and-blocks :
    (k r q s t : ℕ)
    → r < 2 ^ k
    → s < 2 ^ k
    → bit_and (r + 2 ^ k * q) (s + 2 ^ k * t) ≡ bit_and r s + 2 ^ k * bit_and q t
bit_and-blocks zero zero q zero t h l =
    let eq : 0 + 2 ^ 0 * q ≡ q = omega arith in
    let et : 0 + 2 ^ 0 * t ≡ t = omega arith in rw (eq, et) (omega (arith, bit_and-low 0 0))
bit_and-blocks zero (suc r) q s t h l = absurd (omega arith)
bit_and-blocks zero zero q (suc s) t h l = absurd (omega arith)
bit_and-blocks (suc k) r q s t h l =
    let ih =
      bit_and-blocks k (r / 2) q (s / 2) t (omega (arith, pow-suc 2 k))
        (omega (arith, pow-suc 2 k)) in
    let eq : (r + 2 ^ suc k * q) / 2 ≡ r / 2 + 2 ^ k * q = omega (arith, two_pow-suc k q) in
    let et : (s + 2 ^ suc k * t) / 2 ≡ s / 2 + 2 ^ k * t = omega (arith, two_pow-suc k t) in
    let pq : (r + 2 ^ suc k * q) % 2 ≡ r % 2 = omega (arith, two_pow-suc k q) in
    let pt : (s + 2 ^ suc k * t) % 2 ≡ s % 2 = omega (arith, two_pow-suc k t) in
    bit_and-low (r + 2 ^ suc k * q) (s + 2 ^ suc k * t)
    ∙ rw (eq, et, pq, pt, ih) (omega (arith, bit_and-low r s, two_pow-suc k (bit_and q t)))

and_digits-zero : (n a : ℕ) → and_digits n a 0 ≡ 0
and_digits-zero zero a = refl
and_digits-zero (suc n) zero = refl
and_digits-zero (suc n) (suc a) = omega (arith, and_digits-zero n (suc a / 2))

pub bit_and-zero : (a : ℕ) → bit_and a 0 ≡ 0
bit_and-zero a = simp bit_and-bitwise (and_digits-zero a a)

-- The mask of `k` ones keeps a number of `k` digits.
pub bit_and-ones : (k r : ℕ) → r < 2 ^ k → bit_and r (2 ^ k - 1) ≡ r
bit_and-ones zero zero h = refl
bit_and-ones zero (suc r) h = absurd (omega arith)
bit_and-ones (suc k) r h =
    let ih = bit_and-ones k (r / 2) (omega (arith, pow-suc 2 k)) in
    let half : (2 ^ suc k - 1) / 2 ≡ 2 ^ k - 1 = omega (arith, pow-suc 2 k, one-le-pow k 2) in
    let low : (2 ^ suc k - 1) % 2 ≡ 1 = omega (arith, pow-suc 2 k, one-le-pow k 2 (omega arith)) in
    bit_and-low r (2 ^ suc k - 1) ∙ rw (half, low, ih) (omega arith)

-- A mask of two parts keeps the two parts of a number apart.
pub bit_and-parts :
    (k x s t : ℕ)
    → s < 2 ^ k
    → bit_and x (s + 2 ^ k * t) ≡ bit_and (x % 2 ^ k) s + 2 ^ k * bit_and (x / 2 ^ k) t
bit_and-parts k x s t h =
    ap (λ y. bit_and y (s + 2 ^ k * t)) (sym (mod-add-div x (2 ^ k)))
    ∙ bit_and-blocks k (x % 2 ^ k) (x / 2 ^ k) s t (mod-lt x (one-le-pow k 2 (omega arith))) h
