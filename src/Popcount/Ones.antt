-- ===== src/Popcount/Ones.antt =====
-- Each round of a count keeps the sum of the fields of the number, and the fields of the last round
-- are the number itself.
use native.Mathlib.Nat.{
  mod-lt, add-mul-mod_self_left, add-mul-div_left, mod-eq_of_lt, div-eq_of_lt, one-le-pow, pow-suc,
}
use smi240_android_hal.Prelude.{
  ℕ, zero, suc, ◌+◌, ◌-◌, ◌*◌, ◌/◌, ◌%◌, ◌^◌, ◌≤◌, ◌<◌, ◌≡◌, refl, arith, ap, ◌∙◌, sym, bit_and,
}
use smi240_android_hal.Popcount.{fold_bits, sensord_popcount_32, sensord_popcount_64}
use smi240_android_hal.Popcount.Digits.{bit_and-parts, bit_and-zero, bit_and-ones}

-- How many of the lowest `w` binary digits are 1.
unfoldable pub count_ones : ℕ → ℕ → ℕ
count_ones zero x = 0
count_ones (suc w) x = x % 2 + count_ones w (x / 2)

-- The sum of the lowest `n` digits of `x` in the base `p`.
unfoldable digit_sum : ℕ → ℕ → ℕ → ℕ
digit_sum p zero x = 0
digit_sum p (suc n) x = x % p + digit_sum p n (x / p)

-- `n` times `b` ones and `b` zeros, the ones lowest.
unfoldable mask : ℕ → ℕ → ℕ
mask b zero = 0
mask b (suc n) = 2 ^ b - 1 + 2 ^ b * (2 ^ b * mask b n)

-- The digits at the even positions, in the base 2 ^ b.
unfoldable evens : ℕ → ℕ → ℕ → ℕ
evens b zero x = 0
evens b (suc n) x = x % 2 ^ b + 2 ^ b * (2 ^ b * evens b n (x / 2 ^ b / 2 ^ b))

two_pow_pos : (b : ℕ) → 0 < 2 ^ b
two_pow_pos b = one-le-pow b 2 (omega arith)

bit_and-mask : (b n x : ℕ) → bit_and x (mask b n) ≡ evens b n x
unfolding mask evens
bit_and-mask b zero x = bit_and-zero x
bit_and-mask b (suc n) x =
    let rest = x / 2 ^ b in
    let high = bit_and-parts b rest 0 (mask b n) (two_pow_pos b) in
    let low = bit_and-parts b x (2 ^ b - 1) (2 ^ b * mask b n) (omega (arith, two_pow_pos b)) in
    let ones = bit_and-ones b (x % 2 ^ b) (mod-lt x (two_pow_pos b)) in
    let none_of = bit_and-zero (rest % 2 ^ b) in
    let none_left : 0 + 2 ^ b * mask b n ≡ 2 ^ b * mask b n = omega arith in
    let both : bit_and rest (2 ^ b * mask b n) ≡ 2 ^ b * evens b n (rest / 2 ^ b) =
      omega (arith, rw (none_left, bit_and-mask b n (rest / 2 ^ b), none_of) at high) in
    low ∙ λ i. ones i + 2 ^ b * both i

-- A round of a count, before its width is cut off.
unfoldable folded : ℕ → ℕ → ℕ → ℕ
unfolding evens
folded b n x = evens b n x + evens b n (x / 2 ^ b)

regroup : (p c d u v : ℕ) → (c + p * (p * u)) + (d + p * (p * v)) ≡ (c + d) + p * p * (u + v)
regroup p c d u v = grind arith

folded-suc :
    (b n x : ℕ)
    → folded b (suc n) x
      ≡ (x % 2 ^ b + x / 2 ^ b % 2 ^ b) + 2 ^ b * 2 ^ b * folded b n (x / 2 ^ b / 2 ^ b)
unfolding folded
folded-suc b n x =
    regroup (2 ^ b) (x % 2 ^ b) (x / 2 ^ b % 2 ^ b) (evens b n (x / 2 ^ b / 2 ^ b))
      (evens b n (x / 2 ^ b / 2 ^ b / 2 ^ b))

-- The two digits that a round adds leave room in a field of twice their width.
digits_fit : (p c d : ℕ) → 2 ≤ p → c < p → d < p → c + d < p * p
digits_fit p c d h k l = grind arith

digits-fit : (b x : ℕ) → 2 ≤ 2 ^ b → x % 2 ^ b + x / 2 ^ b % 2 ^ b < 2 ^ b * 2 ^ b
digits-fit b x h =
    digits_fit (2 ^ b) (x % 2 ^ b) (x / 2 ^ b % 2 ^ b) h (mod-lt x (two_pow_pos b))
      (mod-lt (x / 2 ^ b) (two_pow_pos b))

field_below : (q c w r : ℕ) → c < q → w < r → c + q * w < r * q
field_below q c w r h k = grind arith

folded-small : (b n x : ℕ) → 2 ≤ 2 ^ b → folded b n x < (2 ^ b * 2 ^ b) ^ n
unfolding folded evens
folded-small b zero x h = one-le-pow 0 (2 ^ b * 2 ^ b) (omega (arith, digits-fit b x h))
folded-small b (suc n) x h =
    rw (folded-suc b n x, pow-suc (2 ^ b * 2 ^ b) n)
      (field_below (2 ^ b * 2 ^ b) (x % 2 ^ b + x / 2 ^ b % 2 ^ b) (folded b n (x / 2 ^ b / 2 ^ b))
        ((2 ^ b * 2 ^ b) ^ n) (digits-fit b x h) (folded-small b n (x / 2 ^ b / 2 ^ b) h))

digit_sum-folded :
    (b n x : ℕ)
    → 2 ≤ 2 ^ b
    → digit_sum (2 ^ b * 2 ^ b) n (folded b n x) ≡ digit_sum (2 ^ b) (n + n) x
unfolding digit_sum
digit_sum-folded b zero x h = refl
digit_sum-folded b (suc n) x h =
    let q = 2 ^ b * 2 ^ b in
    let c = x % 2 ^ b + x / 2 ^ b % 2 ^ b in
    let rest = x / 2 ^ b / 2 ^ b in
    let w = folded b n rest in
    let fits : c < q = digits-fit b x h in
    let digit : folded b (suc n) x % q ≡ c =
      rw (folded-suc b n x) (add-mul-mod_self_left c q w ∙ mod-eq_of_lt fits) in
    let others : folded b (suc n) x / q ≡ w =
      rw (folded-suc b n x)
        (add-mul-div_left c w (omega (arith, fits)) ∙ omega (arith, div-eq_of_lt fits)) in
    let twice : suc n + suc n ≡ suc (suc (n + n)) = omega arith in
    rw (digit, others, digit_sum-folded b n rest h, twice) (omega arith)

-- A round keeps the sum of the fields.
digit_sum-fold_bits :
    (b n w x : ℕ)
    → 2 ≤ 2 ^ b
    → (2 ^ b * 2 ^ b) ^ n ≡ 2 ^ w
    → digit_sum (2 ^ b * 2 ^ b) n (fold_bits w (mask b n) b x) ≡ digit_sum (2 ^ b) (n + n) x
unfolding fold_bits folded
digit_sum-fold_bits b n w x h e =
    let small : folded b n x < 2 ^ w = rw e at (folded-small b n x h) in
    rw (bit_and-mask b n x, bit_and-mask b n (x / 2 ^ b))
      (ap (λ y. digit_sum (2 ^ b * 2 ^ b) n y) (mod-eq_of_lt small) ∙ digit_sum-folded b n x h)

digit_sum-count_ones : (n x : ℕ) → digit_sum 2 n x ≡ count_ones n x
unfolding digit_sum count_ones
digit_sum-count_ones zero x = refl
digit_sum-count_ones (suc n) x = λ i. x % 2 + digit_sum-count_ones n (x / 2) i

-- One digit is the number, if it is below the base.
digit_sum-one : (p x : ℕ) → x < p → digit_sum p 1 x ≡ x
unfolding digit_sum
digit_sum-one p x h = rw (mod-eq_of_lt h) (omega arith)

fold_bits-lt : (w m s x : ℕ) → fold_bits w m s x < 2 ^ w
unfolding fold_bits
fold_bits-lt w m s x = mod-lt (bit_and x m + bit_and (x / 2 ^ s) m) (two_pow_pos w)

abbrev round : ℕ → ℕ → ℕ → ℕ → ℕ
round w b n x = fold_bits w (mask b n) b x

rounds_32 :
    (x : ℕ)
    → round 32 16 1 (round 32 8 2 (round 32 4 4 (round 32 2 8 (round 32 1 16 x)))) ≡ count_ones 32 x
rounds_32 x =
    let x₁ = round 32 1 16 x in
    let x₂ = round 32 2 8 x₁ in
    let x₄ = round 32 4 4 x₂ in
    let x₈ = round 32 8 2 x₄ in
    sym (digit_sum-one (2 ^ 32) (round 32 16 1 x₈) (fold_bits-lt 32 (mask 16 1) 16 x₈))
    ∙ digit_sum-fold_bits 16 1 32 x₈ (omega arith) refl
    ∙ digit_sum-fold_bits 8 2 32 x₄ (omega arith) refl
    ∙ digit_sum-fold_bits 4 4 32 x₂ (omega arith) refl
    ∙ digit_sum-fold_bits 2 8 32 x₁ (omega arith) refl
    ∙ digit_sum-fold_bits 1 16 32 x (omega arith) refl
    ∙ digit_sum-count_ones 32 x

rounds_64 :
    (x : ℕ)
    → round 64 32 1 (round 64 16 2 (round 64 8 4 (round 64 4 8 (round 64 2 16 (round 64 1 32 x)))))
      ≡ count_ones 64 x
rounds_64 x =
    let x₁ = round 64 1 32 x in
    let x₂ = round 64 2 16 x₁ in
    let x₄ = round 64 4 8 x₂ in
    let x₈ = round 64 8 4 x₄ in
    let x₁₆ = round 64 16 2 x₈ in
    sym (digit_sum-one (2 ^ 64) (round 64 32 1 x₁₆) (fold_bits-lt 64 (mask 32 1) 32 x₁₆))
    ∙ digit_sum-fold_bits 32 1 64 x₁₆ (omega arith) refl
    ∙ digit_sum-fold_bits 16 2 64 x₈ (omega arith) refl
    ∙ digit_sum-fold_bits 8 4 64 x₄ (omega arith) refl
    ∙ digit_sum-fold_bits 4 8 64 x₂ (omega arith) refl
    ∙ digit_sum-fold_bits 2 16 64 x₁ (omega arith) refl
    ∙ digit_sum-fold_bits 1 32 64 x (omega arith) refl
    ∙ digit_sum-count_ones 64 x

-- For every number, sensord_popcount_32 gives how many of its lowest 32 binary digits are 1, and
-- sensord_popcount_64 how many of its lowest 64 are.
pub sensord_popcount-count_ones :
    (x : ℕ) → (sensord_popcount_32 x ≡ count_ones 32 x) × (sensord_popcount_64 x ≡ count_ones 64 x)
unfolding sensord_popcount_32 sensord_popcount_64 mask fold_bits
sensord_popcount-count_ones x = (rounds_32 x, rounds_64 x)
