-- ===== src/Prelude/Digits.antt =====
-- The binary digits of numbers, and of `&`, `|` and `~`.
use Prim.Native.Nat.{ℕ, zero, suc, ◌*◌, ◌/◌, ◌%◌, ◌^◌, ◌≤◌, ◌<◌, min, max, bit_and, bit_or, ◌-◌}
use mathlib.Core.Path.{◌≡◌, refl, ap}
use mathlib.Core.Logic.{◌⊎◌, ◌≢◌, inl, inr}
use native.Mathlib.Nat.{pow-suc, one-le-pow, div-div-eq-div-mul}
use native.Mathlib.Omega.{arith}
use waifu_os.Prelude.Bits.{bit_or_step, bit_and_step, pow_suc_left, double_pow, bit_and-zero}

-- The binary digit of `x` at place `k`.
abbrev pub digit : ℕ → ℕ → ℕ
digit k x = x / 2 ^ k % 2

digit-suc : (k x : ℕ) → digit (suc k) x ≡ digit k (x / 2)
digit-suc k x = rw (pow_suc_left k, ← div-div-eq-div-mul x 2 (2 ^ k))

pub digit-bit_or : (k a b : ℕ) → digit k (bit_or a b) ≡ max (digit k a) (digit k b)
digit-bit_or zero a b = omega (arith, bit_or_step a b)
digit-bit_or (suc k) a b =
    let half : bit_or a b / 2 ≡ bit_or (a / 2) (b / 2) = omega (arith, bit_or_step a b) in
    rw (digit-suc k (bit_or a b), digit-suc k a, digit-suc k b, half)
      (digit-bit_or k (a / 2) (b / 2))

pub digit-bit_and : (k a b : ℕ) → digit k (bit_and a b) ≡ min (digit k a) (digit k b)
digit-bit_and zero a b = omega (arith, bit_and_step a b)
digit-bit_and (suc k) a b =
    let half : bit_and a b / 2 ≡ bit_and (a / 2) (b / 2) = omega (arith, bit_and_step a b) in
    rw (digit-suc k (bit_and a b), digit-suc k a, digit-suc k b, half)
      (digit-bit_and k (a / 2) (b / 2))

-- A mask of one digit.
pub bit_and_power : (k x : ℕ) → bit_and x (2 ^ k) ≡ digit k x * 2 ^ k
bit_and_power zero x = omega (arith, bit_and_step x 1, bit_and-zero (x / 2))
bit_and_power (suc k) x =
    let half : 2 ^ suc k / 2 ≡ 2 ^ k = omega (arith, pow-suc 2 k) in
    let low : 2 ^ suc k % 2 ≡ 0 = omega (arith, pow-suc 2 k) in
    rw (bit_and_step x (2 ^ suc k), half, low, bit_and_power k (x / 2), digit-suc k x)
      (omega (arith, pow-suc 2 k, double_pow (digit k (x / 2)) k))

below_two : (d : ℕ) → d < 2 → (d ≡ 0) ⊎ (d ≡ 1)
below_two zero h = inl refl
below_two (suc zero) h = inr refl
below_two (suc (suc d)) h = absurd (omega arith)

pub bit_cases : (k x : ℕ) → (digit k x ≡ 0) ⊎ (digit k x ≡ 1)
bit_cases k x = below_two (digit k x) (omega arith)

-- The digits of `2 ^ n - 1 - x`, which is `~x` on `n` digits.
pub digit_complement : (n k x : ℕ) → k < n → x < 2 ^ n → digit k (2 ^ n - 1 - x) ≡ 1 - digit k x
digit_complement zero k x inside h = absurd (omega arith)
digit_complement (suc n) zero x inside h = ground (arith, pow-suc 2 n)
digit_complement (suc n) (suc k) x inside h =
    let half : (2 ^ suc n - 1 - x) / 2 ≡ 2 ^ n - 1 - x / 2 = omega (arith, pow-suc 2 n) in
    rw (digit-suc k (2 ^ suc n - 1 - x), half, digit-suc k x)
      (digit_complement n k (x / 2) (omega arith) (omega (arith, pow-suc 2 n)))

pub digit_power_same : (j : ℕ) → digit j (2 ^ j) ≡ 1
digit_power_same zero = refl
digit_power_same (suc j) =
    let half : 2 ^ suc j / 2 ≡ 2 ^ j = omega (arith, pow-suc 2 j) in
    rw (digit-suc j (2 ^ suc j), half) (digit_power_same j)

digit_zero : (k : ℕ) → digit k 0 ≡ 0
digit_zero zero = refl
digit_zero (suc k) = rw (digit-suc k 0) (digit_zero k)

pub digit_power_other : (k j : ℕ) → k ≢ j → digit k (2 ^ j) ≡ 0
digit_power_other zero zero h = absurd (h refl)
digit_power_other zero (suc j) h = omega (arith, pow-suc 2 j)
digit_power_other (suc k) zero h = rw (digit-suc k 1) (digit_zero k)
digit_power_other (suc k) (suc j) h =
    let half : 2 ^ suc j / 2 ≡ 2 ^ j = omega (arith, pow-suc 2 j) in
    rw (digit-suc k (2 ^ suc j), half) (digit_power_other k j (λ e. h (ap suc e)))

pub digit_ones : (n k : ℕ) → k < n → digit k (2 ^ n - 1) ≡ 1
digit_ones n k inside =
    let none_off : 2 ^ n - 1 - 0 ≡ 2 ^ n - 1 = omega arith in
    let one : 1 ≤ 2 ^ n = one-le-pow n 2 (omega arith) in
    let all : digit k (2 ^ n - 1 - 0) ≡ 1 - digit k 0 =
      digit_complement n k 0 inside (omega arith) in
    omega (arith, digit_zero k, all, ap (λ (y : ℕ). digit k y) none_off)
