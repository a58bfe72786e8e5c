-- ===== src/Prelude/Bits.antt =====
-- `&` and `|` by digits: each acts on the fields of a number apart.
use Prim.Native.Nat.{
  ℕ, zero, suc, ◌+◌, ◌*◌, ◌/◌, ◌%◌, ◌^◌, ◌≤◌, ◌<◌, min, max, bit_and, bit_or, digits, bitwise,
  bit_and-bitwise, bit_or-bitwise, ◌-◌,
}
use mathlib.Core.Path.{◌≡◌, refl, ap, ◌∙◌}
use mathlib.Core.Logic.{inl, inr}
use native.Mathlib.Nat.{pow-suc, one-le-pow, div-add-mod', mod-lt}
use waifu_os.Prelude.Tests.{Bool-cases, leb, leb→le}
use native.Mathlib.Omega.{arith}

-- Both operations are made of the digits of their arguments, with the first one as fuel.
module _ (rest : ℕ → ℕ) (join : ℕ → ℕ → ℕ) where
  one_less : (a b fuel : ℕ) → a ≤ fuel → digits rest join (suc fuel) a b ≡ digits rest join fuel a b
  one_less zero b zero h = refl
  one_less zero b (suc fuel) h = refl
  one_less (suc a) b zero h = absurd (omega arith)
  one_less (suc a) b (suc fuel) h =
      ap (λ (t : ℕ). t * 2 + join (suc a % 2) (b % 2))
        (one_less (suc a / 2) (b / 2) fuel (omega arith))

  any_less :
      (spare fuel a b : ℕ)
      → a ≤ fuel
      → fuel ≤ spare
      → digits rest join spare a b ≡ digits rest join fuel a b
  any_less zero zero a b h g = refl
  any_less zero (suc fuel) a b h g = absurd (omega arith)
  any_less (suc spare) fuel a b h g = elim (Bool-cases (leb fuel spare)) [
    | inl below ↦
        let g' : fuel ≤ spare = leb→le fuel spare below in
        one_less a b spare (omega arith) ∙ any_less spare fuel a b h g'
    | inr above ↦ let same : fuel ≡ suc spare = ground arith in rw same refl
  ]

  bitwise_unroll :
      (a b : ℕ)
      → join (suc a % 2) (b % 2) + 2 * bitwise rest join (suc a / 2) (b / 2)
        ≡ bitwise rest join (suc a) b
  bitwise_unroll a b =
      omega (arith, any_less a (suc a / 2) (suc a / 2) (b / 2) (omega arith) (omega arith))

pub bit_or_step : (a b : ℕ) → bit_or a b ≡ bit_or (a / 2) (b / 2) * 2 + max (a % 2) (b % 2)
bit_or_step zero b = omega (arith, bit_or-bitwise 0 b, bit_or-bitwise 0 (b / 2))
bit_or_step (suc a) b = omega (
  arith,
  bitwise_unroll (λ rest. rest) max a b,
  bit_or-bitwise (suc a) b,
  bit_or-bitwise (suc a / 2) (b / 2),
)

pub bit_and_step : (a b : ℕ) → bit_and a b ≡ bit_and (a / 2) (b / 2) * 2 + min (a % 2) (b % 2)
bit_and_step zero b = omega (arith, bit_and-bitwise 0 b, bit_and-bitwise 0 (b / 2))
bit_and_step (suc a) b = omega (
  arith,
  bitwise_unroll (λ rest. 0) min a b,
  bit_and-bitwise (suc a) b,
  bit_and-bitwise (suc a / 2) (b / 2),
)

pub pow_suc_left : (k : ℕ) → 2 ^ suc k ≡ 2 * 2 ^ k
pow_suc_left k = omega (arith, pow-suc 2 k)

pub double_pow : (q k : ℕ) → q * 2 ^ suc k ≡ 2 * (q * 2 ^ k)
double_pow q k = omega (arith, ap (λ (t : ℕ). q * t) (pow-suc 2 k))

scale_one : (a : ℕ) → a * 2 ^ 0 + 0 ≡ a
scale_one a = omega arith

-- The low `k` digits and the others are independent.
pub bit_and_split :
    (k a b r s : ℕ)
    → r < 2 ^ k
    → s < 2 ^ k
    → bit_and (a * 2 ^ k + r) (b * 2 ^ k + s) ≡ bit_and a b * 2 ^ k + bit_and r s
bit_and_split zero a b zero zero hr hs = rw (scale_one a, scale_one b) (omega arith)
bit_and_split zero a b zero (suc s) hr hs = absurd (omega arith)
bit_and_split zero a b (suc r) s hr hs = absurd (omega arith)
bit_and_split (suc k) a b r s hr hs = ground (
  arith,
  bit_and_step (a * 2 ^ suc k + r) (b * 2 ^ suc k + s),
  bit_and_step r s,
  double_pow a k,
  double_pow b k,
  double_pow (bit_and a b) k,
  pow-suc 2 k,
  bit_and_split k a b (r / 2) (s / 2) (omega (arith, pow-suc 2 k)) (omega (arith, pow-suc 2 k)),
)

pub bit_or_split :
    (k a b r s : ℕ)
    → r < 2 ^ k
    → s < 2 ^ k
    → bit_or (a * 2 ^ k + r) (b * 2 ^ k + s) ≡ bit_or a b * 2 ^ k + bit_or r s
bit_or_split zero a b zero zero hr hs = rw (scale_one a, scale_one b) (omega arith)
bit_or_split zero a b zero (suc s) hr hs = absurd (omega arith)
bit_or_split zero a b (suc r) s hr hs = absurd (omega arith)
bit_or_split (suc k) a b r s hr hs = ground (
  arith,
  bit_or_step (a * 2 ^ suc k + r) (b * 2 ^ suc k + s),
  bit_or_step r s,
  double_pow a k,
  double_pow b k,
  double_pow (bit_or a b) k,
  pow-suc 2 k,
  bit_or_split k a b (r / 2) (s / 2) (omega (arith, pow-suc 2 k)) (omega (arith, pow-suc 2 k)),
)

zero_masks : (bound a : ℕ) → a < bound → (bit_and a 0 ≡ 0) × (bit_or a 0 ≡ a)
zero_masks zero a below = absurd (omega arith)
zero_masks (suc bound) zero below = (refl, refl)
zero_masks (suc bound) (suc a) below =
    let half = zero_masks bound (suc a / 2) (omega arith) in
    (omega (arith, half.0, bit_and_step (suc a) 0), omega (arith, half.1, bit_or_step (suc a) 0))

pub bit_and-zero : (a : ℕ) → bit_and a 0 ≡ 0
bit_and-zero a = (zero_masks (suc a) a (omega arith)).0

pub bit_or-zero : (a : ℕ) → bit_or a 0 ≡ a
bit_or-zero a = (zero_masks (suc a) a (omega arith)).1

pub zero-bit_or : (a : ℕ) → bit_or 0 a ≡ a
zero-bit_or a = omega (arith, bit_or-bitwise 0 a)

-- A mask of `k` ones keeps what fits `k` digits.
pub bit_and_ones : (k r : ℕ) → r < 2 ^ k → bit_and r (2 ^ k - 1) ≡ r
bit_and_ones zero zero h = refl
bit_and_ones zero (suc r) h = absurd (omega arith)
bit_and_ones (suc k) r h = ground (
  arith,
  pow-suc 2 k,
  one-le-pow k 2,
  bit_and_step r (2 ^ suc k - 1),
  bit_and_ones k (r / 2) (omega (arith, pow-suc 2 k)),
)

pub bit_and-lt : (k a b : ℕ) → a < 2 ^ k → bit_and a b < 2 ^ k
bit_and-lt zero zero b h = omega (arith, bit_and-bitwise 0 b)
bit_and-lt zero (suc a) b h = absurd (omega arith)
bit_and-lt (suc k) a b h =
    ground (arith, pow-suc 2 k, bit_and_step a b, bit_and-lt k (a / 2) (b / 2))

pub bit_or-lt : (k a b : ℕ) → a < 2 ^ k → b < 2 ^ k → bit_or a b < 2 ^ k
bit_or-lt zero zero zero h g = omega arith
bit_or-lt zero zero (suc b) h g = absurd (omega arith)
bit_or-lt zero (suc a) b h g = absurd (omega arith)
bit_or-lt (suc k) a b h g =
    ground (arith, pow-suc 2 k, bit_or_step a b, bit_or-lt k (a / 2) (b / 2))

-- Two parts that share no digit.
pub bit_or_join : (k a r : ℕ) → r < 2 ^ k → bit_or r (a * 2 ^ k) ≡ a * 2 ^ k + r
bit_or_join k a r h =
    let one : 1 ≤ 2 ^ k = one-le-pow k 2 (omega arith) in
    let left : 0 * 2 ^ k + r ≡ r = omega arith in
    let right : a * 2 ^ k + 0 ≡ a * 2 ^ k = omega arith in
    let split = bit_or_split k 0 a r 0 h (omega arith) in
    cc (
      split,
      ap (λ (y : ℕ). bit_or y (a * 2 ^ k + 0)) left,
      ap (λ (y : ℕ). bit_or r y) right,
      zero-bit_or a,
      bit_or-zero r,
    )

-- A mask that is given by its two parts.
pub bit_and_parts :
    (k x m n : ℕ)
    → n < 2 ^ k
    → bit_and x (m * 2 ^ k + n) ≡ bit_and (x / 2 ^ k) m * 2 ^ k + bit_and (x % 2 ^ k) n
bit_and_parts k x m n h =
    let one : 1 ≤ 2 ^ k = one-le-pow k 2 (omega arith) in
    let low : x % 2 ^ k < 2 ^ k = mod-lt x (omega arith) in
    cc (
      bit_and_split k (x / 2 ^ k) m (x % 2 ^ k) n low h,
      ap (λ (y : ℕ). bit_and y (m * 2 ^ k + n)) (div-add-mod' x (2 ^ k)),
    )

pub bit_and_mask : (k x : ℕ) → bit_and x (2 ^ k - 1) ≡ x % 2 ^ k
bit_and_mask k x =
    let one : 1 ≤ 2 ^ k = one-le-pow k 2 (omega arith) in
    let low : x % 2 ^ k < 2 ^ k = mod-lt x (omega arith) in
    let ones : 0 * 2 ^ k + (2 ^ k - 1) ≡ 2 ^ k - 1 = omega arith in
    let split = bit_and_parts k x 0 (2 ^ k - 1) (omega arith) in
    let whole : bit_and x (2 ^ k - 1)
        ≡ bit_and (x / 2 ^ k) 0 * 2 ^ k + bit_and (x % 2 ^ k) (2 ^ k - 1) =
      cc (split, ap (λ (y : ℕ). bit_and x y) ones) in
    rw (whole, bit_and-zero (x / 2 ^ k), bit_and_ones k (x % 2 ^ k) low) (omega arith)

-- The same with the high part first.
pub bit_or_high : (k a r : ℕ) → r < 2 ^ k → bit_or (a * 2 ^ k) r ≡ a * 2 ^ k + r
bit_or_high k a r h =
    let one : 1 ≤ 2 ^ k = one-le-pow k 2 (omega arith) in
    let left : a * 2 ^ k + 0 ≡ a * 2 ^ k = omega arith in
    let right : 0 * 2 ^ k + r ≡ r = omega arith in
    cc (
      bit_or_split k a 0 0 r (omega arith) h,
      ap (λ (y : ℕ). bit_or y (0 * 2 ^ k + r)) left,
      ap (λ (y : ℕ). bit_or (a * 2 ^ k) y) right,
      bit_or-zero a,
      zero-bit_or r,
    )
