-- ===== src/Paging/Fields.antt =====
-- The address and the flags of a page table entry are independent.
use waifu_os.Prelude.{
  ℕ, ◌+◌, ◌-◌, ◌*◌, ◌/◌, ◌%◌, ◌^◌, ◌≤◌, ◌<◌, bit_and, min, max, ◌≡◌, refl, ◌≢◌, inl, inr, Bool,
  true, false, arith, ◌==◌, if◌then◌else◌, ==_iff, Bool-cases, u64, ◌<<<◌,
}
use waifu_os.Prelude.Bits.{
  bit_or_split, bit_and_ones, bit_and_parts, bit_or_join, bit_and-zero, bit_or-zero, bit_and_mask,
}
use waifu_os.Prelude.Digits.{
  digit, digit-bit_or, digit-bit_and, bit_and_power, bit_cases, digit_complement, digit_power_same,
  digit_power_other, digit_ones,
}
use native.Mathlib.Nat.{one-le-pow}
use waifu_os.Paging.{
  PtFlag, present, read_write, user_super, write_through, cache_disabled, accessed, larger_pages,
  custom0, custom1, custom2, nx, flag_digit, flag_value, not64, set_flag, get_flag, set_address,
  get_address,
}

abbrev pub same_flag : PtFlag → PtFlag → Bool
same_flag f g = flag_digit f == flag_digit g

get_flag-digit : (e : ℕ) (f : PtFlag) → get_flag e f ≡ (digit (flag_digit f) e == 1)
unfolding get_flag
get_flag-digit e f =
    let one : 1 ≤ flag_value f = one-le-pow (flag_digit f) 2 (omega arith) in
    let no : 0 * flag_value f ≡ 0 = omega arith in
    let yes : ((1 * flag_value f) == 0) ≡ false = ground arith in
    elim (bit_cases (flag_digit f) e) [
      | inl off ↦ rw (bit_and_power (flag_digit f) e, off, no) refl
      | inr on ↦ rw (bit_and_power (flag_digit f) e, on, yes) refl
    ]

flag_digit-lt : (f : PtFlag) → flag_digit f < 64
flag_digit-lt present = omega arith
flag_digit-lt read_write = omega arith
flag_digit-lt user_super = omega arith
flag_digit-lt write_through = omega arith
flag_digit-lt cache_disabled = omega arith
flag_digit-lt accessed = omega arith
flag_digit-lt larger_pages = omega arith
flag_digit-lt custom0 = omega arith
flag_digit-lt custom1 = omega arith
flag_digit-lt custom2 = omega arith
flag_digit-lt nx = omega arith

pub flag_value-lt : (f : PtFlag) → flag_value f < 2 ^ 64
flag_value-lt present = omega arith
flag_value-lt read_write = omega arith
flag_value-lt user_super = omega arith
flag_value-lt write_through = omega arith
flag_value-lt cache_disabled = omega arith
flag_value-lt accessed = omega arith
flag_value-lt larger_pages = omega arith
flag_value-lt custom0 = omega arith
flag_value-lt custom1 = omega arith
flag_value-lt custom2 = omega arith
flag_value-lt nx = omega arith

-- The digits of the entry after `SetFlag`, whatever the argument `value` is.
set_flag-digit :
    (k e : ℕ) (f : PtFlag) (v : Bool)
    → k < 64
    → digit k (set_flag e f v)
      ≡ max (min (digit k e) (1 - digit k (flag_value f))) (min (digit k (flag_value f)) 1)
unfolding set_flag
set_flag-digit k e f v inside =
    let small : flag_value f < 2 ^ 64 = flag_value-lt f in
    rw
      (
        digit-bit_or k (bit_and e (not64 (flag_value f))) (bit_and (flag_value f) (2 ^ 64 - 1)),
        digit-bit_and k e (not64 (flag_value f)),
        digit-bit_and k (flag_value f) (2 ^ 64 - 1),
        digit_complement 64 k (flag_value f) inside small,
        digit_ones 64 k inside,
      )
      refl

set_flag-digit_same : (e : ℕ) (f : PtFlag) (v : Bool) → digit (flag_digit f) (set_flag e f v) ≡ 1
set_flag-digit_same e f v =
    omega (
      arith,
      set_flag-digit (flag_digit f) e f v (flag_digit-lt f),
      digit_power_same (flag_digit f),
    )

set_flag-digit_other :
    (k e : ℕ) (f : PtFlag) (v : Bool)
    → k < 64
    → k ≢ flag_digit f
    → digit k (set_flag e f v) ≡ digit k e
set_flag-digit_other k e f v inside other =
    omega (arith, set_flag-digit k e f v inside, digit_power_other k (flag_digit f) other)

-- After `SetFlag(flag, value)`, with `true` or with `false`, the flag is set, and each other flag
-- reads as it did before.
pub get_flag-set_flag :
    (e : ℕ) (f g : PtFlag) (value : Bool)
    → get_flag (set_flag e f value) g ≡ (if same_flag f g then true else get_flag e g)
get_flag-set_flag e f g v = elim (Bool-cases (same_flag f g)) [
  | inl same ↦
      let at : flag_digit f ≡ flag_digit g = (==_iff (flag_digit f) (flag_digit g)).0 same in
      rw (same, get_flag-digit (set_flag e f v) g, ← at, set_flag-digit_same e f v) refl
  | inr other ↦
      rw
        (
          other,
          get_flag-digit (set_flag e f v) g,
          get_flag-digit e g,
          set_flag-digit_other (flag_digit g) e f v (flag_digit-lt g) (ground arith),
        )
        refl
]

keep_ends :
    (e : ℕ) → e < 2 ^ 64 → bit_and e 0xFFF0_0000_0000_0FFF ≡ e / 2 ^ 52 * 2 ^ 52 + e % 2 ^ 12
keep_ends e h =
    let low : e % 2 ^ 52 % 2 ^ 12 ≡ e % 2 ^ 12 = omega arith in
    rw
      (
        bit_and_parts 52 e (2 ^ 12 - 1) (2 ^ 12 - 1) (omega arith),
        bit_and_ones 12 (e / 2 ^ 52) (omega arith),
        bit_and_mask 12 (e % 2 ^ 52),
        low,
      )
      refl

pub set_address_fields :
    (e a : ℕ)
    → e < 2 ^ 64
    → set_address e a ≡ e / 2 ^ 52 * 2 ^ 52 + a % 2 ^ 40 * 2 ^ 12 + e % 2 ^ 12
unfolding set_address
set_address_fields e a h =
    let mask : bit_and a 0x0000_00FF_FFFF_FFFF ≡ a % 2 ^ 40 = bit_and_mask 40 a in
    let outer =
      bit_or_split 52 (e / 2 ^ 52) 0 (e % 2 ^ 12) (a % 2 ^ 40 * 2 ^ 12) (omega arith)
        (omega arith) in
    let place : u64 ((a % 2 ^ 40) <<< 12) ≡ 0 * 2 ^ 52 + a % 2 ^ 40 * 2 ^ 12 = omega arith in
    rw
      (
        keep_ends e h,
        mask,
        place,
        outer,
        bit_or-zero (e / 2 ^ 52),
        bit_or_join 12 (a % 2 ^ 40) (e % 2 ^ 12) (omega arith),
      )
      (omega arith)

pub get_address_field : (e : ℕ) → get_address e ≡ e / 2 ^ 12 % 2 ^ 40
unfolding get_address
get_address_field e =
    rw
      (
        bit_and_parts 12 e (2 ^ 40 - 1) 0 (omega arith),
        bit_and_mask 40 (e / 2 ^ 12),
        bit_and-zero (e % 2 ^ 12),
      )
      (omega arith)

set_address-digit :
    (e a : ℕ) (f : PtFlag)
    → e < 2 ^ 64
    → digit (flag_digit f) (set_address e a) ≡ digit (flag_digit f) e
set_address-digit e a present h = rw (set_address_fields e a h) (omega arith)
set_address-digit e a read_write h = rw (set_address_fields e a h) (omega arith)
set_address-digit e a user_super h = rw (set_address_fields e a h) (omega arith)
set_address-digit e a write_through h = rw (set_address_fields e a h) (omega arith)
set_address-digit e a cache_disabled h = rw (set_address_fields e a h) (omega arith)
set_address-digit e a accessed h = rw (set_address_fields e a h) (omega arith)
set_address-digit e a larger_pages h = rw (set_address_fields e a h) (omega arith)
set_address-digit e a custom0 h = rw (set_address_fields e a h) (omega arith)
set_address-digit e a custom1 h = rw (set_address_fields e a h) (omega arith)
set_address-digit e a custom2 h = rw (set_address_fields e a h) (omega arith)
set_address-digit e a nx h = rw (set_address_fields e a h) (omega arith)

-- `SetAddress` on a 64-bit entry stores the low forty digits of the frame number, which
-- `GetAddress` returns, and keeps every flag.
pub set_address_lem :
    (e a : ℕ)
    → e < 2 ^ 64
    → (get_address (set_address e a) ≡ a % 2 ^ 40)
      × ((f : PtFlag) → get_flag (set_address e a) f ≡ get_flag e f)
set_address_lem e a h = (
  rw (get_address_field (set_address e a), set_address_fields e a h) (omega arith),
  λ f. rw (get_flag-digit (set_address e a) f, get_flag-digit e f, set_address-digit e a f h) refl,
)
