-- ===== src/Heap/Early.antt =====
-- `earlyMalloc`, which serves before the heap is there, and the rounding of sizes.
use waifu_os.Prelude.{
  ℕ, ◌+◌, ◌-◌, ◌*◌, ◌%◌, ◌^◌, ◌≤◌, ◌<◌, bit_and, ◌≡◌, inl, inr, Bool, true, false, arith, ◌==◌,
  if◌then◌else◌, Bool-cases, add64,
}
use waifu_os.Prelude.Bits.{bit_and_mask}
use waifu_os.Heap.{round_size}

-- `baseOffset` and `earlyMallocInit`
pub record Early : Type 0 where
  pub early_malloc_init : Bool
  pub base_offset : ℕ

-- `earlyMalloc`: `earlyMallocBase` is an array of pointers, so the offset counts eight bytes each.
unfoldable pub early_malloc : ℕ → Early → ℕ → ℕ × Early
early_malloc early_malloc_base e size =
    if round_size size == 0 then (0, record e { early_malloc_init = true }) else (
      add64 early_malloc_base (8 * e.base_offset),
      record { early_malloc_init = true; base_offset = add64 e.base_offset (round_size size) },
    )

-- A size up to 2^64 - 16 is rounded up to the next multiple of sixteen.
pub round_size_lem :
    (size : ℕ)
    → size + 16 ≤ 2 ^ 64
    → (size ≤ round_size size) × (round_size size < size + 16) × (round_size size % 16 ≡ 0)
round_size_lem size h =
    let low : bit_and size 0xF ≡ size % 16 = bit_and_mask 4 size in
    elim (Bool-cases ((size % 16) == 0)) [
      | inl even ↦
          let exact : round_size size ≡ size = rw (low, even) (ground arith) in
          rw (exact) (omega arith, omega arith, ground arith)
      | inr odd ↦
          let up : round_size size ≡ size - size % 16 + 16 = rw (low, odd) (ground arith) in
          rw (up) (omega arith, ground arith, omega arith)
    ]

-- Two requests of `earlyMalloc`, for 1 to 2^32 - 16 bytes each, with an offset below 2^32 and
-- a base below 2^48, get different places, the second behind the first.
pub early_malloc_apart :
    (base size size' : ℕ) (e : Early)
    → 0 < size
    → size + 16 ≤ 2 ^ 32
    → 0 < size'
    → size' + 16 ≤ 2 ^ 32
    → e.base_offset < 2 ^ 32
    → base < 2 ^ 48
    → (early_malloc base e size).0 + size ≤ (early_malloc base (early_malloc base e size).1 size').0
unfolding early_malloc
early_malloc_apart base size size' e more h more' h' small low =
    let r = round_size_lem size (omega arith) in
    let r' = round_size_lem size' (omega arith) in
    let there : (round_size size == 0) ≡ false = ground (arith, r) in
    let there' : (round_size size' == 0) ≡ false = ground (arith, r') in
    rw (there, there') (omega (arith, r.0, r.1))
