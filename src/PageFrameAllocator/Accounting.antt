-- ===== src/PageFrameAllocator/Accounting.antt =====
-- The counters of the page frame allocator agree with its bitmap.
use waifu_os.Prelude.{
  ℕ, ◌+◌, ◌*◌, ◌/◌, ◌%◌, ◌^◌, ◌<◌, ◌≡◌, refl, ap, inl, inr, Bool, true, false, not, arith, ltb, leb,
  Bool-cases, page_size,
}
use waifu_os.BitMap.{BitMap, get, set}
use waifu_os.BitMap.Laws.{IsBytes, set-IsBytes, size_bytes-set, set-refused, set-accepted}
use waifu_os.BitMap.Count.{used, used-set-true, used-set-false}
use waifu_os.PageFrameAllocator.{
  Pfa, lower_cursor, free_changed, lock_changed, unreserve_changed, reserve_changed, free_page,
  lock_page, unreserve_page, reserve_page,
}

-- Of `total` bytes, those not free are `page_size` for each set bit, up to the wrap of the counters.
pub record Accounted (total : ℕ) (s : Pfa) : Type 0 where
  pub small : s.bitmap.size_bytes < 2 ^ 48
  pub bytes : IsBytes s.bitmap.buffer
  pub sum : (s.free + s.allocated + s.reserved) % 2 ^ 64 ≡ total
  pub held : (s.allocated + s.reserved) % 2 ^ 64 ≡ used s.bitmap * page_size % 2 ^ 64

-- What `Set` does to the bitmap where the bit changes, or where the guard refuses the index.
data Changed (m : BitMap) (i : ℕ) (value : Bool) : Bool × BitMap → Type 0 where
  refused : {r : Bool × BitMap} → r ≡ (false, m) → Changed m i value r
  done :
      {m' : BitMap} {r : Bool × BitMap}
      → r ≡ (true, m')
      → m'.size_bytes ≡ m.size_bytes
      → IsBytes m'.buffer
      → (value ≡ true → used m' ≡ used m + 1)
      → (value ≡ false → used m' + 1 ≡ used m)
      → Changed m i value r

set-Changed :
    (m : BitMap) (i : ℕ) (value : Bool)
    → m.size_bytes < 2 ^ 48
    → IsBytes m.buffer
    → get m i ≡ not value
    → Changed m i value (set m i value)
set-Changed m i value small bytes e = elim (Bool-cases (leb i (m.size_bytes * 8))) [
  | inl le ↦
      let ok : (set m i value).0 ≡ true = set-accepted m i value (omega arith) (ground arith) in
      done {m' = (set m i value).1} (ap (λ b. (b, (set m i value).1)) ok) (size_bytes-set m i value)
        (set-IsBytes m i value bytes)
        (λ t. rw t (used-set-true m i (omega arith) bytes (ground arith) (ground arith)))
        (λ f. rw f (used-set-false m i (omega arith) bytes (ground arith) (ground arith)))
  | inr gt ↦ refused (set-refused m i value (omega arith) (ground arith))
]

lower_cursor-Accounted :
    {total : ℕ} {s : Pfa} (index : ℕ) → Accounted total s → Accounted total (lower_cursor index s)
lower_cursor-Accounted {s} index v = elim (Bool-cases (ltb index s.last)) [
  | inl e ↦ rw e (record { small = v.small; bytes = v.bytes; sum = v.sum; held = v.held })
  | inr e ↦ rw e v
]

module _ {total : ℕ} {s : Pfa} (v : Accounted total s) where
  -- Both kinds of mark move one page out of the free memory, both kinds of release move it back.
  mark_cases :
      (next : Bool × BitMap → Pfa) (i : ℕ)
      → get s.bitmap i ≡ false
      → ((m' : BitMap)
          → (m'.size_bytes ≡ s.bitmap.size_bytes)
          → IsBytes m'.buffer
          → used m' ≡ used s.bitmap + 1
          → Accounted total (next (true, m')))
      → Accounted total (next (false, s.bitmap))
      → Accounted total (next (set s.bitmap i true))
  mark_cases next i e taken kept = go (set-Changed s.bitmap i true v.small v.bytes e)
    where
      go : {r : Bool × BitMap} → Changed s.bitmap i true r → Accounted total (next r)
      go (refused q) = rw q kept
      go (done {m'} q size bytes up down) = rw q (taken m' size bytes (up refl))

  release_cases :
      (next : Bool × BitMap → Pfa) (i : ℕ)
      → get s.bitmap i ≡ true
      → ((m' : BitMap)
          → (m'.size_bytes ≡ s.bitmap.size_bytes)
          → IsBytes m'.buffer
          → used m' + 1 ≡ used s.bitmap
          → Accounted total (next (true, m')))
      → Accounted total (next (false, s.bitmap))
      → Accounted total (next (set s.bitmap i false))
  release_cases next i e taken kept = go (set-Changed s.bitmap i false v.small v.bytes e)
    where
      go : {r : Bool × BitMap} → Changed s.bitmap i false r → Accounted total (next r)
      go (refused q) = rw q kept
      go (done {m'} q size bytes up down) = rw q (taken m' size bytes (down refl))

  pub lock_page-Accounted : (address : ℕ) → Accounted total (lock_page s address)
  unfolding lock_page
  lock_page-Accounted address = elim (Bool-cases (get s.bitmap (address / page_size))) [
    | inl e ↦ rw e v
    | inr e ↦ rw e (
        mark_cases (lock_changed s) (address / page_size) e
          (λ m' q b u. record {
            small = omega arith;
            bytes = b;
            sum = omega arith;
            held = omega arith;
          })
          v)
  ]

  pub reserve_page-Accounted : (address : ℕ) → Accounted total (reserve_page s address)
  unfolding reserve_page
  reserve_page-Accounted address = elim (Bool-cases (get s.bitmap (address / page_size))) [
    | inl e ↦ rw e v
    | inr e ↦ rw e (
        mark_cases (reserve_changed s) (address / page_size) e
          (λ m' q b u. record {
            small = omega arith;
            bytes = b;
            sum = omega arith;
            held = omega arith;
          })
          v)
  ]

  pub free_page-Accounted : (address : ℕ) → Accounted total (free_page s address)
  unfolding free_page
  free_page-Accounted address = elim (Bool-cases (get s.bitmap (address / page_size))) [
    | inr e ↦ rw e v
    | inl e ↦ rw e (
        release_cases (free_changed s (address / page_size)) (address / page_size) e
          (λ m' q b u.
            lower_cursor-Accounted (address / page_size)
              (record { small = omega arith; bytes = b; sum = omega arith; held = omega arith }))
          v)
  ]

  pub unreserve_page-Accounted : (address : ℕ) → Accounted total (unreserve_page s address)
  unfolding unreserve_page
  unreserve_page-Accounted address = elim (Bool-cases (get s.bitmap (address / page_size))) [
    | inr e ↦ rw e v
    | inl e ↦ rw e (
        release_cases (unreserve_changed s (address / page_size)) (address / page_size) e
          (λ m' q b u.
            lower_cursor-Accounted (address / page_size)
              (record { small = omega arith; bytes = b; sum = omega arith; held = omega arith }))
          v)
  ]
