-- ===== src/PageFrameAllocator/Cursor.antt =====
-- `RequestPage` hands out the lowest free frame: no frame below the cursor is free.
use waifu_os.Prelude.{
  ℕ, zero, suc, ◌+◌, ◌-◌, ◌*◌, ◌/◌, ◌^◌, ◌≤◌, ◌<◌, ◌≡◌, refl, ◌≢◌, ◌⊎◌, inl, inr, Bool, true, false,
  some, arith, ltb, leb, ◌==◌, Bool-cases, add64, mul64, page_size,
}
use waifu_os.BitMap.{BitMap, get, set}
use waifu_os.BitMap.Laws.{IsBytes, get-set, set-refused, set-accepted}
use waifu_os.PageFrameAllocator.{
  Pfa, lower_cursor, page_count, free_page, free_changed, lock_page, lock_changed, unreserve_page,
  unreserve_changed, reserve_page, reserve_changed, request_page_loop, request_fuel, request_page,
}

-- Every frame below the cursor is in use.
abbrev pub Below : Pfa → Type 0
Below s = (i : ℕ) → i < s.last → get s.bitmap i ≡ true

abbrev pub IsSized : Pfa → Type 0
IsSized s = s.bitmap.size_bytes < 2 ^ 48

-- The two ways in which a request for one frame ends.
pub data Answer (s : Pfa) (r : ℕ × Pfa) : Type 0 where
  granted :
      (index : ℕ)
      → index < s.bitmap.size_bytes * 8
      → get s.bitmap index ≡ false
      → ((i : ℕ) → i < index → get s.bitmap i ≡ true)
      → r ≡ (index * page_size, lock_page (record s { last = index }) (index * page_size))
      → Answer s r
  exhausted :
      (index : ℕ)
      → s.bitmap.size_bytes * 8 ≤ index
      → ((i : ℕ) → i < index → get s.bitmap i ≡ true)
      → r ≡ (0, record s { last = index })
      → Answer s r

-- The loop moves the cursor only.
Answer-last : (s : Pfa) (last : ℕ) (r : ℕ × Pfa) → Answer (record s { last = last }) r → Answer s r
Answer-last s last r (granted index a b c d) = granted index a b c d
Answer-last s last r (exhausted index a b c) = exhausted index a b c

extend_below :
    (m : BitMap) (n : ℕ)
    → ((i : ℕ) → i < n → get m i ≡ true)
    → get m n ≡ true
    → (i : ℕ) → i < n + 1
    → get m i ≡ true
extend_below m n h e i l = elim (Bool-cases (i == n)) [
  | inl q ↦ let q' : i ≡ n = ground arith in rw q' e
  | inr q ↦ h i (ground arith)
]

request_page_loop-Answer :
    (fuel : ℕ) (s : Pfa)
    → IsSized s
    → Below s
    → page_count s - s.last < fuel
    → (r : ℕ × Pfa) × (request_page_loop fuel s ≡ some r) × Answer s r
unfolding request_page_loop
request_page_loop-Answer zero s small below f = absurd (omega arith)
request_page_loop-Answer (suc fuel) s small below f =
    elim (Bool-cases (ltb s.last (page_count s))) [
      | inr out ↦ ((0, s), rw out refl, exhausted s.last (ground arith) below refl)
      | inl inside ↦ elim (Bool-cases (get s.bitmap s.last)) [
        | inl busy ↦
            let ih =
              request_page_loop-Answer fuel (record s { last = add64 s.last 1 }) small
                (λ i l. extend_below s.bitmap s.last below busy i (ground arith)) (ground arith) in
            (ih.0, rw (inside, busy) ih.1, Answer-last s (add64 s.last 1) ih.0 ih.2)
        | inr idle ↦
            let exact : mul64 s.last page_size ≡ s.last * page_size = ground arith in
            (
              (mul64 s.last page_size, lock_page s (mul64 s.last page_size)),
              rw (inside, idle) refl,
              granted s.last (ground arith) idle below (rw exact refl),
            )
      ]
    ]

-- On a bitmap of fewer than 2^48 bytes and with no free frame below the cursor, `RequestPage`
-- returns: either the address of the lowest free frame, which it locks, or null, and then every
-- frame of the bitmap is in use and only the cursor has moved.
pub request_page-Answer :
    (s : Pfa) → IsSized s → Below s → (r : ℕ × Pfa) × (request_page s ≡ some r) × Answer s r
unfolding request_page
request_page-Answer s small below =
    request_page_loop-Answer (request_fuel s) s small below (omega arith)

module _ (s : Pfa) (small : IsSized s) (bytes : IsBytes s.bitmap.buffer) (below : Below s) where
  get-set-true : (i j : ℕ) → get s.bitmap j ≡ true → get (set s.bitmap i true).1 j ≡ true
  get-set-true i j e = elim (Bool-cases (leb i (s.bitmap.size_bytes * 8))) [
    | inl le ↦ ground (arith, get-set s.bitmap i j true (omega arith) bytes (ground arith))
    | inr gt ↦ rw (set-refused s.bitmap i true (omega arith) (ground arith)) e
  ]

  get-set-false : (i j : ℕ) → j ≢ i → get s.bitmap j ≡ true → get (set s.bitmap i false).1 j ≡ true
  get-set-false i j ne e = elim (Bool-cases (leb i (s.bitmap.size_bytes * 8))) [
    | inl le ↦ ground (arith, get-set s.bitmap i j false (omega arith) bytes (ground arith))
    | inr gt ↦ rw (set-refused s.bitmap i false (omega arith) (ground arith)) e
  ]

  lock_changed-Below :
      (r : Bool × BitMap)
      → ((j : ℕ) → get s.bitmap j ≡ true → get r.1 j ≡ true)
      → Below (lock_changed s r)
  lock_changed-Below (true, m) keep i l = keep i (below i l)
  lock_changed-Below (false, m) keep i l = keep i (below i l)

  reserve_changed-Below :
      (r : Bool × BitMap)
      → ((j : ℕ) → get s.bitmap j ≡ true → get r.1 j ≡ true)
      → Below (reserve_changed s r)
  reserve_changed-Below (true, m) keep i l = keep i (below i l)
  reserve_changed-Below (false, m) keep i l = keep i (below i l)

  pub lock_page-Below : (address : ℕ) → Below (lock_page s address)
  unfolding lock_page
  lock_page-Below address = elim (Bool-cases (get s.bitmap (address / page_size))) [
    | inl e ↦ rw e below
    | inr e ↦ rw e (lock_changed-Below _ (get-set-true (address / page_size)))
  ]

  pub reserve_page-Below : (address : ℕ) → Below (reserve_page s address)
  unfolding reserve_page
  reserve_page-Below address = elim (Bool-cases (get s.bitmap (address / page_size))) [
    | inl e ↦ rw e below
    | inr e ↦ rw e (reserve_changed-Below _ (get-set-true (address / page_size)))
  ]

  -- A released frame that was below the cursor becomes the cursor.
  lower_cursor-Below :
      (t : Pfa) (index : ℕ)
      → t.last ≡ s.last
      → ((j : ℕ) → j ≢ index → get s.bitmap j ≡ true → get t.bitmap j ≡ true)
      → Below (lower_cursor index t)
  lower_cursor-Below t index same keep = elim (Bool-cases (ltb index t.last)) [
    | inl e ↦ rw e (λ i l. keep i (omega arith) (below i (ground arith)))
    | inr e ↦ rw e (λ i l. keep i (ground arith) (below i (omega arith)))
  ]

  free_changed-Below :
      (r : Bool × BitMap) (index : ℕ)
      → (r.0 ≡ true ⊎ (r.1 ≡ s.bitmap))
      → ((j : ℕ) → j ≢ index → get s.bitmap j ≡ true → get r.1 j ≡ true)
      → Below (free_changed s index r)
  free_changed-Below (true, m) index c keep = lower_cursor-Below _ index refl keep
  free_changed-Below (false, m) index (inl c) keep = ground arith
  free_changed-Below (false, m) index (inr c) keep = rw c below

  unreserve_changed-Below :
      (r : Bool × BitMap) (index : ℕ)
      → (r.0 ≡ true ⊎ (r.1 ≡ s.bitmap))
      → ((j : ℕ) → j ≢ index → get s.bitmap j ≡ true → get r.1 j ≡ true)
      → Below (unreserve_changed s index r)
  unreserve_changed-Below (true, m) index c keep = lower_cursor-Below _ index refl keep
  unreserve_changed-Below (false, m) index (inl c) keep = ground arith
  unreserve_changed-Below (false, m) index (inr c) keep = rw c below

  accepted_or_same :
      (i : ℕ) (v : Bool) → ((set s.bitmap i v).0 ≡ true) ⊎ ((set s.bitmap i v).1 ≡ s.bitmap)
  accepted_or_same i v = elim (Bool-cases (leb i (s.bitmap.size_bytes * 8))) [
    | inl le ↦ inl (set-accepted s.bitmap i v (omega arith) (ground arith))
    | inr gt ↦ inr (rw (set-refused s.bitmap i v (omega arith) (ground arith)) refl)
  ]

  pub free_page-Below : (address : ℕ) → Below (free_page s address)
  unfolding free_page
  free_page-Below address = elim (Bool-cases (get s.bitmap (address / page_size))) [
    | inr e ↦ rw e below
    | inl e ↦ rw e (
        free_changed-Below _ (address / page_size) (accepted_or_same (address / page_size) false)
          (get-set-false (address / page_size)))
  ]

  pub unreserve_page-Below : (address : ℕ) → Below (unreserve_page s address)
  unfolding unreserve_page
  unreserve_page-Below address = elim (Bool-cases (get s.bitmap (address / page_size))) [
    | inr e ↦ rw e below
    | inl e ↦ rw e (
        unreserve_changed-Below _ (address / page_size)
          (accepted_or_same (address / page_size) false) (get-set-false (address / page_size)))
  ]
