-- ===== src/PageFrameAllocator/Runs.antt =====
-- `RequestPages`: a run of frames that `Get` calls free, and what the search leaves behind.
use waifu_os.Prelude.{
  ℕ, zero, suc, ◌+◌, ◌-◌, ◌*◌, ◌^◌, ◌≤◌, ◌<◌, ◌≡◌, refl, ap, ◌∙◌, inl, inr, true, false, none, some,
  arith, ltb, ◌==◌, Bool-cases, Option-cases, add64, mul64, page_size,
}
use native.Mathlib.Nat.{add-zero}
use waifu_os.BitMap.{BitMap, get}
use waifu_os.BitMap.Laws.{IsBytes, get-above}
use waifu_os.PageFrameAllocator.Locking.{lock_pages-get}
use waifu_os.PageFrameAllocator.{
  Pfa, page_count, lock_pages, find_used, request_fuel, request_page_loop, request_page,
  request_pages_loop, request_pages,
}
use waifu_os.PageFrameAllocator.Cursor.{IsSized}

-- The ways in which the loop ends.
data Run (pages : ℕ) (s : Pfa) (r : ℕ × Pfa) : Type 0 where
  granted :
      (index : ℕ)
      → index < s.bitmap.size_bytes * 8
      → ((x : ℕ) → x < pages → get s.bitmap (index + x) ≡ false)
      → r ≡ (index * page_size, lock_pages (record s { last = index }) (index * page_size) pages)
      → Run pages s r
  exhausted :
      (index : ℕ)
      → s.bitmap.size_bytes * 8 ≤ index
      → r ≡ (0, record s { last = index })
      → Run pages s r

Run-last :
    (pages : ℕ) (s : Pfa) (last : ℕ) (r : ℕ × Pfa)
    → Run pages (record s { last = last }) r
    → Run pages s r
Run-last pages s last r (granted index a b c) = granted index a b c
Run-last pages s last r (exhausted index a b) = exhausted index a b

module _ (m : BitMap) (last : ℕ) where
  find_used-none :
      (n x : ℕ) → find_used m last n x ≡ none → (y : ℕ) → y < n → get m (add64 last (x + y)) ≡ false
  unfolding find_used
  find_used-none zero x e y l = absurd (omega arith)
  find_used-none (suc n) x e zero l = ground (arith, add-zero x)
  find_used-none (suc n) x e (suc y) l =
      let shift : x + suc y ≡ x + 1 + y = omega arith in
      rw shift (find_used-none n (x + 1) (ground arith) y (omega arith))

  find_used-some :
      (n x k : ℕ)
      → find_used m last n x ≡ some k
      → (x ≤ k) × (k < x + n) × (get m (add64 last k) ≡ true)
  unfolding find_used
  find_used-some zero x k e = cc
  find_used-some (suc n) x k e = elim (Bool-cases (get m (add64 last x))) [
    | inl busy ↦ ground arith
    | inr idle ↦ ground (arith, find_used-some n (x + 1) k (ground arith))
  ]

-- A frame further on that is in use is not the free one at the cursor.
skip-pos :
    (m : BitMap) (last k : ℕ)
    → last < 2 ^ 64
    → get m last ≡ false
    → get m (add64 last k) ≡ true
    → 0 < k
skip-pos m last zero small idle busy =
    let same : add64 last 0 ≡ last = omega arith in
    let idle' : get m (add64 last 0) ≡ false = rw same idle in cc
skip-pos m last (suc k) small idle busy = omega arith

-- Each round moves the cursor towards the end, also the one that skips to a used frame.
request_pages_loop-Run :
    (fuel pages : ℕ) (s : Pfa)
    → IsSized s
    → pages < 2 ^ 63
    → page_count s - s.last < fuel
    → (r : ℕ × Pfa) × (request_pages_loop fuel pages s ≡ some r) × Run pages s r
unfolding request_pages_loop
request_pages_loop-Run zero pages s small few f = absurd (omega arith)
request_pages_loop-Run (suc fuel) pages s small few f =
    elim (Bool-cases (ltb s.last (page_count s))) [
      | inr out ↦ ((0, s), rw out refl, exhausted s.last (ground arith) refl)
      | inl inside ↦ elim (Bool-cases (get s.bitmap s.last)) [
        | inl busy ↦
            let ih =
              request_pages_loop-Run fuel pages (record s { last = add64 s.last 1 }) small few
                (ground arith) in
            (ih.0, rw (inside, busy) ih.1, Run-last pages s (add64 s.last 1) ih.0 ih.2)
        | inr idle ↦ elim (Option-cases (find_used s.bitmap s.last pages 0)) [
          | inl clear ↦
              let exact : mul64 s.last page_size ≡ s.last * page_size = ground arith in
              (
                (mul64 s.last page_size, lock_pages s (mul64 s.last page_size) pages),
                rw (inside, idle, clear) refl,
                granted s.last (ground arith)
                    (λ x l.
                      let near : add64 s.last x ≡ s.last + x = ground arith in
                      let zero_x : 0 + x ≡ x = omega arith in
                      rw (← near, ← zero_x) (find_used-none s.bitmap s.last pages 0 clear x l))
                    (rw exact refl),
              )
          | inr (k, hit) ↦
              let where_hit : (0 ≤ k) × (k < 0 + pages) × (get s.bitmap (add64 s.last k) ≡ true) =
                find_used-some s.bitmap s.last pages 0 k hit in
              let ih =
                request_pages_loop-Run fuel pages (record s { last = add64 s.last k }) small few
                  (ground (arith, skip-pos s.bitmap s.last k (ground arith) idle where_hit.2)) in
              (ih.0, rw (inside, idle, hit) ih.1, Run-last pages s (add64 s.last k) ih.0 ih.2)
        ]
      ]
    ]

request_pages-Run :
    (pages : ℕ) (s : Pfa)
    → IsSized s
    → pages < 2 ^ 63
    → (r : ℕ × Pfa) × (request_pages s pages ≡ some r) × Run pages s r
unfolding request_pages
request_pages-Run pages s small few =
    request_pages_loop-Run (request_fuel s) pages s small few (omega arith)

-- The answers to a request for `pages` frames, with what the bitmap then says of the run.
pub data RunAnswer (pages : ℕ) (s : Pfa) (r : ℕ × Pfa) : Type 0 where
  run_granted :
      (index : ℕ)
      → index < s.bitmap.size_bytes * 8
      → ((x : ℕ) → x < pages → get s.bitmap (index + x) ≡ false)
      → r ≡ (index * page_size, lock_pages (record s { last = index }) (index * page_size) pages)
      → ((x : ℕ)
          → x < pages
          → index + x ≤ s.bitmap.size_bytes * 8
          → get r.1.bitmap (index + x) ≡ true)
      → RunAnswer pages s r
  no_run :
      (index : ℕ)
      → s.bitmap.size_bytes * 8 ≤ index
      → r ≡ (0, record s { last = index })
      → RunAnswer pages s r

Run-RunAnswer :
    (pages : ℕ) (s : Pfa) (r : ℕ × Pfa)
    → IsSized s
    → IsBytes s.bitmap.buffer
    → Run pages s r
    → RunAnswer pages s r
Run-RunAnswer pages s r small bytes (exhausted index outside e) = no_run index outside e
Run-RunAnswer pages s r small bytes (granted index inside idle e) =
    run_granted index inside idle e (λ x l low.
      ap (λ (q : ℕ × Pfa). get q.1.bitmap (index + x)) e
      ∙ lock_pages-get (record s { last = index }) index pages x small bytes l low)

-- On a bitmap of fewer than 2^48 bytes, whose buffer holds bytes, and for fewer than 2^63 pages,
-- `RequestPages` returns. Either it grants the address of a frame of the bitmap from which on `pages`
-- frames read as free, calls `LockPages` for them, and those of the run up to the index eight times
-- the size of the bitmap, the last that `Set` accepts, then read as in use; or it returns null with
-- the bitmap unchanged and the cursor at or behind its end.
pub request_pages-RunAnswer :
    (pages : ℕ) (s : Pfa)
    → IsSized s
    → IsBytes s.bitmap.buffer
    → pages < 2 ^ 63
    → (r : ℕ × Pfa) × (request_pages s pages ≡ some r) × RunAnswer pages s r
request_pages-RunAnswer pages s small bytes few =
    let answer = request_pages-Run pages s small few in
    (answer.0, answer.1, Run-RunAnswer pages s answer.0 small bytes answer.2)

request_page-past :
    (s : Pfa) → IsSized s → s.bitmap.size_bytes * 8 ≤ s.last → request_page s ≡ some (0, s)
unfolding request_page request_page_loop
request_page-past s small h =
    let out : ltb s.last (page_count s) ≡ false = ground arith in rw out refl

-- On a bitmap of fewer than 2^48 bytes and for fewer than 2^63 pages, if every frame of the bitmap
-- has a used frame among the `pages` from it on, `RequestPages` returns
-- null, leaves the bitmap as it was, and moves the cursor so far that `RequestPage` then returns null
-- too, whatever frames are free.
pub request_pages_lost :
    (pages : ℕ) (s : Pfa)
    → IsSized s
    → pages < 2 ^ 63
    → ((i : ℕ)
        → i < s.bitmap.size_bytes * 8
        → (x : ℕ) × (x < pages) × (get s.bitmap (i + x) ≡ true))
    → (t : Pfa) × (request_pages s pages ≡ some (0, t))
      × (t.bitmap ≡ s.bitmap)
      × (request_page t ≡ some (0, t))
request_pages_lost pages s small few blocked =
    let answer = request_pages-Run pages s small few in go answer.0 answer.1 answer.2
  where
    go :
        (r : ℕ × Pfa)
        → request_pages s pages ≡ some r
        → Run pages s r
        → (t : Pfa) × (request_pages s pages ≡ some (0, t))
          × (t.bitmap ≡ s.bitmap)
          × (request_page t ≡ some (0, t))
    go r e (granted index inside idle q) =
        let used = blocked index inside in
        absurd (
          let no : get s.bitmap (index + used.0) ≡ false = idle used.0 used.1 in
          let still : get s.bitmap (index + used.0) ≡ true = used.2 in cc)
    go r e (exhausted index outside q) =
        (record s { last = index }, e ∙ ap some q, refl, request_page-past _ small outside)

find_used-clear :
    (m : BitMap) (last n x : ℕ)
    → ((y : ℕ) → y < n → get m (add64 last (x + y)) ≡ false)
    → find_used m last n x ≡ none
unfolding find_used
find_used-clear m last zero x h = refl
find_used-clear m last (suc n) x h =
    let here : get m (add64 last x) ≡ false = ground (arith, h 0 (omega arith)) in
    rw here (
      find_used-clear m last n (x + 1) (λ y l.
        let shift : x + 1 + y ≡ x + suc y = omega arith in rw shift (h (suc y) (omega arith))))

-- On a bitmap of fewer than 2^48 bytes, where the cursor is exactly at the last frame, that frame is
-- free and the bit behind it is clear, `RequestPages` grants a run of any number of pages below 2^63
-- there: it counts frames that the bitmap does not have.
pub run_past_end :
    (pages : ℕ) (s : Pfa)
    → IsSized s
    → pages < 2 ^ 63
    → s.last + 1 ≡ s.bitmap.size_bytes * 8
    → get s.bitmap s.last ≡ false
    → get s.bitmap (s.bitmap.size_bytes * 8) ≡ false
    → request_pages s pages ≡ some (s.last * page_size, lock_pages s (s.last * page_size) pages)
unfolding request_pages request_pages_loop
run_past_end pages s small few at idle beyond =
    let inside : ltb s.last (page_count s) ≡ true = ground arith in
    let exact : mul64 s.last page_size ≡ s.last * page_size = ground arith in
    let clear : find_used s.bitmap s.last pages 0 ≡ none =
      find_used-clear s.bitmap s.last pages 0 (λ y l. reads_free y l) in
    rw (inside, idle, clear, exact) refl
  where
    reads_free : (y : ℕ) → y < pages → get s.bitmap (add64 s.last (0 + y)) ≡ false
    reads_free zero l = let here : add64 s.last (0 + 0) ≡ s.last = omega arith in rw here idle
    reads_free (suc y) l = elim (Bool-cases (y == 0)) [
      | inl e ↦
          let here : add64 s.last (0 + suc y) ≡ s.bitmap.size_bytes * 8 = ground arith in
          rw here beyond
      | inr e ↦ get-above s.bitmap _ (omega arith) (ground arith)
    ]
