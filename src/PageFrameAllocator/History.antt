-- ===== src/PageFrameAllocator/History.antt =====
-- Every sequence of calls to the page frame allocator: the counters stay true, and no free frame is
-- ever below the cursor.
use waifu_os.Prelude.{ℕ, ◌*◌, ◌<◌, ◌≡◌, refl, true, Option, none, some, List, [], ◌∷◌, page_size}
use waifu_os.Prelude.Loops.{for_range_inv}
use waifu_os.BitMap.{get}
use waifu_os.PageFrameAllocator.{
  Pfa, page_at, free_page, lock_page, unreserve_page, reserve_page, free_pages, lock_pages,
  unreserve_pages, reserve_pages, request_page,
}
use waifu_os.PageFrameAllocator.Accounting.{
  Accounted, lock_page-Accounted, reserve_page-Accounted, free_page-Accounted,
  unreserve_page-Accounted,
}
use waifu_os.PageFrameAllocator.Cursor.{
  Below, Answer, granted, exhausted, request_page-Answer, lock_page-Below, reserve_page-Below,
  free_page-Below, unreserve_page-Below,
}

pub record IsValid (total : ℕ) (s : Pfa) : Type 0 where
  pub accounted : Accounted total s
  pub below : Below s

-- The calls that other parts of the kernel make.
pub data Call : Type 0 where
  frees locks reserves unreserves : (address count : ℕ) → Call
  requests : Call

abbrev pub after {ℓ} : {A : Type ℓ} → Option (A × Pfa) → Option Pfa
after none = none
after (some (a, s)) = some s

unfoldable pub step : Pfa → Call → Option Pfa
step s (frees a n) = some (free_pages s a n)
step s (locks a n) = some (lock_pages s a n)
step s (reserves a n) = some (reserve_pages s a n)
step s (unreserves a n) = some (unreserve_pages s a n)
step s requests = after (request_page s)

abbrev pub and_then : Option Pfa → (Pfa → Option Pfa) → Option Pfa
and_then none k = none
and_then (some s) k = k s

unfoldable pub run : Pfa → List Call → Option Pfa
run s [] = some s
run s (c ∷ cs) = and_then (step s c) (λ s'. run s' cs)

module _ {total : ℕ} where
  pub lock_pages-IsValid : (s : Pfa) (a n : ℕ) → IsValid total s → IsValid total (lock_pages s a n)
  unfolding lock_pages
  lock_pages-IsValid s a n v =
      for_range_inv (IsValid total) (λ x t. lock_page t (page_at a x))
        (λ i t w. record {
          accounted = lock_page-Accounted w.accounted (page_at a i);
          below = lock_page-Below t w.accounted.small w.accounted.bytes w.below (page_at a i);
        })
        n 0 s v

  pub free_pages-IsValid : (s : Pfa) (a n : ℕ) → IsValid total s → IsValid total (free_pages s a n)
  unfolding free_pages
  free_pages-IsValid s a n v =
      for_range_inv (IsValid total) (λ x t. free_page t (page_at a x))
        (λ i t w. record {
          accounted = free_page-Accounted w.accounted (page_at a i);
          below = free_page-Below t w.accounted.small w.accounted.bytes w.below (page_at a i);
        })
        n 0 s v

  pub reserve_pages-IsValid :
      (s : Pfa) (a n : ℕ) → IsValid total s → IsValid total (reserve_pages s a n)
  unfolding reserve_pages
  reserve_pages-IsValid s a n v =
      for_range_inv (IsValid total) (λ x t. reserve_page t (page_at a x))
        (λ i t w. record {
          accounted = reserve_page-Accounted w.accounted (page_at a i);
          below = reserve_page-Below t w.accounted.small w.accounted.bytes w.below (page_at a i);
        })
        n 0 s v

  pub unreserve_pages-IsValid :
      (s : Pfa) (a n : ℕ) → IsValid total s → IsValid total (unreserve_pages s a n)
  unfolding unreserve_pages
  unreserve_pages-IsValid s a n v =
      for_range_inv (IsValid total) (λ x t. unreserve_page t (page_at a x))
        (λ i t w. record {
          accounted = unreserve_page-Accounted w.accounted (page_at a i);
          below = unreserve_page-Below t w.accounted.small w.accounted.bytes w.below (page_at a i);
        })
        n 0 s v

  module _ (s : Pfa) (v : IsValid total s) where
    at_cursor :
        (index : ℕ)
        → ((i : ℕ) → i < index → get s.bitmap i ≡ true)
        → IsValid total (record s { last = index })
    at_cursor index busy = record {
      accounted = record {
        small = v.accounted.small;
        bytes = v.accounted.bytes;
        sum = v.accounted.sum;
        held = v.accounted.held;
      };
      below = busy;
    }

    -- A request moves the cursor up to the frame that it locks.
    Answer-IsValid : (r : ℕ × Pfa) → Answer s r → IsValid total r.1
    Answer-IsValid r (granted index inside idle busy e) = rw e (
        let w = at_cursor index busy in
        record {
          accounted = lock_page-Accounted w.accounted (index * page_size);
          below =
              lock_page-Below (record s { last = index }) w.accounted.small w.accounted.bytes
                w.below (index * page_size);
        })
    Answer-IsValid r (exhausted index outside busy e) = rw e (at_cursor index busy)

  pub step-IsValid :
      (s : Pfa) (c : Call) → IsValid total s → (t : Pfa) × (step s c ≡ some t) × IsValid total t
  unfolding step
  step-IsValid s (frees a n) v = (free_pages s a n, refl, free_pages-IsValid s a n v)
  step-IsValid s (locks a n) v = (lock_pages s a n, refl, lock_pages-IsValid s a n v)
  step-IsValid s (reserves a n) v = (reserve_pages s a n, refl, reserve_pages-IsValid s a n v)
  step-IsValid s (unreserves a n) v = (unreserve_pages s a n, refl, unreserve_pages-IsValid s a n v)
  step-IsValid s requests v =
      let answer = request_page-Answer s v.accounted.small v.below in
      (answer.0.1, rw answer.1 refl, Answer-IsValid s v answer.0 answer.2)

  -- From a valid state (a bitmap of fewer than 2^48 bytes, counters that sum to `total` and whose
  -- allocated and reserved part is `page_size` for each set bit modulo 2^64, and no free frame below
  -- the cursor) every sequence of `FreePages`, `LockPages`, `ReservePages`, `UnreservePages` and
  -- `RequestPage` calls runs to its end and leads to a valid state with the same total.
  pub run-IsValid :
      (cs : List Call) (s : Pfa)
      → IsValid total s
      → (t : Pfa) × (run s cs ≡ some t) × IsValid total t
  unfolding run
  run-IsValid [] s v = (s, refl, v)
  run-IsValid (c ∷ cs) s v =
      let now = step-IsValid s c v in
      let rest = run-IsValid cs now.0 now.2 in (rest.0, rw now.1 rest.1, rest.2)
