-- ===== src/PageFrameAllocator/Tests.antt =====
-- A machine of sixteen frames: runs of the page frame allocator, and its laws at them.
use waifu_os.Prelude.{
  ℕ, ◌+◌, ◌-◌, ◌%◌, ◌≡◌, refl, true, Option, none, some, [], ◌∷◌, arith, ◌==◌, if◌then◌else◌,
}
use waifu_os.Prelude.Loops.{for_range, every_below, every_below-true}
use waifu_os.BitMap.{get, set}
use waifu_os.BitMap.Count.{used}
use waifu_os.PageFrameAllocator.{
  Pfa, EfiMemoryDescriptor, request_page, request_page_loop, request_pages, lock_page, lock_pages,
  free_page, free_pages,
}
use waifu_os.PageFrameAllocator.Cursor.{Answer, request_page-Answer}
use waifu_os.PageFrameAllocator.History.{IsValid, frees, locks, requests, run, step, run-IsValid}
use waifu_os.PageFrameAllocator.Runs.{
  RunAnswer, request_pages-RunAnswer, request_pages_lost, run_past_end,
}

abbrev machine : (ℕ → ℕ) → ℕ → Pfa
machine buffer last = record {
  bitmap = record { size_bytes = 2; buffer = buffer };
  initialized = true;
  free = 0;
  allocated = 0;
  reserved = 0;
  last = last;
}

-- Every second frame is in use.
abbrev striped : Pfa
striped = machine (λ i. if i == 2 then 0 else 0x55) 0

-- Only frame 15 is free.
abbrev one_free : Pfa
one_free = machine (λ i. if i == 0 then 0xFF else if i == 1 then 0xFE else 0) 15

-- No frame is in use.
abbrev all_free : Pfa
all_free = record (machine (λ _. 0) 0) { free = 0x10000 }

all_free-IsValid : IsValid 0x10000 all_free
unfolding used get set
all_free-IsValid = record {
  accounted = record { small = omega arith; bytes = λ i. omega arith; sum = refl; held = refl };
  below = λ i l. absurd (omega arith);
}

striped_used : every_below 16 (λ i. get striped.bitmap (i + (1 - i % 2))) ≡ true
unfolding every_below get
striped_used = refl

abbrev counters : Option Pfa → Option (ℕ × ℕ × ℕ)
counters none = none
counters (some s) = some (s.last, s.free, s.allocated)

frees_and_requests :
    counters (run all_free (requests ∷ requests ∷ frees 0 1 ∷ [])) ≡ some (0, 0xF000, 0x1000)
unfolding run step request_page request_page_loop lock_page free_pages free_page for_range get set
frees_and_requests = refl

request_page-Answer_example : (r : ℕ × Pfa) × (request_page striped ≡ some r) × Answer striped r
request_page-Answer_example =
    request_page-Answer striped (omega arith) (λ i l. absurd (omega arith))

run-IsValid_example :
    (t : Pfa) × (run all_free (locks 0x3000 2 ∷ requests ∷ frees 0x3000 1 ∷ []) ≡ some t)
    × IsValid 0x10000 t
run-IsValid_example =
    run-IsValid (locks 0x3000 2 ∷ requests ∷ frees 0x3000 1 ∷ []) all_free all_free-IsValid

-- One usable region of 16 pages at 1 MB, and two pages of another type.
abbrev two_regions : ℕ → EfiMemoryDescriptor
two_regions x =
    if x == 0
    then record { type = 7; phys_addr = 0x100000; n_pages = 16 }
    else record { type = 3; phys_addr = 0; n_pages = 2 }

request_pages-RunAnswer_example :
    (r : ℕ × Pfa) × (request_pages one_free 3 ≡ some r) × RunAnswer 3 one_free r
request_pages-RunAnswer_example =
    request_pages-RunAnswer 3 one_free (omega arith) (λ i. ground arith) (omega arith)

request_pages_lost_example :
    (t : Pfa) × (request_pages striped 2 ≡ some (0, t))
    × (t.bitmap ≡ striped.bitmap)
    × (request_page t ≡ some (0, t))
request_pages_lost_example = request_pages_lost 2 striped (omega arith) (omega arith) (λ i l. (
  1 - i % 2,
  omega arith,
  every_below-true 16 (λ i. get striped.bitmap (i + (1 - i % 2))) i striped_used l,
))

run_past_end_example : request_pages one_free 4 ≡ some (0xF000, lock_pages one_free 0xF000 4)
unfolding get
run_past_end_example = run_past_end 4 one_free (omega arith) (omega arith) refl refl refl
