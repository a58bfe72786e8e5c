-- ===== src/Heap/Tests.antt =====
-- A heap of three blocks, and the laws of the heap at it.
use waifu_os.Prelude.{
  List, ◌*◌, ℕ, ◌+◌, ◌≤◌, ◌<◌, ◌≡◌, refl, ◌⊎◌, true, false, ◌&&◌, some, [], ◌∷◌, arith, leb, ◌==◌,
  if◌then◌else◌, length, All,
}
use waifu_os.Heap.{
  malloc, PageMapper, Heap, search_loop, no_room, malloc_loop, free_segment, expand_heap,
  get_remaining_heap,
}
use waifu_os.Heap.Blocks.{Block, IsChain, total, last_offset}
use waifu_os.Heap.Allocation.{IsHeap}
use waifu_os.Heap.FirstFit.{Allocated, malloc_loop-Allocated}
use waifu_os.Heap.Release.{released, merged, attached, free_segment-IsHeap}
use waifu_os.Heap.Expansion.{Expanded, expand_heap-Expanded}
use waifu_os.Heap.Room.{NoRoom}
use waifu_os.Heap.Demand.{Served, malloc_loop-Served, malloc-Served}
use waifu_os.Heap.Coalesced.{Coalesced}
use waifu_os.Heap.RoundTrip.{free_segment-malloc_loop}
use waifu_os.Heap.Start.{Memory, initialize_heap}
use waifu_os.Heap.Initial.{first_block, rest_block, initialize_heap-IsHeap}
use waifu_os.Heap.Remaining.{free_bytes, get_remaining_heap_lem}
use waifu_os.Heap.Life.{Sound, Reached, initialized, after_malloc, Reached-Sound}

-- Pages that are always mapped.
abbrev mapper : PageMapper
mapper = record {
  State = ℕ;
  map_page = λ s address. some (s + 1);
  CanMap = λ s n. Unit;
  map_page_lem = λ s n address can. (s + 1, refl, tt);
}

abbrev used : Block
used = record { size = 0x20; idle = false }

abbrev spare : Block
spare = record { size = 0x40; idle = true }

abbrev rest : Block
rest = record { size = 0xF40; idle = true }

abbrev heap : Heap mapper
heap = record {
  memory = λ p.
      if p == 0x1000
      then record { segment_length = 0x20; next = 0x1040; previous = 0; is_free = false }
      else if p == 0x1040
      then record { segment_length = 0x40; next = 0x10A0; previous = 0x1000; is_free = true }
      else record { segment_length = 0xF40; next = 0; previous = 0x1040; is_free = true };
  heap_base = 0x1000;
  heap_end = 0x2000;
  last_segment = 0x10A0;
  pages = 0;
}

heap-IsChain : IsChain heap.memory 0 0x1000 (used ∷ spare ∷ rest ∷ [])
unfolding IsChain
heap-IsChain = (refl, (refl, (refl, tt)))

heap-IsHeap : IsHeap heap (used ∷ spare ∷ rest ∷ [])
unfolding total last_offset
heap-IsHeap = record {
  positive = omega arith;
  chain = heap-IsChain;
  bound = omega arith;
  end_at = omega arith;
  last_at = omega arith;
}

small_chain : length (spare ∷ rest ∷ []) < 3
small_chain = omega arith

malloc_loop-Allocated_example :
    ((r : ℕ × Heap mapper) × (malloc_loop mapper 1 3 heap 0x100 ≡ some r)
      × Allocated mapper heap 0x100 (used ∷ spare ∷ rest ∷ []) r)
    ⊎ (All (λ f. (f.idle && leb 0x100 f.size) ≡ false) (used ∷ spare ∷ rest ∷ [])
        × (search_loop mapper 3 heap 0x1000 0x100 ≡ some no_room))
malloc_loop-Allocated_example =
    malloc_loop-Allocated mapper heap 0x100 0 3 used (spare ∷ rest ∷ []) heap-IsHeap (omega arith)
      small_chain

free_segment-IsHeap_example :
    IsHeap (free_segment mapper heap 0x1060) (attached used (merged (released spare) (rest ∷ [])))
unfolding total
free_segment-IsHeap_example = free_segment-IsHeap mapper heap [] used spare (rest ∷ []) heap-IsHeap

expand_heap-Expanded_example :
    (g : Heap mapper) × (expand_heap mapper heap 0x1800 ≡ some g)
    × Expanded mapper heap (used ∷ spare ∷ []) rest 0x2000 0 g
expand_heap-Expanded_example =
    expand_heap-Expanded mapper heap (used ∷ spare ∷ []) rest 0x1800 0 heap-IsHeap (omega arith)
      (omega arith) (omega arith) tt

-- A heap of four pages at 0x10000, of which 16 bytes are in use.
abbrev before_start : Memory mapper
before_start = record { heap_initialized = false; heap = heap }

abbrev start_blocks : List Block
start_blocks = first_block ∷ rest_block (4 * 0x1000) ∷ []

start :
    (m : Memory mapper) × (initialize_heap mapper before_start 0x10000 4 ≡ some m)
    × (m.heap_initialized ≡ true)
    × IsHeap m.heap start_blocks
    × (m.heap.heap_base ≡ 0x10000)
start =
    initialize_heap-IsHeap mapper before_start 0x10000 4 refl tt (omega arith) (omega arith)
      (omega arith)

initialize_heap-IsHeap_example :
    (m : Memory mapper) × (initialize_heap mapper before_start 0x10000 4 ≡ some m)
    × (m.heap_initialized ≡ true)
    × IsHeap m.heap start_blocks
    × (m.heap.heap_base ≡ 0x10000)
initialize_heap-IsHeap_example =
    initialize_heap-IsHeap mapper before_start 0x10000 4 refl tt (omega arith) (omega arith)
      (omega arith)

abbrev started : Memory mapper
started = start.0

started-Reached : Reached mapper started.heap
started-Reached =
    initialized before_start started 0x10000 4 refl tt (omega arith) (omega arith) (omega arith)
      start.1

start_blocks-Coalesced : Coalesced start_blocks
unfolding Coalesced
start_blocks-Coalesced = (refl, tt)

free_segment-malloc_loop_example :
    ((r : ℕ × Heap mapper) × (malloc_loop mapper 1 2 started.heap 0x100 ≡ some r)
      × IsHeap (free_segment mapper r.1 r.0) start_blocks)
    ⊎ (NoRoom 0x100 start_blocks
        × (search_loop mapper 2 started.heap started.heap.heap_base 0x100 ≡ some no_room))
free_segment-malloc_loop_example =
    free_segment-malloc_loop mapper started.heap first_block (rest_block (4 * 0x1000) ∷ []) 0x100 0
      2 start.3 start_blocks-Coalesced refl (omega arith) (omega arith)

-- A call that has to expand the heap.
after_large :
    (r : ℕ × Heap mapper) × (malloc_loop mapper 3 2 started.heap 0x8000 ≡ some r)
    × Served mapper started.heap (first_block ∷ []) (rest_block (4 * 0x1000)) 0x8000 r
unfolding total
after_large =
    malloc_loop-Served mapper started.heap (first_block ∷ []) (rest_block (4 * 0x1000)) 0x8000 2 0
      start.3 (omega arith) (omega arith) (omega (arith, start.3.end_at, start.4)) tt (omega arith)

after_large-Reached : Reached mapper after_large.0.1
unfolding total
after_large-Reached =
    after_malloc started.heap (first_block ∷ []) (rest_block (4 * 0x1000)) 0x8000 2 0 after_large.0
      started-Reached start.3 (omega arith) (omega arith) (omega arith)
      (omega (arith, start.3.end_at, start.4)) tt after_large.1

Reached-Sound_example : (blocks : List Block) × Sound after_large.0.1 blocks
Reached-Sound_example = Reached-Sound mapper after_large.0.1 after_large-Reached

malloc-Served_example :
    (r : ℕ × Heap mapper) × (malloc mapper 3 3 heap 0x17F8 ≡ some r)
    × Served mapper heap (used ∷ spare ∷ []) rest 0x1800 r
    × (0x17F8 ≤ 0x1800)
malloc-Served_example =
    malloc-Served mapper heap (used ∷ spare ∷ []) rest 0x17F8 3 0 heap-IsHeap (omega arith)
      (omega arith) (omega arith) tt (omega arith)

get_remaining_heap_lem_example :
    get_remaining_heap mapper 4 heap ≡ some (0xF40 + free_bytes (used ∷ spare ∷ rest ∷ []))
get_remaining_heap_lem_example =
    get_remaining_heap_lem mapper heap 4 (used ∷ spare ∷ []) rest heap-IsHeap (omega arith)
