-- ===== src/Heap.antt =====
-- Kernel/src/Memory/Memory.cpp: the kernel heap, a chain of segments with a header before each. The
-- memory is a function from an address to the header that stands there; null is 0. The pages come
-- from a `PageMapper`. One processor holds `memoryLock`.
pub mod Blocks
pub mod Chain
pub mod Moves
pub mod Splitting
pub mod Allocation
pub mod Kept
pub mod Carving
pub mod FirstFit
pub mod Release
pub mod Growth
pub mod Expansion
pub mod Room
pub mod Demand
pub mod Coalesced
pub mod RoundTrip
pub mod Start
pub mod Initial
pub mod Life
pub mod Remaining
pub mod Early
mod Tests
use waifu_os.Prelude.{
  ℕ, zero, suc, ◌+◌, ◌-◌, ◌*◌, ◌/◌, ◌%◌, ◌^◌, ◌≤◌, ◌<◌, bit_and, bit_or, min, max, ◌≡◌, refl, sym,
  ap, ap₂, ◌∙◌, fun_ext, ◌≢◌, ◌↔◌, ◌⊎◌, inl, inr, Bool, true, false, not, ◌&&◌, ◌||◌, Option, none,
  some, List, [], ◌∷◌, ◌++◌, map, arith, ltb, leb, ◌==◌, if◌then◌else◌, ltb→lt, lt→ltb, leb→le,
  ==_iff, tests, Bool-cases, Option-cases, length, get_elem?, get_or, set, take, drop, replicate,
  length-append, length-set, length-replicate, All, u8, u16, u32, u64, add64, sub64, mul64, ◌<<<◌,
  ◌>>>◌, page_size, ◌>>=◌, >>=_assoc,
}

-- `SegmentHeader`
pub record SegmentHeader : Type 0 where
  pub segment_length : ℕ
  pub next : ℕ
  pub previous : ℕ
  pub is_free : Bool

-- `sizeof(SegmentHeader)`
abbrev pub header_size : ℕ
header_size = 32

-- `MapMemory(address, RequestPage())`, and how many more pages it will map.
pub record PageMapper : Type 1 where
  pub State : Type 0
  pub map_page : State → ℕ → Option State
  pub CanMap : State → ℕ → Type 0
  pub map_page_lem :
      (s : State) (n address : ℕ)
      → CanMap s (suc n)
      → (s' : State) × (map_page s address ≡ some s') × CanMap s' n

-- `size -= (size & 0b1111) ? size & 0b1111 : 0x10; size += 0x10;`
abbrev pub round_size : ℕ → ℕ
round_size size =
    let low = bit_and size 0xF in add64 (sub64 size (if low == 0 then 0x10 else low)) 0x10

module _ (mapper : PageMapper) where
  pub record Heap : Type 0 where
    pub memory : ℕ → SegmentHeader
    pub heap_base : ℕ
    pub heap_end : ℕ
    pub last_segment : ℕ
    pub pages : mapper.State

  abbrev pub update : Heap → ℕ → (SegmentHeader → SegmentHeader) → Heap
  update h p change = record h { memory = λ q. if q == p then change (h.memory p) else h.memory q }

  abbrev pub when : Bool → (Heap → Heap) → Heap → Heap
  when test change h = if test then change h else h

  -- The steps of `CombineForward`, one for each of its statements.
  unfoldable pub absorb : Heap → ℕ → ℕ → Heap
  absorb h this next = update h this (λ s. record s {
    segment_length = add64 s.segment_length (add64 (h.memory next).segment_length header_size);
  })

  unfoldable pub move_last : Heap → ℕ → ℕ → Heap
  move_last h this next = when (next == h.last_segment) (λ g. record g { last_segment = this }) h

  unfoldable pub link_back : Heap → ℕ → ℕ → Heap
  link_back h this after =
      when (not (after == 0)) (λ g. update g after (λ s. record s { previous = this })) h

  unfoldable pub link_on : Heap → ℕ → ℕ → Heap
  link_on h this after = update h this (λ s. record s { next = after })

  -- `SegmentHeader::CombineForward`
  unfoldable pub combine_forward : Heap → ℕ → Heap
  combine_forward h this =
      let next = (h.memory this).next in
      if next == 0
      then h
      else if not (h.memory next).is_free
      then h
      else (let h2 = move_last (absorb h this next) this next in
          let h3 = link_back h2 this (h2.memory next).next in link_on h3 this (h3.memory next).next)

  -- `SegmentHeader::CombineBackward`
  unfoldable pub combine_backward : Heap → ℕ → Heap
  combine_backward h this =
      let previous = (h.memory this).previous in
      if not (previous == 0) && (h.memory previous).is_free then combine_forward h previous else h

  -- The header that `Split` writes, in two steps.
  unfoldable pub new_segment : Heap → ℕ → ℕ → ℕ → Heap
  new_segment h this new_header new_length = update h new_header (λ s. record s {
    previous = this;
    segment_length = new_length;
    is_free = (h.memory this).is_free;
  })

  unfoldable pub shorten : Heap → ℕ → ℕ → Heap
  shorten h this split_length = update h this (λ s. record s { segment_length = split_length })

  -- The part of `SegmentHeader::Split` behind the tests.
  unfoldable pub split_segment : Heap → ℕ → ℕ → ℕ → Heap
  split_segment h this split_length new_length =
      let new_header = add64 (add64 this split_length) header_size in
      let h1 = link_back h new_header (h.memory this).next in
      let h2 = link_on h1 new_header (h1.memory this).next in
      let h3 = link_on h2 this new_header in
      let h4 = new_segment h3 this new_header new_length in
      let h5 = shorten h4 this split_length in
      when (h5.last_segment == this) (λ g. record g { last_segment = new_header }) h5

  -- `SegmentHeader::Split`; the new length is an `i64`.
  unfoldable pub split : Heap → ℕ → ℕ → Heap
  split h this split_length =
      let new_length = sub64 (sub64 (h.memory this).segment_length split_length) header_size in
      if ltb split_length 0x10
      then h
      else if ltb new_length 0x10 || leb (2 ^ 63) new_length
      then h
      else split_segment h this split_length new_length

  -- `seg->Free = false`
  unfoldable pub take_segment : Heap → ℕ → Heap
  take_segment h seg = update h seg (λ s. record s { is_free = false })

  -- What the loop of `malloc` does: an allocation, or the end of the chain.
  pub data Search : Type 0 where
    allocated : ℕ → Heap → Search
    no_room : Search

  -- The loop of `malloc`; a round for each segment.
  unfoldable pub search_loop : ℕ → Heap → ℕ → ℕ → Option Search
  search_loop zero h seg size = none
  search_loop (suc fuel) h seg size =
      let s = h.memory seg in
      let onward = if s.next == 0 then some no_room else search_loop fuel h s.next size in
      if not s.is_free
      then onward
      else if ltb size s.segment_length
      then some (allocated (seg + header_size) (take_segment (split h seg size) seg))
      else if s.segment_length == size
      then some (allocated (seg + header_size) (take_segment h seg))
      else onward

  -- The loop of `ExpandHeap`: map a page at the end of the heap and clear it.
  unfoldable pub expand_loop : ℕ → Heap → Option Heap
  expand_loop zero h = some h
  expand_loop (suc rounds) h = do
    pages ← mapper.map_page h.pages h.heap_end
    expand_loop rounds (record h {
      pages = pages;
      memory = λ q.
          if leb h.heap_end q && ltb q (h.heap_end + page_size)
          then record { segment_length = 0; next = 0; previous = 0; is_free = false }
          else h.memory q;
      heap_end = add64 h.heap_end page_size;
    })

  -- `length` rounded up to pages.
  abbrev pub whole_pages : ℕ → ℕ
  whole_pages length =
      if length % page_size == 0 then length else add64 (length - length % page_size) page_size

  -- `ExpandHeap`
  unfoldable pub expand_heap : Heap → ℕ → Option Heap
  expand_heap h size = do
    let length = whole_pages size
    let new_segment = h.heap_end
    h1 ← expand_loop (length / page_size) h
    let h2 = update h1 new_segment (λ s. record s { is_free = true; previous = h1.last_segment })
    let h3 = update h2 h2.last_segment (λ s. record s { next = new_segment })
    let h4 = record h3 { last_segment = new_segment }
    let h5 =
        update h4 new_segment
          (λ s. record s { next = 0; segment_length = sub64 length header_size })
    some (combine_backward h5 new_segment)

  -- What `malloc` does with the answer of its loop.
  abbrev pub after_search : Search → (Unit {0} → Option (ℕ × Heap)) → Option (ℕ × Heap)
  after_search (allocated p h) again = some (p, h)
  after_search no_room again = again tt

  -- `malloc` of a rounded size: the call of itself behind `ExpandHeap` is a further try.
  unfoldable pub malloc_loop : ℕ → ℕ → Heap → ℕ → Option (ℕ × Heap)
  malloc_loop zero segments h size = none
  malloc_loop (suc tries) segments h size = do
    found ← search_loop segments h h.heap_base size
    after_search found (λ u. expand_heap h size >>= (λ g. malloc_loop tries (segments + 1) g size))

  -- `malloc` once the heap is there: none is the page fault.
  unfoldable pub malloc : ℕ → ℕ → Heap → ℕ → Option (ℕ × Heap)
  malloc tries segments h size =
      if round_size size == 0 then none else malloc_loop tries segments h (round_size size)

  -- `free` behind its tests; the fill with 0x33 does not reach a header.
  unfoldable pub free_segment : Heap → ℕ → Heap
  free_segment h address =
      let seg = sub64 address header_size in
      combine_backward (combine_forward (update h seg (λ s. record s { is_free = true })) seg) seg

  -- `free` once the heap is there; `early` is the array of `earlyMalloc`, none is the page fault.
  unfoldable pub free : ℕ → Heap → ℕ → Option Heap
  free early h address =
      if address == 0
      then none
      else if leb early address && ltb address (early + 8 * 0x4000)
      then some h
      else some (free_segment h address)

  -- `GetRemainingHeap`: the loop over the chain.
  unfoldable pub free_bytes_loop : ℕ → Heap → ℕ → ℕ → Option ℕ
  free_bytes_loop zero h pos bytes = none
  free_bytes_loop (suc fuel) h pos bytes =
      elim (not (pos == 0) && (leb h.heap_base pos && leb pos h.heap_end)) [
        | false ↦ some bytes
        | true ↦
            let s = h.memory pos in
            free_bytes_loop fuel h s.next
              (if s.is_free then add64 bytes s.segment_length else bytes)
      ]

  -- `GetRemainingHeap`: the last segment is counted once more.
  unfoldable pub get_remaining_heap : ℕ → Heap → Option ℕ
  get_remaining_heap fuel h = do
    bytes ← free_bytes_loop fuel h h.heap_base 0
    some (
        if h.last_segment == 0 then bytes else add64 (h.memory h.last_segment).segment_length bytes)
