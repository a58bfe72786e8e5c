-- ===== src/Heap/Demand.antt =====
-- `malloc` with its calls of `ExpandHeap`.
use waifu_os.Prelude.{
  ℕ, suc, ◌+◌, ◌*◌, ◌/◌, ◌^◌, ◌≤◌, ◌<◌, ◌≡◌, refl, ◌∙◌, ◌⊎◌, inl, inr, false, some, List, [], ◌∷◌,
  ◌++◌, arith, ◌==◌, length, length-append, page_size,
}
use waifu_os.Heap.{
  PageMapper, Heap, no_room, search_loop, expand_heap, whole_pages, malloc_loop, malloc, round_size,
}
use waifu_os.Heap.Blocks.{Block}
use waifu_os.Heap.Allocation.{IsHeap}
use waifu_os.Heap.FirstFit.{Allocated, malloc_loop-Allocated}
use waifu_os.Heap.Early.{round_size_lem}
use waifu_os.Heap.Growth.{whole_pages_lem}
use waifu_os.Heap.Room.{
  NoRoom, Grows, ready, longer, NoRoom-last, grown_last-idle, grown_last-size, grown_last-joined,
  length-grown_if,
}
use waifu_os.Heap.Expansion.{grown_front, grown_last, Expanded, expand_heap-Expanded}

module _ (mapper : PageMapper) where
  -- The search of a whole heap.
  searched :
      (h : Heap mapper) (front : List Block) (f : Block) (size tries segments : ℕ)
      → IsHeap h (front ++ f ∷ [])
      → 0x10 ≤ size
      → length front < segments
      → ((r : ℕ × Heap mapper) × (malloc_loop mapper (suc tries) segments h size ≡ some r)
          × Allocated mapper h size (front ++ f ∷ []) r)
        ⊎ (NoRoom size (front ++ f ∷ [])
            × (search_loop mapper segments h h.heap_base size ≡ some no_room))
  searched h [] f size tries segments heap enough rounds =
      malloc_loop-Allocated mapper h size tries segments f [] heap enough rounds
  searched h (b ∷ front) f size tries segments heap enough rounds =
      malloc_loop-Allocated mapper h size tries segments b (front ++ f ∷ []) heap enough
        (omega (arith, length-append front (f ∷ []), rounds))

  again :
      (h g : Heap mapper) (size tries segments : ℕ)
      → search_loop mapper segments h h.heap_base size ≡ some no_room
      → expand_heap mapper h size ≡ some g
      → malloc_loop mapper (suc tries) segments h size
        ≡ malloc_loop mapper tries (segments + 1) g size
  unfolding malloc_loop
  again h g size tries segments e e' = rw (e, e') refl

  -- How `malloc` ends: the blocks it has allocated from are those of the heap, or those after as
  -- many expansions as it needed.
  pub record Served (h : Heap mapper) (front : List Block) (f : Block) (size : ℕ)
      (r : ℕ × Heap mapper) : Type 1 where
    pub front' : List Block
    pub f' : Block
    pub grown : Grows size (whole_pages mapper size) front f front' f'
    pub heap : Heap mapper
    pub whole : IsHeap heap (front' ++ f' ∷ [])
    pub base : heap.heap_base ≡ h.heap_base
    pub got : Allocated mapper heap size (front' ++ f' ∷ []) r

  -- A try that finds room, or an expansion and the remaining tries.
  try_once :
      (h : Heap mapper) (front : List Block) (f : Block) (size tries segments more : ℕ)
      → IsHeap h (front ++ f ∷ [])
      → 0x10 ≤ size
      → size < 2 ^ 62
      → h.heap_end + whole_pages mapper size < 2 ^ 63
      → mapper.CanMap h.pages (whole_pages mapper size / page_size + more)
      → length front < segments
      → ((g : Heap mapper)
          → NoRoom size (front ++ f ∷ [])
          → Expanded mapper h front f (whole_pages mapper size) more g
          → (r : ℕ × Heap mapper) × (malloc_loop mapper tries (segments + 1) g size ≡ some r)
            × Served g (grown_front front f) (grown_last f (whole_pages mapper size)) size r)
      → (r : ℕ × Heap mapper) × (malloc_loop mapper (suc tries) segments h size ≡ some r)
        × Served h front f size r
  try_once h front f size tries segments more whole enough small bound can rounds rest =
      elim (searched h front f size tries segments whole enough rounds) [
        | inl found ↦ (
          found.0,
          found.1,
          record {
            front' = front;
            f' = f;
            grown = ready front f;
            heap = h;
            whole = whole;
            base = refl;
            got = found.2;
          },
        )
        | inr full ↦
            let e =
              expand_heap-Expanded mapper h front f size more whole (omega arith) small bound can in
            let next = rest e.0 full.0 e.2 in
            (
              next.0,
              again h e.0 size tries segments full.1 e.1 ∙ next.1,
              record {
                front' = next.2.front';
                f' = next.2.f';
                grown = longer front next.2.front' f next.2.f' full.0 next.2.grown;
                heap = next.2.heap;
                whole = next.2.whole;
                base = next.2.base ∙ e.2.base;
                got = next.2.got;
              },
            )
      ]

  -- A block that has been added twice is large enough.
  third_try :
      (h : Heap mapper) (front : List Block) (f : Block) (size segments length' : ℕ)
      → IsHeap h (front ++ grown_last (grown_last f length') length' ∷ [])
      → size ≤ length'
      → page_size ≤ length'
      → 0x10 ≤ size
      → length front < segments
      → (r : ℕ × Heap mapper) × (malloc_loop mapper 1 segments h size ≡ some r)
        × Served h front (grown_last (grown_last f length') length') size r
  third_try h front f size segments length' whole fit long enough rounds =
      let last = grown_last (grown_last f length') length' in
      elim (searched h front last size 0 segments whole enough rounds) [
        | inl found ↦ (
          found.0,
          found.1,
          record {
            front' = front;
            f' = last;
            grown = ready front last;
            heap = h;
            whole = whole;
            base = refl;
            got = found.2;
          },
        )
        | inr full ↦
            let small =
              NoRoom-last size front last full.0 (grown_last-idle (grown_last f length') length') in
            let first = grown_last-size f length' in
            let sum =
              grown_last-joined (grown_last f length') length' (grown_last-idle f length') in
            absurd (omega (arith, small, first, sum, fit, long))
      ]

  -- On a heap that its blocks fill and of which `LastSegment` is the last, `malloc` of a size from
  -- 16 to 2^62 always returns, with a round of the search for each block and two calls of itself
  -- at most, where the pages for two expansions can be mapped and the heap then ends below 2^63.
  -- It expands the heap only where no block is free and large enough, and then
  -- takes the first free block that is large enough of those the expansions have made.
  pub malloc_loop-Served :
      (h : Heap mapper) (front : List Block) (f : Block) (size segments more : ℕ)
      → IsHeap h (front ++ f ∷ [])
      → 0x10 ≤ size
      → size < 2 ^ 62
      → h.heap_end + 2 * whole_pages mapper size < 2 ^ 63
      → mapper.CanMap h.pages
          (whole_pages mapper size / page_size + (whole_pages mapper size / page_size + more))
      → length front < segments
      → (r : ℕ × Heap mapper) × (malloc_loop mapper 3 segments h size ≡ some r)
        × Served h front f size r
  malloc_loop-Served h front f size segments more whole enough small bound can rounds =
      let l = whole_pages mapper size in
      let p = whole_pages_lem mapper size (omega arith) small in
      let n = whole_pages mapper size / page_size in
      try_once h front f size 2 segments (n + more) whole enough small (omega arith) can rounds
        (λ g none_fits e.
          let rounds' = length-grown_if f.idle front f in
          try_once g (grown_front front f) (grown_last f l) size 1 (segments + 1) more e.whole
            enough small (omega (arith, e.end_at)) e.can (omega (arith, rounds', rounds))
            (λ k none_fits' e'.
              let rounds'' =
                length-grown_if (grown_last f l).idle (grown_front front f) (grown_last f l) in
              third_try k (grown_front (grown_front front f) (grown_last f l)) f size
                (segments + 1 + 1) l e'.whole (omega arith) (omega (arith, p)) enough
                (omega (arith, rounds', rounds'', rounds))))

  -- On a heap whose headers are those of a list of blocks that ends where the heap ends and of
  -- which `LastSegment` is the last, `malloc` of any size from 1 to 2^61 returns, with a round of
  -- the search for each block and two calls of itself at most, where the pages for two
  -- expansions can be mapped and the heap then ends below 2^63. It expands the heap only where no
  -- block is free and large enough for the rounded size, and takes the first one that is. The
  -- heap is then again one of that kind, and the rounded size is at least the one asked for.
  pub malloc-Served :
      (h : Heap mapper) (front : List Block) (f : Block) (size segments more : ℕ)
      → IsHeap h (front ++ f ∷ [])
      → 0 < size
      → size < 2 ^ 61
      → h.heap_end + 2 * whole_pages mapper (round_size size) < 2 ^ 63
      → mapper.CanMap h.pages (
          whole_pages mapper (round_size size) / page_size
          + (whole_pages mapper (round_size size) / page_size + more))
      → length front < segments
      → (r : ℕ × Heap mapper) × (malloc mapper 3 segments h size ≡ some r)
        × Served h front f (round_size size) r
        × (size ≤ round_size size)
  unfolding malloc
  malloc-Served h front f size segments more whole positive small bound can rounds =
      let rounded = round_size_lem size (omega arith) in
      let there : (round_size size == 0) ≡ false = ground (arith, rounded) in
      let r =
        malloc_loop-Served h front f (round_size size) segments more whole (omega (arith, rounded))
          (omega (arith, rounded)) bound can rounds in
      (r.0, rw (there) r.1, r.2, rounded.0)
