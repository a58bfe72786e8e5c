-- ===== src/Heap/Initial.antt =====
-- The heap that `InitializeHeap` leaves.
use waifu_os.Prelude.{
  length, ℕ, zero, suc, ◌+◌, ◌-◌, ◌*◌, ◌^◌, ◌≤◌, ◌<◌, ◌≡◌, refl, sym, ap, ◌∙◌, inl, inr, Bool, true,
  false, ◌&&◌, some, List, [], ◌∷◌, ◌++◌, arith, ltb, leb, if◌then◌else◌, ==_iff, length-append,
  add64, sub64, mul64, page_size,
}
use mathlib.Core.Path.{subst}
use waifu_os.Heap.{header_size, PageMapper, Heap, malloc}
use waifu_os.Heap.Blocks.{Block, total, last_offset, IsChain}
use waifu_os.Heap.Carving.{carve, carve-cut}
use waifu_os.Heap.Allocation.{IsHeap}
use waifu_os.Heap.FirstFit.{Allocated, malloc_loop-Allocated}
use waifu_os.Heap.Growth.{fresh}
use waifu_os.Heap.Start.{init_loop, Memory, first_segment, set_up, initialize_heap}

-- The first block, which is never given back, and the free rest.
abbrev pub first_block : Block
first_block = record { size = 0x10; idle = false }

abbrev pub rest_block : ℕ → Block
rest_block length = record { size = length - 0x50; idle = true }

only_one :
    (b c : Block) (front back : List Block)
    → b ∷ [] ≡ front ++ c ∷ back
    → (front ≡ []) × (back ≡ []) × (b ≡ c)
only_one b c [] [] e = (refl, refl, ap (λ (l : List Block). head_or b l) e)
  where
    head_or : Block → List Block → Block
    head_or d [] = d
    head_or d (x ∷ xs) = x
only_one b c [] (d ∷ back) e =
    let sizes : length (b ∷ []) ≡ length (c ∷ d ∷ back) = ap (λ (l : List Block). length l) e in
    absurd (omega (arith, sizes))
only_one b c (f ∷ front) back e =
    let sizes : length (b ∷ []) ≡ length (f ∷ (front ++ c ∷ back)) =
      ap (λ (l : List Block). length l) e in
    absurd (omega (arith, sizes, length-append front (c ∷ back)))

module _ (mapper : PageMapper) where
  init_loop-maps :
      (rounds : ℕ) (h : Heap mapper) (temp : ℕ)
      → mapper.CanMap h.pages rounds
      → (g : Heap mapper) × (init_loop mapper rounds h temp ≡ some g) × (g.heap_base ≡ h.heap_base)
  unfolding init_loop
  init_loop-maps zero h temp can = (h, refl, refl)
  init_loop-maps (suc rounds) h temp can =
      let m = mapper.map_page_lem h.pages rounds temp can in
      let g : Heap mapper = record h {
        pages = m.0;
        memory = λ q.
            if leb temp q && ltb q (temp + page_size)
            then record { segment_length = 0; next = 0; previous = 0; is_free = false }
            else h.memory q;
      } in
      let rest = init_loop-maps rounds g (add64 temp page_size) m.2 in
      (rest.0, rw (m.1) rest.1, rest.2)

  first_segment-IsHeap :
      (h : Heap mapper) (length : ℕ)
      → 0 < h.heap_base
      → header_size ≤ length
      → h.heap_base + length < 2 ^ 63
      → IsHeap (first_segment mapper h h.heap_base length) (fresh length ∷ [])
  unfolding IsChain total last_offset
  first_segment-IsHeap h length positive long bound =
      let exact : sub64 length header_size ≡ length - header_size = omega arith in
      record {
        positive = positive;
        chain = (rw ((==_iff h.heap_base h.heap_base).1 refl, exact) refl, tt);
        bound = omega arith;
        end_at = omega arith;
        last_at = omega arith;
      }

  -- `malloc(0x10)` cuts the first block off.
  first_malloc :
      (h : Heap mapper) (length : ℕ)
      → IsHeap h (fresh length ∷ [])
      → page_size ≤ length
      → (r : ℕ × Heap mapper) × (malloc mapper 3 1 h 0x10 ≡ some r)
        × IsHeap r.1 (first_block ∷ rest_block length ∷ [])
        × (r.1.heap_base ≡ h.heap_base)
  unfolding malloc
  first_malloc h length heap long =
      elim (malloc_loop-Allocated mapper h 0x10 2 1 (fresh length) [] heap (omega arith)
        (omega arith)) [
          | inl found ↦ (found.0, found.1, cut found.0 found.2, found.2.base)
          | inr full ↦ absurd (ground (arith, full.0.0))
        ]
    where
      cut :
          (r : ℕ × Heap mapper)
          → Allocated mapper h 0x10 (fresh length ∷ []) r
          → IsHeap r.1 (first_block ∷ rest_block length ∷ [])
      cut r a =
          let one = only_one (fresh length) a.block a.front a.back a.place in
          let room : leb (0x10 + header_size + 0x10) (length - header_size) ≡ true = ground arith in
          let rest : length - header_size - 0x10 - header_size ≡ length - 0x50 = omega arith in
          subst (λ (l : List Block). IsHeap r.1 l)
            (ap (λ (l : List Block). l ++ (carve a.block 0x10 ++ a.back)) one.0
              ∙ ap (λ (l : List Block). carve a.block 0x10 ++ l) one.1
              ∙ ap (λ (b : Block). carve b 0x10 ++ []) (sym one.2)
              ∙ carve-cut (fresh length) 0x10 [] room
              ∙ ap (λ (n : ℕ). first_block ∷ record { size = n; idle = true } ∷ []) rest)
            a.heap

  -- `InitializeHeap` with at least one page, which can all be mapped, above address 0 and below
  -- 2^63, returns where no heap is there yet. It leaves a heap of two blocks
  -- from the given address on: the 16 bytes
  -- that are never given back, and all the rest in one free block.
  pub initialize_heap-IsHeap :
      (m : Memory mapper) (heap_start pages : ℕ)
      → m.heap_initialized ≡ false
      → mapper.CanMap m.heap.pages pages
      → 0 < heap_start
      → 0 < pages
      → heap_start + pages * page_size < 2 ^ 63
      → (m' : Memory mapper) × (initialize_heap mapper m heap_start pages ≡ some m')
        × (m'.heap_initialized ≡ true)
        × IsHeap m'.heap (first_block ∷ rest_block (pages * page_size) ∷ [])
        × (m'.heap.heap_base ≡ heap_start)
  unfolding initialize_heap set_up
  initialize_heap-IsHeap m heap_start pages fresh_start can positive some_page bound =
      let h0 : Heap mapper = record m.heap { heap_base = heap_start } in
      let mapped = init_loop-maps pages h0 heap_start can in
      let exact : mul64 pages page_size ≡ pages * page_size = omega arith in
      let size = mul64 pages page_size in
      let heap =
        first_segment-IsHeap mapped.0 size (omega (arith, mapped.2)) (omega (arith, exact))
          (omega (arith, mapped.2, exact)) in
      let heap' : IsHeap (first_segment mapper mapped.0 heap_start size) (fresh size ∷ []) =
        subst (λ (x : ℕ). IsHeap (first_segment mapper mapped.0 x size) (fresh size ∷ [])) mapped.2
          heap in
      let r =
        first_malloc (first_segment mapper mapped.0 heap_start size) size heap'
          (omega (arith, exact)) in
      let returns : set_up mapper m.heap heap_start pages
          ≡ some (record { heap_initialized = true; heap = r.0.1 }) =
        rw (mapped.1, r.1) refl in
      (
        record { heap_initialized = true; heap = r.0.1 },
        subst
            (λ (t : Bool).
              (if t then some m else set_up mapper m.heap heap_start pages)
              ≡ some (record { heap_initialized = true; heap = r.0.1 }))
            (sym fresh_start) returns,
        refl,
        subst (λ (x : ℕ). IsHeap r.0.1 (first_block ∷ rest_block x ∷ [])) exact r.2,
        r.3 ∙ mapped.2,
      )
