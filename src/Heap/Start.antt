-- ===== src/Heap/Start.antt =====
-- Kernel/src/Memory/Memory.cpp: `InitializeHeap` and `calloc`.
use waifu_os.Prelude.{
  ℕ, zero, suc, ◌+◌, Bool, true, false, ◌&&◌, Option, some, ltb, leb, if◌then◌else◌, add64, sub64,
  mul64, page_size, ◌>>=◌,
}
use waifu_os.Heap.{header_size, PageMapper, Heap, update, round_size, malloc}

module _ (mapper : PageMapper) where
  -- The loop of `InitializeHeap`: map a page at `temp` and clear it.
  unfoldable pub init_loop : ℕ → Heap mapper → ℕ → Option (Heap mapper)
  init_loop zero h temp = some h
  init_loop (suc rounds) h temp = do
    pages ← mapper.map_page h.pages temp
    init_loop rounds
        (record h {
          pages = pages;
          memory = λ q.
              if leb temp q && ltb q (temp + page_size)
              then record { segment_length = 0; next = 0; previous = 0; is_free = false }
              else h.memory q;
        })
        (add64 temp page_size)

  -- `HeapInitialized` and the heap.
  pub record Memory : Type 0 where
    pub heap_initialized : Bool
    pub heap : Heap mapper

  -- `InitializeHeap` between its loop and its call of `malloc`.
  abbrev pub first_segment : Heap mapper → ℕ → ℕ → Heap mapper
  first_segment h heap_start heap_length =
      let h1 : Heap mapper = record h { heap_end = add64 heap_start heap_length } in
      let h2 = update mapper h1 heap_start (λ s. record {
        segment_length = sub64 heap_length header_size;
        next = 0;
        previous = 0;
        is_free = true;
      }) in
      record h2 { last_segment = heap_start }

  -- `InitializeHeap` behind its test.
  unfoldable pub set_up : Heap mapper → ℕ → ℕ → Option Memory
  set_up h heap_start pages = do
    mapped ← init_loop pages (record h { heap_base = heap_start }) heap_start
    first ← malloc mapper 3 1 (first_segment mapped heap_start (mul64 pages page_size)) 0x10
    some (record { heap_initialized = true; heap = first.1 })

  -- `InitializeHeap`
  unfoldable pub initialize_heap : Memory → ℕ → ℕ → Option Memory
  initialize_heap m heap_start pages =
      if m.heap_initialized then some m else set_up m.heap heap_start pages

  -- `calloc`: the bytes that it clears hold no header.
  unfoldable pub calloc : ℕ → ℕ → Heap mapper → ℕ → Option (ℕ × Heap mapper)
  calloc tries segments h size = malloc mapper tries segments h (round_size size)
