-- ===== src/Heap/Life.antt =====
-- The heaps that the calls of the program make, from `InitializeHeap` on.
use waifu_os.Prelude.{
  length, ℕ, ◌+◌, ◌*◌, ◌/◌, ◌^◌, ◌≤◌, ◌<◌, ◌≡◌, refl, sym, ap, ap₂, ◌∙◌, Bool, true, false, some,
  List, [], ◌∷◌, ◌++◌, arith, if◌then◌else◌, page_size,
}
use mathlib.Core.Path.{subst}
use mathlib.Core.Option.{some-injective}
use mathlib.Core.List.{append_assoc}
use waifu_os.Heap.{
  SegmentHeader, header_size, PageMapper, Heap, whole_pages, malloc_loop, free_segment,
}
use waifu_os.Heap.Blocks.{Block, behind, total, IsChain}
use waifu_os.Heap.Moves.{joined}
use waifu_os.Heap.Carving.{carve}
use waifu_os.Heap.Allocation.{IsHeap}
use waifu_os.Heap.Release.{released, join_if, merged, attached, free_segment-IsHeap}
use waifu_os.Heap.Growth.{fresh}
use waifu_os.Heap.Expansion.{grown_front, grown_last}
use waifu_os.Heap.Room.{Grows, ready, longer}
use waifu_os.Heap.Demand.{Served, malloc_loop-Served}
use waifu_os.Heap.Coalesced.{Coalesced, Coalesced-replace, carve-Coalesced, released-Coalesced}
use waifu_os.Heap.Start.{Memory, initialize_heap}
use waifu_os.Heap.Initial.{first_block, rest_block, initialize_heap-IsHeap}

-- The headers and the end of the heap determine the blocks.
IsChain-unique :
    (m : ℕ → SegmentHeader) (p p' a : ℕ) (bs bs' : List Block)
    → IsChain m p a bs
    → IsChain m p' a bs'
    → total bs ≡ total bs'
    → bs ≡ bs'
unfolding IsChain total
IsChain-unique m p p' a [] [] c c' e = refl
IsChain-unique m p p' a [] (b ∷ bs) c c' e = absurd (omega arith)
IsChain-unique m p p' a (b ∷ bs) [] c c' e = absurd (omega arith)
IsChain-unique m p p' a (b ∷ bs) (b' ∷ bs') c c' e =
    let same = sym c.0 ∙ c'.0 in
    let size : b.size ≡ b'.size = ap (λ (s : SegmentHeader). s.segment_length) same in
    let idle : b.idle ≡ b'.idle = ap (λ (s : SegmentHeader). s.is_free) same in
    let next : behind a b ≡ behind a b' = omega arith in
    ap₂ (λ (x : Block) (l : List Block). x ∷ l)
      (ap₂ (λ (n : ℕ) (t : Bool). record { size = n; idle = t }) size idle)
      (IsChain-unique m a a (behind a b) bs bs' c.1
        (subst (λ (x : ℕ). IsChain m a x bs') (sym next) c'.1) (omega arith))

pub IsHeap-unique :
    (mapper : PageMapper) (h : Heap mapper) (bs bs' : List Block)
    → IsHeap h bs
    → IsHeap h bs'
    → bs ≡ bs'
IsHeap-unique mapper h bs bs' heap heap' =
    IsChain-unique h.memory 0 0 h.heap_base bs bs' heap.chain heap'.chain
      (omega (arith, heap.end_at, heap'.end_at))

-- The first block is the one that is never given back.
abbrev pub first_idle : List Block → Bool
first_idle [] = true
first_idle (b ∷ bs) = b.idle

first_idle-replace :
    (front : List Block) (b : Block) (back new : List Block)
    → (b.idle ≡ false → first_idle new ≡ false)
    → first_idle (front ++ b ∷ back) ≡ false
    → first_idle (front ++ new) ≡ false
first_idle-replace [] b back new keep busy = keep busy
first_idle-replace (f ∷ front) b back new keep busy = busy

first_idle-join_if :
    (t : Bool) (b c : Block) (bs : List Block) → first_idle (join_if t b c bs) ≡ b.idle
first_idle-join_if true b c bs = refl
first_idle-join_if false b c bs = refl

first_idle-attached : (f : Block) (bs : List Block) → first_idle (attached f bs) ≡ f.idle
first_idle-attached f [] = refl
first_idle-attached f (x ∷ ys) = first_idle-join_if f.idle f x ys

-- What every heap of the program is.
pub record Sound {mapper : PageMapper} (h : Heap mapper) (blocks : List Block) : Type 0 where
  pub heap : IsHeap h blocks
  pub apart : Coalesced blocks
  pub kept : first_idle blocks ≡ false

module _ (size length' : ℕ) where
  grown-apart :
      (t : Bool) (front : List Block) (f : Block)
      → f.idle ≡ t
      → Coalesced (front ++ f ∷ [])
      → first_idle (front ++ f ∷ []) ≡ false
      → Coalesced (
          (if t then front else (front ++ f ∷ []))
          ++ (if t then joined f (fresh length') else fresh length') ∷ [])
        × (first_idle (
              (if t then front else (front ++ f ∷ []))
              ++ (if t then joined f (fresh length') else fresh length') ∷ [])
            ≡ false)
  unfolding Coalesced
  grown-apart true front f e apart kept = (
    Coalesced-replace front f (joined f (fresh length')) [] [] (λ i. i) (λ c. tt) apart,
    first_idle-replace front f [] (joined f (fresh length') ∷ []) (λ i. i) kept,
  )
  grown-apart false front f e apart kept = rw (append_assoc front (f ∷ []) (fresh length' ∷ [])) (
    Coalesced-replace front f f [] (fresh length' ∷ []) (λ i. i) (λ c. (ground (arith, e), tt))
        apart,
    first_idle-replace front f [] (f ∷ fresh length' ∷ []) (λ i. i) kept,
  )

  Grows-apart :
      (front front' : List Block) (f f' : Block)
      → Grows size length' front f front' f'
      → Coalesced (front ++ f ∷ [])
      → first_idle (front ++ f ∷ []) ≡ false
      → Coalesced (front' ++ f' ∷ []) × (first_idle (front' ++ f' ∷ []) ≡ false)
  Grows-apart front front' f f' (ready x y) apart kept = (apart, kept)
  Grows-apart front front' f f' (longer x x' y y' none_fits more) apart kept =
      let g = grown-apart y.idle x y refl apart kept in
      Grows-apart (grown_front x y) x' (grown_last y length') y' more g.0 g.1

module _ (mapper : PageMapper) where
  carve-kept :
      (front : List Block) (b : Block) (size : ℕ) (back : List Block)
      → b.idle ≡ true
      → first_idle (front ++ b ∷ back) ≡ false
      → first_idle (front ++ (carve b size ++ back)) ≡ false
  carve-kept front b size back idle kept =
      first_idle-replace front b back (carve b size ++ back) (λ busy. ground arith) kept

  -- `malloc` leaves a heap of the kind that it found.
  malloc-Sound :
      (h : Heap mapper) (front : List Block) (f : Block) (size : ℕ) (r : ℕ × Heap mapper)
      → Sound h (front ++ f ∷ [])
      → Served mapper h front f size r
      → (blocks : List Block) × Sound r.1 blocks
  malloc-Sound h front f size r s served =
      let a = served.got in
      let g =
        Grows-apart size (whole_pages mapper size) front served.front' f served.f' served.grown
          s.apart s.kept in
      (
        a.front ++ (carve a.block size ++ a.back),
        record {
          heap = a.heap;
          apart =
              carve-Coalesced a.front a.block size a.back
                (subst (λ (l : List Block). Coalesced l) a.place g.0);
          kept =
              carve-kept a.front a.block size a.back a.idle
                (subst (λ (l : List Block). first_idle l ≡ false) a.place g.1);
        },
      )

  -- `free` of a block behind the first one does, too.
  free-Sound :
      (h : Heap mapper) (front : List Block) (f b : Block) (back : List Block)
      → Sound h (front ++ f ∷ b ∷ back)
      → Sound
          (free_segment mapper h (behind (h.heap_base + total front) f + header_size))
          (front ++ attached f (merged (released b) back))
  free-Sound h front f b back s = record {
    heap = free_segment-IsHeap mapper h front f b back s.heap;
    apart = released-Coalesced front f b back s.apart;
    kept =
        first_idle-replace front f (b ∷ back) (attached f (merged (released b) back))
          (λ busy. first_idle-attached f (merged (released b) back) ∙ busy) s.kept;
  }

  -- The heaps that `InitializeHeap` makes, and those that a further call makes of one of them.
  pub data Reached : Heap mapper → Type 0 where
    initialized :
        (m m' : Memory mapper) (heap_start pages : ℕ)
        → m.heap_initialized ≡ false
        → mapper.CanMap m.heap.pages pages
        → 0 < heap_start
        → 0 < pages
        → heap_start + pages * page_size < 2 ^ 63
        → initialize_heap mapper m heap_start pages ≡ some m'
        → Reached m'.heap
    after_malloc :
        (h : Heap mapper) (front : List Block) (f : Block) (size segments more : ℕ)
        (r : ℕ × Heap mapper)
        → Reached h
        → IsHeap h (front ++ f ∷ [])
        → length front < segments
        → 0x10 ≤ size
        → size < 2 ^ 62
        → h.heap_end + 2 * whole_pages mapper size < 2 ^ 63
        → mapper.CanMap h.pages
            (whole_pages mapper size / page_size + (whole_pages mapper size / page_size + more))
        → malloc_loop mapper 3 segments h size ≡ some r
        → Reached r.1
    after_free :
        (h : Heap mapper) (front : List Block) (f b : Block) (back : List Block)
        → Reached h
        → IsHeap h (front ++ f ∷ b ∷ back)
        → b.idle ≡ false
        → Reached (free_segment mapper h (behind (h.heap_base + total front) f + header_size))

  -- From `InitializeHeap` on, over every sequence of calls of `malloc`, with its expansions, and of
  -- `free` for blocks in use behind the first one, the headers of the heap are those of blocks that
  -- lie one behind the other up to the end of the heap, of which `LastSegment` is the last;
  -- no two neighbours are free, and the first block stays in use. Sizes are rounded ones below
  -- 2^62, the pages can be mapped and the heap ends below 2^63.
  pub Reached-Sound : (h : Heap mapper) → Reached h → (blocks : List Block) × Sound h blocks
  unfolding Coalesced
  Reached-Sound h (initialized m m' heap_start pages off can positive some_page bound e) =
      let i = initialize_heap-IsHeap mapper m heap_start pages off can positive some_page bound in
      let same : i.0 ≡ m' = some-injective _ _ (sym i.1 ∙ e) in
      subst (λ (x : Memory mapper). (blocks : List Block) × Sound x.heap blocks) same
        (
          first_block ∷ rest_block (pages * page_size) ∷ [],
          record { heap = i.3; apart = (refl, tt); kept = refl },
        )
  Reached-Sound h
        (after_malloc g front f size segments more r reached heap rounds enough small bound can e) =
      let s = Reached-Sound g reached in
      let same = IsHeap-unique mapper g s.0 (front ++ f ∷ []) s.1.heap heap in
      let m =
        malloc_loop-Served mapper g front f size segments more heap enough small bound can rounds in
      let answer : m.0 ≡ r = some-injective _ _ (sym m.1 ∙ e) in
      subst (λ (x : ℕ × Heap mapper). (blocks : List Block) × Sound x.1 blocks) answer
        (malloc-Sound g front f size m.0 (subst (λ (l : List Block). Sound g l) same s.1) m.2)
  Reached-Sound h (after_free g front f b back reached heap busy) =
      let s = Reached-Sound g reached in
      let same = IsHeap-unique mapper g s.0 (front ++ f ∷ b ∷ back) s.1.heap heap in
      (
        front ++ attached f (merged (released b) back),
        free-Sound g front f b back (subst (λ (l : List Block). Sound g l) same s.1),
      )
