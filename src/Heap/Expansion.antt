-- ===== src/Heap/Expansion.antt =====
-- `ExpandHeap` on the whole heap.
use waifu_os.Prelude.{
  ℕ, ◌+◌, ◌/◌, ◌^◌, ◌≤◌, ◌<◌, ◌≡◌, refl, sym, ap, ◌∙◌, Bool, true, false, some, List, [], ◌∷◌, ◌++◌,
  arith, if◌then◌else◌, page_size,
}
use mathlib.Core.Path.{subst}
use mathlib.Core.List.{append_assoc}
use waifu_os.Heap.{header_size, PageMapper, Heap, combine_backward, expand_heap, whole_pages}
use waifu_os.Heap.Blocks.{Block, behind, total, IsChain-agree_below}
use waifu_os.Heap.Moves.{joined}
use waifu_os.Heap.Kept.{combine_backward-kept}
use waifu_os.Heap.Allocation.{total-append, IsHeap}
use waifu_os.Heap.Release.{join_if, backward-IsHeap}
use waifu_os.Heap.Growth.{
  fresh, whole_pages_lem, Mapped, expand_loop-Mapped, appended, grow, grow-IsHeap,
}

-- The blocks in front of the last one, and the last one, once `length` bytes have been added.
abbrev pub grown_front : List Block → Block → List Block
grown_front front f = if f.idle then front else (front ++ f ∷ [])

abbrev pub grown_last : Block → ℕ → Block
grown_last f length = if f.idle then joined f (fresh length) else fresh length

module _ (mapper : PageMapper) where
  pub record Expanded (h : Heap mapper) (front : List Block) (f : Block) (length more : ℕ)
      (g : Heap mapper) : Type 0 where
    pub base : g.heap_base ≡ h.heap_base
    pub end_at : g.heap_end ≡ h.heap_end + length
    pub can : mapper.CanMap g.pages more
    pub whole : IsHeap g (grown_front front f ++ grown_last f length ∷ [])

  shape :
      (t : Bool) (front : List Block) (f x : Block)
      → front ++ join_if t f x []
        ≡ (if t then front else (front ++ f ∷ [])) ++ (if t then joined f x else x) ∷ []
  shape true front f x = refl
  shape false front f x = sym (append_assoc front (f ∷ []) (x ∷ []))

  backward-Expanded :
      (h : Heap mapper) (front : List Block) (f : Block) (length more : ℕ)
      → IsHeap h (front ++ f ∷ [])
      → header_size ≤ length
      → h.heap_end + length < 2 ^ 63
      → mapper.CanMap h.pages more
      → Expanded h front f length more (combine_backward mapper (grow mapper h length) h.heap_end)
  unfolding total
  backward-Expanded h front f length more whole long bound can =
      let g = grow mapper h length in
      let place : behind (h.heap_base + total front) f ≡ h.heap_end =
        omega (arith, whole.end_at, total-append front (f ∷ [])) in
      let kept = combine_backward-kept mapper g h.heap_end in
      record {
        base = kept.base;
        end_at = kept.end_at;
        can = rw (kept.pages) can;
        whole =
            subst (λ (l : List Block). IsHeap (combine_backward mapper g h.heap_end) l)
              (shape f.idle front f (fresh length))
              (subst
                (λ (x : ℕ).
                  IsHeap (combine_backward mapper g x)
                    (front ++ join_if f.idle f (fresh length) []))
                place
                (backward-IsHeap mapper g front f (fresh length) []
                  (grow-IsHeap mapper h front f length whole long bound) refl));
      }

  -- The heap behind the loop, with the end that it had in front of it.
  mapped-IsHeap :
      (h h1 : Heap mapper) (blocks : List Block) (rounds more : ℕ)
      → IsHeap h blocks
      → Mapped mapper h rounds more h1
      → IsHeap (record h1 { heap_end = h.heap_end }) blocks
  mapped-IsHeap h h1 blocks rounds more whole m = record {
    positive = rw (m.base) whole.positive;
    chain = rw (m.base) (
        IsChain-agree_below h.memory h1.memory 0 h.heap_base blocks
          (λ q l. m.same q (omega (arith, whole.end_at))) whole.chain);
    bound = rw (m.base) whole.bound;
    end_at = rw (m.base) whole.end_at;
    last_at = rw (m.base) (m.last ∙ whole.last_at);
  }

  -- On a heap that its blocks fill and of which `LastSegment` is the last, `ExpandHeap` for a size
  -- from 1 on and below 2^62, where the pages can be mapped and the heap ends below 2^63, returns a heap of that
  -- kind again: as many whole pages longer as the size takes, with the new bytes joined to the
  -- last block if that one is free, and in a free block behind it if not.
  pub expand_heap-Expanded :
      (h : Heap mapper) (front : List Block) (f : Block) (size more : ℕ)
      → IsHeap h (front ++ f ∷ [])
      → 0 < size
      → size < 2 ^ 62
      → h.heap_end + whole_pages mapper size < 2 ^ 63
      → mapper.CanMap h.pages (whole_pages mapper size / page_size + more)
      → (g : Heap mapper) × (expand_heap mapper h size ≡ some g)
        × Expanded h front f (whole_pages mapper size) more g
  unfolding expand_heap
  expand_heap-Expanded h front f size more whole positive small bound can =
      let length = whole_pages mapper size in
      let p = whole_pages_lem mapper size positive small in
      let m = expand_loop-Mapped mapper (length / page_size) more h can (omega (arith, p, bound)) in
      let h0 : Heap mapper = record m.0 { heap_end = h.heap_end } in
      let same : appended mapper m.0 h.heap_end length ≡ grow mapper h0 length =
        ap (λ (x : ℕ). record (appended mapper m.0 h.heap_end length) { heap_end = x })
          (m.2.end_at ∙ omega (arith, p)) in
      let whole' = mapped-IsHeap h m.0 (front ++ f ∷ []) (length / page_size) more whole m.2 in
      let e = backward-Expanded h0 front f length more whole' (omega (arith, p)) bound m.2.can in
      (
        combine_backward mapper (grow mapper h0 length) h.heap_end,
        rw (m.1) (ap (λ (x : Heap mapper). some (combine_backward mapper x h.heap_end)) same),
        record { base = e.base ∙ m.2.base; end_at = e.end_at; can = e.can; whole = e.whole },
      )
