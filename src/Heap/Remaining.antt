-- ===== src/Heap/Remaining.antt =====
-- `GetRemainingHeap`
use waifu_os.Prelude.{
  ℕ, zero, suc, ◌+◌, ◌^◌, ◌≤◌, ◌<◌, ◌≡◌, refl, sym, ap, ◌∙◌, inl, inr, Bool, true, false, not, ◌&&◌,
  some, List, [], ◌∷◌, ◌++◌, arith, leb, ◌==◌, if◌then◌else◌, Bool-cases, length, length-append,
  add64,
}
use mathlib.Core.Path.{subst}
use waifu_os.Heap.{SegmentHeader, PageMapper, Heap, free_bytes_loop, get_remaining_heap}
use waifu_os.Heap.Blocks.{
  Block, behind, total, link, IsChain, IsChain-at, last_offset, last_offset-append,
}
use waifu_os.Heap.Allocation.{IsHeap, total-append}

-- The bytes in the free blocks.
unfoldable pub free_bytes : List Block → ℕ
free_bytes [] = 0
free_bytes (b ∷ bs) = (if b.idle then b.size else 0) + free_bytes bs

free_bytes-bounded : (bs : List Block) → free_bytes bs ≤ total bs
unfolding free_bytes total
free_bytes-bounded [] = omega arith
free_bytes-bounded (b ∷ bs) = elim (Bool-cases b.idle) [
  | inl idle ↦ rw (idle) (omega (arith, free_bytes-bounded bs))
  | inr busy ↦ rw (busy) (omega (arith, free_bytes-bounded bs))
]

added-exact :
    (t : Bool) (bytes size : ℕ)
    → bytes + size < 2 ^ 64
    → (if t then add64 bytes size else bytes) ≡ bytes + (if t then size else 0)
added-exact true bytes size bound = omega arith
added-exact false bytes size bound = omega arith

small_part : (t : Bool) (size : ℕ) → (if t then size else 0) ≤ size
small_part true size = omega arith
small_part false size = omega arith

module _ (mapper : PageMapper) (h : Heap mapper) where
  free_bytes_loop-sum :
      (fuel p a bytes : ℕ) (bs : List Block)
      → IsChain h.memory p a bs
      → 0 < a
      → h.heap_base ≤ a
      → a + total bs ≤ h.heap_end
      → bytes + total bs < 2 ^ 64
      → length bs < fuel
      → free_bytes_loop mapper fuel h (link a bs) bytes ≡ some (bytes + free_bytes bs)
  unfolding free_bytes_loop free_bytes total IsChain
  free_bytes_loop-sum zero p a bytes bs chain positive low high bound rounds = absurd (omega arith)
  free_bytes_loop-sum (suc fuel) p a bytes [] chain positive low high bound rounds =
      ap (λ (n : ℕ). some n) (omega arith)
  free_bytes_loop-sum (suc fuel) p a bytes (b ∷ bs) chain positive low high bound rounds =
      let inside : (not (a == 0) && (leb h.heap_base a && leb a h.heap_end)) ≡ true =
        ground arith in
      let next : (h.memory a).next ≡ link (behind a b) bs =
        ap (λ (s : SegmentHeader). s.next) chain.0 in
      let idle : (h.memory a).is_free ≡ b.idle = ap (λ (s : SegmentHeader). s.is_free) chain.0 in
      let size : (h.memory a).segment_length ≡ b.size =
        ap (λ (s : SegmentHeader). s.segment_length) chain.0 in
      let more = small_part b.idle b.size in
      let rest =
        free_bytes_loop-sum fuel a (behind a b) (bytes + (if b.idle then b.size else 0)) bs chain.1
          (omega arith) (omega arith) (omega arith) (omega (arith, more)) (omega arith) in
      subst
        (λ (t : Bool).
          (elim t [
            | false ↦ some bytes
            | true ↦
                free_bytes_loop mapper fuel h (h.memory a).next
                  (if (h.memory a).is_free then add64 bytes (h.memory a).segment_length else bytes)
          ])
          ≡ some (bytes + ((if b.idle then b.size else 0) + free_bytes bs)))
        (sym inside)
        (rw (next, idle, size, added-exact b.idle bytes b.size (omega arith))
          (rest ∙ ap (λ (n : ℕ). some n) (omega arith)))

  -- On a heap whose headers are those of a list of blocks that ends where the heap ends and of
  -- which `LastSegment` is the last, with a round for each block and one more, `GetRemainingHeap`
  -- returns the bytes of all free blocks plus the size of the last block, which is so counted
  -- twice where it is free, and once where it is in use.
  pub get_remaining_heap_lem :
      (fuel : ℕ) (front : List Block) (f : Block)
      → IsHeap h (front ++ f ∷ [])
      → length front + 1 < fuel
      → get_remaining_heap mapper fuel h ≡ some (f.size + free_bytes (front ++ f ∷ []))
  unfolding get_remaining_heap total IsChain last_offset
  get_remaining_heap_lem fuel front f heap rounds =
      let blocks = front ++ f ∷ [] in
      let at = IsChain-at h.memory 0 h.heap_base front (f ∷ []) heap.chain in
      let sum =
        free_bytes_loop-sum fuel 0 h.heap_base 0 blocks heap.chain heap.positive (omega arith)
          (omega (arith, heap.end_at)) (omega (arith, heap.bound))
          (omega (arith, length-append front (f ∷ []), rounds)) in
      let start : link h.heap_base blocks ≡ h.heap_base = link_front front f h.heap_base in
      let last : h.last_segment ≡ h.heap_base + total front =
        omega (arith, heap.last_at, last_offset-append front f []) in
      let there : (h.last_segment == 0) ≡ false = ground (arith, heap.positive, last) in
      let size : (h.memory h.last_segment).segment_length ≡ f.size =
        ap (λ (x : ℕ). (h.memory x).segment_length) last
        ∙ ap (λ (s : SegmentHeader). s.segment_length) at.1.0 in
      let small = free_bytes-bounded blocks in
      let exact : add64 f.size (0 + free_bytes blocks) ≡ f.size + free_bytes blocks =
        omega (arith, small, heap.bound, total-append front (f ∷ [])) in
      let sum' : free_bytes_loop mapper fuel h h.heap_base 0 ≡ some (0 + free_bytes blocks) =
        subst (λ (x : ℕ). free_bytes_loop mapper fuel h x 0 ≡ some (0 + free_bytes blocks)) start
          sum in
      rw (sum', there, size, exact) refl
    where
      link_front : (front : List Block) (f : Block) (a : ℕ) → link a (front ++ f ∷ []) ≡ a
      link_front [] f a = refl
      link_front (x ∷ xs) f a = refl
