-- ===== src/Heap/Allocation.antt =====
-- The search of `malloc` and the joining of segments, over the whole chain.
use waifu_os.Prelude.{
  ℕ, zero, suc, ◌+◌, ◌^◌, ◌≤◌, ◌<◌, ◌≡◌, refl, sym, ap, ◌∙◌, inl, inr, true, false, not, ◌&&◌,
  Option, some, List, [], ◌∷◌, ◌++◌, arith, ltb, leb, ◌==◌, if◌then◌else◌, Bool-cases, length, All,
}
use mathlib.Core.Path.{subst}
use waifu_os.Heap.{
  header_size, PageMapper, Heap, Search, allocated, no_room, search_loop, take_segment, split,
  SegmentHeader, combine_forward,
}
use waifu_os.Heap.Kept.{combine_forward-Touches}
use waifu_os.Heap.Blocks.{
  Block, behind, total, last_offset, last_offset-append, IsChain, IsChain-behind, IsChain-at,
}
use waifu_os.Heap.Moves.{joined, joined-IsChain, joined_low}

-- The blocks that a heap consists of, up to its end, and `LastSegment` as the last of them.
pub record IsHeap {mapper : PageMapper} (h : Heap mapper) (blocks : List Block) : Type 0 where
  pub positive : 0 < h.heap_base
  pub chain : IsChain h.memory 0 h.heap_base blocks
  pub bound : h.heap_base + total blocks < 2 ^ 63
  pub end_at : h.heap_end ≡ h.heap_base + total blocks
  pub last_at : h.last_segment ≡ h.heap_base + last_offset blocks

pub total-append : (front back : List Block) → total (front ++ back) ≡ total front + total back
unfolding total
total-append [] back = omega arith
total-append (b ∷ front) back = omega (arith, total-append front back)

-- `LastSegment` once two blocks have been joined.
joined_last :
    (base x : ℕ) (front : List Block) (b c : Block) (back : List Block)
    → x ≡ base + last_offset (front ++ b ∷ c ∷ back)
    → (if behind (base + total front) b == x then base + total front else x)
      ≡ base + last_offset (front ++ joined b c ∷ back)
unfolding last_offset
joined_last base x front b c [] e =
    let same : (behind (base + total front) b == x) ≡ true =
      ground (arith, e, last_offset-append front b (c ∷ [])) in
    rw (same) (omega (arith, last_offset-append front (joined b c) []))
joined_last base x front b c (d ∷ ds) e =
    let inner : (behind (base + total front) b == x) ≡ false =
      ground (arith, e, last_offset-append front b (c ∷ d ∷ ds)) in
    rw (inner) (
      omega (
        arith,
        e,
        last_offset-append front b (c ∷ d ∷ ds),
        last_offset-append front (joined b c) (d ∷ ds),
      ))

-- On a heap whose headers are those of a list of blocks that ends where the heap ends and of
-- which `LastSegment` is the last, with the base above 0 and the end below 2^63, `CombineForward` of a segment makes one block of it and of the free block behind
-- it; all other blocks, and the room that they take together, stay as they are.
pub combine_forward-IsHeap :
    (mapper : PageMapper) (h : Heap mapper) (front : List Block) (b c : Block) (back : List Block)
    → IsHeap h (front ++ b ∷ c ∷ back)
    → c.idle ≡ true
    → IsHeap (combine_forward mapper h (h.heap_base + total front)) (front ++ joined b c ∷ back)
      × (total (front ++ joined b c ∷ back) ≡ total (front ++ b ∷ c ∷ back))
unfolding total IsChain
combine_forward-IsHeap mapper h front b c back heap idle =
    let seg = h.heap_base + total front in
    let sizes : total (front ++ joined b c ∷ back) ≡ total (front ++ b ∷ c ∷ back) =
      omega (arith, total-append front (joined b c ∷ back), total-append front (b ∷ c ∷ back)) in
    let small : seg + total (b ∷ c ∷ back) < 2 ^ 63 =
      omega (arith, total-append front (b ∷ c ∷ back), heap.bound) in
    let here = IsChain-at h.memory 0 h.heap_base front (b ∷ c ∷ back) heap.chain in
    let next : (h.memory seg).next ≡ behind seg b = ap (λ (s : SegmentHeader). s.next) here.1.0 in
    let there : ((h.memory seg).next == 0) ≡ false = ground (arith, next) in
    let free : (h.memory (h.memory seg).next).is_free ≡ true =
      rw (next) (ap (λ (s : SegmentHeader). s.is_free) here.1.1.0 ∙ idle) in
    let kept = combine_forward-Touches mapper h seg there free in
    let base = kept.0.base in
    (
      record {
        positive = rw base heap.positive;
        chain =
            subst
              (λ (x : ℕ).
                IsChain (combine_forward mapper h seg).memory 0 x (front ++ joined b c ∷ back))
              (sym base)
              (IsChain-behind h.memory (combine_forward mapper h seg).memory 0 h.heap_base front b
                (joined b c) (c ∷ back) back
                (λ q low less.
                  joined_low mapper h here.0 seg b c back here.1 (omega (arith, heap.positive))
                    small idle q (omega (arith, heap.positive)) less)
                (λ p at.
                  joined-IsChain mapper h p seg b c back at (omega (arith, heap.positive)) small
                    idle)
                heap.chain);
        bound = rw (base, sizes) heap.bound;
        end_at = omega (arith, kept.0.end_at, base, sizes, heap.end_at);
        last_at =
            kept.1
            ∙ rw (next, base) (joined_last h.heap_base h.last_segment front b c back heap.last_at);
      },
      sizes,
    )

-- What the search of `malloc` finds among the blocks from `a` on.
pub data Outcome (mapper : PageMapper) (h : Heap mapper) (a size : ℕ) (blocks : List Block)
    (r : Search mapper) : Type 0 where
  fits :
      (front : List Block) (b : Block) (back : List Block)
      → blocks ≡ front ++ b ∷ back
      → All (λ f. (f.idle && leb size f.size) ≡ false) front
      → b.idle ≡ true
      → size ≤ b.size
      → r
        ≡ allocated (a + total front + header_size) (
            take_segment mapper
              (if ltb size b.size then split mapper h (a + total front) size else h)
              (a + total front))
      → Outcome mapper h a size blocks r
  full :
      All (λ f. (f.idle && leb size f.size) ≡ false) blocks
      → r ≡ no_room
      → Outcome mapper h a size blocks r

module _ (mapper : PageMapper) (h : Heap mapper) (size : ℕ) where
  -- A block that does not fit is passed over.
  onward :
      (a : ℕ) (b c : Block) (bs : List Block) (r : Search mapper)
      → (b.idle && leb size b.size) ≡ false
      → Outcome mapper h (behind a b) size (c ∷ bs) r
      → Outcome mapper h a size (b ∷ c ∷ bs) r
  unfolding total
  onward a b c bs r small (full none_fits e) = full (small, none_fits) e
  onward a b c bs r small (fits front d back split_at none_fits idle room e) =
      let place : behind a b + total front ≡ a + (header_size + b.size + total front) =
        omega arith in
      fits (b ∷ front) d back (ap (λ (t : List Block). b ∷ t) split_at) (small, none_fits) idle room
        (subst
          (λ (x : ℕ).
            r
            ≡ allocated (x + header_size)
                (take_segment mapper (if ltb size d.size then split mapper h x size else h) x))
          place e)

  -- One round: take the block, or go on with what the rest of the chain answers.
  round-Outcome :
      (a : ℕ) (b : Block) (bs : List Block) (rest : Option (Search mapper)) (r : Search mapper)
      → rest ≡ some r
      → ((b.idle && leb size b.size) ≡ false → Outcome mapper h a size (b ∷ bs) r)
      → (x : Search mapper) × ((if not b.idle
            then rest
            else if ltb size b.size
            then some (allocated (a + header_size) (take_segment mapper (split mapper h a size) a))
            else if b.size == size
            then some (allocated (a + header_size) (take_segment mapper h a))
            else rest)
          ≡ some x)
        × Outcome mapper h a size (b ∷ bs) x
  unfolding total
  round-Outcome a b bs rest r e pass =
      let place : a + 0 ≡ a = omega arith in
      elim (Bool-cases b.idle) [
        | inr busy ↦ (r, rw (busy) e, pass (rw (busy) refl))
        | inl idle ↦ elim (Bool-cases (ltb size b.size)) [
          | inl larger ↦ (
            allocated (a + header_size) (take_segment mapper (split mapper h a size) a),
            rw (idle, larger) refl,
            fits [] b bs refl tt idle (ground arith) (rw (place, larger) refl),
          )
          | inr smaller ↦ elim (Bool-cases (b.size == size)) [
            | inl same ↦ (
              allocated (a + header_size) (take_segment mapper h a),
              rw (idle, smaller, same) refl,
              fits [] b bs refl tt idle (ground arith) (rw (place, smaller) refl),
            )
            | inr other ↦
                let small : leb size b.size ≡ false = ground arith in
                (r, rw (idle, smaller, other) e, pass (rw (idle, small) refl))
          ]
        ]
      ]

  -- On headers of a list of blocks, with a round for each block, the search ends with the first
  -- free block that is large enough, which it takes and splits if it is larger, or with the answer
  -- that no block fits.
  pub search_loop-Outcome :
      (fuel p a : ℕ) (b : Block) (bs : List Block)
      → IsChain h.memory p a (b ∷ bs)
      → length bs < fuel
      → (r : Search mapper) × (search_loop mapper fuel h a size ≡ some r)
        × Outcome mapper h a size (b ∷ bs) r
  unfolding search_loop IsChain
  search_loop-Outcome zero p a b bs chain enough = absurd (omega arith)
  search_loop-Outcome (suc fuel) p a b [] chain enough =
      rw (chain.0)
        (round-Outcome a b [] (some no_room) no_room refl (λ small. full (small, tt) refl))
  search_loop-Outcome (suc fuel) p a b (c ∷ bs) chain enough =
      let there : ((a + header_size + b.size) == 0) ≡ false = ground arith in
      let rest = search_loop-Outcome fuel a (behind a b) c bs chain.1 (omega arith) in
      rw (chain.0, there)
        (round-Outcome a b (c ∷ bs) (search_loop mapper fuel h (behind a b) size) rest.0 rest.1
          (λ small. onward a b c bs rest.0 small rest.2))
