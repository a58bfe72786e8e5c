-- ===== src/Heap/Release.antt =====
-- `free` on the whole heap: the segment is free again and joined with its free neighbours.
use waifu_os.Prelude.{
  ℕ, ◌+◌, ◌≡◌, refl, sym, ap, ◌∙◌, ◌≢◌, inl, inr, Bool, true, false, List, [], ◌∷◌, ◌++◌, arith,
  ◌==◌, ==_iff, Bool-cases, sub64,
}
use mathlib.Core.Path.{subst}
use mathlib.Core.List.{append_assoc}
use waifu_os.Heap.{
  SegmentHeader, header_size, PageMapper, Heap, update, combine_forward, combine_backward,
  free_segment,
}
use waifu_os.Heap.Blocks.{
  Block, behind, total, last_offset, last_offset-append, IsChain, IsChain-agree, IsChain-behind,
  IsChain-at,
}
use waifu_os.Heap.Moves.{joined, combine_forward-busy}
use waifu_os.Heap.Kept.{combine_forward-kept}
use waifu_os.Heap.Allocation.{IsHeap, total-append, combine_forward-IsHeap}

abbrev pub released : Block → Block
released b = record { size = b.size; idle = true }

-- Two blocks, joined if the test holds.
abbrev pub join_if : Bool → Block → Block → List Block → List Block
join_if true b c bs = joined b c ∷ bs
join_if false b c bs = b ∷ c ∷ bs

-- A block and those behind it, after `CombineForward`.
unfoldable pub merged : Block → List Block → List Block
merged b [] = b ∷ []
merged b (c ∷ bs) = join_if c.idle b c bs

abbrev mark : (mapper : PageMapper) → Heap mapper → ℕ → Heap mapper
mark mapper h seg = update mapper h seg (λ s. record s { is_free = true })

released_first :
    (b : Block) (back : List Block) → last_offset (released b ∷ back) ≡ last_offset (b ∷ back)
unfolding last_offset
released_first b [] = refl
released_first b (c ∷ bs) = refl

released_last :
    (front : List Block) (b : Block) (back : List Block)
    → last_offset (front ++ released b ∷ back) ≡ last_offset (front ++ b ∷ back)
released_last front b back = omega (
  arith,
  last_offset-append front b back,
  last_offset-append front (released b) back,
  released_first b back,
)

mark-IsHeap :
    (mapper : PageMapper) (h : Heap mapper) (front : List Block) (b : Block) (back : List Block)
    → IsHeap h (front ++ b ∷ back)
    → IsHeap (mark mapper h (h.heap_base + total front)) (front ++ released b ∷ back)
unfolding IsChain total
mark-IsHeap mapper h front b back heap =
    let seg = h.heap_base + total front in
    let there : (q : ℕ) → q ≢ seg → (q == seg) ≡ false = λ q other. ground (arith, other) in
    record {
      positive = heap.positive;
      chain =
          IsChain-behind h.memory (mark mapper h seg).memory 0 h.heap_base front b (released b) back
            back (λ q low less. rw (there q (λ e. omega arith)) refl)
            (λ p at. (
              rw ((==_iff seg seg).1 refl, at.0) refl,
              IsChain-agree h.memory (mark mapper h seg).memory seg (behind seg b) back
                  (λ q l. rw (there q (λ e. omega arith)) refl) at.1,
            ))
            heap.chain;
      bound = omega (
        arith,
        total-append front (b ∷ back),
        total-append front (released b ∷ back),
        heap.bound,
      );
      end_at = omega (
        arith,
        total-append front (b ∷ back),
        total-append front (released b ∷ back),
        heap.end_at,
      );
      last_at = omega (arith, released_last front b back, heap.last_at);
    }

alone :
    (mapper : PageMapper) (h : Heap mapper) (p seg : ℕ) (b : Block)
    → IsChain h.memory p seg (b ∷ [])
    → combine_forward mapper h seg ≡ h
unfolding combine_forward IsChain
alone mapper h p seg b chain = rw (chain.0) refl

forward-IsHeap :
    (mapper : PageMapper) (h : Heap mapper) (front : List Block) (b : Block) (back : List Block)
    → IsHeap h (front ++ b ∷ back)
    → IsHeap (combine_forward mapper h (h.heap_base + total front)) (front ++ merged b back)
unfolding merged
forward-IsHeap mapper h front b [] heap =
    let here = IsChain-at h.memory 0 h.heap_base front (b ∷ []) heap.chain in
    subst (λ (g : Heap mapper). IsHeap g (front ++ b ∷ []))
      (sym (alone mapper h here.0 (h.heap_base + total front) b here.1)) heap
forward-IsHeap mapper h front b (c ∷ bs) heap = elim (Bool-cases c.idle) [
  | inl idle ↦
      subst
        (λ (t : Bool).
          IsHeap (combine_forward mapper h (h.heap_base + total front)) (front ++ join_if t b c bs))
        (sym idle) ((combine_forward-IsHeap mapper h front b c bs heap idle).0)
  | inr busy ↦
      let here = IsChain-at h.memory 0 h.heap_base front (b ∷ c ∷ bs) heap.chain in
      let same =
        combine_forward-busy mapper h here.0 (h.heap_base + total front) b c bs here.1
          (omega (arith, heap.positive))
          (omega (arith, total-append front (b ∷ c ∷ bs), heap.bound)) busy in
      subst
        (λ (t : Bool).
          IsHeap (combine_forward mapper h (h.heap_base + total front)) (front ++ join_if t b c bs))
        (sym busy) (subst (λ (g : Heap mapper). IsHeap g (front ++ b ∷ c ∷ bs)) (sym same) heap)
]

-- `CombineBackward` of the segment behind the block `f`.
pub backward-IsHeap :
    (mapper : PageMapper) (h : Heap mapper) (front : List Block) (f x : Block) (back : List Block)
    → IsHeap h (front ++ f ∷ x ∷ back)
    → x.idle ≡ true
    → IsHeap
        (combine_backward mapper h (behind (h.heap_base + total front) f))
        (front ++ join_if f.idle f x back)
unfolding combine_backward IsChain
backward-IsHeap mapper h front f x back heap idle =
    let seg = h.heap_base + total front in
    let here = IsChain-at h.memory 0 h.heap_base front (f ∷ x ∷ back) heap.chain in
    let previous : (h.memory (behind seg f)).previous ≡ seg =
      ap (λ (s : SegmentHeader). s.previous) here.1.1.0 in
    let mine : (h.memory seg).is_free ≡ f.idle = ap (λ (s : SegmentHeader). s.is_free) here.1.0 in
    let there : (seg == 0) ≡ false = ground (arith, heap.positive) in
    elim (Bool-cases f.idle) [
      | inl free ↦
          subst
            (λ (t : Bool).
              IsHeap (combine_backward mapper h (behind seg f)) (front ++ join_if t f x back))
            (sym free)
            (rw (previous, there, mine ∙ free)
              ((combine_forward-IsHeap mapper h front f x back heap idle).0))
      | inr busy ↦
          subst
            (λ (t : Bool).
              IsHeap (combine_backward mapper h (behind seg f)) (front ++ join_if t f x back))
            (sym busy) (rw (previous, there, mine ∙ busy) heap)
    ]

joined_shape :
    (t : Bool) (b c : Block) (bs : List Block)
    → b.idle ≡ true
    → (x : Block) × (ys : List Block) × (join_if t b c bs ≡ x ∷ ys) × (x.idle ≡ true)
joined_shape true b c bs e = (joined b c, bs, refl, e)
joined_shape false b c bs e = (b, c ∷ bs, refl, e)

pub merged_shape :
    (b : Block) (back : List Block)
    → b.idle ≡ true
    → (x : Block) × (ys : List Block) × (merged b back ≡ x ∷ ys) × (x.idle ≡ true)
unfolding merged
merged_shape b [] e = (b, [], refl, e)
merged_shape b (c ∷ bs) e = joined_shape c.idle b c bs e

-- A block and those behind it, joined if the block is free.
abbrev pub attached : Block → List Block → List Block
attached f [] = f ∷ []
attached f (x ∷ ys) = join_if f.idle f x ys

-- On a heap whose headers are those of a list of blocks that ends where the heap ends and of
-- which `LastSegment` is the last, with the base above 0 and the end below 2^63, `free` of a block that is not the first one makes it free and joins it with the
-- block behind it and with the one before it, where these are free; all other blocks stay as
-- they are.
pub free_segment-IsHeap :
    (mapper : PageMapper) (h : Heap mapper) (front : List Block) (f b : Block) (back : List Block)
    → IsHeap h (front ++ f ∷ b ∷ back)
    → IsHeap
        (free_segment mapper h (behind (h.heap_base + total front) f + header_size))
        (front ++ attached f (merged (released b) back))
unfolding free_segment total
free_segment-IsHeap mapper h front f b back heap =
    let before = front ++ f ∷ [] in
    let seg = behind (h.heap_base + total front) f in
    let place : h.heap_base + total before ≡ seg = omega (arith, total-append front (f ∷ [])) in
    let small = total-append front (f ∷ b ∷ back) in
    let exact : sub64 (seg + header_size) header_size ≡ seg = omega (arith, heap.bound, small) in
    let shape = merged_shape (released b) back refl in
    let grouped : front ++ f ∷ b ∷ back ≡ before ++ b ∷ back =
      sym (append_assoc front (f ∷ []) (b ∷ back)) in
    let marked =
      mark-IsHeap mapper h before b back (subst (λ (l : List Block). IsHeap h l) grouped heap) in
    let h1 = mark mapper h seg in
    let marked' : IsHeap h1 (before ++ released b ∷ back) =
      subst (λ (x : ℕ). IsHeap (mark mapper h x) (before ++ released b ∷ back)) place marked in
    let h2 = combine_forward mapper h1 seg in
    let forward : IsHeap h2 (before ++ merged (released b) back) =
      subst (λ (x : ℕ). IsHeap (combine_forward mapper h1 x) (before ++ merged (released b) back))
        place (forward-IsHeap mapper h1 before (released b) back marked') in
    let regrouped : before ++ merged (released b) back ≡ front ++ f ∷ shape.0 ∷ shape.1 =
      rw (shape.2, append_assoc) refl in
    let ready : IsHeap h2 (front ++ f ∷ shape.0 ∷ shape.1) =
      subst (λ (l : List Block). IsHeap h2 l) regrouped forward in
    let base : h2.heap_base ≡ h.heap_base = (combine_forward-kept mapper h1 seg).base in
    let backward = backward-IsHeap mapper h2 front f shape.0 shape.1 ready shape.3 in
    rw (exact, shape.2)
      (subst
        (λ (x : ℕ).
          IsHeap (combine_backward mapper h2 (behind (x + total front) f))
            (front ++ join_if f.idle f shape.0 shape.1))
        base backward)
