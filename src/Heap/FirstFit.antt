-- ===== src/Heap/FirstFit.antt =====
-- `malloc` on the whole heap: the first free block that is large enough is cut and taken.
use waifu_os.Prelude.{
  ℕ, suc, ◌+◌, ◌^◌, ◌≤◌, ◌<◌, ◌≡◌, refl, sym, ap, ◌∙◌, ◌⊎◌, inl, inr, true, false, ◌&&◌, some, List,
  [], ◌∷◌, ◌++◌, arith, leb, ◌==◌, if◌then◌else◌, Bool-cases, length, All,
}
use mathlib.Core.Path.{subst}
use waifu_os.Heap.{header_size, PageMapper, Heap, Search, no_room, search_loop, malloc_loop}
use waifu_os.Heap.Blocks.{Block, total, last_offset, last_offset-append, IsChain, IsChain-at}
use waifu_os.Heap.Splitting.{front_part, back_part}
use waifu_os.Heap.Carving.{
  taken, carve-cut, carve-whole, carve, allocate, allocate-IsChain, allocate_low, allocate-Touches,
  total-carve, allocate_behind,
}
use waifu_os.Heap.Allocation.{total-append, IsHeap, Outcome, fits, full, search_loop-Outcome}

-- How a call of `malloc` ends that need not expand the heap.
pub record Allocated (mapper : PageMapper) (h : Heap mapper) (size : ℕ) (blocks : List Block)
    (r : ℕ × Heap mapper) : Type 0 where
  pub front : List Block
  pub block : Block
  pub back : List Block
  pub place : blocks ≡ front ++ block ∷ back
  pub first : All (λ f. (f.idle && leb size f.size) ≡ false) front
  pub idle : block.idle ≡ true
  pub room : size ≤ block.size
  pub address : r.0 ≡ h.heap_base + total front + header_size
  pub heap : IsHeap r.1 (front ++ (carve block size ++ back))
  pub sizes : total (front ++ (carve block size ++ back)) ≡ total blocks
  pub base : r.1.heap_base ≡ h.heap_base

-- `LastSegment` once bytes have been taken out of a block.
carved_last :
    (base x size : ℕ) (front : List Block) (b : Block) (back : List Block)
    → size ≤ b.size
    → x ≡ base + last_offset (front ++ b ∷ back)
    → (if leb (size + header_size + 0x10) b.size && (x == (base + total front))
        then base + total front + header_size + size
        else x)
      ≡ base + last_offset (front ++ (carve b size ++ back))
unfolding last_offset carve
carved_last base x size front b [] room e =
    let here : (x == (base + total front)) ≡ true =
      ground (arith, e, last_offset-append front b []) in
    elim (Bool-cases (leb (size + header_size + 0x10) b.size)) [
      | inl cut ↦
          rw (carve-cut b size [] cut, cut, here)
            (omega
              (arith, last_offset-append front (taken (front_part b size)) (back_part b size ∷ [])))
      | inr whole ↦
          rw (carve-whole b size [] whole, whole)
            (omega (arith, e, last_offset-append front b [], last_offset-append front (taken b) []))
    ]
carved_last base x size front b (c ∷ cs) room e =
    let away : (x == (base + total front)) ≡ false =
      ground (arith, e, last_offset-append front b (c ∷ cs)) in
    elim (Bool-cases (leb (size + header_size + 0x10) b.size)) [
      | inl cut ↦
          rw (carve-cut b size (c ∷ cs) cut, cut, away)
            (ground (
              arith,
              e,
              last_offset-append front b (c ∷ cs),
              last_offset-append front (taken (front_part b size)) (back_part b size ∷ c ∷ cs),
            ))
      | inr whole ↦
          rw (carve-whole b size (c ∷ cs) whole, whole)
            (omega (
              arith,
              e,
              last_offset-append front b (c ∷ cs),
              last_offset-append front (taken b) (c ∷ cs),
            ))
    ]

-- On a heap whose headers are those of a list of blocks that ends where the heap ends and of
-- which `LastSegment` is the last, with the base above 0 and the end below 2^63, the loop of `malloc` for a size from 16 on, with a round of the search for each
-- block, has one of two ends. With a free block that is large enough it returns: it takes the
-- first such block, cuts off what is left of it if a header and 16 bytes fit there, and leaves
-- every other block and the room they all take as they were. Otherwise no block is both free
-- and large enough, and the search answers that there is no room.
pub malloc_loop-Allocated :
    (mapper : PageMapper) (h : Heap mapper) (size tries segments : ℕ) (b : Block) (bs : List Block)
    → IsHeap h (b ∷ bs)
    → 0x10 ≤ size
    → length bs < segments
    → ((r : ℕ × Heap mapper) × (malloc_loop mapper (suc tries) segments h size ≡ some r)
        × Allocated mapper h size (b ∷ bs) r)
      ⊎ (All (λ f. (f.idle && leb size f.size) ≡ false) (b ∷ bs)
          × (search_loop mapper segments h h.heap_base size ≡ some no_room))
unfolding malloc_loop
malloc_loop-Allocated mapper h size tries segments b bs heap enough rounds =
    let s = search_loop-Outcome mapper h size segments 0 h.heap_base b bs heap.chain rounds in
    outcome s.0 s.1 s.2
  where
    outcome :
        (r : Search mapper)
        → search_loop mapper segments h h.heap_base size ≡ some r
        → Outcome mapper h h.heap_base size (b ∷ bs) r
        → ((r : ℕ × Heap mapper) × (malloc_loop mapper (suc tries) segments h size ≡ some r)
            × Allocated mapper h size (b ∷ bs) r)
          ⊎ (All (λ f. (f.idle && leb size f.size) ≡ false) (b ∷ bs)
              × (search_loop mapper segments h h.heap_base size ≡ some no_room))
    outcome r e (full none_fits q) = inr (none_fits, e ∙ ap (λ (t : Search mapper). some t) q)
    outcome r e (fits front block back place first idle room q) =
        let seg = h.heap_base + total front in
        let whole : IsHeap h (front ++ block ∷ back) =
          subst (λ (l : List Block). IsHeap h l) place heap in
        let small : seg + total (block ∷ back) < 2 ^ 63 =
          omega (arith, total-append front (block ∷ back), whole.bound) in
        let positive : 0 < seg = omega (arith, whole.positive) in
        let here = IsChain-at h.memory 0 h.heap_base front (block ∷ back) whole.chain in
        let h' = allocate mapper h seg size block in
        let kept =
          allocate-Touches mapper h here.0 seg size block back here.1 positive small room enough in
        let base = kept.0.base in
        let same_room : total (front ++ (carve block size ++ back))
            ≡ total (front ++ block ∷ back) =
          omega (
            arith,
            total-append front (carve block size ++ back),
            total-append front (block ∷ back),
            total-carve block size back room,
          ) in
        let chain =
          allocate_behind h.memory h'.memory h.heap_base size front block back
            (λ q' low less.
              allocate_low mapper h here.0 seg size block back here.1 positive small room enough q'
                (omega (arith, whole.positive)) less)
            (λ p at. allocate-IsChain mapper h p seg size block back at positive small room enough)
            whole.chain in
        inl (
          (seg + header_size, h'),
          rw (e, q) refl,
          record {
            front = front;
            block = block;
            back = back;
            place = place;
            first = first;
            idle = idle;
            room = room;
            address = refl;
            heap = record {
              positive = rw (base) whole.positive;
              chain =
                  subst (λ (x : ℕ). IsChain h'.memory 0 x (front ++ (carve block size ++ back)))
                    (sym base) chain;
              bound = rw (base, same_room) whole.bound;
              end_at = omega (arith, kept.0.end_at, base, same_room, whole.end_at);
              last_at =
                  kept.1
                  ∙ rw (base) (
                      carved_last h.heap_base h.last_segment size front block back room
                        whole.last_at);
            };
            sizes = same_room ∙ ap (λ (l : List Block). total l) (sym place);
            base = base;
          },
        )
