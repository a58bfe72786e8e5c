-- ===== src/Heap/RoundTrip.antt =====
-- `free` of what `malloc` has just returned.
use waifu_os.Prelude.{
  length, ℕ, suc, ◌+◌, ◌≤◌, ◌<◌, ◌≡◌, refl, sym, ap, ap₂, ◌∙◌, ◌⊎◌, inl, inr, Bool, true, false,
  some, List, [], ◌∷◌, ◌++◌, arith, leb, Bool-cases,
}
use mathlib.Core.Path.{subst}
use mathlib.Core.List.{append_assoc}
use waifu_os.Heap.{header_size, PageMapper, Heap, no_room, search_loop, malloc_loop, free_segment}
use waifu_os.Heap.Blocks.{Block, behind, total}
use waifu_os.Heap.Moves.{joined}
use waifu_os.Heap.Splitting.{front_part, back_part}
use waifu_os.Heap.Carving.{taken, carve, carve-cut, carve-whole}
use waifu_os.Heap.Allocation.{IsHeap, total-append}
use waifu_os.Heap.FirstFit.{Allocated, malloc_loop-Allocated}
use waifu_os.Heap.Release.{released, join_if, merged, attached, free_segment-IsHeap}
use waifu_os.Heap.Room.{NoRoom}
use waifu_os.Heap.Coalesced.{Coalesced, Coalesced-behind, busy_before}

same_block : (b c : Block) → b.size ≡ c.size → b.idle ≡ c.idle → b ≡ c
same_block b c e e' = ap₂ (λ (n : ℕ) (t : Bool). record { size = n; idle = t }) e e'

-- A free block that stands apart from free blocks joins none.
merged-apart :
    (b : Block) (back : List Block)
    → b.idle ≡ true
    → Coalesced (b ∷ back)
    → merged b back ≡ b ∷ back
unfolding merged Coalesced
merged-apart b [] idle all = refl
merged-apart b (c ∷ bs) idle all = rw (busy_before b.idle c.idle all.0 idle) refl

-- A block, once bytes have been taken out of it and are free again.
merged-carve :
    (f b : Block) (size : ℕ) (back : List Block)
    → size ≤ b.size
    → b.idle ≡ true
    → Coalesced (b ∷ back)
    → (x : Block) × (ys : List Block) × (carve b size ++ back ≡ x ∷ ys)
      × (merged (released x) ys ≡ b ∷ back)
unfolding merged
merged-carve f b size back fit idle all =
    elim (Bool-cases (leb (size + header_size + 0x10) b.size)) [
      | inl cut ↦ (
        taken (front_part b size),
        back_part b size ∷ back,
        carve-cut b size back cut,
        rejoined cut,
      )
      | inr whole ↦ (
        taken b,
        back,
        carve-whole b size back whole,
        subst (λ (x : Block). merged x back ≡ b ∷ back)
            (same_block b (released (taken b)) refl idle) (merged-apart b back idle all),
      )
    ]
  where
    rejoined :
        leb (size + header_size + 0x10) b.size ≡ true
        → merged (released (taken (front_part b size))) (back_part b size ∷ back) ≡ b ∷ back
    rejoined cut =
        subst
          (λ (t : Bool).
            join_if t (released (front_part b size)) (back_part b size) back ≡ b ∷ back)
          (sym idle)
          (ap (λ (x : Block). x ∷ back)
            (same_block (joined (released (front_part b size)) (back_part b size)) b (ground arith)
              (sym idle)))

abbrev first_idle : List Block → Bool
first_idle [] = false
first_idle (b ∷ bs) = b.idle

-- A list of blocks, of which the first is not free and a later one is, up to the one in front of
-- that.
block_before :
    (c b : Block) (front bs back : List Block)
    → c ∷ bs ≡ front ++ b ∷ back
    → c.idle ≡ false
    → b.idle ≡ true
    → (before : List Block) × (f : Block) × (front ≡ before ++ f ∷ [])
block_before c b [] bs back e busy idle =
    let same : c.idle ≡ b.idle = ap (λ (l : List Block). first_idle l) e in ground arith
block_before c b (g ∷ front) bs back e busy idle = snoc g front
  where
    snoc :
        (g : Block) (front : List Block)
        → (before : List Block) × (f : Block) × (g ∷ front ≡ before ++ f ∷ [])
    snoc g [] = ([], g, refl)
    snoc g (h ∷ front) = let s = snoc h front in (g ∷ s.0, s.1, ap (λ (l : List Block). g ∷ l) s.2)

attached-busy :
    (f b : Block) (back : List Block) → f.idle ≡ false → attached f (b ∷ back) ≡ f ∷ b ∷ back
attached-busy f b back busy =
    subst (λ (t : Bool). join_if t f b back ≡ f ∷ b ∷ back) (sym busy) refl

module _ (mapper : PageMapper) (h : Heap mapper) (c : Block) (bs : List Block) (size : ℕ) where
  released-Allocated :
      (r : ℕ × Heap mapper)
      → Coalesced (c ∷ bs)
      → c.idle ≡ false
      → Allocated mapper h size (c ∷ bs) r
      → IsHeap (free_segment mapper r.1 r.0) (c ∷ bs)
  unfolding Coalesced total
  released-Allocated r apart busy a =
      let s = block_before c a.block a.front bs a.back a.place busy a.idle in
      let before = s.0 in
      let f = s.1 in
      let place : c ∷ bs ≡ before ++ f ∷ a.block ∷ a.back =
        a.place
        ∙ ap (λ (l : List Block). l ++ a.block ∷ a.back) s.2
        ∙ append_assoc before (f ∷ []) (a.block ∷ a.back) in
      let around =
        Coalesced-behind before (f ∷ a.block ∷ a.back)
          (subst (λ (l : List Block). Coalesced l) place apart) in
      let f_busy : f.idle ≡ false = ground (arith, around.0, a.idle) in
      let m = merged-carve f a.block size a.back a.room a.idle around.1 in
      let heap : IsHeap r.1 (before ++ f ∷ m.0 ∷ m.1) =
        subst (λ (l : List Block). IsHeap r.1 l)
          (ap (λ (l : List Block). a.front ++ l) m.2
            ∙ ap (λ (l : List Block). l ++ m.0 ∷ m.1) s.2
            ∙ append_assoc before (f ∷ []) (m.0 ∷ m.1))
          a.heap in
      let freed = free_segment-IsHeap mapper r.1 before f m.0 m.1 heap in
      let same : before ++ attached f (merged (released m.0) m.1) ≡ c ∷ bs =
        ap (λ (l : List Block). before ++ attached f l) m.3
        ∙ ap (λ (l : List Block). before ++ l) (attached-busy f a.block a.back f_busy)
        ∙ sym place in
      let total_front : total a.front ≡ total before + (header_size + f.size + 0) =
        ap (λ (l : List Block). total l) s.2 ∙ total-append before (f ∷ []) in
      let address : behind (r.1.heap_base + total before) f + header_size ≡ r.0 =
        omega (arith, a.address, a.base, total_front) in
      subst (λ (x : ℕ). IsHeap (free_segment mapper r.1 x) (c ∷ bs)) address
        (subst
          (λ (l : List Block).
            IsHeap (free_segment mapper r.1 (behind (r.1.heap_base + total before) f + header_size))
              l)
          same freed)

  -- On a heap whose headers are those of blocks of which no two neighbours are free and the first
  -- is in use, with a round of the search for each block and a size from 16 on, the loop of
  -- `malloc` either returns an address, and `free` of it restores the blocks that were there
  -- before, or no block is free and large enough and the search answers so.
  pub free_segment-malloc_loop :
      (tries segments : ℕ)
      → IsHeap h (c ∷ bs)
      → Coalesced (c ∷ bs)
      → c.idle ≡ false
      → 0x10 ≤ size
      → length bs < segments
      → ((r : ℕ × Heap mapper) × (malloc_loop mapper (suc tries) segments h size ≡ some r)
          × IsHeap (free_segment mapper r.1 r.0) (c ∷ bs))
        ⊎ (NoRoom size (c ∷ bs) × (search_loop mapper segments h h.heap_base size ≡ some no_room))
  free_segment-malloc_loop tries segments heap apart busy enough rounds =
      elim (malloc_loop-Allocated mapper h size tries segments c bs heap enough rounds) [
        | inl found ↦ inl (found.0, found.1, released-Allocated found.0 apart busy found.2)
        | inr full ↦ inr full
      ]
