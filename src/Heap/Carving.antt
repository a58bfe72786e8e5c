-- ===== src/Heap/Carving.antt =====
-- Taking bytes out of a free block.
use waifu_os.Prelude.{
  ℕ, ◌+◌, ◌-◌, ◌^◌, ◌≤◌, ◌<◌, ◌≡◌, refl, ap, ◌∙◌, inl, inr, true, false, ◌&&◌, List, [], ◌∷◌, ◌++◌,
  arith, ltb, leb, ◌==◌, if◌then◌else◌, ==_iff, Bool-cases, add64,
}
use mathlib.Core.Path.{subst}
use waifu_os.Heap.{SegmentHeader, header_size, PageMapper, Heap, take_segment, split}
use waifu_os.Heap.Blocks.{Block, behind, total, IsChain, IsChain-agree, IsChain-behind}
use waifu_os.Heap.Splitting.{
  front_part, back_part, split-segment, split-IsChain, split_low, split_whole,
}
use waifu_os.Heap.Kept.{Touches, split_segment-Touches}

-- What becomes of a free block in which `size` bytes are taken.
abbrev pub taken : Block → Block
taken b = record { size = b.size; idle = false }

unfoldable pub carve : Block → ℕ → List Block
carve b size =
    if leb (size + header_size + 0x10) b.size
    then taken (front_part b size) ∷ back_part b size ∷ []
    else taken b ∷ []

take-IsChain :
    (mapper : PageMapper) (h : Heap mapper) (p seg : ℕ) (b : Block) (back : List Block)
    → IsChain h.memory p seg (b ∷ back)
    → IsChain (take_segment mapper h seg).memory p seg (taken b ∷ back)
unfolding IsChain take_segment
take-IsChain mapper h p seg b back chain = (
  rw ((==_iff seg seg).1 refl, chain.0) refl,
  IsChain-agree h.memory (take_segment mapper h seg).memory seg (behind seg b) back
      (λ q l. let off : (q == seg) ≡ false = ground arith in rw off refl) chain.1,
)

take_low :
    (mapper : PageMapper) (h : Heap mapper) (seg q : ℕ)
    → q < seg
    → (take_segment mapper h seg).memory q ≡ h.memory q
unfolding take_segment
take_low mapper h seg q l = let off : (q == seg) ≡ false = ground arith in rw off refl

-- The change that `malloc` makes at the segment it has found.
abbrev pub allocate : (mapper : PageMapper) → Heap mapper → ℕ → ℕ → Block → Heap mapper
allocate mapper h seg size b =
    take_segment mapper (if ltb size b.size then split mapper h seg size else h) seg

module _ (mapper : PageMapper) (h : Heap mapper) (p seg size : ℕ) (b : Block) (back : List Block)
    (chain : IsChain h.memory p seg (b ∷ back)) (positive : 0 < seg)
    (bound : seg + total (b ∷ back) < 2 ^ 63) (fit : size ≤ b.size) (enough : 0x10 ≤ size) where
  uncut :
      b.size < size + header_size + 0x10
      → (if ltb size b.size then split mapper h seg size else h) ≡ h
  unfolding IsChain total
  uncut tight = elim (Bool-cases (ltb size b.size)) [
    | inr exact ↦ rw (exact) refl
    | inl larger ↦
        let len : (h.memory seg).segment_length ≡ b.size =
          ap (λ (s : SegmentHeader). s.segment_length) chain.0 in
        rw (larger)
          (split_whole mapper h seg size (omega arith) (omega arith) (omega (arith, bound)))
  ]

  pub allocate-IsChain : IsChain (allocate mapper h seg size b).memory p seg (carve b size ++ back)
  unfolding carve
  allocate-IsChain = elim (Bool-cases (leb (size + header_size + 0x10) b.size)) [
    | inl room ↦
        let larger : ltb size b.size ≡ true = ground arith in
        rw (room, larger)
          (take-IsChain mapper (split mapper h seg size) p seg (front_part b size)
            (back_part b size ∷ back)
            (split-IsChain mapper h p seg size b back chain positive bound (ground arith) enough))
    | inr tight ↦ rw (tight, uncut (ground arith)) (take-IsChain mapper h p seg b back chain)
  ]

  pub allocate_low :
      (q : ℕ) → 0 < q → q < seg → (allocate mapper h seg size b).memory q ≡ h.memory q
  allocate_low q more less = elim (Bool-cases (leb (size + header_size + 0x10) b.size)) [
    | inl room ↦
        let larger : ltb size b.size ≡ true = ground arith in
        rw (larger) (
          take_low mapper (split mapper h seg size) seg q less
          ∙ split_low mapper h p seg size b back chain positive bound (ground arith) enough q more
              less)
    | inr tight ↦ rw (uncut (ground arith)) (take_low mapper h seg q less)
  ]

  -- What the change makes of the end of the heap and of `LastSegment`.
  pub allocate-Touches :
      Touches mapper h (allocate mapper h seg size b)
      × ((allocate mapper h seg size b).last_segment ≡ (
          if leb (size + header_size + 0x10) b.size && (h.last_segment == seg)
          then seg + header_size + size
          else h.last_segment))
  unfolding take_segment total
  allocate-Touches = elim (Bool-cases (leb (size + header_size + 0x10) b.size)) [
    | inl room ↦
        let larger : ltb size b.size ≡ true = ground arith in
        let new : add64 (add64 seg size) header_size ≡ seg + header_size + size =
          omega (arith, bound) in
        let cut =
          split-segment mapper h p seg size b back chain positive bound (ground arith) enough in
        let t = split_segment-Touches mapper h seg size (b.size - size - header_size) in
        rw (room, larger, cut)
          (record { base = t.0.base; end_at = t.0.end_at; pages = t.0.pages }, t.1 ∙ rw (new) refl)
    | inr tight ↦
        rw (tight, uncut (ground arith)) (record { base = refl; end_at = refl; pages = refl }, refl)
  ]

pub total-carve :
    (b : Block) (size : ℕ) (back : List Block)
    → size ≤ b.size
    → total (carve b size ++ back) ≡ total (b ∷ back)
unfolding carve total
total-carve b size back fit = elim (Bool-cases (leb (size + header_size + 0x10) b.size)) [
  | inl room ↦ rw (room) (ground arith)
  | inr tight ↦ rw (tight) refl
]

pub carve-cut :
    (b : Block) (size : ℕ) (back : List Block)
    → leb (size + header_size + 0x10) b.size ≡ true
    → carve b size ++ back ≡ taken (front_part b size) ∷ back_part b size ∷ back
unfolding carve
carve-cut b size back room = rw (room) refl

pub carve-whole :
    (b : Block) (size : ℕ) (back : List Block)
    → leb (size + header_size + 0x10) b.size ≡ false
    → carve b size ++ back ≡ taken b ∷ back
unfolding carve
carve-whole b size back tight = rw (tight) refl

-- The header at the place of the block is still there, so the blocks in front lead to it.
pub allocate_behind :
    (m m' : ℕ → SegmentHeader) (a size : ℕ) (front : List Block) (b : Block) (back : List Block)
    → ((q : ℕ) → a ≤ q → q < a + total front → m' q ≡ m q)
    → ((p : ℕ)
        → IsChain m p (a + total front) (b ∷ back)
        → IsChain m' p (a + total front) (carve b size ++ back))
    → IsChain m 0 a (front ++ b ∷ back)
    → IsChain m' 0 a (front ++ (carve b size ++ back))
unfolding carve
allocate_behind m m' a size front b back same change chain =
    elim (Bool-cases (leb (size + header_size + 0x10) b.size))
      as (λ x. IsChain m' 0 a (front ++ (carve b size ++ back))) [
        | inl room ↦ rw (room) (
            IsChain-behind m m' 0 a front b (taken (front_part b size)) back
              (back_part b size ∷ back) same
              (λ p at.
                subst (λ (l : List Block). IsChain m' p (a + total front) l)
                  (carve-cut b size back room) (change p at))
              chain)
        | inr tight ↦ rw (tight) (
            IsChain-behind m m' 0 a front b (taken b) back back same
              (λ p at.
                subst (λ (l : List Block). IsChain m' p (a + total front) l)
                  (carve-whole b size back tight) (change p at))
              chain)
      ]
