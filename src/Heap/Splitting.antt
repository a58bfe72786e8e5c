-- ===== src/Heap/Splitting.antt =====
-- Cutting a segment in two.
use waifu_os.Prelude.{
  ℕ, ◌+◌, ◌-◌, ◌^◌, ◌≤◌, ◌<◌, ◌≡◌, refl, sym, ap, ap₂, ◌∙◌, ◌≢◌, inl, inr, true, false, ◌||◌, List,
  ◌∷◌, arith, ltb, leb, ◌==◌, Bool-cases, add64, sub64,
}
use mathlib.Core.Path.{subst}
use waifu_os.Heap.{
  SegmentHeader, header_size, PageMapper, Heap, link_back, link_on, new_segment, shorten,
  split_segment, split,
}
use waifu_os.Heap.Chain.{
  link_back-here, link_back-there, link_on-here, link_on-there, new_segment-here, new_segment-there,
  shorten-here, shorten-there,
}
use waifu_os.Heap.Blocks.{Block, behind, total, link, header, IsChain, IsChain-relink}
use waifu_os.Heap.Moves.{not_link, above_link}

-- The two parts of a block that is cut.
abbrev pub front_part : Block → ℕ → Block
front_part b size = record { size = size; idle = b.idle }

abbrev pub back_part : Block → ℕ → Block
back_part b size = record { size = b.size - size - header_size; idle = b.idle }

in_room : (n : ℕ) → 0x10 ≤ n → n < 2 ^ 63 → (ltb n 0x10 || leb (2 ^ 63) n) ≡ false
in_room n low high = ground arith

module _ (mapper : PageMapper) (h : Heap mapper) (p seg size : ℕ) (b : Block) (back : List Block)
    (chain : IsChain h.memory p seg (b ∷ back)) (positive : 0 < seg)
    (bound : seg + total (b ∷ back) < 2 ^ 63) (fits : size + header_size + 0x10 ≤ b.size)
    (enough : 0x10 ≤ size) where
  abbrev new : ℕ
  new = seg + header_size + size

  abbrev after : ℕ
  after = behind seg b

  abbrev h1 : Heap mapper
  h1 = link_back mapper h new (link after back)

  abbrev h2 : Heap mapper
  h2 = link_on mapper h1 new (link after back)

  abbrev h3 : Heap mapper
  h3 = link_on mapper h2 seg new

  abbrev h4 : Heap mapper
  h4 = new_segment mapper h3 seg new (b.size - size - header_size)

  abbrev h5 : Heap mapper
  h5 = shorten mapper h4 seg size

  low : (q : ℕ) → 0 < q → q < after → q ≢ new → q ≢ seg → h5.memory q ≡ h.memory q
  low q more less not_new not_seg =
      shorten-there mapper h4 seg size q not_seg
      ∙ new_segment-there mapper h3 seg new (b.size - size - header_size) q not_new
      ∙ link_on-there mapper h2 seg new q not_seg
      ∙ link_on-there mapper h1 new (link after back) q not_new
      ∙ link_back-there mapper h new (link after back) q (not_link q after back more less)

  h1-seg : h1.memory seg ≡ header p seg b back
  unfolding IsChain
  h1-seg =
      link_back-there mapper h new (link after back) seg
        (not_link seg after back positive (omega arith))
      ∙ chain.0

  h3-seg : h3.memory seg ≡ record (header p seg b back) { next = new }
  h3-seg =
      link_on-here mapper h2 seg new
      ∙ ap (λ (s : SegmentHeader). record s { next = new })
          (link_on-there mapper h1 new (link after back) seg (λ e. omega arith) ∙ h1-seg)

  cut_seg : h5.memory seg ≡ header p seg (front_part b size) (back_part b size ∷ back)
  cut_seg =
      shorten-here mapper h4 seg size
      ∙ ap (λ (s : SegmentHeader). record s { segment_length = size })
          (new_segment-there mapper h3 seg new (b.size - size - header_size) seg (λ e. omega arith)
            ∙ h3-seg)

  cut_new : h5.memory new ≡ header seg new (back_part b size) back
  cut_new =
      let same : behind new (back_part b size) ≡ after = omega arith in
      rw (same) (
        shorten-there mapper h4 seg size new (λ e. omega arith)
        ∙ new_segment-here mapper h3 seg new (b.size - size - header_size)
        ∙ ap₂
            (λ (s t : SegmentHeader). record s {
              previous = seg;
              segment_length = b.size - size - header_size;
              is_free = t.is_free;
            })
            (link_on-there mapper h2 seg new new (λ e. omega arith)
              ∙ link_on-here mapper h1 new (link after back))
            h3-seg)

  cut_after : link after back ≡ after → h5.memory after ≡ record (h.memory after) { previous = new }
  cut_after e = rw (e) (
      shorten-there mapper
        (new_segment mapper
          (link_on mapper (link_on mapper (link_back mapper h new after) new after) seg new) seg new
          (b.size - size - header_size))
        seg size after (λ same. omega arith)
      ∙ new_segment-there mapper
          (link_on mapper (link_on mapper (link_back mapper h new after) new after) seg new) seg new
          (b.size - size - header_size) after (λ same. omega arith)
      ∙ link_on-there mapper (link_on mapper (link_back mapper h new after) new after) seg new after
          (λ same. omega arith)
      ∙ link_on-there mapper (link_back mapper h new after) new after after (λ same. omega arith)
      ∙ link_back-here mapper h new after (omega arith))

  cut_above : (q : ℕ) → after < q → h5.memory q ≡ h.memory q
  cut_above q more =
      shorten-there mapper h4 seg size q (λ e. omega arith)
      ∙ new_segment-there mapper h3 seg new (b.size - size - header_size) q (λ e. omega arith)
      ∙ link_on-there mapper h2 seg new q (λ e. omega arith)
      ∙ link_on-there mapper h1 new (link after back) q (λ e. omega arith)
      ∙ link_back-there mapper h new (link after back) q (above_link q after back more)

  split_segment-memory :
      (q : ℕ)
      → (split_segment mapper h seg size (b.size - size - header_size)).memory q ≡ h5.memory q
  unfolding split_segment IsChain total
  split_segment-memory q =
      let place : add64 (add64 seg size) header_size ≡ new = omega (arith, bound) in
      let old : (h.memory seg).next ≡ link after back =
        ap (λ (s : SegmentHeader). s.next) chain.0 in
      let first : (h1.memory seg).next ≡ link after back =
        ap (λ (s : SegmentHeader). s.next) h1-seg in
      rw (place, old, first)
        (elim (Bool-cases (h5.last_segment == seg)) [
          | inl last ↦ rw (last) refl
          | inr inner ↦ rw (inner) refl
        ])

  pub split-segment :
      split mapper h seg size ≡ split_segment mapper h seg size (b.size - size - header_size)
  unfolding split IsChain total
  split-segment =
      let exact : sub64 (sub64 b.size size) header_size ≡ b.size - size - header_size =
        omega (arith, bound) in
      let large : ltb size 0x10 ≡ false = ground arith in
      let room : (ltb (b.size - size - header_size) 0x10
            || leb (2 ^ 63) (b.size - size - header_size))
          ≡ false =
        in_room (b.size - size - header_size) (omega arith) (omega (arith, bound)) in
      rw (chain.0, exact, large, room) refl

  split-memory : (q : ℕ) → (split mapper h seg size).memory q ≡ h5.memory q
  split-memory q = rw (split-segment) (split_segment-memory q)

  -- The two parts stand where the block stood.
  pub split-IsChain :
      IsChain (split mapper h seg size).memory p seg (front_part b size ∷ back_part b size ∷ back)
  unfolding IsChain
  split-IsChain =
      let same : behind new (back_part b size) ≡ after = omega arith in
      (
        split-memory seg ∙ cut_seg,
        (
          split-memory new ∙ cut_new,
          subst (λ (x : ℕ). IsChain (split mapper h seg size).memory new x back) (sym same)
              (IsChain-relink h.memory (split mapper h seg size).memory seg new after back
                (λ e. split-memory after ∙ cut_after e)
                (λ q more. split-memory q ∙ cut_above q more) chain.1),
        ),
      )

  pub split_low : (q : ℕ) → 0 < q → q < seg → (split mapper h seg size).memory q ≡ h.memory q
  split_low q more less =
      split-memory q ∙ low q more (omega arith) (λ e. omega arith) (λ e. omega arith)

-- A segment whose rest would be too small is not cut.
pub split_whole :
    (mapper : PageMapper) (h : Heap mapper) (seg size : ℕ)
    → size ≤ (h.memory seg).segment_length
    → (h.memory seg).segment_length < size + header_size + 0x10
    → (h.memory seg).segment_length < 2 ^ 63
    → split mapper h seg size ≡ h
unfolding split
split_whole mapper h seg size fits tight bound = elim (Bool-cases (ltb size 0x10)) [
  | inl small ↦ rw (small) refl
  | inr large ↦
      let refused : (ltb (sub64 (sub64 (h.memory seg).segment_length size) header_size) 0x10
            || leb (2 ^ 63) (sub64 (sub64 (h.memory seg).segment_length size) header_size))
          ≡ true =
        ground arith in
      rw (large, refused) refl
]
