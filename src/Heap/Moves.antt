-- ===== src/Heap/Moves.antt =====
-- Joining a segment with the one behind it.
use waifu_os.Prelude.{
  ℕ, ◌+◌, ◌^◌, ◌<◌, ◌≡◌, refl, sym, ap, ◌∙◌, ◌≢◌, true, false, List, [], ◌∷◌, arith, ◌==◌, add64,
}
use mathlib.Core.Path.{subst}
use waifu_os.Heap.{
  SegmentHeader, header_size, PageMapper, Heap, absorb, move_last, link_back, link_on,
  combine_forward,
}
use waifu_os.Heap.Chain.{
  move_last-memory, absorb-here, absorb-there, link_back-here, link_back-there, link_on-here,
  link_on-there,
}
use waifu_os.Heap.Blocks.{Block, behind, total, link, header, IsChain, IsChain-relink}

-- Two blocks and the header between them as one block.
abbrev pub joined : Block → Block → Block
joined b c = record { size = b.size + (c.size + header_size); idle = b.idle }

pub not_link : (x a : ℕ) (bs : List Block) → 0 < x → x < a → x ≢ link a bs
not_link x a [] more less e = omega arith
not_link x a (b ∷ bs) more less e = omega arith

pub above_link : (x a : ℕ) (bs : List Block) → a < x → x ≢ link a bs
above_link x a [] more e = omega arith
above_link x a (b ∷ bs) more e = omega arith

module _ (mapper : PageMapper) (h : Heap mapper) (p seg : ℕ) (b c : Block) (back : List Block)
    (chain : IsChain h.memory p seg (b ∷ c ∷ back)) (positive : 0 < seg)
    (bound : seg + total (b ∷ c ∷ back) < 2 ^ 63) where
  abbrev next : ℕ
  next = behind seg b

  abbrev after : ℕ
  after = behind (behind seg b) c

  -- Nothing happens where the next segment is in use.
  pub combine_forward-busy : c.idle ≡ false → combine_forward mapper h seg ≡ h
  unfolding combine_forward IsChain
  combine_forward-busy busy =
      let there : ((seg + header_size + b.size) == 0) ≡ false = ground arith in
      rw (chain.0, there, chain.1.0, busy) refl

  module _ (idle : c.idle ≡ true) where
    abbrev h2 : Heap mapper
    h2 = move_last mapper (absorb mapper h seg next) seg next

    abbrev h3 : Heap mapper
    h3 = link_back mapper h2 seg (link after back)

    h2-there : (q : ℕ) → q ≢ seg → h2.memory q ≡ h.memory q
    h2-there q ne =
        move_last-memory mapper (absorb mapper h seg next) seg next q
        ∙ absorb-there mapper h seg next q ne

    h2-seg :
        h2.memory seg
        ≡ record (header p seg b (c ∷ back)) { segment_length = b.size + (c.size + header_size) }
    unfolding IsChain total
    h2-seg =
        let exact : add64 b.size (add64 c.size header_size) ≡ b.size + (c.size + header_size) =
          omega (arith, bound) in
        move_last-memory mapper (absorb mapper h seg next) seg next seg
        ∙ absorb-here mapper h seg next
        ∙ rw (chain.0, chain.1.0, exact) refl

    next-header : h.memory next ≡ header seg next c back
    unfolding IsChain
    next-header = chain.1.0

    h3-there : (q : ℕ) → q ≢ seg → 0 < q → q < after → h3.memory q ≡ h.memory q
    h3-there q ne more less =
        link_back-there mapper h2 seg (link after back) q (not_link q after back more less)
        ∙ h2-there q ne

    combine_forward-steps : combine_forward mapper h seg ≡ link_on mapper h3 seg (link after back)
    unfolding combine_forward IsChain
    combine_forward-steps =
        let there : ((seg + header_size + b.size) == 0) ≡ false = ground arith in
        let e2 : (h2.memory next).next ≡ link after back =
          ap (λ (s : SegmentHeader). s.next) (h2-there next (λ e. omega arith) ∙ next-header) in
        let e3 : (h3.memory next).next ≡ link after back =
          ap (λ (s : SegmentHeader). s.next)
            (h3-there next (λ e. omega arith) (omega arith) (omega arith) ∙ next-header) in
        rw (chain.0, there, chain.1.0, idle, e2, e3) refl

    joined_seg :
        (link_on mapper h3 seg (link after back)).memory seg ≡ header p seg (joined b c) back
    joined_seg =
        let same : behind seg (joined b c) ≡ after = omega arith in
        rw (same) (
          link_on-here mapper h3 seg (link after back)
          ∙ ap (λ (s : SegmentHeader). record s { next = link after back })
              (link_back-there mapper h2 seg (link after back) seg
                  (not_link seg after back positive (omega arith))
                ∙ h2-seg))

    joined_after :
        link after back ≡ after
        → (link_on mapper h3 seg (link after back)).memory after
          ≡ record (h.memory after) { previous = seg }
    joined_after e = rw (e) (
        link_on-there mapper (link_back mapper h2 seg after) seg after after (λ same. omega arith)
        ∙ link_back-here mapper h2 seg after (omega arith)
        ∙ ap (λ (s : SegmentHeader). record s { previous = seg })
            (h2-there after (λ same. omega arith)))

    joined_above :
        (q : ℕ) → after < q → (link_on mapper h3 seg (link after back)).memory q ≡ h.memory q
    joined_above q more =
        link_on-there mapper h3 seg (link after back) q (λ same. omega arith)
        ∙ link_back-there mapper h2 seg (link after back) q (above_link q after back more)
        ∙ h2-there q (λ same. omega arith)

    joined_below :
        (q : ℕ) → 0 < q → q < seg → (link_on mapper h3 seg (link after back)).memory q ≡ h.memory q
    joined_below q more less =
        link_on-there mapper h3 seg (link after back) q (λ same. omega arith)
        ∙ h3-there q (λ same. omega arith) more (omega arith)

    pub joined-IsChain : IsChain (combine_forward mapper h seg).memory p seg (joined b c ∷ back)
    unfolding IsChain
    joined-IsChain =
        let same : behind seg (joined b c) ≡ after = omega arith in
        subst (λ (g : Heap mapper). IsChain g.memory p seg (joined b c ∷ back))
          (sym combine_forward-steps)
          (
            joined_seg,
            subst (λ (x : ℕ). IsChain (link_on mapper h3 seg (link after back)).memory seg x back)
                (sym same)
                (IsChain-relink h.memory (link_on mapper h3 seg (link after back)).memory next seg
                  after back joined_after joined_above chain.1.1),
          )

    pub joined_low :
        (q : ℕ) → 0 < q → q < seg → (combine_forward mapper h seg).memory q ≡ h.memory q
    joined_low q more less = rw (combine_forward-steps) (joined_below q more less)
