-- ===== src/Heap/Growth.antt =====
-- `ExpandHeap`: the pages that it maps become a free segment at the end of the chain.
use waifu_os.Prelude.{
  ℕ, zero, suc, ◌+◌, ◌-◌, ◌*◌, ◌/◌, ◌%◌, ◌^◌, ◌≤◌, ◌<◌, ◌≡◌, refl, sym, ◌∙◌, ◌≢◌, inl, inr, true,
  false, ◌&&◌, some, List, [], ◌∷◌, ◌++◌, arith, ltb, leb, ◌==◌, if◌then◌else◌, ==_iff, Bool-cases,
  add64, sub64, page_size,
}
use mathlib.Core.Path.{subst}
use waifu_os.Heap.{header_size, PageMapper, Heap, update, expand_loop, whole_pages}
use waifu_os.Heap.Blocks.{
  Block, behind, total, last_offset, last_offset-append, header, IsChain, IsChain-behind,
}
use waifu_os.Heap.Allocation.{total-append, IsHeap}

-- The segment in `length` bytes of new pages.
abbrev pub fresh : ℕ → Block
fresh length = record { size = length - header_size; idle = true }

pub whole_pages_lem :
    (mapper : PageMapper) (size : ℕ)
    → 0 < size
    → size < 2 ^ 62
    → (size ≤ whole_pages mapper size)
      × (whole_pages mapper size < size + page_size)
      × (whole_pages mapper size / page_size * page_size ≡ whole_pages mapper size)
      × (page_size ≤ whole_pages mapper size)
whole_pages_lem mapper size positive small = elim (Bool-cases (size % page_size == 0)) [
  | inl even ↦
      let e : size % page_size ≡ 0 = (==_iff (size % page_size) 0).0 even in
      rw (even) (omega arith, omega arith, omega arith, omega arith)
  | inr odd ↦
      let e : 0 < size % page_size = ground arith in
      let exact : add64 (size - size % page_size) page_size ≡ size - size % page_size + page_size =
        omega arith in
      rw (odd, exact) (omega arith, omega arith, omega arith, omega arith)
]

module _ (mapper : PageMapper) where
  -- What the mapping of pages leaves of the heap.
  pub record Mapped (h : Heap mapper) (rounds more : ℕ) (h1 : Heap mapper) : Type 0 where
    pub base : h1.heap_base ≡ h.heap_base
    pub last : h1.last_segment ≡ h.last_segment
    pub end_at : h1.heap_end ≡ h.heap_end + rounds * page_size
    pub can : mapper.CanMap h1.pages more
    pub same : (q : ℕ) → q < h.heap_end → h1.memory q ≡ h.memory q

  pub expand_loop-Mapped :
      (rounds more : ℕ) (h : Heap mapper)
      → mapper.CanMap h.pages (rounds + more)
      → h.heap_end + rounds * page_size < 2 ^ 63
      → (h1 : Heap mapper) × (expand_loop mapper rounds h ≡ some h1) × Mapped h rounds more h1
  unfolding expand_loop
  expand_loop-Mapped zero more h can bound =
      let none_left : 0 + more ≡ more = omega arith in
      (
        h,
        refl,
        record {
          base = refl;
          last = refl;
          end_at = omega arith;
          can = subst (λ (x : ℕ). mapper.CanMap h.pages x) none_left can;
          same = λ q l. refl;
        },
      )
  expand_loop-Mapped (suc rounds) more h can bound =
      let one_more : suc rounds + more ≡ suc (rounds + more) = omega arith in
      let m =
        mapper.map_page_lem h.pages (rounds + more) h.heap_end
          (subst (λ (x : ℕ). mapper.CanMap h.pages x) one_more can) in
      let exact : add64 h.heap_end page_size ≡ h.heap_end + page_size = omega arith in
      let g : Heap mapper = record h {
        pages = m.0;
        memory = λ q.
            if leb h.heap_end q && ltb q (h.heap_end + page_size)
            then record { segment_length = 0; next = 0; previous = 0; is_free = false }
            else h.memory q;
        heap_end = add64 h.heap_end page_size;
      } in
      let rest = expand_loop-Mapped rounds more g m.2 (omega arith) in
      (
        rest.0,
        rw (m.1) rest.1,
        record {
          base = rest.2.base;
          last = rest.2.last;
          end_at = omega (arith, rest.2.end_at);
          can = rest.2.can;
          same = λ q l.
              let below : (leb h.heap_end q && ltb q (h.heap_end + page_size)) ≡ false =
                ground arith in
              rest.2.same q (omega arith) ∙ rw (below) refl;
        },
      )

  -- The statements of `ExpandHeap` between its loop and `CombineBackward`.
  abbrev pub appended : Heap mapper → ℕ → ℕ → Heap mapper
  appended h new length =
      let h2 = update mapper h new (λ s. record s { is_free = true; previous = h.last_segment }) in
      let h3 = update mapper h2 h2.last_segment (λ s. record s { next = new }) in
      let h4 : Heap mapper = record h3 { last_segment = new } in
      update mapper h4 new (λ s. record s { next = 0; segment_length = sub64 length header_size })

  pub appended-last :
      (h : Heap mapper) (new length : ℕ)
      → h.last_segment < new
      → (appended h new length).memory h.last_segment
        ≡ record (h.memory h.last_segment) { next = new }
  appended-last h new length l =
      let off : (h.last_segment == new) ≡ false = ground arith in
      rw (off, (==_iff h.last_segment h.last_segment).1 refl) refl

  appended-new :
      (h : Heap mapper) (new length : ℕ)
      → h.last_segment < new
      → header_size ≤ length
      → length < 2 ^ 64
      → (appended h new length).memory new ≡ header h.last_segment new (fresh length) []
  appended-new h new length l long short =
      let off : (new == h.last_segment) ≡ false = ground arith in
      let exact : sub64 length header_size ≡ length - header_size = omega arith in
      rw ((==_iff new new).1 refl, off, exact) refl

  appended-below :
      (h : Heap mapper) (new length q : ℕ)
      → q < new
      → q ≢ h.last_segment
      → (appended h new length).memory q ≡ h.memory q
  appended-below h new length q l other =
      let off : (q == new) ≡ false = ground arith in
      let off' : (q == h.last_segment) ≡ false = ground arith in rw (off, off') refl

  -- The heap before `CombineBackward`.
  abbrev pub grow : Heap mapper → ℕ → Heap mapper
  grow h length = record (appended h h.heap_end length) { heap_end = h.heap_end + length }

  pub grow-IsHeap :
      (h : Heap mapper) (front : List Block) (f : Block) (length : ℕ)
      → IsHeap h (front ++ f ∷ [])
      → header_size ≤ length
      → h.heap_end + length < 2 ^ 63
      → IsHeap (grow h length) (front ++ f ∷ fresh length ∷ [])
  unfolding IsChain total last_offset
  grow-IsHeap h front f length whole long bound =
      let last = h.heap_base + total front in
      let new = h.heap_end in
      let g = grow h length in
      let sizes = total-append front (f ∷ []) in
      let grown = total-append front (f ∷ fresh length ∷ []) in
      let place : behind last f ≡ new = omega (arith, whole.end_at, sizes) in
      let at_last : h.last_segment ≡ last =
        omega (arith, whole.last_at, last_offset-append front f []) in
      let less : h.last_segment < new = omega (arith, at_last, place) in
      record {
        positive = whole.positive;
        chain =
            IsChain-behind h.memory g.memory 0 h.heap_base front f f [] (fresh length ∷ [])
              (λ q low high.
                appended-below h new length q (omega (arith, place)) (λ e. omega (arith, at_last)))
              (λ p at. (
                subst (λ (x : ℕ). g.memory x ≡ header p x f (fresh length ∷ [])) at_last
                    (appended-last h new length less ∙ rw (at_last, at.0, place) refl),
                (
                  subst (λ (x : ℕ). g.memory x ≡ header last x (fresh length) []) (sym place)
                      (subst (λ (x : ℕ). g.memory new ≡ header x new (fresh length) []) at_last
                        (appended-new h new length less long (omega arith))),
                  tt,
                ),
              ))
              whole.chain;
        bound = omega (arith, grown, sizes, whole.end_at);
        end_at = omega (arith, grown, sizes, whole.end_at);
        last_at = omega (arith, place, last_offset-append front f (fresh length ∷ []));
      }
