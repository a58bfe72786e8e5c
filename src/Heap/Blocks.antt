-- ===== src/Heap/Blocks.antt =====
-- The heap as a list of blocks that lie one behind the other, and the chain of headers for it.
use waifu_os.Prelude.{ℕ, ◌+◌, ◌≤◌, ◌<◌, ◌≡◌, refl, sym, ◌∙◌, Bool, List, [], ◌∷◌, ◌++◌, arith}
use mathlib.Core.Path.{subst}
use waifu_os.Heap.{SegmentHeader, header_size}

pub record Block : Type 0 where
  pub size : ℕ
  pub idle : Bool

-- Where the block behind the one at `a` starts.
abbrev pub behind : ℕ → Block → ℕ
behind a b = a + header_size + b.size

unfoldable pub total : List Block → ℕ
total [] = 0
total (b ∷ bs) = header_size + b.size + total bs

-- Where the last block starts, seen from the first one.
unfoldable pub last_offset : List Block → ℕ
last_offset [] = 0
last_offset (b ∷ []) = 0
last_offset (b ∷ c ∷ bs) = header_size + b.size + last_offset (c ∷ bs)

-- The pointer to the first of the blocks that start at `a`.
abbrev pub link : ℕ → List Block → ℕ
link a [] = 0
link a (b ∷ bs) = a

abbrev pub header : ℕ → ℕ → Block → List Block → SegmentHeader
header previous a b bs = record {
  segment_length = b.size;
  next = link (behind a b) bs;
  previous = previous;
  is_free = b.idle;
}

-- The headers of the blocks from `a` on.
unfoldable pub IsChain : (ℕ → SegmentHeader) → ℕ → ℕ → List Block → Type 0
IsChain memory previous a [] = Unit
IsChain memory previous a (b ∷ bs) =
    (memory a ≡ header previous a b bs) × IsChain memory a (behind a b) bs

-- A chain reads no address below its start.
pub IsChain-agree :
    (m m' : ℕ → SegmentHeader) (previous a : ℕ) (bs : List Block)
    → ((q : ℕ) → a ≤ q → m' q ≡ m q)
    → IsChain m previous a bs
    → IsChain m' previous a bs
unfolding IsChain
IsChain-agree m m' previous a [] same chain = tt
IsChain-agree m m' previous a (b ∷ bs) same chain = (
  same a (omega arith) ∙ chain.0,
  IsChain-agree m m' a (behind a b) bs (λ q l. same q (omega arith)) chain.1,
)

-- A chain reads no address at its end or above.
pub IsChain-agree_below :
    (m m' : ℕ → SegmentHeader) (previous a : ℕ) (bs : List Block)
    → ((q : ℕ) → q < a + total bs → m' q ≡ m q)
    → IsChain m previous a bs
    → IsChain m' previous a bs
unfolding IsChain total
IsChain-agree_below m m' previous a [] same chain = tt
IsChain-agree_below m m' previous a (b ∷ bs) same chain = (
  same a (omega arith) ∙ chain.0,
  IsChain-agree_below m m' a (behind a b) bs (λ q l. same q (omega arith)) chain.1,
)

-- The memory in which the first block of a chain has another predecessor.
pub IsChain-relink :
    (m m' : ℕ → SegmentHeader) (previous previous' a : ℕ) (bs : List Block)
    → ((link a bs ≡ a) → m' a ≡ record (m a) { previous = previous' })
    → ((q : ℕ) → a < q → m' q ≡ m q)
    → IsChain m previous a bs
    → IsChain m' previous' a bs
unfolding IsChain
IsChain-relink m m' previous previous' a [] first same chain = tt
IsChain-relink m m' previous previous' a (b ∷ bs) first same chain = (
  rw (first refl, chain.0) refl,
  IsChain-agree m m' a (behind a b) bs (λ q l. same q (omega arith)) chain.1,
)

link_same :
    (front : List Block) (b c : Block) (bs cs : List Block) (x : ℕ)
    → link x (front ++ b ∷ bs) ≡ link x (front ++ c ∷ cs)
link_same [] b c bs cs x = refl
link_same (f ∷ front) b c bs cs x = refl

-- The header of a block, and the chain from it on.
pub IsChain-at :
    (m : ℕ → SegmentHeader) (previous a : ℕ) (front bs : List Block)
    → IsChain m previous a (front ++ bs)
    → (p : ℕ) × IsChain m p (a + total front) bs
unfolding IsChain total
IsChain-at m previous a [] bs chain =
    let e : a + 0 ≡ a = omega arith in
    (previous, subst (λ (x : ℕ). IsChain m previous x bs) (sym e) chain)
IsChain-at m previous a (f ∷ front) bs chain =
    let e : behind a f + total front ≡ a + (header_size + f.size + total front) = omega arith in
    subst (λ (x : ℕ). (p : ℕ) × IsChain m p x bs) e (IsChain-at m a (behind a f) front bs chain.1)

-- Blocks in front of the place of a change.
pub IsChain-behind :
    (m m' : ℕ → SegmentHeader) (previous a : ℕ) (front : List Block) (b c : Block)
    (bs cs : List Block)
    → ((q : ℕ) → a ≤ q → q < a + total front → m' q ≡ m q)
    → ((p : ℕ) → IsChain m p (a + total front) (b ∷ bs) → IsChain m' p (a + total front) (c ∷ cs))
    → IsChain m previous a (front ++ b ∷ bs)
    → IsChain m' previous a (front ++ c ∷ cs)
unfolding IsChain total
IsChain-behind m m' previous a [] b c bs cs same change chain =
    let e : a + 0 ≡ a = omega arith in
    subst (λ (x : ℕ). IsChain m' previous x (c ∷ cs)) e
      (change previous (subst (λ (x : ℕ). IsChain m previous x (b ∷ bs)) (sym e) chain))
IsChain-behind m m' previous a (f ∷ front) b c bs cs same change chain =
    let e : behind a f + total front ≡ a + (header_size + f.size + total front) = omega arith in
    (
      rw (same a (omega arith) (omega arith), chain.0, link_same front b c bs cs (behind a f)) refl,
      IsChain-behind m m' a (behind a f) front b c bs cs
          (λ q low l. same q (omega arith) (omega arith))
          (subst (λ (x : ℕ). (p : ℕ) → IsChain m p x (b ∷ bs) → IsChain m' p x (c ∷ cs)) (sym e)
            change)
          chain.1,
    )

pub last_offset-append :
    (front : List Block) (b : Block) (back : List Block)
    → last_offset (front ++ b ∷ back) ≡ total front + last_offset (b ∷ back)
unfolding last_offset total
last_offset-append [] b back = omega arith
last_offset-append (f ∷ []) b back = omega arith
last_offset-append (f ∷ g ∷ front) b back = omega (arith, last_offset-append (g ∷ front) b back)
