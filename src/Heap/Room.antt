-- ===== src/Heap/Room.antt =====
-- Lists of blocks without room, and how the heap grows from them.
use waifu_os.Prelude.{
  ℕ, ◌+◌, ◌-◌, ◌≤◌, ◌<◌, ◌≡◌, refl, inl, inr, Bool, true, false, ◌&&◌, List, [], ◌∷◌, ◌++◌, arith,
  leb, if◌then◌else◌, Bool-cases, length, length-append, All,
}
use mathlib.Core.Path.{subst}
use waifu_os.Heap.{header_size}
use waifu_os.Heap.Blocks.{Block}
use waifu_os.Heap.Expansion.{grown_front, grown_last}

-- No block of the list is free and large enough.
abbrev pub NoRoom : ℕ → List Block → Type 0
NoRoom size blocks = All (λ b. (b.idle && leb size b.size) ≡ false) blocks

-- The lists of blocks that expansions by `length` bytes make, each of them where no block fits.
pub data Grows (size length : ℕ) : List Block → Block → List Block → Block → Type 0 where
  ready : (front : List Block) (f : Block) → Grows size length front f front f
  longer :
      (front front' : List Block) (f f' : Block)
      → NoRoom size (front ++ f ∷ [])
      → Grows size length (grown_front front f) (grown_last f length) front' f'
      → Grows size length front f front' f'

pub NoRoom-last :
    (size : ℕ) (front : List Block) (f : Block)
    → NoRoom size (front ++ f ∷ [])
    → f.idle ≡ true
    → f.size < size
NoRoom-last size [] f none_fits idle =
    let small : (true && leb size f.size) ≡ false =
      subst (λ (t : Bool). (t && leb size f.size) ≡ false) idle none_fits.0 in
    ground arith
NoRoom-last size (b ∷ front) f none_fits idle = NoRoom-last size front f none_fits.1 idle

pub grown_last-idle : (f : Block) (length : ℕ) → (grown_last f length).idle ≡ true
grown_last-idle f length = elim (Bool-cases f.idle) [
  | inl idle ↦ rw (idle) refl
  | inr busy ↦ rw (busy) refl
]

pub grown_last-size : (f : Block) (length : ℕ) → length - header_size ≤ (grown_last f length).size
grown_last-size f length = elim (Bool-cases f.idle) [
  | inl idle ↦ rw (idle) (omega arith)
  | inr busy ↦ rw (busy) (omega arith)
]

pub grown_last-joined :
    (f : Block) (length : ℕ)
    → f.idle ≡ true
    → (grown_last f length).size ≡ f.size + (length - header_size + header_size)
grown_last-joined f length idle = rw (idle) refl

pub length-grown_if :
    (t : Bool) (front : List Block) (f : Block)
    → length (if t then front else (front ++ f ∷ [])) ≤ length front + 1
length-grown_if true front f = omega arith
length-grown_if false front f = omega (arith, length-append front (f ∷ []))
