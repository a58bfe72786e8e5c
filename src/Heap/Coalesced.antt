-- ===== src/Heap/Coalesced.antt =====
-- No two neighbouring blocks of the heap are both free.
use waifu_os.Prelude.{
  ℕ, ◌+◌, ◌≡◌, refl, sym, ◌∙◌, inl, inr, Bool, true, false, ◌&&◌, List, [], ◌∷◌, ◌++◌, arith, leb,
  Bool-cases,
}
use mathlib.Core.Path.{subst}
use waifu_os.Heap.{header_size}
use waifu_os.Heap.Blocks.{Block}
use waifu_os.Heap.Moves.{joined}
use waifu_os.Heap.Splitting.{back_part}
use waifu_os.Heap.Carving.{taken, carve, carve-cut, carve-whole}
use waifu_os.Heap.Release.{released, join_if, merged, merged_shape, attached}

unfoldable pub Coalesced : List Block → Type 0
Coalesced [] = Unit
Coalesced (b ∷ []) = Unit
Coalesced (b ∷ c ∷ bs) = ((b.idle && c.idle) ≡ false) × Coalesced (c ∷ bs)

pub busy_before : (t u : Bool) → (t && u) ≡ false → t ≡ true → u ≡ false
busy_before true u e i = e
busy_before false u e i = ground arith

both_apart : (s t u : Bool) → (s ≡ true → t ≡ true) → (t && u) ≡ false → (s && u) ≡ false
both_apart true t u less e = busy_before t u e (less refl)
both_apart false t u less e = refl

-- A block that is free only where the first one was can take its place.
Coalesced-head :
    (b x : Block) (back : List Block)
    → (x.idle ≡ true → b.idle ≡ true)
    → Coalesced (b ∷ back)
    → Coalesced (x ∷ back)
unfolding Coalesced
Coalesced-head b x [] less all = tt
Coalesced-head b x (c ∷ bs) less all = (both_apart x.idle b.idle c.idle less all.0, all.1)

Coalesced-tail : (b : Block) (back : List Block) → Coalesced (b ∷ back) → Coalesced back
unfolding Coalesced
Coalesced-tail b [] all = tt
Coalesced-tail b (c ∷ bs) all = all.1

pub Coalesced-behind :
    (front : List Block) (bs : List Block) → Coalesced (front ++ bs) → Coalesced bs
Coalesced-behind [] bs all = all
Coalesced-behind (f ∷ front) bs all = Coalesced-behind front bs (Coalesced-tail f (front ++ bs) all)

-- Blocks behind others, of which the first is free only where the one in its place was.
pub Coalesced-replace :
    (front : List Block) (b x : Block) (back back' : List Block)
    → (x.idle ≡ true → b.idle ≡ true)
    → (Coalesced (b ∷ back) → Coalesced (x ∷ back'))
    → Coalesced (front ++ b ∷ back)
    → Coalesced (front ++ x ∷ back')
unfolding Coalesced
Coalesced-replace [] b x back back' less new all = new all
Coalesced-replace (f ∷ []) b x back back' less new all =
    (flip f.idle x.idle b.idle less all.0, new all.1)
  where
    flip : (t u v : Bool) → (u ≡ true → v ≡ true) → (t && v) ≡ false → (t && u) ≡ false
    flip true true v more e = sym (more refl) ∙ e
    flip true false v more e = refl
    flip false u v more e = refl
Coalesced-replace (f ∷ g ∷ front) b x back back' less new all =
    (all.0, Coalesced-replace (g ∷ front) b x back back' less new all.1)

not_idle : (b : Block) → false ≡ true → b.idle ≡ true
not_idle b e = ground arith

cut-Coalesced :
    (b : Block) (size : ℕ) (back : List Block)
    → Coalesced (b ∷ back)
    → Coalesced (record { size = size; idle = false } ∷ back_part b size ∷ back)
unfolding Coalesced
cut-Coalesced b size back all = (refl, Coalesced-head b (back_part b size) back (λ e. e) all)

-- Taking bytes out of a block keeps free blocks apart.
pub carve-Coalesced :
    (front : List Block) (b : Block) (size : ℕ) (back : List Block)
    → Coalesced (front ++ b ∷ back)
    → Coalesced (front ++ (carve b size ++ back))
carve-Coalesced front b size back all = elim (Bool-cases (leb (size + header_size + 0x10) b.size)) [
  | inl cut ↦ rw (carve-cut b size back cut) (
      Coalesced-replace front b (record { size = size; idle = false }) back
        (back_part b size ∷ back) (not_idle b) (cut-Coalesced b size back) all)
  | inr whole ↦ rw (carve-whole b size back whole) (
      Coalesced-replace front b (taken b) back back (not_idle b)
        (Coalesced-head b (taken b) back (not_idle b)) all)
]

join_if-Coalesced :
    (t : Bool) (b c : Block) (bs : List Block)
    → (t ≡ true → c.idle ≡ true)
    → (t ≡ false → (b.idle && c.idle) ≡ false)
    → Coalesced (c ∷ bs)
    → Coalesced (join_if t b c bs)
unfolding Coalesced
join_if-Coalesced true b c bs free busy all = Coalesced-head c (joined b c) bs (λ i. free refl) all
join_if-Coalesced false b c bs free busy all = (busy refl, all)

and_false : (t u : Bool) → u ≡ false → (t && u) ≡ false
and_false true u e = e
and_false false u e = refl

false_and : (t u : Bool) → t ≡ false → (t && u) ≡ false
false_and true u e = ground arith
false_and false u e = refl

merged-Coalesced : (b : Block) (back : List Block) → Coalesced back → Coalesced (merged b back)
unfolding merged Coalesced
merged-Coalesced b [] all = tt
merged-Coalesced b (c ∷ bs) all =
    join_if-Coalesced c.idle b c bs (λ e. e) (and_false b.idle c.idle) all

-- `free` joins a block with its free neighbours, so free blocks stay apart.
pub released-Coalesced :
    (front : List Block) (f b : Block) (back : List Block)
    → Coalesced (front ++ f ∷ b ∷ back)
    → Coalesced (front ++ attached f (merged (released b) back))
unfolding Coalesced
released-Coalesced front f b back all =
    let rest = merged-Coalesced (released b) back (
      Coalesced-tail b back
        (Coalesced-tail f (b ∷ back) (Coalesced-behind front (f ∷ b ∷ back) all))) in
    let shape = merged_shape (released b) back refl in
    let rest' = subst (λ (l : List Block). Coalesced l) shape.2 rest in
    rw (shape.2) (join_at f.idle shape.0 shape.1 refl shape.3 rest')
  where
    join_at :
        (t : Bool) (x : Block) (ys : List Block)
        → f.idle ≡ t
        → x.idle ≡ true
        → Coalesced (x ∷ ys)
        → Coalesced (front ++ join_if t f x ys)
    join_at true x ys e idle c =
        Coalesced-replace front f (joined f x) (b ∷ back) ys (λ i. i)
          (λ whole. Coalesced-head x (joined f x) ys (λ i. idle) c) all
    join_at false x ys e idle c =
        Coalesced-replace front f f (b ∷ back) (x ∷ ys) (λ i. i)
          (λ whole. (false_and f.idle x.idle e, c)) all
