-- ===== src/Fat32/LongNames.antt =====
-- A long name, as it is stored in the entries of a directory, is read back.
use waifu_os.Prelude.{
  ℕ, zero, suc, ◌+◌, ◌-◌, ◌*◌, ◌≤◌, ◌<◌, bit_and, max, ◌≡◌, refl, sym, ap, ◌∙◌, inl, inr, true,
  false, ◌&&◌, some, List, [], ◌∷◌, arith, ltb, leb, ◌==◌, if◌then◌else◌, lt→ltb, ==_iff,
  Bool-cases, length, u16,
}
use mathlib.Core.Path.{subst}
use waifu_os.Cstr.{CString, Buffer, char_at, wstrncpy, to_lower}
use waifu_os.Cstr.Buffers.{wstrncpy_lem}
use waifu_os.Prelude.Loops.{every_below, every_below-true}
use waifu_os.Fat32.Structs.{elements, LfnEntry}
use waifu_os.Fat32.Names.{
  until_zero, text_of, copy_at, piece_of, copy_piece, copy_pieces, get_entry_name_lfn, lower_copy,
}

-- A name behind which stand a zero and then 0xFFFF.
abbrev pub padded : CString → ℕ → ℕ
padded str i = if ltb i (length str) then char_at str i else if i == length str then 0 else 0xFFFF

-- The entry for the thirteen characters from 13 * k on; the last one of n is marked.
abbrev pub lfn_of : CString → ℕ → ℕ → LfnEntry
lfn_of str n k = record {
  entry_order = if k + 1 == n then k + 1 + 0x40 else k + 1;
  name0 = elements (padded str) (13 * k + 0) 5;
  name1 = elements (padded str) (13 * k + 5) 6;
  name2 = elements (padded str) (13 * k + 11) 2;
}

-- The entries below k, the last one first, as they stand on the disk.
abbrev pub pieces : CString → ℕ → ℕ → List LfnEntry
pieces str n zero = []
pieces str n (suc k) = lfn_of str n k ∷ pieces str n k

-- The characters of a name are not zero.
abbrev pub IsText : CString → Type 0
IsText str = (j : ℕ) → j < length str → (char_at str j == 0) ≡ false

char_at-end : (str : CString) → char_at str (length str) ≡ 0
char_at-end [] = refl
char_at-end (c ∷ str) = char_at-end str

padded-inside : (str : CString) (j : ℕ) → j ≤ length str → padded str j ≡ char_at str j
padded-inside str j inside = elim (Bool-cases (ltb j (length str))) [
  | inl before ↦ rw before refl
  | inr behind ↦
      let end : j ≡ length str = ground arith in
      let same : (length str == length str) ≡ true = ground arith in
      rw (behind, end, same) (sym (char_at-end str))
]

until_zero-elements :
    (f : ℕ → ℕ) (m a i : ℕ)
    → i < m
    → ((j : ℕ) → j < i → (f (a + j) == 0) ≡ false)
    → (i ≤ length (until_zero (elements f a m)))
      × (char_at (until_zero (elements f a m)) i ≡ f (a + i))
unfolding until_zero
until_zero-elements f zero a i inside full = absurd (omega arith)
until_zero-elements f (suc m) a zero inside full =
    let here : f (a + 0) ≡ f a = ap f (omega arith) in
    elim (Bool-cases (f a == 0)) [
      | inl end ↦ rw (here, end) (omega arith, sym ((==_iff (f a) 0).0 end))
      | inr more ↦ rw (here, more) (omega arith, refl)
    ]
until_zero-elements f (suc m) a (suc i) inside full =
    let first : (f a == 0) ≡ false =
      subst (λ (t : ℕ). (f t == 0) ≡ false) (omega arith) (full 0 (omega arith)) in
    let next : f (a + suc i) ≡ f (a + 1 + i) = ap f (omega arith) in
    let (fits, there) =
      until_zero-elements f m (a + 1) i (omega arith)
        (λ j h. subst (λ (t : ℕ). (f t == 0) ≡ false) (omega arith) (full (suc j) (omega arith))) in
    rw (first, next) (omega (arith, fits), there)

copy_at_lem :
    (name : Buffer) (offset : ℕ) (src : CString) (max j : ℕ)
    → copy_at name offset src max j ≡ (
        if (leb offset j && ltb j (offset + max)) && leb (j - offset) (length src)
        then char_at src (j - offset)
        else name j)
unfolding copy_at
copy_at_lem name offset src max j = elim (Bool-cases (ltb j offset)) [
  | inl before ↦ rw before (ground arith)
  | inr behind ↦
      let back : j - offset + offset ≡ j = ground arith in
      let room : ltb (j - offset) max ≡ (leb offset j && ltb j (offset + max)) = ground arith in
      rw (behind, wstrncpy_lem (λ i. name (i + offset)) src max (j - offset), back, room) refl
]

piece_checked :
    every_below 62
      (λ k. (bit_and (k + 1) 0xBF == (k + 1)) && (bit_and (k + 1 + 0x40) 0xBF == (k + 1)))
    ≡ true
unfolding every_below
piece_checked = refl

piece_of-lfn_of : (str : CString) (n k : ℕ) → k < 62 → piece_of (lfn_of str n k) ≡ k
piece_of-lfn_of str n k small =
    let checked =
      every_below-true 62
        (λ i. (bit_and (i + 1) 0xBF == (i + 1)) && (bit_and (i + 1 + 0x40) 0xBF == (i + 1))) k
        piece_checked small in
    elim (Bool-cases (k + 1 == n)) [
      | inl last ↦ rw last (ground (arith, checked))
      | inr other ↦ rw other (ground (arith, checked))
    ]

-- A part of a piece is copied to its place, as far as the name and its zero reach.
part_lem :
    (name : Buffer) (str : CString) (offset max j : ℕ)
    → IsText str
    → j ≤ length str
    → copy_at name offset (until_zero (elements (padded str) offset max)) max j
      ≡ (if leb offset j && ltb j (offset + max) then padded str j else name j)
part_lem name str offset max j text inside =
    elim (Bool-cases (leb offset j && ltb j (offset + max))) [
      | inl within ↦
          let whole : offset + (j - offset) ≡ j = ground arith in
          let (fits, there) =
            until_zero-elements (padded str) max offset (j - offset) (ground arith) (λ i h.
              let here : offset + i < length str = ground arith in
              rw (lt→ltb (offset + i) (length str) here) (text (offset + i) here)) in
          let short : leb (j - offset) (length (until_zero (elements (padded str) offset max)))
              ≡ true =
            ground (arith, fits) in
          copy_at_lem name offset (until_zero (elements (padded str) offset max)) max j
          ∙ rw (within, short) (there ∙ ap (padded str) whole)
      | inr outside ↦
          copy_at_lem name offset (until_zero (elements (padded str) offset max)) max j
          ∙ rw outside refl
    ]

copy_piece_lem :
    (name : Buffer) (str : CString) (n k j : ℕ)
    → k < 62
    → IsText str
    → j ≤ length str
    → copy_piece name (lfn_of str n k) j
      ≡ (if leb (13 * k) j && ltb j (13 * k + 13) then padded str j else name j)
unfolding copy_piece
copy_piece_lem name str n k j small text inside =
    let offset : u16 (piece_of (lfn_of str n k) * 13) ≡ 13 * k =
      omega (arith, piece_of-lfn_of str n k small) in
    let first = copy_at name (13 * k + 0) (until_zero (elements (padded str) (13 * k + 0) 5)) 5 in
    let second = copy_at first (13 * k + 5) (until_zero (elements (padded str) (13 * k + 5) 6)) 6 in
    rw
      (
        offset,
        part_lem second str (13 * k + 11) 2 j text inside,
        part_lem first str (13 * k + 5) 6 j text inside,
        part_lem name str (13 * k + 0) 5 j text inside,
      )
      (ground arith)

copy_pieces_lem :
    (name : Buffer) (str : CString) (n k j : ℕ)
    → k ≤ 62
    → IsText str
    → j ≤ length str
    → copy_pieces name (pieces str n k) j ≡ (if ltb j (13 * k) then padded str j else name j)
unfolding copy_pieces
copy_pieces_lem name str n zero j small text inside =
    let out : ltb j (13 * 0) ≡ false = ground arith in rw out refl
copy_pieces_lem name str n (suc k) j small text inside =
    copy_pieces_lem (copy_piece name (lfn_of str n k)) str n k j (omega arith) text inside
    ∙ rw (copy_piece_lem name str n k j (omega arith) text inside) (ground arith)

pub length-pieces : (str : CString) (n k : ℕ) → length (pieces str n k) ≡ k
length-pieces str n zero = refl
length-pieces str n (suc k) = ap suc (length-pieces str n k)

-- A text that stands in a buffer with a zero behind it is read from there.
text_of_lem :
    (buffer : Buffer) (str : CString) (places x : ℕ)
    → IsText str
    → length str < places
    → ((j : ℕ) → j ≤ length str → buffer (x + j) ≡ char_at str j)
    → text_of buffer places x ≡ some str
unfolding text_of
text_of_lem buffer str zero x text room there = absurd (omega arith)
text_of_lem buffer [] (suc places) x text room there =
    let end : buffer x ≡ 0 =
      subst (λ (t : ℕ). buffer t ≡ 0) (omega arith) (there 0 (omega arith)) in
    rw end refl
text_of_lem buffer (c ∷ str) (suc places) x text room there =
    let first : buffer x ≡ c =
      subst (λ (t : ℕ). buffer t ≡ c) (omega arith) (there 0 (omega arith)) in
    let rest =
      text_of_lem buffer str places (x + 1) (λ j h. text (suc j) (omega arith)) (omega arith)
        (λ j h.
          subst (λ (t : ℕ). buffer t ≡ char_at str j) (omega arith)
            (there (suc j) (omega arith))) in
    rw (first, text 0 (omega arith), rest) refl

-- The name of n entries with a text for which n is enough, and no more than 62 entries.
pub long_name_lem :
    (fresh : Buffer) (str : CString) (n : ℕ)
    → IsText str
    → length str ≤ 13 * n
    → n ≤ 62
    → text_of (get_entry_name_lfn fresh (pieces str n n)) (n * 13 + 1) 0 ≡ some str
unfolding get_entry_name_lfn
long_name_lem fresh str n text fits few =
    text_of_lem _ str (n * 13 + 1) 0 text (omega arith) (λ j inside.
      rw (length-pieces str n n) (elim (Bool-cases (j == n * 13)) [
        | inl last ↦
            let end : j ≡ length str = ground arith in
            let here : ((0 + j) == (n * 13 + 1 - 1)) ≡ true = ground arith in
            rw (here, end) (sym (char_at-end str))
        | inr before ↦
            let elsewhere : ((0 + j) == (n * 13 + 1 - 1)) ≡ false = ground arith in
            let whole : 0 + j ≡ j = omega arith in
            let inner : ltb j (13 * n) ≡ true = ground arith in
            rw (elsewhere, whole, copy_pieces_lem fresh str n n j few text inside, inner)
              (padded-inside str j inside)
      ]))

pub lower_copy_lem :
    (fresh : Buffer) (str : CString)
    → IsText str
    → fresh (length str) ≡ 0
    → lower_copy fresh str ≡ some (to_lower str)
unfolding lower_copy
lower_copy_lem fresh str text zero_behind =
    rw
      (text_of_lem (wstrncpy fresh str (length str)) str (length str + 0x100) 0 text (omega arith)
        (λ j inside.
          let whole : 0 + j ≡ j = omega arith in
          rw (whole, wstrncpy_lem fresh str (length str) j)
            (elim (Bool-cases (ltb j (length str))) [
              | inl before ↦
                  let near : leb j (length str) ≡ true = ground arith in rw (before, near) refl
              | inr behind ↦
                  let end : j ≡ length str = ground arith in
                  rw (behind, end) (zero_behind ∙ sym (char_at-end str))
            ])))
      refl
