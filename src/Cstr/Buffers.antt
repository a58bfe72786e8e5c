-- ===== src/Cstr/Buffers.antt =====
-- Reversing a string, and what the copies into a buffer leave there.
use waifu_os.Prelude.{
  ℕ, zero, suc, ◌+◌, ◌-◌, max, ◌≡◌, refl, ap, fun_ext, inl, inr, false, ◌&&◌, ◌||◌, none, some, [],
  ◌∷◌, ◌++◌, arith, ltb, leb, ◌==◌, if◌then◌else◌, ==_iff, Bool-cases, length,
}
use mathlib.Core.List.{append_assoc}
use waifu_os.Cstr.{
  CString, Buffer, write, char_at, reverse_loop, reverse, substring, substring_loop, wstrncpy,
  wstrncpy_loop,
}

pub reverse_loop-append : (str acc : CString) → reverse_loop str acc ≡ reverse_loop str [] ++ acc
unfolding reverse_loop
reverse_loop-append [] acc = refl
reverse_loop-append (c ∷ str) acc =
    rw (reverse_loop-append str (c ∷ acc), reverse_loop-append str (c ∷ []), append_assoc) refl

pub reverse_loop-snoc :
    (str acc : CString) (c : ℕ) → reverse_loop (str ++ c ∷ []) acc ≡ c ∷ reverse_loop str acc
unfolding reverse_loop
reverse_loop-snoc [] acc c = refl
reverse_loop-snoc (d ∷ str) acc c = reverse_loop-snoc str (d ∷ acc) c

pub length-reverse_loop :
    (str acc : CString) → length (reverse_loop str acc) ≡ length str + length acc
unfolding reverse_loop
length-reverse_loop [] acc = omega arith
length-reverse_loop (c ∷ str) acc = omega (arith, length-reverse_loop str (c ∷ acc))

reverse_twice : (str acc : CString) → reverse_loop (reverse_loop str acc) [] ≡ reverse_loop acc str
unfolding reverse_loop
reverse_twice [] acc = refl
reverse_twice (c ∷ str) acc = reverse_twice str (c ∷ acc)

-- `Reverse` twice gives the string back, also where it is too long to be reversed.
pub reverse-reverse : (str : CString) → reverse (reverse str) ≡ str
unfolding reverse reverse_loop
reverse-reverse str = elim (Bool-cases (ltb 255 (length str))) [
  | inl long ↦ rw (long, long) refl
  | inr short ↦
      let same : length (reverse_loop str []) ≡ length str =
        omega (arith, length-reverse_loop str []) in
      rw (short, same, short, reverse_twice str []) refl
]

-- What the loop of `substring` writes: the characters keep their places.
substring_loop-buffer :
    (str : CString) (rounds x : ℕ) (buffer : Buffer) (j : ℕ)
    → substring_loop str rounds x buffer j
      ≡ (if leb x j && ltb j (x + rounds) then char_at str j else buffer j)
unfolding substring_loop
substring_loop-buffer str zero x buffer j =
    let out : (leb x j && ltb j (x + 0)) ≡ false = ground arith in rw out refl
substring_loop-buffer str (suc rounds) x buffer j =
    rw (substring_loop-buffer str rounds (x + 1) (write buffer x (char_at str x)) j)
      (elim (Bool-cases (j == x)) [
        | inl same ↦ let e : j ≡ x = (==_iff j x).0 same in rw e (ground arith)
        | inr other ↦ ground arith
      ])

-- The buffer that `substring` returns.
abbrev placed : Buffer → CString → ℕ → ℕ → Buffer
placed fresh str first last j =
    if j == (last - first) then 0 else if leb first j && ltb j last then char_at str j else fresh j

-- `substring` is null for an empty range and for one that ends behind the string. Otherwise
-- the characters of the range stand at their places in the string, not from the start of the
-- buffer, a zero stands at the length of the range, and every other place is as it was.
pub substring_lem :
    (fresh : Buffer) (str : CString) (first last : ℕ)
    → substring fresh str first last ≡ (
        if leb last first || ltb (length str) last
        then none
        else some (placed fresh str first last))
unfolding substring
substring_lem fresh str first last = elim (Bool-cases (leb last first)) [
  | inl nothing ↦ rw nothing refl
  | inr range ↦ elim (Bool-cases (ltb (length str) last)) [
    | inl outside ↦ rw (range, outside) refl
    | inr inside ↦
        rw (range, inside)
          (ap (λ (b : Buffer). some b)
            (fun_ext
              (λ j. rw (substring_loop-buffer str (last - first) first fresh j) (ground arith))))
  ]
]

-- What the loop of `wstrncpy` leaves at each place, for a copy that has come to `index`.
wstrncpy_loop-buffer :
    (src : CString) (dest : Buffer) (max index j : ℕ)
    → wstrncpy_loop dest src max index j ≡ (
        if leb index j && (ltb j max && leb j (index + length src))
        then char_at src (j - index)
        else dest j)
unfolding wstrncpy_loop
wstrncpy_loop-buffer [] dest max index j = ground arith
wstrncpy_loop-buffer (c ∷ src) dest max index j = elim (Bool-cases (ltb index max)) [
  | inr full ↦ rw full (ground arith)
  | inl room ↦
      rw (room, wstrncpy_loop-buffer src (write dest index c) max (index + 1) j)
        (elim (Bool-cases (ltb index j)) [
          | inl later ↦
              let next : j - index ≡ suc (j - (index + 1)) = ground arith in rw next (ground arith)
          | inr before ↦ elim (Bool-cases (j == index)) [
            | inl same ↦
                let e : j ≡ index = (==_iff j index).0 same in
                let none_left : index - index ≡ 0 = omega arith in rw (e, none_left) (ground arith)
            | inr other ↦ ground arith
          ]
        ])
]

-- `wstrncpy(dest, src, max)` writes the characters of the string and the zero behind them, as far
-- as they fit in `max` places, and leaves every other place alone.
pub wstrncpy_lem :
    (dest : Buffer) (src : CString) (max j : ℕ)
    → wstrncpy dest src max j ≡ (if ltb j max && leb j (length src) then char_at src j else dest j)
unfolding wstrncpy
wstrncpy_lem dest src max j = rw (wstrncpy_loop-buffer src dest max 0 j) (ground arith)
