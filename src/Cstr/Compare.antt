-- ===== src/Cstr/Compare.antt =====
-- Comparing, searching and changing the case of strings.
use waifu_os.Prelude.{
  ℕ, zero, suc, ◌+◌, ◌≤◌, ◌<◌, ◌≡◌, refl, ◌≢◌, ◌↔◌, inl, inr, true, Option, none, some, [], ◌∷◌,
  arith, ◌==◌, ==_iff, Bool-cases, length,
}
use mathlib.Core.Path.{subst}
use waifu_os.Cstr.{
  CString, char_at, strcmp_length, strcmp, lower_char, upper_char, to_lower, to_upper,
  index_of_loop, index_of,
}

strcmp_length-true :
    (s t : CString) (rounds x j : ℕ)
    → strcmp_length s t rounds x ≡ true
    → x ≤ j
    → j < x + rounds
    → char_at s j ≡ char_at t j
unfolding strcmp_length
strcmp_length-true s t zero x j h low high = absurd (omega arith)
strcmp_length-true s t (suc rounds) x j h low high =
    elim (Bool-cases (char_at s x == char_at t x)) [
      | inr differ ↦ absurd (ground arith)
      | inl same ↦ elim (Bool-cases (j == x)) [
        | inl here ↦
            let e : j ≡ x = (==_iff j x).0 here in
            rw e ((==_iff (char_at s x) (char_at t x)).0 same)
        | inr there ↦
            let rest : strcmp_length s t rounds (x + 1) ≡ true = ground arith in
            strcmp_length-true s t rounds (x + 1) j rest (ground arith) (omega arith)
      ]
    ]

same_characters :
    (s t : CString)
    → length s ≡ length t
    → ((j : ℕ) → j < length s → char_at s j ≡ char_at t j)
    → s ≡ t
same_characters [] [] e h = refl
same_characters [] (d ∷ t) e h = absurd (omega arith)
same_characters (c ∷ s) [] e h = absurd (omega arith)
same_characters (c ∷ s) (d ∷ t) e h =
    let first : c ≡ d = h 0 (omega arith) in
    let rest : s ≡ t = same_characters s t (omega arith) (λ j l. h (suc j) (omega arith)) in
    cc (first, rest)

strcmp_length_refl : (s : CString) (rounds x : ℕ) → strcmp_length s s rounds x ≡ true
unfolding strcmp_length
strcmp_length_refl s zero x = refl
strcmp_length_refl s (suc rounds) x =
    rw ((==_iff (char_at s x) (char_at s x)).1 refl) (strcmp_length_refl s rounds (x + 1))

-- `strcmp` is true exactly for equal strings.
pub strcmp_iff : (s t : CString) → (strcmp s t ≡ true) ↔ (s ≡ t)
unfolding strcmp
strcmp_iff s t = (
  (λ h. elim (Bool-cases (length s == length t)) [
    | inr differ ↦ absurd (ground arith)
    | inl same ↦
        let e : length s ≡ length t = (==_iff (length s) (length t)).0 same in
        let all : strcmp_length s t (length s) 0 ≡ true = ground arith in
        same_characters s t e
          (λ j l. strcmp_length-true s t (length s) 0 j all (omega arith) (omega arith))
  ]),
  λ e. rw (← e, (==_iff (length s) (length s)).1 refl) (strcmp_length_refl s (length s) 0),
)

-- `IndexOf` finds the first of the `len` places that holds the character, and -1 if none does.
pub data Found (str : CString) (character len : ℕ) (r : Option ℕ) : Type 0 where
  at :
      (i : ℕ)
      → r ≡ some i
      → i < len
      → char_at str i ≡ character
      → ((j : ℕ) → j < i → char_at str j ≢ character)
      → Found str character len r
  nowhere : r ≡ none → ((j : ℕ) → j < len → char_at str j ≢ character) → Found str character len r

index_of_loop-Found :
    (str : CString) (character rounds x : ℕ)
    → ((j : ℕ) → j < x → char_at str j ≢ character)
    → Found str character (x + rounds) (index_of_loop str character rounds x)
unfolding index_of_loop
index_of_loop-Found str character zero x h = nowhere refl (λ j l. h j (omega arith))
index_of_loop-Found str character (suc rounds) x h =
    elim (Bool-cases (char_at str x == character)) [
      | inl hit ↦ rw hit (at x refl (omega arith) ((==_iff (char_at str x) character).0 hit) h)
      | inr miss ↦
          let next = index_of_loop-Found str character rounds (x + 1) (λ j l.
            elim (Bool-cases (j == x)) [
              | inl here ↦ let e : j ≡ x = (==_iff j x).0 here in rw e (ground arith)
              | inr there ↦ h j (ground arith)
            ]) in
          let count : x + 1 + rounds ≡ x + suc rounds = omega arith in rw (miss, ← count) next
    ]

-- `IndexOf` returns the first of the `len` places that holds the character, and -1 where none does.
pub index_of-Found :
    (str : CString) (character len : ℕ) → Found str character len (index_of str character len)
unfolding index_of
index_of-Found str character len =
    let count : 0 + len ≡ len = omega arith in
    subst (λ (n : ℕ). Found str character n (index_of_loop str character len 0)) count
      (index_of_loop-Found str character len 0 (λ j l. absurd (omega arith)))

lower_twice : (c : ℕ) → lower_char (lower_char c) ≡ lower_char c
lower_twice c = ground arith

lower_upper : (c : ℕ) → lower_char (upper_char c) ≡ lower_char c
lower_upper c = ground arith

to_lower_twice : (str : CString) → to_lower (to_lower str) ≡ to_lower str
unfolding to_lower
to_lower_twice [] = refl
to_lower_twice (c ∷ str) = rw (lower_twice c, to_lower_twice str) refl

to_lower_upper : (str : CString) → to_lower (to_upper str) ≡ to_lower str
unfolding to_lower to_upper
to_lower_upper [] = refl
to_lower_upper (c ∷ str) = rw (lower_upper c, to_lower_upper str) refl

-- `ToLower` after `ToUpper` is `ToLower`, and `ToLower` twice is `ToLower` once.
pub to_lower-to_upper :
    (str : CString)
    → (to_lower (to_upper str) ≡ to_lower str) × (to_lower (to_lower str) ≡ to_lower str)
to_lower-to_upper str = (to_lower_upper str, to_lower_twice str)
