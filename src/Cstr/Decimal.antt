-- ===== src/Cstr/Decimal.antt =====
-- Decimal numbers: `ToInt` reads what `ToString` writes.
use waifu_os.Prelude.{
  ℕ, zero, suc, ◌+◌, ◌/◌, ◌%◌, ◌^◌, ◌≤◌, ◌<◌, ◌≡◌, refl, sym, inl, inr, false, [], ◌∷◌, ◌++◌, arith,
  ltb, ◌==◌, ==_iff, ◌*◌, u8, Bool-cases, length, All, add64, sub64, mul64,
}
use mathlib.Core.Path.{subst}
use native.Mathlib.Nat.{pow-suc}
use waifu_os.Cstr.{CString, extend_char, char_at, reverse_loop, reverse}
use waifu_os.Cstr.Numbers.{
  is_negative, negate, signed_div10, to_str_loop, to_str, to_string, base10_loop, to_int_base10,
  to_int,
}
use waifu_os.Cstr.Buffers.{reverse_loop-append}

abbrev step10 : ℕ → ℕ → ℕ
step10 value c = sub64 (add64 (mul64 value 10) (extend_char 64 c)) 0x30

base10_loop-append :
    (str : CString) (c value : ℕ)
    → base10_loop (str ++ c ∷ []) value ≡ step10 (base10_loop str value) c
unfolding base10_loop
base10_loop-append [] c value = refl
base10_loop-append (d ∷ str) c value = base10_loop-append str c (step10 value d)

-- A round of the loop for a number that is not negative.
to_str_loop-round :
    (fuel num : ℕ)
    → num < 2 ^ 63
    → (num == 0) ≡ false
    → to_str_loop (suc fuel) num ≡ (num % 10 + 0x30) ∷ to_str_loop fuel (num / 10)
unfolding to_str_loop
to_str_loop-round fuel num h more =
    let positive : is_negative num ≡ false = ground arith in
    let digit : u8 (add64 (num % 10) 0x30) ≡ num % 10 + 0x30 = omega arith in
    rw (more, positive, digit) refl

reads_digit :
    (value digit : ℕ)
    → digit < 10
    → value * 10 + digit < 2 ^ 64
    → step10 value (digit + 0x30) ≡ value * 10 + digit
reads_digit value digit h small = ground arith

-- Enough digits for the number.
reads_digits :
    (fuel num : ℕ)
    → num < 10 ^ fuel
    → num < 2 ^ 63
    → base10_loop (reverse_loop (to_str_loop fuel num) []) 0 ≡ num
unfolding to_str_loop reverse_loop base10_loop
reads_digits zero num h small = omega arith
reads_digits (suc fuel) num h small = elim (Bool-cases (num == 0)) [
  | inl nil ↦ rw nil (ground arith)
  | inr more ↦
      rw
        (
          to_str_loop-round fuel num small more,
          reverse_loop-append (to_str_loop fuel (num / 10)) ((num % 10 + 0x30) ∷ []),
          base10_loop-append (reverse_loop (to_str_loop fuel (num / 10)) []) (num % 10 + 0x30) 0,
          reads_digits fuel (num / 10) (omega (arith, pow-suc 10 fuel)) (omega arith),
          reads_digit (num / 10) (num % 10) (omega arith) (omega arith),
        )
        (omega arith)
]

length-to_str_loop : (fuel num : ℕ) → length (to_str_loop fuel num) ≤ fuel
unfolding to_str_loop
length-to_str_loop zero num = omega arith
length-to_str_loop (suc fuel) num = elim (Bool-cases (num == 0)) [
  | inl nil ↦ rw nil (omega arith)
  | inr more ↦ rw more (omega (arith, length-to_str_loop fuel (signed_div10 num)))
]

IsDigits : CString → Type 0
IsDigits str = All (λ c. 0x30 ≤ c) str

to_str_loop-IsDigits : (fuel num : ℕ) → num < 2 ^ 63 → IsDigits (to_str_loop fuel num)
unfolding to_str_loop IsDigits
to_str_loop-IsDigits zero num h = tt
to_str_loop-IsDigits (suc fuel) num h = elim (Bool-cases (num == 0)) [
  | inl nil ↦ rw nil tt
  | inr more ↦
      subst IsDigits (sym (to_str_loop-round fuel num h more))
        (omega arith, to_str_loop-IsDigits fuel (num / 10) (omega arith))
]

reverse_loop-IsDigits :
    (str acc : CString) → IsDigits str → IsDigits acc → IsDigits (reverse_loop str acc)
unfolding reverse_loop IsDigits
reverse_loop-IsDigits [] acc h g = g
reverse_loop-IsDigits (c ∷ str) acc h g = reverse_loop-IsDigits str (c ∷ acc) h.1 (h.0, g)

no_sign : (str : CString) → IsDigits str → (char_at str 0 == 0x2D) ≡ false
unfolding IsDigits
no_sign [] h = refl
no_sign (c ∷ str) h = let low = h.0 in ground arith

short_reverse : (num : ℕ) → reverse (to_str_loop 20 num) ≡ reverse_loop (to_str_loop 20 num) []
unfolding reverse
short_reverse num =
    let short : ltb 255 (length (to_str_loop 20 num)) ≡ false =
      ground (arith, length-to_str_loop 20 num) in
    rw short refl

digits_no_sign :
    (num : ℕ) → num < 2 ^ 63 → (char_at (reverse_loop (to_str_loop 20 num) []) 0 == 0x2D) ≡ false
unfolding IsDigits
digits_no_sign num h =
    no_sign _ (reverse_loop-IsDigits (to_str_loop 20 num) [] (to_str_loop-IsDigits 20 num h) tt)

-- The text of -2^63 is no decimal number, since its digits are negative, but `ToInt` reads it right.
smallest_number : to_int (to_string (2 ^ 63) false) false ≡ 2 ^ 63
unfolding to_int to_string to_int_base10 to_str to_str_loop base10_loop reverse reverse_loop
smallest_number = refl

-- `ToInt(ToString(num))` is `num` for each number of 64 bits, negative ones included. That holds of
-- -2^63 too, whose text is a minus sign and characters that are no digits.
pub to_int-to_string : (num : ℕ) → num < 2 ^ 64 → to_int (to_string num false) false ≡ num
unfolding to_int to_string to_int_base10 to_str base10_loop
to_int-to_string num h = elim (Bool-cases (num == 0)) [
  | inl nil ↦ rw nil (ground arith)
  | inr more ↦ elim (Bool-cases (num == 2 ^ 63)) [
    | inl smallest ↦
        subst (λ (x : ℕ). to_int (to_string x false) false ≡ x)
          (sym ((==_iff num (2 ^ 63)).0 smallest)) smallest_number
    | inr other ↦ elim (Bool-cases (is_negative num)) [
      | inl negative ↦
          rw
            (
              more,
              negative,
              short_reverse (negate num),
              reads_digits 20 (negate num) (omega arith) (ground arith),
            )
            (ground arith)
      | inr positive ↦
          rw
            (
              more,
              positive,
              short_reverse num,
              digits_no_sign num (ground arith),
              reads_digits 20 num (omega arith) (ground arith),
            )
            refl
    ]
  ]
]
