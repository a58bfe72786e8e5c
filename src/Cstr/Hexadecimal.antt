-- ===== src/Cstr/Hexadecimal.antt =====
-- Hexadecimal numbers: `ToInt` reads what `ToString` writes.
use waifu_os.Prelude.{
  ℕ, zero, suc, ◌+◌, ◌*◌, ◌/◌, ◌%◌, ◌^◌, ◌≤◌, ◌<◌, ◌≡◌, refl, inl, inr, true, false, ◌&&◌, [], ◌∷◌,
  ◌++◌, arith, ltb, leb, ◌==◌, if◌then◌else◌, Bool-cases, length, length-append, add64, sub64,
  mul64,
}
use native.Mathlib.Nat.{pow-suc}
use waifu_os.Cstr.{CString, extend_char, reverse_loop, reverse}
use waifu_os.Cstr.Numbers.{
  hex_char, to_hex_loop, to_hex, to_string, base16_loop, to_int_base16, to_int,
}
use waifu_os.Cstr.Buffers.{reverse_loop-snoc, reverse_loop-append}

abbrev step16 : ℕ → ℕ → ℕ
step16 value c =
    sub64 (add64 (mul64 value 0x10) (extend_char 64 c))
      (if ltb 0x39 c && ltb c 0x80 then 0x37 else 0x30)

base16_loop-append :
    (str : CString) (c value : ℕ)
    → base16_loop (str ++ c ∷ []) value ≡ step16 (base16_loop str value) c
unfolding base16_loop
base16_loop-append [] c value = refl
base16_loop-append (d ∷ str) c value = base16_loop-append str c (step16 value d)

reads_digit :
    (value digit : ℕ)
    → digit < 16
    → value * 16 + digit < 2 ^ 64
    → step16 value (hex_char digit) ≡ value * 16 + digit
reads_digit value digit h small = ground arith

-- Enough digits for the number.
reads_hex :
    (fuel num : ℕ)
    → num < 16 ^ fuel
    → num < 2 ^ 64
    → base16_loop (reverse_loop (to_hex_loop fuel num) []) 0 ≡ num
unfolding to_hex_loop reverse_loop base16_loop
reads_hex zero num h small = omega arith
reads_hex (suc fuel) num h small = elim (Bool-cases (num == 0)) [
  | inl nil ↦ rw nil (ground arith)
  | inr more ↦
      rw
        (
          more,
          reverse_loop-append (to_hex_loop fuel (num / 16)) (hex_char (num % 16) ∷ []),
          base16_loop-append (reverse_loop (to_hex_loop fuel (num / 16)) []) (hex_char (num % 16))
              0,
          reads_hex fuel (num / 16) (omega (arith, pow-suc 16 fuel)) (omega arith),
          reads_digit (num / 16) (num % 16) (omega arith) (omega arith),
        )
        (omega arith)
]

length-to_hex_loop : (fuel num : ℕ) → length (to_hex_loop fuel num) ≤ fuel
unfolding to_hex_loop
length-to_hex_loop zero num = omega arith
length-to_hex_loop (suc fuel) num = ground (arith, length-to_hex_loop fuel (num / 16))

leading_zero : (str : CString) → base16_loop (0x30 ∷ str) 0 ≡ base16_loop str 0
unfolding base16_loop
leading_zero str = refl

reverse_hex : (str : CString) → length str ≤ 17 → reverse str ≡ reverse_loop str []
unfolding reverse
reverse_hex str h = let short : ltb 255 (length str) ≡ false = ground arith in rw short refl

reads_padded :
    (num : ℕ) → num < 2 ^ 64 → base16_loop (reverse (to_hex_loop 16 num ++ 0x30 ∷ [])) 0 ≡ num
reads_padded num h =
    let size : length (to_hex_loop 16 num ++ 0x30 ∷ []) ≤ 17 =
      omega (arith, length-append (to_hex_loop 16 num) (0x30 ∷ []), length-to_hex_loop 16 num) in
    rw
      (
        reverse_hex (to_hex_loop 16 num ++ 0x30 ∷ []) size,
        reverse_loop-snoc (to_hex_loop 16 num) [] 0x30,
        leading_zero (reverse_loop (to_hex_loop 16 num) []),
      )
      (reads_hex 16 num (omega arith) h)

with_prefix : (str : CString) → to_int_base16 (0x30 ∷ 0x78 ∷ str) ≡ base16_loop str 0
unfolding to_int_base16
with_prefix str = let two : leb 2 (suc (suc (length str))) ≡ true = ground arith in rw two refl

-- `ToInt(ToString(num, true), true)` is `num` for each number of 64 bits.
pub to_int-to_string_hex : (num : ℕ) → num < 2 ^ 64 → to_int (to_string num true) true ≡ num
unfolding to_int to_string to_hex base16_loop
to_int-to_string_hex num h = elim (Bool-cases (num == 0)) [
  | inl nil ↦ rw (nil, with_prefix (0x30 ∷ 0x30 ∷ [])) (ground arith)
  | inr more ↦ elim (Bool-cases (ltb num 0x10)) [
    | inl one ↦
        rw (more, one, with_prefix (reverse (to_hex_loop 16 num ++ 0x30 ∷ []))) (reads_padded num h)
    | inr several ↦
        rw
          (
            more,
            several,
            with_prefix (reverse (to_hex_loop 16 num)),
            reverse_hex (to_hex_loop 16 num) (omega (arith, length-to_hex_loop 16 num)),
          )
          (reads_hex 16 num (omega arith) h)
  ]
]
