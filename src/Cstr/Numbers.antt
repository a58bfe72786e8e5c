-- ===== src/Cstr/Numbers.antt =====
-- Numbers as strings, in cstr.cpp: a 64-bit word stands for the `int64` of the same bits.
use waifu_os.Prelude.{
  ℕ, zero, suc, ◌+◌, ◌-◌, ◌/◌, ◌%◌, ◌^◌, Bool, ◌&&◌, ◌||◌, [], ◌∷◌, ◌++◌, ltb, leb, ◌==◌,
  if◌then◌else◌, length, drop, u8, u64, add64, sub64, mul64,
}
use waifu_os.Cstr.{CString, reverse, char_at, extend_char}

-- `num < 0`
abbrev pub is_negative : ℕ → Bool
is_negative num = leb (2 ^ 63) num

-- `num *= -1` on 64 bits.
abbrev pub negate : ℕ → ℕ
negate num = u64 (2 ^ 64 - num)

-- `num % 10` and `num / 10` on an `int64`: both keep the sign of `num`.
abbrev pub signed_mod10 : ℕ → ℕ
signed_mod10 num = if is_negative num then negate (negate num % 10) else num % 10

abbrev pub signed_div10 : ℕ → ℕ
signed_div10 num = if is_negative num then negate (negate num / 10) else num / 10

-- The loop of `_ToStr`: the digits, the lowest first. A word has at most twenty.
unfoldable pub to_str_loop : ℕ → ℕ → CString
to_str_loop zero num = []
to_str_loop (suc fuel) num =
    let rest = to_str_loop fuel (signed_div10 num) in
    if num == 0 then [] else u8 (add64 (signed_mod10 num) 0x30) ∷ rest

-- `_ToStr`: -2^63 stays negative, and its digits are negative then.
unfoldable pub to_str : ℕ → CString
to_str num =
    if num == 0
    then 0x30 ∷ []
    else if is_negative num
    then 0x2D ∷ reverse (to_str_loop 20 (negate num))
    else reverse (to_str_loop 20 num)

-- `(val > 9) ? val + 0x37 : val + 0x30`
abbrev pub hex_char : ℕ → ℕ
hex_char val = if ltb 9 val then val + 0x37 else val + 0x30

-- The loop of `_ToHex`.
unfoldable pub to_hex_loop : ℕ → ℕ → CString
to_hex_loop zero num = []
to_hex_loop (suc fuel) num =
    let rest = to_hex_loop fuel (num / 0x10) in
    if num == 0 then [] else hex_char (num % 0x10) ∷ rest

-- `_ToHex`: a number of one digit leaves the zero that stands at `buffer[1]`.
unfoldable pub to_hex : ℕ → CString
to_hex num =
    if num == 0
    then 0x30 ∷ 0x78 ∷ 0x30 ∷ 0x30 ∷ []
    else if ltb num 0x10
    then 0x30 ∷ 0x78 ∷ reverse (to_hex_loop 16 num ++ 0x30 ∷ [])
    else 0x30 ∷ 0x78 ∷ reverse (to_hex_loop 16 num)

-- `ToString`
unfoldable pub to_string : ℕ → Bool → CString
to_string num hex = if hex then to_hex num else to_str num

-- The loop of `_ToIntBase10`.
unfoldable pub base10_loop : CString → ℕ → ℕ
base10_loop [] value = value
base10_loop (c ∷ str) value =
    base10_loop str (sub64 (add64 (mul64 value 10) (extend_char 64 c)) 0x30)

-- `_ToIntBase10`
unfoldable pub to_int_base10 : CString → ℕ
to_int_base10 str =
    if char_at str 0 == 0x2D then negate (base10_loop (drop 1 str) 0) else base10_loop str 0

-- The loop of `_ToIntBase16`.
unfoldable pub base16_loop : CString → ℕ → ℕ
base16_loop [] value = value
base16_loop (c ∷ str) value = base16_loop str (
    sub64 (add64 (mul64 value 0x10) (extend_char 64 c))
      (if ltb 0x39 c && ltb c 0x80 then 0x37 else 0x30))

abbrev pub has_prefix : CString → Bool
has_prefix str =
    leb 2 (length str)
    && ((char_at str 0 == 0x30) && ((char_at str 1 == 0x78) || (char_at str 1 == 0x58)))

-- `_ToIntBase16`
unfoldable pub to_int_base16 : CString → ℕ
to_int_base16 str = if has_prefix str then base16_loop (drop 2 str) 0 else base16_loop str 0

-- `ToInt`
unfoldable pub to_int : CString → Bool → ℕ
to_int str hex = if hex then to_int_base16 str else to_int_base10 str
