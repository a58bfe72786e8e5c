-- ===== src/Cstr/Tests.antt =====
-- Runs of cstr.cpp on strings, and its laws at them.
use waifu_os.Prelude.{
  ◌-◌, ◌^◌, ◌≡◌, refl, ◌↔◌, true, false, ◌&&◌, some, [], ◌∷◌, arith, ltb, leb, ◌==◌, if◌then◌else◌,
  get_or,
}
use waifu_os.Cstr.{CString, strcmp, reverse_loop, reverse, index_of, substring, wstrncpy}
use waifu_os.Cstr.Numbers.{to_str, to_str_loop, to_hex, to_hex_loop, to_string, to_int}
use waifu_os.Cstr.Format.{format, format_loop, format_round, put_string}
use waifu_os.Cstr.Decimal.{to_int-to_string}
use waifu_os.Cstr.Hexadecimal.{to_int-to_string_hex}
use waifu_os.Cstr.Compare.{strcmp_iff, Found, index_of-Found}
use waifu_os.Cstr.Buffers.{substring_lem, wstrncpy_lem}

-- "-42"
minus_42 : to_str (2 ^ 64 - 42) ≡ 0x2D ∷ 0x34 ∷ 0x32 ∷ []
unfolding to_str to_str_loop reverse reverse_loop
minus_42 = refl

-- "0x0A"
hex_ten : to_hex 10 ≡ 0x30 ∷ 0x78 ∷ 0x30 ∷ 0x41 ∷ []
unfolding to_hex to_hex_loop reverse reverse_loop
hex_ten = refl

-- "a%0b" with 42.
format_parameter : (format (0x61 ∷ 0x25 ∷ 0x30 ∷ 0x62 ∷ []) (λ i. 42) 3 ≡ 0x62)
unfolding format format_loop format_round put_string to_string to_str to_str_loop reverse
    reverse_loop
format_parameter = refl

to_int-to_string_example : to_int (to_string (2 ^ 64 - 42) false) false ≡ 2 ^ 64 - 42
to_int-to_string_example = to_int-to_string (2 ^ 64 - 42) (omega arith)

to_int-to_string_hex_example : to_int (to_string 0xBEEF true) true ≡ 0xBEEF
to_int-to_string_hex_example = to_int-to_string_hex 0xBEEF (omega arith)

abbrev twelve : CString
twelve = 0x31 ∷ 0x32 ∷ []

abbrev thirteen : CString
thirteen = 0x31 ∷ 0x33 ∷ []

strcmp_iff_example : (strcmp twelve thirteen ≡ true) ↔ (twelve ≡ thirteen)
strcmp_iff_example = strcmp_iff twelve thirteen

index_of-Found_example : Found (5 ∷ 6 ∷ []) 6 2 (index_of (5 ∷ 6 ∷ []) 6 2)
index_of-Found_example = index_of-Found (5 ∷ 6 ∷ []) 6 2

substring_lem_example :
    substring (λ i. 0) (7 ∷ 8 ∷ 9 ∷ []) 1 3
    ≡ some
        (λ j. if j == 2 then 0 else if leb 1 j && ltb j 3 then get_or (7 ∷ 8 ∷ 9 ∷ []) j 0 else 0)
substring_lem_example = substring_lem (λ i. 0) (7 ∷ 8 ∷ 9 ∷ []) 1 3

wstrncpy_lem_example : wstrncpy (λ i. 9) (7 ∷ 8 ∷ []) 2 1 ≡ 8
wstrncpy_lem_example = wstrncpy_lem (λ i. 9) (7 ∷ 8 ∷ []) 2 1

-- The digits of -2^63 are negative: its text is "-" and characters below '0'.
smallest_text :
    to_str (2 ^ 63)
    ≡ 0x2D ∷ 0x27 ∷ 0x2E ∷ 0x2E ∷ 0x2D ∷ 0x2D ∷ 0x29 ∷ 0x2E ∷ 0x30 ∷ 0x2D ∷ 0x2A ∷ 0x28 ∷ 0x2B
      ∷ 0x2C ∷ 0x29 ∷ 0x29 ∷ 0x2B ∷ 0x28 ∷ 0x30 ∷ 0x28 ∷ []
unfolding to_str to_str_loop reverse reverse_loop
smallest_text = refl
