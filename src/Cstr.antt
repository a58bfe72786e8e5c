-- ===== src/Cstr.antt =====
-- Kernel/src/cstr.cpp: strings of characters that a zero ends. A string is the list of the
-- characters before the zero.
pub mod Numbers
pub mod Format
pub mod Decimal
pub mod Hexadecimal
pub mod Compare
pub mod Buffers
pub mod Copy
mod Tests
use waifu_os.Prelude.{
  ℕ, zero, suc, ◌+◌, ◌-◌, ◌*◌, ◌/◌, ◌%◌, ◌^◌, ◌≤◌, ◌<◌, bit_and, bit_or, min, max, ◌≡◌, refl, sym,
  ap, ap₂, ◌∙◌, fun_ext, ◌≢◌, ◌↔◌, ◌⊎◌, inl, inr, Bool, true, false, not, ◌&&◌, ◌||◌, Option, none,
  some, List, [], ◌∷◌, ◌++◌, map, arith, ltb, leb, ◌==◌, if◌then◌else◌, ltb→lt, lt→ltb, leb→le,
  ==_iff, tests, Bool-cases, Option-cases, length, get_elem?, get_or, set, take, drop, replicate,
  length-append, length-set, length-replicate, All, u8, u16, u32, u64, add64, sub64, mul64, ◌<<<◌,
  ◌>>>◌, page_size, ◌>>=◌, >>=_assoc,
}

abbrev pub CString : Type 0
CString = List ℕ

-- `str[x]`, with the zero behind the string.
abbrev pub char_at : CString → ℕ → ℕ
char_at str x = get_or str x 0

-- A `char` has a sign: what becomes of it in an integer of the given width.
abbrev pub extend_char : ℕ → ℕ → ℕ
extend_char width c = if leb 0x80 c then c + (2 ^ width - 0x100) else c

-- `bool strcmp(str0, str1, len)`: the loop over `x`.
unfoldable pub strcmp_length : CString → CString → ℕ → ℕ → Bool
strcmp_length str0 str1 zero x = true
strcmp_length str0 str1 (suc rounds) x =
    if not (char_at str0 x == char_at str1 x) then false else strcmp_length str0 str1 rounds (x + 1)

-- `bool strcmp(str0, str1)` and `wstrcmp`
unfoldable pub strcmp : CString → CString → Bool
strcmp str0 str1 =
    if not (length str0 == length str1) then false else strcmp_length str0 str1 (length str0) 0

-- A buffer and what was written to it.
abbrev pub Buffer : Type 0
Buffer = ℕ → ℕ

abbrev pub write : Buffer → ℕ → ℕ → Buffer
write buffer i c j = if j == i then c else buffer j

-- The loop of `substring`: `buffer[x] = str[x]`.
unfoldable pub substring_loop : CString → ℕ → ℕ → Buffer → Buffer
substring_loop str zero x buffer = buffer
substring_loop str (suc rounds) x buffer =
    substring_loop str rounds (x + 1) (write buffer x (char_at str x))

-- `substring` and `wsubstring`: none is null; the buffer has room for `endIndex - startIndex + 1`
-- characters, and `fresh` is what `new` returns.
unfoldable pub substring : Buffer → CString → ℕ → ℕ → Option Buffer
substring fresh str start_index end_index =
    if leb end_index start_index
    then none
    else if ltb (length str) end_index
    then none
    else some (
        write (substring_loop str (end_index - start_index) start_index fresh)
          (end_index - start_index + 1 - 1) 0)

abbrev pub lower_char : ℕ → ℕ
lower_char c = if leb 0x41 c && leb c 0x5A then c + 0x20 else c

abbrev pub upper_char : ℕ → ℕ
upper_char c = if leb 0x61 c && leb c 0x7A then c - 0x20 else c

-- `ToLower` and `wstrToLower`
unfoldable pub to_lower : CString → CString
to_lower [] = []
to_lower (c ∷ str) = lower_char c ∷ to_lower str

-- `ToUpper`
unfoldable pub to_upper : CString → CString
to_upper [] = []
to_upper (c ∷ str) = upper_char c ∷ to_upper str

-- The loop of `Reverse`: each character goes before those that are in `revBuffer`.
unfoldable pub reverse_loop : CString → CString → CString
reverse_loop [] rev_buffer = rev_buffer
reverse_loop (c ∷ str) rev_buffer = reverse_loop str (c ∷ rev_buffer)

-- `Reverse`, with the length 0 that stands for the length of the string.
unfoldable pub reverse : CString → CString
reverse str = if ltb 255 (length str) then str else reverse_loop str []

-- `IndexOf`: none is -1.
unfoldable pub index_of_loop : CString → ℕ → ℕ → ℕ → Option ℕ
index_of_loop str character zero x = none
index_of_loop str character (suc rounds) x =
    if char_at str x == character then some x else index_of_loop str character rounds (x + 1)

unfoldable pub index_of : CString → ℕ → ℕ → Option ℕ
index_of str character len = index_of_loop str character len 0

-- `wstrIndexOf`
unfoldable pub wstr_index_of : CString → ℕ → Option ℕ
wstr_index_of str character = index_of_loop str character (length str) 0

-- `wstrncpy`: the loop, and the zero behind it where there is room.
unfoldable pub wstrncpy_loop : Buffer → CString → ℕ → ℕ → Buffer
wstrncpy_loop dest [] max index = if ltb index max then write dest index 0 else dest
wstrncpy_loop dest (c ∷ src) max index =
    if ltb index max then wstrncpy_loop (write dest index c) src max (index + 1) else dest

unfoldable pub wstrncpy : Buffer → CString → ℕ → Buffer
wstrncpy dest src max = wstrncpy_loop dest src max 0

-- `wstrTocstr`: the characters lose their high byte, and one whose low byte is zero ends the loop.
unfoldable pub wstr_to_cstr_loop : Buffer → CString → ℕ → ℕ → Buffer
wstr_to_cstr_loop buffer wstr zero x = buffer
wstr_to_cstr_loop buffer wstr (suc rounds) x =
    if u8 (char_at wstr x) == 0
    then buffer
    else wstr_to_cstr_loop (write buffer x (u8 (char_at wstr x))) wstr rounds (x + 1)

unfoldable pub wstr_to_cstr : Buffer → CString → ℕ → Buffer
wstr_to_cstr wchar_buffer wstr len = write (wstr_to_cstr_loop wchar_buffer wstr len 0) len 0

-- `cstrTowstr`: a `wchar` has 16 bits.
unfoldable pub cstr_to_wstr_loop : Buffer → CString → ℕ → ℕ → Buffer
cstr_to_wstr_loop buffer cstr zero x = buffer
cstr_to_wstr_loop buffer cstr (suc rounds) x =
    if char_at cstr x == 0
    then buffer
    else cstr_to_wstr_loop (write buffer x (extend_char 16 (char_at cstr x))) cstr rounds (x + 1)

unfoldable pub cstr_to_wstr : Buffer → CString → ℕ → Buffer
cstr_to_wstr cstr_buffer cstr len = write (cstr_to_wstr_loop cstr_buffer cstr len 0) len 0
