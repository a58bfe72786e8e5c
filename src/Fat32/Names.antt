-- ===== src/Fat32/Names.antt =====
-- Kernel/src/IO/FileSystem/FAT32.cpp: the names of directory entries.
use waifu_os.Prelude.{
  ℕ, zero, suc, ◌+◌, ◌-◌, ◌*◌, ◌%◌, bit_and, max, Option, none, some, List, [], ◌∷◌, ◌++◌, ltb,
  ◌==◌, if◌then◌else◌, length, get_or, take, u16, ◌>>=◌,
}
use waifu_os.Cstr.{CString, Buffer, write, wstrncpy, index_of, to_lower, cstr_to_wstr}
use waifu_os.Fat32.Structs.{DirectoryEntry, LfnEntry}

-- The characters of an array up to the first zero.
unfoldable pub until_zero : List ℕ → CString
until_zero [] = []
until_zero (c ∷ str) = let rest = until_zero str in if c == 0 then [] else c ∷ rest

-- The string in a buffer: what stands before its first zero, which is looked for in the given number
-- of places. None: there is no zero, and the reading goes on behind them.
unfoldable pub text_of : Buffer → ℕ → ℕ → Option CString
text_of buffer zero x = none
text_of buffer (suc places) x =
    let rest = text_of buffer places (x + 1) in
    if buffer x == 0 then some [] else rest >>= λ str. some (buffer x ∷ str)

-- `wstrncpy((name + offset), src, max)`
unfoldable pub copy_at : Buffer → ℕ → CString → ℕ → Buffer
copy_at name offset src max j =
    if ltb j offset then name j else wstrncpy (λ i. name (i + offset)) src max (j - offset)

-- `(entry.EntryOrder & ~(byte)(0x40)) - 1`, as a `byte`.
abbrev pub piece_of : LfnEntry → ℕ
piece_of entry = (bit_and entry.entry_order 0xBF + 0x100 - 1) % 0x100

-- One round of the loop of `GetEntryNameLFN`.
unfoldable pub copy_piece : Buffer → LfnEntry → Buffer
copy_piece name entry =
    let name_offset = u16 (piece_of entry * 13) in
    let first = copy_at name (name_offset + 0) (until_zero entry.name0) 5 in
    let second = copy_at first (name_offset + 5) (until_zero entry.name1) 6 in
    copy_at second (name_offset + 11) (until_zero entry.name2) 2

unfoldable pub copy_pieces : Buffer → List LfnEntry → Buffer
copy_pieces name [] = name
copy_pieces name (entry ∷ entries) = copy_pieces (copy_piece name entry) entries

-- `GetEntryNameLFN`; `fresh` is what `new` returns.
unfoldable pub get_entry_name_lfn : Buffer → List LfnEntry → Buffer
get_entry_name_lfn fresh entries =
    let name_len = length entries * 13 + 1 in write (copy_pieces fresh entries) (name_len - 1) 0

-- The loop over `ShortExt`.
unfoldable pub until_space : List ℕ → List ℕ
until_space [] = []
until_space (c ∷ str) = let rest = until_space str in if c == 0x20 then [] else c ∷ rest

-- `GetEntryName`
unfoldable pub get_entry_name : DirectoryEntry → CString
get_entry_name entry =
    let index : ℕ = elim (index_of entry.short_name 0x20 8) [ some i ↦ i | none ↦ 8 ] in
    let base = take index entry.short_name in
    let ext =
      if get_or entry.short_ext 0 0x20 == 0x20 then [] else b'.' ∷ until_space entry.short_ext in
    to_lower (until_zero (base ++ ext))

-- The name of an entry without a long one, as a wide string.
unfoldable pub short_name_of : Buffer → DirectoryEntry → Option CString
short_name_of fresh entry =
    let name = get_entry_name entry in
    text_of (cstr_to_wstr fresh name (length name)) (length name + 1) 0

-- The copy of a long name in small letters. It is as long as the name, so no zero is written behind
-- it, and the string goes on with what stands there, here for at most 256 places.
unfoldable pub lower_copy : Buffer → CString → Option CString
lower_copy fresh name =
    text_of (wstrncpy fresh name (length name)) (length name + 0x100) 0 >>= λ str.
    some (to_lower str)
