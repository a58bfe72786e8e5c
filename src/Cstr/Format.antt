-- ===== src/Cstr/Format.antt =====
-- `cstr::format`: the text goes to `formatBuffer` at `x + fBufferOffset`.
use waifu_os.Prelude.{
  ℕ, zero, suc, ◌+◌, ◌-◌, Bool, true, false, ◌&&◌, [], ◌∷◌, ltb, leb, ◌==◌, if◌then◌else◌, length,
  u64, add64, sub64,
}
use waifu_os.Cstr.{CString, Buffer, write, char_at}
use waifu_os.Cstr.Numbers.{to_string}

abbrev pub is_digit : ℕ → Bool
is_digit c = leb 0x30 c && leb c 0x39

-- The loop that copies the text of a parameter.
unfoldable pub put_string : Buffer → ℕ → CString → Buffer
put_string buffer at [] = buffer
put_string buffer at (c ∷ str) = put_string (write buffer at c) (at + 1) str

pub record FormatState : Type 0 where
  pub x : ℕ
  pub f_buffer_offset : ℕ
  pub format_buffer : Buffer

-- The lambda `Insert`, for the parameter that a digit names.
abbrev pub insert : (ℕ → ℕ) → Bool → ℕ → FormatState → FormatState
insert params use_hex chr s =
    let pstr = to_string (params (chr - 0x30)) use_hex in
    record s {
      format_buffer = put_string s.format_buffer (u64 (s.x + s.f_buffer_offset)) pstr;
      f_buffer_offset = add64 s.f_buffer_offset (sub64 (length pstr) 1);
    }

-- `x += n; fBufferOffset -= n;`
abbrev pub skip : ℕ → FormatState → FormatState
skip n s = record s { x = s.x + n; f_buffer_offset = sub64 s.f_buffer_offset n }

-- One round of the loop, without `x++`: nothing is written for a `%` that no digit follows.
unfoldable pub format_round : CString → (ℕ → ℕ) → FormatState → FormatState
format_round str params s =
    if char_at str s.x == 0x25
    then (if char_at str (s.x + 1) == 0x78
        then (if is_digit (char_at str (s.x + 2))
            then skip 2 (insert params true (char_at str (s.x + 2)) s)
            else s)
        else if is_digit (char_at str (s.x + 1))
        then skip 1 (insert params false (char_at str (s.x + 1)) s)
        else s)
    else record s {
      format_buffer = write s.format_buffer (u64 (s.x + s.f_buffer_offset)) (char_at str s.x);
    }

unfoldable pub format_loop : ℕ → CString → (ℕ → ℕ) → FormatState → FormatState
format_loop zero str params s = s
format_loop (suc fuel) str params s = elim (ltb s.x (length str)) [
  | false ↦ s
  | true ↦
      let t = format_round str params s in format_loop fuel str params (record t { x = t.x + 1 })
]

-- `format`: every round moves `x`, so one round for each character is enough.
unfoldable pub format : CString → (ℕ → ℕ) → Buffer
format str params =
    (format_loop (length str) str params
      (record { x = 0; f_buffer_offset = 0; format_buffer = λ i. 0 })).format_buffer
