-- ===== src/BitMap.antt =====
-- Kernel/src/BitMap.cpp and Headers/BitMap.h: a bit for each page frame, most significant first.
pub mod Laws
pub mod Count
mod Tests
use waifu_os.Prelude.{
  ℕ, ◌*◌, ◌/◌, ◌-◌, ◌%◌, ◌^◌, bit_and, bit_or, Bool, true, false, not, ltb, ◌==◌, if◌then◌else◌, u8,
  u64, ◌>>>◌, ◌<<<◌,
}

-- `struct BitMap`. `buffer` gives the byte at each offset from `Buffer`, also past the end.
pub record BitMap : Type 0 where
  pub size_bytes : ℕ
  pub buffer : ℕ → ℕ

abbrev pub store_byte : (ℕ → ℕ) → ℕ → ℕ → ℕ → ℕ
store_byte buffer i v j = if j == i then v else buffer j

-- `(1 << 7) >> bitIndex`
abbrev pub bit_mask : ℕ → ℕ
bit_mask bit_index = u8 (0x80 >>> bit_index)

-- The bit that `Get` reads of a byte.
unfoldable pub test_bit : ℕ → ℕ → Bool
test_bit b bit_index = not (bit_and b (bit_mask bit_index) == 0)

-- What `Set` makes of a byte: clear the bit, then put in the new one.
unfoldable pub write_bit : ℕ → ℕ → Bool → ℕ
write_bit b bit_index value =
    bit_or (bit_and b (255 - bit_mask bit_index))
      (if value then bit_mask bit_index else u8 (0 >>> bit_index))

-- `BitMap::Get`, which `operator[]` calls
unfoldable pub get : BitMap → ℕ → Bool
unfolding test_bit
get m index =
    if ltb (u64 (m.size_bytes <<< 3)) index
    then false
    else test_bit (m.buffer (index >>> 3)) (index % 8)

-- `BitMap::Set`
unfoldable pub set : BitMap → ℕ → Bool → Bool × BitMap
unfolding write_bit
set m index value = if ltb (u64 (m.size_bytes <<< 3)) index then (false, m) else (
  true,
  record m {
    buffer =
        store_byte m.buffer (index >>> 3) (write_bit (m.buffer (index >>> 3)) (index % 8) value);
  },
)
