-- ===== src/BitMap/Tests.antt =====
-- Runs of BitMap.cpp on a bitmap of two bytes, and its laws at that bitmap.
use waifu_os.Prelude.{◌≤◌, ℕ, ◌<◌, ◌≡◌, refl, true, false, arith, ◌==◌, if◌then◌else◌}
use waifu_os.BitMap.{BitMap, get, set, write_bit}
use waifu_os.BitMap.Laws.{get-set, set_past_end}

-- Frames 0 to 3 are in use; the byte behind the buffer is 0x55.
abbrev two_bytes : BitMap
two_bytes = record {
  size_bytes = 2;
  buffer = λ i. if i == 0 then 0xF0 else if i == 2 then 0x55 else 0;
}

first_bits : (get two_bytes 3 ≡ true) × (get two_bytes 4 ≡ false)
unfolding get
first_bits = (refl, refl)

set_bit : (set two_bytes 4 true).1.buffer 0 ≡ 0xF8
unfolding set
set_bit = refl

two_bytes-lt : (i : ℕ) → two_bytes.buffer i < 256
two_bytes-lt i = ground arith

get-set_example : get (set two_bytes 4 true).1 4 ≡ true
get-set_example = get-set two_bytes 4 4 true (omega arith) two_bytes-lt (omega arith)

set_past_end_example :
    ((set two_bytes 16 true).0 ≡ true)
    × ((set two_bytes 16 true).1.buffer 2 ≡ write_bit 0x55 0 true)
    × (5 ≤ 16
        → (k : ℕ)
        → (set two_bytes 5 true).1.buffer k
          ≡ (if k == 0 then write_bit (two_bytes.buffer k) 5 true else two_bytes.buffer k))
    × (16 < 5 → set two_bytes 5 true ≡ (false, two_bytes))
set_past_end_example = set_past_end two_bytes 5 true (omega arith)
