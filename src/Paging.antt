-- ===== src/Paging.antt =====
-- Kernel/src/Headers/Paging.h and Memory/PageMapIndexer.cpp: the words of the page tables, and the
-- split of a virtual address into the indices of the four levels.
pub mod Fields
pub mod Indices
pub mod Mapped
mod Tests
use waifu_os.Prelude.{
  ℕ, zero, suc, ◌+◌, ◌-◌, ◌*◌, ◌/◌, ◌%◌, ◌^◌, ◌≤◌, ◌<◌, bit_and, bit_or, min, max, ◌≡◌, refl, sym,
  ap, ap₂, ◌∙◌, fun_ext, ◌≢◌, ◌↔◌, ◌⊎◌, inl, inr, Bool, true, false, not, ◌&&◌, ◌||◌, Option, none,
  some, List, [], ◌∷◌, ◌++◌, map, arith, ltb, leb, ◌==◌, if◌then◌else◌, ltb→lt, lt→ltb, leb→le,
  ==_iff, tests, Bool-cases, Option-cases, length, get_elem?, get_or, set, take, drop, replicate,
  length-append, length-set, length-replicate, All, u8, u16, u32, u64, add64, sub64, mul64, ◌<<<◌,
  ◌>>>◌, page_size,
}

-- `enum struct PTFlag`
pub data PtFlag : Type 0 where
  present read_write user_super write_through cache_disabled accessed larger_pages custom0 custom1
        custom2 nx :
      PtFlag

-- The place of a flag's digit.
abbrev pub flag_digit : PtFlag → ℕ
flag_digit present = 0
flag_digit read_write = 1
flag_digit user_super = 2
flag_digit write_through = 3
flag_digit cache_disabled = 4
flag_digit accessed = 5
flag_digit larger_pages = 7
flag_digit custom0 = 9
flag_digit custom1 = 10
flag_digit custom2 = 11
flag_digit nx = 63

abbrev pub flag_value : PtFlag → ℕ
flag_value flag = 2 ^ flag_digit flag

-- `~x` on 64 bits.
abbrev pub not64 : ℕ → ℕ
not64 x = 2 ^ 64 - 1 - x

-- `PageDirectoryEntry::SetFlag`. The argument `value` is not read.
pub set_flag : ℕ → PtFlag → Bool → ℕ
set_flag m_value flag value =
    bit_or (bit_and m_value (not64 (flag_value flag)))
      (bit_and (flag_value flag) 0xFFFF_FFFF_FFFF_FFFF)

-- `PageDirectoryEntry::GetFlag`
pub get_flag : ℕ → PtFlag → Bool
get_flag m_value flag = not (bit_and m_value (flag_value flag) == 0)

-- `PageDirectoryEntry::SetAddress`
pub set_address : ℕ → ℕ → ℕ
set_address m_value address =
    bit_or (bit_and m_value 0xFFF0_0000_0000_0FFF)
      (u64 (bit_and address 0x0000_00FF_FFFF_FFFF <<< 12))

-- `PageDirectoryEntry::GetAddress`
pub get_address : ℕ → ℕ
get_address m_value = bit_and m_value 0x000F_FFFF_FFFF_F000 >>> 12

-- `struct PageMapIndexer`, made of an address by its constructor.
pub record PageMapIndexer : Type 0 where
  pub pdpi : ℕ
  pub pdi : ℕ
  pub pti : ℕ
  pub pi : ℕ

pub page_map_indexer : ℕ → PageMapIndexer
page_map_indexer v_address =
    let v0 = v_address >>> 12 in
    let v1 = v0 >>> 9 in
    let v2 = v1 >>> 9 in
    let v3 = v2 >>> 9 in
    record {
      pdpi = bit_and v3 0x01FF;
      pdi = bit_and v2 0x01FF;
      pti = bit_and v1 0x01FF;
      pi = bit_and v0 0x01FF;
    }
