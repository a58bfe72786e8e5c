-- ===== src/PageFrameAllocator.antt =====
-- Kernel/src/Memory/PageFrameAllocator.cpp: which page frames are in use, and the three counters.
-- A frame is named by its address; the null pointer is the address 0.
pub mod Accounting
pub mod Cursor
pub mod Locking
pub mod Runs
pub mod Boot
mod Tests
pub mod History
use waifu_os.Prelude.{
  ℕ, zero, suc, ◌+◌, ◌-◌, ◌*◌, ◌/◌, ◌%◌, ◌^◌, ◌≤◌, ◌<◌, bit_and, bit_or, min, max, ◌≡◌, refl, sym,
  ap, ap₂, ◌∙◌, fun_ext, ◌≢◌, ◌↔◌, ◌⊎◌, inl, inr, Bool, true, false, not, ◌&&◌, ◌||◌, Option, none,
  some, List, [], ◌∷◌, ◌++◌, map, arith, ltb, leb, ◌==◌, if◌then◌else◌, ltb→lt, lt→ltb, leb→le,
  ==_iff, tests, Bool-cases, Option-cases, length, get_elem?, get_or, take, drop, replicate,
  length-append, length-set, length-replicate, All, u8, u16, u32, u64, add64, sub64, mul64, ◌<<<◌,
  ◌>>>◌, page_size,
}
use waifu_os.Prelude.Loops.{for_range}
use waifu_os.BitMap.{BitMap, get, set}

-- The globals of the namespace. `last` is `LastPageIndex`.
pub record Pfa : Type 0 where
  pub bitmap : BitMap
  pub initialized : Bool
  pub free : ℕ
  pub allocated : ℕ
  pub reserved : ℕ
  pub last : ℕ

-- `struct EfiMemoryDescriptor`, the fields that are read.
pub record EfiMemoryDescriptor : Type 0 where
  pub type : ℕ
  pub phys_addr : ℕ
  pub n_pages : ℕ

abbrev pub useable_memory : ℕ
useable_memory = 0x07

-- `InitBitmap`: the buffer is cleared.
pub init_bitmap : Pfa → ℕ → (ℕ → ℕ) → Pfa
init_bitmap s size memory = record s {
  bitmap = record { size_bytes = size; buffer = λ i. if ltb i size then 0 else memory i };
}

-- Frames whose bit `Set` changed: what `FreePage` and `UnreservePage` do to the cursor.
abbrev pub lower_cursor : ℕ → Pfa → Pfa
lower_cursor index s = if ltb index s.last then record s { last = index } else s

-- What `FreePage` does once `Set` has answered.
abbrev pub free_changed : Pfa → ℕ → Bool × BitMap → Pfa
free_changed s index (true, bitmap') = lower_cursor index (record s {
  bitmap = bitmap';
  free = add64 s.free page_size;
  allocated = sub64 s.allocated page_size;
})
free_changed s index (false, bitmap') = record s { bitmap = bitmap' }

pub free_page : Pfa → ℕ → Pfa
free_page s address =
    let index = address / page_size in
    if not (get s.bitmap index) then s else free_changed s index (set s.bitmap index false)

abbrev pub lock_changed : Pfa → Bool × BitMap → Pfa
lock_changed s (true, bitmap') = record s {
  bitmap = bitmap';
  free = sub64 s.free page_size;
  allocated = add64 s.allocated page_size;
}
lock_changed s (false, bitmap') = record s { bitmap = bitmap' }

unfoldable pub lock_page : Pfa → ℕ → Pfa
lock_page s address =
    let index = address / page_size in
    if get s.bitmap index then s else lock_changed s (set s.bitmap index true)

-- What `UnreservePage` does once `Set` has answered.
abbrev pub unreserve_changed : Pfa → ℕ → Bool × BitMap → Pfa
unreserve_changed s index (true, bitmap') = lower_cursor index (record s {
  bitmap = bitmap';
  free = add64 s.free page_size;
  reserved = sub64 s.reserved page_size;
})
unreserve_changed s index (false, bitmap') = record s { bitmap = bitmap' }

pub unreserve_page : Pfa → ℕ → Pfa
unreserve_page s address =
    let index = address / page_size in
    if not (get s.bitmap index) then s else unreserve_changed s index (set s.bitmap index false)

abbrev pub reserve_changed : Pfa → Bool × BitMap → Pfa
reserve_changed s (true, bitmap') = record s {
  bitmap = bitmap';
  free = sub64 s.free page_size;
  reserved = add64 s.reserved page_size;
}
reserve_changed s (false, bitmap') = record s { bitmap = bitmap' }

pub reserve_page : Pfa → ℕ → Pfa
reserve_page s address =
    let index = address / page_size in
    if get s.bitmap index then s else reserve_changed s (set s.bitmap index true)

-- The address of round `x` of the loops over frames.
abbrev pub page_at : ℕ → ℕ → ℕ
page_at address x = add64 address (mul64 x page_size)

pub free_pages : Pfa → ℕ → ℕ → Pfa
free_pages s address count = for_range count 0 (λ x s. free_page s (page_at address x)) s

pub lock_pages : Pfa → ℕ → ℕ → Pfa
lock_pages s address count = for_range count 0 (λ x s. lock_page s (page_at address x)) s

pub unreserve_pages : Pfa → ℕ → ℕ → Pfa
unreserve_pages s address count = for_range count 0 (λ x s. unreserve_page s (page_at address x)) s

pub reserve_pages : Pfa → ℕ → ℕ → Pfa
reserve_pages s address count = for_range count 0 (λ x s. reserve_page s (page_at address x)) s

-- `PageBitmap.SizeBytes * 8`
abbrev pub page_count : Pfa → ℕ
page_count s = mul64 s.bitmap.size_bytes 8

-- The `while` of `RequestPage`, on fuel: `none` says that the fuel ran out.
pub request_page_loop : ℕ → Pfa → Option (ℕ × Pfa)
request_page_loop zero s = none
request_page_loop (suc fuel) s =
    let next = request_page_loop fuel (record s { last = add64 s.last 1 }) in
    if ltb s.last (page_count s)
    then (if get s.bitmap s.last
        then next
        else some (mul64 s.last page_size, lock_page s (mul64 s.last page_size)))
    else some (0, s)

-- Each round moves the cursor towards the end of the bitmap.
abbrev pub request_fuel : Pfa → ℕ
request_fuel s = suc (page_count s - s.last)

pub request_page : Pfa → Option (ℕ × Pfa)
request_page s = request_page_loop (request_fuel s) s

-- The inner `for` of `RequestPages`: the first `x` from here on whose frame is in use.
pub find_used : BitMap → ℕ → ℕ → ℕ → Option ℕ
find_used m last zero x = none
find_used m last (suc n) x =
    let later = find_used m last n (x + 1) in if get m (add64 last x) then some x else later

pub request_pages_loop : ℕ → ℕ → Pfa → Option (ℕ × Pfa)
request_pages_loop zero pages s = none
request_pages_loop (suc fuel) pages s =
    let next = request_pages_loop fuel pages (record s { last = add64 s.last 1 }) in
    let found = elim (find_used s.bitmap s.last pages 0) as (λ _. Option (ℕ × Pfa)) [
      | some x ↦ request_pages_loop fuel pages (record s { last = add64 s.last x })
      | none ↦ some (mul64 s.last page_size, lock_pages s (mul64 s.last page_size) pages)
    ] in
    if ltb s.last (page_count s) then (if get s.bitmap s.last then next else found) else some (0, s)

pub request_pages : Pfa → ℕ → Option (ℕ × Pfa)
request_pages s pages = request_pages_loop (request_fuel s) pages s

-- `Memory::CalculateMemorySize`: `map x` is the descriptor at `map + x * descSize`.
pub calculate_memory_size : (ℕ → EfiMemoryDescriptor) → ℕ → ℕ
calculate_memory_size map n_entries =
    for_range n_entries 0 (λ x size. add64 size (mul64 (map x).n_pages page_size)) 0

-- The largest region of usable memory, as its address and its number of pages.
pub largest_region : (ℕ → EfiMemoryDescriptor) → ℕ → ℕ × ℕ
largest_region map entries =
    for_range entries 0
      (λ x best.
        if (map x).type == useable_memory && ltb best.1 (map x).n_pages
        then ((map x).phys_addr, (map x).n_pages)
        else best)
      (0, 0)

pub unreserve_useable : (ℕ → EfiMemoryDescriptor) → ℕ → Pfa → Pfa
unreserve_useable map entries = for_range entries 0 λ x s.
    if (map x).type == useable_memory
    then unreserve_pages s (map x).phys_addr (map x).n_pages
    else s

-- `ReadEfiMemoryMap`. `memory a` gives the bytes that stand from address `a` on; the bitmap is laid
-- over the largest region.
pub read_efi_memory_map :
    Pfa → (ℕ → ℕ → ℕ) → (ℕ → EfiMemoryDescriptor) → (map_size desc_size : ℕ) → Pfa
read_efi_memory_map s memory map map_size desc_size =
    if s.initialized
    then s
    else (let entries = map_size / desc_size in
        let buffer = (largest_region map entries).0 in
        let memory_size = calculate_memory_size map entries in
        let bmp_size = add64 (memory_size / page_size / 8) 1 in
        let s1 =
          init_bitmap (record s { initialized = true; free = memory_size }) bmp_size
            (memory buffer) in
        let s2 = reserve_pages s1 0 (memory_size / page_size) in
        let s3 = unreserve_useable map entries s2 in
        let s4 = reserve_pages s3 0 0x100 in lock_pages s4 buffer (bmp_size / page_size + 1))

pub get_free_ram : Pfa → ℕ
get_free_ram s = s.free

pub get_allocated_ram : Pfa → ℕ
get_allocated_ram s = s.allocated

pub get_reserved_ram : Pfa → ℕ
get_reserved_ram s = s.reserved
