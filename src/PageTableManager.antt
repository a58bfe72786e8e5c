-- ===== src/PageTableManager.antt =====
-- Kernel/src/Memory/PageTableManager.cpp: mapping a page in the four levels of page tables. A table
-- is a page of 512 words; the frames for new tables come from a `FrameSource`.
pub mod Walk
pub mod Tree
pub mod NewTable
pub mod Level
pub mod Leaf
pub mod Mapping
pub mod Flags
pub mod Frames
mod Tests
use waifu_os.Prelude.{
  ℕ, zero, suc, ◌+◌, ◌-◌, ◌*◌, ◌/◌, ◌%◌, ◌^◌, ◌≤◌, ◌<◌, bit_and, bit_or, min, max, ◌≡◌, refl, sym,
  ap, ap₂, ◌∙◌, fun_ext, ◌≢◌, ◌↔◌, ◌⊎◌, inl, inr, Bool, true, false, not, ◌&&◌, ◌||◌, Option, none,
  some, List, [], ◌∷◌, ◌++◌, map, arith, ltb, leb, ◌==◌, if◌then◌else◌, ltb→lt, lt→ltb, leb→le,
  ==_iff, tests, Bool-cases, Option-cases, length, get_elem?, get_or, set, take, drop, replicate,
  length-append, length-set, length-replicate, All, u8, u16, u32, u64, add64, sub64, mul64, ◌<<<◌,
  ◌>>>◌, page_size, ◌>>=◌, >>=_assoc,
}
use waifu_os.Paging.{
  PtFlag, present, read_write, set_flag, get_flag, set_address, get_address, PageMapIndexer,
  page_map_indexer,
}

-- What a granted frame is: not null, not in use before, and in use from then on.
pub record Granted {S : Type 0} (request : S → Option (ℕ × S)) (InUse Has : S → ℕ → Type 0) (s : S)
    (n : ℕ) : Type 0 where
  pub page : ℕ
  pub next : S
  pub answer : request s ≡ some (page * page_size, next)
  pub positive : 0 < page
  pub small : page < 2 ^ 40
  pub fresh : InUse s page → ⊥
  pub owned : InUse next page
  pub keeps : (p : ℕ) → InUse s p → InUse next p
  pub has : Has next n

-- `PageFrameAllocator::RequestPage` and what the page tables rely on. `Has s n`: at least `n`
-- further requests are granted.
pub record FrameSource : Type 1 where
  pub State : Type 0
  pub request : State → Option (ℕ × State)
  pub InUse : State → ℕ → Type 0
  pub Has : State → ℕ → Type 0
  pub has_less : (s : State) (n : ℕ) → Has s (suc n) → Has s n
  pub request_lem : (s : State) (n : ℕ) → Has s (suc n) → Granted request InUse Has s n

-- `Entries[index]` of the table at an address, in a memory of 64-bit words at their addresses.
abbrev pub entry : (ℕ → ℕ) → ℕ → ℕ → ℕ
entry memory table index = memory (table + 8 * index)

abbrev pub set_entry : (ℕ → ℕ) → ℕ → ℕ → ℕ → ℕ → ℕ
set_entry memory table index value a = if a == (table + 8 * index) then value else memory a

-- `memset64(page, 0x00, PAGE_SIZE)`
abbrev pub clear_page : (ℕ → ℕ) → ℕ → ℕ → ℕ
clear_page memory page a = if leb page a && ltb a (page + page_size) then 0 else memory a

module _ (source : FrameSource) where
  -- `PML4`, the memory and the state of the page frame allocator.
  pub record Tables : Type 0 where
    pub pml4 : ℕ
    pub memory : ℕ → ℕ
    pub frames : source.State

  -- `SetFlag(Present, true)` and `SetFlag(ReadWrite, true)`
  abbrev pub writable : ℕ → ℕ
  writable pde = set_flag (set_flag pde present true) read_write true

  -- The branch of a block of `MapMemory` in which the table is missing.
  unfoldable pub add_table : Tables → ℕ → ℕ → Option (ℕ × Tables)
  add_table m table index = do
    granted ← source.request m.frames
    some (
      granted.0,
      record m {
        frames = granted.1;
        memory =
            set_entry (clear_page m.memory granted.0) table index
              (writable (set_address (entry m.memory table index) (granted.0 >>> 12)));
      },
    )

  -- One block of `MapMemory` and of `SetVirtualFlag`: the table that an entry names, made if the
  -- entry is not present.
  unfoldable pub next_table : Tables → ℕ → ℕ → Option (ℕ × Tables)
  next_table m table index =
      if not (get_flag (entry m.memory table index) present)
      then add_table m table index
      else some (u64 (get_address (entry m.memory table index) <<< 12), m)

  -- The three blocks: the last table on the way to an address.
  unfoldable pub page_table : Tables → PageMapIndexer → Option (ℕ × Tables)
  page_table m indexer = do
    pdp ← next_table m m.pml4 indexer.pdpi
    pd ← next_table pdp.1 pdp.0 indexer.pdi
    next_table pd.1 pd.0 indexer.pti

  -- `MapMemory`
  unfoldable pub map_memory : Tables → ℕ → ℕ → Option Tables
  map_memory m virtual_memory phys_memory = do
    let indexer = page_map_indexer virtual_memory
    pt ← page_table m indexer
    let temp_pde = entry pt.1.memory pt.0 indexer.pi
    some (record pt.1 {
      memory =
          set_entry pt.1.memory pt.0 indexer.pi
            (writable (set_address temp_pde (phys_memory >>> 12)));
    })

  -- `SetVirtualFlag`
  unfoldable pub set_virtual_flag : Tables → ℕ → PtFlag → Bool → Option Tables
  set_virtual_flag m address flag value = do
    let indexer = page_map_indexer address
    pt ← page_table m indexer
    let temp_pde = entry pt.1.memory pt.0 indexer.pi
    some (record pt.1 {
      memory = set_entry pt.1.memory pt.0 indexer.pi (set_flag temp_pde flag value);
    })
