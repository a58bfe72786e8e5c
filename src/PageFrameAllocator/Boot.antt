-- ===== src/PageFrameAllocator/Boot.antt =====
-- `ReadEfiMemoryMap`: the state that the kernel starts with.
use waifu_os.Prelude.{ℕ, ◌/◌, ◌^◌, ◌<◌, false, map, arith}
use waifu_os.Prelude.Loops.{for_range_inv}
use waifu_os.PageFrameAllocator.{Pfa, EfiMemoryDescriptor, largest_region, calculate_memory_size}

-- The globals before the first call.
abbrev pub start : Pfa
start = record {
  bitmap = record { size_bytes = 0; buffer = λ _. 0 };
  initialized = false;
  free = 0;
  allocated = 0;
  reserved = 0;
  last = 0;
}

calculate_memory_size-lt :
    (map : ℕ → EfiMemoryDescriptor) (n : ℕ) → calculate_memory_size map n < 2 ^ 64
unfolding calculate_memory_size
calculate_memory_size-lt map n =
    for_range_inv (λ size. size < 2 ^ 64) _ (λ i t h. omega arith) n 0 0 (omega arith)

-- The number of descriptors, the memory that they cover, and what stands where the bitmap is laid.
abbrev pub entries : ℕ → ℕ → ℕ
entries map_size desc_size = map_size / desc_size

module _ (memory : ℕ → ℕ → ℕ) (map : ℕ → EfiMemoryDescriptor) (map_size desc_size : ℕ) where
  abbrev pub memory_size : ℕ
  memory_size = calculate_memory_size map (entries map_size desc_size)

  abbrev pub under_bitmap : ℕ → ℕ
  under_bitmap = memory (largest_region map (entries map_size desc_size)).0
