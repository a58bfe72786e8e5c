-- ===== src/PageTableManager/Tests.antt =====
-- Page tables on a machine of sixteen frames: an empty PML4 in frame 1, and fourteen free frames.
use waifu_os.Prelude.{
  ℕ, ◌≡◌, refl, sym, ◌∙◌, true, false, none, some, List, [], ◌∷◌, arith, ◌==◌, if◌then◌else◌,
}
use waifu_os.BitMap.{get}
use waifu_os.BitMap.Count.{used, count_below}
use waifu_os.Paging.{user_super}
use waifu_os.Paging.Mapped.{get_flag_zero}
use waifu_os.PageFrameAllocator.{Pfa}
use waifu_os.PageTableManager.{Tables, map_memory, set_virtual_flag}
use waifu_os.PageTableManager.Walk.{table_at}
use waifu_os.PageTableManager.Tree.{IsTree}
use waifu_os.PageTableManager.Mapping.{MapsTo, map_memory-MapsTo}
use waifu_os.PageTableManager.Flags.{FlagSet, set_virtual_flag-FlagSet}
use waifu_os.PageTableManager.Frames.{HasFrames, page_frames}

abbrev machine : Pfa
machine = record {
  bitmap = record { size_bytes = 2; buffer = λ i. if i == 0 then 0xC0 else 0 };
  initialized = true;
  free = 0xE000;
  allocated = 0x2000;
  reserved = 0;
  last = 0;
}

machine-HasFrames : HasFrames machine 3
unfolding get used count_below
machine-HasFrames = record {
  small = omega arith;
  bytes = λ i. ground arith;
  below = λ i l. absurd (omega arith);
  zero_used = refl;
  room = omega arith;
}

abbrev empty : Tables page_frames
unfolding page_frames
empty = record { pml4 = 0x1000; memory = λ a. 0; frames = machine }

only_root : (p : List ℕ) (a : ℕ) → table_at (λ x. 0) 0x1000 p ≡ some a → (p ≡ []) × (a ≡ 0x1000)
unfolding table_at
only_root [] a e = (refl, ground (arith, e))
only_root (i ∷ p) a e =
    let missing : table_at (λ x. 0) 0x1000 (i ∷ p) ≡ none = rw get_flag_zero refl in
    absurd (ground (arith, sym missing ∙ e))

empty-IsTree : IsTree page_frames empty
unfolding page_frames table_at get
empty-IsTree = record {
  words = λ a. omega arith;
  frame = λ p a good size e. record { page = 1; at = (only_root p a e).1; owned = refl };
  unique = λ p q a gp gq sp sq e f. (only_root p a e).0 ∙ sym (only_root q a f).0;
}

map_memory-MapsTo_example :
    (m' : Tables page_frames) × (map_memory page_frames empty 0x40_0000_5000 0x1234_5678 ≡ some m')
    × MapsTo page_frames empty 0x40_0000_5000 0x1234_5678 m'
unfolding page_frames
map_memory-MapsTo_example =
    map_memory-MapsTo page_frames empty 0x40_0000_5000 0x1234_5678 empty-IsTree machine-HasFrames
      (omega arith)

set_virtual_flag-FlagSet_example :
    (m' : Tables page_frames) × (set_virtual_flag page_frames empty 0x5000 user_super false
      ≡ some m')
    × FlagSet page_frames empty 0x5000 user_super m'
unfolding page_frames
set_virtual_flag-FlagSet_example =
    set_virtual_flag-FlagSet page_frames empty 0x5000 user_super false empty-IsTree
      machine-HasFrames (omega arith)
