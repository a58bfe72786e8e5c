-- ===== src/Paging/Tests.antt =====
-- Entries and addresses of the page tables at numbers.
use waifu_os.Prelude.{◌≡◌, refl, true, false, arith}
use waifu_os.Paging.{
  PtFlag, read_write, nx, set_flag, get_flag, set_address, get_address, page_map_indexer,
}
use waifu_os.Paging.Fields.{get_flag-set_flag, set_address_lem}
use waifu_os.Paging.Indices.{IsIndexer, page_number, page_number-page_map_indexer}

entry_value :
    set_flag (set_address 0x8000_0000_0000_0063 0x1234) read_write true ≡ 0x8000_0000_0123_4063
unfolding set_flag set_address
entry_value = refl

address_indices : (page_map_indexer 0x7F_C0_60_50_00).pdpi ≡ 0
unfolding page_map_indexer
address_indices = refl

get_flag-set_flag_example : get_flag (set_flag 0 nx false) nx ≡ true
get_flag-set_flag_example = get_flag-set_flag 0 nx nx false

set_address_lem_example :
    (get_address (set_address 0x63 0x1234) ≡ 0x1234)
    × ((f : PtFlag) → get_flag (set_address 0x63 0x1234) f ≡ get_flag 0x63 f)
set_address_lem_example = set_address_lem 0x63 0x1234 (omega arith)

page_number-page_map_indexer_example :
    IsIndexer (page_map_indexer 0x40_0000_5123)
    × (page_number (page_map_indexer 0x40_0000_5123) ≡ 0x400_0005)
page_number-page_map_indexer_example = page_number-page_map_indexer 0x40_0000_5123
