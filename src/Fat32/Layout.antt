-- ===== src/Fat32/Layout.antt =====
-- Where the clusters of a volume lie.
use waifu_os.Prelude.{ℕ, ◌+◌, ◌*◌, ◌^◌, ◌≤◌, ◌<◌, ◌==◌, if◌then◌else◌}
use waifu_os.Fat32.Structs.{Ebr}

-- `mTotalSectors`
abbrev pub sectors_of : Ebr → ℕ
sectors_of ebr = if ebr.sector_count == 0 then ebr.large_sector_count else ebr.sector_count

-- A boot record whose reserved sectors and tables fit on the volume.
pub record Fits (ebr : Ebr) : Type 0 where
  pub small : sectors_of ebr < 2 ^ 32
  pub reserved : ebr.num_reserved_sectors + ebr.num_fat * ebr.sectors_per_fat32 ≤ sectors_of ebr
