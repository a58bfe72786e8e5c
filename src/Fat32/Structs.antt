-- ===== src/Fat32/Structs.antt =====
-- Kernel/src/Headers/FAT32.h: the structures on the disk, read from the bytes of a buffer, and what
-- the driver keeps.
use waifu_os.Prelude.{ℕ, zero, suc, ◌+◌, ◌*◌, bit_or, Option, List, [], ◌∷◌, ◌<<<◌}

-- The bytes of a buffer.
abbrev pub Bytes : Type 0
Bytes = ℕ → ℕ

-- Little-endian numbers.
abbrev pub u16_at : Bytes → ℕ → ℕ
u16_at b i = b i + b (i + 1) * 0x100

abbrev pub u32_at : Bytes → ℕ → ℕ
u32_at b i = u16_at b i + u16_at b (i + 2) * 0x10000

-- The elements of an array.
abbrev pub elements : (ℕ → ℕ) → ℕ → ℕ → List ℕ
elements f i zero = []
elements f i (suc n) = f i ∷ elements f (i + 1) n

pub data Status : Type 0 where
  ok error not_found bad_path bad_volume read_error : Status

abbrev pub entry_deleted : ℕ
entry_deleted = 0xE5

abbrev pub entry_end : ℕ
entry_end = 0x00

-- `EntryAttribute`
abbrev pub directory_attribute : ℕ
directory_attribute = 0x10

abbrev pub lfn_attribute : ℕ
lfn_attribute = 0x0F

-- `struct EBR` with the part `BPB`, the fields that the driver reads.
pub record Ebr : Type 0 where
  pub sector_size_bytes : ℕ
  pub sectors_per_cluster : ℕ
  pub num_reserved_sectors : ℕ
  pub num_fat : ℕ
  pub sector_count : ℕ
  pub large_sector_count : ℕ
  pub sectors_per_fat32 : ℕ
  pub root_cluster_start : ℕ
  pub fs_info_sector : ℕ
  pub signature : ℕ
  pub boot_signature : ℕ

unfoldable pub read_ebr : Bytes → Ebr
read_ebr b = record {
  sector_size_bytes = u16_at b 11;
  sectors_per_cluster = b 13;
  num_reserved_sectors = u16_at b 14;
  num_fat = b 16;
  sector_count = u16_at b 19;
  large_sector_count = u32_at b 32;
  sectors_per_fat32 = u32_at b 36;
  root_cluster_start = u32_at b 44;
  fs_info_sector = u16_at b 48;
  signature = b 66;
  boot_signature = u16_at b 510;
}

-- `struct FSInfo`, its three signatures.
pub record FsInfo : Type 0 where
  pub lead_signature : ℕ
  pub mid_signature : ℕ
  pub trail_signature : ℕ

unfoldable pub read_fs_info : Bytes → FsInfo
read_fs_info b = record {
  lead_signature = u32_at b 0;
  mid_signature = u32_at b 484;
  trail_signature = u32_at b 508;
}

pub record DirectoryEntry : Type 0 where
  pub short_name : List ℕ
  pub short_ext : List ℕ
  pub entry_attributes : ℕ
  pub creation_timestamp_ts : ℕ
  pub creation_timestamp_hms : ℕ
  pub creation_timestamp_date : ℕ
  pub last_access_date : ℕ
  pub entry_first_cluster_high : ℕ
  pub modification_timestamp_hms : ℕ
  pub modification_timestamp_date : ℕ
  pub entry_first_cluster_low : ℕ
  pub file_size : ℕ

-- `clusterBuffer + x`
unfoldable pub read_entry : Bytes → ℕ → DirectoryEntry
read_entry b x =
    let at = 32 * x in
    record {
      short_name = elements b at 8;
      short_ext = elements b (at + 8) 3;
      entry_attributes = b (at + 11);
      creation_timestamp_ts = b (at + 13);
      creation_timestamp_hms = u16_at b (at + 14);
      creation_timestamp_date = u16_at b (at + 16);
      last_access_date = u16_at b (at + 18);
      entry_first_cluster_high = u16_at b (at + 20);
      modification_timestamp_hms = u16_at b (at + 22);
      modification_timestamp_date = u16_at b (at + 24);
      entry_first_cluster_low = u16_at b (at + 26);
      file_size = u32_at b (at + 28);
    }

-- `struct LFNEntry`: its place in the name, and the thirteen characters in three arrays.
pub record LfnEntry : Type 0 where
  pub entry_order : ℕ
  pub name0 : List ℕ
  pub name1 : List ℕ
  pub name2 : List ℕ

unfoldable pub read_lfn : Bytes → ℕ → LfnEntry
read_lfn b x =
    let at = 32 * x in
    let wide : ℕ → ℕ → ℕ = λ start i. u16_at b (start + 2 * i) in
    record {
      entry_order = b at;
      name0 = elements (wide (at + 1)) 0 5;
      name1 = elements (wide (at + 14)) 0 6;
      name2 = elements (wide (at + 28)) 0 2;
    }

-- `struct EntryInfo`; the count of references is left out, and no name is null.
pub record EntryInfo : Type 0 where
  pub info : DirectoryEntry
  pub drive_id : ℕ
  pub entry_name : Option (List ℕ)

-- `FromDirectoryEntry`
unfoldable pub from_directory_entry : DirectoryEntry → ℕ → Option (List ℕ) → EntryInfo
from_directory_entry base drive_id lfn = record {
  info = base;
  drive_id = drive_id;
  entry_name = lfn;
}

-- The number of the first cluster, from its two halves.
abbrev pub first_cluster : DirectoryEntry → ℕ
first_cluster e = bit_or e.entry_first_cluster_low (e.entry_first_cluster_high <<< 16)
