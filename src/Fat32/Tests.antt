-- ===== src/Fat32/Tests.antt =====
-- A directory with a deleted entry and a file that has a long name, and a volume.
use waifu_os.Prelude.{ℕ, zero, suc, ◌+◌, ◌<◌, ◌≡◌, refl, none, some, List, [], ◌∷◌, arith, get_or}
use waifu_os.Cstr.{
  CString, Buffer, to_lower, index_of, index_of_loop, cstr_to_wstr, cstr_to_wstr_loop, strcmp,
  strcmp_length,
}
use waifu_os.Fat32.Names.{short_name_of, get_entry_name, until_zero, until_space, text_of}
use waifu_os.Fat32.Structs.{Bytes, Ebr, ok, read_entry, read_lfn, EntryInfo, from_directory_entry}
use waifu_os.Fat32.Driver.{AtaPort, FsDriver, read_cluster, retry, find_entry}
use waifu_os.Fat32.Paths.{no_entry}
use waifu_os.Fat32.LongNames.{IsText}
use waifu_os.Fat32.Finding.{
  Passed, at_start, other_short, IsLive, IsStored, find-stored, find-stuck,
}

abbrev sectors : List ℕ
sectors =
    229 ∷ 32 ∷ 32 ∷ 32 ∷ 32 ∷ 32 ∷ 32 ∷ 32 ∷ 32 ∷ 32 ∷ 32 ∷ 0 ∷ 0 ∷ 0 ∷ 0 ∷ 0 ∷ 0 ∷ 0 ∷ 0 ∷ 0 ∷ 0
    ∷ 0 ∷ 0 ∷ 0 ∷ 0 ∷ 0 ∷ 0 ∷ 0 ∷ 0 ∷ 0 ∷ 0 ∷ 0 ∷ 65 ∷ 65 ∷ 0 ∷ 98 ∷ 0 ∷ 0 ∷ 0 ∷ 255 ∷ 255 ∷ 255
    ∷ 255 ∷ 15 ∷ 0 ∷ 0 ∷ 255 ∷ 255 ∷ 255 ∷ 255 ∷ 255 ∷ 255 ∷ 255 ∷ 255 ∷ 255 ∷ 255 ∷ 255 ∷ 255 ∷ 0
    ∷ 0 ∷ 255 ∷ 255 ∷ 255 ∷ 255 ∷ 65 ∷ 66 ∷ 32 ∷ 32 ∷ 32 ∷ 32 ∷ 32 ∷ 32 ∷ 84 ∷ 88 ∷ 84 ∷ 32 ∷ 0 ∷ 0
    ∷ 0 ∷ 0 ∷ 0 ∷ 0 ∷ 0 ∷ 0 ∷ 0 ∷ 0 ∷ 0 ∷ 0 ∷ 0 ∷ 0 ∷ 0 ∷ 0 ∷ 0 ∷ 0 ∷ 0 ∷ 0 ∷ []

abbrev directory : Bytes
directory i = get_or sectors i 0

abbrev full_directory : Bytes
full_directory i = 0xE5

-- A device that has one cluster.
abbrev port_of : Bytes → AtaPort ℕ
port_of b = record {
  read = λ device sector count. (device, some b);
  read_bytes = λ device sector count. (device, some b);
}

abbrev boot : Ebr
boot = record {
  sector_size_bytes = 0x200;
  sectors_per_cluster = 1;
  num_reserved_sectors = 32;
  num_fat = 2;
  sector_count = 0;
  large_sector_count = 100000;
  sectors_per_fat32 = 800;
  root_cluster_start = 2;
  fs_info_sector = 1;
  signature = 0x29;
  boot_signature = 0xAA55;
}

abbrev drive : FsDriver
drive = record {
  drive_id = 0;
  total_sectors = 100000;
  fat_size_sectors = 800;
  first_data_sector = 1632;
  first_fat_sector = 32;
  first_root_dir_sector = 1632;
  total_data_sectors = 98368;
  total_clusters = 98368;
  boot_record = boot;
}

abbrev root : EntryInfo
root = record {
  info = record no_entry { entry_first_cluster_low = 2; entry_attributes = 0x10 };
  drive_id = 0;
  entry_name = none;
}

abbrev long_name : CString
long_name = b'A' ∷ b'b' ∷ []

abbrev fresh : Buffer
fresh i = 0

long_name-IsText : IsText long_name
long_name-IsText zero h = refl
long_name-IsText (suc zero) h = refl
long_name-IsText (suc (suc j)) h = absurd (omega arith)

abbrev below_one : (P : ℕ → Type 0) → P 0 → (i : ℕ) → i < 1 → P i
below_one P at_zero zero h = at_zero
below_one P at_zero (suc i) h = absurd (omega arith)

long_name-IsStored : IsStored directory 1 long_name 1
unfolding read_entry read_lfn
long_name-IsStored = record {
  text = long_name-IsText;
  fits = omega arith;
  some_parts = omega arith;
  few = omega arith;
  parts = below_one (λ i. IsLive directory (1 + i)) refl;
  long = below_one (λ i. _) refl;
  entries = below_one (λ i. _) refl;
  live = refl;
  plain = refl;
}

-- The deleted entry is compared, by a name that begins with 0xE5 as a `wchar`.
directory-Passed : Passed fresh (to_lower long_name) directory 1 []
unfolding read_entry short_name_of get_entry_name until_zero until_space index_of index_of_loop
    to_lower cstr_to_wstr cstr_to_wstr_loop text_of strcmp strcmp_length
directory-Passed = other_short {text = 0xFFE5 ∷ []} at_start refl refl refl refl

find-stored_example :
    find_entry (port_of directory) fresh 1 drive (to_lower long_name) root 5
    ≡ some (5, ok, some (from_directory_entry (read_entry directory 2) 0 (some long_name)))
unfolding read_entry read_cluster retry
find-stored_example =
    find-stored (port_of directory) fresh 0 drive long_name 1 1 root 5 5 directory refl refl refl
      directory-Passed long_name-IsStored (omega arith) refl

-- The name of an entry of bytes 0xE5.
abbrev deleted_text : CString
deleted_text =
    0xFFE5 ∷ 0xFFE5 ∷ 0xFFE5 ∷ 0xFFE5 ∷ 0xFFE5 ∷ 0xFFE5 ∷ 0xFFE5 ∷ 0xFFE5 ∷ 0x2E ∷ 0xFFE5 ∷ 0xFFE5
    ∷ 0xFFE5 ∷ []

full-Passed : (k : ℕ) → Passed fresh long_name full_directory k []
unfolding read_entry short_name_of get_entry_name until_zero until_space index_of index_of_loop
    to_lower cstr_to_wstr cstr_to_wstr_loop text_of strcmp strcmp_length
full-Passed zero = at_start
full-Passed (suc k) = other_short {text = deleted_text} (full-Passed k) refl refl refl refl

find-stuck_example : find_entry (port_of full_directory) fresh 1000 drive long_name root 5 ≡ none
unfolding read_cluster retry
find-stuck_example =
    find-stuck (port_of full_directory) fresh 1000 drive long_name root 5 full_directory refl refl
      (λ state. (state, refl)) (full-Passed 16)
