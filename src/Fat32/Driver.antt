-- ===== src/Fat32/Driver.antt =====
-- Kernel/src/IO/FileSystem/FAT32.cpp: `FSDriver` over a port that reads sectors.
use waifu_os.Prelude.{
  ℕ, zero, suc, ◌+◌, ◌-◌, ◌*◌, ◌/◌, ◌^◌, bit_and, Bool, false, not, ◌&&◌, ◌||◌, Option, none, some,
  List, [], ◌∷◌, ◌++◌, ltb, ◌==◌, if◌then◌else◌, length, get_or, u32, ◌>>=◌,
}
use waifu_os.Cstr.{CString, Buffer, extend_char, strcmp}
use waifu_os.Fat32.Structs.{
  Bytes, Status, ok, error, not_found, bad_volume, read_error, entry_deleted, entry_end,
  directory_attribute, lfn_attribute, Ebr, read_ebr, FsInfo, read_fs_info, read_entry, LfnEntry,
  read_lfn, EntryInfo, from_directory_entry, first_cluster,
}
use waifu_os.Fat32.Names.{text_of, get_entry_name_lfn, short_name_of, lower_copy}

-- `AHCI::ATAPort`: `Read` of sectors and `ReadBytes`, each with the state of the device; the bytes are
-- what the call puts into the buffer, and none is a failure.
pub record AtaPort (Device : Type 0) : Type 0 where
  pub read : Device → ℕ → ℕ → Device × Option Bytes
  pub read_bytes : Device → ℕ → ℕ → Device × Option Bytes

-- `class FSDriver`
pub record FsDriver : Type 0 where
  pub drive_id : ℕ
  pub total_sectors : ℕ
  pub fat_size_sectors : ℕ
  pub first_data_sector : ℕ
  pub first_fat_sector : ℕ
  pub first_root_dir_sector : ℕ
  pub total_data_sectors : ℕ
  pub total_clusters : ℕ
  pub boot_record : Ebr

abbrev pub sub32 : ℕ → ℕ → ℕ
sub32 a b = u32 (a + 2 ^ 32 - b)

-- `GetFirstSectorOfCluster`
unfoldable pub get_first_sector_of_cluster : FsDriver → ℕ → ℕ
get_first_sector_of_cluster d cluster =
    u32 (u32 (sub32 cluster 2 * d.boot_record.sectors_per_cluster) + d.first_data_sector)

-- The test of a boot record in `DoesDriveContainF32` and in the constructor.
unfoldable pub is_boot_record : Ebr → Bool
is_boot_record ebr = not (
    not (ebr.boot_signature == 0xAA55)
    || (not (ebr.signature == 0x28) && not (ebr.signature == 0x29))
    || (ebr.sectors_per_fat32 == 0))

-- The test of the information sector.
unfoldable pub is_fs_info : FsInfo → Bool
is_fs_info info = not (
    not (info.lead_signature == 0x41615252)
    || not (info.mid_signature == 0x61417272)
    || not (info.trail_signature == 0xAA550000))

-- How the constructor ends; dividing by no sectors per cluster is a fault of the processor.
pub data Mounted : Type 0 where
  mounted : FsDriver → Mounted
  refused divide_error : Mounted

-- The fields that the constructor computes.
unfoldable pub layout_of : Ebr → ℕ → FsDriver
layout_of ebr drive_id =
    let total = if ebr.sector_count == 0 then ebr.large_sector_count else ebr.sector_count in
    let reserved = u32 (ebr.num_reserved_sectors + u32 (ebr.num_fat * ebr.sectors_per_fat32)) in
    let data_sectors = sub32 total reserved in
    let d : FsDriver = record {
      drive_id = drive_id;
      total_sectors = total;
      fat_size_sectors = ebr.sectors_per_fat32;
      first_data_sector = reserved;
      first_fat_sector = ebr.num_reserved_sectors;
      first_root_dir_sector = 0;
      total_data_sectors = data_sectors;
      total_clusters = data_sectors / ebr.sectors_per_cluster;
      boot_record = ebr;
    } in
    record d { first_root_dir_sector = get_first_sector_of_cluster d ebr.root_cluster_start }

-- The checks of the constructor behind the two reads.
unfoldable pub check_layout : Ebr → ℕ → Mounted
check_layout ebr drive_id =
    let d = layout_of ebr drive_id in
    if ebr.sectors_per_cluster == 0
    then divide_error
    else if ebr.sector_size_bytes == 0
    then refused
    else if ltb d.total_clusters 4085
    then refused
    else if ltb d.total_clusters 65525
    then refused
    else mounted d

module _ {Device : Type 0} (port : AtaPort Device) where
  open port use {read, read_bytes}

  -- `DoesDriveContainF32`
  unfoldable pub does_drive_contain_f32 : Device → Device × Bool
  does_drive_contain_f32 device =
      let (device', boot) = read device 0 1 in
      elim boot [
        | none ↦ (device', false)
        | some b ↦
            let ebr = read_ebr b in
            let (device'', sector) = read device' ebr.fs_info_sector 1 in
            let tested : Device × Bool = elim sector [
              | none ↦ (device'', false)
              | some i ↦ (device'', is_fs_info (read_fs_info i))
            ] in
            if is_boot_record ebr then tested else (device', false)
      ]

  -- The constructor of `FSDriver`, which takes the next number for the drive.
  unfoldable pub new_driver : Device → ℕ → Device × Mounted
  new_driver device next_drive_id =
      let (device', boot) = read device 0 1 in
      elim boot [
        | none ↦ (device', refused)
        | some b ↦
            let ebr = read_ebr b in
            let (device'', sector) = read device' ebr.fs_info_sector 1 in
            let checked : Device × Mounted = elim sector [
              | none ↦ (device'', refused)
              | some i ↦ (
                device'',
                if is_fs_info (read_fs_info i) then check_layout ebr next_drive_id else refused,
              )
            ] in
            if is_boot_record ebr then checked else (device', refused)
      ]

  -- A read that is tried once more when it fails.
  unfoldable pub retry : (Device → Device × Option Bytes) → Device → Device × Option Bytes
  retry action device =
      let (device', result) = action device in
      elim result [ some b ↦ (device', some b) | none ↦ action device' ]

  -- `ReadCluster`
  unfoldable pub read_cluster : FsDriver → ℕ → Device → Device × Option Bytes
  read_cluster d cluster = retry (λ device.
      read device (get_first_sector_of_cluster d cluster) d.boot_record.sectors_per_cluster)

  -- `ReadFile` of a driver
  unfoldable pub read_file : FsDriver → EntryInfo → ℕ → Device → Device × Option Bytes
  read_file d info num_bytes =
      let sector = get_first_sector_of_cluster d (first_cluster info.info) in
      let count = if ltb info.info.file_size num_bytes then info.info.file_size else num_bytes in
      retry (λ device. read_bytes device sector count)

-- What the loop over the entries of a cluster comes to: an entry, the end of the directory, the end
-- of the cluster with the parts of a long name that are waiting, or a name that does not end.
pub data Scan : Type 0 where
  found : EntryInfo → Scan
  no_more : Scan
  next_cluster : List LfnEntry → Scan
  fault : Scan

-- `wstrcmp(name, text)`, where the text could be read.
abbrev pub same_text : CString → Option CString → Option Bool
same_text name none = none
same_text name (some text) = some (strcmp name text)

-- The long name of an entry, as it is kept and in small letters; `fresh` is what `new` returns.
unfoldable pub long_name_of : Buffer → List LfnEntry → Option (List ℕ × CString)
long_name_of fresh names =
    text_of (get_entry_name_lfn fresh names) (length names * 13 + 1) 0 >>= λ name.
    lower_copy fresh name >>= λ lower. some (name, lower)

-- The loop over the entries in `FindEntry`. The first byte is a `char`, which the `switch` extends to
-- an `int`, so that 0xE5 becomes a negative number.
unfoldable pub scan_entries : Buffer → ℕ → CString → Bytes → (rounds x : ℕ) → List LfnEntry → Scan
scan_entries fresh drive_id name buffer zero x names = next_cluster names
scan_entries fresh drive_id name buffer (suc rounds) x names =
    let next : List LfnEntry → Scan = scan_entries fresh drive_id name buffer rounds (x + 1) in
    let entry = read_entry buffer x in
    let first = extend_char 32 (get_or entry.short_name 0 0) in
    let long : Scan = elim (long_name_of fresh names) [
      | none ↦ fault
      | some (kept, lower) ↦
          if strcmp name lower
          then found (from_directory_entry entry drive_id (some kept))
          else next []
    ] in
    let short : Scan = elim (same_text name (short_name_of fresh entry)) [
      | none ↦ fault
      | some same ↦ if same then found (from_directory_entry entry drive_id none) else next names
    ] in
    if first == entry_end
    then no_more
    else if first == entry_deleted
    then next names
    else if entry.entry_attributes == lfn_attribute
    then next (names ++ read_lfn buffer x ∷ [])
    else if ltb 0 (length names)
    then long
    else short

-- `clusterSize / sizeof(DirectoryEntry)`
abbrev pub entries_per_cluster : FsDriver → ℕ
entries_per_cluster d = d.boot_record.sectors_per_cluster * 0x200 / 32

-- What `FindEntry` comes to: its status, and the entry where one is written to `out`. None: it has not
-- returned yet, or a name did not end.
abbrev pub Search : Type 0 → Type 0
Search Device = Option (Device × Status × Option EntryInfo)

-- The end of a round of `FindEntry`.
abbrev pub after_scan :
    {Device : Type 0} → (List LfnEntry → Search Device) → Device → Scan → Search Device
after_scan again device (found info) = some (device, ok, some info)
after_scan again device no_more = some (device, not_found, none)
after_scan again device (next_cluster waiting) = again waiting
after_scan again device fault = none

module _ {Device : Type 0} (port : AtaPort Device) (fresh : Buffer) where
  -- The rest of a round, once the cluster is read.
  abbrev pub after_read :
      (List LfnEntry → Device → Search Device)
      → FsDriver
      → CString
      → List LfnEntry
      → Device × Option Bytes
      → Search Device
  after_read again d name names (device, none) = some (device, read_error, none)
  after_read again d name names (device, some buffer) =
      after_scan (λ waiting. again waiting device) device
        (scan_entries fresh d.drive_id name buffer (entries_per_cluster d) 0 names)

  -- The loop of `FindEntry` on a number of rounds; it reads the same cluster in each.
  unfoldable pub find_loop :
      (rounds : ℕ) → FsDriver → CString → ℕ → List LfnEntry → Device → Search Device
  find_loop zero d name start_cluster names device = none
  find_loop (suc rounds) d name start_cluster names device =
      after_read (find_loop rounds d name start_cluster) d name names
        (read_cluster port d start_cluster device)

  -- `FindEntry` with a directory to look in, as its one caller has it; `out` is the entry, where one
  -- is written.
  unfoldable pub find_entry : (rounds : ℕ) → FsDriver → CString → EntryInfo → Device → Search Device
  find_entry rounds d name root device =
      if not (root.drive_id == d.drive_id)
      then some (device, bad_volume, none)
      else if bit_and root.info.entry_attributes directory_attribute == 0
      then some (device, error, none)
      else find_loop rounds d name (first_cluster root.info) [] device
