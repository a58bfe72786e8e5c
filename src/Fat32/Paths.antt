-- ===== src/Fat32/Paths.antt =====
-- Kernel/src/IO/FileSystem/FAT32.cpp: paths, and the drives that they name.
use waifu_os.Prelude.{
  ℕ, zero, suc, ◌+◌, ◌-◌, Bool, true, ◌||◌, Option, none, some, List, [], ◌∷◌, ltb, ◌==◌,
  if◌then◌else◌, length, get_or, drop, u8, u16, ◌>>>◌, ◌>>=◌,
}
use waifu_os.Cstr.{CString, Buffer, substring, wstr_index_of, to_lower}
use waifu_os.Cstr.Numbers.{to_int}
use waifu_os.Fat32.Structs.{
  Bytes, Status, ok, error, not_found, bad_path, bad_volume, read_error, directory_attribute,
  DirectoryEntry, EntryInfo,
}
use waifu_os.Fat32.Names.{text_of, until_zero}
use waifu_os.Fat32.Driver.{AtaPort, FsDriver, find_entry, read_file}

abbrev pub is_slash : ℕ → Bool
is_slash c = (c == b'/') || (c == 0x5C)

abbrev pub char_of : CString → ℕ → ℕ
char_of str i = get_or str i 0

-- The start of `GetEntryInfo`: one slash goes in front and one behind. None is a bad path.
unfoldable pub strip_front : CString → CString
strip_front path = if is_slash (char_of path 0) then drop 1 path else path

unfoldable pub clean_path : Buffer → CString → Option CString
clean_path fresh path =
    let rest = strip_front path in
    let wlen = length rest in
    let kept = if is_slash (char_of rest (wlen - 1)) then wlen - 1 else wlen in
    if (wlen == 0) || (kept == 0)
    then none
    else substring fresh rest 0 kept >>= λ copy.
        text_of copy (kept + 1) 0 >>= λ cleaned. some (to_lower cleaned)

-- `currentEntry` for the root directory.
abbrev pub no_entry : DirectoryEntry
no_entry = record {
  short_name = [];
  short_ext = [];
  entry_attributes = 0;
  creation_timestamp_ts = 0;
  creation_timestamp_hms = 0;
  creation_timestamp_date = 0;
  last_access_date = 0;
  entry_first_cluster_high = 0;
  modification_timestamp_hms = 0;
  modification_timestamp_date = 0;
  entry_first_cluster_low = 0;
  file_size = 0;
}

unfoldable pub root_entry : FsDriver → EntryInfo
root_entry d = record {
  info = record no_entry {
    entry_first_cluster_low = u16 d.boot_record.root_cluster_start;
    entry_first_cluster_high = u16 (d.boot_record.root_cluster_start >>> 16);
    entry_attributes = directory_attribute;
  };
  drive_id = d.drive_id;
  entry_name = none;
}

-- The place of the next slash, `/` before `\`.
unfoldable pub index_of_slash : CString → Option ℕ
index_of_slash path = elim (wstr_index_of path b'/') [
  | some i ↦ some i
  | none ↦ wstr_index_of path 0x5C
]

-- What `FindEntry` leaves in `currentEntry`.
abbrev pub entry_or : EntryInfo → Option EntryInfo → EntryInfo
entry_or current none = current
entry_or current (some info) = info

module _ {Device : Type 0} (port : AtaPort Device) (fresh : Buffer) where
  -- The loop of `GetEntryInfo`, with what it writes to `info`, on one round for each part of the path; each search has the given
  -- number of rounds. None: a search that does not return, or an empty part, whose name is null.
  unfoldable pub walk_path :
      (parts rounds : ℕ)
      → FsDriver
      → CString
      → EntryInfo
      → Device
      → Option (Device × Status × Option EntryInfo)
  walk_path zero rounds d path current device = none
  walk_path (suc parts) rounds d path current device =
      let go : CString → EntryInfo → Device → Option (Device × Status × Option EntryInfo) =
        walk_path parts rounds d in
      elim (index_of_slash path) [
        | none ↦ find_entry port fresh rounds d path current device >>= λ r.
            some (r.0, r.1, some (entry_or current r.2))
        | some index ↦ substring fresh path 0 index >>= λ copy.
            text_of copy (index + 1) 0 >>= λ ffname.
            find_entry port fresh rounds d ffname current device >>= λ r. elim r.1 [
              | ok ↦ go (drop (index + 1) path) (entry_or current r.2) r.0
              | error ↦ some (r.0, error, none)
              | not_found ↦ some (r.0, not_found, none)
              | bad_path ↦ some (r.0, bad_path, none)
              | bad_volume ↦ some (r.0, bad_volume, none)
              | read_error ↦ some (r.0, read_error, none)
            ]
      ]

  -- `FSDriver::GetEntryInfo`
  unfoldable pub driver_entry_info :
      ℕ → FsDriver → CString → Device → Option (Device × Status × Option EntryInfo)
  driver_entry_info rounds d path device = elim (clean_path fresh path) [
    | none ↦ some (device, bad_path, none)
    | some cleaned ↦ walk_path (length cleaned + 1) rounds d cleaned (root_entry d) device
  ]

-- The loop over `Drives`.
unfoldable pub find_drive : List FsDriver → ℕ → Option FsDriver
find_drive [] id = none
find_drive (drive ∷ drives) id = if drive.drive_id == id then some drive else find_drive drives id

module _ {Device : Type 0} (port : AtaPort Device) (fresh : Buffer) (drives : List FsDriver) where
  -- `GetEntryInfo` of the namespace: a digit, a colon, and the path on the drive.
  unfoldable pub get_entry_info : ℕ → CString → Device → Option (Device × Status × Option EntryInfo)
  get_entry_info rounds path device =
      let drive_num = u8 (to_int (until_zero (u8 (char_of path 0) ∷ [])) true) in
      let searched : Option (Device × Status × Option EntryInfo) =
        elim (find_drive drives drive_num) [
          | none ↦ some (device, bad_volume, none)
          | some drive ↦ driver_entry_info port fresh rounds drive (drop 2 path) device
        ] in
      if ltb (length path) 2 then some (device, bad_path, none) else searched

  -- `ReadFile` of an entry.
  unfoldable pub read_entry_file : EntryInfo → ℕ → Device → Device × Status × Option Bytes
  read_entry_file info num_bytes device = elim (find_drive drives info.drive_id) [
    | none ↦ (device, bad_volume, none)
    | some drive ↦
        let (device', result) = read_file port drive info num_bytes device in
        elim result [ none ↦ (device', read_error, none) | some bytes ↦ (device', ok, some bytes) ]
  ]

  -- `ReadFile` of a path.
  unfoldable pub read_path_file : ℕ → CString → ℕ → Device → Option (Device × Status × Option Bytes)
  read_path_file rounds path num_bytes device = get_entry_info rounds path device >>= λ r.
      elim r.1 [
        | ok ↦ some (
            read_entry_file
              (entry_or (record { info = no_entry; drive_id = 0; entry_name = none }) r.2) num_bytes
              r.0)
        | error ↦ some (r.0, error, none)
        | not_found ↦ some (r.0, not_found, none)
        | bad_path ↦ some (r.0, bad_path, none)
        | bad_volume ↦ some (r.0, bad_volume, none)
        | read_error ↦ some (r.0, read_error, none)
      ]
