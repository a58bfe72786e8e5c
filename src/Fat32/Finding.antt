-- ===== src/Fat32/Finding.antt =====
-- What `FindEntry` finds in a directory.
use waifu_os.Prelude.{
  ℕ, zero, suc, ◌+◌, ◌-◌, ◌*◌, ◌≤◌, ◌<◌, bit_and, ◌≡◌, refl, sym, ap, ◌∙◌, Bool, true, false, none,
  some, List, [], ◌∷◌, ◌++◌, arith, ltb, ◌==◌, if◌then◌else◌, lt→ltb, length, get_or,
}
use mathlib.Core.Path.{subst}
use mathlib.Core.List.{append_assoc, append-nil}
use waifu_os.Cstr.{CString, Buffer, extend_char, strcmp, to_lower}
use waifu_os.Cstr.Compare.{strcmp_iff}
use waifu_os.Fat32.Structs.{
  Bytes, ok, not_found, entry_deleted, entry_end, directory_attribute, lfn_attribute, read_entry,
  LfnEntry, read_lfn, EntryInfo, from_directory_entry, first_cluster,
}
use waifu_os.Fat32.Names.{short_name_of}
use waifu_os.Fat32.LongNames.{lfn_of, pieces, IsText, length-pieces, long_name_lem, lower_copy_lem}
use waifu_os.Fat32.Driver.{
  AtaPort, FsDriver, read_cluster, Scan, found, no_more, next_cluster, long_name_of, scan_entries,
  entries_per_cluster, after_scan, find_loop, find_entry,
}

-- The first byte of an entry, as an `int`.
abbrev pub first_char : Bytes → ℕ → ℕ
first_char b x = extend_char 32 (get_or (read_entry b x).short_name 0 0)

-- An entry that is not the end of the directory. It can be a deleted one: the test for these never
-- holds.
abbrev pub IsLive : Bytes → ℕ → Type 0
IsLive b x = (first_char b x == entry_end) ≡ false

extend_char-deleted : (c : ℕ) → (extend_char 32 c == entry_deleted) ≡ false
extend_char-deleted c = ground arith

never_deleted : (b : Bytes) (x : ℕ) → (first_char b x == entry_deleted) ≡ false
never_deleted b x = extend_char-deleted (get_or (read_entry b x).short_name 0 0)

abbrev pub is_part : Bytes → ℕ → Bool
is_part b x = (read_entry b x).entry_attributes == lfn_attribute

-- The entries before x are other ones than that of the name, and the parts of a long name that wait
-- at x are the given ones.
pub data Passed (fresh : Buffer) (name : CString) (b : Bytes) : ℕ → List LfnEntry → Type 0 where
  at_start : Passed fresh name b 0 []
  part :
      {x : ℕ} {names : List LfnEntry}
      → Passed fresh name b x names
      → IsLive b x
      → is_part b x ≡ true
      → Passed fresh name b (suc x) (names ++ read_lfn b x ∷ [])
  other_long :
      {x : ℕ} {names : List LfnEntry} {kept : List ℕ} {lower : CString}
      → Passed fresh name b x names
      → IsLive b x
      → is_part b x ≡ false
      → ltb 0 (length names) ≡ true
      → long_name_of fresh names ≡ some (kept, lower)
      → strcmp name lower ≡ false
      → Passed fresh name b (suc x) []
  other_short :
      {x : ℕ} {text : CString}
      → Passed fresh name b x []
      → IsLive b x
      → is_part b x ≡ false
      → short_name_of fresh (read_entry b x) ≡ some text
      → strcmp name text ≡ false
      → Passed fresh name b (suc x) []

module _ (fresh : Buffer) (drive_id : ℕ) (name : CString) (b : Bytes) where
  abbrev scan : ℕ → ℕ → List LfnEntry → Scan
  scan = scan_entries fresh drive_id name b

  -- One entry that is passed.
  scan-part :
      (rounds x : ℕ) (names : List LfnEntry)
      → IsLive b x
      → is_part b x ≡ true
      → scan (suc rounds) x names ≡ scan rounds (x + 1) (names ++ read_lfn b x ∷ [])
  unfolding scan_entries
  scan-part rounds x names live long = rw (live, never_deleted b x, long) refl

  scan-long :
      (rounds x : ℕ) (names : List LfnEntry) (kept : List ℕ) (lower : CString)
      → IsLive b x
      → is_part b x ≡ false
      → ltb 0 (length names) ≡ true
      → long_name_of fresh names ≡ some (kept, lower)
      → scan (suc rounds) x names ≡ (
          if strcmp name lower
          then found (from_directory_entry (read_entry b x) drive_id (some kept))
          else scan rounds (x + 1) [])
  unfolding scan_entries
  scan-long rounds x names kept lower live plain some_parts named =
      rw (live, never_deleted b x, plain, some_parts, named) refl

  scan-short :
      (rounds x : ℕ) (text : CString)
      → IsLive b x
      → is_part b x ≡ false
      → short_name_of fresh (read_entry b x) ≡ some text
      → strcmp name text ≡ false
      → scan (suc rounds) x [] ≡ scan rounds (x + 1) []
  unfolding scan_entries
  scan-short rounds x text live plain named other =
      rw (live, never_deleted b x, plain, named, other) refl

  carry :
      (rounds x : ℕ) (before names : List LfnEntry)
      → scan (x + suc rounds) 0 [] ≡ scan (suc rounds) x before
      → scan (suc rounds) x before ≡ scan rounds (x + 1) names
      → scan (suc x + rounds) 0 [] ≡ scan rounds (suc x) names
  carry rounds x before names come next =
      ap (λ (r : ℕ). scan r 0 []) (omega arith)
      ∙ come
      ∙ next
      ∙ ap (λ (y : ℕ). scan rounds y names) (omega arith)

  -- Where the search has come to an entry, it goes on from there.
  scan-Passed :
      (rounds : ℕ) {x : ℕ} {names : List LfnEntry}
      → Passed fresh name b x names
      → scan (x + rounds) 0 [] ≡ scan rounds x names
  scan-Passed rounds at_start = ap (λ (r : ℕ). scan r 0 []) (omega arith)
  scan-Passed rounds (part {x} {names} passed live long) =
      carry rounds x names (names ++ read_lfn b x ∷ []) (scan-Passed (suc rounds) passed)
        (scan-part rounds x names live long)
  scan-Passed rounds
        (other_long {x} {names} {kept} {lower} passed live plain some_parts named other) =
      carry rounds x names [] (scan-Passed (suc rounds) passed)
        (scan-long rounds x names kept lower live plain some_parts named ∙ rw other refl)
  scan-Passed rounds (other_short {x} {text} passed live plain named other) =
      carry rounds x [] [] (scan-Passed (suc rounds) passed)
        (scan-short rounds x text live plain named other)

-- The entries of a file with a long name: its parts from x on, and the entry itself behind them.
pub record IsStored (b : Bytes) (x : ℕ) (str : CString) (n : ℕ) : Type 0 where
  pub text : IsText str
  pub fits : length str ≤ 13 * n
  pub some_parts : 0 < n
  pub few : n ≤ 62
  pub parts : (i : ℕ) → i < n → IsLive b (x + i)
  pub long : (i : ℕ) → i < n → is_part b (x + i) ≡ true
  pub entries : (i : ℕ) → i < n → read_lfn b (x + i) ≡ lfn_of str n (n - 1 - i)
  pub live : IsLive b (x + n)
  pub plain : is_part b (x + n) ≡ false

module _ (fresh : Buffer) (name str : CString) (b : Bytes) (n : ℕ) where
  -- The parts of a name are passed, and wait.
  Passed-parts :
      (k x : ℕ) (names : List LfnEntry)
      → ((i : ℕ) → i < k → IsLive b (x + i))
      → ((i : ℕ) → i < k → is_part b (x + i) ≡ true)
      → ((i : ℕ) → i < k → read_lfn b (x + i) ≡ lfn_of str n (k - 1 - i))
      → Passed fresh name b x names
      → Passed fresh name b (x + k) (names ++ pieces str n k)
  Passed-parts zero x names live long entries passed =
      subst (λ (y : ℕ). Passed fresh name b y (names ++ [])) (omega arith)
        (subst (λ (l : List LfnEntry). Passed fresh name b x l) (sym (append-nil names)) passed)
  Passed-parts (suc k) x names live long entries passed =
      let here : x + 0 ≡ x = omega arith in
      let first : read_lfn b x ≡ lfn_of str n k =
        subst (λ (y : ℕ). read_lfn b y ≡ lfn_of str n (suc k - 1 - 0)) here
          (entries 0 (omega arith))
        ∙ ap (lfn_of str n) (omega arith) in
      let come : Passed fresh name b (suc x) (names ++ lfn_of str n k ∷ []) =
        subst (λ (e : LfnEntry). Passed fresh name b (suc x) (names ++ e ∷ [])) first
          (part passed (subst (IsLive b) here (live 0 (omega arith)))
            (subst (λ (y : ℕ). is_part b y ≡ true) here (long 0 (omega arith)))) in
      let next : (i : ℕ) → suc x + i ≡ x + suc i = λ i. omega arith in
      let rest =
        Passed-parts k (suc x) (names ++ lfn_of str n k ∷ [])
          (λ i h. subst (IsLive b) (sym (next i)) (live (suc i) (omega arith)))
          (λ i h. subst (λ (y : ℕ). is_part b y ≡ true) (sym (next i)) (long (suc i) (omega arith)))
          (λ i h.
            subst (λ (y : ℕ). read_lfn b y ≡ lfn_of str n (k - 1 - i)) (sym (next i))
              (entries (suc i) (omega arith) ∙ ap (lfn_of str n) (omega arith)))
          come in
      subst (λ (l : List LfnEntry). Passed fresh name b (x + suc k) l)
        (append_assoc names (lfn_of str n k ∷ []) (pieces str n k))
        (subst (λ (y : ℕ). Passed fresh name b y ((names ++ lfn_of str n k ∷ []) ++ pieces str n k))
          (next k) rest)

long_name_of-pieces :
    (fresh : Buffer) (str : CString) (n : ℕ)
    → IsText str
    → length str ≤ 13 * n
    → n ≤ 62
    → fresh (length str) ≡ 0
    → long_name_of fresh (pieces str n n) ≡ some (str, to_lower str)
unfolding long_name_of
long_name_of-pieces fresh str n text fits few zero_behind =
    rw
      (
        length-pieces str n n,
        long_name_lem fresh str n text fits few,
        lower_copy_lem fresh str text zero_behind,
      )
      refl

strcmp_same : (str : CString) → strcmp str str ≡ true
strcmp_same str = (strcmp_iff str str).1 refl

module _ {Device : Type 0} (port : AtaPort Device) (fresh : Buffer) where
  -- A search in a directory of the drive whose cluster is read.
  find_entry-scan :
      (rounds : ℕ) (d : FsDriver) (name : CString) (root : EntryInfo) (device device' : Device)
      (b : Bytes) (result : Scan)
      → (root.drive_id == d.drive_id) ≡ true
      → (bit_and root.info.entry_attributes directory_attribute == 0) ≡ false
      → read_cluster port d (first_cluster root.info) device ≡ (device', some b)
      → scan_entries fresh d.drive_id name b (entries_per_cluster d) 0 [] ≡ result
      → find_entry port fresh (suc rounds) d name root device
        ≡ after_scan
            (λ waiting.
              find_loop port fresh rounds d name (first_cluster root.info) waiting device')
            device'
            result
  unfolding find_entry find_loop
  find_entry-scan rounds d name root device device' b result same_drive directory reads scanned =
      rw (same_drive, directory, reads, scanned) refl

  -- A file that is stored under a long name of up to 62 parts is found by that name in small letters,
  -- in a directory of the drive whose first cluster can be read and has the file behind entries of other names, short or long;
  -- deleted entries count as entries like any other. The name is then returned as it is stored. The copy of the
  -- name in small letters has no zero of its own, and one must stand behind it in the memory.
  pub find-stored :
      (rounds : ℕ) (d : FsDriver) (str : CString) (n x : ℕ) (root : EntryInfo)
      (device device' : Device) (b : Bytes)
      → (root.drive_id == d.drive_id) ≡ true
      → (bit_and root.info.entry_attributes directory_attribute == 0) ≡ false
      → read_cluster port d (first_cluster root.info) device ≡ (device', some b)
      → Passed fresh (to_lower str) b x []
      → IsStored b x str n
      → x + n < entries_per_cluster d
      → fresh (length str) ≡ 0
      → find_entry port fresh (suc rounds) d (to_lower str) root device
        ≡ some
            (device', ok, some (from_directory_entry (read_entry b (x + n)) d.drive_id (some str)))
  find-stored rounds d str n x root device device' b same_drive directory reads passed stored inside
        zero_behind =
      let name = to_lower str in
      let left = entries_per_cluster d - (x + n) - 1 in
      let whole : x + n + suc left ≡ entries_per_cluster d = omega arith in
      let come =
        Passed-parts fresh name str b n n x [] stored.parts stored.long stored.entries passed in
      let named = long_name_of-pieces fresh str n stored.text stored.fits stored.few zero_behind in
      let waiting : ltb 0 (length (pieces str n n)) ≡ true =
        rw (length-pieces str n n) (lt→ltb 0 n stored.some_parts) in
      let scanned =
        ap (λ (r : ℕ). scan_entries fresh d.drive_id name b r 0 []) (sym whole)
        ∙ scan-Passed fresh d.drive_id name b (suc left) come
        ∙ scan-long fresh d.drive_id name b left (x + n) (pieces str n n) str name stored.live
            stored.plain waiting named
        ∙ rw (strcmp_same name) refl in
      find_entry-scan rounds d name root device device' b
        (found (from_directory_entry (read_entry b (x + n)) d.drive_id (some str))) same_drive
        directory reads scanned

  -- Where the end of the directory comes behind entries of other names, nothing is found.
  pub find-absent :
      (rounds : ℕ) (d : FsDriver) (name : CString) (x : ℕ) (names : List LfnEntry)
      (root : EntryInfo) (device device' : Device) (b : Bytes)
      → (root.drive_id == d.drive_id) ≡ true
      → (bit_and root.info.entry_attributes directory_attribute == 0) ≡ false
      → read_cluster port d (first_cluster root.info) device ≡ (device', some b)
      → Passed fresh name b x names
      → (first_char b x == entry_end) ≡ true
      → x < entries_per_cluster d
      → find_entry port fresh (suc rounds) d name root device ≡ some (device', not_found, none)
  unfolding scan_entries
  find-absent rounds d name x names root device device' b same_drive directory reads passed end
        inside =
      let left = entries_per_cluster d - x - 1 in
      let whole : x + suc left ≡ entries_per_cluster d = omega arith in
      let scanned =
        ap (λ (r : ℕ). scan_entries fresh d.drive_id name b r 0 []) (sym whole)
        ∙ scan-Passed fresh d.drive_id name b (suc left) passed
        ∙ rw end refl in
      find_entry-scan rounds d name root device device' b no_more same_drive directory reads scanned

  loop-stuck :
      (rounds : ℕ) (d : FsDriver) (name : CString) (cluster : ℕ) (device : Device) (b : Bytes)
      → ((state : Device)
          → (state' : Device) × (read_cluster port d cluster state ≡ (state', some b)))
      → scan_entries fresh d.drive_id name b (entries_per_cluster d) 0 [] ≡ next_cluster []
      → find_loop port fresh rounds d name cluster [] device ≡ none
  unfolding find_loop
  loop-stuck zero d name cluster device b reads full = refl
  loop-stuck (suc rounds) d name cluster device b reads full =
      let (device', read) = reads device in
      rw (read, full) (loop-stuck rounds d name cluster device' b reads full)

  -- A directory of the drive that fills its cluster with entries of other names, with no parts of a
  -- long name that wait at the end, is read again and again: the chain of clusters is not followed,
  -- and FindEntry does not return however often it goes round, where the port gives the same bytes
  -- each time.
  pub find-stuck :
      (rounds : ℕ) (d : FsDriver) (name : CString) (root : EntryInfo) (device : Device) (b : Bytes)
      → (root.drive_id == d.drive_id) ≡ true
      → (bit_and root.info.entry_attributes directory_attribute == 0) ≡ false
      → ((state : Device)
          → (state' : Device) × (read_cluster port d (first_cluster root.info) state
              ≡ (state', some b)))
      → Passed fresh name b (entries_per_cluster d) []
      → find_entry port fresh rounds d name root device ≡ none
  unfolding find_entry scan_entries
  find-stuck rounds d name root device b same_drive directory reads passed =
      rw (same_drive, directory)
        (loop-stuck rounds d name (first_cluster root.info) device b reads (
          ap (λ (r : ℕ). scan_entries fresh d.drive_id name b r 0 []) (omega arith)
          ∙ scan-Passed fresh d.drive_id name b 0 passed))
