-- ===== src/PageTableManager/Walk.antt =====
-- What the processor reads from the page tables: a path of indices leads to a page.
use waifu_os.Prelude.{
  ℕ, ◌+◌, ◌*◌, ◌%◌, ◌<◌, ◌≡◌, refl, ap, ◌≢◌, inl, inr, Bool, true, false, ◌&&◌, Option, none, some,
  List, [], ◌∷◌, ◌++◌, arith, ◌==◌, if◌then◌else◌, ==_iff, Bool-cases, Option-cases, length, All,
  page_size, ◌>>=◌,
}
use waifu_os.Paging.{present, get_flag, get_address, PageMapIndexer, page_map_indexer}
use waifu_os.PageTableManager.{entry}

-- One step of the walk.
abbrev pub child : (ℕ → ℕ) → ℕ → ℕ → Option ℕ
child memory table index =
    if get_flag (entry memory table index) present
    then some (get_address (entry memory table index) * page_size)
    else none

unfoldable pub table_at : (ℕ → ℕ) → ℕ → List ℕ → Option ℕ
table_at memory table [] = some table
table_at memory table (i ∷ is) = child memory table i >>= (λ next. table_at memory next is)

abbrev pub indices : PageMapIndexer → List ℕ
indices i = i.pdpi ∷ i.pdi ∷ i.pti ∷ i.pi ∷ []

-- The physical address of a virtual address.
unfoldable pub translate : (ℕ → ℕ) → ℕ → ℕ → Option ℕ
translate memory pml4 address = do
  page ← table_at memory pml4 (indices (page_map_indexer address))
  some (page + address % page_size)

-- Indices of a table with 512 entries.
abbrev pub IsPath : List ℕ → Type 0
IsPath path = All (λ i. i < 512) path

pub table_at-append :
    (memory : ℕ → ℕ) (table : ℕ) (p q : List ℕ)
    → table_at memory table (p ++ q)
      ≡ (table_at memory table p >>= (λ next. table_at memory next q))
unfolding table_at
table_at-append memory table [] q = refl
table_at-append memory table (i ∷ p) q = elim (Option-cases (child memory table i)) [
  | inl missing ↦ rw missing refl
  | inr found ↦ rw found.1 (table_at-append memory found.0 p q)
]

-- Two memories that agree on the entries that the path reads.
pub table_at_agree :
    (m m' : ℕ → ℕ) (table : ℕ) (path : List ℕ)
    → ((p q : List ℕ) (j c : ℕ)
        → path ≡ p ++ j ∷ q
        → table_at m table p ≡ some c
        → entry m' c j ≡ entry m c j)
    → table_at m' table path ≡ table_at m table path
unfolding table_at
table_at_agree m m' table [] h = refl
table_at_agree m m' table (i ∷ path) h =
    let first : entry m' table i ≡ entry m table i = h [] path i table refl refl in
    let same : child m' table i ≡ child m table i = rw first refl in
    rw same (elim (Option-cases (child m table i)) [
      | inl missing ↦ rw missing refl
      | inr found ↦ rw found.1 (
          table_at_agree m m' found.0 path
            (λ p q j c e at. h (i ∷ p) q j c (ap (λ (t : List ℕ). i ∷ t) e) (rw found.1 at)))
    ])

unfoldable pub starts_with : List ℕ → List ℕ → Bool
starts_with [] path = true
starts_with (i ∷ p) [] = false
starts_with (i ∷ p) (j ∷ path) = (i == j) && starts_with p path

pub starts_with-true :
    (p path : List ℕ) → starts_with p path ≡ true → (rest : List ℕ) × (path ≡ p ++ rest)
unfolding starts_with
starts_with-true [] path e = (path, refl)
starts_with-true (i ∷ p) [] e = absurd (ground arith)
starts_with-true (i ∷ p) (j ∷ path) e = elim (Bool-cases (i == j)) [
  | inl same ↦
      let at : i ≡ j = (==_iff i j).0 same in
      let rest = starts_with-true p path (ground arith) in (rest.0, cc (at, rest.1))
  | inr other ↦ absurd (ground arith)
]

pub starts_with-append : (p rest : List ℕ) → starts_with p (p ++ rest) ≡ true
unfolding starts_with
starts_with-append [] rest = refl
starts_with-append (i ∷ p) rest = rw ((==_iff i i).1 refl) (starts_with-append p rest)

-- The first entry that a walk reads at the end of `p`.
pub starts_with-false :
    (p q : List ℕ) (j i : ℕ) → starts_with (p ++ i ∷ []) (p ++ j ∷ q) ≡ false → j ≢ i
unfolding starts_with
starts_with-false [] q j i e same = ground arith
starts_with-false (k ∷ p) q j i e same =
    starts_with-false p q j i (ground (arith, (==_iff k k).1 refl)) same

pub starts_with_short : (p path : List ℕ) → length path < length p → starts_with p path ≡ false
unfolding starts_with
starts_with_short [] path h = absurd (omega arith)
starts_with_short (i ∷ p) [] h = refl
starts_with_short (i ∷ p) (j ∷ path) h = elim (Bool-cases (i == j)) [
  | inl same ↦ rw same (starts_with_short p path (omega arith))
  | inr other ↦ rw other refl
]
