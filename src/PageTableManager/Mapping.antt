-- ===== src/PageTableManager/Mapping.antt =====
-- `MapMemory` maps the page of its address and no other; `SetVirtualFlag` sets a flag of one page.
use waifu_os.Prelude.{
  ℕ, ◌+◌, ◌*◌, ◌/◌, ◌%◌, ◌^◌, ◌<◌, ◌≡◌, refl, sym, ◌∙◌, ◌≢◌, inl, inr, true, false, some, arith,
  Bool-cases, ◌>>>◌, page_size,
}
use waifu_os.Paging.{set_address, get_address, PageMapIndexer, page_map_indexer}
use waifu_os.Paging.Indices.{
  IsIndexer, page_map_indexer-IsIndexer, page_number, page_number-page_map_indexer, indexer_unique,
}
use waifu_os.Paging.Mapped.{Mapped, write_entry-Mapped}
use waifu_os.PageTableManager.{FrameSource, Tables, entry, writable, map_memory}
use waifu_os.PageTableManager.Walk.{table_at, IsPath, indices, translate, starts_with}
use waifu_os.PageTableManager.Tree.{IsTree}
use waifu_os.PageTableManager.NewTable.{Reached}
use waifu_os.PageTableManager.Leaf.{
  upper, put, page_table-Reached, table_at-leaf, leaf-IsTree, leaf-present,
}

module _ (source : FrameSource) where
  -- The page of an address: the low 36 digits of its number.
  abbrev pub page_of : ℕ → ℕ
  page_of v = v / page_size % 2 ^ 36

  -- The other addresses translate as before.
  abbrev pub OthersKept : Tables source → ℕ → Tables source → Type 0
  OthersKept m v m' =
      (w : ℕ) → page_of w ≢ page_of v → translate m'.memory m'.pml4 w ≡ translate m.memory m.pml4 w

  pub record MapsTo (m : Tables source) (v p : ℕ) (m' : Tables source) : Type 0 where
    pub tree : IsTree source m'
    pub mapped :
        (w : ℕ)
        → page_of w ≡ page_of v
        → translate m'.memory m'.pml4 w ≡ some (p / page_size * page_size + w % page_size)
    pub others : OthersKept m v m'

  pub same_page :
      (v w : ℕ)
      → page_of w ≡ page_of v
      → indices (page_map_indexer w) ≡ indices (page_map_indexer v)
  same_page v w e =
      let iw = page_number-page_map_indexer w in
      let iv = page_number-page_map_indexer v in
      let fields =
        indexer_unique (page_map_indexer w) (page_map_indexer v) iw.0 iv.0 (iw.1 ∙ e ∙ sym iv.1) in
      rw (fields.0, fields.1, fields.2, fields.3) refl

  heads :
      (x y : PageMapIndexer)
      → starts_with (indices x) (indices y) ≡ true
      → page_number y ≡ page_number x
  unfolding starts_with
  heads x y e = ground arith

  other_page :
      (v w : ℕ)
      → page_of w ≢ page_of v
      → starts_with (indices (page_map_indexer v)) (indices (page_map_indexer w)) ≡ false
  other_page v w ne =
      elim (Bool-cases
        (starts_with (indices (page_map_indexer v)) (indices (page_map_indexer w)))) [
          | inr off ↦ off
          | inl on ↦
              let iw = page_number-page_map_indexer w in
              let iv = page_number-page_map_indexer v in
              absurd (ne (sym iw.1 ∙ heads (page_map_indexer v) (page_map_indexer w) on ∙ iv.1))
        ]

  pub indices-IsPath : (x : PageMapIndexer) → IsIndexer x → IsPath (indices x)
  indices-IsPath x good = (good.pdpi_lt, (good.pdi_lt, (good.pti_lt, (good.pi_lt, tt))))

  -- What both calls keep.
  pub leaf-OthersKept :
      (m : Tables source) (v n : ℕ) (r : ℕ × Tables source) (e : ℕ)
      → Reached source m (upper source (page_map_indexer v)) n r
      → e < 2 ^ 64
      → OthersKept m v (put source r.1 r.0 (page_map_indexer v) e)
  unfolding translate
  leaf-OthersKept m v n r e reached bound w ne =
      let x = page_map_indexer v in
      let y = page_map_indexer w in
      let good = page_map_indexer-IsIndexer v in
      let path = indices-IsPath y (page_map_indexer-IsIndexer w) in
      let kept : table_at (put source r.1 r.0 x e).memory r.1.pml4 (indices y)
          ≡ table_at r.1.memory r.1.pml4 (indices y) =
        table_at-leaf source r.1 r.0 x e reached.tree good reached.here bound (indices y) path
          (omega arith) (other_page v w ne) in
      rw (kept, reached.walks (indices y) path refl) refl

  -- On page tables that are a tree in frames in use, with three free frames at hand and for a
  -- physical address below 2^52, `MapMemory` ends; the page of the address then translates to
  -- the page of the physical address, every other page as before, and the tables are a tree
  -- again.
  pub map_memory-MapsTo :
      (m : Tables source) (v p : ℕ)
      → IsTree source m
      → source.Has m.frames 3
      → p < 2 ^ 52
      → (m' : Tables source) × (map_memory source m v p ≡ some m') × MapsTo m v p m'
  unfolding map_memory translate
  map_memory-MapsTo m v p tree has small =
      let x = page_map_indexer v in
      let good = page_map_indexer-IsIndexer v in
      let pt = page_table-Reached source m x 0 tree good has in
      let a = pt.0.0 in
      let m1 = pt.0.1 in
      let reached = pt.2 in
      let e = writable source (set_address (entry m1.memory a x.pi) (p >>> 12)) in
      let w : Mapped e (p >>> 12) =
        write_entry-Mapped (entry m1.memory a x.pi) (p >>> 12) (reached.tree.words _) in
      let here = leaf-present source m1 a x e reached.tree good reached.here w.bound w.is_present in
      let frame : get_address e * page_size ≡ p / page_size * page_size = omega (arith, w.names) in
      (
        put source m1 a x e,
        rw (pt.1) refl,
        record {
          tree = leaf-IsTree source m1 a x e reached.tree good reached.here w.bound;
          mapped = λ u same. rw (same_page v u same, here, frame) refl;
          others = leaf-OthersKept m v 0 pt.0 e reached w.bound;
        },
      )
