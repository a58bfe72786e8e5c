-- ===== src/PageTableManager/Leaf.antt =====
-- The last step of `MapMemory` and of `SetVirtualFlag`: one entry of the last table is written.
use waifu_os.Prelude.{
  ℕ, suc, ◌+◌, ◌*◌, ◌^◌, ◌≤◌, ◌<◌, ◌≡◌, refl, sym, ◌∙◌, inl, inr, true, false, Option, none, some,
  List, [], ◌∷◌, arith, ◌==◌, Bool-cases, length, page_size, ◌>>=◌,
}
use waifu_os.Paging.{present, get_flag, get_address, PageMapIndexer}
use waifu_os.Paging.Indices.{IsIndexer}
use waifu_os.PageTableManager.{FrameSource, Tables, entry, set_entry, page_table}
use waifu_os.PageTableManager.Walk.{
  table_at, table_at-append, IsPath, child, indices, starts_with, starts_with_short,
}
use waifu_os.PageTableManager.Tree.{IsTree, table_at_apart, set_entry-SameBut}
use waifu_os.PageTableManager.NewTable.{Reached}
use waifu_os.PageTableManager.Level.{next_table-Reached}

module _ (source : FrameSource) where
  abbrev pub upper : PageMapIndexer → List ℕ
  upper x = x.pdpi ∷ x.pdi ∷ x.pti ∷ []

  -- The three blocks together.
  pub page_table-Reached :
      (m : Tables source) (x : PageMapIndexer) (n : ℕ)
      → IsTree source m
      → IsIndexer x
      → source.Has m.frames (suc (suc (suc n)))
      → (r : ℕ × Tables source) × (page_table source m x ≡ some r) × Reached source m (upper x) n r
  unfolding page_table table_at
  page_table-Reached m x n tree good has =
      let one =
        next_table-Reached source m [] m.pml4 x.pdpi (suc (suc n)) tree tt (omega arith) refl
          good.pdpi_lt has in
      let m1 = one.0.1 in
      let two =
        next_table-Reached source m1 (x.pdpi ∷ []) one.0.0 x.pdi (suc n) one.2.tree
          (good.pdpi_lt, tt) (omega arith) one.2.here good.pdi_lt one.2.has in
      let m2 = two.0.1 in
      let three =
        next_table-Reached source m2 (x.pdpi ∷ x.pdi ∷ []) two.0.0 x.pti n two.2.tree
          (good.pdpi_lt, (good.pdi_lt, tt)) (omega arith) two.2.here good.pti_lt two.2.has in
      (
        three.0,
        rw (one.1, two.1, three.1) refl,
        record {
          tree = three.2.tree;
          root = three.2.root ∙ two.2.root ∙ one.2.root;
          here = three.2.here;
          walks = λ path g l. three.2.walks path g l ∙ two.2.walks path g l ∙ one.2.walks path g l;
          has = three.2.has;
        },
      )

  abbrev pub put : Tables source → ℕ → PageMapIndexer → ℕ → Tables source
  put m a x e = record m { memory = set_entry m.memory a x.pi e }

  -- A new value in the last entry on the way to an address.
  module _ (m : Tables source) (a : ℕ) (x : PageMapIndexer) (e : ℕ) (tree : IsTree source m)
      (good : IsIndexer x) (at : table_at m.memory m.pml4 (upper x) ≡ some a)
      (bound : e < 2 ^ 64) where
    upper-IsPath : IsPath (upper x)
    upper-IsPath = (good.pdpi_lt, (good.pdi_lt, (good.pti_lt, tt)))

    abbrev leaf : Tables source
    leaf = put m a x e

    pub table_at-leaf :
        (path : List ℕ)
        → IsPath path
        → length path ≤ 4
        → starts_with (indices x) path ≡ false
        → table_at leaf.memory m.pml4 path ≡ table_at m.memory m.pml4 path
    table_at-leaf path gp size off =
        table_at_apart source m (set_entry m.memory a x.pi e) (upper x) a x.pi path tree
          upper-IsPath (omega arith) at
          (set_entry-SameBut source m a x.pi e
            (tree.frame (upper x) a upper-IsPath (omega arith) at) good.pi_lt)
          gp size off

    same_tables :
        (path : List ℕ)
        → IsPath path
        → length path ≤ 3
        → table_at leaf.memory m.pml4 path ≡ table_at m.memory m.pml4 path
    same_tables path gp size =
        table_at-leaf path gp (omega arith) (starts_with_short (indices x) path (omega arith))

    pub leaf-IsTree : IsTree source leaf
    leaf-IsTree = record {
      words = λ y. elim (Bool-cases (y == (a + 8 * x.pi))) [
        | inl same ↦ rw same bound
        | inr other ↦ rw other (tree.words y)
      ];
      frame = λ p b gp size here. tree.frame p b gp size (sym (same_tables p gp size) ∙ here);
      unique = λ p q b gp gq sp sq hp hq.
          tree.unique p q b gp gq sp sq (sym (same_tables p gp sp) ∙ hp)
            (sym (same_tables q gq sq) ∙ hq);
    }

    pub leaf-here :
        table_at leaf.memory m.pml4 (indices x) ≡ (child leaf.memory a x.pi >>= (λ page. some page))
    unfolding table_at
    leaf-here =
        let top : table_at leaf.memory m.pml4 (upper x) ≡ some a =
          same_tables (upper x) upper-IsPath (omega arith) ∙ at in
        rw (table_at-append leaf.memory m.pml4 (upper x) (x.pi ∷ []), top) refl

    pub leaf-present :
        get_flag e present ≡ true
        → table_at leaf.memory m.pml4 (indices x) ≡ some (get_address e * page_size)
    leaf-present on =
        let same : ((a + 8 * x.pi) == (a + 8 * x.pi)) ≡ true = ground arith in
        rw (leaf-here, same, on) refl

    pub leaf-upper : table_at leaf.memory m.pml4 (upper x) ≡ some a
    leaf-upper = same_tables (upper x) upper-IsPath (omega arith) ∙ at

    pub leaf-reads : entry leaf.memory a x.pi ≡ e
    leaf-reads = let same : ((a + 8 * x.pi) == (a + 8 * x.pi)) ≡ true = ground arith in rw same refl

    child-some : (o : Option ℕ) → (o >>= (λ page. some page)) ≡ o
    child-some none = refl
    child-some (some page) = refl

    pub leaf-before : table_at m.memory m.pml4 (indices x) ≡ child m.memory a x.pi
    unfolding table_at
    leaf-before =
        rw (table_at-append m.memory m.pml4 (upper x) (x.pi ∷ []), at)
          (child-some (child m.memory a x.pi))
