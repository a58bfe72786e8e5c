-- ===== src/PageTableManager/Flags.antt =====
-- `SetVirtualFlag`: the flag is set, whatever `value` is, and no address is mapped elsewhere.
use waifu_os.Prelude.{
  ℕ, ◌+◌, ◌*◌, ◌%◌, ◌^◌, ◌≤◌, ◌<◌, ◌≡◌, refl, sym, ◌∙◌, ◌≢◌, inl, inr, Bool, true, false, Option,
  none, some, arith, if◌then◌else◌, ==_iff, Bool-cases, page_size, ◌>>=◌,
}
use waifu_os.Paging.{PtFlag, present, set_flag, get_flag, get_address, page_map_indexer}
use waifu_os.Paging.Indices.{page_map_indexer-IsIndexer}
use waifu_os.PageTableManager.{FrameSource, Tables, entry, set_virtual_flag}
use waifu_os.PageTableManager.Walk.{table_at, child, indices, translate}
use waifu_os.PageTableManager.Tree.{IsTree}
use waifu_os.PageTableManager.Leaf.{upper, put, page_table-Reached, leaf-IsTree, leaf-present}
use waifu_os.Paging.Fields.{get_flag-set_flag, get_address_field, same_flag}
use waifu_os.Paging.Mapped.{set_flag_high, set_flag-lt}
use waifu_os.Paging.{flag_value, flag_digit}
use waifu_os.PageTableManager.Leaf.{leaf-before, leaf-reads, leaf-upper}
use waifu_os.PageTableManager.Mapping.{
  indices-IsPath, page_of, OthersKept, leaf-OthersKept, same_page,
}

module _ (source : FrameSource) where
  pub record FlagSet (m : Tables source) (v : ℕ) (f : PtFlag) (m' : Tables source) : Type 0 where
    pub tree : IsTree source m'
    pub table : ℕ
    pub found : table_at m'.memory m'.pml4 (upper source (page_map_indexer v)) ≡ some table
    pub flag : get_flag (entry m'.memory table (page_map_indexer v).pi) f ≡ true
    pub kept :
        (w a : ℕ)
        → page_of source w ≡ page_of source v
        → translate m.memory m.pml4 w ≡ some a
        → translate m'.memory m'.pml4 w ≡ some a
    pub others : OthersKept source m v m'

  none-some : {b : ℕ} → none ≢ some b
  none-some e = ground (arith, e)

  if_same : (b : Bool) → (if b then true else true) ≡ true
  if_same true = refl
  if_same false = refl

  -- A flag below the address does not move the page.
  keeps_page :
      (e : ℕ) (f : PtFlag) (b : Bool)
      → e < 2 ^ 64
      → flag_value f ≤ 2 ^ 11
      → get_flag e present ≡ true
      → (get_flag (set_flag e f b) present ≡ true) × (get_address (set_flag e f b) ≡ get_address e)
  keeps_page e f b bound low on = (
    rw (get_flag-set_flag e f present b, on) (if_same (same_flag f present)),
    rw (get_address_field (set_flag e f b), get_address_field e, set_flag_high e f b bound low)
        refl,
  )

  translate_by :
      (memory : ℕ → ℕ) (pml4 w v : ℕ) (o : Option ℕ)
      → page_of source w ≡ page_of source v
      → table_at memory pml4 (indices (page_map_indexer v)) ≡ o
      → translate memory pml4 w ≡ (o >>= (λ page. some (page + w % page_size)))
  unfolding translate
  translate_by memory pml4 w v o same e = rw (same_page source v w same, e) refl

  child_on :
      (memory : ℕ → ℕ) (a i : ℕ)
      → get_flag (entry memory a i) present ≡ true
      → child memory a i ≡ some (get_address (entry memory a i) * page_size)
  child_on memory a i on = rw on refl

  child_off :
      (memory : ℕ → ℕ) (a i : ℕ)
      → get_flag (entry memory a i) present ≡ false
      → child memory a i ≡ none
  child_off memory a i off = rw off refl

  -- On page tables that are a tree in frames in use, with three free frames at hand,
  -- `SetVirtualFlag` ends for a flag below the address, with `true` as with `false`: in the
  -- entry of the address the flag is set, every address of that page that was mapped
  -- translates as before, so does every other page, and the tables are a tree again.
  pub set_virtual_flag-FlagSet :
      (m : Tables source) (v : ℕ) (f : PtFlag) (value : Bool)
      → IsTree source m
      → source.Has m.frames 3
      → flag_value f ≤ 2 ^ 11
      → (m' : Tables source) × (set_virtual_flag source m v f value ≡ some m') × FlagSet m v f m'
  unfolding set_virtual_flag translate
  set_virtual_flag-FlagSet m v f value tree has low =
      let x = page_map_indexer v in
      let good = page_map_indexer-IsIndexer v in
      let pt = page_table-Reached source m x 0 tree good has in
      let a = pt.0.0 in
      let m1 = pt.0.1 in
      let reached = pt.2 in
      let old = entry m1.memory a x.pi in
      let e = set_flag old f value in
      let bound_old = reached.tree.words (a + 8 * x.pi) in
      let bound = set_flag-lt old f value bound_old in
      let before : table_at m.memory m.pml4 (indices x) ≡ child m1.memory a x.pi =
        sym (reached.walks (indices x) (indices-IsPath source x good) refl)
        ∙ leaf-before source m1 a x e reached.tree good reached.here bound in
      (
        put source m1 a x e,
        rw (pt.1) refl,
        record {
          tree = leaf-IsTree source m1 a x e reached.tree good reached.here bound;
          table = a;
          found = leaf-upper source m1 a x e reached.tree good reached.here bound;
          flag =
              rw
                (
                  leaf-reads source m1 a x e reached.tree good reached.here bound,
                  get_flag-set_flag old f f value,
                  (==_iff (flag_digit f) (flag_digit f)).1 refl,
                )
                refl;
          kept = λ w b same here. elim (Bool-cases (get_flag old present)) [
            | inl on ↦
                let page = keeps_page old f value bound_old low on in
                let after =
                  leaf-present source m1 a x e reached.tree good reached.here bound (page.0) in
                rw (same_page source v w same, after, page.1)
                  (sym (
                      translate_by m.memory m.pml4 w v (some (get_address old * page_size)) same
                        (before ∙ child_on m1.memory a x.pi on))
                    ∙ here)
            | inr off ↦ absurd (
                none-some (
                  sym (
                    translate_by m.memory m.pml4 w v none same
                      (before ∙ child_off m1.memory a x.pi off))
                  ∙ here))
          ];
          others = leaf-OthersKept source m v 0 pt.0 e reached bound;
        },
      )
