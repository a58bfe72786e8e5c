-- ===== src/PageTableManager/Level.antt =====
-- One block of `MapMemory`: the table that an entry names exists afterwards, and every address
-- translates as before.
use waifu_os.Prelude.{
  ℕ, suc, ◌*◌, ◌<◌, ◌≡◌, refl, inl, inr, true, some, List, [], ◌∷◌, ◌++◌, arith, Bool-cases, length,
  u64, ◌<<<◌, page_size,
}
use waifu_os.Paging.{present, get_flag, get_address}
use waifu_os.Paging.Fields.{get_address_field}
use waifu_os.PageTableManager.{FrameSource, Tables, entry, next_table}
use waifu_os.PageTableManager.Walk.{table_at, table_at-append, IsPath}
use waifu_os.PageTableManager.NewTable.{Reached, add_table-Reached}
use waifu_os.PageTableManager.Tree.{IsTree}

module _ (source : FrameSource) where
  module _ (m : Tables source) (p : List ℕ) (a i n : ℕ) (tree : IsTree source m) (good : IsPath p)
      (short : length p < 3) (at : table_at m.memory m.pml4 p ≡ some a) (inside : i < 512) where
    -- The entry is present.
    found :
        get_flag (entry m.memory a i) present ≡ true
        → source.Has m.frames (suc n)
        → Reached source m (p ++ i ∷ []) n (u64 (get_address (entry m.memory a i) <<< 12), m)
    unfolding table_at
    found on has =
        let field = get_address_field (entry m.memory a i) in
        let exact : u64 (get_address (entry m.memory a i) <<< 12)
            ≡ get_address (entry m.memory a i) * page_size =
          omega (arith, field) in
        record {
          tree = tree;
          root = refl;
          here = rw (table_at-append m.memory m.pml4 p (i ∷ []), at, on, exact) refl;
          walks = λ path g l. refl;
          has = source.has_less m.frames n has;
        }

    -- The block makes or finds the table.
    pub next_table-Reached :
        source.Has m.frames (suc n)
        → (r : ℕ × Tables source) × (next_table source m a i ≡ some r)
          × Reached source m (p ++ i ∷ []) n r
    unfolding next_table
    next_table-Reached has = elim (Bool-cases (get_flag (entry m.memory a i) present)) [
      | inl on ↦ ((u64 (get_address (entry m.memory a i) <<< 12), m), rw on refl, found on has)
      | inr off ↦
          let made =
            add_table-Reached source m p a i n tree good short at inside off
              (source.request_lem m.frames n has) in
          (made.0, rw (off) made.1, made.2)
    ]
