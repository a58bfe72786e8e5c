-- ===== src/PageTableManager/NewTable.antt =====
-- The branch of a block of `MapMemory` in which the table is missing: a new table changes no
-- translation.
use waifu_os.Prelude.{
  ℕ, ◌+◌, ◌*◌, ◌^◌, ◌≤◌, ◌<◌, ◌≡◌, refl, sym, ap, ◌∙◌, ◌≢◌, ◌⊎◌, inl, inr, true, false, ◌&&◌, none,
  some, List, [], ◌∷◌, ◌++◌, arith, ltb, leb, ◌==◌, Bool-cases, length, length-append, ◌>>>◌,
  page_size,
}
use mathlib.Core.List.{append-nil}
use waifu_os.Paging.{present, get_flag, set_address, get_address}
use waifu_os.Paging.Mapped.{Mapped, get_flag_zero, write_entry-Mapped}
use waifu_os.PageTableManager.{
  FrameSource, Granted, Tables, entry, set_entry, clear_page, writable, add_table,
}
use waifu_os.PageTableManager.Walk.{
  table_at, table_at-append, IsPath, child, starts_with, starts_with-true, starts_with_short,
}
use waifu_os.PageTableManager.Tree.{
  entries_apart, IsPath-append, IsTree, IsFrame, SameBut, table_at_apart,
}

module _ (source : FrameSource) where
  -- What a block has done for the entry at the end of `q`.
  pub record Reached (m : Tables source) (q : List ℕ) (n : ℕ) (r : ℕ × Tables source) : Type 0 where
    pub tree : IsTree source r.1
    pub root : r.1.pml4 ≡ m.pml4
    pub here : table_at r.1.memory r.1.pml4 q ≡ some r.0
    pub walks :
        (path : List ℕ)
        → IsPath path
        → length path ≡ 4
        → table_at r.1.memory r.1.pml4 path ≡ table_at m.memory m.pml4 path
    pub has : source.Has r.1.frames n

  module _ (m : Tables source) (p : List ℕ) (a i n : ℕ) (tree : IsTree source m) (good : IsPath p)
      (short : length p < 3) (at : table_at m.memory m.pml4 p ≡ some a) (inside : i < 512) where
    -- The entry is not present.
    module _ (off : get_flag (entry m.memory a i) present ≡ false)
        (g : Granted source.request source.InUse source.Has m.frames n) where
      address : ℕ
      address = g.page * page_size

      pde : ℕ
      pde = writable source (set_address (entry m.memory a i) (address >>> 12))

      memory : ℕ → ℕ
      memory = set_entry (clear_page m.memory address) a i pde

      written : Mapped pde (address >>> 12)
      unfolding pde
      written = write_entry-Mapped (entry m.memory a i) (address >>> 12) (tree.words (a + 8 * i))

      pde_names : get_address pde * page_size ≡ address
      unfolding address
      pde_names = omega (arith, written.names, g.small)

      distinct :
          (c j : ℕ)
          → IsFrame source m.frames c
          → j < 512
          → (c ≡ a → j ≢ i)
          → (c + 8 * j) ≢ (a + 8 * i)
      distinct c j f l apart =
          entries_apart source m.frames a i c j (tree.frame p a good (omega arith) at) f inside l
            apart

      not_fresh :
          (c j : ℕ)
          → IsFrame source m.frames c
          → j < 512
          → (leb address (c + 8 * j) && ltb (c + 8 * j) (address + page_size)) ≡ false
      unfolding address
      not_fresh c j f l =
          let other : f.page ≢ g.page = λ e. g.fresh (rw (← e) f.owned) in ground (arith, f.at)

      memory-SameBut : SameBut source m memory a i
      unfolding memory
      memory-SameBut c j f l apart =
          let off' : ((c + 8 * j) == (a + 8 * i)) ≡ false =
            ground (arith, distinct c j f l apart) in
          rw (off', not_fresh c j f l) refl

      fresh_entry : (j : ℕ) → j < 512 → entry memory address j ≡ 0
      unfolding memory address
      fresh_entry j l =
          let fa = tree.frame p a good (omega arith) at in
          let other : fa.page ≢ g.page = λ e. g.fresh (rw (← e) fa.owned) in
          let off' : ((g.page * page_size + 8 * j) == (a + 8 * i)) ≡ false =
            ground (arith, fa.at) in
          let zeroed : (leb (g.page * page_size) (g.page * page_size + 8 * j)
                && ltb (g.page * page_size + 8 * j) (g.page * page_size + page_size))
              ≡ true =
            ground arith in
          rw (off', zeroed) refl

      words : (x : ℕ) → memory x < 2 ^ 64
      unfolding memory
      words x = elim (Bool-cases (x == (a + 8 * i))) [
        | inl e ↦ rw e written.bound
        | inr ne ↦ elim (Bool-cases (leb address x && ltb x (address + page_size))) [
          | inl e ↦ rw (ne, e) (omega arith)
          | inr e ↦ rw (ne, e) (tree.words x)
        ]
      ]

      -- The paths that do not go through the entry.
      apart :
          (path : List ℕ)
          → IsPath path
          → length path ≤ 4
          → starts_with (p ++ i ∷ []) path ≡ false
          → table_at memory m.pml4 path ≡ table_at m.memory m.pml4 path
      apart path good' size off' =
          table_at_apart source m memory p a i path tree good (omega arith) at memory-SameBut good'
            size off'

      longer : length (p ++ i ∷ []) ≡ length p + 1
      longer = length-append p (i ∷ [])

      kept : table_at memory m.pml4 p ≡ some a
      kept =
          apart p good (omega arith) (starts_with_short (p ++ i ∷ []) p (omega (arith, longer)))
          ∙ at

      arrives : table_at memory m.pml4 (p ++ i ∷ []) ≡ some address
      unfolding table_at memory
      arrives =
          let same : ((a + 8 * i) == (a + 8 * i)) ≡ true = ground arith in
          let reads : child memory a i ≡ some address =
            rw (same, written.is_present, pde_names) refl in
          rw (table_at-append memory m.pml4 p (i ∷ []), kept, reads) refl

      through :
          (rest : List ℕ)
          → table_at memory m.pml4 ((p ++ i ∷ []) ++ rest) ≡ table_at memory address rest
      through rest = rw (table_at-append memory m.pml4 (p ++ i ∷ []) rest, arrives) refl

      nothing_before : (rest : List ℕ) → table_at m.memory m.pml4 ((p ++ i ∷ []) ++ rest) ≡ none
      unfolding table_at
      nothing_before rest =
          let front : table_at m.memory m.pml4 (p ++ i ∷ []) ≡ none =
            rw (table_at-append m.memory m.pml4 p (i ∷ []), at, off) refl in
          rw (table_at-append m.memory m.pml4 (p ++ i ∷ []) rest, front) refl

      nothing_below : (j : ℕ) (rest : List ℕ) → j < 512 → table_at memory address (j ∷ rest) ≡ none
      unfolding table_at
      nothing_below j rest l = rw (fresh_entry j l, get_flag_zero) refl

      -- Where a path leads after the new table.
      classify :
          (path : List ℕ)
          → IsPath path
          → length path ≤ 4
          → ((path ≡ p ++ i ∷ []) × (table_at memory m.pml4 path ≡ some address))
            ⊎ (table_at memory m.pml4 path ≡ table_at m.memory m.pml4 path)
      unfolding table_at
      classify path good' size = elim (Bool-cases (starts_with (p ++ i ∷ []) path)) [
        | inr off' ↦ inr (apart path good' size off')
        | inl on ↦ let split = starts_with-true (p ++ i ∷ []) path on in beyond split.0 split.1
      ]
        where
          beyond :
              (rest : List ℕ)
              → path ≡ (p ++ i ∷ []) ++ rest
              → ((path ≡ p ++ i ∷ []) × (table_at memory m.pml4 path ≡ some address))
                ⊎ (table_at memory m.pml4 path ≡ table_at m.memory m.pml4 path)
          beyond [] e = let e' = e ∙ append-nil (p ++ i ∷ []) in inl (e', rw e (through []))
          beyond (j ∷ rest) e =
              let parts = IsPath-append source (p ++ i ∷ []) (j ∷ rest) (rw (← e) good') in
              inr (
                rw (e, nothing_before (j ∷ rest), through (j ∷ rest))
                  (nothing_below j rest parts.1.0))

      after : Tables source
      after = record m { frames = g.next; memory = memory }

      after-IsFrame :
          (q : List ℕ) (b : ℕ)
          → IsPath q
          → length q ≤ 3
          → table_at memory m.pml4 q ≡ some b
          → IsFrame source g.next b
      unfolding address
      after-IsFrame q b good' size e = elim (classify q good' (omega arith)) [
        | inl new ↦ record { page = g.page; at = ground (arith, e, new.1); owned = g.owned }
        | inr old ↦
            let f = tree.frame q b good' size (sym old ∙ e) in
            record { page = f.page; at = f.at; owned = g.keeps f.page f.owned }
      ]

      -- The new table is none of the others.
      new-old : (q : List ℕ) → IsPath q → length q ≤ 3 → table_at m.memory m.pml4 q ≢ some address
      unfolding address
      new-old q good' size e =
          let f = tree.frame q (g.page * page_size) good' size e in
          let same : f.page ≡ g.page = omega (arith, f.at) in g.fresh (rw (← same) f.owned)

      after_unique :
          (q r : List ℕ) (b : ℕ)
          → IsPath q
          → IsPath r
          → length q ≤ 3
          → length r ≤ 3
          → table_at memory m.pml4 q ≡ some b
          → table_at memory m.pml4 r ≡ some b
          → q ≡ r
      after_unique q r b gq gr sq sr eq er = elim (classify q gq (omega arith)) [
        | inl new ↦ elim (classify r gr (omega arith)) [
          | inl new' ↦ new.0 ∙ sym new'.0
          | inr old' ↦ absurd (new-old r gr sr (cc (old', er, eq, new.1)))
        ]
        | inr old ↦ elim (classify r gr (omega arith)) [
          | inl new' ↦ absurd (new-old q gq sq (cc (old, eq, er, new'.1)))
          | inr old' ↦ tree.unique q r b gq gr sq sr (sym old ∙ eq) (sym old' ∙ er)
        ]
      ]

      made : Reached m (p ++ i ∷ []) n (address, after)
      unfolding after
      made = record {
        tree = record { words = words; frame = after-IsFrame; unique = after_unique };
        root = refl;
        here = arrives;
        walks = λ path gp l. elim (classify path gp (omega arith)) [
          | inl new ↦ absurd (omega (arith, longer, ap (λ (t : List ℕ). length t) new.0))
          | inr old ↦ old
        ];
        has = g.has;
      }

      pub add_table-Reached :
          (r : ℕ × Tables source) × (add_table source m a i ≡ some r) × Reached m (p ++ i ∷ []) n r
      unfolding add_table after memory pde address
      add_table-Reached = ((address, after), rw g.answer refl, made)
