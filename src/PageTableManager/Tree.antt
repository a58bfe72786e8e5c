-- ===== src/PageTableManager/Tree.antt =====
-- The page tables as a tree: no table is reached by two paths, and each lies in a frame in use.
use waifu_os.Prelude.{
  ℕ, suc, ◌+◌, ◌*◌, ◌^◌, ◌≤◌, ◌<◌, ◌≡◌, refl, ◌≢◌, inl, inr, false, some, List, [], ◌∷◌, ◌++◌,
  arith, ◌==◌, Bool-cases, length, length-append, page_size,
}
use waifu_os.PageTableManager.{FrameSource, Tables, entry, set_entry}
use waifu_os.PageTableManager.Walk.{
  table_at, table_at_agree, IsPath, starts_with, starts_with-false,
}

module _ (source : FrameSource) where
  pub record IsFrame (s : source.State) (address : ℕ) : Type 0 where
    pub page : ℕ
    pub at : address ≡ page * page_size
    pub owned : source.InUse s page

  pub record IsTree (m : Tables source) : Type 0 where
    pub words : (a : ℕ) → m.memory a < 2 ^ 64
    pub frame :
        (p : List ℕ) (a : ℕ)
        → IsPath p
        → length p ≤ 3
        → table_at m.memory m.pml4 p ≡ some a
        → IsFrame m.frames a
    pub unique :
        (p q : List ℕ) (a : ℕ)
        → IsPath p
        → IsPath q
        → length p ≤ 3
        → length q ≤ 3
        → table_at m.memory m.pml4 p ≡ some a
        → table_at m.memory m.pml4 q ≡ some a
        → p ≡ q

  -- A memory that differs in the entry `i` of the table `a` at most, as far as tables in use go.
  abbrev pub SameBut : Tables source → (ℕ → ℕ) → ℕ → ℕ → Type 0
  SameBut m memory a i =
      (c j : ℕ)
      → IsFrame m.frames c
      → j < 512
      → (c ≡ a → j ≢ i)
      → entry memory c j ≡ entry m.memory c j

  pub IsPath-append : (p q : List ℕ) → IsPath (p ++ q) → IsPath p × IsPath q
  IsPath-append [] q h = (tt, h)
  IsPath-append (i ∷ p) q h = let rest = IsPath-append p q h.1 in ((h.0, rest.0), rest.1)

  -- A path that does not go through that entry leads where it led.
  pub table_at_apart :
      (m : Tables source) (memory : ℕ → ℕ) (p : List ℕ) (a i : ℕ) (path : List ℕ)
      → IsTree m
      → IsPath p
      → length p ≤ 3
      → table_at m.memory m.pml4 p ≡ some a
      → SameBut m memory a i
      → IsPath path
      → length path ≤ 4
      → starts_with (p ++ i ∷ []) path ≡ false
      → table_at memory m.pml4 path ≡ table_at m.memory m.pml4 path
  table_at_apart m memory p a i path tree good short at same good_path size apart =
      table_at_agree m.memory memory m.pml4 path (λ q rest j c split here.
        let parts = IsPath-append q (j ∷ rest) (rw (← split) good_path) in
        let count : length (q ++ j ∷ rest) ≡ length q + suc (length rest) =
          length-append q (j ∷ rest) in
        let count' : length path ≡ length q + suc (length rest) = rw (split) count in
        same c j (tree.frame q c parts.0 (omega arith) here) parts.1.0 (λ e.
          let ways : q ≡ p =
            tree.unique q p a parts.0 good (omega arith) short (rw (← e) here) at in
          starts_with-false p rest j i (rw (← ways, ← split, ways) apart)))

  -- Entries of tables in use are different words.
  pub entries_apart :
      (s : source.State) (a i c j : ℕ)
      → IsFrame s a
      → IsFrame s c
      → i < 512
      → j < 512
      → (c ≡ a → j ≢ i)
      → (c + 8 * j) ≢ (a + 8 * i)
  entries_apart s a i c j fa fc inside l apart same = elim (Bool-cases (c == a)) [
    | inl e ↦ let e' : c ≡ a = ground arith in absurd (apart e' (omega arith))
    | inr ne ↦ ground (arith, fc.at, fa.at)
  ]

  pub set_entry-SameBut :
      (m : Tables source) (a i e : ℕ)
      → IsFrame m.frames a
      → i < 512
      → SameBut m (set_entry m.memory a i e) a i
  set_entry-SameBut m a i e fa inside c j fc l apart =
      let off : ((c + 8 * j) == (a + 8 * i)) ≡ false =
        ground (arith, entries_apart m.frames a i c j fa fc inside l apart) in
      rw off refl
