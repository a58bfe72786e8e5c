-- ===== src/Keyboard/Layout.antt =====
-- The four tables of characters against the layout of a keyboard: Caps Lock changes the case of
-- letters and nothing else.
use waifu_os.Prelude.{
  ℕ, ◌+◌, ◌-◌, ◌<◌, ◌≡◌, refl, inl, inr, Bool, true, false, ◌&&◌, none, some, List, arith, ltb, leb,
  ◌==◌, if◌then◌else◌, Option-cases, get_elem?, get_or,
}
use waifu_os.Prelude.Loops.{every_below, every_below-true}
use waifu_os.Keyboard.Tables.{key_table, shift_key_table, caps_key_table, caps_shift_key_table}

abbrev pub flip_case : ℕ → ℕ
flip_case chr =
    if leb b'a' chr && ltb chr (b'z' + 1)
    then chr - 32
    else if leb b'A' chr && ltb chr (b'Z' + 1)
    then chr + 32
    else chr

-- The character of a key.
abbrev pub layout : Bool → Bool → ℕ → ℕ
layout shift caps sc =
    let base = get_or (if shift then shift_key_table else key_table) sc 0 in
    if caps then flip_case base else base

-- `table[sc]` is there, and is the character of the layout.
has_layout : List ℕ → Bool → Bool → ℕ → Bool
has_layout table shift caps sc = elim (get_elem? table sc) [
  | some chr ↦ chr == layout shift caps sc
  | none ↦ false
]

unfoldable pub chosen_table : Bool → Bool → List ℕ
chosen_table false false = key_table
chosen_table true false = shift_key_table
chosen_table false true = caps_key_table
chosen_table true true = caps_shift_key_table

tables_checked :
    (shift caps : Bool) → every_below 0x59 (has_layout (chosen_table shift caps) shift caps) ≡ true
unfolding every_below has_layout chosen_table key_table shift_key_table caps_key_table
    caps_shift_key_table
tables_checked false false = refl
tables_checked true false = refl
tables_checked false true = refl
tables_checked true true = refl

layout_of :
    (table : List ℕ) (shift caps : Bool) (sc : ℕ)
    → has_layout table shift caps sc ≡ true
    → get_elem? table sc ≡ some (layout shift caps sc)
unfolding has_layout
layout_of table shift caps sc found = elim (Option-cases (get_elem? table sc)) [
  | inl missing ↦ absurd (ground (arith, missing, found))
  | inr (chr, there) ↦ ground (arith, there, found)
]

pub get_elem?-chosen_table :
    (shift caps : Bool) (sc : ℕ)
    → sc < 0x59
    → get_elem? (chosen_table shift caps) sc ≡ some (layout shift caps sc)
get_elem?-chosen_table shift caps sc inside = layout_of (chosen_table shift caps) shift caps sc (
    every_below-true 0x59 (has_layout (chosen_table shift caps) shift caps) sc
      (tables_checked shift caps) inside)
