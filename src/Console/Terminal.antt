-- ===== src/Console/Terminal.antt =====
-- What the console promises: a grid of characters with a place to write at. Rows and columns are
-- plain numbers here, and nothing is known of pixels.
use waifu_os.Prelude.{ℕ, ◌+◌, ◌-◌, ◌&&◌, Option, some, List, [], ◌∷◌, ltb, ◌==◌, if◌then◌else◌}

pub record Cell : Type 0 where
  pub chr : ℕ
  pub color : ℕ

-- The cell in a column and a row; none is an empty one.
abbrev pub Grid : Type 0
Grid = ℕ → ℕ → Option Cell

pub record Terminal : Type 0 where
  pub cells : Grid
  pub column : ℕ
  pub row : ℕ

abbrev pub put_cell : Grid → ℕ → ℕ → Cell → Grid
put_cell cells column row cell i j = if (i == column) && (j == row) then some cell else cells i j

-- Every row goes up by one.
abbrev pub move_up : Grid → Grid
move_up cells i j = cells i (j + 1)

module _ (columns rows : ℕ) where
  -- To the beginning of the next row; below the last one the screen scrolls.
  unfoldable pub line_feed : Terminal → Terminal
  line_feed t =
      if ltb (t.row + 1) rows
      then record t { column = 0; row = t.row + 1 }
      else record t { cells = move_up t.cells; column = 0 }

  -- A character is shown, and the place moves on.
  unfoldable pub show_char : Terminal → Cell → Terminal
  show_char t cell =
      let shown = record t { cells = put_cell t.cells t.column t.row cell } in
      if ltb (t.column + 1) columns then record shown { column = t.column + 1 } else line_feed shown

  -- One place back, up to the first one; nothing is erased.
  unfoldable pub step_back : Terminal → Terminal
  step_back t =
      if ltb 0 t.column
      then record t { column = t.column - 1 }
      else if ltb 0 t.row
      then record t { column = columns - 1; row = t.row - 1 }
      else t

  unfoldable pub type_char : Terminal → ℕ → ℕ → Terminal
  type_char t chr color =
      let space : Terminal → Terminal = λ t. show_char t (record { chr = 0x20; color = color }) in
      if chr == b'\n'
      then line_feed t
      else if chr == 0x08
      then step_back t
      else if chr == 0
      then t
      else if chr == b'\t'
      then space (space (space (space t)))
      else show_char t (record { chr = chr; color = color })

  unfoldable pub type_text : Terminal → List ℕ → ℕ → Terminal
  type_text t [] color = t
  type_text t (chr ∷ str) color = type_text (type_char t chr color) str color
