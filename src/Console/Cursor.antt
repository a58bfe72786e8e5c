-- ===== src/Console/Cursor.antt =====
-- Each call of the console leaves the cursor on the screen of the given size.
use waifu_os.Prelude.{
  ℕ, ◌^◌, ◌<◌, ◌≡◌, sym, Bool, true, false, List, [], ◌∷◌, arith, ◌==◌, if◌then◌else◌, u32, add64,
  sub64,
}
use mathlib.Core.Path.{subst}
use waifu_os.Prelude.Loops.{for_range, for_range_inv}
use waifu_os.Console.Calls.{
  PrimitiveConsole, Direction, up, down, left, right, update_cursor, enable_cursor, disable_cursor,
  scroll_down, scroll_lines, scroll_below, new_line, back_over, back_one, back_round, backspace,
  advance, place_char, draw_char, write_char, write, move_cursor,
}
use waifu_os.Console.Place.{
  Place, place, if-both, place-update_cursor, place-enable_cursor, place-disable_cursor,
  place-scroll_lines,
}

module _ (columns rows : ℕ) where
  -- The cursor is on the screen, whose sides fit in 32 bits.
  pub record IsOn (p : Place) : Type 0 where
    pub wide : p.width ≡ columns
    pub high : p.height ≡ rows
    pub narrow : columns < 2 ^ 32
    pub low : rows < 2 ^ 32
    pub across : p.x < columns
    pub down : p.y < rows

  abbrev pub InBounds : PrimitiveConsole → Type 0
  InBounds c = IsOn (place c)

  stay : (c d : PrimitiveConsole) → place d ≡ place c → InBounds c → InBounds d
  stay c d same on = subst IsOn (sym same) on

  pub update_cursor-InBounds : (c : PrimitiveConsole) → InBounds c → InBounds (update_cursor c)
  update_cursor-InBounds c on = stay c (update_cursor c) (place-update_cursor c) on

  pub enable_cursor-InBounds : (c : PrimitiveConsole) → InBounds c → InBounds (enable_cursor c)
  enable_cursor-InBounds c on = stay c (enable_cursor c) (place-enable_cursor c) on

  pub disable_cursor-InBounds : (c : PrimitiveConsole) → InBounds c → InBounds (disable_cursor c)
  disable_cursor-InBounds c on = stay c (disable_cursor c) (place-disable_cursor c) on

  pub scroll_lines-InBounds :
      (c : PrimitiveConsole) (lines : ℕ) → InBounds c → InBounds (scroll_lines c lines)
  scroll_lines-InBounds c lines on = ground (arith, place-scroll_lines c lines)

  -- The cursor is in the first column of a screen, perhaps below its last line.
  record IsBelow (p : Place) : Type 0 where
    wide : p.width ≡ columns
    high : p.height ≡ rows
    narrow : columns < 2 ^ 32
    low : rows < 2 ^ 32
    first : p.x ≡ 0
    some_columns : 0 < columns
    some_rows : 0 < rows
    down : p.y < 2 ^ 34

  scroll_below-InBounds : (c : PrimitiveConsole) → IsBelow (place c) → InBounds (scroll_below c)
  unfolding scroll_below
  scroll_below-InBounds c below =
      ground (arith, place-scroll_lines c (u32 (sub64 c.y (sub64 c.height 1))))

  pub new_line-InBounds :
      (c : PrimitiveConsole) (lines : ℕ) → lines < 2 ^ 32 → InBounds c → InBounds (new_line c lines)
  unfolding new_line
  new_line-InBounds c lines few on =
      let moved : PrimitiveConsole = record c { x = 0; y = add64 c.y lines } in
      let ready : IsBelow (place moved) = ground arith in
      let shut =
        if-both (λ d. IsBelow (place d)) c.cursor_enabled (disable_cursor moved) moved
          (subst IsBelow (sym (place-disable_cursor moved)) ready) ready in
      let below = if c.cursor_enabled then disable_cursor moved else moved in
      let scrolled = scroll_below-InBounds below shut in
      if-both InBounds c.cursor_enabled (enable_cursor (scroll_below below)) (scroll_below below)
        (enable_cursor-InBounds (scroll_below below) scrolled) scrolled

  back_one-InBounds : (c : PrimitiveConsole) → InBounds c → InBounds (back_one (back_over c))
  unfolding back_one back_over
  back_one-InBounds c on = ground arith

  back_round-InBounds :
      (remove_char : Bool) (c : PrimitiveConsole) → InBounds c → InBounds (back_round remove_char c)
  unfolding back_round
  back_round-InBounds true c on = back_one-InBounds c on
  back_round-InBounds false c on = back_one-InBounds c on

  pub backspace-InBounds :
      (c : PrimitiveConsole) (count : ℕ) (remove_char : Bool)
      → InBounds c
      → InBounds (backspace c count remove_char)
  unfolding backspace
  backspace-InBounds c count remove_char on =
      update_cursor-InBounds (for_range count 0 (λ _. back_round remove_char) c) (
        for_range_inv InBounds (λ _. back_round remove_char) (λ k. back_round-InBounds remove_char)
          count 0 c on)

  advance-InBounds : (c : PrimitiveConsole) → InBounds c → InBounds (advance c).0
  unfolding advance
  advance-InBounds c on = ground arith

  place_char-InBounds :
      (chr color at_x at_y : ℕ) (should_scroll : Bool) (c : PrimitiveConsole)
      → InBounds c
      → InBounds (place_char chr color at_x at_y should_scroll c)
  unfolding place_char scroll_down
  place_char-InBounds chr color at_x at_y true c on = on
  place_char-InBounds chr color at_x at_y false c on = on

  draw_char-InBounds :
      (c : PrimitiveConsole) (chr color : ℕ) → InBounds c → InBounds (draw_char c chr color)
  unfolding draw_char
  draw_char-InBounds c chr color on =
      place_char-InBounds chr color c.x c.y (advance c).1 (update_cursor (advance c).0)
        (update_cursor-InBounds (advance c).0 (advance-InBounds c on))

  write_char-InBounds :
      (c : PrimitiveConsole) (chr color : ℕ) → InBounds c → InBounds (write_char c chr color)
  unfolding write_char
  write_char-InBounds c chr color on =
      if-both InBounds (chr == b'\n') _ _ (new_line-InBounds c 1 (omega arith) on) (
        if-both InBounds (chr == 0x08) _ _ (backspace-InBounds c 1 false on) (
          if-both InBounds (chr == 0) c _ on (
            if-both InBounds (chr == b'\t') _ _
              (for_range_inv InBounds (λ _ d. draw_char d 0x20 color)
                (λ k d. draw_char-InBounds d 0x20 color) 4 0 c on)
              (draw_char-InBounds c chr color on))))

  pub write-InBounds :
      (c : PrimitiveConsole) (str : List ℕ) (color : ℕ) → InBounds c → InBounds (write c str color)
  unfolding write
  write-InBounds c [] color on = on
  write-InBounds c (chr ∷ str) color on =
      write-InBounds (write_char c chr color) str color (write_char-InBounds c chr color on)

  pub move_cursor-InBounds :
      (c : PrimitiveConsole) (d : Direction) → InBounds c → InBounds (move_cursor c d)
  unfolding move_cursor
  move_cursor-InBounds c up on = ground arith
  move_cursor-InBounds c down on = ground arith
  move_cursor-InBounds c left on = ground arith
  move_cursor-InBounds c right on = ground arith
