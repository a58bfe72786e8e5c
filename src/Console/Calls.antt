-- ===== src/Console/Calls.antt =====
-- Kernel/src/PrimitiveConsole.cpp: the console with its cursor, and its calls.
use waifu_os.Prelude.{
  ℕ, ◌+◌, ◌*◌, ◌/◌, ◌%◌, Bool, true, false, not, ◌&&◌, ◌||◌, List, [], ◌∷◌, ltb, leb, ◌==◌,
  if◌then◌else◌, u8, u32, add64, sub64, mul64, ◌>>>◌,
}
use waifu_os.Prelude.Loops.{for_range}
use waifu_os.Console.Pixels.{
  FrameBuffer, Font, below_zero, less64, poke, write_pixel, read_pixel, glyph_bit, put_char,
  scroll_pixels, clear_pixels,
}

-- `class PrimitiveConsole`; the points are split into their coordinates.
pub record PrimitiveConsole : Type 0 where
  pub frame_buffer : FrameBuffer
  pub font : Font
  pub width : ℕ
  pub height : ℕ
  pub x : ℕ
  pub y : ℕ
  pub previous_x : ℕ
  pub previous_y : ℕ
  pub has_drawn_cursor : Bool
  pub cursor_enabled : Bool
  pub foreground : ℕ
  pub background : ℕ
  pub cursor_buffer : ℕ → ℕ
  pub previous_cursor_buffer : ℕ → ℕ

-- `mCursorBuffer`
abbrev pub cursor_shape : ℕ → ℕ
cursor_shape row = if leb 13 row && ltb row 16 then 0xFF else 0

-- The constructor with a frame buffer and a font that are not null.
unfoldable pub new_console : FrameBuffer → Font → PrimitiveConsole
new_console fb font = record {
  frame_buffer = fb;
  font = font;
  width = fb.pixels_per_scanline / (font.charsize >>> 1);
  height = fb.height / font.charsize;
  x = 0;
  y = 0;
  previous_x = 0;
  previous_y = 0;
  has_drawn_cursor = false;
  cursor_enabled = false;
  foreground = 0xFFFFFFFF;
  background = 0xFF080808;
  cursor_buffer = cursor_shape;
  previous_cursor_buffer = λ _. 0;
}

-- `mCursorBuffer[bite] & (0b10000000 >> (x % 8))`
abbrev pub cursor_bit : PrimitiveConsole → ℕ → ℕ → Bool
cursor_bit c x y = glyph_bit (c.cursor_buffer (u8 ((y * 8 + x) / 8))) (x % 8)

-- One pixel of the old cursor is put back.
unfoldable pub restore_pixel : PrimitiveConsole → ℕ → ℕ → ℕ → ℕ → FrameBuffer → FrameBuffer
restore_pixel c old_x old_y y x fb =
    if cursor_bit c x y
    then write_pixel fb (add64 old_x x) (add64 old_y y) (c.previous_cursor_buffer (x + y * 8))
    else fb

-- The block `if (HasDrawnCursor)`, the same in `UpdateCursor` and `DisableCursor`.
unfoldable pub restore_cursor : PrimitiveConsole → PrimitiveConsole
restore_cursor c =
    let old_x = mul64 c.previous_x (c.font.charsize >>> 1) in
    let old_y = mul64 c.previous_y c.font.charsize in
    if c.has_drawn_cursor
    then record c {
      frame_buffer =
          for_range c.font.charsize 0
            (λ y. for_range (c.font.charsize >>> 1) 0 (restore_pixel c old_x old_y y))
            c.frame_buffer;
    }
    else c

-- One pixel is saved, and drawn where the shape of the cursor has a bit.
unfoldable pub draw_pixel : ℕ → ℕ → ℕ → ℕ → PrimitiveConsole → PrimitiveConsole
draw_pixel pos_x pos_y y x c = record c {
  frame_buffer =
      if cursor_bit c x y
      then write_pixel c.frame_buffer (add64 pos_x x) (add64 pos_y y) c.foreground
      else c.frame_buffer;
  previous_cursor_buffer =
      poke c.previous_cursor_buffer (x + y * 8)
        (read_pixel c.frame_buffer (add64 pos_x x) (add64 pos_y y));
}

unfoldable pub draw_cursor : ℕ → ℕ → PrimitiveConsole → PrimitiveConsole
draw_cursor pos_x pos_y c = for_range 16 0 (λ y. for_range 8 0 (draw_pixel pos_x pos_y y)) c

-- `UpdateCursor`
unfoldable pub update_cursor : PrimitiveConsole → PrimitiveConsole
update_cursor c =
    let pos_x = mul64 c.x (c.font.charsize >>> 1) in
    let pos_y = mul64 c.y c.font.charsize in
    let restored = restore_cursor c in
    let drawn = draw_cursor pos_x pos_y (record restored { previous_x = c.x; previous_y = c.y }) in
    if c.cursor_enabled then record drawn { has_drawn_cursor = true } else c

-- `EnableCursor`
unfoldable pub enable_cursor : PrimitiveConsole → PrimitiveConsole
enable_cursor c = update_cursor (record c { cursor_enabled = true; has_drawn_cursor = false })

-- `DisableCursor`
unfoldable pub disable_cursor : PrimitiveConsole → PrimitiveConsole
disable_cursor c = record (restore_cursor c) { cursor_enabled = false; has_drawn_cursor = false }

-- `Clear`
unfoldable pub clear : PrimitiveConsole → ℕ → PrimitiveConsole
clear c color = record c { frame_buffer = clear_pixels color c.frame_buffer; x = 0; y = 0 }

-- `ScrollDown()`
unfoldable pub scroll_down : PrimitiveConsole → PrimitiveConsole
scroll_down c = record c { frame_buffer = scroll_pixels c.font c.background c.frame_buffer }

-- `ScrollDown(uint lines)`
unfoldable pub scroll_lines : PrimitiveConsole → ℕ → PrimitiveConsole
scroll_lines c lines =
    if lines == 0
    then c
    else if not (less64 lines c.height)
    then clear c c.background
    else for_range lines 0 (λ _. scroll_down) c

-- `mCursorPosition.Y > this->mHeight - 1` in `NewLine`
unfoldable pub scroll_below : PrimitiveConsole → PrimitiveConsole
scroll_below c =
    let last = sub64 c.height 1 in
    if less64 last c.y then record (scroll_lines c (u32 (sub64 c.y last))) { y = last } else c

-- `NewLine`
unfoldable pub new_line : PrimitiveConsole → ℕ → PrimitiveConsole
new_line c lines =
    let moved = record c { x = 0; y = add64 c.y lines } in
    let scrolled = scroll_below (if c.cursor_enabled then disable_cursor moved else moved) in
    if c.cursor_enabled then enable_cursor scrolled else scrolled

-- `mCursorPosition.X <= 0` in `Backspace`
unfoldable pub back_over : PrimitiveConsole → PrimitiveConsole
back_over c =
    let y' = sub64 c.y 1 in
    if (c.x == 0) || below_zero c.x
    then if below_zero y' then record c { x = 1; y = 0 } else record c { x = c.width; y = y' }
    else c

-- `mCursorPosition.X -= 1` with the test that follows
unfoldable pub back_one : PrimitiveConsole → PrimitiveConsole
back_one c =
    let x' = sub64 c.x 1 in
    let y' = sub64 c.y 1 in
    if below_zero x'
    then if below_zero y' then record c { x = 0; y = 0 } else record c { x = c.width; y = y' }
    else record c { x = x' }

-- One round of the loop of `Backspace`.
unfoldable pub back_round : Bool → PrimitiveConsole → PrimitiveConsole
back_round remove_char c =
    let moved = back_one (back_over c) in
    if remove_char
    then record moved {
      frame_buffer =
          put_char moved.frame_buffer moved.font 0x20 moved.foreground moved.background moved.x
            moved.y;
    }
    else moved

-- `Backspace`
unfoldable pub backspace : PrimitiveConsole → ℕ → Bool → PrimitiveConsole
backspace c count remove_char = update_cursor (for_range count 0 (λ _. back_round remove_char) c)

-- The cursor moves on by one in `WriteChar`; the test is `shouldScroll`.
unfoldable pub advance : PrimitiveConsole → PrimitiveConsole × Bool
advance c =
    let x' = add64 c.x 1 in
    let y' = add64 c.y 1 in
    let last = sub64 c.height 1 in
    if not (less64 x' c.width)
    then if less64 last y'
      then (record c { x = 0; y = last }, true)
      else (record c { x = 0; y = y' }, false)
    else (record c { x = x' }, false)

-- The end of `WriteChar`: `PutChar` at the old place, and the scrolling.
unfoldable pub place_char : ℕ → ℕ → ℕ → ℕ → Bool → PrimitiveConsole → PrimitiveConsole
place_char chr color at_x at_y should_scroll c =
    let shown = record c {
      frame_buffer = put_char c.frame_buffer c.font chr color c.background at_x at_y;
    } in
    if should_scroll then scroll_down shown else shown

-- `WriteChar` of a character that is drawn.
unfoldable pub draw_char : PrimitiveConsole → ℕ → ℕ → PrimitiveConsole
draw_char c chr color =
    let (moved, should_scroll) = advance c in
    place_char chr color c.x c.y should_scroll (update_cursor moved)

-- `WriteChar`; the text of a tab is four spaces, each of which is drawn.
unfoldable pub write_char : PrimitiveConsole → ℕ → ℕ → PrimitiveConsole
write_char c chr color =
    if chr == b'\n'
    then new_line c 1
    else if chr == 0x08
    then backspace c 1 false
    else if chr == 0
    then c
    else if chr == b'\t'
    then for_range 4 0 (λ _ c. draw_char c 0x20 color) c
    else draw_char c chr color

-- `Write`; the text is what stands before its zero.
unfoldable pub write : PrimitiveConsole → List ℕ → ℕ → PrimitiveConsole
write c [] color = c
write c (chr ∷ str) color = write (write_char c chr color) str color

-- `WriteLine`
unfoldable pub write_line : PrimitiveConsole → List ℕ → ℕ → PrimitiveConsole
write_line c str color = new_line (write c str color) 1

-- `SetCursorPosition`
unfoldable pub set_cursor_position : PrimitiveConsole → ℕ → ℕ → PrimitiveConsole
set_cursor_position c x y = record c { x = x; y = y }

pub data Direction : Type 0 where
  up down left right : Direction

-- `MoveCursor`
unfoldable pub move_cursor : PrimitiveConsole → Direction → PrimitiveConsole
move_cursor c up = if less64 0 c.y then record c { y = sub64 c.y 1 } else record c { y = 0; x = 0 }
move_cursor c down =
    if less64 c.y (sub64 c.height 1)
    then record c { y = add64 c.y 1 }
    else record c { y = sub64 c.height 1 }
move_cursor c left =
    if less64 0 c.x
    then record c { x = sub64 c.x 1 }
    else if less64 0 c.y
    then record c { y = sub64 c.y 1; x = sub64 c.width 1 }
    else record c { x = 0; y = 0 }
move_cursor c right =
    if less64 c.x (sub64 c.width 1)
    then record c { x = add64 c.x 1 }
    else if less64 c.y (sub64 c.height 1)
    then record c { y = add64 c.y 1; x = 0 }
    else record c { x = sub64 c.width 1; y = sub64 c.height 1 }
