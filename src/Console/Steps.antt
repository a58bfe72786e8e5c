-- ===== src/Console/Steps.antt =====
-- The branches of `WriteChar`, `NewLine` and `Backspace` with the cursor switched off, as updates of
-- the console.
use waifu_os.Prelude.{ℕ, ◌≡◌, refl, true, false, ◌||◌, ◌==◌, u32, add64, sub64}
use waifu_os.Prelude.Loops.{for_range}
use waifu_os.Console.Pixels.{below_zero, less64, put_char, scroll_pixels, clear_pixels}
use waifu_os.Console.Calls.{
  PrimitiveConsole, update_cursor, clear, scroll_down, scroll_lines, scroll_below, new_line,
  back_over, back_one, back_round, backspace, advance, place_char, draw_char,
}

update_cursor_off : (c : PrimitiveConsole) → c.cursor_enabled ≡ false → update_cursor c ≡ c
unfolding update_cursor
update_cursor_off c off = rw off refl

-- The three ways of `WriteChar`.
pub draw_char_along :
    (c : PrimitiveConsole) (chr color : ℕ)
    → c.cursor_enabled ≡ false
    → less64 (add64 c.x 1) c.width ≡ true
    → draw_char c chr color ≡ record c {
      x = add64 c.x 1;
      frame_buffer = put_char c.frame_buffer c.font chr color c.background c.x c.y;
    }
unfolding draw_char advance place_char
draw_char_along c chr color off here =
    rw here (rw (update_cursor_off (record c { x = add64 c.x 1 }) off) refl)

pub draw_char_below :
    (c : PrimitiveConsole) (chr color : ℕ)
    → c.cursor_enabled ≡ false
    → less64 (add64 c.x 1) c.width ≡ false
    → less64 (sub64 c.height 1) (add64 c.y 1) ≡ false
    → draw_char c chr color ≡ record c {
      x = 0;
      y = add64 c.y 1;
      frame_buffer = put_char c.frame_buffer c.font chr color c.background c.x c.y;
    }
unfolding draw_char advance place_char
draw_char_below c chr color off full more =
    rw (full, more) (rw (update_cursor_off (record c { x = 0; y = add64 c.y 1 }) off) refl)

pub draw_char_scrolled :
    (c : PrimitiveConsole) (chr color : ℕ)
    → c.cursor_enabled ≡ false
    → less64 (add64 c.x 1) c.width ≡ false
    → less64 (sub64 c.height 1) (add64 c.y 1) ≡ true
    → draw_char c chr color ≡ record c {
      x = 0;
      y = sub64 c.height 1;
      frame_buffer =
          scroll_pixels c.font c.background
            (put_char c.frame_buffer c.font chr color c.background c.x c.y);
    }
unfolding draw_char advance place_char scroll_down
draw_char_scrolled c chr color off full last =
    rw (full, last) (rw (update_cursor_off (record c { x = 0; y = sub64 c.height 1 }) off) refl)

-- The three ways of `NewLine`.
pub new_line_below :
    (c : PrimitiveConsole)
    → c.cursor_enabled ≡ false
    → less64 (sub64 c.height 1) (add64 c.y 1) ≡ false
    → new_line c 1 ≡ record c { x = 0; y = add64 c.y 1 }
unfolding new_line scroll_below
new_line_below c off more = rw (off, more) refl

pub new_line_scrolled :
    (c : PrimitiveConsole)
    → c.cursor_enabled ≡ false
    → less64 (sub64 c.height 1) (add64 c.y 1) ≡ true
    → u32 (sub64 (add64 c.y 1) (sub64 c.height 1)) ≡ 1
    → less64 1 c.height ≡ true
    → new_line c 1 ≡ record c {
      x = 0;
      y = sub64 c.height 1;
      frame_buffer = scroll_pixels c.font c.background c.frame_buffer;
    }
unfolding new_line scroll_below scroll_lines scroll_down for_range
new_line_scrolled c off last one many = rw (off, last, one, many) refl

pub new_line_cleared :
    (c : PrimitiveConsole)
    → c.cursor_enabled ≡ false
    → less64 (sub64 c.height 1) (add64 c.y 1) ≡ true
    → u32 (sub64 (add64 c.y 1) (sub64 c.height 1)) ≡ 1
    → less64 1 c.height ≡ false
    → new_line c 1 ≡ record c {
      x = 0;
      y = sub64 c.height 1;
      frame_buffer = clear_pixels c.background c.frame_buffer;
    }
unfolding new_line scroll_below scroll_lines clear
new_line_cleared c off last one single = rw (off, last, one, single) refl

-- The three ways of `Backspace` by one.
pub backspace_along :
    (c : PrimitiveConsole)
    → c.cursor_enabled ≡ false
    → ((c.x == 0) || below_zero c.x) ≡ false
    → below_zero (sub64 c.x 1) ≡ false
    → backspace c 1 false ≡ record c { x = sub64 c.x 1 }
unfolding backspace back_round back_over back_one for_range
backspace_along c off inside right =
    rw (inside, right) (update_cursor_off (record c { x = sub64 c.x 1 }) off)

pub backspace_up :
    (c : PrimitiveConsole)
    → c.cursor_enabled ≡ false
    → ((c.x == 0) || below_zero c.x) ≡ true
    → below_zero (sub64 c.y 1) ≡ false
    → below_zero (sub64 c.width 1) ≡ false
    → backspace c 1 false ≡ record c { x = sub64 c.width 1; y = sub64 c.y 1 }
unfolding backspace back_round back_over back_one for_range
backspace_up c off first above right =
    rw (first, above, right)
      (update_cursor_off (record c { x = sub64 c.width 1; y = sub64 c.y 1 }) off)

pub backspace_corner :
    (c : PrimitiveConsole)
    → c.cursor_enabled ≡ false
    → ((c.x == 0) || below_zero c.x) ≡ true
    → below_zero (sub64 c.y 1) ≡ true
    → backspace c 1 false ≡ record c { x = 0; y = 0 }
unfolding backspace back_round back_over back_one for_range
backspace_corner c off first top =
    rw (first, top) (update_cursor_off (record c { x = 0; y = 0 }) off)
