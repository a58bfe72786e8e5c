-- ===== src/Console/History.antt =====
-- Any sequence of calls of the console.
use waifu_os.Prelude.{ℕ, ◌^◌, ◌<◌, Bool, List, [], ◌∷◌, arith, All}
use waifu_os.Console.Calls.{
  PrimitiveConsole, Direction, enable_cursor, disable_cursor, clear, scroll_lines, new_line,
  backspace, write, write_line, set_cursor_position, move_cursor,
}
use waifu_os.Console.Cursor.{
  InBounds, enable_cursor-InBounds, disable_cursor-InBounds, scroll_lines-InBounds,
  new_line-InBounds, backspace-InBounds, write-InBounds, move_cursor-InBounds,
}

-- The calls of the console.
pub data Call : Type 0 where
  write_call : List ℕ → ℕ → Call
  write_line_call : List ℕ → ℕ → Call
  new_line_call : ℕ → Call
  scroll_call : ℕ → Call
  backspace_call : ℕ → Bool → Call
  clear_call : ℕ → Call
  set_cursor_call : ℕ → ℕ → Call
  move_call : Direction → Call
  enable_call : Call
  disable_call : Call
  colors_call : ℕ → ℕ → Call

unfoldable pub call : PrimitiveConsole → Call → PrimitiveConsole
call c (write_call str color) = write c str color
call c (write_line_call str color) = write_line c str color
call c (new_line_call lines) = new_line c lines
call c (scroll_call lines) = scroll_lines c lines
call c (backspace_call count remove_char) = backspace c count remove_char
call c (clear_call color) = clear c color
call c (set_cursor_call x y) = set_cursor_position c x y
call c (move_call direction) = move_cursor c direction
call c enable_call = enable_cursor c
call c disable_call = disable_cursor c
call c (colors_call foreground background) = record c {
  foreground = foreground;
  background = background;
}

unfoldable pub run : PrimitiveConsole → List Call → PrimitiveConsole
run c [] = c
run c (one ∷ calls) = run (call c one) calls

-- What a call may ask for on a screen of the given size: a number of lines is a `uint`, and the
-- cursor is set to a place on the screen.
abbrev pub IsAllowed : ℕ → ℕ → Call → Type 0
IsAllowed width height (new_line_call lines) = lines < 2 ^ 32
IsAllowed width height (set_cursor_call x y) = (x < width) × (y < height)
IsAllowed width height _ = Unit {0}

call-InBounds :
    (columns rows : ℕ) (c : PrimitiveConsole) (one : Call)
    → IsAllowed columns rows one
    → InBounds columns rows c
    → InBounds columns rows (call c one)
unfolding call clear write_line set_cursor_position
call-InBounds columns rows c (write_call str color) ok on =
    write-InBounds columns rows c str color on
call-InBounds columns rows c (write_line_call str color) ok on =
    new_line-InBounds columns rows (write c str color) 1 (omega arith)
      (write-InBounds columns rows c str color on)
call-InBounds columns rows c (new_line_call lines) ok on =
    new_line-InBounds columns rows c lines ok on
call-InBounds columns rows c (scroll_call lines) ok on =
    scroll_lines-InBounds columns rows c lines on
call-InBounds columns rows c (backspace_call count remove_char) ok on =
    backspace-InBounds columns rows c count remove_char on
call-InBounds columns rows c (clear_call color) ok on = ground arith
call-InBounds columns rows c (set_cursor_call x y) ok on = ground arith
call-InBounds columns rows c (move_call direction) ok on =
    move_cursor-InBounds columns rows c direction on
call-InBounds columns rows c enable_call ok on = enable_cursor-InBounds columns rows c on
call-InBounds columns rows c disable_call ok on = disable_cursor-InBounds columns rows c on
call-InBounds columns rows c (colors_call foreground background) ok on = on

-- On a screen whose sides fit in 32 bits a cursor that is on the screen stays there over any
-- sequence of calls, where SetCursorPosition is given places on the screen and NewLine numbers of
-- 32 bits; the size of the screen stays the same.
pub run-InBounds :
    (columns rows : ℕ) (c : PrimitiveConsole) (calls : List Call)
    → All (IsAllowed columns rows) calls
    → InBounds columns rows c
    → InBounds columns rows (run c calls)
unfolding run
run-InBounds columns rows c [] ok on = on
run-InBounds columns rows c (one ∷ calls) ok on =
    run-InBounds columns rows (call c one) calls ok.1 (call-InBounds columns rows c one ok.0 on)
