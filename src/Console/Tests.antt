-- ===== src/Console/Tests.antt =====
-- A screen of two columns and two rows of characters, each two pixels wide and four high.
use waifu_os.Prelude.{ℕ, ◌%◌, true, none, List, [], ◌∷◌, arith, ◌==◌, if◌then◌else◌}
use waifu_os.Console.Pixels.{FrameBuffer, Font}
use waifu_os.Console.Calls.{PrimitiveConsole, right, new_console, clear, write}
use waifu_os.Console.Cursor.{InBounds}
use waifu_os.Console.History.{
  Call, write_call, new_line_call, backspace_call, set_cursor_call, move_call, enable_call, run,
  run-InBounds,
}
use waifu_os.Console.Terminal.{Terminal, type_text}
use waifu_os.Console.Refinement.{Shows, new_console-Shows, write-Shows}

-- A character has its upper half lit.
abbrev font : Font
font = record { charsize = 4; glyph = λ i. if i % 4 == 0 then 0xC0 else 0 }

abbrev frame : FrameBuffer
frame = record { height = 9; pixels_per_scanline = 5; pixel = λ i. i }

abbrev console : PrimitiveConsole
console = record (new_console frame font) { background = 7; foreground = 1 }

abbrev calls : List Call
calls =
    write_call (b'a' ∷ b'\t' ∷ b'b' ∷ []) 1
    ∷ set_cursor_call 1 1
    ∷ move_call right
    ∷ enable_call
    ∷ new_line_call 3
    ∷ backspace_call 5 true
    ∷ []

run-InBounds_example : InBounds 2 2 (run console calls)
unfolding new_console
run-InBounds_example = run-InBounds 2 2 console calls (omega arith) (omega arith)

abbrev empty : Terminal
empty = record { cells = λ i j. none; column = 0; row = 0 }

abbrev text : List ℕ
text = b'a' ∷ b'b' ∷ b'c' ∷ b'\n' ∷ b'd' ∷ []

write-Shows_example :
    Shows 5 9 font 7 1 (write (clear console 7) text 1) (type_text 2 2 empty text 1)
write-Shows_example = write-Shows 5 9 font 7 1 (clear console 7) empty text 1 (
    new_console-Shows 5 9 font 7 1 frame (omega arith) (omega arith) (omega arith) (omega arith)
      (omega arith))
