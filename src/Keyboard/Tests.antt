-- ===== src/Keyboard/Tests.antt =====
-- A keyboard before a screen of two columns and two rows.
use waifu_os.Prelude.{
  ℕ, ◌%◌, ◌≡◌, refl, inl, inr, false, none, some, List, [], ◌∷◌, arith, ◌==◌, if◌then◌else◌,
}
use waifu_os.Console.Pixels.{FrameBuffer, Font}
use waifu_os.Console.Calls.{PrimitiveConsole, new_console, clear}
use waifu_os.Console.Terminal.{type_text}
use waifu_os.Console.Refinement.{Shows, new_console-Shows}
use waifu_os.Keyboard.Events.{
  Keyboard, goes_on, past_table, key_event, key_down_event, set_key_state, press, write_key,
  write_entry,
}
use waifu_os.Keyboard.Tables.{key_table, shift_key_table}
use waifu_os.Keyboard.Commands.{send_command, answer, send_command_lem}
use waifu_os.Keyboard.Board.{Board, step, after, event_text, typed_text}
use waifu_os.Keyboard.Follows.{Follows}
use waifu_os.Keyboard.Typing.{run_keys, run_keys-Typed}

abbrev font : Font
font = record { charsize = 4; glyph = λ i. if i % 4 == 0 then 0xC0 else 0 }

abbrev frame : FrameBuffer
frame = record { height = 8; pixels_per_scanline = 4; pixel = λ i. i }

abbrev console : PrimitiveConsole
console = clear (record (new_console frame font) { background = 7; foreground = 1 }) 7

abbrev keyboard : Keyboard
keyboard = record {
  resend_count = 0;
  cmd_response = 0;
  prev_command = 0;
  sending_command = false;
  l_shift = false;
  r_shift = false;
  l_control = false;
  r_control = false;
  l_alt = false;
  r_alt = false;
  caps_lock = false;
  num_lock = false;
  key_state = λ _. false;
  console = console;
  sent = [];
}

abbrev board : Board
board = record { down = λ _. false; caps = false }

-- Shift is pressed, A pressed and released, Shift released, then S, Enter, and a tab.
abbrev events : List ℕ
events = 0x2A ∷ 0x1E ∷ 0x9E ∷ 0xAA ∷ 0x1F ∷ 0x1C ∷ 0x0F ∷ []

events_text : typed_text board events ≡ b'A' ∷ b's' ∷ b'\n' ∷ b'\t' ∷ []
unfolding typed_text event_text step key_table shift_key_table
events_text = refl

-- The scan code 0x5B of the left Windows key has no place in the tables.
windows_key : key_event keyboard 0x5B 0 ≡ past_table
unfolding key_event key_down_event set_key_state press write_key write_entry key_table
windows_key = refl

run_keys-Typed_example :
    (k' : Keyboard) × (run_keys keyboard events ≡ goes_on k')
    × Follows k' (after board events)
    × Shows 4 8 font 7 1 k'.console (
        type_text 2 2
          (record { cells = λ i j. none; column = 0; row = 0 })
          (typed_text board events)
          1)
run_keys-Typed_example =
    run_keys-Typed 4 8 font 7 1 keyboard board (record { cells = λ i j. none; column = 0; row = 0 })
      events
      (
        inl (omega arith, omega arith),
        (
          inl (omega arith, omega arith),
          (
            inr (omega arith, omega arith),
            (
              inr (omega arith, omega arith),
              (
                inl (omega arith, omega arith),
                (inl (omega arith, omega arith), (inl (omega arith, omega arith), tt)),
              ),
            ),
          ),
        ),
      )
      (record {
        idle = refl;
        keys = λ j. refl;
        l_shift = refl;
        r_shift = refl;
        l_control = refl;
        no_r_control = refl;
        l_alt = refl;
        no_r_alt = refl;
        caps = refl;
      })
      (new_console-Shows 4 8 font 7 1 frame
        (record { narrow = omega arith; low = omega arith; wide = refl; high = refl }) (omega arith)
        (omega arith) (omega arith) (omega arith))

send_command_lem_example :
    (k' : Keyboard) × (send_command keyboard 0xED (1 ∷ 2 ∷ []) 2 ((0xFA, 0) ∷ [])
      ≡ some (k', answer 0xFA 0))
    × (k'.sent ≡ 0xED ∷ [])
    × (k'.sending_command ≡ false)
send_command_lem_example = send_command_lem keyboard 0xED (1 ∷ 2 ∷ []) 2 0xFA 0 []
