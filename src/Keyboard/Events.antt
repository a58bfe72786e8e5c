-- ===== src/Keyboard/Events.antt =====
-- Kernel/src/IO/Keyboard.cpp: the handler of key events and the sending of commands. Bytes are
-- numbers; what the keyboard sends is given to `key_event`, and what is sent to it is kept.
use waifu_os.Prelude.{
  ℕ, ◌+◌, bit_and, Bool, true, false, not, ◌&&◌, ◌||◌, Option, none, some, List, [], ◌∷◌, ◌++◌, ltb,
  ◌==◌, if◌then◌else◌, get_elem?, u8, ◌<<<◌,
}
use waifu_os.Console.Calls.{PrimitiveConsole, write_char, clear}
use waifu_os.Keyboard.Tables.{key_table, shift_key_table, caps_key_table, caps_shift_key_table}

-- The variables of the namespace, with `gConsole`; `sent` are the bytes written to the port.
pub record Keyboard : Type 0 where
  pub resend_count : ℕ
  pub cmd_response : ℕ
  pub prev_command : ℕ
  pub sending_command : Bool
  pub l_shift : Bool
  pub r_shift : Bool
  pub l_control : Bool
  pub r_control : Bool
  pub l_alt : Bool
  pub r_alt : Bool
  pub caps_lock : Bool
  pub num_lock : Bool
  pub key_state : ℕ → Bool
  pub console : PrimitiveConsole
  pub sent : List ℕ

-- How an event ends: the kernel goes on, it raises a machine check, which does not return, or it
-- reads behind a table of characters.
pub data Outcome : Type 0 where
  goes_on : Keyboard → Outcome
  machine_check past_table : Outcome

-- `enum PS2Key1`, the keys that the handlers name.
abbrev pub escape_key : ℕ
escape_key = 0x01

abbrev pub backspace_key : ℕ
backspace_key = 0x0E

abbrev pub l_control_key : ℕ
l_control_key = 0x1D

abbrev pub l_shift_key : ℕ
l_shift_key = 0x2A

abbrev pub r_shift_key : ℕ
r_shift_key = 0x36

abbrev pub l_alt_key : ℕ
l_alt_key = 0x38

abbrev pub caps_lock_key : ℕ
caps_lock_key = 0x3A

abbrev pub f12_key : ℕ
f12_key = 0x58

-- `GetKeyState`
unfoldable pub get_key_state : Keyboard → ℕ → Bool
get_key_state k key = k.key_state (bit_and key 0x7F)

abbrev pub update : (ℕ → Bool) → ℕ → Bool → ℕ → Bool
update keys key state j = if j == key then state else keys j

-- `SetKeyState`
unfoldable pub set_key_state : Keyboard → ℕ → Bool → Keyboard
set_key_state k key state = record k { key_state = update k.key_state (bit_and key 0x7F) state }

-- The `switch` of `KeyUpEvent`.
unfoldable pub release_modifier : Keyboard → ℕ → Keyboard
release_modifier k sc =
    if sc == l_shift_key
    then record k { l_shift = false }
    else if sc == r_shift_key
    then record k { r_shift = false }
    else if sc == l_control_key
    then record k { l_control = false }
    else if sc == l_alt_key
    then record k { l_alt = false }
    else k

-- `KeyUpEvent`
unfoldable pub key_up_event : Keyboard → ℕ → Keyboard
key_up_event k sc = release_modifier (set_key_state k sc false) sc

-- `gConsole.WriteChar(chr)`, in the colour of the console.
abbrev pub type_byte : PrimitiveConsole → ℕ → PrimitiveConsole
type_byte c chr = write_char c chr c.foreground

-- `table[sc]`, which is written to the console.
unfoldable pub write_entry : Keyboard → List ℕ → ℕ → Outcome
write_entry k table sc = elim (get_elem? table sc) [
  | some chr ↦ goes_on (record k { console = type_byte k.console chr })
  | none ↦ past_table
]

-- The end of `KeyDownEvent`: the table for the state of Shift and Caps Lock.
unfoldable pub write_key : Keyboard → ℕ → Outcome
write_key k sc =
    let shift = k.l_shift || k.r_shift in
    let ctrl = k.l_control || k.r_control in
    let alt = k.l_alt || k.r_alt in
    if not ctrl && not alt
    then if shift && not k.caps_lock
      then write_entry k shift_key_table sc
      else if k.caps_lock && not shift
      then write_entry k caps_key_table sc
      else if k.caps_lock && shift
      then write_entry k caps_shift_key_table sc
      else write_entry k key_table sc
    else goes_on k

-- The `switch` of `KeyDownEvent`, and what follows it.
unfoldable pub press : Keyboard → ℕ → Outcome
press k sc =
    if sc == l_shift_key
    then goes_on (record k { l_shift = true })
    else if sc == r_shift_key
    then goes_on (record k { r_shift = true })
    else if sc == l_control_key
    then goes_on (record k { l_control = true })
    else if sc == l_alt_key
    then goes_on (record k { l_alt = true })
    else if sc == caps_lock_key
    then goes_on (record k { caps_lock = not k.caps_lock })
    else if sc == backspace_key
    then goes_on (record k { console = type_byte (type_byte (type_byte k.console 0x08) 0x20) 0x08 })
    else if sc == escape_key
    then goes_on (record k { console = clear k.console k.console.background })
    else if sc == f12_key
    then machine_check
    else write_key k sc

-- `KeyDownEvent`
unfoldable pub key_down_event : Keyboard → ℕ → Outcome
key_down_event k sc = press (set_key_state k sc true) sc

-- `Response`
abbrev pub err0 : ℕ
err0 = 0x00

abbrev pub err1 : ℕ
err1 = 0xFF

abbrev pub test_pass : ℕ
test_pass = 0xAA

abbrev pub echo : ℕ
echo = 0xEE

abbrev pub ack : ℕ
ack = 0xFA

abbrev pub resend_response : ℕ
resend_response = 0xFE

abbrev pub test_fail1 : ℕ
test_fail1 = 0xFC

abbrev pub test_fail2 : ℕ
test_fail2 = 0xFD

-- The branch of `KeyEvent` for a command that is under way; `sc2` is the next byte of the port.
unfoldable pub response_event : Keyboard → ℕ → ℕ → Keyboard
response_event k sc1 sc2 =
    if (sc1 == err0) || (sc1 == err1)
    then record k { cmd_response = err1 }
    else if sc1 == test_fail1
    then if sc2 == test_fail2
      then record k { cmd_response = sc2 }
      else record k { cmd_response = sc1 }
    else if sc1 == ack
    then record k { resend_count = 0; cmd_response = sc1 }
    else record k { cmd_response = sc1 }

-- `KeyEvent`
unfoldable pub key_event : Keyboard → ℕ → ℕ → Outcome
key_event k sc1 sc2 =
    if k.sending_command
    then goes_on (response_event k sc1 sc2)
    else if not (bit_and sc1 (1 <<< 7) == 0)
    then goes_on (key_up_event k (bit_and sc1 0b01111111))
    else key_down_event k sc1

abbrev pub outb : Keyboard → ℕ → Keyboard
outb k value = record k { sent = k.sent ++ value ∷ [] }

-- `Resend`; none stands for the end of the function, where no value is returned.
unfoldable pub resend : Keyboard → Keyboard × Option Bool
resend k =
    let counted = record k { resend_count = u8 (k.resend_count + 1) } in
    if ltb 2 k.resend_count
    then (record counted { resend_count = 0 }, some false)
    else (outb counted k.prev_command, none)
