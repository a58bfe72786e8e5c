-- ===== src/Keyboard/Presses.antt =====
-- The branches of `KeyDownEvent` and the text that they write.
use waifu_os.Prelude.{
  ℕ, ◌<◌, ◌≡◌, refl, ◌≢◌, Bool, true, false, not, ◌&&◌, ◌||◌, some, List, [], ◌∷◌, arith, ◌==◌,
  if◌then◌else◌, get_elem?,
}
use waifu_os.Keyboard.Events.{
  Keyboard, Outcome, goes_on, write_entry, write_key, press, escape_key, backspace_key,
  l_control_key, l_alt_key, f12_key, type_byte,
}
use waifu_os.Keyboard.Tables.{key_table, shift_key_table, caps_key_table, caps_shift_key_table}
use waifu_os.Keyboard.Layout.{layout, chosen_table, get_elem?-chosen_table}
use waifu_os.Keyboard.Board.{Board, shift_held, is_modifier, pressed_text}
use waifu_os.Keyboard.Follows.{Follows}

pub write_entry-some :
    (k : Keyboard) (table : List ℕ) (sc chr : ℕ)
    → get_elem? table sc ≡ some chr
    → write_entry k table sc ≡ goes_on (record k { console = type_byte k.console chr })
unfolding write_entry
write_entry-some k table sc chr there = rw (there, write_entry) refl

pub write_entry_lem :
    (k : Keyboard) (shift caps : Bool) (sc : ℕ)
    → sc < 0x59
    → write_entry k (chosen_table shift caps) sc
      ≡ goes_on (record k { console = type_byte k.console (layout shift caps sc) })
write_entry_lem k shift caps sc inside =
    write_entry-some k (chosen_table shift caps) sc (layout shift caps sc)
      (get_elem?-chosen_table shift caps sc inside)

-- The end of `KeyDownEvent`, by what is held.
abbrev pub write_by : Keyboard → ℕ → Bool → Bool → Bool → Bool → Outcome
write_by k sc shift ctrl alt caps =
    if not ctrl && not alt
    then if shift && not caps
      then write_entry k shift_key_table sc
      else if caps && not shift
      then write_entry k caps_key_table sc
      else if caps && shift
      then write_entry k caps_shift_key_table sc
      else write_entry k key_table sc
    else goes_on k

abbrev pub written : Keyboard → ℕ → Bool → Bool → Bool → Bool → Keyboard
written k sc shift ctrl alt caps = record k {
  console = if ctrl || alt then k.console else type_byte k.console (layout shift caps sc);
}

pub write_by_lem :
    (k : Keyboard) (sc : ℕ) (shift ctrl alt caps : Bool)
    → sc < 0x59
    → write_by k sc shift ctrl alt caps ≡ goes_on (written k sc shift ctrl alt caps)
unfolding chosen_table
write_by_lem k sc shift true alt caps inside = refl
write_by_lem k sc shift false true caps inside = refl
write_by_lem k sc true false false true inside = write_entry_lem k true true sc inside
write_by_lem k sc true false false false inside = write_entry_lem k true false sc inside
write_by_lem k sc false false false true inside = write_entry_lem k false true sc inside
write_by_lem k sc false false false false inside = write_entry_lem k false false sc inside

pub write_key_lem :
    (k : Keyboard) (sc : ℕ)
    → sc < 0x59
    → write_key k sc
      ≡ goes_on (
          written k sc
            (k.l_shift || k.r_shift)
            (k.l_control || k.r_control)
            (k.l_alt || k.r_alt)
            k.caps_lock)
unfolding write_key
write_key_lem k sc inside =
    write_by_lem k sc (k.l_shift || k.r_shift) (k.l_control || k.r_control) (k.l_alt || k.r_alt)
      k.caps_lock inside

-- The branches of the `switch` of `KeyDownEvent` for the other keys.
abbrev pub erased : Keyboard → Keyboard
erased k = record k { console = type_byte (type_byte (type_byte k.console 0x08) 0x20) 0x08 }

pub press-erased :
    (k : Keyboard) (sc : ℕ)
    → is_modifier sc ≡ false
    → (sc == backspace_key) ≡ true
    → press k sc ≡ goes_on (erased k)
unfolding press
press-erased k sc plain erase = ground arith

pub press-write_key :
    (k : Keyboard) (sc : ℕ)
    → is_modifier sc ≡ false
    → (sc == backspace_key) ≡ false
    → sc ≢ escape_key
    → sc < f12_key
    → press k sc ≡ write_key k sc
unfolding press
press-write_key k sc plain other no_escape inside = ground arith

pub pressed_text-modifier : (b : Board) (sc : ℕ) → is_modifier sc ≡ true → pressed_text b sc ≡ []
pressed_text-modifier b sc modifier = rw modifier refl

pub pressed_text-erase :
    (b : Board) (sc : ℕ)
    → is_modifier sc ≡ false
    → (sc == backspace_key) ≡ true
    → pressed_text b sc ≡ 0x08 ∷ 0x20 ∷ 0x08 ∷ []
pressed_text-erase b sc plain erase = rw (plain, erase) refl

pub pressed_text-write :
    (k : Keyboard) (b : Board) (sc : ℕ)
    → is_modifier sc ≡ false
    → (sc == backspace_key) ≡ false
    → Follows k b
    → pressed_text b sc ≡ (
        if (k.l_control || k.r_control) || (k.l_alt || k.r_alt)
        then []
        else layout (k.l_shift || k.r_shift) k.caps_lock sc ∷ [])
pressed_text-write k b sc plain other f =
    let shift : (k.l_shift || k.r_shift) ≡ shift_held b = ground arith in
    let ctrl : (k.l_control || k.r_control) ≡ b.down l_control_key = ground arith in
    let alt : (k.l_alt || k.r_alt) ≡ b.down l_alt_key = ground arith in
    rw (plain, other, shift, ctrl, alt, f.caps) refl
