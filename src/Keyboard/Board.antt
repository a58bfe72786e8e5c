-- ===== src/Keyboard/Board.antt =====
-- What is typed: the keys that are held, and the text that the events of a keyboard write.
use waifu_os.Prelude.{
  ℕ, ◌-◌, ◌≤◌, ◌<◌, ◌≢◌, ◌⊎◌, Bool, true, false, not, ◌||◌, List, [], ◌∷◌, ◌++◌, leb, ◌==◌,
  if◌then◌else◌,
}
use waifu_os.Keyboard.Events.{
  update, escape_key, backspace_key, l_control_key, l_shift_key, r_shift_key, l_alt_key,
  caps_lock_key, f12_key,
}
use waifu_os.Keyboard.Layout.{layout}

-- The keys that are held down, by their scan codes, and whether Caps Lock is on.
pub record Board : Type 0 where
  pub down : ℕ → Bool
  pub caps : Bool

abbrev pub shift_held : Board → Bool
shift_held b = b.down l_shift_key || b.down r_shift_key

-- A byte of 128 or more releases a key, a smaller one presses it.
unfoldable pub step : Board → ℕ → Board
step b sc = if leb 0x80 sc then record b { down = update b.down (sc - 0x80) false } else record {
  down = update b.down sc true;
  caps = if sc == caps_lock_key then not b.caps else b.caps;
}

unfoldable pub after : Board → List ℕ → Board
after b [] = b
after b (sc ∷ events) = after (step b sc) events

abbrev pub is_modifier : ℕ → Bool
is_modifier sc =
    (sc == l_shift_key)
    || (sc == r_shift_key)
    || (sc == l_control_key)
    || (sc == l_alt_key)
    || (sc == caps_lock_key)

-- What a key that is pressed writes, with the keys that are then held.
abbrev pub pressed_text : Board → ℕ → List ℕ
pressed_text b sc =
    if is_modifier sc
    then []
    else if sc == backspace_key
    then 0x08 ∷ 0x20 ∷ 0x08 ∷ []
    else if b.down l_control_key || b.down l_alt_key
    then []
    else layout (shift_held b) b.caps sc ∷ []

unfoldable pub event_text : Board → ℕ → List ℕ
event_text b sc = if leb 0x80 sc then [] else pressed_text (step b sc) sc

unfoldable pub typed_text : Board → List ℕ → List ℕ
typed_text b [] = []
typed_text b (sc ∷ events) = event_text b sc ++ typed_text (step b sc) events

-- Keys that have a place in the tables, but for Escape, which clears the screen; F12 is not one.
abbrev pub IsKey : ℕ → Type 0
IsKey sc = ((sc < f12_key) × (sc ≢ escape_key)) ⊎ ((0x80 ≤ sc) × (sc < 0x100))
