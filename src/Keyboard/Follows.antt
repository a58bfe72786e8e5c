-- ===== src/Keyboard/Follows.antt =====
-- The variables of the driver against the keys that are held.
use waifu_os.Prelude.{
  ℕ, ◌+◌, ◌<◌, bit_and, ◌≡◌, refl, Bool, true, false, not, ◌&&◌, arith, ◌==◌, if◌then◌else◌,
}
use waifu_os.Prelude.Loops.{every_below, every_below-true}
use waifu_os.Console.Calls.{PrimitiveConsole}
use waifu_os.Keyboard.Events.{
  Keyboard, goes_on, update, set_key_state, release_modifier, key_up_event, press, key_down_event,
  key_event, l_control_key, l_shift_key, r_shift_key, l_alt_key,
}
use waifu_os.Keyboard.Board.{Board, step, is_modifier}

-- The variables of the driver agree with the keys that are held.
pub record Follows (k : Keyboard) (b : Board) : Type 0 where
  pub idle : k.sending_command ≡ false
  pub keys : (j : ℕ) → k.key_state j ≡ b.down j
  pub l_shift : k.l_shift ≡ b.down l_shift_key
  pub r_shift : k.r_shift ≡ b.down r_shift_key
  pub l_control : k.l_control ≡ b.down l_control_key
  pub no_r_control : k.r_control ≡ false
  pub l_alt : k.l_alt ≡ b.down l_alt_key
  pub no_r_alt : k.r_alt ≡ false
  pub caps : k.caps_lock ≡ b.caps

pub is_release_bit : ℕ → Bool
is_release_bit i =
    not (bit_and (i + 0x80) 0x80 == 0) && (bit_and (i + 0x80) 0x7F == i) && (bit_and i 0x7F == i)

pub is_press_bit : ℕ → Bool
is_press_bit sc = (bit_and sc 0x80 == 0) && (bit_and sc 0x7F == sc)

pub bits_checked : (every_below 0x80 is_release_bit ≡ true) × (every_below 0x80 is_press_bit ≡ true)
unfolding every_below is_release_bit is_press_bit
bits_checked = (refl, refl)

pub press_bits : (sc : ℕ) → sc < 0x80 → (bit_and sc 0x80 ≡ 0) × (bit_and sc 0x7F ≡ sc)
unfolding is_press_bit
press_bits sc h = ground (arith, every_below-true 0x80 is_press_bit sc bits_checked.1 h)

pub release_bits :
    (i : ℕ)
    → i < 0x80
    → ((bit_and (i + 0x80) 0x80 == 0) ≡ false)
      × (bit_and (i + 0x80) 0x7F ≡ i)
      × (bit_and i 0x7F ≡ i)
unfolding is_release_bit
release_bits i h = ground (arith, every_below-true 0x80 is_release_bit i bits_checked.0 h)

pub key_event-release :
    (k : Keyboard) (i : ℕ)
    → i < 0x80
    → k.sending_command ≡ false
    → key_event k (i + 0x80) 0 ≡ goes_on (key_up_event k i)
unfolding key_event
key_event-release k i small idle = let bits = release_bits i small in rw (idle, bits.0, bits.1) refl

pub key_event-press :
    (k : Keyboard) (sc : ℕ)
    → sc < 0x80
    → k.sending_command ≡ false
    → key_event k sc 0 ≡ key_down_event k sc
unfolding key_event
key_event-press k sc small idle =
    let no_bit : (bit_and sc 0x80 == 0) ≡ true = ground (arith, press_bits sc small) in
    rw (idle, no_bit) refl

pub set_key_state_lem :
    (k : Keyboard) (sc : ℕ) (state : Bool)
    → sc < 0x80
    → set_key_state k sc state ≡ record k { key_state = update k.key_state sc state }
unfolding set_key_state
set_key_state_lem k sc state small = rw ((press_bits sc small).1) refl

-- The key of an event is noted; the flags of the modifiers are still to be set.
pub release_modifier-Follows :
    (k : Keyboard) (b : Board) (i : ℕ)
    → Follows k b
    → Follows
        (release_modifier (record k { key_state = update k.key_state i false }) i)
        (record b { down = update b.down i false })
unfolding release_modifier
release_modifier-Follows k b i f = record {
  idle = ground arith;
  keys = λ j. ground (arith, f.keys j);
  l_shift = ground arith;
  r_shift = ground arith;
  l_control = ground arith;
  no_r_control = ground arith;
  l_alt = ground arith;
  no_r_alt = ground arith;
  caps = ground arith;
}

-- The screen has no part in it.
pub Follows-console :
    (k : Keyboard) (b : Board) (c : PrimitiveConsole)
    → Follows k b
    → Follows (record k { console = c }) b
Follows-console k b c f = record {
  idle = f.idle;
  keys = f.keys;
  l_shift = f.l_shift;
  r_shift = f.r_shift;
  l_control = f.l_control;
  no_r_control = f.no_r_control;
  l_alt = f.l_alt;
  no_r_alt = f.no_r_alt;
  caps = f.caps;
}

pub release_modifier-console : (k : Keyboard) (i : ℕ) → (release_modifier k i).console ≡ k.console
unfolding release_modifier
release_modifier-console k i = ground arith

-- The flags that a press of a modifier sets.
unfoldable pub set_modifier : Keyboard → ℕ → Keyboard
set_modifier k sc =
    if sc == l_shift_key
    then record k { l_shift = true }
    else if sc == r_shift_key
    then record k { r_shift = true }
    else if sc == l_control_key
    then record k { l_control = true }
    else if sc == l_alt_key
    then record k { l_alt = true }
    else record k { caps_lock = not k.caps_lock }

pub press-set_modifier :
    (k : Keyboard) (sc : ℕ) → is_modifier sc ≡ true → press k sc ≡ goes_on (set_modifier k sc)
unfolding press set_modifier
press-set_modifier k sc modifier = ground arith

pub set_modifier-console : (k : Keyboard) (sc : ℕ) → (set_modifier k sc).console ≡ k.console
unfolding set_modifier
set_modifier-console k sc = ground arith

abbrev pub noted : Keyboard → ℕ → Keyboard
noted k sc = record k { key_state = update k.key_state sc true }

pub set_modifier-Follows :
    (k : Keyboard) (b : Board) (sc : ℕ)
    → is_modifier sc ≡ true
    → sc < 0x80
    → Follows k b
    → Follows (set_modifier (noted k sc) sc) (step b sc)
unfolding set_modifier step
set_modifier-Follows k b sc modifier small f = record {
  idle = ground arith;
  keys = λ j. ground (arith, f.keys j);
  l_shift = ground arith;
  r_shift = ground arith;
  l_control = ground arith;
  no_r_control = ground arith;
  l_alt = ground arith;
  no_r_alt = ground arith;
  caps = ground arith;
}

pub noted-Follows :
    (k : Keyboard) (b : Board) (sc : ℕ)
    → is_modifier sc ≡ false
    → sc < 0x80
    → Follows k b
    → Follows (noted k sc) (step b sc)
unfolding step
noted-Follows k b sc plain small f = record {
  idle = ground arith;
  keys = λ j. ground (arith, f.keys j);
  l_shift = ground arith;
  r_shift = ground arith;
  l_control = ground arith;
  no_r_control = ground arith;
  l_alt = ground arith;
  no_r_alt = ground arith;
  caps = ground arith;
}
