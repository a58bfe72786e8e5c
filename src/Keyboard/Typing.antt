-- ===== src/Keyboard/Typing.antt =====
-- What is typed appears on the screen: the handler of key events against the keys that are held.
use waifu_os.Prelude.{
  ℕ, ◌+◌, ◌-◌, ◌<◌, ◌≡◌, refl, sym, ap, ◌∙◌, ◌≢◌, inl, inr, Bool, true, false, ◌||◌, List, [], ◌∷◌,
  ◌++◌, arith, leb, ◌==◌, if◌then◌else◌, Bool-cases, All,
}
use mathlib.Core.Path.{subst}
use waifu_os.Console.Pixels.{Font}
use waifu_os.Console.Calls.{PrimitiveConsole}
use waifu_os.Console.Terminal.{Terminal, type_char, type_text}
use waifu_os.Console.Refinement.{Shows, columns_of, rows_of, type_char-Shows}
use waifu_os.Keyboard.Events.{
  Keyboard, Outcome, goes_on, machine_check, past_table, update, release_modifier, key_up_event,
  press, key_down_event, key_event, escape_key, backspace_key, f12_key, type_byte,
}
use waifu_os.Keyboard.Layout.{layout}
use waifu_os.Keyboard.Board.{
  Board, step, after, is_modifier, pressed_text, event_text, typed_text, IsKey,
}
use waifu_os.Keyboard.Follows.{
  Follows, Follows-console, key_event-press, key_event-release, noted, noted-Follows,
  press-set_modifier, release_modifier-Follows, release_modifier-console, set_key_state_lem,
  set_modifier, set_modifier-Follows, set_modifier-console,
}
use waifu_os.Keyboard.Presses.{
  erased, press-erased, press-write_key, pressed_text-erase, pressed_text-modifier,
  pressed_text-write, write_key_lem, written,
}

abbrev pub and_then : Outcome → (Keyboard → Outcome) → Outcome
and_then (goes_on k) next = next k
and_then machine_check next = machine_check
and_then past_table next = past_table

-- The loop of interrupts: each brings one byte.
pub run_keys : Keyboard → List ℕ → Outcome
run_keys k [] = goes_on k
run_keys k (sc ∷ events) = and_then (key_event k sc 0) (λ k'. run_keys k' events)

module _ (w h : ℕ) (font : Font) (back fore : ℕ) where
  -- An event is handled, the variables follow the keys, and the screen shows what the key writes.
  abbrev Typed : Outcome → Board → Terminal → Type 0
  Typed outcome b t =
      (k' : Keyboard) × (outcome ≡ goes_on k')
      × Follows k' b
      × Shows w h font back fore k'.console t

  release-Typed :
      (k : Keyboard) (b : Board) (t : Terminal) (i : ℕ)
      → i < 0x80
      → Follows k b
      → Shows w h font back fore k.console t
      → Typed (key_event k (i + 0x80) 0) (record b { down = update b.down i false }) t
  unfolding key_up_event
  release-Typed k b t i small f shown =
      let noted : Keyboard = record k { key_state = update k.key_state i false } in
      (
        release_modifier noted i,
        key_event-release k i small f.idle
            ∙ ap (λ (n : Keyboard). goes_on (release_modifier n i))
                (set_key_state_lem k i false small),
        release_modifier-Follows k b i f,
        subst (λ (c : PrimitiveConsole). Shows w h font back fore c t)
            (sym (release_modifier-console noted i)) shown,
      )

  type_byte-Shows :
      (c : PrimitiveConsole) (t : Terminal) (chr : ℕ)
      → Shows w h font back fore c t
      → Shows w h font back fore
          (type_byte c chr)
          (type_char (columns_of w font) (rows_of h font) t chr fore)
  type_byte-Shows c t chr shown =
      subst
        (λ (color : ℕ).
          Shows w h font back fore (type_byte c chr)
            (type_char (columns_of w font) (rows_of h font) t chr color))
        shown.same_fore (type_char-Shows w h font back fore c t chr c.foreground shown)

  abbrev typed : Terminal → List ℕ → Terminal
  typed t text = type_text (columns_of w font) (rows_of h font) t text fore

  erase-Shows :
      (c : PrimitiveConsole) (t : Terminal)
      → Shows w h font back fore c t
      → Shows w h font back fore
          (type_byte (type_byte (type_byte c 0x08) 0x20) 0x08)
          (typed t (0x08 ∷ 0x20 ∷ 0x08 ∷ []))
  unfolding type_text
  erase-Shows c t shown =
      let first = type_byte c 0x08 in
      let t1 = type_char (columns_of w font) (rows_of h font) t 0x08 fore in
      let t2 = type_char (columns_of w font) (rows_of h font) t1 0x20 fore in
      type_byte-Shows (type_byte first 0x20) t2 0x08
        (type_byte-Shows first t1 0x20 (type_byte-Shows c t 0x08 shown))

  -- What is typed with nothing but Shift and Caps Lock held.
  written-Shows :
      (k : Keyboard) (t : Terminal) (sc : ℕ) (shift ctrl alt caps : Bool)
      → Shows w h font back fore k.console t
      → Shows w h font back fore
          (written k sc shift ctrl alt caps).console
          (typed t (if ctrl || alt then [] else layout shift caps sc ∷ []))
  unfolding type_text
  written-Shows k t sc shift true alt caps shown = shown
  written-Shows k t sc shift false true caps shown = shown
  written-Shows k t sc shift false false caps shown =
      type_byte-Shows k.console t (layout shift caps sc) shown

  -- Where an outcome is that of another step, so is what is known of it.
  press-Typed :
      (k : Keyboard) (b : Board) (t : Terminal) (sc : ℕ)
      → sc < f12_key
      → sc ≢ escape_key
      → Follows k b
      → Shows w h font back fore k.console t
      → Typed (press (noted k sc) sc) (step b sc) (typed t (pressed_text (step b sc) sc))
  unfolding type_text
  press-Typed k b t sc inside no_escape f shown = elim (Bool-cases (is_modifier sc)) [
    | inl modifier ↦ (
      set_modifier (noted k sc) sc,
      press-set_modifier (noted k sc) sc modifier,
      set_modifier-Follows k b sc modifier (omega arith) f,
      subst
          (λ (text : List ℕ).
            Shows w h font back fore (set_modifier (noted k sc) sc).console (typed t text))
          (sym (pressed_text-modifier (step b sc) sc modifier))
          (subst (λ (c : PrimitiveConsole). Shows w h font back fore c t)
            (sym (set_modifier-console (noted k sc) sc)) shown),
    )
    | inr plain ↦ elim (Bool-cases (sc == backspace_key)) [
      | inl erase ↦
          let follows = noted-Follows k b sc plain (omega arith) f in
          (
            erased (noted k sc),
            press-erased (noted k sc) sc plain erase,
            Follows-console (noted k sc) (step b sc) _ follows,
            subst
                (λ (text : List ℕ).
                  Shows w h font back fore (erased (noted k sc)).console (typed t text))
                (sym (pressed_text-erase (step b sc) sc plain erase))
                (erase-Shows k.console t shown),
          )
      | inr other ↦
          let follows = noted-Follows k b sc plain (omega arith) f in
          let shift = k.l_shift || k.r_shift in
          let ctrl = k.l_control || k.r_control in
          let alt = k.l_alt || k.r_alt in
          (
            written (noted k sc) sc shift ctrl alt k.caps_lock,
            press-write_key (noted k sc) sc plain other no_escape (omega arith)
                ∙ write_key_lem (noted k sc) sc (omega arith),
            Follows-console (noted k sc) (step b sc) _ follows,
            subst
                (λ (text : List ℕ).
                  Shows w h font back fore
                    (written (noted k sc) sc shift ctrl alt k.caps_lock).console (typed t text))
                (sym (pressed_text-write (noted k sc) (step b sc) sc plain other follows))
                (written-Shows (noted k sc) t sc shift ctrl alt k.caps_lock shown),
          )
    ]
  ]

  released-Typed :
      (k : Keyboard) (b : Board) (t : Terminal) (i : ℕ)
      → i < 0x80
      → Follows k b
      → Shows w h font back fore k.console t
      → Typed (key_event k (i + 0x80) 0) (step b (i + 0x80)) (typed t (event_text b (i + 0x80)))
  unfolding step event_text type_text
  released-Typed k b t i small f shown =
      let is_release : leb 0x80 (i + 0x80) ≡ true = ground arith in
      let cut : i + 0x80 - 0x80 ≡ i = omega arith in
      rw (is_release, cut) (release-Typed k b t i small f shown)

  event-Typed :
      (k : Keyboard) (b : Board) (t : Terminal) (sc : ℕ)
      → IsKey sc
      → Follows k b
      → Shows w h font back fore k.console t
      → Typed (key_event k sc 0) (step b sc) (typed t (event_text b sc))
  unfolding key_down_event event_text
  event-Typed k b t sc (inl (inside, no_escape)) f shown =
      let is_press : leb 0x80 sc ≡ false = ground arith in
      let (k', pressed, follows, now) = press-Typed k b t sc inside no_escape f shown in
      rw is_press (
        k',
        key_event-press k sc (omega arith) f.idle
            ∙ ap (λ (n : Keyboard). press n sc) (set_key_state_lem k sc true (omega arith))
            ∙ pressed,
        follows,
        now,
      )
  event-Typed k b t sc (inr (low, high)) f shown =
      let whole : sc - 0x80 + 0x80 ≡ sc = omega arith in
      subst (λ (e : ℕ). Typed (key_event k e 0) (step b e) (typed t (event_text b e))) whole
        (released-Typed k b t (sc - 0x80) (omega arith) f shown)

  type_text-append : (t : Terminal) (xs ys : List ℕ) → typed t (xs ++ ys) ≡ typed (typed t xs) ys
  unfolding type_text
  type_text-append t [] ys = refl
  type_text-append t (x ∷ xs) ys =
      type_text-append (type_char (columns_of w font) (rows_of h font) t x fore) xs ys

  -- Whatever keys are pressed and released, the driver follows which are held, and the screen shows
  -- the text that they write: characters by the layout of the keyboard with Shift held or not and
  -- Caps Lock on or off, nothing while Control or Alt is held, and three characters that erase the
  -- last one for Backspace. The keys are those of the tables, without Escape and F12; no command is
  -- under way, and the cursor of the console is switched off.
  pub run_keys-Typed :
      (k : Keyboard) (b : Board) (t : Terminal) (events : List ℕ)
      → All IsKey events
      → Follows k b
      → Shows w h font back fore k.console t
      → Typed (run_keys k events) (after b events) (typed t (typed_text b events))
  unfolding run_keys after typed_text type_text
  run_keys-Typed k b t [] keys f shown = (k, refl, f, shown)
  run_keys-Typed k b t (sc ∷ events) keys f shown =
      let (k', ran, follows, now) = event-Typed k b t sc keys.0 f shown in
      let (last, done, agrees, finally) =
        run_keys-Typed k' (step b sc) (typed t (event_text b sc)) events keys.1 follows now in
      (
        last,
        ap (λ (o : Outcome). and_then o (λ n. run_keys n events)) ran ∙ done,
        agrees,
        subst (Shows w h font back fore last.console)
            (sym (type_text-append t (event_text b sc) (typed_text (step b sc) events))) finally,
      )
