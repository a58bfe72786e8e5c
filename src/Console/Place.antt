-- ===== src/Console/Place.antt =====
-- What leaves the cursor of the console where it is: its drawing, and scrolling.
use waifu_os.Prelude.{ℕ, ◌≡◌, refl, ◌∙◌, ◌⊎◌, Bool, true, false, arith, if◌then◌else◌, mul64, ◌>>>◌}
use waifu_os.Prelude.Loops.{for_range, for_range_inv}
use waifu_os.Console.Calls.{
  PrimitiveConsole, restore_cursor, draw_pixel, draw_cursor, update_cursor, enable_cursor,
  disable_cursor, clear, scroll_down, scroll_lines,
}

-- A state that no round changes in what is observed looks the same at the end of the loop.
pub for_range-same {ℓ κ} :
    {State : Type ℓ} {A : Type κ} (seen : State → A) (round : ℕ → State → State)
    (same : (k : ℕ) (s : State) → seen (round k s) ≡ seen s) (rounds first : ℕ) (s : State)
    → seen (for_range rounds first round s) ≡ seen s
for_range-same seen round same rounds first s =
    for_range_inv (λ t. seen t ≡ seen s) round (λ k t now. same k t ∙ now) rounds first s refl

-- Where the cursor is, and the size of the screen.
pub record Place : Type 0 where
  pub width : ℕ
  pub height : ℕ
  pub x : ℕ
  pub y : ℕ

abbrev pub place : PrimitiveConsole → Place
place c = record { width = c.width; height = c.height; x = c.x; y = c.y }

-- What holds of both branches holds of the choice.
pub if-both {ℓ κ} :
    {A : Type ℓ} (Holds : A → Type κ) (test : Bool) (a b : A)
    → Holds a
    → Holds b
    → Holds (if test then a else b)
if-both Holds true a b of_a of_b = of_a
if-both Holds false a b of_a of_b = of_b

pub place-restore_cursor : (c : PrimitiveConsole) → place (restore_cursor c) ≡ place c
unfolding restore_cursor
place-restore_cursor c = ground arith

place-draw_cursor :
    (pos_x pos_y : ℕ) (c : PrimitiveConsole) → place (draw_cursor pos_x pos_y c) ≡ place c
unfolding draw_cursor draw_pixel
place-draw_cursor pos_x pos_y c =
    for_range-same place (λ y. for_range 8 0 (draw_pixel pos_x pos_y y))
      (λ y s. for_range-same place (draw_pixel pos_x pos_y y) (λ x t. refl) 8 0 s) 16 0 c

pub place-update_cursor : (c : PrimitiveConsole) → place (update_cursor c) ≡ place c
unfolding update_cursor
place-update_cursor c =
    if-both (λ d. place d ≡ place c) c.cursor_enabled _ c
      (place-draw_cursor (mul64 c.x (c.font.charsize >>> 1)) (mul64 c.y c.font.charsize)
          (record (restore_cursor c) { previous_x = c.x; previous_y = c.y })
        ∙ place-restore_cursor c)
      refl

pub place-enable_cursor : (c : PrimitiveConsole) → place (enable_cursor c) ≡ place c
unfolding enable_cursor
place-enable_cursor c =
    place-update_cursor (record c { cursor_enabled = true; has_drawn_cursor = false })

pub place-disable_cursor : (c : PrimitiveConsole) → place (disable_cursor c) ≡ place c
unfolding disable_cursor
place-disable_cursor c = place-restore_cursor c

place-scroll_loop :
    (lines : ℕ) (c : PrimitiveConsole) → place (for_range lines 0 (λ _. scroll_down) c) ≡ place c
unfolding scroll_down
place-scroll_loop lines c = for_range-same place (λ _. scroll_down) (λ k s. refl) lines 0 c

-- Scrolling leaves the cursor where it is, or in the corner where the whole screen is cleared.
pub place-scroll_lines :
    (c : PrimitiveConsole) (lines : ℕ)
    → (place (scroll_lines c lines) ≡ place c)
      ⊎ (place (scroll_lines c lines) ≡ record (place c) { x = 0; y = 0 })
unfolding scroll_lines clear
place-scroll_lines c lines = ground (arith, place-scroll_loop lines c)
