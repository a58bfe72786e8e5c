-- ===== src/Console/Refinement.antt =====
-- The console is a terminal: what is written appears on the screen as the grid of characters says.
use waifu_os.Prelude.{
  ℕ, ◌+◌, ◌/◌, ◌^◌, ◌≤◌, ◌<◌, ◌≡◌, refl, sym, ap, fun_ext, inl, inr, true, false, none, List, [],
  ◌∷◌, arith, ltb, ◌==◌, Bool-cases, u32, add64, sub64, ◌>>>◌,
}
use mathlib.Core.Path.{subst}
use native.Mathlib.Nat.{div-le_self}
use waifu_os.Prelude.Loops.{for_range}
use waifu_os.Console.Pixels.{FrameBuffer, Font, less64, put_char, clear_pixels}
use waifu_os.Console.Calls.{
  PrimitiveConsole, clear, new_line, backspace, draw_char, write_char, write, new_console,
}
use waifu_os.Console.Steps.{
  draw_char_along, draw_char_below, draw_char_scrolled, new_line_below, new_line_scrolled,
  new_line_cleared, backspace_along, backspace_up, backspace_corner,
}
use waifu_os.Console.Terminal.{
  Cell, Terminal, put_cell, line_feed, show_char, step_back, type_char, type_text,
}
use waifu_os.Console.Frame.{IsSized}
use waifu_os.Console.Lines.{clear_pixels-IsSized, pixel_at-clear_pixels}
use waifu_os.Console.Looks.{Looks, put_char-Looks, clear_pixels-Looks, scroll_pixels-Looks}

abbrev pub columns_of : ℕ → Font → ℕ
columns_of w font = w / (font.charsize >>> 1)

abbrev pub rows_of : ℕ → Font → ℕ
rows_of h font = h / font.charsize

-- A console whose own cursor is switched off shows a terminal on a frame of w by h pixels, with
-- the given font and colours.
pub record Shows (w h : ℕ) (font : Font) (back fore : ℕ) (c : PrimitiveConsole) (t : Terminal)
    : Type 0 where
  pub same_font : c.font ≡ font
  pub same_back : c.background ≡ back
  pub same_fore : c.foreground ≡ fore
  pub pixels : Looks w h c.font c.background c.frame_buffer t.cells
  pub off : c.cursor_enabled ≡ false
  pub wide : c.width ≡ columns_of w c.font
  pub high : c.height ≡ rows_of h c.font
  pub column : c.x ≡ t.column
  pub row : c.y ≡ t.row
  pub across : t.column < columns_of w c.font
  pub down : t.row < rows_of h c.font

module _ (w h : ℕ) (font : Font) (back fore : ℕ) (c : PrimitiveConsole) (t : Terminal)
    (shown : Shows w h font back fore c t) where
  open shown use {
    same_font, same_back, same_fore, pixels, off, wide, high, column, row, across, down,
  }

  few_columns : columns_of w c.font < 2 ^ 32
  few_columns = omega (arith, div-le_self w (c.font.charsize >>> 1), pixels.sized)

  few_rows : rows_of h c.font < 2 ^ 32
  few_rows = omega (arith, div-le_self h c.font.charsize, pixels.sized)

  -- The picture once the character is drawn at the cursor.
  drawn :
      (chr color : ℕ)
      → Looks w h c.font c.background
          (put_char c.frame_buffer c.font chr color c.background c.x c.y)
          (put_cell t.cells t.column t.row (record { chr = chr; color = color }))
  drawn chr color =
      let fb = put_char c.frame_buffer c.font chr color c.background c.x c.y in
      let cell : Cell = record { chr = chr; color = color } in
      subst (λ i. Looks w h c.font c.background fb (put_cell t.cells i t.row cell)) column
        (subst (λ j. Looks w h c.font c.background fb (put_cell t.cells c.x j cell)) row
          (put_char-Looks w h c.font c.background c.frame_buffer t.cells chr color c.x c.y
            (omega arith) (omega arith) pixels))

  line_feed-Shows :
      Shows w h font back fore (new_line c 1) (line_feed (columns_of w c.font) (rows_of h c.font) t)
  unfolding line_feed
  line_feed-Shows = elim (Bool-cases (ltb (t.row + 1) (rows_of h c.font))) [
    | inl more ↦
        let test : less64 (sub64 c.height 1) (add64 c.y 1) ≡ false = ground (arith, few_rows) in
        rw (new_line_below c off test, more)
          (record {
            pixels = pixels;
            same_font = same_font;
            same_back = same_back;
            same_fore = same_fore;
            off = off;
            wide = wide;
            high = high;
            column = refl;
            row = omega (arith, few_rows);
            across = omega arith;
            down = ground arith;
          })
    | inr last ↦
        let test : less64 (sub64 c.height 1) (add64 c.y 1) ≡ true = ground (arith, few_rows) in
        let one : u32 (sub64 (add64 c.y 1) (sub64 c.height 1)) ≡ 1 = ground (arith, few_rows) in
        rw (last) (elim (Bool-cases (less64 1 c.height)) [
          | inl many ↦ rw (new_line_scrolled c off test one many) (record {
            pixels = scroll_pixels-Looks w h c.font c.background c.frame_buffer t.cells pixels;
            same_font = same_font;
            same_back = same_back;
            same_fore = same_fore;
            off = off;
            wide = wide;
            high = high;
            column = refl;
            row = ground (arith, few_rows);
            across = omega arith;
            down = down;
          })
          | inr single ↦ rw (new_line_cleared c off test one single) (record {
            pixels =
                subst (Looks w h c.font c.background (clear_pixels c.background c.frame_buffer))
                  (sym
                    (fun_ext λ i. fun_ext λ j. pixels.blank i (j + 1) (ground (arith, few_rows))))
                  (clear_pixels-Looks w h c.font c.background c.frame_buffer t.cells pixels);
            same_font = same_font;
            same_back = same_back;
            same_fore = same_fore;
            off = off;
            wide = wide;
            high = high;
            column = refl;
            row = ground (arith, few_rows);
            across = omega arith;
            down = down;
          })
        ])
  ]

  draw_char-Shows :
      (chr color : ℕ)
      → Shows w h font back fore (draw_char c chr color) (
          show_char
            (columns_of w c.font)
            (rows_of h c.font)
            t
            (record { chr = chr; color = color }))
  unfolding show_char line_feed
  draw_char-Shows chr color = elim (Bool-cases (ltb (t.column + 1) (columns_of w c.font))) [
    | inl along ↦
        let test : less64 (add64 c.x 1) c.width ≡ true = ground (arith, few_columns) in
        rw (draw_char_along c chr color off test, along)
          (record {
            pixels = drawn chr color;
            same_font = same_font;
            same_back = same_back;
            same_fore = same_fore;
            off = off;
            wide = wide;
            high = high;
            column = omega (arith, few_columns);
            row = row;
            across = ground arith;
            down = down;
          })
    | inr full ↦
        let end : less64 (add64 c.x 1) c.width ≡ false = ground (arith, few_columns) in
        elim (Bool-cases (ltb (t.row + 1) (rows_of h c.font))) [
          | inl more ↦
              let test : less64 (sub64 c.height 1) (add64 c.y 1) ≡ false =
                ground (arith, few_rows) in
              rw (draw_char_below c chr color off end test, full, more)
                (record {
                  pixels = drawn chr color;
                  same_font = same_font;
                  same_back = same_back;
                  same_fore = same_fore;
                  off = off;
                  wide = wide;
                  high = high;
                  column = refl;
                  row = omega (arith, few_rows);
                  across = omega arith;
                  down = ground arith;
                })
          | inr last ↦
              let test : less64 (sub64 c.height 1) (add64 c.y 1) ≡ true =
                ground (arith, few_rows) in
              rw (draw_char_scrolled c chr color off end test, full, last)
                (record {
                  pixels =
                      scroll_pixels-Looks w h c.font c.background
                        (put_char c.frame_buffer c.font chr color c.background c.x c.y)
                        (put_cell t.cells t.column t.row (record { chr = chr; color = color }))
                        (drawn chr color);
                  same_font = same_font;
                  same_back = same_back;
                  same_fore = same_fore;
                  off = off;
                  wide = wide;
                  high = high;
                  column = refl;
                  row = ground (arith, few_rows);
                  across = omega arith;
                  down = down;
                })
        ]
  ]

  step_back-Shows :
      Shows w h font back fore
        (backspace c 1 false)
        (step_back (columns_of w c.font) (rows_of h c.font) t)
  unfolding step_back
  step_back-Shows = elim (Bool-cases (ltb 0 t.column)) [
    | inl inside ↦
        rw
          (
            backspace_along c off (ground (arith, few_columns)) (ground (arith, few_columns)),
            inside,
          )
          (record {
            pixels = pixels;
            same_font = same_font;
            same_back = same_back;
            same_fore = same_fore;
            off = off;
            wide = wide;
            high = high;
            column = ground (arith, few_columns);
            row = row;
            across = omega arith;
            down = down;
          })
    | inr first ↦ elim (Bool-cases (ltb 0 t.row)) [
      | inl above ↦
          rw
            (
              backspace_up c off (ground arith) (ground (arith, few_rows))
                  (ground (arith, few_columns)),
              first,
              above,
            )
            (record {
              pixels = pixels;
              same_font = same_font;
              same_back = same_back;
              same_fore = same_fore;
              off = off;
              wide = wide;
              high = high;
              column = ground (arith, few_columns);
              row = ground (arith, few_rows);
              across = omega arith;
              down = omega arith;
            })
      | inr corner ↦
          rw (backspace_corner c off (ground arith) (ground arith), first, corner)
            (record {
              pixels = pixels;
              same_font = same_font;
              same_back = same_back;
              same_fore = same_fore;
              off = off;
              wide = wide;
              high = high;
              column = ground arith;
              row = ground arith;
              across = across;
              down = down;
            })
    ]
  ]

quotient_pos : (n d : ℕ) → 0 < d → d ≤ n → 0 < n / d
quotient_pos n d some_size fits = grind arith

module _ (w h : ℕ) (font : Font) (back fore : ℕ) where
  -- The console as it is made at the start and cleared.
  pub new_console-Shows :
      (fb : FrameBuffer)
      → IsSized w h fb
      → 0 < font.charsize >>> 1
      → font.charsize >>> 1 ≤ w
      → font.charsize ≤ h
      → font.charsize < 2 ^ 8
      → Shows w h font back fore
          (clear (record (new_console fb font) { background = back; foreground = fore }) back)
          (record { cells = λ i j. none; column = 0; row = 0 })
  unfolding new_console clear
  new_console-Shows fb sized some_width thin fits small = record {
    same_font = refl;
    same_back = refl;
    same_fore = refl;
    pixels = record {
      sized = clear_pixels-IsSized w h back fb sized;
      some_width = some_width;
      fits = fits;
      small = small;
      blank = λ i j below. refl;
      looks = λ p q hp hq. pixel_at-clear_pixels w h back p q fb hp hq sized;
    };
    off = refl;
    wide = ap (λ (t : ℕ). t / (font.charsize >>> 1)) sized.wide;
    high = ap (λ (t : ℕ). t / font.charsize) sized.high;
    column = refl;
    row = refl;
    across = quotient_pos w (font.charsize >>> 1) some_width thin;
    down = quotient_pos h font.charsize (omega arith) fits;
  }

  -- A terminal of the size of the screen.
  abbrev show : Terminal → Cell → Terminal
  show = show_char (columns_of w font) (rows_of h font)

  show_char-Shows :
      (c : PrimitiveConsole) (t : Terminal) (chr color : ℕ)
      → Shows w h font back fore c t
      → Shows w h font back fore
          (draw_char c chr color)
          (show t (record { chr = chr; color = color }))
  show_char-Shows c t chr color shown =
      subst
        (λ (f : Font).
          Shows w h font back fore (draw_char c chr color)
            (show_char (columns_of w f) (rows_of h f) t (record { chr = chr; color = color })))
        shown.same_font (draw_char-Shows w h font back fore c t shown chr color)

  pub type_char-Shows :
      (c : PrimitiveConsole) (t : Terminal) (chr color : ℕ)
      → Shows w h font back fore c t
      → Shows w h font back fore
          (write_char c chr color)
          (type_char (columns_of w font) (rows_of h font) t chr color)
  unfolding type_char write_char for_range
  type_char-Shows c t chr color shown = elim (Bool-cases (chr == b'\n')) [
    | inl feed ↦ rw feed (
        subst
          (λ (f : Font).
            Shows w h font back fore (new_line c 1) (line_feed (columns_of w f) (rows_of h f) t))
          shown.same_font (line_feed-Shows w h font back fore c t shown))
    | inr no_feed ↦ elim (Bool-cases (chr == 0x08)) [
      | inl step ↦
          rw (no_feed, step)
            (subst
              (λ (f : Font).
                Shows w h font back fore (backspace c 1 false)
                  (step_back (columns_of w f) (rows_of h f) t))
              shown.same_font (step_back-Shows w h font back fore c t shown))
      | inr no_step ↦ elim (Bool-cases (chr == 0)) [
        | inl end ↦ rw (no_feed, no_step, end) shown
        | inr no_end ↦ elim (Bool-cases (chr == b'\t')) [
          | inl tab ↦
              let space : Cell = record { chr = 0x20; color = color } in
              let draw : PrimitiveConsole → PrimitiveConsole = λ d. draw_char d 0x20 color in
              rw (no_feed, no_step, no_end, tab)
                (show_char-Shows (draw (draw (draw c))) (show (show (show t space) space) space)
                  0x20 color
                  (show_char-Shows (draw (draw c)) (show (show t space) space) 0x20 color (
                    show_char-Shows (draw c) (show t space) 0x20 color
                      (show_char-Shows c t 0x20 color shown))))
          | inr no_tab ↦ rw (no_feed, no_step, no_end, no_tab) (show_char-Shows c t chr color shown)
        ]
      ]
    ]
  ]

  -- Whatever text is written to a console whose cursor is switched off, with line feeds, tabs and
  -- backspaces, the frame buffer shows what the grid of characters says: every pixel of every cell,
  -- the scrolled lines included, and the cursor is where the next character of the grid goes. The
  -- font is at least two pixels high and not higher than the screen, whose sides fit in 32 bits.
  pub write-Shows :
      (c : PrimitiveConsole) (t : Terminal) (str : List ℕ) (color : ℕ)
      → Shows w h font back fore c t
      → Shows w h font back fore
          (write c str color)
          (type_text (columns_of w font) (rows_of h font) t str color)
  unfolding write type_text
  write-Shows c t [] color shown = shown
  write-Shows c t (chr ∷ str) color shown =
      write-Shows (write_char c chr color)
        (type_char (columns_of w font) (rows_of h font) t chr color) str color
        (type_char-Shows c t chr color shown)
