-- ===== src/Console/Looks.antt =====
-- The frame buffer against a grid of characters.
use waifu_os.Prelude.{
  ℕ, ◌+◌, ◌-◌, ◌*◌, ◌/◌, ◌%◌, ◌^◌, ◌≤◌, ◌<◌, ◌≡◌, refl, ap, ◌∙◌, inl, inr, true, false, ◌&&◌,
  Option, none, some, arith, ltb, leb, ◌==◌, ==_iff, Bool-cases, u32, sub64, mul64, ◌>>>◌,
}
use mathlib.Core.Path.{subst}
use native.Mathlib.Nat.{
  mod-lt, mul-le-mul_right, mul-le-mul_left, div-mul-le_self, add-mod_right, add-div_right,
  div-lt_iff_lt-mul,
}
use waifu_os.Console.Pixels.{FrameBuffer, Font, put_char, scroll_pixels, clear_pixels}
use waifu_os.Console.Frame.{pixel_at, IsSized, glyph_ink, put_char-IsSized, pixel_at-put_char}
use waifu_os.Console.Lines.{
  line_test, scroll_pixels-IsSized, pixel_at-scroll_pixels, clear_pixels-IsSized,
  pixel_at-clear_pixels,
}
use waifu_os.Console.Terminal.{Cell, Grid, put_cell, move_up}

-- The colour that a cell gives to one of its pixels.
abbrev pub cell_ink : Font → ℕ → Option Cell → ℕ → ℕ → ℕ
cell_ink font back none p q = back
cell_ink font back (some cell) p q = glyph_ink font cell.chr cell.color back p q

-- A frame of w by h pixels in which every pixel is that of its cell, and no cell lies below the last
-- whole row.
pub record Looks (w h : ℕ) (font : Font) (back : ℕ) (fb : FrameBuffer) (cells : Grid) : Type 0 where
  pub sized : IsSized w h fb
  pub some_width : 0 < font.charsize >>> 1
  pub fits : font.charsize ≤ h
  pub small : font.charsize < 2 ^ 8
  pub blank : (i j : ℕ) → h / font.charsize ≤ j → cells i j ≡ none
  pub looks :
      (p q : ℕ)
      → p < w
      → q < h
      → pixel_at w fb p q
        ≡ cell_ink font back
            (cells (p / (font.charsize >>> 1)) (q / font.charsize))
            (p % (font.charsize >>> 1))
            (q % font.charsize)

split_at : (d q : ℕ) → 0 < d → q % d + q / d * d ≡ q
split_at d q h = grind arith

-- A number lies in the stretch of length d that begins at y * d exactly if y is its quotient.
stretch : (d q y : ℕ) → 0 < d → (leb (y * d) q && ltb q (y * d + d)) ≡ (y == (q / d))
stretch d q y h =
    subst (λ (t : ℕ). (leb (y * d) t && ltb t (y * d + d)) ≡ (y == (q / d))) (split_at d q h)
      (line_test d (q % d) (q / d) y (mod-lt q h))

inside_stretch : (d q y : ℕ) → 0 < d → (y == (q / d)) ≡ true → q < 2 ^ 32 → sub64 q (y * d) ≡ q % d
inside_stretch d q y h same small =
    omega (arith, split_at d q h, ap (λ (t : ℕ). t * d) ((==_iff y (q / d)).0 same))

-- A place of the screen in pixels fits in 64 bits and is not cut off.
start_of : (d y n : ℕ) → 0 < d → d < 2 ^ 8 → y < n / d → n < 2 ^ 32 → mul64 (u32 y) d ≡ y * d
start_of d y n some_size small inside few =
    let line : y * d ≤ n / d * d = mul-le-mul_right d (omega arith) in
    let whole = div-mul-le_self n d in
    let self : y * 1 ≤ y * d = mul-le-mul_left y some_size in
    let cut : u32 y * d ≡ y * d = ap (λ (t : ℕ). t * d) (omega arith) in omega arith

div_next : (q h s : ℕ) → 0 < s → h ≤ q + s → h / s ≤ q / s + 1
div_next q h s some_size near =
    let twice : (q / s + 2) * s ≡ q / s * s + s + s = grind arith in
    let next : h / s < q / s + 2 =
      (div-lt_iff_lt-mul {x = h} {y = q / s + 2} some_size).1
        (omega (arith, split_at s q some_size, mod-lt q some_size, twice)) in
    omega arith

module _ (w h : ℕ) (font : Font) (back : ℕ) (fb : FrameBuffer) (cells : Grid) where
  pub put_char-Looks :
      (chr color x y : ℕ)
      → x < w / (font.charsize >>> 1)
      → y < h / font.charsize
      → Looks w h font back fb cells
      → Looks w h font back
          (put_char fb font chr color back x y)
          (put_cell cells x y (record { chr = chr; color = color }))
  put_char-Looks chr color x y hx hy l = record {
    sized = put_char-IsSized w h fb font chr color back x y l.sized;
    some_width = l.some_width;
    fits = l.fits;
    small = l.small;
    blank = λ i j below. ground (arith, l.blank i j below);
    looks = λ p q hp hq.
        let c = font.charsize >>> 1 in
        let s = font.charsize in
        pixel_at-put_char w h fb font chr color back x y p q hp hq l.sized
        ∙ rw
            (
              start_of c x w l.some_width (omega arith) hx l.sized.narrow,
              start_of s y h (omega arith) l.small hy l.sized.low,
              stretch c p x l.some_width,
              stretch s q y (omega arith),
            )
            (elim (Bool-cases ((y == (q / s)) && (x == (p / c)))) [
              | inl here ↦
                  let column : (x == (p / c)) ≡ true = ground arith in
                  let row : (y == (q / s)) ≡ true = ground arith in
                  let cell : (((p / c) == x) && ((q / s) == y)) ≡ true = ground arith in
                  rw
                    (
                      here,
                      cell,
                      inside_stretch c p x l.some_width column (omega arith),
                      inside_stretch s q y (omega arith) row (omega arith),
                    )
                    refl
              | inr away ↦
                  let cell : (((p / c) == x) && ((q / s) == y)) ≡ false = ground arith in
                  rw (away, cell) (l.looks p q hp hq)
            ]);
  }

  pub clear_pixels-Looks :
      Looks w h font back fb cells → Looks w h font back (clear_pixels back fb) (λ i j. none)
  clear_pixels-Looks l = record {
    sized = clear_pixels-IsSized w h back fb l.sized;
    some_width = l.some_width;
    fits = l.fits;
    small = l.small;
    blank = λ i j below. refl;
    looks = λ p q hp hq. pixel_at-clear_pixels w h back p q fb hp hq l.sized;
  }

  pub scroll_pixels-Looks :
      Looks w h font back fb cells
      → Looks w h font back (scroll_pixels font back fb) (move_up cells)
  scroll_pixels-Looks l = record {
    sized = scroll_pixels-IsSized w h font back fb l.sized;
    some_width = l.some_width;
    fits = l.fits;
    small = l.small;
    blank = λ i j below. l.blank i (j + 1) (omega arith);
    looks = λ p q hp hq.
        let s = font.charsize in
        pixel_at-scroll_pixels w h font back p q fb hp hq (omega arith) l.fits l.sized
        ∙ elim (Bool-cases (ltb q (h - s))) [
          | inl kept ↦ rw kept (
              l.looks p (q + s) hp (ground arith)
              ∙ rw (add-mod_right q s, add-div_right q {k = s} (omega arith)) refl)
          | inr last ↦
              let below : h / s ≤ q / s + 1 = div_next q h s (ground arith) (ground arith) in
              rw (last, l.blank (p / (s >>> 1)) (q / s + 1) below) refl
        ];
  }
