-- ===== src/Console/Frame.antt =====
-- What the loops over pixels leave at one place of the frame buffer.
use waifu_os.Prelude.{
  ℕ, ◌+◌, ◌*◌, ◌^◌, ◌≤◌, ◌<◌, ◌≡◌, refl, ap, ◌∙◌, inl, inr, Bool, true, false, not, ◌&&◌, ◌||◌,
  arith, ltb, leb, ◌==◌, if◌then◌else◌, ==_iff, Bool-cases, set, u32, add64, sub64, mul64, ◌>>>◌,
}
use waifu_os.Prelude.Loops.{for_range_inv}
use waifu_os.Console.Place.{if-both}
use waifu_os.Console.Rounds.{for_range-if, at_key}
use waifu_os.Console.Pixels.{
  FrameBuffer, Font, below_zero, less64, poke, write_pixel, glyph_bit, put_pixel, put_row,
  glyph_row, put_char,
}

-- The pixel in column p of line q, on lines of the given width.
abbrev pub pixel_at : ℕ → FrameBuffer → ℕ → ℕ → ℕ
pixel_at w fb p q = fb.pixel (p + q * w)

-- The size of a frame, whose sides fit in 32 bits.
pub record IsSized (w h : ℕ) (fb : FrameBuffer) : Type 0 where
  pub narrow : w < 2 ^ 32
  pub low : h < 2 ^ 32
  pub wide : fb.pixels_per_scanline ≡ w
  pub high : fb.height ≡ h

pub line_end : (q y w : ℕ) → q < y → q * w + w ≤ y * w
line_end q y w h = grind arith

-- Two places on the lines of a frame have the same index only if they are the same.
index_injective : (w p q x y : ℕ) → p < w → x < w → p + q * w ≡ x + y * w → (p ≡ x) × (q ≡ y)
index_injective w p q x y hp hx e =
    let not_above : ¬ (q < y) = λ h. omega (arith, line_end q y w h) in
    let not_below : ¬ (y < q) = λ h. omega (arith, line_end y q w h) in
    let same : q ≡ y = omega (arith, not_above, not_below) in
    (omega (arith, ap (λ (t : ℕ). t * w) same), same)

index_test : (w p q x y : ℕ) → p < w → x < w → ((p + q * w) == (x + y * w)) ≡ ((x == p) && (y == q))
index_test w p q x y hp hx = elim (Bool-cases ((p + q * w) == (x + y * w))) [
  | inl same ↦
      let e = index_injective w p q x y hp hx ((==_iff (p + q * w) (x + y * w)).0 same) in
      rw same (ground arith)
  | inr other ↦
      let apart : ¬ ((p ≡ x) × (q ≡ y)) =
        λ e. ground (arith, ap (λ (t : ℕ). t * w) e.1, e.0, other) in
      rw other (ground arith)
]

swap_tests : (a b : Bool) (x y : ℕ) → (if a && b then x else y) ≡ (if b && a then x else y)
swap_tests true b x y = ground arith
swap_tests false b x y = ground arith

index_bound : (w h x y : ℕ) → w < 2 ^ 32 → h < 2 ^ 32 → x < w → y < h → x + y * w < 2 ^ 64
index_bound w h x y hw hh hx hy = grind arith

-- The colour of a pixel of a row of a glyph.
abbrev pub ink : ℕ → ℕ → ℕ → ℕ → ℕ
ink bits color back k = if glyph_bit bits k then color else back

-- The colour that `PutChar` gives to the pixel p, q of a cell that begins at x0, y0.
abbrev pub glyph_ink : Font → ℕ → ℕ → ℕ → ℕ → ℕ → ℕ
glyph_ink font chr color back column row = ink (glyph_row font chr row) color back column

module _ (w h : ℕ) where
  write_pixel-IsSized :
      (fb : FrameBuffer) (x y color : ℕ) → IsSized w h fb → IsSized w h (write_pixel fb x y color)
  unfolding write_pixel
  write_pixel-IsSized fb x y color sized = ground arith

  write_pixel_index :
      (fb : FrameBuffer) (x y : ℕ)
      → IsSized w h fb
      → x < w
      → y < h
      → add64 x (mul64 y fb.pixels_per_scanline) ≡ x + y * w
  write_pixel_index fb x y sized hx hy =
      let bound = index_bound w h x y sized.narrow sized.low hx hy in
      let line : y * fb.pixels_per_scanline ≡ y * w = ap (λ (t : ℕ). y * t) sized.wide in
      omega arith

  write_pixel_inside :
      (fb : FrameBuffer) (x y color : ℕ)
      → IsSized w h fb
      → x < w
      → y < h
      → write_pixel fb x y color ≡ record fb { pixel = poke fb.pixel (x + y * w) color }
  unfolding write_pixel
  write_pixel_inside fb x y color sized hx hy =
      let right : (not (less64 x fb.pixels_per_scanline) || below_zero x) ≡ false = ground arith in
      let below : (not (less64 y fb.height) || below_zero y) ≡ false = ground arith in
      let index = write_pixel_index fb x y sized hx hy in rw (right, below, index) refl

  write_pixel_outside :
      (fb : FrameBuffer) (x y color : ℕ)
      → IsSized w h fb
      → (ltb x w && ltb y h) ≡ false
      → write_pixel fb x y color ≡ fb
  unfolding write_pixel
  write_pixel_outside fb x y color sized out = ground arith

  -- `WritePixel` writes the pixel at its place and no other.
  pixel_at-write_pixel :
      (fb : FrameBuffer) (x y color p q : ℕ)
      → p < w
      → q < h
      → IsSized w h fb
      → pixel_at w (write_pixel fb x y color) p q
        ≡ (if (x == p) && (y == q) then color else pixel_at w fb p q)
  pixel_at-write_pixel fb x y color p q hp hq sized = elim (Bool-cases (ltb x w && ltb y h)) [
    | inl inside ↦
        let hx : x < w = ground arith in
        let hy : y < h = ground arith in
        rw (write_pixel_inside fb x y color sized hx hy, index_test w p q x y hp hx) refl
    | inr outside ↦
        let other : ((x == p) && (y == q)) ≡ false = ground arith in
        rw (write_pixel_outside fb x y color sized outside, other) refl
  ]

  put_pixel-IsSized :
      (bits color back x0 y x : ℕ) (fb : FrameBuffer)
      → IsSized w h fb
      → IsSized w h (put_pixel bits color back x0 y x fb)
  unfolding put_pixel
  put_pixel-IsSized bits color back x0 y x fb sized =
      let blank = write_pixel-IsSized fb x y back sized in
      if-both (IsSized w h) (glyph_bit bits (sub64 x x0)) _ _
        (write_pixel-IsSized (write_pixel fb x y back) x y color blank) blank

  pixel_at-put_pixel :
      (bits color back x0 y x p q : ℕ) (fb : FrameBuffer)
      → p < w
      → q < h
      → IsSized w h fb
      → pixel_at w (put_pixel bits color back x0 y x fb) p q
        ≡ (if (x == p) && (y == q) then ink bits color back (sub64 x x0) else pixel_at w fb p q)
  unfolding put_pixel
  pixel_at-put_pixel bits color back x0 y x p q fb hp hq sized =
      elim (Bool-cases (glyph_bit bits (sub64 x x0))) [
        | inl set ↦
            let blank = write_pixel-IsSized fb x y back sized in
            rw
              (
                set,
                pixel_at-write_pixel (write_pixel fb x y back) x y color p q hp hq blank,
                pixel_at-write_pixel fb x y back p q hp hq sized,
              )
              (ground arith)
        | inr unset ↦ rw (unset, pixel_at-write_pixel fb x y back p q hp hq sized) refl
      ]

  put_row-IsSized :
      (columns bits color back x0 y : ℕ) (fb : FrameBuffer)
      → IsSized w h fb
      → IsSized w h (put_row columns bits color back x0 y fb)
  unfolding put_row
  put_row-IsSized columns bits color back x0 y fb sized =
      for_range_inv (IsSized w h) (put_pixel bits color back x0 y)
        (λ x s. put_pixel-IsSized bits color back x0 y x s) columns x0 fb sized

  pixel_at-put_row :
      (columns bits color back x0 y p q : ℕ) (fb : FrameBuffer)
      → p < w
      → q < h
      → IsSized w h fb
      → pixel_at w (put_row columns bits color back x0 y fb) p q ≡ (
          if (leb x0 p && ltb p (x0 + columns)) && (y == q)
          then ink bits color back (sub64 p x0)
          else pixel_at w fb p q)
  unfolding put_row
  pixel_at-put_row columns bits color back x0 y p q fb hp hq sized =
      for_range-if (IsSized w h) (λ s. pixel_at w s p q) p (y == q)
        (ink bits color back (sub64 p x0)) (put_pixel bits color back x0 y)
        (λ x s. put_pixel-IsSized bits color back x0 y x s)
        (λ x s on.
          pixel_at-put_pixel bits color back x0 y x p q s hp hq on
          ∙ at_key (λ k. ink bits color back (sub64 k x0)) x p (y == q) (pixel_at w s p q))
        columns x0 fb sized

  pub put_char-IsSized :
      (fb : FrameBuffer) (font : Font) (chr color back x_off y_off : ℕ)
      → IsSized w h fb
      → IsSized w h (put_char fb font chr color back x_off y_off)
  unfolding put_char
  put_char-IsSized fb font chr color back x_off y_off sized =
      let x0 = mul64 (u32 x_off) (font.charsize >>> 1) in
      let y0 = mul64 (u32 y_off) font.charsize in
      for_range_inv (IsSized w h)
        (λ y. put_row (font.charsize >>> 1) (glyph_row font chr (sub64 y y0)) color back x0 y)
        (λ y s.
          put_row-IsSized (font.charsize >>> 1) (glyph_row font chr (sub64 y y0)) color back x0 y s)
        font.charsize y0 fb sized

  -- `PutChar` draws the cell of the character and nothing else.
  pub pixel_at-put_char :
      (fb : FrameBuffer) (font : Font) (chr color back x_off y_off p q : ℕ)
      → p < w
      → q < h
      → IsSized w h fb
      → let x0 = mul64 (u32 x_off) (font.charsize >>> 1) in
        let y0 = mul64 (u32 y_off) font.charsize in
        pixel_at w (put_char fb font chr color back x_off y_off) p q ≡ (
          if (leb y0 q && ltb q (y0 + font.charsize))
            && (leb x0 p && ltb p (x0 + (font.charsize >>> 1)))
          then glyph_ink font chr color back (sub64 p x0) (sub64 q y0)
          else pixel_at w fb p q)
  unfolding put_char
  pixel_at-put_char fb font chr color back x_off y_off p q hp hq sized =
      let x0 = mul64 (u32 x_off) (font.charsize >>> 1) in
      let y0 = mul64 (u32 y_off) font.charsize in
      let across = leb x0 p && ltb p (x0 + (font.charsize >>> 1)) in
      for_range-if (IsSized w h) (λ s. pixel_at w s p q) q across
        (glyph_ink font chr color back (sub64 p x0) (sub64 q y0))
        (λ y. put_row (font.charsize >>> 1) (glyph_row font chr (sub64 y y0)) color back x0 y)
        (λ y s.
          put_row-IsSized (font.charsize >>> 1) (glyph_row font chr (sub64 y y0)) color back x0 y s)
        (λ y s on.
          pixel_at-put_row (font.charsize >>> 1) (glyph_row font chr (sub64 y y0)) color back x0 y p
            q s hp hq on
          ∙ swap_tests across (y == q) _ _
          ∙ at_key (λ k. glyph_ink font chr color back (sub64 p x0) (sub64 k y0)) y q across
              (pixel_at w s p q))
        font.charsize y0 fb sized
