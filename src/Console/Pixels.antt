-- ===== src/Console/Pixels.antt =====
-- Kernel/src/PrimitiveConsole.cpp, the part that touches the frame buffer: WritePixel, ReadPixel,
-- PutChar, ScrollDown and Clear. `int64` values are given by their 64 bits.
use waifu_os.Prelude.{
  ℕ, ◌+◌, ◌-◌, ◌*◌, ◌%◌, ◌^◌, bit_and, Bool, not, ◌&&◌, ◌||◌, ltb, leb, ◌==◌, if◌then◌else◌, u32,
  add64, sub64, mul64, ◌>>>◌,
}
use waifu_os.Prelude.Loops.{for_range}

-- `FrameBuffer`; `pixel i` is the `Color32` with the index `i` behind `BaseAddress`.
pub record FrameBuffer : Type 0 where
  pub height : ℕ
  pub pixels_per_scanline : ℕ
  pub pixel : ℕ → ℕ

-- `Font` with its header; `glyph` is the memory behind `GlyphBuffer`, by the 64-bit offset.
pub record Font : Type 0 where
  pub charsize : ℕ
  pub glyph : ℕ → ℕ

-- `x < 0` and `a < b` on `int64`.
abbrev pub below_zero : ℕ → Bool
below_zero x = leb (2 ^ 63) x

abbrev pub less64 : ℕ → ℕ → Bool
less64 a b = ltb ((a + 2 ^ 63) % 2 ^ 64) ((b + 2 ^ 63) % 2 ^ 64)

abbrev pub poke : (ℕ → ℕ) → ℕ → ℕ → ℕ → ℕ
poke memory index value i = if i == index then value else memory i

-- `WritePixel`
unfoldable pub write_pixel : FrameBuffer → ℕ → ℕ → ℕ → FrameBuffer
write_pixel fb x y color =
    if not (less64 x fb.pixels_per_scanline) || below_zero x
    then fb
    else if not (less64 y fb.height) || below_zero y
    then fb
    else record fb { pixel = poke fb.pixel (add64 x (mul64 y fb.pixels_per_scanline)) color }

-- `Color::Black`
abbrev pub black : ℕ
black = 0xFF000000

-- `ReadPixel`
unfoldable pub read_pixel : FrameBuffer → ℕ → ℕ → ℕ
read_pixel fb x y =
    if not (less64 x fb.pixels_per_scanline) || below_zero x
    then black
    else if not (less64 y fb.height) || below_zero y
    then black
    else fb.pixel (add64 x (mul64 y fb.pixels_per_scanline))

-- `((*fontPtr) & (0b10000000 >> k)) > 0`
abbrev pub glyph_bit : ℕ → ℕ → Bool
glyph_bit bits k = not (bit_and bits (0b10000000 >>> k) == 0)

-- One round of the inner loop of `PutChar`: the background, then the pixel of the glyph.
unfoldable pub put_pixel : ℕ → ℕ → ℕ → ℕ → ℕ → ℕ → FrameBuffer → FrameBuffer
put_pixel bits color back x0 y x fb =
    let blank = write_pixel fb x y back in
    if glyph_bit bits (sub64 x x0) then write_pixel blank x y color else blank

-- The inner loop of `PutChar`.
unfoldable pub put_row : ℕ → ℕ → ℕ → ℕ → ℕ → ℕ → FrameBuffer → FrameBuffer
put_row columns bits color back x0 y fb = for_range columns x0 (put_pixel bits color back x0 y) fb

-- A `char` as an index is signed.
abbrev pub sign_extend : ℕ → ℕ
sign_extend chr = if ltb chr 0x80 then chr else chr + 2 ^ 64 - 0x100

-- `GlyphBuffer + (chr * charsize)`, and then `fontPtr++` once for each row.
abbrev pub glyph_row : Font → ℕ → ℕ → ℕ
glyph_row font chr row = font.glyph (add64 (mul64 (sign_extend chr) font.charsize) row)

-- `PutChar`; `xOff` and `yOff` are `uint`.
unfoldable pub put_char : FrameBuffer → Font → ℕ → ℕ → ℕ → ℕ → ℕ → FrameBuffer
put_char fb font chr color back x_off y_off =
    let x0 = mul64 (u32 x_off) (font.charsize >>> 1) in
    let y0 = mul64 (u32 y_off) font.charsize in
    for_range font.charsize y0
      (λ y. put_row (font.charsize >>> 1) (glyph_row font chr (sub64 y y0)) color back x0 y) fb

-- `memcpy` of one line of pixels onto another.
unfoldable pub copy_line : ℕ → ℕ → FrameBuffer → FrameBuffer
copy_line to from fb = record fb {
  pixel = λ i.
      let start = to * fb.pixels_per_scanline in
      if leb start i && ltb i (start + fb.pixels_per_scanline)
      then fb.pixel (i - start + from * fb.pixels_per_scanline)
      else fb.pixel i;
}

-- `memset64` of one line of pixels.
unfoldable pub fill_line : ℕ → ℕ → FrameBuffer → FrameBuffer
fill_line color line fb = record fb {
  pixel = λ i.
      let start = line * fb.pixels_per_scanline in
      if leb start i && ltb i (start + fb.pixels_per_scanline) then color else fb.pixel i;
}

-- `ScrollDown()`: the lines of pixels move up by the height of a character.
unfoldable pub scroll_pixels : Font → ℕ → FrameBuffer → FrameBuffer
scroll_pixels font back fb =
    let kept = sub64 fb.height font.charsize in
    let moved = for_range kept 0 (λ line. copy_line line (line + font.charsize)) fb in
    for_range (fb.height - kept) kept (fill_line back) moved

-- The loop of `Clear`.
unfoldable pub clear_pixels : ℕ → FrameBuffer → FrameBuffer
clear_pixels color fb = for_range fb.height 0 (fill_line color) fb
