-- ===== src/Console/Lines.antt =====
-- What scrolling and clearing leave at one place of the frame buffer.
use waifu_os.Prelude.{
  ℕ, zero, suc, ◌+◌, ◌-◌, ◌*◌, ◌≤◌, ◌<◌, ◌≡◌, refl, ap, ◌∙◌, inl, inr, true, false, not, ◌&&◌,
  arith, ltb, leb, ◌==◌, if◌then◌else◌, ==_iff, Bool-cases, sub64,
}
use waifu_os.Prelude.Loops.{for_range, for_range_inv}
use waifu_os.Console.Pixels.{FrameBuffer, Font, copy_line, fill_line, scroll_pixels, clear_pixels}
use waifu_os.Console.Rounds.{for_range-once}
use waifu_os.Console.Frame.{pixel_at, IsSized, line_end}

-- The index of a pixel lies in a line of the frame exactly if its line is that one.
pub line_test :
    (w p q y : ℕ) → p < w → (leb (y * w) (p + q * w) && ltb (p + q * w) (y * w + w)) ≡ (y == q)
line_test w p q y hp = elim (Bool-cases (y == q)) [
  | inl same ↦ ground (arith, ap (λ (t : ℕ). t * w) ((==_iff y q).0 same))
  | inr other ↦
      let above : q < y → q * w + w ≤ y * w = line_end q y w in
      let below : y < q → y * w + w ≤ q * w = line_end y q w in ground (arith, above, below)
]

module _ (w h : ℕ) where
  copy_line-IsSized :
      (to from : ℕ) (fb : FrameBuffer) → IsSized w h fb → IsSized w h (copy_line to from fb)
  unfolding copy_line
  copy_line-IsSized to from fb sized = ground arith

  fill_line-IsSized :
      (color line : ℕ) (fb : FrameBuffer) → IsSized w h fb → IsSized w h (fill_line color line fb)
  unfolding fill_line
  fill_line-IsSized color line fb sized = ground arith

  pixel_at-copy_line :
      (to from p q : ℕ) (fb : FrameBuffer)
      → p < w
      → IsSized w h fb
      → pixel_at w (copy_line to from fb) p q
        ≡ (if to == q then pixel_at w fb p from else pixel_at w fb p q)
  unfolding copy_line
  pixel_at-copy_line to from p q fb hp sized =
      rw (sized.wide, line_test w p q to hp)
        (elim (Bool-cases (to == q)) [
          | inl same ↦
              let index : p + q * w - to * w + from * w ≡ p + from * w =
                omega (arith, ap (λ (t : ℕ). t * w) ((==_iff to q).0 same)) in
              rw (same, index) refl
          | inr other ↦ rw other refl
        ])

  pixel_at-fill_line :
      (color line p q : ℕ) (fb : FrameBuffer)
      → p < w
      → IsSized w h fb
      → pixel_at w (fill_line color line fb) p q ≡ (if line == q then color else pixel_at w fb p q)
  unfolding fill_line
  pixel_at-fill_line color line p q fb hp sized = rw (sized.wide, line_test w p q line hp) refl

  copy_loop :
      (shift p q rounds first : ℕ) (fb : FrameBuffer)
      → p < w
      → 0 < shift
      → IsSized w h fb
      → pixel_at w (for_range rounds first (λ line. copy_line line (line + shift)) fb) p q ≡ (
          if leb first q && ltb q (first + rounds)
          then pixel_at w fb p (q + shift)
          else pixel_at w fb p q)
  unfolding for_range
  copy_loop shift p q zero first fb hp up sized =
      let out : (leb first q && ltb q (first + 0)) ≡ false = ground arith in rw out refl
  copy_loop shift p q (suc rounds) first fb hp up sized =
      copy_loop shift p q rounds (first + 1) (copy_line first (first + shift) fb) hp up
        (copy_line-IsSized first (first + shift) fb sized)
      ∙ rw
          (
            pixel_at-copy_line first (first + shift) p (q + shift) fb hp sized,
            pixel_at-copy_line first (first + shift) p q fb hp sized,
          )
          (elim (Bool-cases (first == q)) [
            | inl same ↦ let e : first ≡ q = (==_iff first q).0 same in rw e (ground arith)
            | inr other ↦ ground arith
          ])

  copy_loop-IsSized :
      (shift rounds first : ℕ) (fb : FrameBuffer)
      → IsSized w h fb
      → IsSized w h (for_range rounds first (λ line. copy_line line (line + shift)) fb)
  copy_loop-IsSized shift rounds first fb sized =
      for_range_inv (IsSized w h) (λ line. copy_line line (line + shift))
        (λ line s. copy_line-IsSized line (line + shift) s) rounds first fb sized

  fill_loop-IsSized :
      (color rounds first : ℕ) (fb : FrameBuffer)
      → IsSized w h fb
      → IsSized w h (for_range rounds first (fill_line color) fb)
  fill_loop-IsSized color rounds first fb sized =
      for_range_inv (IsSized w h) (fill_line color) (fill_line-IsSized color) rounds first fb sized

  fill_loop :
      (color p q rounds first : ℕ) (fb : FrameBuffer)
      → p < w
      → IsSized w h fb
      → pixel_at w (for_range rounds first (fill_line color) fb) p q
        ≡ (if leb first q && ltb q (first + rounds) then color else pixel_at w fb p q)
  fill_loop color p q rounds first fb hp sized =
      for_range-once (IsSized w h) (λ s. pixel_at w s p q) q color (fill_line color)
        (fill_line-IsSized color)
        (λ s on.
          let here : (q == q) ≡ true = ground arith in
          pixel_at-fill_line color q p q s hp on ∙ rw here refl)
        (λ line s on other. pixel_at-fill_line color line p q s hp on ∙ rw other refl) rounds first
        fb sized

  pub scroll_pixels-IsSized :
      (font : Font) (back : ℕ) (fb : FrameBuffer)
      → IsSized w h fb
      → IsSized w h (scroll_pixels font back fb)
  unfolding scroll_pixels
  scroll_pixels-IsSized font back fb sized =
      let kept = sub64 fb.height font.charsize in
      fill_loop-IsSized back (fb.height - kept) kept _
        (copy_loop-IsSized font.charsize kept 0 fb sized)

  -- `ScrollDown` moves the lines up by the height of a character and clears the last ones.
  pub pixel_at-scroll_pixels :
      (font : Font) (back p q : ℕ) (fb : FrameBuffer)
      → p < w
      → q < h
      → 0 < font.charsize
      → font.charsize ≤ h
      → IsSized w h fb
      → pixel_at w (scroll_pixels font back fb) p q
        ≡ (if ltb q (h - font.charsize) then pixel_at w fb p (q + font.charsize) else back)
  unfolding scroll_pixels
  pixel_at-scroll_pixels font back p q fb hp hq some_size fits sized =
      let kept = sub64 fb.height font.charsize in
      let left : kept ≡ h - font.charsize = omega arith in
      let last : (leb kept q && ltb q (kept + (fb.height - kept)))
          ≡ not (ltb q (h - font.charsize)) =
        ground arith in
      let early : (leb 0 q && ltb q (0 + kept)) ≡ ltb q (h - font.charsize) = ground arith in
      fill_loop back p q (fb.height - kept) kept _ hp
        (copy_loop-IsSized font.charsize kept 0 fb sized)
      ∙ rw (last, copy_loop font.charsize p q kept 0 fb hp some_size sized, early) (ground arith)

  pub clear_pixels-IsSized :
      (color : ℕ) (fb : FrameBuffer) → IsSized w h fb → IsSized w h (clear_pixels color fb)
  unfolding clear_pixels
  clear_pixels-IsSized color fb sized = fill_loop-IsSized color fb.height 0 fb sized

  pub pixel_at-clear_pixels :
      (color p q : ℕ) (fb : FrameBuffer)
      → p < w
      → q < h
      → IsSized w h fb
      → pixel_at w (clear_pixels color fb) p q ≡ color
  unfolding clear_pixels
  pixel_at-clear_pixels color p q fb hp hq sized =
      let all : (leb 0 q && ltb q (0 + fb.height)) ≡ true = ground arith in
      fill_loop color p q fb.height 0 fb hp sized ∙ rw all refl
