-- ===== src/Heap/Chain.antt =====
-- What each step of `CombineForward` and `Split` leaves at an address.
use waifu_os.Prelude.{
  ℕ, ◌<◌, ◌≡◌, refl, ◌≢◌, inl, inr, false, arith, ◌==◌, ==_iff, Bool-cases, length, add64,
}
use waifu_os.Heap.{
  SegmentHeader, header_size, PageMapper, Heap, update, absorb, move_last, link_back, link_on,
  new_segment, shorten,
}

module _ (mapper : PageMapper) (h : Heap mapper) (this other : ℕ) where
  pub update_here :
      (change : SegmentHeader → SegmentHeader)
      → (update mapper h this change).memory this ≡ change (h.memory this)
  update_here change = rw ((==_iff this this).1 refl) refl

  pub update_there :
      (q : ℕ) (change : SegmentHeader → SegmentHeader)
      → q ≢ this
      → (update mapper h this change).memory q ≡ h.memory q
  update_there q change ne = let off : (q == this) ≡ false = ground arith in rw off refl

  pub move_last-memory : (q : ℕ) → (move_last mapper h this other).memory q ≡ h.memory q
  unfolding move_last
  move_last-memory q = elim (Bool-cases (other == h.last_segment)) [
    | inl last ↦ rw last refl
    | inr inner ↦ rw inner refl
  ]

  pub absorb-here : (absorb mapper h this other).memory this ≡ record (h.memory this) {
    segment_length =
        add64 (h.memory this).segment_length (add64 (h.memory other).segment_length header_size);
  }
  unfolding absorb
  absorb-here = rw ((==_iff this this).1 refl) refl

  pub absorb-there : (q : ℕ) → q ≢ this → (absorb mapper h this other).memory q ≡ h.memory q
  unfolding absorb
  absorb-there q ne = let off : (q == this) ≡ false = ground arith in rw off refl

  pub link_back-here :
      0 < other
      → (link_back mapper h this other).memory other ≡ record (h.memory other) { previous = this }
  unfolding link_back
  link_back-here some_segment =
      let there : (other == 0) ≡ false = ground arith in
      rw (there, (==_iff other other).1 refl) refl

  pub link_back-there : (q : ℕ) → q ≢ other → (link_back mapper h this other).memory q ≡ h.memory q
  unfolding link_back
  link_back-there q ne = elim (Bool-cases (other == 0)) [
    | inl nothing ↦ rw nothing refl
    | inr something ↦ let off : (q == other) ≡ false = ground arith in rw (something, off) refl
  ]

  pub link_on-here :
      (link_on mapper h this other).memory this ≡ record (h.memory this) { next = other }
  unfolding link_on
  link_on-here = rw ((==_iff this this).1 refl) refl

  pub link_on-there : (q : ℕ) → q ≢ this → (link_on mapper h this other).memory q ≡ h.memory q
  unfolding link_on
  link_on-there q ne = let off : (q == this) ≡ false = ground arith in rw off refl

  pub new_segment-here :
      (length : ℕ)
      → (new_segment mapper h this other length).memory other ≡ record (h.memory other) {
        previous = this;
        segment_length = length;
        is_free = (h.memory this).is_free;
      }
  unfolding new_segment
  new_segment-here length = rw ((==_iff other other).1 refl) refl

  pub new_segment-there :
      (length q : ℕ) → q ≢ other → (new_segment mapper h this other length).memory q ≡ h.memory q
  unfolding new_segment
  new_segment-there length q ne = let off : (q == other) ≡ false = ground arith in rw off refl

  pub shorten-here :
      (shorten mapper h this other).memory this ≡ record (h.memory this) { segment_length = other }
  unfolding shorten
  shorten-here = rw ((==_iff this this).1 refl) refl

  pub shorten-there : (q : ℕ) → q ≢ this → (shorten mapper h this other).memory q ≡ h.memory q
  unfolding shorten
  shorten-there q ne = let off : (q == this) ≡ false = ground arith in rw off refl
