-- ===== src/Heap/Kept.antt =====
-- What `CombineForward` and `Split` make of the end of the heap and of `LastSegment`.
use waifu_os.Prelude.{
  ℕ, ◌≡◌, refl, ap, ◌∙◌, inl, inr, Bool, true, false, not, ◌&&◌, ◌==◌, if◌then◌else◌, Bool-cases,
  add64,
}
use waifu_os.Heap.{
  header_size, PageMapper, Heap, when, absorb, move_last, link_back, link_on, combine_forward,
  combine_backward, new_segment, shorten, split_segment,
}

module _ (mapper : PageMapper) where
  -- The fields that no joining and no cut changes.
  pub record Touches (h g : Heap mapper) : Type 0 where
    pub base : g.heap_base ≡ h.heap_base
    pub end_at : g.heap_end ≡ h.heap_end
    pub pages : g.pages ≡ h.pages

  pub Touches-refl : (h : Heap mapper) → Touches h h
  Touches-refl h = record { base = refl; end_at = refl; pages = refl }

  -- `if (test) LastSegment = x`
  when-Touches :
      (h : Heap mapper) (test : Bool) (x : ℕ)
      → Touches h (when mapper test (λ g. record g { last_segment = x }) h)
        × ((when mapper test (λ g. record g { last_segment = x }) h).last_segment
            ≡ (if test then x else h.last_segment))
  when-Touches h true x = (record { base = refl; end_at = refl; pages = refl }, refl)
  when-Touches h false x = (record { base = refl; end_at = refl; pages = refl }, refl)

  move_last-Touches :
      (h : Heap mapper) (this next : ℕ)
      → Touches h (move_last mapper h this next)
        × ((move_last mapper h this next).last_segment
            ≡ (if next == h.last_segment then this else h.last_segment))
  unfolding move_last
  move_last-Touches h this next = when-Touches h (next == h.last_segment) this

  link_back-Touches :
      (h : Heap mapper) (this after : ℕ)
      → Touches h (link_back mapper h this after)
        × ((link_back mapper h this after).last_segment ≡ h.last_segment)
  unfolding link_back
  link_back-Touches h this after = elim (Bool-cases (after == 0)) [
    | inl nothing ↦ rw nothing (Touches-refl h, refl)
    | inr something ↦ rw something (record { base = refl; end_at = refl; pages = refl }, refl)
  ]

  -- A free segment behind `seg` is joined: `seg` is the last one if that one was.
  pub combine_forward-Touches :
      (h : Heap mapper) (seg : ℕ)
      → ((h.memory seg).next == 0) ≡ false
      → (h.memory (h.memory seg).next).is_free ≡ true
      → Touches h (combine_forward mapper h seg)
        × ((combine_forward mapper h seg).last_segment
            ≡ (if (h.memory seg).next == h.last_segment then seg else h.last_segment))
  unfolding combine_forward absorb link_on
  combine_forward-Touches h seg there free =
      let next = (h.memory seg).next in
      let h1 = absorb mapper h seg next in
      let h2 = move_last mapper h1 seg next in
      let t = move_last-Touches h1 seg next in
      let u = link_back-Touches h2 seg (h2.memory next).next in
      rw (there, free)
        (
          record {
            base = u.0.base ∙ t.0.base;
            end_at = u.0.end_at ∙ t.0.end_at;
            pages = u.0.pages ∙ t.0.pages;
          },
          u.1 ∙ t.1,
        )

  pub combine_forward-kept : (h : Heap mapper) (seg : ℕ) → Touches h (combine_forward mapper h seg)
  unfolding combine_forward
  combine_forward-kept h seg = elim (Bool-cases ((h.memory seg).next == 0)) [
    | inl nothing ↦ rw (nothing) (Touches-refl h)
    | inr something ↦ elim (Bool-cases ((h.memory (h.memory seg).next).is_free)) [
      | inl idle ↦ (combine_forward-Touches h seg something idle).0
      | inr busy ↦ rw (something, busy) (Touches-refl h)
    ]
  ]

  pub combine_backward-kept :
      (h : Heap mapper) (seg : ℕ) → Touches h (combine_backward mapper h seg)
  unfolding combine_backward
  combine_backward-kept h seg =
      let previous = (h.memory seg).previous in
      elim (Bool-cases (not (previous == 0) && (h.memory previous).is_free)) [
        | inl joins ↦ rw (joins) (combine_forward-kept h previous)
        | inr stays ↦ rw (stays) (Touches-refl h)
      ]

  -- A cut leaves `LastSegment` at the part behind, if the segment was the last one.
  pub split_segment-Touches :
      (h : Heap mapper) (seg size rest : ℕ)
      → Touches h (split_segment mapper h seg size rest)
        × ((split_segment mapper h seg size rest).last_segment ≡ (
            if h.last_segment == seg then add64 (add64 seg size) header_size else h.last_segment))
  unfolding split_segment link_on new_segment shorten
  split_segment-Touches h seg size rest =
      let new = add64 (add64 seg size) header_size in
      let h1 = link_back mapper h new (h.memory seg).next in
      let t = link_back-Touches h new (h.memory seg).next in
      let h2 = link_on mapper h1 new (h1.memory seg).next in
      let h3 = link_on mapper h2 seg new in
      let h5 = shorten mapper (new_segment mapper h3 seg new rest) seg size in
      let u = when-Touches h5 (h5.last_segment == seg) new in
      (
        record {
          base = u.0.base ∙ t.0.base;
          end_at = u.0.end_at ∙ t.0.end_at;
          pages = u.0.pages ∙ t.0.pages;
        },
        u.1 ∙ ap (λ (x : ℕ). if x == seg then new else x) t.1,
      )
