-- ===== src/ArrayList/Removal.antt =====
-- Taking an item out of the array: those behind it move up by one place.
use waifu_os.Prelude.{
  ℕ, zero, suc, ◌+◌, ◌-◌, ◌≤◌, ◌<◌, ◌≡◌, refl, sym, ◌∙◌, inl, inr, true, false, ◌&&◌, Option, none,
  some, List, [], ◌∷◌, ◌++◌, arith, ltb, leb, ◌==◌, if◌then◌else◌, ==_iff, Bool-cases, take, drop,
  add64, ◌^◌,
}
use waifu_os.ArrayList.{ArrayList, one_less, put, shift_loop, remove_at, get}
use waifu_os.ArrayList.Contents.{
  items, contents, IsRoomy, items_agree, items-append, take-items, drop-items,
}

module _ {ℓ} {T : Type ℓ} (zero_item : T) where
  shift_loop-shifts :
      (rounds x : ℕ) (array : ℕ → T) (j : ℕ)
      → shift_loop zero_item rounds (x + 1) array j
        ≡ (if leb x j && ltb j (x + rounds) then array (j + 1) else array j)
  unfolding shift_loop
  shift_loop-shifts zero x array j =
      let out : (leb x j && ltb j (x + 0)) ≡ false = ground arith in rw out refl
  shift_loop-shifts (suc rounds) x array j =
      let before : one_less (x + 1) ≡ x = ground arith in
      rw (before, shift_loop-shifts rounds (x + 1) (put zero_item array x (array (x + 1))) j)
        (elim (Bool-cases (j == x)) [
          | inl same ↦
              let e : j ≡ x = (==_iff j x).0 same in
              let after : (leb (x + 1) x && ltb x (x + 1 + rounds)) ≡ false = ground arith in
              let now : (leb x x && ltb x (x + suc rounds)) ≡ true = ground arith in
              rw (e, after, now, (==_iff x x).1 refl) refl
          | inr other ↦
              let same_test : (leb (x + 1) j && ltb j (x + 1 + rounds))
                  ≡ (leb x j && ltb j (x + suc rounds)) =
                ground arith in
              shifted j other same_test
        ])
    where
      shifted :
          (j : ℕ)
          → (j == x) ≡ false
          → (leb (x + 1) j && ltb j (x + 1 + rounds)) ≡ (leb x j && ltb j (x + suc rounds))
          → (if leb (x + 1) j && ltb j (x + 1 + rounds)
              then put zero_item array x (array (x + 1)) (j + 1)
              else put zero_item array x (array (x + 1)) j)
            ≡ (if leb x j && ltb j (x + suc rounds) then array (j + 1) else array j)
      shifted j other same_test = elim (Bool-cases (leb x j && ltb j (x + suc rounds))) [
        | inl inside ↦
            let above : ((j + 1) == x) ≡ false = ground arith in rw (same_test, inside, above) refl
        | inr outside ↦ rw (same_test, outside, other) refl
      ]

  remove_at-count :
      (l : ArrayList T) (index : ℕ)
      → index < l.count
      → index + 1 < 2 ^ 64
      → (remove_at zero_item l index).count ≡ l.count - 1
  unfolding remove_at
  remove_at-count l index h small =
      let exact : add64 index 1 ≡ index + 1 = omega arith in
      let inside : ltb l.count (index + 1) ≡ false = ground arith in
      let less : one_less l.count ≡ l.count - 1 = ground arith in
      elim (Bool-cases ((index == 0) && (l.count == 1))) [
        | inl only ↦ rw (exact, inside, only) (ground arith)
        | inr more ↦ rw (exact, inside, more) less
      ]

  remove_at-array :
      (l : ArrayList T) (index j : ℕ)
      → index < l.count
      → index + 1 < 2 ^ 64
      → j < l.count - 1
      → (remove_at zero_item l index).array j ≡ (if leb index j then l.array (j + 1) else l.array j)
  unfolding remove_at
  remove_at-array l index j h small g =
      let exact : add64 index 1 ≡ index + 1 = omega arith in
      let inside : ltb l.count (index + 1) ≡ false = ground arith in
      let more : ((index == 0) && (l.count == 1)) ≡ false = ground arith in
      let range : (leb index j && ltb j (index + (l.count - (index + 1)))) ≡ leb index j =
        ground arith in
      rw (exact, inside, more, shift_loop-shifts (l.count - (index + 1)) index l.array j, range)
        refl

  remove_at-outside :
      (l : ArrayList T) (index : ℕ)
      → l.count ≤ index
      → index + 1 < 2 ^ 64
      → remove_at zero_item l index ≡ l
  unfolding remove_at
  remove_at-outside l index h small =
      let out : ltb l.count (add64 index 1) ≡ true = ground arith in rw out refl

  pub contents-removed :
      (l : ArrayList T) (index : ℕ)
      → index < l.count
      → index + 1 < 2 ^ 64
      → contents (remove_at zero_item l index)
        ≡ take index (contents l) ++ drop (index + 1) (contents l)
  unfolding contents
  contents-removed l index h small =
      let array' = (remove_at zero_item l index).array in
      let parts : l.count - 1 ≡ index + (l.count - (index + 1)) = omega arith in
      let at_zero : 0 + index ≡ index = omega arith in
      let at_next : 0 + (index + 1) ≡ index + 1 = omega arith in
      let front : items array' index 0 ≡ items l.array index 0 =
        items_agree array' l.array index 0 0 (λ k in_it.
          let e : 0 + k ≡ k = omega arith in
          let before : leb index k ≡ false = ground arith in
          rw (e, remove_at-array l index k h small (omega arith), before) refl) in
      let back : items array' (l.count - (index + 1)) index
          ≡ items l.array (l.count - (index + 1)) (index + 1) =
        items_agree array' l.array (l.count - (index + 1)) index (index + 1) (λ k in_it.
          let behind : leb index (index + k) ≡ true = ground arith in
          let e : index + 1 + k ≡ index + k + 1 = omega arith in
          rw (e, remove_at-array l index (index + k) h small (omega arith), behind) refl) in
      rw
        (
          remove_at-count l index h small,
          parts,
          items-append array' index (l.count - (index + 1)) 0,
          at_zero,
          front,
          back,
          take-items l.array index l.count 0 (omega arith),
          drop-items l.array (index + 1) l.count 0 (omega arith),
          at_next,
        )
        refl

  -- The array once the largest index has passed the test: the first item is in front of it.
  largest-array :
      (n j : ℕ) (array : ℕ → T)
      → j + 2 < 2 ^ 64
      → j < n
      → shift_loop zero_item (suc n) 0 array j ≡ array (j + 1)
  unfolding shift_loop
  largest-array n j array small h =
      let next : ((j + 1) == (2 ^ 64 - 1)) ≡ false = ground arith in
      let inside : (leb 0 j && ltb j (0 + n)) ≡ true = ground arith in
      shift_loop-shifts n 0 (put zero_item array (2 ^ 64 - 1) (array 0)) j ∙ rw (inside, next) refl

  remove_at-largest :
      (l : ArrayList T) (index : ℕ)
      → index + 1 ≡ 2 ^ 64
      → 0 < l.count
      → remove_at zero_item l index ≡ record l {
        array = shift_loop zero_item (suc (l.count - 1)) 0 l.array;
        count = one_less l.count;
      }
  unfolding remove_at
  remove_at-largest l index last some_left =
      let wraps : add64 index 1 ≡ 0 = omega arith in
      let passes : ltb l.count 0 ≡ false = ground arith in
      let far : ((index == 0) && (l.count == 1)) ≡ false = ground arith in
      let rounds : l.count - 0 ≡ suc (l.count - 1) = omega arith in
      rw (wraps, passes, far, rounds) refl

  contents-largest :
      (l : ArrayList T) (index : ℕ)
      → index + 1 ≡ 2 ^ 64
      → 0 < l.count
      → l.count < 2 ^ 64
      → contents (remove_at zero_item l index) ≡ drop 1 (contents l)
  unfolding contents
  contents-largest l index last some_left small =
      let less : one_less l.count ≡ l.count - 1 = ground arith in
      let at_next : 0 + 1 ≡ 1 = omega arith in
      rw (remove_at-largest l index last some_left, less)
        (items_agree (shift_loop zero_item (suc (l.count - 1)) 0 l.array) l.array (l.count - 1) 0 1
            (λ k in_it.
              let e : 0 + k ≡ k = omega arith in
              let f : 1 + k ≡ k + 1 = omega arith in
              rw (e, f) (largest-array (l.count - 1) k l.array (omega arith) in_it))
          ∙ sym (drop-items l.array 1 l.count 0 (omega arith) ∙ rw (at_next) refl))

  -- On a list of fewer than 2^64 items, for an index below 2^64 - 1, `RemoveAt` takes out the item at
  -- the index and keeps the order of the others, and changes nothing where the index is behind the last item. The index 2^64 - 1
  -- passes its test, and the first item of a list that has one is lost.
  pub contents-remove_at :
      (l : ArrayList T) (index : ℕ)
      → l.count < 2 ^ 64
      → (l.count ≤ index → index + 1 < 2 ^ 64 → remove_at zero_item l index ≡ l)
        × (index < l.count
            → index + 1 < 2 ^ 64
            → contents (remove_at zero_item l index)
              ≡ take index (contents l) ++ drop (index + 1) (contents l))
        × (index + 1 ≡ 2 ^ 64
            → 0 < l.count
            → contents (remove_at zero_item l index) ≡ drop 1 (contents l))
  contents-remove_at l index small = (
    remove_at-outside l index,
    contents-removed l index,
    λ last some_left. contents-largest l index last some_left small,
  )

  pub remove_at-IsRoomy :
      (l : ArrayList T) (index : ℕ)
      → index + 1 < 2 ^ 64
      → IsRoomy l
      → IsRoomy (remove_at zero_item l index)
  unfolding remove_at
  remove_at-IsRoomy l index small h = elim (Bool-cases (ltb l.count (add64 index 1))) [
    | inl out ↦ rw out h
    | inr inside ↦ elim (Bool-cases ((index == 0) && (l.count == 1))) [
      | inl only ↦ rw (inside, only) (omega arith)
      | inr more ↦
          let less : one_less l.count ≤ l.array_size = ground arith in rw (inside, more) less
    ]
  ]

  abbrev first_item : List T → Option T
  first_item [] = none
  first_item (item ∷ rest) = some item

  get-first_item : (l : ArrayList T) → get zero_item l 0 ≡ first_item (contents l)
  unfolding get contents items
  get-first_item l = by_count l.count l.array
    where
      by_count :
          (n : ℕ) (a : ℕ → T)
          → (if ltb n (0 + 1) then none else some (a 0)) ≡ first_item (items a n 0)
      by_count zero a = refl
      by_count (suc n) a =
          let some_left : ltb (suc n) (0 + 1) ≡ false = ground arith in rw some_left refl

  -- `Get(0)` of a list that holds items is the first of them.
  pub get_first :
      (l : ArrayList T) (item : T) (rest : List T)
      → contents l ≡ item ∷ rest
      → get zero_item l 0 ≡ some item
  get_first l item rest e = rw (get-first_item l, e) refl
