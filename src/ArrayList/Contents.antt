-- ===== src/ArrayList/Contents.antt =====
-- The list that an array holds, and what the operations do to it.
use waifu_os.Prelude.{
  ℕ, zero, suc, ◌+◌, ◌-◌, ◌≤◌, ◌<◌, ◌≡◌, refl, sym, ap, ◌∙◌, inl, inr, true, false, ◌&&◌, List, [],
  ◌∷◌, ◌++◌, arith, ltb, leb, ◌==◌, if◌then◌else◌, ==_iff, Bool-cases, length, take, drop,
}
use waifu_os.ArrayList.{ArrayList, put, copy_loop, grow, add}

-- The items from `x` on.
unfoldable pub items {ℓ} : {T : Type ℓ} → (ℕ → T) → ℕ → ℕ → List T
items array zero x = []
items array (suc rounds) x = array x ∷ items array rounds (x + 1)

unfoldable pub contents {ℓ} : {T : Type ℓ} → ArrayList T → List T
contents l = items l.array l.count 0

-- No more items than the array has places.
abbrev pub IsRoomy {ℓ} : {T : Type ℓ} → ArrayList T → Type 0
IsRoomy l = l.count ≤ l.array_size

pub length-items {ℓ} : {T : Type ℓ} (array : ℕ → T) (n x : ℕ) → length (items array n x) ≡ n
unfolding items
length-items array zero x = refl
length-items array (suc n) x = ap suc (length-items array n (x + 1))

pub items_agree {ℓ} :
    {T : Type ℓ} (a b : ℕ → T) (n x y : ℕ)
    → ((k : ℕ) → k < n → a (x + k) ≡ b (y + k))
    → items a n x ≡ items b n y
unfolding items
items_agree a b zero x y h = refl
items_agree a b (suc n) x y h =
    let first : a x ≡ b y =
      (let p : x + 0 ≡ x = omega arith in
        let q : y + 0 ≡ y = omega arith in sym (ap a p) ∙ h 0 (omega arith) ∙ ap b q) in
    rw
      (
        first,
        items_agree a b n (x + 1) (y + 1) (λ k l.
            let p : x + suc k ≡ x + 1 + k = omega arith in
            let q : y + suc k ≡ y + 1 + k = omega arith in
            sym (ap a p) ∙ h (suc k) (omega arith) ∙ ap b q),
      )
      refl

pub items-snoc {ℓ} :
    {T : Type ℓ} (a : ℕ → T) (n x : ℕ) → items a (n + 1) x ≡ items a n x ++ a (x + n) ∷ []
unfolding items
items-snoc a zero x = let e : x + 0 ≡ x = omega arith in rw e refl
items-snoc a (suc n) x =
    let e : x + suc n ≡ x + 1 + n = omega arith in
    let f : suc n + 1 ≡ suc (n + 1) = omega arith in rw (f, e, items-snoc a n (x + 1)) refl

pub items-append {ℓ} :
    {T : Type ℓ} (a : ℕ → T) (n m x : ℕ) → items a (n + m) x ≡ items a n x ++ items a m (x + n)
unfolding items
items-append a zero m x =
    let e : x + 0 ≡ x = omega arith in let f : 0 + m ≡ m = omega arith in rw (e, f) refl
items-append a (suc n) m x =
    let e : x + suc n ≡ x + 1 + n = omega arith in
    let f : suc n + m ≡ suc (n + m) = omega arith in rw (f, e, items-append a n m (x + 1)) refl

pub take-items {ℓ} :
    {T : Type ℓ} (a : ℕ → T) (i n x : ℕ) → i ≤ n → take i (items a n x) ≡ items a i x
unfolding items
take-items a zero n x h = refl
take-items a (suc i) zero x h = absurd (omega arith)
take-items a (suc i) (suc n) x h = rw (take-items a i n (x + 1) (omega arith)) refl

pub drop-items {ℓ} :
    {T : Type ℓ} (a : ℕ → T) (i n x : ℕ) → i ≤ n → drop i (items a n x) ≡ items a (n - i) (x + i)
unfolding items
drop-items a zero n x h =
    let e : x + 0 ≡ x = omega arith in let f : n - 0 ≡ n = omega arith in rw (e, f) refl
drop-items a (suc i) zero x h = absurd (omega arith)
drop-items a (suc i) (suc n) x h =
    let e : x + suc i ≡ x + 1 + i = omega arith in
    let f : suc n - suc i ≡ n - i = omega arith in
    rw (e, f) (drop-items a i n (x + 1) (omega arith))

module _ {ℓ} {T : Type ℓ} (zero_item : T) where
  pub copy_loop-copies :
      (source : ℕ → T) (rounds x : ℕ) (target : ℕ → T) (j : ℕ)
      → copy_loop zero_item source rounds x target j
        ≡ (if leb x j && ltb j (x + rounds) then source j else target j)
  unfolding copy_loop
  copy_loop-copies source zero x target j =
      let out : (leb x j && ltb j (x + 0)) ≡ false = ground arith in rw out refl
  copy_loop-copies source (suc rounds) x target j =
      rw (copy_loop-copies source rounds (x + 1) (put zero_item target x (source x)) j)
        (elim (Bool-cases (j == x)) [
          | inl same ↦
              let e : j ≡ x = (==_iff j x).0 same in
              let after : (leb (x + 1) x && ltb x (x + 1 + rounds)) ≡ false = ground arith in
              let now : (leb x x && ltb x (x + suc rounds)) ≡ true = ground arith in
              rw (e, after, now, (==_iff x x).1 refl) refl
          | inr other ↦
              let same_test : (leb (x + 1) j && ltb j (x + 1 + rounds))
                  ≡ (leb x j && ltb j (x + suc rounds)) =
                ground arith in
              rw (same_test, other) refl
        ])

  add-array :
      (l : ArrayList T) (item : T) (j : ℕ)
      → j < l.count
      → (add zero_item l item).array j ≡ l.array j
  unfolding add grow
  add-array l item j h =
      let other : (j == l.count) ≡ false = ground arith in
      elim (Bool-cases (ltb l.array_size (l.count + 1))) [
        | inl full ↦
            let inside : (leb 0 j && ltb j (0 + l.count)) ≡ true = ground arith in
            rw (full, other, copy_loop-copies l.array l.count 0 (λ i. zero_item) j, inside) refl
        | inr room ↦ rw (room, other) refl
      ]

  add-last : (l : ArrayList T) (item : T) → (add zero_item l item).array l.count ≡ item
  unfolding add grow
  add-last l item = elim (Bool-cases (ltb l.array_size (l.count + 1))) [
    | inl full ↦ rw (full, (==_iff l.count l.count).1 refl) refl
    | inr room ↦ rw (room, (==_iff l.count l.count).1 refl) refl
  ]

  pub add-count : (l : ArrayList T) (item : T) → (add zero_item l item).count ≡ l.count + 1
  unfolding add grow
  add-count l item = elim (Bool-cases (ltb l.array_size (l.count + 1))) [
    | inl full ↦ rw full refl
    | inr room ↦ rw room refl
  ]

  add-IsRoomy : (l : ArrayList T) (item : T) → IsRoomy l → IsRoomy (add zero_item l item)
  unfolding add grow
  add-IsRoomy l item h = elim (Bool-cases (ltb l.array_size (l.count + 1))) [
    | inl full ↦ rw full (omega arith)
    | inr room ↦ rw room (ground arith)
  ]

  -- On an array with room for its items `Add` puts the item behind the others, and the array
  -- has room for all of them, also when it had to grow.
  pub contents-add :
      (l : ArrayList T) (item : T)
      → IsRoomy l
      → (contents (add zero_item l item) ≡ contents l ++ item ∷ []) × IsRoomy (add zero_item l item)
  unfolding contents
  contents-add l item h =
      let zero_on : 0 + l.count ≡ l.count = omega arith in
      (
        rw
            (
              add-count l item,
              items-snoc (add zero_item l item).array l.count 0,
              items_agree (add zero_item l item).array l.array l.count 0 0
                  (λ k in_it. let e : 0 + k ≡ k = omega arith in rw e (add-array l item k in_it)),
              zero_on,
              add-last l item,
            )
            refl,
        add-IsRoomy l item h,
      )
