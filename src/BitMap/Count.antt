-- ===== src/BitMap/Count.antt =====
-- The number of bits of a bitmap that are set.
use waifu_os.Prelude.{
  ℕ, zero, suc, ◌+◌, ◌*◌, ◌≤◌, ◌<◌, ◌≡◌, refl, sym, ◌≢◌, inl, inr, Bool, true, false, arith, ◌==◌,
  if◌then◌else◌, Bool-cases,
}
use waifu_os.BitMap.{BitMap, get, set}
use waifu_os.BitMap.Laws.{IsBytes, IsSmall, get-set, size_bytes-set}

unfoldable pub count_below : ℕ → (ℕ → Bool) → ℕ
count_below zero p = 0
count_below (suc n) p = count_below n p + (if p n then 1 else 0)

-- The bits that `Get` and `Set` reach.
abbrev pub reach : BitMap → ℕ
reach m = m.size_bytes * 8 + 1

unfoldable pub used : BitMap → ℕ
unfolding count_below
used m = count_below (reach m) (get m)

count_below_ext :
    (n : ℕ) (p q : ℕ → Bool) → ((j : ℕ) → j < n → q j ≡ p j) → count_below n q ≡ count_below n p
unfolding count_below
count_below_ext zero p q h = refl
count_below_ext (suc n) p q h =
    rw (h n (omega arith), count_below_ext n p q (λ j l. h j (omega arith)))

-- One more value passes when `q` is `p` but at `i`.
count_below_flip :
    (n i : ℕ) (p q : ℕ → Bool)
    → i < n
    → p i ≡ false
    → q i ≡ true
    → ((j : ℕ) → j ≢ i → q j ≡ p j)
    → count_below n q ≡ count_below n p + 1
unfolding count_below
count_below_flip zero i p q l hp hq h = absurd (omega arith)
count_below_flip (suc n) i p q l hp hq h = elim (Bool-cases (n == i)) [
  | inl e ↦
      let e' : n ≡ i = ground arith in
      rw (e', hp, hq) (omega (arith, count_below_ext i p q (λ j l. h j (omega arith))))
  | inr e ↦ rw (h n (ground arith)) (omega (arith, count_below_flip n i p q (ground arith) hp hq h))
]

count_below_none : (n : ℕ) (p : ℕ → Bool) → ((j : ℕ) → p j ≡ false) → count_below n p ≡ 0
unfolding count_below
count_below_none zero p h = refl
count_below_none (suc n) p h = rw (h n) (omega (arith, count_below_none n p h))

pub used_none : (m : BitMap) → ((j : ℕ) → get m j ≡ false) → used m ≡ 0
unfolding used
used_none m h = count_below_none (reach m) (get m) h

count_below_le : (n : ℕ) (p : ℕ → Bool) → count_below n p ≤ n
unfolding count_below
count_below_le zero p = omega arith
count_below_le (suc n) p = ground (arith, count_below_le n p)

pub used-le : (m : BitMap) → used m ≤ reach m
unfolding used
used-le m = count_below_le (reach m) (get m)

count_below-pos : (n i : ℕ) (p : ℕ → Bool) → i < n → p i ≡ true → 0 < count_below n p
unfolding count_below
count_below-pos zero i p l h = absurd (omega arith)
count_below-pos (suc n) i p l h = elim (Bool-cases (n == i)) [
  | inl e ↦ let e' : n ≡ i = ground arith in rw (e', h) (omega arith)
  | inr e ↦ omega (arith, count_below-pos n i p (ground arith) h)
]

pub used-pos : (m : BitMap) (i : ℕ) → i ≤ m.size_bytes * 8 → get m i ≡ true → 0 < used m
unfolding used
used-pos m i h e = count_below-pos (reach m) i (get m) (omega arith) e

module _ (m : BitMap) (i : ℕ) (small : IsSmall m) (bytes : IsBytes m.buffer)
    (h : i ≤ m.size_bytes * 8) where
  pub used-set-true : get m i ≡ false → used (set m i true).1 ≡ used m + 1
  unfolding used
  used-set-true e = rw (size_bytes-set m i true) (
      count_below_flip (reach m) i (get m) (get (set m i true).1) (omega arith) e
        (ground (arith, get-set m i i true small bytes h))
        (λ j ne. ground (arith, get-set m i j true small bytes h)))

  pub used-set-false : get m i ≡ true → used (set m i false).1 + 1 ≡ used m
  unfolding used
  used-set-false e = rw (size_bytes-set m i false) (
      sym (
        count_below_flip (reach m) i (get (set m i false).1) (get m) (omega arith)
          (ground (arith, get-set m i i false small bytes h)) e
          (λ j ne. ground (arith, get-set m i j false small bytes h))))

count_below_all : (n : ℕ) (p : ℕ → Bool) → ((j : ℕ) → j < n → p j ≡ true) → count_below n p ≡ n
unfolding count_below
count_below_all zero p h = refl
count_below_all (suc n) p h =
    rw (h n (omega arith)) (omega (arith, count_below_all n p (λ j l. h j (omega arith))))

count_below_more : (n : ℕ) (p : ℕ → Bool) → count_below n p ≤ count_below (n + 1) p
unfolding count_below
count_below_more n p = let next : n + 1 ≡ suc n = omega arith in rw next (ground arith)

-- When every bit of the buffer is set, that many are counted.
pub used_all :
    (m : BitMap) → ((j : ℕ) → j < m.size_bytes * 8 → get m j ≡ true) → m.size_bytes * 8 ≤ used m
unfolding used
used_all m h = omega (
  arith,
  count_below_more (m.size_bytes * 8) (get m),
  count_below_all (m.size_bytes * 8) (get m) h,
)
