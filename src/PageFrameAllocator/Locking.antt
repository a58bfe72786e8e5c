-- ===== src/PageFrameAllocator/Locking.antt =====
-- `LockPages`: the frames of the run that the bitmap has are in use behind it.
use waifu_os.Prelude.{
  ℕ, zero, suc, ◌+◌, ◌*◌, ◌/◌, ◌^◌, ◌≤◌, ◌<◌, ◌≡◌, refl, sym, ap, ◌∙◌, ◌⊎◌, inl, inr, Bool, true,
  false, arith, leb, ◌==◌, if◌then◌else◌, ==_iff, Bool-cases, page_size,
}
use mathlib.Core.Path.{subst}
use waifu_os.Prelude.Loops.{for_range, for_range_inv}
use waifu_os.BitMap.{BitMap, get, set}
use waifu_os.BitMap.Laws.{IsBytes, get-set, set-refused, set-IsBytes, size_bytes-set}
use waifu_os.PageFrameAllocator.{Pfa, page_at, lock_page, lock_changed, lock_pages}

-- A state with a bitmap of a given size in bytes that are bytes.
record IsSound (size : ℕ) (s : Pfa) : Type 0 where
  size_is : s.bitmap.size_bytes ≡ size
  bytes : IsBytes s.bitmap.buffer

lock_changed-bitmap : (s : Pfa) (m : BitMap) (b : Bool) → (lock_changed s (b, m)).bitmap ≡ m
lock_changed-bitmap s m true = refl
lock_changed-bitmap s m false = refl

always_true : (t : Bool) → (if t then true else true) ≡ true
always_true true = refl
always_true false = refl

module _ (size : ℕ) (small : size < 2 ^ 48) where
  lock_page-bitmap :
      (s : Pfa) (address : ℕ)
      → get s.bitmap (address / page_size) ≡ false
      → (lock_page s address).bitmap ≡ (set s.bitmap (address / page_size) true).1
  unfolding lock_page
  lock_page-bitmap s address idle = rw (idle) (
      lock_changed-bitmap s (set s.bitmap (address / page_size) true).1
        (set s.bitmap (address / page_size) true).0)

  lock_page-busy :
      (s : Pfa) (address : ℕ) → get s.bitmap (address / page_size) ≡ true → lock_page s address ≡ s
  unfolding lock_page
  lock_page-busy s address busy = rw (busy) refl

  lock_page-IsSound : (s : Pfa) (address : ℕ) → IsSound size s → IsSound size (lock_page s address)
  lock_page-IsSound s address v = elim (Bool-cases (get s.bitmap (address / page_size))) [
    | inl busy ↦ subst (IsSound size) (sym (lock_page-busy s address busy)) v
    | inr idle ↦
        let e = lock_page-bitmap s address idle in
        record {
          size_is = rw (e) (size_bytes-set s.bitmap (address / page_size) true ∙ v.size_is);
          bytes = rw (e) (set-IsBytes s.bitmap (address / page_size) true v.bytes);
        }
  ]

  -- A frame of the bitmap that is locked, or was in use.
  lock_page-get :
      (s : Pfa) (address j : ℕ)
      → IsSound size s
      → j ≤ size * 8
      → ((address / page_size ≡ j) ⊎ (get s.bitmap j ≡ true))
      → get (lock_page s address).bitmap j ≡ true
  lock_page-get s address j v inside was = elim (Bool-cases (get s.bitmap (address / page_size))) [
    | inl busy ↦ rw (lock_page-busy s address busy) (elim was [
      | inl here ↦ subst (λ (x : ℕ). get s.bitmap x ≡ true) here busy
      | inr used ↦ used
    ])
    | inr idle ↦ rw (lock_page-bitmap s address idle) (marked (address / page_size) was)
  ]
    where
      marked : (i : ℕ) → ((i ≡ j) ⊎ (get s.bitmap j ≡ true)) → get (set s.bitmap i true).1 j ≡ true
      marked i was = elim (Bool-cases (leb i (size * 8))) [
        | inl accepted ↦
            get-set s.bitmap i j true (omega (arith, v.size_is)) v.bytes
              (ground (arith, v.size_is, accepted))
            ∙ one_of was
        | inr refused ↦
            rw
              (set-refused s.bitmap i true (omega (arith, v.size_is))
                (ground (arith, v.size_is, refused)))
              (elim was [ inl here ↦ absurd (ground (arith, refused)) | inr used ↦ used ])
      ]
        where
          one_of :
              ((i ≡ j) ⊎ (get s.bitmap j ≡ true)) → (if i == j then true else get s.bitmap j) ≡ true
          one_of (inl here) = rw ((==_iff i j).1 here) refl
          one_of (inr used) = rw (used) (always_true (i == j))

  -- The property of one frame that the loop keeps.
  lock_loop-keeps :
      (address j rounds first : ℕ) (s : Pfa)
      → j ≤ size * 8
      → IsSound size s
      → get s.bitmap j ≡ true
      → get (for_range rounds first (λ x t. lock_page t (page_at address x)) s).bitmap j ≡ true
  lock_loop-keeps address j rounds first s inside v used =
      (for_range_inv (λ (t : Pfa). IsSound size t × (get t.bitmap j ≡ true))
        (λ x t. lock_page t (page_at address x))
        (λ x t w. (
          lock_page-IsSound t (page_at address x) w.0,
          lock_page-get t (page_at address x) j w.0 inside (inr w.1),
        ))
        rounds first s (v, used)).1

  lock_loop-locks :
      (address j rounds first x : ℕ) (s : Pfa)
      → j ≤ size * 8
      → IsSound size s
      → first ≤ x
      → x < first + rounds
      → page_at address x / page_size ≡ j
      → get (for_range rounds first (λ x t. lock_page t (page_at address x)) s).bitmap j ≡ true
  unfolding for_range
  lock_loop-locks address j zero first x s inside v low high here = absurd (omega arith)
  lock_loop-locks address j (suc rounds) first x s inside v low high here =
      let t = lock_page s (page_at address first) in
      let w = lock_page-IsSound s (page_at address first) v in
      elim (Bool-cases (first == x)) [
        | inl now ↦
            let e : first ≡ x = (==_iff first x).0 now in
            lock_loop-keeps address j rounds (first + 1) t inside w (
              lock_page-get s (page_at address first) j v inside
                (inl (ap (λ (y : ℕ). page_at address y / page_size) e ∙ here)))
        | inr later ↦
            lock_loop-locks address j rounds (first + 1) x t inside w (ground arith) (omega arith)
              here
      ]

-- Each frame of the run that the bitmap has is in use behind `LockPages`.
pub lock_pages-get :
    (s : Pfa) (index pages x : ℕ)
    → s.bitmap.size_bytes < 2 ^ 48
    → IsBytes s.bitmap.buffer
    → x < pages
    → index + x ≤ s.bitmap.size_bytes * 8
    → get (lock_pages s (index * page_size) pages).bitmap (index + x) ≡ true
unfolding lock_pages
lock_pages-get s index pages x small bytes inside low =
    let here : page_at (index * page_size) x / page_size ≡ index + x = omega arith in
    lock_loop-locks s.bitmap.size_bytes small (index * page_size) (index + x) pages 0 x s low
      (record { size_is = refl; bytes = bytes }) (omega arith) (omega arith) here
