-- ===== src/PageTableManager/Frames.antt =====
-- The page frame allocator as the source of the frames for page tables.
use waifu_os.Prelude.{
  ℕ, zero, suc, ◌+◌, ◌*◌, ◌/◌, ◌^◌, ◌≤◌, ◌<◌, ◌≡◌, refl, ap, ◌∙◌, inl, inr, Bool, true, false, some,
  arith, ◌==◌, if◌then◌else◌, ==_iff, Bool-cases, page_size,
}
use waifu_os.BitMap.{BitMap, get, set}
use waifu_os.BitMap.Laws.{IsBytes, get-set, set-IsBytes, size_bytes-set}
use waifu_os.BitMap.Count.{used, used-set-true, used_all}
use waifu_os.PageFrameAllocator.{Pfa, lock_page, request_page}
use waifu_os.PageFrameAllocator.Cursor.{
  Below, Answer, granted, exhausted, request_page-Answer, lock_page-Below,
}
use waifu_os.PageTableManager.{Granted, FrameSource}

-- At least `n` frames are free, and frame 0, whose address is null, is in use.
pub record HasFrames (s : Pfa) (n : ℕ) : Type 0 where
  pub small : s.bitmap.size_bytes < 2 ^ 37
  pub bytes : IsBytes s.bitmap.buffer
  pub below : Below s
  pub zero_used : get s.bitmap 0 ≡ true
  pub room : used s.bitmap + n ≤ s.bitmap.size_bytes * 8

abbrev pub IsUsed : Pfa → ℕ → Type 0
IsUsed s page = get s.bitmap page ≡ true

lock_page-bitmap :
    (s : Pfa) (a : ℕ)
    → get s.bitmap (a / page_size) ≡ false
    → (lock_page s a).bitmap ≡ (set s.bitmap (a / page_size) true).1
unfolding lock_page
lock_page-bitmap s a e = elim (Bool-cases ((set s.bitmap (a / page_size) true).0)) [
  | inl ok ↦ rw (e, ok) refl
  | inr refused ↦ rw (e, refused) refl
]

keeps_true : (b c : Bool) → c ≡ true → (if b then true else c) ≡ true
keeps_true true c e = refl
keeps_true false c e = e

clash : (b : Bool) → b ≡ true → b ≡ false → ⊥
clash b e f = ground (arith, e, f)

not_zero : (m : BitMap) (i : ℕ) → get m 0 ≡ true → get m i ≡ false → 0 < i
not_zero m zero e f = absurd (clash (get m 0) e f)
not_zero m (suc i) e f = omega arith

module _ (s : Pfa) (n index : ℕ) (has : HasFrames s (suc n))
    (inside : index < s.bitmap.size_bytes * 8) (idle : get s.bitmap index ≡ false)
    (first : (i : ℕ) → i < index → get s.bitmap i ≡ true) where
  at_index : Pfa
  at_index = record s { last = index }

  locked : Pfa
  locked = lock_page at_index (index * page_size)

  locked-bitmap : locked.bitmap ≡ (set s.bitmap index true).1
  unfolding locked at_index
  locked-bitmap =
      let exact : index * page_size / page_size ≡ index = omega arith in
      lock_page-bitmap at_index (index * page_size) (rw exact idle)
      ∙ ap (λ (i : ℕ). (set s.bitmap i true).1) exact

  small_bitmap : s.bitmap.size_bytes < 2 ^ 49
  small_bitmap = omega (arith, has.small)

  locked-keeps : (p : ℕ) → IsUsed s p → IsUsed locked p
  locked-keeps p e =
      rw (locked-bitmap, get-set s.bitmap index p true small_bitmap has.bytes (omega arith))
        (keeps_true (index == p) (get s.bitmap p) e)

  -- `RequestPage` has granted the frame.
  locked-HasFrames : HasFrames locked n
  unfolding at_index locked lock_page
  locked-HasFrames = record {
    small = rw (locked-bitmap, size_bytes-set s.bitmap index true) has.small;
    bytes = rw (locked-bitmap) (set-IsBytes s.bitmap index true has.bytes);
    below = lock_page-Below at_index (omega (arith, has.small)) has.bytes first (index * page_size);
    zero_used = locked-keeps 0 has.zero_used;
    room =
        rw (locked-bitmap, size_bytes-set s.bitmap index true)
          (omega (
            arith,
            has.room,
            used-set-true s.bitmap index small_bitmap has.bytes (omega arith) idle,
          ));
  }

  locked-Granted :
      request_page s ≡ some (index * page_size, locked) → Granted request_page IsUsed HasFrames s n
  locked-Granted answer = record {
    page = index;
    next = locked;
    answer = answer;
    positive = not_zero s.bitmap index has.zero_used idle;
    small = omega (arith, has.small);
    fresh = λ e. clash (get s.bitmap index) e idle;
    owned =
        rw
          (
            locked-bitmap,
            get-set s.bitmap index index true small_bitmap has.bytes (omega arith),
            (==_iff index index).1 refl,
          )
          refl;
    keeps = locked-keeps;
    has = locked-HasFrames;
  }

pub request_page-Granted :
    (s : Pfa) (n : ℕ) → HasFrames s (suc n) → Granted request_page IsUsed HasFrames s n
unfolding locked at_index
request_page-Granted s n has =
    let r = request_page-Answer s (omega (arith, has.small)) has.below in grants r.0 r.1 r.2
  where
    grants :
        (r : ℕ × Pfa)
        → request_page s ≡ some r
        → Answer s r
        → Granted request_page IsUsed HasFrames s n
    grants r e (granted index inside idle first same) =
        locked-Granted s n index has inside idle first (e ∙ ap (λ (t : ℕ × Pfa). some t) same)
    grants r e (exhausted index out busy same) =
        absurd (omega (arith, has.room, used_all s.bitmap (λ j l. busy j (omega arith))))

-- The page frame allocator fills the interface.
unfoldable pub page_frames : FrameSource
page_frames = record {
  State = Pfa;
  request = request_page;
  InUse = IsUsed;
  Has = HasFrames;
  has_less = λ s n has. record {
    small = has.small;
    bytes = has.bytes;
    below = has.below;
    zero_used = has.zero_used;
    room = omega (arith, has.room);
  };
  request_lem = request_page-Granted;
}
