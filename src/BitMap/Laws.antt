-- ===== src/BitMap/Laws.antt =====
-- What BitMap.cpp promises of `Get` and `Set`.
use waifu_os.Prelude.{
  ℕ, ◌*◌, ◌/◌, ◌%◌, ◌^◌, ◌≤◌, ◌<◌, ◌≡◌, refl, inl, inr, Bool, true, false, not, arith, ltb, ◌==◌,
  if◌then◌else◌, ltb→lt, ==_iff, Bool-cases, u64,
}
use waifu_os.Prelude.Loops.{every_below, every_below-true}
use waifu_os.BitMap.{BitMap, test_bit, write_bit, get, set}

-- Every entry of the buffer is a byte.
abbrev pub IsBytes : (ℕ → ℕ) → Type 0
IsBytes buffer = (i : ℕ) → buffer i < 256

bool_eq : Bool → Bool → Bool
bool_eq true b = b
bool_eq false b = not b

bool_eq_sound : (a b : Bool) → bool_eq a b ≡ true → a ≡ b
unfolding bool_eq
bool_eq_sound true true h = refl
bool_eq_sound true false h = ground arith
bool_eq_sound false true h = ground arith
bool_eq_sound false false h = refl

-- One byte, one written bit and one read bit, by evaluation of every case.
write_table : Bool → Bool
write_table v = every_below 256 λ b. every_below 8 λ i.
    every_below 8 λ j. bool_eq (test_bit (write_bit b i v) j) (if i == j then v else test_bit b j)

write_table-true : write_table true ≡ true
unfolding write_table every_below bool_eq test_bit write_bit
write_table-true = refl

write_table-false : write_table false ≡ true
unfolding write_table every_below bool_eq test_bit write_bit
write_table-false = refl

write_table_all : (v : Bool) → write_table v ≡ true
write_table_all true = write_table-true
write_table_all false = write_table-false

test_bit-write_bit :
    (b i j : ℕ) (v : Bool)
    → b < 256
    → i < 8
    → j < 8
    → test_bit (write_bit b i v) j ≡ (if i == j then v else test_bit b j)
unfolding write_table
test_bit-write_bit b i j v hb hi hj = bool_eq_sound _ _ (
    every_below-true 8 _ j
      (every_below-true 8 _ i (every_below-true 256 _ b (write_table_all v) hb) hi) hj)

write_byte_table : Bool → Bool
write_byte_table v = every_below 256 λ b. every_below 8 λ i. ltb (write_bit b i v) 256

write_byte_table_all : (v : Bool) → write_byte_table v ≡ true
unfolding write_byte_table every_below write_bit
write_byte_table_all true = refl
write_byte_table_all false = refl

write_bit-lt : (b i : ℕ) (v : Bool) → b < 256 → i < 8 → write_bit b i v < 256
unfolding write_byte_table
write_bit-lt b i v hb hi =
    ltb→lt _ _ (every_below-true 8 _ i (every_below-true 256 _ b (write_byte_table_all v) hb) hi)

-- A clear byte has no set bit, and a byte below 128 has a clear first bit.
pub test_bit-zero : (i : ℕ) → i < 8 → test_bit 0 i ≡ false
unfolding test_bit bool_eq
test_bit-zero i h =
    bool_eq_sound _ _ (every_below-true 8 (λ i. bool_eq (test_bit 0 i) false) i zero_table h)
  where
    zero_table : every_below 8 (λ i. bool_eq (test_bit 0 i) false) ≡ true
    zero_table = unfold every_below in refl

pub test_bit_high : (b : ℕ) → b < 128 → test_bit b 0 ≡ false
unfolding test_bit bool_eq
test_bit_high b h =
    bool_eq_sound _ _ (every_below-true 128 (λ b. bool_eq (test_bit b 0) false) b high_table h)
  where
    high_table : every_below 128 (λ b. bool_eq (test_bit b 0) false) ≡ true
    high_table = unfold every_below in refl

-- The bits that the guards of `Get` and `Set` let through: one more than the buffer holds.
abbrev pub IsSmall : BitMap → Type 0
IsSmall m = m.size_bytes < 2 ^ 49

pub set-IsBytes : (m : BitMap) (i : ℕ) (v : Bool) → IsBytes m.buffer → IsBytes (set m i v).1.buffer
unfolding set
set-IsBytes m i v h k =
    ground (arith, h k, write_bit-lt (m.buffer (i / 8)) (i % 8) v (h (i / 8)) (omega arith))

pub size_bytes-set : (m : BitMap) (i : ℕ) (v : Bool) → (set m i v).1.size_bytes ≡ m.size_bytes
unfolding set
size_bytes-set m i v = ground arith

pub set-refused :
    (m : BitMap) (i : ℕ) (v : Bool) → IsSmall m → m.size_bytes * 8 < i → set m i v ≡ (false, m)
unfolding set
set-refused m i v small h = ground arith

pub set-accepted :
    (m : BitMap) (i : ℕ) (v : Bool) → IsSmall m → i ≤ m.size_bytes * 8 → (set m i v).0 ≡ true
unfolding set
set-accepted m i v small h = ground arith

pub get-above : (m : BitMap) (i : ℕ) → IsSmall m → m.size_bytes * 8 < i → get m i ≡ false
unfolding get
get-above m i small h = ground arith

-- On a bitmap of fewer than 2^49 bytes, after `Set` at an index that its guard accepts (up to and
-- including eight times the size), `Get` returns the new value at that index and what it returned
-- before at every other index.
pub get-set :
    (m : BitMap) (i j : ℕ) (v : Bool)
    → IsSmall m
    → IsBytes m.buffer
    → i ≤ m.size_bytes * 8
    → get (set m i v).1 j ≡ (if i == j then v else get m j)
unfolding get set
get-set m i j v small bytes h = ground (
  arith,
  test_bit-write_bit (m.buffer (i / 8)) (i % 8) (j % 8) v (bytes (i / 8)) (omega arith)
      (omega arith),
)

-- On a bitmap of fewer than 2^49 bytes, `Set` accepts the index eight times the size and then writes
-- the byte behind the buffer. For each index up to that one it writes the byte that holds the bit and
-- no other byte of memory, and for a larger index it refuses and writes none.
pub set_past_end :
    (m : BitMap) (i : ℕ) (v : Bool)
    → IsSmall m
    → ((set m (m.size_bytes * 8) v).0 ≡ true)
      × ((set m (m.size_bytes * 8) v).1.buffer m.size_bytes ≡ write_bit (m.buffer m.size_bytes) 0 v)
      × (i ≤ m.size_bytes * 8
          → (k : ℕ)
          → (set m i v).1.buffer k
            ≡ (if k == (i / 8) then write_bit (m.buffer k) (i % 8) v else m.buffer k))
      × (m.size_bytes * 8 < i → set m i v ≡ (false, m))
unfolding set
set_past_end m i v small =
    (ground arith, ground arith, λ h k. written h k, λ h. set-refused m i v small h)
  where
    written :
        i ≤ m.size_bytes * 8
        → (k : ℕ)
        → (set m i v).1.buffer k
          ≡ (if k == (i / 8) then write_bit (m.buffer k) (i % 8) v else m.buffer k)
    written h k =
        let accepted : ltb (u64 (m.size_bytes * 2 ^ 3)) i ≡ false = ground arith in
        elim (Bool-cases (k == (i / 8))) [
          | inl here ↦
              let e : k ≡ i / 8 = (==_iff k (i / 8)).0 here in
              rw (accepted, e, (==_iff (i / 8) (i / 8)).1 refl) refl
          | inr away ↦ rw (accepted, away) refl
        ]

-- A cleared buffer holds no set bit, if the byte behind it has none in its first place.
pub get-cleared :
    (size : ℕ) (memory : ℕ → ℕ) (j : ℕ)
    → size < 2 ^ 49
    → memory size < 128
    → get (record { size_bytes = size; buffer = λ i. if ltb i size then 0 else memory i }) j ≡ false
unfolding get
get-cleared size memory j small high = elim (Bool-cases (ltb (u64 (size * 2 ^ 3)) j)) [
  | inl out ↦ rw out
  | inr inside ↦ elim (Bool-cases (ltb (j / 2 ^ 3) size)) [
    | inl low ↦ rw (inside, low) (test_bit-zero (j % 8) (omega arith))
    | inr e ↦
        let at_end : j ≡ size * 8 = ground arith in
        let byte : j / 2 ^ 3 ≡ size = ground arith in
        let first : j % 8 ≡ 0 = omega arith in
        rw (inside, e, byte, first) (test_bit_high (memory size) high)
  ]
]
