-- ===== src/ArrayList.antt =====
-- Kernel/src/Headers/List.h: the growing array `List<T>`. The memory behind `mArray` is a function
-- from the index; `new T[n]` clears it (`operator new[]` is `calloc`), so `zero_item` fills it.
pub mod Contents
pub mod Removal
mod Tests
use waifu_os.Prelude.{
  ℕ, zero, suc, ◌+◌, ◌-◌, ◌*◌, ◌/◌, ◌%◌, ◌^◌, ◌≤◌, ◌<◌, bit_and, bit_or, min, max, ◌≡◌, refl, sym,
  ap, ap₂, ◌∙◌, fun_ext, ◌≢◌, ◌↔◌, ◌⊎◌, inl, inr, Bool, true, false, not, ◌&&◌, ◌||◌, Option, none,
  some, List, [], ◌∷◌, ◌++◌, map, arith, ltb, leb, ◌==◌, if◌then◌else◌, ltb→lt, lt→ltb, leb→le,
  ==_iff, tests, Bool-cases, Option-cases, length, get_elem?, get_or, take, drop, replicate,
  length-append, length-set, length-replicate, All, u8, u16, u32, u64, add64, sub64, mul64, ◌<<<◌,
  ◌>>>◌, page_size, ◌>>=◌, >>=_assoc,
}

pub record ArrayList {ℓ} (T : Type ℓ) : Type ℓ where
  pub array : ℕ → T
  pub array_size : ℕ
  pub count : ℕ

-- One less, as a `nint`: the place before the first one is at 2^64 - 1.
abbrev pub one_less : ℕ → ℕ
one_less n = if n == 0 then 2 ^ 64 - 1 else n - 1

module _ {ℓ} {T : Type ℓ} (zero_item : T) where
  -- `List()`
  unfoldable pub new_list : ArrayList T
  new_list = record { array = λ i. zero_item; array_size = 5; count = 0 }

  -- `List(nint initialCount)`
  unfoldable pub new_list_of : ℕ → ArrayList T
  new_list_of initial_count = record {
    array = λ i. zero_item;
    array_size = initial_count;
    count = initial_count;
  }

  abbrev pub put : (ℕ → T) → ℕ → T → ℕ → T
  put array i item j = if j == i then item else array j

  -- The loop of `Add` and the `memcpy` of the assignment.
  unfoldable pub copy_loop : (ℕ → T) → ℕ → ℕ → (ℕ → T) → ℕ → T
  copy_loop source zero x target = target
  copy_loop source (suc rounds) x target = copy_loop source rounds (x + 1) (put target x (source x))

  -- The branch of `Add` for a full array.
  unfoldable pub grow : ArrayList T → ArrayList T
  grow l = record l {
    array = copy_loop l.array l.count 0 (λ i. zero_item);
    array_size = l.array_size + 5;
  }

  -- `Add`
  unfoldable pub add : ArrayList T → T → ArrayList T
  add l item =
      let l' = if ltb l.array_size (l.count + 1) then grow l else l in
      record l' { array = put l'.array l'.count item; count = l'.count + 1 }

  -- The loop of `RemoveAt`: `mArray[x - 1] = mArray[x]`.
  unfoldable pub shift_loop : ℕ → ℕ → (ℕ → T) → ℕ → T
  shift_loop zero x array = array
  shift_loop (suc rounds) x array = shift_loop rounds (x + 1) (put array (one_less x) (array x))

  -- `RemoveAt`: `index + 1` is 0 for the largest index, and then passes the test.
  unfoldable pub remove_at : ArrayList T → ℕ → ArrayList T
  remove_at l index =
      if ltb l.count (add64 index 1)
      then l
      else if (index == 0) && (l.count == 1)
      then record l { array = put l.array 0 zero_item; count = 0 }
      else record l {
        array = shift_loop (l.count - add64 index 1) (add64 index 1) l.array;
        count = one_less l.count;
      }

  -- The loop of `Remove`: the first equal item goes.
  unfoldable pub remove_loop : (T → T → Bool) → T → ℕ → ℕ → ArrayList T → ArrayList T
  remove_loop equal item zero x l = l
  remove_loop equal item (suc rounds) x l =
      if equal item (l.array x) then remove_at l x else remove_loop equal item rounds (x + 1) l

  -- `Remove`
  unfoldable pub remove : (T → T → Bool) → ArrayList T → T → ArrayList T
  remove equal l item = remove_loop equal item l.count 0 l

  -- `Get`: none is the page fault.
  unfoldable pub get : ArrayList T → ℕ → Option T
  get l index = if ltb l.count (add64 index 1) then none else some (l.array index)

  -- `Clear`
  unfoldable pub clear : ArrayList T → ArrayList T
  clear l = record l { array = λ i. if ltb i l.count then zero_item else l.array i; count = 0 }

  -- The copy constructor moves: the new list, and what is left of the other.
  unfoldable pub move : ArrayList T → ArrayList T × ArrayList T
  move value = (value, record { array = λ i. zero_item; array_size = 0; count = 0 })

  -- `operator=`
  unfoldable pub assign : ArrayList T → ArrayList T
  assign value = record value { array = copy_loop value.array value.count 0 (λ i. zero_item) }
