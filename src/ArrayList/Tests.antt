-- ===== src/ArrayList/Tests.antt =====
-- A list of two numbers, and the laws of `List<T>` at it.
use waifu_os.Prelude.{
  ℕ, ◌≤◌, ◌<◌, ◌≡◌, refl, List, [], ◌∷◌, ◌++◌, ◌+◌, ◌-◌, ◌^◌, arith, ◌==◌, if◌then◌else◌, take,
  drop,
}
use waifu_os.ArrayList.{ArrayList, new_list, add, remove_at}
use waifu_os.ArrayList.Contents.{contents, items, IsRoomy, contents-add}
use waifu_os.ArrayList.Removal.{contents-remove_at}

abbrev two : ArrayList ℕ
two = record {
  array = λ i. if i == 0 then 7 else if i == 1 then 8 else 0;
  array_size = 2;
  count = 2;
}

abbrev three : List ℕ
three = 7 ∷ 8 ∷ 9 ∷ []

grown : contents (add 0 two 9) ≡ three
unfolding contents items add waifu_os.ArrayList.grow waifu_os.ArrayList.copy_loop
grown = refl

contents-add_example : (contents (add 0 two 9) ≡ three) × IsRoomy (add 0 two 9)
unfolding contents items
contents-add_example = contents-add 0 two 9 (omega arith)

contents-remove_at_example :
    (2 ≤ 0 → 0 + 1 < 2 ^ 64 → remove_at 0 two 0 ≡ two)
    × (0 < 2
        → 0 + 1 < 2 ^ 64
        → contents (remove_at 0 two 0) ≡ take 0 (contents two) ++ drop 1 (contents two))
    × (0 + 1 ≡ 2 ^ 64 → 0 < 2 → contents (remove_at 0 two 0) ≡ drop 1 (contents two))
contents-remove_at_example = contents-remove_at 0 two 0 (omega arith)

-- The largest index passes the test, and the first item is lost.
largest_index : contents (remove_at 0 two (2 ^ 64 - 1)) ≡ 8 ∷ []
unfolding contents items remove_at waifu_os.ArrayList.shift_loop
largest_index = refl
