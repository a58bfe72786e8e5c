-- ===== src/Paging/Mapped.antt =====
-- The entry that `MapMemory` writes: an address and the flags Present and ReadWrite.
use waifu_os.Prelude.{
  ℕ, ◌+◌, ◌-◌, ◌*◌, ◌/◌, ◌%◌, ◌^◌, ◌≤◌, ◌<◌, bit_and, bit_or, ◌≡◌, refl, ap, ◌∙◌, Bool, true, false,
  arith,
}
use waifu_os.Prelude.Bits.{
  bit_or_split, bit_and_parts, bit_and_ones, bit_or-zero, bit_and-lt, bit_or-lt,
}
use waifu_os.Paging.{
  PtFlag, present, read_write, flag_value, not64, set_flag, get_flag, set_address, get_address,
}
use waifu_os.Paging.Fields.{
  flag_value-lt, get_flag-set_flag, set_address_lem, get_address_field, set_address_fields,
}

-- A flag below the address leaves the higher digits alone.
pub set_flag_high :
    (e : ℕ) (f : PtFlag) (v : Bool)
    → e < 2 ^ 64
    → flag_value f ≤ 2 ^ 11
    → set_flag e f v / 2 ^ 12 ≡ e / 2 ^ 12
unfolding set_flag
set_flag_high e f v h low =
    let g = flag_value f in
    let split : not64 g ≡ (2 ^ 52 - 1) * 2 ^ 12 + (2 ^ 12 - 1 - g) = omega arith in
    let kept : bit_and e (not64 g)
        ≡ bit_and (e / 2 ^ 12) (2 ^ 52 - 1) * 2 ^ 12 + bit_and (e % 2 ^ 12) (2 ^ 12 - 1 - g) =
      rw (split) (bit_and_parts 12 e (2 ^ 52 - 1) (2 ^ 12 - 1 - g) (omega arith)) in
    let added : bit_and g 0xFFFF_FFFF_FFFF_FFFF ≡ g = bit_and_ones 64 g (omega arith) in
    let place : 0 * 2 ^ 12 + g ≡ g = omega arith in
    let rest : bit_and (e % 2 ^ 12) (2 ^ 12 - 1 - g) < 2 ^ 12 = bit_and-lt 12 _ _ (omega arith) in
    let both =
      bit_or_split 12 (bit_and (e / 2 ^ 12) (2 ^ 52 - 1)) 0 (bit_and (e % 2 ^ 12) (2 ^ 12 - 1 - g))
        g rest (omega arith) in
    let rest' = bit_or-lt 12 (bit_and (e % 2 ^ 12) (2 ^ 12 - 1 - g)) g rest (omega arith) in
    let both' : bit_or (bit_and e (not64 g)) (bit_and g 0xFFFF_FFFF_FFFF_FFFF)
        ≡ e / 2 ^ 12 * 2 ^ 12 + bit_or (bit_and (e % 2 ^ 12) (2 ^ 12 - 1 - g)) g =
      rw (kept, added)
        (cc (
          both,
          ap
              (λ (t : ℕ).
                bit_or
                  (bit_and (e / 2 ^ 12) (2 ^ 52 - 1) * 2 ^ 12
                    + bit_and (e % 2 ^ 12) (2 ^ 12 - 1 - g))
                  t)
              place,
          bit_or-zero (bit_and (e / 2 ^ 12) (2 ^ 52 - 1)),
          bit_and_ones 52 (e / 2 ^ 12) (omega arith),
        )) in
    rw (both') (omega (arith, rest'))

pub set_flag-lt : (e : ℕ) (f : PtFlag) (v : Bool) → e < 2 ^ 64 → set_flag e f v < 2 ^ 64
unfolding set_flag
set_flag-lt e f v h =
    bit_or-lt 64 _ _ (bit_and-lt 64 e _ h) (bit_and-lt 64 (flag_value f) _ (flag_value-lt f))

set_address-lt : (e a : ℕ) → e < 2 ^ 64 → set_address e a < 2 ^ 64
set_address-lt e a h = omega (arith, set_address_fields e a h)

-- The entry that `MapMemory` writes is present and names the frame; the digits above forty of the
-- frame number are lost.
pub record Mapped (entry frame : ℕ) : Type 0 where
  pub bound : entry < 2 ^ 64
  pub is_present : get_flag entry present ≡ true
  pub names : get_address entry ≡ frame % 2 ^ 40

pub write_entry-Mapped :
    (e a : ℕ)
    → e < 2 ^ 64
    → Mapped (set_flag (set_flag (set_address e a) present true) read_write true) a
write_entry-Mapped e a h =
    let e1 = set_address e a in
    let e2 = set_flag e1 present true in
    let e3 = set_flag e2 read_write true in
    let h1 = set_address-lt e a h in
    let h2 = set_flag-lt e1 present true h1 in
    let high2 = set_flag_high e1 present true h1 (omega arith) in
    let high3 = set_flag_high e2 read_write true h2 (omega arith) in
    let at1 : get_address e1 ≡ a % 2 ^ 40 = (set_address_lem e a h).0 in
    let same : e3 / 2 ^ 12 ≡ e1 / 2 ^ 12 = high3 ∙ high2 in
    record {
      bound = set_flag-lt e2 read_write true h2;
      is_present =
          rw
            (
              get_flag-set_flag e2 read_write present true,
              get_flag-set_flag e1 present present true,
            )
            refl;
      names = omega (arith, get_address_field e3, get_address_field e1, at1, same);
    }

-- No flag of a zero entry is set.
pub get_flag_zero : get_flag 0 present ≡ false
unfolding get_flag
get_flag_zero = refl
