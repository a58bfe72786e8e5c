-- ===== src/Paging/Indices.antt =====
-- The four indices of `PageMapIndexer` are the digits of the page number in base 512.
use waifu_os.Prelude.{ℕ, ◌+◌, ◌*◌, ◌/◌, ◌%◌, ◌^◌, ◌<◌, ◌≡◌, ◌↔◌, arith, page_size}
use waifu_os.Prelude.Bits.{bit_and_mask}
use waifu_os.Paging.{PageMapIndexer, page_map_indexer}

-- The page number that four indices stand for.
abbrev pub page_number : PageMapIndexer → ℕ
page_number i = ((i.pdpi * 512 + i.pdi) * 512 + i.pti) * 512 + i.pi

pub record IsIndexer (i : PageMapIndexer) : Type 0 where
  pub pdpi_lt : i.pdpi < 512
  pub pdi_lt : i.pdi < 512
  pub pti_lt : i.pti < 512
  pub pi_lt : i.pi < 512

pub pi_field : (v : ℕ) → (page_map_indexer v).pi ≡ v / 2 ^ 12 % 2 ^ 9
unfolding page_map_indexer
pi_field v = bit_and_mask 9 (v / 2 ^ 12)

pub pti_field : (v : ℕ) → (page_map_indexer v).pti ≡ v / 2 ^ 12 / 2 ^ 9 % 2 ^ 9
unfolding page_map_indexer
pti_field v = bit_and_mask 9 (v / 2 ^ 12 / 2 ^ 9)

pub pdi_field : (v : ℕ) → (page_map_indexer v).pdi ≡ v / 2 ^ 12 / 2 ^ 9 / 2 ^ 9 % 2 ^ 9
unfolding page_map_indexer
pdi_field v = bit_and_mask 9 (v / 2 ^ 12 / 2 ^ 9 / 2 ^ 9)

pub pdpi_field : (v : ℕ) → (page_map_indexer v).pdpi ≡ v / 2 ^ 12 / 2 ^ 9 / 2 ^ 9 / 2 ^ 9 % 2 ^ 9
unfolding page_map_indexer
pdpi_field v = bit_and_mask 9 (v / 2 ^ 12 / 2 ^ 9 / 2 ^ 9 / 2 ^ 9)

pub page_map_indexer-IsIndexer : (v : ℕ) → IsIndexer (page_map_indexer v)
page_map_indexer-IsIndexer v = record {
  pdpi_lt = omega (arith, pdpi_field v);
  pdi_lt = omega (arith, pdi_field v);
  pti_lt = omega (arith, pti_field v);
  pi_lt = omega (arith, pi_field v);
}

-- The four indices are below 512 and together are the low 36 binary digits of the page number of
-- the address.
pub page_number-page_map_indexer :
    (v : ℕ)
    → IsIndexer (page_map_indexer v) × (page_number (page_map_indexer v) ≡ v / page_size % 2 ^ 36)
page_number-page_map_indexer v = (
  page_map_indexer-IsIndexer v,
  omega (arith, pdpi_field v, pdi_field v, pti_field v, pi_field v),
)

base_digits : (a b r s : ℕ) → r < 512 → s < 512 → a * 512 + r ≡ b * 512 + s → (a ≡ b) × (r ≡ s)
base_digits a b r s hr hs e = (omega arith, omega arith)

-- Two addresses below 2^48 have the same four indices exactly if they lie in the same page.
pub same_indices :
    (v w : ℕ)
    → v < 2 ^ 48
    → w < 2 ^ 48
    → (page_number (page_map_indexer v) ≡ page_number (page_map_indexer w))
      ↔ (v / page_size ≡ w / page_size)
same_indices v w hv hw = (
  (λ e. omega (arith, (page_number-page_map_indexer v).1, (page_number-page_map_indexer w).1)),
  (λ e. omega (arith, (page_number-page_map_indexer v).1, (page_number-page_map_indexer w).1)),
)

-- The indices are determined by the page number.
pub indexer_unique :
    (i j : PageMapIndexer)
    → IsIndexer i
    → IsIndexer j
    → page_number i ≡ page_number j
    → (i.pdpi ≡ j.pdpi) × (i.pdi ≡ j.pdi) × (i.pti ≡ j.pti) × (i.pi ≡ j.pi)
indexer_unique i j good_i good_j e =
    let low = base_digits _ _ i.pi j.pi good_i.pi_lt good_j.pi_lt e in
    let third = base_digits _ _ i.pti j.pti good_i.pti_lt good_j.pti_lt low.0 in
    let second = base_digits _ _ i.pdi j.pdi good_i.pdi_lt good_j.pdi_lt third.0 in
    (second.0, second.1, third.1, low.1)
