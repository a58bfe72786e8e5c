-- ===== src/Console/Rounds.antt =====
-- Loops that change what is seen at one place in at most one round.
use waifu_os.Prelude.{
  ℕ, zero, suc, ◌+◌, ◌≡◌, refl, sym, ap, ◌∙◌, inl, inr, Bool, true, false, ◌&&◌, arith, ltb, leb,
  ◌==◌, if◌then◌else◌, ==_iff, Bool-cases,
}
use mathlib.Core.Path.{subst}
use waifu_os.Prelude.Loops.{for_range, for_range_inv}

-- What is seen at the end of a loop of which at most the round `key` changes it.
pub for_range-once {ℓ κ μ} :
    {State : Type ℓ} {A : Type κ} (Holds : State → Type μ) (seen : State → A) (key : ℕ) (value : A)
    (round : ℕ → State → State) (kept : (k : ℕ) (s : State) → Holds s → Holds (round k s))
    (hit : (s : State) → Holds s → seen (round key s) ≡ value)
    (miss : (k : ℕ) (s : State) → Holds s → (k == key) ≡ false → seen (round k s) ≡ seen s)
    (rounds first : ℕ) (s : State)
    → Holds s
    → seen (for_range rounds first round s)
      ≡ (if leb first key && ltb key (first + rounds) then value else seen s)
unfolding for_range
for_range-once Holds seen key value round kept hit miss zero first s now =
    let out : (leb first key && ltb key (first + 0)) ≡ false = ground arith in rw out refl
for_range-once Holds seen key value round kept hit miss (suc rounds) first s now =
    for_range-once Holds seen key value round kept hit miss rounds (first + 1) (round first s)
      (kept first s now)
    ∙ elim (Bool-cases (first == key)) [
      | inl same ↦
          let e : first ≡ key = (==_iff first key).0 same in
          let inside : (leb first key && ltb key (first + suc rounds)) ≡ true = ground arith in
          let later : (leb (first + 1) key && ltb key (first + 1 + rounds)) ≡ false =
            ground arith in
          rw (later, inside) (subst (λ (k : ℕ). seen (round k s) ≡ value) (sym e) (hit s now))
      | inr other ↦
          let agree : (leb (first + 1) key && ltb key (first + 1 + rounds))
              ≡ (leb first key && ltb key (first + suc rounds)) =
            ground arith in
          rw (agree, miss first s now other) refl
    ]

-- The same where that round changes what is seen only if a condition holds.
pub for_range-if {ℓ κ μ} :
    {State : Type ℓ} {A : Type κ} (Holds : State → Type μ) (seen : State → A) (key : ℕ)
    (active : Bool) (value : A) (round : ℕ → State → State)
    (kept : (k : ℕ) (s : State) → Holds s → Holds (round k s))
    (change : (k : ℕ) (s : State)
      → Holds s
      → seen (round k s) ≡ (if (k == key) && active then value else seen s))
    (rounds first : ℕ) (s : State)
    → Holds s
    → seen (for_range rounds first round s)
      ≡ (if (leb first key && ltb key (first + rounds)) && active then value else seen s)
for_range-if Holds seen key true value round kept change rounds first s now =
    let all : ((leb first key && ltb key (first + rounds)) && true)
        ≡ (leb first key && ltb key (first + rounds)) =
      ground arith in
    rw all (
      for_range-once Holds seen key value round kept
        (λ t on.
          let here : ((key == key) && true) ≡ true = ground arith in change key t on ∙ rw here refl)
        (λ k t on other. change k t on ∙ rw other refl) rounds first s now)
for_range-if Holds seen key false value round kept change rounds first s now =
    let never : ((leb first key && ltb key (first + rounds)) && false) ≡ false = ground arith in
    rw never (
      (for_range_inv (λ t. Holds t × (seen t ≡ seen s)) round
        (λ k t on. (
          kept k t on.0,
          (let off : ((k == key) && false) ≡ false = ground arith in change k t on.0 ∙ rw off refl)
              ∙ on.1,
        ))
        rounds first s (now, refl)).1)

-- Under the test of a round against a key the one may stand for the other.
pub at_key {ℓ} :
    {A : Type ℓ} (value : ℕ → A) (k key : ℕ) (active : Bool) (other : A)
    → (if (k == key) && active then value k else other)
      ≡ (if (k == key) && active then value key else other)
at_key value k key active other = elim (Bool-cases (k == key)) [
  | inl same ↦
      ap (λ (v : ℕ). if (k == key) && active then value v else other) ((==_iff k key).0 same)
  | inr apart ↦ rw apart refl
]
