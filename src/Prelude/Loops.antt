-- ===== src/Prelude/Loops.antt =====
-- Counted loops, and checks of every value below a bound.
use Prim.Native.Nat.{ℕ, zero, suc, ◌+◌, ◌<◌}
use mathlib.Core.Path.{◌≡◌}
use mathlib.Core.Bool.{Bool, true, ◌&&◌}
use mathlib.Core.Logic.{inl, inr}
use waifu_os.Prelude.Tests.{Bool-cases, ◌==◌, ==_iff}
use native.Mathlib.Omega.{arith}

-- `for (k = first; k < first + rounds; k++) state = round(k, state)`
unfoldable pub for_range {ℓ} :
    {State : Type ℓ} (rounds first : ℕ) → (ℕ → State → State) → State → State
for_range zero first round state = state
for_range (suc rounds) first round state = for_range rounds (first + 1) round (round first state)

-- A property of the state that no round breaks holds at the end of the loop.
pub for_range_inv {ℓ κ} :
    {State : Type ℓ} (Holds : State → Type κ) (round : ℕ → State → State)
    (kept : (k : ℕ) (state : State) → Holds state → Holds (round k state)) (rounds first : ℕ)
    (state : State)
    → Holds state
    → Holds (for_range rounds first round state)
unfolding for_range
for_range_inv Holds round kept zero first state now = now
for_range_inv Holds round kept (suc rounds) first state now =
    for_range_inv Holds round kept rounds (first + 1) (round first state) (kept first state now)

-- Every number below a bound passes a test.
unfoldable pub every_below : ℕ → (ℕ → Bool) → Bool
every_below zero test = true
every_below (suc bound) test = every_below bound test && test bound

pub every_below-true :
    (bound : ℕ) (test : ℕ → Bool) (i : ℕ)
    → every_below bound test ≡ true
    → i < bound
    → test i ≡ true
unfolding every_below
every_below-true zero test i all inside = absurd (omega arith)
every_below-true (suc bound) test i all inside = elim (Bool-cases (i == bound)) [
  | inl last ↦ let e : i ≡ bound = (==_iff i bound).0 last in rw e (ground arith)
  | inr other ↦ every_below-true bound test i (ground arith) (ground arith)
]
