-- ===== src/Prelude/Loops.antt =====
-- Python's `while` loop on fuel, and the one rule by which its invariants are proved.
use Prim.Native.Nat.{ℕ, zero, suc, ◌<◌}
use mathlib.Core.Path.{◌≡◌}
use mathlib.Core.Bool.{Bool, true, false}
use native.Mathlib.Omega.{arith}

-- The loop goes round while `running` holds, at most `fuel` times.
unfoldable pub loop {ℓ} : {S : Type ℓ} → ℕ → (S → Bool) → (S → S) → S → S
loop zero running round s = s
loop (suc fuel) running round s = elim (running s) [
  | true ↦ loop fuel running round (round s)
  | false ↦ s
]

-- Fuel above a measure that falls in every round lets the loop end by its own test.
pub loop_inv {ℓ κ} :
    {S : Type ℓ} (P : S → Type κ) (measure : S → ℕ) (running : S → Bool) (round : S → S)
    → ((s : S) → P s → running s ≡ true → P (round s) × (measure (round s) < measure s))
    → (fuel : ℕ) (s : S) → measure s < fuel
    → P s
    → P (loop fuel running round s) × (running (loop fuel running round s) ≡ false)
unfolding loop
loop_inv P measure running round step zero s below h = absurd (omega arith)
loop_inv P measure running round step (suc fuel) s below h =
    ground (arith, step s h, loop_inv P measure running round step fuel (round s))
