-- ===== src/AssocRules/Counter.antt =====
-- The flags count in binary, the first flag being the lowest digit.
use madlibport.Base.{
  ℕ, zero, suc, ◌+◌, ◌*◌, ◌^◌, ◌≤◌, ◌<◌, ◌≡◌, refl, Bool, true, false, List, [], ◌∷◌, arith, length,
  replicate,
}
use madlibport.AssocRules.{next_flags}

abbrev pub digit : Bool → ℕ
digit true = 1
digit false = 0

abbrev pub value : List Bool → ℕ
value [] = 0
value (f ∷ flags) = digit f + 2 * value flags

pub length-next_flags : (flags : List Bool) → length (next_flags flags) ≡ length flags
unfolding next_flags
length-next_flags [] = refl
length-next_flags (false ∷ flags) = refl
length-next_flags (true ∷ flags) = omega (arith, length-next_flags flags)

pub power_step : (n : ℕ) → 2 ^ suc n ≡ 2 * 2 ^ n
power_step n = grind arith

pub value-lt : (flags : List Bool) → value flags < 2 ^ length flags
value-lt [] = omega arith
value-lt (true ∷ flags) = omega (arith, value-lt flags, power_step (length flags))
value-lt (false ∷ flags) = omega (arith, value-lt flags, power_step (length flags))

pub value-next_flags :
    (flags : List Bool)
    → suc (value flags) < 2 ^ length flags
    → value (next_flags flags) ≡ suc (value flags)
unfolding next_flags
value-next_flags [] h = absurd (omega arith)
value-next_flags (false ∷ flags) h = omega arith
value-next_flags (true ∷ flags) h =
    omega (arith, value-next_flags flags (omega (arith, value-lt flags, power_step (length flags))))

pub value-replicate : (n : ℕ) → value (replicate n false) ≡ 0
value-replicate zero = refl
value-replicate (suc n) = omega (arith, value-replicate n)

pub power_pos : (n : ℕ) → 1 ≤ 2 ^ n
power_pos zero = omega arith
power_pos (suc n) = omega (arith, power_pos n, power_step n)
