-- ===== src/Utils/BitOr.antt =====
-- The operator `|` on unsigned numbers, by their binary digits.
use Prim.Native.Nat.{max, bit_or, digits, bit_or-bitwise}
use madlibport.Base.{ℕ, zero, suc, ◌+◌, ◌*◌, ◌/◌, ◌%◌, ◌-◌, ◌^◌, ◌≤◌, ◌<◌, ◌≡◌, refl, ap, arith}
use native.Mathlib.Nat.{two-pow-succ}

abbrev or_digits : ℕ → ℕ → ℕ → ℕ
or_digits n a b = digits (λ b. b) max n a b

pub pow_pos : (h : ℕ) → 0 < 2 ^ h
pow_pos zero = omega arith
pow_pos (suc h) = omega (arith, pow_pos h, two-pow-succ h)

or_digits_fuel : (n m a b : ℕ) → a ≤ n → a ≤ m → or_digits n a b ≡ or_digits m a b
or_digits_fuel zero zero a b p q = refl
or_digits_fuel zero (suc m) zero b p q = refl
or_digits_fuel zero (suc m) (suc a) b p q = absurd (omega arith)
or_digits_fuel (suc n) zero zero b p q = refl
or_digits_fuel (suc n) zero (suc a) b p q = absurd (omega arith)
or_digits_fuel (suc n) (suc m) zero b p q = refl
or_digits_fuel (suc n) (suc m) (suc a) b p q =
    omega (arith, or_digits_fuel n m (suc a / 2) (b / 2) (omega arith) (omega arith))

pub zero-bit_or : (b : ℕ) → bit_or 0 b ≡ b
zero-bit_or b = bit_or-bitwise 0 b

-- The lowest digit.
pub bit_or_step : (a b : ℕ) → bit_or a b ≡ bit_or (a / 2) (b / 2) * 2 + max (a % 2) (b % 2)
bit_or_step zero b = omega (arith, zero-bit_or b, zero-bit_or (b / 2))
bit_or_step (suc a) b = omega (
  arith,
  bit_or-bitwise (suc a) b,
  bit_or-bitwise (suc a / 2) (b / 2),
  or_digits_fuel a (suc a / 2) (suc a / 2) (b / 2) (omega arith) (omega arith),
)

or_zero_fuel : (n a : ℕ) → a ≤ n → bit_or a 0 ≡ a
or_zero_fuel n zero h = zero-bit_or 0
or_zero_fuel zero (suc a) h = absurd (omega arith)
or_zero_fuel (suc n) (suc a) h =
    omega (arith, bit_or_step (suc a) 0, or_zero_fuel n (suc a / 2) (omega arith))

pub bit_or-zero : (a : ℕ) → bit_or a 0 ≡ a
bit_or-zero a = or_zero_fuel a a (omega arith)

pub bit_or_half : (a b : ℕ) → bit_or a b / 2 ≡ bit_or (a / 2) (b / 2)
bit_or_half a b = omega (arith, bit_or_step a b)

pub bit_or_odd : (a b : ℕ) → bit_or a b % 2 ≡ max (a % 2) (b % 2)
bit_or_odd a b = omega (arith, bit_or_step a b)

or_assoc_fuel : (n a b c : ℕ) → a ≤ n → bit_or (bit_or a b) c ≡ bit_or a (bit_or b c)
or_assoc_fuel n zero b c p =
    omega (arith, zero-bit_or (bit_or b c), ap (λ (t : ℕ). bit_or t c) (zero-bit_or b))
or_assoc_fuel zero (suc a) b c p = absurd (omega arith)
or_assoc_fuel (suc n) (suc a) b c p = omega (
  arith,
  bit_or_step (bit_or (suc a) b) c,
  bit_or_step (suc a) (bit_or b c),
  ap (λ (t : ℕ). bit_or t (c / 2)) (bit_or_half (suc a) b),
  ap (bit_or (suc a / 2)) (bit_or_half b c),
  bit_or_odd (suc a) b,
  bit_or_odd b c,
  or_assoc_fuel n (suc a / 2) (b / 2) (c / 2) (omega arith),
)

pub bit_or_assoc : (a b c : ℕ) → bit_or (bit_or a b) c ≡ bit_or a (bit_or b c)
bit_or_assoc a b c = or_assoc_fuel a a b c (omega arith)

-- All digits below the highest one of `v` are set.
pub bit_or_low_ones : (h v : ℕ) → 2 ^ h ≤ v → v < 2 ^ suc h → bit_or v (2 ^ h - 1) + 1 ≡ 2 ^ suc h
bit_or_low_ones zero v lo hi = let one : v ≡ 1 = omega arith in rw one refl
bit_or_low_ones (suc h) v lo hi =
    let p = two-pow-succ h in
    let q = two-pow-succ (suc h) in
    let half : (2 ^ suc h - 1) / 2 ≡ 2 ^ h - 1 = omega (arith, pow_pos h) in
    omega (
      arith,
      pow_pos h,
      bit_or_step v (2 ^ suc h - 1),
      ap (bit_or (v / 2)) half,
      bit_or_low_ones h (v / 2) (omega arith) (omega arith),
    )
