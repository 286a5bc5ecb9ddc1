-- ===== src/Utils/PowerOfTwo.antt =====
-- utils/Math.hpp: nextPowerOfTwo, for an unsigned type of a given number of binary digits.
use Prim.Native.Nat.{bit_or}
use native.Mathlib.Nat.{two-pow-succ, pow-le-pow_right}
use madlibport.Base.{
  ℕ, zero, suc, ◌+◌, ◌-◌, ◌*◌, ◌/◌, ◌%◌, ◌^◌, ◌≤◌, ◌<◌, ◌≡◌, refl, sym, ◌∙◌, ap, subst, arith, ltb,
  if◌then◌else◌, inl, inr, dec_lt, ℕ_discrete, Bool-cases,
}
use madlibport.Utils.BitOr.{
  pow_pos, zero-bit_or, bit_or-zero, bit_or_half, bit_or_assoc, bit_or_low_ones,
}

-- `v >> i`
unfoldable pub shift_right : ℕ → ℕ → ℕ
shift_right v zero = v
shift_right v (suc i) = shift_right (v / 2) i

-- The loop for i = 1, 2, 4, ... below the number of digits, which bounds its rounds too.
unfoldable pub set_lower : ℕ → ℕ → ℕ → ℕ → ℕ
set_lower zero digits i v = v
set_lower (suc fuel) digits i v =
    let rest = set_lower fuel digits (i * 2) (bit_or v (shift_right v i)) in
    if ltb i digits then rest else v

unfoldable pub next_power_of_two : ℕ → ℕ → ℕ
next_power_of_two digits n =
    (set_lower digits digits 1 ((n + 2 ^ digits - 1) % 2 ^ digits) + 1) % 2 ^ digits

-- The bitwise or of `v` with the first shifts of it.
shifts : ℕ → ℕ → ℕ
shifts zero v = 0
shifts (suc k) v = bit_or v (shifts k (v / 2))

half-shifts : (k v : ℕ) → shifts k v / 2 ≡ shifts k (v / 2)
unfolding shifts
half-shifts zero v = omega arith
half-shifts (suc k) v =
    bit_or_half v (shifts k (v / 2)) ∙ ap (bit_or (v / 2)) (half-shifts k (v / 2))

shift_right-shifts : (i k v : ℕ) → shift_right (shifts k v) i ≡ shifts k (shift_right v i)
unfolding shift_right
shift_right-shifts zero k v = refl
shift_right-shifts (suc i) k v =
    ap (λ (n : ℕ). shift_right n i) (half-shifts k v) ∙ shift_right-shifts i k (v / 2)

shifts_add : (a b v : ℕ) → shifts (a + b) v ≡ bit_or (shifts a v) (shifts b (shift_right v a))
unfolding shifts shift_right
shifts_add zero b v =
    let e : 0 + b ≡ b = omega arith in ap (λ (n : ℕ). shifts n v) e ∙ sym (zero-bit_or (shifts b v))
shifts_add (suc a) b v =
    let e : suc a + b ≡ suc (a + b) = omega arith in
    ap (λ (n : ℕ). shifts n v) e
    ∙ ap (bit_or v) (shifts_add a b (v / 2))
    ∙ sym (bit_or_assoc v (shifts a (v / 2)) (shifts b (shift_right (v / 2) a)))

double-shifts : (i v : ℕ) → bit_or (shifts i v) (shift_right (shifts i v) i) ≡ shifts (i * 2) v
double-shifts i v =
    let e : i * 2 ≡ i + i = omega arith in
    ap (bit_or (shifts i v)) (shift_right-shifts i i v)
    ∙ sym (shifts_add i i v)
    ∙ ap (λ (n : ℕ). shifts n v) (sym e)

set_lower-shifts :
    (fuel digits i v : ℕ)
    → 0 < i
    → digits ≤ fuel + i
    → (k : ℕ) × (digits ≤ k) × (set_lower fuel digits i (shifts i v) ≡ shifts k v)
unfolding set_lower
set_lower-shifts zero digits i v h d = (i, omega arith, refl)
set_lower-shifts (suc fuel) digits i v h d = elim (Bool-cases (ltb i digits)) [
  | inl more ↦
      let (k, d', e) = set_lower-shifts fuel digits (i * 2) v (omega arith) (omega arith) in
      (k, d', rw more (ap (set_lower fuel digits (i * 2)) (double-shifts i v) ∙ e))
  | inr less ↦ (i, ground arith, rw less)
]

-- `p` is the least power of two above `v`.
record IsNext (v p : ℕ) : Type 0 where
  exponent : ℕ
  power : p ≡ 2 ^ exponent
  above : v < p
  least : 0 < v → p ≤ v + v
  one : v ≡ 0 → p ≡ 1

IsNext-half : (v p : ℕ) → IsNext (suc v / 2) p → (p ≤ suc v) × (suc v < p + p) × (0 < p)
IsNext-half v p h = elim (ℕ_discrete (suc v / 2) 0) [
  | yes z ↦ let one = h.one z in omega arith
  | no nz ↦
      let (least, above) : (p ≤ suc v / 2 + suc v / 2) × (suc v / 2 < p) =
        (h.least (omega arith), h.above) in
      omega arith
]

minus_one : (n m : ℕ) → 0 < n → n ≤ m → (n + m - 1) % m ≡ n - 1
minus_one n m h b = grind arith

small_mod : (n m : ℕ) → n < m → n % m ≡ n
small_mod n m h = grind arith

shifts_one : (v : ℕ) → shifts 1 v ≡ v
unfolding shifts
shifts_one v = bit_or-zero v

shifts-IsNext : (k v : ℕ) → v < 2 ^ k → IsNext v (shifts k v + 1)
unfolding shifts
shifts-IsNext zero v h = record {
  exponent = 0;
  power = refl;
  above = omega arith;
  least = λ p. absurd (omega arith);
  one = λ e. refl;
}
shifts-IsNext (suc k) zero h =
    let p = shifts-IsNext k 0 (pow_pos k) in
    let e : bit_or 0 (shifts k (0 / 2)) + 1 ≡ 1 =
      omega (arith, zero-bit_or (shifts k (0 / 2)), p.one refl) in
    record {
      exponent = 0;
      power = e;
      above = omega arith;
      least = λ p. absurd (omega arith);
      one = λ _. e;
    }
shifts-IsNext (suc k) (suc v) h =
    let p = shifts-IsNext k (suc v / 2) (omega (arith, two-pow-succ k)) in
    let pow = p.power in
    let low : shifts k (suc v / 2) ≡ 2 ^ p.exponent - 1 = omega arith in
    let bounds = IsNext-half v (shifts k (suc v / 2) + 1) p in
    let e : bit_or (suc v) (shifts k (suc v / 2)) + 1 ≡ 2 ^ suc p.exponent =
      ap (λ (n : ℕ). bit_or (suc v) n + 1) low
      ∙ bit_or_low_ones p.exponent (suc v) (omega (arith, bounds)) (omega (arith, bounds)) in
    record {
      exponent = suc p.exponent;
      power = e;
      above = omega (arith, e, bounds);
      least = λ _. omega (arith, e, bounds, two-pow-succ p.exponent);
      one = λ z. absurd (omega arith);
    }

-- For an unsigned type of one binary digit or more, and a positive number that is at most its
-- greatest power of two, `nextPowerOfTwo` returns a power of two that is not below the number, and
-- whose half is: the least one.
pub next_power_of_two_lem :
    (b n : ℕ)
    → 0 < n
    → n ≤ 2 ^ b
    → (e : ℕ) × (next_power_of_two (suc b) n ≡ 2 ^ e) × (n ≤ 2 ^ e) × (2 ^ e < n + n)
unfolding next_power_of_two
next_power_of_two_lem b n pos fits =
    let top = two-pow-succ b in
    let less : (n + 2 ^ suc b - 1) % 2 ^ suc b ≡ n - 1 =
      minus_one n (2 ^ suc b) pos (omega arith) in
    let (k, wide, e) = set_lower-shifts (suc b) (suc b) 1 (n - 1) (omega arith) (omega arith) in
    let more : 2 ^ suc b ≤ 2 ^ k = pow-le-pow_right (omega arith) wide in
    let p = shifts-IsNext k (n - 1) (omega arith) in
    let power = p.power in
    let bound : shifts k (n - 1) + 1 < n + n = elim (ℕ_discrete n 1) [
      | yes one ↦ let small = p.one (omega arith) in omega arith
      | no more ↦ let small = p.least (omega arith) in omega arith
    ] in
    let above = p.above in
    (
      p.exponent,
      ap (λ (v : ℕ). (set_lower (suc b) (suc b) 1 v + 1) % 2 ^ suc b)
            (less ∙ sym (shifts_one (n - 1)))
          ∙ ap (λ (v : ℕ). (v + 1) % 2 ^ suc b) e
          ∙ small_mod (shifts k (n - 1) + 1) (2 ^ suc b) (omega arith)
          ∙ power,
      omega arith,
      omega arith,
    )

-- What the type `uint16_t` and `uint32_t` give for 0, and `uint16_t` above its greatest power of two.
pub zero_of_32 : next_power_of_two 32 0 ≡ 0
unfolding next_power_of_two set_lower shift_right
zero_of_32 = refl

pub zero_of_16 : next_power_of_two 16 0 ≡ 0
unfolding next_power_of_two set_lower shift_right
zero_of_16 = refl

pub above_of_16 : next_power_of_two 16 32769 ≡ 0
unfolding next_power_of_two set_lower shift_right
above_of_16 = refl

-- The numbers of two powers of two between a number and its double.
pub powers_same :
    (a b c : ℕ) → c ≤ 2 ^ a → 2 ^ a < c + c → c ≤ 2 ^ b → 2 ^ b < c + c → 2 ^ a ≡ 2 ^ b
powers_same a b c h₁ h₂ h₃ h₄ = elim (dec_lt a b) [
  | yes lt ↦
      let more : 2 ^ suc a ≤ 2 ^ b = pow-le-pow_right (omega arith) lt in
      omega (arith, two-pow-succ a)
  | no ge ↦ elim (dec_lt b a) [
    | yes lt ↦
        let more : 2 ^ suc b ≤ 2 ^ a = pow-le-pow_right (omega arith) lt in
        omega (arith, two-pow-succ b)
    | no ge' ↦ let same : a ≡ b = omega arith in ap (λ (n : ℕ). 2 ^ n) same
  ]
]

-- Room for a power of two of elements, the least one that is enough for `cols`.
pub record HasRoom (cols room : ℕ) : Type 0 where
  pub exponent : ℕ
  pub power : room ≡ 2 ^ exponent
  pub enough : cols ≤ room
  pub least : room < cols + cols

-- Numbers up to a power of two have room within it.
pub HasRoom-bounded : (b n room : ℕ) → HasRoom n room → n ≤ 2 ^ b → room ≤ 2 ^ b
HasRoom-bounded b n room h few = elim (dec_lt b h.exponent) [
  | yes lt ↦
      let mono : 2 ^ suc b ≤ 2 ^ h.exponent = pow-le-pow_right (omega arith) lt in
      let twice = two-pow-succ b in let power = h.power in let least = h.least in omega arith
  | no ge ↦
      let mono : 2 ^ h.exponent ≤ 2 ^ b = pow-le-pow_right (omega arith) (omega arith) in
      rw (h.power) mono
]

pub next_power-HasRoom :
    (b n room : ℕ) → 0 < n → n ≤ 2 ^ b → HasRoom n room → next_power_of_two (suc b) n ≡ room
next_power-HasRoom b n room pos fits h =
    let (e, power, enough, least) = next_power_of_two_lem b n pos fits in
    power
    ∙ powers_same e h.exponent n enough least (subst (λ (k : ℕ). n ≤ k) h.power h.enough)
        (subst (λ (k : ℕ). k < n + n) h.power h.least)
    ∙ sym h.power
