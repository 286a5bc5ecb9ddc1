-- ===== src/Base/Int.antt =====
-- Signed integers over the native numbers; `negsuc n` is -(n + 1).
use Prim.Native.Nat.{ℕ, suc, ◌+◌, ◌-◌, ◌*◌, ◌%◌, ◌^◌, ◌<◌}
use mathlib.Core.Path.{◌≡◌}
use mathlib.Core.Bool.{Bool, not}
use mathlib.Core.Option.{Option, none, some}
use native.Mathlib.Omega.{arith}
use madlibport.Base.Compare.{ltb, leb, if◌then◌else◌}

pub data ℤ : Type 0 where
  pos : ℕ → ℤ
  negsuc : ℕ → ℤ

abbrev pub pos_part : ℤ → ℕ
pos_part (pos n) = n
pos_part (negsuc n) = 0

abbrev pub neg_part : ℤ → ℕ
neg_part (pos n) = 0
neg_part (negsuc n) = suc n

-- a - b, as an integer.
abbrev pub sub_ℕ : ℕ → ℕ → ℤ
sub_ℕ a b = if leb b a then pos (a - b) else negsuc (b - a - 1)

infixl 65 ◌+ℤ◌ ◌-ℤ◌
infixl 70 ◌*ℤ◌
abbrev pub ◌+ℤ◌ : ℤ → ℤ → ℤ
a +ℤ b = sub_ℕ (pos_part a + pos_part b) (neg_part a + neg_part b)

abbrev pub ◌-ℤ◌ : ℤ → ℤ → ℤ
a -ℤ b = sub_ℕ (pos_part a + neg_part b) (neg_part a + pos_part b)

abbrev pub ◌*ℤ◌ : ℤ → ℤ → ℤ
a *ℤ b =
    sub_ℕ (pos_part a * pos_part b + neg_part a * neg_part b)
      (pos_part a * neg_part b + neg_part a * pos_part b)

abbrev pub lt_ℤ : ℤ → ℤ → Bool
lt_ℤ a b = ltb (pos_part a + neg_part b) (pos_part b + neg_part a)

abbrev pub le_ℤ : ℤ → ℤ → Bool
le_ℤ a b = not (lt_ℤ b a)

abbrev pub plus : ℤ → ℕ → ℤ
plus (pos n) k = pos (n + k)
plus (negsuc n) k = if leb k n then negsuc (n - k) else pos (k - n - 1)

-- `x++` and `x--`.
abbrev pub inc : ℤ → ℤ
inc a = plus a 1

abbrev pub dec : ℤ → ℤ
dec (pos n) = sub_ℕ n 1
dec (negsuc n) = negsuc (suc n)

pub plus-plus : (a : ℤ) (j k : ℕ) → plus (plus a j) k ≡ plus a (j + k)
plus-plus (pos n) j k = ground arith
plus-plus (negsuc n) j k = ground arith

pub plus-zero : (a : ℤ) → plus a 0 ≡ a
plus-zero (pos n) = ground arith
plus-zero (negsuc n) = ground arith

-- An `int32_t`: what is left of a result in 32 bits, in two's complement.
abbrev pub signed_32 : ℕ → ℤ
signed_32 n = if ltb n (2 ^ 31) then pos n else negsuc (2 ^ 32 - 1 - n)

abbrev pub int32 : ℤ → ℤ
int32 (pos n) = signed_32 (n % 2 ^ 32)
int32 (negsuc n) = signed_32 (2 ^ 32 - 1 - n % 2 ^ 32)

pub int32-small : (n : ℕ) → n < 2 ^ 31 → int32 (pos n) ≡ pos n
int32-small n h = let whole : n % 2 ^ 32 ≡ n = omega arith in rw whole (ground arith)

-- The conversion to `size_t`.
abbrev pub to_size : ℤ → ℕ
to_size (pos n) = n
to_size (negsuc n) = 2 ^ 64 - 1 - n

-- An `int` as an index: a negative one is out of bounds.
abbrev pub index? : ℤ → Option ℕ
index? (pos n) = some n
index? (negsuc n) = none

pub dec-plus : (a : ℤ) (k : ℕ) → dec (plus a (suc k)) ≡ plus a k
dec-plus (pos n) k = ground arith
dec-plus (negsuc n) k = ground arith

pub inc-plus : (a : ℤ) (k : ℕ) → inc (plus a k) ≡ plus a (suc k)
inc-plus (pos n) k = ground arith
inc-plus (negsuc n) k = ground arith
