-- ===== src/Doubles.antt =====
-- What the modelled code does with a `double`: its constants, its arithmetic and comparisons, and
-- the calls of <cmath>. A theorem holds for every instance unless it names laws.
use madlibport.Base.{ℕ, suc, ◌*◌, ◌/◌, Bool, not}
use madlibport.Base.Int.{ℤ, pos, negsuc, ◌+ℤ◌, ◌-ℤ◌, ◌*ℤ◌, lt_ℤ}

pub record Double (D : Type 0) : Type 0 where
  pub nought : D
  pub one : D
  pub half : D
  pub hundredth : D
  pub of_uint : ℕ → D
  pub neg : D → D
  pub add : D → D → D
  pub sub : D → D → D
  pub mul : D → D → D
  pub div : D → D → D
  pub exp : D → D
  pub log : D → D
  pub lt : D → D → Bool
  pub le : D → D → Bool

-- An instance to run the code on: integers that count hundredths, rounded to zero, with the
-- identity for the functions of <cmath>.
abbrev pub Hundredths : Type 0
Hundredths = ℤ

abbrev quot_ℕ : ℤ → ℕ → ℤ
quot_ℕ (pos n) k = pos (n / k)
quot_ℕ (negsuc n) k = pos 0 -ℤ pos (suc n / k)

abbrev quot_ℤ : ℤ → ℤ → ℤ
quot_ℤ a (pos k) = quot_ℕ a k
quot_ℤ a (negsuc k) = pos 0 -ℤ quot_ℕ a (suc k)

instance abbrev pub hundredths_double : Double Hundredths
hundredths_double = record {
  nought = pos 0;
  one = pos 100;
  half = pos 50;
  hundredth = pos 1;
  of_uint = λ n. pos (100 * n);
  neg = λ a. pos 0 -ℤ a;
  add = ◌+ℤ◌;
  sub = ◌-ℤ◌;
  mul = λ a b. quot_ℕ (a *ℤ b) 100;
  div = λ a b. quot_ℤ (pos 100 *ℤ a) b;
  exp = λ a. a;
  log = λ a. a;
  lt = lt_ℤ;
  le = λ a b. not (lt_ℤ b a);
}

-- Conversion of an `int`.
abbrev pub of_int : {D : Type 0} ⦃d : Double D⦄ → ℤ → D
of_int ⦃d⦄ (pos n) = d.of_uint n
of_int ⦃d⦄ (negsuc n) = d.neg (d.of_uint (suc n))
