-- ===== src/Stats/Kolmogorov.antt =====
-- kolmogorov_smirnov_test.cpp.
pub mod Greatest
use madlibport.Base.{
  ℕ, zero, suc, ◌+◌, ◌*◌, Bool, true, false, not, ◌&&◌, ◌||◌, Option, none, some, List, [], ◌∷◌,
  ltb, ◌==◌, if◌then◌else◌,
}
use madlibport.Base.Int.{ℤ, pos}
use madlibport.Base.Outcome.{Outcome, ok, throws, ◌>>=◌, ◌>>◌, reject}
use madlibport.Doubles.{Double, of_int}
use madlibport.Stats.Floats.{Floating, fabs}
use madlibport.Stats.Distributions.{Distributions}
use madlibport.Stats.ChiSquared.{eq_ℤ}

pub data KsError : Type 0 where
  sizes_not_constant not_ordered sizes_differ : KsError

-- The numbers of values that were seen of the two samples, and the numbers that were announced.
pub record KsState (D : Type 0) : Type 0 where
  pub num0 : ℕ
  pub num1 : ℕ
  pub expected0 : ℤ
  pub expected1 : ℤ
  pub last : D
  pub max_diff : D
  pub last_diff : D

pub record KsRow (D : Type 0) : Type 0 where
  pub first : Bool
  pub value : D
  pub expected0 : ℤ
  pub expected1 : ℤ

abbrev pub one_if : Bool → ℕ
one_if b = if b then 1 else 0

module _ {D : Type 0} ⦃d : Double D⦄ ⦃f : Floating D⦄ where
  open d use {nought, of_uint, sub, div, lt}

  abbrev pub same_sizes : KsState D → KsRow D → Bool
  same_sizes s r = eq_ℤ s.expected0 r.expected0 && eq_ℤ s.expected1 r.expected1

  abbrev pub seen : KsState D → Bool
  seen s = ltb 0 (s.num0 + s.num1)

  -- The distance of the two empirical distribution functions.
  abbrev pub distance : ℕ → ℕ → ℤ → ℤ → D
  distance n0 n1 e0 e1 = fabs (sub (div (of_uint n0) (of_int e0)) (div (of_uint n1) (of_int e1)))

  -- The greatest distance once a value comes that is greater than the last one.
  unfoldable pub ks_max_diff : KsState D → D → D
  ks_max_diff s value =
      if seen s && (lt s.last value && lt s.max_diff s.last_diff) then s.last_diff else s.max_diff

  unfoldable pub ks_count : KsState D → KsRow D → KsState D
  unfolding ks_max_diff
  ks_count s r =
      let n0 = s.num0 + one_if r.first in
      let n1 = s.num1 + one_if (not r.first) in
      record {
        num0 = n0;
        num1 = n1;
        expected0 = r.expected0;
        expected1 = r.expected1;
        last = r.value;
        max_diff = ks_max_diff s r.value;
        last_diff = distance n0 n1 r.expected0 r.expected1;
      }

  unfoldable pub ks_test_transition : KsState D → KsRow D → Outcome KsError (KsState D)
  unfolding ks_count
  ks_test_transition s r = do
    reject (not (same_sizes s r) && seen s) sizes_not_constant
    reject (seen s && lt r.value s.last) not_ordered
    ok (ks_count s r)

  abbrev pub ks_start : KsState D
  ks_start = record {
    num0 = 0;
    num1 = 0;
    expected0 = pos 0;
    expected1 = pos 0;
    last = nought;
    max_diff = nought;
    last_diff = nought;
  }

  unfoldable pub ks_run : KsState D → List (KsRow D) → Outcome KsError (KsState D)
  ks_run s [] = ok s
  ks_run s (r ∷ rs) = ks_test_transition s r >>= λ t. ks_run t rs

module _ {D : Type 0} ⦃d : Double D⦄ ⦃p : Distributions D⦄ where
  open d use {of_uint, add, mul, div}
  open p use {sqrt, twelve_hundredths, eleven_hundredths, kolmogorov}

  -- The greatest distance, the statistic and its probability.
  unfoldable pub ks_test_final : KsState D → Outcome KsError (D × D × D)
  ks_test_final s = do
    reject (not (eq_ℤ (pos s.num0) s.expected0 && eq_ℤ (pos s.num1) s.expected1)) sizes_differ
    let root = sqrt (div (of_uint (s.num0 * s.num1)) (of_uint (s.num0 + s.num1)))
    let statistic = mul (add (add root twelve_hundredths) (div eleven_hundredths root)) s.max_diff
    ok (s.max_diff, statistic, kolmogorov statistic)
