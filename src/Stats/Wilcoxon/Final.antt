-- ===== src/Stats/Wilcoxon/Final.antt =====
-- wsr_test_final::run.
use madlibport.Base.{ℕ, ◌+◌, ◌*◌, ltb, if◌then◌else◌}
use madlibport.Doubles.{Double}
use madlibport.Stats.Floats.{Floating, fabs}
use madlibport.Stats.Distributions.{Distributions}
use madlibport.Stats.Ranks.{Ranks, num_sum}
use madlibport.Stats.Wilcoxon.{WsrState}

-- The smaller rank sum, both rank sums, the number of values, z, and the one-sided and the two-sided
-- probability.
pub record WsrResult (D : Type 0) : Type 0 where
  pub statistic : D
  pub rank_sum_pos : D
  pub rank_sum_neg : D
  pub num : ℕ
  pub z_statistic : D
  pub one_sided : D
  pub two_sided : D

-- `rankSum.minCoeff()`, in halves.
abbrev pub min_rank_sum : Ranks → ℕ
min_rank_sum r = if ltb r.sum1 r.sum0 then r.sum1 else r.sum0

module _ {D : Type 0} ⦃d : Double D⦄ ⦃f : Floating D⦄ ⦃p : Distributions D⦄ where
  open d use {half, of_uint, sub, mul, div}
  open p use {sqrt, normal}

  abbrev halves : ℕ → D
  halves n = mul (of_uint n) half

  unfoldable pub wsr_final : WsrState D → WsrResult D
  wsr_final s =
      let n_n1 = num_sum s.ranks * (num_sum s.ranks + 1) in
      let reduce_variance = div (of_uint s.variance) (of_uint 16) in
      let variance =
        sub (div (mul (of_uint n_n1) (of_uint (2 * num_sum s.ranks + 1))) (of_uint 24))
          reduce_variance in
      let z_statistic =
        div (sub (halves s.ranks.sum0) (div (of_uint n_n1) (of_uint 4))) (sqrt variance) in
      record {
        statistic = halves (min_rank_sum s.ranks);
        rank_sum_pos = halves s.ranks.sum0;
        rank_sum_neg = halves s.ranks.sum1;
        num = num_sum s.ranks;
        z_statistic = z_statistic;
        one_sided = normal z_statistic;
        two_sided = mul (of_uint 2) (normal (fabs z_statistic));
      }
