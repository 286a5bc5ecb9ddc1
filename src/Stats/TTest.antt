-- ===== src/Stats/TTest.antt =====
-- t_test.cpp: the transitions, the merge and the final functions of the t-tests and of the F-test.
use madlibport.Base.{◌+◌, ◌-◌, Bool, ◌||◌, Option, none, some, leb, ◌==◌, if◌then◌else◌}
use madlibport.Doubles.{Double}
use madlibport.Stats.Floats.{Floating, fabs}
use madlibport.Stats.Distributions.{Distributions}
use madlibport.Stats.Samples.{Sample, no_values, one_value, update_corrected_sum_of_squares}

pub record TTestState (D : Type 0) : Type 0 where
  pub x : Sample D
  pub y : Sample D

-- The statistic, the degrees of freedom, the one-sided and the two-sided probability.
pub record TResult (D : Type 0) : Type 0 where
  pub statistic : D
  pub degrees : D
  pub one_sided : D
  pub two_sided : D

pub record FResult (D : Type 0) : Type 0 where
  pub statistic : D
  pub degrees_x : D
  pub degrees_y : D
  pub one_sided : D
  pub two_sided : D

module _ {D : Type 0} ⦃d : Double D⦄ where
  unfoldable pub t_test_one_transition : TTestState D → D → TTestState D
  t_test_one_transition s x = record s { x = update_corrected_sum_of_squares s.x (one_value x) }

  unfoldable pub t_test_two_transition : TTestState D → Bool → D → TTestState D
  t_test_two_transition s first value =
      if first
      then record s { x = update_corrected_sum_of_squares s.x (one_value value) }
      else record s { y = update_corrected_sum_of_squares s.y (one_value value) }

  unfoldable pub t_test_merge_states : TTestState D → TTestState D → TTestState D
  t_test_merge_states left right = record {
    x = update_corrected_sum_of_squares left.x right.x;
    y = update_corrected_sum_of_squares left.y right.y;
  }

  abbrev pub t_test_start : TTestState D
  t_test_start = record { x = no_values; y = no_values }

module _ {D : Type 0} ⦃d : Double D⦄ ⦃f : Floating D⦄ ⦃p : Distributions D⦄ where
  open d use {nought, one, of_uint, add, sub, mul, div, lt}
  open p use {sqrt, pow, students_t, fisher_f}

  unfoldable pub t_stats_to_result : D → D → TResult D
  t_stats_to_result t degrees = record {
    statistic = t;
    degrees = degrees;
    one_sided = students_t degrees t;
    two_sided = mul (of_uint 2) (students_t degrees (fabs t));
  }

  unfoldable pub t_test_one_final : TTestState D → Option (TResult D)
  unfolding t_stats_to_result
  t_test_one_final s =
      let num_x = of_uint s.x.weight in
      let degrees = sub num_x one in
      let variance = div s.x.corrected degrees in
      let t = mul (sqrt (div num_x variance)) (div s.x.sum num_x) in
      if leb s.x.weight 1 then none else some (t_stats_to_result t degrees)

  abbrev pub diff_in_means : TTestState D → D
  diff_in_means s = sub (div s.x.sum (of_uint s.x.weight)) (div s.y.sum (of_uint s.y.weight))

  unfoldable pub t_test_two_pooled_final : TTestState D → Option (TResult D)
  unfolding t_stats_to_result
  t_test_two_pooled_final s =
      let num_x = of_uint s.x.weight in
      let num_y = of_uint s.y.weight in
      let degrees = sub (add num_x num_y) (of_uint 2) in
      let variance = div (add s.x.corrected s.y.corrected) degrees in
      let denominator = sqrt (mul variance (add (div one num_x) (div one num_y))) in
      if s.x.weight == 0 || (s.y.weight == 0 || leb (s.x.weight + s.y.weight) 2)
      then none
      else some (t_stats_to_result (div (diff_in_means s) denominator) degrees)

  unfoldable pub t_test_two_unpooled_final : TTestState D → Option (TResult D)
  unfolding t_stats_to_result
  t_test_two_unpooled_final s =
      let num_x = of_uint s.x.weight in
      let num_y = of_uint s.y.weight in
      let variance_x = div s.x.corrected (sub num_x one) in
      let variance_y = div s.y.corrected (sub num_y one) in
      let over_x = div variance_x num_x in
      let over_y = div variance_y num_y in
      let degrees = div (pow (add over_x over_y) (of_uint 2)) (
        add (div (pow over_x (of_uint 2)) (sub num_x one))
          (div (pow over_y (of_uint 2)) (sub num_y one))) in
      let denominator = sqrt (add (div variance_x num_x) (div variance_y num_y)) in
      if leb s.x.weight 1 || leb s.y.weight 1
      then none
      else some (t_stats_to_result (div (diff_in_means s) denominator) degrees)

  abbrev min : D → D → D
  min x y = if lt y x then y else x

  unfoldable pub f_test_final : TTestState D → Option (FResult D)
  f_test_final s =
      let degrees_x = of_uint (s.x.weight - 1) in
      let degrees_y = of_uint (s.y.weight - 1) in
      let variance_x = div s.x.corrected degrees_x in
      let variance_y = div s.y.corrected degrees_y in
      let statistic = div variance_x variance_y in
      let one_sided = fisher_f degrees_x degrees_y statistic in
      if leb s.x.weight 1 || leb s.y.weight 1
      then none
      else some (record {
        statistic = statistic;
        degrees_x = degrees_x;
        degrees_y = degrees_y;
        one_sided = one_sided;
        two_sided = mul (of_uint 2) (min one_sided (sub one one_sided));
      })
