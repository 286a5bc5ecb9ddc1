-- ===== src/Stats/ChiSquared.antt =====
-- chi_squared_test.cpp.
use madlibport.Base.{
  ℕ, ◌+◌, Bool, not, ◌&&◌, Option, none, some, List, [], ◌∷◌, ltb, ◌==◌, if◌then◌else◌,
}
use madlibport.Base.Int.{ℤ, pos, sub_ℕ, lt_ℤ}
use madlibport.Base.Outcome.{Outcome, ok, throws, ◌>>=◌, ◌>>◌, reject}
use madlibport.Doubles.{Double, of_int}
use madlibport.Stats.Distributions.{Distributions}

pub data Chi2Error : Type 0 where
  negative_observations negative_df df_not_constant : Chi2Error

pub record Chi2State (D : Type 0) : Type 0 where
  pub num_rows : ℕ
  pub sum_expect : D
  pub sum_obs_square_over_expect : D
  pub sum_obs : D
  pub sum_squared_deviations : D
  pub df : ℤ

-- A row, with the optional arguments left out from the last one on.
pub record Chi2Row (D : Type 0) : Type 0 where
  pub observed : ℤ
  pub expected : Option D
  pub df : Option ℤ

pub record Chi2Result (D : Type 0) : Type 0 where
  pub statistic : D
  pub p_value : Option D
  pub degrees : ℤ
  pub phi : D
  pub contingency : D

abbrev pub eq_ℤ : ℤ → ℤ → Bool
eq_ℤ a b = not (lt_ℤ a b) && not (lt_ℤ b a)

module _ {D : Type 0} ⦃d : Double D⦄ where
  open d use {nought, one, of_uint, add, sub, mul, div}

  unfoldable pub update_sum_squared_deviations : Chi2State D → Chi2State D → Chi2State D
  update_sum_squared_deviations left right = if right.num_rows == 0 then left else record left {
    num_rows = left.num_rows + right.num_rows;
    sum_expect = add left.sum_expect right.sum_expect;
    sum_obs_square_over_expect =
        add left.sum_obs_square_over_expect right.sum_obs_square_over_expect;
    sum_obs = add left.sum_obs right.sum_obs;
    sum_squared_deviations = add left.sum_squared_deviations (
        sub
          (add
            (add right.sum_squared_deviations
              (mul left.sum_expect right.sum_obs_square_over_expect))
            (mul left.sum_obs_square_over_expect right.sum_expect))
          (mul (mul (of_uint 2) left.sum_obs) right.sum_obs));
  }

  abbrev pub row_expected : Chi2Row D → D
  row_expected r = elim r.expected [ none ↦ one | some e ↦ e ]

  abbrev pub row_df : Chi2Row D → ℤ
  row_df r = elim r.df [ none ↦ pos 0 | some n ↦ n ]

  -- A row as a state of its own.
  abbrev pub row_state : Chi2Row D → Chi2State D
  row_state r = record {
    num_rows = 1;
    sum_expect = row_expected r;
    sum_obs_square_over_expect = div (mul (of_int r.observed) (of_int r.observed)) (row_expected r);
    sum_obs = of_int r.observed;
    sum_squared_deviations = nought;
    df = row_df r;
  }

  unfoldable pub chi2_gof_test_transition :
      Chi2State D → Chi2Row D → Outcome Chi2Error (Chi2State D)
  chi2_gof_test_transition s r = do
    reject (lt_ℤ r.observed (pos 0)) negative_observations
    reject (lt_ℤ (row_df r) (pos 0)) negative_df
    reject (not (eq_ℤ s.df (row_df r)) && ltb 0 s.num_rows) df_not_constant
    ok (update_sum_squared_deviations (record s { df = row_df r }) (row_state r))

  -- The degrees of freedom of two states, where one has no rows or they agree.
  unfoldable pub merged_df : Chi2State D → Chi2State D → Outcome Chi2Error ℤ
  merged_df left right =
      if eq_ℤ left.df right.df
      then ok left.df
      else if left.num_rows == 0
      then ok right.df
      else if ltb 0 right.num_rows
      then throws df_not_constant
      else ok left.df

  unfoldable pub chi2_gof_test_merge_states :
      Chi2State D → Chi2State D → Outcome Chi2Error (Chi2State D)
  unfolding merged_df
  chi2_gof_test_merge_states left right = do
    df ← merged_df left right
    ok (update_sum_squared_deviations (record left { df = df }) right)

  abbrev pub chi2_start : Chi2State D
  chi2_start = record {
    num_rows = 0;
    sum_expect = nought;
    sum_obs_square_over_expect = nought;
    sum_obs = nought;
    sum_squared_deviations = nought;
    df = pos 0;
  }

  unfoldable pub chi2_run : Chi2State D → List (Chi2Row D) → Outcome Chi2Error (Chi2State D)
  chi2_run s [] = ok s
  chi2_run s (r ∷ rs) = chi2_gof_test_transition s r >>= λ t. chi2_run t rs

module _ {D : Type 0} ⦃d : Double D⦄ ⦃p : Distributions D⦄ where
  open d use {of_uint, add, div}
  open p use {sqrt, chi_squared}

  abbrev pub degree_of_freedom : Chi2State D → ℤ
  degree_of_freedom s = if eq_ℤ s.df (pos 0) then sub_ℕ s.num_rows 1 else s.df

  unfoldable pub chi2_gof_test_final : Chi2State D → Option (Chi2Result D)
  chi2_gof_test_final s =
      let degrees = degree_of_freedom s in
      let statistic = div s.sum_squared_deviations s.sum_obs in
      if s.num_rows == 0
      then none
      else some (record {
        statistic = statistic;
        p_value =
            if lt_ℤ (pos 0) degrees then some (chi_squared (of_int degrees) statistic) else none;
        degrees = degrees;
        phi = sqrt (div statistic (of_uint s.num_rows));
        contingency = sqrt (div statistic (add (of_uint s.num_rows) statistic));
      })
