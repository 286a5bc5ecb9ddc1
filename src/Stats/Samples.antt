-- ===== src/Stats/Samples.antt =====
-- The corrected sum of squares of t_test.cpp and one_way_anova.cpp: sizes of samples are natural
-- numbers, which the doubles that the source keeps them in represent exactly below 2^53.
use madlibport.Base.{ℕ, ◌+◌, List, [], ◌∷◌, ◌==◌, if◌then◌else◌}
use madlibport.Doubles.{Double}

pub record Sample (D : Type 0) : Type 0 where
  pub weight : ℕ
  pub sum : D
  pub corrected : D

module _ {D : Type 0} ⦃d : Double D⦄ where
  open d use {nought, of_uint, add, sub, mul, div}

  abbrev pub no_values : Sample D
  no_values = record { weight = 0; sum = nought; corrected = nought }

  abbrev pub one_value : D → Sample D
  one_value x = record { weight = 1; sum = x; corrected = nought }

  -- What is added to the sum of the two corrected sums of squares.
  abbrev pub between : Sample D → Sample D → D
  between left right =
      let diff = sub (mul (div (of_uint right.weight) (of_uint left.weight)) left.sum) right.sum in
      mul
        (mul
          (div (of_uint left.weight)
            (mul (of_uint right.weight) (add (of_uint left.weight) (of_uint right.weight))))
          diff)
        diff

  abbrev pub merged_squares : Sample D → Sample D → D
  merged_squares left right =
      if left.weight == 0
      then right.corrected
      else add left.corrected (add right.corrected (between left right))

  unfoldable pub update_corrected_sum_of_squares : Sample D → Sample D → Sample D
  update_corrected_sum_of_squares left right = if right.weight == 0 then left else record {
    weight = left.weight + right.weight;
    sum = add left.sum right.sum;
    corrected = merged_squares left right;
  }

  -- The values of a sample, one after the other.
  unfoldable pub add_values : Sample D → List D → Sample D
  add_values s [] = s
  add_values s (x ∷ xs) = add_values (update_corrected_sum_of_squares s (one_value x)) xs
