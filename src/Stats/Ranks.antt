-- ===== src/Stats/Ranks.antt =====
-- What the transitions of mann_whitney_test.cpp and wilcoxon_signed_rank_test.cpp share: the counts,
-- the current tie and the rank sums of two samples. The source keeps them in doubles, which are
-- exact for halves below 2^52; here they are natural numbers, the rank sums counted in halves.
pub mod Midranks
use madlibport.Base.{ℕ, ◌+◌, ◌-◌, ◌*◌, Bool, true, false}

pub record Ranks : Type 0 where
  pub num0 : ℕ
  pub num1 : ℕ
  pub ties0 : ℕ
  pub ties1 : ℕ
  pub sum0 : ℕ
  pub sum1 : ℕ

abbrev pub no_ranks : Ranks
no_ranks = record { num0 = 0; num1 = 0; ties0 = 0; ties1 = 0; sum0 = 0; sum1 = 0 }

abbrev pub num_sum : Ranks → ℕ
num_sum r = r.num0 + r.num1

-- `rankSum(i) += numTies(i) * 0.5`
unfoldable pub add_ties : Ranks → Ranks
add_ties r = record {
  num0 = r.num0;
  num1 = r.num1;
  ties0 = r.ties0;
  ties1 = r.ties1;
  sum0 = r.sum0 + r.ties0;
  sum1 = r.sum1 + r.ties1;
}

-- `numTies.setZero()`
unfoldable pub clear_ties : Ranks → Ranks
clear_ties r = record {
  num0 = r.num0;
  num1 = r.num1;
  ties0 = 0;
  ties1 = 0;
  sum0 = r.sum0;
  sum1 = r.sum1;
}

-- The count of a value: sample 0 for `true`.
unfoldable pub count_value : Bool → Ranks → Ranks
count_value true r = record {
  num0 = r.num0 + 1;
  num1 = r.num1;
  ties0 = r.ties0 + 1;
  ties1 = r.ties1;
  sum0 = r.sum0 + (2 * (r.num0 + 1 + r.num1) - (r.ties0 + r.ties1));
  sum1 = r.sum1;
}
count_value false r = record {
  num0 = r.num0;
  num1 = r.num1 + 1;
  ties0 = r.ties0;
  ties1 = r.ties1 + 1;
  sum0 = r.sum0;
  sum1 = r.sum1 + (2 * (r.num0 + (r.num1 + 1)) - (r.ties0 + r.ties1));
}
