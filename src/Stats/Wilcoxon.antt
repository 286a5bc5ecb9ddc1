-- ===== src/Stats/Wilcoxon.antt =====
-- wsr_test_transition::run. `variance` counts the reduction of the variance in sixteenths.
pub mod Reduction
pub mod Final
use madlibport.Base.{
  ℕ, suc, ◌+◌, ◌*◌, Bool, true, false, not, ◌&&◌, Option, none, some, ltb, if◌then◌else◌,
}
use madlibport.Base.Outcome.{Outcome, ok, throws, ◌>>=◌, ◌>>◌, reject}
use madlibport.Doubles.{Double}
use madlibport.Stats.Floats.{Floating, fabs}
use madlibport.Stats.Ranks.{Ranks, no_ranks, num_sum, add_ties, clear_ties, count_value}

pub data WsrError : Type 0 where
  precision_not_finite not_in_order : WsrError

pub record WsrState (D : Type 0) : Type 0 where
  pub ranks : Ranks
  pub last_abs : D
  pub last_abs_upper_bound : D
  pub variance : ℕ

abbrev pub tie_sum : Ranks → ℕ
tie_sum r = r.ties0 + r.ties1

module _ {D : Type 0} ⦃d : Double D⦄ ⦃f : Floating D⦄ where
  open d use {nought, one, neg, add, sub, mul, lt, le}
  open f use {is_finite, epsilon}

  -- The precision that was passed, or -1; a negative one stands for the rounding of the value.
  abbrev pub given_precision : Option D → D
  given_precision none = neg one
  given_precision (some p) = p

  abbrev pub used_precision : Option D → D → D
  used_precision p value =
      if lt (given_precision p) nought then mul value epsilon else given_precision p

  -- The branches where there was a value before: the new ranks and variance.
  unfoldable pub wsr_compare : WsrState D → D → D → Outcome WsrError (Ranks × ℕ)
  wsr_compare s abs_value precision =
      if ltb 0 (num_sum s.ranks)
      then (if lt abs_value s.last_abs
          then throws not_in_order
          else if le (sub abs_value precision) s.last_abs_upper_bound
          then ok (add_ties s.ranks, s.variance + tie_sum s.ranks * (tie_sum s.ranks + 1))
          else ok (clear_ties s.ranks, s.variance))
      else ok (s.ranks, s.variance)

  unfoldable pub wsr_count : WsrState D → D → D → Outcome WsrError (WsrState D)
  wsr_count s value precision = wsr_compare s (fabs value) precision >>= λ r. ok (record {
    ranks = count_value (lt nought value) r.0;
    last_abs = fabs value;
    last_abs_upper_bound =
        if lt s.last_abs_upper_bound (add (fabs value) precision)
        then add (fabs value) precision
        else s.last_abs_upper_bound;
    variance = r.1;
  })

  unfoldable pub wsr_transition : WsrState D → D → Option D → Outcome WsrError (WsrState D)
  wsr_transition s value precision =
      reject (not (is_finite (given_precision precision))) precision_not_finite
      >> (if le value nought && le nought value
          then ok s
          else wsr_count s value (used_precision precision value))
