-- ===== src/Stats/MannWhitney.antt =====
-- mw_test_transition::run. Once `nan` is set, both rank sums are NaN, whatever the numbers in `ranks`.
pub mod Run
pub mod Final
use madlibport.Base.{
  ℕ, zero, suc, ◌+◌, Bool, true, false, Option, none, some, List, [], ◌∷◌, ltb, if◌then◌else◌,
}
use madlibport.Base.Outcome.{Outcome, ok, throws, ◌>>=◌}
use madlibport.Doubles.{Double}
use madlibport.Stats.Floats.{Floating, almost_equal}
use madlibport.Stats.Ranks.{Ranks, no_ranks, num_sum, add_ties, clear_ties, count_value}

pub data MwError : Type 0 where
  not_ordered : MwError

pub record MwState (D : Type 0) : Type 0 where
  pub ranks : Ranks
  pub nan : Bool
  pub last : D

module _ {D : Type 0} ⦃d : Double D⦄ ⦃f : Floating D⦄ where
  open d use {nought, lt}
  open f use {is_nan}

  -- Values are tied within two units in the last place.
  abbrev pub tied : D → D → Bool
  tied x y = almost_equal x y 2

  -- The state that the database initializes with zeros.
  abbrev pub mw_start : MwState D
  mw_start = record { ranks = no_ranks; nan = false; last = nought }

  -- The branches on the value: the new ranks, and whether the rank sums are NaN.
  unfoldable pub mw_compare : MwState D → D → Outcome MwError (Ranks × Bool)
  mw_compare s value =
      if tied s.last value
      then ok (add_ties s.ranks, s.nan)
      else if lt s.last value
      then ok (clear_ties s.ranks, s.nan)
      else if is_nan value
      then ok (s.ranks, true)
      else if ltb 0 (num_sum s.ranks)
      then throws not_ordered
      else ok (s.ranks, s.nan)

  -- The first sample is that for which the argument is true.
  unfoldable pub mw_transition : MwState D → Bool → D → Outcome MwError (MwState D)
  mw_transition s first value = mw_compare s value >>= λ r.
      ok (record { ranks = count_value first r.0; nan = r.1; last = value })

  -- The transitions of the rows of a group, in their order.
  unfoldable pub mw_run : List (Bool × D) → MwState D → Outcome MwError (MwState D)
  mw_run [] s = ok s
  mw_run (row ∷ rows) s = mw_transition s row.0 row.1 >>= mw_run rows
