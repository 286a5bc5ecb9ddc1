-- ===== src/Stats/Tests.antt =====
-- Small runs of the rank tests.
use madlibport.Base.{
  ℕ, ◌+◌, ◌*◌, ◌≡◌, refl, inl, inr, Bool, true, false, Option, none, some, List, [], ◌∷◌,
}
use madlibport.Base.Int.{pos, negsuc, sub_ℕ}
use madlibport.Base.Outcome.{Outcome, ok}
use madlibport.Doubles.{Hundredths, hundredths_double}
use madlibport.Stats.Floats.{Floating, almost_equal}
use madlibport.Stats.Ranks.{add_ties, clear_ties, count_value}
use madlibport.Stats.Ranks.Midranks.{no_groups, join}
use madlibport.Stats.MannWhitney.{MwState, tied, mw_start, mw_compare, mw_transition, mw_run}
use madlibport.Stats.MannWhitney.Run.{Ranked, groups_of, mw_run-Ranked}
use madlibport.Stats.MannWhitney.Final.{u_statistics, mw_run-u_statistics}
use madlibport.Stats.Wilcoxon.{WsrState, wsr_transition}
use madlibport.Stats.Wilcoxon.Reduction.{Tied, Reduces, next_tied, wsr_transition-Reduces}

instance abbrev hundredths_floating : Floating Hundredths
hundredths_floating = record {
  is_finite = λ x. true;
  is_infinite = λ x. false;
  is_nan = λ x. false;
  epsilon = pos 0;
}

-- The values 3, 5 and 5, of which the last is of the second sample.
abbrev first_row : Bool × Hundredths
first_row = (true, pos 300)

abbrev more_rows : List (Bool × Hundredths)
more_rows = (true, pos 500) ∷ (false, pos 500) ∷ []

abbrev rank_sums : {E : Type 0} → Outcome E (MwState Hundredths) → Option (ℕ × ℕ)
rank_sums (ok s) = some (s.ranks.sum0, s.ranks.sum1)
rank_sums m = none

-- The ranks are 1, 2.5 and 2.5.
mw_run_run : rank_sums (mw_run (first_row ∷ more_rows) mw_start) ≡ some (7, 5)
unfolding mw_run mw_transition mw_compare add_ties clear_ties count_value almost_equal
mw_run_run = refl

five_tied : tied {D = Hundredths} (pos 500) (pos 500) ≡ true
unfolding almost_equal
five_tied = refl

abbrev SmallRun : Type 0
SmallRun =
    (s' : MwState Hundredths) × (mw_run (first_row ∷ more_rows) mw_start ≡ ok s')
    × Ranked (groups_of (join true no_groups) (pos 300) more_rows) s'

mw_run-Ranked_example : SmallRun
mw_run-Ranked_example = mw_run-Ranked first_row more_rows refl (inr refl, (inl five_tied, tt))

-- One value of 2.00, so far.
abbrev one_value : WsrState Hundredths
one_value = record {
  ranks = record { num0 = 1; num1 = 0; ties0 = 1; ties1 = 0; sum0 = 2; sum1 = 0 };
  last_abs = pos 200;
  last_abs_upper_bound = pos 200;
  variance = 0;
}

abbrev one_group : Tied
one_group = record {
  groups = record { done0 = 0; done1 = 0; base0 = 0; base1 = 0; open0 = 1; open1 = 0 };
  cubes = 0;
}

one_value-Reduces : Reduces one_group one_value
one_value-Reduces = record {
  matches = record {
    count0 = refl;
    count1 = refl;
    tied0 = refl;
    tied1 = refl;
    ranks0 = refl;
    ranks1 = refl;
  };
  reduced = refl;
}

-- -2.00 is tied with it.
abbrev SmallStep : Type 0
SmallStep =
    (s' : WsrState Hundredths) × (wsr_transition one_value (negsuc 199) (some (pos 0)) ≡ ok s')
    × Reduces (next_tied one_value (negsuc 199) (some (pos 0)) one_group) s'

wsr_transition-Reduces_example : SmallStep
wsr_transition-Reduces_example =
    wsr_transition-Reduces one_group one_value (negsuc 199) (some (pos 0)) one_value-Reduces refl
      refl

abbrev SmallU : Type 0
SmallU =
    (s' : MwState Hundredths) × (mw_run (first_row ∷ more_rows) mw_start ≡ ok s')
    × ((u_statistics s'.ranks).1 ≡ sub_ℕ s'.ranks.sum0 (s'.ranks.num0 * (s'.ranks.num0 + 1)))

mw_run-u_statistics_example : SmallU
mw_run-u_statistics_example =
    mw_run-u_statistics first_row more_rows refl (inr refl, (inl five_tied, tt))
