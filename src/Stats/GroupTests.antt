-- ===== src/Stats/GroupTests.antt =====
-- Small runs of the tests that are not on ranks.
use madlibport.Base.{◌≡◌, refl, Bool, true, false, List, [], ◌∷◌, arith}
use madlibport.Base.Int.{ℤ, pos}
use madlibport.Base.Outcome.{ok}
use madlibport.Doubles.{Hundredths, hundredths_double}
use madlibport.Stats.Floats.{Floating}
use madlibport.Stats.Samples.{no_values, add_values}
use madlibport.Stats.Anova.Step.{OwaState}
use madlibport.Stats.Anova.Represents.{Represents}
use madlibport.Stats.Anova.Refines.{anova_run, no_groups, values_of, anova_run-Represents}
use madlibport.Stats.Kolmogorov.{KsState, ks_start, ks_run}
use madlibport.Stats.Kolmogorov.Greatest.{rows_of, ends, greatest, count_of, ks_run-greatest}

instance abbrev plain_floating : Floating Hundredths
plain_floating = record {
  is_finite = λ x. true;
  is_infinite = λ x. false;
  is_nan = λ x. false;
  epsilon = pos 0;
}

-- Three values in two groups, the greater group first.
abbrev two_groups : List (ℤ × Hundredths)
two_groups = (pos 5, pos 100) ∷ (pos 3, pos 200) ∷ (pos 5, pos 300) ∷ []

abbrev SmallAnova : Type 0
SmallAnova =
    (t : OwaState Hundredths) × (anova_run no_groups two_groups ≡ ok t)
    × Represents (λ v. add_values no_values (values_of v two_groups)) t

anova_run-Represents_example : SmallAnova
anova_run-Represents_example = anova_run-Represents two_groups (omega arith)

abbrev first_row : Bool × Hundredths
first_row = (true, pos 100)

abbrev more_rows : List (Bool × Hundredths)
more_rows = (false, pos 200) ∷ []

-- One value in each sample.
abbrev SmallKs : Type 0
SmallKs =
    (s' : KsState Hundredths) × (ks_run ks_start (rows_of (pos 1) (pos 1) (first_row ∷ more_rows))
      ≡ ok s')
    × (s'.max_diff
        ≡ greatest (pos 1) (pos 1) (pos 0)
            (ends (pos 1) (pos 1) (first_row ∷ []) first_row.1 more_rows))
    × (s'.num0 ≡ count_of true (first_row ∷ more_rows))
    × (s'.num1 ≡ count_of false (first_row ∷ more_rows))

ks_run-greatest_example : SmallKs
ks_run-greatest_example = ks_run-greatest (pos 1) (pos 1) first_row more_rows (refl, tt)
