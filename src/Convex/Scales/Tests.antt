-- ===== src/Convex/Scales/Tests.antt =====
-- A small run of the scales.
use madlibport.Base.{◌≡◌, refl, some, List, [], ◌∷◌, arith}
use madlibport.Base.Int.{pos}
use madlibport.Doubles.{Hundredths, hundredths_double}
use madlibport.Convex.Scales.{ScalesState, no_scales, var_scales_run, var_scales_final}
use madlibport.Convex.Scales.Totals.{HasElements, column_mean, column_squares}
use madlibport.Convex.Scales.Deviation.{var_scales_run-HasElements}

abbrev first_row : List Hundredths
first_row = pos 100 ∷ pos 200 ∷ []

abbrev more_rows : List (List Hundredths)
more_rows = (pos 300 ∷ pos 200 ∷ []) ∷ []

abbrev root : Hundredths → Hundredths
root x = x

abbrev SmallScales : Type 0
SmallScales =
    (t : ScalesState Hundredths) × (r : ScalesState Hundredths) × (var_scales_run (no_scales 0)
        (first_row ∷ more_rows) 2
      ≡ some t)
    × (var_scales_final root t ≡ some (some r))
    × HasElements 2 (column_mean (first_row ∷ more_rows)) r.mean
    × HasElements 2
        (λ i.
          let m = column_mean (first_row ∷ more_rows) i in
          hundredths_double.sub (column_squares (first_row ∷ more_rows) i)
            (hundredths_double.mul m m))
        r.std

var_scales_run-HasElements_example : SmallScales
var_scales_run-HasElements_example =
    var_scales_run-HasElements root first_row more_rows (no_scales 0) 2 refl
      (omega arith, (omega arith, tt))
