-- ===== src/Linalg/Closest/Tests.antt =====
-- Small runs of the closest columns.
use madlibport.Base.{◌≡◌, refl, true, false, none, some, List, [], ◌∷◌, map, arith}
use madlibport.Base.Int.{pos}
use madlibport.Doubles.{Hundredths, hundredths_double}
use madlibport.Stats.Floats.{Floating, fabs}
use madlibport.Linalg.Closest.{
  Neighbour, less, push_heap, sort_heap, consider, consider_all, closest_columns_and_distances,
}
use madlibport.Linalg.Closest.Order.{NumbersAreOrdered}
use madlibport.Linalg.Closest.Result.{AreClosest, closest_columns-AreClosest}

instance abbrev no_nan : Floating Hundredths
no_nan = record {
  is_finite = λ x. true;
  is_infinite = λ x. false;
  is_nan = λ x. false;
  epsilon = pos 0;
}

-- The distance of the first elements.
abbrev first_apart : List Hundredths → List Hundredths → Hundredths
first_apart (x ∷ xs) (y ∷ ys) = fabs (hundredths_double.sub x y)
first_apart xs ys = pos 0

abbrev far : Hundredths
far = pos 1000000

abbrev columns : List (List Hundredths)
columns = (pos 300 ∷ []) ∷ (pos 100 ∷ []) ∷ (pos 200 ∷ []) ∷ (pos 400 ∷ []) ∷ []

-- Two columns at the same distance come by their indices; a heap of no element is read.
closest_run :
    (closest_columns_and_distances far first_apart columns (pos 200 ∷ []) 2
      ≡ some ((2, pos 0) ∷ (0, pos 100) ∷ []))
    × (closest_columns_and_distances far first_apart columns (pos 200 ∷ []) 0 ≡ none)
unfolding closest_columns_and_distances consider_all consider push_heap sort_heap less
closest_run = (refl, refl)

Hundredths-ordered : NumbersAreOrdered (λ (x : Hundredths). x)
Hundredths-ordered = record { lt_rank = λ x y h k. refl; le_rank = λ x y h k. refl }

abbrev SmallClosest : Type 0
SmallClosest =
    (result : List (Neighbour Hundredths)) × (closest_columns_and_distances far first_apart columns
        (pos 200 ∷ []) 2
      ≡ some result)
    × AreClosest 2 far (map (λ column. first_apart column (pos 200 ∷ [])) columns) result

closest_columns-AreClosest_example : SmallClosest
closest_columns-AreClosest_example =
    closest_columns-AreClosest (λ x. x) Hundredths-ordered far refl first_apart columns
      (pos 200 ∷ []) 2 (omega arith) (refl, (refl, (refl, (refl, tt))))
