-- ===== src/Convex/Scales.antt =====
-- utils_regularization.cpp: the aggregate that computes the mean and the standard deviation of each
-- column, and the function that normalizes a vector with them. `none` is an access outside a vector.
pub mod Totals
pub mod Deviation
mod Tests
use madlibport.Base.{
  ℕ, ◌+◌, Bool, ◌&&◌, Option, none, some, List, [], ◌∷◌, map, length, replicate, get_elem?, ◌==◌,
  if◌then◌else◌, ◌>>=◌, update_cells,
}
use madlibport.Doubles.{Double}

-- `std` holds the sums of squares until the final function.
pub record ScalesState (D : Type 0) : Type 0 where
  pub dimension : ℕ
  pub num_rows : ℕ
  pub mean : List D
  pub std : List D

module _ {D : Type 0} ⦃d : Double D⦄ where
  open d use {nought, of_uint, add, sub, mul, div, le}

  -- The state of the first row.
  abbrev pub no_scales : ℕ → ScalesState D
  no_scales dimension = record {
    dimension = dimension;
    num_rows = 0;
    mean = replicate dimension nought;
    std = replicate dimension nought;
  }

  -- The loop over the elements writes each of the two vectors at its own index only, and is written
  -- as a loop on each.
  unfoldable pub add_elements : (D → D) → ℕ → List D → List D → Option (List D)
  unfolding update_cells
  add_elements term dimension x =
      update_cells 0 dimension (λ _ i u. get_elem? x i >>= λ v. some (add u (term v)))

  unfoldable pub var_scales_transition : ScalesState D → List D → ℕ → Option (ScalesState D)
  unfolding add_elements
  var_scales_transition state x dimension = do
    let s = if state.num_rows == 0 then no_scales dimension else state
    mean ← add_elements (λ v. v) s.dimension x s.mean
    std ← add_elements (λ v. mul v v) s.dimension x s.std
    some (record s { num_rows = s.num_rows + 1; mean = mean; std = std })

  -- The sum of two vectors; vectors of different sizes fail an assertion.
  unfoldable pub add_vector : List D → List D → Option (List D)
  unfolding update_cells
  add_vector x y =
      if length x == length y
      then update_cells 0 (length x) (λ _ i u. get_elem? y i >>= λ v. some (add u v)) x
      else none

  unfoldable pub var_scales_merge : ScalesState D → ScalesState D → Option (ScalesState D)
  unfolding add_vector
  var_scales_merge s t =
      if s.num_rows == 0
      then some t
      else if t.num_rows == 0
      then some s
      else (add_vector s.mean t.mean >>= λ mean. add_vector s.std t.std >>= λ std.
          some (record s { num_rows = s.num_rows + t.num_rows; mean = mean; std = std }))

  -- NULL, the inner `none`, where there was no row.
  unfoldable pub var_scales_final : (D → D) → ScalesState D → Option (Option (ScalesState D))
  unfolding update_cells
  var_scales_final sqrt s =
      let mean = map (λ u. div u (of_uint s.num_rows)) s.mean in
      let squares = map (λ u. div u (of_uint s.num_rows)) s.std in
      if s.num_rows == 0
      then some none
      else (update_cells 0 s.dimension
            (λ _ i u. get_elem? mean i >>= λ m. some (sqrt (sub u (mul m m)))) squares
          >>= λ std. some (some (record s { mean = mean; std = std })))

  abbrev is_zero : D → Bool
  is_zero x = le x nought && le nought x

  unfoldable pub normalize_data : List D → List D → List D → Option (List D)
  unfolding update_cells
  normalize_data x mean std =
      update_cells 0 (length x)
        (λ _ i u. do
          m ← get_elem? mean i
          s ← get_elem? std i
          some (if is_zero s then sub u m else div (sub u m) s))
        x

  -- The transitions of the rows.
  unfoldable pub var_scales_run : ScalesState D → List (List D) → ℕ → Option (ScalesState D)
  unfolding var_scales_transition
  var_scales_run s [] dimension = some s
  var_scales_run s (x ∷ xs) dimension =
      var_scales_transition s x dimension >>= λ s'. var_scales_run s' xs dimension
