-- ===== src/Linalg/MatrixAgg/Limit.antt =====
-- The transition with one column more than the type of 16 digits can double.
use madlibport.Base.{ℕ, ◌*◌, ◌≤◌, ◌≡◌, refl, true, false, List, none, arith, length, ltb, leb, ◌==◌}
use madlibport.Base.Outcome.{faults}
use madlibport.Doubles.{Double}
use madlibport.Utils.PowerOfTwo.{above_of_16}
use madlibport.Linalg.MatrixAgg.{
  rebind, bind_state, prepare, reserve, new_column, matrix_agg_transition, inconsistent,
}
use madlibport.Linalg.MatrixAgg.Step.{MatrixAggState, grown, reserved_cols}
use madlibport.Linalg.MatrixAgg.Room.{bound}

module _ {D : Type 0} ⦃d : Double D⦄ where
  grown-none : (t : MatrixAggState D) → ltb 1 t.num_cols ≡ true → grown 1 t ≡ none
  unfolding grown
  grown-none t e = rw e

  reserve_faults :
      (t : MatrixAggState D) → reserved_cols t ≡ 0 → ltb 1 t.num_cols ≡ true → reserve t ≡ faults
  unfolding reserve
  reserve_faults t e₁ e₂ =
      let below : leb 0 t.num_cols ≡ true = ground arith in rw (e₁, grown-none t e₂, below)

  transition_faults :
      (rows cols : ℕ) (cells x : List D)
      → ltb (length cells) (rows * cols) ≡ false
      → (cols == 0) ≡ false
      → inconsistent (bound rows cols cols cells) x ≡ false
      → reserve (bound rows cols cols cells) ≡ faults
      → matrix_agg_transition (rows, cols, cells) x ≡ faults
  unfolding matrix_agg_transition bind_state prepare rebind new_column
  transition_faults rows cols cells x e₁ e₂ e₃ e₄ = rw (e₁, e₂, e₃) (rw e₄)

  -- From a storage that holds 32769 columns, a further vector of their size makes the transition
  -- copy them into a matrix with one column, which is out of its bounds.
  pub matrix_agg-faults :
      (rows : ℕ) (cells x : List D)
      → rows * 32769 ≤ length cells
      → length x ≡ rows
      → matrix_agg_transition (rows, 32769, cells) x ≡ faults
  matrix_agg-faults rows cells x fits w =
      transition_faults rows 32769 cells x (ground arith) refl (ground arith)
        (reserve_faults (bound rows 32769 32769 cells) above_of_16 refl)
