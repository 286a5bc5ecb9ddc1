-- ===== src/Linalg/MatrixAgg.antt =====
-- matrix_agg.cpp: an aggregate that puts column vectors into a matrix, in column-major order.
pub mod Step
pub mod Room
pub mod Columns
pub mod Limit
use madlibport.Base.{
  ℕ, zero, suc, ◌+◌, ◌*◌, Bool, true, false, not, ◌||◌, Option, none, some, List, [], ◌∷◌, length,
  take, drop, ltb, leb, ◌==◌, if◌then◌else◌,
}
use madlibport.Base.Outcome.{Outcome, ok, throws, ◌>>=◌, ◌>>◌, reject, unless_fault}
use madlibport.Doubles.{Double}
use madlibport.Linalg.MatrixAgg.Step.{
  MatrixAggState, grown, reserved_cols, cols_to_reserve, put_column, column_of,
}

pub data AggError : Type 0 where
  out_of_bounds not_consistent : AggError

module _ {D : Type 0} ⦃d : Double D⦄ where
  -- `rebind`, which checks the size of the storage.
  unfoldable pub rebind : ℕ → ℕ → MatrixAggState D → Outcome AggError (MatrixAggState D)
  rebind rows cols s = do
    reject (ltb (length s.cells) (rows * cols)) out_of_bounds
    ok (record s { map_rows = rows; map_cols = cols })

  -- The storage that the constructor is given: numbers of rows and columns, and the rest of it.
  unfoldable pub bind_state : ℕ × ℕ × List D → Outcome AggError (MatrixAggState D)
  unfolding rebind
  bind_state (rows, cols, cells) =
      rebind rows cols
        (record { num_rows = rows; num_cols = cols; map_rows = 0; map_cols = 0; cells = cells })

  unfoldable pub initialize : ℕ → MatrixAggState D → Outcome AggError (MatrixAggState D)
  unfolding rebind
  initialize rows s = rebind rows 0 s >>= λ s'. ok (record s' { num_rows = rows })

  -- The storage is replaced when the columns fill the power of two that was reserved for them.
  unfoldable pub reserve : MatrixAggState D → Outcome AggError (MatrixAggState D)
  reserve s =
      if leb (reserved_cols s) s.num_cols
      then unless_fault (grown (cols_to_reserve (reserved_cols s)) s)
      else ok s

  -- `newColumn`, and the vector that is written to the column.
  unfoldable pub new_column : MatrixAggState D → List D → Outcome AggError (MatrixAggState D)
  unfolding rebind reserve
  new_column s x = do
    s₁ ← reserve s
    s₂ ← rebind s₁.num_rows (s₁.num_cols + 1) s₁
    unless_fault (put_column s₂ x)

  abbrev pub inconsistent : MatrixAggState D → List D → Bool
  inconsistent s x =
      not (length x == s.map_rows)
      || (not (s.num_rows == s.map_rows) || not (s.num_cols == s.map_cols))

  unfoldable pub prepare : MatrixAggState D → List D → Outcome AggError (MatrixAggState D)
  unfolding initialize
  prepare s x =
      if s.num_cols == 0
      then initialize (length x) s
      else (reject (inconsistent s x) not_consistent >> ok s)

  unfoldable pub matrix_agg_transition : ℕ × ℕ × List D → List D → Outcome AggError (ℕ × ℕ × List D)
  unfolding bind_state prepare new_column
  matrix_agg_transition storage x = do
    s ← bind_state storage
    s' ← prepare s x
    t ← new_column s' x
    ok (t.num_rows, t.num_cols, t.cells)

  -- The matrix of the result: the numbers of its rows and columns, and its elements.
  unfoldable pub matrix_agg_final : ℕ × ℕ × List D → Outcome AggError (ℕ × ℕ × List D)
  unfolding bind_state
  matrix_agg_final storage = do
    s ← bind_state storage
    ok (s.map_rows, s.num_cols, take (s.map_rows * s.num_cols) s.cells)

  -- `matrix_column::run`
  unfoldable pub matrix_column : ℕ → ℕ → List D → ℕ → Option (List D)
  matrix_column rows cols cells column = column_of rows cols cells column

  -- The aggregate over the columns, from the storage that the database initializes with zeros.
  unfoldable pub matrix_agg_run : ℕ × ℕ × List D → List (List D) → Outcome AggError (ℕ × ℕ × List D)
  matrix_agg_run storage [] = ok storage
  matrix_agg_run storage (x ∷ xs) =
      matrix_agg_transition storage x >>= λ next. matrix_agg_run next xs

  abbrev pub fresh_storage : ℕ × ℕ × List D
  fresh_storage = (0, 0, d.nought ∷ [])
