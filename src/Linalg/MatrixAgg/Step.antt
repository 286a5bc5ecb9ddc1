-- ===== src/Linalg/MatrixAgg/Step.antt =====
-- `MatrixAggState`, and the reads and writes of its storage.
use madlibport.Base.{
  ℕ, ◌+◌, ◌*◌, ◌%◌, ◌^◌, ◌||◌, Option, none, some, List, take, drop, replicate, ltb, ◌==◌,
  if◌then◌else◌, ◌>>=◌, memcpy,
}
use madlibport.Doubles.{Double}
use madlibport.Utils.PowerOfTwo.{next_power_of_two}

-- The first two elements of the storage are numbers; `map_rows` and `map_cols` are the sizes of the
-- matrix that is bound to the rest.
pub record MatrixAggState (D : Type 0) : Type 0 where
  pub num_rows : ℕ
  pub num_cols : ℕ
  pub map_rows : ℕ
  pub map_cols : ℕ
  pub cells : List D

module _ {D : Type 0} ⦃d : Double D⦄ where
  -- The number of columns is cut to 16 bits.
  abbrev pub reserved_cols : MatrixAggState D → ℕ
  reserved_cols s = next_power_of_two 16 (s.num_cols % 2 ^ 16)

  -- A new storage with room for `cols` columns, and the columns copied: as `leftCols` of a matrix
  -- with fewer columns, this ends in a failed assertion, here `none`.
  unfoldable pub grown : ℕ → MatrixAggState D → Option (MatrixAggState D)
  grown cols s =
      if ltb cols s.num_cols || ltb s.map_cols s.num_cols
      then none
      else (memcpy (replicate (s.num_rows * cols) d.nought) 0 s.cells 0 (s.num_rows * s.num_cols)
          >>= λ cells. some (record s { map_rows = s.num_rows; map_cols = cols; cells = cells }))

  -- The vector is written to the last column of the matrix, and the column counted.
  unfoldable pub put_column : MatrixAggState D → List D → Option (MatrixAggState D)
  put_column s x = memcpy s.cells (s.num_cols * s.map_rows) x 0 s.map_rows >>= λ cells.
      some (record s { num_cols = s.num_cols + 1; cells = cells })

abbrev pub cols_to_reserve : ℕ → ℕ
cols_to_reserve reserved = if reserved == 0 then 1 else reserved * 2

abbrev pub column_of : {D : Type 0} → ℕ → ℕ → List D → ℕ → Option (List D)
column_of rows cols cells column =
    if ltb column cols then some (take rows (drop (column * rows) cells)) else none
