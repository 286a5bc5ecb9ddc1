-- ===== src/Lda/Matrix.antt =====
-- `lda_transpose::run`, and the set-returning function `lda_unnest` that gives the rows of a matrix.
pub mod Step
pub mod Transpose
pub mod Rows
use madlibport.Base.{
  ℕ, zero, suc, ◌+◌, ◌*◌, Bool, true, false, not, Option, none, some, List, [], ◌∷◌, length,
  get_elem?, set?, take, drop, replicate, ◌==◌, for_loop,
}
use madlibport.Base.Int.{ℤ, pos}
use madlibport.Base.Outcome.{Outcome, ok, throws, ◌>>=◌, ◌>>◌, reject, unless_fault}
use madlibport.Lda.Matrix.Step.{copy_row, SrCtx}
use madlibport.Lda.Errors.{LdaError, bad_dimension}

-- An array of the database is the sizes of its dimensions, and its elements in row-major order.
unfoldable pub lda_transpose : List ℕ → List ℤ → Outcome LdaError (List ℕ × List ℤ)
lda_transpose (row_num ∷ col_num ∷ []) matrix = do
  transposed ←
      unless_fault (
        for_loop 0 row_num (copy_row row_num col_num matrix)
          (replicate (col_num * row_num) (pos 0)))
  ok (col_num ∷ row_num ∷ [], transposed)
lda_transpose sizes matrix = throws bad_dimension

unfoldable pub unnest_init : List ℕ → List ℤ → Outcome LdaError SrCtx
unnest_init (rows ∷ cols ∷ []) cells =
    ok (record { inarray = cells; maxcall = rows; dim = cols; curcall = 0 })
unnest_init sizes cells = throws bad_dimension
