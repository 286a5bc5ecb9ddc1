-- ===== src/Linalg/MatrixOp.antt =====
-- The functions of matrix_op.cpp. An array of the database is the sizes of its dimensions and its
-- elements; an element type that a function does not compute with is left open.
pub mod Step
pub mod Split
pub mod Pieces
pub mod Product
pub mod Blocks
pub mod Sum
pub mod Joined
use madlibport.Base.{
  ℕ, zero, suc, ◌+◌, ◌*◌, Bool, true, false, not, ◌&&◌, ◌||◌, Option, none, some, List, [], ◌∷◌,
  length, get_elem?, set?, replicate, ◌==◌, if◌then◌else◌, for_loop, update_cells, memcpy,
}
use madlibport.Base.Int.{ℤ, pos, pos_part, lt_ℤ, le_ℤ, ◌+ℤ◌}
use madlibport.Base.Outcome.{Outcome, ok, throws, faults, ◌>>=◌, ◌>>◌, reject, unless_fault}
use madlibport.Doubles.{Double}
use madlibport.Linalg.MatrixOp.Step.{
  state_or, write_at, rem_int, write_row, add_matrix, mult_loops, trans_row,
}

-- The exceptions, by what they complain of.
pub data MatrixError : Type 0 where
  bad_col_dim bad_col not_2d bad_block_size mismatch bad_dim bad_total bad_size : MatrixError

pub record Matrix (A : Type 0) : Type 0 where
  pub sizes : List ℕ
  pub cells : List A

-- `(!trans_b && col_a != row_b) || (trans_b && col_a != col_b)`
abbrev pub mult_mismatch : Bool → ℕ → ℕ → ℕ → Bool
mult_mismatch trans_b col_a row_b col_b =
    (not trans_b && not (col_a == row_b)) || (trans_b && not (col_a == col_b))

-- `rand_vector::run` and `rand_block::run`; `random i` is the i-th draw, an `int` below 1000.
unfoldable pub rand_vector : (ℕ → ℕ) → ℤ → Outcome MatrixError (List ℕ)
rand_vector random dim = do
  reject (lt_ℤ dim (pos 1)) bad_dim
  unless_fault
      (update_cells 0 (pos_part dim) (λ _ i _. some (random i)) (replicate (pos_part dim) 0))

unfoldable pub rand_block : (ℕ → ℕ) → ℤ → ℤ → Outcome MatrixError (Matrix ℕ)
rand_block random row_dim col_dim = do
  reject (lt_ℤ row_dim (pos 1) || lt_ℤ col_dim (pos 1)) bad_dim
  let rows = pos_part row_dim
  let cols = pos_part col_dim
  r ← unless_fault (
      for_loop 0 rows (λ i. update_cells (i * cols) cols (λ _ j _. some (random (i * cols + j))))
        (replicate (rows * cols) 0))
  ok (record { sizes = rows ∷ cols ∷ []; cells = r })

module _ {D : Type 0} ⦃d : Double D⦄ where
  unfoldable pub matrix_densify_sfunc : Option (List D) → ℤ → ℤ → D → Outcome MatrixError (List D)
  matrix_densify_sfunc arg col_dim col val = do
    reject (lt_ℤ col_dim (pos 1)) bad_col_dim
    reject (le_ℤ col_dim col) bad_col
    let state = state_or arg (replicate (pos_part col_dim) d.nought)
    unless_fault (write_at state col val)

  -- The state keeps the sizes that it was allocated with.
  unfoldable pub matrix_mem_sum_sfunc :
      Option (Matrix D) → List ℕ → List D → Outcome MatrixError (Matrix D)
  matrix_mem_sum_sfunc arg (row_m ∷ col_m ∷ []) m = do
    let state =
        state_or arg
          (record { sizes = row_m ∷ col_m ∷ []; cells = replicate (row_m * col_m) d.nought })
    sum ← unless_fault (add_matrix row_m col_m m state.cells)
    ok (record state { cells = sum })
  matrix_mem_sum_sfunc arg sizes m = throws not_2d

  -- A row that is not NULL; `matrix_blockize_sfunc::run` returns its state for the others.
  unfoldable pub blockize_row : Option (Matrix D) → ℤ → List D → ℤ → Outcome MatrixError (Matrix D)
  blockize_row arg row_id row_vec rsize = do
    reject (lt_ℤ rsize (pos 1)) bad_block_size
    let csize = length row_vec
    let state = state_or arg (record {
      sizes = pos_part rsize ∷ csize ∷ [];
      cells = replicate (pos_part rsize * csize) d.nought;
    })
    block ← unless_fault (write_row state.cells (rem_int row_id (pos_part rsize)) row_vec csize)
    ok (record state { cells = block })

  unfoldable pub matrix_blockize_sfunc :
      Option (Matrix D) → Option ℤ → List D → ℤ → Outcome MatrixError (Option (Matrix D))
  unfolding blockize_row
  matrix_blockize_sfunc arg none row_vec rsize = ok arg
  matrix_blockize_sfunc arg (some row_id) row_vec rsize =
      blockize_row arg row_id row_vec rsize >>= λ state. ok (some state)

  unfoldable pub matrix_mem_mult :
      List ℕ → List D → List ℕ → List D → Bool → Outcome MatrixError (Matrix D)
  matrix_mem_mult (row_a ∷ col_a ∷ []) a (row_b ∷ col_b ∷ []) b trans_b = do
    reject (mult_mismatch trans_b col_a row_b col_b) mismatch
    let cols = if trans_b then row_b else col_b
    r ←
        unless_fault
          (mult_loops trans_b row_a col_a col_b cols a b (replicate (row_a * cols) d.nought))
    ok (record { sizes = row_a ∷ cols ∷ []; cells = r })
  matrix_mem_mult sizes_a a sizes_b b trans_b = throws not_2d

  unfoldable pub matrix_mem_trans : List ℕ → List D → Outcome MatrixError (Matrix D)
  matrix_mem_trans (row_m ∷ col_m ∷ []) m = do
    r ←
        unless_fault
          (for_loop 0 row_m (trans_row row_m col_m m) (replicate (col_m * row_m) d.nought))
    ok (record { sizes = col_m ∷ row_m ∷ []; cells = r })
  matrix_mem_trans sizes m = throws not_2d

  -- `matrix_unblockize_sfunc::run` with arguments that are not NULL.
  unfoldable pub unblockize_row : Option (List D) → ℤ → ℤ → List D → Outcome MatrixError (List D)
  unblockize_row arg total_col_dim col_id row_vec = do
    reject (lt_ℤ total_col_dim (pos 1)) bad_total
    reject (lt_ℤ col_id (pos 0)) bad_col
    reject (le_ℤ total_col_dim col_id) bad_col
    let state = state_or arg (replicate (pos_part total_col_dim) d.nought)
    unless_fault (memcpy state (pos_part col_id) row_vec 0 (length row_vec))

  unfoldable pub matrix_unblockize_sfunc :
      Option (List D)
      → Option ℤ
      → Option ℤ
      → Option (List D)
      → Outcome MatrixError (Option (List D))
  unfolding unblockize_row
  matrix_unblockize_sfunc arg (some total_col_dim) (some col_id) (some row_vec) =
      unblockize_row arg total_col_dim col_id row_vec >>= λ state. ok (some state)
  matrix_unblockize_sfunc arg total_col_dim col_id row_vec = ok arg
