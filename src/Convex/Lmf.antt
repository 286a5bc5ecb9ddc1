-- ===== src/Convex/Lmf.antt =====
-- lmf_igd.cpp with the classes that it puts together: `LMFIGDState` of type/state.hpp, `LMFModel` of
-- type/model.hpp, `LMF` of task/lmf.hpp, `IGD` of algo/igd.hpp and `Loss` of algo/loss.hpp. A matrix
-- is the list of its rows; an access outside it is a fault.
pub mod Step
pub mod Factors
pub mod Run
pub mod Iteration
pub mod Layout
mod Tests
use madlibport.Base.{
  ℕ, ◌+◌, ◌-◌, ◌*◌, Bool, ◌||◌, Option, none, some, List, [], ◌∷◌, map, ◌==◌, if◌then◌else◌,
}
use madlibport.Base.Outcome.{Outcome, ok, ◌>>=◌, ◌>>◌, reject, unless_fault}
use madlibport.Doubles.{Double}
use madlibport.Convex.Lmf.Layout.{allocate}
use madlibport.Convex.Lmf.Step.{
  LmfModel, LmfTask, LmfAlgo, LmfState, LmfTuple, tabulate, igd_merge, lmf_step,
}

pub data LmfError : Type 0 where
  row_dim_zero column_dim_zero max_rank_zero stepsize_not_positive : LmfError
  scale_factor_not_positive index_zero : LmfError

-- The arguments of the first call: the state of the iteration before, or the configuration.
pub data Start (D : Type 0) : Type 0 where
  previous : LmfState D → Start D
  config : ℕ → ℕ → ℕ → D → D → Start D

-- `NativeRandomNumberGenerator`: its bounds, and the numbers that it draws one after the other.
pub record Generator (D : Type 0) : Type 0 where
  pub min : D
  pub max : D
  pub draw : ℕ → D

module _ {D : Type 0} ⦃d : Double D⦄ where
  open d use {nought, of_uint, add, sub, mul, div, le}

  -- `reset`
  abbrev pub reset : LmfState D → LmfState D
  reset s = record s { algo = record { num_rows = 0; loss = nought; incr_model = s.task.model } }

  -- `LMFModel::initialize`: the elements are drawn column by column, first those of U.
  abbrev pub drawn_element : Generator D → D → ℕ → D
  drawn_element rng scale n = div (mul scale (sub (rng.draw n) rng.min)) (sub rng.max rng.min)

  abbrev pub drawn_matrix : (ℕ → D) → ℕ → ℕ → List (List D)
  drawn_matrix element rows rank =
      tabulate rows (λ i. tabulate rank (λ rr. element (rr * rows + i)))

  unfoldable pub initialize_model : Generator D → D → ℕ → ℕ → ℕ → LmfModel D
  initialize_model rng scale rows cols rank = record {
    matrix_u = drawn_matrix (drawn_element rng scale) rows rank;
    matrix_v = drawn_matrix (λ n. drawn_element rng scale (rank * rows + n)) cols rank;
  }

  -- The first tuple of an iteration; the storage is allocated with the dimensions of the state that
  -- is copied to it. Dimensions and rank are `uint16_t` numbers.
  unfoldable pub begin_iteration : Generator D → Start D → Outcome LmfError (LmfState D)
  unfolding initialize_model allocate
  begin_iteration rng (previous s) =
      unless_fault (allocate s.task.row_dim s.task.col_dim s.task.max_rank) >>= λ size. ok (reset s)
  begin_iteration rng (config row_dim column_dim max_rank stepsize scale_factor) = do
    reject (row_dim == 0) row_dim_zero
    reject (column_dim == 0) column_dim_zero
    reject (max_rank == 0) max_rank_zero
    reject (le stepsize nought) stepsize_not_positive
    reject (le scale_factor nought) scale_factor_not_positive
    size ← unless_fault (allocate row_dim column_dim max_rank)
    ok (
        reset (record {
          task = record {
            row_dim = row_dim;
            col_dim = column_dim;
            max_rank = max_rank;
            stepsize = stepsize;
            scale_factor = scale_factor;
            model = initialize_model rng scale_factor row_dim column_dim max_rank;
            rmse = nought;
          };
          algo = record {
            num_rows = 0;
            loss = nought;
            incr_model = record { matrix_u = []; matrix_v = [] };
          };
        }))

-- Over the product of a row and a transposed row of Eigen.
module _ {D : Type 0} ⦃d : Double D⦄ (dot : List D → List D → D) where
  open d use {add}

  unfoldable pub lmf_igd_transition :
      Generator D → Start D → LmfState D → LmfTuple D → Outcome LmfError (LmfState D)
  lmf_igd_transition rng start state tuple = do
    s ← if state.algo.num_rows == 0 then begin_iteration rng start else ok state
    reject (tuple.i == 0 || tuple.j == 0) index_zero
    unless_fault (lmf_step dot s (record tuple { i = tuple.i - 1; j = tuple.j - 1 }))

  -- The transitions of one iteration.
  unfoldable pub lmf_run :
      Generator D → Start D → LmfState D → List (LmfTuple D) → Outcome LmfError (LmfState D)
  lmf_run rng start s [] = ok s
  lmf_run rng start s (t ∷ ts) = lmf_igd_transition rng start s t >>= λ s'. lmf_run rng start s' ts

module _ {D : Type 0} ⦃d : Double D⦄ where
  open d use {of_uint, add, sub, div, lt, neg, nought}

  -- `none` is a failed assertion of Eigen on the sizes of the matrices.
  unfoldable pub lmf_igd_merge : LmfState D → LmfState D → Option (LmfState D)
  lmf_igd_merge left right =
      if left.algo.num_rows == 0
      then some right
      else if right.algo.num_rows == 0
      then some left
      else elim (igd_merge left right) [
        | none ↦ none
        | some s ↦ some (record s {
          algo = record {
            num_rows = s.algo.num_rows + right.algo.num_rows;
            loss = add s.algo.loss right.algo.loss;
            incr_model = s.algo.incr_model;
          };
        })
      ]

  -- `IGD::final`, then `computeRMSE`, over a square root; `none` is NULL.
  unfoldable pub lmf_igd_final : (D → D) → LmfState D → Option (LmfState D)
  lmf_igd_final sqrt s =
      if s.algo.num_rows == 0
      then none
      else some (record s {
        task = record s.task {
          model = s.algo.incr_model;
          rmse = sqrt (div s.algo.loss (of_uint s.algo.num_rows));
        };
      })
